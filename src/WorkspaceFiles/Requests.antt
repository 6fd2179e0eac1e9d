-- ===== src/WorkspaceFiles/Requests.antt =====
-- web/src/components/WorkspaceFilesView.tsx, the effects and handlers of the view: a request for
-- the root and one for the selected file, which a new one or a closed view replaces, and any number
-- of requests for directories, whose answers count only until the next refresh. The session of the
-- view stays the same; the search and the preview of images are left out.
pub mod Loading
use euphony.Prelude.{
  ℕ, ◌+◌, Bool, true, false, not, Option, some, none, String, List, [], ◌∷◌, ◌++◌, any, ◌&&◌, ◌||◌,
  map_get, includes, if◌then◌else◌, ◌==◌, truthy, or_else, eqb,
}
use euphony.WorkspaceFiles.{
  WorkspaceEntryKind, file, directory, symlink, other, WorkspaceEntry, WorkspaceDirectory,
  WorkspaceFile, WorkspaceFilesState, initial_workspace_files_state, WorkspaceFilesAction,
  root_request_started, root_loaded, root_failed, root_request_finished, file_selected,
  file_request_started, file_loaded, file_failed, directory_request_started, directory_loaded,
  directory_failed, directory_toggled, refresh_requested, workspace_files_reducer,
}

pub record DirectoryRequest : Type 0 where
  pub path : String
  pub generation : ℕ

-- `root_request` and `file_request` are the requests that are still `current`, the latter the path that was asked for.
pub record FilesView : Type 0 where
  pub state : WorkspaceFilesState
  pub active : Bool
  pub generation : ℕ
  pub root_request : Bool
  pub file_request : Option String
  pub directory_requests : List DirectoryRequest

abbrev pub is_some : {A : Type 0} → Option A → Bool
is_some none = false
is_some (some a) = true

-- A state update by the reducer.
dispatch : WorkspaceFilesAction → FilesView → FilesView
unfolding workspace_files_reducer
dispatch action v = record v { state = workspace_files_reducer action v.state }

-- The effects run again: what they asked for before is forgotten.
request_root : FilesView → FilesView
unfolding dispatch
request_root v =
    if v.active
    then dispatch root_request_started (record v { root_request = true })
    else record v { root_request = false }

request_file : FilesView → FilesView
unfolding dispatch
request_file v =
    if v.active && truthy v.state.selected_path
    then dispatch file_request_started (record v { file_request = v.state.selected_path })
    else record v { file_request = none }

unfoldable pub set_active : Bool → FilesView → FilesView
unfolding request_root request_file
set_active active v = request_file (request_root (record v { active = active }))

unfoldable pub refresh_workspace : FilesView → FilesView
unfolding request_root request_file dispatch
refresh_workspace v =
    request_file
      (request_root (dispatch refresh_requested (record v { generation = v.generation + 1 })))

unfoldable pub root_answered : WorkspaceDirectory → FilesView → FilesView
unfolding dispatch
root_answered listing v =
    if v.root_request
    then dispatch root_request_finished
        (dispatch (root_loaded listing) (record v { root_request = false }))
    else v

unfoldable pub root_refused : String → FilesView → FilesView
unfolding dispatch
root_refused error v =
    if v.root_request
    then dispatch root_request_finished
        (dispatch (root_failed error) (record v { root_request = false }))
    else v

same_path : Option String → String → Bool
same_path none path = false
same_path (some selected) path = selected == path

-- `openFile`: the effect runs again if the selected path changed.
unfoldable pub open_file : String → FilesView → FilesView
unfolding request_file dispatch same_path
open_file path v =
    if same_path v.state.selected_path path
    then dispatch (file_selected path) v
    else request_file (dispatch (file_selected path) v)

unfoldable pub file_answered : WorkspaceFile → FilesView → FilesView
unfolding dispatch
file_answered loaded v =
    if is_some v.file_request
    then dispatch (file_loaded loaded) (record v { file_request = none })
    else v

unfoldable pub file_refused : FilesView → FilesView
unfolding dispatch
file_refused v =
    if is_some v.file_request then dispatch file_failed (record v { file_request = none }) else v

load_directory : String → FilesView → FilesView
unfolding dispatch
load_directory path v = dispatch (directory_request_started path) (record v {
  directory_requests = record { path = path; generation = v.generation } ∷ v.directory_requests;
})

is_directory : WorkspaceEntryKind → Bool
is_directory directory = true
is_directory file = false
is_directory symlink = false
is_directory other = false

-- `directoryEntries.get(path)` is an entry.
has_directory_entry : List (String × WorkspaceDirectory) → String → Bool
unfolding is_directory
has_directory_entry directories path =
    any (λ d. any (λ entry. is_directory entry.kind && entry.path == path) d.1.entries) directories

-- A click on a folder of the tree.
unfoldable pub click_directory : String → FilesView → FilesView
unfolding dispatch load_directory has_directory_entry map_get
click_directory path v =
    let toggled = dispatch (directory_toggled path) v in
    if has_directory_entry v.state.directories path
      && (not (is_some (map_get v.state.directories path))
          && not (includes v.state.loading_directories path))
    then load_directory path toggled
    else toggled

abbrev pub requested : DirectoryRequest → List DirectoryRequest → Bool
requested r [] = false
requested r (q ∷ qs) = (r.path == q.path && eqb r.generation q.generation) || requested r qs

-- The request has got its answer.
abbrev pub settle : DirectoryRequest → List DirectoryRequest → List DirectoryRequest
settle r [] = []
settle r (q ∷ qs) =
    if r.path == q.path && eqb r.generation q.generation then qs else q ∷ settle r qs

-- The answer to a request that is in flight counts if no refresh came between.
answer_directory : DirectoryRequest → WorkspaceFilesAction → FilesView → FilesView
unfolding dispatch
answer_directory r action v =
    if requested r v.directory_requests
    then (let answered = record v { directory_requests = settle r v.directory_requests } in
        if eqb v.generation r.generation then dispatch action answered else answered)
    else v

unfoldable pub directory_answered : DirectoryRequest → WorkspaceDirectory → FilesView → FilesView
unfolding answer_directory
directory_answered r listing = answer_directory r (directory_loaded r.path listing)

unfoldable pub directory_refused : DirectoryRequest → FilesView → FilesView
unfolding answer_directory
directory_refused r = answer_directory r (directory_failed r.path)

unfoldable pub create : Bool → FilesView
unfolding set_active
create active = set_active active (record {
  state = initial_workspace_files_state;
  active = active;
  generation = 0;
  root_request = false;
  file_request = none;
  directory_requests = [];
})

pub data Step (v : FilesView) : FilesView → Type 0 where
  activates : (active : Bool) → Step v (set_active active v)
  refreshes : Step v (refresh_workspace v)
  root_answers : (listing : WorkspaceDirectory) → Step v (root_answered listing v)
  root_refuses : (error : String) → Step v (root_refused error v)
  file_opens : (path : String) → Step v (open_file path v)
  file_answers : (loaded : WorkspaceFile) → Step v (file_answered loaded v)
  file_refuses : Step v (file_refused v)
  directory_clicks : (path : String) → Step v (click_directory path v)
  directory_answers :
      (r : DirectoryRequest) (listing : WorkspaceDirectory)
      → Step v (directory_answered r listing v)
  directory_refuses : (r : DirectoryRequest) → Step v (directory_refused r v)

pub data Reach : FilesView → Type 0 where
  start : (active : Bool) → Reach (create active)
  next : {v w : FilesView} → Reach v → Step v w → Reach w
