-- ===== src/WorkspaceFiles/Requests/Loading.antt =====
-- What is shown as loading, and the requests in flight.
use euphony.Prelude.{
  ℕ, ◌≡◌, refl, Bool, true, false, not, Option, some, none, String, List, [], ◌∷◌, ◌&&◌, map_get,
  includes, if◌then◌else◌, ◌==◌, truthy, eqb, arith, eq_iff, set_add, includes-filter,
  includes-set_add,
}
use euphony.WorkspaceFiles.{
  WorkspaceFile, WorkspaceDirectory, WorkspaceFilesAction, set_delete, workspace_files_reducer,
  directory_loaded, directory_failed, directory_toggled,
}
use euphony.WorkspaceFiles.Requests.{
  DirectoryRequest, FilesView, is_some, dispatch, request_root, request_file, set_active,
  refresh_workspace, root_answered, root_refused, same_path, open_file, file_answered, file_refused,
  load_directory, has_directory_entry, click_directory, requested, settle, answer_directory,
  directory_answered, directory_refused, create, Step, activates, refreshes, root_answers,
  root_refuses, file_opens, file_answers, file_refuses, directory_clicks, directory_answers,
  directory_refuses, Reach, start, next,
}

-- In an open view, the root is shown as loading exactly while it is asked for, and so is a file.
pub record IsAwaited (v : FilesView) : Type 0 where
  pub root : v.active ≡ true → v.state.root_loading ≡ v.root_request
  pub file :
      v.active ≡ true
      → truthy v.state.selected_path ≡ true
      → v.state.file_loading ≡ is_some v.file_request

-- A directory that is shown as loading has a request of the current generation in flight, and is
-- not shown as failed.
abbrev pub IsRequested : List String → List String → ℕ → List DirectoryRequest → Type 0
IsRequested loading errors generation requests =
    (p : String)
    → includes loading p ≡ true
    → (requested (record { path = p; generation = generation }) requests ≡ true)
      × (includes errors p ≡ false)

pub record IsLoading (v : FilesView) : Type 0 where
  pub awaited : IsAwaited v
  pub directories :
      IsRequested v.state.loading_directories v.state.directory_errors v.generation
        v.directory_requests

set_active-IsLoading :
    (active : Bool) (v : FilesView) → IsLoading v → IsLoading (set_active active v)
unfolding set_active request_file request_root dispatch workspace_files_reducer
set_active-IsLoading active v h = ground arith

refresh_workspace-IsLoading : (v : FilesView) → IsLoading (refresh_workspace v)
unfolding refresh_workspace request_file request_root dispatch workspace_files_reducer
refresh_workspace-IsLoading v = ground arith

root_answered-IsLoading :
    (listing : WorkspaceDirectory) (v : FilesView)
    → IsLoading v
    → IsLoading (root_answered listing v)
unfolding root_answered dispatch workspace_files_reducer
root_answered-IsLoading listing v h = ground arith

root_refused-IsLoading :
    (error : String) (v : FilesView) → IsLoading v → IsLoading (root_refused error v)
unfolding root_refused dispatch workspace_files_reducer
root_refused-IsLoading error v h = ground arith

same_path-some :
    (selected : Option String) (path : String)
    → same_path selected path ≡ true
    → selected ≡ some path
unfolding same_path
same_path-some none path h = cc
same_path-some (some x) path h = ground (arith, eq_iff x path)

open_file-IsLoading : (path : String) (v : FilesView) → IsLoading v → IsLoading (open_file path v)
unfolding open_file request_file dispatch workspace_files_reducer
open_file-IsLoading path v h = ground (arith, same_path-some v.state.selected_path path)

file_answered-IsLoading :
    (loaded : WorkspaceFile) (v : FilesView) → IsLoading v → IsLoading (file_answered loaded v)
unfolding file_answered dispatch workspace_files_reducer
file_answered-IsLoading loaded v h = ground arith

file_refused-IsLoading : (v : FilesView) → IsLoading v → IsLoading (file_refused v)
unfolding file_refused dispatch workspace_files_reducer
file_refused-IsLoading v h = ground arith

load_directory-IsLoading :
    (path : String) (v : FilesView) → IsLoading v → IsLoading (load_directory path v)
unfolding load_directory dispatch workspace_files_reducer
load_directory-IsLoading path v h = record {
  awaited = record { root = h.awaited.root; file = h.awaited.file };
  directories = λ p k. ground (
    arith,
    h.directories p,
    includes-set_add v.state.loading_directories path p,
    includes-filter (λ item. not (item == path)) v.state.directory_errors p,
    eq_iff p path,
    eq_iff path p,
  );
}

toggled-IsLoading :
    (path : String) (v : FilesView) → IsLoading v → IsLoading (dispatch (directory_toggled path) v)
unfolding dispatch workspace_files_reducer
toggled-IsLoading path v h = record {
  awaited = record { root = h.awaited.root; file = h.awaited.file };
  directories = h.directories;
}

either-IsLoading :
    (test : Bool) (v w : FilesView)
    → IsLoading v
    → (test ≡ false → IsLoading w)
    → IsLoading (if test then v else w)
either-IsLoading true v w h k = h
either-IsLoading false v w h k = k refl

click_directory-IsLoading :
    (path : String) (v : FilesView) → IsLoading v → IsLoading (click_directory path v)
unfolding click_directory
click_directory-IsLoading path v h =
    let toggled = toggled-IsLoading path v h in
    either-IsLoading
      (has_directory_entry v.state.directories path
        && (not (is_some (map_get v.state.directories path))
            && not (includes v.state.loading_directories path)))
      (load_directory path (dispatch (directory_toggled path) v))
      (dispatch (directory_toggled path) v)
      (load_directory-IsLoading path (dispatch (directory_toggled path) v) toggled) (λ e. toggled)

-- Another request than the one that is answered stays in flight.
settle_other :
    (r q : DirectoryRequest) (qs : List DirectoryRequest)
    → (r.path ≡ q.path → r.generation ≡ q.generation → ⊥)
    → requested q qs ≡ true
    → requested q (settle r qs) ≡ true
settle_other r q [] h k = k
settle_other r q (x ∷ qs) h k =
    ground (arith, settle_other r q qs h, eq_iff r.path x.path, eq_iff q.path x.path)

module _ (loading errors : List String) (g : ℕ) (requests : List DirectoryRequest)
    (r : DirectoryRequest) where
  stale-IsRequested :
      eqb g r.generation ≡ false
      → IsRequested loading errors g requests
      → IsRequested loading errors g (settle r requests)
  stale-IsRequested e h p k = (
    settle_other r (record { path = p; generation = g }) requests (λ a b. ground arith) (h p k).0,
    (h p k).1,
  )

  loaded-IsRequested :
      IsRequested loading errors g requests
      → IsRequested (set_delete loading r.path) errors g (settle r requests)
  loaded-IsRequested h p k =
      let kept = includes-filter (λ item. not (item == r.path)) loading p in
      let old : includes loading p ≡ true = ground (arith, kept) in
      (
        settle_other r (record { path = p; generation = g }) requests
            (λ a b. ground (arith, kept, eq_iff p r.path)) (h p old).0,
        (h p old).1,
      )

  failed-IsRequested :
      IsRequested loading errors g requests
      → IsRequested (set_delete loading r.path) (set_add errors r.path) g (settle r requests)
  failed-IsRequested h p k =
      let loaded = loaded-IsRequested h p k in
      let kept = includes-filter (λ item. not (item == r.path)) loading p in
      (
        loaded.0,
        ground (
          arith,
          loaded.1,
          kept,
          includes-set_add errors r.path p,
          eq_iff p r.path,
          eq_iff r.path p,
        ),
      )

-- An answer that counts, and one that a refresh has overtaken.
answer_directory-IsLoading :
    (r : DirectoryRequest) (action : WorkspaceFilesAction) (v : FilesView)
    → IsLoading v
    → IsLoading (dispatch action (record v { directory_requests = settle r v.directory_requests }))
    → IsLoading (answer_directory r action v)
unfolding answer_directory
answer_directory-IsLoading r action v h counted =
    let answered = record v { directory_requests = settle r v.directory_requests } in
    let counts = eqb v.generation r.generation in
    either-IsLoading (requested r v.directory_requests)
      (if counts then dispatch action answered else answered) v
      (either-IsLoading counts (dispatch action answered) answered counted (λ e. record {
        awaited = record { root = h.awaited.root; file = h.awaited.file };
        directories =
            stale-IsRequested v.state.loading_directories v.state.directory_errors v.generation
              v.directory_requests r e h.directories;
      }))
      (λ e. h)

directory_answered-IsLoading :
    (r : DirectoryRequest) (listing : WorkspaceDirectory) (v : FilesView)
    → IsLoading v
    → IsLoading (directory_answered r listing v)
unfolding directory_answered dispatch workspace_files_reducer
directory_answered-IsLoading r listing v h =
    answer_directory-IsLoading r (directory_loaded r.path listing) v h (record {
      awaited = record { root = h.awaited.root; file = h.awaited.file };
      directories =
          loaded-IsRequested v.state.loading_directories v.state.directory_errors v.generation
            v.directory_requests r h.directories;
    })

directory_refused-IsLoading :
    (r : DirectoryRequest) (v : FilesView) → IsLoading v → IsLoading (directory_refused r v)
unfolding directory_refused dispatch workspace_files_reducer
directory_refused-IsLoading r v h =
    answer_directory-IsLoading r (directory_failed r.path) v h (record {
      awaited = record { root = h.awaited.root; file = h.awaited.file };
      directories =
          failed-IsRequested v.state.loading_directories v.state.directory_errors v.generation
            v.directory_requests r h.directories;
    })

create-IsLoading : (active : Bool) → IsLoading (create active)
unfolding create set_active request_file request_root dispatch workspace_files_reducer
create-IsLoading active = ground arith

Step-IsLoading : {v w : FilesView} → IsLoading v → Step v w → IsLoading w
Step-IsLoading {v} h (activates active) = set_active-IsLoading active v h
Step-IsLoading {v} h refreshes = refresh_workspace-IsLoading v
Step-IsLoading {v} h (root_answers listing) = root_answered-IsLoading listing v h
Step-IsLoading {v} h (root_refuses error) = root_refused-IsLoading error v h
Step-IsLoading {v} h (file_opens path) = open_file-IsLoading path v h
Step-IsLoading {v} h (file_answers loaded) = file_answered-IsLoading loaded v h
Step-IsLoading {v} h file_refuses = file_refused-IsLoading v h
Step-IsLoading {v} h (directory_clicks path) = click_directory-IsLoading path v h
Step-IsLoading {v} h (directory_answers r listing) = directory_answered-IsLoading r listing v h
Step-IsLoading {v} h (directory_refuses r) = directory_refused-IsLoading r v h

-- Whatever the user and the server do: in an open view the root, and the selected file, are shown
-- as loading exactly while they are asked for, and a directory that is shown as loading has a
-- request in flight whose answer will count, and is not shown as failed.
pub Reach-IsLoading : {v : FilesView} → Reach v → IsLoading v
Reach-IsLoading (start active) = create-IsLoading active
Reach-IsLoading (next reached step) = Step-IsLoading (Reach-IsLoading reached) step
