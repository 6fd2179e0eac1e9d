-- ===== src/WorkspaceFiles.antt =====
-- web/src/components/WorkspaceFilesView.tsx: the state of the file browser and its reducer. The
-- requests that the view makes for it are in Requests.
pub mod Requests
mod Tests
use euphony.Prelude.{
  ℕ, ◌+◌, Bool, true, false, not, Option, some, none, String, List, [], ◌∷◌, ◌++◌, filter, map_get,
  map_set, set_add, includes, if◌then◌else◌, ◌==◌,
}

pub data WorkspaceEntryKind : Type 0 where
  file directory symlink other : WorkspaceEntryKind

pub record WorkspaceEntry : Type 0 where
  pub name : String
  pub path : String
  pub kind : WorkspaceEntryKind
  pub size : Option ℕ

pub record WorkspaceDirectory : Type 0 where
  pub root : String
  pub path : String
  pub entries : List WorkspaceEntry
  pub truncated : Option Bool

pub record WorkspaceSearchResult : Type 0 where
  pub root : String
  pub query : String
  pub matches : List WorkspaceEntry
  pub truncated : Option Bool

pub record WorkspaceFile : Type 0 where
  pub root : String
  pub name : String
  pub path : String
  pub size : ℕ
  pub mime_type : Option String
  pub content : Option String
  pub binary : Option Bool
  pub truncated : Option Bool

pub record WorkspaceFilesState : Type 0 where
  pub directories : List (String × WorkspaceDirectory)
  pub expanded : List String
  pub loading_directories : List String
  pub directory_errors : List String
  pub root_loading : Bool
  pub root_error : Option String
  pub refresh_version : ℕ
  pub query : String
  pub search_result : Option WorkspaceSearchResult
  pub searching : Bool
  pub search_error : Bool
  pub selected_path : Option String
  pub selected_file : Option WorkspaceFile
  pub file_loading : Bool
  pub file_error : Bool

abbrev pub initial_workspace_files_state : WorkspaceFilesState
initial_workspace_files_state = record {
  directories = [];
  expanded = [];
  loading_directories = [];
  directory_errors = [];
  root_loading = false;
  root_error = none;
  refresh_version = 0;
  query = "";
  search_result = none;
  searching = false;
  search_error = false;
  selected_path = none;
  selected_file = none;
  file_loading = false;
  file_error = false;
}

pub data WorkspaceFilesAction : Type 0 where
  root_request_started root_request_finished search_cleared search_request_started search_failed
        file_request_started file_failed refresh_requested :
      WorkspaceFilesAction
  root_loaded : WorkspaceDirectory → WorkspaceFilesAction
  root_failed query_changed file_selected directory_request_started directory_failed
        directory_toggled :
      String → WorkspaceFilesAction
  search_loaded : WorkspaceSearchResult → WorkspaceFilesAction
  file_loaded : WorkspaceFile → WorkspaceFilesAction
  directory_loaded : String → WorkspaceDirectory → WorkspaceFilesAction

-- `set.delete(path)`.
abbrev pub set_delete : List String → String → List String
set_delete set path = filter (λ item. not (item == path)) set

-- The file that is shown stays if its path is selected again.
keep_file : Option WorkspaceFile → String → Option WorkspaceFile
keep_file none path = none
keep_file (some shown) path = if shown.path == path then some shown else none

only_root : List (String × WorkspaceDirectory) → List (String × WorkspaceDirectory)
unfolding map_get
only_root directories = elim (map_get directories "") [ none ↦ [] | some root ↦ ("", root) ∷ [] ]

unfoldable pub workspace_files_reducer :
    WorkspaceFilesAction → WorkspaceFilesState → WorkspaceFilesState
unfolding map_set set_add keep_file only_root
workspace_files_reducer root_request_started s = record s { root_loading = true }
workspace_files_reducer (root_loaded listing) s = record s {
  directories = map_set s.directories "" listing;
  root_error = none;
}
workspace_files_reducer (root_failed error) s = record s { root_error = some error }
workspace_files_reducer root_request_finished s = record s { root_loading = false }
workspace_files_reducer (query_changed query) s = record s { query = query }
workspace_files_reducer search_cleared s = record s {
  search_result = none;
  searching = false;
  search_error = false;
}
workspace_files_reducer search_request_started s = record s { searching = true }
workspace_files_reducer (search_loaded result) s = record s {
  search_result = some result;
  searching = false;
  search_error = false;
}
workspace_files_reducer search_failed s = record s {
  search_result = none;
  searching = false;
  search_error = true;
}
workspace_files_reducer (file_selected path) s = record s {
  selected_path = some path;
  selected_file = keep_file s.selected_file path;
}
workspace_files_reducer file_request_started s = record s {
  file_loading = true;
  file_error = false;
}
workspace_files_reducer (file_loaded loaded) s = record s {
  selected_file = some loaded;
  file_loading = false;
}
workspace_files_reducer file_failed s = record s {
  selected_file = none;
  file_loading = false;
  file_error = true;
}
workspace_files_reducer (directory_request_started path) s = record s {
  directory_errors = set_delete s.directory_errors path;
  loading_directories = set_add s.loading_directories path;
}
workspace_files_reducer (directory_loaded path listing) s = record s {
  directories = map_set s.directories path listing;
  loading_directories = set_delete s.loading_directories path;
}
workspace_files_reducer (directory_failed path) s = record s {
  directory_errors = set_add s.directory_errors path;
  loading_directories = set_delete s.loading_directories path;
}
workspace_files_reducer (directory_toggled path) s = record s {
  expanded =
      if includes s.expanded path then set_delete s.expanded path else set_add s.expanded path;
}
workspace_files_reducer refresh_requested s = record s {
  directories = only_root s.directories;
  expanded = [];
  loading_directories = [];
  directory_errors = [];
  refresh_version = s.refresh_version + 1;
}
