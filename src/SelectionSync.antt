-- ===== src/SelectionSync.antt =====
-- web/src/App.tsx: the selection that all clients of a server share. The user's changes are written
-- to the server one at a time, and the server's selection is applied where nothing local is newer.
-- React renders after each step, so the values of the last render are those of the state.
pub mod Snapshot
pub mod Writes
mod Tests
use euphony.Prelude.{
  ℕ, ◌+◌, Bool, true, false, not, Option, some, none, String, List, [], ◌∷◌, ◌++◌, map, filter,
  ◌&&◌, ◌||◌, ◌==◌, if◌then◌else◌, truthy, or_else, includes, unique, ltb, leb, set_add,
}
use euphony.Workspace.{
  Workspace, write_workspace_to_url, selection_of, mark_local_selection_mutation,
}
use euphony.Workspace.Location.{HistoryMode, replace}
use euphony.Workspace.Filters.{CwdSelectionFilter, parse_cwd_filter, cwd_filter_key}

pub record SelectionFilters : Type 0 where
  pub statuses : List String
  pub cwds : List CwdSelectionFilter

pub record SelectionSnapshot : Type 0 where
  pub terminal_ids : List String
  pub manual_terminal_ids : List String
  pub pinned_terminal_ids : List String
  pub focused_terminal_id : Option String
  pub filters : SelectionFilters
  pub pinned_filters : Option SelectionFilters
  pub revision : ℕ

-- The request without its expected revision, which is added when it is sent.
pub record ReplaceSelectionRequest : Type 0 where
  pub manual_terminal_ids : List String
  pub pinned_terminal_ids : List String
  pub focused_terminal_id : Option String
  pub filters : SelectionFilters
  pub pinned_filters : SelectionFilters

pub record PendingRequest : Type 0 where
  pub request : ReplaceSelectionRequest
  pub local_version : ℕ

-- What `selectionSourceSignature` writes as JSON.
pub record SelectionSource : Type 0 where
  pub manual_terminal_ids : List String
  pub pinned_terminal_ids : List String
  pub focused_terminal_id : String
  pub filters : SelectionFilters
  pub pinned_filters : SelectionFilters

-- Where `flushSelectionWrites` waits for the server.
pub data WriteStage : Type 0 where
  replacing : (expected_revision : Option ℕ) → WriteStage
  refreshing : WriteStage

pub record SelectionSync : Type 0 where
  pub workspace : Workspace
  pub has_api : Bool
  pub sync_ready : Bool
  pub manual_selected_ids : List String
  pub filter_deselect_timers : List String
  pub expired_filter_deselect_ids : List String
  pub revision : Option ℕ
  pub server_source : Option SelectionSource
  pub pending_request : Option PendingRequest
  pub write_active : Bool
  pub active_write_version : Option ℕ
  pub synced_local_version : ℕ
  pub waiting : Option (PendingRequest × WriteStage)
  pub request_error : Bool

abbrev pub no_filters : SelectionFilters
no_filters = record { statuses = []; cwds = [] }

abbrev pub filter_keys : List CwdSelectionFilter → List String
filter_keys cwds = map (λ f. cwd_filter_key f.status f.cwd) cwds

source_of : SelectionSnapshot → SelectionSource
source_of snapshot = record {
  manual_terminal_ids = snapshot.manual_terminal_ids;
  pinned_terminal_ids = snapshot.pinned_terminal_ids;
  focused_terminal_id = or_else snapshot.focused_terminal_id "";
  filters = snapshot.filters;
  pinned_filters = or_else snapshot.pinned_filters no_filters;
}

unfoldable pub record_server_selection : SelectionSnapshot → SelectionSync → SelectionSync
unfolding source_of
record_server_selection snapshot s = record s {
  revision = some snapshot.revision;
  server_source = some (source_of snapshot);
}
