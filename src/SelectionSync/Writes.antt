-- ===== src/SelectionSync/Writes.antt =====
-- web/src/App.tsx: `flushSelectionWrites`, with the effect that asks for a write. The server's
-- answers come at any time while a write waits for one.
pub mod Queue
pub mod Kept
use euphony.Prelude.{
  ℕ, ◌+◌, ◌≡◌, Bool, true, false, not, Option, some, none, String, List, [], ◌∷◌, ◌++◌, map, filter,
  ◌&&◌, ◌||◌, ◌==◌, if◌then◌else◌, truthy, or_else, includes, ltb,
}
use euphony.Workspace.{Workspace, mark_local_selection_mutation}
use euphony.Workspace.Location.{HistoryMode, push, replace}
use euphony.Workspace.Filters.{CwdSelectionFilter, parse_cwd_filter}
use euphony.SelectionSync.{
  SelectionFilters, SelectionSnapshot, ReplaceSelectionRequest, SelectionSource, SelectionSync,
  PendingRequest, WriteStage, replacing, refreshing, record_server_selection,
}
use euphony.SelectionSync.Snapshot.{apply_server_selection, accept_server_selection, is_some}

-- The head of the loop: the pending request is sent, or the writer is done.
unfoldable pub next_write : SelectionSync → SelectionSync
next_write s = elim s.pending_request [
  | none ↦ record s { write_active = false; active_write_version = none; waiting = none }
  | some pending ↦ record s {
    pending_request = none;
    active_write_version = some pending.local_version;
    waiting = some (pending, replacing s.revision);
  }
]

unfoldable pub flush_selection_writes : SelectionSync → SelectionSync
unfolding next_write
flush_selection_writes s =
    if not s.has_api || s.write_active then s else next_write (record s { write_active = true })

-- `break`: the writer ends, and starts again if a request came meanwhile.
stop_writing : SelectionSync → SelectionSync
unfolding flush_selection_writes
stop_writing s =
    let stopped = record s {
      request_error = true;
      active_write_version = none;
      waiting = none;
      write_active = false;
    } in
    if is_some s.pending_request then flush_selection_writes stopped else stopped

-- The answer to `replaceSelection`.
write_answered : PendingRequest → SelectionSnapshot → SelectionSync → SelectionSync
unfolding next_write record_server_selection apply_server_selection
write_answered pending snapshot s =
    if is_some s.pending_request || ltb pending.local_version s.workspace.local_version
    then next_write (record_server_selection snapshot s)
    else next_write (
        apply_server_selection snapshot replace
          (record s { synced_local_version = pending.local_version }))

-- The answer to `getSelection` after a conflict: the write is tried again, unless a newer one waits.
refresh_answered : PendingRequest → SelectionSnapshot → SelectionSync → SelectionSync
unfolding next_write record_server_selection
refresh_answered pending snapshot s =
    let recorded = record_server_selection snapshot s in
    next_write (record recorded {
      pending_request = if is_some s.pending_request then s.pending_request else some pending;
    })

pub data Answer : Type 0 where
  accepted : SelectionSnapshot → Answer
  conflict failed : Answer

unfoldable pub answer_write : Answer → SelectionSync → SelectionSync
unfolding write_answered refresh_answered stop_writing
answer_write answer s = elim s.waiting [
  | none ↦ s
  | some (pending, replacing expected) ↦ elim answer [
    | accepted snapshot ↦ write_answered pending snapshot s
    | conflict ↦ record s { waiting = some (pending, refreshing) }
    | failed ↦ stop_writing s
  ]
  | some (pending, refreshing) ↦ elim answer [
    | accepted snapshot ↦ refresh_answered pending snapshot s
    | conflict ↦ stop_writing s
    | failed ↦ stop_writing s
  ]
]

abbrev pub texts_equal : List String → List String → Bool
texts_equal [] [] = true
texts_equal (x ∷ xs) (y ∷ ys) = (x == y) && texts_equal xs ys
texts_equal _ _ = false

cwds_equal : List CwdSelectionFilter → List CwdSelectionFilter → Bool
cwds_equal [] [] = true
cwds_equal (x ∷ xs) (y ∷ ys) = (x.status == y.status) && ((x.cwd == y.cwd) && cwds_equal xs ys)
cwds_equal _ _ = false

filters_equal : SelectionFilters → SelectionFilters → Bool
unfolding cwds_equal
filters_equal a b = texts_equal a.statuses b.statuses && cwds_equal a.cwds b.cwds

-- The comparison of two signatures, which are JSON texts of the same shape; the server's is empty
-- before the first snapshot.
sources_equal : SelectionSource → Option SelectionSource → Bool
unfolding filters_equal
sources_equal a none = false
sources_equal a (some b) =
    texts_equal a.manual_terminal_ids b.manual_terminal_ids
    && (texts_equal a.pinned_terminal_ids b.pinned_terminal_ids
        && ((a.focused_terminal_id == b.focused_terminal_id)
            && (filters_equal a.filters b.filters
                && filters_equal a.pinned_filters b.pinned_filters)))

parsed_filters : List String → List CwdSelectionFilter
unfolding parse_cwd_filter
parsed_filters [] = []
parsed_filters (key ∷ keys) = elim (parse_cwd_filter key) [
  | none ↦ parsed_filters keys
  | some filter ↦ filter ∷ parsed_filters keys
]

manual_ids : SelectionSync → List String
manual_ids s =
    let w = s.workspace in
    filter
      (λ id.
        not (includes w.filter_selected_ids id)
        && (not (includes w.pinned_ids id) || includes s.manual_selected_ids id))
      w.selected_ids

-- The request that writes the selection of the state.
selection_request : SelectionSync → ReplaceSelectionRequest
unfolding parsed_filters manual_ids
selection_request s =
    let w = s.workspace in
    record {
      manual_terminal_ids = manual_ids s;
      pinned_terminal_ids = w.pinned_ids;
      focused_terminal_id = if truthy w.focused_id then w.focused_id else none;
      filters = record { statuses = w.status_filters; cwds = parsed_filters w.cwd_filters };
      pinned_filters = record {
        statuses = w.pinned_status_filters;
        cwds = parsed_filters w.pinned_cwd_filters;
      };
    }

local_source : SelectionSync → SelectionSource
unfolding selection_request
local_source s =
    let r = selection_request s in
    record {
      manual_terminal_ids = r.manual_terminal_ids;
      pinned_terminal_ids = r.pinned_terminal_ids;
      focused_terminal_id = or_else s.workspace.focused_id "";
      filters = r.filters;
      pinned_filters = r.pinned_filters;
    }

-- The effect that runs when the selection has changed.
unfoldable pub sync_selection_effect : SelectionSync → SelectionSync
unfolding flush_selection_writes sources_equal selection_request local_source
sync_selection_effect s =
    if not s.workspace.sync_selection || (not s.has_api || not s.sync_ready)
    then s
    else if sources_equal (local_source s) s.server_source && not s.write_active
    then record s { synced_local_version = s.workspace.local_version }
    else flush_selection_writes (record s {
      pending_request =
          some
            (record { request = selection_request s; local_version = s.workspace.local_version });
    })

-- The timer of an id is over.
unfoldable pub expire_filter_deselect : String → SelectionSync → SelectionSync
expire_filter_deselect id s = record s {
  filter_deselect_timers = filter (λ item. not (item == id)) s.filter_deselect_timers;
  expired_filter_deselect_ids =
      if includes s.expired_filter_deselect_ids id
      then s.expired_filter_deselect_ids
      else s.expired_filter_deselect_ids ++ id ∷ [];
}

-- A change of the user leaves any workspace, with a new version. The selection of the first load,
-- and that in the answer to a request that creates or resumes a session, is adopted at once,
-- whatever the user has changed.
pub data Step (s : SelectionSync) : SelectionSync → Type 0 where
  edits :
      (w : Workspace)
      → w.local_version ≡ s.workspace.local_version + 1
      → Step s (record s { workspace = w })
  syncs : Step s (sync_selection_effect s)
  answers : (answer : Answer) → Step s (answer_write answer s)
  accepts : (snapshot : SelectionSnapshot) → Step s (accept_server_selection snapshot s)
  adopts :
      (snapshot : SelectionSnapshot) (mode : HistoryMode)
      → Step s (apply_server_selection snapshot mode s)
  expires : (id : String) → Step s (expire_filter_deselect id s)

-- A new client, with its first workspace.
unfoldable pub create : Workspace → Bool → SelectionSync
create w has_api = record {
  workspace = record w { local_version = 0 };
  has_api = has_api;
  sync_ready = true;
  manual_selected_ids = [];
  filter_deselect_timers = [];
  expired_filter_deselect_ids = [];
  revision = none;
  server_source = none;
  pending_request = none;
  write_active = false;
  active_write_version = none;
  synced_local_version = 0;
  waiting = none;
  request_error = false;
}

pub data Reach : SelectionSync → Type 0 where
  start : (w : Workspace) (has_api : Bool) → Reach (create w has_api)
  next : {s t : SelectionSync} → Reach s → Step s t → Reach t
