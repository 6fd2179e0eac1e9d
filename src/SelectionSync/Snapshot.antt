-- ===== src/SelectionSync/Snapshot.antt =====
-- web/src/App.tsx, `applyServerSelection` and `acceptServerSelection`.
use Prim.Native.String
use euphony.Prelude.{
  ℕ, Bool, true, false, not, Option, some, none, String, List, [], ◌∷◌, ◌++◌, map, filter, ◌&&◌,
  ◌||◌, ◌==◌, if◌then◌else◌, truthy, or_else, includes, unique, ltb, leb, length, set_add,
}
use euphony.Workspace.{Workspace, write_workspace_to_url, selection_of}
use euphony.Workspace.Location.{HistoryMode, replace}
use euphony.Workspace.Filters.{CwdSelectionFilter, separator, cwd_filter_key}
use euphony.SelectionSync.{
  SelectionSnapshot, SelectionSync, no_filters, filter_keys, record_server_selection,
}

-- `items.join("\0")`.
join_null : List String → String
join_null [] = ""
join_null (x ∷ []) = x
join_null (x ∷ y ∷ ys) = String.◌++◌ x (String.◌∷◌ separator (join_null (y ∷ ys)))

same_filter_source : SelectionSnapshot → Workspace → Bool
unfolding join_null cwd_filter_key
same_filter_source snapshot w =
    (join_null w.status_filters == join_null snapshot.filters.statuses)
    && join_null w.cwd_filters == join_null (filter_keys snapshot.filters.cwds)

-- A session that the snapshot takes from the selection, unless it is pinned.
is_leaving : SelectionSnapshot → Workspace → String → Bool
is_leaving snapshot w id =
    includes w.selected_ids id
    && (not (includes w.pinned_ids id) && not (includes snapshot.terminal_ids id))

-- `scheduleFilterDeselect` on each id: those that wait already keep their timer.
schedule_all : (String → Bool) → List String → List String → List String
unfolding set_add
schedule_all p [] timers = timers
schedule_all p (id ∷ ids) timers = schedule_all p ids (if p id then set_add timers id else timers)

schedule_filter_deselects : SelectionSnapshot → SelectionSync → SelectionSync
unfolding same_filter_source is_leaving schedule_all
schedule_filter_deselects snapshot s =
    let w = s.workspace in
    record s {
      filter_deselect_timers =
          if same_filter_source snapshot w
            && (ltb 0 (length w.status_filters) || ltb 0 (length w.cwd_filters))
          then schedule_all
              (λ id. is_leaving snapshot w id && not (includes s.expired_filter_deselect_ids id))
              w.filter_selected_ids s.filter_deselect_timers
          else s.filter_deselect_timers;
    }

-- `effectiveSnapshot`: what waits for its timer stays selected, and focused.
effective_ids : SelectionSnapshot → List String → List String
effective_ids snapshot [] = snapshot.terminal_ids
effective_ids snapshot (id ∷ ids) = unique (snapshot.terminal_ids ++ id ∷ ids)

effective_focus : SelectionSnapshot → List String → Option String → Option String
effective_focus snapshot preserved focused =
    if truthy focused && includes preserved (or_else focused "")
    then focused
    else snapshot.focused_terminal_id

-- The statuses of the cwd filters that are not checked as a whole.
decomposed : List CwdSelectionFilter → List String → List String
decomposed cwds statuses =
    unique (filter (λ status. not (includes statuses status)) (map (λ f. f.status) cwds))

-- The workspace of a snapshot, with the ids that are preserved.
snapshot_workspace : SelectionSnapshot → List String → Workspace → Workspace
unfolding effective_ids effective_focus decomposed cwd_filter_key
snapshot_workspace snapshot preserved w =
    let pinned_filters = or_else snapshot.pinned_filters no_filters in
    let ids = effective_ids snapshot preserved in
    record w {
      selected_ids = ids;
      pinned_ids = snapshot.pinned_terminal_ids;
      focused_id = effective_focus snapshot preserved w.focused_id;
      status_filters = snapshot.filters.statuses;
      cwd_filters = filter_keys snapshot.filters.cwds;
      pinned_status_filters = pinned_filters.statuses;
      pinned_cwd_filters = filter_keys pinned_filters.cwds;
      filter_selected_ids = unique (
          filter
            (λ id.
              not (includes snapshot.manual_terminal_ids id)
              && not (includes snapshot.pinned_terminal_ids id))
            ids);
      decomposed_status_filters = decomposed snapshot.filters.cwds snapshot.filters.statuses;
      decomposed_pinned_status_filters = decomposed pinned_filters.cwds pinned_filters.statuses;
    }

preserved_ids : SelectionSnapshot → SelectionSync → List String
unfolding is_leaving
preserved_ids snapshot s =
    unique (filter (is_leaving snapshot s.workspace) s.filter_deselect_timers)

unfoldable pub apply_server_selection :
    SelectionSnapshot → HistoryMode → SelectionSync → SelectionSync
unfolding schedule_filter_deselects preserved_ids snapshot_workspace record_server_selection
    write_workspace_to_url
apply_server_selection snapshot mode s =
    let scheduled = schedule_filter_deselects snapshot s in
    let next = snapshot_workspace snapshot (preserved_ids snapshot scheduled) s.workspace in
    record_server_selection snapshot (record scheduled {
      workspace =
          write_workspace_to_url (selection_of next) mode s.workspace.history.current.pathname next;
      manual_selected_ids = unique snapshot.manual_terminal_ids;
    })

is_stale : ℕ → Option ℕ → Bool
is_stale revision none = false
is_stale revision (some current) = leb revision current

abbrev pub is_some : {A : Type 0} → Option A → Bool
is_some none = false
is_some (some a) = true

unfoldable pub has_unsynced_local_selection : SelectionSync → Bool
has_unsynced_local_selection s =
    ltb s.synced_local_version s.workspace.local_version
    || (is_some s.pending_request || is_some s.active_write_version)

unfoldable pub accept_server_selection : SelectionSnapshot → SelectionSync → SelectionSync
unfolding is_stale has_unsynced_local_selection apply_server_selection record_server_selection
accept_server_selection snapshot s =
    if is_stale snapshot.revision s.revision
    then s
    else if has_unsynced_local_selection s
    then record_server_selection snapshot s
    else apply_server_selection snapshot replace s
