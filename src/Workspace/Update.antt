-- ===== src/Workspace/Update.antt =====
-- web/src/App.tsx: the status and cwd filters, checked one by one or selected alone
-- (`updateWorkspaceFilters`, `updateStatusFilter`, `updateCwdFilter`, `selectStatus`, `selectCwd`).
pub mod Consistency
pub mod Selecting
pub mod Covering
pub mod Siblings
pub mod Directories
use euphony.Prelude.{
  Bool, true, false, not, Option, some, none, String, List, [], ◌∷◌, ◌++◌, map, filter, all, ◌&&◌,
  ◌||◌, ◌==◌, length, ltb, if◌then◌else◌, includes, unique, set_add, is_set,
}
use euphony.Session.{Session, session_activity}
use euphony.Workspace.Filters.{cwd_filter_key, parse_cwd_filter}
use euphony.Workspace.Location.{push}
use euphony.Workspace.Select.{FilterLists, without_status, sibling_cwd_filters}
use euphony.Workspace.{
  Workspace, available, matching_ids, without, keep_focus, mark_local_selection_mutation,
  write_workspace_to_url, selection_of,
}

-- A pinned cwd filter that can be read and whose status is not pinned as a whole.
pub is_separate_cwd : List String → String → Bool
is_separate_cwd pinned_statuses key = elim (parse_cwd_filter key) [
  | none ↦ false
  | some parsed ↦ not (includes pinned_statuses parsed.status)
]

normalized_filters : FilterLists → FilterLists
unfolding is_separate_cwd
normalized_filters next =
    let pinned_statuses = unique next.pinned_statuses in
    let pinned_cwds = filter (is_separate_cwd pinned_statuses) (unique next.pinned_cwds) in
    record {
      statuses = unique (next.statuses ++ pinned_statuses);
      cwds = unique (next.cwds ++ pinned_cwds);
      pinned_statuses = pinned_statuses;
      pinned_cwds = pinned_cwds;
    }

-- What the selection keeps when filters change: what is pinned, and what no filter brought in.
kept_ids : Workspace → List String
kept_ids w =
    filter (λ id. includes w.pinned_ids id || not (includes w.filter_selected_ids id))
      w.selected_ids

unfoldable pub update_workspace_filters : FilterLists → Workspace → Workspace
unfolding normalized_filters kept_ids mark_local_selection_mutation write_workspace_to_url
    keep_focus
update_workspace_filters next w =
    let filters = normalized_filters next in
    let matching = matching_ids (available w) filters.statuses filters.cwds in
    let next_ids = unique (kept_ids w ++ matching) in
    let updated = record (mark_local_selection_mutation w) {
      status_filters = filters.statuses;
      cwd_filters = filters.cwds;
      pinned_status_filters = filters.pinned_statuses;
      pinned_cwd_filters = filters.pinned_cwds;
      selected_ids = next_ids;
      filter_selected_ids = unique (filter (λ id. not (includes w.pinned_ids id)) matching);
      focused_id = keep_focus w.focused_id next_ids;
    } in
    write_workspace_to_url (selection_of updated) push w.history.current.pathname updated

abbrev add_unique : String → List String → List String
add_unique x xs = unique (xs ++ x ∷ [])

status_filter_lists : String → Bool → Option Bool → Workspace → FilterLists
status_filter_lists status checked pin w = record {
  statuses =
      if checked then add_unique status w.status_filters else without status w.status_filters;
  cwds = without_status w.cwd_filters status;
  pinned_statuses =
      if checked && is_set pin
      then add_unique status w.pinned_status_filters
      else if checked
      then w.pinned_status_filters
      else without status w.pinned_status_filters;
  pinned_cwds =
      if checked && not (is_set pin)
      then w.pinned_cwd_filters
      else without_status w.pinned_cwd_filters status;
}

-- `decomposed….delete(status)` on both sets.
forget_decomposed : String → Workspace → Workspace
forget_decomposed status w = record w {
  decomposed_status_filters = without status w.decomposed_status_filters;
  decomposed_pinned_status_filters = without status w.decomposed_pinned_status_filters;
}

unfoldable pub update_status_filter : String → Bool → Option Bool → Workspace → Workspace
unfolding update_workspace_filters status_filter_lists forget_decomposed
update_status_filter status checked pin w =
    update_workspace_filters (status_filter_lists status checked pin w) (forget_decomposed status w)

-- Unchecking one directory of a status that is checked as a whole: the status is split into the
-- directories of the other sessions.
split_status : String → String → Workspace → Workspace
unfolding update_workspace_filters sibling_cwd_filters set_add
split_status status cwd w =
    let parent_pinned = includes w.pinned_status_filters status in
    let siblings = sibling_cwd_filters (available w) status cwd in
    update_workspace_filters
      (record {
        statuses = without status w.status_filters;
        cwds = without_status w.cwd_filters status ++ siblings;
        pinned_statuses = without status w.pinned_status_filters;
        pinned_cwds =
            without_status w.pinned_cwd_filters status ++ (if parent_pinned then siblings else []);
      })
      (record w {
        decomposed_status_filters = set_add w.decomposed_status_filters status;
        decomposed_pinned_status_filters =
            if parent_pinned
            then set_add w.decomposed_pinned_status_filters status
            else w.decomposed_pinned_status_filters;
      })

-- The cwd filters of the sessions that have the status now.
status_cwd_filters : Workspace → String → List String
status_cwd_filters w status = unique (
    map (λ s. cwd_filter_key status s.cwd)
      (filter (λ s. session_activity s == status) (available w)))

abbrev of_status : List String → String → List String
of_status keys status =
    filter (λ key. euphony.Workspace.Filters.cwd_filter_belongs_to_status key status) keys

-- All directories of the status are checked: they are joined into the status again.
join_status : String → List String → List String → Workspace → Workspace
unfolding update_workspace_filters status_cwd_filters
join_status status next_cwds next_pinned_cwds w =
    let consolidate_pinned =
      includes w.decomposed_pinned_status_filters status
      && all (includes next_pinned_cwds) (status_cwd_filters w status) in
    update_workspace_filters
      (record {
        statuses = add_unique status w.status_filters;
        cwds = without_status next_cwds status;
        pinned_statuses =
            if consolidate_pinned
            then add_unique status w.pinned_status_filters
            else w.pinned_status_filters;
        pinned_cwds =
            if consolidate_pinned then without_status next_pinned_cwds status else next_pinned_cwds;
      })
      (record w {
        decomposed_status_filters = without status w.decomposed_status_filters;
        decomposed_pinned_status_filters =
            if consolidate_pinned
            then without status w.decomposed_pinned_status_filters
            else w.decomposed_pinned_status_filters;
      })

next_pinned_cwd_filters : String → String → Bool → Option Bool → Workspace → List String
next_pinned_cwd_filters status key checked pin w =
    if checked && (is_set pin || includes w.decomposed_pinned_status_filters status)
    then add_unique key w.pinned_cwd_filters
    else if checked
    then w.pinned_cwd_filters
    else without key w.pinned_cwd_filters

set_cwd_filter : String → String → Bool → Option Bool → Workspace → Workspace
unfolding next_pinned_cwd_filters join_status status_cwd_filters update_workspace_filters
set_cwd_filter status cwd checked pin w =
    let key = cwd_filter_key status cwd in
    let next = if checked then add_unique key w.cwd_filters else without key w.cwd_filters in
    let next_pinned = next_pinned_cwd_filters status key checked pin w in
    let split =
      ltb 0 (length (of_status w.cwd_filters status))
      || includes w.decomposed_status_filters status in
    if checked && (split && all (includes next) (status_cwd_filters w status))
    then join_status status next next_pinned w
    else update_workspace_filters
        (record {
          statuses = w.status_filters;
          cwds = next;
          pinned_statuses = w.pinned_status_filters;
          pinned_cwds = next_pinned;
        })
        w

unfoldable pub update_cwd_filter : String → String → Bool → Option Bool → Workspace → Workspace
unfolding split_status set_cwd_filter
update_cwd_filter status cwd checked pin w =
    if not checked && includes w.status_filters status
    then split_status status cwd w
    else set_cwd_filter status cwd checked pin w

-- The end of `selectStatus` and of `selectCwd`: only these filters, beside what is pinned. The
-- focus goes to the first direct match.
select_filters : List String → List String → String → Workspace → Workspace
unfolding mark_local_selection_mutation write_workspace_to_url
select_filters statuses cwds focus w =
    let matching = matching_ids (available w) statuses cwds in
    let next = record (mark_local_selection_mutation w) {
      selected_ids = unique (filter (includes w.pinned_ids) w.selected_ids ++ matching);
      decomposed_status_filters = [];
      status_filters = statuses;
      cwd_filters = cwds;
      filter_selected_ids = unique (filter (λ id. not (includes w.pinned_ids id)) matching);
      focused_id = some focus;
    } in
    write_workspace_to_url (selection_of next) push w.history.current.pathname next

unfoldable pub select_status : String → Workspace → Workspace
unfolding select_filters
select_status status w = elim (filter (λ s. session_activity s == status) (available w)) [
  | [] ↦ w
  | first ∷ rest ↦
      select_filters (add_unique status w.pinned_status_filters) w.pinned_cwd_filters first.id w
]

unfoldable pub select_cwd : String → String → Workspace → Workspace
unfolding select_filters
select_cwd status cwd w =
    elim (filter (λ s. (session_activity s == status) && s.cwd == cwd) (available w)) [
      | [] ↦ w
      | first ∷ rest ↦
          select_filters w.pinned_status_filters
            (add_unique (cwd_filter_key status cwd) w.pinned_cwd_filters) first.id w
    ]
