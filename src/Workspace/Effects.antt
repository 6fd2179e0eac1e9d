-- ===== src/Workspace/Effects.antt =====
-- web/src/App.tsx, the effects that keep the selection in step with the sessions: the one on
-- removed sessions, the one on launched agents and filter matches, and the one on sessions that
-- have not matched for a while. `rendered` is what `renderedSessionOrder` gives for the order of
-- the sessions before.
pub mod Consistency
pub mod Removed
mod Tests
use euphony.Prelude.{
  ℕ, Bool, true, false, not, Option, some, none, String, List, [], ◌∷◌, ◌++◌, map, filter, any, all,
  find, ◌&&◌, ◌||◌, ◌==◌, length, eqb, if◌then◌else◌, includes, unique, truthy, or_else, same_ids,
  set_add,
}
use euphony.Session.{Session}
use euphony.Session.Replacement.{ids, replacement_session}
use euphony.Workspace.Filters.{matches_workspace_filter}
use euphony.Workspace.Location.{replace}
use euphony.Workspace.{
  Workspace, available, matching_ids, keep_focus, mark_local_selection_mutation,
  write_workspace_to_url, selection_of,
}

-- The workspace with the other refs of the effects: the launches that wait for their agent, the
-- sessions whose timer runs, and those whose timer is over.
pub record Effects : Type 0 where
  pub workspace : Workspace
  pub pending_agent_launch_ids : List String
  pub filter_deselect_timers : List String
  pub expired_filter_deselect_ids : List String

abbrev pub is_none : {A : Type 0} → Option A → Bool
is_none none = true
is_none (some x) = false

abbrev pub no_filters : Workspace → Bool
no_filters w = eqb (length w.status_filters) 0 && eqb (length w.cwd_filters) 0

abbrev write_replaced : Workspace → Workspace
write_replaced w = write_workspace_to_url (selection_of w) replace w.history.current.pathname w

-- `focusedID && !available.has(focusedID) ? focusedID : selectedIDs.find((id) => !available.has(id))`
unfoldable pub removed_id : List String → Option String → List String → Option String
removed_id remaining focused selected =
    if truthy focused && not (includes remaining (or_else focused ""))
    then focused
    else find (λ id. not (includes remaining id)) selected

-- `removedID ? replacementSession(…) : undefined`
unfoldable pub replacement_of : List Session → List Session → Option String → Option Session
replacement_of rendered sessions none = none
replacement_of rendered sessions (some removed) =
    if truthy (some removed) then replacement_session rendered removed sessions true else none

unfoldable pub remaining_selection : List String → Bool → Option Session → List String → List String
remaining_selection remaining unfiltered replacement selected =
    let kept = filter (includes remaining) selected in
    if eqb (length kept) 0 && unfiltered
    then (elim replacement [ none ↦ kept | some session ↦ session.id ∷ [] ])
    else kept

unfoldable pub drop_removed : List Session → List Session → Workspace → Workspace
unfolding write_workspace_to_url keep_focus
drop_removed rendered sessions w =
    let remaining = ids sessions in
    let replacement =
      replacement_of rendered sessions (removed_id remaining w.focused_id w.selected_ids) in
    let next = remaining_selection remaining (no_filters w) replacement w.selected_ids in
    write_replaced (record w {
      selected_ids = next;
      pinned_ids = filter (includes remaining) w.pinned_ids;
      focused_id = keep_focus w.focused_id next;
    })

-- The effect on removed sessions, in a workspace that is not synchronised with the server.
unfoldable pub drop_removed_from : List Session → Option (List Session) → Workspace → Workspace
unfolding drop_removed
drop_removed_from rendered none w = w
drop_removed_from rendered (some sessions) w =
    if w.sync_selection
      || not (any (λ id. not (includes (ids sessions) id)) (w.selected_ids ++ w.pinned_ids))
    then w
    else drop_removed rendered sessions w

unfoldable pub removed_sessions_effect : List Session → Workspace → Workspace
unfolding drop_removed_from
removed_sessions_effect rendered w = drop_removed_from rendered w.sessions w

-- The focused session, if its agent was launched from here: only it and what is pinned stay.
unfoldable pub promote : String → Workspace → Workspace
unfolding mark_local_selection_mutation write_workspace_to_url
promote id w =
    let matching = matching_ids (available w) w.pinned_status_filters w.pinned_cwd_filters in
    write_replaced (record (mark_local_selection_mutation w) {
      selected_ids =
          unique (filter (includes w.pinned_ids) w.selected_ids ++ (matching ++ id ∷ []));
      focused_id = some id;
      status_filters = w.pinned_status_filters;
      cwd_filters = w.pinned_cwd_filters;
      filter_selected_ids = unique (filter (λ id. not (includes w.pinned_ids id)) matching);
      decomposed_status_filters = [];
    })

unfoldable pub promoted_id : Effects → Option String
promoted_id s =
    let id = or_else s.workspace.focused_id "" in
    if truthy s.workspace.focused_id
      && (includes s.workspace.selected_ids id && includes s.pending_agent_launch_ids id)
    then s.workspace.focused_id
    else none

-- The sessions whose timer is stopped: they match again, or are no longer brought in by a filter.
unfoldable pub is_cancelled : Workspace → List String → String → Bool
is_cancelled w matching id =
    not (includes w.selected_ids id) || (includes w.pinned_ids id || includes matching id)

-- The filters choose anew; what does not match any more stays while its timer runs.
unfoldable pub choose_matching : List String → List String → Workspace → Workspace
unfolding keep_focus write_workspace_to_url
choose_matching matching pending w =
    let next = unique (
      filter (λ id. not (includes w.filter_selected_ids id) || includes pending id) w.selected_ids
      ++ matching) in
    let waiting =
      filter (λ id. includes w.selected_ids id && not (includes w.pinned_ids id)) pending in
    let chosen = record w {
      filter_selected_ids =
          unique (filter (λ id. not (includes w.pinned_ids id)) (matching ++ waiting));
    } in
    if same_ids next w.selected_ids
    then chosen
    else write_replaced
        (record chosen { selected_ids = next; focused_id = keep_focus w.focused_id next })

unfoldable pub reselect : Effects → Effects
unfolding is_cancelled choose_matching
reselect s =
    let w = s.workspace in
    let matching = matching_ids (available w) w.status_filters w.cwd_filters in
    let timers = filter (λ id. not (is_cancelled w matching id)) s.filter_deselect_timers in
    record s {
      workspace = choose_matching matching timers w;
      filter_deselect_timers = timers;
      expired_filter_deselect_ids =
          filter (λ id. not (includes s.filter_deselect_timers id && is_cancelled w matching id))
            s.expired_filter_deselect_ids;
    }

unfoldable pub promote_or : Option String → Effects → Effects
unfolding promote reselect
promote_or (some id) s = record s { workspace = promote id s.workspace }
promote_or none s =
    if s.workspace.sync_selection || (is_none s.workspace.sessions || no_filters s.workspace)
    then s
    else reselect s

-- The effect on launched agents and on matches.
unfoldable pub matches_effect : Effects → Effects
unfolding promoted_id promote_or
matches_effect s = promote_or (promoted_id s) (record s { pending_agent_launch_ids = [] })

-- The session of an id is there, and does not match.
unfoldable pub is_non_match : Workspace → String → Bool
is_non_match w id = elim (find (λ session. session.id == id) (available w)) [
  | none ↦ false
  | some session ↦ not (matches_workspace_filter session w.status_filters w.cwd_filters)
]

unfoldable pub deselect_expired : List String → Workspace → Workspace
unfolding keep_focus mark_local_selection_mutation write_workspace_to_url
deselect_expired non_matching w =
    let next =
      filter (λ id. includes w.pinned_ids id || not (includes non_matching id)) w.selected_ids in
    if eqb (length non_matching) 0 || same_ids next w.selected_ids
    then w
    else write_replaced (record (mark_local_selection_mutation w) {
      filter_selected_ids = filter (λ id. not (includes non_matching id)) w.filter_selected_ids;
      selected_ids = next;
      focused_id = keep_focus w.focused_id next;
    })

-- The effect on the sessions whose timer is over.
unfoldable pub expired_effect : Effects → Effects
unfolding is_non_match deselect_expired
expired_effect s =
    let cleared = record s { expired_filter_deselect_ids = [] } in
    if eqb (length s.expired_filter_deselect_ids) 0
      || (is_none s.workspace.sessions || no_filters s.workspace)
    then cleared
    else record cleared {
      workspace =
          deselect_expired
            (unique (filter (is_non_match s.workspace) s.expired_filter_deselect_ids)) s.workspace;
    }

-- What the effects respond to: another answer with the sessions, a launch that waits for its
-- agent, a timer that is set or over, and the runs of the effects.
pub data Event : Type 0 where
  sessions_answered : Option (List Session) → Event
  agent_launched timer_set timer_over : String → Event
  removed_sessions_run : List Session → Event
  matches_run expired_run : Event

unfoldable pub step : Event → Effects → Effects
unfolding removed_sessions_effect matches_effect expired_effect
step (sessions_answered sessions) s = record s {
  workspace = record s.workspace { sessions = sessions };
}
step (agent_launched id) s = record s {
  pending_agent_launch_ids = set_add s.pending_agent_launch_ids id;
}
step (timer_set id) s = record s { filter_deselect_timers = set_add s.filter_deselect_timers id }
step (timer_over id) s =
    if includes s.filter_deselect_timers id
    then record s {
      filter_deselect_timers = filter (λ other. not (other == id)) s.filter_deselect_timers;
      expired_filter_deselect_ids = set_add s.expired_filter_deselect_ids id;
    }
    else s
step (removed_sessions_run rendered) s = record s {
  workspace = removed_sessions_effect rendered s.workspace;
}
step matches_run s = matches_effect s
step expired_run s = expired_effect s

unfoldable pub run : List Event → Effects → Effects
unfolding step
run [] s = s
run (e ∷ es) s = run es (step e s)
