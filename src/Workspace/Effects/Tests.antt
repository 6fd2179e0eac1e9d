-- ===== src/Workspace/Effects/Tests.antt =====
-- The effects on a workspace from which a session has gone.
use euphony.Prelude.{◌≡◌, refl, false, some, none, List, [], ◌∷◌, arith}
use euphony.Session.Tests.{all_sessions}
use euphony.Session.{Session}
use euphony.Session.Replacement.{replacement_session}
use euphony.Workspace.{Workspace}
use euphony.Workspace.Consistent.{IsConsistent}
use euphony.Workspace.Effects.{
  Effects, Event, sessions_answered, agent_launched, timer_set, timer_over, removed_sessions_run,
  matches_run, expired_run, run, drop_removed_from, remaining_selection, replacement_of, removed_id,
}
use euphony.Workspace.Effects.Consistency.{run-IsConsistent}
use euphony.Workspace.Effects.Removed.{IsAvailable, drop_removed_from-IsAvailable}

-- Session s2 is shown; it is not pinned.
abbrev alone : Workspace
alone = record {
  sessions = some all_sessions;
  selected_ids = "s2" ∷ [];
  pinned_ids = [];
  focused_id = some "s2";
  status_filters = [];
  cwd_filters = [];
  pinned_status_filters = [];
  pinned_cwd_filters = [];
  filter_selected_ids = [];
  decomposed_status_filters = [];
  decomposed_pinned_status_filters = [];
  selected_dashboard_ids = [];
  focused_pane_id = none;
  local_version = 0;
  sync_selection = false;
  resume_query = none;
  resume_pending = false;
  resume_succeeded = false;
  history = record { current = record { pathname = "/"; search = [] }; back = [] };
}

alone-IsConsistent : IsConsistent alone
alone-IsConsistent = record {
  selected_nodup = (refl, tt);
  pinned_nodup = tt;
  pinned_selected = λ a h. absurd (ground arith);
  focus_selected = refl;
  pinned_checked = λ a h. absurd (ground arith);
  filter_unpinned = λ a h. absurd (ground arith);
}

abbrev without_first : List Session → List Session
without_first [] = []
without_first (s ∷ sessions) = sessions

abbrev left : List Session
left = without_first (without_first all_sessions)

-- The session after the removed one takes its place.
replaced : (drop_removed_from all_sessions (some left) alone).selected_ids ≡ "s3" ∷ []
unfolding drop_removed_from remaining_selection replacement_of removed_id replacement_session
replaced = refl

drop_removed_from-IsAvailable_example :
    IsAvailable left ("s2" ∷ []) (drop_removed_from all_sessions (some left) alone)
drop_removed_from-IsAvailable_example =
    drop_removed_from-IsAvailable all_sessions left alone refl (refl, tt)

abbrev effects : Effects
effects = record {
  workspace = alone;
  pending_agent_launch_ids = [];
  filter_deselect_timers = [];
  expired_filter_deselect_ids = [];
}

abbrev visit : List Event
visit =
    sessions_answered (some left)
    ∷ removed_sessions_run all_sessions
    ∷ agent_launched "s3"
    ∷ matches_run
    ∷ timer_set "s3"
    ∷ timer_over "s3"
    ∷ expired_run
    ∷ []

run-IsConsistent_example : IsConsistent (run visit effects).workspace
run-IsConsistent_example = run-IsConsistent visit effects alone-IsConsistent
