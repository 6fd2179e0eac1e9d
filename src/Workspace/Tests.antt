-- ===== src/Workspace/Tests.antt =====
-- Tests of the workspace, and the theorems about it at concrete inputs.
use euphony.Prelude.{
  ◌≡◌, ◌≢◌, refl, true, false, some, none, String, List, [], ◌∷◌, includes, arith, any, not, ◌&&◌,
  ◌||◌, ◌==◌, eq_iff, unique, Subset, if◌then◌else◌,
}
use euphony.Session.Tests.{all_sessions, s1, s2, s3, s4}
use euphony.Session.{session_activity}
use euphony.Workspace.{Workspace, selection_of, available, matching_ids}
use euphony.Workspace.Filters.{cwd_filter_key, parse_cwd_filter, matches_workspace_filter}
use euphony.Workspace.Filters.Keys.{
  NoSeparator, parse_cwd_filter-cwd_filter_key, parse_cwd_filter_sound,
}
use euphony.Workspace.Location.{push, workspace_from_url, write_workspace_url}
use euphony.Workspace.Location.RoundTrip.{workspace_from_url-write_workspace_url}
use euphony.Workspace.Select.{SelectRequest, FilterLists, select_session, focus_pane}
use euphony.Workspace.Select.Consistency.{select_session-IsConsistent}
use euphony.Workspace.Update.{
  update_workspace_filters, update_status_filter, update_cwd_filter, select_status, select_cwd,
}
use euphony.Workspace.Update.Consistency.{update_workspace_filters-IsConsistent}
use euphony.Workspace.Update.Covering.{update_status_filter_matches}
use euphony.Workspace.Update.Directories.{update_cwd_filter_matches}
use euphony.Workspace.Update.Selecting.{
  update_workspace_filters_selected, select_status-IsConsistent, select_cwd-IsConsistent,
}
use euphony.Workspace.Consistent.{IsConsistent}

workspace : Unit {0}
unfolding select_session focus_pane update_status_filter update_cwd_filter select_status select_cwd
    matches_workspace_filter cwd_filter_key unique matching_ids session_activity write_workspace_url
workspace = tt

-- Session s1 is pinned and focused; s2 and s3 were brought in by the status filter "running".
abbrev home : Workspace
home = record {
  sessions = some all_sessions;
  selected_ids = "s1" ∷ "s2" ∷ "s3" ∷ [];
  pinned_ids = "s1" ∷ [];
  focused_id = some "s1";
  status_filters = "running" ∷ [];
  cwd_filters = [];
  pinned_status_filters = [];
  pinned_cwd_filters = [];
  filter_selected_ids = "s2" ∷ "s3" ∷ [];
  decomposed_status_filters = [];
  decomposed_pinned_status_filters = [];
  selected_dashboard_ids = [];
  focused_pane_id = none;
  local_version = 0;
  sync_selection = true;
  resume_query = none;
  resume_pending = false;
  resume_succeeded = false;
  history = record {
    current = record { pathname = "/inbox"; search = ("x", "1") ∷ [] };
    back = [];
  };
}

abbrev click : String → SelectRequest
click id = record {
  id = id;
  multiple = false;
  allow_empty = false;
  checkbox_pin = none;
  preserve_dashboard = false;
  workspace_mode = push;
}

abbrev uncheck : String → SelectRequest
uncheck id = record (click id) { multiple = true; checkbox_pin = some false }

-- A plain click keeps what is pinned.
clicked : (select_session (click "s4") home).selected_ids ≡ "s1" ∷ "s4" ∷ []
unfolding workspace
clicked = refl

-- Unchecking one terminal of a status filter splits the filter by directory.
unchecked : (select_session (uncheck "s2") home).selected_ids ≡ "s1" ∷ "s3" ∷ []
unfolding workspace
unchecked = refl

pushed :
    (select_session (click "s4") home).history.current.search
    ≡ ("x", "1") ∷ ("terminal", "s1") ∷ ("terminal", "s4") ∷ ("pin", "s1") ∷ ("focus", "s4") ∷ []
unfolding workspace
pushed = refl

-- Two lists of texts are apart if a run over them says so.
apart :
    (xs ys : List String)
    → any (includes ys) xs ≡ false
    → (a : String) → includes xs a ≡ true
    → includes ys a ≡ false
apart [] ys h a k = cc
apart (x ∷ xs) ys h a k = ground (arith, apart xs ys (ground arith) a, eq_iff x a)

home-IsConsistent : IsConsistent home
home-IsConsistent = record {
  selected_nodup = (refl, (refl, (refl, tt)));
  pinned_nodup = (refl, tt);
  pinned_selected = λ a. ground arith;
  focus_selected = refl;
  pinned_checked = λ a h. absurd (ground arith);
  filter_unpinned = apart ("s2" ∷ "s3" ∷ []) ("s1" ∷ []) refl;
}

select_session-IsConsistent_example : IsConsistent (select_session (uncheck "s2") home)
select_session-IsConsistent_example =
    select_session-IsConsistent (uncheck "s2") home home-IsConsistent

abbrev waiting : FilterLists
waiting = record { statuses = "waiting" ∷ []; cwds = []; pinned_statuses = []; pinned_cwds = [] }

no_pinned_filters : Subset [] ("running" ∷ [])
no_pinned_filters a h = absurd (ground arith)

running_NoSeparator : NoSeparator "running"
running_NoSeparator = omega arith

-- Unchecking "running" takes s2 out of the matches.
update_status_filter_matches_example :
    let after = update_status_filter "running" false none home in
    (matches_workspace_filter s2 after.status_filters after.cwd_filters ≡ false)
    × ((other : String)
        → includes after.pinned_status_filters other
          ≡ (if other == "running" then false else false))
unfolding session_activity
update_status_filter_matches_example =
    update_status_filter_matches home no_pinned_filters (λ a h. h) "running" false none s2
      running_NoSeparator running_NoSeparator

-- Unchecking one directory of "running" leaves those in another one.
update_cwd_filter_matches_example :
    let after = update_cwd_filter "running" "/a" false none home in
    matches_workspace_filter s2 after.status_filters after.cwd_filters ≡ true
unfolding session_activity matches_workspace_filter
update_cwd_filter_matches_example =
    update_cwd_filter_matches "running" "/a" false none home (s1 ∷ []) (s3 ∷ s4 ∷ []) s2
      no_pinned_filters (λ a h. h) refl running_NoSeparator running_NoSeparator refl

-- The directory that is unchecked does not match any longer.
unchecked_directory :
    let after = update_cwd_filter "running" "/b" false none home in
    matches_workspace_filter s2 after.status_filters after.cwd_filters ≡ false
unfolding session_activity matches_workspace_filter
unchecked_directory =
    update_cwd_filter_matches "running" "/b" false none home (s1 ∷ []) (s3 ∷ s4 ∷ []) s2
      no_pinned_filters (λ a h. h) refl running_NoSeparator running_NoSeparator refl

-- A change of the filters leaves a state in which the theorems hold again.
waiting_selected : IsConsistent (select_status "waiting" (update_workspace_filters waiting home))
waiting_selected =
    select_status-IsConsistent (update_workspace_filters waiting home)
      (update_workspace_filters-IsConsistent waiting home home-IsConsistent) "waiting"

select_status-IsConsistent_example : IsConsistent (select_status "waiting" home)
select_status-IsConsistent_example = select_status-IsConsistent home home-IsConsistent "waiting"

select_cwd-IsConsistent_example : IsConsistent (select_cwd "waiting" "/a" home)
select_cwd-IsConsistent_example = select_cwd-IsConsistent home home-IsConsistent "waiting" "/a"

update_workspace_filters_selected_example :
    let after = update_workspace_filters waiting home in
    includes after.selected_ids "s2" ≡ (
      (includes home.selected_ids "s2"
        && (includes home.pinned_ids "s2" || not (includes home.filter_selected_ids "s2")))
      || any
          (λ s. s.id == "s2" && matches_workspace_filter s after.status_filters after.cwd_filters)
          (available home))
update_workspace_filters_selected_example = update_workspace_filters_selected waiting home "s2"

running-NoSeparator : NoSeparator "run"
running-NoSeparator = omega arith

parse_cwd_filter-cwd_filter_key_example :
    parse_cwd_filter (cwd_filter_key "run" "/b") ≡ some (record { status = "run"; cwd = "/b" })
parse_cwd_filter-cwd_filter_key_example =
    parse_cwd_filter-cwd_filter_key "run" "/b" running-NoSeparator
      (λ e. absurd (ground (arith, e, eq_iff "run" "")))
      (λ e. absurd (ground (arith, e, eq_iff "/b" "")))

parse_cwd_filter_sound_example :
    (cwd_filter_key "run" "/b" ≡ "run\0/b")
    × NoSeparator "run"
    × (◌≢◌ {A = String} "run" "")
    × (◌≢◌ {A = String} "/b" "")
unfolding parse_cwd_filter
parse_cwd_filter_sound_example =
    parse_cwd_filter_sound "run\0/b" (record { status = "run"; cwd = "/b" }) refl

workspace_from_url-write_workspace_url_example :
    workspace_from_url all_sessions none
      (write_workspace_url (selection_of home) push "/" none home.history).current
    ≡ selection_of home
workspace_from_url-write_workspace_url_example =
    workspace_from_url-write_workspace_url all_sessions (selection_of home) push "/" home.history
      (record {
        selected_nodup = (refl, (refl, (refl, tt)));
        selected_available = λ a. ground arith;
        pinned_nodup = (refl, tt);
        pinned_selected = λ a. ground arith;
        focus = "s1";
        focus_some = refl;
        focus_named = λ e. absurd (ground (arith, e, eq_iff "s1" ""));
        focus_selected = refl;
        statuses_nodup = (refl, tt);
        cwds_nodup = tt;
        pinned_statuses_nodup = tt;
        pinned_cwds_nodup = tt;
        statuses_checked = λ a h. absurd (ground arith);
        cwds_checked = λ a h. absurd (ground arith);
      })
