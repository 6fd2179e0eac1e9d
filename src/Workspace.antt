-- ===== src/Workspace.antt =====
-- The workspace of web/src/App.tsx: the React state and refs that the selection of terminals
-- lives in. A handler runs over the values of its render, and its `set…` calls give the state of
-- the next one, so each is a function from a state to a state.
pub mod Filters
pub mod Location
pub mod Select
pub mod Update
pub mod Effects
pub mod Consistent
mod Tests
use euphony.Prelude.{
  ℕ, ◌+◌, Bool, true, false, not, Option, some, none, String, List, [], ◌∷◌, map, filter, ◌&&◌,
  ◌==◌, if◌then◌else◌, truthy, or_else, includes,
}
use euphony.Session.{Session}
use Filters.{matches_workspace_filter}
use Location.{ResumeQuery, History, HistoryMode, WorkspaceSelection, write_workspace_url}

pub record Workspace : Type 0 where
  pub sessions : Option (List Session)
  pub selected_ids : List String
  pub pinned_ids : List String
  pub focused_id : Option String
  pub status_filters : List String
  pub cwd_filters : List String
  pub pinned_status_filters : List String
  pub pinned_cwd_filters : List String
  pub filter_selected_ids : List String
  pub decomposed_status_filters : List String
  pub decomposed_pinned_status_filters : List String
  pub selected_dashboard_ids : List String
  pub focused_pane_id : Option String
  pub local_version : ℕ
  pub sync_selection : Bool
  pub resume_query : Option ResumeQuery
  pub resume_pending : Bool
  pub resume_succeeded : Bool
  pub history : History

-- `sessions ?? []`.
abbrev pub available : Workspace → List Session
available w = or_else w.sessions []

-- The ids of the sessions that match the filters, in the order of the sessions.
unfoldable pub matching_ids : List Session → List String → List String → List String
matching_ids sessions status_filters cwd_filters =
    map (λ s. s.id) (filter (λ s. matches_workspace_filter s status_filters cwd_filters) sessions)

-- `items.filter((item) => item !== x)`
abbrev pub without : String → List String → List String
without x items = filter (λ item. not (item == x)) items

-- `items[0] ?? null`
abbrev pub head_id : List String → Option String
head_id [] = none
head_id (x ∷ xs) = some x

-- `focusedID && nextIDs.includes(focusedID) ? focusedID : nextIDs[0] ?? null`
unfoldable pub keep_focus : Option String → List String → Option String
keep_focus focused ids =
    if truthy focused && includes ids (or_else focused "") then focused else head_id ids

unfoldable pub mark_local_selection_mutation : Workspace → Workspace
mark_local_selection_mutation w = record w {
  local_version = if w.sync_selection then w.local_version + 1 else w.local_version;
}

kept_resume_query : Workspace → Option ResumeQuery
kept_resume_query w = if w.resume_succeeded then none else w.resume_query

has_query : Option ResumeQuery → Bool
has_query none = false
has_query (some query) = true

unfoldable pub write_workspace_to_url :
    WorkspaceSelection → HistoryMode → String → Workspace → Workspace
unfolding kept_resume_query has_query
write_workspace_to_url s mode pathname w = record w {
  history =
      if has_query w.resume_query && w.resume_pending
      then w.history
      else write_workspace_url s mode pathname (kept_resume_query w) w.history;
}

-- The selection of a state, as it is written to the URL.
abbrev pub selection_of : Workspace → WorkspaceSelection
selection_of w = record {
  selected_ids = w.selected_ids;
  pinned_ids = w.pinned_ids;
  focused_id = w.focused_id;
  status_filters = w.status_filters;
  cwd_filters = w.cwd_filters;
  pinned_status_filters = w.pinned_status_filters;
  pinned_cwd_filters = w.pinned_cwd_filters;
}
