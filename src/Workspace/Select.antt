-- ===== src/Workspace/Select.antt =====
-- web/src/App.tsx, `selectSession`, by its branches, and `focusPane`.
pub mod Consistency
use euphony.Prelude.{
  Bool, true, not, Option, some, none, String, List, [], ◌∷◌, ◌++◌, map, filter, ◌&&◌, ◌||◌, ◌==◌,
  find, length, eqb, if◌then◌else◌, includes, unique, set_add,
}
use euphony.Session.{Session, session_activity}
use euphony.Workspace.Filters.{cwd_filter_key, cwd_filter_belongs_to_status}
use euphony.Workspace.Location.{HistoryMode, push}
use euphony.Workspace.{
  Workspace, available, matching_ids, without, keep_focus, mark_local_selection_mutation,
  write_workspace_to_url, selection_of,
}

pub record SelectRequest : Type 0 where
  pub id : String
  pub multiple : Bool
  pub allow_empty : Bool
  pub checkbox_pin : Option Bool
  pub preserve_dashboard : Bool
  pub workspace_mode : HistoryMode

-- The filters of a state that an operation is about to set.
pub record FilterLists : Type 0 where
  pub statuses : List String
  pub cwds : List String
  pub pinned_statuses : List String
  pub pinned_cwds : List String

current_path : Workspace → String
current_path w = w.history.current.pathname

begin : SelectRequest → Workspace → Workspace
unfolding mark_local_selection_mutation
begin r w = record (mark_local_selection_mutation w) {
  selected_dashboard_ids =
      if not r.multiple && not r.preserve_dashboard then [] else w.selected_dashboard_ids;
}

-- The writes that do not give filters take those of the state.
write_here : Workspace → Workspace
unfolding current_path write_workspace_to_url
write_here w = write_workspace_to_url (selection_of w) push (current_path w) w

-- A checked checkbox: the session is pinned, selected and focused.
pin_session : String → Workspace → Workspace
unfolding write_here
pin_session id w = write_here (record w {
  pinned_ids = unique (w.pinned_ids ++ id ∷ []);
  selected_ids = if includes w.selected_ids id then w.selected_ids else w.selected_ids ++ id ∷ [];
  filter_selected_ids = without id w.filter_selected_ids;
  focused_id = some id;
  focused_pane_id = none;
})

-- A pinned session that is added to the selection is only focused.
focus_pinned : String → Workspace → Workspace
unfolding write_here
focus_pinned id w = write_here (record w { focused_id = some id; focused_pane_id = none })

-- A plain click: what is pinned stays, with the sessions that match the pinned filters.
select_only : SelectRequest → Workspace → Workspace
unfolding write_workspace_to_url current_path
select_only r w =
    let matches = matching_ids (available w) w.pinned_status_filters w.pinned_cwd_filters in
    let next = record w {
      selected_ids =
          unique (filter (includes w.pinned_ids) w.selected_ids ++ (matches ++ r.id ∷ []));
      status_filters = w.pinned_status_filters;
      cwd_filters = w.pinned_cwd_filters;
      filter_selected_ids = unique (filter (λ item. not (includes w.pinned_ids item)) matches);
      decomposed_status_filters = [];
      focused_id = some r.id;
      focused_pane_id = none;
    } in
    write_workspace_to_url (selection_of next) r.workspace_mode
      (if r.preserve_dashboard then current_path w else "/") next

abbrev pub without_status : List String → String → List String
without_status keys status = filter (λ key. not (cwd_filter_belongs_to_status key status)) keys

unfoldable pub sibling_cwd_filters : List Session → String → String → List String
sibling_cwd_filters sessions status cwd = unique (
    map (λ s. cwd_filter_key status s.cwd)
      (filter (λ s. (session_activity s == status) && not (s.cwd == cwd)) sessions))

-- The filters that are left when one session of a filter is taken out.
filters_without : Session → Workspace → FilterLists
unfolding sibling_cwd_filters
filters_without session w =
    let status = session_activity session in
    let key = cwd_filter_key status session.cwd in
    let siblings = sibling_cwd_filters (available w) status session.cwd in
    if includes w.status_filters status
    then record {
      statuses = without status w.status_filters;
      cwds = without_status w.cwd_filters status ++ siblings;
      pinned_statuses = without status w.pinned_status_filters;
      pinned_cwds =
          if includes w.pinned_status_filters status
          then without_status w.pinned_cwd_filters status ++ siblings
          else without key w.pinned_cwd_filters;
    }
    else record {
      statuses = without status w.status_filters;
      cwds = without key w.cwd_filters;
      pinned_statuses = without status w.pinned_status_filters;
      pinned_cwds = without key w.pinned_cwd_filters;
    }

-- The statuses that are now split into cwd filters.
note_decomposed : String → Workspace → Workspace
unfolding set_add
note_decomposed status w =
    let owned = includes w.status_filters status in
    record w {
      decomposed_status_filters =
          if owned then set_add w.decomposed_status_filters status else w.decomposed_status_filters;
      decomposed_pinned_status_filters =
          if owned && includes w.pinned_status_filters status
          then set_add w.decomposed_pinned_status_filters status
          else w.decomposed_pinned_status_filters;
    }

-- `if (nextIDs.length === 0 && !allowEmpty) nextIDs = [id]`
or_single : Bool → String → List String → List String
or_single allow_empty id [] = if allow_empty then [] else id ∷ []
or_single allow_empty id (x ∷ xs) = x ∷ xs

-- The session is owned by a filter: the filter is narrowed to leave it out.
remove_filtered : SelectRequest → Session → Workspace → Workspace
unfolding filters_without note_decomposed or_single write_workspace_to_url current_path keep_focus
remove_filtered r session w =
    let filters = filters_without session w in
    let matching = matching_ids (available w) filters.statuses filters.cwds in
    let next_ids =
      or_single r.allow_empty r.id (unique (without r.id w.selected_ids ++ matching)) in
    let next = record (note_decomposed (session_activity session) w) {
      status_filters = filters.statuses;
      cwd_filters = filters.cwds;
      pinned_status_filters = filters.pinned_statuses;
      pinned_cwd_filters = filters.pinned_cwds;
      selected_ids = next_ids;
      filter_selected_ids = unique (filter (λ item. not (includes w.pinned_ids item)) matching);
      focused_id = keep_focus w.focused_id next_ids;
      focused_pane_id = none;
    } in
    write_workspace_to_url (selection_of next) r.workspace_mode (current_path w) next

-- No filter owns the session: it leaves the selection, which may be kept from becoming empty.
drop_selected : SelectRequest → Workspace → Workspace
unfolding write_workspace_to_url current_path keep_focus
drop_selected r w =
    let next_ids =
      if eqb (length w.selected_ids) 1 && not r.allow_empty
      then w.selected_ids
      else without r.id w.selected_ids in
    let next = record w {
      selected_ids = next_ids;
      focused_id = keep_focus w.focused_id next_ids;
      focused_pane_id = none;
    } in
    write_workspace_to_url (selection_of next) r.workspace_mode (current_path w) next

is_filtered : Session → Workspace → Bool
is_filtered session w =
    let status = session_activity session in
    includes w.status_filters status || includes w.cwd_filters (cwd_filter_key status session.cwd)

deselect : SelectRequest → Workspace → Workspace
unfolding remove_filtered drop_selected is_filtered
deselect r w = elim (find (λ s. s.id == r.id) (available w)) [
  | none ↦ drop_selected r w
  | some session ↦ if is_filtered session w then remove_filtered r session w else drop_selected r w
]

add_selected : SelectRequest → Workspace → Workspace
unfolding write_workspace_to_url current_path
add_selected r w =
    let next = record w {
      selected_ids = w.selected_ids ++ r.id ∷ [];
      focused_id = some r.id;
      focused_pane_id = none;
    } in
    write_workspace_to_url (selection_of next) r.workspace_mode (current_path w) next

-- From the choice of `nextIDs` on; the pinned ids of the state are `nextPinnedIDs`.
choose : SelectRequest → Workspace → Workspace
unfolding select_only deselect add_selected
choose r w =
    if not r.multiple
    then select_only r w
    else if includes w.selected_ids r.id
    then deselect r w
    else add_selected r w

-- A checkbox: it unpins what is pinned, and pins only if it says so.
select_checkbox : SelectRequest → Bool → Workspace → Workspace
unfolding begin pin_session choose
select_checkbox r pin w =
    if includes w.pinned_ids r.id
    then choose (record r { allow_empty = true })
        (record (begin r w) { pinned_ids = without r.id w.pinned_ids })
    else if pin
    then pin_session r.id (begin r w)
    else choose r (begin r w)

-- A click outside the checkbox.
select_clicked : SelectRequest → Workspace → Workspace
unfolding begin focus_pinned choose
select_clicked r w =
    if r.multiple && includes w.pinned_ids r.id
    then focus_pinned r.id (begin r w)
    else choose r (begin r w)

unfoldable pub select_session : SelectRequest → Workspace → Workspace
unfolding select_checkbox select_clicked
select_session r w = elim r.checkbox_pin [
  | none ↦ select_clicked r w
  | some pin ↦ select_checkbox r pin w
]

-- `focusPane`.
unfoldable pub focus_pane : String → Workspace → Workspace
unfolding mark_local_selection_mutation write_workspace_to_url
focus_pane id w =
    let next = record (mark_local_selection_mutation w) {
      focused_id = some id;
      focused_pane_id = none;
    } in
    write_workspace_to_url (selection_of next) push "/" next
