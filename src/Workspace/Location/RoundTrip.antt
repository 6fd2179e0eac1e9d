-- ===== src/Workspace/Location/RoundTrip.antt =====
-- Writing a selection to the URL and reading it back.
use euphony.Prelude.{
  ◌≡◌, ◌≢◌, refl, true, false, some, none, String, List, [], ◌∷◌, ◌++◌, map, includes, arith, ◌==◌,
  filter, unique, eq_iff, if◌then◌else◌, IsNodup, Subset, unique_of_IsNodup, unique_of_Subset,
  filter_all, append-nil, append_assoc, ◌∙◌,
}
use euphony.Session.{Session}
use euphony.Workspace.Location.Parameters.{
  get_all-append, get_all-map, get_all-delete, get_all-set_param, get-set_param,
}
use euphony.Workspace.Location.{
  Location, History, HistoryMode, push, replace, get_all, get, set_param, WorkspaceSelection,
  cleared_search, preserve, write_focus, workspace_search, write_workspace_url, if_empty, or_first,
  url_selected_ids, url_focus, without_resume, workspace_from_url,
}

-- What a selection has to be to be read back: the filters and ids are listed once, the pinned ones
-- among them, every selected terminal exists, and one of them is focused.
pub record IsWritable (available : List String) (s : WorkspaceSelection) : Type 0 where
  pub selected_nodup : IsNodup s.selected_ids
  pub selected_available : Subset s.selected_ids available
  pub pinned_nodup : IsNodup s.pinned_ids
  pub pinned_selected : Subset s.pinned_ids s.selected_ids
  pub focus : String
  pub focus_some : s.focused_id ≡ some focus
  pub focus_named : focus ≢ ""
  pub focus_selected : includes s.selected_ids focus ≡ true
  pub statuses_nodup : IsNodup s.status_filters
  pub cwds_nodup : IsNodup s.cwd_filters
  pub pinned_statuses_nodup : IsNodup s.pinned_status_filters
  pub pinned_cwds_nodup : IsNodup s.pinned_cwd_filters
  pub statuses_checked : Subset s.pinned_status_filters s.status_filters
  pub cwds_checked : Subset s.pinned_cwd_filters s.cwd_filters

write_focus-some :
    (f : String) (ps : List (String × String))
    → f ≢ ""
    → write_focus (some f) ps ≡ set_param "focus" f ps
unfolding write_focus
write_focus-some f ps h = ground (arith, eq_iff f "")

-- The values of a key in the query that is written.
written : String → WorkspaceSelection → List String
written k s =
    (if "terminal" == k then s.selected_ids else [])
    ++ ((if "pin" == k then s.pinned_ids else [])
        ++ ((if "status" == k then s.status_filters else [])
            ++ ((if "cwd" == k then s.cwd_filters else [])
                ++ ((if "pin-status" == k then s.pinned_status_filters else [])
                    ++ (if "pin-cwd" == k then s.pinned_cwd_filters else [])))))

module _ (s : WorkspaceSelection) (ps : List (String × String)) (f : String)
    (focused : s.focused_id ≡ some f) (named : f ≢ "") where
  get_all-search :
      (k : String)
      → ("focus" == k) ≡ false
      → get_all k (workspace_search s none ps) ≡ get_all k (cleared_search ps) ++ written k s
  unfolding workspace_search preserve written
  get_all-search k h = rw (focused) (
      rw (write_focus-some f _ named)
        (rw (get_all-set_param k "focus" f _ h) (simp (get_all-append, get_all-map, append_assoc))))

  get-search : get "focus" (workspace_search s none ps) ≡ some f
  unfolding workspace_search preserve
  get-search = rw focused (rw (write_focus-some f _ named) (rw get-set_param refl))

if_empty_other : (xs ys : List String) (x : String) → includes xs x ≡ true → if_empty xs ys ≡ xs
unfolding if_empty
if_empty_other [] ys x h = cc
if_empty_other (z ∷ xs) ys x h = refl

or_first_other : (xs ys : List String) (x : String) → includes xs x ≡ true → or_first xs ys ≡ xs
unfolding or_first
or_first_other [] ys x h = cc
or_first_other (z ∷ xs) ys x h = refl

cleared_at :
    (k : String) (ps : List (String × String))
    → includes ("terminal" ∷ "pin" ∷ "status" ∷ "cwd" ∷ "pin-status" ∷ "pin-cwd" ∷ []) k ≡ true
    → get_all k (cleared_search ps) ≡ []
unfolding cleared_search
cleared_at k ps h = simp get_all-delete (ground arith)

module _ (sessions : List Session) (s : WorkspaceSelection) (location : Location)
    (v : IsWritable (map (λ t. t.id) sessions) s) where
  values :
      (k : String)
      → ("focus" == k) ≡ false
      → includes ("terminal" ∷ "pin" ∷ "status" ∷ "cwd" ∷ "pin-status" ∷ "pin-cwd" ∷ []) k ≡ true
      → get_all k (workspace_search s none location.search) ≡ written k s
  values k h known =
      rw (get_all-search s location.search v.focus v.focus_some v.focus_named k h)
        (rw (cleared_at k location.search known) refl)

  terminals : get_all "terminal" (workspace_search s none location.search) ≡ s.selected_ids
  unfolding written
  terminals = values "terminal" refl refl ∙ append-nil s.selected_ids

  pins : get_all "pin" (workspace_search s none location.search) ≡ s.pinned_ids
  unfolding written
  pins = values "pin" refl refl ∙ append-nil s.pinned_ids

  statuses : get_all "status" (workspace_search s none location.search) ≡ s.status_filters
  unfolding written
  statuses = values "status" refl refl ∙ append-nil s.status_filters

  cwds : get_all "cwd" (workspace_search s none location.search) ≡ s.cwd_filters
  unfolding written
  cwds = values "cwd" refl refl ∙ append-nil s.cwd_filters

  pinned_statuses :
      get_all "pin-status" (workspace_search s none location.search) ≡ s.pinned_status_filters
  unfolding written
  pinned_statuses = values "pin-status" refl refl ∙ append-nil s.pinned_status_filters

  pinned_cwds : get_all "pin-cwd" (workspace_search s none location.search) ≡ s.pinned_cwd_filters
  unfolding written
  pinned_cwds = values "pin-cwd" refl refl

  -- What is read back.
  back : WorkspaceSelection
  back =
      workspace_from_url sessions none
        (record { pathname = location.pathname; search = workspace_search s none location.search })

  pinned_kept_here :
      unique (filter (includes (map (λ t. t.id) sessions)) s.pinned_ids) ≡ s.pinned_ids
  pinned_kept_here =
      rw
        (filter_all (includes (map (λ t. t.id) sessions)) s.pinned_ids
          (λ a h. v.selected_available a (v.pinned_selected a h)))
        (unique_of_IsNodup s.pinned_ids v.pinned_nodup)

  back-pinned : back.pinned_ids ≡ s.pinned_ids
  unfolding back workspace_from_url
  back-pinned = rw pins pinned_kept_here

  selected_again :
      url_selected_ids
        (map (λ t. t.id) sessions)
        none
        (workspace_search s none location.search)
        s.pinned_ids
      ≡ s.selected_ids
  unfolding url_selected_ids
  selected_again = rw terminals (
      rw (filter_all (includes (map (λ t. t.id) sessions)) s.selected_ids v.selected_available) (
        rw (if_empty_other s.selected_ids _ v.focus v.focus_selected) (
          rw (unique_of_Subset s.selected_ids s.pinned_ids v.selected_nodup v.pinned_selected)
            (or_first_other s.selected_ids _ v.focus v.focus_selected))))

  back-selected : back.selected_ids ≡ s.selected_ids
  unfolding back workspace_from_url
  back-selected = rw pins (rw pinned_kept_here selected_again)

  back-focus : back.focused_id ≡ s.focused_id
  unfolding back workspace_from_url url_focus
  back-focus = rw (get-search s location.search v.focus v.focus_some v.focus_named) (
      rw pins (
        rw pinned_kept_here (
          rw selected_again
            (ground (arith, v.focus_some, v.focus_selected, eq_iff v.focus "", v.focus_named)))))

  back-pinned_statuses : back.pinned_status_filters ≡ s.pinned_status_filters
  unfolding back workspace_from_url
  back-pinned_statuses =
      rw pinned_statuses (unique_of_IsNodup s.pinned_status_filters v.pinned_statuses_nodup)

  back-pinned_cwds : back.pinned_cwd_filters ≡ s.pinned_cwd_filters
  unfolding back workspace_from_url
  back-pinned_cwds = rw pinned_cwds (unique_of_IsNodup s.pinned_cwd_filters v.pinned_cwds_nodup)

  back-statuses : back.status_filters ≡ s.status_filters
  unfolding back workspace_from_url
  back-statuses =
      rw (statuses, pinned_statuses)
        (rw (unique_of_IsNodup s.pinned_status_filters v.pinned_statuses_nodup)
          (unique_of_Subset _ _ v.statuses_nodup v.statuses_checked))

  back-cwds : back.cwd_filters ≡ s.cwd_filters
  unfolding back workspace_from_url without_resume
  back-cwds =
      rw (cwds, pinned_cwds)
        (rw (unique_of_IsNodup s.pinned_cwd_filters v.pinned_cwds_nodup)
          (unique_of_Subset _ _ v.cwds_nodup v.cwds_checked))

  back-eq : back ≡ s
  back-eq = λ i. record {
    selected_ids = back-selected i;
    pinned_ids = back-pinned i;
    focused_id = back-focus i;
    status_filters = back-statuses i;
    cwd_filters = back-cwds i;
    pinned_status_filters = back-pinned_statuses i;
    pinned_cwd_filters = back-pinned_cwds i;
  }

-- A writable selection that is pushed to the history or replaces its current entry, with whatever
-- path and whatever parameters there were before, is what is read from the new entry.
pub workspace_from_url-write_workspace_url :
    (sessions : List Session) (s : WorkspaceSelection) (mode : HistoryMode) (path : String)
    (h : History)
    → IsWritable (map (λ t. t.id) sessions) s
    → workspace_from_url sessions none (write_workspace_url s mode path none h).current ≡ s
unfolding write_workspace_url back
workspace_from_url-write_workspace_url sessions s push path h v =
    back-eq sessions s (record { pathname = path; search = h.current.search }) v
workspace_from_url-write_workspace_url sessions s replace path h v =
    back-eq sessions s (record { pathname = path; search = h.current.search }) v
