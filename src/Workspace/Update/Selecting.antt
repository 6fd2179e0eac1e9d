-- ===== src/Workspace/Update/Selecting.antt =====
-- What is selected after an operation on filters, and `selectStatus` and `selectCwd`.
use euphony.Prelude.{
  ◌≡◌, refl, Bool, true, not, String, List, [], ◌∷◌, ◌++◌, map, includes, any, arith, ◌&&◌, ◌||◌,
  ◌==◌, filter, eq_iff, eq_refl, Bool-cases, inl, inr, List-cases, includes-append, includes-unique,
  includes-filter, unique-IsNodup, Subset,
}
use euphony.Session.{Session, session_activity}
use euphony.Workspace.Filters.{cwd_filter_key, matches_workspace_filter}
use euphony.Workspace.{Workspace, available, matching_ids}
use euphony.Workspace.Select.{FilterLists}
use euphony.Workspace.Update.{
  kept_ids, update_workspace_filters, normalized_filters, add_unique, select_filters, select_status,
  select_cwd,
}
use euphony.Workspace.Consistent.{IsConsistent, pinned_kept, unpinned_filter}

matching_ids-any :
    (p : Session → Bool) (sessions : List Session) (a : String)
    → includes (map (λ s. s.id) (filter p sessions)) a ≡ any (λ s. s.id == a && p s) sessions
matching_ids-any p [] a = refl
matching_ids-any p (s ∷ sessions) a = ground (arith, matching_ids-any p sessions a, eq_iff s.id a)

-- After the filters change, a terminal is selected exactly when it was selected before and is
-- pinned or was not brought in by a filter, or when one of the sessions with its id matches the
-- filters as they are now.
pub update_workspace_filters_selected :
    (next : FilterLists) (w : Workspace) (a : String)
    → let after = update_workspace_filters next w in
      includes after.selected_ids a ≡ (
        (includes w.selected_ids a
          && (includes w.pinned_ids a || not (includes w.filter_selected_ids a)))
        || any
            (λ s. s.id == a && matches_workspace_filter s after.status_filters after.cwd_filters)
            (available w))
unfolding update_workspace_filters kept_ids matching_ids
update_workspace_filters_selected next w a =
    let filters = normalized_filters next in
    let kept =
      λ (id : String). includes w.pinned_ids id || not (includes w.filter_selected_ids id) in
    let p = λ (s : Session). matches_workspace_filter s filters.statuses filters.cwds in
    ground (
      arith,
      includes-unique (filter kept w.selected_ids ++ map (λ s. s.id) (filter p (available w))) a,
      includes-append (filter kept w.selected_ids) (map (λ s. s.id) (filter p (available w))) a,
      includes-filter kept w.selected_ids a,
      matching_ids-any p (available w) a,
    )

first_matches :
    (p q : Session → Bool) (sessions : List Session) (s : Session) (rest : List Session)
    → ((t : Session) → p t ≡ true → q t ≡ true)
    → filter p sessions ≡ s ∷ rest
    → includes (map (λ s. s.id) (filter q sessions)) s.id ≡ true
first_matches p q [] s rest h e = cc
first_matches p q (t ∷ sessions) s rest h e = elim (Bool-cases (p t)) [
  | inl hit ↦ let same : t ≡ s = ground arith in rw (h t hit) (rw (← same) (rw (eq_refl t.id)))
  | inr missed ↦ ground (arith, first_matches p q sessions s rest h (ground arith))
]

module _ (w : Workspace) (v : IsConsistent w) where
  select_filters-IsConsistent :
      (statuses cwds : List String) (focus : String)
      → Subset w.pinned_status_filters statuses
      → includes (matching_ids (available w) statuses cwds) focus ≡ true
      → IsConsistent (select_filters statuses cwds focus w)
  unfolding select_filters
  select_filters-IsConsistent statuses cwds focus s f =
      let matching = matching_ids (available w) statuses cwds in
      let kept = filter (includes w.pinned_ids) w.selected_ids in
      record {
        selected_nodup = unique-IsNodup (kept ++ matching);
        pinned_nodup = v.pinned_nodup;
        pinned_selected = pinned_kept w.pinned_ids w.selected_ids matching v.pinned_selected;
        focus_selected =
            ground (
              arith,
              includes-unique (kept ++ matching) focus,
              includes-append kept matching focus,
            );
        pinned_checked = s;
        filter_unpinned = unpinned_filter w.pinned_ids matching;
      }

  add_unique-Subset :
      (status : String) → Subset w.pinned_status_filters (add_unique status w.pinned_status_filters)
  add_unique-Subset status a h = ground (
    arith,
    includes-unique (w.pinned_status_filters ++ status ∷ []) a,
    includes-append w.pinned_status_filters (status ∷ []) a,
  )

  status_matches :
      (status : String) (t : Session)
      → (session_activity t == status) ≡ true
      → matches_workspace_filter t (add_unique status w.pinned_status_filters) w.pinned_cwd_filters
        ≡ true
  unfolding matches_workspace_filter
  status_matches status t h = ground (
    arith,
    includes-unique (w.pinned_status_filters ++ status ∷ []) (session_activity t),
    includes-append w.pinned_status_filters (status ∷ []) (session_activity t),
    eq_iff (session_activity t) status,
    eq_iff status (session_activity t),
  )

  cwd_matches :
      (status cwd : String) (t : Session)
      → ((session_activity t == status) && t.cwd == cwd) ≡ true
      → matches_workspace_filter t w.pinned_status_filters
          (add_unique (cwd_filter_key status cwd) w.pinned_cwd_filters)
        ≡ true
  unfolding matches_workspace_filter
  cwd_matches status cwd t h =
      let key = cwd_filter_key status cwd in
      let here : session_activity t ≡ status = ground (arith, eq_iff (session_activity t) status) in
      let there : t.cwd ≡ cwd = ground (arith, eq_iff t.cwd cwd) in
      ground (
        arith,
        includes-unique (w.pinned_cwd_filters ++ key ∷ []) key,
        includes-append w.pinned_cwd_filters (key ∷ []) key,
        eq_refl key,
      )

  -- Selecting the terminals of a status keeps the selection consistent.
  pub select_status-IsConsistent : (status : String) → IsConsistent (select_status status w)
  unfolding select_status
  select_status-IsConsistent status =
      elim (List-cases (filter (λ s. session_activity s == status) (available w))) [
        | inl e ↦ rw (e, select_status) v
        | inr (s, rest, e) ↦
            let statuses = add_unique status w.pinned_status_filters in
            let p = λ (t : Session). matches_workspace_filter t statuses w.pinned_cwd_filters in
            rw (e, select_status)
              (select_filters-IsConsistent statuses w.pinned_cwd_filters s.id
                (add_unique-Subset status)
                (unfold matching_ids in
                  first_matches (λ t. session_activity t == status) p (available w) s rest
                    (status_matches status) e))
      ]

  -- So does selecting those of a status in one directory.
  pub select_cwd-IsConsistent : (status cwd : String) → IsConsistent (select_cwd status cwd w)
  unfolding select_cwd
  select_cwd-IsConsistent status cwd =
      let p = λ (s : Session). (session_activity s == status) && s.cwd == cwd in
      elim (List-cases (filter p (available w))) [
        | inl e ↦ rw (e, select_cwd) v
        | inr (s, rest, e) ↦
            let cwds = add_unique (cwd_filter_key status cwd) w.pinned_cwd_filters in
            let q = λ (t : Session). matches_workspace_filter t w.pinned_status_filters cwds in
            rw (e, select_cwd)
              (select_filters-IsConsistent w.pinned_status_filters cwds s.id (λ a h. h)
                (unfold matching_ids in
                  first_matches p q (available w) s rest (cwd_matches status cwd) e))
      ]
