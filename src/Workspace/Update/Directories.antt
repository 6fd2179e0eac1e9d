-- ===== src/Workspace/Update/Directories.antt =====
-- web/src/App.tsx, updateCwdFilter: which sessions match the filters after one directory of a status
-- is checked or unchecked, also where the status is split into its directories or joined from them.
use euphony.Prelude.{
  ◌≡◌, refl, ◌∙◌, Bool, true, false, Option, String, List, [], ◌∷◌, ◌++◌, map, filter, includes,
  Subset, all, arith, ◌&&◌, ◌==◌, eq_iff, eq_refl, ◌⊎◌, Bool-cases, inl, inr, is_set, if◌then◌else◌,
  includes-append, includes-unique, set_add,
}
use euphony.Session.{Session, session_activity}
use euphony.Workspace.Filters.{cwd_filter_key, matches_workspace_filter}
use euphony.Workspace.Filters.Keys.{NoSeparator}
use euphony.Workspace.{Workspace, available, without}
use euphony.Workspace.Select.{FilterLists, without_status, sibling_cwd_filters}
use euphony.Workspace.Update.{
  update_workspace_filters, add_unique, split_status, status_cwd_filters, join_status,
  next_pinned_cwd_filters, set_cwd_filter, update_cwd_filter,
}
use euphony.Workspace.Consistent.{includes-without}
use euphony.Workspace.Update.Covering.{
  covers, includes-add_unique, cwd_filter_key_eq, includes-without_status, update-status_filters,
  update-cwd_filters,
}
use euphony.Workspace.Update.Siblings.{
  includes-status_keys, includes-sibling_cwd_filters, all_includes, any-middle, is_live,
}

module _ (w : Workspace) (statuses_kept : Subset w.pinned_status_filters w.status_filters)
    (cwds_kept : Subset w.pinned_cwd_filters w.cwd_filters) (status cwd : String)
    (n : NoSeparator status) (other dir : String) (m : NoSeparator other)
    (live : other ≡ status → is_live (available w) status dir ≡ true) where
  split_status_covers :
      includes w.status_filters status ≡ true
      → let after = split_status status cwd w in
        covers after.status_filters after.cwd_filters other dir ≡ (
          if (other == status) && dir == cwd
          then false
          else covers w.status_filters w.cwd_filters other dir)
  unfolding split_status
  split_status_covers owned =
      let key = cwd_filter_key other dir in
      let siblings = sibling_cwd_filters (available w) status cwd in
      let parent_pinned = includes w.pinned_status_filters status in
      let pinned_siblings = if parent_pinned then siblings else [] in
      let next : FilterLists = record {
        statuses = without status w.status_filters;
        cwds = without_status w.cwd_filters status ++ siblings;
        pinned_statuses = without status w.pinned_status_filters;
        pinned_cwds = without_status w.pinned_cwd_filters status ++ pinned_siblings;
      } in
      let from : Workspace = record w {
        decomposed_status_filters = set_add w.decomposed_status_filters status;
        decomposed_pinned_status_filters =
            if parent_pinned
            then set_add w.decomposed_pinned_status_filters status
            else w.decomposed_pinned_status_filters;
      } in
      ground (
        arith,
        update-status_filters next from other,
        update-cwd_filters next from key,
        includes-without status w.status_filters other,
        includes-without status w.pinned_status_filters other,
        includes-append (without_status w.cwd_filters status) siblings key,
        includes-append (without_status w.pinned_cwd_filters status) pinned_siblings key,
        includes-without_status w.cwd_filters status other dir n m,
        includes-without_status w.pinned_cwd_filters status other dir n m,
        includes-sibling_cwd_filters (available w) status cwd other dir n m,
        live,
        statuses_kept other,
        cwds_kept key,
        eq_iff other status,
      )

  includes-status_cwd_filters :
      other ≡ status → includes (status_cwd_filters w status) (cwd_filter_key other dir) ≡ true
  unfolding status_cwd_filters
  includes-status_cwd_filters same = rw same (
      includes-unique
        (map (λ s. cwd_filter_key status s.cwd)
          (filter (λ s. session_activity s == status) (available w)))
        (cwd_filter_key status dir)
      ∙ includes-status_keys (available w) status dir n (live same))

  -- The cwd filters that checking or unchecking asks for, first and pinned.
  next_cwds : Bool → List String
  next_cwds checked =
      let key = cwd_filter_key status cwd in
      if checked then add_unique key w.cwd_filters else without key w.cwd_filters

  includes-next_cwds :
      (checked : Bool)
      → includes (next_cwds checked) (cwd_filter_key other dir) ≡ (
          if (other == status) && dir == cwd
          then checked
          else includes w.cwd_filters (cwd_filter_key other dir))
  unfolding next_cwds
  includes-next_cwds checked =
      let key = cwd_filter_key status cwd in
      ground (
        arith,
        includes-add_unique key w.cwd_filters (cwd_filter_key other dir),
        includes-without key w.cwd_filters (cwd_filter_key other dir),
        cwd_filter_key_eq status other cwd dir n m,
        eq_iff key (cwd_filter_key other dir),
        eq_iff (cwd_filter_key other dir) key,
        eq_iff other status,
        eq_iff status other,
        eq_iff cwd dir,
        eq_iff dir cwd,
      )

  includes-next_pinned_cwd_filters :
      (checked : Bool) (pin : Option Bool)
      → includes
          (next_pinned_cwd_filters status (cwd_filter_key status cwd) checked pin w)
          (cwd_filter_key other dir)
        ≡ true
      → includes (next_cwds checked) (cwd_filter_key other dir) ≡ true
  unfolding next_pinned_cwd_filters
  includes-next_pinned_cwd_filters checked pin =
      let key = cwd_filter_key status cwd in
      ground (
        arith,
        includes-next_cwds checked,
        includes-add_unique key w.pinned_cwd_filters (cwd_filter_key other dir),
        includes-without key w.pinned_cwd_filters (cwd_filter_key other dir),
        cwd_filter_key_eq status other cwd dir n m,
        eq_iff key (cwd_filter_key other dir),
        eq_iff (cwd_filter_key other dir) key,
        eq_iff other status,
        eq_iff status other,
        eq_iff cwd dir,
        eq_iff dir cwd,
        cwds_kept (cwd_filter_key other dir),
      )

  join_status_covers :
      (pin : Option Bool)
      → all (includes (next_cwds true)) (status_cwd_filters w status) ≡ true
      → let after =
          join_status status
            (next_cwds true)
            (next_pinned_cwd_filters status (cwd_filter_key status cwd) true pin w)
            w in
        covers after.status_filters after.cwd_filters other dir ≡ (
          if (other == status) && dir == cwd
          then true
          else covers w.status_filters w.cwd_filters other dir)
  unfolding join_status
  join_status_covers pin whole =
      let key = cwd_filter_key other dir in
      let cwds = next_cwds true in
      let pinned = next_pinned_cwd_filters status (cwd_filter_key status cwd) true pin w in
      let joined =
        includes w.decomposed_pinned_status_filters status
        && all (includes pinned) (status_cwd_filters w status) in
      let next : FilterLists = record {
        statuses = add_unique status w.status_filters;
        cwds = without_status cwds status;
        pinned_statuses =
            if joined then add_unique status w.pinned_status_filters else w.pinned_status_filters;
        pinned_cwds = if joined then without_status pinned status else pinned;
      } in
      let from : Workspace = record w {
        decomposed_status_filters = without status w.decomposed_status_filters;
        decomposed_pinned_status_filters =
            if joined
            then without status w.decomposed_pinned_status_filters
            else w.decomposed_pinned_status_filters;
      } in
      ground (
        arith,
        update-status_filters next from other,
        update-cwd_filters next from key,
        includes-add_unique status w.status_filters other,
        includes-add_unique status w.pinned_status_filters other,
        includes-without_status cwds status other dir n m,
        includes-without_status pinned status other dir n m,
        includes-next_cwds true,
        includes-next_pinned_cwd_filters true pin,
        all_includes (status_cwd_filters w status) cwds key whole,
        includes-status_cwd_filters,
        statuses_kept other,
        eq_iff other status,
        eq_iff status other,
      )

  set_cwds_covers :
      (checked : Bool) (pin : Option Bool)
      → (checked ≡ true) ⊎ (includes w.status_filters status ≡ false)
      → let next : FilterLists = record {
        statuses = w.status_filters;
        cwds = next_cwds checked;
        pinned_statuses = w.pinned_status_filters;
        pinned_cwds = next_pinned_cwd_filters status (cwd_filter_key status cwd) checked pin w;
      } in
        let after = update_workspace_filters next w in
        covers after.status_filters after.cwd_filters other dir ≡ (
          if (other == status) && dir == cwd
          then checked
          else covers w.status_filters w.cwd_filters other dir)
  set_cwds_covers checked pin unowned =
      let key = cwd_filter_key other dir in
      let next : FilterLists = record {
        statuses = w.status_filters;
        cwds = next_cwds checked;
        pinned_statuses = w.pinned_status_filters;
        pinned_cwds = next_pinned_cwd_filters status (cwd_filter_key status cwd) checked pin w;
      } in
      ground (
        arith,
        update-status_filters next w other,
        update-cwd_filters next w key,
        includes-next_cwds checked,
        includes-next_pinned_cwd_filters checked pin,
        statuses_kept other,
        unowned,
        eq_iff other status,
      )

  set_cwd_filter_covers :
      (checked : Bool) (pin : Option Bool)
      → (checked ≡ true) ⊎ (includes w.status_filters status ≡ false)
      → let after = set_cwd_filter status cwd checked pin w in
        covers after.status_filters after.cwd_filters other dir ≡ (
          if (other == status) && dir == cwd
          then checked
          else covers w.status_filters w.cwd_filters other dir)
  unfolding set_cwd_filter next_cwds
  set_cwd_filter_covers true pin unowned =
      elim (Bool-cases (all (includes (next_cwds true)) (status_cwd_filters w status))) [
        | inl whole ↦ ground (arith, join_status_covers pin whole, set_cwds_covers true pin unowned)
        | inr partial ↦ rw partial (ground (arith, set_cwds_covers true pin unowned))
      ]
  set_cwd_filter_covers false pin unowned = set_cwds_covers false pin unowned

  update_cwd_filter_covers :
      (checked : Bool) (pin : Option Bool)
      → let after = update_cwd_filter status cwd checked pin w in
        covers after.status_filters after.cwd_filters other dir ≡ (
          if (other == status) && dir == cwd
          then checked
          else covers w.status_filters w.cwd_filters other dir)
  unfolding update_cwd_filter
  update_cwd_filter_covers true pin = set_cwd_filter_covers true pin (inl refl)
  update_cwd_filter_covers false pin = elim (Bool-cases (includes w.status_filters status)) [
    | inl owned ↦ rw owned (split_status_covers owned)
    | inr free ↦ rw free (set_cwd_filter_covers false pin (inr free))
  ]

-- If every pinned filter is checked, then after one directory of a status is checked or unchecked a
-- session of the list that needs no attention matches the filters exactly as before, unless it has this status
-- in this directory: then it matches exactly if the directory was checked. The two statuses are
-- without the separator.
pub update_cwd_filter_matches :
    (status cwd : String) (checked : Bool) (pin : Option Bool) (w : Workspace)
    (before later : List Session) (s : Session)
    → Subset w.pinned_status_filters w.status_filters
    → Subset w.pinned_cwd_filters w.cwd_filters
    → available w ≡ before ++ s ∷ later
    → NoSeparator status
    → NoSeparator (session_activity s)
    → is_set s.needs_attention ≡ false
    → let after = update_cwd_filter status cwd checked pin w in
      matches_workspace_filter s after.status_filters after.cwd_filters ≡ (
        if (session_activity s == status) && s.cwd == cwd
        then checked
        else matches_workspace_filter s w.status_filters w.cwd_filters)
unfolding matches_workspace_filter
update_cwd_filter_matches status cwd checked pin w before later s statuses_kept cwds_kept e n m
      calm =
    let live : session_activity s ≡ status → is_live (available w) status s.cwd ≡ true = λ same.
      rw e (
        any-middle (λ t. (session_activity t == status) && t.cwd == s.cwd) before later s
          (ground (arith, same, eq_refl status, eq_refl s.cwd))) in
    ground (
      arith,
      update_cwd_filter_covers w statuses_kept cwds_kept status cwd n (session_activity s) s.cwd m
          live checked pin,
    )
