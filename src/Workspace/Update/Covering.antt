-- ===== src/Workspace/Update/Covering.antt =====
-- web/src/App.tsx, updateStatusFilter: which sessions match the filters after a status is checked or
-- unchecked, with the lemmas on filters that a single directory needs too.
use euphony.Prelude.{
  ◌≡◌, ◌∙◌, ap, Bool, not, Option, String, List, [], ◌∷◌, ◌++◌, filter, includes, Subset, any,
  arith, ◌&&◌, ◌||◌, ◌==◌, eq_iff, is_set, if◌then◌else◌, unique, includes-append, includes-unique,
  includes-filter,
}
use euphony.Session.{Session, session_activity}
use euphony.Workspace.Filters.{
  cwd_filter_key, cwd_filter_belongs_to_status, filter_statuses, matches_workspace_filter,
}
use euphony.Workspace.Filters.Keys.{
  NoSeparator, cwd_filter_key_injective, cwd_filter_belongs_to_status-cwd_filter_key,
}
use euphony.Workspace.{Workspace}
use euphony.Workspace.Select.{FilterLists, without_status}
use euphony.Workspace.Update.{
  is_separate_cwd, normalized_filters, update_workspace_filters, add_unique, status_filter_lists,
  forget_decomposed, update_status_filter,
}
use euphony.Workspace.Consistent.{includes-without}

-- A status in a directory is covered by its own filter, or by the one of the directory.
abbrev pub covers : List String → List String → String → String → Bool
covers statuses cwds status cwd =
    includes statuses status || includes cwds (cwd_filter_key status cwd)

pub includes-add_unique :
    (x : String) (xs : List String) (a : String)
    → includes (add_unique x xs) a ≡ (includes xs a || x == a)
includes-add_unique x xs a =
    ground (arith, includes-unique (xs ++ x ∷ []) a, includes-append xs (x ∷ []) a, eq_iff x a)

pub cwd_filter_key_eq :
    (status other cwd dir : String)
    → NoSeparator status
    → NoSeparator other
    → (cwd_filter_key status cwd == cwd_filter_key other dir) ≡ ((status == other) && cwd == dir)
cwd_filter_key_eq status other cwd dir n m =
    let same : status ≡ other → cwd ≡ dir → cwd_filter_key status cwd ≡ cwd_filter_key other dir =
      λ e f. ap (λ t. cwd_filter_key t cwd) e ∙ ap (cwd_filter_key other) f in
    ground (
      arith,
      same,
      cwd_filter_key_injective status other cwd dir n m,
      eq_iff (cwd_filter_key status cwd) (cwd_filter_key other dir),
      eq_iff status other,
      eq_iff cwd dir,
    )

pub includes-without_status :
    (cwds : List String) (status other cwd : String)
    → NoSeparator status
    → NoSeparator other
    → includes (without_status cwds status) (cwd_filter_key other cwd)
      ≡ (includes cwds (cwd_filter_key other cwd) && not (other == status))
includes-without_status cwds status other cwd n m = ground (
  arith,
  includes-filter (λ key. not (cwd_filter_belongs_to_status key status)) cwds
      (cwd_filter_key other cwd),
  cwd_filter_belongs_to_status-cwd_filter_key status other cwd n m,
)

-- The filters after a change, by the lists that it asks for.
module _ (next : FilterLists) (w : Workspace) (a : String) where
  pub update-status_filters :
      includes (update_workspace_filters next w).status_filters a
      ≡ (includes next.statuses a || includes next.pinned_statuses a)
  unfolding update_workspace_filters normalized_filters
  update-status_filters = ground (
    arith,
    includes-unique (next.statuses ++ unique next.pinned_statuses) a,
    includes-append next.statuses (unique next.pinned_statuses) a,
    includes-unique next.pinned_statuses a,
  )

  update-pinned_status_filters :
      includes (update_workspace_filters next w).pinned_status_filters a
      ≡ includes next.pinned_statuses a
  unfolding update_workspace_filters normalized_filters
  update-pinned_status_filters = includes-unique next.pinned_statuses a

  pub update-cwd_filters : includes (update_workspace_filters next w).cwd_filters a ≡ (
      includes next.cwds a
      || (includes next.pinned_cwds a && is_separate_cwd (unique next.pinned_statuses) a))
  unfolding update_workspace_filters normalized_filters
  update-cwd_filters =
      let separate = is_separate_cwd (unique next.pinned_statuses) in
      ground (
        arith,
        includes-unique (next.cwds ++ filter separate (unique next.pinned_cwds)) a,
        includes-append next.cwds (filter separate (unique next.pinned_cwds)) a,
        includes-filter separate (unique next.pinned_cwds) a,
        includes-unique next.pinned_cwds a,
      )

update_status_filter-pinned :
    (status : String) (checked : Bool) (pin : Option Bool) (w : Workspace) (other : String)
    → includes (update_status_filter status checked pin w).pinned_status_filters other ≡ (
        if other == status
        then checked && (is_set pin || includes w.pinned_status_filters other)
        else includes w.pinned_status_filters other)
unfolding update_status_filter status_filter_lists forget_decomposed
update_status_filter-pinned status checked pin w other = ground (
  arith,
  update-pinned_status_filters (status_filter_lists status checked pin w)
      (forget_decomposed status w) other,
  includes-add_unique status w.pinned_status_filters other,
  includes-without status w.pinned_status_filters other,
  eq_iff other status,
  eq_iff status other,
)

module _ (w : Workspace) (statuses_kept : Subset w.pinned_status_filters w.status_filters)
    (cwds_kept : Subset w.pinned_cwd_filters w.cwd_filters) where
  -- What covers another status stays, and the status itself is covered when it is checked.
  update_status_filter_covers :
      (status : String) (checked : Bool) (pin : Option Bool) (other cwd : String)
      → NoSeparator status
      → NoSeparator other
      → let after = update_status_filter status checked pin w in
        covers after.status_filters after.cwd_filters other cwd
        ≡ (if other == status then checked else covers w.status_filters w.cwd_filters other cwd)
  unfolding update_status_filter status_filter_lists forget_decomposed
  update_status_filter_covers status checked pin other cwd n m =
      let next = status_filter_lists status checked pin w in
      let from = forget_decomposed status w in
      let key = cwd_filter_key other cwd in
      ground (
        arith,
        update-status_filters next from other,
        update-cwd_filters next from key,
        includes-add_unique status w.status_filters other,
        includes-add_unique status w.pinned_status_filters other,
        includes-without status w.status_filters other,
        includes-without status w.pinned_status_filters other,
        includes-without_status w.cwd_filters status other cwd n m,
        includes-without_status w.pinned_cwd_filters status other cwd n m,
        statuses_kept other,
        cwds_kept key,
        eq_iff other status,
        eq_iff status other,
      )

  attention-NoSeparator : NoSeparator "attention"
  attention-NoSeparator = omega arith

  -- If every pinned filter is checked, then after a status is checked or unchecked a session
  -- matches the filters exactly when one of the statuses it counts as is this one, and it is
  -- checked, or is another one that the filters covered before; and a status is pinned exactly when
  -- it is another one that was pinned, or this one, checked, and pinned now or before. The two
  -- statuses are without the separator.
  pub update_status_filter_matches :
      (status : String) (checked : Bool) (pin : Option Bool) (s : Session)
      → NoSeparator status
      → NoSeparator (session_activity s)
      → let after = update_status_filter status checked pin w in
        (matches_workspace_filter s after.status_filters after.cwd_filters
          ≡ any
              (λ other.
                if other == status
                then checked
                else includes w.status_filters other
                  || includes w.cwd_filters (cwd_filter_key other s.cwd))
              (filter_statuses s))
        × ((other : String)
            → includes after.pinned_status_filters other ≡ (
                if other == status
                then checked && (is_set pin || includes w.pinned_status_filters other)
                else includes w.pinned_status_filters other))
  unfolding matches_workspace_filter
  update_status_filter_matches status checked pin s n m = (
    ground (
      arith,
      update_status_filter_covers status checked pin (session_activity s) s.cwd n m,
      update_status_filter_covers status checked pin "attention" s.cwd n attention-NoSeparator,
    ),
    λ other. update_status_filter-pinned status checked pin w other,
  )
