-- ===== src/Workspace/Update/Consistency.antt =====
-- web/src/App.tsx, updateWorkspaceFilters, in which each operation on filters ends: the consistency
-- of the selection and of the filters.
use euphony.Prelude.{
  ◌≡◌, true, false, not, some, String, List, ◌++◌, includes, IsNodup, Subset, arith, ◌||◌, filter,
  unique, includes-append, includes-unique, includes-filter, unique-IsNodup, filter-IsNodup,
}
use euphony.Workspace.Filters.{CwdSelectionFilter, parse_cwd_filter}
use euphony.Workspace.{Workspace, available, matching_ids}
use euphony.Workspace.Select.{FilterLists}
use euphony.Workspace.Update.{
  is_separate_cwd, normalized_filters, kept_ids, update_workspace_filters,
}
use euphony.Workspace.Consistent.{IsConsistent, keep_focus-IsFocusOf, unpinned_filter}

-- What holds of the filters after a change: no filter is listed twice, the pinned ones are checked,
-- and a pinned cwd filter can be read and belongs to no pinned status.
pub record ConsistentFilters (statuses cwds pinned_statuses pinned_cwds : List String)
    : Type 0 where
  pub statuses_nodup : IsNodup statuses
  pub cwds_nodup : IsNodup cwds
  pub pinned_statuses_nodup : IsNodup pinned_statuses
  pub pinned_cwds_nodup : IsNodup pinned_cwds
  pub statuses_checked : Subset pinned_statuses statuses
  pub cwds_checked : Subset pinned_cwds cwds
  pub separate :
      (key : String)
      → includes pinned_cwds key ≡ true
      → (f : CwdSelectionFilter) × (parse_cwd_filter key ≡ some f)
        × (includes pinned_statuses f.status ≡ false)

abbrev pub HasConsistentFilters : Workspace → Type 0
HasConsistentFilters w =
    ConsistentFilters w.status_filters w.cwd_filters w.pinned_status_filters w.pinned_cwd_filters

Subset-unique_right : (xs ys : List String) → Subset ys (unique (xs ++ ys))
Subset-unique_right xs ys a h =
    ground (arith, includes-unique (xs ++ ys) a, includes-append xs ys a)

Subset-unique_left : (xs ys : List String) → Subset xs (unique (xs ++ ys))
Subset-unique_left xs ys a h = ground (arith, includes-unique (xs ++ ys) a, includes-append xs ys a)

is_separate_cwd_sound :
    (pinned : List String) (key : String)
    → is_separate_cwd pinned key ≡ true
    → (f : CwdSelectionFilter) × (parse_cwd_filter key ≡ some f)
      × (includes pinned f.status ≡ false)
unfolding is_separate_cwd
is_separate_cwd_sound pinned key h = ground arith

module _ (next : FilterLists) (w : Workspace) where
  pub update_workspace_filters-HasConsistentFilters :
      HasConsistentFilters (update_workspace_filters next w)
  unfolding update_workspace_filters normalized_filters
  update_workspace_filters-HasConsistentFilters =
      let pinned = unique next.pinned_statuses in
      let cwds = filter (is_separate_cwd pinned) (unique next.pinned_cwds) in
      record {
        statuses_nodup = unique-IsNodup (next.statuses ++ pinned);
        cwds_nodup = unique-IsNodup (next.cwds ++ cwds);
        pinned_statuses_nodup = unique-IsNodup next.pinned_statuses;
        pinned_cwds_nodup =
            filter-IsNodup (is_separate_cwd pinned) _ (unique-IsNodup next.pinned_cwds);
        statuses_checked = Subset-unique_right next.statuses pinned;
        cwds_checked = Subset-unique_right next.cwds cwds;
        separate = λ key h. is_separate_cwd_sound pinned key (
            ground (arith, includes-filter (is_separate_cwd pinned) (unique next.pinned_cwds) key));
      }

  kept_ids-Subset : IsConsistent w → Subset w.pinned_ids (kept_ids w)
  unfolding kept_ids
  kept_ids-Subset v a h = ground (
    arith,
    v.pinned_selected a,
    includes-filter (λ id. includes w.pinned_ids id || not (includes w.filter_selected_ids id))
        w.selected_ids a,
  )

  pub update_workspace_filters-IsConsistent :
      IsConsistent w → IsConsistent (update_workspace_filters next w)
  unfolding update_workspace_filters
  update_workspace_filters-IsConsistent v =
      let filters = normalized_filters next in
      let matching = matching_ids (available w) filters.statuses filters.cwds in
      let ids = unique (kept_ids w ++ matching) in
      record {
        selected_nodup = unique-IsNodup (kept_ids w ++ matching);
        pinned_nodup = v.pinned_nodup;
        pinned_selected = λ a h. Subset-unique_left (kept_ids w) matching a (kept_ids-Subset v a h);
        focus_selected = keep_focus-IsFocusOf w.focused_id ids;
        pinned_checked = update_workspace_filters-HasConsistentFilters.statuses_checked;
        filter_unpinned = unpinned_filter w.pinned_ids matching;
      }
