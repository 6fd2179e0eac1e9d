-- ===== src/Workspace/Select/Consistency.antt =====
-- `selectSession` and `focusPane`, and the consistency of the selection.
use euphony.Prelude.{
  ◌≡◌, refl, Bool, true, false, not, some, String, List, [], ◌∷◌, ◌++◌, includes, IsNodup, Subset,
  arith, ◌&&◌, ◌||◌, ◌==◌, filter, find, unique, eq_iff, eq_refl, Bool-cases, Option-cases, inl,
  inr, includes-append, includes-unique, unique-IsNodup, filter-IsNodup, snoc-IsNodup, length, eqb,
  if◌then◌else◌,
}
use euphony.Session.{Session, session_activity}
use euphony.Workspace.{Workspace, available, matching_ids, without}
use euphony.Workspace.Select.{
  SelectRequest, begin, write_here, pin_session, focus_pinned, select_only, filters_without,
  note_decomposed, or_single, remove_filtered, drop_selected, deselect, add_selected, choose,
  select_checkbox, select_clicked, select_session, focus_pane,
}
use euphony.Workspace.Consistent.{
  Consistent, IsConsistent, keep_focus-IsFocusOf, includes-without, without-Subset, pinned_kept,
  unpinned_filter,
}

IsConsistent-if :
    (b : Bool) (x y : Workspace)
    → (b ≡ true → IsConsistent x)
    → (b ≡ false → IsConsistent y)
    → IsConsistent (if b then x else y)
IsConsistent-if true x y f g = f refl
IsConsistent-if false x y f g = g refl

module _ (id : String) (w : Workspace) (v : IsConsistent w) where
  joined : List String
  joined = if includes w.selected_ids id then w.selected_ids else w.selected_ids ++ id ∷ []

  joined-includes : (a : String) → includes joined a ≡ (includes w.selected_ids a || id == a)
  unfolding joined
  joined-includes a = ground (arith, includes-append w.selected_ids (id ∷ []) a, eq_iff id a)

  joined-IsNodup : IsNodup joined
  unfolding joined
  joined-IsNodup = ground (arith, snoc-IsNodup w.selected_ids id)

  pin_session-IsConsistent : IsConsistent (pin_session id w)
  unfolding pin_session write_here joined
  pin_session-IsConsistent = record {
    selected_nodup = joined-IsNodup;
    pinned_nodup = unique-IsNodup (w.pinned_ids ++ id ∷ []);
    pinned_selected = λ a. ground (
      arith,
      v.pinned_selected a,
      joined-includes a,
      includes-unique (w.pinned_ids ++ id ∷ []) a,
      includes-append w.pinned_ids (id ∷ []) a,
    );
    focus_selected = ground (arith, joined-includes id, eq_refl id);
    pinned_checked = v.pinned_checked;
    filter_unpinned = λ a. ground (
      arith,
      v.filter_unpinned a,
      includes-without id w.filter_selected_ids a,
      includes-unique (w.pinned_ids ++ id ∷ []) a,
      includes-append w.pinned_ids (id ∷ []) a,
      eq_iff id a,
      eq_iff a id,
    );
  }

  focus-IsConsistent :
      includes w.selected_ids id ≡ true
      → Consistent w.selected_ids w.pinned_ids
          (some id)
          w.status_filters
          w.pinned_status_filters
          w.filter_selected_ids
  focus-IsConsistent h = record {
    selected_nodup = v.selected_nodup;
    pinned_nodup = v.pinned_nodup;
    pinned_selected = v.pinned_selected;
    focus_selected = h;
    pinned_checked = v.pinned_checked;
    filter_unpinned = v.filter_unpinned;
  }

  focus_pinned-IsConsistent : includes w.pinned_ids id ≡ true → IsConsistent (focus_pinned id w)
  unfolding focus_pinned write_here
  focus_pinned-IsConsistent h = focus-IsConsistent (v.pinned_selected id h)

  -- Without its pin a terminal stays selected.
  unpin-IsConsistent : IsConsistent (record w { pinned_ids = without id w.pinned_ids })
  unpin-IsConsistent = record {
    selected_nodup = v.selected_nodup;
    pinned_nodup = filter-IsNodup (λ item. not (item == id)) w.pinned_ids v.pinned_nodup;
    pinned_selected = λ a. ground (arith, v.pinned_selected a, includes-without id w.pinned_ids a);
    focus_selected = v.focus_selected;
    pinned_checked = v.pinned_checked;
    filter_unpinned = λ a. ground (arith, v.filter_unpinned a, includes-without id w.pinned_ids a);
  }

module _ (r : SelectRequest) (w : Workspace) (v : IsConsistent w) where
  select_only-IsConsistent : IsConsistent (select_only r w)
  unfolding select_only
  select_only-IsConsistent =
      let matches = matching_ids (available w) w.pinned_status_filters w.pinned_cwd_filters in
      let kept = filter (includes w.pinned_ids) w.selected_ids in
      record {
        selected_nodup = unique-IsNodup (kept ++ (matches ++ r.id ∷ []));
        pinned_nodup = v.pinned_nodup;
        pinned_selected =
            pinned_kept w.pinned_ids w.selected_ids (matches ++ r.id ∷ []) v.pinned_selected;
        focus_selected = ground (
          arith,
          includes-unique (kept ++ (matches ++ r.id ∷ [])) r.id,
          includes-append kept (matches ++ r.id ∷ []) r.id,
          includes-append matches (r.id ∷ []) r.id,
          eq_refl r.id,
        );
        pinned_checked = λ a h. h;
        filter_unpinned = unpinned_filter w.pinned_ids matches;
      }

  add_selected-IsConsistent : includes w.selected_ids r.id ≡ false → IsConsistent (add_selected r w)
  unfolding add_selected
  add_selected-IsConsistent h = record {
    selected_nodup = snoc-IsNodup w.selected_ids r.id h v.selected_nodup;
    pinned_nodup = v.pinned_nodup;
    pinned_selected =
        λ a. ground (arith, v.pinned_selected a, includes-append w.selected_ids (r.id ∷ []) a);
    focus_selected = ground (arith, includes-append w.selected_ids (r.id ∷ []) r.id, eq_refl r.id);
    pinned_checked = v.pinned_checked;
    filter_unpinned = v.filter_unpinned;
  }

  remaining : List String
  remaining =
      if eqb (length w.selected_ids) 1 && not r.allow_empty
      then w.selected_ids
      else without r.id w.selected_ids

  drop_selected-IsConsistent : includes w.pinned_ids r.id ≡ false → IsConsistent (drop_selected r w)
  unfolding drop_selected remaining
  drop_selected-IsConsistent h = record {
    selected_nodup =
        ground (arith, filter-IsNodup (λ item. not (item == r.id)) w.selected_ids v.selected_nodup);
    pinned_nodup = v.pinned_nodup;
    pinned_selected = λ a.
        ground (arith, v.pinned_selected a, includes-without r.id w.selected_ids a, eq_iff a r.id);
    focus_selected = keep_focus-IsFocusOf w.focused_id remaining;
    pinned_checked = v.pinned_checked;
    filter_unpinned = v.filter_unpinned;
  }

  filters_without-Subset :
      (session : Session)
      → let filters = filters_without session w in Subset filters.pinned_statuses filters.statuses
  unfolding filters_without
  filters_without-Subset session =
      let status = session_activity session in
      ground
        (arith, without-Subset status w.pinned_status_filters w.status_filters v.pinned_checked)

  or_single-IsNodup :
      (allow : Bool) (id : String) (ids : List String)
      → IsNodup ids
      → IsNodup (or_single allow id ids)
  unfolding or_single
  or_single-IsNodup allow id [] n = ground arith
  or_single-IsNodup allow id (x ∷ xs) n = n

  or_single-Subset :
      (allow : Bool) (id : String) (xs ids : List String)
      → Subset xs ids
      → Subset xs (or_single allow id ids)
  unfolding or_single
  or_single-Subset allow id xs [] h a k = absurd (ground (arith, h a k))
  or_single-Subset allow id xs (y ∷ ys) h a k = h a k

  remove_filtered-IsConsistent :
      (session : Session)
      → includes w.pinned_ids r.id ≡ false
      → IsConsistent (remove_filtered r session w)
  unfolding remove_filtered note_decomposed
  remove_filtered-IsConsistent session h =
      let filters = filters_without session w in
      let matching = matching_ids (available w) filters.statuses filters.cwds in
      let kept = without r.id w.selected_ids in
      let ids = unique (kept ++ matching) in
      record {
        selected_nodup =
            or_single-IsNodup r.allow_empty r.id ids (unique-IsNodup (kept ++ matching));
        pinned_nodup = v.pinned_nodup;
        pinned_selected = or_single-Subset r.allow_empty r.id w.pinned_ids ids λ a. ground (
          arith,
          v.pinned_selected a,
          includes-unique (kept ++ matching) a,
          includes-append kept matching a,
          includes-without r.id w.selected_ids a,
          eq_iff a r.id,
        );
        focus_selected = keep_focus-IsFocusOf w.focused_id (or_single r.allow_empty r.id ids);
        pinned_checked = filters_without-Subset session;
        filter_unpinned = unpinned_filter w.pinned_ids matching;
      }

  deselect-IsConsistent : includes w.pinned_ids r.id ≡ false → IsConsistent (deselect r w)
  unfolding deselect
  deselect-IsConsistent h = elim (Option-cases (find (λ s. s.id == r.id) (available w))) [
    | inl e ↦ rw (e, deselect) (drop_selected-IsConsistent h)
    | inr (session, e) ↦
        rw (e, deselect)
          (ground (arith, drop_selected-IsConsistent h, remove_filtered-IsConsistent session h))
  ]

  choose-IsConsistent :
      (r.multiple && includes w.pinned_ids r.id) ≡ false → IsConsistent (choose r w)
  unfolding choose
  choose-IsConsistent h = elim (Bool-cases r.multiple) [
    | inl more ↦
        let unpinned : includes w.pinned_ids r.id ≡ false = ground arith in
        rw (more, choose)
          (IsConsistent-if (includes w.selected_ids r.id) _ _ (λ _. deselect-IsConsistent unpinned)
            (λ h. add_selected-IsConsistent h))
    | inr only ↦ rw (only, choose) select_only-IsConsistent
  ]

module _ (r : SelectRequest) (w : Workspace) (v : IsConsistent w) where
  toggled-IsConsistent : (pin : Bool) → IsConsistent (select_checkbox r pin w)
  unfolding select_checkbox begin
  toggled-IsConsistent pin =
      IsConsistent-if (includes w.pinned_ids r.id) _ _
        (λ _.
          choose-IsConsistent (record r { allow_empty = true })
            (record (begin r w) { pinned_ids = without r.id w.pinned_ids })
            (unpin-IsConsistent r.id (begin r w) v)
            (ground (arith, includes-without r.id w.pinned_ids r.id, eq_refl r.id)))
        (λ unpinned.
          IsConsistent-if pin _ _ (λ _. pin_session-IsConsistent r.id (begin r w) v)
            (λ _. choose-IsConsistent r (begin r w) v (ground arith)))

  clicked-IsConsistent : IsConsistent (select_clicked r w)
  unfolding select_clicked begin
  clicked-IsConsistent =
      IsConsistent-if (r.multiple && includes w.pinned_ids r.id) _ _
        (λ h. focus_pinned-IsConsistent r.id (begin r w) v (ground arith))
        (λ h. choose-IsConsistent r (begin r w) v h)

-- Selecting a terminal, by a click or a checkbox, with or without a pin, keeps the selection
-- consistent, whatever the request asks for.
pub select_session-IsConsistent :
    (r : SelectRequest) (w : Workspace) → IsConsistent w → IsConsistent (select_session r w)
unfolding select_session
select_session-IsConsistent r w v = elim (Option-cases r.checkbox_pin) [
  | inl e ↦ rw (e, select_session) (clicked-IsConsistent r w v)
  | inr (pin, e) ↦ rw (e, select_session) (toggled-IsConsistent r w v pin)
]

-- So does focusing a terminal that is selected.
pub focus_pane-IsConsistent :
    (id : String) (w : Workspace)
    → IsConsistent w
    → includes w.selected_ids id ≡ true
    → IsConsistent (focus_pane id w)
unfolding focus_pane
focus_pane-IsConsistent id w v h = focus-IsConsistent id w v h
