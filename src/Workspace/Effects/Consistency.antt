-- ===== src/Workspace/Effects/Consistency.antt =====
-- The effects and the consistency of the selection.
use euphony.Prelude.{
  ◌≡◌, refl, Bool, true, false, not, Option, some, none, String, List, [], ◌∷◌, ◌++◌, includes,
  IsNodup, Subset, arith, ◌||◌, ◌&&◌, filter, unique, includes-append, includes-unique,
  includes-filter, unique-IsNodup, length, eqb, same_ids, filter-IsNodup, if◌then◌else◌,
  includes_self,
}
use euphony.Session.{Session}
use euphony.Session.Replacement.{ids}
use euphony.Workspace.{Workspace, available, matching_ids}
use euphony.Workspace.Effects.{
  Effects, no_filters, removed_id, replacement_of, remaining_selection, drop_removed,
  removed_sessions_effect, promote, promoted_id, is_cancelled, choose_matching, reselect,
  promote_or, matches_effect, is_non_match, deselect_expired, expired_effect, drop_removed_from,
  Event, sessions_answered, agent_launched, timer_set, timer_over, removed_sessions_run,
  matches_run, expired_run, step, run,
}
use euphony.Workspace.Consistent.{IsConsistent, keep_focus-IsFocusOf, pinned_kept, unpinned_filter}

either :
    (P : Workspace → Type 0) (test : Bool) (v w : Workspace) → P v → P w → P (if test then v else w)
either P true v w p q = p
either P false v w p q = q

not_includes_empty :
    (xs : List String) (a : String) → eqb (length xs) 0 ≡ true → includes xs a ≡ false
not_includes_empty [] a h = refl
not_includes_empty (x ∷ xs) a h = absurd (ground arith)

pub record IsRemaining (kept next : List String) : Type 0 where
  pub nodup : IsNodup next
  pub holds : Subset kept next

replaced-IsRemaining :
    (test : Bool) (replacement : Option Session) (kept : List String)
    → (test ≡ true → eqb (length kept) 0 ≡ true)
    → IsNodup kept
    → IsRemaining kept
        (if test then (elim replacement [ none ↦ kept | some session ↦ session.id ∷ [] ]) else kept)
replaced-IsRemaining false replacement kept e n = record { nodup = n; holds = λ a h. h }
replaced-IsRemaining true none kept e n = record { nodup = n; holds = λ a h. h }
replaced-IsRemaining true (some session) kept e n = record {
  nodup = (refl, tt);
  holds = λ a h. absurd (ground (arith, h, not_includes_empty kept a (e refl)));
}

pub remaining_selection-IsRemaining :
    (remaining : List String) (unfiltered : Bool) (replacement : Option Session)
    (selected : List String)
    → IsNodup selected
    → IsRemaining
        (filter (includes remaining) selected)
        (remaining_selection remaining unfiltered replacement selected)
unfolding remaining_selection
remaining_selection-IsRemaining remaining unfiltered replacement selected n =
    let kept = filter (includes remaining) selected in
    replaced-IsRemaining (eqb (length kept) 0 && unfiltered) replacement kept (λ e. ground arith)
      (filter-IsNodup (includes remaining) selected n)

filter-Subset :
    (p : String → Bool) (xs ys : List String) → Subset xs ys → Subset (filter p xs) (filter p ys)
filter-Subset p xs ys h a = ground (arith, h a, includes-filter p xs a, includes-filter p ys a)

drop_removed-IsConsistent :
    (rendered sessions : List Session) (w : Workspace)
    → IsConsistent w
    → IsConsistent (drop_removed rendered sessions w)
unfolding drop_removed
drop_removed-IsConsistent rendered sessions w v =
    let remaining = ids sessions in
    let replacement =
      replacement_of rendered sessions (removed_id remaining w.focused_id w.selected_ids) in
    let next = remaining_selection remaining (no_filters w) replacement w.selected_ids in
    let kept =
      remaining_selection-IsRemaining remaining (no_filters w) replacement w.selected_ids
        v.selected_nodup in
    record {
      selected_nodup = kept.nodup;
      pinned_nodup = filter-IsNodup (includes remaining) w.pinned_ids v.pinned_nodup;
      pinned_selected = λ a h.
          kept.holds a
            (filter-Subset (includes remaining) w.pinned_ids w.selected_ids v.pinned_selected a h);
      focus_selected = keep_focus-IsFocusOf w.focused_id next;
      pinned_checked = v.pinned_checked;
      filter_unpinned = λ a h.
          ground
            (arith, v.filter_unpinned a h, includes-filter (includes remaining) w.pinned_ids a);
    }

promote-IsConsistent : (id : String) (w : Workspace) → IsConsistent w → IsConsistent (promote id w)
unfolding promote
promote-IsConsistent id w v =
    let matching = matching_ids (available w) w.pinned_status_filters w.pinned_cwd_filters in
    let kept = filter (includes w.pinned_ids) w.selected_ids in
    record {
      selected_nodup = unique-IsNodup (kept ++ (matching ++ id ∷ []));
      pinned_nodup = v.pinned_nodup;
      pinned_selected =
          pinned_kept w.pinned_ids w.selected_ids (matching ++ id ∷ []) v.pinned_selected;
      focus_selected = ground (
        arith,
        includes-unique (kept ++ (matching ++ id ∷ [])) id,
        includes-append kept (matching ++ id ∷ []) id,
        includes-append matching (id ∷ []) id,
        includes_self id [],
      );
      pinned_checked = λ a h. h;
      filter_unpinned = unpinned_filter w.pinned_ids matching;
    }

-- What is pinned was not brought in by a filter, so it stays.
chosen-Subset :
    (matching pending : List String) (w : Workspace)
    → IsConsistent w
    → Subset w.pinned_ids (
        unique (
          filter
            (λ id. not (includes w.filter_selected_ids id) || includes pending id)
            w.selected_ids
          ++ matching))
chosen-Subset matching pending w v a h =
    let stays = λ (id : String). not (includes w.filter_selected_ids id) || includes pending id in
    ground (
      arith,
      h,
      v.pinned_selected a,
      v.filter_unpinned a,
      includes-filter stays w.selected_ids a,
      includes-unique (filter stays w.selected_ids ++ matching) a,
      includes-append (filter stays w.selected_ids) matching a,
    )

choose_matching-IsConsistent :
    (matching pending : List String) (w : Workspace)
    → IsConsistent w
    → IsConsistent (choose_matching matching pending w)
unfolding choose_matching
choose_matching-IsConsistent matching pending w v =
    let kept =
      filter (λ id. not (includes w.filter_selected_ids id) || includes pending id)
        w.selected_ids in
    let next = unique (kept ++ matching) in
    let waiting =
      filter (λ id. includes w.selected_ids id && not (includes w.pinned_ids id)) pending in
    let unpinned = unpinned_filter w.pinned_ids (matching ++ waiting) in
    either IsConsistent (same_ids next w.selected_ids) _ _
      (record {
        selected_nodup = v.selected_nodup;
        pinned_nodup = v.pinned_nodup;
        pinned_selected = v.pinned_selected;
        focus_selected = v.focus_selected;
        pinned_checked = v.pinned_checked;
        filter_unpinned = unpinned;
      })
      (record {
        selected_nodup = unique-IsNodup (kept ++ matching);
        pinned_nodup = v.pinned_nodup;
        pinned_selected = chosen-Subset matching pending w v;
        focus_selected = keep_focus-IsFocusOf w.focused_id next;
        pinned_checked = v.pinned_checked;
        filter_unpinned = unpinned;
      })

deselect_expired-IsConsistent :
    (non_matching : List String) (w : Workspace)
    → IsConsistent w
    → IsConsistent (deselect_expired non_matching w)
unfolding deselect_expired
deselect_expired-IsConsistent non_matching w v =
    let stays = λ (id : String). includes w.pinned_ids id || not (includes non_matching id) in
    let next = filter stays w.selected_ids in
    let left = λ (id : String). not (includes non_matching id) in
    either IsConsistent (eqb (length non_matching) 0 || same_ids next w.selected_ids) w _ v
      (record {
        selected_nodup = filter-IsNodup stays w.selected_ids v.selected_nodup;
        pinned_nodup = v.pinned_nodup;
        pinned_selected =
            λ a h. ground (arith, h, v.pinned_selected a h, includes-filter stays w.selected_ids a);
        focus_selected = keep_focus-IsFocusOf w.focused_id next;
        pinned_checked = v.pinned_checked;
        filter_unpinned = λ a h.
            v.filter_unpinned a (ground (arith, h, includes-filter left w.filter_selected_ids a));
      })

drop_removed_from-IsConsistent :
    (rendered : List Session) (sessions : Option (List Session)) (w : Workspace)
    → IsConsistent w
    → IsConsistent (drop_removed_from rendered sessions w)
unfolding drop_removed_from
drop_removed_from-IsConsistent rendered none w v = v
drop_removed_from-IsConsistent rendered (some sessions) w v =
    either IsConsistent _ w (drop_removed rendered sessions w) v
      (drop_removed-IsConsistent rendered sessions w v)

either_effects :
    (test : Bool) (s t : Effects)
    → IsConsistent s.workspace
    → IsConsistent t.workspace
    → IsConsistent (if test then s else t).workspace
either_effects true s t v w = v
either_effects false s t v w = w

reselect-IsConsistent :
    (s : Effects) → IsConsistent s.workspace → IsConsistent (reselect s).workspace
unfolding reselect
reselect-IsConsistent s v =
    let w = s.workspace in
    let matching = matching_ids (available w) w.status_filters w.cwd_filters in
    choose_matching-IsConsistent matching
      (filter (λ id. not (is_cancelled w matching id)) s.filter_deselect_timers) w v

promote_or-IsConsistent :
    (id : Option String) (s : Effects)
    → IsConsistent s.workspace
    → IsConsistent (promote_or id s).workspace
unfolding promote_or
promote_or-IsConsistent (some id) s v = promote-IsConsistent id s.workspace v
promote_or-IsConsistent none s v = either_effects _ s (reselect s) v (reselect-IsConsistent s v)

expired_effect-IsConsistent :
    (s : Effects) → IsConsistent s.workspace → IsConsistent (expired_effect s).workspace
unfolding expired_effect
expired_effect-IsConsistent s v =
    let over = unique (filter (is_non_match s.workspace) s.expired_filter_deselect_ids) in
    either_effects _ _ _ v (deselect_expired-IsConsistent over s.workspace v)

step-IsConsistent :
    (e : Event) (s : Effects) → IsConsistent s.workspace → IsConsistent (step e s).workspace
unfolding step removed_sessions_effect matches_effect
step-IsConsistent (sessions_answered sessions) s v = v
step-IsConsistent (agent_launched id) s v = v
step-IsConsistent (timer_set id) s v = v
step-IsConsistent (timer_over id) s v =
    either_effects (includes s.filter_deselect_timers id) _ s v v
step-IsConsistent (removed_sessions_run rendered) s v =
    drop_removed_from-IsConsistent rendered s.workspace.sessions s.workspace v
step-IsConsistent matches_run s v =
    promote_or-IsConsistent (promoted_id s) (record s { pending_agent_launch_ids = [] }) v
step-IsConsistent expired_run s v = expired_effect-IsConsistent s v

-- Whatever the sessions become and in whatever order the timers are over and the effects run, a
-- consistent selection stays consistent: nothing is selected or pinned twice, what is pinned and
-- what has the focus is selected, and a pinned terminal never counts as brought in by a filter.
pub run-IsConsistent :
    (es : List Event) (s : Effects) → IsConsistent s.workspace → IsConsistent (run es s).workspace
unfolding run
run-IsConsistent [] s v = v
run-IsConsistent (e ∷ es) s v = run-IsConsistent es (step e s) (step-IsConsistent e s v)
