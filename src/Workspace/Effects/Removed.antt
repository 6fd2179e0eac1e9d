-- ===== src/Workspace/Effects/Removed.antt =====
-- What the effect on removed sessions leaves selected.
use euphony.Prelude.{
  ◌≡◌, refl, sym, Bool, true, false, not, Option, some, none, String, List, [], ◌∷◌, ◌++◌, includes,
  IsNodup, Subset, arith, any, ◌==◌, includes-append, includes-filter, if◌then◌else◌, eq_iff,
  Bool-cases, inl, inr,
}
use euphony.Workspace.Effects.Consistency.{remaining_selection-IsRemaining}
use euphony.Session.{Session}
use euphony.Session.Replacement.{ids}
use euphony.Session.Replacement.Nearest.{replacement_session-survives}
use euphony.Workspace.{Workspace}
use euphony.Workspace.Effects.{
  no_filters, removed_id, replacement_of, remaining_selection, drop_removed, drop_removed_from,
}

any-includes :
    (p : String → Bool) (xs : List String) (a : String)
    → any p xs ≡ false
    → includes xs a ≡ true
    → p a ≡ false
any-includes p [] a h k = absurd (ground arith)
any-includes p (x ∷ xs) a h k = elim (Bool-cases (x == a)) [
  | inl e ↦ rw (sym ((eq_iff x a).0 e)) (ground (arith, h))
  | inr e ↦ any-includes p xs a (ground arith) (ground arith)
]

-- Each selected and each pinned session is there, and those that are there are still selected.
pub record IsAvailable (sessions : List Session) (selected : List String) (w : Workspace)
    : Type 0 where
  pub selected_there : Subset w.selected_ids (ids sessions)
  pub pinned_there : Subset w.pinned_ids (ids sessions)
  pub selected_kept :
      (a : String)
      → includes selected a ≡ true
      → includes (ids sessions) a ≡ true
      → includes w.selected_ids a ≡ true

replacement_of_there :
    (rendered sessions : List Session) (removed : Option String) (s : Session)
    → replacement_of rendered sessions removed ≡ some s
    → includes (ids sessions) s.id ≡ true
unfolding replacement_of
replacement_of_there rendered sessions none s h = ground arith
replacement_of_there rendered sessions (some id) s h =
    ground (arith, replacement_session-survives rendered id sessions true s)

remaining_selection_there :
    (remaining : List String) (unfiltered : Bool) (replacement : Option Session)
    (selected : List String)
    → ((s : Session) → replacement ≡ some s → includes remaining s.id ≡ true)
    → Subset (remaining_selection remaining unfiltered replacement selected) remaining
unfolding remaining_selection
remaining_selection_there remaining unfiltered none selected h a =
    ground (arith, includes-filter (includes remaining) selected a)
remaining_selection_there remaining unfiltered (some s) selected h a =
    ground (arith, includes-filter (includes remaining) selected a, h s refl, (eq_iff s.id a).0)

drop_removed-IsAvailable :
    (rendered sessions : List Session) (w : Workspace)
    → IsNodup w.selected_ids
    → IsAvailable sessions w.selected_ids (drop_removed rendered sessions w)
unfolding drop_removed
drop_removed-IsAvailable rendered sessions w n =
    let remaining = ids sessions in
    let removed = removed_id remaining w.focused_id w.selected_ids in
    let replacement = replacement_of rendered sessions removed in
    let kept =
      remaining_selection-IsRemaining remaining (no_filters w) replacement w.selected_ids n in
    record {
      selected_there =
          remaining_selection_there remaining (no_filters w) replacement w.selected_ids
            (λ s h. replacement_of_there rendered sessions removed s h);
      pinned_there = λ a h. ground (arith, h, includes-filter (includes remaining) w.pinned_ids a);
      selected_kept = λ a h k.
          kept.holds a
            (ground (arith, h, k, includes-filter (includes remaining) w.selected_ids a));
    }

nothing_removed-IsAvailable :
    (sessions : List Session) (w : Workspace)
    → any (λ id. not (includes (ids sessions) id)) (w.selected_ids ++ w.pinned_ids) ≡ false
    → IsAvailable sessions w.selected_ids w
nothing_removed-IsAvailable sessions w h =
    let there = λ (a : String) (k : includes (w.selected_ids ++ w.pinned_ids) a ≡ true).
      any-includes (λ id. not (includes (ids sessions) id)) (w.selected_ids ++ w.pinned_ids) a h
        k in
    record {
      selected_there = λ a k.
          ground
            (arith, there a (ground (arith, k, includes-append w.selected_ids w.pinned_ids a)));
      pinned_there = λ a k.
          ground
            (arith, there a (ground (arith, k, includes-append w.selected_ids w.pinned_ids a)));
      selected_kept = λ a k l. k;
    }

either :
    (sessions : List Session) (selected : List String) (test : Bool) (v w : Workspace)
    → (test ≡ true → IsAvailable sessions selected v)
    → (test ≡ false → IsAvailable sessions selected w)
    → IsAvailable sessions selected (if test then v else w)
either sessions selected true v w p q = p refl
either sessions selected false v w p q = q refl

-- In a workspace that is not synchronised, whose selection has no repetition, the effect on
-- removed sessions leaves selected and pinned only sessions that are there, the replacement of a
-- removed one included, and all those that were selected and are there.
pub drop_removed_from-IsAvailable :
    (rendered sessions : List Session) (w : Workspace)
    → w.sync_selection ≡ false
    → IsNodup w.selected_ids
    → IsAvailable sessions w.selected_ids (drop_removed_from rendered (some sessions) w)
unfolding drop_removed_from
drop_removed_from-IsAvailable rendered sessions w unsynced n =
    either sessions w.selected_ids _ w (drop_removed rendered sessions w)
      (λ e. nothing_removed-IsAvailable sessions w (ground arith))
      (λ e. drop_removed-IsAvailable rendered sessions w n)
