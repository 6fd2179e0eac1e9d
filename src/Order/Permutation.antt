-- ===== src/Order/Permutation.antt =====
-- The items that reordering gives.
use mathlib.Core.List.{Perm}
use mathlib.Core.List.Perm
use euphony.Prelude.{
  ◌≡◌, refl, ap, true, false, not, ◌||◌, ◌==◌, some, none, String, List, [], ◌∷◌, ◌++◌, map, filter,
  includes, set_add, lookup_last, map_get-from_entries, arith, eq_iff, IsNodup, Bool-cases,
  Option-cases, inl, inr, includes-append,
}
use euphony.Order.{unseen, reorder_from, reorder_items_by_ids}

module _ {A : Type 0} (id : A → String) where
  entries : List A → List (String × A)
  entries items = map (λ item. (id item, item)) items

  -- The items that are not among the seen ids.
  others : List String → List A → List A
  others seen items = filter (λ item. not (includes seen (id item))) items

  lookup_last_absent :
      (key : String) (items : List A)
      → includes (map id items) key ≡ false
      → lookup_last key (map (λ item. (id item, item)) items) ≡ none
  lookup_last_absent key [] h = refl
  lookup_last_absent key (x ∷ items) h =
      ground (arith, lookup_last_absent key items, eq_iff (id x) key)

  includes-set_add :
      (s : List String) (x a : String) → includes (set_add s x) a ≡ (includes s a || x == a)
  unfolding set_add
  includes-set_add s x a = ground (arith, includes-append s (x ∷ []) a, eq_iff x a)

  -- Seeing an id that none of the items has changes nothing.
  others_absent :
      (seen : List String) (key : String) (items : List A)
      → includes (map id items) key ≡ false
      → others (set_add seen key) items ≡ others seen items
  unfolding others
  others_absent seen key [] h = refl
  others_absent seen key (x ∷ items) h = ground (
    arith,
    others_absent seen key items,
    includes-set_add seen key (id x),
    eq_iff (id x) key,
    eq_iff key (id x),
  )

  -- The item that a lookup finds, put before the others, makes up the items not seen before.
  found-perm :
      (seen : List String) (key : String) (items : List A) (item : A)
      → IsNodup (map id items)
      → includes seen key ≡ false
      → lookup_last key (map (λ item. (id item, item)) items) ≡ some item
      → Perm (item ∷ others (set_add seen key) items) (others seen items)
  unfolding others entries
  found-perm seen key [] item n u e = cc
  found-perm seen key (x ∷ items) item (fresh, n) u e = elim (Bool-cases (id x == key)) [
    | inl hit ↦
        let key_of : id x ≡ key = ground (arith, eq_iff (id x) key) in
        let absent : includes (map id items) key ≡ false = rw (← key_of) fresh in
        let same : x ≡ item = ground (arith, lookup_last_absent key items absent) in
        let now : includes (set_add seen key) (id x) ≡ true =
          ground (arith, includes-set_add seen key (id x), eq_iff key (id x)) in
        let before : includes seen (id x) ≡ false = rw key_of u in
        rw (now, before)
          (rw (others_absent seen key items absent)
            (rw (← same) (Perm.refl (x ∷ others seen items))))
    | inr missed ↦
        let later : lookup_last key (entries items) ≡ some item = ground arith in
        let ih = found-perm seen key items item n u later in
        let same : includes (set_add seen key) (id x) ≡ includes seen (id x) =
          ground (arith, includes-set_add seen key (id x), eq_iff key (id x), eq_iff (id x) key) in
        rw same (elim (Bool-cases (includes seen (id x))) [
          | inl old ↦ rw old ih
          | inr new ↦
              rw new
                (Perm.trans (Perm.swap x item (others (set_add seen key) items)) (Perm.cons x ih))
        ])
  ]

  -- The loop's items and the others together are the items not seen at its start.
  reorder_from-perm :
      (items : List A) (seen keys : List String)
      → IsNodup (map id items)
      → let end = reorder_from id items seen keys in
        Perm (end.0 ++ others end.1 items) (others seen items)
  unfolding reorder_from unseen entries
  reorder_from-perm items seen [] n = Perm.refl (others seen items)
  reorder_from-perm items seen (key ∷ keys) n = elim (Option-cases (unseen id items seen key)) [
    | inl e ↦ rw (e, reorder_from) (reorder_from-perm items seen keys n)
    | inr (item, e) ↦
        let fresh : includes seen key ≡ false = ground arith in
        let found : lookup_last key (entries items) ≡ some item =
          ground (arith, map_get-from_entries key (entries items)) in
        rw (e, reorder_from)
          (Perm.trans (Perm.cons item (reorder_from-perm items (set_add seen key) keys n))
            (found-perm seen key items item n fresh found))
  ]

  others_none : (items : List A) → others [] items ≡ items
  unfolding others
  others_none [] = refl
  others_none (x ∷ items) = ap (◌∷◌ x) (others_none items)

  -- If the items have distinct ids, reordering them by any list of ids, also one with unknown or
  -- repeated ids, gives the same items in another order.
  pub reorder_items_by_ids-perm :
      (items : List A) (ordered_ids : List String)
      → IsNodup (map id items)
      → Perm (reorder_items_by_ids id items ordered_ids) items
  unfolding reorder_items_by_ids others
  reorder_items_by_ids-perm items ordered_ids n =
      rw (others_none items) at (reorder_from-perm items [] ordered_ids n)
