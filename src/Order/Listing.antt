-- ===== src/Order/Listing.antt =====
-- The order that reordering gives, by ids.
use euphony.Prelude.{
  ◌≡◌, refl, sym, ap, ◌∙◌, Bool, true, false, not, some, none, String, List, [], ◌∷◌, ◌++◌, map,
  filter, includes, set_add, set_from, unique, map_get, lookup_last, map_get-from_entries, arith,
  eq_iff, eq_refl, Bool-cases, Option-cases, inl, inr, includes-filter, includes-unique, append-nil,
  append_assoc, map-append,
}
use euphony.Order.{by_id, unseen, reorder_from, reorder_items_by_ids}

module _ {A : Type 0} (id : A → String) where
  -- A lookup by id finds an item exactly for the ids of the items, and one that has that id.
  lookup_last-id :
      (key : String) (items : List A) (item : A)
      → lookup_last key (map (λ x. (id x, x)) items) ≡ some item
      → (id item ≡ key) × (includes (map id items) key ≡ true)
  lookup_last-id key [] item e = cc
  lookup_last-id key (x ∷ items) item e =
      elim (Option-cases (lookup_last key (map (λ x. (id x, x)) items))) [
        | inl missing ↦ ground (arith, eq_iff (id x) key)
        | inr (later, found) ↦ ground (arith, lookup_last-id key items item)
      ]

  lookup_last-none :
      (key : String) (items : List A)
      → lookup_last key (map (λ x. (id x, x)) items) ≡ none
      → includes (map id items) key ≡ false
  lookup_last-none key [] e = refl
  lookup_last-none key (x ∷ items) e = ground (arith, lookup_last-none key items)

  pub by_id-some :
      (key : String) (items : List A) (item : A)
      → map_get (by_id id items) key ≡ some item
      → (id item ≡ key) × (includes (map id items) key ≡ true)
  by_id-some key items item e =
      lookup_last-id key items item
        (sym (map_get-from_entries key (map (λ x. (id x, x)) items)) ∙ e)

  by_id-none :
      (key : String) (items : List A)
      → map_get (by_id id items) key ≡ none
      → includes (map id items) key ≡ false
  by_id-none key items e =
      lookup_last-none key items (sym (map_get-from_entries key (map (λ x. (id x, x)) items)) ∙ e)

  -- The keys of items.
  known : List A → List String → List String
  known items keys = filter (includes (map id items)) keys

  set_from_cons :
      (seen : List String) (key : String) (keys : List String)
      → set_from seen (key ∷ keys) ≡ set_from (set_add seen key) keys
  unfolding set_from
  set_from_cons seen key keys = refl

  reorder_from_ids :
      (items : List A) (seen keys : List String)
      → (set_from seen (known items keys) ≡ seen ++ map id (reorder_from id items seen keys).0)
        × ((reorder_from id items seen keys).1 ≡ set_from seen (known items keys))
  unfolding reorder_from unseen known set_from set_add
  reorder_from_ids items seen [] = (sym (append-nil seen), refl)
  reorder_from_ids items seen (key ∷ keys) = elim (Bool-cases (includes seen key)) [
    | inl old ↦
        let skip : unseen id items seen key ≡ none = rw old refl in
        rw (skip, reorder_from)
          (elim (Bool-cases (includes (map id items) key)) [
            | inl here ↦
                let kept : set_add seen key ≡ seen = rw old refl in
                rw here (rw set_from_cons (rw kept (reorder_from_ids items seen keys)))
            | inr missing ↦ rw missing (reorder_from_ids items seen keys)
          ])
    | inr new ↦ elim (Option-cases (map_get (by_id id items) key)) [
      | inl e ↦
          let skip : unseen id items seen key ≡ none = rw (new, e) refl in
          rw (skip, reorder_from) (rw (by_id-none key items e) (reorder_from_ids items seen keys))
      | inr (item, e) ↦
          let take : unseen id items seen key ≡ some item = rw new e in
          let (same, here) = by_id-some key items item e in
          let added : set_add seen key ≡ seen ++ key ∷ [] = rw new refl in
          let (all, end) = reorder_from_ids items (set_add seen key) keys in
          rw (take, reorder_from)
            (rw here (
              rw (same, set_from_cons)
                (
                  all
                      ∙ ap (λ s. s ++ map id (reorder_from id items (set_add seen key) keys).0)
                          added
                      ∙ append_assoc seen (key ∷ []) _,
                  end,
                )))
    ]
  ]

  map-filter :
      (p : String → Bool) (items : List A)
      → map id (filter (λ x. p (id x)) items) ≡ filter p (map id items)
  map-filter p [] = refl
  map-filter p (x ∷ items) = ground (arith, map-filter p items)

  filter_within :
      (p q : String → Bool) (xs ys : List String)
      → ((a : String) → includes ys a ≡ true → p a ≡ q a)
      → ((a : String) → includes xs a ≡ true → includes ys a ≡ true)
      → filter p xs ≡ filter q xs
  filter_within p q [] ys h k = refl
  filter_within p q (x ∷ xs) ys h k =
      let same : p x ≡ q x = h x (k x (rw (eq_refl x) refl)) in
      rw same (rw (filter_within p q xs ys h (λ a m. k a (ground arith))) refl)

  -- The ids of the reordered items are the known ones of the given ids, each at its first place,
  -- and then the ids that were not given, in the order of the items.
  pub reorder_items_by_ids_ids :
      (items : List A) (ordered_ids : List String)
      → map id (reorder_items_by_ids id items ordered_ids)
        ≡ unique (filter (includes (map id items)) ordered_ids)
          ++ filter (λ key. not (includes ordered_ids key)) (map id items)
  unfolding reorder_items_by_ids known unique
  reorder_items_by_ids_ids items ordered_ids =
      let (all, end) = reorder_from_ids items [] ordered_ids in
      let seen = (reorder_from id items [] ordered_ids).1 in
      let rest : filter (λ key. not (includes seen key)) (map id items)
          ≡ filter (λ key. not (includes ordered_ids key)) (map id items) =
        filter_within _ _ (map id items) (map id items)
          (λ a h. ground (
            arith,
            end,
            includes-unique (known items ordered_ids) a,
            includes-filter (includes (map id items)) ordered_ids a,
          ))
          (λ a h. h) in
      map-append id _ _
      ∙ (ap (λ xs. xs ++ map id (filter (λ x. not (includes seen (id x))) items)) (sym all)
          ∙ ap (◌++◌ (unique (known items ordered_ids)))
              (map-filter (λ key. not (includes seen key)) items ∙ rest))
