-- ===== src/Order/Merging.antt =====
-- Merging what the server returns into the items that are shown.
use euphony.Prelude.{
  ◌≡◌, refl, ap₂, ◌∙◌, Bool, true, false, not, some, none, String, List, [], ◌∷◌, map, filter,
  includes, map_get, arith, or_else, IsNodup, Subset, includes_self, unique_of_IsNodup, filter_all,
  Option-cases, inl, inr, append-nil, ◌⊎◌,
}
use euphony.Order.{by_id, reorder_items_by_ids, merge_items_in_current_order, merge_ordered_items}
use euphony.Order.Listing.{by_id-some, reorder_items_by_ids_ids}

module _ {A : Type 0} (id : A → String) where
  adopt : List A → A → A
  adopt next item = or_else (map_get (by_id id next) (id item)) item

  adopt-id : (next : List A) (item : A) → id (adopt next item) ≡ id item
  unfolding adopt
  adopt-id next item = elim (Option-cases (map_get (by_id id next) (id item))) [
    | inl e ↦ rw e refl
    | inr (found, e) ↦ rw e (by_id-some id (id item) next found e).0
  ]

  adopt_all-ids : (next items : List A) → map id (map (adopt next) items) ≡ map id items
  adopt_all-ids next [] = refl
  adopt_all-ids next (x ∷ items) = ap₂ ◌∷◌ (adopt-id next x) (adopt_all-ids next items)

  -- An item is fresh if it is the one that `next` has under its id, or `next` has none.
  abbrev pub IsFresh : List A → A → Type 0
  IsFresh next item =
      (map_get (by_id id next) (id item) ≡ some item) ⊎ (map_get (by_id id next) (id item) ≡ none)

  abbrev pub AllFresh : List A → List A → Type 0
  AllFresh next [] = Unit {0}
  AllFresh next (x ∷ items) = IsFresh next x × AllFresh next items

  adopt-IsFresh : (next : List A) (item : A) → IsFresh next (adopt next item)
  unfolding adopt
  adopt-IsFresh next item = elim (Option-cases (map_get (by_id id next) (id item))) [
    | inl e ↦ rw e (inr e)
    | inr (found, e) ↦ rw e (inl (rw (by_id-some id (id item) next found e).0 e))
  ]

  adopt_all-AllFresh : (next items : List A) → AllFresh next (map (adopt next) items)
  adopt_all-AllFresh next [] = tt
  adopt_all-AllFresh next (x ∷ items) = (adopt-IsFresh next x, adopt_all-AllFresh next items)

  -- Merging in the current order keeps the ids and their order, and each item is then the server's
  -- version of it, if the server returned one.
  pub merge_items_in_current_order_lem :
      (current next : List A)
      → (map id (merge_items_in_current_order id current next) ≡ map id current)
        × AllFresh next (merge_items_in_current_order id current next)
  unfolding merge_items_in_current_order adopt
  merge_items_in_current_order_lem current next =
      (adopt_all-ids next current, adopt_all-AllFresh next current)

  filter_none :
      (p : String → Bool) (xs : List String)
      → ((a : String) → includes xs a ≡ true → p a ≡ false)
      → filter p xs ≡ []
  filter_none p [] h = refl
  filter_none p (x ∷ xs) h =
      rw (h x (includes_self x xs)) (filter_none p xs (λ a k. h a (ground arith)))

  -- If the server returned the items that are shown, each once, merging adopts its order, and
  -- every item is as the server returned it.
  pub merge_ordered_items_lem :
      (current ordered : List A)
      → IsNodup (map id ordered)
      → Subset (map id current) (map id ordered)
      → Subset (map id ordered) (map id current)
      → (map id (merge_ordered_items id current ordered) ≡ map id ordered)
        × AllFresh ordered (merge_ordered_items id current ordered)
  unfolding merge_ordered_items adopt
  merge_ordered_items_lem current ordered n h k =
      let shown = reorder_items_by_ids id current (map id ordered) in
      (
        adopt_all-ids ordered shown
            ∙ (reorder_items_by_ids_ids id current (map id ordered)
                ∙ rw (filter_all (includes (map id current)) (map id ordered) k) (
                    rw (unique_of_IsNodup (map id ordered) n) (
                      rw
                        (filter_none (λ key. not (includes (map id ordered) key)) (map id current)
                          (λ a m. rw (h a m) refl))
                        (append-nil (map id ordered))))),
        adopt_all-AllFresh ordered shown,
      )
