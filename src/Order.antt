-- ===== src/Order.antt =====
-- web/src/App.tsx: putting items in an order of ids (`reorderItemsByIDs`, `mergeOrderedItems`,
-- `mergeItemsInCurrentOrder`). Items are of any type with an id.
pub mod Permutation
pub mod Listing
pub mod Merging
use euphony.Prelude.{
  Bool, not, Option, some, none, String, List, [], ◌∷◌, ◌++◌, map, filter, includes, set_add,
  map_get, from_entries, or_else, if◌then◌else◌,
}

module _ {A : Type 0} (id : A → String) where
  -- `new Map(items.map((item) => [item.id, item]))`
  abbrev pub by_id : List A → List (String × A)
  by_id items = from_entries (map (λ item. (id item, item)) items)

  -- `by_id.get(key)` in the loop's test: an item, if there is one and it was not seen.
  unseen : List A → List String → String → Option A
  unfolding map_get from_entries
  unseen items seen key = if includes seen key then none else map_get (by_id items) key

  -- The loop of `reorderItemsByIDs`: the items that are pushed, and the ids seen at its end.
  reorder_from : List A → List String → List String → List A × List String
  unfolding unseen set_add
  reorder_from items seen [] = ([], seen)
  reorder_from items seen (key ∷ keys) = elim (unseen items seen key) [
    | none ↦ reorder_from items seen keys
    | some item ↦ let rest = reorder_from items (set_add seen key) keys in (item ∷ rest.0, rest.1)
  ]

  unfoldable pub reorder_items_by_ids : List A → List String → List A
  unfolding reorder_from
  reorder_items_by_ids items ordered_ids =
      let (ordered, seen) = reorder_from items [] ordered_ids in
      ordered ++ filter (λ item. not (includes seen (id item))) items

  unfoldable pub merge_items_in_current_order : List A → List A → List A
  unfolding map_get from_entries
  merge_items_in_current_order current next =
      map (λ item. or_else (map_get (by_id next) (id item)) item) current

  unfoldable pub merge_ordered_items : List A → List A → List A
  unfolding reorder_items_by_ids map_get from_entries
  merge_ordered_items current ordered =
      map (λ item. or_else (map_get (by_id ordered) (id item)) item)
        (reorder_items_by_ids current (map id ordered))
