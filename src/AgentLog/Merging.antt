-- ===== src/AgentLog/Merging.antt =====
-- The merge of adjacent tool groups, part by part.
pub mod Kept
use euphony.Prelude.{
  ℕ, ◌+◌, ◌≡◌, refl, sym, ap, ◌∙◌, Bool, true, false, not, Option, some, none, List, [], ◌∷◌, ◌++◌,
  String, ◌&&◌, if◌then◌else◌, arith, Bool-cases, inl, inr, append_assoc, append-nil,
}
use euphony.AgentLog.{
  AgentLogEntry, log_entry, EntryInfo, Entries, absent, listed, EntryList, nil, cons, info,
  tool_calls, to_list, of_list, nested, is_group, combined, merge_entry, merge_from, in_order,
  merge_adjacent_tool_groups,
}

pub to_list-of_list : (entries : List AgentLogEntry) → to_list (of_list entries) ≡ entries
to_list-of_list [] = refl
to_list-of_list (entry ∷ entries) = ap (◌∷◌ entry) (to_list-of_list entries)

group : (previous : AgentLogEntry) (n : ℕ) (entries : List AgentLogEntry) → AgentLogEntry
group previous n entries = log_entry (info previous) (some n) (listed (of_list entries))

combined_assoc : (x y z : AgentLogEntry) → combined (combined x y) z ≡ combined x (combined y z)
unfolding group
combined_assoc x y z =
    let calls : (tool_calls x + tool_calls y) + tool_calls z
        ≡ tool_calls x + (tool_calls y + tool_calls z) =
      omega arith in
    let left = to_list-of_list (nested x ++ nested y) in
    let right = to_list-of_list (nested y ++ nested z) in
    ap (λ n. group x n (to_list (of_list (nested x ++ nested y)) ++ nested z)) calls
    ∙ ap (group x (tool_calls x + (tool_calls y + tool_calls z))) (
        ap (λ entries. entries ++ nested z) left
        ∙ append_assoc (nested x) (nested y) (nested z)
        ∙ ap (◌++◌ (nested x)) (sym right))

merge_from-append :
    (merged xs ys : List AgentLogEntry)
    → merge_from merged (xs ++ ys) ≡ merge_from (merge_from merged xs) ys
unfolding merge_from
merge_from-append merged [] ys = refl
merge_from-append merged (x ∷ xs) ys = merge_from-append (merge_entry merged x) xs ys

merge_from-snoc :
    (merged xs : List AgentLogEntry) (x : AgentLogEntry)
    → merge_from merged (xs ++ x ∷ []) ≡ merge_entry (merge_from merged xs) x
unfolding merge_from
merge_from-snoc merged xs x = merge_from-append merged xs (x ∷ [])

pub merge_together :
    (x y : AgentLogEntry) (merged : List AgentLogEntry)
    → (is_group y && is_group x) ≡ true
    → merge_entry (x ∷ merged) y ≡ combined x y ∷ merged
merge_together x y merged e = rw e refl

pub merge_apart :
    (x y : AgentLogEntry) (merged : List AgentLogEntry)
    → (is_group y && is_group x) ≡ false
    → merge_entry (x ∷ merged) y ≡ y ∷ x ∷ merged
merge_apart x y merged e = rw e refl

-- Two groups go in as their combination does.
merge_entry-combined :
    (merged : List AgentLogEntry) (x y : AgentLogEntry)
    → (is_group y && is_group x) ≡ true
    → merge_entry merged (combined x y) ≡ merge_entry (merge_entry merged x) y
merge_entry-combined [] x y g = sym (merge_together x y [] g)
merge_entry-combined (z ∷ merged) x y g = elim (Bool-cases (is_group x && is_group z)) [
  | inl e ↦
      let both : (is_group y && is_group z) ≡ true = ground arith in
      merge_together z (combined x y) merged e
      ∙ ap (λ entry. entry ∷ merged) (sym (combined_assoc z x y))
      ∙ sym (merge_together (combined z x) y merged both)
      ∙ sym (ap (λ entries. merge_entry entries y) (merge_together z x merged e))
  | inr e ↦
      merge_apart z (combined x y) merged e
      ∙ sym (merge_together x y (z ∷ merged) g)
      ∙ sym (ap (λ entries. merge_entry entries y) (merge_apart z x merged e))
]

merge_from-merge_entry :
    (merged xs : List AgentLogEntry) (y : AgentLogEntry)
    → merge_from merged (in_order (merge_entry xs y))
      ≡ merge_entry (merge_from merged (in_order xs)) y
unfolding merge_from
merge_from-merge_entry merged [] y = merge_from-snoc merged [] y
merge_from-merge_entry merged (x ∷ xs) y =
    let before = merge_from merged (in_order xs) in
    let last = ap (λ entries. merge_entry entries y) (merge_from-snoc merged (in_order xs) x) in
    elim (Bool-cases (is_group y && is_group x)) [
      | inl e ↦
          ap (λ entries. merge_from merged (in_order entries)) (merge_together x y xs e)
          ∙ merge_from-snoc merged (in_order xs) (combined x y)
          ∙ merge_entry-combined before x y e
          ∙ sym last
      | inr e ↦
          ap (λ entries. merge_from merged (in_order entries)) (merge_apart x y xs e)
          ∙ merge_from-snoc merged (in_order xs ++ x ∷ []) y
    ]

merge_from-in_order :
    (merged xs ys : List AgentLogEntry)
    → merge_from merged (in_order (merge_from xs ys))
      ≡ merge_from (merge_from merged (in_order xs)) ys
unfolding merge_from
merge_from-in_order merged xs [] = refl
merge_from-in_order merged xs (y ∷ ys) =
    merge_from-in_order merged (merge_entry xs y) ys
    ∙ ap (λ entries. merge_from entries ys) (merge_from-merge_entry merged xs y)

-- Merging what was merged part by part gives what the merge of the whole gives.
pub merge_adjacent_tool_groups-append :
    (xs ys : List AgentLogEntry)
    → merge_adjacent_tool_groups (merge_adjacent_tool_groups xs ++ merge_adjacent_tool_groups ys)
      ≡ merge_adjacent_tool_groups (xs ++ ys)
unfolding merge_adjacent_tool_groups merge_from
merge_adjacent_tool_groups-append xs ys =
    let first = in_order (merge_from [] xs) in
    ap in_order (
      merge_from-append [] first (in_order (merge_from [] ys))
      ∙ merge_from-in_order (merge_from [] first) [] ys
      ∙ ap (λ entries. merge_from entries ys) (merge_from-in_order [] [] xs)
      ∙ sym (merge_from-append [] xs ys))
