-- ===== src/AgentLog/Merging/Kept.antt =====
-- What the merge of adjacent tool groups keeps.
use euphony.Prelude.{
  ℕ, ◌+◌, ◌≡◌, refl, sym, ap, ◌∙◌, true, false, List, [], ◌∷◌, ◌++◌, ◌&&◌, if◌then◌else◌, arith,
  Bool-cases, inl, inr, append_assoc, append-nil,
}
use euphony.AgentLog.{
  AgentLogEntry, tool_calls, to_list, of_list, nested, is_group, combined, merge_entry, merge_from,
  in_order, merge_adjacent_tool_groups,
}
use euphony.AgentLog.Merging.{to_list-of_list, merge_together, merge_apart}

-- What stands in an entry: the entries of a group, or the entry itself.
abbrev pub leaves : List AgentLogEntry → List AgentLogEntry
leaves [] = []
leaves (entry ∷ entries) = (if is_group entry then nested entry else entry ∷ []) ++ leaves entries

abbrev pub total_calls : List AgentLogEntry → ℕ
total_calls [] = 0
total_calls (entry ∷ entries) = tool_calls entry + total_calls entries

abbrev pub AreApart : List AgentLogEntry → Type 0
AreApart [] = Unit
AreApart (x ∷ []) = Unit
AreApart (x ∷ y ∷ entries) = ((is_group x && is_group y) ≡ false) × AreApart (y ∷ entries)

leaves-append : (xs ys : List AgentLogEntry) → leaves (xs ++ ys) ≡ leaves xs ++ leaves ys
leaves-append [] ys = refl
leaves-append (x ∷ xs) ys =
    let here = if is_group x then nested x else x ∷ [] in
    ap (◌++◌ here) (leaves-append xs ys) ∙ sym (append_assoc here (leaves xs) (leaves ys))

total_calls-append :
    (xs ys : List AgentLogEntry) → total_calls (xs ++ ys) ≡ total_calls xs + total_calls ys
total_calls-append [] ys = omega arith
total_calls-append (x ∷ xs) ys = omega (arith, total_calls-append xs ys)

leaves-combined :
    (x y : AgentLogEntry)
    → (is_group y && is_group x) ≡ true
    → leaves (combined x y ∷ []) ≡ leaves (x ∷ []) ++ leaves (y ∷ [])
leaves-combined x y g =
    let gx : is_group x ≡ true = ground arith in
    let gy : is_group y ≡ true = ground arith in
    rw
      (
        gx,
        gy,
        append-nil (nested x),
        append-nil (nested y),
        append-nil (to_list (of_list (nested x ++ nested y))),
      )
      (to_list-of_list (nested x ++ nested y))

leaves-merge_entry :
    (merged : List AgentLogEntry) (y : AgentLogEntry)
    → leaves (in_order (merge_entry merged y)) ≡ leaves (in_order merged) ++ leaves (y ∷ [])
leaves-merge_entry [] y = refl
leaves-merge_entry (x ∷ merged) y = elim (Bool-cases (is_group y && is_group x)) [
  | inl e ↦
      ap (λ entries. leaves (in_order entries)) (merge_together x y merged e)
      ∙ leaves-append (in_order merged) (combined x y ∷ [])
      ∙ ap (◌++◌ (leaves (in_order merged))) (leaves-combined x y e)
      ∙ sym (append_assoc (leaves (in_order merged)) (leaves (x ∷ [])) (leaves (y ∷ [])))
      ∙ ap (λ entries. entries ++ leaves (y ∷ [])) (sym (leaves-append (in_order merged) (x ∷ [])))
  | inr e ↦
      ap (λ entries. leaves (in_order entries)) (merge_apart x y merged e)
      ∙ leaves-append (in_order (x ∷ merged)) (y ∷ [])
]

leaves-merge_from :
    (merged ys : List AgentLogEntry)
    → leaves (in_order (merge_from merged ys)) ≡ leaves (in_order merged) ++ leaves ys
unfolding merge_from
leaves-merge_from merged [] = sym (append-nil (leaves (in_order merged)))
leaves-merge_from merged (y ∷ ys) =
    let here = if is_group y then nested y else y ∷ [] in
    leaves-merge_from (merge_entry merged y) ys
    ∙ ap (λ entries. entries ++ leaves ys)
        (leaves-merge_entry merged y ∙ ap (◌++◌ (leaves (in_order merged))) (append-nil here))
    ∙ append_assoc (leaves (in_order merged)) here (leaves ys)

total_calls-merge_entry :
    (merged : List AgentLogEntry) (y : AgentLogEntry)
    → total_calls (in_order (merge_entry merged y)) ≡ total_calls (in_order merged) + tool_calls y
total_calls-merge_entry [] y = omega arith
total_calls-merge_entry (x ∷ merged) y = elim (Bool-cases (is_group y && is_group x)) [
  | inl e ↦
      ap (λ entries. total_calls (in_order entries)) (merge_together x y merged e)
      ∙ omega (
        arith,
        total_calls-append (in_order merged) (combined x y ∷ []),
        total_calls-append (in_order merged) (x ∷ []),
      )
  | inr e ↦
      ap (λ entries. total_calls (in_order entries)) (merge_apart x y merged e)
      ∙ omega (arith, total_calls-append (in_order (x ∷ merged)) (y ∷ []))
]

total_calls-merge_from :
    (merged ys : List AgentLogEntry)
    → total_calls (in_order (merge_from merged ys)) ≡ total_calls (in_order merged) + total_calls ys
unfolding merge_from
total_calls-merge_from merged [] = omega arith
total_calls-merge_from merged (y ∷ ys) =
    omega
      (arith, total_calls-merge_from (merge_entry merged y) ys, total_calls-merge_entry merged y)

combined-AreApart :
    (x y : AgentLogEntry) (merged : List AgentLogEntry)
    → AreApart (x ∷ merged)
    → AreApart (combined x y ∷ merged)
combined-AreApart x y [] v = tt
combined-AreApart x y (z ∷ merged) v = v

merge_entry-AreApart :
    (merged : List AgentLogEntry) (y : AgentLogEntry)
    → AreApart merged
    → AreApart (merge_entry merged y)
merge_entry-AreApart [] y v = tt
merge_entry-AreApart (x ∷ merged) y v = elim (Bool-cases (is_group y && is_group x)) [
  | inl e ↦ rw (merge_together x y merged e) (combined-AreApart x y merged v)
  | inr e ↦ rw (merge_apart x y merged e) (e, v)
]

merge_from-AreApart :
    (merged ys : List AgentLogEntry) → AreApart merged → AreApart (merge_from merged ys)
unfolding merge_from
merge_from-AreApart merged [] v = v
merge_from-AreApart merged (y ∷ ys) v =
    merge_from-AreApart (merge_entry merged y) ys (merge_entry-AreApart merged y v)

snoc-AreApart :
    (xs : List AgentLogEntry) (x y : AgentLogEntry)
    → AreApart (xs ++ x ∷ [])
    → (is_group y && is_group x) ≡ false
    → AreApart (xs ++ x ∷ y ∷ [])
snoc-AreApart [] x y v e = (ground arith, tt)
snoc-AreApart (z ∷ []) x y v e = (v.0, snoc-AreApart [] x y v.1 e)
snoc-AreApart (z ∷ w ∷ xs) x y v e = (v.0, snoc-AreApart (w ∷ xs) x y v.1 e)

in_order-AreApart : (merged : List AgentLogEntry) → AreApart merged → AreApart (in_order merged)
in_order-AreApart [] v = tt
in_order-AreApart (x ∷ []) v = tt
in_order-AreApart (y ∷ x ∷ merged) v =
    rw (append_assoc (in_order merged) (x ∷ []) (y ∷ []))
      (snoc-AreApart (in_order merged) x y (in_order-AreApart (x ∷ merged) v.1) v.0)

-- The merge keeps what stands in the entries, in its order, and the number of tool calls, and
-- leaves no two tool groups side by side.
pub merge_adjacent_tool_groups_keeps :
    (entries : List AgentLogEntry)
    → (leaves (merge_adjacent_tool_groups entries) ≡ leaves entries)
      × (total_calls (merge_adjacent_tool_groups entries) ≡ total_calls entries)
      × AreApart (merge_adjacent_tool_groups entries)
unfolding merge_adjacent_tool_groups
merge_adjacent_tool_groups_keeps entries = (
  leaves-merge_from [] entries,
  total_calls-merge_from [] entries ∙ omega arith,
  in_order-AreApart (merge_from [] entries) (merge_from-AreApart [] entries tt),
)
