-- ===== src/AgentLog/Pairing/Complete.antt =====
-- What the pairing does with the entries.
use mathlib.Core.List.{Perm, perm_middle}
use mathlib.Core.List.Perm
use euphony.Prelude.{
  ℕ, zero, suc, ◌≡◌, inl, inr, refl, sym, ap, ◌∙◌, Bool, true, false, Option, some, none, List, [],
  ◌∷◌, ◌++◌, String, ◌==◌, if◌then◌else◌, map_get, filter, arith, Bool-cases, append_assoc,
  append-nil,
}
use euphony.AgentLog.{
  AgentLogEntry, info, AgentLogEntryKind, message, thinking, tool, tool_result, tool_group, image,
  video,
}
use euphony.AgentLog.Pairing.{
  ToolExecution, Pairing, no_result, is_free, set_result, skip_paired, push_call, push_result,
  place_unkeyed, place_keyed, key, place_result, pair_entry, pair_from, pair_tool_entries,
}

abbrev pub is_tool : AgentLogEntryKind → Bool
is_tool tool = true
is_tool tool_result = false
is_tool message = false
is_tool thinking = false
is_tool tool_group = false
is_tool image = false
is_tool video = false

abbrev pub is_result : AgentLogEntryKind → Bool
is_result tool = false
is_result tool_result = true
is_result message = false
is_result thinking = false
is_result tool_group = false
is_result image = false
is_result video = false

abbrev pub listed : Option AgentLogEntry → List AgentLogEntry
listed none = []
listed (some entry) = entry ∷ []

abbrev pub calls : List ToolExecution → List AgentLogEntry
calls [] = []
calls (execution ∷ executions) = listed execution.call ++ calls executions

abbrev pub results : List ToolExecution → List AgentLogEntry
results [] = []
results (execution ∷ executions) = listed execution.result ++ results executions

calls-append : (xs ys : List ToolExecution) → calls (xs ++ ys) ≡ calls xs ++ calls ys
calls-append [] ys = refl
calls-append (x ∷ xs) ys =
    ap (◌++◌ (listed x.call)) (calls-append xs ys)
    ∙ sym (append_assoc (listed x.call) (calls xs) (calls ys))

results-append : (xs ys : List ToolExecution) → results (xs ++ ys) ≡ results xs ++ results ys
results-append [] ys = refl
results-append (x ∷ xs) ys =
    ap (◌++◌ (listed x.result)) (results-append xs ys)
    ∙ sym (append_assoc (listed x.result) (results xs) (results ys))

calls-set_result :
    (xs : List ToolExecution) (i : ℕ) (entry : AgentLogEntry)
    → calls (set_result xs i entry) ≡ calls xs
calls-set_result [] i entry = refl
calls-set_result (x ∷ xs) zero entry = refl
calls-set_result (x ∷ xs) (suc i) entry = ap (◌++◌ (listed x.call)) (calls-set_result xs i entry)

no_result_iff : (x : ToolExecution) → no_result (some x) ≡ true → listed x.result ≡ []
no_result_iff x h = free x.result h
  where
    free :
        (result : Option AgentLogEntry)
        → (elim result [ none ↦ true | some entry ↦ false ]) ≡ true
        → listed result ≡ []
    free none h = refl
    free (some entry) h = absurd (ground arith)

results-set_result :
    (xs : List ToolExecution) (i : ℕ) (entry : AgentLogEntry)
    → is_free xs i ≡ true
    → Perm (results (set_result xs i entry)) (entry ∷ results xs)
results-set_result [] i entry h = absurd (ground arith)
results-set_result (x ∷ xs) zero entry h = rw (no_result_iff x h) (Perm.refl (entry ∷ results xs))
results-set_result (x ∷ xs) (suc i) entry h =
    Perm.trans (Perm.append_left (listed x.result) (results-set_result xs i entry h))
      (perm_middle (listed x.result) (results xs))

push_result-results :
    (entry : AgentLogEntry) (s : Pairing)
    → Perm (results (push_result entry s).executions) (entry ∷ results s.executions)
unfolding push_result
push_result-results entry s =
    rw (results-append s.executions (record { call = none; result = some entry } ∷ [])) (
      Perm.trans (perm_middle (results s.executions) [])
        (rw (append-nil (results s.executions)) (Perm.refl (entry ∷ results s.executions))))

push_result-calls :
    (entry : AgentLogEntry) (s : Pairing)
    → calls (push_result entry s).executions ≡ calls s.executions
unfolding push_result
push_result-calls entry s =
    calls-append s.executions (record { call = none; result = some entry } ∷ [])
    ∙ append-nil (calls s.executions)

-- Where a result goes.
record IsPlaced (entry : AgentLogEntry) (s t : Pairing) : Type 0 where
  called : calls t.executions ≡ calls s.executions
  placed : Perm (results t.executions) (entry ∷ results s.executions)

either :
    (P : Pairing → Type 0) (test : Bool) (s t : Pairing)
    → (test ≡ true → P s)
    → (test ≡ false → P t)
    → P (if test then s else t)
either P true s t v w = v refl
either P false s t v w = w refl

place_keyed-IsPlaced :
    (entry : AgentLogEntry) (place : Option ℕ) (s : Pairing)
    → IsPlaced entry s (place_keyed entry place s)
unfolding place_keyed
place_keyed-IsPlaced entry none s = record {
  called = push_result-calls entry s;
  placed = push_result-results entry s;
}
place_keyed-IsPlaced entry (some i) s =
    either (IsPlaced entry s) (is_free s.executions i)
      (record s { executions = set_result s.executions i entry }) (push_result entry s)
      (λ e. record {
        called = calls-set_result s.executions i entry;
        placed = results-set_result s.executions i entry e;
      })
      (λ e. record { called = push_result-calls entry s; placed = push_result-results entry s })

-- The first call that is left has no result.
abbrev FirstFree : List ToolExecution → List ℕ → Type 0
FirstFree executions [] = Unit
FirstFree executions (i ∷ calls) = is_free executions i ≡ true

skip_paired-FirstFree :
    (executions : List ToolExecution) (places : List ℕ)
    → FirstFree executions (skip_paired executions places)
skip_paired-FirstFree executions [] = tt
skip_paired-FirstFree executions (i ∷ places) = elim (Bool-cases (is_free executions i)) [
  | inl e ↦ rw e e
  | inr e ↦ rw e (skip_paired-FirstFree executions places)
]

place_unkeyed-IsPlaced :
    (entry : AgentLogEntry) (places : List ℕ) (s : Pairing)
    → FirstFree s.executions places
    → IsPlaced entry s (place_unkeyed entry places s)
unfolding place_unkeyed
place_unkeyed-IsPlaced entry [] s v =
    let t : Pairing = record s { calls_left = [] } in
    record { called = push_result-calls entry t; placed = push_result-results entry t }
place_unkeyed-IsPlaced entry (i ∷ places) s v = record {
  called = calls-set_result s.executions i entry;
  placed = results-set_result s.executions i entry v;
}

abbrev pub kept : (AgentLogEntryKind → Bool) → List AgentLogEntry → List AgentLogEntry
kept test entries = filter (λ entry. test (info entry).kind) entries

push_call-calls :
    (id : String) (entry : AgentLogEntry) (s : Pairing)
    → calls (push_call id entry s).executions ≡ calls s.executions ++ entry ∷ []
unfolding push_call
push_call-calls id entry s =
    calls-append s.executions (record { call = some entry; result = none } ∷ [])

push_call-results :
    (id : String) (entry : AgentLogEntry) (s : Pairing)
    → results (push_call id entry s).executions ≡ results s.executions
unfolding push_call
push_call-results id entry s =
    results-append s.executions (record { call = some entry; result = none } ∷ [])
    ∙ append-nil (results s.executions)

-- One entry of a kind.
record IsPaired (kind : AgentLogEntryKind) (entry : AgentLogEntry) (s t : Pairing) : Type 0 where
  called : calls t.executions ≡ calls s.executions ++ (if is_tool kind then entry ∷ [] else [])
  placed :
      Perm
        (results t.executions)
        ((if is_result kind then entry ∷ [] else []) ++ results s.executions)

passed-IsPaired : (entry : AgentLogEntry) (s : Pairing) → IsPaired message entry s s
passed-IsPaired entry s = record {
  called = sym (append-nil (calls s.executions));
  placed = Perm.refl (results s.executions);
}

perm_across : (xs ys zs : List AgentLogEntry) → Perm (ys ++ (xs ++ zs)) ((xs ++ ys) ++ zs)
perm_across [] ys zs = Perm.refl (ys ++ zs)
perm_across (x ∷ xs) ys zs =
    Perm.trans (perm_middle ys (xs ++ zs)) (Perm.cons x (perm_across xs ys zs))

module _ (trim : String → String) where
  place_result-IsPlaced :
      (entry : AgentLogEntry) (s : Pairing) → IsPlaced entry s (place_result trim entry s)
  unfolding place_result
  place_result-IsPlaced entry s =
      let free = skip_paired s.executions s.calls_left in
      let place = map_get s.calls_by_id (key trim entry) in
      either (IsPlaced entry s) (key trim entry == "") (place_unkeyed entry free s)
        (place_keyed entry place s)
        (λ e. place_unkeyed-IsPlaced entry free s (skip_paired-FirstFree s.executions s.calls_left))
        (λ e. place_keyed-IsPlaced entry place s)

  pair_entry-IsPaired :
      (kind : AgentLogEntryKind) (entry : AgentLogEntry) (s : Pairing)
      → IsPaired kind entry s (pair_entry trim kind entry s)
  unfolding pair_entry
  pair_entry-IsPaired tool entry s = record {
    called = push_call-calls (key trim entry) entry s;
    placed = rw (push_call-results (key trim entry) entry s) (Perm.refl (results s.executions));
  }
  pair_entry-IsPaired tool_result entry s =
      let placed = place_result-IsPlaced entry s in
      record {
        called = placed.called ∙ sym (append-nil (calls s.executions));
        placed = placed.placed;
      }
  pair_entry-IsPaired message entry s = passed-IsPaired entry s
  pair_entry-IsPaired thinking entry s = record {
    called = (passed-IsPaired entry s).called;
    placed = (passed-IsPaired entry s).placed;
  }
  pair_entry-IsPaired tool_group entry s = record {
    called = (passed-IsPaired entry s).called;
    placed = (passed-IsPaired entry s).placed;
  }
  pair_entry-IsPaired image entry s = record {
    called = (passed-IsPaired entry s).called;
    placed = (passed-IsPaired entry s).placed;
  }
  pair_entry-IsPaired video entry s = record {
    called = (passed-IsPaired entry s).called;
    placed = (passed-IsPaired entry s).placed;
  }

  kept-cons :
      (test : AgentLogEntryKind → Bool) (entry : AgentLogEntry) (entries : List AgentLogEntry)
      → kept test (entry ∷ entries)
        ≡ (if test (info entry).kind then entry ∷ [] else []) ++ kept test entries
  kept-cons test entry entries = ground arith

  pair_from-calls :
      (entries : List AgentLogEntry) (s : Pairing)
      → calls (pair_from trim entries s).executions ≡ calls s.executions ++ kept is_tool entries
  unfolding pair_from
  pair_from-calls [] s = sym (append-nil (calls s.executions))
  pair_from-calls (entry ∷ entries) s =
      let kind = (info entry).kind in
      let here = if is_tool kind then entry ∷ [] else [] in
      pair_from-calls entries (pair_entry trim kind entry s)
      ∙ ap (λ made. made ++ kept is_tool entries) (pair_entry-IsPaired kind entry s).called
      ∙ append_assoc (calls s.executions) here (kept is_tool entries)
      ∙ ap (◌++◌ (calls s.executions)) (sym (kept-cons is_tool entry entries))

  pair_from-results :
      (entries : List AgentLogEntry) (s : Pairing)
      → Perm
          (results (pair_from trim entries s).executions)
          (kept is_result entries ++ results s.executions)
  unfolding pair_from
  pair_from-results [] s = Perm.refl (results s.executions)
  pair_from-results (entry ∷ entries) s =
      let kind = (info entry).kind in
      let here = if is_result kind then entry ∷ [] else [] in
      let paired = pair_entry-IsPaired kind entry s in
      rw (kept-cons is_result entry entries) (
        Perm.trans (pair_from-results entries (pair_entry trim kind entry s)) (
          Perm.trans (Perm.append_left (kept is_result entries) paired.placed)
            (perm_across here (kept is_result entries) (results s.executions))))

  pub pair_tool_entries_complete :
      (entries : List AgentLogEntry)
      → (calls (pair_tool_entries trim entries) ≡ kept is_tool entries)
        × Perm (results (pair_tool_entries trim entries)) (kept is_result entries)
  unfolding pair_tool_entries
  pair_tool_entries_complete entries =
      let start : Pairing = record { executions = []; calls_by_id = []; calls_left = [] } in
      let all = pair_from-results entries start in
      (
        pair_from-calls entries start,
        Perm.trans all
            (rw (append-nil (kept is_result entries)) (Perm.refl (kept is_result entries))),
      )
