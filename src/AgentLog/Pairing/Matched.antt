-- ===== src/AgentLog/Pairing/Matched.antt =====
-- Which call a result goes to.
use mathlib.Core.List.{Perm}
use euphony.AgentLog.Pairing.Complete.{
  calls, results, kept, is_tool, is_result, pair_tool_entries_complete,
}
use euphony.Prelude.{
  ℕ, zero, suc, ◌≡◌, ◌⊎◌, inl, inr, refl, sym, ◌∙◌, Bool, true, false, Option, some, none, List, [],
  ◌∷◌, ◌++◌, String, ◌==◌, if◌then◌else◌, length, get_elem?, map_get, map_set, map_get-set, arith,
  eq_iff,
}
use euphony.AgentLog.{
  AgentLogEntry, info, AgentLogEntryKind, message, thinking, tool, tool_result, tool_group, image,
  video,
}
use euphony.AgentLog.Pairing.{
  ToolExecution, Pairing, is_free, set_result, skip_paired, push_call, push_result, place_unkeyed,
  place_keyed, key, place_result, pair_entry, pair_from, pair_tool_entries,
}

module _ (trim : String → String) where
  -- A call whose id is the key.
  abbrev CallOf : String → Option AgentLogEntry → Type 0
  CallOf k none = ⊥
  CallOf k (some call) = key trim call ≡ k

  abbrev HasCall : String → Option ToolExecution → Type 0
  HasCall k none = ⊥
  HasCall k (some execution) = CallOf k execution.call

  -- A result beside a call has no id or the id of the call.
  abbrev pub Match : Option AgentLogEntry → Option AgentLogEntry → Type 0
  Match none result = Unit
  Match (some call) none = Unit
  Match (some call) (some result) = (key trim result ≡ "") ⊎ (key trim result ≡ key trim call)

  abbrev pub AreMatched : List ToolExecution → Type 0
  AreMatched [] = Unit
  AreMatched (execution ∷ executions) =
      Match execution.call execution.result × AreMatched executions

  HasCall-set_result :
      (k : String) (xs : List ToolExecution) (i j : ℕ) (entry : AgentLogEntry)
      → HasCall k (get_elem? xs i)
      → HasCall k (get_elem? (set_result xs j entry) i)
  HasCall-set_result k [] i j entry v = absurd v
  HasCall-set_result k (x ∷ xs) zero zero entry v = v
  HasCall-set_result k (x ∷ xs) zero (suc j) entry v = v
  HasCall-set_result k (x ∷ xs) (suc i) zero entry v = v
  HasCall-set_result k (x ∷ xs) (suc i) (suc j) entry v = HasCall-set_result k xs i j entry v

  HasCall-append :
      (k : String) (xs ys : List ToolExecution) (i : ℕ)
      → HasCall k (get_elem? xs i)
      → HasCall k (get_elem? (xs ++ ys) i)
  HasCall-append k [] ys i v = absurd v
  HasCall-append k (x ∷ xs) ys zero v = v
  HasCall-append k (x ∷ xs) ys (suc i) v = HasCall-append k xs ys i v

  HasCall-last :
      (k : String) (xs : List ToolExecution) (y : ToolExecution)
      → CallOf k y.call
      → HasCall k (get_elem? (xs ++ y ∷ []) (length xs))
  HasCall-last k [] y v = v
  HasCall-last k (x ∷ xs) y v = HasCall-last k xs y v

  -- A result may stand beside the call of an execution.
  abbrev Fits : AgentLogEntry → Option ToolExecution → Type 0
  Fits entry none = Unit
  Fits entry (some execution) = Match execution.call (some entry)

  set_result-AreMatched :
      (xs : List ToolExecution) (i : ℕ) (entry : AgentLogEntry)
      → Fits entry (get_elem? xs i)
      → AreMatched xs
      → AreMatched (set_result xs i entry)
  set_result-AreMatched [] i entry fits v = v
  set_result-AreMatched (x ∷ xs) zero entry fits v = (fits, v.1)
  set_result-AreMatched (x ∷ xs) (suc i) entry fits v =
      (v.0, set_result-AreMatched xs i entry fits v.1)

  append-AreMatched :
      (xs : List ToolExecution) (y : ToolExecution)
      → AreMatched xs
      → Match y.call y.result
      → AreMatched (xs ++ y ∷ [])
  append-AreMatched [] y v m = (m, tt)
  append-AreMatched (x ∷ xs) y v m = (v.0, append-AreMatched xs y v.1 m)

  unkeyed-Match :
      (call : Option AgentLogEntry) (entry : AgentLogEntry)
      → key trim entry ≡ ""
      → Match call (some entry)
  unkeyed-Match none entry h = tt
  unkeyed-Match (some call) entry h = inl h

  unkeyed-Fits :
      (execution : Option ToolExecution) (entry : AgentLogEntry)
      → key trim entry ≡ ""
      → Fits entry execution
  unkeyed-Fits none entry h = tt
  unkeyed-Fits (some execution) entry h = unkeyed-Match execution.call entry h

  keyed-Match :
      (call : Option AgentLogEntry) (entry : AgentLogEntry)
      → CallOf (key trim entry) call
      → Match call (some entry)
  keyed-Match none entry h = tt
  keyed-Match (some call) entry h = inr (sym h)

  keyed-Fits :
      (execution : Option ToolExecution) (entry : AgentLogEntry)
      → HasCall (key trim entry) execution
      → Fits entry execution
  keyed-Fits none entry h = tt
  keyed-Fits (some execution) entry h = keyed-Match execution.call entry h

  -- The ids that are known are those of calls.
  record IsMatched (s : Pairing) : Type 0 where
    known :
        (k : String) (i : ℕ)
        → map_get s.calls_by_id k ≡ some i
        → HasCall k (get_elem? s.executions i)
    matched : AreMatched s.executions

  set_cases :
      (test : Bool) (n i : ℕ) (other : Option ℕ)
      → (elim test [ true ↦ some n | false ↦ other ]) ≡ some i
      → ((test ≡ true) × (n ≡ i)) ⊎ (other ≡ some i)
  set_cases true n i other h = inl (refl, cc)
  set_cases false n i other h = inr h

  none_known : (k : String) (i : ℕ) → map_get [] k ≡ some i → ⊥
  unfolding map_get
  none_known k i h = ground arith

  registered :
      (test : Bool) (m : List (String × ℕ)) (id : String) (n : ℕ) (k : String) (i : ℕ)
      → map_get (if test then m else map_set m id n) k ≡ some i
      → ((id ≡ k) × (n ≡ i)) ⊎ (map_get m k ≡ some i)
  registered true m id n k i h = inr h
  registered false m id n k i h =
      elim (set_cases (id == k) n i (map_get m k) (sym (map_get-set m id k n) ∙ h)) [
        | inl v ↦ inl ((eq_iff id k).0 v.0, v.1)
        | inr e ↦ inr e
      ]

  either :
      (test : Bool) (s t : Pairing)
      → (test ≡ true → IsMatched s)
      → (test ≡ false → IsMatched t)
      → IsMatched (if test then s else t)
  either true s t v w = v refl
  either false s t v w = w refl

  push_result-IsMatched :
      (entry : AgentLogEntry) (s : Pairing) → IsMatched s → IsMatched (push_result entry s)
  unfolding push_result
  push_result-IsMatched entry s v =
      let execution : ToolExecution = record { call = none; result = some entry } in
      record {
        known = λ k i h. HasCall-append k s.executions (execution ∷ []) i (v.known k i h);
        matched = append-AreMatched s.executions execution v.matched tt;
      }

  set_result-IsMatched :
      (entry : AgentLogEntry) (i : ℕ) (places : List ℕ) (s : Pairing)
      → Fits entry (get_elem? s.executions i)
      → IsMatched s
      → IsMatched (record s { executions = set_result s.executions i entry; calls_left = places })
  set_result-IsMatched entry i places s fits v = record {
    known = λ k j h. HasCall-set_result k s.executions j i entry (v.known k j h);
    matched = set_result-AreMatched s.executions i entry fits v.matched;
  }

  place_unkeyed-IsMatched :
      (entry : AgentLogEntry) (places : List ℕ) (s : Pairing)
      → key trim entry ≡ ""
      → IsMatched s
      → IsMatched (place_unkeyed entry places s)
  unfolding place_unkeyed
  place_unkeyed-IsMatched entry [] s h v =
      push_result-IsMatched entry (record s { calls_left = [] })
        (record { known = v.known; matched = v.matched })
  place_unkeyed-IsMatched entry (i ∷ places) s h v =
      set_result-IsMatched entry i places s (unkeyed-Fits (get_elem? s.executions i) entry h) v

  place_keyed-IsMatched :
      (entry : AgentLogEntry) (place : Option ℕ) (s : Pairing)
      → map_get s.calls_by_id (key trim entry) ≡ place
      → IsMatched s
      → IsMatched (place_keyed entry place s)
  unfolding place_keyed
  place_keyed-IsMatched entry none s h v = push_result-IsMatched entry s v
  place_keyed-IsMatched entry (some i) s h v =
      either (is_free s.executions i) (record s { executions = set_result s.executions i entry })
        (push_result entry s)
        (λ e.
          set_result-IsMatched entry i s.calls_left s
            (keyed-Fits (get_elem? s.executions i) entry (v.known (key trim entry) i h)) v)
        (λ e. push_result-IsMatched entry s v)

  place_result-IsMatched :
      (entry : AgentLogEntry) (s : Pairing) → IsMatched s → IsMatched (place_result trim entry s)
  unfolding place_result
  place_result-IsMatched entry s v =
      let free = skip_paired s.executions s.calls_left in
      let place = map_get s.calls_by_id (key trim entry) in
      either (key trim entry == "") (place_unkeyed entry free s) (place_keyed entry place s)
        (λ e. place_unkeyed-IsMatched entry free s ((eq_iff (key trim entry) "").0 e) v)
        (λ e. place_keyed-IsMatched entry place s refl v)

  push_call-IsMatched :
      (entry : AgentLogEntry) (s : Pairing)
      → IsMatched s
      → IsMatched (push_call (key trim entry) entry s)
  unfolding push_call
  push_call-IsMatched entry s v =
      let id = key trim entry in
      let call : ToolExecution = record { call = some entry; result = none } in
      let old = λ (k : String) (i : ℕ) (h : map_get s.calls_by_id k ≡ some i).
        HasCall-append k s.executions (call ∷ []) i (v.known k i h) in
      record {
        known = λ k i h. elim (registered (id == "") s.calls_by_id id (length s.executions) k i h) [
          | inl v ↦ rw (sym v.1) (HasCall-last k s.executions call v.0)
          | inr e ↦ old k i e
        ];
        matched = append-AreMatched s.executions call v.matched tt;
      }

  pair_entry-IsMatched :
      (kind : AgentLogEntryKind) (entry : AgentLogEntry) (s : Pairing)
      → IsMatched s
      → IsMatched (pair_entry trim kind entry s)
  unfolding pair_entry
  pair_entry-IsMatched tool entry s v = push_call-IsMatched entry s v
  pair_entry-IsMatched tool_result entry s v = place_result-IsMatched entry s v
  pair_entry-IsMatched message entry s v = v
  pair_entry-IsMatched thinking entry s v = v
  pair_entry-IsMatched tool_group entry s v = v
  pair_entry-IsMatched image entry s v = v
  pair_entry-IsMatched video entry s v = v

  pair_from-IsMatched :
      (entries : List AgentLogEntry) (s : Pairing)
      → IsMatched s
      → IsMatched (pair_from trim entries s)
  unfolding pair_from
  pair_from-IsMatched [] s v = v
  pair_from-IsMatched (entry ∷ entries) s v =
      let kind = (info entry).kind in
      pair_from-IsMatched entries (pair_entry trim kind entry s)
        (pair_entry-IsMatched kind entry s v)

  pair_tool_entries-AreMatched :
      (entries : List AgentLogEntry) → AreMatched (pair_tool_entries trim entries)
  unfolding pair_tool_entries
  pair_tool_entries-AreMatched entries =
      (pair_from-IsMatched entries (record { executions = []; calls_by_id = []; calls_left = [] })
        (record { known = λ k i h. absurd (none_known k i h); matched = tt })).matched

  -- The executions have every tool call, in the order of the calls, and every result exactly once,
  -- and nothing else; and a result that stands beside a call has no id, or the id of that call.
  pub pair_tool_entries_lem :
      (entries : List AgentLogEntry)
      → (calls (pair_tool_entries trim entries) ≡ kept is_tool entries)
        × Perm (results (pair_tool_entries trim entries)) (kept is_result entries)
        × AreMatched (pair_tool_entries trim entries)
  pair_tool_entries_lem entries =
      let complete = pair_tool_entries_complete trim entries in
      (complete.0, complete.1, pair_tool_entries-AreMatched entries)
