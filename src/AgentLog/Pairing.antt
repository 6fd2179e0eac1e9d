-- ===== src/AgentLog/Pairing.antt =====
-- web/src/components/AgentLogView.tsx, `pairToolEntries`. An execution that the code changes in
-- place is named by its place in `executions`, and `calls_left` is `callsInSourceOrder` from
-- `nextUnkeyedCall` on. `trim` is `String.prototype.trim`.
pub mod Complete
pub mod Matched
use euphony.Prelude.{
  ℕ, zero, suc, Bool, true, false, not, Option, some, none, List, [], ◌∷◌, ◌++◌, String, ◌&&◌, ◌||◌,
  ◌==◌, if◌then◌else◌, length, get_elem?, map_get, map_set,
}
use euphony.AgentLog.{
  AgentLogEntry, info, AgentLogEntryKind, message, thinking, tool, tool_result, tool_group, image,
  video,
}

pub record ToolExecution : Type 0 where
  pub call : Option AgentLogEntry
  pub result : Option AgentLogEntry

pub record Pairing : Type 0 where
  pub executions : List ToolExecution
  pub calls_by_id : List (String × ℕ)
  pub calls_left : List ℕ

abbrev pub no_result : Option ToolExecution → Bool
no_result none = false
no_result (some execution) = elim execution.result [ none ↦ true | some entry ↦ false ]

-- There is an execution at a place, and it has no result.
abbrev pub is_free : List ToolExecution → ℕ → Bool
is_free executions i = no_result (get_elem? executions i)

abbrev pub set_result : List ToolExecution → ℕ → AgentLogEntry → List ToolExecution
set_result [] i entry = []
set_result (execution ∷ executions) zero entry =
    record execution { result = some entry } ∷ executions
set_result (execution ∷ executions) (suc i) entry = execution ∷ set_result executions i entry

-- The loop over the calls that have a result.
abbrev pub skip_paired : List ToolExecution → List ℕ → List ℕ
skip_paired executions [] = []
skip_paired executions (i ∷ calls) =
    if is_free executions i then i ∷ calls else skip_paired executions calls

unfoldable pub push_call : String → AgentLogEntry → Pairing → Pairing
push_call id entry s = record {
  executions = s.executions ++ record { call = some entry; result = none } ∷ [];
  calls_by_id = if id == "" then s.calls_by_id else map_set s.calls_by_id id (length s.executions);
  calls_left = s.calls_left ++ length s.executions ∷ [];
}

unfoldable pub push_result : AgentLogEntry → Pairing → Pairing
push_result entry s = record s {
  executions = s.executions ++ record { call = none; result = some entry } ∷ [];
}

-- A result without a usable id goes to the first call that is left.
unfoldable pub place_unkeyed : AgentLogEntry → List ℕ → Pairing → Pairing
unfolding push_result
place_unkeyed entry [] s = push_result entry (record s { calls_left = [] })
place_unkeyed entry (i ∷ calls) s = record s {
  executions = set_result s.executions i entry;
  calls_left = calls;
}

unfoldable pub place_keyed : AgentLogEntry → Option ℕ → Pairing → Pairing
unfolding push_result
place_keyed entry none s = push_result entry s
place_keyed entry (some i) s =
    if is_free s.executions i
    then record s { executions = set_result s.executions i entry }
    else push_result entry s

module _ (trim : String → String) where
  -- `entry.callId?.trim()`, where undefined and the empty text are both falsy.
  abbrev pub call_key : Option String → String
  call_key none = ""
  call_key (some id) = trim id

  abbrev pub key : AgentLogEntry → String
  key entry = call_key (info entry).call_id

  unfoldable pub place_result : AgentLogEntry → Pairing → Pairing
  unfolding place_unkeyed place_keyed
  place_result entry s =
      if key entry == ""
      then place_unkeyed entry (skip_paired s.executions s.calls_left) s
      else place_keyed entry (map_get s.calls_by_id (key entry)) s

  unfoldable pub pair_entry : AgentLogEntryKind → AgentLogEntry → Pairing → Pairing
  unfolding push_call place_result
  pair_entry tool entry s = push_call (key entry) entry s
  pair_entry tool_result entry s = place_result entry s
  pair_entry message entry s = s
  pair_entry thinking entry s = s
  pair_entry tool_group entry s = s
  pair_entry image entry s = s
  pair_entry video entry s = s

  unfoldable pub pair_from : List AgentLogEntry → Pairing → Pairing
  unfolding pair_entry
  pair_from [] s = s
  pair_from (entry ∷ entries) s = pair_from entries (pair_entry (info entry).kind entry s)

  unfoldable pub pair_tool_entries : List AgentLogEntry → List ToolExecution
  unfolding pair_from
  pair_tool_entries entries =
      (pair_from entries (record { executions = []; calls_by_id = []; calls_left = [] })).executions
