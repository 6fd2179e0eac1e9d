-- ===== src/AgentLog/Tests.antt =====
-- A transcript in pages, and tool calls with their results.
use mathlib.Core.List.{Perm}
use euphony.Prelude.{
  ℕ, ◌≡◌, refl, Option, some, none, List, [], ◌∷◌, String, ◌==◌, if◌then◌else◌, arith, map_get,
  map_set,
}
use euphony.AgentLog.{
  AgentLogEntry, log_entry, EntryInfo, absent, listed, nil, cons, AgentLogEntryKind, message, tool,
  tool_result, tool_group, merge_adjacent_tool_groups,
}
use euphony.AgentLog.Merging.Kept.{leaves, total_calls, AreApart, merge_adjacent_tool_groups_keeps}
use euphony.AgentLog.Pairing.{ToolExecution, pair_tool_entries}
use euphony.AgentLog.Pairing.Complete.{calls, results}
use euphony.AgentLog.Pairing.Matched.{AreMatched, pair_tool_entries_lem}
use euphony.AgentLog.Refreshing.{
  AgentTranscript, claude, create, Event, ticked, more_asked, news_answered, more_answered, run,
}
use euphony.AgentLog.Refreshing.Pages.{IsPage}
use euphony.AgentLog.Refreshing.Shown.{IsShown, AreServed, run-IsShown}

abbrev of_kind : AgentLogEntryKind → Option String → EntryInfo
of_kind kind call_id = record {
  id = "e";
  kind = kind;
  role = none;
  title = none;
  content = none;
  url = none;
  mime_type = none;
  alt = none;
  call_id = call_id;
  timestamp = none;
}

abbrev plain : AgentLogEntryKind → Option String → AgentLogEntry
plain kind call_id = log_entry (of_kind kind call_id) none absent

abbrev group_of : AgentLogEntry → AgentLogEntry
group_of entry = log_entry (of_kind tool_group none) (some 1) (listed (cons entry nil))

abbrev first_call : AgentLogEntry
first_call = plain tool (some "a")

abbrev second_call : AgentLogEntry
second_call = plain tool none

abbrev second_result : AgentLogEntry
second_result = plain tool_result none

abbrev first_result : AgentLogEntry
first_result = plain tool_result (some "a")

abbrev tool_entries : List AgentLogEntry
tool_entries = first_call ∷ second_call ∷ first_result ∷ second_result ∷ []

abbrev execution : AgentLogEntry → AgentLogEntry → ToolExecution
execution call result = record { call = some call; result = some result }

pairs :
    pair_tool_entries (λ s. s) tool_entries
    ≡ execution first_call first_result ∷ execution second_call second_result ∷ []
unfolding pair_tool_entries map_get map_set
pairs = refl

pair_tool_entries_lem_example :
    (calls (pair_tool_entries (λ s. s) tool_entries) ≡ first_call ∷ second_call ∷ [])
    × Perm (results (pair_tool_entries (λ s. s) tool_entries)) (first_result ∷ second_result ∷ [])
    × AreMatched (λ s. s) (pair_tool_entries (λ s. s) tool_entries)
pair_tool_entries_lem_example = pair_tool_entries_lem (λ s. s) tool_entries

abbrev groups : List AgentLogEntry
groups =
    group_of first_call ∷ group_of second_call ∷ plain message none ∷ group_of first_result ∷ []

merge_adjacent_tool_groups_keeps_example :
    (leaves (merge_adjacent_tool_groups groups)
      ≡ first_call ∷ second_call ∷ plain message none ∷ first_result ∷ [])
    × (total_calls (merge_adjacent_tool_groups groups) ≡ 3)
    × AreApart (merge_adjacent_tool_groups groups)
merge_adjacent_tool_groups_keeps_example = merge_adjacent_tool_groups_keeps groups

-- A transcript of groups only, with cursors at its first four places.
abbrev position : String → ℕ
position cursor =
    if cursor == "1" then 1 else if cursor == "2" then 2 else if cursor == "3" then 3 else 0

abbrev transcript : String → ℕ → AgentLogEntry
transcript id n = group_of first_call

abbrev page : List AgentLogEntry → String → String → Option String → AgentTranscript
page entries start end next = record {
  agent = claude;
  session_id = "s";
  entries = entries;
  start_cursor = some start;
  end_cursor = some end;
  next_cursor = next;
}

abbrev one_group : List AgentLogEntry
one_group = group_of first_call ∷ []

abbrev newest : AgentTranscript
newest = page one_group "1" "2" (some "1")

abbrev news : AgentTranscript
news = page one_group "2" "3" (some "2")

abbrev oldest : AgentTranscript
oldest = page one_group "0" "1" none

newest-IsPage : IsPage position transcript newest
unfolding merge_adjacent_tool_groups
newest-IsPage = record { ordered = omega arith; covers = refl; older = refl }

news-IsPage : IsPage position transcript news
unfolding merge_adjacent_tool_groups
news-IsPage = record { ordered = omega arith; covers = refl; older = refl }

oldest-IsPage : IsPage position transcript oldest
unfolding merge_adjacent_tool_groups
oldest-IsPage = record { ordered = omega arith; covers = refl; older = tt }

abbrev visit : List Event
visit =
    ticked
    ∷ news_answered (some newest)
    ∷ more_asked
    ∷ ticked
    ∷ more_answered (some oldest)
    ∷ news_answered (some news)
    ∷ []

visit-AreServed : AreServed position transcript visit create
unfolding run
visit-AreServed =
    (tt, ((newest-IsPage, tt), (tt, (tt, ((oldest-IsPage, refl), ((news-IsPage, tt), tt))))))

run-IsShown_example : IsShown position transcript (run visit create)
run-IsShown_example = run-IsShown position transcript visit visit-AreServed
