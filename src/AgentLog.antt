-- ===== src/AgentLog.antt =====
-- web/src/components/AgentLogView.tsx, the transcript of an agent, with the types of an entry in
-- web/src/types.ts. The pages of a transcript are asked for by cursors that the server makes.
pub mod Merging
pub mod Refreshing
pub mod Pairing
mod Tests
use euphony.Prelude.{
  ℕ, ◌+◌, Bool, true, false, not, Option, some, none, List, [], ◌∷◌, ◌++◌, String, ◌&&◌,
  if◌then◌else◌,
}

pub data AgentLogEntryKind : Type 0 where
  message thinking tool tool_result tool_group image video : AgentLogEntryKind

pub data Role : Type 0 where
  user assistant : Role

-- The fields of an entry that are texts.
pub record EntryInfo : Type 0 where
  pub id : String
  pub kind : AgentLogEntryKind
  pub role : Option Role
  pub title : Option String
  pub content : Option String
  pub url : Option String
  pub mime_type : Option String
  pub alt : Option String
  pub call_id : Option String
  pub timestamp : Option String

mutual
  -- An entry with its `toolCalls` and its `entries`.
  pub data AgentLogEntry : Type 0 where
    log_entry : EntryInfo → Option ℕ → Entries → AgentLogEntry

  pub data Entries : Type 0 where
    absent : Entries
    listed : EntryList → Entries

  pub data EntryList : Type 0 where
    nil : EntryList
    cons : AgentLogEntry → EntryList → EntryList

abbrev pub info : AgentLogEntry → EntryInfo
info (log_entry i calls nested) = i

-- `entry.toolCalls ?? 0`.
abbrev pub tool_calls : AgentLogEntry → ℕ
tool_calls (log_entry i none nested) = 0
tool_calls (log_entry i (some n) nested) = n

abbrev pub to_list : EntryList → List AgentLogEntry
to_list nil = []
to_list (cons entry entries) = entry ∷ to_list entries

abbrev pub of_list : List AgentLogEntry → EntryList
of_list [] = nil
of_list (entry ∷ entries) = cons entry (of_list entries)

-- `entry.entries ?? []`.
abbrev pub nested : AgentLogEntry → List AgentLogEntry
nested (log_entry i calls absent) = []
nested (log_entry i calls (listed entries)) = to_list entries

abbrev pub is_tool_group : AgentLogEntryKind → Bool
is_tool_group tool_group = true
is_tool_group message = false
is_tool_group thinking = false
is_tool_group tool = false
is_tool_group tool_result = false
is_tool_group image = false
is_tool_group video = false

abbrev pub is_group : AgentLogEntry → Bool
is_group entry = is_tool_group (info entry).kind

abbrev pub combined : AgentLogEntry → AgentLogEntry → AgentLogEntry
combined previous entry =
    log_entry (info previous) (some (tool_calls previous + tool_calls entry))
      (listed (of_list (nested previous ++ nested entry)))

-- One turn of the loop; `merged` stands the latest first.
abbrev pub merge_entry : List AgentLogEntry → AgentLogEntry → List AgentLogEntry
merge_entry [] entry = entry ∷ []
merge_entry (previous ∷ merged) entry =
    if is_group entry && is_group previous
    then combined previous entry ∷ merged
    else entry ∷ previous ∷ merged

unfoldable pub merge_from : List AgentLogEntry → List AgentLogEntry → List AgentLogEntry
merge_from merged [] = merged
merge_from merged (entry ∷ entries) = merge_from (merge_entry merged entry) entries

abbrev pub in_order : List AgentLogEntry → List AgentLogEntry
in_order [] = []
in_order (entry ∷ entries) = in_order entries ++ entry ∷ []

unfoldable pub merge_adjacent_tool_groups : List AgentLogEntry → List AgentLogEntry
unfolding merge_from
merge_adjacent_tool_groups entries = in_order (merge_from [] entries)
