-- ===== src/Workspace/Filters.antt =====
-- The filters of web/src/App.tsx: a status filter names an activity, a cwd filter an activity and
-- a directory, joined by the character U+0000 (web/src/sessionUtils.ts, cwdFilterKey).
pub mod Keys
use Prim.Native.String
use Prim.Native.Char.{Char, code}
use text.Mathlib.Text.{starts_with}
use euphony.Prelude.{
  Bool, true, false, Option, some, none, String, List, [], ◌∷◌, any, ◌||◌, ◌==◌, eqb, is_set,
  includes, if◌then◌else◌,
}
use euphony.Session.{Session, session_activity}

pub record CwdSelectionFilter : Type 0 where
  pub status : String
  pub cwd : String

abbrev pub separator : Char
separator = "\0"

unfoldable pub cwd_filter_key : String → String → String
cwd_filter_key status cwd = String.◌++◌ status (String.◌∷◌ separator cwd)

-- `filter.indexOf("\u0000")`, as the texts before and after the first separator.
split_separator : String → Option (String × String)
split_separator String.[] = none
split_separator (String.◌∷◌ c s) =
    if eqb (code c) 0 then some (String.[], s) else (elim (split_separator s) [
      | none ↦ none
      | some (before, after) ↦ some (String.◌∷◌ c before, after)
    ])

parsed : String → String → Option CwdSelectionFilter
parsed status cwd =
    if status == "" || cwd == "" then none else some (record { status = status; cwd = cwd })

unfoldable pub parse_cwd_filter : String → Option CwdSelectionFilter
unfolding split_separator parsed
parse_cwd_filter key = elim (split_separator key) [
  | none ↦ none
  | some (status, cwd) ↦ parsed status cwd
]

unfoldable pub cwd_filter_belongs_to_status : String → String → Bool
cwd_filter_belongs_to_status key status =
    starts_with key (String.◌++◌ status (String.◌∷◌ separator String.[]))

-- The statuses that `matchesWorkspaceFilter` tests: the activity and, if set, "attention".
abbrev pub filter_statuses : Session → List String
filter_statuses session =
    session_activity session ∷ (if is_set session.needs_attention then "attention" ∷ [] else [])

unfoldable pub matches_workspace_filter : Session → List String → List String → Bool
matches_workspace_filter session status_filters cwd_filters =
    any
      (λ status.
        includes status_filters status || includes cwd_filters (cwd_filter_key status session.cwd))
      (filter_statuses session)
