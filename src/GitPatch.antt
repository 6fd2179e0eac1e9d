-- ===== src/GitPatch.antt =====
-- web/src/components/gitChangesPatch.ts, with the types of a change in web/src/types.ts. A text is
-- the list of its code units.
pub mod Reading
mod Tests
use euphony.Prelude.{
  ℕ, Bool, true, false, not, Option, some, none, List, [], ◌∷◌, ◌++◌, map, eqb, length, ◌&&◌, ◌||◌,
  if◌then◌else◌, or_else,
}
use euphony.EventStream.{Text, newline}

pub data GitChangeStatus : Type 0 where
  modified added deleted renamed untracked : GitChangeStatus

pub data GitDiffLineKind : Type 0 where
  context addition deletion meta : GitDiffLineKind

pub record GitDiffLine : Type 0 where
  pub kind : GitDiffLineKind
  pub old_line : Option ℕ
  pub new_line : Option ℕ
  pub content : Text

pub record GitDiffHunk : Type 0 where
  pub header : Text
  pub old_start : ℕ
  pub new_start : ℕ
  pub lines : List GitDiffLine

-- The fields of a changed file that the patch is made from.
pub record GitChangedFile : Type 0 where
  pub path : Text
  pub previous_path : Option Text
  pub status : GitChangeStatus
  pub hunks : List GitDiffHunk

-- `diff --git a/`
abbrev pub diff_git : Text
diff_git = 100 ∷ 105 ∷ 102 ∷ 102 ∷ 32 ∷ 45 ∷ 45 ∷ 103 ∷ 105 ∷ 116 ∷ 32 ∷ 97 ∷ 47 ∷ []

-- ` b/`
abbrev pub to_b : Text
to_b = 32 ∷ 98 ∷ 47 ∷ []

-- `new file mode 100644`
abbrev pub new_file_mode : Text
new_file_mode =
    110 ∷ 101 ∷ 119 ∷ 32 ∷ 102 ∷ 105 ∷ 108 ∷ 101 ∷ 32 ∷ 109 ∷ 111 ∷ 100 ∷ 101 ∷ 32 ∷ 49 ∷ 48 ∷ 48
    ∷ 54 ∷ 52 ∷ 52 ∷ []

-- `deleted file mode 100644`
abbrev pub deleted_file_mode : Text
deleted_file_mode =
    100 ∷ 101 ∷ 108 ∷ 101 ∷ 116 ∷ 101 ∷ 100 ∷ 32 ∷ 102 ∷ 105 ∷ 108 ∷ 101 ∷ 32 ∷ 109 ∷ 111 ∷ 100
    ∷ 101 ∷ 32 ∷ 49 ∷ 48 ∷ 48 ∷ 54 ∷ 52 ∷ 52 ∷ []

-- `similarity index 100%`
abbrev pub similarity_index : Text
similarity_index =
    115 ∷ 105 ∷ 109 ∷ 105 ∷ 108 ∷ 97 ∷ 114 ∷ 105 ∷ 116 ∷ 121 ∷ 32 ∷ 105 ∷ 110 ∷ 100 ∷ 101 ∷ 120 ∷ 32
    ∷ 49 ∷ 48 ∷ 48 ∷ 37 ∷ []

-- `rename from `
abbrev pub rename_from : Text
rename_from = 114 ∷ 101 ∷ 110 ∷ 97 ∷ 109 ∷ 101 ∷ 32 ∷ 102 ∷ 114 ∷ 111 ∷ 109 ∷ 32 ∷ []

-- `rename to `
abbrev pub rename_to : Text
rename_to = 114 ∷ 101 ∷ 110 ∷ 97 ∷ 109 ∷ 101 ∷ 32 ∷ 116 ∷ 111 ∷ 32 ∷ []

-- `--- `
abbrev pub minus_header : Text
minus_header = 45 ∷ 45 ∷ 45 ∷ 32 ∷ []

-- `+++ `
abbrev pub plus_header : Text
plus_header = 43 ∷ 43 ∷ 43 ∷ 32 ∷ []

-- `/dev/null`
abbrev pub dev_null : Text
dev_null = 47 ∷ 100 ∷ 101 ∷ 118 ∷ 47 ∷ 110 ∷ 117 ∷ 108 ∷ 108 ∷ []

-- `a/`
abbrev pub a_prefix : Text
a_prefix = 97 ∷ 47 ∷ []

-- `b/`
abbrev pub b_prefix : Text
b_prefix = 98 ∷ 47 ∷ []

abbrev pub is_added : GitChangeStatus → Bool
is_added added = true
is_added untracked = true
is_added modified = false
is_added deleted = false
is_added renamed = false

abbrev pub is_deleted : GitChangeStatus → Bool
is_deleted deleted = true
is_deleted modified = false
is_deleted added = false
is_deleted renamed = false
is_deleted untracked = false

-- `Boolean(file.previousPath)`.
abbrev pub has_text : Option Text → Bool
has_text none = false
has_text (some []) = false
has_text (some (c ∷ text)) = true

abbrev pub is_renamed : GitChangeStatus → Option Text → Bool
is_renamed renamed previous = has_text previous
is_renamed modified previous = false
is_renamed added previous = false
is_renamed deleted previous = false
is_renamed untracked previous = false

abbrev pub starts_with : ℕ → Text → Bool
starts_with c [] = false
starts_with c (d ∷ text) = eqb c d

abbrev pub meta_line : Text → Text
meta_line content = if starts_with 92 content then content else 92 ∷ 32 ∷ content

unfoldable pub patch_line : GitDiffLineKind → Text → Text
patch_line context content = 32 ∷ content
patch_line addition content = 43 ∷ content
patch_line deletion content = 45 ∷ content
patch_line meta content = meta_line content

abbrev pub old_path : GitChangedFile → Text
old_path file = or_else file.previous_path file.path

unfoldable pub mode_lines : GitChangedFile → List Text
mode_lines file =
    if is_added file.status
    then new_file_mode ∷ []
    else if is_deleted file.status
    then deleted_file_mode ∷ []
    else if is_renamed file.status file.previous_path
    then (if eqb (length file.hunks) 0 then similarity_index ∷ [] else [])
      ++ ((rename_from ++ old_path file) ∷ (rename_to ++ file.path) ∷ [])
    else []

unfoldable pub path_lines : GitChangedFile → List Text
path_lines file =
    if not (is_renamed file.status file.previous_path) || not (eqb (length file.hunks) 0)
    then (minus_header ++ (if is_added file.status then dev_null else a_prefix ++ old_path file))
      ∷ (plus_header ++ (if is_deleted file.status then dev_null else b_prefix ++ file.path))
      ∷ []
    else []

abbrev pub first_line : GitChangedFile → Text
first_line file = diff_git ++ (old_path file ++ (to_b ++ file.path))

unfoldable pub hunk_lines : List GitDiffHunk → List Text
unfolding patch_line
hunk_lines [] = []
hunk_lines (hunk ∷ hunks) =
    hunk.header ∷ (map (λ line. patch_line line.kind line.content) hunk.lines ++ hunk_lines hunks)

-- `lines.join("\n")`
abbrev pub join : List Text → Text
join [] = []
join (line ∷ []) = line
join (line ∷ next ∷ lines) = line ++ newline ∷ join (next ∷ lines)

unfoldable pub git_changed_file_to_patch : GitChangedFile → Text
unfolding mode_lines path_lines hunk_lines
git_changed_file_to_patch file =
    join (first_line file ∷ (mode_lines file ++ (path_lines file ++ hunk_lines file.hunks)))
    ++ newline ∷ []
