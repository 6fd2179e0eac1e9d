-- ===== src/GitPatch/Reading.antt =====
-- A reader of patches, and what it gets from one that the code makes.
use euphony.Prelude.{
  ◌≡◌, refl, ap, ◌∙◌, Bool, true, false, not, Option, some, none, List, [], ◌∷◌, ◌++◌, map, eqb,
  length, if◌then◌else◌, arith, append_assoc, append-nil, all,
}
use euphony.EventStream.{Text, newline, split_cons, split_lines}
use euphony.EventStream.Sending.{IsLine}
use euphony.GitPatch.{
  GitDiffLineKind, context, addition, deletion, meta, GitDiffLine, GitDiffHunk, GitChangedFile,
  diff_git, to_b, new_file_mode, deleted_file_mode, similarity_index, rename_from, rename_to,
  minus_header, plus_header, dev_null, a_prefix, b_prefix, is_added, is_deleted, is_renamed,
  starts_with, meta_line, patch_line, old_path, mode_lines, path_lines, first_line, hunk_lines,
  join, git_changed_file_to_patch,
}

-- A line of a hunk, by its first character.
abbrev pub ReadLine : Type 0
ReadLine = GitDiffLineKind × Text

abbrev pub read_line : Text → Option ReadLine
read_line [] = none
read_line (c ∷ text) =
    if eqb c 32
    then some (context, text)
    else if eqb c 43
    then some (addition, text)
    else if eqb c 45
    then some (deletion, text)
    else if eqb c 92
    then some (meta, c ∷ text)
    else none

abbrev pub ReadHunk : Type 0
ReadHunk = Text × List ReadLine

abbrev pub add_line : Option ReadLine → List ReadLine → List ReadLine
add_line none lines = lines
add_line (some line) lines = line ∷ lines

-- The lines before the first hunk, and the hunks, each from a line that begins with an at sign.
unfoldable pub read_lines : List Text → List ReadLine × List ReadHunk
read_lines [] = ([], [])
read_lines (line ∷ lines) =
    let rest = read_lines lines in
    if starts_with 64 line
    then ([], (line, rest.0) ∷ rest.1)
    else (add_line (read_line line) rest.0, rest.1)

unfoldable pub read_patch : Text → List ReadHunk
unfolding read_lines
read_patch text = (read_lines (split_lines text).0).1

-- What a reader can know of a hunk.
abbrev pub shown_line : GitDiffLineKind → Text → ReadLine
shown_line context content = (context, content)
shown_line addition content = (addition, content)
shown_line deletion content = (deletion, content)
shown_line meta content = (meta, meta_line content)

abbrev pub shown_lines : List GitDiffLine → List ReadLine
shown_lines lines = map (λ line. shown_line line.kind line.content) lines

abbrev pub shown_hunks : List GitDiffHunk → List ReadHunk
shown_hunks hunks = map (λ hunk. (hunk.header, shown_lines hunk.lines)) hunks

abbrev pub AreLines : List GitDiffLine → Type 0
AreLines [] = Unit
AreLines (line ∷ lines) = IsLine line.content × AreLines lines

-- A header is one line that begins with an at sign, a content is one line.
abbrev pub AreHunks : List GitDiffHunk → Type 0
AreHunks [] = Unit
AreHunks (hunk ∷ hunks) =
    (starts_with 64 hunk.header ≡ true) × IsLine hunk.header × AreLines hunk.lines × AreHunks hunks

abbrev pub AllLines : List Text → Type 0
AllLines [] = Unit
AllLines (line ∷ lines) = IsLine line × AllLines lines

split_lines-first :
    (line rest : Text)
    → IsLine line
    → split_lines (line ++ newline ∷ rest) ≡ (line ∷ (split_lines rest).0, (split_lines rest).1)
unfolding split_lines split_cons
split_lines-first [] rest h = refl
split_lines-first (c ∷ line) rest h = rw (h.0, split_lines-first line rest h.1) refl

split_lines-join :
    (line : Text) (lines : List Text)
    → IsLine line
    → AllLines lines
    → (split_lines (join (line ∷ lines) ++ newline ∷ [])).0 ≡ line ∷ lines
unfolding split_lines
split_lines-join line [] h k = ap (λ split. split.0) (split_lines-first line [] h)
split_lines-join line (next ∷ lines) h k =
    ap (λ text. (split_lines text).0)
      (append_assoc line (newline ∷ join (next ∷ lines)) (newline ∷ []))
    ∙ ap (λ split. split.0) (split_lines-first line (join (next ∷ lines) ++ newline ∷ []) h)
    ∙ ap (◌∷◌ line) (split_lines-join next lines k.0 k.1)

read_line-patch_line :
    (kind : GitDiffLineKind) (content : Text)
    → (starts_with 64 (patch_line kind content) ≡ false)
      × (read_line (patch_line kind content) ≡ some (shown_line kind content))
unfolding patch_line
read_line-patch_line context content = (refl, refl)
read_line-patch_line addition content = (refl, refl)
read_line-patch_line deletion content = (refl, refl)
read_line-patch_line meta [] = (refl, refl)
read_line-patch_line meta (c ∷ content) = (ground arith, ground arith)

either-IsLine :
    (test : Bool) (xs ys : Text) → IsLine xs → IsLine ys → IsLine (if test then xs else ys)
either-IsLine true xs ys h k = h
either-IsLine false xs ys h k = k

patch_line-IsLine :
    (kind : GitDiffLineKind) (content : Text) → IsLine content → IsLine (patch_line kind content)
unfolding patch_line
patch_line-IsLine context content h = (refl, h)
patch_line-IsLine addition content h = (refl, h)
patch_line-IsLine deletion content h = (refl, h)
patch_line-IsLine meta [] h = (refl, (refl, tt))
patch_line-IsLine meta (c ∷ content) h =
    either-IsLine (starts_with 92 (c ∷ content)) (c ∷ content) (92 ∷ 32 ∷ c ∷ content) h
      (refl, (refl, h))

read_lines-lines :
    (lines : List GitDiffLine) (after : List Text)
    → read_lines (map (λ line. patch_line line.kind line.content) lines ++ after)
      ≡ (shown_lines lines ++ (read_lines after).0, (read_lines after).1)
unfolding read_lines
read_lines-lines [] after = refl
read_lines-lines (line ∷ lines) after =
    let first = read_line-patch_line line.kind line.content in
    rw (first.0, first.1, read_lines-lines lines after) refl

read_header :
    (header : Text) (lines : List Text)
    → starts_with 64 header ≡ true
    → read_lines (header ∷ lines) ≡ ([], (header, (read_lines lines).0) ∷ (read_lines lines).1)
unfolding read_lines
read_header header lines h = rw h refl

read_lines-hunk_lines :
    (hunks : List GitDiffHunk)
    → AreHunks hunks
    → read_lines (hunk_lines hunks) ≡ ([], shown_hunks hunks)
unfolding hunk_lines read_lines
read_lines-hunk_lines [] h = refl
read_lines-hunk_lines (hunk ∷ hunks) h =
    let rest = read_lines-hunk_lines hunks h.3 in
    let body =
      read_lines-lines hunk.lines (hunk_lines hunks)
      ∙ ap (λ read. (shown_lines hunk.lines ++ read.0, read.1)) rest in
    read_header hunk.header
      (map (λ line. patch_line line.kind line.content) hunk.lines ++ hunk_lines hunks) h.0
    ∙ ap (λ read. ([], (hunk.header, read.0) ∷ read.1)) body
    ∙ ap (λ lines. ([], (hunk.header, lines) ∷ shown_hunks hunks))
        (append-nil (shown_lines hunk.lines))

-- Lines of which none begins with an at sign.
abbrev BeforeHunks : List Text → Type 0
BeforeHunks [] = Unit
BeforeHunks (line ∷ lines) = (starts_with 64 line ≡ false) × BeforeHunks lines

read_lines-before :
    (before after : List Text)
    → BeforeHunks before
    → (read_lines (before ++ after)).1 ≡ (read_lines after).1
unfolding read_lines
read_lines-before [] after h = refl
read_lines-before (line ∷ before) after h = rw h.0 (read_lines-before before after h.1)

append-BeforeHunks : (xs ys : List Text) → BeforeHunks xs → BeforeHunks ys → BeforeHunks (xs ++ ys)
append-BeforeHunks [] ys h k = k
append-BeforeHunks (x ∷ xs) ys h k = (h.0, append-BeforeHunks xs ys h.1 k)

append-AllLines : (xs ys : List Text) → AllLines xs → AllLines ys → AllLines (xs ++ ys)
append-AllLines [] ys h k = k
append-AllLines (x ∷ xs) ys h k = (h.0, append-AllLines xs ys h.1 k)

append-IsLine : (xs ys : Text) → IsLine xs → IsLine ys → IsLine (xs ++ ys)
append-IsLine [] ys h k = k
append-IsLine (x ∷ xs) ys h k = (h.0, append-IsLine xs ys h.1 k)

lines-AllLines :
    (lines : List GitDiffLine)
    → AreLines lines
    → AllLines (map (λ line. patch_line line.kind line.content) lines)
lines-AllLines [] h = tt
lines-AllLines (line ∷ lines) h =
    (patch_line-IsLine line.kind line.content h.0, lines-AllLines lines h.1)

hunk_lines-AllLines : (hunks : List GitDiffHunk) → AreHunks hunks → AllLines (hunk_lines hunks)
unfolding hunk_lines
hunk_lines-AllLines [] h = tt
hunk_lines-AllLines (hunk ∷ hunks) h = (
  h.1,
  append-AllLines (map (λ line. patch_line line.kind line.content) hunk.lines) (hunk_lines hunks)
      (lines-AllLines hunk.lines h.2) (hunk_lines-AllLines hunks h.3),
)

-- The lines before the hunks.
record IsPreamble (lines : List Text) : Type 0 where
  before : BeforeHunks lines
  all : AllLines lines

either-IsPreamble :
    (test : Bool) (xs ys : List Text)
    → IsPreamble xs
    → IsPreamble ys
    → IsPreamble (if test then xs else ys)
either-IsPreamble true xs ys h k = h
either-IsPreamble false xs ys h k = k

no_lines : IsPreamble []
no_lines = record { before = tt; all = tt }

append-IsPreamble : (xs ys : List Text) → IsPreamble xs → IsPreamble ys → IsPreamble (xs ++ ys)
append-IsPreamble xs ys h k = record {
  before = append-BeforeHunks xs ys h.before k.before;
  all = append-AllLines xs ys h.all k.all;
}

one_line : (line : Text) → starts_with 64 line ≡ false → IsLine line → IsPreamble (line ∷ [])
one_line line h k = record { before = (h, tt); all = (k, tt) }

-- By a run over the text.
checked : (text : Text) → all (λ c. not (eqb c newline)) text ≡ true → IsLine text
checked [] h = tt
checked (c ∷ text) h = (ground arith, checked text (ground arith))

with_prefix :
    (prefix text : Text)
    → all (λ c. not (eqb c newline)) prefix ≡ true
    → IsLine text
    → IsLine (prefix ++ text)
with_prefix prefix text h k = append-IsLine prefix text (checked prefix h) k

mode_lines-IsPreamble :
    (file : GitChangedFile)
    → IsLine (old_path file)
    → IsLine file.path
    → IsPreamble (mode_lines file)
unfolding mode_lines
mode_lines-IsPreamble file old new =
    let from =
      one_line (rename_from ++ old_path file) refl
        (with_prefix rename_from (old_path file) refl old) in
    let to = one_line (rename_to ++ file.path) refl (with_prefix rename_to file.path refl new) in
    let similar = if eqb (length file.hunks) 0 then similarity_index ∷ [] else [] in
    let names : List Text = (rename_from ++ old_path file) ∷ (rename_to ++ file.path) ∷ [] in
    let renames =
      append-IsPreamble ((rename_from ++ old_path file) ∷ []) ((rename_to ++ file.path) ∷ []) from
        to in
    let marked =
      either-IsPreamble (eqb (length file.hunks) 0) (similarity_index ∷ []) []
        (one_line similarity_index refl (checked similarity_index refl)) no_lines in
    either-IsPreamble (is_added file.status) _ _
      (one_line new_file_mode refl (checked new_file_mode refl))
      (either-IsPreamble (is_deleted file.status) _ _
        (one_line deleted_file_mode refl (checked deleted_file_mode refl))
        (either-IsPreamble (is_renamed file.status file.previous_path) _ []
          (append-IsPreamble similar names marked renames) no_lines))

path_lines-IsPreamble :
    (file : GitChangedFile)
    → IsLine (old_path file)
    → IsLine file.path
    → IsPreamble (path_lines file)
unfolding path_lines
path_lines-IsPreamble file old new =
    let from = if is_added file.status then dev_null else a_prefix ++ old_path file in
    let to = if is_deleted file.status then dev_null else b_prefix ++ file.path in
    let from_line =
      either-IsLine (is_added file.status) dev_null (a_prefix ++ old_path file)
        (checked dev_null refl) (with_prefix a_prefix (old_path file) refl old) in
    let to_line =
      either-IsLine (is_deleted file.status) dev_null (b_prefix ++ file.path)
        (checked dev_null refl) (with_prefix b_prefix file.path refl new) in
    either-IsPreamble _ _ []
      (append-IsPreamble ((minus_header ++ from) ∷ []) ((plus_header ++ to) ∷ [])
        (one_line (minus_header ++ from) refl (with_prefix minus_header from refl from_line))
        (one_line (plus_header ++ to) refl (with_prefix plus_header to refl to_line)))
      no_lines

-- If the paths, the headers and the contents of the lines have no newline, and each header begins
-- with an at sign, then a reader that tells hunks and lines apart by their first characters gets
-- exactly the hunks back from the patch, whatever the kind of change: the headers, and the kinds
-- and contents of the lines, a meta line with its backslash.
pub read_patch-git_changed_file_to_patch :
    (file : GitChangedFile)
    → IsLine (old_path file)
    → IsLine file.path
    → AreHunks file.hunks
    → read_patch (git_changed_file_to_patch file) ≡ shown_hunks file.hunks
unfolding read_patch git_changed_file_to_patch
read_patch-git_changed_file_to_patch file old new h =
    let hunks = hunk_lines file.hunks in
    let rest = mode_lines file ++ (path_lines file ++ hunks) in
    let mode = mode_lines-IsPreamble file old new in
    let paths = path_lines-IsPreamble file old new in
    let first = with_prefix diff_git (old_path file ++ (to_b ++ file.path)) refl (
      append-IsLine (old_path file) (to_b ++ file.path) old
        (with_prefix to_b file.path refl new)) in
    let lines =
      append-AllLines (mode_lines file) (path_lines file ++ hunks) mode.all
        (append-AllLines (path_lines file) hunks paths.all (hunk_lines-AllLines file.hunks h)) in
    ap (λ lines. (read_lines lines).1) (split_lines-join (first_line file) rest first lines)
    ∙ read_lines-before (first_line file ∷ []) rest (refl, tt)
    ∙ read_lines-before (mode_lines file) (path_lines file ++ hunks) mode.before
    ∙ read_lines-before (path_lines file) hunks paths.before
    ∙ ap (λ read. read.1) (read_lines-hunk_lines file.hunks h)
