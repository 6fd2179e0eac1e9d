-- ===== src/GitPatch/Tests.antt =====
-- The patch of a renamed file with one hunk.
use euphony.Prelude.{◌≡◌, refl, some, none, [], ◌∷◌}
use euphony.EventStream.{Text}
use euphony.GitPatch.{
  GitChangedFile, renamed, context, addition, deletion, meta, GitDiffHunk, GitDiffLine,
  GitDiffLineKind, git_changed_file_to_patch,
}
use euphony.GitPatch.Reading.{read_patch, read_patch-git_changed_file_to_patch}

abbrev line : GitDiffLineKind → Text → GitDiffLine
line kind content = record { kind = kind; old_line = none; new_line = none; content = content }

abbrev hunk : GitDiffHunk
hunk = record {
  header = 64 ∷ 64 ∷ [];
  old_start = 1;
  new_start = 1;
  lines =
      line context (97 ∷ [])
      ∷ line deletion []
      ∷ line addition (64 ∷ [])
      ∷ line meta (78 ∷ [])
      ∷ [];
}

abbrev file : GitChangedFile
file = record {
  path = 121 ∷ [];
  previous_path = some (120 ∷ []);
  status = renamed;
  hunks = hunk ∷ [];
}

read_patch-git_changed_file_to_patch_example :
    read_patch (git_changed_file_to_patch file)
    ≡ (
      64 ∷ 64 ∷ [],
      (context, 97 ∷ []) ∷ (deletion, []) ∷ (addition, 64 ∷ []) ∷ (meta, 92 ∷ 32 ∷ 78 ∷ []) ∷ [],
    )
      ∷ []
read_patch-git_changed_file_to_patch_example =
    read_patch-git_changed_file_to_patch file (refl, tt) (refl, tt)
      (refl, (refl, (refl, tt)), ((refl, tt), (tt, ((refl, tt), ((refl, tt), tt)))), tt)
