-- ===== src/Pipeline/Stages/Whole.antt =====
-- The changes are the whole diff.
use agent_sets.Prelude.{List, [], ap, drop, flatten, map, refl, ◌∙◌, ◌∷◌, ◌≡◌}
use agent_sets.Splitter.Preprocess.Sections.{split_by_file-contents}
use agent_sets.Splitter.Preprocess.{file_pattern, preprocess, split_by_file}
use agent_sets.Splitter.Files.Cover.{first_at, headers}
use agent_sets.Text.Pieces.{join-split}
use agent_sets.Pipeline.Stages.{change_of, changes_of, stage1_options}
use agent_sets.Pipeline.Types.{FileChange}
use mathlib.Core.Path.{ap₂}
use agent_sets.Text.{Bytes, join}

abbrev pub lines_of : FileChange → Bytes
lines_of c = join c.hunk_lines (b'\n' ∷ [])

lines_of-change_of : (files : List Bytes) → map lines_of (map change_of files) ≡ files
unfolding change_of
lines_of-change_of [] = refl
lines_of-change_of (f ∷ fs) =
    ap₂ (λ (a : Bytes) (b : List Bytes). a ∷ b) (join-split f b'\n') (lines_of-change_of fs)

-- The lines of the changes, put together again, are the preprocessed diff from its first `diff --git` line
-- on, or all of it, if it has none.
pub changes_of_whole :
    (diff : Bytes)
    → flatten (map lines_of (changes_of diff))
      ≡ drop
          (first_at (headers file_pattern (preprocess stage1_options diff)) 0)
          (preprocess stage1_options diff)
unfolding changes_of
changes_of_whole diff =
    ap flatten (lines_of-change_of (split_by_file (preprocess stage1_options diff)))
    ∙ split_by_file-contents (preprocess stage1_options diff)
