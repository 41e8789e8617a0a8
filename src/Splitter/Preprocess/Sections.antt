-- ===== src/Splitter/Preprocess/Sections.antt =====
-- The sections of `SplitByFile` are the diff.

use agent_sets.Prelude.{
  List, [], ap, append-nil, drop, flatten, map, refl, true, ℕ, ◌++◌, ◌∙◌, ◌∷◌, ◌≡◌,
}
use agent_sets.Text.Scan.{sections}
use agent_sets.Splitter.Files.Cover.{first_at, headers}
use agent_sets.Text.Scan.Cover.{contents, Ascends, find_all-Ascends, contents-sections}
use agent_sets.Splitter.Preprocess.{split_by_file, file_pattern}
use agent_sets.Text.{Bytes}

texts-contents :
    (es : List (Bytes × Bytes)) → flatten (map (λ (e : Bytes × Bytes). e.1) es) ≡ contents es
unfolding flatten
texts-contents [] = refl
texts-contents ((a, s) ∷ es) = ap (λ (t : Bytes). s ++ t) (texts-contents es)

cut_texts :
    (diff : Bytes) (hs : List (ℕ × Bytes))
    → Ascends 0 hs
    → headers file_pattern diff ≡ hs
    → flatten (split_by_file diff) ≡ drop (first_at hs 0) diff
unfolding split_by_file flatten
cut_texts diff [] h e = rw (e, split_by_file) (append-nil diff)
cut_texts diff ((at, a) ∷ ms) h e =
    rw (e, split_by_file)
      (texts-contents (sections diff ((at, a) ∷ ms)) ∙ contents-sections diff at 0 a ms h)

-- The files, one behind the other, are the diff from its first `diff --git` line on, or the whole
-- diff, if it has none.
pub split_by_file-contents :
    (diff : Bytes)
    → flatten (split_by_file diff) ≡ drop (first_at (headers file_pattern diff) 0) diff
split_by_file-contents diff =
    cut_texts diff (headers file_pattern diff) (find_all-Ascends true file_pattern 0 0 true diff)
      refl
