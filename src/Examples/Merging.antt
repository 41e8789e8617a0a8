-- ===== src/Examples/Merging.antt =====
-- Tests of comment_merger.go, and its theorems at concrete inputs.

use agent_sets.Prelude.{Bool, List, [], drop, if◌then◌else◌, map, refl, true, ℕ, ◌++◌, ◌∷◌, ◌≡◌}
use agent_sets.Prelude.Int.{pos}
use agent_sets.Processor.Markers.{file_marker}
use agent_sets.Processor.Merger.Format.{format_file_comment, format_summary_addons}
use agent_sets.Examples.Reviews.{ascii}
use agent_sets.Domain.{ReviewComment}
use agent_sets.Text.{Bytes, lit, warning_sign}
use agent_sets.Config.{CommentMergeConfig}
use agent_sets.Processor.Merger.{Sorting, MergeResult, merge, MergedFileComment}

module _ {A : Type 0} (before : A → A → Bool) where
  insert : A → List A → List A
  insert x [] = x ∷ []
  insert x (y ∷ ys) = let rest = insert x ys in if before y x then y ∷ rest else x ∷ y ∷ ys

  insertion : List A → List A
  unfolding insert
  insertion [] = []
  insertion (x ∷ xs) = insert x (insertion xs)

abbrev by_insertion : Sorting
by_insertion = record { sort = λ A before xs. insertion before xs; visit = λ V m. m }

abbrev by_file_config : CommentMergeConfig
by_file_config = record {
  merge_enabled = true;
  high_severity_merge = lit "by_file";
  low_severity_merge = lit "to_summary";
}

abbrev remark : Bytes → ℕ → Bytes → ReviewComment
remark file line severity = record {
  file = file;
  line = pos line;
  comment = lit "a|b\nc";
  severity = severity;
  marker = [];
}

abbrev remarks : List ReviewComment
remarks =
    remark (lit "y.go") 9 (lit "critical")
    ∷ remark (lit "y.go") 3 (lit "WARNING")
    ∷ remark (lit "x.go") 5 (lit "NIT")
    ∷ remark [] 1 (lit "Warning")
    ∷ []

abbrev merged : MergeResult
merged = merge ascii by_insertion by_file_config remarks (lit "c0ffee")

test_paths :
    map (λ (fc : MergedFileComment). fc.file_path) merged.file_comments
    ≡ lit "General" ∷ lit "y.go" ∷ []
unfolding merge insertion
test_paths = refl

test_table :
    map (format_file_comment ascii (lit "http://h")) (drop 1 merged.file_comments)
    ≡ (file_marker (lit "y.go") (lit "c0ffee")
        ++ (lit "\n\n## "
            ++ (0xF0
                ∷ 0x9F
                ∷ 0x9A
                ∷ 0xAB
                ∷ (lit
                      " [y.go](http://h/diff#y.go) Code Review\n\n| Line | Severity | Message |\n|------|----------|----------|\n| 3 | "
                    ++ (warning_sign
                        ++ (lit " WARNING | a\\|b<br>c |\n| 9 | "
                            ++ (0xF0
                                ∷ 0x9F
                                ∷ 0x9A
                                ∷ 0xAB
                                ∷ lit
                                    " CRITICAL | a\\|b<br>c |\n\n---\n*This comment was automatically generated by AI Code Review*")))))))
      ∷ []
unfolding merge format_file_comment insertion
test_table = refl

test_addons :
    format_summary_addons by_insertion (lit "http://h") merged.summary_addons
    ≡ lit
        "\n### 📋 Suggestions (INFO/NIT)\n\n| File | Line | Suggestion |\n|------|------|------|\n| [x.go](http://h/diff#x.go) | [5](http://h/diff#x.go?t=5) | a\\|b<br>c |\n"
unfolding merge format_summary_addons insertion
test_addons = refl
