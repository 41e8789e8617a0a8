-- ===== src/Examples/Posting.antt =====
-- Markers, and comments that are read back.
use agent_sets.Prelude.{List, [], ap, arith, false, inl, inr, length, refl, some, ◌++◌, ◌∷◌, ◌≡◌}
use agent_sets.Prelude.Int.{pos}
use agent_sets.Domain.{is_empty}
use agent_sets.Text.Trim.{trim_space}
use agent_sets.Processor.Tables.{parse_table_comments}
use agent_sets.Processor.Posting.{clean_summary_markdown}
use agent_sets.Processor.Merger.{MergedFileComment}
use agent_sets.Text.{contains, split, lit, index, has_prefix, Bytes}
use agent_sets.Processor.Markers.{parse_marker, file_marker, type_file}
use agent_sets.Processor.Markers.RoundTrip.{parse_marker-file_marker}
use agent_sets.Processor.Existing.{
  PostedComment, existing_comments, has_existing_summary, existing_files,
}
use agent_sets.Processor.Existing.Blind.{existing_comments_blind, IsGeneralOrTable}

parse_marker-file_marker_example :
    parse_marker (file_marker (lit "src:a.go") (lit "c0ffee"))
    ≡ some (record { m_type = type_file; key = lit "src:a.go"; commit = lit "c0ffee" })
unfolding index has_prefix
parse_marker-file_marker_example =
    parse_marker-file_marker (lit "src:a.go") (lit "c0ffee") refl (omega arith)

-- what was posted for a summary
abbrev posted : List PostedComment
posted =
    record { raw = lit "<!-- ai-review::summary:c0ffee-->\n\nScore: 85"; path = []; line = pos 0 }
    ∷ []

existing_comments_blind_example :
    (has_existing_summary (existing_comments posted) (lit "c0ffee") ≡ false)
    × (existing_files (existing_comments posted) (lit "c0ffee") ≡ [])
existing_comments_blind_example = existing_comments_blind posted (lit "c0ffee") (inl refl, tt)

abbrev file_text : Bytes
file_text =
    file_marker (lit "a.go") (lit "c0ffee")
    ++ lit "\n\n| Line | Severity | Message |\n|------|\n| 3 | WARNING | x |\n"

abbrev posted_file : PostedComment
posted_file = record { raw = file_text; path = lit "a.go"; line = pos 0 }

abbrev file_again : MergedFileComment
file_again = record {
  file_path = lit "a.go";
  comments = [];
  marker = file_marker (lit "a.go") (lit "c0ffee");
  model_name = [];
}

one_row : length (parse_table_comments file_text) ≡ 1
unfolding parse_table_comments split file_marker is_empty trim_space contains
one_row = refl

posted_file-IsGeneralOrTable : IsGeneralOrTable posted_file
posted_file-IsGeneralOrTable = inr (λ e. absurd (omega (arith, one_row, ap length e)))

test_clean : clean_summary_markdown (lit "## **Head**\n* `x` __y__") ≡ lit "Head\nx y"
unfolding clean_summary_markdown
test_clean = refl
