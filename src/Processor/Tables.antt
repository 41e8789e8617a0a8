-- ===== src/Processor/Tables.antt =====
-- `parseTableComments` of pr_comment_filter.go: comments read back from Markdown tables.
use agent_sets.Prelude.{
  Bool, List, Option, [], drop, false, if◌then◌else◌, length, none, some, take, true, ◌&&◌, ◌++◌,
  ◌+◌, ◌∷◌,
}
use agent_sets.Prelude.Int.{pos, ℤ}
use agent_sets.Text.{Bytes, lit, has_prefix, index, contains, split}
use agent_sets.Text.Trim.{trim_space}
use agent_sets.Text.Number.{atoi}
use agent_sets.Domain.{ReviewComment, is_empty}
use agent_sets.Processor.Markers.{marker_prefix, type_file}

-- the text in brackets at the head of a link
unfoldable pub link_text : Bytes → Option Bytes
link_text text =
    if has_prefix text (lit "[")
    then elim (index text (lit "]")) [ none ↦ none | some end ↦ some (drop 1 (take end text)) ]
    else none

unfoldable pub extract_path_from_link : Bytes → Bytes
unfolding link_text
extract_path_from_link text = elim (link_text text) [ none ↦ text | some path ↦ path ]

unfoldable pub extract_line_from_link : Bytes → ℤ
unfolding link_text
extract_line_from_link text =
    let (whole, whole_ok) = atoi text in
    let plain = if whole_ok then whole else pos 0 in
    elim (link_text text) [
      | none ↦ plain
      | some val ↦ let (i, i_ok) = atoi val in if i_ok then i else plain
    ]

-- the file of the marker, for the rows of a file's table
unfoldable pub default_file : Bytes → Bytes
default_file content =
    let prefix = marker_prefix ++ (type_file ++ lit ":") in
    elim (index content prefix) [
      | none ↦ []
      | some start ↦
          (let rest = drop (start + length prefix) content in
            elim (index rest (lit ":")) [ none ↦ [] | some idx ↦ take idx rest ])
    ]

unfoldable pub clean_severity : Bytes → Bytes
clean_severity severity =
    if contains severity (lit "WARNING")
    then lit "WARNING"
    else if contains severity (lit "CRITICAL")
    then lit "CRITICAL"
    else lit "INFO"

-- `tableType`; the empty one is that of a text before its first table.
pub data TableType : Type 0 where
  untyped file_table summary_table : TableType

unfoldable pub row_comment : TableType → Bytes → Bytes → Bytes → Bytes → List ReviewComment
row_comment untyped file p₁ p₂ p₃ = []
row_comment file_table file p₁ p₂ p₃ =
    record {
      file = file;
      line = (atoi (trim_space p₁)).0;
      comment = trim_space p₃;
      severity = clean_severity (trim_space p₂);
      marker = [];
    }
    ∷ []
row_comment summary_table file p₁ p₂ p₃ =
    record {
      file = extract_path_from_link (trim_space p₁);
      line = extract_line_from_link (trim_space p₂);
      comment = trim_space p₃;
      severity = [];
      marker = [];
    }
    ∷ []

-- a row with fewer than four parts is passed over
unfoldable pub row_comments : TableType → Bytes → List Bytes → List ReviewComment
unfolding row_comment
row_comments t file (p₀ ∷ p₁ ∷ p₂ ∷ p₃ ∷ ps) = row_comment t file p₁ p₂ p₃
row_comments t file _ = []

-- The variables of the loop over the lines.
pub record TableState : Type 0 where
  pub comments : List ReviewComment
  pub in_table : Bool
  pub table_type : TableType

-- one round, on a line that is trimmed
unfoldable pub table_line : Bytes → TableState → Bytes → TableState
table_line file st line =
    if is_empty line
    then st
    else if contains line (lit "| Line | Severity | Message |")
    then record st { in_table = true; table_type = file_table }
    else if contains line (lit "| File | Line | Suggestion |")
    then record st { in_table = true; table_type = summary_table }
    else if contains line (lit "|------|")
    then st
    else if st.in_table && has_prefix line (lit "|")
    then record st { comments = st.comments ++ row_comments st.table_type file (split line b'|') }
    else record st { in_table = false }

unfoldable pub table_lines : Bytes → TableState → List Bytes → TableState
table_lines file st [] = st
table_lines file st (line ∷ lines) = table_lines file (table_line file st (trim_space line)) lines

unfoldable pub parse_table_comments : Bytes → List ReviewComment
unfolding table_lines table_line row_comments default_file
parse_table_comments content =
    (table_lines (default_file content)
      (record { comments = []; in_table = false; table_type = untyped })
      (split content b'\n')).comments
