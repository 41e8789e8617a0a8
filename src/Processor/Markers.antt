-- ===== src/Processor/Markers.antt =====
-- The markers that tie a posted comment to a file and a commit: how comment_merger.go and
-- pr_comment_poster.go write them and pr_comment_filter.go reads them.
pub mod RoundTrip
use agent_sets.Prelude.{Option, [], drop, if◌then◌else◌, length, none, some, take, ◌++◌, ◌+◌, ◌∷◌}
use agent_sets.Text.{Bytes, lit, itoa, has_prefix, index, last_index, contains}
use agent_sets.Domain.{ReviewComment}

abbrev pub marker_prefix : Bytes
marker_prefix = lit "<!-- ai-review::"

abbrev pub marker_suffix : Bytes
marker_suffix = lit "-->"

abbrev pub marker_visible : Bytes
marker_visible = lit "**AI Review**"

abbrev pub type_file : Bytes
type_file = lit "file"

abbrev pub type_summary : Bytes
type_summary = lit "summary"

-- the marker of a merged file comment
unfoldable pub file_marker : Bytes → Bytes → Bytes
file_marker file commit =
    marker_prefix ++ (type_file ++ (b':' ∷ (file ++ (b':' ∷ (commit ++ marker_suffix)))))

-- the marker of the summary
unfoldable pub summary_marker : Bytes → Bytes
summary_marker commit = marker_prefix ++ (type_summary ++ (b':' ∷ (commit ++ marker_suffix)))

-- the text of an individual comment
unfoldable pub individual_text : ReviewComment → Bytes → Bytes
individual_text c commit =
    marker_prefix
    ++ (c.file
        ++ (b':' ∷ (itoa c.line ++ (b':' ∷ (commit ++ (marker_suffix ++ (b'\n' ∷ c.comment)))))))

pub record Marker : Type 0 where
  pub m_type : Bytes
  pub key : Bytes
  pub commit : Bytes

-- a content up to the suffix
unfoldable pub up_to_suffix : Bytes → Option Bytes
up_to_suffix content = elim (index content marker_suffix) [
  | none ↦ none
  | some idx ↦ some (take idx content)
]

-- the key and the commit of a file's marker
unfoldable pub file_parts : Bytes → Option Marker
file_parts content = elim (last_index content b':') [
  | none ↦ none
  | some at ↦
      some (record { m_type = type_file; key = take at content; commit = drop (at + 1) content })
]

abbrev pub parse_file : Option Bytes → Option Marker
parse_file none = none
parse_file (some content) = file_parts content

abbrev pub parse_summary : Option Bytes → Option Marker
parse_summary none = none
parse_summary (some content) =
    some (record { m_type = type_summary; key = lit "summary"; commit = content })

-- `found` is `some`; the other results are empty where it is false.
unfoldable pub parse_marker : Bytes → Option Marker
parse_marker text =
    let file_prefix = marker_prefix ++ (type_file ++ lit ":") in
    let summary_prefix = marker_prefix ++ (type_summary ++ lit ":") in
    if has_prefix text file_prefix
    then parse_file (up_to_suffix (drop (length file_prefix) text))
    else if has_prefix text summary_prefix
    then parse_summary (up_to_suffix (drop (length summary_prefix) text))
    else none

unfoldable pub marker_type_from_marker : Bytes → Bytes
marker_type_from_marker text =
    if contains text type_summary
    then type_summary
    else if contains text type_file
    then type_file
    else []
