-- ===== src/Processor/Posting.antt =====
-- What is left to post of a review: `validateComments` and `filterExistingFileComments` of
-- pr_comment_filter.go, and `cleanSummaryMarkdown` of pr_comment_poster.go.
pub mod Again
pub mod Calls
use agent_sets.Prelude.{Bool, List, [], if◌then◌else◌, map, ◌||◌, ◌∷◌}
use agent_sets.Prelude.Int.{eqb_ℤ, pos}
use agent_sets.Validator.Answers.{is_valid}
use agent_sets.Validator.Parse.{CommentValidator}
use agent_sets.Domain.{ReviewComment, is_empty}
use agent_sets.Processor.Merger.{MergedFileComment}
use agent_sets.Processor.Existing.{existing_files}
use agent_sets.Aggregator.{member}
use agent_sets.Text.{join, Bytes, has_prefix, split, lit, replace_all, trim_prefix}
use agent_sets.Text.Trim.{trim_space, trim_left}

-- `strings.ReplaceAll` and `strings.TrimLeft` on one line of a summary
unfoldable pub clean_summary_line : Bytes → Bytes
unfolding trim_space has_prefix trim_left replace_all trim_prefix
clean_summary_line line =
    let trimmed = trim_space line in
    let content =
      if has_prefix trimmed (lit "#") then trim_space (trim_left trimmed b'#') else trimmed in
    let no_ticks = replace_all (replace_all content (lit "```") []) (lit "`") [] in
    let no_bold = replace_all (replace_all no_ticks (lit "**") []) (lit "__") [] in
    trim_prefix no_bold (lit "* ")

unfoldable pub clean_summary_markdown : Bytes → Bytes
unfolding clean_summary_line join split
clean_summary_markdown summary = join (map clean_summary_line (split summary b'\n')) (lit "\n")

-- the files that have no comment of the commit yet
unfoldable pub drop_existing : List Bytes → List MergedFileComment → List MergedFileComment
unfolding member
drop_existing known [] = []
drop_existing known (fc ∷ fcs) =
    let rest = drop_existing known fcs in if member fc.file_path known then rest else fc ∷ rest

unfoldable pub filter_existing_file_comments :
    List ReviewComment → List MergedFileComment → Bytes → List MergedFileComment
unfolding drop_existing existing_files
filter_existing_file_comments existing merged commit =
    drop_existing (existing_files existing commit) merged

module _ (visit : (V : Type 0) → List (Bytes × V) → List (Bytes × V)) (v : CommentValidator) where
  -- a comment that is posted: a general one, or one on a line of the diff
  unfoldable pub passes : ReviewComment → Bool
  unfolding is_empty is_valid
  passes c = is_empty c.file || eqb_ℤ c.line (pos 0) || is_valid visit v c.file c.line

  -- the valid and the invalid comments
  unfoldable pub validate_comments : List ReviewComment → List ReviewComment × List ReviewComment
  unfolding passes
  validate_comments [] = ([], [])
  validate_comments (c ∷ cs) =
      let rest = validate_comments cs in
      if passes c then (c ∷ rest.0, rest.1) else (rest.0, c ∷ rest.1)
