-- ===== src/Processor/Posting/Calls.antt =====
-- The calls that post the comments of a review: pr_comment_poster.go, and `ProcessPullRequest` of
-- pr_processor.go. What a call answers changes nothing of what follows. The individual comments are
-- posted by goroutines of their own; they are listed in the order in which those are started.
pub mod Due
pub mod Known
pub mod Passed
use agent_sets.Prelude.{
  Bool, List, Option, [], false, if◌then◌else◌, map, none, some, true, ◌++◌, ◌∷◌,
}
use agent_sets.Prelude.Int.{ltb_ℤ, pos, ℤ}
use agent_sets.Validator.Answers.{file_in_diff, get_line_type}
use agent_sets.Processor.Merger.Format.{format_file_comment, format_summary_addons}
use agent_sets.Config.{CommentMergeConfig}
use agent_sets.Processor.Merger.{Sorting, merge, MergedFileComment}
use agent_sets.Processor.Markers.{summary_marker, individual_text}
use agent_sets.Processor.Existing.{
  existing_comments, has_existing_summary, PostedComment, filter_duplicates,
}
use agent_sets.Processor.Posting.{
  clean_summary_markdown, validate_comments, filter_existing_file_comments,
}
use agent_sets.Domain.{PullRequest, CaseMap, ReviewComment, ReviewResult, is_empty}
use agent_sets.Text.Number.{atoi}
use agent_sets.Validator.Parse.{LineType, added, CommentValidator, new_comment_validator}
use agent_sets.Text.{Bytes, itoa, lit}

-- The arguments of a call that adds a comment; `none` where one is not given.
pub record PostCall : Type 0 where
  pub project_key : Bytes
  pub repo_slug : Bytes
  pub pull_request_id : ℤ
  pub comment_text : Bytes
  pub file_path : Option Bytes
  pub line_type : Option LineType
  pub line_number : Option Bytes

unfoldable pub pull_request_id : PullRequest → ℤ
unfolding atoi
pull_request_id pr = (atoi pr.id).0

abbrev pub general_call : PullRequest → Bytes → PostCall
general_call pr text = record {
  project_key = pr.project_key;
  repo_slug = pr.repo_slug;
  pull_request_id = pull_request_id pr;
  comment_text = text;
  file_path = none;
  line_type = none;
  line_number = none;
}

unfoldable pub or_added : Option LineType → LineType
or_added none = added
or_added (some t) = t

unfoldable pub summary_text : ReviewResult → Bytes → Bytes → Bytes
unfolding clean_summary_markdown summary_marker itoa
summary_text review commit addons =
    summary_marker commit
    ++ (lit "\n\n**AI Review Summary (Model: "
        ++ (review.model
            ++ (lit ")**\nScore: "
                ++ (itoa review.score
                    ++ (lit "\n\n"
                        ++ (clean_summary_markdown review.summary
                            ++ (addons
                                ++ (lit "\n---\n*Automatically generated by "
                                    ++ (review.model ++ lit "*")))))))))

-- How the library sorts, visits and changes case, and the settings.
pub record Setting : Type 1 where
  pub case : CaseMap
  pub lib : Sorting
  pub merging : CommentMergeConfig

module _ (s : Setting) (pr : PullRequest) (v : CommentValidator) where
  unfoldable pub file_call : Bytes → MergedFileComment → PostCall
  unfolding format_file_comment is_empty file_in_diff
  file_call model fc =
      let named : MergedFileComment = record fc { model_name = model } in
      let call = general_call pr (format_file_comment s.case pr.web_url named) in
      if is_empty fc.file_path then call else record call {
        file_path = some fc.file_path;
        line_type = if file_in_diff s.lib.visit v fc.file_path then some added else none;
      }

  unfoldable pub individual_call : ReviewComment → PostCall
  unfolding individual_text is_empty get_line_type or_added itoa
  individual_call c =
      let call = general_call pr (individual_text c pr.latest_commit) in
      if is_empty c.file then call else record call {
        file_path = some c.file;
        line_type = some (or_added (get_line_type s.lib.visit v c.file c.line));
        line_number = if ltb_ℤ (pos 0) c.line then some (itoa c.line) else none;
      }

  -- `none` is the error for an id that is no number.
  unfoldable pub post_individual_comments : List ReviewComment → Option (List PostCall)
  unfolding individual_call atoi
  post_individual_comments comments =
      if (atoi pr.id).1 then some (map individual_call comments) else none

  -- the comments that stay alone; an error is logged only
  unfoldable pub post_alone : List ReviewComment → List PostCall
  unfolding post_individual_comments
  post_alone [] = []
  post_alone (c ∷ cs) = elim (post_individual_comments (c ∷ cs)) [ some calls ↦ calls | none ↦ [] ]

  unfoldable pub post_summary : ReviewResult → List ReviewComment → Bytes → List PostCall
  unfolding has_existing_summary summary_text
  post_summary review existing addons =
      if has_existing_summary existing pr.latest_commit
      then []
      else general_call pr (summary_text review pr.latest_commit addons) ∷ []

  unfoldable pub post_merged_comments : ReviewResult → List ReviewComment → List PostCall
  unfolding merge filter_existing_file_comments file_call post_alone filter_duplicates post_summary
      format_summary_addons
  post_merged_comments review existing =
      let result = merge s.case s.lib s.merging review.comments pr.latest_commit in
      map (file_call review.model)
        (filter_existing_file_comments existing result.file_comments pr.latest_commit)
      ++ (post_alone (filter_duplicates s.case result.not_merged existing)
          ++ post_summary review existing
              (format_summary_addons s.lib pr.web_url result.summary_addons))

  unfoldable pub post_by : Bool → ReviewResult → List ReviewComment → Option (List PostCall)
  unfolding post_merged_comments post_individual_comments
  post_by true review existing = some (post_merged_comments review existing)
  post_by false review existing = post_individual_comments review.comments

  unfoldable pub post_comments : ReviewResult → List ReviewComment → Option (List PostCall)
  unfolding post_by
  post_comments review existing = post_by s.merging.merge_enabled review existing

  -- the review that is left to post
  unfoldable pub left_to_post : ReviewResult → List ReviewComment → ReviewResult
  unfolding validate_comments filter_duplicates
  left_to_post review existing = record review {
    comments =
        filter_duplicates s.case (validate_comments s.lib.visit v review.comments).0 existing;
  }

-- What is asked of the server and the reviewer before: the comments that were posted, the review, and
-- the diff, which is empty if it could not be fetched.
unfoldable pub process_pull_request :
    Setting
    → PullRequest
    → List PostedComment
    → Option ReviewResult
    → Bytes
    → Option (List PostCall)
unfolding post_comments left_to_post existing_comments new_comment_validator
process_pull_request s pr posted none diff = none
process_pull_request s pr posted (some review) diff =
    let existing = existing_comments posted in
    let v = new_comment_validator diff in
    post_comments s pr v (left_to_post s pr v review existing) existing
