-- ===== src/Processor/Processing.antt =====
-- `ProcessPullRequest` and `fetchDiff` of pr_processor.go: what is asked of the server and of the
-- reviewer, the record that is kept for an audit, and the calls. The server, gjson, encoding/json, the
-- database and the clock are parameters; the time limit of a save is one of the reasons why it fails.
pub mod Audit
use agent_sets.Prelude.{List, Option, [], if◌then◌else◌, none, some, ℕ, ◌++◌}
use agent_sets.Prelude.Int.{ℤ}
use agent_sets.Validator.Parse.{new_comment_validator}
use agent_sets.Storage.Saved.{save_review}
use agent_sets.Storage.Database.{Database}
use agent_sets.Processor.Posting.Calls.{Setting, left_to_post, post_comments, PostCall}
use agent_sets.Domain.{PullRequest, is_empty, ReviewResult, ReviewComment}
use agent_sets.Text.Number.{atoi}
use agent_sets.Text.{Bytes, itoa, has_prefix, lit}
use agent_sets.Processor.Existing.{CommentServer, fetch_existing_ai_comments}
use agent_sets.Pipeline.Stages.{tool_failed, tool_result, ToolReply, tool_text, tool_data}
use agent_sets.Storage.{saved, unsaved, RecordJson, ReviewRecord, Saving}

-- What gjson finds at a path of a text, `none` where nothing exists; `String()` of nothing is empty.
pub record Outside : Type 0 where
  pub comments : CommentServer
  pub get_diff : (project slug : Bytes) → (pull_request : ℤ) → ToolReply
  pub found_at : Bytes → Bytes → Option Bytes
  pub reviewer : PullRequest → List ReviewComment → Option ReviewResult

-- What the clock shows while the record is made.
pub record Instants : Type 0 where
  pub unix_nano : ℤ
  pub made_at : ℕ
  pub since_start : ℤ

unfoldable pub string_of : Option Bytes → Bytes
string_of none = []
string_of (some s) = s

module _ (found : Bytes → Bytes → Option Bytes) where
  -- the text of an answer that is not a string
  unfoldable pub text_of_data : Bytes → Bytes
  unfolding string_of is_empty
  text_of_data json =
      let text = string_of (found json (lit "content.0.text")) in
      if is_empty text then string_of (found json (lit "output")) else text

  -- a text that holds the diff in a field
  unfoldable pub diff_field : Bytes → Bytes
  unfolding has_prefix
  diff_field text =
      if has_prefix text (lit "{")
      then elim (found text (lit "diff")) [ none ↦ text | some diff ↦ diff ]
      else text

  unfoldable pub diff_of_reply : ToolReply → Bytes
  unfolding text_of_data diff_field
  diff_of_reply (tool_failed err) = []
  diff_of_reply (tool_result (tool_text s)) = s
  diff_of_reply (tool_result (tool_data none)) = []
  diff_of_reply (tool_result (tool_data (some json))) = diff_field (text_of_data json)

unfoldable pub fetch_diff : Outside → PullRequest → Bytes
unfolding diff_of_reply atoi
fetch_diff w pr = diff_of_reply w.found_at (w.get_diff pr.project_key pr.repo_slug (atoi pr.id).0)

unfoldable pub audit_id : PullRequest → ℤ → Bytes
unfolding itoa
audit_id pr nanos =
    pr.project_key ++ (lit "-" ++ (pr.repo_slug ++ (lit "-" ++ (pr.id ++ (lit "-" ++ itoa nanos)))))

unfoldable pub audit_record : PullRequest → ReviewResult → Instants → ReviewRecord
unfolding audit_id
audit_record pr review at = record {
  record_id = audit_id pr at.unix_nano;
  pull_request = pr;
  result = review;
  created_at = at.made_at;
  duration_ms = at.since_start;
  status = lit "success";
}

module _ (s : Setting) (J : RecordJson) (D : Database) where
  -- An error of the save is only logged.
  unfoldable pub after_save : D.State → Saving D.State → D.State
  after_save before (saved after) = after
  after_save before (unsaved e) = before

  -- `none` is a processor without storage.
  unfoldable pub audit : ReviewRecord → Option D.State → Option D.State
  unfolding after_save save_review
  audit r none = none
  audit r (some before) = some (after_save before (save_review J D r before))

  module _ (pr : PullRequest) (at : Instants) where
    unfoldable pub after_review :
        List ReviewComment
        → Bytes
        → Option ReviewResult
        → Option D.State
        → Option D.State × Option (List PostCall)
    unfolding left_to_post audit audit_record post_comments new_comment_validator
    after_review existing diff none store = (store, none)
    after_review existing diff (some review) store =
        let v = new_comment_validator diff in
        let left = left_to_post s pr v review existing in
        (audit (audit_record pr left at) store, post_comments s pr v left existing)

    -- `ProcessPullRequest`, with the storage behind it; `none` is an error.
    unfoldable pub process : Outside → Option D.State → Option D.State × Option (List PostCall)
    unfolding after_review fetch_existing_ai_comments fetch_diff
    process w store =
        let existing = fetch_existing_ai_comments w.comments pr in
        after_review existing (fetch_diff w pr) (w.reviewer pr existing) store
