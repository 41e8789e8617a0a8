-- ===== src/Processor/Posting/Calls/Due.antt =====
-- What is due to be posted of a review, and where: the description that the calls are held against.
use agent_sets.Prelude.{
  All, Bool-cases, List, Option, [], ap, filter, if◌then◌else◌, inl, inr, map, none, not, refl,
  some, ◌&&◌, ◌++◌, ◌∷◌, ◌≡◌,
}
use agent_sets.Prelude.Int.{ltb_ℤ, pos}
use agent_sets.Processor.Posting.Calls.Passed.{OnDiff, IsNew, is_new, is_new_file, on_diff}
use agent_sets.Processor.Merger.Format.{format_summary_addons}
use agent_sets.Text.Number.{atoi}
use agent_sets.Processor.Existing.{has_existing_summary, existing_files}
use agent_sets.Validator.Parse.{CommentValidator}
use agent_sets.Processor.Merger.{merge, MergedFileComment, MergeResult}
use agent_sets.Processor.Posting.Calls.{
  Setting, PostCall, file_call, individual_call, general_call, summary_text,
}
use agent_sets.Domain.{ReviewComment, PullRequest, ReviewResult, is_empty}
use agent_sets.Text.{Bytes, itoa}

module _ (s : Setting) (pr : PullRequest) (existing : List ReviewComment)
    (v : CommentValidator) where
  -- a comment that may be posted on its own
  abbrev pub Postable : ReviewComment → Type 0
  Postable c = OnDiff s.lib.visit v c × IsNew s.case existing c

  -- Where a call puts its comment: the file and the line.
  abbrev pub place : PostCall → Option Bytes × Option Bytes
  place call = (call.file_path, call.line_number)

  abbrev pub file_place : MergedFileComment → Option Bytes × Option Bytes
  file_place fc = (if is_empty fc.file_path then none else some fc.file_path, none)

  abbrev pub own_place : ReviewComment → Option Bytes × Option Bytes
  own_place c =
      if is_empty c.file
      then (none, none)
      else (some c.file, if ltb_ℤ (pos 0) c.line then some (itoa c.line) else none)

  -- the summary that is due: one general comment, if comments are merged and none is known of the commit
  abbrev pub due_summary : ReviewResult → List ReviewComment → List PostCall
  due_summary review addons =
      if s.merging.merge_enabled && not (has_existing_summary existing pr.latest_commit)
      then general_call pr
          (summary_text review pr.latest_commit (format_summary_addons s.lib pr.web_url addons))
        ∷ []
      else []

  -- The comments of a review that are left: those that may stand on the diff and are new.
  abbrev pub left_of : List ReviewComment → List ReviewComment
  left_of comments = filter (is_new s.case existing) (filter (on_diff s.lib.visit v) comments)

  abbrev pub merged : List ReviewComment → MergeResult
  merged left = merge s.case s.lib s.merging left pr.latest_commit

  -- the comments that are posted on their own, if the id is a number
  abbrev pub alone_of : List ReviewComment → List ReviewComment
  alone_of left =
      if (atoi pr.id).1
      then (if s.merging.merge_enabled
          then filter (is_new s.case existing) (merged left).not_merged
          else left)
      else []

  -- Calls that post the merged files that are not known, the comments on their own, and the summary that is
  -- due, of the comments that are left.
  pub record Posted (review : ReviewResult) (left : List ReviewComment) (calls : List PostCall)
      : Type 0 where
    pub files : List MergedFileComment
    pub alone : List ReviewComment
    pub new_files :
        files
        ≡ filter
            (is_new_file (existing_files existing pr.latest_commit))
            (merged left).file_comments
    pub all_alone : alone ≡ alone_of left
    pub postable : All Postable alone
    pub postable_addons : All Postable (merged left).summary_addons
    pub whole :
        calls
        ≡ map (file_call s pr v review.model) files
          ++ (map (individual_call s pr v) alone ++ due_summary review (merged left).summary_addons)
    pub file_places : map place (map (file_call s pr v review.model) files) ≡ map file_place files
    pub own_places : map place (map (individual_call s pr v) alone) ≡ map own_place alone

  pub file_call-place :
      (model : Bytes) (files : List MergedFileComment)
      → map place (map (file_call s pr v model) files) ≡ map file_place files
  unfolding file_call
  file_call-place model [] = refl
  file_call-place model (fc ∷ files) = elim (Bool-cases (is_empty fc.file_path)) [
    | inl e ↦ rw e (
        ap (λ (ps : List (Option Bytes × Option Bytes)). (none, none) ∷ ps)
          (file_call-place model files))
    | inr e ↦ rw e (
        ap (λ (ps : List (Option Bytes × Option Bytes)). (some fc.file_path, none) ∷ ps)
          (file_call-place model files))
  ]

  pub individual_call-place :
      (cs : List ReviewComment) → map place (map (individual_call s pr v) cs) ≡ map own_place cs
  unfolding individual_call
  individual_call-place [] = refl
  individual_call-place (c ∷ cs) = elim (Bool-cases (is_empty c.file)) [
    | inl e ↦ rw e (
        ap (λ (ps : List (Option Bytes × Option Bytes)). (none, none) ∷ ps)
          (individual_call-place cs))
    | inr e ↦ rw e (
        ap
          (λ (ps : List (Option Bytes × Option Bytes)).
            (some c.file, if ltb_ℤ (pos 0) c.line then some (itoa c.line) else none) ∷ ps)
          (individual_call-place cs))
  ]
