-- ===== src/Processor/Processing/Audit.antt =====
-- What the storage holds after a pull request was processed, and what was posted.

use agent_sets.Prelude.{
  All, Bool-cases, List, Option, [], ap, if◌then◌else◌, inl, inr, none, refl, some, ◌≡◌, ◌⊎◌,
}
use agent_sets.Processor.Posting.Calls.Due.{Postable, left_of}
use agent_sets.Text.Search.{equal_iff}
use agent_sets.Storage.Saved.Spec.{ReadsBack, save_review-get_review}
use agent_sets.Processor.Posting.Calls.Known.{left_to_post-All, left_to_post-left_of}
use agent_sets.Storage.Saved.{get_review, save_review}
use agent_sets.Processor.Existing.{
  fetch_existing_ai_comments, PostedComment, of_answer, existing_comments,
}
use agent_sets.Text.{Bytes, equal}
use agent_sets.Validator.Parse.{CommentValidator, new_comment_validator}
use agent_sets.Processor.Processing.{
  Instants, Outside, fetch_diff, after_save, process, audit_record, after_review, audit,
}
use agent_sets.Domain.{PullRequest, ReviewComment, ReviewResult}
use agent_sets.Storage.Database.{Database, IsLawful}
use agent_sets.Storage.{RecordJson, ReviewRecord, scanned, saved, unsaved, StorageError, Saving}
use agent_sets.Processor.Posting.Calls.{
  Setting, PostCall, post_comments, left_to_post, process_pull_request, pull_request_id,
}

-- What the server's answer holds.
abbrev answered : (Bytes → List PostedComment) → Option Bytes → List PostedComment
answered values_of none = []
answered values_of (some json) = values_of json

of_answer-answered :
    (values_of : Bytes → List PostedComment) (answer : Option Bytes)
    → of_answer values_of answer ≡ existing_comments (answered values_of answer)
unfolding of_answer existing_comments
of_answer-answered values_of none = refl
of_answer-answered values_of (some json) = refl

abbrev pub posted_before : Outside → PullRequest → List PostedComment
posted_before w pr =
    answered w.comments.values_of
      (w.comments.get_posted pr.project_key pr.repo_slug (pull_request_id pr))

module _ (s : Setting) (J : RecordJson) (D : Database) (L : IsLawful D) (pr : PullRequest)
    (at : Instants) (w : Outside) where
  -- The comments that were posted before, and the diff.
  abbrev pub known : List ReviewComment
  known = fetch_existing_ai_comments w.comments pr

  abbrev pub checked_on : CommentValidator
  checked_on = new_comment_validator (fetch_diff w pr)

  -- Under the id there is a record of the pull request that says what was posted: its result is the review
  -- with the comments that are left, each a general one or on the diff, and none of them known, and the calls
  -- post it.
  abbrev pub Audited : ReviewResult → Bytes → D.State → Option (List PostCall) → Type 0
  Audited review id t calls =
      (r : ReviewRecord) × (get_review J D id t ≡ scanned r)
      × (r.pull_request ≡ pr)
      × (r.result ≡ record review { comments = left_of s pr known checked_on review.comments })
      × All (Postable s pr known checked_on) r.result.comments
      × (calls ≡ post_comments s pr checked_on r.result known)

  -- Every other id has what it had.
  abbrev pub SameBut : Bytes → D.State → D.State → Type 0
  SameBut id before after =
      (j : Bytes)
      → get_review J D j after
        ≡ (if equal j id then get_review J D id after else get_review J D j before)

  SameBut-refl : (id : Bytes) (before : D.State) → SameBut id before before
  SameBut-refl id before j = elim (Bool-cases (equal j id)) [
    | inl d ↦ rw d (ap (λ (x : Bytes). get_review J D x before) ((equal_iff j id).0 d))
    | inr d ↦ rw d refl
  ]

  -- what the audit does to the storage
  abbrev pub Kept :
      ReviewResult → ReviewRecord → D.State → D.State → Option (List PostCall) → Type 0
  Kept review r before after calls =
      ((e : StorageError) × (save_review J D r before ≡ unsaved e) × (after ≡ before))
      ⊎ Audited review r.record_id after calls

  after_save-Kept :
      (review : ReviewResult) (before : D.State)
      → let left = left_to_post s pr checked_on review known in
        let r = audit_record pr left at in
        ReadsBack J r
        → (o : Saving D.State) → save_review J D r before ≡ o
        → SameBut r.record_id before (after_save s J D before o)
          × Kept review r before
              (after_save s J D before o)
              (post_comments s pr checked_on left known)
  unfolding after_save audit_record left_to_post
  after_save-Kept review before back (unsaved e) h = (SameBut-refl _ before, inl (e, h, refl))
  after_save-Kept review before back (saved t) h =
      let left = left_to_post s pr checked_on review known in
      let r = audit_record pr left at in
      let (found, taken) = save_review-get_review J D L r before t back h in
      let there : get_review J D r.record_id t ≡ scanned r =
        rw (found r.record_id, (equal_iff r.record_id r.record_id).1 refl) refl in
      (
        λ j. rw (found j, there) refl,
        inr (
          r,
          there,
          refl,
          ap (λ (cs : List ReviewComment). record review { comments = cs })
              (left_to_post-left_of s pr known checked_on review),
          left_to_post-All s pr known checked_on review,
          refl,
        ),
      )

  -- Over a database that keeps its laws, for a review that the reviewer gives and whose record
  -- encoding/json reads back: the calls are those of the same pull request without a storage. Either the
  -- record does not save and the storage is as before, or the storage has a record of the pull request under
  -- the id of the audit, and the calls are those that post its result: the review with those of its comments
  -- that have no file, or stand on line 0, or on a valid line of the diff, and whose fingerprint is not that of
  -- a comment that the program reads back from what was posted. Every other id has what it had.
  pub process-Kept :
      (before : D.State) (review : ReviewResult)
      → w.reviewer pr known ≡ some review
      → ReadsBack J (audit_record pr (left_to_post s pr checked_on review known) at)
      → let (store, calls) = process s J D pr at w (some before) in
        let r = audit_record pr (left_to_post s pr checked_on review known) at in
        (calls ≡ process_pull_request s pr (posted_before w pr) (some review) (fetch_diff w pr))
        × (after : D.State) × (store ≡ some after)
        × SameBut r.record_id before after
        × Kept review r before after calls
  unfolding process after_review audit process_pull_request fetch_existing_ai_comments
      pull_request_id
  process-Kept before review given back =
      let r = audit_record pr (left_to_post s pr checked_on review known) at in
      let (same, kept) = after_save-Kept review before back (save_review J D r before) refl in
      rw (process, given)
        (
          ap
              (λ (e : List ReviewComment).
                post_comments s pr checked_on (left_to_post s pr checked_on review e) e)
              (of_answer-answered w.comments.values_of
                (w.comments.get_posted pr.project_key pr.repo_slug (pull_request_id pr))),
          after_save s J D before (save_review J D r before),
          refl,
          same,
          kept,
        )
