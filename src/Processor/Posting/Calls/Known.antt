-- ===== src/Processor/Posting/Calls/Known.antt =====
-- What is posted: merged files, comments on their own, and a summary.
use agent_sets.Prelude.{
  All, All-map, Bool, Bool-cases, List, [], ap, append-nil, false, filter, if◌then◌else◌, inl, inr,
  map, none-ne-some, refl, some, some-inj, subst, sym, true, ◌++◌, ◌∙◌, ◌∷◌, ◌≡◌,
}
use agent_sets.Processor.Posting.Calls.Due.{
  Postable, left_of, due_summary, merged, Posted, file_call-place, individual_call-place,
}
use mathlib.Core.Path.{ap₂}
use agent_sets.Processor.Posting.Calls.Passed.{
  OnDiff, filter_duplicates-All, merge-All, validate_comments-All, is_new, filter_duplicates-filter,
  drop_existing-filter, validate_comments-filter,
}
use agent_sets.Processor.Merger.Format.{format_summary_addons}
use agent_sets.Text.Number.{atoi}
use agent_sets.Processor.Existing.{
  filter_duplicates, has_existing_summary, existing_files, PostedComment, existing_comments,
}
use agent_sets.Validator.Parse.{CommentValidator, new_comment_validator}
use agent_sets.Processor.Merger.{merge}
use agent_sets.Processor.Posting.Calls.{
  Setting, PostCall, left_to_post, post_alone, post_summary, post_individual_comments, file_call,
  individual_call, post_merged_comments, post_comments, process_pull_request, post_by, summary_text,
}
use agent_sets.Processor.Posting.{validate_comments, filter_existing_file_comments}
use agent_sets.Domain.{ReviewComment, PullRequest, ReviewResult}
use agent_sets.Text.{Bytes}

module _ (s : Setting) (pr : PullRequest) (existing : List ReviewComment)
    (v : CommentValidator) where
  pub left_to_post-All :
      (review : ReviewResult)
      → All (Postable s pr existing v) (left_to_post s pr v review existing).comments
  unfolding left_to_post
  left_to_post-All review =
      filter_duplicates-All (OnDiff s.lib.visit v) s.case
        (validate_comments s.lib.visit v review.comments).0 existing
        (validate_comments-All s.lib.visit v review.comments)

  pub left_to_post-left_of :
      (review : ReviewResult)
      → (left_to_post s pr v review existing).comments ≡ left_of s pr existing v review.comments
  unfolding left_to_post
  left_to_post-left_of review =
      filter_duplicates-filter s.case (validate_comments s.lib.visit v review.comments).0 existing
      ∙ ap (filter (is_new s.case existing))
          (validate_comments-filter s.lib.visit v review.comments)

  abbrev numbered : List ReviewComment → List ReviewComment
  numbered cs = if (atoi pr.id).1 then cs else []

  post_alone-numbered :
      (cs : List ReviewComment) → post_alone s pr v cs ≡ map (individual_call s pr v) (numbered cs)
  unfolding post_alone post_individual_comments
  post_alone-numbered [] = elim (Bool-cases (atoi pr.id).1) [
    | inl e ↦ rw e refl
    | inr e ↦ rw e refl
  ]
  post_alone-numbered (c ∷ cs) = elim (Bool-cases (atoi pr.id).1) [
    | inl e ↦ rw (post_alone, post_individual_comments, e) refl
    | inr e ↦ rw (post_alone, post_individual_comments, e) refl
  ]

  numbered-All :
      (cs : List ReviewComment)
      → All (Postable s pr existing v) cs
      → All (Postable s pr existing v) (numbered cs)
  numbered-All cs h = elim (Bool-cases (atoi pr.id).1) [ inl e ↦ rw e h | inr e ↦ rw e tt ]

  post_summary_due :
      (review : ReviewResult) (addons : List ReviewComment)
      → s.merging.merge_enabled ≡ true
      → post_summary s pr v review existing (format_summary_addons s.lib pr.web_url addons)
        ≡ due_summary s pr existing v review addons
  unfolding post_summary
  post_summary_due review addons on =
      elim (Bool-cases (has_existing_summary existing pr.latest_commit)) [
        | inl e ↦ rw (e, on) refl
        | inr e ↦ rw (e, on) refl
      ]

  post_merged_comments-Posted :
      (review : ReviewResult)
      → s.merging.merge_enabled ≡ true
      → All (Postable s pr existing v) review.comments
      → Posted s pr existing v review review.comments (post_merged_comments s pr v review existing)
  unfolding post_merged_comments filter_existing_file_comments
  post_merged_comments-Posted review on h =
      let result = merged s pr existing v review.comments in
      let files = filter_existing_file_comments existing result.file_comments pr.latest_commit in
      let lone = filter_duplicates s.case result.not_merged existing in
      let (kept, added) =
        merge-All (Postable s pr existing v) s.case s.lib s.merging review.comments pr.latest_commit
          h in
      let again =
        filter_duplicates-All (Postable s pr existing v) s.case result.not_merged existing kept in
      record {
        files = files;
        alone = numbered lone;
        new_files =
            drop_existing-filter (existing_files existing pr.latest_commit) result.file_comments;
        all_alone =
            ap numbered (filter_duplicates-filter s.case result.not_merged existing)
            ∙ ap
                (λ (b : Bool). numbered (
                  if b then filter (is_new s.case existing) result.not_merged else review.comments))
                (sym on);
        postable = numbered-All lone (All-map lone (λ c p. p.0) again);
        postable_addons = added;
        whole =
            ap₂ (λ (a b : List PostCall). map (file_call s pr v review.model) files ++ (a ++ b))
              (post_alone-numbered lone) (post_summary_due review result.summary_addons on);
        file_places = file_call-place s pr existing v review.model files;
        own_places = individual_call-place s pr existing v (numbered lone);
      }

  -- Without merging there are no files, and nothing is added to a summary.
  nothing_merged :
      (left : List ReviewComment)
      → s.merging.merge_enabled ≡ false
      → merged s pr existing v left
        ≡ record { file_comments = []; summary_addons = []; not_merged = [] }
  unfolding merge
  nothing_merged left off = rw off refl

  post_individual_comments-Posted :
      (review : ReviewResult) (calls : List PostCall)
      → s.merging.merge_enabled ≡ false
      → All (Postable s pr existing v) review.comments
      → post_individual_comments s pr v review.comments ≡ some calls
      → Posted s pr existing v review review.comments calls
  unfolding post_individual_comments
  post_individual_comments-Posted review calls off h e = elim (Bool-cases (atoi pr.id).1) [
    | inr d ↦ absurd (none-ne-some calls (rw (post_individual_comments, d) at e))
    | inl d ↦
        let cs = review.comments in
        let same : map (individual_call s pr v) cs ≡ calls =
          some-inj _ calls (rw (post_individual_comments, d) at e) in
        let none_merged = nothing_merged cs off in
        let none_due : due_summary s pr existing v review (merged s pr existing v cs).summary_addons
            ≡ [] =
          rw off refl in
        record {
          files = [];
          alone = cs;
          new_files = rw none_merged refl;
          all_alone = rw (d, off) refl;
          postable = h;
          postable_addons = rw none_merged tt;
          whole =
              sym same
              ∙ sym (append-nil (map (individual_call s pr v) cs))
              ∙ ap (λ (b : List PostCall). map (individual_call s pr v) cs ++ b) (sym none_due);
          file_places = refl;
          own_places = individual_call-place s pr existing v cs;
        }
  ]

  post_by-Posted :
      (by_merging : Bool) (review : ReviewResult) (calls : List PostCall)
      → s.merging.merge_enabled ≡ by_merging
      → All (Postable s pr existing v) review.comments
      → post_by s pr v by_merging review existing ≡ some calls
      → Posted s pr existing v review review.comments calls
  unfolding post_by
  post_by-Posted true review calls on h e =
      subst (Posted s pr existing v review review.comments) (some-inj _ calls e)
        (post_merged_comments-Posted review on h)
  post_by-Posted false review calls off h e = post_individual_comments-Posted review calls off h e

  -- The summary has nothing of the comments of the review itself.
  Posted-review :
      (review : ReviewResult) (cs left : List ReviewComment) (calls : List PostCall)
      → Posted s pr existing v (record review { comments = cs }) left calls
      → Posted s pr existing v review left calls
  unfolding summary_text
  Posted-review review cs left calls h = record {
    files = h.files;
    alone = h.alone;
    new_files = h.new_files;
    all_alone = h.all_alone;
    postable = h.postable;
    postable_addons = h.postable_addons;
    whole = h.whole;
    file_places = h.file_places;
    own_places = h.own_places;
  }

-- What is left of a review are its comments that have no file, or stand on line 0, or on a valid line of
-- the diff, and whose fingerprint is not that of a comment that the program reads back from what was
-- posted. Where the processing of a pull request comes to calls, they post, in this order: the files that
-- what is left is merged to, but for those with a comment of the commit that is read back, each in its file
-- and on no line; the comments that the merging leaves alone, or all that is left if nothing is merged, each
-- at its file and line where it has them, and none of them if the id is no number; and, just when comments
-- are merged and no summary of the commit is read back, the summary as one general comment.
pub process_pull_request-Posted :
    (s : Setting) (pr : PullRequest) (posted : List PostedComment) (review : ReviewResult)
    (diff : Bytes) (calls : List PostCall)
    → process_pull_request s pr posted (some review) diff ≡ some calls
    → let existing = existing_comments posted in
      let v = new_comment_validator diff in
      Posted s pr existing v review (left_of s pr existing v review.comments) calls
unfolding process_pull_request left_to_post post_comments
process_pull_request-Posted s pr posted review diff calls e =
    let existing = existing_comments posted in
    let v = new_comment_validator diff in
    let left = left_to_post s pr v review existing in
    Posted-review s pr existing v review left.comments _ calls (
      subst (λ (cs : List ReviewComment). Posted s pr existing v left cs calls)
        (left_to_post-left_of s pr existing v review)
        (post_by-Posted s pr existing v s.merging.merge_enabled left calls refl
          (left_to_post-All s pr existing v review) e))
