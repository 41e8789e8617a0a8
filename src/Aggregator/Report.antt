-- ===== src/Aggregator/Report.antt =====
-- What the loop of `Aggregate` collects, and what reaches the result.
use agent_sets.Prelude.{
  List, Option, [], ap, append-nil, append_assoc, arith, if◌then◌else◌, length, none, refl, some,
  sym, ◌++◌, ◌∙◌, ◌∷◌, ◌≡◌,
}
use agent_sets.Prelude.Int.{ℤ}
use agent_sets.Text.{Bytes}
use agent_sets.Domain.{CaseMap, ReviewComment, is_empty}
use agent_sets.Aggregator.{
  ChunkReviewResult, Tally, no_tally, error_line, summary_line, tally_one, tally, average,
  deduplicate_comments, combine_summaries, aggregate,
}

-- Failed chunks give a line each to the errors, reviewed chunks all the rest.
abbrev pub error_lines : Option Bytes → ChunkReviewResult → List Bytes
error_lines none r = []
error_lines (some e) r = error_line r e ∷ []

abbrev when_reviewed {ℓ} : {A : Type ℓ} → Option Bytes → List A → List A
when_reviewed none xs = xs
when_reviewed (some e) xs = []

abbrev pub summary_lines : ChunkReviewResult → List Bytes
summary_lines r = if is_empty r.summary then [] else summary_line r ∷ []

abbrev pub comments_of : List ChunkReviewResult → List ReviewComment
comments_of [] = []
comments_of (r ∷ rs) = when_reviewed r.error r.comments ++ comments_of rs

abbrev pub scores_of : List ChunkReviewResult → List ℤ
scores_of [] = []
scores_of (r ∷ rs) = when_reviewed r.error (r.score ∷ []) ++ scores_of rs

abbrev pub summaries_of : List ChunkReviewResult → List Bytes
summaries_of [] = []
summaries_of (r ∷ rs) = when_reviewed r.error (summary_lines r) ++ summaries_of rs

abbrev pub errors_of : List ChunkReviewResult → List Bytes
errors_of [] = []
errors_of (r ∷ rs) = error_lines r.error r ++ errors_of rs

-- a tally with more of everything behind it
abbrev plus : Tally → List ChunkReviewResult → Tally
plus t rs = record {
  all_comments = t.all_comments ++ comments_of rs;
  valid_scores = t.valid_scores ++ scores_of rs;
  summaries = t.summaries ++ summaries_of rs;
  errors = t.errors ++ errors_of rs;
}

-- Appending the part of one chunk, as its error says.
grow {ℓ} :
    {A : Type ℓ} (xs ys zs : List A) {o e : Option Bytes}
    → o ≡ e
    → (xs ++ when_reviewed e ys) ++ zs ≡ xs ++ (when_reviewed o ys ++ zs)
grow xs ys zs {e = e} h =
    append_assoc xs (when_reviewed e ys) zs
    ∙ ap (λ (o : Option Bytes). xs ++ (when_reviewed o ys ++ zs)) (sym h)

keep {ℓ} : {A : Type ℓ} (xs : List A) → xs ≡ xs ++ []
keep xs = sym (append-nil xs)

summaries-grow :
    (xs : List Bytes) (r : ChunkReviewResult)
    → (if is_empty r.summary then xs else xs ++ summary_line r ∷ []) ≡ xs ++ summary_lines r
summaries-grow xs r = ground (arith, append-nil xs)

plus-tally_one :
    (t : Tally) (r : ChunkReviewResult) (rs : List ChunkReviewResult) (e : Option Bytes)
    → r.error ≡ e
    → plus (tally_one t r e) rs ≡ plus t (r ∷ rs)
unfolding tally_one
plus-tally_one t r rs none h = λ i. record {
  all_comments = grow t.all_comments r.comments (comments_of rs) h i;
  valid_scores = grow t.valid_scores (r.score ∷ []) (scores_of rs) h i;
  summaries =
      (ap (λ (l : List Bytes). l ++ summaries_of rs) (summaries-grow t.summaries r)
          ∙ grow t.summaries (summary_lines r) (summaries_of rs) h)
        i;
  errors = ap (λ (o : Option Bytes). t.errors ++ (error_lines o r ++ errors_of rs)) (sym h) i;
}
plus-tally_one t r rs (some e) h = λ i. record {
  all_comments =
      (ap (λ (l : List ReviewComment). l ++ comments_of rs) (keep t.all_comments)
          ∙ grow t.all_comments r.comments (comments_of rs) h)
        i;
  valid_scores =
      (ap (λ (l : List ℤ). l ++ scores_of rs) (keep t.valid_scores)
          ∙ grow t.valid_scores (r.score ∷ []) (scores_of rs) h)
        i;
  summaries =
      (ap (λ (l : List Bytes). l ++ summaries_of rs) (keep t.summaries)
          ∙ grow t.summaries (summary_lines r) (summaries_of rs) h)
        i;
  errors =
      (append_assoc t.errors (error_line r e ∷ []) (errors_of rs)
          ∙ ap (λ (o : Option Bytes). t.errors ++ (error_lines o r ++ errors_of rs)) (sym h))
        i;
}

tally-plus : (rs : List ChunkReviewResult) (t : Tally) → tally t rs ≡ plus t rs
unfolding tally
tally-plus [] t = λ i. record {
  all_comments = keep t.all_comments i;
  valid_scores = keep t.valid_scores i;
  summaries = keep t.summaries i;
  errors = keep t.errors i;
}
tally-plus (r ∷ rs) t = tally-plus rs (tally_one t r r.error) ∙ plus-tally_one t r rs r.error refl

-- Of the chunk results, those with an error count as errors only. The others give the comments,
-- which are deduplicated, the scores, whose mean is the score, and the summaries.
pub aggregate_parts :
    (u : CaseMap) (r : ChunkReviewResult) (rs : List ChunkReviewResult)
    → let all = r ∷ rs in
      let out = aggregate u all in
      (out.comments ≡ deduplicate_comments u (comments_of all))
      × (out.score ≡ average (scores_of all))
      × (out.summary ≡ combine_summaries (summaries_of all) (errors_of all) (length all))
unfolding aggregate
aggregate_parts u r rs =
    let e = tally-plus (r ∷ rs) no_tally in
    (
      ap (λ (t : Tally). deduplicate_comments u t.all_comments) e,
      ap (λ (t : Tally). average t.valid_scores) e,
      ap (λ (t : Tally). combine_summaries t.summaries t.errors (length (r ∷ rs))) e,
    )

-- Where one chunk alone has a summary, the summary of the review is its line: the failures of the
-- other chunks and the number of chunks are not reported.
pub aggregate_lone_summary :
    (u : CaseMap) (r : ChunkReviewResult) (rs : List ChunkReviewResult) (line : Bytes)
    → summaries_of (r ∷ rs) ≡ line ∷ []
    → (aggregate u (r ∷ rs)).summary ≡ line
unfolding combine_summaries
aggregate_lone_summary u r rs line h =
    (aggregate_parts u r rs).2
    ∙ ap (λ (l : List Bytes). combine_summaries l (errors_of (r ∷ rs)) (length (r ∷ rs))) h
