-- ===== src/Aggregator.antt =====
-- internal/aggregator/result_aggregator.go
pub mod Unique
pub mod Score
pub mod Report
use agent_sets.Prelude.{
  Bool, List, Option, [], false, if◌then◌else◌, length, ltb, none, some, total, ℕ, ◌++◌, ◌||◌, ◌∷◌,
}
use agent_sets.Prelude.Int.{pos, quot, ℤ, ◌+ℤ◌}
use agent_sets.Text.{Bytes, lit, equal, itoa, warning_sign}
use agent_sets.Domain.{CaseMap, ReviewComment, ReviewResult, fingerprint, is_empty}

pub record ChunkReviewResult : Type 0 where
  pub chunk_id : ℤ
  pub total_chunks : ℤ
  pub comments : List ReviewComment
  pub score : ℤ
  pub summary : Bytes
  pub error : Option Bytes

-- The slices that the loop of `Aggregate` appends to.
pub record Tally : Type 0 where
  pub all_comments : List ReviewComment
  pub valid_scores : List ℤ
  pub summaries : List Bytes
  pub errors : List Bytes

abbrev pub no_tally : Tally
no_tally = record { all_comments = []; valid_scores = []; summaries = []; errors = [] }

-- `fmt.Sprintf("Chunk %d: %v", …)` and `fmt.Sprintf("[Chunk %d/%d] %s", …)`
unfoldable pub error_line : ChunkReviewResult → Bytes → Bytes
error_line r e = lit "Chunk " ++ (itoa r.chunk_id ++ (lit ": " ++ e))

unfoldable pub summary_line : ChunkReviewResult → Bytes
summary_line r =
    lit "[Chunk "
    ++ (itoa r.chunk_id ++ (lit "/" ++ (itoa r.total_chunks ++ (lit "] " ++ r.summary))))

-- one round of the loop
unfoldable pub tally_one : Tally → ChunkReviewResult → Option Bytes → Tally
unfolding is_empty
tally_one t r (some e) = record t { errors = t.errors ++ error_line r e ∷ [] }
tally_one t r none = record t {
  all_comments = t.all_comments ++ r.comments;
  valid_scores = t.valid_scores ++ r.score ∷ [];
  summaries = if is_empty r.summary then t.summaries else t.summaries ++ summary_line r ∷ [];
}

unfoldable pub tally : Tally → List ChunkReviewResult → Tally
unfolding tally_one
tally t [] = t
tally t (r ∷ rs) = tally (tally_one t r r.error) rs

-- `map[string]bool`: the keys that are set.
unfoldable pub member : Bytes → List Bytes → Bool
member k [] = false
member k (j ∷ js) = equal k j || member k js

module _ (u : CaseMap) where
  unfoldable pub dedupe_from : List Bytes → List ReviewComment → List ReviewComment
  dedupe_from seen [] = []
  dedupe_from seen (c ∷ cs) =
      let key = fingerprint u c in
      let rest = dedupe_from (if member key seen then seen else key ∷ seen) cs in
      if member key seen then rest else c ∷ rest

  unfoldable pub deduplicate_comments : List ReviewComment → List ReviewComment
  unfolding dedupe_from
  deduplicate_comments = dedupe_from []

unfoldable pub sum_scores : ℤ → List ℤ → ℤ
sum_scores total [] = total
sum_scores total (s ∷ ss) = sum_scores (total +ℤ s) ss

unfoldable pub average : List ℤ → ℤ
unfolding sum_scores
average scores =
    if ltb 0 (length scores) then quot (sum_scores (pos 0) scores) (length scores) else pos 0

-- `fmt.Sprintf("- %s\n", s)` for each entry
unfoldable pub bullets : List Bytes → Bytes
bullets [] = []
bullets (s ∷ ss) = lit "- " ++ (s ++ (lit "\n" ++ bullets ss))

-- what the builder holds before the summaries are looked at
unfoldable pub report_head : List Bytes → ℕ → Bytes
unfolding bullets
report_head errors total_chunks =
    (if ltb 1 total_chunks
      then lit "**Reviewed in " ++ (itoa (pos total_chunks) ++ lit " chunks**\n\n")
      else [])
    ++ (if ltb 0 (length errors)
        then warning_sign
          ++ (lit " **Partial Review** (some chunks failed):\n" ++ (bullets errors ++ lit "\n"))
        else [])

unfoldable pub combine_summaries : List Bytes → List Bytes → ℕ → Bytes
unfolding report_head
combine_summaries [] errors total_chunks =
    report_head errors total_chunks ++ lit "No detailed summary available."
combine_summaries (s ∷ []) errors total_chunks = s
combine_summaries (s ∷ s' ∷ ss) errors total_chunks =
    report_head errors total_chunks ++ (lit "**Summary by section:**\n" ++ bullets (s ∷ s' ∷ ss))

unfoldable pub aggregate : CaseMap → List ChunkReviewResult → ReviewResult
unfolding tally deduplicate_comments average combine_summaries
aggregate u [] = record {
  comments = [];
  score = pos 0;
  summary = lit "No review results available.";
  model = [];
}
aggregate u (r ∷ rs) =
    let t = tally no_tally (r ∷ rs) in
    record {
      comments = deduplicate_comments u t.all_comments;
      score = average t.valid_scores;
      summary = combine_summaries t.summaries t.errors (length (r ∷ rs));
      model = [];
    }
