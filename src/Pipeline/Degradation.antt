-- ===== src/Pipeline/Degradation.antt =====
-- pipeline/degradation.go. The review is a parameter that is told the number of the call.
pub mod Limits
use agent_sets.Prelude.{
  Bool, List, [], false, if◌then◌else◌, leb, length, ltb, map, take, total, ℕ, ◌&&◌, ◌*◌, ◌++◌, ◌+◌,
  ◌-◌, ◌/◌, ◌||◌, ◌∷◌,
}
use agent_sets.Prelude.Int.{ltb_ℤ, pos, pos_part, ℤ, ◌+ℤ◌}
use agent_sets.Pipeline.Chunks.{review_chunked}
use agent_sets.Pipeline.Types.{
  reviewed, review_failed, FileContent, change_tokens, estimate_prompt_tokens, Call, FileChange,
  Reviewed,
}
use agent_sets.Text.{Bytes, contains, split, digits, lit, join}

pub record DegradationManager : Type 0 where
  pub l1_context_lines : ℤ
  pub l2_chunk_by_file : Bool
  pub l3_diff_only : Bool
  pub max_tokens : ℕ
  pub chunks : Bool  -- whether there is a chunk reviewer; it has the same limit

-- The error's text is what `isTimeoutError` looks at.
unfoldable pub is_timeout_error : Bytes → Bool
unfolding contains
is_timeout_error err =
    contains err (lit "context deadline exceeded") || contains err (lit "timeout")

-- Twice the lines, a product that can wrap around.
unfoldable pub line_limit : DegradationManager → ℕ
unfolding ◌+ℤ◌
line_limit dm =
    let limit = dm.l1_context_lines +ℤ dm.l1_context_lines in
    if ltb_ℤ limit (pos 100) then 100 else pos_part limit

unfoldable pub truncate_file : ℕ → FileContent → FileContent
unfolding split join digits
truncate_file limit cf =
    let lines = split cf.content b'\n' in
    if ltb limit (length lines)
    then record {
      path = cf.path;
      content =
          join (take limit lines) (b'\n' ∷ [])
          ++ (lit "\n... (truncated " ++ (digits (length lines - limit) ++ lit " lines) ..."));
      is_diffed = false;
      relevance = [];
    }
    else cf

unfoldable pub apply_l1_truncation : DegradationManager → List FileContent → List FileContent
unfolding truncate_file line_limit
apply_l1_truncation dm files = map (truncate_file (line_limit dm)) files

unfoldable pub diff_tokens : List FileChange → ℕ
unfolding change_tokens
diff_tokens changes = total change_tokens changes

unfoldable pub context_tokens : List FileContent → ℕ
unfolding estimate_prompt_tokens
context_tokens files = total (λ (c : FileContent). estimate_prompt_tokens c.content) files

-- the estimate for a call
unfoldable pub call_tokens : Bytes → Call → ℕ
unfolding estimate_prompt_tokens diff_tokens context_tokens
call_tokens base_prompt c =
    estimate_prompt_tokens base_prompt + diff_tokens c.changes + context_tokens c.context

unfoldable pub call_text : ℕ → ℕ → Bytes
unfolding digits
call_text total_tokens max_tokens =
    lit "token limit exceeded ("
    ++ (digits total_tokens
        ++ (lit " > "
            ++ (digits max_tokens ++ lit ") and no sufficient degradation strategy available")))

module _ (review : ℕ → Call → Reviewed) (dm : DegradationManager) where
  -- one call of the review
  abbrev pub review_once : ℕ → Call → List Call × Reviewed
  review_once n c = (c ∷ [], review n c)

  -- cases 2 and 3; `n` is the number of the next call
  unfoldable pub apply_l2_l3 : ℕ → List FileChange → List FileContent → Bytes → List Call × Reviewed
  unfolding review_chunked call_text call_tokens
  apply_l2_l3 n changes context base_prompt =
      if dm.l2_chunk_by_file && dm.chunks
      then review_chunked review n dm.max_tokens changes context base_prompt
      else if dm.l3_diff_only
      then review_once n (record { changes = changes; context = [] })
      else (
        [],
        review_failed (
            call_text (call_tokens base_prompt (record { changes = changes; context = context }))
              dm.max_tokens),
      )

  -- from case 1 on
  unfoldable pub degrade : ℕ → List FileChange → List FileContent → Bytes → List Call × Reviewed
  unfolding apply_l1_truncation call_tokens apply_l2_l3
  degrade n changes context base_prompt =
      let reduced : Call = record { changes = changes; context = apply_l1_truncation dm context } in
      let rest = apply_l2_l3 n changes context base_prompt in
      if leb (call_tokens base_prompt (record { changes = changes; context = context }))
        (dm.max_tokens * 6 / 5)
      then if leb (call_tokens base_prompt reduced) dm.max_tokens
        then review_once n reduced
        else rest
      else rest

  -- What follows the standard review; `alive` says that the context has not ended.
  unfoldable pub after_standard :
      Bool → Reviewed → Call → List Call × Reviewed → List Call × Reviewed
  unfolding is_timeout_error
  after_standard alive (reviewed result) c rest = (c ∷ [], reviewed result)
  after_standard alive (review_failed err) c rest =
      if is_timeout_error err && alive then (c ∷ rest.0, rest.1) else (c ∷ [], review_failed err)

  unfoldable pub apply_strategy :
      Bool → List FileChange → List FileContent → Bytes → List Call × Reviewed
  unfolding degrade after_standard call_tokens
  apply_strategy alive changes context base_prompt =
      let whole : Call = record { changes = changes; context = context } in
      if leb (call_tokens base_prompt whole) (dm.max_tokens * 4 / 5)
      then after_standard alive (review 0 whole) whole (degrade 1 changes context base_prompt)
      else degrade 0 changes context base_prompt
