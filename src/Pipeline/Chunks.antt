-- ===== src/Pipeline/Chunks.antt =====
-- pipeline/chunk_reviewer.go. A map is the list of its entries, and the review is a parameter that is
-- told the number of the call.
pub mod Plan
use agent_sets.Prelude.{
  Bool, List, Option, [], false, if◌then◌else◌, length, ltb, map, none, some, suc, true, zero, ℕ,
  ◌*◌, ◌++◌, ◌+◌, ◌-◌, ◌/◌, ◌==◌, ◌∷◌,
}
use agent_sets.Prelude.Int.{pos, quot, ◌+ℤ◌}
use agent_sets.Domain.{is_empty, ReviewResult}
use agent_sets.Maps.{put, lookup}
use agent_sets.Pipeline.Types.{
  reviewed, review_failed, FileChange, FileContent, change_tokens, Call, estimate_prompt_tokens,
  no_change, Reviewed, no_content,
}
use agent_sets.Text.{Bytes, digits, equal, lit}

pub record FileGroup : Type 0 where
  pub path : Bytes
  pub diff : FileChange
  pub context : FileContent

abbrev pub Groups : Type 0
Groups = List (Bytes × FileGroup)

-- `groups[c.Path] = &FileGroup{…}` for a change
unfoldable pub add_change : Groups → FileChange → Groups
unfolding put
add_change groups c =
    put equal c.path (record { path = c.path; diff = c; context = no_content }) groups

unfoldable pub add_changes : Groups → List FileChange → Groups
unfolding add_change
add_changes groups [] = groups
add_changes groups (c ∷ cs) = add_changes (add_change groups c) cs

unfoldable pub with_context : FileContent → Option FileGroup → FileGroup
with_context c none = record { path = c.path; diff = no_change; context = c }
with_context c (some g) = record g { context = c }

unfoldable pub add_context : Groups → FileContent → Groups
unfolding put lookup with_context
add_context groups c = put equal c.path (with_context c (lookup equal c.path groups)) groups

unfoldable pub add_contexts : Groups → List FileContent → Groups
unfolding add_context
add_contexts groups [] = groups
add_contexts groups (c ∷ cs) = add_contexts (add_context groups c) cs

unfoldable pub group_files : List FileChange → List FileContent → Groups
unfolding add_changes add_contexts
group_files changes context = add_contexts (add_changes [] changes) context

unfoldable pub group_tokens : FileGroup → ℕ
unfolding change_tokens estimate_prompt_tokens
group_tokens g = change_tokens g.diff + estimate_prompt_tokens g.context.content

-- Go's order of strings
unfoldable pub before : Bytes → Bytes → Bool
before [] t = true
before (c ∷ s) [] = false
before (c ∷ s) (d ∷ t) = let rest = before s t in if c == d then rest else ltb c d

unfoldable pub insert : Bytes × FileGroup → Groups → Groups
unfolding before
insert e [] = e ∷ []
insert e (f ∷ fs) = let rest = insert e fs in if before e.0 f.0 then e ∷ f ∷ fs else f ∷ rest

-- the groups in the order of `sort.Strings` on their keys
unfoldable pub sort_groups : Groups → Groups
unfolding insert
sort_groups [] = []
sort_groups (e ∷ es) = insert e (sort_groups es)

-- The variables of the loop over the groups.
pub record ChunkState : Type 0 where
  pub chunks : List (List FileGroup)
  pub current_chunk : List FileGroup
  pub current_tokens : ℕ

-- `if len(currentChunk) > 0 { chunks = append(chunks, currentChunk) }`
abbrev pub chunks_with : List (List FileGroup) → List FileGroup → List (List FileGroup)
chunks_with chunks [] = chunks
chunks_with chunks (g ∷ gs) = chunks ++ (g ∷ gs) ∷ []

unfoldable pub close_chunk : ChunkState → List (List FileGroup)
close_chunk st = chunks_with st.chunks st.current_chunk

-- the same with `currentChunk = nil` and `currentTokens = 0`
abbrev pub cleared : ChunkState → List FileGroup → ChunkState
cleared st [] = st
cleared st (g ∷ gs) = record {
  chunks = st.chunks ++ (g ∷ gs) ∷ [];
  current_chunk = [];
  current_tokens = 0;
}

unfoldable pub clear_chunk : ChunkState → ChunkState
clear_chunk st = cleared st st.current_chunk

unfoldable pub add_lone : ChunkState → FileGroup → ChunkState
add_lone st g = record st { chunks = st.chunks ++ (g ∷ []) ∷ [] }

module _ (available_tokens : ℕ) where
  unfoldable pub add_group : ChunkState → FileGroup → ChunkState
  unfolding group_tokens close_chunk clear_chunk add_lone
  add_group st g =
      if ltb available_tokens (group_tokens g)
      then add_lone (clear_chunk st) g
      else if ltb available_tokens (st.current_tokens + group_tokens g)
      then record {
        chunks = close_chunk st;
        current_chunk = g ∷ [];
        current_tokens = group_tokens g;
      }
      else record st {
        current_chunk = st.current_chunk ++ g ∷ [];
        current_tokens = st.current_tokens + group_tokens g;
      }

  unfoldable pub add_groups : ChunkState → List FileGroup → ChunkState
  unfolding add_group
  add_groups st [] = st
  add_groups st (g ∷ gs) = add_groups (add_group st g) gs

  unfoldable pub chunk_groups : List FileGroup → List (List FileGroup)
  unfolding add_groups close_chunk
  chunk_groups gs =
      close_chunk (add_groups (record { chunks = []; current_chunk = []; current_tokens = 0 }) gs)

-- the changes and the context files of a chunk
unfoldable pub chunk_changes : List FileGroup → List FileChange
unfolding is_empty
chunk_changes [] = []
chunk_changes (g ∷ gs) =
    let rest = chunk_changes gs in if is_empty g.diff.path then rest else g.diff ∷ rest

unfoldable pub chunk_context : List FileGroup → List FileContent
unfolding is_empty
chunk_context [] = []
chunk_context (g ∷ gs) =
    let rest = chunk_context gs in if is_empty g.context.path then rest else g.context ∷ rest

unfoldable pub call_of : List FileGroup → Call
unfolding chunk_changes chunk_context
call_of gs = record { changes = chunk_changes gs; context = chunk_context gs }

-- one round of the loop over the chunks; `i` counts from 0
unfoldable pub merge_review : ℕ → Reviewed → ReviewResult → ReviewResult
unfolding digits
merge_review i (review_failed err) r = record r {
  summary =
      r.summary
      ++ (lit "- **Chunk " ++ (digits (i + 1) ++ (lit " Failed**: " ++ (err ++ b'\n' ∷ []))));
}
merge_review i (reviewed res) r = record r {
  comments = r.comments ++ res.comments;
  score = r.score +ℤ res.score;
  summary =
      r.summary ++ (lit "### Chunk " ++ (digits (i + 1) ++ (b'\n' ∷ res.summary ++ lit "\n\n")));
}

-- `first` is the number of the calls before.
unfoldable pub review_chunks :
    (ℕ → Call → Reviewed) → ℕ → ℕ → List (List FileGroup) → ReviewResult → ReviewResult
unfolding merge_review call_of
review_chunks review first i [] r = r
review_chunks review first i (c ∷ cs) r =
    review_chunks review first (suc i) cs (merge_review i (review (first + i) (call_of c)) r)

unfoldable pub average_score : ℕ → ReviewResult → ReviewResult
unfolding quot
average_score zero r = r
average_score (suc n) r = record r { score = quot r.score (suc n) }

abbrev empty_review : ReviewResult
empty_review = record {
  comments = [];
  score = pos 0;
  summary = lit "## Chunked Review Summary\n\n";
  model = [];
}

-- the chunks that are reviewed, or `none` where the prompt alone is too large
unfoldable pub plan :
    ℕ → List FileChange → List FileContent → Bytes → Option (List (List FileGroup))
unfolding estimate_prompt_tokens group_files sort_groups chunk_groups
plan max_tokens changes context base_prompt =
    let available = (max_tokens - estimate_prompt_tokens base_prompt) * 9 / 10 in
    if available == 0
    then none
    else some (
        chunk_groups available
          (map (λ (e : Bytes × FileGroup). e.1) (sort_groups (group_files changes context))))

unfoldable pub review_plan :
    (ℕ → Call → Reviewed) → ℕ → Option (List (List FileGroup)) → List Call × Reviewed
unfolding review_chunks average_score call_of
review_plan review first none = ([], review_failed (lit "base prompt too large for token limit"))
review_plan review first (some chunks) = (
  map call_of chunks,
  reviewed (average_score (length chunks) (review_chunks review first 0 chunks empty_review)),
)

-- `ReviewChunked`, with the calls that it makes
unfoldable pub review_chunked :
    (ℕ → Call → Reviewed)
    → ℕ
    → ℕ
    → List FileChange
    → List FileContent
    → Bytes
    → List Call × Reviewed
unfolding plan review_plan
review_chunked review first max_tokens changes context base_prompt =
    review_plan review first (plan max_tokens changes context base_prompt)
