-- ===== src/Splitter/Types.antt =====
-- The data of diff_splitter.go, and what all of the file uses. Token counts, lengths and limits
-- are numbers: they are bounded by the memory that the texts take, so no sum of them wraps.
use agent_sets.Prelude.{List, [], if◌then◌else◌, length, map, ℕ, ◌++◌, ◌/◌, ◌∷◌}
use agent_sets.Prelude.Int.{leb_ℤ, pos, pos_part, ℤ}
use agent_sets.Text.{Bytes}

pub record FileDiff : Type 0 where
  pub path : Bytes
  pub content : Bytes
  pub tokens : ℕ

pub record DiffChunk : Type 0 where
  pub files : List FileDiff
  pub chunk_id : ℕ
  pub total_chunks : ℕ
  pub token_count : ℕ

pub record DiffSplitter : Type 0 where
  pub max_tokens_per_chunk : ℕ
  pub max_files_per_chunk : ℕ
  pub context_lines : ℕ

unfoldable pub new_diff_splitter_with_context : ℤ → ℤ → ℤ → DiffSplitter
new_diff_splitter_with_context max_tokens max_files context_lines = record {
  max_tokens_per_chunk = if leb_ℤ max_tokens (pos 0) then 40000 else pos_part max_tokens;
  max_files_per_chunk = if leb_ℤ max_files (pos 0) then 10 else pos_part max_files;
  context_lines = if leb_ℤ context_lines (pos 0) then 20 else pos_part context_lines;
}

unfoldable pub new_diff_splitter : ℤ → ℤ → DiffSplitter
unfolding new_diff_splitter_with_context
new_diff_splitter max_tokens max_files =
    new_diff_splitter_with_context max_tokens max_files (pos 20)

unfoldable pub estimate_tokens : Bytes → ℕ
estimate_tokens text = length text / 4

-- `FileDiff{Path: path, Content: content, Tokens: estimateTokens(content)}`
unfoldable pub file_diff : Bytes → Bytes → FileDiff
unfolding estimate_tokens
file_diff path content = record { path = path; content = content; tokens = estimate_tokens content }

write_files : List FileDiff → Bytes
write_files [] = []
write_files (f ∷ fs) = f.content ++ (b'\n' ∷ write_files fs)

unfoldable pub combine_content : DiffChunk → Bytes
unfolding write_files
combine_content c = write_files c.files

unfoldable pub file_list : DiffChunk → List Bytes
file_list c = map (λ (f : FileDiff). f.path) c.files
