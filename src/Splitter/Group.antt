-- ===== src/Splitter/Group.antt =====
-- `groupIntoChunks` and `Split` of diff_splitter.go.
pub mod Keeps
pub mod Limits
use agent_sets.Prelude.{
  Bool, List, [], if◌then◌else◌, leb, length, ltb, map, suc, total, ℕ, ◌++◌, ◌+◌, ◌||◌, ◌∷◌,
}
use agent_sets.Text.{Bytes}
use agent_sets.Splitter.Types.{FileDiff, DiffChunk, DiffSplitter}
use agent_sets.Splitter.Files.{parse_files}
use agent_sets.Splitter.Hunks.{split_large_file_by_hunks}

-- The variables of the loop over the files.
pub record GroupState : Type 0 where
  pub chunks : List DiffChunk
  pub current_files : List FileDiff
  pub current_tokens : ℕ

-- `DiffChunk{Files: files, TokenCount: tokens}`
abbrev pub unnumbered : List FileDiff → ℕ → DiffChunk
unnumbered files tokens = record {
  files = files;
  chunk_id = 0;
  total_chunks = 0;
  token_count = tokens;
}

-- `if len(currentFiles) > 0 { … }`
unfoldable pub flush : GroupState → GroupState
flush st = elim st.current_files [
  | [] ↦ st
  | f ∷ fs ↦ record {
    chunks = st.chunks ++ unnumbered st.current_files st.current_tokens ∷ [];
    current_files = [];
    current_tokens = 0;
  }
]

abbrev pub lone : FileDiff → DiffChunk
lone f = unnumbered (f ∷ []) f.tokens

-- the chunks of an oversized file
unfoldable pub put_pieces : GroupState → List FileDiff → GroupState
put_pieces st pieces = record st { chunks = st.chunks ++ map lone pieces }

-- the last two lines of the loop
unfoldable pub put_file : GroupState → FileDiff → GroupState
put_file st file = record st {
  current_files = st.current_files ++ file ∷ [];
  current_tokens = st.current_tokens + file.tokens;
}

module _ (s : DiffSplitter) where
  abbrev pub would_exceed : GroupState → FileDiff → Bool
  would_exceed st file =
      ltb s.max_tokens_per_chunk (st.current_tokens + file.tokens)
      || leb s.max_files_per_chunk (length st.current_files)

  unfoldable pub add_file : GroupState → FileDiff → GroupState
  add_file st file =
      if ltb s.max_tokens_per_chunk file.tokens
      then put_pieces (flush st) (split_large_file_by_hunks s file)
      else put_file (if would_exceed st file then flush st else st) file

  unfoldable pub add_files : GroupState → List FileDiff → GroupState
  unfolding add_file
  add_files st [] = st
  add_files st (f ∷ fs) = add_files (add_file st f) fs

-- the loop over `range chunks`
unfoldable pub number : ℕ → ℕ → List DiffChunk → List DiffChunk
number total i [] = []
number total i (c ∷ cs) =
    record c { chunk_id = i + 1; total_chunks = total } ∷ number total (suc i) cs

abbrev pub start : GroupState
start = record { chunks = []; current_files = []; current_tokens = 0 }

-- the chunks before they get their numbers
unfoldable pub all_chunks : DiffSplitter → List FileDiff → List DiffChunk
all_chunks s files = (flush (add_files s start files)).chunks

unfoldable pub group_into_chunks : DiffSplitter → List FileDiff → List DiffChunk
group_into_chunks s files = let chunks = all_chunks s files in number (length chunks) 0 chunks

unfoldable pub split_diff : DiffSplitter → Bytes → List DiffChunk
split_diff s full_diff = elim (parse_files full_diff) [
  | [] ↦ []
  | f ∷ fs ↦ group_into_chunks s (f ∷ fs)
]
