-- ===== src/Splitter/Hunks.antt =====
-- An oversized file cut at its hunks, a hunk or a file with none at its lines (diff_splitter.go).
pub mod Lines
pub mod Parts
use agent_sets.Prelude.{
  Bool, List, Option, [], drop, if◌then◌else◌, length, ltb, map, none, not, some, take, true, ℕ,
  ◌&&◌, ◌++◌, ◌+◌, ◌-◌, ◌==◌, ◌∷◌,
}
use agent_sets.Text.{Bytes, lit, has_prefix, join}
use agent_sets.Text.Trim.{trim_right}
use agent_sets.Text.Scan.{span, find_all, sections}
use agent_sets.Splitter.Types.{FileDiff, DiffSplitter, estimate_tokens, file_diff}
use agent_sets.Splitter.Hunks.Lines.{split_large_hunk, split_large_file_by_lines}

-- `^@@[^@]+@@`
unfoldable pub hunk_pattern : Bytes → Option (ℕ × Unit {0})
unfolding has_prefix span
hunk_pattern s =
    let r = span (λ c. not (c == b'@')) (drop 2 s) in
    if has_prefix s (lit "@@") && ltb 0 (length r.0) && has_prefix r.1 (lit "@@")
    then some (length r.0 + 4, tt)
    else none

-- `^@@`
unfoldable pub hunk_start : Bytes → Option (ℕ × Unit {0})
unfolding has_prefix
hunk_start s = if has_prefix s (lit "@@") then some (2, tt) else none

unfoldable pub parse_hunks : Bytes → List Bytes
unfolding hunk_pattern find_all sections
parse_hunks content =
    map (λ (e : Unit {0} × Bytes). trim_right e.1 b'\n')
      (sections content (find_all true hunk_pattern 0 0 true content))

unfoldable pub extract_file_header : Bytes → Bytes
unfolding hunk_start find_all
extract_file_header content = elim (find_all true hunk_start 0 0 true content) [
  | [] ↦ content
  | (at, u) ∷ ms ↦ take at content
]

-- The variables of the loop over the hunks.
pub record HunkState : Type 0 where
  pub result : List FileDiff
  pub current_hunks : List Bytes
  pub current_tokens : ℕ

module _ (s : DiffSplitter) (path file_header : Bytes) where
  abbrev pub hunk_too_large : Bytes → Bool
  hunk_too_large hunk =
      ltb s.max_tokens_per_chunk (estimate_tokens hunk + estimate_tokens file_header)

  -- the piece of the hunks that are held
  unfoldable pub hunks_piece : List Bytes → FileDiff
  hunks_piece hunks = file_diff path (file_header ++ join hunks (lit "\n"))

  -- the pieces of a hunk that is too large
  unfoldable pub large_pieces : Bytes → List FileDiff
  large_pieces hunk =
      map (λ sh. file_diff path (file_header ++ sh))
        (split_large_hunk s hunk (s.max_tokens_per_chunk - estimate_tokens file_header))

  -- `if len(currentHunks) > 0 { … }`
  unfoldable pub flush_hunks : HunkState → HunkState
  flush_hunks st = elim st.current_hunks [
    | [] ↦ st
    | h ∷ hs ↦ record {
      result = st.result ++ hunks_piece st.current_hunks ∷ [];
      current_hunks = [];
      current_tokens = estimate_tokens file_header;
    }
  ]

  unfoldable pub put_large : HunkState → Bytes → HunkState
  put_large st hunk = record st { result = st.result ++ large_pieces hunk }

  unfoldable pub put_hunk : HunkState → Bytes → HunkState
  put_hunk st hunk = record st {
    current_hunks = st.current_hunks ++ hunk ∷ [];
    current_tokens = st.current_tokens + estimate_tokens hunk;
  }

  abbrev pub hunk_would_exceed : HunkState → Bytes → Bool
  hunk_would_exceed st hunk = ltb s.max_tokens_per_chunk (st.current_tokens + estimate_tokens hunk)

  unfoldable pub add_hunk : HunkState → Bytes → HunkState
  add_hunk st hunk =
      if hunk_too_large hunk
      then put_large (flush_hunks st) hunk
      else put_hunk (if hunk_would_exceed st hunk then flush_hunks st else st) hunk

  unfoldable pub add_hunks : HunkState → List Bytes → HunkState
  add_hunks st [] = st
  add_hunks st (h ∷ hs) = add_hunks (add_hunk st h) hs

abbrev pub hunk_start_state : Bytes → HunkState
hunk_start_state header = record {
  result = [];
  current_hunks = [];
  current_tokens = estimate_tokens header;
}

unfoldable pub split_by_hunks : DiffSplitter → FileDiff → List Bytes → List FileDiff
split_by_hunks s file hunks =
    let header = extract_file_header file.content in
    (flush_hunks s file.path header
      (add_hunks s file.path header (hunk_start_state header) hunks)).result

unfoldable pub split_large_file_by_hunks : DiffSplitter → FileDiff → List FileDiff
split_large_file_by_hunks s file = elim (parse_hunks file.content) [
  | [] ↦ split_large_file_by_lines s file
  | h ∷ hs ↦ split_by_hunks s file (h ∷ hs)
]
