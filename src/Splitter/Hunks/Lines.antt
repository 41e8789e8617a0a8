-- ===== src/Splitter/Hunks/Lines.antt =====
-- `splitLargeHunk` and `splitLargeFileByLines`: windows of lines with lines of context around them.
-- Each round of a loop moves on by a positive number of lines, so the number of lines is enough
-- fuel.
pub mod Cover
pub mod Fallback
use agent_sets.Prelude.{
  List, [], if◌then◌else◌, length, ltb, map, not, slice, suc, zero, ℕ, ◌&&◌, ◌*◌, ◌++◌, ◌+◌, ◌-◌,
  ◌/◌, ◌∷◌,
}
use agent_sets.Text.{Bytes, lit, has_prefix, split, join}
use agent_sets.Splitter.Types.{FileDiff, DiffSplitter, estimate_tokens, file_diff}

-- `if end > n { end = n }`
abbrev pub at_most : ℕ → ℕ → ℕ
at_most n end = if ltb n end then n else end

-- a line that is shown as context
unfoldable pub as_context : Bytes → Bytes
unfolding has_prefix
as_context line =
    if not (has_prefix line (lit "+"))
      && not (has_prefix line (lit "-"))
      && not (has_prefix line (lit " "))
    then b' ' ∷ line
    else line

-- The three parts of one window: context, the window's own lines, context.
pub record Window : Type 0 where
  pub lead : List Bytes
  pub main : List Bytes
  pub trail : List Bytes

abbrev pub window_lines : Window → List Bytes
window_lines w = w.lead ++ (w.main ++ w.trail)

module _ (context start_line per_chunk : ℕ) (lines : List Bytes) where
  -- the body of the loop of `splitLargeHunk` at line `i`
  unfoldable pub hunk_window : ℕ → Window
  hunk_window i =
      let n = length lines in
      let end = at_most n (i + per_chunk) in
      let from = i - context in
      let context_start = if ltb from start_line then start_line else from in
      let lead = if ltb start_line i then map as_context (slice context_start i lines) else [] in
      let trail =
        if ltb end n then map as_context (slice end (at_most n (end + context)) lines) else [] in
      record { lead = lead; main = slice i end lines; trail = trail }

  unfoldable pub hunk_windows : ℕ → ℕ → List Window
  unfolding hunk_window
  hunk_windows zero i = []
  hunk_windows (suc fuel) i =
      let more = hunk_windows fuel (at_most (length lines) (i + per_chunk)) in
      if ltb i (length lines) then hunk_window i ∷ more else []

-- The negative values that the source can reach here stop at 0, and both are below 100.
unfoldable pub lines_per_chunk : DiffSplitter → Bytes → ℕ → ℕ
lines_per_chunk s hunk_header max_tokens =
    let available = max_tokens - estimate_tokens hunk_header - s.context_lines * 10 * 2 in
    let tokens = if ltb available 100 then 100 else available in
    let per_chunk = tokens / 10 in if ltb per_chunk 20 then 20 else per_chunk

unfoldable pub hunk_header_of : List Bytes → Bytes
hunk_header_of [] = []
hunk_header_of (line ∷ lines) = if has_prefix line (lit "@@") then line ++ lit "\n" else []

unfoldable pub hunk_start_line : List Bytes → ℕ
hunk_start_line [] = 0
hunk_start_line (line ∷ lines) = if has_prefix line (lit "@@") then 1 else 0

unfoldable pub hunk_parts : DiffSplitter → List Bytes → ℕ → List Window
unfolding hunk_windows lines_per_chunk hunk_header_of hunk_start_line
hunk_parts s lines max_tokens =
    let start_line = hunk_start_line lines in
    let per_chunk = lines_per_chunk s (hunk_header_of lines) max_tokens in
    hunk_windows s.context_lines start_line per_chunk lines (length lines) start_line

unfoldable pub split_large_hunk : DiffSplitter → Bytes → ℕ → List Bytes
unfolding hunk_parts
split_large_hunk s hunk max_tokens =
    let lines = split hunk b'\n' in
    map (λ w. hunk_header_of lines ++ join (window_lines w) (lit "\n"))
      (hunk_parts s lines max_tokens)

module _ (context per_chunk : ℕ) (lines : List Bytes) where
  -- the lines that the loop of `splitLargeFileByLines` keeps at line `i`
  unfoldable pub line_window : ℕ → List Bytes
  line_window i =
      let n = length lines in
      let end = at_most n (i + per_chunk) in
      let actual_start = if ltb 0 i then i - context else i in
      let actual_end = if ltb end n then at_most n (end + context) else end in
      slice actual_start actual_end lines

  unfoldable pub line_windows : ℕ → ℕ → List (List Bytes)
  unfolding line_window
  line_windows zero i = []
  line_windows (suc fuel) i =
      let more = line_windows fuel (at_most (length lines) (i + per_chunk)) in
      if ltb i (length lines) then line_window i ∷ more else []

-- The caller has `file.tokens` above the limit, so the divisor is not 0.
unfoldable pub file_lines_per_chunk : DiffSplitter → FileDiff → ℕ → ℕ
file_lines_per_chunk s file n =
    let per_chunk = n * s.max_tokens_per_chunk / file.tokens in
    if ltb per_chunk 50 then 50 else per_chunk

unfoldable pub split_large_file_by_lines : DiffSplitter → FileDiff → List FileDiff
unfolding line_windows file_lines_per_chunk
split_large_file_by_lines s file =
    let lines = split file.content b'\n' in
    let per_chunk = file_lines_per_chunk s file (length lines) in
    map (λ w. file_diff file.path (join w (lit "\n")))
      (line_windows s.context_lines per_chunk lines (length lines) 0)
