-- ===== src/Splitter/Hunks/Lines/Cover.antt =====
-- The windows of lines cover the text: no line is lost, and context is added within its bound.
use agent_sets.Prelude.{
  All, Bool-cases, List, [], ap, arith, drop, drop-all, if◌then◌else◌, inl, inr, length, length-map,
  length-slice, ltb, map, refl, slice, slice-drop, suc, sym, zero, ℕ, ◌++◌, ◌+◌, ◌-◌, ◌<◌, ◌∙◌, ◌∷◌,
  ◌≡◌, ◌≤◌,
}
use agent_sets.Text.{Bytes}
use agent_sets.Splitter.Hunks.Lines.{
  Window, hunk_window, hunk_windows, at_most, as_context, lines_per_chunk, split_large_hunk,
  DiffSplitter, hunk_parts, split, hunk_header_of, join, window_lines, lit, hunk_start_line,
}

abbrev pub mains : List Window → List Bytes
mains [] = []
mains (w ∷ ws) = w.main ++ mains ws

-- What a window may hold: some lines of its own, and at most `context` lines on each side.
pub record IsBounded (context per_chunk : ℕ) (w : Window) : Type 0 where
  pub lead_within : length w.lead ≤ context
  pub main_within : length w.main ≤ per_chunk
  pub main_holds : 0 < length w.main
  pub trail_within : length w.trail ≤ context

module _ (lines : List Bytes) where
  context_le : (lo hi : ℕ) → length (map as_context (slice lo hi lines)) ≤ hi - lo
  context_le lo hi =
      omega (arith, length-map (slice lo hi lines) as_context, length-slice lo hi lines)

module _ (context start_line per_chunk : ℕ) (lines : List Bytes) where
  mains-hunk_windows :
      (fuel i : ℕ)
      → 0 < per_chunk
      → length lines ≤ i + fuel
      → mains (hunk_windows context start_line per_chunk lines fuel i) ≡ drop i lines
  unfolding hunk_windows
  mains-hunk_windows zero i p h = sym (drop-all i lines (omega arith))
  mains-hunk_windows (suc fuel) i p h = elim (Bool-cases (ltb i (length lines))) [
    | inl more ↦
        let next = at_most (length lines) (i + per_chunk) in
        rw more (
          ap (λ (t : List Bytes). slice i next lines ++ t)
            (mains-hunk_windows fuel next p (ground arith))
          ∙ slice-drop i next lines (ground arith))
    | inr done ↦ rw done (sym (drop-all i lines (ground arith)))
  ]

  hunk_window-IsBounded :
      (i : ℕ)
      → 0 < per_chunk
      → i < length lines
      → IsBounded context per_chunk (hunk_window context start_line per_chunk lines i)
  unfolding hunk_window
  hunk_window-IsBounded i p h =
      let n = length lines in
      let end = at_most n (i + per_chunk) in
      let from = i - context in
      let first = if ltb from start_line then start_line else from in
      let last = at_most n (end + context) in
      record {
        lead_within = ground (arith, context_le lines first i);
        main_within = ground (arith, length-slice i end lines);
        main_holds = ground (arith, length-slice i end lines);
        trail_within = ground (arith, context_le lines end last);
      }

  All-hunk_windows :
      (fuel i : ℕ)
      → 0 < per_chunk
      → All (IsBounded context per_chunk) (hunk_windows context start_line per_chunk lines fuel i)
  unfolding hunk_windows
  All-hunk_windows zero i p = tt
  All-hunk_windows (suc fuel) i p = elim (Bool-cases (ltb i (length lines))) [
    | inl more ↦ rw more (hunk_window-IsBounded i p (ground arith), All-hunk_windows fuel _ p)
    | inr done ↦ rw done tt
  ]

lines_per_chunk_pos :
    (s : DiffSplitter) (header : Bytes) (max_tokens : ℕ) → 0 < lines_per_chunk s header max_tokens
unfolding lines_per_chunk
lines_per_chunk_pos s header max_tokens = ground arith

-- The lines of a hunk, but for its header, stand once each and in their order in the windows of
-- its pieces. A window holds at least one line, and at most `context_lines` lines of context on
-- either side; each piece is the header and the lines of its window.
pub split_large_hunk_cover :
    (s : DiffSplitter) (hunk : Bytes) (max_tokens : ℕ)
    → let lines = split hunk b'\n' in
      let per_chunk = lines_per_chunk s (hunk_header_of lines) max_tokens in
      (ws : List Window) × (split_large_hunk s hunk max_tokens
        ≡ map (λ w. hunk_header_of lines ++ join (window_lines w) (lit "\n")) ws)
      × (mains ws ≡ drop (hunk_start_line lines) lines)
      × All (IsBounded s.context_lines per_chunk) ws
unfolding split_large_hunk hunk_parts
split_large_hunk_cover s hunk max_tokens =
    let lines = split hunk b'\n' in
    let per_chunk = lines_per_chunk s (hunk_header_of lines) max_tokens in
    let h = lines_per_chunk_pos s (hunk_header_of lines) max_tokens in
    let first = hunk_start_line lines in
    (
      hunk_parts s lines max_tokens,
      refl,
      mains-hunk_windows s.context_lines first per_chunk lines (length lines) first h (omega arith),
      All-hunk_windows s.context_lines first per_chunk lines (length lines) first h,
    )
