-- ===== src/Splitter/Hunks/Lines/Fallback.antt =====
-- The same for a file with no hunks, whose windows are taken as slices with their context.
use agent_sets.Prelude.{
  All, Bool-cases, List, [], ap, arith, drop, drop-all, if◌then◌else◌, inl, inr, length,
  length-slice, ltb, map, refl, slice, slice-append, slice-drop, suc, sym, zero, ℕ, ◌++◌, ◌+◌, ◌-◌,
  ◌<◌, ◌∙◌, ◌∷◌, ◌≡◌, ◌≤◌,
}
use mathlib.Core.Path.{ap₂}
use agent_sets.Text.{Bytes, lit, split, join}
use agent_sets.Splitter.Types.{FileDiff, DiffSplitter, file_diff}
use agent_sets.Splitter.Hunks.Lines.{
  Window, window_lines, line_window, line_windows, at_most, file_lines_per_chunk,
  split_large_file_by_lines,
}
use agent_sets.Splitter.Hunks.Lines.Cover.{mains, IsBounded}

module _ (context per_chunk : ℕ) (lines : List Bytes) where
  -- The parts of the slice that the loop takes at line `i`.
  parts : ℕ → Window
  parts i =
      let n = length lines in
      let end = at_most n (i + per_chunk) in
      record {
        lead = slice (i - context) i lines;
        main = slice i end lines;
        trail = slice end (at_most n (end + context)) lines;
      }

  line_window-parts :
      (i : ℕ) → i < length lines → line_window context per_chunk lines i ≡ window_lines (parts i)
  unfolding line_window parts
  line_window-parts i h =
      let n = length lines in
      let end = at_most n (i + per_chunk) in
      let last = at_most n (end + context) in
      ap₂ (λ (a b : ℕ). slice a b lines) {x = if ltb 0 i then i - context else i} (ground arith)
        (ground arith)
      ∙ slice-append (i - context) i last lines (omega arith) (ground arith)
      ∙ ap (λ (t : List Bytes). slice (i - context) i lines ++ t)
          (slice-append i end last lines (ground arith) (ground arith))

  parts-IsBounded :
      (i : ℕ) → 0 < per_chunk → i < length lines → IsBounded context per_chunk (parts i)
  unfolding parts
  parts-IsBounded i p h =
      let n = length lines in
      let end = at_most n (i + per_chunk) in
      let last = at_most n (end + context) in
      record {
        lead_within = omega (arith, length-slice (i - context) i lines);
        main_within = ground (arith, length-slice i end lines);
        main_holds = ground (arith, length-slice i end lines);
        trail_within = ground (arith, length-slice end last lines);
      }

  all_parts : ℕ → ℕ → List Window
  all_parts zero i = []
  all_parts (suc fuel) i =
      let more = all_parts fuel (at_most (length lines) (i + per_chunk)) in
      if ltb i (length lines) then parts i ∷ more else []

  line_windows-all_parts :
      (fuel i : ℕ)
      → line_windows context per_chunk lines fuel i ≡ map window_lines (all_parts fuel i)
  unfolding line_windows all_parts
  line_windows-all_parts zero i = refl
  line_windows-all_parts (suc fuel) i = elim (Bool-cases (ltb i (length lines))) [
    | inl more ↦ rw more (
        ap₂ (λ (a : List Bytes) (b : List (List Bytes)). a ∷ b) (line_window-parts i (ground arith))
          (line_windows-all_parts fuel (at_most (length lines) (i + per_chunk))))
    | inr done ↦ rw done refl
  ]

  mains-all_parts :
      (fuel i : ℕ)
      → 0 < per_chunk
      → length lines ≤ i + fuel
      → mains (all_parts fuel i) ≡ drop i lines
  unfolding all_parts parts
  mains-all_parts zero i p h = sym (drop-all i lines (omega arith))
  mains-all_parts (suc fuel) i p h = elim (Bool-cases (ltb i (length lines))) [
    | inl more ↦
        let next = at_most (length lines) (i + per_chunk) in
        rw more (
          ap (λ (t : List Bytes). slice i next lines ++ t)
            (mains-all_parts fuel next p (ground arith))
          ∙ slice-drop i next lines (ground arith))
    | inr done ↦ rw done (sym (drop-all i lines (ground arith)))
  ]

  All-all_parts :
      (fuel i : ℕ) → 0 < per_chunk → All (IsBounded context per_chunk) (all_parts fuel i)
  unfolding all_parts
  All-all_parts zero i p = tt
  All-all_parts (suc fuel) i p = elim (Bool-cases (ltb i (length lines))) [
    | inl more ↦ rw more (parts-IsBounded i p (ground arith), All-all_parts fuel _ p)
    | inr done ↦ rw done tt
  ]

map-map :
    {A B C : Type 0} (f : B → C) (g : A → B) (xs : List A)
    → map f (map g xs) ≡ map (λ x. f (g x)) xs
map-map f g [] = refl
map-map f g (x ∷ xs) = ap (◌∷◌ (f (g x))) (map-map f g xs)

file_lines_per_chunk_pos :
    (s : DiffSplitter) (file : FileDiff) (n : ℕ) → 0 < file_lines_per_chunk s file n
unfolding file_lines_per_chunk
file_lines_per_chunk_pos s file n = ground arith

-- The lines of a file that has no hunk stand once each and in their order in the windows of its
-- pieces. A window holds at least one line, and at most `context_lines` lines of context on either
-- side; each piece has the file's path and the lines of its window.
pub split_large_file_by_lines_cover :
    (s : DiffSplitter) (file : FileDiff)
    → let lines = split file.content b'\n' in
      (ws : List Window) × (split_large_file_by_lines s file
        ≡ map (λ w. file_diff file.path (join (window_lines w) (lit "\n"))) ws)
      × (mains ws ≡ lines)
      × All (IsBounded s.context_lines (file_lines_per_chunk s file (length lines))) ws
unfolding split_large_file_by_lines
split_large_file_by_lines_cover s file =
    let lines = split file.content b'\n' in
    let per_chunk = file_lines_per_chunk s file (length lines) in
    let h = file_lines_per_chunk_pos s file (length lines) in
    let n = length lines in
    (
      all_parts s.context_lines per_chunk lines n 0,
      ap (map (λ w. file_diff file.path (join w (lit "\n"))))
            (line_windows-all_parts s.context_lines per_chunk lines n 0)
          ∙ map-map (λ w. file_diff file.path (join w (lit "\n"))) window_lines
              (all_parts s.context_lines per_chunk lines n 0),
      mains-all_parts s.context_lines per_chunk lines n 0 h (omega arith),
      All-all_parts s.context_lines per_chunk lines n 0 h,
    )
