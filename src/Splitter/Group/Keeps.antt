-- ===== src/Splitter/Group/Keeps.antt =====
-- Grouping loses no file, keeps the order and numbers the chunks.
use agent_sets.Prelude.{
  Bool-cases, List, [], ap, append-nil, append_assoc, arith, if◌then◌else◌, inl, inr, length, ltb,
  map, refl, suc, sym, total, ℕ, ◌++◌, ◌∙◌, ◌∷◌, ◌≡◌,
}
use mathlib.Core.Path.{ap₂}
use agent_sets.Splitter.Types.{FileDiff, DiffChunk, DiffSplitter}
use agent_sets.Splitter.Hunks.{split_large_file_by_hunks}
use agent_sets.Splitter.Group.{
  GroupState, unnumbered, flush, lone, put_file, put_pieces, would_exceed, add_file, add_files,
  number, start, all_chunks, group_into_chunks,
}

abbrev pub files_of : List DiffChunk → List FileDiff
files_of [] = []
files_of (c ∷ cs) = c.files ++ files_of cs

files_of-append : (cs ds : List DiffChunk) → files_of (cs ++ ds) ≡ files_of cs ++ files_of ds
files_of-append [] ds = refl
files_of-append (c ∷ cs) ds = simp (files_of-append cs ds, append_assoc)

files_of-lone : (fs : List FileDiff) → files_of (map lone fs) ≡ fs
files_of-lone [] = refl
files_of-lone (f ∷ fs) = ap (◌∷◌ f) (files_of-lone fs)

-- What has been put into a chunk, the open chunk included.
abbrev held : GroupState → List FileDiff
held st = files_of st.chunks ++ st.current_files

flush_files : (st : GroupState) → (flush st).current_files ≡ []
unfolding flush
flush_files st = ground arith

chunks-flush : (st : GroupState) → files_of (flush st).chunks ≡ held st
unfolding flush
chunks-flush st = ground (
  arith,
  files_of-append st.chunks (unnumbered st.current_files st.current_tokens ∷ []),
  append-nil st.current_files,
  append-nil (files_of st.chunks),
)

held-flush : (st : GroupState) → held (flush st) ≡ held st
held-flush st = rw flush_files (append-nil _ ∙ chunks-flush st)

held-put_file : (st : GroupState) (f : FileDiff) → held (put_file st f) ≡ held st ++ f ∷ []
unfolding put_file
held-put_file st f = sym (append_assoc (files_of st.chunks) st.current_files (f ∷ []))

held-put_pieces :
    (st : GroupState) (ps : List FileDiff) → held (put_pieces (flush st) ps) ≡ held st ++ ps
unfolding put_pieces
held-put_pieces st ps = rw flush_files (
    append-nil _
    ∙ files_of-append (flush st).chunks (map lone ps)
    ∙ ap₂ (λ (a b : List FileDiff). a ++ b) (chunks-flush st) (files_of-lone ps))

module _ (s : DiffSplitter) where
  -- What the loop makes of one file.
  abbrev pub pieces : FileDiff → List FileDiff
  pieces f = if ltb s.max_tokens_per_chunk f.tokens then split_large_file_by_hunks s f else f ∷ []

  abbrev pub all_pieces : List FileDiff → List FileDiff
  all_pieces [] = []
  all_pieces (f ∷ fs) = pieces f ++ all_pieces fs

  held-add_file : (st : GroupState) (f : FileDiff) → held (add_file s st f) ≡ held st ++ pieces f
  unfolding add_file
  held-add_file st f = elim (Bool-cases (ltb s.max_tokens_per_chunk f.tokens)) [
    | inl large ↦ rw large (held-put_pieces st (split_large_file_by_hunks s f))
    | inr small ↦ rw small (elim (Bool-cases (would_exceed s st f)) [
      | inl over ↦
          rw over
            (held-put_file (flush st) f ∙ ap (λ (l : List FileDiff). l ++ f ∷ []) (held-flush st))
      | inr fits ↦ rw fits (held-put_file st f)
    ])
  ]

  held-add_files :
      (st : GroupState) (fs : List FileDiff) → held (add_files s st fs) ≡ held st ++ all_pieces fs
  unfolding add_files
  held-add_files st [] = sym (append-nil _)
  held-add_files st (f ∷ fs) =
      held-add_files (add_file s st f) fs
      ∙ ap (λ (l : List FileDiff). l ++ all_pieces fs) (held-add_file st f)
      ∙ append_assoc (held st) (pieces f) (all_pieces fs)

files_of-number : (total i : ℕ) (cs : List DiffChunk) → files_of (number total i cs) ≡ files_of cs
unfolding number
files_of-number total i [] = refl
files_of-number total i (c ∷ cs) =
    ap (λ (l : List FileDiff). c.files ++ l) (files_of-number total (suc i) cs)

-- The files of the chunks, one chunk after the other, are the given files in their order, but for
-- a file over the token limit, which stands there as its pieces.
pub files_of-group_into_chunks :
    (s : DiffSplitter) (files : List FileDiff)
    → files_of (group_into_chunks s files) ≡ all_pieces s files
unfolding group_into_chunks all_chunks
files_of-group_into_chunks s files =
    files_of-number (length (all_chunks s files)) 0 (all_chunks s files)
    ∙ chunks-flush (add_files s start files)
    ∙ held-add_files s start files
