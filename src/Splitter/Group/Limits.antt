-- ===== src/Splitter/Group/Limits.antt =====
-- The sizes and the numbers of the chunks.
use agent_sets.Prelude.{
  All, All-append, Bool-cases, List, [], arith, inl, inr, length, length-append, ltb, map, refl,
  suc, total, ℕ, ◌++◌, ◌+◌, ◌<◌, ◌∷◌, ◌≡◌, ◌≤◌, ◌⊎◌,
}
use agent_sets.Splitter.Types.{FileDiff, DiffChunk, DiffSplitter}
use agent_sets.Splitter.Group.{
  GroupState, unnumbered, flush, lone, put_pieces, put_file, add_file, add_files, number,
  all_chunks, group_into_chunks, split_large_file_by_hunks, start, would_exceed,
}

abbrev pub sum_tokens : List FileDiff → ℕ
sum_tokens [] = 0
sum_tokens (f ∷ fs) = f.tokens + sum_tokens fs

sum_tokens-append : (fs gs : List FileDiff) → sum_tokens (fs ++ gs) ≡ sum_tokens fs + sum_tokens gs
sum_tokens-append [] gs = omega arith
sum_tokens-append (f ∷ fs) gs = omega (arith, sum_tokens-append fs gs)

module _ (s : DiffSplitter) where
  -- A chunk counts its tokens right, holds a file, and stays within both limits or is one piece.
  pub record IsWithin (c : DiffChunk) : Type 0 where
    pub counted : c.token_count ≡ sum_tokens c.files
    pub holds_file : 0 < length c.files
    pub limited :
        ((c.token_count ≤ s.max_tokens_per_chunk) × (length c.files ≤ s.max_files_per_chunk))
        ⊎ (length c.files ≡ 1)

  record Inv (st : GroupState) : Type 0 where
    chunks_within : All IsWithin st.chunks
    counted : st.current_tokens ≡ sum_tokens st.current_files
    tokens_fit : st.current_tokens ≤ s.max_tokens_per_chunk
    files_fit : length st.current_files ≤ s.max_files_per_chunk

  All-lone : (fs : List FileDiff) → All IsWithin (map lone fs)
  All-lone [] = tt
  All-lone (f ∷ fs) =
      (record { counted = omega arith; holds_file = omega arith; limited = inr refl }, All-lone fs)

  close :
      (fs : List FileDiff) (t : ℕ)
      → t ≡ sum_tokens fs
      → t ≤ s.max_tokens_per_chunk
      → length fs ≤ s.max_files_per_chunk
      → 0 < length fs
      → IsWithin (unnumbered fs t)
  close fs t e h k p = record { counted = e; holds_file = p; limited = inl (h, k) }

  flush-Inv : (st : GroupState) → Inv st → Inv (flush st)
  unfolding flush
  flush-Inv st v = ground (
    arith,
    close st.current_files st.current_tokens v.counted v.tokens_fit v.files_fit,
    All-append IsWithin st.chunks (unnumbered st.current_files st.current_tokens ∷ []),
  )

  flush_empty :
      (st : GroupState) → Inv st → ((flush st).current_files ≡ []) × ((flush st).current_tokens ≡ 0)
  unfolding flush
  flush_empty st v = ground arith

  put_pieces-Inv : (st : GroupState) (ps : List FileDiff) → Inv st → Inv (put_pieces st ps)
  unfolding put_pieces
  put_pieces-Inv st ps v = record {
    chunks_within = All-append IsWithin st.chunks (map lone ps) v.chunks_within (All-lone ps);
    counted = v.counted;
    tokens_fit = v.tokens_fit;
    files_fit = v.files_fit;
  }

  put_file-Inv :
      (st : GroupState) (f : FileDiff)
      → st.current_tokens + f.tokens ≤ s.max_tokens_per_chunk
      → length st.current_files < s.max_files_per_chunk
      → Inv st
      → Inv (put_file st f)
  unfolding put_file
  put_file-Inv st f h k v = record {
    chunks_within = v.chunks_within;
    counted = omega (arith, sum_tokens-append st.current_files (f ∷ []));
    tokens_fit = h;
    files_fit = omega (arith, length-append {0} st.current_files (f ∷ []));
  }

  add_file-Inv :
      (st : GroupState) (f : FileDiff) → 0 < s.max_files_per_chunk → Inv st → Inv (add_file s st f)
  unfolding add_file
  add_file-Inv st f h v = elim (Bool-cases (ltb s.max_tokens_per_chunk f.tokens)) [
    | inl large ↦
        rw large (put_pieces-Inv (flush st) (split_large_file_by_hunks s f) (flush-Inv st v))
    | inr small ↦ rw small (elim (Bool-cases (would_exceed s st f)) [
      | inl over ↦ rw over (
          put_file-Inv (flush st) f (ground (arith, flush_empty st v))
            (ground (arith, flush_empty st v)) (flush-Inv st v))
      | inr fits ↦ rw fits (put_file-Inv st f (ground arith) (ground arith) v)
    ])
  ]

  add_files-Inv :
      (fs : List FileDiff) (st : GroupState)
      → 0 < s.max_files_per_chunk
      → Inv st
      → Inv (add_files s st fs)
  unfolding add_files
  add_files-Inv [] st h v = v
  add_files-Inv (f ∷ fs) st h v = add_files-Inv fs (add_file s st f) h (add_file-Inv st f h v)

  All-number :
      (cs : List DiffChunk) (total i : ℕ) → All IsWithin cs → All IsWithin (number total i cs)
  unfolding number
  All-number [] total i h = tt
  All-number (c ∷ cs) total i (h, hs) = (
    record { counted = h.counted; holds_file = h.holds_file; limited = h.limited },
    All-number cs total (suc i) hs,
  )

  all_chunks-IsWithin :
      (files : List FileDiff) → 0 < s.max_files_per_chunk → All IsWithin (all_chunks s files)
  unfolding all_chunks
  all_chunks-IsWithin files h =
      let v = add_files-Inv files start h (record {
        chunks_within = tt;
        counted = refl;
        tokens_fit = omega arith;
        files_fit = omega arith;
      }) in
      (flush-Inv (add_files s start files) v).chunks_within

  -- With a positive limit on the files, every chunk holds a file and counts the tokens of its
  -- files; it keeps to the limit on tokens and to the limit on files, or it holds one file only.
  pub group_into_chunks-IsWithin :
      (files : List FileDiff) → 0 < s.max_files_per_chunk → All IsWithin (group_into_chunks s files)
  unfolding group_into_chunks
  group_into_chunks-IsWithin files h =
      All-number (all_chunks s files) (length (all_chunks s files)) 0 (all_chunks-IsWithin files h)

-- The chunks from number `i + 1` on, all with the same total.
abbrev pub NumberedFrom : ℕ → ℕ → List DiffChunk → Type 0
NumberedFrom total i [] = i ≡ total
NumberedFrom total i (c ∷ cs) =
    (c.chunk_id ≡ i + 1) × (c.total_chunks ≡ total) × NumberedFrom total (suc i) cs

number-NumberedFrom :
    (cs : List DiffChunk) (total i : ℕ)
    → i + length cs ≡ total
    → NumberedFrom total i (number total i cs)
unfolding number
number-NumberedFrom [] total i h = omega arith
number-NumberedFrom (c ∷ cs) total i h =
    (refl, refl, number-NumberedFrom cs total (suc i) (omega arith))

-- The chunks are numbered 1, 2, … in their order, up to the total that each of them states.
pub group_into_chunks-NumberedFrom :
    (s : DiffSplitter) (files : List FileDiff)
    → (total : ℕ) × NumberedFrom total 0 (group_into_chunks s files)
unfolding group_into_chunks
group_into_chunks-NumberedFrom s files =
    (length (all_chunks s files), number-NumberedFrom (all_chunks s files) _ 0 (omega arith))
