-- ===== src/Splitter/Hunks/Parts.antt =====
-- The pieces of an oversized file hold its hunks in their order, and stay near the token limit.
use agent_sets.Prelude.{
  All, All-append, Bool-cases, List, [], ap, append-nil, append_assoc, arith, inl, inr, length,
  length-append, refl, sym, true, ℕ, ◌*◌, ◌++◌, ◌+◌, ◌<◌, ◌∙◌, ◌∷◌, ◌≡◌, ◌≤◌, ◌⊎◌,
}
use agent_sets.Text.{Bytes, join, lit}
use agent_sets.Splitter.Types.{FileDiff, DiffSplitter, estimate_tokens, file_diff}
use agent_sets.Splitter.Hunks.{
  HunkState, hunks_piece, large_pieces, flush_hunks, put_large, put_hunk, add_hunk, add_hunks,
  split_by_hunks, hunk_too_large, extract_file_header, hunk_would_exceed, hunk_start_state,
}

-- Hunks that share a piece, or a hunk that has pieces of its own.
pub data Part : Type 0 where
  group : List Bytes → Part
  large : Bytes → Part

abbrev part_hunks : Part → List Bytes
part_hunks (group hs) = hs
part_hunks (large h) = h ∷ []

abbrev pub hunks_of : List Part → List Bytes
hunks_of [] = []
hunks_of (p ∷ ps) = part_hunks p ++ hunks_of ps

hunks_of-append : (ps qs : List Part) → hunks_of (ps ++ qs) ≡ hunks_of ps ++ hunks_of qs
hunks_of-append [] qs = refl
hunks_of-append (p ∷ ps) qs = simp (hunks_of-append ps qs, append_assoc)

abbrev pub sum_estimates : List Bytes → ℕ
sum_estimates [] = 0
sum_estimates (h ∷ hs) = estimate_tokens h + sum_estimates hs

sum_estimates-append :
    (xs ys : List Bytes) → sum_estimates (xs ++ ys) ≡ sum_estimates xs + sum_estimates ys
sum_estimates-append [] ys = omega arith
sum_estimates-append (x ∷ xs) ys = omega (arith, sum_estimates-append xs ys)

module _ (s : DiffSplitter) (path header : Bytes) where
  abbrev part_pieces : Part → List FileDiff
  part_pieces (group hs) = hunks_piece s path header hs ∷ []
  part_pieces (large h) = large_pieces s path header h

  abbrev pub pieces_of : List Part → List FileDiff
  pieces_of [] = []
  pieces_of (p ∷ ps) = part_pieces p ++ pieces_of ps

  pieces_of-append : (ps qs : List Part) → pieces_of (ps ++ qs) ≡ pieces_of ps ++ pieces_of qs
  pieces_of-append [] qs = refl
  pieces_of-append (p ∷ ps) qs = simp (pieces_of-append ps qs, append_assoc)

  -- A group has a hunk and keeps to the limit by its estimates; a large hunk does not fit.
  abbrev pub Fits : Part → Type 0
  Fits (group hs) =
      (0 < length hs) × (estimate_tokens header + sum_estimates hs ≤ s.max_tokens_per_chunk)
  Fits (large h) = s.max_tokens_per_chunk < estimate_tokens h + estimate_tokens header

  record Tracks (done : List Bytes) (st : HunkState) : Type 0 where
    parts : List Part
    renders : st.result ≡ pieces_of parts
    hunks : hunks_of parts ++ st.current_hunks ≡ done
    fits : All Fits parts
    counted : st.current_tokens ≡ estimate_tokens header + sum_estimates st.current_hunks
    bounded : (st.current_hunks ≡ []) ⊎ (st.current_tokens ≤ s.max_tokens_per_chunk)

  add_part :
      {done : List Bytes} (st : HunkState) (p : Part) (t : Tracks done st)
      → Fits p
      → hunks_of t.parts ++ part_hunks p ≡ done
      → Tracks done (record {
        result = st.result ++ part_pieces p;
        current_hunks = [];
        current_tokens = estimate_tokens header;
      })
  add_part st p t f e = record {
    parts = t.parts ++ p ∷ [];
    renders =
        ap (λ (l : List FileDiff). l ++ part_pieces p) t.renders
        ∙ ap (λ (l : List FileDiff). pieces_of t.parts ++ l) (sym (append-nil (part_pieces p)))
        ∙ sym (pieces_of-append t.parts (p ∷ []));
    hunks =
        append-nil _
        ∙ hunks_of-append t.parts (p ∷ [])
        ∙ ap (λ (l : List Bytes). hunks_of t.parts ++ l) (append-nil (part_hunks p))
        ∙ e;
    fits = All-append Fits t.parts (p ∷ []) t.fits (f, tt);
    counted = omega arith;
    bounded = inl refl;
  }

  flush-Tracks :
      (result : List FileDiff) (hs : List Bytes) (n : ℕ) {done : List Bytes}
      → let st : HunkState = record { result = result; current_hunks = hs; current_tokens = n } in
        Tracks done st → Tracks done (flush_hunks s path header st)
  unfolding flush_hunks
  flush-Tracks result [] n t = t
  flush-Tracks result (h ∷ hs) n t =
      add_part (record { result = result; current_hunks = h ∷ hs; current_tokens = n })
        (group (h ∷ hs)) t (omega arith, ground (arith, t.bounded, t.counted)) t.hunks

  flush_hunks_nil : (st : HunkState) → (flush_hunks s path header st).current_hunks ≡ []
  unfolding flush_hunks
  flush_hunks_nil st = ground arith

  flushed :
      {done : List Bytes} (st : HunkState)
      → Tracks done st
      → Tracks done (flush_hunks s path header st)
  flushed st t = flush-Tracks st.result st.current_hunks st.current_tokens t

  put_large-Tracks :
      {done : List Bytes} (st : HunkState) (h : Bytes)
      → hunk_too_large s path header h ≡ true
      → st.current_hunks ≡ []
      → Tracks done st
      → Tracks (done ++ h ∷ []) (put_large s path header st h)
  unfolding put_large
  put_large-Tracks {done} st h big e t = record {
    parts = t.parts ++ large h ∷ [];
    renders =
        ap (λ (l : List FileDiff). l ++ large_pieces s path header h) t.renders
        ∙ ap (λ (l : List FileDiff). pieces_of t.parts ++ l)
            (sym (append-nil (part_pieces (large h))))
        ∙ sym (pieces_of-append t.parts (large h ∷ []));
    hunks = rw e (
        append-nil _
        ∙ hunks_of-append t.parts (large h ∷ [])
        ∙ ap (λ (l : List Bytes). l ++ h ∷ [])
            (sym (append-nil (hunks_of t.parts)) ∙ rw e at t.hunks));
    fits = All-append Fits t.parts (large h ∷ []) t.fits (ground arith, tt);
    counted = t.counted;
    bounded = inl e;
  }

  put_hunk-Tracks :
      {done : List Bytes} (st : HunkState) (h : Bytes)
      → st.current_tokens + estimate_tokens h ≤ s.max_tokens_per_chunk
      → Tracks done st
      → Tracks (done ++ h ∷ []) (put_hunk s path header st h)
  unfolding put_hunk
  put_hunk-Tracks st h le t = record {
    parts = t.parts;
    renders = t.renders;
    hunks =
        sym (append_assoc (hunks_of t.parts) st.current_hunks (h ∷ []))
        ∙ ap (λ (l : List Bytes). l ++ h ∷ []) t.hunks;
    fits = t.fits;
    counted = omega (arith, t.counted, sum_estimates-append st.current_hunks (h ∷ []));
    bounded = inr le;
  }

  add_hunk-Tracks :
      {done : List Bytes} (st : HunkState) (h : Bytes)
      → Tracks done st
      → Tracks (done ++ h ∷ []) (add_hunk s path header st h)
  unfolding add_hunk
  add_hunk-Tracks st h t = elim (Bool-cases (hunk_too_large s path header h)) [
    | inl big ↦
        rw big (
          put_large-Tracks (flush_hunks s path header st) h big (flush_hunks_nil st) (flushed st t))
    | inr small ↦ rw small (elim (Bool-cases (hunk_would_exceed s path header st h)) [
      | inl over ↦
          let t' = flushed st t in
          rw over (
            put_hunk-Tracks (flush_hunks s path header st) h
              (ground (arith, t'.counted, flush_hunks_nil st)) t')
      | inr fits ↦ rw fits (put_hunk-Tracks st h (ground arith) t)
    ])
  ]

  add_hunks-Tracks :
      (hs : List Bytes) {done : List Bytes} (st : HunkState)
      → Tracks done st
      → Tracks (done ++ hs) (add_hunks s path header st hs)
  unfolding add_hunks
  add_hunks-Tracks [] st t = rw append-nil t
  add_hunks-Tracks (h ∷ hs) {done} st t =
      rw (append_assoc done (h ∷ []) hs) at
        (add_hunks-Tracks hs (add_hunk s path header st h) (add_hunk-Tracks st h t))

-- An oversized file becomes parts that hold its hunks in their order. A part is one piece with at
-- least one hunk, whose estimate with the file's header keeps to the limit, or it is a hunk that
-- does not fit with the header, which gets the pieces of `splitLargeHunk`.
pub split_by_hunks_parts :
    (s : DiffSplitter) (file : FileDiff) (hunks : List Bytes)
    → let header = extract_file_header file.content in
      (ps : List Part) × (split_by_hunks s file hunks ≡ pieces_of s file.path header ps)
      × (hunks_of ps ≡ hunks)
      × All (Fits s file.path header) ps
unfolding split_by_hunks
split_by_hunks_parts s file hunks =
    let header = extract_file_header file.content in
    let path = file.path in
    let st = hunk_start_state header in
    let t = flushed s path header (add_hunks s path header st hunks) (
      add_hunks-Tracks s path header hunks st (record {
        parts = [];
        renders = refl;
        hunks = refl;
        fits = tt;
        counted = omega arith;
        bounded = inl refl;
      })) in
    (
      t.parts,
      t.renders,
      sym (append-nil _) ∙ rw (flush_hunks_nil s path header _) at t.hunks,
      t.fits,
    )

length-join :
    (h : Bytes) (hs : List Bytes)
    → length (join (h ∷ hs) (lit "\n")) ≤ 4 * sum_estimates (h ∷ hs) + 4 * length hs + 3
unfolding join estimate_tokens
length-join h [] = omega arith
length-join h (g ∷ hs) =
    omega (arith, length-join g hs, length-append {0} h (b'\n' ∷ join (g ∷ hs) (lit "\n")))

-- A piece of several hunks can pass the limit, for the estimates are rounded down and the line
-- breaks between hunks are not counted: by at most one token for each hunk of the piece.
pub hunks_piece-tokens :
    (s : DiffSplitter) (path header : Bytes) (hs : List Bytes)
    → Fits s path header (group hs)
    → (hunks_piece s path header hs).tokens ≤ s.max_tokens_per_chunk + length hs
unfolding hunks_piece file_diff estimate_tokens
hunks_piece-tokens s path header [] f = absurd (omega arith)
hunks_piece-tokens s path header (h ∷ hs) f =
    omega (arith, length-join h hs, length-append {0} header (join (h ∷ hs) (lit "\n")))
