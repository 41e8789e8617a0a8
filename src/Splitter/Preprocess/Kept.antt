-- ===== src/Splitter/Preprocess/Kept.antt =====
-- The loop over the lines of a file keeps every line that is neither context nor deleted.

use agent_sets.Prelude.{
  All, All-append, All-map, Bool, Bool-cases, List, [], ap, append-nil, append_assoc, arith, false,
  filter, filter-append, filter-none, filter-skip, inl, inr, leb, length, ltb, not, refl, suc, sym,
  true, ◌&&◌, ◌++◌, ◌+◌, ◌==◌, ◌||◌, ◌∙◌, ◌∷◌, ◌≡◌,
}
use agent_sets.Prelude.Int.{ℤ}
use agent_sets.Splitter.Spaces.{format_int}
use agent_sets.Splitter.Preprocess.{
  PreprocessOptions, is_context, is_delete, folded, flush_deletes, context_line, other_line,
  LineState, omitted, is_header, process_line, is_add, finish_lines, process_each, process_lines,
}
use agent_sets.Text.{Bytes, itoa}

-- a line that is never left out
abbrev pub is_fixed : Bytes → Bool
is_fixed line = not (is_context line) && not (is_delete line)

abbrev pub IsDelete : Bytes → Type 0
IsDelete line = is_delete line ≡ true

is_fixed-IsDelete : (line : Bytes) → IsDelete line → is_fixed line ≡ false
is_fixed-IsDelete line h = ground arith

is_fixed-context : (line : Bytes) → is_context line ≡ true → is_fixed line ≡ false
is_fixed-context line h = ground arith

pub always_kept : (a b c : Bool) → c ≡ false → (a || b || not c) ≡ true
always_kept true b c h = refl
always_kept false true c h = refl
always_kept false false c h = rw h refl

module _ (opts : PreprocessOptions) where
  folded-fixed :
      (show : ℤ → Bytes) (buffer : List Bytes)
      → All IsDelete buffer
      → filter is_fixed (folded show opts buffer) ≡ []
  unfolding folded is_context is_delete
  folded-fixed show buffer h = elim (Bool-cases (ltb opts.fold_deletes_over (length buffer))) [
    | inl e ↦ rw e refl
    | inr e ↦ rw e (filter-none is_fixed buffer (All-map buffer is_fixed-IsDelete h))
  ]

  flush_deletes-fixed :
      (st : LineState)
      → All IsDelete st.delete_buffer
      → filter is_fixed (flush_deletes opts st).result ≡ filter is_fixed st.result
  unfolding flush_deletes
  flush_deletes-fixed st h = go st.delete_buffer h refl
    where
      go :
          (b : List Bytes)
          → All IsDelete b
          → st.delete_buffer ≡ b
          → filter is_fixed (flush_deletes opts st).result ≡ filter is_fixed st.result
      go [] hb e = rw (e, flush_deletes) refl
      go (x ∷ xs) hb e =
          rw (e, flush_deletes)
            (filter-append is_fixed st.result (folded itoa opts (x ∷ xs))
              ∙ ap (λ (t : List Bytes). filter is_fixed st.result ++ t)
                  (folded-fixed itoa (x ∷ xs) hb)
              ∙ append-nil (filter is_fixed st.result))

  pub flush_deletes-empty : (st : LineState) → (flush_deletes opts st).delete_buffer ≡ []
  unfolding flush_deletes
  flush_deletes-empty st = go st.delete_buffer refl
    where
      go : (b : List Bytes) → st.delete_buffer ≡ b → (flush_deletes opts st).delete_buffer ≡ []
      go [] e = rw (e, flush_deletes) e
      go (x ∷ xs) e = rw (e, flush_deletes) refl

  context_line-fixed :
      (st : LineState) (line : Bytes)
      → is_context line ≡ true
      → filter is_fixed (context_line opts st line).result ≡ filter is_fixed st.result
  unfolding context_line is_context is_delete
  context_line-fixed st line h =
      elim (Bool-cases (leb (suc st.consecutive_context) opts.max_context_lines)) [
        | inl e ↦ rw e (filter-skip is_fixed st.result line (is_fixed-context line h))
        | inr e ↦ elim (Bool-cases (suc st.consecutive_context == opts.max_context_lines + 1)) [
          | inl d ↦ rw (e, d) (filter-skip is_fixed st.result omitted refl)
          | inr d ↦ rw (e, d) refl
        ]
      ]

  context_line-buffer :
      (st : LineState) (line : Bytes) → (context_line opts st line).delete_buffer ≡ st.delete_buffer
  unfolding context_line
  context_line-buffer st line = ground arith

  pub other_line-result :
      (st : LineState) (line : Bytes)
      → is_context line ≡ false
      → (other_line st line).result ≡ st.result ++ (line ∷ [])
  unfolding other_line
  other_line-result st line h =
      rw (always_kept (is_header line) (is_add line) (is_context line) h) refl

  -- one round keeps what it has and adds its line, if that is fixed
  process_line-fixed :
      (st : LineState) (line : Bytes)
      → All IsDelete st.delete_buffer
      → filter is_fixed (process_line opts st line).result
        ≡ filter is_fixed (st.result ++ (line ∷ []))
  unfolding process_line
  process_line-fixed st line h = elim (Bool-cases (is_delete line)) [
    | inl d ↦ rw d (sym (filter-skip is_fixed st.result line (is_fixed-IsDelete line d)))
    | inr d ↦ elim (Bool-cases (is_context line)) [
      | inl c ↦
          rw (d, c)
            (context_line-fixed (flush_deletes opts st) line c
              ∙ flush_deletes-fixed st h
              ∙ sym (filter-skip is_fixed st.result line (is_fixed-context line c)))
      | inr c ↦
          rw (d, c, always_kept (is_header line) (is_add line) false refl)
            (filter-append is_fixed (flush_deletes opts st).result (line ∷ [])
              ∙ ap (λ (t : List Bytes). t ++ filter is_fixed (line ∷ [])) (flush_deletes-fixed st h)
              ∙ sym (filter-append is_fixed st.result (line ∷ [])))
    ]
  ]

  process_line-IsDelete :
      (st : LineState) (line : Bytes)
      → All IsDelete st.delete_buffer
      → All IsDelete (process_line opts st line).delete_buffer
  unfolding process_line
  process_line-IsDelete st line h = elim (Bool-cases (is_delete line)) [
    | inl d ↦ rw d (All-append IsDelete st.delete_buffer (line ∷ []) h (d, tt))
    | inr d ↦ elim (Bool-cases (is_context line)) [
      | inl c ↦ rw (d, c, context_line-buffer, flush_deletes-empty) tt
      | inr c ↦
          rw (d, c, always_kept (is_header line) (is_add line) false refl, flush_deletes-empty) tt
    ]
  ]

  finished :
      (st : LineState)
      → All IsDelete st.delete_buffer
      → filter is_fixed (finish_lines opts st) ≡ filter is_fixed (st.result ++ [])
  unfolding finish_lines
  finished st h = go st.delete_buffer h refl
    where
      go :
          (b : List Bytes)
          → All IsDelete b
          → st.delete_buffer ≡ b
          → filter is_fixed (finish_lines opts st) ≡ filter is_fixed (st.result ++ [])
      go [] hb e = rw (e, finish_lines) (ap (filter is_fixed) (sym (append-nil st.result)))
      go (x ∷ xs) hb e =
          rw (e, finish_lines)
            (filter-append is_fixed st.result (folded format_int opts (x ∷ xs))
              ∙ ap (λ (t : List Bytes). filter is_fixed st.result ++ t)
                  (folded-fixed format_int (x ∷ xs) hb)
              ∙ sym (filter-append is_fixed st.result []))

  process_each-fixed :
      (st : LineState) (lines : List Bytes)
      → All IsDelete st.delete_buffer
      → filter is_fixed (finish_lines opts (process_each opts st lines))
        ≡ filter is_fixed (st.result ++ lines)
  unfolding process_each
  process_each-fixed st [] h = finished st h
  process_each-fixed st (line ∷ lines) h =
      process_each-fixed (process_line opts st line) lines (process_line-IsDelete st line h)
      ∙ filter-append is_fixed (process_line opts st line).result lines
      ∙ ap (λ (t : List Bytes). t ++ filter is_fixed lines) (process_line-fixed st line h)
      ∙ sym (filter-append is_fixed (st.result ++ (line ∷ [])) lines)
      ∙ ap (filter is_fixed) (append_assoc st.result (line ∷ []) lines)

-- Whatever the limits, the lines that are neither context nor deleted come out as they went in:
-- all of them, in their order.
pub process_lines-fixed :
    (opts : PreprocessOptions) (lines : List Bytes)
    → filter is_fixed (process_lines opts lines) ≡ filter is_fixed lines
unfolding process_lines
process_lines-fixed opts lines = process_each-fixed opts _ lines tt
