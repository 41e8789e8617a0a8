-- ===== src/Splitter/Preprocess/Runs.antt =====
-- How many context lines can stand one behind the other after the loop over the lines.

use agent_sets.Prelude.{
  All, All-append, All-map, Bool, Bool-cases, List, [], arith, false, if◌then◌else◌, inl, inr, leb,
  length, ltb, refl, suc, true, ℕ, ◌++◌, ◌+◌, ◌==◌, ◌∷◌, ◌≡◌, ◌≢◌, ◌≤◌,
}
use agent_sets.Prelude.Int.{ℤ}
use agent_sets.Splitter.Spaces.{format_int}
use agent_sets.Splitter.Preprocess.Kept.{IsDelete, flush_deletes-empty, always_kept}
use agent_sets.Splitter.Preprocess.{
  is_delete, PreprocessOptions, is_context, LineState, folded, flush_deletes, head_is, context_line,
  process_line, process_each, finish_lines, process_lines, omitted, is_header, is_add,
}
use agent_sets.Text.{Bytes, itoa}

module _ (test : Bytes → Bool) where
  -- the length of the run of lines at the end of a text, from that in front of the text
  abbrev pub run_after : ℕ → List Bytes → ℕ
  run_after count [] = count
  run_after count (x ∷ xs) = run_after (if test x then suc count else 0) xs

  -- No run of lines that pass the test is longer than a limit.
  abbrev pub RunsWithin : ℕ → ℕ → List Bytes → Type 0
  RunsWithin limit count [] = Unit
  RunsWithin limit count (x ∷ xs) =
      let next = if test x then suc count else 0 in (next ≤ limit) × RunsWithin limit next xs

  RunsWithin-append :
      (limit count : ℕ) (xs ys : List Bytes)
      → RunsWithin limit count xs
      → RunsWithin limit (run_after count xs) ys
      → RunsWithin limit count (xs ++ ys)
  RunsWithin-append limit count [] ys h k = k
  RunsWithin-append limit count (x ∷ xs) ys (h, hs) k =
      (h, RunsWithin-append limit (if test x then suc count else 0) xs ys hs k)

  run_after-append :
      (count : ℕ) (xs ys : List Bytes)
      → run_after count (xs ++ ys) ≡ run_after (run_after count xs) ys
  run_after-append count [] ys = refl
  run_after-append count (x ∷ xs) ys = run_after-append (if test x then suc count else 0) xs ys

  RunsWithin-none :
      (limit count : ℕ) (xs : List Bytes) → All (λ x. test x ≡ false) xs → RunsWithin limit count xs
  RunsWithin-none limit count [] h = tt
  RunsWithin-none limit count (x ∷ xs) (h, hs) = rw h (omega arith, RunsWithin-none limit 0 xs hs)

  run_after-none :
      (count : ℕ) (x : Bytes) (xs : List Bytes)
      → All (λ x. test x ≡ false) (x ∷ xs)
      → run_after count (x ∷ xs) ≡ 0
  run_after-none count x [] (h, hs) = rw h refl
  run_after-none count x (y ∷ xs) (h, hs) = run_after-none (if test x then suc count else 0) y xs hs

is_context-IsDelete : (line : Bytes) → IsDelete line → is_context line ≡ false
unfolding is_delete is_context head_is
is_context-IsDelete [] h = refl
is_context-IsDelete (c ∷ s) h = ground arith

snoc-ne-nil : (xs : List Bytes) (x : Bytes) → xs ++ x ∷ [] ≢ []
snoc-ne-nil [] x = ground arith
snoc-ne-nil (y ∷ xs) x = ground arith

module _ (opts : PreprocessOptions) where
  abbrev limit : ℕ
  limit = opts.max_context_lines + 1

  -- Between two rounds: with no delete held back, the run at the end is counted.
  record Steady (st : LineState) : Type 0 where
    pub within : RunsWithin is_context limit 0 st.result
    pub counted : run_after is_context 0 st.result ≤ st.consecutive_context

  record Inv (st : LineState) : Type 0 where
    pub runs : RunsWithin is_context limit 0 st.result
    pub deletes : All IsDelete st.delete_buffer
    pub count : st.delete_buffer ≡ [] → run_after is_context 0 st.result ≤ st.consecutive_context

  folded-others :
      (show : ℤ → Bytes) (buffer : List Bytes)
      → All IsDelete buffer
      → All (λ x. is_context x ≡ false) (folded show opts buffer)
  unfolding folded is_context head_is
  folded-others show buffer h = elim (Bool-cases (ltb opts.fold_deletes_over (length buffer))) [
    | inl e ↦ rw e (refl, tt)
    | inr e ↦ rw e (All-map buffer is_context-IsDelete h)
  ]

  folded-run :
      (show : ℤ → Bytes) (count : ℕ) (b : Bytes) (bs : List Bytes)
      → All IsDelete (b ∷ bs)
      → run_after is_context count (folded show opts (b ∷ bs)) ≡ 0
  unfolding folded is_context head_is
  folded-run show count b bs h = elim (Bool-cases (ltb opts.fold_deletes_over (suc (length bs)))) [
    | inl e ↦ rw e refl
    | inr e ↦ rw e (run_after-none is_context count b bs (All-map (b ∷ bs) is_context-IsDelete h))
  ]

  flush_deletes-Steady : (st : LineState) → Inv st → Steady (flush_deletes opts st)
  unfolding flush_deletes
  flush_deletes-Steady st inv = go st.delete_buffer inv.deletes inv.count refl
    where
      go :
          (b : List Bytes)
          → All IsDelete b
          → (b ≡ [] → run_after is_context 0 st.result ≤ st.consecutive_context)
          → st.delete_buffer ≡ b
          → Steady (flush_deletes opts st)
      go [] hb k e = rw (e, flush_deletes) (record { within = inv.runs; counted = k refl })
      go (x ∷ xs) hb k e =
          rw (e, flush_deletes)
            (record {
              within =
                  RunsWithin-append is_context limit 0 st.result (folded itoa opts (x ∷ xs))
                    inv.runs
                    (RunsWithin-none is_context limit _ (folded itoa opts (x ∷ xs))
                      (folded-others itoa (x ∷ xs) hb));
              counted = omega (
                arith,
                run_after-append is_context 0 st.result (folded itoa opts (x ∷ xs)),
                folded-run itoa (run_after is_context 0 st.result) x xs hb,
              );
            })

  context_line-Inv :
      (st : LineState) (line : Bytes)
      → Steady st
      → st.delete_buffer ≡ []
      → is_context line ≡ true
      → Inv (context_line opts st line)
  unfolding context_line is_context
  context_line-Inv st line k e h =
      elim (Bool-cases (leb (suc st.consecutive_context) opts.max_context_lines)) [
        | inl fits ↦ rw fits (grown line h (ground arith))
        | inr more ↦ elim (Bool-cases (suc st.consecutive_context == opts.max_context_lines + 1)) [
          | inl d ↦ rw (more, d) (grown omitted refl (ground arith))
          | inr d ↦
              rw (more, d)
                (record {
                  runs = k.within;
                  deletes = rw e tt;
                  count = λ _. omega (arith, k.counted);
                })
        ]
      ]
    where
      grown :
          (x : Bytes)
          → is_context x ≡ true
          → suc st.consecutive_context ≤ limit
          → Inv (record st {
            result = st.result ++ (x ∷ []);
            consecutive_context = suc st.consecutive_context;
          })
      grown x hx fits = record {
        runs =
            RunsWithin-append is_context limit 0 st.result (x ∷ []) k.within
              (rw hx (omega (arith, k.counted), tt));
        deletes = rw e tt;
        count = λ _.
            rw (run_after-append is_context 0 st.result (x ∷ []), hx) (omega (arith, k.counted));
      }

  other_line-Inv :
      (st : LineState) (line : Bytes)
      → Steady st
      → st.delete_buffer ≡ []
      → is_context line ≡ false
      → Inv (record st { result = st.result ++ (line ∷ []); consecutive_context = 0 })
  other_line-Inv st line k e h = record {
    runs =
        RunsWithin-append is_context limit 0 st.result (line ∷ []) k.within
          (RunsWithin-none is_context limit _ (line ∷ []) (h, tt));
    deletes = rw e tt;
    count = λ _. omega (
      arith,
      run_after-append is_context 0 st.result (line ∷ []),
      run_after-none is_context (run_after is_context 0 st.result) line [] (h, tt),
    );
  }

  process_line-Inv : (st : LineState) (line : Bytes) → Inv st → Inv (process_line opts st line)
  unfolding process_line
  process_line-Inv st line inv = elim (Bool-cases (is_delete line)) [
    | inl d ↦ rw d (record {
      runs = inv.runs;
      deletes = All-append IsDelete st.delete_buffer (line ∷ []) inv.deletes (d, tt);
      count = λ e. absurd (snoc-ne-nil st.delete_buffer line e);
    })
    | inr d ↦ elim (Bool-cases (is_context line)) [
      | inl c ↦
          rw (d, c)
            (context_line-Inv (flush_deletes opts st) line (flush_deletes-Steady st inv)
              (flush_deletes-empty opts st) c)
      | inr c ↦
          rw (d, c, always_kept (is_header line) (is_add line) false refl)
            (other_line-Inv (flush_deletes opts st) line (flush_deletes-Steady st inv)
              (flush_deletes-empty opts st) c)
    ]
  ]

  process_each-Inv :
      (st : LineState) (lines : List Bytes) → Inv st → Inv (process_each opts st lines)
  unfolding process_each
  process_each-Inv st [] inv = inv
  process_each-Inv st (line ∷ lines) inv =
      process_each-Inv (process_line opts st line) lines (process_line-Inv st line inv)

  finish_lines-within :
      (st : LineState) → Inv st → RunsWithin is_context limit 0 (finish_lines opts st)
  unfolding finish_lines
  finish_lines-within st inv = go st.delete_buffer inv.deletes refl
    where
      go :
          (b : List Bytes)
          → All IsDelete b
          → st.delete_buffer ≡ b
          → RunsWithin is_context limit 0 (finish_lines opts st)
      go [] hb e = rw (e, finish_lines) inv.runs
      go (x ∷ xs) hb e =
          rw (e, finish_lines)
            (RunsWithin-append is_context limit 0 st.result (folded format_int opts (x ∷ xs))
              inv.runs
              (RunsWithin-none is_context limit _ (folded format_int opts (x ∷ xs))
                (folded-others format_int (x ∷ xs) hb)))

-- No run of context lines that comes out is longer than the limit, but for the one line that stands
-- for those left out.
pub process_lines-RunsWithin :
    (opts : PreprocessOptions) (lines : List Bytes)
    → RunsWithin is_context (opts.max_context_lines + 1) 0 (process_lines opts lines)
unfolding process_lines
process_lines-RunsWithin opts lines =
    finish_lines-within opts _
      (process_each-Inv opts _ lines (record { runs = tt; deletes = tt; count = λ _. omega arith }))
