-- ===== src/Processor/Existing/Blind.antt =====
-- What `fetchExistingAIComments` cannot see of what was posted before.
use agent_sets.Prelude.{
  All, All-append, Bool-cases, List, Option-cases, [], arith, drop, false, if◌then◌else◌, inl, inr,
  refl, some, suc, take, true, zero, ℕ, ◌++◌, ◌||◌, ◌∷◌, ◌≡◌, ◌≢◌, ◌⊎◌,
}
use agent_sets.Prelude.Int.{ℤ}
use agent_sets.Text.Trim.{trim_space}
use agent_sets.Processor.Tables.{
  untyped, file_table, summary_table, row_comments, table_line, table_lines, parse_table_comments,
  row_comment, TableState, TableType, default_file,
}
use agent_sets.Domain.{ReviewComment, is_empty}
use agent_sets.Processor.Markers.{marker_prefix, marker_suffix, parse_marker, marker_visible}
use agent_sets.Text.{Bytes, index, has_prefix, split, cons_head, lit, equal, contains}
use agent_sets.Text.Search.{Lacks}
use agent_sets.Processor.Existing.{
  place_of, marker_place, PostedComment, own_comment, read_posted, existing_comments, marks_summary,
  has_existing_summary, existing_files,
}

index-has_prefix : (s sub : Bytes) (i : ℕ) → index s sub ≡ some i → has_prefix (drop i s) sub ≡ true
unfolding index
index-has_prefix [] sub i h = ground arith
index-has_prefix (c ∷ s) sub zero h = ground arith
index-has_prefix (c ∷ s) sub (suc i) h = ground (arith, index-has_prefix s sub i)

has_prefix-split : (s p : Bytes) → has_prefix s p ≡ true → (t : Bytes) × (s ≡ p ++ t)
unfolding has_prefix
has_prefix-split s [] h = (s, refl)
has_prefix-split [] (c ∷ p) h = cc
has_prefix-split (d ∷ s) (c ∷ p) h =
    let (t, e) = has_prefix-split s p (ground arith) in (t, ground (arith, e))

-- The second of three parts or more is empty.
abbrev FindsNoPath : ℤ → List Bytes → Type 0
FindsNoPath line ps = (place_of ps [] line).0 ≡ []

module _ (line : ℤ) where
  FindsNoPath-cons_head :
      (c : ℕ) (ps : List Bytes) → FindsNoPath line ps → FindsNoPath line (cons_head c ps)
  FindsNoPath-cons_head c [] h = refl
  FindsNoPath-cons_head c (p ∷ []) h = refl
  FindsNoPath-cons_head c (p ∷ q ∷ []) h = refl
  FindsNoPath-cons_head c (p ∷ q ∷ r ∷ ps) h = h

  FindsNoPath-append :
      (s t : Bytes)
      → Lacks b':' s
      → ((n : ℕ) → FindsNoPath line (split (take n t) b':'))
      → (n : ℕ) → FindsNoPath line (split (take n (s ++ t)) b':')
  unfolding split
  FindsNoPath-append [] t k h n = h n
  FindsNoPath-append (c ∷ s) t (k, ks) h zero = refl
  FindsNoPath-append (c ∷ s) t (k, ks) h (suc n) =
      let rest = split (take n (s ++ t)) b':' in
      ground (arith, FindsNoPath-cons_head c rest (FindsNoPath-append s t ks h n))

  two_empty : (ps : List Bytes) → FindsNoPath line ([] ∷ [] ∷ ps)
  two_empty [] = refl
  two_empty (p ∷ ps) = refl

  two_colons : (t : Bytes) (n : ℕ) → FindsNoPath line (split (take n (b':' ∷ b':' ∷ t)) b':')
  unfolding split
  two_colons t zero = refl
  two_colons t (suc zero) = refl
  two_colons t (suc (suc n)) = two_empty (split (take n t) b':')

  marker_FindsNoPath :
      (s : Bytes) (n : ℕ)
      → has_prefix s marker_prefix ≡ true
      → FindsNoPath line (split (take n s) b':')
  marker_FindsNoPath s n h =
      let (t, e) = has_prefix-split s marker_prefix h in
      rw e
        (FindsNoPath-append (lit "<!-- ai-review") (b':' ∷ b':' ∷ t) (omega arith) (two_colons t) n)

  place_in :
      (raw : Bytes) (start : ℕ)
      → index raw marker_prefix ≡ some start
      → (marker_place raw [] line).0 ≡ []
  unfolding marker_place
  place_in raw start e = elim (Option-cases (index (drop start raw) marker_suffix)) [
    | inl f ↦ rw (e, marker_place) (rw (f, marker_place) refl)
    | inr (end, f) ↦
        rw (e, marker_place)
          (rw (f, marker_place)
            (marker_FindsNoPath (drop start raw) end (index-has_prefix raw marker_prefix start e)))
  ]

  -- The prefix of every marker ends in two colons, so the part that is taken for the path is empty.
  pub marker_place-nil : (raw : Bytes) → (marker_place raw [] line).0 ≡ []
  unfolding marker_place
  marker_place-nil raw = elim (Option-cases (index raw marker_prefix)) [
    | inl e ↦ rw (e, marker_place) refl
    | inr (start, e) ↦ place_in raw start e
  ]

abbrev Unmarked : List ReviewComment → Type 0
Unmarked = All (λ c. c.marker ≡ [])

row_comments-Unmarked :
    (t : TableType) (file : Bytes) (ps : List Bytes) → Unmarked (row_comments t file ps)
unfolding row_comments row_comment
row_comments-Unmarked untyped file (p₀ ∷ p₁ ∷ p₂ ∷ p₃ ∷ ps) = tt
row_comments-Unmarked file_table file (p₀ ∷ p₁ ∷ p₂ ∷ p₃ ∷ ps) = (refl, tt)
row_comments-Unmarked summary_table file (p₀ ∷ p₁ ∷ p₂ ∷ p₃ ∷ ps) = (refl, tt)
row_comments-Unmarked t file [] = tt
row_comments-Unmarked t file (p ∷ []) = tt
row_comments-Unmarked t file (p ∷ q ∷ []) = tt
row_comments-Unmarked t file (p ∷ q ∷ r ∷ []) = tt

table_line-comments :
    (file : Bytes) (st : TableState) (line : Bytes)
    → let more = row_comments st.table_type file (split line b'|') in
      ((table_line file st line).comments ≡ st.comments)
      ⊎ ((table_line file st line).comments ≡ st.comments ++ more)
unfolding table_line
table_line-comments file st line = ground arith

table_line-Unmarked :
    (file : Bytes) (st : TableState) (line : Bytes)
    → Unmarked st.comments
    → Unmarked (table_line file st line).comments
table_line-Unmarked file st line h = elim (table_line-comments file st line) [
  | inl e ↦ rw e h
  | inr e ↦ rw e (
      All-append (λ c. c.marker ≡ []) st.comments
        (row_comments st.table_type file (split line b'|')) h
        (row_comments-Unmarked st.table_type file (split line b'|')))
]

table_lines-Unmarked :
    (file : Bytes) (lines : List Bytes) (st : TableState)
    → Unmarked st.comments
    → Unmarked (table_lines file st lines).comments
unfolding table_lines
table_lines-Unmarked file [] st h = h
table_lines-Unmarked file (line ∷ lines) st h =
    table_lines-Unmarked file lines (table_line file st (trim_space line))
      (table_line-Unmarked file st (trim_space line) h)

parse_table_comments-Unmarked : (raw : Bytes) → Unmarked (parse_table_comments raw)
unfolding parse_table_comments
parse_table_comments-Unmarked raw =
    table_lines-Unmarked (default_file raw) (split raw b'\n')
      (record { comments = []; in_table = false; table_type = untyped }) tt

-- A posted comment that has no place in a file, or that holds a table.
abbrev pub IsGeneralOrTable : PostedComment → Type 0
IsGeneralOrTable v = (v.path ≡ []) ⊎ (parse_table_comments v.raw ≢ [])

own_comment-Unmarked :
    (cs : List ReviewComment) (raw : Bytes) (place : Bytes × ℤ)
    → (place.0 ≡ []) ⊎ (cs ≢ [])
    → Unmarked (own_comment cs raw place)
unfolding own_comment is_empty
own_comment-Unmarked [] raw (path, line) h = ground (arith, h)
own_comment-Unmarked (c ∷ cs) raw place h = tt

place_nil :
    (v : PostedComment)
    → IsGeneralOrTable v
    → let place = if is_empty v.path then marker_place v.raw v.path v.line else (v.path, v.line) in
      (place.0 ≡ []) ⊎ (parse_table_comments v.raw ≢ [])
unfolding is_empty equal
place_nil v (inl e) = inl (rw e (marker_place-nil v.line v.raw))
place_nil v (inr h) = inr h

read_posted-Unmarked : (v : PostedComment) → IsGeneralOrTable v → Unmarked (read_posted v)
unfolding read_posted
read_posted-Unmarked v h =
    let cs = parse_table_comments v.raw in
    let place = if is_empty v.path then marker_place v.raw v.path v.line else (v.path, v.line) in
    elim (Bool-cases (contains v.raw marker_prefix || contains v.raw marker_visible)) [
      | inl e ↦ rw e (
          All-append (λ c. c.marker ≡ []) cs (own_comment cs v.raw place)
            (parse_table_comments-Unmarked v.raw)
            (own_comment-Unmarked cs v.raw place (place_nil v h)))
      | inr e ↦ rw e tt
    ]

existing_comments-Unmarked :
    (vs : List PostedComment) → All IsGeneralOrTable vs → Unmarked (existing_comments vs)
unfolding existing_comments
existing_comments-Unmarked [] h = tt
existing_comments-Unmarked (v ∷ vs) (h, hs) =
    All-append (λ c. c.marker ≡ []) (read_posted v) (existing_comments vs)
      (read_posted-Unmarked v h) (existing_comments-Unmarked vs hs)

no_summary : (commit marker : Bytes) → marker ≡ [] → marks_summary commit marker ≡ false
unfolding marks_summary parse_marker has_prefix
no_summary commit marker h = rw h refl

Unmarked-has_existing_summary :
    (cs : List ReviewComment) (commit : Bytes)
    → Unmarked cs
    → has_existing_summary cs commit ≡ false
unfolding has_existing_summary
Unmarked-has_existing_summary [] commit h = refl
Unmarked-has_existing_summary (c ∷ cs) commit (h, hs) =
    rw (no_summary commit c.marker h) (Unmarked-has_existing_summary cs commit hs)

Unmarked-existing_files :
    (cs : List ReviewComment) (commit : Bytes) → Unmarked cs → existing_files cs commit ≡ []
unfolding existing_files is_empty equal
Unmarked-existing_files [] commit h = refl
Unmarked-existing_files (c ∷ cs) commit (h, hs) = rw h (Unmarked-existing_files cs commit hs)

-- If each posted comment has no place in a file or holds a table, as the summary and the merged
-- file comments do, no summary and no file comment of any commit is found among them.
pub existing_comments_blind :
    (vs : List PostedComment) (commit : Bytes)
    → All IsGeneralOrTable vs
    → (has_existing_summary (existing_comments vs) commit ≡ false)
      × (existing_files (existing_comments vs) commit ≡ [])
existing_comments_blind vs commit h =
    let u = existing_comments-Unmarked vs h in
    (Unmarked-has_existing_summary _ commit u, Unmarked-existing_files _ commit u)
