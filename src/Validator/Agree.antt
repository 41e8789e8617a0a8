-- ===== src/Validator/Agree.antt =====
-- The ranges and the line types of a diff speak of the same lines.

use agent_sets.Prelude.{
  All, Bool, Bool-cases, List, Option, Option-cases, [], ap, arith, false, if◌then◌else◌, inl, inr,
  length, none, not, refl, some, suc, sym, true, ℕ, ◌&&◌, ◌+◌, ◌-◌, ◌<◌, ◌||◌, ◌∙◌, ◌∷◌, ◌≡◌, ◌≤◌,
}
use agent_sets.Prelude.Int.{eqb_ℤ, max_int, negsuc, pos, ℤ, ◌≤ℤ◌}
use agent_sets.Validator.Answers.{is_valid}
use agent_sets.Validator.Names.Numbers.{match_hunk-IsNumber}
use agent_sets.Text.Trim.{trim_space}
use agent_sets.Domain.{is_empty}
use agent_sets.Text.Search.{equal_iff}
use agent_sets.Maps.Laws.{lookup-put, eqb_ℤ_iff}
use agent_sets.Text.Number.{atoi}
use agent_sets.Validator.Ranges.Cover.{Grown, in_ranges-add_line, add_line-Grown, succ_line}
use agent_sets.Validator.Names.{match_hunk, normalize_file_path, match_file}
use agent_sets.Validator.Ranges.{in_ranges, add_line, LineRange}
use agent_sets.Maps.{at_key, put, lookup, or_nil}
use agent_sets.Validator.Parse.{
  CommentValidator, ParseState, mark_line, LineType, add_valid_line, diff_line, file_header,
  parse_line, parse_each, added, context, new_comment_validator,
}
use agent_sets.Text.{Bytes, is_some, equal, has_prefix, lit, split}

-- The line numbers of a diff stay within an int: no hunk starts so high that counting the lines
-- behind it passes the largest int.
abbrev pub InRange : List Bytes → Type 0
InRange [] = Unit
InRange (line ∷ lines) =
    ((d : Bytes) → match_hunk line ≡ some d → (atoi d).0 ≤ℤ pos (max_int - length lines))
    × (length lines < max_int)
    × InRange lines

-- A file's line has a type if it is in the file's ranges, and only then.
abbrev pub Agrees : CommentValidator → Type 0
Agrees v =
    (f : Bytes) (x : ℤ)
    → in_ranges (at_key f v.valid_ranges) x ≡ is_some (lookup eqb_ℤ x (at_key f v.line_types))

at_key-put :
    {V : Type 0} (j k : Bytes) (vs : List V) (m : List (Bytes × List V))
    → at_key j (put equal k vs m) ≡ (if equal j k then vs else at_key j m)
unfolding at_key
at_key-put j k vs m = ap or_nil (lookup-put equal k j vs m equal_iff) ∙ pick (equal j k)
  where
    pick :
        (b : Bool)
        → or_nil (if b then some vs else lookup equal j m) ≡ (if b then vs else at_key j m)
    pick true = refl
    pick false = refl

-- the map of line types at a file's header
at_key-header :
    (f file : Bytes) (m : List (Bytes × List (ℤ × LineType)))
    → at_key f (if is_some (lookup equal file m) then m else put equal file [] m) ≡ at_key f m
unfolding is_some at_key
at_key-header f file m = elim (Option-cases (lookup equal file m)) [
  | inl e ↦ rw (e, at_key-put f file [] m) (absent e)
  | inr (vs, e) ↦ rw e refl
]
  where
    absent : lookup equal file m ≡ none → (if equal f file then [] else at_key f m) ≡ at_key f m
    absent e = elim (Bool-cases (equal f file)) [
      | inl d ↦ rw (d, (equal_iff f file).0 d, at_key, e) refl
      | inr d ↦ rw d refl
    ]

record Inv (left : ℕ) (st : ParseState) : Type 0 where
  pub agrees : Agrees st.validator
  pub grown : (f : Bytes) → All Grown (at_key f st.validator.valid_ranges)
  pub number : ℕ
  pub counts : st.current_line_num ≡ pos number
  pub room : number + left ≤ max_int

is_some-if :
    {V : Type 0} (b : Bool) (v : V) (o : Option V)
    → is_some (if b then some v else o) ≡ (is_some o || b)
unfolding is_some
is_some-if true v none = refl
is_some-if true v (some w) = refl
is_some-if false v none = refl
is_some-if false v (some w) = refl

mark_line-Agrees :
    (st : ParseState) (t : LineType) (n : ℕ)
    → st.current_line_num ≡ pos n
    → Agrees st.validator
    → ((f : Bytes) → All Grown (at_key f st.validator.valid_ranges))
    → Agrees (mark_line st t).validator
unfolding mark_line add_valid_line
mark_line-Agrees st t n e h g f x =
    let file = st.current_file in
    let v = st.validator in
    rw
      (
        at_key-put f file (add_line (at_key file v.valid_ranges) st.current_line_num)
            v.valid_ranges,
        at_key-put f file (put eqb_ℤ st.current_line_num t (at_key file v.line_types)) v.line_types,
      )
      (elim (Bool-cases (equal f file)) [
        | inl d ↦ rw d (
            rw
              (
                e,
                in_ranges-add_line (at_key file v.valid_ranges) n x (g file),
                lookup-put eqb_ℤ (pos n) x t (at_key file v.line_types) eqb_ℤ_iff,
                h file x,
              )
              (sym (is_some-if (eqb_ℤ x (pos n)) t (lookup eqb_ℤ x (at_key file v.line_types)))))
        | inr d ↦ rw d (h f x)
      ])

mark_line-Inv :
    (left : ℕ) (st : ParseState) (t : LineType) → Inv (suc left) st → Inv left (mark_line st t)
unfolding mark_line add_valid_line
mark_line-Inv left st t inv =
    let file = st.current_file in
    let ranges = st.validator.valid_ranges in
    record {
      agrees = mark_line-Agrees st t inv.number inv.counts inv.agrees inv.grown;
      grown = λ f.
          rw (at_key-put f file (add_line (at_key file ranges) st.current_line_num) ranges)
            (elim (Bool-cases (equal f file)) [
              | inl d ↦
                  rw (d, inv.counts)
                    (add_line-Grown (at_key file ranges) inv.number (omega (arith, inv.room))
                      (inv.grown file))
              | inr d ↦ rw d (inv.grown f)
            ]);
      number = inv.number + 1;
      counts = rw inv.counts (succ_line inv.number (omega (arith, inv.room)));
      room = omega (arith, inv.room);
    }

fewer : (left : ℕ) (st : ParseState) → Inv (suc left) st → Inv left st
fewer left st inv = record {
  agrees = inv.agrees;
  grown = inv.grown;
  number = inv.number;
  counts = inv.counts;
  room = omega (arith, inv.room);
}

diff_line-Inv :
    (left : ℕ) (st : ParseState) (line : Bytes) → Inv (suc left) st → Inv left (diff_line st line)
unfolding diff_line
diff_line-Inv left st line inv =
    pick (not st.in_hunk || is_empty st.current_file) (fewer left st inv) (
      pick (has_prefix line (lit "+") && not (has_prefix line (lit "+++")))
        (mark_line-Inv left st added inv)
        (pick (has_prefix line (lit "-") && not (has_prefix line (lit "---"))) (fewer left st inv) (
          pick (has_prefix line (lit " ") || is_empty line) (mark_line-Inv left st context inv)
            (fewer left st inv))))
  where
    pick : {a b : ParseState} (t : Bool) → Inv left a → Inv left b → Inv left (if t then a else b)
    pick true x y = x
    pick false x y = y

file_header-Inv :
    (left : ℕ) (st : ParseState) (name : Bytes) → Inv (suc left) st → Inv left (file_header st name)
unfolding file_header
file_header-Inv left st name inv =
    let file = normalize_file_path (trim_space name) in
    record {
      agrees = λ f x. rw (at_key-header f file st.validator.line_types) (inv.agrees f x);
      grown = inv.grown;
      number = inv.number;
      counts = inv.counts;
      room = omega (arith, inv.room);
    }

within :
    (left n : ℕ) (z : ℤ)
    → z ≡ pos n
    → z ≤ℤ pos (max_int - left)
    → left < max_int
    → n + left ≤ max_int
within left n (pos m) e h k = ground arith
within left n (negsuc m) e h k = ground arith

parse_line-Inv :
    (left : ℕ) (st : ParseState) (line : Bytes)
    → left < max_int
    → ((d : Bytes) → match_hunk line ≡ some d → (atoi d).0 ≤ℤ pos (max_int - left))
    → Inv (suc left) st
    → Inv left (parse_line st line)
unfolding parse_line
parse_line-Inv left st line small h inv = elim (Option-cases (match_file line)) [
  | inr (name, e) ↦ rw e (file_header-Inv left st name inv)
  | inl e ↦ rw e (elim (Option-cases (match_hunk line)) [
    | inl d ↦ rw d (diff_line-Inv left st line inv)
    | inr (start, d) ↦
        let (n, num) = match_hunk-IsNumber line start d in
        rw d (record {
          agrees = inv.agrees;
          grown = inv.grown;
          number = n;
          counts = num;
          room = within left n (atoi start).0 num (h start d) small;
        })
  ])
]

parse_each-Inv :
    (st : ParseState) (lines : List Bytes)
    → InRange lines
    → Inv (length lines) st
    → Inv 0 (parse_each st lines)
unfolding parse_each
parse_each-Inv st [] h inv = inv
parse_each-Inv st (line ∷ lines) (h, small, hs) inv =
    parse_each-Inv (parse_line st line) lines hs (parse_line-Inv (length lines) st line small h inv)

-- The line ranges and the line types that `parseDiff` keeps hold the same lines, for every file and
-- every line, if the line numbers of the diff stay within an int.
pub new_comment_validator-Agrees :
    (diff : Bytes) → InRange (split diff b'\n') → Agrees (new_comment_validator diff)
unfolding new_comment_validator parse_each at_key lookup in_ranges is_some
new_comment_validator-Agrees diff h = go (split diff b'\n') h
  where
    fresh : ParseState
    fresh = record {
      validator = record { valid_ranges = []; line_types = []; all_files = [] };
      current_file = [];
      current_line_num = pos 0;
      in_hunk = false;
    }

    start : (n : ℕ) → n ≤ max_int → Inv n fresh
    start n k = record {
      agrees = λ f x. refl;
      grown = λ f. tt;
      number = 0;
      counts = refl;
      room = omega (arith, k);
    }

    go : (lines : List Bytes) → InRange lines → Agrees (parse_each fresh lines).validator
    go [] k = (start 0 (omega arith)).agrees
    go (line ∷ lines) (k, small, ks) =
        (parse_each-Inv fresh (line ∷ lines) (k, small, ks)
          (start (suc (length lines)) (omega (arith, small)))).agrees

-- For a file that has line ranges under its own name, `IsValid` accepts a line just if `parseDiff`
-- gave the line a type, whatever the order of the maps, if the line numbers stay within an int.
pub is_valid-line_types :
    (visit : (V : Type 0) → List (Bytes × V) → List (Bytes × V)) (diff file : Bytes) (line : ℤ)
    (ranges : List LineRange)
    → InRange (split diff b'\n')
    → lookup equal (normalize_file_path file) (new_comment_validator diff).valid_ranges
      ≡ some ranges
    → is_valid visit (new_comment_validator diff) file line
      ≡ is_some (
          lookup eqb_ℤ line
            (at_key (normalize_file_path file) (new_comment_validator diff).line_types))
unfolding is_valid at_key
is_valid-line_types visit diff file line ranges h e =
    rw (is_valid, e)
      (rw (at_key, e) at (new_comment_validator-Agrees diff h (normalize_file_path file) line))
