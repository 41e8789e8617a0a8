-- ===== src/Splitter/Spaces.antt =====
-- `formatInt` and `compressSpaces` of diff_preprocessor.go.
pub mod Print
use agent_sets.Prelude.{
  Bool, [], drop, if◌then◌else◌, length, ltb, map, suc, take, zero, ℕ, ◌%◌, ◌&&◌, ◌++◌, ◌+◌, ◌-◌,
  ◌/◌, ◌==◌, ◌||◌, ◌∷◌,
}
use agent_sets.Prelude.Int.{eqb_ℤ, ltb_ℤ, negsuc, pos, pos_part, wrap, ℤ}
use agent_sets.Domain.{is_empty}
use agent_sets.Text.Scan.{span}
use agent_sets.Text.{Bytes, lit, join, split}

-- `-n` of an int
unfoldable pub negate : ℤ → ℤ
negate (pos zero) = pos 0
negate (pos (suc n)) = negsuc n
negate (negsuc n) = wrap (pos (suc n))

-- `for n > 0`; the fuel is above the number of digits
unfoldable pub format_digits : ℕ → ℕ → Bytes → Bytes
format_digits zero n result = result
format_digits (suc fuel) n result =
    let more = format_digits fuel (n / 10) ((b'0' + n % 10) ∷ result) in
    if n == 0 then result else more

unfoldable pub format_int : ℤ → Bytes
unfolding format_digits negate
format_int n =
    if eqb_ℤ n (pos 0)
    then lit "0"
    else let negative = ltb_ℤ n (pos 0) in
      let m = pos_part (if negative then negate n else n) in
      let result = format_digits (suc m) m [] in if negative then b'-' ∷ result else result

-- a byte of `[ \t]`
abbrev pub is_gap : ℕ → Bool
is_gap c = c == b' ' || c == b'\t'

-- `spacePattern.ReplaceAllString(s, " ")`; the number counts the bytes of a run that are to pass.
squeeze_from : ℕ → Bytes → Bytes
unfolding span
squeeze_from k [] = []
squeeze_from (suc k) (c ∷ s) = squeeze_from k s
squeeze_from zero (c ∷ s) =
    let run = length (span is_gap (c ∷ s)).0 in
    if ltb 1 run then b' ' ∷ squeeze_from (run - 1) s else c ∷ squeeze_from 0 s

unfoldable pub squeeze : Bytes → Bytes
unfolding squeeze_from
squeeze s = squeeze_from 0 s

unfoldable pub compress_line : Bytes → Bytes
unfolding span squeeze
compress_line line =
    let leading_spaces = length (span is_gap line).0 in
    if is_empty line
    then line
    else if ltb 0 leading_spaces && ltb leading_spaces (length line)
    then take leading_spaces line ++ squeeze (drop leading_spaces line)
    else squeeze line

unfoldable pub compress_spaces : Bytes → Bytes
unfolding compress_line
compress_spaces input = join (map compress_line (split input b'\n')) (lit "\n")
