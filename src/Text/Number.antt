-- ===== src/Text/Number.antt =====
-- `strconv.Atoi`.
use agent_sets.Prelude.{
  Bool, Option, [], false, if◌then◌else◌, leb, ltb, none, some, suc, true, zero, ℕ, ◌*◌, ◌+◌, ◌-◌,
  ◌==◌, ◌||◌, ◌∷◌,
}
use agent_sets.Prelude.Int.{max_int, negsuc, pos, ℤ}
use agent_sets.Text.{Bytes}

-- `ParseUint` at base 10: `none` for a byte that is no digit. A value past 64 bits stops the scan,
-- with the largest value; the callers take that for out of range.
unfoldable pub scan_uint : Bytes → ℕ → Option ℕ
scan_uint [] n = some n
scan_uint (c ∷ s) n =
    let n' = n * 10 + (c - b'0') in
    let rest = scan_uint s n' in
    if ltb c b'0' || ltb b'9' c
    then none
    else if ltb 18446744073709551615 n'
    then some 18446744073709551615
    else rest

abbrev signed : Bool → ℕ → ℤ × Bool
signed false n = if leb n max_int then (pos n, true) else (pos max_int, false)
signed true zero = (pos 0, true)
signed true (suc n) = if leb n max_int then (negsuc n, true) else (negsuc max_int, false)

abbrev scan_signed : Bool → Bytes → ℤ × Bool
scan_signed negative [] = (pos 0, false)
scan_signed negative (c ∷ s) = elim (scan_uint (c ∷ s) 0) [
  | none ↦ (pos 0, false)
  | some n ↦ signed negative n
]

-- The value, and whether there was no error. Out of range the value is the nearest int.
unfoldable pub atoi : Bytes → ℤ × Bool
unfolding scan_uint
atoi [] = (pos 0, false)
atoi (c ∷ s) =
    if c == b'-'
    then scan_signed true s
    else if c == b'+'
    then scan_signed false s
    else scan_signed false (c ∷ s)
