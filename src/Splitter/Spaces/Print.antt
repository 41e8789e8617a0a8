-- ===== src/Splitter/Spaces/Print.antt =====
-- `formatInt` against `strconv.Itoa`.

use agent_sets.Prelude.{
  Bool-cases, [], ap, arith, false, inl, inr, leb, ltb, refl, suc, true, zero, ℕ, ◌%◌, ◌+◌, ◌-◌,
  ◌/◌, ◌<◌, ◌==◌, ◌∷◌, ◌≡◌,
}
use agent_sets.Prelude.Int.{eqb_ℤ, ltb_ℤ, max_int, negsuc, pos, ℤ, ◌≤ℤ◌}
use agent_sets.Text.{decimal, itoa, Bytes, digits}
use agent_sets.Splitter.Spaces.{format_digits, format_int, negate}

format_digits-decimal :
    (fuel n : ℕ) (acc : Bytes) → 0 < n → n < fuel → format_digits fuel n acc ≡ decimal fuel n acc
unfolding format_digits decimal
format_digits-decimal zero n acc h k = absurd (omega arith)
format_digits-decimal (suc fuel) n acc h k = elim (Bool-cases (ltb n 10)) [
  | inl small ↦
      let d = (b'0' + n % 10) ∷ acc in
      let e : (n == 0) ≡ false = ground arith in
      let z : n / 10 ≡ 0 = ground arith in rw (small, e, z) (last fuel d)
  | inr large ↦
      let e : (n == 0) ≡ false = ground arith in
      rw (large, e)
        (format_digits-decimal fuel (n / 10) ((b'0' + n % 10) ∷ acc) (ground arith) (ground arith))
]
  where
    last : (fuel : ℕ) (d : Bytes) → format_digits fuel 0 d ≡ d
    last zero d = refl
    last (suc fuel) d = refl

negate-negsuc : (n : ℕ) → n < max_int → negate (negsuc n) ≡ pos (suc n)
unfolding negate
negate-negsuc n h =
    let m : suc n % 18446744073709551616 ≡ suc n = ground arith in
    let l : leb (suc n) max_int ≡ true = ground arith in rw (m, l) refl

-- The digits that `formatInt` writes are those of `strconv.Itoa`, for every int but the smallest.
pub format_int-itoa : (n : ℤ) → negsuc (max_int - 1) ≤ℤ n → format_int n ≡ itoa n
unfolding format_int itoa digits
format_int-itoa (pos zero) h = refl
format_int-itoa (pos (suc n)) h =
    let e : eqb_ℤ (pos (suc n)) (pos 0) ≡ false = ground arith in
    let f : ltb_ℤ (pos (suc n)) (pos 0) ≡ false = ground arith in
    rw (e, f) (format_digits-decimal (suc (suc n)) (suc n) [] (omega arith) (omega arith))
format_int-itoa (negsuc n) h =
    let e : eqb_ℤ (negsuc n) (pos 0) ≡ false = ground arith in
    let f : ltb_ℤ (negsuc n) (pos 0) ≡ true = ground arith in
    rw (e, f, negate-negsuc n (omega arith))
      (ap (◌∷◌ b'-') (format_digits-decimal (suc (suc n)) (suc n) [] (omega arith) (omega arith)))
