-- ===== src/Validator/Names/Numbers.antt =====
-- The number that `match_hunk` finds is not negative.

use agent_sets.Prelude.{
  Bool, Bool-cases, Option, [], arith, false, if◌then◌else◌, inl, inr, leb, none, none-ne-some,
  refl, some, some-inj, sym, true, ℕ, ◌==◌, ◌∷◌, ◌≡◌,
}
use agent_sets.Prelude.Int.{max_int, pos, ℤ}
use agent_sets.Text.Scan.{span}
use agent_sets.Validator.Names.{match_hunk, ◌>>=◌, is_digit, after, after_count}
use agent_sets.Splitter.Files.{run_of}
use agent_sets.Text.Number.{atoi, scan_uint}
use agent_sets.Text.{Bytes, lit}

bind-some :
    {A B : Type 0} (o : Option A) (f : A → Option B) (b : B)
    → o >>= f ≡ some b
    → (a : A) × (o ≡ some a) × (f a ≡ some b)
bind-some none f b h = absurd (none-ne-some b h)
bind-some (some a) f b h = (a, refl, h)

abbrev IsNumber : Bytes → Type 0
IsNumber d = (n : ℕ) × ((atoi d).0 ≡ pos n)

unsigned-number :
    (o : Option ℕ)
    → let r : ℤ × Bool = elim o [
      | none ↦ (pos 0, false)
      | some n ↦ if leb n max_int then (pos n, true) else (pos max_int, false)
    ] in
      (n : ℕ) × (r.0 ≡ pos n)
unsigned-number none = (0, refl)
unsigned-number (some n) = elim (Bool-cases (leb n max_int)) [
  | inl e ↦ (n, rw e refl)
  | inr e ↦ (max_int, rw e refl)
]

atoi-digit : (c : ℕ) (s : Bytes) → is_digit c ≡ true → IsNumber (c ∷ s)
unfolding atoi
atoi-digit c s h =
    let minus : (c == b'-') ≡ false = ground arith in
    let plus : (c == b'+') ≡ false = ground arith in
    rw (minus, plus) (unsigned-number (scan_uint (c ∷ s) 0))

run_of-IsNumber : (s : Bytes) (e : Bytes × Bytes) → run_of is_digit s ≡ some e → IsNumber e.0
unfolding run_of span
run_of-IsNumber [] e h = absurd (ground (arith, h))
run_of-IsNumber (c ∷ s) e h = elim (Bool-cases (is_digit c)) [
  | inl d ↦ rw (sym (some-inj _ e (rw (d, run_of) at h))) (atoi-digit c (span is_digit s).0 d)
  | inr d ↦ absurd (none-ne-some e (rw (d, run_of) at h))
]

pub match_hunk-IsNumber : (line d : Bytes) → match_hunk line ≡ some d → IsNumber d
unfolding match_hunk
match_hunk-IsNumber line d h0 =
    let (a, _, h1) = bind-some (after (lit "@@ -") line) _ d h0 in
    let (b, _, h2) = bind-some (run_of is_digit a) _ d h1 in
    let (c, _, h3) = bind-some (after_count b.1) _ d h2 in
    let (w, _, h4) = bind-some (after (lit " +") c) _ d h3 in
    let (e, number, h5) = bind-some (run_of is_digit w) _ d h4 in
    let (f, _, h6) = bind-some (after_count e.1) _ d h5 in
    let (g, _, h7) = bind-some (after (lit " @@") f) _ d h6 in
    rw (sym (some-inj e.0 d h7)) (run_of-IsNumber w e number)
