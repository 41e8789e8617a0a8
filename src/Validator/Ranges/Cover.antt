-- ===== src/Validator/Ranges/Cover.antt =====
-- The ranges after `addValidLine` hold the line that was added and what they held before.

use agent_sets.Prelude.{
  All, Bool, Bool-cases, List, [], ap, arith, false, inl, inr, leb, refl, true, ℕ, ◌%◌, ◌+◌, ◌<◌,
  ◌==◌, ◌||◌, ◌∙◌, ◌∷◌, ◌≡◌, ◌≤◌,
}
use agent_sets.Prelude.Int.{eqb_ℤ, max_int, negsuc, pos, sub_ℕ, wrap, ℤ, ◌+ℤ◌}
use agent_sets.Validator.Ranges.{LineRange, add_line, in_range, in_ranges}

-- A range that `addValidLine` makes: two line numbers in order, with room above.
pub data Grown : LineRange → Type 0 where
  grown : (s e : ℕ) → s ≤ e → e < max_int → Grown (record { start = pos s; end = pos e })

sub_zero : (n : ℕ) → sub_ℕ n 0 ≡ pos n
sub_zero n = ground arith

wrap_small : (n : ℕ) → n ≤ max_int → wrap (pos n) ≡ pos n
wrap_small n h =
    let m : n % 18446744073709551616 ≡ n = ground arith in
    let l : leb n max_int ≡ true = ground arith in rw (m, l) refl

pub succ_line : (n : ℕ) → n < max_int → pos n +ℤ pos 1 ≡ pos (n + 1)
unfolding ◌+ℤ◌
succ_line n h = ap wrap (sub_zero (n + 1)) ∙ wrap_small (n + 1) (omega arith)

eqb_pos : (a b : ℕ) → eqb_ℤ (pos a) (pos b) ≡ (a == b)
eqb_pos a b = ground arith

pub add_line-Grown :
    (ranges : List LineRange) (l : ℕ)
    → l < max_int
    → All Grown ranges
    → All Grown (add_line ranges (pos l))
unfolding add_line in_range
add_line-Grown [] l h hs = (grown l l (omega arith) h, tt)
add_line-Grown (r ∷ ranges) l h (grown s e le lt, hs) =
    rw (succ_line e lt) (elim (Bool-cases (eqb_ℤ (pos l) (pos (e + 1)))) [
      | inl next ↦ rw next (grown s l (ground arith) h, hs)
      | inr other ↦ elim (Bool-cases (in_range (record { start = pos s; end = pos e }) (pos l))) [
        | inl inside ↦ rw (other, inside) (grown s e le lt, hs)
        | inr outside ↦ rw (other, outside) (grown s e le lt, add_line-Grown ranges l h hs)
      ]
    ])

in_range_next :
    (s e l : ℕ) (x : ℤ)
    → s ≤ e
    → l ≡ e + 1
    → in_range (record { start = pos s; end = pos l }) x
      ≡ (in_range (record { start = pos s; end = pos e }) x || eqb_ℤ x (pos l))
unfolding in_range
in_range_next s e l (pos n) h k = ground arith
in_range_next s e l (negsuc n) h k = ground arith

in_range_self :
    (l : ℕ) (x : ℤ) → in_range (record { start = pos l; end = pos l }) x ≡ eqb_ℤ x (pos l)
unfolding in_range
in_range_self l (pos n) = ground arith
in_range_self l (negsuc n) = ground arith

in_range_held :
    (s e l : ℕ) (x : ℤ)
    → in_range (record { start = pos s; end = pos e }) (pos l) ≡ true
    → in_range (record { start = pos s; end = pos e }) x
      ≡ (in_range (record { start = pos s; end = pos e }) x || eqb_ℤ x (pos l))
unfolding in_range
in_range_held s e l (pos n) h = ground arith
in_range_held s e l (negsuc n) h = ground arith

or_last : (a b c : Bool) → ((a || c) || b) ≡ ((a || b) || c)
or_last true b c = refl
or_last false true true = refl
or_last false true false = refl
or_last false false true = refl
or_last false false false = refl

or_keep : (a b c : Bool) → a ≡ (a || c) → (a || b) ≡ ((a || b) || c)
or_keep true b c h = refl
or_keep false true c h = refl
or_keep false false c h = h

or_nothing : (a : Bool) → (a || false) ≡ a
or_nothing true = refl
or_nothing false = refl

or_assoc : (a b c : Bool) → (a || (b || c)) ≡ ((a || b) || c)
or_assoc true b c = refl
or_assoc false b c = refl

pub in_ranges-add_line :
    (ranges : List LineRange) (l : ℕ) (x : ℤ)
    → All Grown ranges
    → in_ranges (add_line ranges (pos l)) x ≡ (in_ranges ranges x || eqb_ℤ x (pos l))
unfolding in_ranges add_line
in_ranges-add_line [] l x hs =
    or_nothing (in_range (record { start = pos l; end = pos l }) x) ∙ in_range_self l x
in_ranges-add_line (r ∷ ranges) l x (grown s e le lt, hs) =
    rw (succ_line e lt) (elim (Bool-cases (eqb_ℤ (pos l) (pos (e + 1)))) [
      | inl next ↦
          rw (next, in_range_next s e l x le (ground arith))
            (or_last (in_range (record { start = pos s; end = pos e }) x) (in_ranges ranges x)
              (eqb_ℤ x (pos l)))
      | inr other ↦ elim (Bool-cases (in_range (record { start = pos s; end = pos e }) (pos l))) [
        | inl inside ↦
            rw (other, inside)
              (or_keep (in_range (record { start = pos s; end = pos e }) x) (in_ranges ranges x)
                (eqb_ℤ x (pos l)) (in_range_held s e l x inside))
        | inr outside ↦
            rw (other, outside, in_ranges-add_line ranges l x hs)
              (or_assoc (in_range (record { start = pos s; end = pos e }) x) (in_ranges ranges x)
                (eqb_ℤ x (pos l)))
      ]
    ])
