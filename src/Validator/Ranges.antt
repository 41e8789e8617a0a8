-- ===== src/Validator/Ranges.antt =====
-- `LineRange`, `addValidLine`.
pub mod Cover
use agent_sets.Prelude.{Bool, List, [], false, if◌then◌else◌, ◌&&◌, ◌||◌, ◌∷◌}
use agent_sets.Prelude.Int.{eqb_ℤ, leb_ℤ, pos, ℤ, ◌+ℤ◌}

pub record LineRange : Type 0 where
  pub start : ℤ
  pub end : ℤ

unfoldable pub in_range : LineRange → ℤ → Bool
in_range r line = leb_ℤ r.start line && leb_ℤ line r.end

-- the loop of `addValidLine`, and the new range behind it
unfoldable pub add_line : List LineRange → ℤ → List LineRange
unfolding in_range
add_line [] line = record { start = line; end = line } ∷ []
add_line (r ∷ ranges) line =
    let rest = add_line ranges line in
    if eqb_ℤ line (r.end +ℤ pos 1)
    then record { start = r.start; end = line } ∷ ranges
    else if in_range r line
    then r ∷ ranges
    else r ∷ rest

-- the loop of `IsValid` over the ranges
unfoldable pub in_ranges : List LineRange → ℤ → Bool
unfolding in_range
in_ranges [] line = false
in_ranges (r ∷ ranges) line = in_range r line || in_ranges ranges line
