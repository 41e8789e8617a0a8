-- ===== src/Aggregator/Score.antt =====
-- The score of a review is the mean of the scores of the chunks that were reviewed.
use agent_sets.Prelude.{
  List, [], ap, arith, length, lt→ltb, refl, total, ℕ, ◌*◌, ◌+◌, ◌/◌, ◌<◌, ◌∙◌, ◌∷◌, ◌≡◌, ◌≤◌,
}
use agent_sets.Prelude.Int.{max_int, pos, quot, ℤ, ◌+ℤ◌}
use agent_sets.Aggregator.{sum_scores, average}

-- All scores are numbers from `lo` to `hi`.
abbrev pub Between : ℕ → ℕ → List ℤ → Type 0
Between lo hi [] = Unit
Between lo hi (s ∷ ss) = ((n : ℕ) × (s ≡ pos n) × (lo ≤ n) × (n ≤ hi)) × Between lo hi ss

add_pos : (a b : ℕ) → a + b ≤ max_int → pos a +ℤ pos b ≡ pos (a + b)
unfolding ◌+ℤ◌
add_pos a b h = ground arith

sum_scores-Between :
    (lo hi : ℕ) (ss : List ℤ) (total : ℕ)
    → Between lo hi ss
    → total + hi * length ss ≤ max_int
    → (n : ℕ) × (sum_scores (pos total) ss ≡ pos n)
      × (total + lo * length ss ≤ n)
      × (n ≤ total + hi * length ss)
unfolding sum_scores
sum_scores-Between lo hi [] total b h = (total, refl, omega arith, omega arith)
sum_scores-Between lo hi (s ∷ ss) total ((n, e, l, k), b) h =
    let (m, sum, low, high) = sum_scores-Between lo hi ss (total + n) b (grind arith) in
    (
      m,
      ap (λ (t : ℤ). sum_scores t ss)
            (ap (λ (x : ℤ). pos total +ℤ x) e ∙ add_pos total n (grind arith))
          ∙ sum,
      grind arith,
      grind arith,
    )

le-div : (a n d : ℕ) → 0 < d → a * d ≤ n → a ≤ n / d
le-div a n d p h = grind arith

div-le : (a n d : ℕ) → 0 < d → n ≤ a * d → n / d ≤ a
div-le a n d p h = grind arith

-- Scores that lie between two bounds, with no sum that leaves the range of an int, have a mean
-- between the bounds.
pub average-Between :
    (lo hi : ℕ) (ss : List ℤ)
    → 0 < length ss
    → Between lo hi ss
    → hi * length ss ≤ max_int
    → (n : ℕ) × (average ss ≡ pos n) × (lo ≤ n) × (n ≤ hi)
unfolding average quot
average-Between lo hi ss p b h =
    let (n, e, l, k) = sum_scores-Between lo hi ss 0 b (omega arith) in
    (
      n / length ss,
      rw (lt→ltb 0 (length ss) p) (ap (λ (t : ℤ). quot t (length ss)) e),
      le-div lo n (length ss) p (omega arith),
      div-le hi n (length ss) p (omega arith),
    )
