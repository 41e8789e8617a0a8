-- ===== src/Text/Scan.antt =====
-- Package regexp, for the patterns of the program: each matches no empty text, and each of its
-- parts can end in one place only, so a pattern is a function that measures the match at the head
-- of a text. A search goes on behind a match, and `(?m)^` holds behind a line break.
pub mod Cover
use agent_sets.Prelude.{
  Bool, List, Option, [], drop, if◌then◌else◌, none, not, some, suc, take, true, zero, ℕ, ◌-◌, ◌==◌,
  ◌||◌, ◌∷◌,
}
use agent_sets.Text.{Bytes}

-- `\s`
abbrev pub is_blank : ℕ → Bool
is_blank c = c == b'\t' || c == b'\n' || c == 12 || c == b'\r' || c == b' '

-- The longest head of a text on which a test holds, and the rest.
unfoldable pub span : (ℕ → Bool) → Bytes → Bytes × Bytes
span test [] = ([], [])
span test (c ∷ s) = let rest = span test s in if test c then (c ∷ rest.0, rest.1) else ([], c ∷ s)

module _ {A : Type 0} where
  -- `FindAllStringSubmatchIndex`: where each match begins, and what it captured.
  -- `skip` counts the bytes of the last match that are still to pass.
  unfoldable pub find_all : Bool → (Bytes → Option (ℕ × A)) → ℕ → ℕ → Bool → Bytes → List (ℕ × A)
  find_all anchored m at skip line_start [] = []
  find_all anchored m at (suc skip) line_start (c ∷ s) =
      find_all anchored m (suc at) skip (c == b'\n') s
  find_all anchored m at zero line_start (c ∷ s) =
      elim (if not anchored || line_start then m (c ∷ s) else none) [
        | none ↦ find_all anchored m (suc at) 0 (c == b'\n') s
        | some (len, a) ↦ (at, a) ∷ find_all anchored m (suc at) (len - 1) (c == b'\n') s
      ]

  -- `for i, match := range matches`: the text from each match up to the next, or to the end.
  unfoldable pub sections : Bytes → List (ℕ × A) → List (A × Bytes)
  sections text [] = []
  sections text ((start, a) ∷ []) = (a, drop start text) ∷ []
  sections text ((start, a) ∷ (next, b) ∷ ms) =
      (a, take (next - start) (drop start text)) ∷ sections text ((next, b) ∷ ms)

  -- `FindStringSubmatch`: what the first match captured.
  unfoldable pub find_first : Bool → (Bytes → Option (ℕ × A)) → Bytes → Option A
  unfolding find_all
  find_first anchored m s = elim (find_all anchored m 0 0 true s) [
    | [] ↦ none
    | (at, a) ∷ ms ↦ some a
  ]
