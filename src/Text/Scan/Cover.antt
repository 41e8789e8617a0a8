-- ===== src/Text/Scan/Cover.antt =====
-- The sections of a text between its matches leave nothing out.
use agent_sets.Prelude.{
  Bool, List, Option, [], ap, append-nil, arith, drop, if◌then◌else◌, none, not, slice, slice-drop,
  some, suc, zero, ℕ, ◌++◌, ◌-◌, ◌==◌, ◌||◌, ◌∙◌, ◌∷◌, ◌≡◌, ◌≤◌,
}
use agent_sets.Text.{Bytes}
use agent_sets.Text.Scan.{find_all, sections}

module _ {A : Type 0} where
  -- The matches stand at or behind a place, each behind the one before.
  abbrev pub Ascends : ℕ → List (ℕ × A) → Type 0
  Ascends lo [] = Unit
  Ascends lo ((at, a) ∷ ms) = (lo ≤ at) × Ascends at ms

  Ascends-le : (ms : List (ℕ × A)) (lo hi : ℕ) → lo ≤ hi → Ascends hi ms → Ascends lo ms
  Ascends-le [] lo hi h k = tt
  Ascends-le ((at, a) ∷ ms) lo hi h (k, ks) = (omega arith, ks)

  pub find_all-Ascends :
      (anchored : Bool) (m : Bytes → Option (ℕ × A)) (at skip : ℕ) (line_start : Bool) (s : Bytes)
      → Ascends at (find_all anchored m at skip line_start s)
  unfolding find_all
  find_all-Ascends anchored m at skip line_start [] = tt
  find_all-Ascends anchored m at (suc skip) line_start (c ∷ s) =
      Ascends-le _ at (suc at) (omega arith)
        (find_all-Ascends anchored m (suc at) skip (c == b'\n') s)
  find_all-Ascends anchored m at zero line_start (c ∷ s) =
      go (if not anchored || line_start then m (c ∷ s) else none)
        (λ k. find_all-Ascends anchored m (suc at) k (c == b'\n') s)
    where
      go :
          (r : Option (ℕ × A))
          → ((k : ℕ) → Ascends (suc at) (find_all anchored m (suc at) k (c == b'\n') s))
          → Ascends at (elim r [
            | none ↦ find_all anchored m (suc at) 0 (c == b'\n') s
            | some (len, a) ↦ (at, a) ∷ find_all anchored m (suc at) (len - 1) (c == b'\n') s
          ])
      go none ih = Ascends-le _ at (suc at) (omega arith) (ih 0)
      go (some (len, a)) ih = (omega arith, Ascends-le _ at (suc at) (omega arith) (ih (len - 1)))

  abbrev pub contents : List (A × Bytes) → Bytes
  contents [] = []
  contents ((a, s) ∷ es) = s ++ contents es

  -- The sections are the text from the first match on.
  pub contents-sections :
      (text : Bytes) (at lo : ℕ) (a : A) (ms : List (ℕ × A))
      → Ascends lo ((at, a) ∷ ms)
      → contents (sections text ((at, a) ∷ ms)) ≡ drop at text
  unfolding sections
  contents-sections text at lo a [] h = append-nil _
  contents-sections text at lo a ((next, b) ∷ ms) (h, ks) =
      ap (λ (t : Bytes). slice at next text ++ t) (contents-sections text next at b ms ks)
      ∙ slice-drop at next text ks.0
