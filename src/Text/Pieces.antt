-- ===== src/Text/Pieces.antt =====
-- Laws of `Split` and `Join`.
use agent_sets.Prelude.{
  All, Bool-cases, List, [], ap, append-nil, arith, inl, inr, refl, sym, ℕ, ◌++◌, ◌==◌, ◌∙◌, ◌∷◌,
  ◌≡◌, ◌≢◌,
}
use agent_sets.Text.Search.{Lacks}
use agent_sets.Text.{Bytes, split, join, cons_head}

-- a text with a separator of one byte in front
abbrev behind : ℕ → List Bytes → Bytes
behind b [] = []
behind b (p ∷ ps) = b ∷ (p ++ behind b ps)

join-behind : (b : ℕ) (p : Bytes) (ps : List Bytes) → join (p ∷ ps) (b ∷ []) ≡ p ++ behind b ps
unfolding join
join-behind b p [] = sym (append-nil p)
join-behind b p (q ∷ ps) = ap (λ (t : Bytes). p ++ (b ∷ t)) (join-behind b q ps)

split-ne-nil : (s : Bytes) (b : ℕ) → split s b ≢ []
unfolding split
split-ne-nil [] b = ground arith
split-ne-nil (c ∷ s) b = ground (arith, split-ne-nil s b)

behind-cons_head :
    (c b : ℕ) (s : Bytes) (ps : List Bytes)
    → behind b ps ≡ b ∷ s
    → behind b (cons_head c ps) ≡ b ∷ c ∷ s
behind-cons_head c b s [] h = cc
behind-cons_head c b s (p ∷ ps) h = cc

behind-split : (s : Bytes) (b : ℕ) → behind b (split s b) ≡ b ∷ s
unfolding split
behind-split [] b = refl
behind-split (c ∷ s) b =
    ground (arith, behind-split s b, behind-cons_head c b s (split s b) (behind-split s b))

behind-join : (b : ℕ) (ps : List Bytes) → ps ≢ [] → behind b ps ≡ b ∷ join ps (b ∷ [])
behind-join b [] h = absurd (h refl)
behind-join b (p ∷ ps) h = ap (◌∷◌ b) (sym (join-behind b p ps))

-- Joining the parts of a split gives the text back.
pub join-split : (s : Bytes) (b : ℕ) → join (split s b) (b ∷ []) ≡ s
join-split s b = cc (behind-join b (split s b) (split-ne-nil s b), behind-split s b)

split-Lacks : (p : Bytes) (b : ℕ) → Lacks b p → split p b ≡ p ∷ []
unfolding split
split-Lacks [] b h = refl
split-Lacks (c ∷ p) b (h, hs) = ground (arith, split-Lacks p b hs)

pub split-append :
    (p : Bytes) (b : ℕ) (s : Bytes) → Lacks b p → split (p ++ b ∷ s) b ≡ p ∷ split s b
unfolding split
split-append [] b s h = ground arith
split-append (c ∷ p) b s (h, hs) = ground (arith, split-append p b s hs)

-- Splitting a join gives the parts back, if none of them holds the separator.
pub split-join :
    (p : Bytes) (ps : List Bytes) (b : ℕ)
    → All (Lacks b) (p ∷ ps)
    → split (join (p ∷ ps) (b ∷ [])) b ≡ p ∷ ps
unfolding join
split-join p [] b (h, hs) = split-Lacks p b h
split-join p (q ∷ ps) b (h, hs) =
    split-append p b (join (q ∷ ps) (b ∷ [])) h ∙ ap (◌∷◌ p) (split-join q ps b hs)

Lacks-cons_head :
    (c b : ℕ) (ps : List Bytes) → c ≢ b → All (Lacks b) ps → All (Lacks b) (cons_head c ps)
Lacks-cons_head c b [] h hs = ((h, tt), tt)
Lacks-cons_head c b (p ∷ ps) h (hp, hs) = ((h, hp), hs)

-- No part of a split holds the separator.
pub split-Lacks-All : (s : Bytes) (b : ℕ) → All (Lacks b) (split s b)
unfolding split
split-Lacks-All [] b = (tt, tt)
split-Lacks-All (c ∷ s) b = elim (Bool-cases (c == b)) [
  | inl e ↦ rw e (tt, split-Lacks-All s b)
  | inr e ↦ rw e (Lacks-cons_head c b (split s b) (ground arith) (split-Lacks-All s b))
]
