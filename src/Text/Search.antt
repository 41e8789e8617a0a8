-- ===== src/Text/Search.antt =====
-- Laws of prefixes, of `Index` and of `==` on texts.
use agent_sets.Prelude.{
  All, Option, Option-cases, [], ap, arith, drop, false, inl, inr, length, none, refl, some, suc,
  take, true, ℕ, ◌++◌, ◌↔◌, ◌∙◌, ◌∷◌, ◌≡◌, ◌≢◌, ◌≤◌,
}
use agent_sets.Text.{Bytes, equal, has_prefix, trim_prefix, last_index, index}

pub equal_iff : (s t : Bytes) → (equal s t ≡ true) ↔ (s ≡ t)
unfolding equal
equal_iff [] [] = ground arith
equal_iff [] (d ∷ t) = ground arith
equal_iff (c ∷ s) [] = ground arith
equal_iff (c ∷ s) (d ∷ t) = ground (arith, equal_iff s t)

pub has_prefix-append : (p s : Bytes) → has_prefix (p ++ s) p ≡ true
unfolding has_prefix
has_prefix-append [] s = refl
has_prefix-append (c ∷ p) s = ground (arith, has_prefix-append p s)

pub drop-append : (p s : Bytes) → drop (length p) (p ++ s) ≡ s
drop-append [] s = refl
drop-append (c ∷ p) s = drop-append p s

pub take-append_self : (p s : Bytes) → take (length p) (p ++ s) ≡ p
take-append_self [] s = refl
take-append_self (c ∷ p) s = ap (◌∷◌ c) (take-append_self p s)

pub trim_prefix-append : (p s : Bytes) → trim_prefix (p ++ s) p ≡ s
unfolding trim_prefix
trim_prefix-append p s = rw (has_prefix-append p s) (drop-append p s)

-- A byte does not stand in a text.
abbrev pub Lacks : ℕ → Bytes → Type 0
Lacks b = All (λ c. c ≢ b)

pub last_index-Lacks : (s : Bytes) (b : ℕ) → Lacks b s → last_index s b ≡ none
unfolding last_index
last_index-Lacks [] b h = refl
last_index-Lacks (c ∷ s) b (h, hs) = ground (arith, last_index-Lacks s b hs)

-- The last place of a byte with none behind it.
pub last_index-append :
    (s t : Bytes) (b : ℕ) → Lacks b t → last_index (s ++ b ∷ t) b ≡ some (length s)
unfolding last_index
last_index-append [] t b h = ground (arith, last_index-Lacks t b h)
last_index-append (c ∷ s) t b h = rw (last_index-append s t b h)

pub has_prefix-length : (s p : Bytes) → has_prefix s p ≡ true → length p ≤ length s
unfolding has_prefix
has_prefix-length s [] h = omega arith
has_prefix-length [] (y ∷ p) h = cc
has_prefix-length (x ∷ s) (y ∷ p) h = ground (arith, has_prefix-length s p)

later : Option ℕ → Option ℕ
later none = none
later (some i) = some (suc i)

index-cons :
    (c : ℕ) (s sub : Bytes)
    → has_prefix (c ∷ s) sub ≡ false
    → index (c ∷ s) sub ≡ later (index s sub)
unfolding index later
index-cons c s sub h = rw h (elim (Option-cases (index s sub)) [ inl e ↦ rw e | inr (i, e) ↦ rw e ])

pub index-cons_none :
    (c : ℕ) (s sub : Bytes)
    → index (c ∷ s) sub ≡ none
    → (has_prefix (c ∷ s) sub ≡ false) × (index s sub ≡ none)
unfolding index
index-cons_none c s sub h = ground arith

abbrev pub closing : Bytes
closing = b'-' ∷ b'-' ∷ b'>' ∷ []

-- no part of the closing can begin it
has_prefix-closing :
    (c : ℕ) (a rest : Bytes)
    → has_prefix (c ∷ (a ++ (closing ++ rest))) closing ≡ has_prefix (c ∷ a) closing
unfolding has_prefix
has_prefix-closing c [] rest = ground arith
has_prefix-closing c (d ∷ []) rest = ground arith
has_prefix-closing c (d ∷ e ∷ a) rest = refl

-- A closing `-->` behind a text without one is found where it stands.
pub index-closing :
    (a rest : Bytes)
    → index a closing ≡ none
    → index (a ++ (closing ++ rest)) closing ≡ some (length a)
index-closing [] rest h = unfold index has_prefix in refl
index-closing (c ∷ a) rest h =
    let (no_prefix, no_index) = index-cons_none c a closing h in
    index-cons c (a ++ (closing ++ rest)) closing (has_prefix-closing c a rest ∙ no_prefix)
    ∙ ap later (index-closing a rest no_index)
    ∙ unfold later in refl
