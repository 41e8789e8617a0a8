-- ===== src/Maps/Laws.antt =====
-- What a lookup finds after an assignment.

use agent_sets.Prelude.{
  Bool, Bool-cases, List, [], ap, arith, false, if◌then◌else◌, inl, inr, none, refl, some, sym,
  true, ◌↔◌, ◌∙◌, ◌∷◌, ◌≡◌, ◌≢◌,
}
use agent_sets.Prelude.Int.{eqb_ℤ, negsuc, pos, ℤ}
use agent_sets.Maps.{lookup, put, remove}

true-ne-false : true ≢ false
true-ne-false = ground arith

module _ {K : Type 0} (same : K → K → Bool) (k j : K) where
  unlike :
      {i : K}
      → ((a b : K) → (same a b ≡ true) ↔ (a ≡ b))
      → same k i ≡ false
      → j ≡ i
      → same j k ≡ false
  unlike {i} iff e p = elim (Bool-cases (same j k)) [
    | inl d ↦ absurd (true-ne-false (sym ((iff k i).1 (sym ((iff j k).0 d) ∙ p)) ∙ e))
    | inr d ↦ d
  ]

module _ {K V : Type 0} (same : K → K → Bool) (k j : K) where
  -- The lookup of `j` after an assignment to `k`, for keys that are compared by equality.
  pub lookup-put :
      (v : V) (m : List (K × V))
      → ((a b : K) → (same a b ≡ true) ↔ (a ≡ b))
      → lookup same j (put same k v m) ≡ (if same j k then some v else lookup same j m)
  unfolding lookup put
  lookup-put v [] iff = refl
  lookup-put v ((i, w) ∷ m) iff = elim (Bool-cases (same k i)) [
    | inl e ↦
        let p : k ≡ i = (iff k i).0 e in
        rw (e, sym p) (elim (Bool-cases (same j k)) [ inl d ↦ rw d refl | inr d ↦ rw d refl ])
    | inr e ↦ elim (Bool-cases (same j i)) [
      | inl d ↦ rw (e, unlike same k j iff e ((iff j i).0 d), d) refl
      | inr d ↦ rw (e, d) (lookup-put v m iff)
    ]
  ]

pub eqb_ℤ_iff : (a b : ℤ) → (eqb_ℤ a b ≡ true) ↔ (a ≡ b)
eqb_ℤ_iff (pos a) (pos b) = ground arith
eqb_ℤ_iff (pos a) (negsuc b) = ground arith
eqb_ℤ_iff (negsuc a) (pos b) = ground arith
eqb_ℤ_iff (negsuc a) (negsuc b) = ground arith

module _ {K V : Type 0} (same : K → K → Bool) (k : K) where
  -- A key that was deleted has no entry.
  pub lookup-remove_self : (m : List (K × V)) → lookup same k (remove same k m) ≡ none
  unfolding lookup remove
  lookup-remove_self [] = refl
  lookup-remove_self ((i, w) ∷ m) = elim (Bool-cases (same k i)) [
    | inl e ↦ rw e (lookup-remove_self m)
    | inr e ↦ rw (e, e) (lookup-remove_self m)
  ]

  -- Another key keeps its entry.
  pub lookup-remove :
      (j : K) (m : List (K × V))
      → ((a b : K) → (same a b ≡ true) ↔ (a ≡ b))
      → same j k ≡ false
      → lookup same j (remove same k m) ≡ lookup same j m
  unfolding lookup remove
  lookup-remove j [] iff h = refl
  lookup-remove j ((i, w) ∷ m) iff h = elim (Bool-cases (same k i)) [
    | inl e ↦ let p : k ≡ i = (iff k i).0 e in rw (e, sym p, h) (lookup-remove j m iff h)
    | inr e ↦ rw e (elim (Bool-cases (same j i)) [
      | inl d ↦ rw d refl
      | inr d ↦ rw d (lookup-remove j m iff h)
    ])
  ]

module _ {K V : Type 0} (same : K → K → Bool) (k : K) where
  -- The last of two assignments to a key stands.
  pub put-put :
      (v w : V) (m : List (K × V))
      → same k k ≡ true
      → put same k w (put same k v m) ≡ put same k w m
  unfolding put
  put-put v w [] self = rw self refl
  put-put v w ((i, u) ∷ m) self = elim (Bool-cases (same k i)) [
    | inl e ↦ rw (e, self) refl
    | inr e ↦ rw (e, e) (ap (◌∷◌ (i, u)) (put-put v w m self))
  ]
