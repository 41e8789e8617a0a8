-- ===== src/Pipeline/Rules/Order.antt =====
-- The lists that `sort.Strings` gives.
use agent_sets.Prelude.{
  Bool-cases, List, Occurs, [], arith, false, inl, inr, ltb, refl, sym, true, ◌==◌, ◌∷◌, ◌≡◌, ◌≢◌,
}
use agent_sets.Text.{Bytes}
use agent_sets.Pipeline.Chunks.{before}
use agent_sets.Prelude.Sorting.{sort_by, insert_by, Occurs-sort_by}

abbrev pub NoneTwice : List Bytes → Type 0
NoneTwice [] = Unit
NoneTwice (x ∷ xs) = (¬ Occurs x xs) × NoneTwice xs

-- Every text is before the next one, and another.
abbrev pub Ascending : List Bytes → Type 0
Ascending [] = Unit
Ascending (x ∷ []) = Unit
Ascending (x ∷ y ∷ ys) = (before x y ≡ true) × (x ≢ y) × Ascending (y ∷ ys)

before_total : (x y : Bytes) → before x y ≡ false → before y x ≡ true
unfolding before
before_total [] y h = ground (arith, h)
before_total (c ∷ x) [] h = refl
before_total (c ∷ x) (d ∷ y) h = elim (Bool-cases (c == d)) [
  | inl e ↦
      let k : before x y ≡ false = rw (before, e) at h in
      let e' : (d == c) ≡ true = ground (arith, e) in rw e' (before_total x y k)
  | inr e ↦
      let k : ltb c d ≡ false = rw (before, e) at h in
      let e' : (d == c) ≡ false = ground (arith, e) in rw e' (ground (arith, k, e))
]

insert_by-Ascending :
    (y x : Bytes) (ys : List Bytes)
    → Ascending (y ∷ ys)
    → before y x ≡ true
    → y ≢ x
    → ¬ Occurs x ys
    → Ascending (y ∷ insert_by before x ys)
unfolding insert_by
insert_by-Ascending y x [] h b ne new = (b, ne, tt)
insert_by-Ascending y x (z ∷ zs) (byz, nyz, h) b ne new = elim (Bool-cases (before x z)) [
  | inl e ↦ rw e (b, ne, (e, λ same. new (inl same), h))
  | inr e ↦ rw e (
    byz,
    nyz,
    insert_by-Ascending z x zs h (before_total x z e) (λ same. new (inl (sym same)))
        (λ o. new (inr o)),
  )
]

insert_first-Ascending :
    (x : Bytes) (ys : List Bytes) → Ascending ys → ¬ Occurs x ys → Ascending (insert_by before x ys)
unfolding insert_by
insert_first-Ascending x [] h new = tt
insert_first-Ascending x (y ∷ ys) h new = elim (Bool-cases (before x y)) [
  | inl e ↦ rw e (e, λ same. new (inl same), h)
  | inr e ↦ rw e (
      insert_by-Ascending y x ys h (before_total x y e) (λ same. new (inl (sym same)))
        (λ o. new (inr o)))
]

pub sort_strings-Ascending : (xs : List Bytes) → NoneTwice xs → Ascending (sort_by before xs)
unfolding sort_by
sort_strings-Ascending [] h = tt
sort_strings-Ascending (x ∷ xs) (new, h) =
    insert_first-Ascending x (sort_by before xs) (sort_strings-Ascending xs h)
      (λ o. new ((Occurs-sort_by before x xs).0 o))
