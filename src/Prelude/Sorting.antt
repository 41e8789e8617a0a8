-- ===== src/Prelude/Sorting.antt =====
-- Lists that are sorted by insertion.
use mathlib.Core.Bool.{Bool}
use mathlib.Core.Logic.{◌↔◌, inl, inr}
use mathlib.Core.List.{List, [], ◌∷◌}
use agent_sets.Prelude.Tests.{if◌then◌else◌, Bool-cases}
use agent_sets.Prelude.Lists.{Occurs}

module _ {A : Type 0} (first : A → A → Bool) where
  -- `first x y` says whether `x` can stand in front of `y`.
  unfoldable pub insert_by : A → List A → List A
  insert_by x [] = x ∷ []
  insert_by x (y ∷ ys) = let rest = insert_by x ys in if first x y then x ∷ y ∷ ys else y ∷ rest

  unfoldable pub sort_by : List A → List A
  unfolding insert_by
  sort_by [] = []
  sort_by (x ∷ xs) = insert_by x (sort_by xs)

  Occurs-insert_by : (z x : A) (ys : List A) → Occurs z (insert_by x ys) ↔ Occurs z (x ∷ ys)
  unfolding insert_by
  Occurs-insert_by z x [] = (λ h. h, λ h. h)
  Occurs-insert_by z x (y ∷ ys) = elim (Bool-cases (first x y)) [
    | inl e ↦ rw e (λ h. h, λ h. h)
    | inr e ↦ rw e (
      λ h. elim h [
        | inl same ↦ inr (inl same)
        | inr later ↦ elim ((Occurs-insert_by z x ys).0 later) [
          | inl same ↦ inl same
          | inr k ↦ inr (inr k)
        ]
      ],
      λ h. elim h [
        | inl same ↦ inr ((Occurs-insert_by z x ys).1 (inl same))
        | inr k ↦ elim k [ inl same ↦ inl same | inr m ↦ inr ((Occurs-insert_by z x ys).1 (inr m)) ]
      ],
    )
  ]

  pub Occurs-sort_by : (z : A) (xs : List A) → Occurs z (sort_by xs) ↔ Occurs z xs
  unfolding sort_by
  Occurs-sort_by z [] = (λ h. h, λ h. h)
  Occurs-sort_by z (x ∷ xs) = (
    λ h. elim ((Occurs-insert_by z x (sort_by xs)).0 h) [
      | inl same ↦ inl same
      | inr later ↦ inr ((Occurs-sort_by z xs).0 later)
    ],
    λ h.
        (Occurs-insert_by z x (sort_by xs)).1
          (elim h [ inl same ↦ inl same | inr later ↦ inr ((Occurs-sort_by z xs).1 later) ]),
  )
