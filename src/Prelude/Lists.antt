-- ===== src/Prelude/Lists.antt =====
-- Lists measured and indexed by native numbers, under the library's names, and predicates on lists.
use Prim.Native.Nat.{ℕ, zero, suc, ◌+◌, ◌-◌, ◌≤◌, min}
use mathlib.Core.Path.{◌≡◌, refl, sym, ap, ap₂, ◌∙◌}
use mathlib.Core.Bool.{Bool, false}
use mathlib.Core.Logic.{◌⊎◌, inl, inr}
use agent_sets.Prelude.Tests.{if◌then◌else◌, Bool-cases}
use mathlib.Core.List.{List, [], ◌∷◌, ◌++◌, map, append-nil}
use native.Mathlib.Omega.{arith}

module _ {ℓ} {A : Type ℓ} where
  abbrev pub length : List A → ℕ
  length [] = 0
  length (x ∷ xs) = suc (length xs)

  abbrev pub take : ℕ → List A → List A
  take zero xs = []
  take (suc n) [] = []
  take (suc n) (x ∷ xs) = x ∷ take n xs

  abbrev pub drop : ℕ → List A → List A
  drop zero xs = xs
  drop (suc n) [] = []
  drop (suc n) (x ∷ xs) = drop n xs

  pub length-append : (xs ys : List A) → length (xs ++ ys) ≡ length xs + length ys
  length-append [] ys = omega arith
  length-append (x ∷ xs) ys = omega (arith, length-append xs ys)

  pub take-append-drop : (n : ℕ) (xs : List A) → take n xs ++ drop n xs ≡ xs
  take-append-drop zero xs = refl
  take-append-drop (suc n) [] = refl
  take-append-drop (suc n) (x ∷ xs) = ap (◌∷◌ x) (take-append-drop n xs)

  pub take-all : (n : ℕ) (xs : List A) → length xs ≤ n → take n xs ≡ xs
  take-all zero [] h = refl
  take-all zero (x ∷ xs) h = elim h [ ]
  take-all (suc n) [] h = refl
  take-all (suc n) (x ∷ xs) h = ap (◌∷◌ x) (take-all n xs (omega arith))

  pub drop-all : (n : ℕ) (xs : List A) → length xs ≤ n → drop n xs ≡ []
  drop-all zero [] h = refl
  drop-all zero (x ∷ xs) h = elim h [ ]
  drop-all (suc n) [] h = refl
  drop-all (suc n) (x ∷ xs) h = drop-all n xs (omega arith)

  pub length-take : (n : ℕ) (xs : List A) → length (take n xs) ≡ min n (length xs)
  length-take zero xs = omega arith
  length-take (suc n) [] = omega arith
  length-take (suc n) (x ∷ xs) = omega (arith, length-take n xs)

  pub length-drop : (n : ℕ) (xs : List A) → length (drop n xs) ≡ length xs - n
  length-drop zero xs = omega arith
  length-drop (suc n) [] = omega arith
  length-drop (suc n) (x ∷ xs) = omega (arith, length-drop n xs)

module _ {ℓ} {A : Type ℓ} where
  pub drop-nil : (n : ℕ) → drop {A = A} n [] ≡ []
  drop-nil zero = refl
  drop-nil (suc n) = refl

  pub drop-drop : (k m n : ℕ) (xs : List A) → k ≡ n + m → drop m (drop n xs) ≡ drop k xs
  drop-drop k m zero xs h = ap (λ (j : ℕ). drop j xs) (omega arith)
  drop-drop k m (suc n) [] h = drop-nil m ∙ sym (drop-nil k)
  drop-drop zero m (suc n) (x ∷ xs) h = absurd (omega arith)
  drop-drop (suc k) m (suc n) (x ∷ xs) h = drop-drop k m n xs (omega arith)

  -- `xs[lo:hi]`
  abbrev pub slice : ℕ → ℕ → List A → List A
  slice lo hi xs = take (hi - lo) (drop lo xs)

  pub length-slice :
      (lo hi : ℕ) (xs : List A) → length (slice lo hi xs) ≡ min (hi - lo) (length xs - lo)
  length-slice lo hi xs =
      length-take (hi - lo) (drop lo xs) ∙ ap (min (hi - lo)) (length-drop lo xs)

  pub slice-drop : (lo hi : ℕ) (xs : List A) → lo ≤ hi → slice lo hi xs ++ drop hi xs ≡ drop lo xs
  slice-drop lo hi xs h =
      ap (λ (t : List A). slice lo hi xs ++ t) (sym (drop-drop hi (hi - lo) lo xs (omega arith)))
      ∙ take-append-drop (hi - lo) (drop lo xs)

  pub take-append : (n : ℕ) (xs ys : List A) → n ≤ length xs → take n (xs ++ ys) ≡ take n xs
  take-append zero xs ys h = refl
  take-append (suc n) [] ys h = elim h [ ]
  take-append (suc n) (x ∷ xs) ys h = ap (◌∷◌ x) (take-append n xs ys (omega arith))

  pub take-take : (m n : ℕ) (xs : List A) → m ≤ n → take m (take n xs) ≡ take m xs
  take-take zero n xs h = refl
  take-take (suc m) zero xs h = elim h [ ]
  take-take (suc m) (suc n) [] h = refl
  take-take (suc m) (suc n) (x ∷ xs) h = ap (◌∷◌ x) (take-take m n xs (omega arith))

  pub drop-take : (k m n : ℕ) (xs : List A) → n ≡ m + k → drop m (take n xs) ≡ take k (drop m xs)
  drop-take k zero n xs h = ap (λ (j : ℕ). take j xs) (omega arith)
  drop-take k (suc m) zero xs h = absurd (omega arith)
  drop-take zero (suc m) (suc n) [] h = refl
  drop-take (suc k) (suc m) (suc n) [] h = refl
  drop-take k (suc m) (suc n) (x ∷ xs) h = drop-take k m n xs (omega arith)

  pub slice-append :
      (lo mid hi : ℕ) (xs : List A)
      → lo ≤ mid
      → mid ≤ hi
      → slice lo hi xs ≡ slice lo mid xs ++ slice mid hi xs
  slice-append lo mid hi xs h k =
      sym (take-append-drop (mid - lo) (slice lo hi xs))
      ∙ ap₂ (λ (a b : List A). a ++ b) (take-take (mid - lo) (hi - lo) (drop lo xs) (omega arith))
          (drop-take (hi - mid) (mid - lo) (hi - lo) (drop lo xs) (omega arith)
            ∙ ap (take (hi - mid)) (drop-drop mid (mid - lo) lo xs (omega arith)))

module _ {ℓ κ} {A : Type ℓ} (P : A → Type κ) where
  abbrev pub All : List A → Type κ
  All [] = Unit
  All (x ∷ xs) = P x × All xs

  pub All-append : (xs ys : List A) → All xs → All ys → All (xs ++ ys)
  All-append [] ys _ hy = hy
  All-append (x ∷ xs) ys (px, hx) hy = (px, All-append xs ys hx hy)

pub length-map {ℓ κ} :
    {A : Type ℓ} {B : Type κ} (xs : List A) (f : A → B) → length (map f xs) ≡ length xs
length-map [] f = refl
length-map (x ∷ xs) f = ap suc (length-map xs f)

module _ {ℓ} {A : Type ℓ} where
  -- The elements on which a test holds, in their order.
  abbrev pub filter : (A → Bool) → List A → List A
  filter test [] = []
  filter test (x ∷ xs) = let rest = filter test xs in if test x then x ∷ rest else rest

  pub filter-append :
      (test : A → Bool) (xs ys : List A) → filter test (xs ++ ys) ≡ filter test xs ++ filter test ys
  filter-append test [] ys = refl
  filter-append test (x ∷ xs) ys = elim (Bool-cases (test x)) [
    | inl e ↦ rw e (ap (◌∷◌ x) (filter-append test xs ys))
    | inr e ↦ rw e (filter-append test xs ys)
  ]

  pub filter-none :
      (test : A → Bool) (xs : List A) → All (λ x. test x ≡ false) xs → filter test xs ≡ []
  filter-none test [] h = refl
  filter-none test (x ∷ xs) (h, hs) = rw h (filter-none test xs hs)

  pub filter-skip :
      (test : A → Bool) (xs : List A) (x : A)
      → test x ≡ false
      → filter test (xs ++ x ∷ []) ≡ filter test xs
  filter-skip test xs x h =
      filter-append test xs (x ∷ [])
      ∙ ap (λ (t : List A). filter test xs ++ t) (filter-none test (x ∷ []) (h, tt))
      ∙ append-nil (filter test xs)

  pub All-map {κ κ'} :
      {P : A → Type κ} {Q : A → Type κ'} (xs : List A) → ((x : A) → P x → Q x) → All P xs → All Q xs
  All-map [] f h = tt
  All-map (x ∷ xs) f (h, hs) = (f x h, All-map xs f hs)

module _ {ℓ} {A : Type ℓ} where
  -- The weights of the elements of a list, added up.
  abbrev pub total : (A → ℕ) → List A → ℕ
  total f [] = 0
  total f (x ∷ xs) = f x + total f xs

  pub total-append : (f : A → ℕ) (xs ys : List A) → total f (xs ++ ys) ≡ total f xs + total f ys
  total-append f [] ys = omega arith
  total-append f (x ∷ xs) ys = omega (arith, total-append f xs ys)

  -- One element taken out of a list.
  pub total_middle :
      (f : A → ℕ) (l xs ys : List A) (x : A)
      → l ≡ xs ++ x ∷ ys
      → total f l ≡ total f (xs ++ ys) + f x
  total_middle f l xs ys x e =
      omega (arith, ap (total f) e, total-append f xs (x ∷ ys), total-append f xs ys)

  pub length_middle :
      (l xs ys : List A) (x : A) → l ≡ xs ++ x ∷ ys → length l ≡ length (xs ++ ys) + 1
  length_middle l xs ys x e =
      omega (arith, ap length e, length-append xs (x ∷ ys), length-append xs ys)

pub total-map {ℓ κ} :
    {A : Type ℓ} {B : Type κ} (f : B → ℕ) (h : A → B) (g : A → ℕ) (xs : List A)
    → ((x : A) → f (h x) ≡ g x)
    → total f (map h xs) ≡ total g xs
total-map f h g [] e = refl
total-map f h g (x ∷ xs) e = omega (arith, e x, total-map f h g xs e)

module _ {A : Type 0} where
  -- An element is somewhere in a list.
  abbrev pub Occurs : A → List A → Type 0
  Occurs x [] = ⊥
  Occurs x (y ∷ ys) = (x ≡ y) ⊎ Occurs x ys
