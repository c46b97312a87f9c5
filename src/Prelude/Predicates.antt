-- ===== src/Prelude/Predicates.antt =====
-- Predicates on lists by recursion.
use mathlib.Core.List.{List, [], ◌∷◌, ◌++◌, map}
use mathlib.Core.Path.{◌≡◌}
use mathlib.Core.Logic.{◌⊎◌}

module _ {ℓ κ} {A : Type ℓ} where
  abbrev pub All : (A → Type κ) → List A → Type κ
  All P [] = Unit
  All P (x ∷ xs) = P x × All P xs

  pub All-append : (P : A → Type κ) (xs ys : List A) → All P xs → All P ys → All P (xs ++ ys)
  All-append P [] ys hx hy = hy
  All-append P (x ∷ xs) ys hx hy = (hx.0, All-append P xs ys hx.1 hy)

-- The two lists are as long as each other, and related place by place.
module _ {ℓ κ} {A : Type ℓ} {B : Type κ} where
  abbrev pub Each : (A → B → Type 0) → List A → List B → Type 0
  Each R [] [] = Unit
  Each R (x ∷ xs) (y ∷ ys) = R x y × Each R xs ys
  Each R [] (y ∷ ys) = ⊥
  Each R (x ∷ xs) [] = ⊥

  pub Each-append :
      (R : A → B → Type 0) (xs xs' : List A) (ys ys' : List B)
      → Each R xs ys
      → Each R xs' ys'
      → Each R (xs ++ xs') (ys ++ ys')
  Each-append R [] xs' [] ys' h h' = h'
  Each-append R (x ∷ xs) xs' (y ∷ ys) ys' h h' = (h.0, Each-append R xs xs' ys ys' h.1 h')
  Each-append R [] xs' (y ∷ ys) ys' h h' = absurd h
  Each-append R (x ∷ xs) xs' [] ys' h h' = absurd h

pub Each-map {ℓ κ} :
    {A : Type ℓ} {B : Type κ} (R : A → B → Type 0) (f : A → B)
    → ((x : A) → R x (f x))
    → (xs : List A) → Each R xs (map f xs)
Each-map R f h [] = tt
Each-map R f h (x ∷ xs) = (h x, Each-map R f h xs)

-- `x` stands in the list, with its place kept.
abbrev pub In : {A : Type 0} → A → List A → Type 0
In x [] = ⊥
In x (y ∷ ys) = (x ≡ y) ⊎ In x ys
