-- ===== src/Prelude/Results.antt =====
-- Go's pair of a value and an error, of which one counts.
use mathlib.Core.Path.{◌≡◌, refl}
use mathlib.Core.Logic.{◌⊎◌, inl, inr}

pub data Result {ℓ κ} (E : Type ℓ) (A : Type κ) : Type (ℓ ⊔ κ) where
  ok : A → Result E A
  err : E → Result E A

module _ {E A B : Type 0} where
  infixl 5 ◌>>=◌ ◌>>◌
  abbrev pub ◌>>=◌ : Result E A → (A → Result E B) → Result E B
  err e >>= next = err e
  ok a >>= next = next a

  abbrev pub ◌>>◌ : Result E A → Result E B → Result E B
  first >> next = first >>= λ done. next

  -- What a successful chain went through.
  pub >>=-ok :
      (first : Result E A) (next : A → Result E B) {last : B}
      → (first >>= next) ≡ ok last
      → (between : A) × (first ≡ ok between) × (next between ≡ ok last)
  >>=-ok (err x) next e = absurd (cc)
  >>=-ok (ok between) next e = (between, refl, e)

module _ {E B : Type 0} where
  pub >>-ok :
      (first : Result E (Unit {0})) (next : Result E B) {last : B}
      → (first >> next) ≡ ok last
      → (first ≡ ok tt) × (next ≡ ok last)
  >>-ok (err x) next e = (cc, cc)
  >>-ok (ok tt) next e = (refl, e)

-- A check that gives nothing but its error.
abbrev pub Check : Type 0 → Type 0
Check E = Result E (Unit {0})

pub Result-cases {ℓ κ} :
    {E : Type ℓ} {A : Type κ} (r : Result E A) → ((a : A) × (r ≡ ok a)) ⊎ ((e : E) × (r ≡ err e))
Result-cases (ok a) = inl (a, refl)
Result-cases (err e) = inr (e, refl)
