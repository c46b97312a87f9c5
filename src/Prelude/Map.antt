-- ===== src/Prelude/Map.antt =====
-- Go's maps as association lists. `insert` is `m[k] = v`, `erase` is `delete(m, k)`, `lookup` is
-- the two-result read `v, ok := m[k]`, `size` is `len(m)`. Go leaves the order of a `range` over a
-- map open: an operation that ranges over one takes the order as an argument, or is stated so that
-- the order does not show.
use jaeger.Prelude.{
  ◌≡◌, refl, ◌≢◌, Option, none, some, List, [], ◌∷◌, arith, Eq, ◌==◌, ==_iff, ==_refl,
  if◌then◌else◌, In, inl, inr, sym, Bool-cases,
}

abbrev pub Map {ℓ κ} : Type ℓ → Type κ → Type (ℓ ⊔ κ)
Map K V = List (K × V)

module _ {ℓ κ} {K : Type ℓ} {V : Type κ} ⦃e : Eq K⦄ where
  unfoldable pub lookup : K → Map K V → Option V
  lookup k [] = none
  lookup k ((j, v) ∷ m) = if j == k then some v else lookup k m

  unfoldable pub insert : K → V → Map K V → Map K V
  insert k v [] = (k, v) ∷ []
  insert k v ((i, u) ∷ rest) = if i == k then (k, v) ∷ rest else (i, u) ∷ insert k v rest

  unfoldable pub erase : K → Map K V → Map K V
  erase k [] = []
  erase k ((j, v) ∷ m) = let rest = erase k m in if j == k then rest else (j, v) ∷ rest

  abbrev pub keys : Map K V → List K
  keys [] = []
  keys ((k, v) ∷ m) = k ∷ keys m

  pub lookup-insert :
      (k j : K) (v : V) (m : Map K V)
      → lookup j (insert k v m) ≡ (if k == j then some v else lookup j m)
  unfolding lookup insert
  lookup-insert k j v [] = refl
  lookup-insert k j v ((i, u) ∷ rest) =
      ground (arith, lookup-insert k j v rest, ==_iff k j, ==_iff i k, ==_iff i j)

  pub lookup-erase :
      (k j : K) (m : Map K V) → lookup j (erase k m) ≡ (if k == j then none else lookup j m)
  unfolding lookup erase
  lookup-erase k j [] = ground arith
  lookup-erase k j ((i, v) ∷ m) =
      ground (arith, lookup-erase k j m, ==_iff i k, ==_iff i j, ==_iff k j)

  pub lookup-insert_self : (k : K) (v : V) (m : Map K V) → lookup k (insert k v m) ≡ some v
  lookup-insert_self k v m = ground (arith, lookup-insert k k v m, ==_refl k)

  pub lookup-insert_ne :
      (k j : K) (v : V) (m : Map K V) → k ≢ j → lookup j (insert k v m) ≡ lookup j m
  lookup-insert_ne k j v m h = ground (arith, lookup-insert k j v m, ==_iff k j)

  pub lookup-erase_self : (k : K) (m : Map K V) → lookup k (erase k m) ≡ none
  lookup-erase_self k m = ground (arith, lookup-erase k k m, ==_refl k)

  pub lookup-erase_ne : (k j : K) (m : Map K V) → k ≢ j → lookup j (erase k m) ≡ lookup j m
  lookup-erase_ne k j m h = ground (arith, lookup-erase k j m, ==_iff k j)

-- What a map holds is under one of its keys.
pub In-keys :
    {K V : Type 0} ⦃e : Eq K⦄ (k : K) (v : V) (m : Map K V) → lookup k m ≡ some v → In k (keys m)
unfolding lookup
In-keys k v [] h = absurd (ground arith)
In-keys k v ((j, w) ∷ m) h = elim (Bool-cases (j == k)) [
  | inl same ↦ inl (sym ((==_iff j k).0 same))
  | inr other ↦ inr (In-keys k v m (ground arith))
]
