-- ===== src/Memory/Spread.antt =====
-- The maps from trace identifiers to slices that reshuffleResourceSpans and its helpers build, in
-- internal/storage/v2/memory/memory.go.
use jaeger.Prelude.{
  ℕ, ◌≡◌, refl, ◌∙◌, sym, inl, inr, List, [], ◌∷◌, ◌++◌, append-nil, append_assoc, Option, none,
  some, Bool-cases, nat_eq, ◌==◌, ==_iff, if◌then◌else◌, arith,
}
use jaeger.Prelude.Map.{Map, lookup, insert, lookup-insert}
use jaeger.Otlp.{Span}
use jaeger.Memory.Reshuffle.{group, add_to_group, reshuffle_spans, spread, or_nil}

-- Each key stands once.
abbrev pub Unique : {V : Type 0} → Map ℕ V → Type 0
Unique [] = Unit
Unique ((k, _) ∷ m) = (lookup k m ≡ none) × Unique m

-- What is used of the order in which Go ranges over a map: each entry comes once.
pub record IsOrder {A : Type 0} (range : Map ℕ (List A) → Map ℕ (List A)) : Type 0 where
  pub unique : (m : Map ℕ (List A)) → Unique m → Unique (range m)
  pub same : (m : Map ℕ (List A)) → Unique m → (k : ℕ) → lookup k (range m) ≡ lookup k m

insert-Unique : {V : Type 0} (k : ℕ) (v : V) (m : Map ℕ V) → Unique m → Unique (insert k v m)
unfolding insert lookup
insert-Unique k v [] u = (refl, tt)
insert-Unique k v ((j, w) ∷ m) u = elim (Bool-cases (j == k)) [
  | inl same ↦ rw same (rw (sym ((==_iff j k).0 same)) u.0, u.1)
  | inr other ↦
      rw other
        (lookup-insert k j v m ∙ ground (arith, ==_iff k j, ==_iff j k), insert-Unique k v m u.1)
]

module _ {A : Type 0} where
  add_to_group-Unique :
      (k : ℕ) (x : A) (m : Map ℕ (List A)) → Unique m → Unique (add_to_group k x m)
  unfolding add_to_group
  add_to_group-Unique k x m u = insert-Unique k (group k m ++ x ∷ []) m u

  group-add_to_group :
      (j k : ℕ) (x : A) (m : Map ℕ (List A))
      → group j (add_to_group k x m) ≡ group j m ++ (if k == j then x ∷ [] else [])
  unfolding group add_to_group
  group-add_to_group j k x m = elim (Bool-cases (k == j)) [
    | inl same ↦
        let at : k ≡ j = (==_iff k j).0 same in
        rw (lookup-insert k j (group k m ++ x ∷ []) m, same) (rw at refl)
    | inr other ↦ rw (lookup-insert k j (group k m ++ x ∷ []) m, other, append-nil) refl
  ]

abbrev pub keep : ℕ → List Span → List Span
keep k [] = []
keep k (x ∷ xs) = if x.trace_id == k then x ∷ keep k xs else keep k xs

pub reshuffle_spans-Unique :
    (xs : List Span) (m : Map ℕ (List Span)) → Unique m → Unique (reshuffle_spans xs m)
unfolding reshuffle_spans
reshuffle_spans-Unique [] m u = u
reshuffle_spans-Unique (x ∷ xs) m u =
    reshuffle_spans-Unique xs _ (add_to_group-Unique x.trace_id x m u)

group-reshuffle_spans :
    (k : ℕ) (xs : List Span) (m : Map ℕ (List Span))
    → group k (reshuffle_spans xs m) ≡ group k m ++ keep k xs
unfolding reshuffle_spans
group-reshuffle_spans k [] m = sym (append-nil _)
group-reshuffle_spans k (x ∷ xs) m =
    group-reshuffle_spans k xs (add_to_group x.trace_id x m)
    ∙ rw (group-add_to_group k x.trace_id x m) (elim (Bool-cases (x.trace_id == k)) [
      | inl own ↦ rw (own, append_assoc) refl
      | inr other ↦ rw (other, append-nil) refl
    ])

pub held_spans : (k : ℕ) (xs : List Span) → or_nil (lookup k (reshuffle_spans xs [])) ≡ keep k xs
unfolding group lookup
held_spans k xs = group-reshuffle_spans k xs []

module _ {A B : Type 0} (wrap : List A → B) where
  pub spread-Unique :
      (groups : Map ℕ (List A)) (m : Map ℕ (List B)) → Unique m → Unique (spread wrap groups m)
  unfolding spread
  spread-Unique [] m u = u
  spread-Unique ((k, xs) ∷ groups) m u =
      spread-Unique groups _ (add_to_group-Unique k (wrap xs) m u)

  abbrev pub one : Option (List A) → List B
  one none = []
  one (some xs) = wrap xs ∷ []

  pub group-spread :
      (j : ℕ) (groups : Map ℕ (List A)) (m : Map ℕ (List B))
      → Unique groups
      → group j (spread wrap groups m) ≡ group j m ++ one (lookup j groups)
  unfolding spread lookup
  group-spread j [] m u = sym (append-nil _)
  group-spread j ((k, xs) ∷ groups) m u =
      group-spread j groups (add_to_group k (wrap xs) m) u.1
      ∙ rw (group-add_to_group j k (wrap xs) m) (elim (Bool-cases (k == j)) [
        | inl own ↦
            let none_left : lookup j groups ≡ none = rw (sym ((==_iff k j).0 own)) u.0 in
            rw (own, none_left, append-nil) refl
        | inr other ↦ rw (other, append-nil) refl
      ])
