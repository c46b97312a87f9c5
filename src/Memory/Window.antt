-- ===== src/Memory/Window.antt =====
-- The sampling store of internal/storage/v2/memory/sampling.go keeps the newest throughputs.
use jaeger.Prelude.{
  ℕ, zero, suc, ◌≡◌, refl, ◌∙◌, sym, ap, inl, inr, List, [], ◌∷◌, length, take, take_of_length-le,
  take_nil, arith, ltb, Bool-cases, ◌⊎◌, ◌&&◌, ◌++◌,
}
use jaeger.Prelude.Int.{ℤ, ◌≤ℤ◌, ltb_ℤ, leb_ℤ}
use jaeger.Memory.Sampling.{
  StoredThroughput, SamplingStore, new_sampling_store, prepend_throughput, insert_throughput,
  throughput_between, get_throughput,
}

module _ {A : Type 0} where
  take_shorter : (n : ℕ) (xs : List A) → take n (take (suc n) xs) ≡ take n xs
  take_shorter zero xs = refl
  take_shorter (suc n) [] = refl
  take_shorter (suc n) (x ∷ xs) = ap (◌∷◌ x) (take_shorter n xs)

  take_behind : (n : ℕ) (x : A) (xs : List A) → take n (x ∷ take n xs) ≡ take n (x ∷ xs)
  take_behind zero x xs = refl
  take_behind (suc n) x xs = ap (◌∷◌ x) (take_shorter n xs)

  take_twice : (n : ℕ) (xs : List A) → take n (take n xs) ≡ take n xs
  take_twice zero xs = refl
  take_twice (suc n) [] = refl
  take_twice (suc n) (x ∷ xs) = ap (◌∷◌ x) (take_twice n xs)

  abbrev pub newest_onto : List A → List A → List A
  newest_onto [] older = older
  newest_onto (x ∷ xs) older = newest_onto xs (x ∷ older)

  -- A history with the newest first.
  abbrev pub newest_first : List A → List A
  newest_first xs = newest_onto xs []

  take-newest_onto :
      (n : ℕ) (xs older : List A)
      → take n (newest_onto xs (take n older)) ≡ take n (newest_onto xs older)
  take-newest_onto n [] older = take_twice n older
  take-newest_onto n (x ∷ xs) older =
      sym (take-newest_onto n xs (x ∷ take n older))
      ∙ ap (λ o. take n (newest_onto xs o)) (take_behind n x older)
      ∙ take-newest_onto n xs (x ∷ older)

module _ {T P Q : Type 0} where
  -- Calls of InsertThroughput, in their order, each with its time.
  abbrev pub insert_all : List (StoredThroughput T) → SamplingStore T P Q → SamplingStore T P Q
  insert_all [] ss = ss
  insert_all (c ∷ calls) ss = insert_all calls (insert_throughput c.time c.throughput ss)

  prepend_throughput-take :
      (x : StoredThroughput T) (ss : SamplingStore T P Q)
      → (prepend_throughput x ss).throughputs ≡ take ss.max_buckets (x ∷ ss.throughputs)
  unfolding prepend_throughput
  prepend_throughput-take x ss =
      elim (Bool-cases (ltb ss.max_buckets (length (x ∷ ss.throughputs)))) [
        | inl over ↦ rw over refl
        | inr fits ↦
            rw fits (sym (take_of_length-le ss.max_buckets (x ∷ ss.throughputs) (ground arith)))
      ]

  max_buckets-prepend_throughput :
      (x : StoredThroughput T) (ss : SamplingStore T P Q)
      → (prepend_throughput x ss).max_buckets ≡ ss.max_buckets
  unfolding prepend_throughput
  max_buckets-prepend_throughput x ss = refl

  insert_all-newest :
      (n : ℕ) (calls : List (StoredThroughput T)) (ss : SamplingStore T P Q)
      → ss.max_buckets ≡ n
      → ss.throughputs ≡ take n ss.throughputs
      → (insert_all calls ss).throughputs ≡ take n (newest_onto calls ss.throughputs)
  unfolding insert_throughput
  insert_all-newest n [] ss e h = h
  insert_all-newest n (c ∷ calls) ss e h =
      let after = prepend_throughput-take c ss ∙ ap (λ m. take m (c ∷ ss.throughputs)) e in
      insert_all-newest n calls (prepend_throughput c ss) (max_buckets-prepend_throughput c ss ∙ e)
        (after ∙ sym (take_twice n _) ∙ ap (take n) (sym after))
      ∙ ap (λ o. take n (newest_onto calls o)) after
      ∙ take-newest_onto n calls (c ∷ ss.throughputs)

-- The time of a throughput is after the start that is asked for, and not after the end.
abbrev pub Asked : {T : Type 0} → ℤ → ℤ → StoredThroughput T → Type 0
Asked start finish c = (¬ (c.time ≤ℤ start)) × (c.time ≤ℤ finish)

-- `out` joins the contents of those entries, and of no others, whose time was asked for.
abbrev pub Gathers : {T : Type 0} → ℤ → ℤ → List (StoredThroughput T) → List T → Type 0
Gathers start finish [] out = out ≡ []
Gathers {T} start finish (c ∷ cs) out =
    (Asked start finish c
      × (rest : List T) × (out ≡ c.throughput ++ rest)
      × Gathers start finish cs rest)
    ⊎ ((¬ Asked start finish c) × Gathers start finish cs out)

throughput_between-Gathers :
    {T : Type 0} (start finish : ℤ) (cs : List (StoredThroughput T))
    → Gathers start finish cs (throughput_between start finish cs)
unfolding throughput_between
throughput_between-Gathers start finish [] = refl
throughput_between-Gathers start finish (c ∷ cs) =
    let rest = throughput_between-Gathers start finish cs in
    elim (Bool-cases (ltb_ℤ start c.time && leb_ℤ c.time finish)) [
      | inl asked ↦ rw asked (inl (ground arith, throughput_between start finish cs, refl, rest))
      | inr other ↦ rw other (inr (λ a. ground arith, rest))
    ]

-- After any inserts into a new store of `n` buckets, GetThroughput gives, newest first, the
-- throughputs whose time is after the start that is asked for and not after the end, of those that
-- are among the newest `n` inserts, and no others.
pub get_throughput-insert_all :
    {T : Type 0} (P Q : Type 0) (n : ℕ) (calls : List (StoredThroughput T)) (start finish : ℤ)
    → Gathers start finish (take n (newest_first calls)) (
        get_throughput start finish
          (insert_all calls (new_sampling_store {T = T} {P = P} {Q = Q} n)))
unfolding get_throughput new_sampling_store
get_throughput-insert_all P Q n calls start finish =
    let kept =
      insert_all-newest n calls (new_sampling_store {P = P} {Q = Q} n) refl (sym (take_nil n)) in
    rw kept (throughput_between-Gathers start finish (take n (newest_first calls)))
