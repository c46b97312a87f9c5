-- ===== src/Jptrace/Aggregator/CopyLaws.antt =====
-- What copySpansUpToLimit copies: the first spans of the source, each with its resource and scope.
use native.Mathlib.Nat.{add-zero}
use jaeger.Prelude.{
  ℕ, suc, ◌+◌, ◌-◌, ◌≤◌, ◌≡◌, refl, Bool, true, false, List, [], ◌∷◌, ◌++◌, append-nil,
  append_assoc, map, map-append, arith, leb, length, take, length-take, take_nil, take-append,
  take-map, length-map, length-append, Bool-cases, inl, inr, ap,
}
use jaeger.Otlp.{Traces, Span, ScopeSpans, ResourceSpans, Place, place, flatten, flatten_scopes}
use jaeger.Jptrace.Spans.{flatten-append, flatten_scopes-append}
use jaeger.Jptrace.Aggregator.Copy.{
  CopyState, modify_last, add_resource, add_scope, push_span, copy_spans, copy_scopes,
  copy_resources, copy_spans_up_to_limit, merge_traces,
}

modify_last-append {ℓ} :
    {A : Type ℓ} (f : A → A) (xs : List A) (x : A) → modify_last f (xs ++ x ∷ []) ≡ xs ++ f x ∷ []
unfolding modify_last
modify_last-append f [] x = refl
modify_last-append f (y ∷ []) x = refl
modify_last-append f (y ∷ z ∷ ys) x = ap (◌∷◌ y) (modify_last-append f (z ∷ ys) x)

-- What the destination holds: nothing of the source's resource, the resource with some scopes, or
-- also the current scope with some spans.
data Shape : Type 0 where
  closed : Traces → Shape
  in_resource : Traces → List ScopeSpans → Shape
  in_scope : Traces → List ScopeSpans → List Span → Shape

abbrev has_resource : Shape → Bool
has_resource (closed _) = false
has_resource _ = true

abbrev has_scope : Shape → Bool
has_scope (in_scope _ _ _) = true
has_scope _ = false

module _ (r : ResourceSpans) (s : ScopeSpans) where
  abbrev dest_of : Shape → Traces
  dest_of (closed d) = d
  dest_of (in_resource d ss) = d ++ record r { scope_spans = ss } ∷ []
  dest_of (in_scope d ss xs) =
      d ++ record r { scope_spans = ss ++ record s { spans = xs } ∷ [] } ∷ []

  abbrev state : Shape → ℕ → CopyState
  state sh n = record {
    dest = dest_of sh;
    copied = n;
    resource_added = has_resource sh;
    scope_added = has_scope sh;
  }

  abbrev advance : Shape → List Span → Shape
  advance sh [] = sh
  advance (closed d) (x ∷ xs) = in_scope d [] (x ∷ xs)
  advance (in_resource d ss) (x ∷ xs) = in_scope d ss (x ∷ xs)
  advance (in_scope d ss ys) (x ∷ xs) = in_scope d ss (ys ++ x ∷ xs)

  push_span-advance :
      (sh : Shape) (n : ℕ) (x : Span)
      → push_span x (add_scope s (add_resource r (state sh n)))
        ≡ state (advance sh (x ∷ [])) (n + 1)
  unfolding push_span add_scope add_resource modify_last
  push_span-advance (closed d) n x = simp modify_last-append
  push_span-advance (in_resource d ss) n x = simp modify_last-append
  push_span-advance (in_scope d ss xs) n x = simp modify_last-append

  advance-advance :
      (sh : Shape) (x : Span) (xs : List Span)
      → advance (advance sh (x ∷ [])) xs ≡ advance sh (x ∷ xs)
  advance-advance (closed d) x [] = refl
  advance-advance (closed d) x (y ∷ ys) = refl
  advance-advance (in_resource d ss) x [] = refl
  advance-advance (in_resource d ss) x (y ∷ ys) = refl
  advance-advance (in_scope d ss zs) x [] = refl
  advance-advance (in_scope d ss zs) x (y ∷ ys) = rw append_assoc

  copy_spans-advance :
      (limit : ℕ) (xs : List Span) (sh : Shape) (n : ℕ)
      → copy_spans limit r s xs (state sh n)
        ≡ state (advance sh (take (limit - n) xs)) (n + length (take (limit - n) xs))
  unfolding copy_spans
  copy_spans-advance limit [] sh n = rw (take_nil (limit - n), add-zero) refl
  copy_spans-advance limit (x ∷ xs) sh n = elim (Bool-cases (leb limit n)) [
    | inl full ↦ let none_left : limit - n ≡ 0 = ground arith in rw (full, none_left, add-zero) refl
    | inr room ↦
        let some_left : limit - n ≡ suc (limit - (n + 1)) = ground arith in
        rw (room, some_left, push_span-advance sh n x)
          (rw (copy_spans-advance limit xs (advance sh (x ∷ [])) (n + 1), advance-advance)
            (ap (state (advance sh (x ∷ take (limit - (n + 1)) xs))) (omega arith)))
  ]

flatten_scopes-record :
    (r : ResourceSpans) (ts ss : List ScopeSpans)
    → flatten_scopes (record r { scope_spans = ts }) ss ≡ flatten_scopes r ss
flatten_scopes-record r ts [] = refl
flatten_scopes-record r ts (s ∷ ss) =
    ap (◌++◌ (map (λ x. (place r s, x)) s.spans)) (flatten_scopes-record r ts ss)

flatten-advance :
    (r : ResourceSpans) (s : ScopeSpans) (sh : Shape) (xs : List Span)
    → flatten (dest_of r s (advance r s sh xs))
      ≡ flatten (dest_of r s sh) ++ map (λ x. (place r s, x)) xs
flatten-advance r s sh [] = rw append-nil
flatten-advance r s (closed d) (x ∷ xs) = simp (flatten-append, append-nil)
flatten-advance r s (in_resource d ss) (x ∷ xs) =
    simp (flatten-append, flatten_scopes-append, flatten_scopes-record, append-nil, append_assoc)
flatten-advance r s (in_scope d ss ys) (x ∷ xs) = simp (
  flatten-append, flatten_scopes-append, flatten_scopes-record, append-nil, append_assoc,
  map-append,
)

-- The shapes between two scopes.
data Settled : Type 0 where
  closed : Traces → Settled
  in_resource : Traces → List ScopeSpans → Settled

abbrev shape : Settled → Shape
shape (closed d) = Shape.closed d
shape (in_resource d ss) = Shape.in_resource d ss

abbrev settle : ScopeSpans → Shape → Settled
settle s (closed d) = Settled.closed d
settle s (in_resource d ss) = Settled.in_resource d ss
settle s (in_scope d ss xs) = Settled.in_resource d (ss ++ record s { spans = xs } ∷ [])

abbrev settled_dest : ResourceSpans → Settled → Traces
settled_dest r (closed d) = d
settled_dest r (in_resource d ss) = d ++ record r { scope_spans = ss } ∷ []

abbrev settled_resource : Settled → Bool
settled_resource (closed _) = false
settled_resource (in_resource _ _) = true

abbrev settled : ResourceSpans → Settled → ℕ → Bool → CopyState
settled r t n b = record {
  dest = settled_dest r t;
  copied = n;
  resource_added = settled_resource t;
  scope_added = b;
}

-- `st` has copied the first spans of `items` behind `before`, `n` having been copied before.
record Copied (before : Traces) (items : List (Place × Span)) (limit n : ℕ) (st : CopyState)
    : Type 0 where
  flat : flatten st.dest ≡ flatten before ++ take (limit - n) items
  count : st.copied ≡ n + length (take (limit - n) items)

Copied-nil : (limit : ℕ) (st : CopyState) → Copied st.dest [] limit st.copied st
Copied-nil limit st = record {
  flat = rw (take_nil (limit - st.copied), append-nil) refl;
  count = rw (take_nil (limit - st.copied), add-zero) refl;
}

Copied-full :
    (items : List (Place × Span)) (limit : ℕ) (st : CopyState)
    → limit ≤ st.copied
    → Copied st.dest items limit st.copied st
Copied-full items limit st h =
    let e : limit - st.copied ≡ 0 = omega arith in
    record { flat = rw (e, append-nil) refl; count = rw (e, add-zero) refl }

Copied-append :
    (before : Traces) (a b : List (Place × Span)) (limit n : ℕ) (mid st : CopyState)
    → Copied before a limit n mid
    → Copied mid.dest b limit mid.copied st
    → Copied before (a ++ b) limit n st
Copied-append before a b limit n mid st x y =
    let left : limit - mid.copied ≡ limit - n - length a =
      omega (arith, length-take (limit - n) a, x.count) in
    record {
      flat = rw (take-append (limit - n) a b, y.flat, x.flat, left, append_assoc) refl;
      count = rw (take-append (limit - n) a b) (
          omega (
            arith,
            x.count,
            ap (λ (k : ℕ). length (take k b)) left,
            y.count,
            length-append (take (limit - n) a) (take (limit - n - length a) b),
          ));
    }

module _ (r : ResourceSpans) where
  copy_spans-Copied :
      (limit n : ℕ) (s : ScopeSpans) (t : Settled)
      → Copied (settled_dest r t) (map (λ x. (place r s, x)) s.spans) limit n (
          state r s
            (advance r s (shape t) (take (limit - n) s.spans))
            (n + length (take (limit - n) s.spans)))
  copy_spans-Copied limit n s (closed d) = record {
    flat = rw (take-map, flatten-advance r s (Shape.closed d)) refl;
    count = rw (take-map, length-map) refl;
  }
  copy_spans-Copied limit n s (in_resource d ss) = record {
    flat = rw (take-map, flatten-advance r s (Shape.in_resource d ss)) refl;
    count = rw (take-map, length-map) refl;
  }

  reset_scope :
      (t : Settled) (s : ScopeSpans) (n : ℕ) (b : Bool)
      → record (settled r t n b) { scope_added = false } ≡ state r s (shape t) n
  reset_scope (closed d) s n b = refl
  reset_scope (in_resource d ss) s n b = refl

  state-settle :
      (s : ScopeSpans) (sh : Shape) (n : ℕ)
      → state r s sh n ≡ settled r (settle s sh) n (has_scope sh)
  state-settle s (closed d) n = refl
  state-settle s (in_resource d ss) n = refl
  state-settle s (in_scope d ss xs) n = refl

  copy_scopes-Copied :
      (limit n : ℕ) (ss : List ScopeSpans) (t : Settled) (b : Bool)
      → Copied
          (settled_dest r t)
          (flatten_scopes r ss)
          limit
          n
          (copy_scopes limit r ss (settled r t n b))
  unfolding copy_scopes
  copy_scopes-Copied limit n [] t b = Copied-nil limit (settled r t n b)
  copy_scopes-Copied limit n (s ∷ ss) t b = elim (Bool-cases (leb limit n)) [
    | inl full ↦ rw full (Copied-full _ limit (settled r t n b) (ground arith))
    | inr room ↦
        let xs = take (limit - n) s.spans in
        let sh = advance r s (shape t) xs in
        let k : ℕ = n + length xs in
        let rest = settled r (settle s sh) k (has_scope sh) in
        rw
          (
            room,
            reset_scope t s n b,
            copy_spans-advance r s limit s.spans (shape t) n,
            state-settle s sh k,
          )
          (Copied-append (settled_dest r t) (map (λ x. (place r s, x)) s.spans)
            (flatten_scopes r ss) limit n rest _
            (rw (state-settle s sh k) at (copy_spans-Copied limit n s t))
            (copy_scopes-Copied limit k ss (settle s sh) (has_scope sh)))
  ]

copy_resources-Copied :
    (limit : ℕ) (rs : Traces) (st : CopyState)
    → Copied st.dest (flatten rs) limit st.copied (copy_resources limit rs st)
unfolding copy_resources
copy_resources-Copied limit [] st = Copied-nil limit st
copy_resources-Copied limit (r ∷ rs) st = elim (Bool-cases (leb limit st.copied)) [
  | inl full ↦ rw full (Copied-full _ limit st (ground arith))
  | inr room ↦ rw room (
      Copied-append st.dest (flatten_scopes r r.scope_spans) (flatten rs) limit st.copied _ _
        (copy_scopes-Copied r limit st.copied r.scope_spans (Settled.closed st.dest) st.scope_added)
        (copy_resources-Copied limit rs _))
]

-- The destination keeps its spans and takes the first `limit` spans of the source behind them,
-- each under its own resource, scope and schema URLs.
pub flatten-copy_spans_up_to_limit :
    (dest src : Traces) (limit : ℕ)
    → flatten (copy_spans_up_to_limit dest src limit) ≡ flatten dest ++ take limit (flatten src)
unfolding copy_spans_up_to_limit
flatten-copy_spans_up_to_limit dest src limit =
    let e : limit - 0 ≡ limit = omega arith in
    rw e at
      (copy_resources-Copied limit src
        (record { dest = dest; copied = 0; resource_added = false; scope_added = false })).flat

pub merge_traces-append : (dest src : Traces) → merge_traces dest src ≡ dest ++ src
unfolding merge_traces
merge_traces-append dest [] = rw append-nil refl
merge_traces-append dest (r ∷ rs) = rw (merge_traces-append (dest ++ r ∷ []) rs, append_assoc) refl
