-- ===== src/Memory/Grouping.antt =====
-- The regrouping of what is written to the in-memory store, internal/storage/v2/memory/memory.go,
-- neither loses nor moves a span.
use jaeger.Prelude.{
  ℕ, ◌≡◌, refl, ◌∙◌, sym, ap, inl, inr, List, [], ◌∷◌, ◌++◌, map, append-nil, append_assoc, Option,
  none, some, Bool-cases, nat_eq, ◌==◌, if◌then◌else◌,
}
use jaeger.Prelude.Map.{Map, lookup}
use jaeger.Otlp.{Span, ScopeSpans, ResourceSpans, Traces, Place, place, flatten, flatten_scopes}
use jaeger.Jptrace.Spans.{flatten_scopes-append, flatten-append}
use jaeger.Memory.Reshuffle.{
  group, reshuffle_spans, scope_of, spread, resource_of, or_nil, reshuffle_scope_spans,
  reshuffle_resource_spans,
}
use jaeger.Memory.Spread.{
  Unique, IsOrder, keep, reshuffle_spans-Unique, held_spans, spread-Unique, one, group-spread,
}

-- A resource with only the spans of one trace, as the store keeps it.
abbrev scopes_of_trace : ℕ → List ScopeSpans → List ScopeSpans
scopes_of_trace k = map (λ s. scope_of s (keep k s.spans))

-- What was written of one trace, in the containers of the store.
abbrev of_trace : ℕ → Traces → Traces
of_trace k = map (λ r. resource_of r (scopes_of_trace k r.scope_spans))

-- A place of a written span, in the store.
abbrev pub unversioned : Place → Place
unversioned p = record {
  resource = p.resource;
  resource_schema = "";
  scope = p.scope;
  scope_schema = "";
}

-- The spans of one trace among those that were written, with their places in the store.
abbrev pub written : ℕ → List (Place × Span) → List (Place × Span)
written k [] = []
written k ((p, x) ∷ xs) =
    if x.trace_id == k then (unversioned p, x) ∷ written k xs else written k xs

written-append :
    (k : ℕ) (xs ys : List (Place × Span)) → written k (xs ++ ys) ≡ written k xs ++ written k ys
written-append k [] ys = refl
written-append k ((p, x) ∷ xs) ys = elim (Bool-cases (x.trace_id == k)) [
  | inl own ↦ rw (own, written-append k xs ys) refl
  | inr other ↦ rw (other, written-append k xs ys) refl
]

written-keep :
    (k : ℕ) (p : Place) (xs : List Span)
    → map (λ x. (unversioned p, x)) (keep k xs) ≡ written k (map (λ x. (p, x)) xs)
written-keep k p [] = refl
written-keep k p (x ∷ xs) = elim (Bool-cases (x.trace_id == k)) [
  | inl own ↦ rw own (ap (◌∷◌ (unversioned p, x)) (written-keep k p xs))
  | inr other ↦ rw other (written-keep k p xs)
]

written-scopes_of_trace :
    (k : ℕ) (r : ResourceSpans) (ss : List ScopeSpans)
    → flatten_scopes (resource_of r []) (scopes_of_trace k ss) ≡ written k (flatten_scopes r ss)
written-scopes_of_trace k r [] = refl
written-scopes_of_trace k r (s ∷ ss) =
    rw (written-append k (map (λ x. (place r s, x)) s.spans) (flatten_scopes r ss))
      (λ i. written-keep k (place r s) s.spans i ++ written-scopes_of_trace k r ss i)

written-of_trace : (k : ℕ) (td : Traces) → flatten (of_trace k td) ≡ written k (flatten td)
written-of_trace k [] = refl
written-of_trace k (r ∷ td) =
    rw (written-append k (flatten_scopes r r.scope_spans) (flatten td))
      (λ i. written-scopes_of_trace k r r.scope_spans i ++ written-of_trace k td i)

module _ {range_spans : Map ℕ (List Span) → Map ℕ (List Span)} (spans : IsOrder range_spans)
    {range_scopes : Map ℕ (List ScopeSpans) → Map ℕ (List ScopeSpans)}
    (scopes : IsOrder range_scopes) where
  flatten_scopes-one :
      (r : ResourceSpans) (s : ScopeSpans) (o : Option (List Span))
      → flatten_scopes r (one (scope_of s) o) ≡ flatten_scopes r (scope_of s (or_nil o) ∷ [])
  flatten_scopes-one r s none = refl
  flatten_scopes-one r s (some xs) = refl

  flatten-one :
      (r : ResourceSpans) (o : Option (List ScopeSpans))
      → flatten (one (resource_of r) o) ≡ flatten (resource_of r (or_nil o) ∷ [])
  flatten-one r none = refl
  flatten-one r (some xs) = refl

  reshuffle_scope_spans-Unique :
      (ss : List ScopeSpans) (m : Map ℕ (List ScopeSpans))
      → Unique m
      → Unique (reshuffle_scope_spans range_spans ss m)
  unfolding reshuffle_scope_spans
  reshuffle_scope_spans-Unique [] m u = u
  reshuffle_scope_spans-Unique (s ∷ ss) m u =
      reshuffle_scope_spans-Unique ss _
        (spread-Unique (scope_of s) (range_spans (reshuffle_spans s.spans [])) m u)

  one_scope :
      (r : ResourceSpans) (k : ℕ) (s : ScopeSpans)
      → flatten_scopes r (one (scope_of s) (lookup k (range_spans (reshuffle_spans s.spans []))))
        ≡ flatten_scopes r (scope_of s (keep k s.spans) ∷ [])
  one_scope r k s =
      let u = reshuffle_spans-Unique s.spans [] tt in
      let held : or_nil (lookup k (reshuffle_spans s.spans [])) ≡ keep k s.spans =
        held_spans k s.spans in
      flatten_scopes-one r s _ ∙ rw (spans.same (reshuffle_spans s.spans []) u k, held) refl

  scopes_lem :
      (r : ResourceSpans) (k : ℕ) (ss : List ScopeSpans) (m : Map ℕ (List ScopeSpans))
      → flatten_scopes r (group k (reshuffle_scope_spans range_spans ss m))
        ≡ flatten_scopes r (group k m) ++ flatten_scopes r (scopes_of_trace k ss)
  unfolding reshuffle_scope_spans
  scopes_lem r k [] m = sym (append-nil _)
  scopes_lem r k (s ∷ ss) m =
      let groups = range_spans (reshuffle_spans s.spans []) in
      let u : Unique groups = spans.unique _ (reshuffle_spans-Unique s.spans [] tt) in
      let step = group-spread (scope_of s) k groups m u in
      scopes_lem r k ss (spread (scope_of s) groups m)
      ∙ rw step (
          rw (flatten_scopes-append r (group k m) _) (
            rw (one_scope r k s) (
              append_assoc (flatten_scopes r (group k m)) _ _
              ∙ ap (◌++◌ (flatten_scopes r (group k m))) (
                  sym (
                    flatten_scopes-append r (scope_of s (keep k s.spans) ∷ [])
                      (scopes_of_trace k ss))))))

  held_scopes :
      (r : ResourceSpans) (k : ℕ) (ss : List ScopeSpans)
      → flatten_scopes r (or_nil (lookup k (reshuffle_scope_spans range_spans ss [])))
        ≡ flatten_scopes r (scopes_of_trace k ss)
  unfolding group lookup
  held_scopes r k ss = scopes_lem r k ss []

  one_resource :
      (k : ℕ) (r : ResourceSpans)
      → flatten (
          one
            (resource_of r)
            (lookup k (range_scopes (reshuffle_scope_spans range_spans r.scope_spans []))))
        ≡ flatten (resource_of r (scopes_of_trace k r.scope_spans) ∷ [])
  one_resource k r =
      let u = reshuffle_scope_spans-Unique r.scope_spans [] tt in
      flatten-one r (lookup k (range_scopes (reshuffle_scope_spans range_spans r.scope_spans [])))
      ∙ rw (scopes.same (reshuffle_scope_spans range_spans r.scope_spans []) u k)
          (ap (λ x. x ++ []) (held_scopes (resource_of r []) k r.scope_spans))

  resources_lem :
      (k : ℕ) (td : Traces) (m : Map ℕ (List ResourceSpans))
      → flatten (group k (reshuffle_resource_spans range_spans range_scopes td m))
        ≡ flatten (group k m) ++ flatten (of_trace k td)
  unfolding reshuffle_resource_spans
  resources_lem k [] m = sym (append-nil _)
  resources_lem k (r ∷ td) m =
      let groups = range_scopes (reshuffle_scope_spans range_spans r.scope_spans []) in
      let u : Unique groups = scopes.unique _ (reshuffle_scope_spans-Unique r.scope_spans [] tt) in
      let step = group-spread (resource_of r) k groups m u in
      resources_lem k td (spread (resource_of r) groups m)
      ∙ rw step (
          rw (flatten-append (group k m) _) (
            rw (one_resource k r) (
              append_assoc (flatten (group k m)) _ _
              ∙ ap (◌++◌ (flatten (group k m))) (
                  sym (
                    flatten-append (resource_of r (scopes_of_trace k r.scope_spans) ∷ [])
                      (of_trace k td))))))

  -- Under each trace identifier, the regrouping holds exactly the spans that were written with it,
  -- in the order in which they were written, each with its resource and its scope but without the
  -- schema URLs of these, in whatever order Go ranges over the maps on the way.
  pub flatten-reshuffle_resource_spans :
      (k : ℕ) (td : Traces)
      → flatten (group k (reshuffle_resource_spans range_spans range_scopes td []))
        ≡ written k (flatten td)
  unfolding group lookup
  flatten-reshuffle_resource_spans k td = resources_lem k td [] ∙ written-of_trace k td
