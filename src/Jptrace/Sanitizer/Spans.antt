-- ===== src/Jptrace/Sanitizer/Spans.antt =====
-- What sanitizeEmptySpanName, internal/jptrace/sanitizer/emptyspanname.go, does to each span.
use jaeger.Prelude.{
  List, [], ◌∷◌, Bool, false, map, ◌==◌, string_eq, ==_iff, ◌≡◌, ◌≢◌, refl, sym, ap, Bool-cases,
  inl, inr, arith, Each, Each-append,
}
use jaeger.Otlp.{Span, ScopeSpans, ResourceSpans, Traces, Place, place, flatten, flatten_scopes}
use jaeger.Jptrace.Sanitizer.{
  any, any_span, map_spans, name_is_empty, fix_name, sanitize_empty_span_name,
}

-- The span stays in its place, as it is if it has a name, and otherwise with the placeholder as
-- its name.
pub record Renames (a b : Place × Span) : Type 0 where
  pub place : b.0 ≡ a.0
  pub named : a.1.name ≢ "" → b.1 ≡ a.1
  pub nameless : a.1.name ≡ "" → b.1 ≡ record a.1 { name = "empty-span-name" }

fix_name-Renames : (p : Place) (x : Span) → Renames (p, x) (p, fix_name x)
unfolding fix_name
fix_name-Renames p x = elim (Bool-cases (x.name == "")) [
  | inl blank ↦ rw blank (record {
    place = refl;
    named = λ n. absurd (n ((==_iff x.name "").0 blank));
    nameless = λ e. refl;
  })
  | inr full ↦ rw full (record {
    place = refl;
    named = λ n. refl;
    nameless = λ e. absurd (ground (arith, ==_iff x.name ""));
  })
]

spans-Renames :
    (p : Place) (xs : List Span)
    → Each Renames (map (λ x. (p, x)) xs) (map (λ x. (p, x)) (map fix_name xs))
spans-Renames p [] = tt
spans-Renames p (x ∷ xs) = (fix_name-Renames p x, spans-Renames p xs)

fix_spans : ScopeSpans → ScopeSpans
fix_spans s = record s { spans = map fix_name s.spans }

scopes-Renames :
    (r r' : ResourceSpans) (ss : List ScopeSpans)
    → r'.resource ≡ r.resource
    → r'.schema_url ≡ r.schema_url
    → Each Renames (flatten_scopes r ss) (flatten_scopes r' (map fix_spans ss))
unfolding fix_spans
scopes-Renames r r' [] e u = tt
scopes-Renames r r' (s ∷ ss) e u =
    let same : place r' (fix_spans s) ≡ place r s = rw (e, u) refl in
    Each-append Renames (map (λ x. (place r s, x)) s.spans) (flatten_scopes r ss)
      (map (λ x. (place r' (fix_spans s), x)) (map fix_name s.spans))
      (flatten_scopes r' (map fix_spans ss)) (rw same (spans-Renames (place r s) s.spans))
      (scopes-Renames r r' ss e u)

map_spans-Renames : (t : Traces) → Each Renames (flatten t) (flatten (map_spans fix_name t))
unfolding map_spans fix_spans
map_spans-Renames [] = tt
map_spans-Renames (r ∷ t) =
    let r' : ResourceSpans = record r { scope_spans = map fix_spans r.scope_spans } in
    Each-append Renames (flatten_scopes r r.scope_spans) (flatten t)
      (flatten_scopes r' r'.scope_spans) (flatten (map_spans fix_name t))
      (scopes-Renames r r' r.scope_spans refl refl) (map_spans-Renames t)

-- Where no element is asked for, changing each of them changes nothing.
map_unasked :
    {A : Type 0} (p : A → Bool) (f : A → A)
    → ((x : A) → p x ≡ false → f x ≡ x)
    → (xs : List A) → any p xs ≡ false
    → map f xs ≡ xs
map_unasked p f h [] e = refl
map_unasked p f h (x ∷ xs) e =
    rw (h x (ground arith)) (ap (◌∷◌ x) (map_unasked p f h xs (ground arith)))

fix_name-named : (x : Span) → name_is_empty x ≡ false → fix_name x ≡ x
unfolding name_is_empty fix_name
fix_name-named x h = rw h refl

map_spans-named : (t : Traces) → any_span name_is_empty t ≡ false → map_spans fix_name t ≡ t
unfolding any_span map_spans
map_spans-named t =
    map_unasked _ _
      (λ r h.
        ap (λ ss. record r { scope_spans = ss })
          (map_unasked _ _
            (λ s k.
              ap (λ xs. record s { spans = xs })
                (map_unasked name_is_empty fix_name fix_name-named s.spans k))
            r.scope_spans h))
      t

sanitize-map_spans : (t : Traces) → sanitize_empty_span_name t ≡ map_spans fix_name t
unfolding sanitize_empty_span_name
sanitize-map_spans t = elim (Bool-cases (any_span name_is_empty t)) [
  | inl blank ↦ rw blank refl
  | inr named ↦ rw named (sym (map_spans-named t named))
]

-- sanitizeEmptySpanName keeps the spans, in their order, with their resources and scopes. A span
-- that has a name stays as it is, and one without a name changes only in that it gets the
-- placeholder as its name.
pub sanitize_empty_span_name-Renames :
    (t : Traces) → Each Renames (flatten t) (flatten (sanitize_empty_span_name t))
sanitize_empty_span_name-Renames t = rw (sanitize-map_spans t) (map_spans-Renames t)
