-- ===== src/Jptrace/Spans.antt =====
-- internal/jptrace/spaniter.go and GetTraceID of traces.go, with ptrace's SpanCount.
use jaeger.Prelude.{
  ℕ, List, [], ◌∷◌, ◌++◌, ◌≡◌, refl, ◌+◌, length, length-append, length-map, map, arith,
  append_assoc,
}
use jaeger.Otlp.{Traces, Place, Span, ResourceSpans, ScopeSpans, flatten, flatten_scopes, place}

-- SpanIter, as the list of what it yields: the loops over resources, scopes and spans.
unfoldable pub span_iter_scope : ResourceSpans → ScopeSpans → List Span → List (Place × Span)
span_iter_scope r s [] = []
span_iter_scope r s (x ∷ xs) = (place r s, x) ∷ span_iter_scope r s xs

unfoldable pub span_iter_resource : ResourceSpans → List ScopeSpans → List (Place × Span)
unfolding span_iter_scope
span_iter_resource r [] = []
span_iter_resource r (s ∷ ss) = span_iter_scope r s s.spans ++ span_iter_resource r ss

unfoldable pub span_iter : Traces → List (Place × Span)
unfolding span_iter_resource
span_iter [] = []
span_iter (r ∷ rs) = span_iter_resource r r.scope_spans ++ span_iter rs

unfoldable pub first_trace_id : List (Place × Span) → ℕ
first_trace_id [] = 0
first_trace_id ((_, x) ∷ _) = x.trace_id

-- GetTraceID: the identifier of the first span, empty where there is none.
unfoldable pub get_trace_id : Traces → ℕ
unfolding span_iter first_trace_id
get_trace_id traces = first_trace_id (span_iter traces)

-- ptrace's `SpanCount`.
unfoldable pub span_count_scopes : List ScopeSpans → ℕ
span_count_scopes [] = 0
span_count_scopes (s ∷ ss) = length s.spans + span_count_scopes ss

unfoldable pub span_count : Traces → ℕ
unfolding span_count_scopes
span_count [] = 0
span_count (r ∷ rs) = span_count_scopes r.scope_spans + span_count rs

span_iter_scope-map :
    (r : ResourceSpans) (s : ScopeSpans) (xs : List Span)
    → span_iter_scope r s xs ≡ map (λ x. (place r s, x)) xs
unfolding span_iter_scope
span_iter_scope-map r s [] = refl
span_iter_scope-map r s (x ∷ xs) = rw (span_iter_scope-map r s xs)

span_iter_resource-flatten :
    (r : ResourceSpans) (ss : List ScopeSpans) → span_iter_resource r ss ≡ flatten_scopes r ss
unfolding span_iter_resource
span_iter_resource-flatten r [] = refl
span_iter_resource-flatten r (s ∷ ss) =
    rw (span_iter_scope-map r s s.spans, span_iter_resource-flatten r ss)

pub span_iter-flatten : (traces : Traces) → span_iter traces ≡ flatten traces
unfolding span_iter
span_iter-flatten [] = refl
span_iter-flatten (r ∷ rs) = rw (span_iter_resource-flatten r r.scope_spans, span_iter-flatten rs)

span_count_scopes-flatten :
    (r : ResourceSpans) (ss : List ScopeSpans) → span_count_scopes ss ≡ length (flatten_scopes r ss)
unfolding span_count_scopes
span_count_scopes-flatten r [] = refl
span_count_scopes-flatten r (s ∷ ss) = omega (
  arith,
  span_count_scopes-flatten r ss,
  length-append (map (λ x. (place r s, x)) s.spans) (flatten_scopes r ss),
  length-map {B = Place × Span} s.spans (λ x. (place r s, x)),
)

pub span_count-flatten : (traces : Traces) → span_count traces ≡ length (flatten traces)
unfolding span_count
span_count-flatten [] = refl
span_count-flatten (r ∷ rs) = omega (
  arith,
  span_count-flatten rs,
  span_count_scopes-flatten r r.scope_spans,
  length-append (flatten_scopes r r.scope_spans) (flatten rs),
)

pub flatten_scopes-append :
    (r : ResourceSpans) (ss ts : List ScopeSpans)
    → flatten_scopes r (ss ++ ts) ≡ flatten_scopes r ss ++ flatten_scopes r ts
flatten_scopes-append r [] ts = refl
flatten_scopes-append r (s ∷ ss) ts = rw (flatten_scopes-append r ss ts, append_assoc)

pub flatten-append : (a b : Traces) → flatten (a ++ b) ≡ flatten a ++ flatten b
flatten-append [] b = refl
flatten-append (r ∷ rs) b = rw (flatten-append rs b, append_assoc)
