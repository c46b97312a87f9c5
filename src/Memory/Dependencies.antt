-- ===== src/Memory/Dependencies.antt =====
-- getDependencies of internal/storage/v2/memory/tenant.go: one link for each pair of services of
-- which one calls the other, with the number of calls.
use Prim.Native.String.{◌++◌ as str_append}
use jaeger.Prelude.{
  ℕ, ◌+◌, String, List, [], ◌∷◌, map, Bool, not, ◌&&◌, Option, none, some, if◌then◌else◌, ◌==◌,
  nat_eq, string_eq,
}
use jaeger.Prelude.Map.{Map, lookup, insert}
use jaeger.Otlp.{Span, ScopeSpans, ResourceSpans, Traces}
use jaeger.Memory.Clock.{Time, is_zero, before, after}
use jaeger.Memory.Match.{Readings, get_service_name_from_resource}
use jaeger.Memory.Tenant.{Tenant, TraceAndId, slot}

-- model.DependencyLink, with the fields that the store sets.
pub record DependencyLink : Type 0 where
  pub parent : String
  pub child : String
  pub call_count : ℕ

abbrev pub Links : Type 0
Links = Map String DependencyLink

pub data Answer : Type 0 where
  start_time_required end_before_start : Answer
  links : List DependencyLink → Answer

-- traceIsBetweenStartAndEnd
unfoldable pub trace_is_between_start_and_end : TraceAndId → Time → Time → Bool
unfolding before after
trace_is_between_start_and_end t start finish =
    if is_zero finish
    then after t.start_time start
    else after t.start_time start && before t.end_time finish

unfoldable pub has_span : ℕ → List Span → Bool
has_span id [] = Bool.false
has_span id (x ∷ xs) = let rest = has_span id xs in if x.span_id == id then Bool.true else rest

unfoldable pub scopes_have_span : ℕ → List ScopeSpans → Bool
unfolding has_span
scopes_have_span id [] = Bool.false
scopes_have_span id (s ∷ ss) =
    let rest = scopes_have_span id ss in if has_span id s.spans then Bool.true else rest

-- `deps[depKey]` is counted up, or made with a count of one.
unfoldable pub count_call : String → String → Links → Links
unfolding lookup insert
count_call parent child deps =
    let key = str_append (str_append parent "&&&") child in
    elim (lookup key deps) [
      | none ↦ insert key (record { parent = parent; child = child; call_count = 1 }) deps
      | some link ↦ insert key (record link { call_count = link.call_count + 1 }) deps
    ]

module _ (r : Readings) where
  -- findServiceNameWithSpanId
  unfoldable pub find_service_name_with_span_id : Traces → ℕ → Option String
  unfolding scopes_have_span get_service_name_from_resource
  find_service_name_with_span_id [] id = none
  find_service_name_with_span_id (x ∷ xs) id =
      let rest = find_service_name_with_span_id xs id in
      if scopes_have_span id x.scope_spans
      then some (get_service_name_from_resource r x.resource)
      else rest

  -- The body of the loop over the spans of a resource whose service is `service`.
  unfoldable pub count_span : Traces → String → Links → Span → Links
  unfolding find_service_name_with_span_id count_call
  count_span trace service deps x =
      if x.parent_span_id == 0
      then deps
      else elim (find_service_name_with_span_id trace x.parent_span_id) [
        | none ↦ deps
        | some parent ↦ count_call parent service deps
      ]

  unfoldable pub count_spans : Traces → String → List Span → Links → Links
  unfolding count_span
  count_spans trace service [] deps = deps
  count_spans trace service (x ∷ xs) deps =
      count_spans trace service xs (count_span trace service deps x)

  unfoldable pub count_scopes : Traces → String → List ScopeSpans → Links → Links
  unfolding count_spans
  count_scopes trace service [] deps = deps
  count_scopes trace service (s ∷ ss) deps =
      count_scopes trace service ss (count_spans trace service s.spans deps)

  unfoldable pub count_resources : Traces → List ResourceSpans → Links → Links
  unfolding count_scopes get_service_name_from_resource
  count_resources trace [] deps = deps
  count_resources trace (x ∷ xs) deps =
      count_resources trace xs
        (count_scopes trace (get_service_name_from_resource r x.resource) x.scope_spans deps)

  -- The loop over `t.ids`, in the order in which Go ranges over it.
  unfoldable pub count_traces : Tenant → Time → Time → List (ℕ × ℕ) → Links → Links
  unfolding count_resources trace_is_between_start_and_end
  count_traces t start finish [] deps = deps
  count_traces t start finish ((_, index) ∷ ids) deps =
      let found = slot t index in
      count_traces t start finish ids (
        if trace_is_between_start_and_end found start finish
        then count_resources found.trace found.trace deps
        else deps)

  -- getDependencies; `order` is the order of both ranges over maps.
  unfoldable pub get_dependencies :
      (List (ℕ × ℕ) → List (ℕ × ℕ)) → (Links → Links) → Tenant → Time → Time → Answer
  unfolding count_traces before
  get_dependencies range_ids range_links t start finish =
      if is_zero start
      then Answer.start_time_required
      else if not (is_zero finish) && before finish start
      then Answer.end_before_start
      else Answer.links (
          map (λ (e : String × DependencyLink). e.1)
            (range_links (count_traces t start finish (range_ids t.ids) [])))
