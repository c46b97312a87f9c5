-- ===== src/Memory/Match.antt =====
-- The span matcher of tenant.go and getServiceNameFromResource of memory.go, both in
-- internal/storage/v2/memory.
use Prim.Native.String.{len, slice}
use text.Mathlib.Text.{starts_with}
use jaeger.Prelude.{
  ℕ, zero, String, List, [], ◌∷◌, Bool, true, false, not, ◌&&◌, ◌||◌, Option, none, some,
  if◌then◌else◌, ◌==◌, nat_eq, string_eq,
}
use jaeger.Prelude.Int.{ℤ, pos, ltb_ℤ}
use jaeger.Prelude.Map.{lookup}
use jaeger.Otlp.{
  Value, ValueText, Attributes, Span, SpanKind, StatusCode, Scope, ScopeSpans, ResourceSpans,
  Traces, Event, Link,
}
use jaeger.Prelude.Parse.{parse_bool}
use jaeger.Tracestore.Query.{TraceQueryParams}
use jaeger.Memory.Clock.{is_zero, before, after, sub_time}

-- What is used of pdata, and Go's conversions of letters.
pub record Readings : Type 0 where
  pub text : ValueText
  pub as_time : ℕ → ℤ
  pub kind_string : SpanKind → String
  pub to_upper : String → String
  pub to_lower : String → String

abbrev pub error_attribute : String
error_attribute = "error"

abbrev any : {A : Type 0} → (A → Bool) → List A → Bool
any f [] = false
any f (x ∷ xs) = f x || any f xs

abbrev all : {A : Type 0} → (A → Bool) → List A → Bool
all f [] = true
all f (x ∷ xs) = f x && all f xs

-- errorQueryValue; `none` is its `false, false`.
unfoldable pub error_query_value : Value → Option Bool
unfolding parse_bool
error_query_value (Value.bool b) = some b
error_query_value (Value.str s) = parse_bool s
error_query_value _ = none

unfoldable pub is_error : StatusCode → Bool
is_error StatusCode.error = true
is_error _ = false

unfoldable pub same_status : StatusCode → StatusCode → Bool
same_status StatusCode.unset StatusCode.unset = true
same_status StatusCode.ok StatusCode.ok = true
same_status StatusCode.error StatusCode.error = true
same_status _ _ = false

unfoldable pub kind_code : SpanKind → ℕ
kind_code SpanKind.unspecified = 0
kind_code SpanKind.internal = 1
kind_code SpanKind.server = 2
kind_code SpanKind.client = 3
kind_code SpanKind.producer = 4
kind_code SpanKind.consumer = 5

-- `strings.CutPrefix(key, "resource.")`
unfoldable pub cut_resource_prefix : String → Option String
cut_resource_prefix key = if starts_with key "resource." then some (slice key 9 (len key)) else none

-- The keys that the loop over the query's attributes passes over.
unfoldable pub is_reserved : String → Bool
is_reserved key =
    key == error_attribute
    || key == "span.status"
    || key == "span.kind"
    || key == "scope.name"
    || key == "scope.version"

module _ (r : Readings) where
  -- getServiceNameFromResource
  unfoldable pub get_service_name_from_resource : Attributes → String
  unfolding lookup
  get_service_name_from_resource resource = elim (lookup "service.name" resource) [
    | none ↦ ""
    | some v ↦ r.text.get_str v
  ]

  -- fromOTELSpanKind
  unfoldable pub from_otel_span_kind : SpanKind → String
  from_otel_span_kind SpanKind.unspecified = ""
  from_otel_span_kind k = r.to_lower (r.kind_string k)

  -- spanStatusFromString
  unfoldable pub span_status_from_string : String → StatusCode
  span_status_from_string s =
      let u = r.to_upper s in
      if u == "OK"
      then StatusCode.ok
      else if u == "ERROR"
      then StatusCode.error
      else StatusCode.unset

  -- spanKindFromString
  unfoldable pub span_kind_from_string : String → SpanKind
  span_kind_from_string s =
      let u = r.to_upper s in
      if u == "CLIENT"
      then SpanKind.client
      else if u == "SERVER"
      then SpanKind.server
      else if u == "PRODUCER"
      then SpanKind.producer
      else if u == "CONSUMER"
      then SpanKind.consumer
      else if u == "INTERNAL"
      then SpanKind.internal
      else SpanKind.unspecified

  -- matchAttributes
  unfoldable pub match_attributes : String → Value → Attributes → Bool
  unfolding lookup
  match_attributes key val attrs = elim (lookup key attrs) [
    | none ↦ false
    | some v ↦ r.text.as_string v == r.text.as_string val
  ]

  -- findKeyValInTrace
  unfoldable pub find_key_val_in_trace : String → Value → Attributes → Attributes → Span → Bool
  unfolding match_attributes
  find_key_val_in_trace key val resource scope span =
      match_attributes key val span.attributes
      || match_attributes key val scope
      || match_attributes key val resource
      || any (λ (e : Event). match_attributes key val e.attributes) span.events
      || any (λ (l : Link). match_attributes key val l.attributes) span.links

  -- A test on one of the reserved attributes, which holds where the query does not have it.
  unfoldable pub if_asked : String → (Value → Bool) → Attributes → Bool
  unfolding lookup
  if_asked key test query = elim (lookup key query) [ none ↦ true | some v ↦ test v ]

  unfoldable pub error_matches : StatusCode → Value → Bool
  unfolding error_query_value is_error
  error_matches status v = elim (error_query_value v) [
    | none ↦ false
    | some wanted ↦ if wanted then is_error status else not (is_error status)
  ]

  -- One round of the loop over the query's attributes.
  unfoldable pub attribute_matches : Attributes → Attributes → Span → String × Value → Bool
  unfolding is_reserved cut_resource_prefix match_attributes find_key_val_in_trace
  attribute_matches resource scope span (key, val) =
      if is_reserved key then true else elim (cut_resource_prefix key) [
        | some resource_key ↦ match_attributes resource_key val resource
        | none ↦ find_key_val_in_trace key val resource scope span
      ]

  -- The tests of validSpan on the span's own fields.
  unfoldable pub fields_match : Span → TraceQueryParams → Bool
  unfolding before after sub_time
  fields_match span q =
      let start = r.as_time span.start_timestamp in
      let duration = sub_time (r.as_time span.end_timestamp) start in
      not (not (q.operation_name == "") && not (q.operation_name == span.name))
      && not (not (is_zero q.start_time_min) && before (some start) q.start_time_min)
      && not (not (is_zero q.start_time_max) && after (some start) q.start_time_max)
      && not (not (is_nil q.duration_min) && ltb_ℤ duration q.duration_min)
      && not (not (is_nil q.duration_max) && ltb_ℤ q.duration_max duration)
    where
      is_nil : ℤ → Bool
      is_nil (pos zero) = true
      is_nil _ = false

  -- The tests of validSpan on the attributes of the query that stand for fields.
  unfoldable pub reserved_match : Scope → Span → Attributes → Bool
  unfolding if_asked error_matches same_status kind_code span_status_from_string
      span_kind_from_string
  reserved_match scope span query =
      if_asked error_attribute (error_matches span.status_code) query
      && if_asked "span.status"
          (λ v. same_status (span_status_from_string (r.text.as_string v)) span.status_code) query
      && if_asked "span.kind"
          (λ v. kind_code (span_kind_from_string (r.text.as_string v)) == kind_code span.kind) query
      && if_asked "scope.name" (λ v. r.text.as_string v == scope.name) query
      && if_asked "scope.version" (λ v. r.text.as_string v == scope.version) query

  -- validSpan
  unfoldable pub valid_span : Attributes → Scope → Span → TraceQueryParams → Bool
  unfolding fields_match reserved_match attribute_matches
  valid_span resource scope span q =
      fields_match span q
      && reserved_match scope span q.attributes
      && all (attribute_matches resource scope.attributes span) q.attributes

  -- validResource
  unfoldable pub valid_resource : Attributes → TraceQueryParams → Bool
  unfolding get_service_name_from_resource
  valid_resource resource q =
      q.service_name == "" || q.service_name == get_service_name_from_resource resource

  -- validTrace
  unfoldable pub valid_trace : Traces → TraceQueryParams → Bool
  unfolding valid_resource valid_span
  valid_trace td q =
      any
        (λ (res : ResourceSpans).
          valid_resource res.resource q
          && any (λ (s : ScopeSpans). any (λ x. valid_span res.resource s.scope x q) s.spans)
              res.scope_spans)
        td
