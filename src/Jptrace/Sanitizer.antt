-- ===== src/Jptrace/Sanitizer.antt =====
-- internal/jptrace/sanitizer: sanitizer.go, emptyservicename.go, emptyspanname.go and
-- negative_duration_santizer.go. A read-only value is copied before it is changed, which a model
-- on values need not do.
pub mod Services
pub mod Spans
use jaeger.Prelude.{
  ℕ, String, List, [], ◌∷◌, Bool, true, false, not, ◌||◌, Option, none, some, map, if◌then◌else◌,
  ◌==◌, string_eq,
}
use jaeger.Prelude.Int.{ℤ, pos, ltb_ℤ, ◌+ℤ◌}
use jaeger.Prelude.Map.{lookup, insert}
use jaeger.Otlp.{Value, ValueText, Span, ScopeSpans, ResourceSpans, Traces}
use jaeger.Jptrace.Warning.{add_warnings}

abbrev pub any : {A : Type 0} → (A → Bool) → List A → Bool
any p [] = false
any p (x ∷ xs) = p x || any p xs

-- The three nested loops of tracesNeedSpanNameSanitization and tracesNeedDurationSanitization.
unfoldable pub any_span : (Span → Bool) → Traces → Bool
any_span p = any (λ r. any (λ (s : ScopeSpans). any p s.spans) r.scope_spans)

-- The three nested loops that change each span.
unfoldable pub map_spans : (Span → Span) → Traces → Traces
map_spans f = map (λ (r : ResourceSpans). record r {
  scope_spans = map (λ (s : ScopeSpans). record s { spans = map f s.spans }) r.scope_spans;
})

-- The placeholder for the service name of a resource, where it needs one.
unfoldable pub service_name_fix : Option Value → Option String
service_name_fix none = some "missing-service-name"
service_name_fix (some (Value.str s)) = if s == "" then some "empty-service-name" else none
service_name_fix (some _) = some "service-name-wrong-type"

abbrev is_some : {A : Type 0} → Option A → Bool
is_some none = false
is_some (some _) = true

unfoldable pub service_name_is_bad : ResourceSpans → Bool
unfolding service_name_fix
service_name_is_bad r = is_some (service_name_fix (lookup "service.name" r.resource))

-- The body of the second loop of sanitizeEmptyServiceName.
unfoldable pub put_service_name : Option String → ResourceSpans → ResourceSpans
put_service_name none r = r
put_service_name (some s) r = record r { resource = insert "service.name" (Value.str s) r.resource }

unfoldable pub fix_service_name : ResourceSpans → ResourceSpans
unfolding put_service_name service_name_fix
fix_service_name r = put_service_name (service_name_fix (lookup "service.name" r.resource)) r

-- sanitizeEmptyServiceName
unfoldable pub sanitize_empty_service_name : Traces → Traces
unfolding service_name_is_bad fix_service_name
sanitize_empty_service_name traces =
    if any service_name_is_bad traces then map fix_service_name traces else traces

unfoldable pub name_is_empty : Span → Bool
name_is_empty x = x.name == ""

unfoldable pub fix_name : Span → Span
fix_name x = if x.name == "" then record x { name = "empty-span-name" } else x

-- sanitizeEmptySpanName
unfoldable pub sanitize_empty_span_name : Traces → Traces
unfolding any_span map_spans name_is_empty fix_name
sanitize_empty_span_name traces =
    if any_span name_is_empty traces then map_spans fix_name traces else traces

-- `as_time` and `from_time` stand for pdata's conversions of timestamps, `show_time` for the
-- printing of a time.
module _ (text : ValueText) (as_time : ℕ → ℤ) (from_time : ℤ → ℕ)
    (duration_warning : ℤ → ℤ → String) where
  -- spanNeedsDurationSanitization
  unfoldable pub span_needs_duration_sanitization : Span → Bool
  span_needs_duration_sanitization x =
      not (ltb_ℤ (as_time x.start_timestamp) (as_time x.end_timestamp))

  -- sanitizeDuration
  unfoldable pub sanitize_duration : Span → Span
  unfolding ◌+ℤ◌
  sanitize_duration x =
      let start = as_time x.start_timestamp in
      let finish = as_time x.end_timestamp in
      if ltb_ℤ start finish
      then x
      else record (add_warnings text x (duration_warning finish (start +ℤ pos 1) ∷ [])) {
        end_timestamp = from_time (start +ℤ pos 1);
      }

  -- sanitizeNegativeDuration
  unfoldable pub sanitize_negative_duration : Traces → Traces
  unfolding any_span map_spans span_needs_duration_sanitization sanitize_duration
  sanitize_negative_duration traces =
      if any_span span_needs_duration_sanitization traces
      then map_spans sanitize_duration traces
      else traces

-- The loop of NewChainedSanitizer.
unfoldable pub chained_sanitizer : List (Traces → Traces) → Traces → Traces
chained_sanitizer [] traces = traces
chained_sanitizer (s ∷ sanitizers) traces = chained_sanitizer sanitizers (s traces)

-- Sanitize, with NewStandardSanitizers; the sanitizer of utf8.go is an argument.
unfoldable pub sanitize :
    ValueText → (ℕ → ℤ) → (ℤ → ℕ) → (ℤ → ℤ → String) → (Traces → Traces) → Traces → Traces
unfolding chained_sanitizer sanitize_empty_service_name sanitize_empty_span_name
sanitize text as_time from_time duration_warning utf8 = chained_sanitizer (
    sanitize_empty_service_name
    ∷ sanitize_empty_span_name
    ∷ utf8
    ∷ sanitize_negative_duration text as_time from_time duration_warning
    ∷ [])
