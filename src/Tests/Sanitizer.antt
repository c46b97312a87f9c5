-- ===== src/Tests/Sanitizer.antt =====
-- Tests of Jptrace.Sanitizer, Jptrace.Names and Jptrace.Convert.
use jaeger.Prelude.{String, ltb, if◌then◌else◌, ◌≡◌, refl, [], ◌∷◌, false, Each}
use jaeger.Otlp.{Value, Traces, SpanKind, flatten}
use jaeger.Jptrace.Sanitizer.{sanitize_empty_span_name, sanitize_empty_service_name}
use jaeger.Jptrace.Sanitizer.Services.{Repairs, sanitize_empty_service_name-Repairs}
use jaeger.Jptrace.Sanitizer.Spans.{Renames, sanitize_empty_span_name-Renames}
use jaeger.Jptrace.Names.{
  lower_name, string_to_span_kind, span_kind_to_string, string_to_span_kind-span_kind_to_string,
}
use jaeger.Jptrace.Convert.{
  time_to_unix_nano, unix_nano_to_time, time_to_unix_nano-unix_nano_to_time,
}
use jaeger.Tests.Data.{span, scope}

abbrev nameless : Traces
nameless =
    record {
      resource = ("service.name", Value.bool false) ∷ [];
      schema_url = "";
      scope_spans =
          record {
            scope = scope;
            schema_url = "";
            spans = record (span 1 1 0 1 9) { name = "" } ∷ span 1 2 1 2 3 ∷ [];
          }
          ∷ [];
    }
    ∷ []

sanitize_empty_span_name-Renames_example :
    Each Renames (flatten nameless) (flatten (sanitize_empty_span_name nameless))
sanitize_empty_span_name-Renames_example = sanitize_empty_span_name-Renames nameless

sanitize_empty_service_name-Repairs_example :
    Each Repairs nameless (sanitize_empty_service_name nameless)
sanitize_empty_service_name-Repairs_example = sanitize_empty_service_name-Repairs nameless

abbrev lower : String → String
lower s = s

string_to_span_kind-span_kind_to_string_example :
    string_to_span_kind lower (span_kind_to_string lower lower_name SpanKind.client)
    ≡ SpanKind.client
string_to_span_kind-span_kind_to_string_example =
    string_to_span_kind-span_kind_to_string lower lower_name (λ k. refl) (λ k. refl) refl
      SpanKind.client

time_to_unix_nano-unix_nano_to_time_example :
    time_to_unix_nano (unix_nano_to_time 1700000000000000000)
    ≡ (if ltb 1700000000000000000 9223372036854775808 then 1700000000000000000 else 0)
time_to_unix_nano-unix_nano_to_time_example =
    time_to_unix_nano-unix_nano_to_time 1700000000000000000
