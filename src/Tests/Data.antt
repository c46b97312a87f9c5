-- ===== src/Tests/Data.antt =====
-- Small traces, and a printing of values that meets the assumptions on pdata's.
use jaeger.Prelude.{ℕ, String, List, [], ◌∷◌, refl}
use jaeger.Otlp.{Value, ValueText, Span, Scope, Traces, SpanKind, StatusCode}

abbrev pub text_of : Value → String
text_of (Value.str s) = s
text_of _ = ""

abbrev pub text : ValueText
text = record { as_string = text_of; get_str = text_of; get_str-str = λ s. refl }

-- A span by its trace, its identifier, its parent and its times.
abbrev pub span : ℕ → ℕ → ℕ → ℕ → ℕ → Span
span t id parent from to = record {
  trace_id = t;
  span_id = id;
  parent_span_id = parent;
  name = "op";
  kind = SpanKind.server;
  start_timestamp = from;
  end_timestamp = to;
  status_code = StatusCode.unset;
  attributes = [];
  events = [];
  links = [];
}

abbrev pub scope : Scope
scope = record { name = "lib"; version = "1"; attributes = [] }

abbrev pub one_resource : List Span → Traces
one_resource xs =
    record {
      resource = ("service.name", Value.str "a") ∷ [];
      schema_url = "";
      scope_spans = record { scope = scope; schema_url = ""; spans = xs } ∷ [];
    }
    ∷ []
