-- ===== src/Otlp.antt =====
-- The trace data that every component reads and writes: OpenTelemetry's `ptrace.Traces`, of the
-- third-party package pdata. Only its shape is given here, one field for each accessor that the
-- source uses; identifiers are numbers, 0 for the empty one, and timestamps are nanoseconds since
-- the epoch. `flatten` lists a trace's spans with their containers.
use jaeger.Prelude.{ℕ, ◌≡◌, String, List, [], ◌∷◌, ◌++◌, Bool, map}
use jaeger.Prelude.Int.{ℤ}
use jaeger.Prelude.Map.{Map}

-- `pcommon.Value`; a double is given by its bits.
mutual
  pub data Value : Type 0 where
    empty : Value
    str : String → Value
    bool : Bool → Value
    int : ℤ → Value
    double : ℕ → Value
    bytes : List ℕ → Value
    slice : Values → Value
    kvlist : KeyValues → Value

  pub data Values : Type 0 where
    nil : Values
    cons : Value → Values → Values

  pub data KeyValues : Type 0 where
    end : KeyValues
    field : String → Value → KeyValues → KeyValues

abbrev pub Attributes : Type 0
Attributes = Map String Value

pub data StatusCode : Type 0 where
  unset ok error : StatusCode

pub data SpanKind : Type 0 where
  unspecified internal server client producer consumer : SpanKind

pub record Event : Type 0 where
  pub name : String
  pub timestamp : ℕ
  pub attributes : Attributes

pub record Link : Type 0 where
  pub trace_id : ℕ
  pub span_id : ℕ
  pub attributes : Attributes

pub record Span : Type 0 where
  pub trace_id : ℕ
  pub span_id : ℕ
  pub parent_span_id : ℕ
  pub name : String
  pub kind : SpanKind
  pub start_timestamp : ℕ
  pub end_timestamp : ℕ
  pub status_code : StatusCode
  pub attributes : Attributes
  pub events : List Event
  pub links : List Link

pub record Scope : Type 0 where
  pub name : String
  pub version : String
  pub attributes : Attributes

pub record ScopeSpans : Type 0 where
  pub scope : Scope
  pub schema_url : String
  pub spans : List Span

pub record ResourceSpans : Type 0 where
  pub resource : Attributes
  pub schema_url : String
  pub scope_spans : List ScopeSpans

abbrev pub Traces : Type 0
Traces = List ResourceSpans

-- Where a span stands: its resource and its scope, with their schema URLs.
pub record Place : Type 0 where
  pub resource : Attributes
  pub resource_schema : String
  pub scope : Scope
  pub scope_schema : String

abbrev pub place : ResourceSpans → ScopeSpans → Place
place r s = record {
  resource = r.resource;
  resource_schema = r.schema_url;
  scope = s.scope;
  scope_schema = s.schema_url;
}

abbrev pub flat {ℓ κ} : {A : Type ℓ} {B : Type κ} → (A → List B) → List A → List B
flat f [] = []
flat f (x ∷ xs) = f x ++ flat f xs

abbrev pub flatten_scopes : ResourceSpans → List ScopeSpans → List (Place × Span)
flatten_scopes r = flat (λ s. map (λ x. (place r s, x)) s.spans)

abbrev pub flatten : Traces → List (Place × Span)
flatten = flat (λ r. flatten_scopes r r.scope_spans)

-- What the source relies on of pdata's printing of values: `AsString` prints a value of any type,
-- `Str` reads a text and is a text for every value.
pub record ValueText : Type 0 where
  pub as_string : Value → String
  pub get_str : Value → String
  pub get_str-str : (s : String) → get_str (Value.str s) ≡ s
