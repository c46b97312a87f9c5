-- ===== src/Jptrace/Names.antt =====
-- internal/jptrace/spankind.go, valuetype.go, statuscode.go and spanmap.go: kinds, types and codes
-- by their names. Go's conversions of letters and pdata's names are parameters.
use jaeger.Prelude.{String, List, [], ◌∷◌, if◌then◌else◌, ◌==◌, string_eq, ◌≡◌, refl, Eq, map}
use jaeger.Prelude.Map.{Map, insert}
use jaeger.Otlp.{Span, SpanKind, StatusCode, Traces, flatten}

-- pcommon.ValueType
pub data ValueType : Type 0 where
  empty str int double bool kvlist slice bytes : ValueType

-- The names that pdata gives to the kinds, in lower case.
abbrev pub lower_name : SpanKind → String
lower_name SpanKind.unspecified = "unspecified"
lower_name SpanKind.internal = "internal"
lower_name SpanKind.server = "server"
lower_name SpanKind.client = "client"
lower_name SpanKind.producer = "producer"
lower_name SpanKind.consumer = "consumer"

-- StringToStatusCode
unfoldable pub string_to_status_code : String → StatusCode
string_to_status_code s =
    if s == "Ok" then StatusCode.ok else if s == "Error" then StatusCode.error else StatusCode.unset

module _ (to_lower : String → String) where
  -- StringToSpanKind
  unfoldable pub string_to_span_kind : String → SpanKind
  string_to_span_kind sk =
      let s = to_lower sk in
      if s == "internal"
      then SpanKind.internal
      else if s == "server"
      then SpanKind.server
      else if s == "client"
      then SpanKind.client
      else if s == "producer"
      then SpanKind.producer
      else if s == "consumer"
      then SpanKind.consumer
      else SpanKind.unspecified

  -- SpanKindToString; `kind_string` is pdata's name of a kind.
  unfoldable pub span_kind_to_string : (SpanKind → String) → SpanKind → String
  span_kind_to_string kind_string SpanKind.unspecified = ""
  span_kind_to_string kind_string k = to_lower (kind_string k)

  -- StringToProtoSpanKind
  unfoldable pub string_to_proto_span_kind : String → String
  string_to_proto_span_kind text =
      let s = to_lower text in
      if s == "unspecified"
      then "SPAN_KIND_UNSPECIFIED"
      else if s == "internal"
      then "SPAN_KIND_INTERNAL"
      else if s == "server"
      then "SPAN_KIND_SERVER"
      else if s == "client"
      then "SPAN_KIND_CLIENT"
      else if s == "producer"
      then "SPAN_KIND_PRODUCER"
      else if s == "consumer"
      then "SPAN_KIND_CONSUMER"
      else ""

  -- StringToValueType
  unfoldable pub string_to_value_type : String → ValueType
  string_to_value_type vt =
      let s = to_lower vt in
      if s == "bool"
      then ValueType.bool
      else if s == "double"
      then ValueType.double
      else if s == "int"
      then ValueType.int
      else if s == "str"
      then ValueType.str
      else if s == "bytes"
      then ValueType.bytes
      else if s == "map"
      then ValueType.kvlist
      else if s == "slice"
      then ValueType.slice
      else ValueType.empty

  -- ValueTypeToString; `type_string` is pdata's name of a type.
  unfoldable pub value_type_to_string : (ValueType → String) → ValueType → String
  value_type_to_string type_string ValueType.empty = ""
  value_type_to_string type_string t = to_lower (type_string t)

  -- A kind is read back from its name, if its name in pdata is the kind's word up to the case of
  -- letters, and a second conversion to lower case changes no name.
  pub string_to_span_kind-span_kind_to_string :
      (kind_string : SpanKind → String)
      → ((k : SpanKind) → to_lower (kind_string k) ≡ lower_name k)
      → ((k : SpanKind) → to_lower (lower_name k) ≡ lower_name k)
      → to_lower "" ≡ ""
      → (k : SpanKind) → string_to_span_kind (span_kind_to_string kind_string k) ≡ k
  unfolding string_to_span_kind span_kind_to_string
  string_to_span_kind-span_kind_to_string kind_string names again nil SpanKind.unspecified =
      rw nil refl
  string_to_span_kind-span_kind_to_string kind_string names again nil SpanKind.internal =
      rw (names SpanKind.internal) (rw (again SpanKind.internal) refl)
  string_to_span_kind-span_kind_to_string kind_string names again nil SpanKind.server =
      rw (names SpanKind.server) (rw (again SpanKind.server) refl)
  string_to_span_kind-span_kind_to_string kind_string names again nil SpanKind.client =
      rw (names SpanKind.client) (rw (again SpanKind.client) refl)
  string_to_span_kind-span_kind_to_string kind_string names again nil SpanKind.producer =
      rw (names SpanKind.producer) (rw (again SpanKind.producer) refl)
  string_to_span_kind-span_kind_to_string kind_string names again nil SpanKind.consumer =
      rw (names SpanKind.consumer) (rw (again SpanKind.consumer) refl)

module _ (to_upper : String → String) where
  -- ProtoSpanKindToString
  unfoldable pub proto_span_kind_to_string : String → String
  proto_span_kind_to_string text =
      let s = to_upper text in
      if s == "SPAN_KIND_UNSPECIFIED"
      then "unspecified"
      else if s == "SPAN_KIND_INTERNAL"
      then "internal"
      else if s == "SPAN_KIND_SERVER"
      then "server"
      else if s == "SPAN_KIND_CLIENT"
      then "client"
      else if s == "SPAN_KIND_PRODUCER"
      then "producer"
      else if s == "SPAN_KIND_CONSUMER"
      then "consumer"
      else ""

-- The three nested loops of SpanMap, over the spans in their order.
unfoldable pub fill_span_map :
    {K : Type 0} ⦃e : Eq K⦄ → (Span → K) → List Span → Map K Span → Map K Span
unfolding insert
fill_span_map key_fn [] m = m
fill_span_map key_fn (x ∷ xs) m = fill_span_map key_fn xs (insert (key_fn x) x m)

-- SpanMap
unfoldable pub span_map : {K : Type 0} ⦃e : Eq K⦄ → Traces → (Span → K) → Map K Span
unfolding fill_span_map
span_map traces key_fn = fill_span_map key_fn (map (λ e. e.1) (flatten traces)) []
