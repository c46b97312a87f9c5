-- ===== src/Tracestore/Query.antt =====
-- The query of internal/storage/v2/api/tracestore/reader.go and the capabilities of capabilities.go,
-- with what the one says of the other.
use jaeger.Prelude.{
  String, List, [], ◌∷◌, Bool, true, false, ◌&&◌, ◌||◌, Option, none, some, string_eq,
}
use jaeger.Prelude.Int.{ℤ}
use jaeger.Otlp.{Attributes}
use jaeger.Memory.Clock.{Time}
use jaeger.Tracestore.Expression.{Level, Operator, Call, same_level, same_operator}

pub record Pagination : Type 0 where
  pub page_size : ℤ
  pub page_token : String

-- The zero Map of attributes and an empty one are both an empty list.
pub record TraceQueryParams : Type 0 where
  pub service_name : String
  pub operation_name : String
  pub attributes : Attributes
  pub start_time_min : Time
  pub start_time_max : Time
  pub duration_min : ℤ
  pub duration_max : ℤ
  pub search_depth : ℤ
  pub filter : Option Call
  pub pagination : Option Pagination

pub record FilterCapabilities : Type 0 where
  pub levels : List Level
  pub operators : List Operator

pub record SearchCapabilities : Type 0 where
  pub without_service_name : Bool
  pub same_span_conjunction : Bool
  pub filter : Option FilterCapabilities
  pub paginated : Bool
  pub span_search : Bool

abbrev contains_operator : List Operator → Operator → Bool
contains_operator [] op = false
contains_operator (o ∷ os) op = same_operator o op || contains_operator os op

abbrev contains : List Level → Level → Bool
contains [] l = false
contains (k ∷ ks) l = same_level k l || contains ks l

abbrev nothing_in : {A : Type 0} → List A → Bool
nothing_in [] = true
nothing_in (_ ∷ _) = false

-- FilterCapabilities.IsEmpty
unfoldable pub is_empty : Option FilterCapabilities → Bool
is_empty none = true
is_empty (some c) = nothing_in c.levels && nothing_in c.operators

-- SupportsLevel
unfoldable pub supports_level : FilterCapabilities → Level → Bool
supports_level c Level.unqualified = true
supports_level c level = contains c.levels level

-- SupportsOperator
unfoldable pub supports_operator : FilterCapabilities → Operator → Bool
supports_operator c op = contains_operator c.operators op
