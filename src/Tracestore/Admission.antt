-- ===== src/Tracestore/Admission.antt =====
-- internal/storage/v2/api/tracestore/admission.go: what a query may carry beside a filter, and
-- whether a reader evaluates a filter.
use jaeger.Prelude.{
  String, List, [], ◌∷◌, ◌++◌, Bool, true, false, not, none, some, if◌then◌else◌, ◌==◌, string_eq,
  ok, err, Check, ◌>>◌,
}
use jaeger.Otlp.{Attributes}
use jaeger.Tracestore.Expression.{Level, TermKind, Call, Terms, Term, nil, cons}
use jaeger.Tracestore.Errors.{ShapeError}
use jaeger.Tracestore.Query.{
  FilterCapabilities, TraceQueryParams, supports_level, supports_operator,
}
use jaeger.Tracestore.Shape.{is_zero_duration}

abbrev named : Bool → String → List String
named true name = name ∷ []
named false name = []

abbrev has_attributes : Attributes → Bool
has_attributes [] = false
has_attributes (_ ∷ _) = true

-- The names of the predicate fields that are set.
unfoldable pub set_fields : TraceQueryParams → List String
set_fields q =
    named (not (q.service_name == "")) "service_name"
    ++ named (not (q.operation_name == "")) "operation_name"
    ++ named (not (is_zero_duration q.duration_min)) "duration_min"
    ++ named (not (is_zero_duration q.duration_max)) "duration_max"
    ++ named (has_attributes q.attributes) "attributes"

abbrev refuse_set : List String → Check ShapeError
refuse_set [] = ok tt
refuse_set (f ∷ fs) = err (ShapeError.combined_with (f ∷ fs))

-- EnsureFilterStandsAlone
unfoldable pub ensure_filter_stands_alone : TraceQueryParams → Check ShapeError
unfolding set_fields
ensure_filter_stands_alone q = elim q.filter [ none ↦ ok tt | some _ ↦ refuse_set (set_fields q) ]

module _ (c : FilterCapabilities) where
  unfoldable pub level_supported : Level → Check ShapeError
  unfolding supports_level
  level_supported level =
      if supports_level c level then ok tt else err (ShapeError.unsupported_level level)

  -- EnsureSupported, and its loop over the arguments. A nil call is supported, and the level of a
  -- nil reference cannot be read.
  unfoldable mutual
    unfolding level_supported supports_operator

    pub ensure_supported : Call → Check ShapeError
    ensure_supported (Call.call op args) =
        if supports_operator c op
        then ensure_supported_args args
        else err (ShapeError.unsupported_operator op)

    pub ensure_supported_args : Terms → Check ShapeError
    ensure_supported_args nil = ok tt
    ensure_supported_args (cons t ts) = ensure_supported_term t >> ensure_supported_args ts

    pub ensure_supported_term : Term → Check ShapeError
    ensure_supported_term (Term.predicate f) = ensure_supported f
    ensure_supported_term (Term.attribute level key) = level_supported level
    ensure_supported_term (Term.field level name) = level_supported level
    ensure_supported_term (Term.nested level) = level_supported level
    ensure_supported_term (Term.nil_of TermKind.attribute) = err ShapeError.panics
    ensure_supported_term (Term.nil_of TermKind.field) = err ShapeError.panics
    ensure_supported_term (Term.nil_of TermKind.nested) = err ShapeError.panics
    ensure_supported_term _ = ok tt
