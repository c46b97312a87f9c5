-- ===== src/Tracestore/Shape.antt =====
-- internal/storage/v2/api/tracestore/shape.go: a query with a filter and one with the older
-- fields, each turned into the other.
use jaeger.Prelude.{
  String, List, [], ◌∷◌, ◌++◌, Bool, false, not, ◌&&◌, Option, none, some, if◌then◌else◌, ◌==◌,
  nat_eq, string_eq, Result, ok, err, ◌>>=◌,
}
use jaeger.Prelude.Int.{ℤ, pos, negsuc}
use jaeger.Prelude.Map.{lookup, insert}
use jaeger.Otlp.{Value, ValueText, Attributes}
use jaeger.Tracestore.Expression.{
  Level, Operator, TermKind, Call, Terms, Term, same_level, same_operator, nil, cons,
}
use jaeger.Tracestore.Errors.{ShapeError}
use jaeger.Tracestore.Query.{FilterCapabilities, TraceQueryParams, supports_level}

-- The names of the built-in fields that have a legacy field.
pub record FieldNames : Type 0 where
  pub service : String
  pub name : String
  pub duration : String

-- legacyFilterLevels
abbrev pub legacy_filter_levels : FilterCapabilities
legacy_filter_levels = record {
  levels = Level.span ∷ Level.resource ∷ Level.event ∷ [];
  operators = [];
}

abbrev pub is_zero_duration : ℤ → Bool
is_zero_duration (pos n) = n == 0
is_zero_duration (negsuc n) = false

abbrev pub compare : Operator → Term → Term → Call
compare op ref value = Call.call op (cons ref (cons value nil))

abbrev pub as_terms : List Call → Terms
as_terms [] = nil
as_terms (c ∷ cs) = cons (Term.predicate c) (as_terms cs)

-- The end of ToFilterShape.
unfoldable pub conjoin : List Call → Option Call
conjoin [] = none
conjoin (c ∷ []) = some c
conjoin (c ∷ d ∷ cs) = some (Call.call Operator.and (as_terms (c ∷ d ∷ cs)))

module _ (names : FieldNames) (text : ValueText) where
  -- The predicates of ToFilterShape, one function for each field.
  unfoldable pub text_predicate : Level → String → String → List Call
  text_predicate level name s =
      if s == "" then [] else compare Operator.eq (Term.field level name) (Term.str s) ∷ []

  unfoldable pub attribute_predicates : Attributes → List Call
  attribute_predicates [] = []
  attribute_predicates ((k, x) ∷ m) =
      compare Operator.eq (Term.attribute Level.unqualified k) (Term.any (text.as_string x))
      ∷ attribute_predicates m

  unfoldable pub duration_predicate : Operator → ℤ → List Call
  duration_predicate op d =
      if is_zero_duration d
      then []
      else compare op (Term.field Level.span names.duration) (Term.duration d) ∷ []

  unfoldable pub predicates : TraceQueryParams → List Call
  unfolding text_predicate attribute_predicates duration_predicate
  predicates q =
      text_predicate Level.resource names.service q.service_name
      ++ text_predicate Level.span names.name q.operation_name
      ++ attribute_predicates q.attributes
      ++ duration_predicate Operator.gte q.duration_min
      ++ duration_predicate Operator.lte q.duration_max

  -- ToFilterShape
  unfoldable pub to_filter_shape : TraceQueryParams → TraceQueryParams
  unfolding predicates conjoin
  to_filter_shape q = elim q.filter [
    | some f ↦ q
    | none ↦ record q {
      service_name = "";
      operation_name = "";
      attributes = [];
      duration_min = pos 0;
      duration_max = pos 0;
      filter = conjoin (predicates q);
    }
  ]

-- flatConjuncts, and its loop over the arguments.
unfoldable mutual
  pub flat_conjuncts : Call → Result ShapeError (List Call)
  flat_conjuncts (Call.call Operator.or args) = err (ShapeError.unsupported_operator Operator.or)
  flat_conjuncts (Call.call Operator.not args) = err (ShapeError.unsupported_operator Operator.not)
  flat_conjuncts (Call.call Operator.and args) = flat_args args
  flat_conjuncts filter = ok (filter ∷ [])

  pub flat_args : Terms → Result ShapeError (List Call)
  flat_args nil = ok []
  flat_args (cons (Term.predicate c) ts) =
      flat_conjuncts c >>= λ inner. (flat_args ts >>= λ rest. ok (inner ++ rest))
  flat_args (cons (Term.nil_of TermKind.call) ts) = err ShapeError.panics
  flat_args (cons _ ts) = err ShapeError.conjunction_of_predicates_only

-- textConstant
unfoldable pub text_constant : String → Term → Result ShapeError String
text_constant name (Term.str s) = ok s
text_constant name (Term.any s) = ok s
text_constant name (Term.nil_of TermKind.str) = err ShapeError.panics
text_constant name (Term.nil_of TermKind.any) = err ShapeError.panics
text_constant name _ = err (ShapeError.string_constant_only name)

-- errNotADuration
unfoldable pub not_a_duration : String → Term → ShapeError
not_a_duration name (Term.any s) = ShapeError.never_read_as_duration s name
not_a_duration name (Term.nil_of TermKind.any) = ShapeError.panics
not_a_duration name _ = ShapeError.duration_only name

-- isField
unfoldable pub is_field : Level → String → Level → String → Bool
is_field level name level' name' = same_level level level' && name == name'

-- The end of applyAttribute.
unfoldable pub put_attribute :
    TraceQueryParams → String → String → Result ShapeError TraceQueryParams
unfolding lookup insert
put_attribute q key s = elim (lookup key q.attributes) [
  | some _ ↦ err (ShapeError.repeated_predicate_on key)
  | none ↦ ok (record q { attributes = insert key (Value.str s) q.attributes })
]

-- applyAttribute, of a reference that is there.
unfoldable pub apply_attribute :
    TraceQueryParams → Operator → Level → String → Term → Result ShapeError TraceQueryParams
unfolding text_constant put_attribute supports_level
apply_attribute q op level key value =
    if not (same_operator op Operator.eq)
    then err (ShapeError.unsupported_operator_on op key)
    else if not (supports_level legacy_filter_levels level)
    then err (ShapeError.unsupported_level level)
    else (text_constant key value >>= λ s. put_attribute q key s)

-- applyText, which gives what the target is set to.
unfoldable pub apply_text : String → Operator → String → Term → Result ShapeError String
unfolding text_constant
apply_text target op name value =
    if not (same_operator op Operator.eq)
    then err (ShapeError.unsupported_operator_on op name)
    else (text_constant name value >>= λ s.
        (if target == "" then ok s else err (ShapeError.repeated_predicate_on name)))

-- The value of a constant in applyDurationBound; a nil one panics once it is read.
abbrev pub duration_value : Term → Option (Result ShapeError ℤ)
duration_value (Term.duration d) = some (ok d)
duration_value (Term.nil_of TermKind.duration) = some (err ShapeError.panics)
duration_value _ = none

-- The bound that applyDurationBound sets, given the one there is.
unfoldable pub bound_once : String → ℤ → Result ShapeError ℤ → Result ShapeError ℤ
bound_once name target value =
    if is_zero_duration target then value else err (ShapeError.repeated_predicate_on name)

unfoldable pub set_bound :
    TraceQueryParams → Operator → String → Result ShapeError ℤ → Result ShapeError TraceQueryParams
unfolding bound_once
set_bound q Operator.gte name value =
    bound_once name q.duration_min value >>= λ d. ok (record q { duration_min = d })
set_bound q Operator.lte name value =
    bound_once name q.duration_max value >>= λ d. ok (record q { duration_max = d })
set_bound q op name value = err (ShapeError.unsupported_operator_on op name)

-- applyDurationBound
unfoldable pub apply_duration_bound :
    TraceQueryParams → Operator → String → Term → Result ShapeError TraceQueryParams
unfolding set_bound not_a_duration
apply_duration_bound q op name value = elim (duration_value value) [
  | none ↦ err (not_a_duration name value)
  | some constant ↦ set_bound q op name constant
]

module _ (names : FieldNames) where
  -- applyField, of a reference that is there.
  unfoldable pub apply_field :
      TraceQueryParams → Operator → Level → String → Term → Result ShapeError TraceQueryParams
  unfolding is_field apply_text apply_duration_bound
  apply_field q op level name value =
      if is_field level name Level.resource names.service
      then (apply_text q.service_name op name value >>= λ s. ok (record q { service_name = s }))
      else if is_field level name Level.span names.name
      then (apply_text q.operation_name op name value >>= λ s. ok (record q { operation_name = s }))
      else if is_field level name Level.span names.duration
      then apply_duration_bound q op name value
      else err (ShapeError.unsupported_field level name)

  -- The cases of applyAsLegacyField on the first of two arguments.
  unfoldable pub apply_reference :
      TraceQueryParams → Operator → Term → Term → Result ShapeError TraceQueryParams
  unfolding apply_field apply_attribute
  apply_reference q op (Term.attribute level key) value = apply_attribute q op level key value
  apply_reference q op (Term.field level name) value = apply_field q op level name value
  apply_reference q op (Term.nil_of TermKind.attribute) value = err ShapeError.panics
  apply_reference q op (Term.nil_of TermKind.field) value = err ShapeError.panics
  apply_reference q op _ value = err ShapeError.reference_against_constant_only

  -- applyAsLegacyField
  unfoldable pub apply_as_legacy_field :
      TraceQueryParams → Call → Result ShapeError TraceQueryParams
  unfolding apply_reference
  apply_as_legacy_field q (Call.call op (cons a (cons b nil))) = apply_reference q op a b
  apply_as_legacy_field q (Call.call op _) = err (ShapeError.unsupported_operator op)

  -- The loop of ToLegacyShape.
  unfoldable pub apply_all : TraceQueryParams → List Call → Result ShapeError TraceQueryParams
  unfolding apply_as_legacy_field
  apply_all q [] = ok q
  apply_all q (c ∷ cs) = apply_as_legacy_field q c >>= λ q'. apply_all q' cs

  -- ToLegacyShape
  unfoldable pub to_legacy_shape : TraceQueryParams → Result ShapeError TraceQueryParams
  unfolding flat_conjuncts apply_all
  to_legacy_shape q = elim q.filter [
    | none ↦ ok q
    | some filter ↦ flat_conjuncts filter >>= λ predicates.
        apply_all (record q { filter = none; attributes = [] }) predicates
  ]
