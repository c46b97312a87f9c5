-- ===== src/Tracestore/Errors.antt =====
-- What the functions on filters can answer: the errors of filter_validate.go, filter_resolve.go,
-- shape.go, admission.go and capabilities.go, one constructor for each message, with what the
-- message names. `panics` is a read through a nil pointer.
use jaeger.Prelude.{ℕ, String, List}
use jaeger.Tracestore.Expression.{Level, Operator, FieldType, ValueType}

pub data ReadError : Type 0 where
  not_an_int not_a_float not_a_bool not_a_duration not_a_time : ReadError
  not_one_of : List String → ReadError
  no_rule : FieldType → ReadError

pub data FilterError : Type 0 where
  filter_is_empty missing_predicate too_deeply_nested missing_reference : FilterError
  collection_out_of_place no_key no_level no_field_name list_is_empty : FilterError
  anchored word_boundary lazy folds_case bad_pattern : FilterError
  too_few_arguments : Operator → ℕ → FilterError
  wrong_arity : Operator → ℕ → ℕ → FilterError
  unknown_operator : Operator → FilterError
  not_a_predicate : Operator → String → FilterError
  not_a_collection : Operator → String → FilterError
  cannot_quantify : Operator → Level → FilterError
  already_quantified : Operator → Level → FilterError
  not_a_list : Operator → String → FilterError
  empty_list : Operator → FilterError
  not_a_pattern : Operator → String → FilterError
  not_a_reference : Operator → String → FilterError
  not_comparable : Operator → String → FilterError
  no_wire_spelling : Operator → String → FilterError
  different_kinds : Operator → String → String → FilterError
  no_ordering : Operator → String → FilterError
  unknown_level : Level → FilterError
  unknown_field : Level → String → FilterError
  unknown_value_type : ValueType → FilterError
  matches_text : Level → String → FieldType → FilterError
  cannot_compare : Level → String → String → ReadError → FilterError
  cannot_compare_list : Level → String → ValueType → FieldType → FilterError
  unreadable : ReadError → FilterError
  bad_element : String → ValueType → ReadError → FilterError

-- The errors that wrap ErrFilterUnsupported, ErrFilterInvalid and those of a paginated search.
pub data ShapeError : Type 0 where
  unsupported_operator : Operator → ShapeError
  unsupported_operator_on : Operator → String → ShapeError
  unsupported_level : Level → ShapeError
  unsupported_field : Level → String → ShapeError
  repeated_predicate_on : String → ShapeError
  conjunction_of_predicates_only : ShapeError
  reference_against_constant_only : ShapeError
  string_constant_only : String → ShapeError
  duration_only : String → ShapeError
  never_read_as_duration : String → String → ShapeError
  combined_with : List String → ShapeError
  pagination_unsupported no_filter_evaluated : ShapeError
  panics : ShapeError
