-- ===== src/Tracestore/Validate.antt =====
-- internal/storage/v2/api/tracestore/filter_validate.go: whether a filter is well formed.
use Prim.Native.String.{◌++◌ as str_append}
use jaeger.Prelude.{
  ℕ, suc, String, List, [], ◌∷◌, Bool, true, false, not, ◌||◌, Option, none, some, ◌==◌, nat_eq,
  string_eq, ok, err, Check, ◌>>◌,
}
use jaeger.Tracestore.Expression.{
  Level, Operator, ValueType, FieldType, TermKind, Terms, Term, Vocabulary, same_level, nil, cons,
}
use jaeger.Tracestore.Errors.{FilterError}
use jaeger.Tracestore.Pattern.{Regexp, check_portable}

abbrev pub guard : Bool → FilterError → Check FilterError
guard true e = ok tt
guard false e = err e

unfoldable pub length_of : Terms → ℕ
length_of nil = 0
length_of (cons t ts) = suc (length_of ts)

-- isMissing
unfoldable pub is_missing : Term → Bool
is_missing (Term.nil_of _) = true
is_missing Term.absent = true
is_missing _ = false

-- termName
unfoldable pub term_name : Term → String
term_name (Term.attribute _ _) = "an attribute reference"
term_name (Term.field _ _) = "a field reference"
term_name (Term.nested _) = "a collection reference"
term_name (Term.any _) = "an untyped constant"
term_name (Term.str _) = "a string constant"
term_name (Term.int _) = "an integer constant"
term_name (Term.double _) = "a floating-point constant"
term_name (Term.bool _) = "a boolean constant"
term_name (Term.duration _) = "a duration constant"
term_name (Term.timestamp _) = "a timestamp constant"
term_name (Term.list _ _) = "a list"
term_name (Term.predicate _) = "a predicate"
term_name (Term.nil_of _) = "an empty term"
term_name Term.absent = "an empty term"

-- isConstant
unfoldable pub is_constant : Term → Bool
is_constant (Term.any _) = true
is_constant (Term.str _) = true
is_constant (Term.int _) = true
is_constant (Term.double _) = true
is_constant (Term.bool _) = true
is_constant (Term.duration _) = true
is_constant (Term.timestamp _) = true
is_constant _ = false

-- patternText
unfoldable pub pattern_text : Term → Option String
pattern_text (Term.any s) = some s
pattern_text (Term.str s) = some s
pattern_text _ = none

pub data Domain : Type 0 where
  unknown number duration timestamp text bool : Domain

abbrev pub same_domain : Domain → Domain → Bool
same_domain Domain.unknown Domain.unknown = true
same_domain Domain.number Domain.number = true
same_domain Domain.duration Domain.duration = true
same_domain Domain.timestamp Domain.timestamp = true
same_domain Domain.text Domain.text = true
same_domain Domain.bool Domain.bool = true
same_domain _ _ = false

-- domainOf; a nil constant is of its type.
unfoldable pub domain_of : Term → Domain
domain_of (Term.int _) = Domain.number
domain_of (Term.double _) = Domain.number
domain_of (Term.duration _) = Domain.duration
domain_of (Term.timestamp _) = Domain.timestamp
domain_of (Term.str _) = Domain.text
domain_of (Term.bool _) = Domain.bool
domain_of (Term.nil_of TermKind.int) = Domain.number
domain_of (Term.nil_of TermKind.double) = Domain.number
domain_of (Term.nil_of TermKind.duration) = Domain.duration
domain_of (Term.nil_of TermKind.timestamp) = Domain.timestamp
domain_of (Term.nil_of TermKind.str) = Domain.text
domain_of (Term.nil_of TermKind.bool) = Domain.bool
domain_of _ = Domain.unknown

-- domainOfValueType
unfoldable pub domain_of_value_type : ValueType → Domain
domain_of_value_type ValueType.int = Domain.number
domain_of_value_type ValueType.double = Domain.number
domain_of_value_type ValueType.string = Domain.text
domain_of_value_type ValueType.bool = Domain.bool
domain_of_value_type _ = Domain.unknown

-- domainOfFieldType
unfoldable pub domain_of_field_type : FieldType → Domain
domain_of_field_type FieldType.duration = Domain.duration
domain_of_field_type FieldType.timestamp = Domain.timestamp
domain_of_field_type FieldType.string = Domain.text
domain_of_field_type FieldType.span_kind = Domain.text
domain_of_field_type FieldType.span_status = Domain.text
domain_of_field_type _ = Domain.unknown

abbrev pub is_time : FieldType → Bool
is_time FieldType.duration = true
is_time FieldType.timestamp = true
is_time _ = false

abbrev pub is_word : FieldType → Bool
is_word FieldType.span_kind = true
is_word FieldType.span_status = true
is_word _ = false

abbrev pub is_undeclared : ValueType → Bool
is_undeclared ValueType.undeclared = true
is_undeclared _ = false

-- wantArgs
unfoldable pub want_args : Operator → Terms → ℕ → Check FilterError
unfolding length_of
want_args op args n = guard (length_of args == n) (FilterError.wrong_arity op n (length_of args))

-- The test of validateTimeConstant on one argument, with the one opposite.
unfoldable pub time_constant_beside : Operator → Term → Term → Check FilterError
unfolding term_name
time_constant_beside op (Term.attribute _ _) (Term.duration d) =
    err (FilterError.no_wire_spelling op (term_name (Term.duration d)))
time_constant_beside op (Term.attribute _ _) (Term.timestamp d) =
    err (FilterError.no_wire_spelling op (term_name (Term.timestamp d)))
time_constant_beside op (Term.attribute _ _) (Term.nil_of TermKind.duration) =
    err (FilterError.no_wire_spelling op (term_name (Term.nil_of TermKind.duration)))
time_constant_beside op (Term.attribute _ _) (Term.nil_of TermKind.timestamp) =
    err (FilterError.no_wire_spelling op (term_name (Term.nil_of TermKind.timestamp)))
time_constant_beside op _ _ = ok tt

-- validateTimeConstant, of both arguments. A nil attribute reference has been refused before.
unfoldable pub validate_time_constant : Operator → Term → Term → Check FilterError
unfolding time_constant_beside
validate_time_constant op a b = time_constant_beside op a b >> time_constant_beside op b a

abbrev pub contains_level : List Level → Level → Bool
contains_level [] l = false
contains_level (k ∷ ks) l = same_level k l || contains_level ks l

module _ (v : Vocabulary) where
  -- The type of a built-in field; the zero Field of an unknown one has no type.
  unfoldable pub field_type : Level → String → FieldType
  field_type level name = elim (v.lookup_field level name) [
    | none ↦ FieldType.undeclared
    | some t ↦ t
  ]

  -- describe
  unfoldable pub describe : Term → String
  unfolding term_name
  describe (Term.field level name) = str_append (str_append (v.level_name level) ".") name
  describe t = term_name t

  -- domainOfOperand
  unfoldable pub domain_of_operand : Term → Domain
  unfolding field_type domain_of_field_type domain_of
  domain_of_operand (Term.field level name) = domain_of_field_type (field_type level name)
  domain_of_operand (Term.attribute _ _) = Domain.unknown
  domain_of_operand t = domain_of t

  -- orderable
  unfoldable pub orderable : Term → Bool
  unfolding field_type domain_of
  orderable (Term.field level name) = not (is_word (field_type level name))
  orderable t = not (same_domain (domain_of t) Domain.bool)

  -- validateAttributeRef, of a reference that is there.
  unfoldable pub validate_attribute_ref : Level → String → Check FilterError
  validate_attribute_ref level key =
      guard (same_level level Level.unqualified || v.level_valid level)
        (FilterError.unknown_level level)
      >> guard (not (key == "")) FilterError.no_key

  -- validateFieldRef, of a reference that is there.
  unfoldable pub validate_field_ref : Level → String → Check FilterError
  validate_field_ref level name =
      guard (not (same_level level Level.unqualified)) FilterError.no_level
      >> guard (v.level_valid level) (FilterError.unknown_level level)
      >> guard (not (name == "")) FilterError.no_field_name
      >> elim (v.lookup_field level name) [
        | none ↦ err (FilterError.unknown_field level name)
        | some _ ↦ ok tt
      ]

  -- validateOperand
  unfoldable pub validate_operand : Operator → Term → Check FilterError
  unfolding validate_attribute_ref validate_field_ref is_constant term_name
  validate_operand op (Term.attribute level key) = validate_attribute_ref level key
  validate_operand op (Term.field level name) = validate_field_ref level name
  validate_operand op (Term.nested level) = err FilterError.collection_out_of_place
  validate_operand op (Term.nil_of TermKind.attribute) = err FilterError.missing_reference
  validate_operand op (Term.nil_of TermKind.field) = err FilterError.missing_reference
  validate_operand op (Term.nil_of TermKind.nested) = err FilterError.collection_out_of_place
  validate_operand op t = guard (is_constant t) (FilterError.not_comparable op (term_name t))

  -- validateReference, and validateSubject, which calls it.
  unfoldable pub validate_reference : Operator → Term → Check FilterError
  unfolding validate_attribute_ref validate_field_ref term_name
  validate_reference op (Term.attribute level key) = validate_attribute_ref level key
  validate_reference op (Term.field level name) = validate_field_ref level name
  validate_reference op (Term.nested level) = err FilterError.collection_out_of_place
  validate_reference op (Term.nil_of TermKind.attribute) = err FilterError.missing_reference
  validate_reference op (Term.nil_of TermKind.field) = err FilterError.missing_reference
  validate_reference op (Term.nil_of TermKind.nested) = err FilterError.collection_out_of_place
  validate_reference op t = err (FilterError.not_a_reference op (term_name t))

  -- validateValueType
  unfoldable pub validate_value_type : ValueType → Check FilterError
  validate_value_type t =
      guard (is_undeclared t || v.value_type_valid t) (FilterError.unknown_value_type t)

  -- validateRegexSubject
  unfoldable pub validate_regex_subject : Term → Check FilterError
  unfolding field_type
  validate_regex_subject (Term.field level name) =
      guard (not (is_time (field_type level name)))
        (FilterError.matches_text level name (field_type level name))
  validate_regex_subject _ = ok tt

  -- The last test of validateComparison.
  unfoldable pub same_kinds : Operator → Term → Term → Check FilterError
  unfolding domain_of_operand describe
  same_kinds op a b =
      guard
        (same_domain (domain_of_operand a) Domain.unknown
          || same_domain (domain_of_operand b) Domain.unknown
          || same_domain (domain_of_operand a) (domain_of_operand b))
        (FilterError.different_kinds op (describe a) (describe b))

  -- validateComparison
  unfoldable pub validate_comparison : Operator → Term → Term → Check FilterError
  unfolding validate_operand validate_time_constant same_kinds
  validate_comparison op a b =
      validate_operand op a
      >> validate_operand op b
      >> validate_time_constant op a b
      >> same_kinds op a b

  -- validateOrderedComparison
  unfoldable pub validate_ordered_comparison : Operator → Term → Term → Check FilterError
  unfolding validate_comparison orderable describe
  validate_ordered_comparison op a b =
      validate_comparison op a b
      >> guard (orderable a) (FilterError.no_ordering op (describe a))
      >> guard (orderable b) (FilterError.no_ordering op (describe b))

  -- The test of In and NotIn on their second argument.
  unfoldable pub validate_list : Operator → Term → Check FilterError
  unfolding validate_value_type term_name
  validate_list op (Term.list t []) = err (FilterError.empty_list op)
  validate_list op (Term.list t (x ∷ xs)) = validate_value_type t
  validate_list op t = err (FilterError.not_a_list op (term_name t))

  module _ (parse_regexp : String → Option Regexp) where
    -- validatePattern
    unfoldable pub validate_pattern : String → Check FilterError
    unfolding check_portable
    validate_pattern pattern = elim (parse_regexp pattern) [
      | none ↦ err FilterError.bad_pattern
      | some re ↦ check_portable re
    ]

    -- The test of Regex on its second argument.
    unfoldable pub validate_pattern_term : Operator → Term → Check FilterError
    unfolding validate_pattern pattern_text term_name
    validate_pattern_term op t = elim (pattern_text t) [
      | none ↦ err (FilterError.not_a_pattern op (term_name t))
      | some pattern ↦ validate_pattern pattern
    ]

    -- The tests of the operators that compare values, on their two arguments.
    unfoldable pub validate_pair : Operator → Term → Term → Check FilterError
    unfolding validate_reference validate_list validate_regex_subject validate_pattern_term
        validate_comparison validate_ordered_comparison
    validate_pair Operator.in_list a b =
        validate_reference Operator.in_list a >> validate_list Operator.in_list b
    validate_pair Operator.not_in a b =
        validate_reference Operator.not_in a >> validate_list Operator.not_in b
    validate_pair Operator.regex a b =
        validate_reference Operator.regex a
        >> validate_regex_subject a
        >> validate_pattern_term Operator.regex b
    validate_pair Operator.eq a b = validate_comparison Operator.eq a b
    validate_pair Operator.ne a b = validate_comparison Operator.ne a b
    validate_pair op a b = validate_ordered_comparison op a b
