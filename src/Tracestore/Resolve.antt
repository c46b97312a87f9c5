-- ===== src/Tracestore/Resolve.antt =====
-- internal/storage/v2/api/tracestore/filter_resolve.go and filter_finalize.go: the constants of a
-- filter are read as the types of the fields they are compared against, and the reference of each
-- comparison is put first. The arguments are a fresh slice in the source, so nothing is shared.
use jaeger.Prelude.{
  ℕ, ◌+◌, String, List, [], ◌∷◌, Bool, true, false, not, ◌&&◌, ◌||◌, Option, none, some, ltb,
  if◌then◌else◌, Result, ok, err, Check, ◌>>=◌, ◌>>◌,
}
use jaeger.Prelude.Parse.{one_of, parse_bool}
use jaeger.Tracestore.Expression.{
  Level, Operator, ValueType, FieldType, Call, Terms, Term, Vocabulary, nil, cons,
}
use jaeger.Tracestore.Errors.{FilterError, ReadError}
use jaeger.Tracestore.Pattern.{Regexp}
use jaeger.Tracestore.Validate.{
  guard, is_constant, is_word, is_undeclared, same_domain, domain_of_value_type,
  domain_of_field_type,
}
use jaeger.Tracestore.Check.{validate_filter}

-- turnedAround
unfoldable pub turned_around : Operator → Operator
turned_around Operator.gt = Operator.lt
turned_around Operator.lt = Operator.gt
turned_around Operator.gte = Operator.lte
turned_around Operator.lte = Operator.gte
turned_around op = op

-- isComparison
unfoldable pub is_comparison : Operator → Bool
is_comparison Operator.eq = true
is_comparison Operator.ne = true
is_comparison Operator.gt = true
is_comparison Operator.lt = true
is_comparison Operator.gte = true
is_comparison Operator.lte = true
is_comparison _ = false

abbrev pub is_membership : Operator → Bool
is_membership Operator.in_list = true
is_membership Operator.not_in = true
is_membership _ = false

-- referenceFirst, with the call that is made of its result.
unfoldable pub reference_first : Operator → Term → Term → Call
unfolding is_constant turned_around
reference_first op a b =
    if is_constant a && not (is_constant b)
    then Call.call (turned_around op) (cons b (cons a nil))
    else Call.call op (cons a (cons b nil))

-- textToRead
unfoldable pub text_to_read : FieldType → Term → Option String
text_to_read t (Term.any s) = some s
text_to_read t (Term.str s) = if is_word t then some s else none
text_to_read t _ = none

abbrev pub or_fail : {A B : Type 0} → ReadError → (A → B) → Option A → Result ReadError B
or_fail e f none = err e
or_fail e f (some a) = ok (f a)

-- readWord
unfoldable pub read_word : String → List String → Result ReadError Term
read_word raw words =
    if one_of raw words then ok (Term.str raw) else err (ReadError.not_one_of words)

-- The errors of a check, put into another type.
abbrev pub map_error : {E F A : Type 0} → (E → F) → Result E A → Result F A
map_error f (ok a) = ok a
map_error f (err e) = err (f e)

module _ (v : Vocabulary) where
  -- readConstant, with wordsOf
  unfoldable pub read_constant : FieldType → String → Result ReadError Term
  unfolding read_word
  read_constant FieldType.string raw = ok (Term.str raw)
  read_constant FieldType.duration raw =
      or_fail ReadError.not_a_duration Term.duration (v.parse_duration raw)
  read_constant FieldType.timestamp raw =
      or_fail ReadError.not_a_time Term.timestamp (v.parse_time raw)
  read_constant FieldType.span_kind raw = read_word raw v.span_kinds
  read_constant FieldType.span_status raw = read_word raw v.span_statuses
  read_constant t raw = err (ReadError.no_rule t)

  -- readValue and typedValue: an element as a wanted type.
  unfoldable pub typed_value : ValueType → String → Result ReadError Term
  unfolding parse_bool
  typed_value ValueType.int raw = or_fail ReadError.not_an_int Term.int (v.parse_int raw)
  typed_value ValueType.double raw = or_fail ReadError.not_a_float Term.double (v.parse_float raw)
  typed_value ValueType.bool raw = or_fail ReadError.not_a_bool Term.bool (parse_bool raw)
  typed_value _ raw = ok (Term.str raw)

  -- readDeclaredElements
  unfoldable pub read_declared_elements : ValueType → List String → Check FilterError
  unfolding typed_value
  read_declared_elements t [] = ok tt
  read_declared_elements t (x ∷ xs) =
      map_error (FilterError.bad_element x t) (typed_value t x) >>= λ _. read_declared_elements t xs

  -- The last loop of checkMembership.
  unfoldable pub read_elements : Level → String → FieldType → List String → Check FilterError
  unfolding read_constant
  read_elements level name t [] = ok tt
  read_elements level name t (x ∷ xs) =
      map_error (FilterError.cannot_compare level name x) (read_constant t x) >>= λ _.
      read_elements level name t xs

  -- The tests of checkMembership on a list beside a built-in field.
  unfoldable pub check_field_list :
      Level → String → FieldType → ValueType → List String → Check FilterError
  unfolding read_elements domain_of_value_type domain_of_field_type
  check_field_list level name t wanted xs =
      guard
        (is_undeclared wanted || same_domain (domain_of_value_type wanted) (domain_of_field_type t))
        (FilterError.cannot_compare_list level name wanted t)
      >> read_elements level name t xs

  unfoldable pub check_list_beside : Term → ValueType → List String → Check FilterError
  unfolding check_field_list
  check_list_beside (Term.field level name) wanted xs = elim (v.lookup_field level name) [
    | none ↦ ok tt
    | some t ↦ check_field_list level name t wanted xs
  ]
  check_list_beside _ wanted xs = ok tt

  -- checkMembership
  unfoldable pub check_membership : Term → Term → Check FilterError
  unfolding read_declared_elements check_list_beside
  check_membership a (Term.list wanted xs) =
      read_declared_elements wanted xs >> check_list_beside a wanted xs
  check_membership a _ = ok tt

  unfoldable pub read_as : Level → String → FieldType → Term → Result FilterError Term
  unfolding text_to_read read_constant
  read_as level name t operand = elim (text_to_read t operand) [
    | none ↦ ok operand
    | some raw ↦ map_error (FilterError.cannot_compare level name raw) (read_constant t raw)
  ]

  -- One round of resolveComparison: what the operand opposite to a term becomes.
  unfoldable pub read_opposite : Term → Term → Result FilterError Term
  unfolding read_as
  read_opposite (Term.field level name) operand = elim (v.lookup_field level name) [
    | none ↦ ok operand
    | some t ↦ read_as level name t operand
  ]
  read_opposite _ operand = ok operand

  -- resolveComparison, with referenceFirst
  unfoldable pub resolve_comparison : Operator → Term → Term → Result FilterError Call
  unfolding read_opposite reference_first
  resolve_comparison op a b =
      read_opposite a b >>= λ b'. (read_opposite b' a >>= λ a'. ok (reference_first op a' b'))

  -- The end of resolveCall, on the resolved arguments.
  unfoldable pub resolve_pair : Operator → Term → Term → Result FilterError Call
  unfolding is_comparison resolve_comparison check_membership
  resolve_pair op a b =
      if is_comparison op
      then resolve_comparison op a b
      else if is_membership op
      then (check_membership a b >>= λ _. ok (Call.call op (cons a (cons b nil))))
      else ok (Call.call op (cons a (cons b nil)))

  unfoldable pub finish_call : Operator → Terms → Result FilterError Call
  unfolding resolve_pair
  finish_call op (cons a (cons b nil)) = resolve_pair op a b
  finish_call op args = ok (Call.call op args)

  -- resolveCall, and its loop over the arguments.
  unfoldable mutual
    unfolding finish_call

    pub resolve_call : Call → ℕ → Result FilterError Call
    resolve_call (Call.call op args) depth =
        guard (not (ltb v.max_nesting_depth depth)) FilterError.too_deeply_nested >>= λ _.
        (resolve_terms args (depth + 1) >>= λ args'. finish_call op args')

    pub resolve_terms : Terms → ℕ → Result FilterError Terms
    resolve_terms nil depth = ok nil
    resolve_terms (cons t ts) depth =
        resolve_term t depth >>= λ t'. (resolve_terms ts depth >>= λ ts'. ok (cons t' ts'))

    pub resolve_term : Term → ℕ → Result FilterError Term
    resolve_term (Term.predicate c) depth = resolve_call c depth >>= λ c'. ok (Term.predicate c')
    resolve_term t depth = ok t

  -- ResolveFilterConstants
  unfoldable pub resolve_filter_constants : Option Call → Result FilterError Call
  unfolding resolve_call
  resolve_filter_constants none = err FilterError.filter_is_empty
  resolve_filter_constants (some filter) = resolve_call filter 1

  -- ReadFilterElement; `none` is a nil list, of which only the type is read.
  unfoldable pub read_filter_element :
      Option ValueType → FieldType → String → Result FilterError Term
  unfolding typed_value read_constant
  read_filter_element none t element = err FilterError.list_is_empty
  read_filter_element (some ValueType.undeclared) FieldType.undeclared element =
      ok (Term.any element)
  read_filter_element (some ValueType.undeclared) t element =
      map_error FilterError.unreadable (read_constant t element)
  read_filter_element (some wanted) t element =
      map_error (FilterError.bad_element element wanted) (typed_value wanted element)

  module _ (parse_regexp : String → Option Regexp) where
    -- FinalizeFilter
    unfoldable pub finalize_filter : Option Call → Result FilterError Call
    unfolding validate_filter resolve_filter_constants
    finalize_filter filter =
        validate_filter v parse_regexp filter >>= λ _. resolve_filter_constants filter
