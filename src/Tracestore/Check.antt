-- ===== src/Tracestore/Check.antt =====
-- ValidateFilter and validateCall of internal/storage/v2/api/tracestore/filter_validate.go: the walk
-- over a filter. `none` is a nil filter.
use jaeger.Prelude.{
  ℕ, ◌+◌, String, List, [], ◌∷◌, ◌++◌, not, ◌||◌, Option, none, some, ltb, Result, ok, err, Check,
  ◌>>=◌, ◌>>◌,
}
use jaeger.Tracestore.Expression.{
  Level, Operator, TermKind, Call, Terms, Term, Vocabulary, same_level, nil, cons,
}
use jaeger.Tracestore.Errors.{FilterError}
use jaeger.Tracestore.Pattern.{Regexp}
use jaeger.Tracestore.Validate.{
  guard, length_of, term_name, want_args, contains_level, validate_reference, validate_pair,
}

-- The tests of validateSome on the collection that is quantified over.
unfoldable pub collection : Operator → Term → List Level → Result FilterError Level
unfolding term_name
collection op (Term.nested level) quantified =
    guard (same_level level Level.event || same_level level Level.link)
      (FilterError.cannot_quantify op level)
    >>= λ _.
        (guard (not (contains_level quantified level)) (FilterError.already_quantified op level)
          >>= λ _. ok level)
collection op t quantified = err (FilterError.not_a_collection op (term_name t))

module _ (v : Vocabulary) (parse_regexp : String → Option Regexp) where
  unfoldable pub check_pair : Operator → Terms → Check FilterError
  unfolding validate_pair
  check_pair op (cons a (cons b nil)) = validate_pair v parse_regexp op a b
  check_pair op _ = ok tt

  unfoldable pub check_first : Operator → Terms → Check FilterError
  unfolding validate_reference
  check_first op (cons a _) = validate_reference v op a
  check_first op nil = ok tt

  -- The cases of validateCall, given what validatePredicateArgs and validateSome answer.
  unfoldable pub check_call :
      Operator → Terms → Check FilterError → Check FilterError → Check FilterError
  unfolding length_of want_args check_pair check_first
  check_call Operator.and args predicates bound =
      guard (not (ltb (length_of args) 2))
        (FilterError.too_few_arguments Operator.and (length_of args))
      >> predicates
  check_call Operator.or args predicates bound =
      guard (not (ltb (length_of args) 2))
        (FilterError.too_few_arguments Operator.or (length_of args))
      >> predicates
  check_call Operator.not args predicates bound = want_args Operator.not args 1 >> predicates
  check_call Operator.exists args predicates bound =
      want_args Operator.exists args 1 >> check_first Operator.exists args
  check_call Operator.some args predicates bound = want_args Operator.some args 2 >> bound
  check_call (Operator.other s) args predicates bound =
      err (FilterError.unknown_operator (Operator.other s))
  check_call op args predicates bound = want_args op args 2 >> check_pair op args

  -- validateCall, validatePredicateArgs, their test of one argument, and validateSome.
  unfoldable mutual
    unfolding check_call collection term_name

    pub validate_call : Call → List Level → ℕ → Check FilterError
    validate_call (Call.call op args) quantified depth =
        guard (not (ltb v.max_nesting_depth depth)) FilterError.too_deeply_nested
        >> check_call op args (validate_predicate_args op args quantified (depth + 1))
            (validate_some op args quantified (depth + 1))

    pub validate_predicate_args : Operator → Terms → List Level → ℕ → Check FilterError
    validate_predicate_args op nil quantified depth = ok tt
    validate_predicate_args op (cons t ts) quantified depth =
        validate_predicate op t quantified depth >> validate_predicate_args op ts quantified depth

    pub validate_predicate : Operator → Term → List Level → ℕ → Check FilterError
    validate_predicate op (Term.predicate c) quantified depth = validate_call c quantified depth
    validate_predicate op (Term.nil_of TermKind.call) quantified depth =
        err FilterError.missing_predicate
    validate_predicate op t quantified depth = err (FilterError.not_a_predicate op (term_name t))

    pub validate_some : Operator → Terms → List Level → ℕ → Check FilterError
    validate_some op (cons a (cons b nil)) quantified depth =
        collection op a quantified >>= λ level.
        validate_predicate op b (quantified ++ level ∷ []) depth
    validate_some op _ quantified depth = ok tt

  -- ValidateFilter
  unfoldable pub validate_filter : Option Call → Check FilterError
  unfolding validate_call
  validate_filter none = err FilterError.filter_is_empty
  validate_filter (some filter) = validate_call filter [] 1
