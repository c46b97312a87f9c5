-- ===== src/Tracestore/Pairwise.antt =====
-- The calls of validateCall and resolveCall that hold no predicate: the operators that compare two
-- values, and Exists.
use jaeger.Prelude.{
  arith, ℕ, nat_eq, ◌≡◌, refl, ◌∙◌, sym, inl, inr, ◌⊎◌, Bool, true, false, Option, ok, Check, ◌>>◌,
  >>-ok, >>=-ok, Bool-cases, String,
}
use jaeger.Tracestore.Expression.{Operator, Call, Terms, Term, Vocabulary, nil, cons}
use jaeger.Tracestore.Errors.{FilterError}
use jaeger.Tracestore.Pattern.{Regexp}
use jaeger.Tracestore.Validate.{
  is_constant, validate_reference, validate_list, validate_operand, validate_pattern_term,
  pattern_text, validate_pair, want_args,
}
use jaeger.Tracestore.Check.{check_call, check_pair}
use jaeger.Tracestore.Resolve.{
  is_comparison, is_membership, check_membership, resolve_pair, resolve_term, resolve_terms,
}
use jaeger.Tracestore.Comparison.{validate_pair-IsComparable}
use jaeger.Tracestore.Settled.{IsSettled, resolve_comparison-IsSettled}

abbrev pub is_predicate : Term → Bool
is_predicate (Term.predicate c) = true
is_predicate _ = false

abbrev pub is_pairwise : Operator → Bool
is_pairwise Operator.in_list = true
is_pairwise Operator.not_in = true
is_pairwise Operator.regex = true
is_pairwise Operator.eq = true
is_pairwise Operator.ne = true
is_pairwise Operator.gt = true
is_pairwise Operator.lt = true
is_pairwise Operator.gte = true
is_pairwise Operator.lte = true
is_pairwise _ = false

pub comparison-pairwise : (op : Operator) → is_comparison op ≡ true → is_pairwise op ≡ true
unfolding is_comparison
comparison-pairwise op h = ground arith

module _ (v : Vocabulary) where
  pub reference-plain :
      (op : Operator) (t : Term) → validate_reference v op t ≡ ok tt → is_predicate t ≡ false
  unfolding validate_reference
  reference-plain op (Term.predicate c) h = cc
  reference-plain op _ h = refl

  operand-plain :
      (op : Operator) (t : Term) → validate_operand v op t ≡ ok tt → is_predicate t ≡ false
  unfolding validate_operand is_constant
  operand-plain op (Term.predicate c) h = cc
  operand-plain op _ h = refl

  list-plain : (op : Operator) (t : Term) → validate_list v op t ≡ ok tt → is_predicate t ≡ false
  unfolding validate_list
  list-plain op (Term.predicate c) h = cc
  list-plain op _ h = refl

  -- A term that is not a predicate is not resolved.
  pub resolve_term-plain : (t : Term) (d : ℕ) → is_predicate t ≡ false → resolve_term v t d ≡ ok t
  unfolding resolve_term
  resolve_term-plain (Term.predicate c) d h = cc
  resolve_term-plain _ d h = refl

  pub resolve_terms-plain :
      (a b : Term) (d : ℕ)
      → is_predicate a ≡ false
      → is_predicate b ≡ false
      → resolve_terms v (cons a (cons b nil)) d ≡ ok (cons a (cons b nil))
  unfolding resolve_terms
  resolve_terms-plain a b d h k = rw (resolve_term-plain a d h, resolve_term-plain b d k) refl

  module _ (parse_regexp : String → Option Regexp) where
    pattern-plain :
        (op : Operator) (t : Term)
        → validate_pattern_term v parse_regexp op t ≡ ok tt
        → is_predicate t ≡ false
    unfolding validate_pattern_term pattern_text
    pattern-plain op (Term.predicate c) h = cc
    pattern-plain op _ h = refl

    matching-plain :
        (op : Operator) (a b : Term)
        → is_pairwise op ≡ true
        → is_comparison op ≡ false
        → validate_pair v parse_regexp op a b ≡ ok tt
        → (is_predicate a ≡ false) × (is_predicate b ≡ false)
    unfolding validate_pair is_comparison
    matching-plain Operator.in_list a b e k h =
        let (l, r) = >>-ok _ _ h in (reference-plain _ a l, list-plain _ b r)
    matching-plain Operator.not_in a b e k h =
        let (l, r) = >>-ok _ _ h in (reference-plain _ a l, list-plain _ b r)
    matching-plain Operator.regex a b e k h =
        let (l, r) = >>-ok _ _ h in (reference-plain _ a (>>-ok _ _ l).0, pattern-plain _ b r)
    matching-plain _ a b e k h = absurd (cc)

    -- The arguments of an accepted call that compares two values are no predicates.
    pub pair-plain :
        (op : Operator) (a b : Term)
        → is_pairwise op ≡ true
        → validate_pair v parse_regexp op a b ≡ ok tt
        → (is_predicate a ≡ false) × (is_predicate b ≡ false)
    pair-plain op a b e h = elim (Bool-cases (is_comparison op)) [
      | inr k ↦ matching-plain op a b e k h
      | inl k ↦
          let c = validate_pair-IsComparable v parse_regexp op a b k h in
          (operand-plain Operator.eq a c.left, operand-plain Operator.eq b c.right)
    ]

    check_call-pairwise :
        (op : Operator) (args : Terms) (p s : Check FilterError)
        → is_pairwise op ≡ true
        → check_call v parse_regexp op args p s
          ≡ (want_args op args 2 >> check_pair v parse_regexp op args)
    unfolding check_call
    check_call-pairwise op args p s e = ground arith

    two-arguments :
        (op : Operator) (args : Terms)
        → (want_args op args 2 >> check_pair v parse_regexp op args) ≡ ok tt
        → (a : Term) × (b : Term) × (args ≡ cons a (cons b nil))
          × (validate_pair v parse_regexp op a b ≡ ok tt)
    unfolding want_args check_pair
    two-arguments op (cons a (cons b nil)) h = (a, b, refl, h)
    two-arguments op nil h = absurd (cc)
    two-arguments op (cons a nil) h = absurd (cc)
    two-arguments op (cons a (cons b (cons c ts))) h = absurd (ground arith)

    -- What check_call asks of an operator that compares two values.
    pub check-pairwise :
        (op : Operator) (args : Terms) (p s : Check FilterError)
        → is_pairwise op ≡ true
        → check_call v parse_regexp op args p s ≡ ok tt
        → (a : Term) × (b : Term) × (args ≡ cons a (cons b nil))
          × (validate_pair v parse_regexp op a b ≡ ok tt)
    check-pairwise op args p s e h =
        two-arguments op args (sym (check_call-pairwise op args p s e) ∙ h)

    pub pairwise-check :
        (op : Operator) (a b : Term) (p s : Check FilterError)
        → is_pairwise op ≡ true
        → validate_pair v parse_regexp op a b ≡ ok tt
        → check_call v parse_regexp op (cons a (cons b nil)) p s ≡ ok tt
    unfolding want_args check_pair
    pairwise-check op a b p s e h = check_call-pairwise op (cons a (cons b nil)) p s e ∙ h

    -- A resolved pair is what it was, or is settled.
    pub resolve_pair-cases :
        (op : Operator) (a b : Term) (c : Call)
        → validate_pair v parse_regexp op a b ≡ ok tt
        → resolve_pair v op a b ≡ ok c
        → (c ≡ Call.call op (cons a (cons b nil))) ⊎ IsSettled v c
    unfolding resolve_pair
    resolve_pair-cases op a b c h e = elim (Bool-cases (is_comparison op)) [
      | inl k ↦ inr (
          resolve_comparison-IsSettled v op a b c k
            (validate_pair-IsComparable v parse_regexp op a b k h) (rw k at e))
      | inr k ↦ inl (elim (Bool-cases (is_membership op)) [
        | inl m ↦
            let (_, _, f) =
              >>=-ok (check_membership v a b) (λ _. ok (Call.call op (cons a (cons b nil))))
                (rw (k, m) at e) in
            cc
        | inr m ↦ cc (rw (k, m) at e)
      ])
    ]
