-- ===== src/Tracestore/Final.antt =====
-- Calls that validateCall accepts and that resolveCall leaves as they are.
use jaeger.Prelude.{
  ℕ, ◌+◌, nat_eq, ◌≡◌, refl, ◌∙◌, sym, inl, inr, Bool, true, false, not, Option, ltb, List, String,
  ok, Check, >>-ok,
}
use jaeger.Tracestore.Expression.{Level, Operator, Call, Terms, Term, Vocabulary, nil, cons}
use jaeger.Tracestore.Errors.{FilterError}
use jaeger.Tracestore.Pattern.{Regexp}
use jaeger.Tracestore.Validate.{guard, want_args, length_of}
use jaeger.Tracestore.Check.{check_call, validate_call, validate_predicate_args, validate_some}
use jaeger.Tracestore.Resolve.{
  is_comparison, is_membership, resolve_pair, resolve_comparison, finish_call, resolve_call,
  resolve_terms,
}
use jaeger.Tracestore.Comparison.{IsComparable-validate_pair}
use jaeger.Tracestore.Pairwise.{
  is_pairwise, comparison-pairwise, resolve_terms-plain, pair-plain, check-pairwise, pairwise-check,
  resolve_pair-cases,
}
use jaeger.Tracestore.Settled.{IsSettled}

abbrev pub is_combinator : Operator → Bool
is_combinator Operator.and = true
is_combinator Operator.or = true
is_combinator Operator.not = true
is_combinator _ = false

module _ (v : Vocabulary) (parse_regexp : String → Option Regexp) where
  abbrev pub guard_depth : ℕ → Check FilterError
  guard_depth d = guard (not (ltb v.max_nesting_depth d)) FilterError.too_deeply_nested

  -- A call that is accepted, and resolved already.
  abbrev pub IsFinal : Call → List Level → ℕ → Type 0
  IsFinal c q d = (validate_call v parse_regexp c q d ≡ ok tt) × (resolve_call v c d ≡ ok c)

  pub validate_call-intro :
      (op : Operator) (args : Terms) (q : List Level) (d : ℕ)
      → guard_depth d ≡ ok tt
      → check_call v parse_regexp op args
          (validate_predicate_args v parse_regexp op args q (d + 1))
          (validate_some v parse_regexp op args q (d + 1))
        ≡ ok tt
      → validate_call v parse_regexp (Call.call op args) q d ≡ ok tt
  unfolding validate_call
  validate_call-intro op args q d g h = rw (g, h) refl

  pub resolve_call-intro :
      (op : Operator) (args args' : Terms) (c : Call) (d : ℕ)
      → guard_depth d ≡ ok tt
      → resolve_terms v args (d + 1) ≡ ok args'
      → finish_call v op args' ≡ ok c
      → resolve_call v (Call.call op args) d ≡ ok c
  unfolding resolve_call
  resolve_call-intro op args args' c d g h e = rw (g, h, e) refl

  finish_call-pairwise :
      (op : Operator) (a b : Term) → finish_call v op (cons a (cons b nil)) ≡ resolve_pair v op a b
  unfolding finish_call
  finish_call-pairwise op a b = refl

  finish_call-comparison :
      (op : Operator) (a b : Term)
      → is_comparison op ≡ true
      → finish_call v op (cons a (cons b nil)) ≡ resolve_comparison v op a b
  unfolding finish_call
  finish_call-comparison op a b k = rw k refl

  -- A call that resolving does not change.
  same-IsFinal :
      (c c' : Call) (q : List Level) (d : ℕ)
      → c ≡ c'
      → validate_call v parse_regexp c q d ≡ ok tt
      → resolve_call v c d ≡ ok c'
      → IsFinal c' q d
  same-IsFinal c c' q d e h r = (rw (sym e) h, cc)

  settled-IsFinal :
      (c : Call) (q : List Level) (d : ℕ) → guard_depth d ≡ ok tt → IsSettled v c → IsFinal c q d
  settled-IsFinal c q d g s =
      let k = comparison-pairwise s.op s.comparison in
      let h = IsComparable-validate_pair v parse_regexp s.op s.a s.b s.comparison s.comparable in
      let (l, r) = pair-plain v parse_regexp s.op s.a s.b k h in
      let f = finish_call-comparison s.op s.a s.b s.comparison ∙ s.stays in
      (
        rw s.form (
            validate_call-intro s.op (cons s.a (cons s.b nil)) q d g
              (pairwise-check v parse_regexp s.op s.a s.b _ _ k h)),
        rw s.form (
            resolve_call-intro s.op (cons s.a (cons s.b nil)) (cons s.a (cons s.b nil))
              (Call.call s.op (cons s.a (cons s.b nil))) d g
              (resolve_terms-plain v s.a s.b (d + 1) l r) (rw s.form at f)),
      )

  module _ (op : Operator) (args args' : Terms) (c : Call) (q : List Level) (d : ℕ)
      (g : guard_depth d ≡ ok tt)
      (h : check_call v parse_regexp op args
          (validate_predicate_args v parse_regexp op args q (d + 1))
          (validate_some v parse_regexp op args q (d + 1))
        ≡ ok tt)
      (r : resolve_terms v args (d + 1) ≡ ok args') (f : finish_call v op args' ≡ ok c) where
    pub unchanged-IsFinal : c ≡ Call.call op args → IsFinal c q d
    unchanged-IsFinal e =
        same-IsFinal (Call.call op args) c q d (sym e) (validate_call-intro op args q d g h)
          (resolve_call-intro op args args' c d g r f)

    pub pairwise-IsFinal : is_pairwise op ≡ true → IsFinal c q d
    pairwise-IsFinal k =
        let (a, b, e, p) = check-pairwise v parse_regexp op args _ _ k h in
        let (l, m) = pair-plain v parse_regexp op a b k p in
        let s : args' ≡ cons a (cons b nil) = cc (resolve_terms-plain v a b (d + 1) l m, e, r) in
        elim (resolve_pair-cases v parse_regexp op a b c p
          (sym (finish_call-pairwise op a b) ∙ cc)) [
            | inl t ↦ unchanged-IsFinal (cc)
            | inr t ↦ settled-IsFinal c q d g t
          ]

  pub want_args-length :
      (op : Operator) (args args' : Terms) (n : ℕ)
      → length_of args ≡ length_of args'
      → want_args op args n ≡ want_args op args' n
  unfolding want_args
  want_args-length op args args' n l = rw l refl

  abbrev enough : Operator → Terms → Check FilterError
  enough op args =
      guard (not (ltb (length_of args) 2)) (FilterError.too_few_arguments op (length_of args))

  pub check-combinator :
      (op : Operator) (args : Terms) (p s : Check FilterError)
      → is_combinator op ≡ true
      → check_call v parse_regexp op args p s ≡ ok tt
      → p ≡ ok tt
  unfolding check_call
  check-combinator Operator.and args p s k h = (>>-ok _ _ h).1
  check-combinator Operator.or args p s k h = (>>-ok _ _ h).1
  check-combinator Operator.not args p s k h = (>>-ok _ _ h).1
  check-combinator _ args p s k h = cc

  pub combinator-check :
      (op : Operator) (args args' : Terms) (p s p' s' : Check FilterError)
      → is_combinator op ≡ true
      → length_of args' ≡ length_of args
      → check_call v parse_regexp op args p s ≡ ok tt
      → p' ≡ ok tt
      → check_call v parse_regexp op args' p' s' ≡ ok tt
  unfolding check_call
  combinator-check Operator.and args args' p s p' s' k l h e =
      let (g, _) = >>-ok (enough Operator.and args) p h in rw (l, g) e
  combinator-check Operator.or args args' p s p' s' k l h e =
      let (g, _) = >>-ok (enough Operator.or args) p h in rw (l, g) e
  combinator-check Operator.not args args' p s p' s' k l h e =
      let (w, _) = >>-ok (want_args Operator.not args 1) p h in
      rw (want_args-length Operator.not args' args 1 l, w) e
  combinator-check _ args args' p s p' s' k l h e = cc

  pub finish_call-other :
      (op : Operator) (args : Terms)
      → is_comparison op ≡ false
      → is_membership op ≡ false
      → finish_call v op args ≡ ok (Call.call op args)
  unfolding finish_call
  finish_call-other op (cons a (cons b nil)) h k = rw (h, k) refl
  finish_call-other op _ h k = refl
