-- ===== src/Tracestore/Finalize.antt =====
-- FinalizeFilter of internal/storage/v2/api/tracestore/filter_finalize.go: what it returns is
-- accepted, and a second run leaves it as it is.
use jaeger.Prelude.{
  arith, ℕ, suc, ◌+◌, nat_eq, ◌≡◌, refl, ◌∙◌, ap, true, false, Option, none, some, List, [], ◌∷◌,
  ◌++◌, String, ok, ◌>>=◌, ◌>>◌, >>-ok, >>=-ok,
}
use jaeger.Tracestore.Expression.{
  Level, Operator, TermKind, Call, Terms, Term, Vocabulary, nil, cons,
}
use jaeger.Tracestore.Pattern.{Regexp}
use jaeger.Tracestore.Validate.{want_args, length_of}
use jaeger.Tracestore.Check.{
  check_call, check_first, validate_call, validate_predicate_args, validate_predicate,
  validate_some, collection,
}
use jaeger.Tracestore.Resolve.{
  is_comparison, is_membership, finish_call, resolve_call, resolve_terms, resolve_term,
  finalize_filter,
}
use jaeger.Tracestore.Pairwise.{is_predicate, reference-plain, resolve_term-plain}
use jaeger.Tracestore.Final.{
  is_combinator, guard_depth, IsFinal, validate_call-intro, resolve_call-intro, check-combinator,
  combinator-check, finish_call-other, want_args-length, pairwise-IsFinal, unchanged-IsFinal,
}

module _ (v : Vocabulary) (parse_regexp : String → Option Regexp) where
  -- What is to be shown of the arguments of And, Or and Not, and of those of Some.
  abbrev AreFinal : Operator → Terms → List Level → ℕ → Type 0
  AreFinal op ts q d =
      (ts' : Terms)
      → validate_predicate_args v parse_regexp op ts q d ≡ ok tt
      → resolve_terms v ts d ≡ ok ts'
      → (validate_predicate_args v parse_regexp op ts' q d ≡ ok tt)
        × (resolve_terms v ts' d ≡ ok ts')
        × (length_of ts' ≡ length_of ts)

  abbrev AreBound : Operator → Terms → List Level → ℕ → Type 0
  AreBound op ts q d =
      (ts' : Terms)
      → want_args op ts 2 ≡ ok tt
      → validate_some v parse_regexp op ts q d ≡ ok tt
      → resolve_terms v ts d ≡ ok ts'
      → (validate_some v parse_regexp op ts' q d ≡ ok tt)
        × (resolve_terms v ts' d ≡ ok ts')
        × (length_of ts' ≡ length_of ts)

  module _ (op : Operator) (args args' : Terms) (c : Call) (q : List Level) (d : ℕ)
      (g : guard_depth v parse_regexp d ≡ ok tt) (r : resolve_terms v args (d + 1) ≡ ok args') where
    combinator-IsFinal :
        check_call v parse_regexp op args
            (validate_predicate_args v parse_regexp op args q (d + 1))
            (validate_some v parse_regexp op args q (d + 1))
          ≡ ok tt
        → finish_call v op args' ≡ ok c
        → AreFinal op args q (d + 1)
        → is_combinator op ≡ true
        → is_comparison op ≡ false
        → is_membership op ≡ false
        → IsFinal v parse_regexp c q d
    combinator-IsFinal h f ih k m n =
        let (p', r', l) = ih args' (check-combinator v parse_regexp op args _ _ k h) r in
        let h' =
          combinator-check v parse_regexp op args args' _ _
            (validate_predicate_args v parse_regexp op args' q (d + 1))
            (validate_some v parse_regexp op args' q (d + 1)) k l h p' in
        let e : c ≡ Call.call op args' = cc (finish_call-other v parse_regexp op args' m n) in
        (
          rw e (validate_call-intro v parse_regexp op args' q d g h'),
          rw e (
              resolve_call-intro v parse_regexp op args' args' (Call.call op args') d g r'
                (finish_call-other v parse_regexp op args' m n)),
        )

  one-argument :
      (args : Terms)
      → (want_args Operator.exists args 1 >> check_first v parse_regexp Operator.exists args)
        ≡ ok tt
      → (a : Term) × (args ≡ cons a nil) × (is_predicate a ≡ false)
  unfolding want_args check_first
  one-argument (cons a nil) h = (a, refl, reference-plain v Operator.exists a h)
  one-argument nil h = absurd (cc)
  one-argument (cons a (cons b ts)) h = absurd (ground arith)

  resolve_terms-one :
      (a : Term) (d : ℕ) → is_predicate a ≡ false → resolve_terms v (cons a nil) d ≡ ok (cons a nil)
  unfolding resolve_terms
  resolve_terms-one a d h = rw (resolve_term-plain v a d h) refl

  exists-IsFinal :
      (args args' : Terms) (c : Call) (q : List Level) (d : ℕ)
      → guard_depth v parse_regexp d ≡ ok tt
      → resolve_terms v args (d + 1) ≡ ok args'
      → (want_args Operator.exists args 1 >> check_first v parse_regexp Operator.exists args)
        ≡ ok tt
      → finish_call v Operator.exists args' ≡ ok c
      → IsFinal v parse_regexp c q d
  unfolding check_call is_comparison
  exists-IsFinal args args' c q d g r h f =
      let (a, e, p) = one-argument args h in
      let s : args' ≡ args = cc (resolve_terms-one a (d + 1) p) in
      unchanged-IsFinal v parse_regexp Operator.exists args args' c q d g h r f
        (cc (finish_call-other v parse_regexp Operator.exists args refl refl))

  some-IsFinal :
      (args args' : Terms) (c : Call) (q : List Level) (d : ℕ)
      → guard_depth v parse_regexp d ≡ ok tt
      → resolve_terms v args (d + 1) ≡ ok args'
      → (want_args Operator.some args 2
          >> validate_some v parse_regexp Operator.some args q (d + 1))
        ≡ ok tt
      → finish_call v Operator.some args' ≡ ok c
      → AreBound Operator.some args q (d + 1)
      → IsFinal v parse_regexp c q d
  unfolding check_call is_comparison
  some-IsFinal args args' c q d g r h f ih =
      let (w, b) =
        >>-ok (want_args Operator.some args 2)
          (validate_some v parse_regexp Operator.some args q (d + 1)) h in
      let (b', r', l) = ih args' w b r in
      let k = finish_call-other v parse_regexp Operator.some args' refl refl in
      let e : c ≡ Call.call Operator.some args' = cc in
      let w' : want_args Operator.some args' 2 ≡ ok tt =
        want_args-length v parse_regexp Operator.some args' args 2 l ∙ w in
      (
        rw e (validate_call-intro v parse_regexp Operator.some args' q d g (rw (w', b') refl)),
        rw e (
            resolve_call-intro v parse_regexp Operator.some args' args'
              (Call.call Operator.some args') d g r' k),
      )

  split_validate :
      (op : Operator) (args : Terms) (q : List Level) (d : ℕ)
      → validate_call v parse_regexp (Call.call op args) q d ≡ ok tt
      → (guard_depth v parse_regexp d ≡ ok tt)
        × (check_call v parse_regexp op args
              (validate_predicate_args v parse_regexp op args q (d + 1))
              (validate_some v parse_regexp op args q (d + 1))
            ≡ ok tt)
  unfolding validate_call
  split_validate op args q d h = >>-ok _ _ h

  split_resolve :
      (op : Operator) (args : Terms) (d : ℕ) (c : Call)
      → guard_depth v parse_regexp d ≡ ok tt
      → resolve_call v (Call.call op args) d ≡ ok c
      → (args' : Terms) × (resolve_terms v args (d + 1) ≡ ok args')
        × (finish_call v op args' ≡ ok c)
  unfolding resolve_call
  split_resolve op args d c g r =
      >>=-ok (resolve_terms v args (d + 1)) (finish_call v op) (rw g at r)

  step :
      (op : Operator) (args args' : Terms) (c : Call) (q : List Level) (d : ℕ)
      → guard_depth v parse_regexp d ≡ ok tt
      → check_call v parse_regexp op args
          (validate_predicate_args v parse_regexp op args q (d + 1))
          (validate_some v parse_regexp op args q (d + 1))
        ≡ ok tt
      → resolve_terms v args (d + 1) ≡ ok args'
      → finish_call v op args' ≡ ok c
      → AreFinal op args q (d + 1)
      → AreBound op args q (d + 1)
      → IsFinal v parse_regexp c q d
  unfolding check_call is_comparison
  step Operator.and args args' c q d g h r f ih bound =
      combinator-IsFinal Operator.and args args' c q d g r h f ih refl refl refl
  step Operator.or args args' c q d g h r f ih bound =
      combinator-IsFinal Operator.or args args' c q d g r h f ih refl refl refl
  step Operator.not args args' c q d g h r f ih bound =
      combinator-IsFinal Operator.not args args' c q d g r h f ih refl refl refl
  step Operator.exists args args' c q d g h r f ih bound = exists-IsFinal args args' c q d g r h f
  step Operator.some args args' c q d g h r f ih bound = some-IsFinal args args' c q d g r h f bound
  step (Operator.other s) args args' c q d g h r f ih bound = absurd (cc)
  step op args args' c q d g h r f ih bound =
      pairwise-IsFinal v parse_regexp op args args' c q d g h r f refl

  predicate_args-cons :
      (op : Operator) (t : Term) (ts : Terms) (q : List Level) (d : ℕ)
      → validate_predicate v parse_regexp op t q d ≡ ok tt
      → validate_predicate_args v parse_regexp op ts q d ≡ ok tt
      → validate_predicate_args v parse_regexp op (cons t ts) q d ≡ ok tt
  unfolding validate_predicate_args
  predicate_args-cons op t ts q d h k = rw (h, k) refl

  resolve_terms-cons :
      (t t' : Term) (ts ts' : Terms) (d : ℕ)
      → resolve_term v t d ≡ ok t'
      → resolve_terms v ts d ≡ ok ts'
      → resolve_terms v (cons t ts) d ≡ ok (cons t' ts')
  unfolding resolve_terms
  resolve_terms-cons t t' ts ts' d h k = rw (h, k) refl

  split_terms :
      (t : Term) (ts ts' : Terms) (d : ℕ)
      → resolve_terms v (cons t ts) d ≡ ok ts'
      → (u : Term) × (us : Terms) × (resolve_term v t d ≡ ok u)
        × (resolve_terms v ts d ≡ ok us)
        × (ts' ≡ cons u us)
  unfolding resolve_terms
  split_terms t ts ts' d r =
      let (u, h, r') =
        >>=-ok (resolve_term v t d) (λ u. (resolve_terms v ts d >>= λ us. ok (cons u us))) r in
      let (us, k, e) = >>=-ok (resolve_terms v ts d) (λ us. ok (cons u us)) r' in (u, us, h, k, cc)

  collection-plain :
      (op : Operator) (t : Term) (q : List Level) (l : Level)
      → collection op t q ≡ ok l
      → is_predicate t ≡ false
  unfolding collection
  collection-plain op (Term.predicate c) q l h = cc
  collection-plain op _ q l h = refl

  validate_some-two :
      (op : Operator) (a b : Term) (q : List Level) (d : ℕ) (l : Level)
      → collection op a q ≡ ok l
      → validate_predicate v parse_regexp op b (q ++ l ∷ []) d ≡ ok tt
      → validate_some v parse_regexp op (cons a (cons b nil)) q d ≡ ok tt
  unfolding validate_some
  validate_some-two op a b q d l h k = rw h k

  mutual
    unfolding validate_call resolve_call

    call-IsFinal :
        (c c' : Call) (q : List Level) (d : ℕ)
        → validate_call v parse_regexp c q d ≡ ok tt
        → resolve_call v c d ≡ ok c'
        → IsFinal v parse_regexp c' q d
    call-IsFinal (Call.call op args) c' q d h r =
        let (g, h') = split_validate op args q d h in
        let (args', r', f) = split_resolve op args d c' g r in
        step op args args' c' q d g h' r' f (terms_final op args q (d + 1))
          (some_final op args q (d + 1))

    terms_final : (op : Operator) (ts : Terms) (q : List Level) (d : ℕ) → AreFinal op ts q d
    terms_final op nil q d ts' h r = let e : ts' ≡ nil = cc in rw e (refl, refl, refl)
    terms_final op (cons t ts) q d ts' h r =
        let (h1, h2) = >>-ok _ _ h in
        let (u, us, r1, r2, e) = split_terms t ts ts' d r in
        let (p1, s1) = term_final op t u q d h1 r1 in
        let (p2, s2, l) = terms_final op ts q d us h2 r2 in
        rw e (predicate_args-cons op u us q d p1 p2, resolve_terms-cons u u us us d s1 s2, ap suc l)

    some_final : (op : Operator) (ts : Terms) (q : List Level) (d : ℕ) → AreBound op ts q d
    some_final op (cons a (cons b nil)) q d ts' w h r =
        let (u, us, r1, r2, e) = split_terms a (cons b nil) ts' d r in
        let (t, ts, r3, r4, e') = split_terms b nil us d r2 in
        let (level, c, h') =
          >>=-ok (collection op a q)
            (λ level. validate_predicate v parse_regexp op b (q ++ level ∷ []) d) h in
        let (p, s) = term_final op b t (q ++ level ∷ []) d h' r3 in
        let k = resolve_term-plain v a d (collection-plain op a q level c) in
        let n : ts' ≡ cons a (cons t nil) = cc in
        rw n (
          validate_some-two op a t q d level c p,
          resolve_terms-cons a a (cons t nil) (cons t nil) d k
              (resolve_terms-cons t t nil nil d s refl),
          refl,
        )
    some_final op nil q d ts' w h r = absurd (cc)
    some_final op (cons a nil) q d ts' w h r = absurd (cc)
    some_final op (cons a (cons b (cons c ts))) q d ts' w h r = absurd (ground arith)

    term_final :
        (op : Operator) (t t' : Term) (q : List Level) (d : ℕ)
        → validate_predicate v parse_regexp op t q d ≡ ok tt
        → resolve_term v t d ≡ ok t'
        → (validate_predicate v parse_regexp op t' q d ≡ ok tt) × (resolve_term v t' d ≡ ok t')
    term_final op (Term.predicate c) t' q d h r =
        let (c', k, e) = >>=-ok (resolve_call v c d) (λ c'. ok (Term.predicate c')) r in
        let (p, s) = call-IsFinal c c' q d h k in
        let e' : t' ≡ Term.predicate c' = cc in rw e' (p, rw s refl)
    term_final op (Term.nil_of TermKind.call) t' q d h r = absurd (cc)
    term_final op _ t' q d h r = absurd (cc)

  -- What FinalizeFilter returns is a filter that it accepts and returns unchanged.
  pub finalize_filter_idem :
      (filter : Option Call) (c : Call)
      → finalize_filter v parse_regexp filter ≡ ok c
      → finalize_filter v parse_regexp (some c) ≡ ok c
  unfolding finalize_filter
  finalize_filter_idem none c h = cc
  finalize_filter_idem (some filter) c h =
      let (g, r) = >>-ok (validate_call v parse_regexp filter [] 1) (resolve_call v filter 1) h in
      let (k, s) = call-IsFinal filter c [] 1 g r in rw k s
