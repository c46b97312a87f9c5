-- ===== src/Tracestore/Declared.antt =====
-- The filters that EnsureSupported admits are those whose operators and levels a reader declared.
use jaeger.Prelude.{
  List, [], ◌∷◌, ◌++◌, true, ◌≡◌, inl, inr, ok, >>-ok, All, All-append, Bool-cases,
}
use jaeger.Tracestore.Expression.{Level, Operator, Call, Terms, Term, nil, cons}
use jaeger.Tracestore.Query.{FilterCapabilities, supports_level, supports_operator}
use jaeger.Tracestore.Admission.{
  level_supported, ensure_supported, ensure_supported_args, ensure_supported_term,
}

-- The operators and the levels that a filter names.
unfoldable mutual
  pub operators_of : Call → List Operator
  operators_of (Call.call op args) = op ∷ operators_of_args args

  pub operators_of_args : Terms → List Operator
  operators_of_args nil = []
  operators_of_args (cons (Term.predicate f) ts) = operators_of f ++ operators_of_args ts
  operators_of_args (cons t ts) = operators_of_args ts

unfoldable mutual
  pub levels_of : Call → List Level
  levels_of (Call.call op args) = levels_of_args args

  pub levels_of_args : Terms → List Level
  levels_of_args nil = []
  levels_of_args (cons t ts) = levels_of_term t ++ levels_of_args ts

  pub levels_of_term : Term → List Level
  levels_of_term (Term.predicate f) = levels_of f
  levels_of_term (Term.attribute level key) = level ∷ []
  levels_of_term (Term.field level name) = level ∷ []
  levels_of_term (Term.nested level) = level ∷ []
  levels_of_term _ = []

module _ (c : FilterCapabilities) where
  abbrev pub Operators : Call → Type 0
  Operators f = All (λ op. supports_operator c op ≡ true) (operators_of f)

  abbrev pub Levels : Call → Type 0
  Levels f = All (λ l. supports_level c l ≡ true) (levels_of f)

  level-declared : (l : Level) → level_supported c l ≡ ok tt → supports_level c l ≡ true
  unfolding level_supported
  level-declared l h = elim (Bool-cases (supports_level c l)) [
    | inl e ↦ e
    | inr e ↦ absurd (cc (rw e at h))
  ]

  operator-declared :
      (op : Operator) (args : Terms)
      → ensure_supported c (Call.call op args) ≡ ok tt
      → (supports_operator c op ≡ true) × (ensure_supported_args c args ≡ ok tt)
  unfolding ensure_supported
  operator-declared op args h = elim (Bool-cases (supports_operator c op)) [
    | inl e ↦ (e, rw e at h)
    | inr e ↦ absurd (cc (rw e at h))
  ]

  mutual
    unfolding ensure_supported operators_of

    Operators-declared : (f : Call) → ensure_supported c f ≡ ok tt → Operators f
    Operators-declared (Call.call op args) h =
        let (e, h') = operator-declared op args h in (e, args_operators args h')

    args_operators :
        (ts : Terms)
        → ensure_supported_args c ts ≡ ok tt
        → All (λ op. supports_operator c op ≡ true) (operators_of_args ts)
    args_operators nil h = tt
    args_operators (cons (Term.predicate f) ts) h =
        let (k, h') = >>-ok (ensure_supported c f) (ensure_supported_args c ts) h in
        All-append (λ op. supports_operator c op ≡ true) (operators_of f) (operators_of_args ts)
          (Operators-declared f k) (args_operators ts h')
    args_operators (cons t ts) h =
        args_operators ts (>>-ok (ensure_supported_term c t) (ensure_supported_args c ts) h).1

  mutual
    unfolding ensure_supported levels_of

    Levels-declared : (f : Call) → ensure_supported c f ≡ ok tt → Levels f
    Levels-declared (Call.call op args) h = args_levels args (operator-declared op args h).1

    args_levels :
        (ts : Terms)
        → ensure_supported_args c ts ≡ ok tt
        → All (λ l. supports_level c l ≡ true) (levels_of_args ts)
    args_levels nil h = tt
    args_levels (cons t ts) h =
        let (k, h') = >>-ok (ensure_supported_term c t) (ensure_supported_args c ts) h in
        All-append (λ l. supports_level c l ≡ true) (levels_of_term t) (levels_of_args ts)
          (term_levels t k) (args_levels ts h')

    term_levels :
        (t : Term)
        → ensure_supported_term c t ≡ ok tt
        → All (λ l. supports_level c l ≡ true) (levels_of_term t)
    term_levels (Term.predicate f) h = Levels-declared f h
    term_levels (Term.attribute level key) h = (level-declared level h, tt)
    term_levels (Term.field level name) h = (level-declared level h, tt)
    term_levels (Term.nested level) h = (level-declared level h, tt)
    term_levels _ h = tt

  -- A filter of which every operator and every level is declared.
  pub record IsDeclared (f : Call) : Type 0 where
    pub operators : Operators f
    pub levels : Levels f

  -- A filter that EnsureSupported admits names declared operators and levels only.
  pub ensure_supported-IsDeclared : (f : Call) → ensure_supported c f ≡ ok tt → IsDeclared f
  ensure_supported-IsDeclared f h = record {
    operators = Operators-declared f h;
    levels = Levels-declared f h;
  }
