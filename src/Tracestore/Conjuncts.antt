-- ===== src/Tracestore/Conjuncts.antt =====
-- The conjunctions of ToFilterShape, as flatConjuncts and the loop of ToLegacyShape read them.
use jaeger.Prelude.{
  All, All-append, arith, String, List, [], ◌∷◌, ◌++◌, ◌≡◌, refl, inl, inr, Bool, true, false, ◌==◌,
  string_eq, ok, >>=-ok, Bool-cases,
}
use jaeger.Prelude.Int.{ℤ}
use jaeger.Otlp.{ValueText, Attributes}
use jaeger.Tracestore.Expression.{Level, Operator, Call, Terms, nil}
use jaeger.Tracestore.Query.{TraceQueryParams}
use jaeger.Tracestore.Shape.{
  FieldNames, is_zero_duration, as_terms, text_predicate, attribute_predicates, duration_predicate,
  predicates, flat_conjuncts, flat_args, apply_as_legacy_field, apply_all,
}

-- A predicate that stands on its own, as ToFilterShape makes them.
abbrev pub is_leaf : Call → Bool
is_leaf (Call.call Operator.and args) = false
is_leaf (Call.call Operator.or args) = false
is_leaf (Call.call Operator.not args) = false
is_leaf _ = true

abbrev pub AllLeaf : List Call → Type 0
AllLeaf = All (λ c. is_leaf c ≡ true)

pub flat_conjuncts-leaf : (c : Call) → is_leaf c ≡ true → flat_conjuncts c ≡ ok (c ∷ [])
unfolding flat_conjuncts
flat_conjuncts-leaf (Call.call Operator.and args) h = cc
flat_conjuncts-leaf (Call.call Operator.or args) h = cc
flat_conjuncts-leaf (Call.call Operator.not args) h = cc
flat_conjuncts-leaf (Call.call _ args) h = refl

pub flat_args-as_terms : (cs : List Call) → AllLeaf cs → flat_args (as_terms cs) ≡ ok cs
unfolding flat_conjuncts
flat_args-as_terms [] h = refl
flat_args-as_terms (c ∷ cs) (h, hs) = rw (flat_conjuncts-leaf c h, flat_args-as_terms cs hs) refl

module _ (names : FieldNames) where
  pub apply_all-++ :
      (q : TraceQueryParams) (cs ds : List Call) (r : TraceQueryParams)
      → apply_all names q cs ≡ ok r
      → apply_all names q (cs ++ ds) ≡ apply_all names r ds
  unfolding apply_all
  apply_all-++ q [] ds r h = let e : q ≡ r = cc in rw e refl
  apply_all-++ q (c ∷ cs) ds r h =
      let (q', e, h') = >>=-ok (apply_as_legacy_field names q c) (λ q'. apply_all names q' cs) h in
      rw e (apply_all-++ q' cs ds r h')

module _ (names : FieldNames) (text : ValueText) where
  text_predicate-AllLeaf : (l : Level) (n s : String) → AllLeaf (text_predicate names text l n s)
  unfolding text_predicate
  text_predicate-AllLeaf l n s = elim (Bool-cases (s == "")) [
    | inl e ↦ rw e tt
    | inr e ↦ rw e (refl, tt)
  ]

  attribute_predicates-AllLeaf : (m : Attributes) → AllLeaf (attribute_predicates names text m)
  unfolding attribute_predicates
  attribute_predicates-AllLeaf [] = tt
  attribute_predicates-AllLeaf ((k, x) ∷ m) = (refl, attribute_predicates-AllLeaf m)

  duration_predicate-AllLeaf :
      (op : Operator) (d : ℤ)
      → is_leaf (Call.call op nil) ≡ true
      → AllLeaf (duration_predicate names text op d)
  unfolding duration_predicate
  duration_predicate-AllLeaf op d h = elim (Bool-cases (is_zero_duration d)) [
    | inl e ↦ rw e tt
    | inr e ↦ rw e (leaf op _ h, tt)
  ]
    where
      leaf :
          (op : Operator) (args : Terms)
          → is_leaf (Call.call op nil) ≡ true
          → is_leaf (Call.call op args) ≡ true
      leaf op args h = ground arith

  -- Every predicate of ToFilterShape stands on its own.
  pub predicates-AllLeaf : (q : TraceQueryParams) → AllLeaf (predicates names text q)
  unfolding predicates
  predicates-AllLeaf q =
      let services = text_predicate names text Level.resource names.service q.service_name in
      let operations = text_predicate names text Level.span names.name q.operation_name in
      let attributes = attribute_predicates names text q.attributes in
      let mins = duration_predicate names text Operator.gte q.duration_min in
      let maxs = duration_predicate names text Operator.lte q.duration_max in
      let two =
        All-append (λ c. is_leaf c ≡ true) services operations
          (text_predicate-AllLeaf Level.resource names.service q.service_name)
          (text_predicate-AllLeaf Level.span names.name q.operation_name) in
      let three =
        All-append (λ c. is_leaf c ≡ true) (services ++ operations) attributes two
          (attribute_predicates-AllLeaf q.attributes) in
      let four =
        All-append (λ c. is_leaf c ≡ true) (services ++ operations ++ attributes) mins three
          (duration_predicate-AllLeaf Operator.gte q.duration_min refl) in
      All-append (λ c. is_leaf c ≡ true) (services ++ operations ++ attributes ++ mins) maxs four
        (duration_predicate-AllLeaf Operator.lte q.duration_max refl)
