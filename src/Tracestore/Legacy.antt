-- ===== src/Tracestore/Legacy.antt =====
-- ToLegacyShape inverts ToFilterShape.
use jaeger.Prelude.{
  arith, String, List, [], ◌∷◌, ◌++◌, append-nil, append_assoc, ◌≡◌, ◌≢◌, refl, sym, ◌∙◌, ap, inl,
  inr, true, false, none, ◌==◌, string_eq, ==_iff, ==_refl, ok, Bool-cases,
}
use jaeger.Prelude.Int.{ℤ, pos, negsuc}
use jaeger.Prelude.Map.{lookup, insert, lookup-insert}
use jaeger.Otlp.{Value, ValueText, Attributes}
use jaeger.Tracestore.Expression.{Level, Operator, Call}
use jaeger.Tracestore.Query.{TraceQueryParams}
use jaeger.Tracestore.Shape.{
  FieldNames, is_zero_duration, conjoin, text_predicate, attribute_predicates, duration_predicate,
  predicates, to_filter_shape, apply_all, to_legacy_shape,
}
use jaeger.Tracestore.Conjuncts.{
  AllLeaf, flat_conjuncts-leaf, flat_args-as_terms, apply_all-++, predicates-AllLeaf,
}

is_zero_duration-eq : (d : ℤ) → is_zero_duration d ≡ true → d ≡ pos 0
is_zero_duration-eq (pos n) h = ap pos (ground arith)
is_zero_duration-eq (negsuc n) h = cc

-- What the rewriting goes through: the query without a filter, with other legacy fields.
abbrev stage : TraceQueryParams → String → String → Attributes → ℤ → ℤ → TraceQueryParams
stage q s o a mn mx = record q {
  service_name = s;
  operation_name = o;
  attributes = a;
  duration_min = mn;
  duration_max = mx;
  filter = none;
}

-- Attributes that can be put after others: each key is new.
abbrev pub Apart : Attributes → Attributes → Type 0
Apart a [] = Unit {0}
Apart a ((k, x) ∷ m) = (lookup k a ≡ none) × (lookup k m ≡ none) × Apart a m

insert-absent :
    (k : String) (x : Value) (a : Attributes) → lookup k a ≡ none → insert k x a ≡ a ++ (k, x) ∷ []
unfolding lookup insert
insert-absent k x [] h = refl
insert-absent k x ((j, y) ∷ a) h = elim (Bool-cases (j == k)) [
  | inl e ↦ absurd (cc (rw e at h))
  | inr e ↦ rw (e, insert-absent k x a (rw e at h)) refl
]

Apart-insert :
    (k : String) (x : Value) (a m : Attributes)
    → lookup k m ≡ none
    → Apart a m
    → Apart (insert k x a) m
unfolding lookup
Apart-insert k x a [] h p = tt
Apart-insert k x a ((j, y) ∷ m) h (p, p', ps) = elim (Bool-cases (j == k)) [
  | inl e ↦ absurd (cc (rw e at h))
  | inr e ↦
      let ne : (k == j) ≡ false = ground (arith, ==_iff k j, ==_iff j k) in
      (rw (lookup-insert k j x a, ne) p, p', Apart-insert k x a m (rw e at h) ps)
]

module _ (names : FieldNames) (text : ValueText) (q : TraceQueryParams) where
  -- A tag carries its value as text.
  abbrev pub as_text : Attributes → Attributes
  as_text [] = []
  as_text ((k, x) ∷ m) = (k, Value.str (text.as_string x)) ∷ as_text m

  service_step :
      (s : String)
      → apply_all names
          (stage q "" "" [] (pos 0) (pos 0))
          (text_predicate names text Level.resource names.service s)
        ≡ ok (stage q s "" [] (pos 0) (pos 0))
  unfolding text_predicate apply_all
  service_step s = elim (Bool-cases (s == "")) [
    | inl e ↦ rw (e, (==_iff s "").0 e) refl
    | inr e ↦ rw (e, ==_refl names.service) refl
  ]

  operation_step :
      (s o : String)
      → apply_all names
          (stage q s "" [] (pos 0) (pos 0))
          (text_predicate names text Level.span names.name o)
        ≡ ok (stage q s o [] (pos 0) (pos 0))
  unfolding text_predicate apply_all
  operation_step s o = elim (Bool-cases (o == "")) [
    | inl e ↦ rw (e, (==_iff o "").0 e) refl
    | inr e ↦ rw (e, ==_refl names.name) refl
  ]

  attribute_steps :
      (s o : String) (a m : Attributes)
      → Apart a m
      → apply_all names (stage q s o a (pos 0) (pos 0)) (attribute_predicates names text m)
        ≡ ok (stage q s o (a ++ as_text m) (pos 0) (pos 0))
  unfolding attribute_predicates apply_all
  attribute_steps s o a [] h = rw (append-nil a) refl
  attribute_steps s o a ((k, x) ∷ m) (p, p', ps) =
      let v = Value.str (text.as_string x) in
      let e : insert k v a ++ as_text m ≡ a ++ (k, v) ∷ as_text m =
        rw (insert-absent k v a p) (append_assoc a ((k, v) ∷ []) (as_text m)) in
      rw p (attribute_steps s o (insert k v a) m (Apart-insert k v a m p' ps) ∙ rw e refl)

  min_step :
      (s o : String) (a : Attributes) (d : ℤ)
      → (names.duration == names.name) ≡ false
      → apply_all names
          (stage q s o a (pos 0) (pos 0))
          (duration_predicate names text Operator.gte d)
        ≡ ok (stage q s o a d (pos 0))
  unfolding duration_predicate apply_all
  min_step s o a d h = elim (Bool-cases (is_zero_duration d)) [
    | inl e ↦ rw (e, is_zero_duration-eq d e) refl
    | inr e ↦ rw (e, ==_refl names.duration, h) refl
  ]

  max_step :
      (s o : String) (a : Attributes) (e d : ℤ)
      → (names.duration == names.name) ≡ false
      → apply_all names (stage q s o a e (pos 0)) (duration_predicate names text Operator.lte d)
        ≡ ok (stage q s o a e d)
  unfolding duration_predicate apply_all
  max_step s o a e d h = elim (Bool-cases (is_zero_duration d)) [
    | inl e ↦ rw (e, is_zero_duration-eq d e) refl
    | inr e ↦ rw (e, ==_refl names.duration, h) refl
  ]

  legacy-conjoin :
      (cs : List Call)
      → AllLeaf cs
      → to_legacy_shape names (record (stage q "" "" [] (pos 0) (pos 0)) { filter = conjoin cs })
        ≡ apply_all names (stage q "" "" [] (pos 0) (pos 0)) cs
  unfolding to_legacy_shape conjoin
  legacy-conjoin [] h = refl
  legacy-conjoin (c ∷ []) (h, _) = rw (flat_conjuncts-leaf c h) refl
  legacy-conjoin (c ∷ d ∷ cs) h = rw (flat_args-as_terms (c ∷ d ∷ cs) h) refl

  apply_all-predicates :
      (names.duration == names.name) ≡ false
      → Apart [] q.attributes
      → apply_all names (stage q "" "" [] (pos 0) (pos 0)) (predicates names text q)
        ≡ ok (
            stage q q.service_name q.operation_name
              (as_text q.attributes)
              q.duration_min
              q.duration_max)
  unfolding predicates
  apply_all-predicates d h =
      let services = text_predicate names text Level.resource names.service q.service_name in
      let operations = text_predicate names text Level.span names.name q.operation_name in
      let attributes = attribute_predicates names text q.attributes in
      let mins = duration_predicate names text Operator.gte q.duration_min in
      let maxs = duration_predicate names text Operator.lte q.duration_max in
      let start = stage q "" "" [] (pos 0) (pos 0) in
      let one = service_step q.service_name in
      let two =
        apply_all-++ names start services operations _ one
        ∙ operation_step q.service_name q.operation_name in
      let three =
        apply_all-++ names start (services ++ operations) attributes _ two
        ∙ attribute_steps q.service_name q.operation_name [] q.attributes h in
      let four =
        apply_all-++ names start (services ++ operations ++ attributes) mins _ three
        ∙ min_step q.service_name q.operation_name (as_text q.attributes) q.duration_min d in
      apply_all-++ names start (services ++ operations ++ attributes ++ mins) maxs _ four
      ∙ max_step q.service_name q.operation_name (as_text q.attributes) q.duration_min
          q.duration_max d

  to_filter_shape-conjoin :
      q.filter ≡ none
      → to_filter_shape names text q
        ≡ record (stage q "" "" [] (pos 0) (pos 0)) { filter = conjoin (predicates names text q) }
  unfolding to_filter_shape
  to_filter_shape-conjoin e = rw e refl

  -- A query without a filter, each attribute of which has a key of its own, is given back by
  -- ToFilterShape and then ToLegacyShape, its attributes as text.
  pub to_legacy_shape-to_filter_shape :
      q.filter ≡ none
      → names.duration ≢ names.name
      → Apart [] q.attributes
      → to_legacy_shape names (to_filter_shape names text q)
        ≡ ok (record q { attributes = as_text q.attributes })
  to_legacy_shape-to_filter_shape e d h =
      let d' : (names.duration == names.name) ≡ false =
        ground (arith, ==_iff names.duration names.name) in
      ap (to_legacy_shape names) (to_filter_shape-conjoin e)
      ∙ legacy-conjoin (predicates names text q) (predicates-AllLeaf names text q)
      ∙ apply_all-predicates d' h
      ∙ rw (sym e) refl
