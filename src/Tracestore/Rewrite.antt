-- ===== src/Tracestore/Rewrite.antt =====
-- What ToLegacyShape leaves of a query: all but the legacy predicate fields and the filter.
use jaeger.Prelude.{
  String, List, [], ◌∷◌, ◌≡◌, refl, ◌∙◌, sym, inl, inr, none, some, string_eq, Result, ok, err,
  ◌>>=◌, >>=-ok, Bool-cases, Option-cases,
}
use jaeger.Prelude.Int.{ℤ}
use jaeger.Prelude.Map.{lookup, insert}
use jaeger.Otlp.{Value, Attributes}
use jaeger.Tracestore.Expression.{Level, Operator, TermKind, Call, Term, same_operator, nil, cons}
use jaeger.Tracestore.Errors.{ShapeError}
use jaeger.Tracestore.Query.{TraceQueryParams, supports_level}
use jaeger.Tracestore.Shape.{
  FieldNames, legacy_filter_levels, text_constant, apply_attribute, put_attribute, apply_text,
  is_field, duration_value, bound_once, set_bound, apply_duration_bound, apply_field,
  apply_reference, apply_as_legacy_field, apply_all, flat_conjuncts, to_legacy_shape,
}

-- Two queries that differ in their legacy predicate fields at most.
pub record IsRewrite (q r : TraceQueryParams) : Type 0 where
  pub search_depth : r.search_depth ≡ q.search_depth
  pub pagination : r.pagination ≡ q.pagination
  pub filter : r.filter ≡ q.filter
  pub start_time_min : r.start_time_min ≡ q.start_time_min
  pub start_time_max : r.start_time_max ≡ q.start_time_max

legacy-IsRewrite :
    (q : TraceQueryParams) (s o : String) (a : Attributes) (mn mx : ℤ)
    → IsRewrite q (record q {
      service_name = s;
      operation_name = o;
      attributes = a;
      duration_min = mn;
      duration_max = mx;
    })
legacy-IsRewrite q s o a mn mx = record {
  search_depth = refl;
  pagination = refl;
  filter = refl;
  start_time_min = refl;
  start_time_max = refl;
}

pub IsRewrite-refl : (q : TraceQueryParams) → IsRewrite q q
IsRewrite-refl q =
    legacy-IsRewrite q q.service_name q.operation_name q.attributes q.duration_min q.duration_max

pub IsRewrite-trans : (q r s : TraceQueryParams) → IsRewrite q r → IsRewrite r s → IsRewrite q s
IsRewrite-trans q r s a b = record {
  search_depth = b.search_depth ∙ a.search_depth;
  pagination = b.pagination ∙ a.pagination;
  filter = b.filter ∙ a.filter;
  start_time_min = b.start_time_min ∙ a.start_time_min;
  start_time_max = b.start_time_max ∙ a.start_time_max;
}

-- A result that is a rewriting where there is one.
abbrev Rewrites : TraceQueryParams → Result ShapeError TraceQueryParams → Type 0
Rewrites q (ok r) = IsRewrite q r
Rewrites q (err e) = Unit {0}

Rewrites->>= :
    {A : Type 0} (q : TraceQueryParams) (m : Result ShapeError A)
    (f : A → Result ShapeError TraceQueryParams)
    → ((a : A) → Rewrites q (f a))
    → Rewrites q (m >>= f)
Rewrites->>= q (ok a) f h = h a
Rewrites->>= q (err e) f h = tt

put_attribute-Rewrites : (q : TraceQueryParams) (k s : String) → Rewrites q (put_attribute q k s)
unfolding put_attribute
put_attribute-Rewrites q k s = elim (Option-cases (lookup k q.attributes)) [
  | inl e ↦
      rw (put_attribute, e)
        (legacy-IsRewrite q q.service_name q.operation_name (insert k (Value.str s) q.attributes)
          q.duration_min q.duration_max)
  | inr (x, e) ↦ rw (put_attribute, e) tt
]

apply_attribute-Rewrites :
    (q : TraceQueryParams) (op : Operator) (l : Level) (k : String) (x : Term)
    → Rewrites q (apply_attribute q op l k x)
unfolding apply_attribute
apply_attribute-Rewrites q op l k x = elim (Bool-cases (same_operator op Operator.eq)) [
  | inr a ↦ rw (apply_attribute, a) tt
  | inl a ↦ elim (Bool-cases (supports_level legacy_filter_levels l)) [
    | inr b ↦ rw (apply_attribute, a, b) tt
    | inl b ↦
        rw (apply_attribute, a, b)
          (Rewrites->>= q (text_constant k x) (put_attribute q k)
            (λ s. put_attribute-Rewrites q k s))
  ]
]

set_bound-Rewrites :
    (q : TraceQueryParams) (op : Operator) (n : String) (x : Result ShapeError ℤ)
    → Rewrites q (set_bound q op n x)
unfolding set_bound
set_bound-Rewrites q Operator.gte n x =
    Rewrites->>= q (bound_once n q.duration_min x) (λ d. ok (record q { duration_min = d }))
      (λ d. legacy-IsRewrite q q.service_name q.operation_name q.attributes d q.duration_max)
set_bound-Rewrites q Operator.lte n x =
    Rewrites->>= q (bound_once n q.duration_max x) (λ d. ok (record q { duration_max = d }))
      (λ d. legacy-IsRewrite q q.service_name q.operation_name q.attributes q.duration_min d)
set_bound-Rewrites q _ n x = tt

apply_duration_bound-Rewrites :
    (q : TraceQueryParams) (op : Operator) (n : String) (x : Term)
    → Rewrites q (apply_duration_bound q op n x)
unfolding apply_duration_bound
apply_duration_bound-Rewrites q op n x = elim (Option-cases (duration_value x)) [
  | inl e ↦ rw (apply_duration_bound, e) tt
  | inr (d, e) ↦ rw (apply_duration_bound, e) (set_bound-Rewrites q op n d)
]

module _ (names : FieldNames) where
  apply_field-Rewrites :
      (q : TraceQueryParams) (op : Operator) (l : Level) (n : String) (x : Term)
      → Rewrites q (apply_field names q op l n x)
  unfolding apply_field
  apply_field-Rewrites q op l n x = elim (Bool-cases (is_field l n Level.resource names.service)) [
    | inl a ↦
        rw (apply_field, a)
          (Rewrites->>= q (apply_text q.service_name op n x)
            (λ s. ok (record q { service_name = s }))
            (λ s. legacy-IsRewrite q s q.operation_name q.attributes q.duration_min q.duration_max))
    | inr a ↦ elim (Bool-cases (is_field l n Level.span names.name)) [
      | inl b ↦
          rw (apply_field, a, b)
            (Rewrites->>= q (apply_text q.operation_name op n x)
              (λ s. ok (record q { operation_name = s }))
              (λ s. legacy-IsRewrite q q.service_name s q.attributes q.duration_min q.duration_max))
      | inr b ↦ elim (Bool-cases (is_field l n Level.span names.duration)) [
        | inl c ↦ rw (apply_field, a, b, c) (apply_duration_bound-Rewrites q op n x)
        | inr c ↦ rw (apply_field, a, b, c) tt
      ]
    ]
  ]

  apply_reference-Rewrites :
      (q : TraceQueryParams) (op : Operator) (a b : Term)
      → Rewrites q (apply_reference names q op a b)
  unfolding apply_reference
  apply_reference-Rewrites q op (Term.attribute l k) b = apply_attribute-Rewrites q op l k b
  apply_reference-Rewrites q op (Term.field l n) b = apply_field-Rewrites q op l n b
  apply_reference-Rewrites q op (Term.nil_of TermKind.attribute) b = tt
  apply_reference-Rewrites q op (Term.nil_of TermKind.field) b = tt
  apply_reference-Rewrites q op _ b = tt

  apply_as_legacy_field-Rewrites :
      (q : TraceQueryParams) (c : Call) → Rewrites q (apply_as_legacy_field names q c)
  unfolding apply_as_legacy_field
  apply_as_legacy_field-Rewrites q (Call.call op (cons a (cons b nil))) =
      apply_reference-Rewrites q op a b
  apply_as_legacy_field-Rewrites q (Call.call op _) = tt

  apply_all-IsRewrite :
      (q : TraceQueryParams) (cs : List Call) (r : TraceQueryParams)
      → apply_all names q cs ≡ ok r
      → IsRewrite q r
  unfolding apply_all
  apply_all-IsRewrite q [] r h = let e : q ≡ r = cc in rw (sym e) (IsRewrite-refl q)
  apply_all-IsRewrite q (c ∷ cs) r h =
      let (p, e, h') = >>=-ok (apply_as_legacy_field names q c) (λ p. apply_all names p cs) h in
      IsRewrite-trans q p r (rw e at (apply_as_legacy_field-Rewrites q c))
        (apply_all-IsRewrite p cs r h')

  -- The query that ToLegacyShape gives for one with a filter.
  pub to_legacy_shape-IsRewrite :
      (q : TraceQueryParams) (f : Call) (r : TraceQueryParams)
      → q.filter ≡ some f
      → to_legacy_shape names q ≡ ok r
      → IsRewrite (record q { filter = none; attributes = [] }) r
  unfolding to_legacy_shape
  to_legacy_shape-IsRewrite q f r e h =
      let (cs, _, h') =
        >>=-ok (flat_conjuncts f)
          (λ cs. apply_all names (record q { filter = none; attributes = [] }) cs)
          (rw (to_legacy_shape, e) at h) in
      apply_all-IsRewrite (record q { filter = none; attributes = [] }) cs r h'
