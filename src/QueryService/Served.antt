-- ===== src/QueryService/Served.antt =====
-- What queryToReaderShape gives is what the reader declared that it serves, with the bound that the
-- query had.
use jaeger.Prelude.{
  false, Option, none, some, ◌==◌, string_eq, ◌≡◌, refl, sym, ◌∙◌, inl, inr, ok, >>=-ok, Bool-cases,
  Option-cases,
}
use jaeger.Prelude.Int.{ℤ}
use jaeger.Tracestore.Expression.{Call}
use jaeger.Tracestore.Query.{
  FilterCapabilities, SearchCapabilities, TraceQueryParams, Pagination, is_empty,
}
use jaeger.Tracestore.Shape.{FieldNames, to_legacy_shape}
use jaeger.Tracestore.Admission.{ensure_supported}
use jaeger.Tracestore.Declared.{IsDeclared, ensure_supported-IsDeclared}
use jaeger.Tracestore.Rewrite.{to_legacy_shape-IsRewrite}
use jaeger.QueryService.Reader.{fold_pagination, filter_to_shape, query_to_reader_shape}

-- How many results a query asks for: the size of its page, or its depth.
abbrev bound : ℤ → Option Pagination → ℤ
bound depth none = depth
bound depth (some p) = p.page_size

abbrev pub bound_of : TraceQueryParams → ℤ
bound_of q = bound q.search_depth q.pagination

-- A filter that a reader declared all of.
abbrev pub IsEvaluated : Option FilterCapabilities → Call → Type 0
IsEvaluated caps f =
    (c : FilterCapabilities) × (caps ≡ some c) × (is_empty (some c) ≡ false) × IsDeclared c f

pub record IsServed (caps : SearchCapabilities) (q r : TraceQueryParams) : Type 0 where
  pub pages : caps.paginated ≡ false → r.pagination ≡ none
  pub filters : (f : Call) → r.filter ≡ some f → (q.filter ≡ some f) × IsEvaluated caps.filter f
  pub bounds : bound_of r ≡ bound_of q
  pub from : r.start_time_min ≡ q.start_time_min
  pub until : r.start_time_max ≡ q.start_time_max

-- A query whose pagination is folded where the reader cannot paginate.
record IsFolded (caps : SearchCapabilities) (q p : TraceQueryParams) : Type 0 where
  pages : caps.paginated ≡ false → p.pagination ≡ none
  filter : p.filter ≡ q.filter
  bounds : bound_of p ≡ bound_of q
  from : p.start_time_min ≡ q.start_time_min
  until : p.start_time_max ≡ q.start_time_max

IsFolded-same :
    (caps : SearchCapabilities) (q : TraceQueryParams)
    → (caps.paginated ≡ false → q.pagination ≡ none)
    → IsFolded caps q q
IsFolded-same caps q h = record {
  pages = h;
  filter = refl;
  bounds = refl;
  from = refl;
  until = refl;
}

fold_pagination-IsFolded :
    (caps : SearchCapabilities) (q p : TraceQueryParams)
    → fold_pagination q caps ≡ ok p
    → IsFolded caps q p
unfolding fold_pagination
fold_pagination-IsFolded caps q p h = elim (Option-cases q.pagination) [
  | inl e ↦
      let s : q ≡ p = cc (rw (fold_pagination, e) at h) in
      rw (sym s) (IsFolded-same caps q (λ _. e))
  | inr (page, e) ↦ elim (Bool-cases caps.paginated) [
    | inl b ↦
        let s : q ≡ p = cc (rw (fold_pagination, e, b) at h) in
        rw (sym s) (IsFolded-same caps q (λ b'. absurd (cc (sym b ∙ b'))))
    | inr b ↦ elim (Bool-cases (page.page_token == "")) [
      | inl t ↦
          let s : record q { search_depth = page.page_size; pagination = none } ≡ p =
            cc (rw (fold_pagination, e, b, t) at h) in
          rw (sym s) (record {
            pages = λ _. refl;
            filter = refl;
            bounds = rw e refl;
            from = refl;
            until = refl;
          })
      | inr t ↦ absurd (cc (rw (fold_pagination, e, b, t) at h))
    ]
  ]
]

module _ (names : FieldNames) where
  IsServed-legacy :
      (caps : SearchCapabilities) (q p r : TraceQueryParams) (f : Call)
      → IsFolded caps q p
      → p.filter ≡ some f
      → to_legacy_shape names p ≡ ok r
      → IsServed caps q r
  IsServed-legacy caps q p r f k e h =
      let w = to_legacy_shape-IsRewrite names p f r e h in
      record {
        pages = λ b. w.pagination ∙ k.pages b;
        filters = λ f' e'. absurd (cc (w.filter, e'));
        bounds = rw (w.search_depth, w.pagination) k.bounds;
        from = w.start_time_min ∙ k.from;
        until = w.start_time_max ∙ k.until;
      }

  IsServed-whole :
      (caps : SearchCapabilities) (q p : TraceQueryParams)
      → IsFolded caps q p
      → ((f : Call) → p.filter ≡ some f → IsEvaluated caps.filter f)
      → IsServed caps q p
  IsServed-whole caps q p k h = record {
    pages = k.pages;
    filters = λ f e. (sym k.filter ∙ e, h f e);
    bounds = k.bounds;
    from = k.from;
    until = k.until;
  }

  IsServed-filter :
      (caps : SearchCapabilities) (q p r : TraceQueryParams) (f : Call)
      → IsFolded caps q p
      → p.filter ≡ some f
      → filter_to_shape names p f caps.filter ≡ ok r
      → IsServed caps q r
  unfolding filter_to_shape
  IsServed-filter caps q p r f k e h = elim (Option-cases caps.filter) [
    | inl a ↦ IsServed-legacy caps q p r f k e (rw a at h)
    | inr (c, a) ↦ elim (Bool-cases (is_empty (some c))) [
      | inl b ↦ IsServed-legacy caps q p r f k e (rw (a, filter_to_shape, b) at h)
      | inr b ↦
          let (_, s, t) =
            >>=-ok (ensure_supported c f) (λ _. ok p) (rw (a, filter_to_shape, b) at h) in
          let u : p ≡ r = cc in
          rw (sym u) (
            IsServed-whole caps q p k (λ f' e'.
              (c, a, b, ensure_supported-IsDeclared c f' (evaluated c f' (cc (e, e')) s))))
    ]
  ]
    where
      evaluated :
          (c : FilterCapabilities) (f' : Call)
          → f ≡ f'
          → ensure_supported c f ≡ ok tt
          → ensure_supported c f' ≡ ok tt
      evaluated c f' a b = rw (sym a) b

  -- A query that queryToReaderShape gives is paged only for a reader that pages, has a filter only
  -- if the query had it and the reader declared each operator and level of it, and keeps the bound
  -- and the time range of the query.
  pub query_to_reader_shape-IsServed :
      (caps : SearchCapabilities) (q r : TraceQueryParams)
      → query_to_reader_shape names q caps ≡ ok r
      → IsServed caps q r
  unfolding query_to_reader_shape
  query_to_reader_shape-IsServed caps q r h =
      let (p, e, h') =
        >>=-ok (fold_pagination q caps)
          (λ q. (elim q.filter [ none ↦ ok q | some f ↦ filter_to_shape names q f caps.filter ]))
          h in
      let k = fold_pagination-IsFolded caps q p e in
      elim (Option-cases p.filter) [
        | inl a ↦
            let u : p ≡ r = cc (rw a at h') in
            rw (sym u) (IsServed-whole caps q p k (λ f' e'. absurd (cc (a, e'))))
        | inr (f, a) ↦ IsServed-filter caps q p r f k a (rw a at h')
      ]
