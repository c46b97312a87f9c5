-- ===== src/QueryService/Steps.antt =====
-- The steps of a prepareSearchQuery that succeeds.
use jaeger.Prelude.{
  List, [], ◌∷◌, true, false, ◌&&◌, none, string_eq, ◌≡◌, refl, ap, ◌∙◌, inl, inr, ◌⊎◌, Result, ok,
  ◌>>=◌, >>=-ok, Option-cases,
}
use jaeger.Tracestore.Query.{TraceQueryParams}
use jaeger.QueryService.Errors.{QueryError, in_shape}
use jaeger.QueryService.Reader.{query_to_reader_shape}
use jaeger.QueryService.Envelope.{is_absent, normalize_envelope}
use jaeger.QueryService.Interceptor.{Interceptor, Environment, on_trace_query}
use jaeger.QueryService.Prepare.{
  Deployment, service_named, capabilities_or_default, check_service_name, settle_pagination,
  settle_query_filter, intercept, fit_to_reader, prepare_search_query,
}
use jaeger.QueryService.Bounds.{in_shape-ok}

module _ {C : Type 0} (env : Environment) (d : Deployment C) where
  -- The two ways through the end of prepareSearchQuery.
  abbrev pub Unchanged : C → TraceQueryParams → TraceQueryParams → Type 0
  Unchanged ctx q r =
      (q.filter ≡ none) × (q.pagination ≡ none) × (q ≡ r) × (check_service_name env d ctx q ≡ ok tt)

  abbrev pub Shaped : C → TraceQueryParams → TraceQueryParams → Type 0
  Shaped ctx q r =
      (query_to_reader_shape env.names q (capabilities_or_default env d ctx) ≡ ok r)
      × (service_named env d ctx r ≡ ok tt)

  fit-Unchanged :
      (ctx : C) (q r : TraceQueryParams)
      → q.filter ≡ none
      → q.pagination ≡ none
      → (is_absent q.filter && is_absent q.pagination) ≡ true
      → fit_to_reader env d ctx q ≡ ok r
      → Unchanged ctx q r
  unfolding fit_to_reader
  fit-Unchanged ctx q r e e' a h =
      let (_, k, t) = >>=-ok (check_service_name env d ctx q) (λ _. ok q) (rw a at h) in
      (e, e', cc, k)

  fit-Shaped :
      (ctx : C) (q r : TraceQueryParams)
      → (is_absent q.filter && is_absent q.pagination) ≡ false
      → fit_to_reader env d ctx q ≡ ok r
      → Shaped ctx q r
  unfolding fit_to_reader
  fit-Shaped ctx q r e h =
      let (r', k, h') =
        >>=-ok (in_shape (query_to_reader_shape env.names q (capabilities_or_default env d ctx)))
          (λ r. (service_named env d ctx r >>= λ _. ok r)) (rw e at h) in
      let (_, n, t) = >>=-ok (service_named env d ctx r') (λ _. ok r') h' in
      let s : r' ≡ r = cc in (in_shape-ok _ r (rw s at k), rw s at n)

  pub fit-cases :
      (ctx : C) (q r : TraceQueryParams)
      → fit_to_reader env d ctx q ≡ ok r
      → Unchanged ctx q r ⊎ Shaped ctx q r
  fit-cases ctx q r h = elim (Option-cases q.filter) [
    | inr (f, e) ↦ inr (fit-Shaped ctx q r (rw e refl) h)
    | inl e ↦ elim (Option-cases q.pagination) [
      | inr (p, e') ↦ inr (fit-Shaped ctx q r (rw (e, e') refl) h)
      | inl e' ↦ inl (fit-Unchanged ctx q r e e' (rw (e, e') refl) h)
    ]
  ]

  pub intercept-cases :
      (ctx : C) (q : TraceQueryParams) (r : C × TraceQueryParams)
      → intercept env d ctx q ≡ ok r
      → ((ctx, q) ≡ r) ⊎ (on_trace_query env d.interceptors ctx q ≡ ok r)
  unfolding intercept
  intercept-cases ctx q r h = elim (List-cases d.interceptors) [
    | inl e ↦ inl (cc (rw e at h))
    | inr (i, is, e) ↦ inr (rw e (rw e at h))
  ]
    where
      List-cases :
          (is : List (Interceptor C))
          → (is ≡ []) ⊎ ((i : Interceptor C) × (js : List (Interceptor C)) × (is ≡ i ∷ js))
      List-cases [] = inl refl
      List-cases (i ∷ is) = inr (i, is, refl)

  abbrev after_hooks : C × TraceQueryParams → Result QueryError (C × TraceQueryParams)
  after_hooks r = fit_to_reader env d r.0 r.1 >>= λ q5. ok (r.0, q5)

  abbrev after_filter : C → TraceQueryParams → Result QueryError (C × TraceQueryParams)
  after_filter ctx q3 = intercept env d ctx q3 >>= after_hooks

  abbrev after_pages : C → TraceQueryParams → Result QueryError (C × TraceQueryParams)
  after_pages ctx q2 = settle_query_filter env d q2 >>= after_filter ctx

  -- The steps of prepareSearchQuery that succeed.
  pub record IsPrepared (ctx : C) (q : TraceQueryParams) (r : C × TraceQueryParams) : Type 0 where
    pub normal : TraceQueryParams
    pub paged : TraceQueryParams
    pub filtered : TraceQueryParams
    pub hooked : C × TraceQueryParams
    pub is_normal : normalize_envelope q ≡ ok normal
    pub is_paged : settle_pagination env d normal ≡ ok paged
    pub is_filtered : settle_query_filter env d paged ≡ ok filtered
    pub is_hooked : intercept env d ctx filtered ≡ ok hooked
    pub same : hooked.0 ≡ r.0
    pub is_fitted : fit_to_reader env d hooked.0 hooked.1 ≡ ok r.1

  pub prepare-IsPrepared :
      (ctx : C) (q : TraceQueryParams) (r : C × TraceQueryParams)
      → prepare_search_query env d ctx q ≡ ok r
      → IsPrepared ctx q r
  unfolding prepare_search_query
  prepare-IsPrepared ctx q r h =
      let (q1, e1, h1) =
        >>=-ok (normalize_envelope q) (λ q1. (settle_pagination env d q1 >>= after_pages ctx)) h in
      let (q2, e2, h2) = >>=-ok (settle_pagination env d q1) (after_pages ctx) h1 in
      let (q3, e3, h3) = >>=-ok (settle_query_filter env d q2) (after_filter ctx) h2 in
      let (q4, e4, h4) = >>=-ok (intercept env d ctx q3) after_hooks h3 in
      let (q5, e5, t) = >>=-ok (fit_to_reader env d q4.0 q4.1) (λ q5. ok (q4.0, q5)) h4 in
      let s : (q4.0, q5) ≡ r = cc in
      record {
        normal = q1;
        paged = q2;
        filtered = q3;
        hooked = q4;
        is_normal = e1;
        is_paged = e2;
        is_filtered = e3;
        is_hooked = e4;
        same = ap (λ x. x.0) s;
        is_fitted = e5 ∙ ap (λ x. ok x.1) s;
      }
