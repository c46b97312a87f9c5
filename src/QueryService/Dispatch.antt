-- ===== src/QueryService/Dispatch.antt =====
-- What prepareSearchQuery lets through to a reader.
use jaeger.Prelude.{
  Bool, true, false, not, ◌||◌, Option, none, some, ◌==◌, string_eq, ◌≡◌, refl, sym, ap, ◌∙◌, inl,
  inr, ok, ◌>>=◌, >>=-ok, Bool-cases, Option-cases,
}
use jaeger.Tracestore.Expression.{Call}
use jaeger.Tracestore.Query.{SearchCapabilities, TraceQueryParams}
use jaeger.QueryService.Errors.{QueryError}
use jaeger.QueryService.Interceptor.{Environment}
use jaeger.QueryService.Prepare.{
  Deployment, capabilities_or_default, search_without_service_name, check_service_name,
  check_filter_use, finalize_query_filter, settle_query_filter, intercept, fit_to_reader,
  prepare_search_query,
}
use jaeger.QueryService.Restriction.{on_trace_query-bound, on_trace_query-final, map_error-ok}
use jaeger.QueryService.Served.{IsEvaluated, bound_of, query_to_reader_shape-IsServed}
use jaeger.QueryService.Bounds.{
  IsBound, check-ok, normalize_envelope-IsNormal, settle_pagination-IsBound,
  settle_query_filter-bound,
}
use jaeger.QueryService.Steps.{fit-cases, intercept-cases, prepare-IsPrepared}
use jaeger.Tracestore.Resolve.{finalize_filter}
use jaeger.Tracestore.Finalize.{finalize_filter_idem}

module _ {C : Type 0} (env : Environment) (d : Deployment C) where
  intercept-bound :
      (ctx : C) (q : TraceQueryParams) (r : C × TraceQueryParams)
      → intercept env d ctx q ≡ ok r
      → bound_of r.1 ≡ bound_of q
  intercept-bound ctx q r h = elim (intercept-cases env d ctx q r h) [
    | inl e ↦ ap (λ x. bound_of x.1) (sym e)
    | inr e ↦ on_trace_query-bound env d.interceptors ctx q r e
  ]

  fit-bound :
      (ctx : C) (q r : TraceQueryParams)
      → fit_to_reader env d ctx q ≡ ok r
      → bound_of r ≡ bound_of q
  fit-bound ctx q r h = elim (fit-cases env d ctx q r h) [
    | inl u ↦ ap bound_of (sym u.2)
    | inr s ↦
        (query_to_reader_shape-IsServed env.names (capabilities_or_default env d ctx) q r
          s.0).bounds
  ]

  -- A search that prepareSearchQuery lets through asks for 1 to 10000 results.
  pub prepare_search_query-IsBound :
      (ctx : C) (q : TraceQueryParams) (r : C × TraceQueryParams)
      → prepare_search_query env d ctx q ≡ ok r
      → IsBound (bound_of r.1)
  prepare_search_query-IsBound ctx q r h =
      let p = prepare-IsPrepared env d ctx q r h in
      let n = normalize_envelope-IsNormal q p.normal p.is_normal in
      let b = settle_pagination-IsBound env d p.normal p.paged n p.is_paged in
      let e = settle_query_filter-bound env d p.paged p.filtered p.is_filtered in
      let e' = intercept-bound ctx p.filtered p.hooked p.is_hooked in
      let e'' = fit-bound p.hooked.0 p.hooked.1 r.1 p.is_fitted in rw (e'', e', e) b

  abbrev IsFinalized : Option Call → Type 0
  IsFinalized filter =
      (f : Call) → filter ≡ some f → finalize_filter env.vocabulary env.parse_regexp (some f) ≡ ok f

  settle_query_filter-final :
      (q r : TraceQueryParams) → settle_query_filter env d q ≡ ok r → IsFinalized r.filter
  unfolding settle_query_filter
  settle_query_filter-final q r h f k = elim (Option-cases q.filter) [
    | inl e ↦
        let s : q ≡ r = cc (rw (settle_query_filter, e) at h) in
        absurd (cc (ap (λ q. q.filter) s, e, k))
    | inr (g, e) ↦
        let (_, _, h') =
          >>=-ok (check_filter_use env d q)
            (λ _. (finalize_query_filter env d g >>= λ f'. ok (record q { filter = some f' })))
            (rw (settle_query_filter, e) at h) in
        let (f', t, h'') =
          >>=-ok (finalize_query_filter env d g) (λ f'. ok (record q { filter = some f' })) h' in
        let s : record q { filter = some f' } ≡ r = cc in
        let u : f' ≡ f = cc (ap (λ q. q.filter) s ∙ k) in
        let w =
          map_error-ok QueryError.filter_invalid
            (finalize_filter env.vocabulary env.parse_regexp (some g)) f' t in
        rw (sym u) (finalize_filter_idem env.vocabulary env.parse_regexp (some g) f' w)
  ]

  intercept-final :
      (ctx : C) (q : TraceQueryParams) (r : C × TraceQueryParams)
      → IsFinalized q.filter
      → intercept env d ctx q ≡ ok r
      → IsFinalized r.1.filter
  intercept-final ctx q r k h f e = elim (intercept-cases env d ctx q r h) [
    | inl t ↦ k f (ap (λ x. x.1.filter) t ∙ e)
    | inr t ↦ on_trace_query-final env d.interceptors ctx q r f t e
  ]

  abbrev has_service : SearchCapabilities → TraceQueryParams → Bool
  has_service caps r = not (r.service_name == "") || caps.without_service_name

  capabilities-known :
      (ctx : C) (caps : SearchCapabilities)
      → d.search_capabilities ctx ≡ some caps
      → capabilities_or_default env d ctx ≡ caps
  unfolding capabilities_or_default
  capabilities-known ctx caps c = rw (capabilities_or_default, c) refl

  check_service_name-ok :
      (ctx : C) (q : TraceQueryParams)
      → check_service_name env d ctx q ≡ ok tt
      → has_service (capabilities_or_default env d ctx) q ≡ true
  unfolding check_service_name
  check_service_name-ok ctx q h = elim (Bool-cases (q.service_name == "")) [
    | inr e ↦ rw e refl
    | inl e ↦ elim (Option-cases (d.search_capabilities ctx)) [
      | inl c ↦ absurd (cc (rw (e, search_without_service_name, c) at h))
      | inr (caps, c) ↦
          rw (e, capabilities-known ctx caps c)
            (check-ok caps.without_service_name QueryError.service_name_required
              (rw (e, search_without_service_name, c) at h))
    ]
  ]

  -- A search that a reader with these capabilities can be given.
  pub record IsAdmissible (caps : SearchCapabilities) (r : TraceQueryParams) : Type 0 where
    pub filters :
        (f : Call)
        → r.filter ≡ some f
        → (finalize_filter env.vocabulary env.parse_regexp (some f) ≡ ok f)
          × IsEvaluated caps.filter f
    pub pages : caps.paginated ≡ false → r.pagination ≡ none
    pub service : has_service caps r ≡ true

  fit-IsAdmissible :
      (ctx : C) (q r : TraceQueryParams)
      → IsFinalized q.filter
      → fit_to_reader env d ctx q ≡ ok r
      → IsAdmissible (capabilities_or_default env d ctx) r
  fit-IsAdmissible ctx q r k h = elim (fit-cases env d ctx q r h) [
    | inl (e, e', s, c) ↦ rw (sym s) (record {
      filters = λ f t. absurd (cc (e, t));
      pages = λ _. e';
      service = check_service_name-ok ctx q c;
    })
    | inr (s, c) ↦
        let w =
          query_to_reader_shape-IsServed env.names (capabilities_or_default env d ctx) q r s in
        record {
          filters = λ f t. (k f (w.filters f t).0, (w.filters f t).1);
          pages = w.pages;
          service = check-ok _ _ c;
        }
  ]

  -- A search that prepareSearchQuery lets through has a filter only if it is finalized and the
  -- reader declared all of it, is paged only if the reader pages, and names a service unless the
  -- reader searches without one.
  pub prepare_search_query-IsAdmissible :
      (ctx : C) (q : TraceQueryParams) (r : C × TraceQueryParams)
      → prepare_search_query env d ctx q ≡ ok r
      → IsAdmissible (capabilities_or_default env d r.0) r.1
  prepare_search_query-IsAdmissible ctx q r h =
      let p = prepare-IsPrepared env d ctx q r h in
      let k = settle_query_filter-final p.paged p.filtered p.is_filtered in
      let k' = intercept-final ctx p.filtered p.hooked k p.is_hooked in
      rw (sym p.same) (fit-IsAdmissible p.hooked.0 p.hooked.1 r.1 k' p.is_fitted)
