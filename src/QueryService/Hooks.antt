-- ===== src/QueryService/Hooks.antt =====
-- The loop over the interceptors' hooks, and the two results of onTraceQuery.
use jaeger.Prelude.{
  arith, List, [], ◌∷◌, ◌++◌, Bool, true, false, not, ◌&&◌, Option, none, some, if◌then◌else◌, ◌≡◌,
  refl, sym, ap, inl, inr, ◌⊎◌, Result, ok, err, ◌>>=◌, >>=-ok, Bool-cases, Option-cases,
}
use jaeger.Tracestore.Expression.{Call}
use jaeger.Tracestore.Query.{TraceQueryParams}
use jaeger.QueryService.Errors.{QueryError}
use jaeger.QueryService.Interceptor.{
  Interceptor, InterceptorQuery, Environment, Hook, is_there, drops, run_hooks, trace_hooks,
  from_interceptor_trace_query, finalize_interceptor_filter, settle_trace_query,
}

module _ {C : Type 0} where
  -- One hook, and then the others.
  run_hooks-cons :
      (hook : Hook C) (hooks : List (Hook C)) (ctx : C) (q : InterceptorQuery)
      (r : C × InterceptorQuery)
      → run_hooks (hook ∷ hooks) ctx q ≡ ok r
      → (s : C × InterceptorQuery) × (hook ctx q ≡ ok s)
        × (drops q s.1 ≡ false)
        × (run_hooks hooks s.0 s.1 ≡ ok r)
  unfolding run_hooks
  run_hooks-cons hook hooks ctx q r h =
      let (s, e, h') =
        >>=-ok (hook ctx q)
          (λ s.
            (if drops q s.1
              then err QueryError.interceptor_dropped_filter
              else run_hooks hooks s.0 s.1))
          h in
      elim (Bool-cases (drops q s.1)) [
        | inl t ↦ absurd (cc (rw t at h'))
        | inr t ↦ (s, e, t, rw t at h')
      ]

  pub run_hooks-keep :
      (hooks : List (Hook C)) (ctx : C) (q : InterceptorQuery) (r : C × InterceptorQuery)
      → run_hooks hooks ctx q ≡ ok r
      → is_there q.filter ≡ true
      → is_there r.1.filter ≡ true
  unfolding run_hooks
  run_hooks-keep [] ctx q r h k = let e : (ctx, q) ≡ r = cc in rw (sym e) k
  run_hooks-keep (hook ∷ hooks) ctx q r h k =
      let (s, _, t, h') = run_hooks-cons hook hooks ctx q r h in
      run_hooks-keep hooks s.0 s.1 r h' (kept (is_there q.filter) (is_there s.1.filter) k t)
    where
      kept : (a b : Bool) → a ≡ true → (a && not b) ≡ false → b ≡ true
      kept a b h k = ground arith

  pub run_hooks-++ :
      (xs ys : List (Hook C)) (ctx : C) (q : InterceptorQuery) (r s : C × InterceptorQuery)
      → run_hooks xs ctx q ≡ ok s
      → run_hooks (xs ++ ys) ctx q ≡ ok r
      → run_hooks ys s.0 s.1 ≡ ok r
  unfolding run_hooks
  run_hooks-++ [] ys ctx q r s h k = let e : (ctx, q) ≡ s = cc in rw (sym e) k
  run_hooks-++ (x ∷ xs) ys ctx q r s h k =
      let (t, e, _, h') = run_hooks-cons x xs ctx q s h in
      let (t', e', _, k') = run_hooks-cons x (xs ++ ys) ctx q r k in
      let same : t ≡ t' = cc in run_hooks-++ xs ys t.0 t.1 r s h' (rw same k')

  pub trace_hooks-++ :
      (xs ys : List (Interceptor C)) → trace_hooks (xs ++ ys) ≡ trace_hooks xs ++ trace_hooks ys
  trace_hooks-++ [] ys = refl
  trace_hooks-++ (x ∷ xs) ys = ap (λ hs. x.on_trace_query ∷ hs) (trace_hooks-++ xs ys)

module _ (env : Environment) where
  -- reflect.DeepEqual answers true on equal filters only.
  abbrev pub IsSound : Type 0
  IsSound = (f g : Option Call) → env.same_filter f g ≡ true → f ≡ g

  abbrev pub Retimed :
      TraceQueryParams → InterceptorQuery → InterceptorQuery → TraceQueryParams → Type 0
  Retimed q b a r =
      (q.filter ≡ none)
      × (env.same_filter a.filter b.filter ≡ true)
      × (r ≡ record q { start_time_min = a.start_time_min; start_time_max = a.start_time_max })

  abbrev pub Refiltered : TraceQueryParams → InterceptorQuery → TraceQueryParams → Type 0
  Refiltered q a r =
      (f : Call) × (finalize_interceptor_filter env a.filter ≡ ok f)
      × (r ≡ from_interceptor_trace_query (record a { filter = some f }) q)

  abbrev refilter : TraceQueryParams → InterceptorQuery → Call → Result QueryError TraceQueryParams
  refilter q a f = ok (from_interceptor_trace_query (record a { filter = some f }) q)

  refiltered :
      (q : TraceQueryParams) (a : InterceptorQuery) (r : TraceQueryParams)
      → (finalize_interceptor_filter env a.filter >>= refilter q a) ≡ ok r
      → Refiltered q a r
  refiltered q a r h =
      let (f, e, t) = >>=-ok (finalize_interceptor_filter env a.filter) (refilter q a) h in
      (f, e, cc)

  settle-some :
      (q : TraceQueryParams) (b a : InterceptorQuery) (r : TraceQueryParams) (f : Call)
      → q.filter ≡ some f
      → settle_trace_query env q b a ≡ ok r
      → (finalize_interceptor_filter env a.filter >>= refilter q a) ≡ ok r
  unfolding settle_trace_query
  settle-some q b a r f e h = (rw e at h)

  settle-changed :
      (q : TraceQueryParams) (b a : InterceptorQuery) (r : TraceQueryParams)
      → q.filter ≡ none
      → env.same_filter a.filter b.filter ≡ false
      → settle_trace_query env q b a ≡ ok r
      → (finalize_interceptor_filter env a.filter >>= refilter q a) ≡ ok r
  unfolding settle_trace_query
  settle-changed q b a r e s h = (rw (e, s) at h)

  settle-same :
      (q : TraceQueryParams) (b a : InterceptorQuery) (r : TraceQueryParams)
      → q.filter ≡ none
      → env.same_filter a.filter b.filter ≡ true
      → settle_trace_query env q b a ≡ ok r
      → r ≡ record q { start_time_min = a.start_time_min; start_time_max = a.start_time_max }
  unfolding settle_trace_query
  settle-same q b a r e s h = cc (rw (e, s) at h)

  -- The two results of onTraceQuery: the query with another time range, or the filter of the
  -- hooks, finalized.
  pub settle-cases :
      (q : TraceQueryParams) (b a : InterceptorQuery) (r : TraceQueryParams)
      → settle_trace_query env q b a ≡ ok r
      → Retimed q b a r ⊎ Refiltered q a r
  settle-cases q b a r h = elim (Option-cases q.filter) [
    | inr (f, e) ↦ inr (refiltered q a r (settle-some q b a r f e h))
    | inl e ↦ elim (Bool-cases (env.same_filter a.filter b.filter)) [
      | inr s ↦ inr (refiltered q a r (settle-changed q b a r e s h))
      | inl s ↦ inl (e, s, settle-same q b a r e s h)
    ]
  ]
