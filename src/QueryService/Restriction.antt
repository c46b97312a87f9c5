-- ===== src/QueryService/Restriction.antt =====
-- What the interceptors leave of a search: a restriction is never dropped on the way, and what
-- they add is finalized.
use jaeger.Prelude.{
  List, ◌++◌, true, Option, none, some, ◌≡◌, refl, sym, ap, ◌∙◌, inl, inr, ◌⊎◌, Result, ok, err,
  ◌>>=◌, >>=-ok,
}
use jaeger.Tracestore.Expression.{Call}
use jaeger.Tracestore.Query.{TraceQueryParams}
use jaeger.Tracestore.Resolve.{finalize_filter, map_error}
use jaeger.Tracestore.Shape.{to_filter_shape}
use jaeger.Tracestore.Finalize.{finalize_filter_idem}
use jaeger.QueryService.Errors.{QueryError}
use jaeger.QueryService.Interceptor.{
  Interceptor, InterceptorQuery, Environment, is_there, run_hooks, trace_hooks,
  to_interceptor_trace_query, from_interceptor_trace_query, finalize_interceptor_filter,
  settle_trace_query, on_trace_query,
}
use jaeger.QueryService.Hooks.{
  run_hooks-keep, run_hooks-++, trace_hooks-++, IsSound, Retimed, Refiltered, settle-cases,
}
use jaeger.QueryService.Served.{bound_of}

pub map_error-ok :
    {E F A : Type 0} (f : E → F) (m : Result E A) (a : A) → map_error f m ≡ ok a → m ≡ ok a
map_error-ok f (ok b) a h = cc
map_error-ok f (err e) a h = cc

module _ (env : Environment) where
  to_filter_shape-times :
      (q : TraceQueryParams) (a : InterceptorQuery)
      → q.filter ≡ none
      → (to_filter_shape env.names env.text (record q {
        start_time_min = a.start_time_min;
        start_time_max = a.start_time_max;
      })).filter
        ≡ (to_filter_shape env.names env.text q).filter
  unfolding to_filter_shape
  to_filter_shape-times q a e = rw e refl

  to_filter_shape-filter :
      (q : TraceQueryParams) (f : Call)
      → q.filter ≡ some f
      → (to_filter_shape env.names env.text q).filter ≡ some f
  unfolding to_filter_shape
  to_filter_shape-filter q f e = rw e refl

  -- The query that the hooks are given.
  abbrev pub shown : TraceQueryParams → InterceptorQuery
  shown q = to_interceptor_trace_query (to_filter_shape env.names env.text q)

  pub on_trace_query-split :
      {C : Type 0} (is : List (Interceptor C)) (ctx : C) (q : TraceQueryParams)
      (r : C × TraceQueryParams)
      → on_trace_query env is ctx q ≡ ok r
      → (a : C × InterceptorQuery) × (run_hooks (trace_hooks is) ctx (shown q) ≡ ok a)
        × (Retimed env q (shown q) a.1 r.1 ⊎ Refiltered env q a.1 r.1)
  unfolding on_trace_query
  on_trace_query-split is ctx q r h =
      let (a, e, h') =
        >>=-ok (run_hooks (trace_hooks is) ctx (shown q))
          (λ a. (settle_trace_query env q (shown q) a.1 >>= λ q'. ok (a.0, q'))) h in
      let (q', e', t) = >>=-ok (settle_trace_query env q (shown q) a.1) (λ q'. ok (a.0, q')) h' in
      let s : (a.0, q') ≡ r = cc in (a, e, rw (sym s) (settle-cases env q (shown q) a.1 q' e'))

  settled-there :
      (q : TraceQueryParams) (a : InterceptorQuery) (r : TraceQueryParams)
      → IsSound env
      → is_there a.filter ≡ true
      → Retimed env q (shown q) a r ⊎ Refiltered env q a r
      → is_there (to_filter_shape env.names env.text r).filter ≡ true
  unfolding from_interceptor_trace_query to_interceptor_trace_query
  settled-there q a r s k (inl (e, same, t)) =
      let u : a.filter ≡ (to_filter_shape env.names env.text q).filter =
        s a.filter (shown q).filter same in
      rw (t, to_filter_shape-times q a e, sym u) k
  settled-there q a r s k (inr (f, e, t)) = rw (to_filter_shape-filter r f (rw t refl)) refl

  -- Once some of the interceptors have left a search with predicates, the search that onTraceQuery
  -- gives has predicates, whatever the other interceptors do.
  pub on_trace_query-keeps :
      {C : Type 0} (xs ys : List (Interceptor C)) (ctx : C) (q : TraceQueryParams)
      (mid : C × InterceptorQuery) (r : C × TraceQueryParams)
      → IsSound env
      → run_hooks (trace_hooks xs) ctx (shown q) ≡ ok mid
      → is_there mid.1.filter ≡ true
      → on_trace_query env (xs ++ ys) ctx q ≡ ok r
      → is_there (to_filter_shape env.names env.text r.1).filter ≡ true
  on_trace_query-keeps xs ys ctx q mid r s h k e =
      let (a, e', t) = on_trace_query-split (xs ++ ys) ctx q r e in
      let rest =
        run_hooks-++ (trace_hooks xs) (trace_hooks ys) ctx (shown q) a mid h
          (rw (trace_hooks-++ xs ys) at e') in
      settled-there q a.1 r.1 s (run_hooks-keep (trace_hooks ys) mid.0 mid.1 a rest k) t

  pub finalized :
      (f : Option Call) (g : Call)
      → finalize_interceptor_filter env f ≡ ok g
      → finalize_filter env.vocabulary env.parse_regexp f ≡ ok g
  unfolding finalize_interceptor_filter
  finalized f g h = map_error-ok QueryError.interceptor_filter _ g h

  settled-bound :
      (q : TraceQueryParams) (a : InterceptorQuery) (r : TraceQueryParams)
      → Retimed env q (shown q) a r ⊎ Refiltered env q a r
      → bound_of r ≡ bound_of q
  unfolding from_interceptor_trace_query
  settled-bound q a r (inl (e, same, t)) = ap bound_of t
  settled-bound q a r (inr (f, e, t)) = ap bound_of t

  settled-final :
      (q : TraceQueryParams) (a : InterceptorQuery) (r : TraceQueryParams) (f : Call)
      → r.filter ≡ some f
      → Retimed env q (shown q) a r ⊎ Refiltered env q a r
      → finalize_filter env.vocabulary env.parse_regexp (some f) ≡ ok f
  unfolding from_interceptor_trace_query
  settled-final q a r f k (inl (e, same, t)) =
      let u : r.filter ≡ none = ap (λ q. q.filter) t ∙ e in absurd (cc (u, k))
  settled-final q a r f k (inr (g, e, t)) =
      let u : g ≡ f = cc (sym (ap (λ q. q.filter) t) ∙ k) in
      rw (sym u)
        (finalize_filter_idem env.vocabulary env.parse_regexp a.filter g (finalized a.filter g e))

  -- The bound and the filter of what onTraceQuery gives.
  pub on_trace_query-bound :
      {C : Type 0} (is : List (Interceptor C)) (ctx : C) (q : TraceQueryParams)
      (r : C × TraceQueryParams)
      → on_trace_query env is ctx q ≡ ok r
      → bound_of r.1 ≡ bound_of q
  on_trace_query-bound is ctx q r e =
      let (a, _, t) = on_trace_query-split is ctx q r e in settled-bound q a.1 r.1 t

  pub on_trace_query-final :
      {C : Type 0} (is : List (Interceptor C)) (ctx : C) (q : TraceQueryParams)
      (r : C × TraceQueryParams) (f : Call)
      → on_trace_query env is ctx q ≡ ok r
      → r.1.filter ≡ some f
      → finalize_filter env.vocabulary env.parse_regexp (some f) ≡ ok f
  on_trace_query-final is ctx q r f e k =
      let (a, _, t) = on_trace_query-split is ctx q r e in settled-final q a.1 r.1 f k t
