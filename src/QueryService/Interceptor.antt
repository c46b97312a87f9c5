-- ===== src/QueryService/Interceptor.antt =====
-- querysvc/interceptor.go: the extensions that gate a search. Their hooks are parameters; a hook
-- gives a new query, and what it does to the filter that it was given is not modelled.
use jaeger.Prelude.{
  String, List, [], ◌∷◌, Bool, true, false, not, ◌&&◌, Option, none, some, if◌then◌else◌, Result,
  ok, err, ◌>>=◌,
}
use jaeger.Prelude.Int.{pos}
use jaeger.Otlp.{ValueText, Traces}
use jaeger.Memory.Clock.{Time}
use jaeger.Tracestore.Expression.{Call, Vocabulary}
use jaeger.Tracestore.Pattern.{Regexp}
use jaeger.Tracestore.Resolve.{finalize_filter, map_error}
use jaeger.Tracestore.Query.{TraceQueryParams, Pagination}
use jaeger.Tracestore.Shape.{FieldNames, to_filter_shape}
use jaeger.QueryService.Errors.{QueryError}

-- queryinterceptor.TraceQuery, which SpanQuery has the fields of.
pub record InterceptorQuery : Type 0 where
  pub filter : Option Call
  pub start_time_min : Time
  pub start_time_max : Time

-- A search over spans: tracestore.SpanQueryParams.
pub record SpanQueryParams : Type 0 where
  pub filter : Option Call
  pub start_time_min : Time
  pub start_time_max : Time
  pub pagination : Pagination

abbrev pub Hook : Type 0 → Type 0
Hook C = C → InterceptorQuery → Result QueryError (C × InterceptorQuery)

pub record Interceptor (C : Type 0) : Type 0 where
  pub on_trace_query : Hook C
  pub on_trace_result : C → List Traces → Result QueryError (C × List Traces)
  pub on_span_query : Hook C
  pub on_span_result : C → Traces → Result QueryError (C × Traces)

-- What is used of the surroundings of the query service; `same_filter` is reflect.DeepEqual on
-- filters.
pub record Environment : Type 0 where
  pub vocabulary : Vocabulary
  pub parse_regexp : String → Option Regexp
  pub names : FieldNames
  pub text : ValueText
  pub same_filter : Option Call → Option Call → Bool

abbrev pub is_there : {A : Type 0} → Option A → Bool
is_there none = false
is_there (some a) = true

-- A query that had predicates and has none.
abbrev pub drops : InterceptorQuery → InterceptorQuery → Bool
drops q r = is_there q.filter && not (is_there r.filter)

-- toInterceptorTraceQuery
unfoldable pub to_interceptor_trace_query : TraceQueryParams → InterceptorQuery
to_interceptor_trace_query q = record {
  filter = q.filter;
  start_time_min = q.start_time_min;
  start_time_max = q.start_time_max;
}

-- fromInterceptorTraceQuery
unfoldable pub from_interceptor_trace_query : InterceptorQuery → TraceQueryParams → TraceQueryParams
from_interceptor_trace_query q original = record {
  service_name = "";
  operation_name = "";
  attributes = [];
  start_time_min = q.start_time_min;
  start_time_max = q.start_time_max;
  duration_min = pos 0;
  duration_max = pos 0;
  search_depth = original.search_depth;
  filter = q.filter;
  pagination = original.pagination;
}

-- toInterceptorSpanQuery
unfoldable pub to_interceptor_span_query : SpanQueryParams → InterceptorQuery
to_interceptor_span_query q = record {
  filter = q.filter;
  start_time_min = q.start_time_min;
  start_time_max = q.start_time_max;
}

-- fromInterceptorSpanQuery
unfoldable pub from_interceptor_span_query : InterceptorQuery → SpanQueryParams → SpanQueryParams
from_interceptor_span_query q original = record {
  filter = q.filter;
  start_time_min = q.start_time_min;
  start_time_max = q.start_time_max;
  pagination = original.pagination;
}

module _ {C : Type 0} where
  -- The loop of onTraceQuery and onSpanQuery over the hooks.
  unfoldable pub run_hooks : List (Hook C) → Hook C
  run_hooks [] ctx q = ok (ctx, q)
  run_hooks (hook ∷ hooks) ctx q = hook ctx q >>= λ r.
      (if drops q r.1 then err QueryError.interceptor_dropped_filter else run_hooks hooks r.0 r.1)

  abbrev pub trace_hooks : List (Interceptor C) → List (Hook C)
  trace_hooks [] = []
  trace_hooks (i ∷ is) = i.on_trace_query ∷ trace_hooks is

  abbrev pub span_hooks : List (Interceptor C) → List (Hook C)
  span_hooks [] = []
  span_hooks (i ∷ is) = i.on_span_query ∷ span_hooks is

module _ (env : Environment) where
  -- finalizeInterceptorFilter
  unfoldable pub finalize_interceptor_filter : Option Call → Result QueryError Call
  unfolding finalize_filter
  finalize_interceptor_filter returned =
      map_error QueryError.interceptor_filter
        (finalize_filter env.vocabulary env.parse_regexp returned)

  -- What onTraceQuery makes of the query the hooks leave behind, `before` being the one that they
  -- were given.
  unfoldable pub settle_trace_query :
      TraceQueryParams → InterceptorQuery → InterceptorQuery → Result QueryError TraceQueryParams
  unfolding finalize_interceptor_filter from_interceptor_trace_query
  settle_trace_query q before after =
      if not (is_there q.filter) && env.same_filter after.filter before.filter
      then ok (record q {
        start_time_min = after.start_time_min;
        start_time_max = after.start_time_max;
      })
      else (finalize_interceptor_filter after.filter >>= λ f.
          ok (from_interceptor_trace_query (record after { filter = some f }) q))

  module _ {C : Type 0} (interceptors : List (Interceptor C)) where
    -- onTraceQuery
    unfoldable pub on_trace_query : C → TraceQueryParams → Result QueryError (C × TraceQueryParams)
    unfolding to_interceptor_trace_query to_filter_shape run_hooks settle_trace_query
    on_trace_query ctx q =
        let before = to_interceptor_trace_query (to_filter_shape env.names env.text q) in
        run_hooks (trace_hooks interceptors) ctx before >>= λ r.
        (settle_trace_query q before r.1 >>= λ q'. ok (r.0, q'))

    abbrev settle_span_filter : Option Call → Result QueryError (Option Call)
    settle_span_filter none = ok none
    settle_span_filter (some f) = finalize_interceptor_filter (some f) >>= λ f'. ok (some f')

    -- onSpanQuery
    unfoldable pub on_span_query : C → SpanQueryParams → Result QueryError (C × SpanQueryParams)
    unfolding to_interceptor_span_query run_hooks finalize_interceptor_filter
        from_interceptor_span_query
    on_span_query ctx q =
        run_hooks (span_hooks interceptors) ctx (to_interceptor_span_query q) >>= λ r.
        (settle_span_filter r.1.filter >>= λ f.
        ok (r.0, from_interceptor_span_query (record r.1 { filter = f }) q))
