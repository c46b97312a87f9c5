-- ===== src/QueryService/Prepare.antt =====
-- prepareSearchQuery and prepareSpanSearchQuery of querysvc/service.go: what a search must satisfy
-- before it reaches a reader, and what it is turned into.
use jaeger.Prelude.{
  List, [], ◌∷◌, Bool, false, not, ◌&&◌, ◌||◌, Option, none, some, if◌then◌else◌, ◌==◌, string_eq,
  Result, ok, err, Check, ◌>>=◌, ◌>>◌,
}
use jaeger.Prelude.Int.{pos, ltb_ℤ}
use jaeger.Memory.Clock.{is_zero, before}
use jaeger.Tracestore.Expression.{Call}
use jaeger.Tracestore.Errors.{ShapeError}
use jaeger.Tracestore.Resolve.{finalize_filter, map_error}
use jaeger.Tracestore.Query.{
  FilterCapabilities, SearchCapabilities, TraceQueryParams, Pagination, is_empty,
}
use jaeger.Tracestore.Shape.{is_zero_duration}
use jaeger.Tracestore.Admission.{ensure_filter_stands_alone, ensure_supported}
use jaeger.QueryService.Errors.{QueryError, in_shape}
use jaeger.QueryService.Reader.{query_to_reader_shape}
use jaeger.QueryService.Envelope.{
  check, is_absent, min_ℤ, max_page_size, default_page_size, normalize_envelope,
}
use jaeger.QueryService.Interceptor.{
  Interceptor, Environment, SpanQueryParams, on_trace_query, on_span_query,
}

-- A deployment: its feature gates, its interceptors, and what its reader declares, `none` being a
-- reader that cannot report its capabilities.
pub record Deployment (C : Type 0) : Type 0 where
  pub pagination_enabled : Bool
  pub filters_enabled : Bool
  pub interceptors : List (Interceptor C)
  pub search_capabilities : C → Option SearchCapabilities

abbrev pub least_capable : SearchCapabilities
least_capable = record {
  without_service_name = false;
  same_span_conjunction = false;
  filter = none;
  paginated = false;
  span_search = false;
}

abbrev pub clamp : Pagination → Pagination
clamp p = record p { page_size = min_ℤ p.page_size max_page_size }

module _ {C : Type 0} (env : Environment) (d : Deployment C) where
  -- readerSearchCapabilitiesOrDefault
  unfoldable pub capabilities_or_default : C → SearchCapabilities
  capabilities_or_default ctx = elim (d.search_capabilities ctx) [
    | none ↦ least_capable
    | some caps ↦ caps
  ]

  -- SearchWithoutServiceName; `none` is an error.
  unfoldable pub search_without_service_name : C → Option Bool
  search_without_service_name ctx = elim (d.search_capabilities ctx) [
    | none ↦ none
    | some caps ↦ some caps.without_service_name
  ]

  abbrev answers_any : Option Bool → Bool
  answers_any none = false
  answers_any (some b) = b

  -- checkServiceName
  unfoldable pub check_service_name : C → TraceQueryParams → Check QueryError
  unfolding search_without_service_name
  check_service_name ctx q =
      if not (q.service_name == "")
      then ok tt
      else check (answers_any (search_without_service_name ctx)) QueryError.service_name_required

  abbrev pub check_page_use : TraceQueryParams → Check QueryError
  check_page_use q =
      check d.pagination_enabled QueryError.pagination_disabled
      >> check (is_zero_duration q.search_depth)
          (QueryError.pagination_invalid "it cannot be combined with search depth")

  abbrev pub check_page_size : Pagination → Check QueryError
  check_page_size p =
      check (ltb_ℤ (pos 0) p.page_size)
        (QueryError.pagination_invalid "page size is required whenever pagination is present")

  -- The part of prepareSearchQuery on a paginated search.
  unfoldable pub settle_pagination : TraceQueryParams → Result QueryError TraceQueryParams
  settle_pagination q = elim q.pagination [
    | none ↦ ok q
    | some p ↦
        check_page_use q >> check_page_size p >> ok (record q { pagination = some (clamp p) })
  ]

  abbrev pub finalize_query_filter : Call → Result QueryError Call
  finalize_query_filter f =
      map_error QueryError.filter_invalid (finalize_filter env.vocabulary env.parse_regexp (some f))

  -- The gate and the finalizing of a filter in prepareSpanSearchQuery.
  unfoldable pub settle_filter : Call → Result QueryError Call
  unfolding finalize_filter
  settle_filter f =
      check d.filters_enabled QueryError.filter_disabled >>= λ _. finalize_query_filter f

  abbrev pub check_filter_use : TraceQueryParams → Check QueryError
  check_filter_use q =
      check d.filters_enabled QueryError.filter_disabled >> in_shape (ensure_filter_stands_alone q)

  -- The part of prepareSearchQuery on a search with a filter.
  unfoldable pub settle_query_filter : TraceQueryParams → Result QueryError TraceQueryParams
  unfolding finalize_filter ensure_filter_stands_alone
  settle_query_filter q = elim q.filter [
    | none ↦ ok q
    | some f ↦ check_filter_use q >>= λ _.
        (finalize_query_filter f >>= λ f'. ok (record q { filter = some f' }))
  ]

  unfoldable pub intercept : C → TraceQueryParams → Result QueryError (C × TraceQueryParams)
  unfolding on_trace_query
  intercept ctx q = elim d.interceptors [
    | [] ↦ ok (ctx, q)
    | i ∷ is ↦ on_trace_query env (i ∷ is) ctx q
  ]

  abbrev pub service_named : C → TraceQueryParams → Check QueryError
  service_named ctx r =
      check (not (r.service_name == "") || (capabilities_or_default ctx).without_service_name)
        QueryError.service_name_required

  -- The end of prepareSearchQuery: what depends on the reader.
  unfoldable pub fit_to_reader : C → TraceQueryParams → Result QueryError TraceQueryParams
  unfolding check_service_name capabilities_or_default query_to_reader_shape
  fit_to_reader ctx q =
      if is_absent q.filter && is_absent q.pagination
      then (check_service_name ctx q >>= λ _. ok q)
      else (in_shape (query_to_reader_shape env.names q (capabilities_or_default ctx)) >>= λ r.
          (service_named ctx r >>= λ _. ok r))

  -- prepareSearchQuery
  unfoldable pub prepare_search_query :
      C → TraceQueryParams → Result QueryError (C × TraceQueryParams)
  unfolding normalize_envelope settle_pagination settle_query_filter intercept fit_to_reader
  prepare_search_query ctx query = normalize_envelope query >>= λ q1.
      (settle_pagination q1 >>= λ q2.
      (settle_query_filter q2 >>= λ q3.
      (intercept ctx q3 >>= λ r. (fit_to_reader r.0 r.1 >>= λ q5. ok (r.0, q5)))))

  -- ensureSpanPaginationSupported
  unfoldable pub ensure_span_pagination_supported :
      SearchCapabilities → Pagination → Check ShapeError
  ensure_span_pagination_supported caps p =
      if not (p.page_token == "") && not caps.paginated
      then err ShapeError.pagination_unsupported
      else ok tt

  abbrev span_filter_supported : Option FilterCapabilities → Call → Check ShapeError
  span_filter_supported none f = err ShapeError.no_filter_evaluated
  span_filter_supported (some c) f =
      if is_empty (some c) then err ShapeError.no_filter_evaluated else ensure_supported c f

  -- ensureSpanFilterSupported
  unfoldable pub ensure_span_filter_supported : SearchCapabilities → Option Call → Check ShapeError
  unfolding is_empty ensure_supported
  ensure_span_filter_supported caps none = ok tt
  ensure_span_filter_supported caps (some f) = span_filter_supported caps.filter f

  -- The bound of a page of spans.
  unfoldable pub span_page : Pagination → Pagination
  span_page p =
      clamp (if is_zero_duration p.page_size then record p { page_size = default_page_size } else p)

  abbrev settle_span : SpanQueryParams → Result QueryError SpanQueryParams
  settle_span q = elim q.filter [
    | none ↦ ok q
    | some f ↦ settle_filter f >>= λ f'. ok (record q { filter = some f' })
  ]

  unfoldable pub intercept_span : C → SpanQueryParams → Result QueryError (C × SpanQueryParams)
  unfolding on_span_query
  intercept_span ctx q = elim d.interceptors [
    | [] ↦ ok (ctx, q)
    | i ∷ is ↦ on_span_query env (i ∷ is) ctx q
  ]

  -- The checks of prepareSpanSearchQuery on what the caller sent.
  unfoldable pub check_span_query : SpanQueryParams → Check QueryError
  unfolding before
  check_span_query q =
      check (not (is_zero q.start_time_min || is_zero q.start_time_max))
        (QueryError.query_invalid "start_time_min and start_time_max are required")
      >> check (before q.start_time_min q.start_time_max)
          (QueryError.query_invalid "start_time_min must be before start_time_max")
      >> check (q.pagination.page_token == "" || d.pagination_enabled)
          QueryError.pagination_disabled

  -- prepareSpanSearchQuery; the capabilities are read once, before the interceptors.
  unfoldable pub prepare_span_search_query :
      C → SpanQueryParams → Result QueryError (C × SpanQueryParams)
  unfolding check_span_query span_page settle_filter capabilities_or_default intercept_span
      ensure_span_pagination_supported ensure_span_filter_supported
  prepare_span_search_query ctx query =
      let caps = capabilities_or_default ctx in
      check_span_query query >>= λ _.
      (settle_span (record query { pagination = span_page query.pagination }) >>= λ q2.
      (check caps.span_search QueryError.span_search_unsupported >>= λ _.
      (intercept_span ctx q2 >>= λ r.
      (in_shape (ensure_span_pagination_supported caps r.1.pagination) >>= λ _.
      (in_shape (ensure_span_filter_supported caps r.1.filter) >>= λ _. ok r)))))
