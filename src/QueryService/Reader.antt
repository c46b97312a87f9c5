-- ===== src/QueryService/Reader.antt =====
-- queryToReaderShape of querysvc/filter.go: a query in the shape that a reader declared.
use jaeger.Prelude.{Option, none, some, if◌then◌else◌, ◌==◌, string_eq, Result, ok, err, ◌>>=◌}
use jaeger.Tracestore.Expression.{Call}
use jaeger.Tracestore.Errors.{ShapeError}
use jaeger.Tracestore.Query.{FilterCapabilities, SearchCapabilities, TraceQueryParams, is_empty}
use jaeger.Tracestore.Shape.{FieldNames, to_legacy_shape}
use jaeger.Tracestore.Admission.{ensure_supported}

-- The page of a reader that cannot paginate is the bound of the search.
unfoldable pub fold_pagination :
    TraceQueryParams → SearchCapabilities → Result ShapeError TraceQueryParams
fold_pagination q caps = elim q.pagination [
  | none ↦ ok q
  | some p ↦
      if caps.paginated
      then ok q
      else if p.page_token == ""
      then ok (record q { search_depth = p.page_size; pagination = none })
      else err ShapeError.pagination_unsupported
]

module _ (names : FieldNames) where
  -- A filter for a reader with capabilities that may be absent.
  unfoldable pub filter_to_shape :
      TraceQueryParams → Call → Option FilterCapabilities → Result ShapeError TraceQueryParams
  unfolding is_empty ensure_supported to_legacy_shape
  filter_to_shape q f none = to_legacy_shape names q
  filter_to_shape q f (some c) =
      if is_empty (some c) then to_legacy_shape names q else (ensure_supported c f >>= λ _. ok q)

  -- queryToReaderShape
  unfoldable pub query_to_reader_shape :
      TraceQueryParams → SearchCapabilities → Result ShapeError TraceQueryParams
  unfolding fold_pagination filter_to_shape
  query_to_reader_shape query caps = fold_pagination query caps >>= λ q. (elim q.filter [
    | none ↦ ok q
    | some f ↦ filter_to_shape q f caps.filter
  ])
