-- ===== src/QueryService/Errors.antt =====
-- The errors of the query service, and IsBadRequest of querysvc/filter.go.
use jaeger.Prelude.{String, Bool, true, false, Result, ok, err}
use jaeger.Tracestore.Errors.{FilterError, ShapeError}

-- `shape` are the errors that wrap ErrFilterUnsupported, ErrFilterInvalid or
-- ErrPaginationUnsupported; an interceptor's own error tells whether it wraps a sentinel of
-- IsBadRequest.
pub data QueryError : Type 0 where
  query_invalid : String → QueryError
  service_name_required span_search_unsupported filter_disabled : QueryError
  pagination_disabled pagination_unsupported_by_find_traces : QueryError
  pagination_invalid : String → QueryError
  filter_invalid interceptor_filter : FilterError → QueryError
  shape : ShapeError → QueryError
  interceptor_dropped_filter : QueryError
  from_interceptor : Bool → String → QueryError

-- IsBadRequest; a panic is no error at all.
unfoldable pub is_bad_request : QueryError → Bool
is_bad_request (QueryError.interceptor_filter e) = false
is_bad_request QueryError.interceptor_dropped_filter = false
is_bad_request (QueryError.from_interceptor wraps name) = wraps
is_bad_request (QueryError.shape ShapeError.panics) = false
is_bad_request _ = true

abbrev pub in_shape : {A : Type 0} → Result ShapeError A → Result QueryError A
in_shape (ok a) = ok a
in_shape (err e) = err (QueryError.shape e)
