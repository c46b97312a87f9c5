-- ===== src/QueryService/Envelope.antt =====
-- normalizeEnvelope of querysvc/service.go: the fields that every trace search carries.
use jaeger.Prelude.{
  Bool, true, false, not, ◌&&◌, ◌||◌, Option, none, some, if◌then◌else◌, Result, ok, err, ◌>>◌,
  Check,
}
use jaeger.Prelude.Int.{ℤ, pos, ltb_ℤ}
use jaeger.Memory.Clock.{Time, is_zero, before}
use jaeger.Tracestore.Shape.{is_zero_duration}
use jaeger.Tracestore.Query.{TraceQueryParams}
use jaeger.QueryService.Errors.{QueryError}

abbrev pub max_search_depth : ℤ
max_search_depth = pos 10000

abbrev pub max_page_size : ℤ
max_page_size = pos 10000

abbrev pub default_search_depth : ℤ
default_search_depth = pos 100

abbrev pub default_page_size : ℤ
default_page_size = default_search_depth

abbrev pub check : Bool → QueryError → Check QueryError
check true e = ok tt
check false e = err e

abbrev pub is_absent : {A : Type 0} → Option A → Bool
is_absent none = true
is_absent (some a) = false

abbrev pub min_ℤ : ℤ → ℤ → ℤ
min_ℤ a b = if ltb_ℤ b a then b else a

abbrev check_range : Time → Time → Check QueryError
check_range a b =
    check (not (is_zero a || is_zero b))
      (QueryError.query_invalid "min and max start time are required")
    >> check (before a b) (QueryError.query_invalid "min start time must be before max start time")

abbrev check_durations : ℤ → ℤ → Check QueryError
check_durations a b =
    check (not (ltb_ℤ a (pos 0) || ltb_ℤ b (pos 0)))
      (QueryError.query_invalid "min and max duration cannot be negative")
    >> check (not (ltb_ℤ (pos 0) a && ltb_ℤ (pos 0) b && ltb_ℤ b a))
        (QueryError.query_invalid "max duration cannot be less than min duration")

abbrev pub check_ranges : TraceQueryParams → Check QueryError
check_ranges q =
    check_range q.start_time_min q.start_time_max >> check_durations q.duration_min q.duration_max

abbrev pub check_depth : ℤ → Check QueryError
check_depth depth =
    check (not (ltb_ℤ depth (pos 0) || ltb_ℤ max_search_depth depth))
      (QueryError.query_invalid "search depth must be in range")

abbrev pub with_depth : TraceQueryParams → TraceQueryParams
with_depth q =
    if is_zero_duration q.search_depth && is_absent q.pagination
    then record q { search_depth = default_search_depth }
    else q

-- normalizeEnvelope
unfoldable pub normalize_envelope : TraceQueryParams → Result QueryError TraceQueryParams
unfolding before
normalize_envelope q = check_ranges q >> check_depth q.search_depth >> ok (with_depth q)
