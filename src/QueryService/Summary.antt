-- ===== src/QueryService/Summary.antt =====
-- summarizeTrace of querysvc/summary.go.
use jaeger.Prelude.{
  ℕ, suc, String, List, [], ◌∷◌, Bool, true, false, not, ◌||◌, Option, none, some, if◌then◌else◌,
  ◌==◌, nat_eq, string_eq,
}
use jaeger.Prelude.Int.{ℤ}
use jaeger.Prelude.Map.{Map, lookup, insert}
use jaeger.Otlp.{Attributes, Place, Span, Traces, ValueText}
use jaeger.Jptrace.Spans.{span_iter, get_trace_id}
use jaeger.Memory.Match.{is_error}
use jaeger.Memory.Clock.{Time, is_zero, before, after}

pub record ServiceStats : Type 0 where
  pub spans : ℕ
  pub errors : ℕ

-- The variables of summarizeTrace, with the counts of each service.
pub record SummaryState : Type 0 where
  pub services : Map String ServiceStats
  pub root_service_name : String
  pub root_operation_name : String
  pub root_start_time : Time
  pub min_start_time : Time
  pub max_end_time : Time
  pub total_spans : ℕ
  pub total_errors : ℕ
  pub orphan_spans : ℕ

pub record ServiceSummary : Type 0 where
  pub name : String
  pub span_count : ℕ
  pub error_span_count : ℕ

pub record TraceSummary : Type 0 where
  pub trace_id : ℕ
  pub root_service_name : String
  pub root_operation_name : String
  pub min_start_time : Time
  pub max_end_time : Time
  pub span_count : ℕ
  pub error_span_count : ℕ
  pub orphan_span_count : ℕ
  pub services : List ServiceSummary

abbrev pub has_id : ℕ → List (Place × Span) → Bool
has_id id [] = false
has_id id ((p, x) ∷ xs) = x.span_id == id || has_id id xs

abbrev pub stats_of : Option ServiceStats → ServiceStats
stats_of none = record { spans = 0; errors = 0 }
stats_of (some s) = s

abbrev pub count : Bool → ℕ → ℕ
count true n = suc n
count false n = n

abbrev pub empty_state : SummaryState
empty_state = record {
  services = [];
  root_service_name = "";
  root_operation_name = "";
  root_start_time = none;
  min_start_time = none;
  max_end_time = none;
  total_spans = 0;
  total_errors = 0;
  orphan_spans = 0;
}

-- `as_time` is pdata's reading of a timestamp, which is never the zero time.
module _ (text : ValueText) (as_time : ℕ → ℤ) where
  -- The name of the service that a span is counted for.
  unfoldable pub service_of : Attributes → String
  unfolding lookup
  service_of resource = elim (lookup "service.name" resource) [
    | none ↦ ""
    | some v ↦ text.get_str v
  ]

  unfoldable pub count_service : String → Bool → SummaryState → SummaryState
  unfolding lookup insert
  count_service name failed s =
      let stats = stats_of (lookup name s.services) in
      record s {
        services =
            insert name (record { spans = suc stats.spans; errors = count failed stats.errors })
              s.services;
        total_spans = suc s.total_spans;
        total_errors = count failed s.total_errors;
      }

  unfoldable pub widen : Time → Time → SummaryState → SummaryState
  unfolding before after
  widen start end s = record s {
    min_start_time =
        if is_zero s.min_start_time || before start s.min_start_time
        then start
        else s.min_start_time;
    max_end_time =
        if is_zero s.max_end_time || after end s.max_end_time then end else s.max_end_time;
  }

  -- What the loop does for a span without a parent, and for one with a parent.
  unfoldable pub note_root : String → Span → SummaryState → SummaryState
  unfolding before
  note_root name x s =
      if is_zero s.root_start_time || before (some (as_time x.start_timestamp)) s.root_start_time
      then record s {
        root_service_name = name;
        root_operation_name = x.name;
        root_start_time = some (as_time x.start_timestamp);
      }
      else s

  abbrev pub is_orphan : List (Place × Span) → Span → Bool
  is_orphan all x = if x.parent_span_id == 0 then false else not (has_id x.parent_span_id all)

  unfoldable pub note_parent : List (Place × Span) → String → Span → SummaryState → SummaryState
  unfolding note_root
  note_parent all name x s =
      let root = note_root name x s in
      if x.parent_span_id == 0
      then root
      else record s { orphan_spans = count (not (has_id x.parent_span_id all)) s.orphan_spans }

  -- The body of the second loop.
  unfoldable pub add_span : List (Place × Span) → Place × Span → SummaryState → SummaryState
  unfolding service_of is_error count_service widen note_parent
  add_span all (p, x) s = note_parent all (service_of p.resource) x (
      widen (some (as_time x.start_timestamp)) (some (as_time x.end_timestamp))
        (count_service (service_of p.resource) (is_error x.status_code) s))

  unfoldable pub add_spans : List (Place × Span) → List (Place × Span) → SummaryState → SummaryState
  unfolding add_span
  add_spans all [] s = s
  add_spans all (x ∷ xs) s = add_spans all xs (add_span all x s)

  abbrev pub service_summaries : Map String ServiceStats → List ServiceSummary
  service_summaries [] = []
  service_summaries ((n, s) ∷ m) =
      record { name = n; span_count = s.spans; error_span_count = s.errors } ∷ service_summaries m

  -- summarizeTrace; `by_name` is the range over the map of services with slices.SortFunc.
  unfoldable pub summarize_trace :
      (List ServiceSummary → List ServiceSummary) → Traces → TraceSummary
  unfolding span_iter get_trace_id add_spans
  summarize_trace by_name traces =
      let s = add_spans (span_iter traces) (span_iter traces) empty_state in
      record {
        trace_id = get_trace_id traces;
        root_service_name = s.root_service_name;
        root_operation_name = s.root_operation_name;
        min_start_time = s.min_start_time;
        max_end_time = s.max_end_time;
        span_count = s.total_spans;
        error_span_count = s.total_errors;
        orphan_span_count = s.orphan_spans;
        services = by_name (service_summaries s.services);
      }
