-- ===== src/CriticalPath/Spans.antt =====
-- cpspan.go: the spans as the critical path computation reads them, times in microseconds.
-- `flatten` lists the spans in the order in which the three nested loops visit them.
use jaeger.Prelude.{ℕ, ◌/◌, List, [], ◌∷◌, ◌++◌, map, none, some, nat_eq, ◌==◌, if◌then◌else◌}
use jaeger.Prelude.Map.{Map, lookup, insert}
use jaeger.Prelude.Words.{sub64}
use jaeger.Otlp.{Span, Traces, flatten}

pub record CpSpan : Type 0 where
  pub span_id : ℕ
  pub parent_span_id : ℕ
  pub start_time : ℕ
  pub duration : ℕ
  pub child_span_ids : List ℕ

abbrev pub SpanMap : Type 0
SpanMap = Map ℕ CpSpan

-- CreateCPSpan
unfoldable pub create_cp_span : Span → List ℕ → CpSpan
create_cp_span x child_span_ids = record {
  span_id = x.span_id;
  parent_span_id = x.parent_span_id;
  start_time = x.start_timestamp / 1000;
  duration = sub64 x.end_timestamp x.start_timestamp / 1000;
  child_span_ids = child_span_ids;
}

abbrev pub spans_of : Traces → List Span
spans_of traces = map (λ e. e.1) (flatten traces)

-- A read of a missing key gives Go's nil slice.
unfoldable pub children_of : ℕ → Map ℕ (List ℕ) → List ℕ
unfolding lookup
children_of k m = elim (lookup k m) [ none ↦ [] | some ids ↦ ids ]

-- The first pass of CreateCPSpanMap.
unfoldable pub build_children_map : List Span → Map ℕ (List ℕ) → Map ℕ (List ℕ)
unfolding children_of insert
build_children_map [] m = m
build_children_map (x ∷ xs) m = build_children_map xs (
    if x.parent_span_id == 0
    then m
    else insert x.parent_span_id (children_of x.parent_span_id m ++ x.span_id ∷ []) m)

-- The second pass.
unfoldable pub build_span_map : Map ℕ (List ℕ) → List Span → SpanMap → SpanMap
unfolding create_cp_span children_of insert
build_span_map children [] m = m
build_span_map children (x ∷ xs) m =
    build_span_map children xs
      (insert x.span_id (create_cp_span x (children_of x.span_id children)) m)

-- CreateCPSpanMap
unfoldable pub create_cp_span_map : Traces → SpanMap
unfolding build_children_map build_span_map
create_cp_span_map traces =
    let xs = spans_of traces in build_span_map (build_children_map xs []) xs []
