-- ===== src/CriticalPath/Sanitize.antt =====
-- sanitize.go. The order in which Go ranges over the map is open, so it is the argument `order`.
use jaeger.Prelude.{ℕ, List, [], ◌∷◌, none, some, nat_eq, ◌==◌, leb, ltb, if◌then◌else◌}
use jaeger.Prelude.Map.{lookup, insert, erase}
use jaeger.Prelude.Words.{add64, sub64}
use jaeger.CriticalPath.Spans.{CpSpan, SpanMap}

abbrev pub end_time : CpSpan → ℕ
end_time s = add64 s.start_time s.duration

-- The loop over `parentSpan.ChildSpanIDs`.
unfoldable pub without : ℕ → List ℕ → List ℕ
without id [] = []
without id (c ∷ cs) = let rest = without id cs in if c == id then rest else c ∷ rest

-- `delete(spanMap, span.SpanID)`, with the parent's list of children filtered.
unfoldable pub drop_child : CpSpan → CpSpan → SpanMap → SpanMap
unfolding without insert erase
drop_child span parent m =
    insert parent.span_id
      (record parent { child_span_ids = without span.span_id parent.child_span_ids })
      (erase span.span_id m)

-- The body of the loop for a span whose parent is in the map.
unfoldable pub fit_child : CpSpan → CpSpan → SpanMap → SpanMap
unfolding drop_child insert
fit_child span parent m =
    let child_end = end_time span in
    let parent_end = end_time parent in
    if leb parent.start_time span.start_time
    then (if leb parent_end span.start_time
        then drop_child span parent m
        else if ltb parent_end child_end
        then insert span.span_id (record span { duration = sub64 parent_end span.start_time }) m
        else m)
    else if leb child_end parent.start_time
    then drop_child span parent m
    else if leb child_end parent_end
    then insert span.span_id
        (record span {
          start_time = parent.start_time;
          duration = sub64 child_end parent.start_time;
        })
        m
    else insert span.span_id
        (record span {
          start_time = parent.start_time;
          duration = sub64 parent_end parent.start_time;
        })
        m

unfoldable pub fit_span : SpanMap → CpSpan → SpanMap
unfolding fit_child lookup erase
fit_span m span = if span.parent_span_id == 0 then m else elim (lookup span.parent_span_id m) [
  | none ↦ erase span.span_id m
  | some parent ↦ fit_child span parent m
]

-- One round of the loop over the span IDs.
unfoldable pub fit_id : ℕ → SpanMap → SpanMap
unfolding fit_span lookup
fit_id id m = elim (lookup id m) [ none ↦ m | some span ↦ fit_span m span ]

-- removeOverflowingChildren
unfoldable pub remove_overflowing_children : List ℕ → SpanMap → SpanMap
unfolding fit_id
remove_overflowing_children [] m = m
remove_overflowing_children (id ∷ order) m = remove_overflowing_children order (fit_id id m)
