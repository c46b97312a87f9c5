-- ===== src/Jptrace/Aggregator/Stream.antt =====
-- markTraceTruncated, AggregateTracesWithLimit and AggregateTraces of
-- internal/jptrace/aggregator.go.
-- The consumer's `yield` is a decision on all that it has been given so far; the input sequence is
-- the list of what it would yield, and stops where the callback returns false.
use Prim.Native.String.{◌++◌ as str_append}
use mathlib.Core.Option
use mathlib.Core.Option.{get_or}
use jaeger.Prelude.{
  ℕ, String, Option, none, some, Bool, true, false, not, ◌&&◌, List, [], ◌∷◌, ◌++◌, ltb, nat_eq,
  ◌==◌, if◌then◌else◌,
}
use jaeger.Prelude.Int.{ℤ, pos, pos_part, leb_ℤ}
use jaeger.Otlp.{Traces, Span, ScopeSpans, ResourceSpans, ValueText}
use jaeger.Jptrace.Decimal.{decimal}
use jaeger.Jptrace.Spans.{span_count, get_trace_id}
use jaeger.Jptrace.Warning.{add_warnings}
use jaeger.Jptrace.Aggregator.Copy.{
  Merged, copy_spans_up_to_limit, merge_traces_with_limit, positive,
}

-- Changes the first element that `f` accepts.
unfoldable pub update_first {ℓ} : {A : Type ℓ} → (A → Option A) → List A → Option (List A)
update_first f [] = none
update_first f (x ∷ xs) =
    let rest = update_first f xs in
    elim (f x) [ some x' ↦ some (x' ∷ xs) | none ↦ Option.map (◌∷◌ x) rest ]

unfoldable pub truncation_warning : ℕ → String
unfolding decimal
truncation_warning n =
    str_append (str_append (str_append "trace has more than " (decimal n)) " spans, showing first ")
      (str_append (decimal n) " spans only")

-- What one call of the consumer is given.
pub data Emitted (E : Type 0) : Type 0 where
  whole : Traces → Emitted E
  failed : E → Emitted E

-- What one step of the input sequence gives.
pub data Batch (E : Type 0) : Type 0 where
  chunk : List Traces → Batch E
  failed : E → Batch E

-- The variables that the callback of AggregateTracesWithLimit captures, with what was emitted.
pub record State (E : Type 0) : Type 0 where
  pub current_trace : Traces
  pub current_trace_id : ℕ
  pub current_span_count : ℕ
  pub current_truncated : Bool
  pub cont : Bool
  pub out : List (Emitted E)

abbrev pub initial : {E : Type 0} → State E
initial = record {
  current_trace = [];
  current_trace_id = 0;
  current_span_count = 0;
  current_truncated = false;
  cont = true;
  out = [];
}

module _ (text : ValueText) where
  unfoldable pub mark_span : ℕ → Span → Option Span
  unfolding truncation_warning
  mark_span n x = some (add_warnings text x (truncation_warning n ∷ []))

  unfoldable pub mark_scope : ℕ → ScopeSpans → Option ScopeSpans
  unfolding update_first mark_span
  mark_scope n s = Option.map (λ xs. record s { spans = xs }) (update_first (mark_span n) s.spans)

  unfoldable pub mark_resource : ℕ → ResourceSpans → Option ResourceSpans
  unfolding update_first mark_scope
  mark_resource n r =
      Option.map (λ ss. record r { scope_spans = ss }) (update_first (mark_scope n) r.scope_spans)

  -- markTraceTruncated: the first span that SpanIter meets is changed.
  unfoldable pub mark_trace_truncated : Traces → ℕ → Traces
  unfolding update_first mark_resource
  mark_trace_truncated traces n = get_or (update_first (mark_resource n) traces) traces

  module _ {E : Type 0} (yield : List (Emitted E) → Bool) (max_size : ℤ) where
    -- `yield(currentTrace, nil)`: the new state, and what the consumer answered.
    unfoldable pub emit : Emitted E → State E → State E × Bool
    emit e st = let out = st.out ++ e ∷ [] in (record st { out = out }, yield out)

    -- What the callback does with the answer of mergeTracesWithLimit.
    unfoldable pub keep_merged : Merged → State E → State E
    unfolding mark_trace_truncated
    keep_merged m st =
        if m.truncated && not st.current_truncated
        then record st {
          current_trace = mark_trace_truncated m.dest (pos_part max_size);
          current_span_count = m.count;
          current_truncated = true;
        }
        else record st { current_trace = m.dest; current_span_count = m.count }

    -- The branch of the callback for a part of the current trace.
    unfoldable pub merge_part : Traces → ℕ → State E → State E
    unfolding merge_traces_with_limit keep_merged
    merge_part t n st =
        keep_merged (merge_traces_with_limit st.current_trace st.current_span_count t n max_size) st

    -- The other branch, once the trace before it is emitted.
    unfoldable pub start_trace : Traces → ℕ → ℕ → State E → State E
    unfolding copy_spans_up_to_limit mark_trace_truncated
    start_trace trace n id st =
        if positive max_size && not (leb_ℤ (pos n) max_size)
        then record st {
          current_trace_id = id;
          current_trace =
              mark_trace_truncated (copy_spans_up_to_limit [] trace (pos_part max_size))
                (pos_part max_size);
          current_span_count = pos_part max_size;
          current_truncated = true;
        }
        else record st {
          current_trace_id = id;
          current_trace = trace;
          current_span_count = n;
          current_truncated = false;
        }

    -- `if currentSpanCount > 0 { if !yield(currentTrace, nil) { cont = false; return false } }`
    unfoldable pub flush : State E → State E × Bool
    unfolding emit
    flush st =
        if ltb 0 st.current_span_count
        then (let (st', more) = emit (Emitted.whole st.current_trace) st in
            if more then (st', true) else (record st' { cont = false }, false))
        else (st, true)

    -- One round of the loop over the traces of a batch, given `trace.SpanCount()` and
    -- `GetTraceID(trace)`; `false` is `return false`.
    unfoldable pub add_part : Traces → ℕ → ℕ → State E → State E × Bool
    add_part t n id st =
        if n == 0
        then (st, true)
        else if st.current_trace_id == id
        then (merge_part t n st, true)
        else let (st', more) = flush st in
          if more then (start_trace t n id st', true) else (st', false)

    unfoldable pub add_trace : Traces → State E → State E × Bool
    unfolding add_part merge_part start_trace flush span_count get_trace_id
    add_trace t = add_part t (span_count t) (get_trace_id t)

    unfoldable pub add_traces : List Traces → State E → State E × Bool
    unfolding add_trace
    add_traces [] st = (st, true)
    add_traces (t ∷ ts) st =
        let (st', more) = add_trace t st in
        let rest = add_traces ts st' in if more then rest else (st', false)

    -- The callback that the input sequence is run with.
    unfoldable pub callback : Batch E → State E → State E × Bool
    unfolding add_traces emit
    callback (chunk ts) st = add_traces ts st
    callback (failed err) st =
        let (st', more) = emit (Emitted.failed err) st in (record st' { cont = more }, false)

    unfoldable pub run_seq : List (Batch E) → State E → State E
    unfolding callback
    run_seq [] st = st
    run_seq (b ∷ bs) st =
        let (st', more) = callback b st in let rest = run_seq bs st' in if more then rest else st'

    -- AggregateTracesWithLimit: all that the consumer is given.
    unfoldable pub aggregate_traces_with_limit : List (Batch E) → List (Emitted E)
    unfolding run_seq
    aggregate_traces_with_limit seq =
        let st = run_seq seq initial in
        if st.cont && ltb 0 st.current_span_count
        then st.out ++ Emitted.whole st.current_trace ∷ []
        else st.out

-- AggregateTraces
unfoldable pub aggregate_traces :
    (text : ValueText) {E : Type 0} → (List (Emitted E) → Bool) → List (Batch E) → List (Emitted E)
unfolding aggregate_traces_with_limit
aggregate_traces text yield seq = aggregate_traces_with_limit text yield (pos 0) seq
