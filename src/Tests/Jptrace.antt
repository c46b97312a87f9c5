-- ===== src/Tests/Jptrace.antt =====
-- Tests of the modules below Jptrace.
use jaeger.Prelude.{ℕ, ◌≡◌, refl, Bool, true, some, List, [], ◌∷◌, ◌++◌, map, take}
use jaeger.Prelude.Int.{pos}
use jaeger.Prelude.Map.{lookup, insert}
use jaeger.Otlp.{Span, Traces, flatten, flat, Value}
use jaeger.Jptrace.Warning.{
  warnings_attribute, add_warnings, get_warnings, warnings_or_nil, get_warnings-add_warnings,
}
use jaeger.Jptrace.Aggregator.Copy.{copy_spans_up_to_limit}
use jaeger.Jptrace.Aggregator.CopyLaws.{flatten-copy_spans_up_to_limit}
use jaeger.Jptrace.Aggregator.Stream.{
  Emitted, chunk, failed, aggregate_traces_with_limit, mark_trace_truncated,
}
use jaeger.Jptrace.Aggregator.Groups.{groups, mark_head, flatten-mark_trace_truncated}
use jaeger.Jptrace.Aggregator.Steps.{Emits}
use jaeger.Jptrace.Aggregator.Result.{aggregate-groups}
use jaeger.Jptrace.Aggregator.Protocol.{Polite, aggregate-Polite}
use jaeger.Tests.Data.{text, span, one_resource}

abbrev warned : Span
warned = record (span 1 1 0 0 9) { attributes = (warnings_attribute, Value.str "old") ∷ [] }

get_warnings-add_warnings_example :
    get_warnings text (add_warnings text warned ("new" ∷ []))
    ≡ some (warnings_or_nil text (get_warnings text warned) ++ "new" ∷ [])
get_warnings-add_warnings_example = get_warnings-add_warnings text warned ("new" ∷ [])

warnings_run : get_warnings text (add_warnings text warned ("new" ∷ [])) ≡ some ("old" ∷ "new" ∷ [])
unfolding get_warnings add_warnings lookup insert
warnings_run = refl

abbrev part_1 : Traces
part_1 = one_resource (span 1 1 0 0 9 ∷ span 1 2 1 1 8 ∷ [])

abbrev part_2 : Traces
part_2 = one_resource (span 1 3 1 2 7 ∷ span 1 4 1 3 6 ∷ [])

abbrev other : Traces
other = one_resource (span 2 5 0 0 1 ∷ [])

abbrev chunks : List (List Traces)
chunks = (part_1 ∷ []) ∷ (part_2 ∷ [] ∷ other ∷ []) ∷ []

abbrev accept : List (Emitted ℕ) → Bool
accept _ = true

flatten-copy_spans_up_to_limit_example :
    flatten (copy_spans_up_to_limit part_1 part_2 1) ≡ flatten part_1 ++ take 1 (flatten part_2)
flatten-copy_spans_up_to_limit_example = flatten-copy_spans_up_to_limit part_1 part_2 1

flatten-mark_trace_truncated_example :
    flatten (mark_trace_truncated text part_1 3) ≡ mark_head text 3 (flatten part_1)
flatten-mark_trace_truncated_example = flatten-mark_trace_truncated text part_1 3

aggregate-groups_example :
    Emits text
      (pos 3)
      (aggregate_traces_with_limit text accept (pos 3) (map chunk chunks))
      (groups (flat (map flatten) chunks))
aggregate-groups_example = aggregate-groups text (pos 3) accept (λ out. refl) chunks

-- The consumer stops after the first trace.
abbrev accept_none : List (Emitted ℕ) → Bool
accept_none _ = Bool.false

aggregate-Polite_example : Polite accept_none (
    aggregate_traces_with_limit text accept_none
      (pos 3)
      (chunk (part_1 ∷ other ∷ []) ∷ failed 7 ∷ []))
aggregate-Polite_example =
    aggregate-Polite accept_none text (pos 3) (chunk (part_1 ∷ other ∷ []) ∷ failed 7 ∷ [])

aggregate_stops :
    aggregate_traces_with_limit text accept_none
      (pos 3)
      (chunk (part_1 ∷ other ∷ []) ∷ failed 7 ∷ [])
    ≡ Emitted.whole part_1 ∷ []
unfolding aggregate_traces_with_limit
aggregate_stops = refl
