-- ===== src/Tests/Query.antt =====
-- Tests of the archive and the summaries of the query service.
use jaeger.Prelude.{ℕ, List, [], ◌∷◌, ◌++◌, Option, some, ◌≡◌, ok, err}
use jaeger.Prelude.Int.{pos}
use jaeger.Otlp.{Traces}
use jaeger.Jptrace.Spans.{span_iter}
use jaeger.QueryService.Archive.{Archived, archive_trace}
use jaeger.QueryService.Writes.{archive_trace-writes}
use jaeger.QueryService.Summary.{summarize_trace}
use jaeger.QueryService.Counts.{IsSummary, summarize_trace-IsSummary}
use jaeger.Tests.Data.{text, span, one_resource}

abbrev two : Traces
two = one_resource (span 1 1 0 1 9 ∷ span 1 2 7 3 4 ∷ [])

-- An archive that keeps all traces and always fails.
abbrev write : Traces → List Traces → List Traces × Option ℕ
write t ts = (ts ++ t ∷ [], some 5)

archive_trace-writes_example :
    archive_trace (some write) (ok (two ∷ []) ∷ err 7 ∷ ok (two ∷ []) ∷ []) []
    ≡ (two ∷ [], Archived.failed (7 ∷ []))
archive_trace-writes_example =
    archive_trace-writes write (ok (two ∷ []) ∷ err 7 ∷ ok (two ∷ []) ∷ []) []

summarize_trace-IsSummary_example :
    IsSummary text pos (span_iter two) (summarize_trace text pos (λ ts. ts) two) (λ ts. ts)
summarize_trace-IsSummary_example = summarize_trace-IsSummary text pos (λ ts. ts) two
