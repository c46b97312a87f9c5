-- ===== src/QueryService/Counts.antt =====
-- What summarizeTrace counts.
use jaeger.Prelude.{
  arith, ℕ, suc, ◌+◌, String, List, [], ◌∷◌, Bool, false, ◌&&◌, ◌||◌, some, if◌then◌else◌, ◌==◌,
  nat_eq, string_eq, ==_iff, ◌≡◌, refl, ◌∙◌, length, inl, inr, Bool-cases,
}
use jaeger.Prelude.Int.{ℤ}
use jaeger.Prelude.Map.{Map, lookup, insert, lookup-insert}
use jaeger.Otlp.{Place, Span, Traces, ValueText}
use jaeger.Jptrace.Spans.{span_iter}
use jaeger.Memory.Match.{is_error}
use jaeger.Memory.Clock.{before, is_zero}
use jaeger.QueryService.Summary.{
  ServiceStats, SummaryState, TraceSummary, ServiceSummary, stats_of, count, empty_state,
  service_of, count_service, widen, note_root, is_orphan, note_parent, add_span, add_spans,
  service_summaries, summarize_trace,
}

abbrev pub count_if : (Place × Span → Bool) → List (Place × Span) → ℕ
count_if f [] = 0
count_if f (x ∷ xs) = count (f x) (count_if f xs)

zero_plus : (n : ℕ) → 0 + n ≡ n
zero_plus n = omega arith

plus_zero : (n : ℕ) → n + 0 ≡ n
plus_zero n = omega arith

count_plus : (b : Bool) (m n : ℕ) → count b m + n ≡ m + count b n
count_plus b m n = ground arith

-- What a list of summaries says of a name.
abbrev pub found : String → List ServiceSummary → ServiceStats
found name [] = record { spans = 0; errors = 0 }
found name (t ∷ ts) =
    let rest = found name ts in
    if t.name == name then record { spans = t.span_count; errors = t.error_span_count } else rest

abbrev tally : String → Bool → Map String ServiceStats → ServiceStats
tally key f m = record {
  spans = suc (stats_of (lookup key m)).spans;
  errors = count f (stats_of (lookup key m)).errors;
}

tally-lookup :
    (key name : String) (f : Bool) (m : Map String ServiceStats)
    → stats_of (lookup name (insert key (tally key f m) m)) ≡ record {
      spans = count (key == name) (stats_of (lookup name m)).spans;
      errors = count (key == name && f) (stats_of (lookup name m)).errors;
    }
tally-lookup key name f m = elim (Bool-cases (key == name)) [
  | inl e ↦ rw (lookup-insert key name (tally key f m) m, e, (==_iff key name).0 e) refl
  | inr e ↦ rw (lookup-insert key name (tally key f m) m, e) refl
]

module _ (text : ValueText) (as_time : ℕ → ℤ) where
  -- The spans that a service has, and those of them that failed.
  abbrev pub of_service : String → Place × Span → Bool
  of_service name (p, x) = service_of text as_time p.resource == name

  abbrev pub failed : Place × Span → Bool
  failed (p, x) = is_error x.status_code

  abbrev pub orphan : List (Place × Span) → Place × Span → Bool
  orphan all (p, x) = is_orphan text as_time all x

  abbrev stats : String → SummaryState → ServiceStats
  stats name s = stats_of (lookup name s.services)

  -- A state whose counts are those of another, with some more orphans.
  record IsCounted (s : SummaryState) (more : Bool) (r : SummaryState) : Type 0 where
    total : r.total_spans ≡ s.total_spans
    errors : r.total_errors ≡ s.total_errors
    services : r.services ≡ s.services
    orphans : r.orphan_spans ≡ count more s.orphan_spans

  IsCounted-same : (s : SummaryState) → IsCounted s false s
  IsCounted-same s = record { total = refl; errors = refl; services = refl; orphans = refl }

  note_root-IsCounted :
      (name : String) (x : Span) (s : SummaryState)
      → IsCounted s false (note_root text as_time name x s)
  unfolding note_root
  note_root-IsCounted name x s =
      elim (Bool-cases (
        is_zero s.root_start_time || before (some (as_time x.start_timestamp)) s.root_start_time)) [
          | inl e ↦
              rw (note_root, e)
                (record { total = refl; errors = refl; services = refl; orphans = refl })
          | inr e ↦ rw (note_root, e) (IsCounted-same s)
        ]

  note_parent-IsCounted :
      (all : List (Place × Span)) (name : String) (x : Span) (s : SummaryState)
      → IsCounted s (is_orphan text as_time all x) (note_parent text as_time all name x s)
  unfolding note_parent
  note_parent-IsCounted all name x s = elim (Bool-cases (x.parent_span_id == 0)) [
    | inl e ↦ rw (note_parent, e) (note_root-IsCounted name x s)
    | inr e ↦
        rw (note_parent, e)
          (record { total = refl; errors = refl; services = refl; orphans = refl })
  ]

  -- The list of the services says what the map says.
  found-service_summaries :
      (name : String) (m : Map String ServiceStats)
      → found name (service_summaries text as_time m) ≡ stats_of (lookup name m)
  unfolding lookup
  found-service_summaries name [] = refl
  found-service_summaries name ((n, s) ∷ m) = elim (Bool-cases (n == name)) [
    | inl e ↦ rw e refl
    | inr e ↦ rw e (found-service_summaries name m)
  ]

  -- What one span adds to the counts.
  abbrev counted : Place × Span → SummaryState → SummaryState
  counted (p, x) s =
      widen text as_time (some (as_time x.start_timestamp)) (some (as_time x.end_timestamp))
        (count_service text as_time (service_of text as_time p.resource) (failed (p, x)) s)

  add_span-IsCounted :
      (all : List (Place × Span)) (x : Place × Span) (s : SummaryState)
      → IsCounted (counted x s) (orphan all x) (add_span text as_time all x s)
  unfolding add_span
  add_span-IsCounted all (p, x) s =
      note_parent-IsCounted all (service_of text as_time p.resource) x (counted (p, x) s)

  counted-stats :
      (name : String) (x : Place × Span) (s : SummaryState)
      → stats name (counted x s) ≡ record {
        spans = count (of_service name x) (stats name s).spans;
        errors = count (of_service name x && failed x) (stats name s).errors;
      }
  unfolding count_service widen
  counted-stats name (p, x) s =
      tally-lookup (service_of text as_time p.resource) name (failed (p, x)) s.services

  -- The counts of the spans of a list, on top of what there was.
  add_spans-total :
      (all xs : List (Place × Span)) (s : SummaryState)
      → (add_spans text as_time all xs s).total_spans ≡ s.total_spans + length xs
  unfolding add_spans count_service widen
  add_spans-total all [] s = omega arith
  add_spans-total all (x ∷ xs) s =
      let k = add_span-IsCounted all x s in
      let ih = add_spans-total all xs (add_span text as_time all x s) in
      ih ∙ rw k.total (omega arith)

  add_spans-errors :
      (all xs : List (Place × Span)) (s : SummaryState)
      → (add_spans text as_time all xs s).total_errors ≡ s.total_errors + count_if failed xs
  unfolding add_spans count_service widen
  add_spans-errors all [] s = omega arith
  add_spans-errors all (x ∷ xs) s =
      let k = add_span-IsCounted all x s in
      add_spans-errors all xs (add_span text as_time all x s)
      ∙ rw k.errors (count_plus (failed x) s.total_errors (count_if failed xs))

  add_spans-orphans :
      (all xs : List (Place × Span)) (s : SummaryState)
      → (add_spans text as_time all xs s).orphan_spans ≡ s.orphan_spans + count_if (orphan all) xs
  unfolding add_spans count_service widen
  add_spans-orphans all [] s = omega arith
  add_spans-orphans all (x ∷ xs) s =
      let k = add_span-IsCounted all x s in
      add_spans-orphans all xs (add_span text as_time all x s)
      ∙ rw k.orphans (count_plus (orphan all x) s.orphan_spans (count_if (orphan all) xs))

  abbrev pub failed_of : String → Place × Span → Bool
  failed_of name x = of_service name x && failed x

  abbrev plus : ServiceStats → ℕ → ℕ → ServiceStats
  plus s m n = record { spans = s.spans + m; errors = s.errors + n }

  add_spans-services :
      (name : String) (all xs : List (Place × Span)) (s : SummaryState)
      → stats name (add_spans text as_time all xs s)
        ≡ plus (stats name s) (count_if (of_service name) xs) (count_if (failed_of name) xs)
  unfolding add_spans
  add_spans-services name all [] s =
      rw (plus_zero (stats name s).spans, plus_zero (stats name s).errors) refl
  add_spans-services name all (x ∷ xs) s =
      let k = add_span-IsCounted all x s in
      add_spans-services name all xs (add_span text as_time all x s)
      ∙ rw
          (
            k.services,
            counted-stats name x s,
            count_plus (of_service name x) (stats name s).spans (count_if (of_service name) xs),
            count_plus (failed_of name x) (stats name s).errors (count_if (failed_of name) xs),
          )
          refl

  -- The counts of a summary of some spans, before the services are put in order.
  pub record IsSummary (xs : List (Place × Span)) (t : TraceSummary)
      (by_name : List ServiceSummary → List ServiceSummary) : Type 0 where
    pub spans : t.span_count ≡ length xs
    pub errors : t.error_span_count ≡ count_if failed xs
    pub orphans : t.orphan_span_count ≡ count_if (orphan xs) xs
    pub listed : List ServiceSummary
    pub ordered : t.services ≡ by_name listed
    pub services :
        (name : String)
        → found name listed
          ≡ record { spans = count_if (of_service name) xs; errors = count_if (failed_of name) xs }

  -- The summary of a trace counts all its spans, those that failed, and those whose parent is not
  -- in the trace; and under each name of a service its spans and those of them that failed.
  pub summarize_trace-IsSummary :
      (by_name : List ServiceSummary → List ServiceSummary) (traces : Traces)
      → IsSummary (span_iter traces) (summarize_trace text as_time by_name traces) by_name
  unfolding summarize_trace lookup
  summarize_trace-IsSummary by_name traces =
      let xs = span_iter traces in
      let s = add_spans text as_time xs xs empty_state in
      record {
        spans = add_spans-total xs xs empty_state ∙ zero_plus (length xs);
        errors = add_spans-errors xs xs empty_state ∙ zero_plus (count_if failed xs);
        orphans = add_spans-orphans xs xs empty_state ∙ zero_plus (count_if (orphan xs) xs);
        listed = service_summaries text as_time s.services;
        ordered = refl;
        services = λ name.
            found-service_summaries name s.services
            ∙ add_spans-services name xs xs empty_state
            ∙ rw
                (
                  zero_plus (count_if (of_service name) xs),
                  zero_plus (count_if (failed_of name) xs),
                )
                refl;
      }
