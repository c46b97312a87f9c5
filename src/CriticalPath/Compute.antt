-- ===== src/CriticalPath/Compute.antt =====
-- find_lfc.go and criticalpath.go. The recursion takes fuel, since it need not end (`Diverges`);
-- `none` means that the fuel ran out. `show_id` stands for pdata's SpanID.String.
use jaeger.Prelude.{
  ℕ, zero, suc, String, List, [], ◌∷◌, ◌++◌, Option, none, some, nat_eq, ◌==◌, leb, ltb, Bool, ◌&&◌,
  if◌then◌else◌,
}
use jaeger.Prelude.Map.{lookup}
use jaeger.Otlp.{Span, Traces}
use jaeger.CriticalPath.Spans.{CpSpan, SpanMap, spans_of, create_cp_span_map}
use jaeger.CriticalPath.Sanitize.{end_time, remove_overflowing_children}

-- The variables of the loop of findLastFinishingChildSpan.
pub record Latest : Type 0 where
  pub span : Option CpSpan
  pub max_end_time : ℕ

-- Whether a child may be taken, given `returningChildStartTime`.
unfoldable pub before_return : Option ℕ → CpSpan → Bool
before_return none c = Bool.true
before_return (some r) c = ltb c.start_time r && leb (end_time c) r

unfoldable pub consider : SpanMap → Option ℕ → ℕ → Latest → Latest
unfolding lookup before_return
consider m ret id best = elim (lookup id m) [
  | none ↦ best
  | some c ↦
      if before_return ret c && ltb best.max_end_time (end_time c)
      then record { span = some c; max_end_time = end_time c }
      else best
]

unfoldable pub latest_of : SpanMap → Option ℕ → List ℕ → Latest → Latest
unfolding consider
latest_of m ret [] best = best
latest_of m ret (id ∷ ids) best = latest_of m ret ids (consider m ret id best)

-- findLastFinishingChildSpan
unfoldable pub find_last_finishing_child_span : SpanMap → CpSpan → Option ℕ → Option CpSpan
unfolding latest_of
find_last_finishing_child_span m s ret =
    (latest_of m ret s.child_span_ids (record { span = none; max_end_time = 0 })).span

pub record Section : Type 0 where
  pub span_id : String
  pub section_start : ℕ
  pub section_end : ℕ

-- A section of no length is left out.
unfoldable pub add_section : Section → List Section → List Section
add_section x path = if x.section_start == x.section_end then path else path ++ x ∷ []

-- `endTime` of both branches.
unfoldable pub section_limit : CpSpan → Option ℕ → ℕ
section_limit s none = end_time s
section_limit s (some r) = r

pub data Outcome : Type 0 where
  no_root_span empty_trace : Outcome
  critical_path : List Section → Outcome

-- The loops that look for the first span without a parent.
unfoldable pub find_root : List Span → Option ℕ
find_root [] = none
find_root (x ∷ xs) =
    let rest = find_root xs in if x.parent_span_id == 0 then some x.span_id else rest

-- `len(spanMap) == 0`
unfoldable pub is_empty : SpanMap → Bool
is_empty [] = Bool.true
is_empty (_ ∷ _) = Bool.false

module _ (show_id : ℕ → String) where
  -- computeCriticalPath
  unfoldable pub compute_critical_path :
      ℕ → SpanMap → ℕ → List Section → Option ℕ → Option (List Section)
  unfolding lookup find_last_finishing_child_span add_section section_limit
  compute_critical_path zero m id path ret = none
  compute_critical_path (suc fuel) m id path ret = elim (lookup id m) [
    | none ↦ some path
    | some s ↦ elim (find_last_finishing_child_span m s ret) [
      | some c ↦
          compute_critical_path fuel m c.span_id
            (add_section
              (record {
                span_id = show_id s.span_id;
                section_start = end_time c;
                section_end = section_limit s ret;
              })
              path)
            none
      | none ↦
          let path' =
            add_section
              (record {
                span_id = show_id s.span_id;
                section_start = s.start_time;
                section_end = section_limit s ret;
              })
              path in
          let up = compute_critical_path fuel m s.parent_span_id path' (some s.start_time) in
          if s.parent_span_id == 0 then some path' else up
    ]
  ]

  -- ComputeCriticalPathFromTraces
  unfoldable pub compute_critical_path_from_traces : ℕ → List ℕ → Traces → Option Outcome
  unfolding find_root is_empty create_cp_span_map remove_overflowing_children compute_critical_path
  compute_critical_path_from_traces fuel order traces = elim (find_root (spans_of traces)) [
    | none ↦ some no_root_span
    | some root ↦
        let m = create_cp_span_map traces in
        let path = compute_critical_path fuel (remove_overflowing_children order m) root [] none in
        if is_empty m
        then some empty_trace
        else elim path [ none ↦ none | some sections ↦ some (critical_path sections) ]
  ]
