-- ===== src/Jptrace/Aggregator/Tracks.antt =====
-- The current trace of AggregateTracesWithLimit, as the group of spans that it stands for.
use jaeger.Prelude.{
  ℕ, zero, suc, ◌-◌, ◌<◌, ◌≡◌, refl, sym, ◌∙◌, ap, Bool, true, false, not, ◌&&◌, List, [], ◌∷◌,
  ◌++◌, append-nil, arith, length, take, length-take, take-append, length-append, Bool-cases, inl,
  inr, nat_eq,
}
use jaeger.Prelude.Int.{ℤ, pos, negsuc, pos_part, leb_ℤ}
use jaeger.Otlp.{Traces, flatten, ValueText}
use jaeger.Jptrace.Spans.{first_trace_id}
use jaeger.Jptrace.Aggregator.Copy.{
  Merged, positive, copy_spans_up_to_limit, merge_traces_with_limit,
}
use jaeger.Jptrace.Aggregator.CopyLaws.{flatten-copy_spans_up_to_limit}
use jaeger.Jptrace.Aggregator.Merge.{Room, kept, merge-full, merge-Room}
use jaeger.Jptrace.Aggregator.Stream.{
  keep_merged, mark_trace_truncated, State, Emitted, merge_part, start_trace,
}
use jaeger.Jptrace.Aggregator.Groups.{
  Spans, exceeds, mark_head, length-mark_head, cut, flatten-mark_trace_truncated,
}

-- A group over the limit stays over it, and its first spans stay what they are.
exceeds-append : (m : ℤ) (g p : Spans) → exceeds m g ≡ true → exceeds m (g ++ p) ≡ true
unfolding exceeds
exceeds-append (pos (suc k)) g p h = ground (arith, length-append g p)
exceeds-append (pos zero) g p h = absurd (ground arith)
exceeds-append (negsuc k) g p h = absurd (ground arith)

exceeds-lt : (m : ℤ) (g : Spans) → exceeds m g ≡ true → (0 < pos_part m) × (pos_part m < length g)
unfolding exceeds
exceeds-lt (pos (suc k)) g h = ground arith
exceeds-lt (pos zero) g h = absurd (ground arith)
exceeds-lt (negsuc k) g h = absurd (ground arith)

take-append_exceeds :
    (m : ℤ) (g p : Spans) → exceeds m g ≡ true → take (pos_part m) (g ++ p) ≡ take (pos_part m) g
take-append_exceeds m g p h =
    let e : pos_part m - length g ≡ 0 = omega (arith, exceeds-lt m g h) in
    rw (take-append (pos_part m) g p, e, append-nil) refl

first_trace_id-append :
    (g p : Spans) → first_trace_id g ≡ first_trace_id p → first_trace_id (g ++ p) ≡ first_trace_id g
unfolding first_trace_id
first_trace_id-append [] p h = sym h
first_trace_id-append (x ∷ xs) p h = refl

module _ (text : ValueText) (m : ℤ) where
  length-cut : (g : Spans) → length (cut text m g) ≡ length (kept m g)
  unfolding cut
  length-cut g = elim (Bool-cases (exceeds m g)) [
    | inl over ↦ rw over (length-mark_head text (pos_part m) (take (pos_part m) g))
    | inr within ↦ rw within refl
  ]

  cut_over :
      (g : Spans)
      → exceeds m g ≡ true
      → cut text m g ≡ mark_head text (pos_part m) (take (pos_part m) g)
  unfolding cut
  cut_over g h = rw h refl

  pub cut_within : (g : Spans) → exceeds m g ≡ false → cut text m g ≡ g
  unfolding cut
  cut_within g h = rw h refl

  cut-append : (g p : Spans) → exceeds m g ≡ true → cut text m (g ++ p) ≡ cut text m g
  cut-append g p h =
      rw (cut_over (g ++ p) (exceeds-append m g p h), cut_over g h, take-append_exceeds m g p h)
        refl

  pub cut-pos : (g : Spans) → 0 < length g → 0 < length (cut text m g)
  cut-pos g h = elim (Bool-cases (exceeds m g)) [
    | inl over ↦
        rw (cut_over g over, length-mark_head)
          (omega (arith, exceeds-lt m g over, length-take (pos_part m) g))
    | inr within ↦ rw (cut_within g within) h
  ]

  -- The current trace holds the group `acc`, cut to the limit.
  pub record Tracks {E : Type 0} (st : State E) (acc : Spans) : Type 0 where
    pub id : st.current_trace_id ≡ first_trace_id acc
    pub flat : flatten st.current_trace ≡ cut text m acc
    pub count : st.current_span_count ≡ length (cut text m acc)
    pub truncated : st.current_truncated ≡ exceeds m acc

  module _ {E : Type 0} (yield : List (Emitted E) → Bool) where
    keep_merged-Tracks :
        (r : Merged) (st : State E) (g : Spans)
        → st.current_trace_id ≡ first_trace_id g
        → st.current_truncated ≡ false
        → Room m g r
        → Tracks (keep_merged text yield m r st) g
    unfolding keep_merged
    keep_merged-Tracks r st g same fresh h = elim (Bool-cases (exceeds m g)) [
      | inl over ↦
          rw (h.truncated, over, fresh)
            (record {
              id = same;
              flat = rw (flatten-mark_trace_truncated, h.flat, over, cut_over g over) refl;
              count = h.count ∙ sym (length-cut g);
              truncated = sym over;
            })
      | inr within ↦
          rw (h.truncated, within)
            (record {
              id = same;
              flat = rw (h.flat, within, cut_within g within) refl;
              count = h.count ∙ sym (length-cut g);
              truncated = fresh ∙ sym within;
            })
    ]

    keep_full-Tracks :
        (st : State E) (g p : Spans)
        → exceeds m g ≡ true
        → first_trace_id g ≡ first_trace_id p
        → Tracks st g
        → Tracks
            (keep_merged text yield m
              (record { dest = st.current_trace; count = st.current_span_count; truncated = true })
              st)
            (g ++ p)
    unfolding keep_merged
    keep_full-Tracks st g p over same h =
        rw (h.truncated, over)
          (record {
            id = h.id ∙ sym (first_trace_id-append g p same);
            flat = h.flat ∙ sym (cut-append g p over);
            count = h.count ∙ ap length (sym (cut-append g p over));
            truncated = sym (exceeds-append m g p over);
          })

    merge_part_lem :
        (t : Traces) (n : ℕ) (st : State E)
        → merge_part text yield m t n st
          ≡ keep_merged text yield m
              (merge_traces_with_limit st.current_trace st.current_span_count t n m)
              st
    unfolding merge_part
    merge_part_lem t n st = refl

    pub merge_part-Tracks :
        (t : Traces) (st : State E) (g : Spans)
        → 0 < length (flatten t)
        → first_trace_id g ≡ first_trace_id (flatten t)
        → Tracks st g
        → Tracks (merge_part text yield m t (length (flatten t)) st) (g ++ flatten t)
    merge_part-Tracks t st g some_span same h = elim (Bool-cases (exceeds m g)) [
      | inl over ↦ rw merge_part_lem (
          rw (merge-full m st.current_trace t g st.current_span_count over (h.count ∙ length-cut g))
            (keep_full-Tracks st g (flatten t) over same h))
      | inr within ↦ rw merge_part_lem (
          keep_merged-Tracks _ st (g ++ flatten t)
            (h.id ∙ sym (first_trace_id-append g (flatten t) same)) (h.truncated ∙ within)
            (merge-Room m st.current_trace t g st.current_span_count within some_span
              (h.flat ∙ cut_within g within) (h.count ∙ ap length (cut_within g within))))
    ]

    pub start_trace-Tracks :
        (t : Traces) (st : State E)
        → Tracks
            (start_trace text yield m t (length (flatten t)) (first_trace_id (flatten t)) st)
            (flatten t)
    unfolding start_trace exceeds
    start_trace-Tracks t st = elim (Bool-cases (exceeds m (flatten t))) [
      | inl over ↦
          let k = pos_part m in
          let marked : flatten (mark_trace_truncated text (copy_spans_up_to_limit [] t k) k)
              ≡ mark_head text k (take k (flatten t)) =
            flatten-mark_trace_truncated text (copy_spans_up_to_limit [] t k) k
            ∙ ap (mark_head text k) (flatten-copy_spans_up_to_limit [] t k) in
          rw over (record {
            id = refl;
            flat = marked ∙ sym (cut_over (flatten t) over);
            count =
                rw (cut_over (flatten t) over, length-mark_head)
                  (omega (arith, exceeds-lt m (flatten t) over, length-take k (flatten t)));
            truncated = sym over;
          })
      | inr within ↦ rw within (record {
        id = refl;
        flat = sym (cut_within (flatten t) within);
        count = ap length (sym (cut_within (flatten t) within));
        truncated = sym within;
      })
    ]

    keep_merged_frame :
        (r : Merged) (st : State E)
        → ((keep_merged text yield m r st).out ≡ st.out)
          × ((keep_merged text yield m r st).cont ≡ st.cont)
    unfolding keep_merged
    keep_merged_frame r st = elim (Bool-cases (r.truncated && not st.current_truncated)) [
      | inl marked ↦ rw marked (refl, refl)
      | inr plain ↦ rw plain (refl, refl)
    ]

    -- Neither branch gives the consumer anything.
    pub merge_part_frame :
        (t : Traces) (n : ℕ) (st : State E)
        → ((merge_part text yield m t n st).out ≡ st.out)
          × ((merge_part text yield m t n st).cont ≡ st.cont)
    merge_part_frame t n st = rw merge_part_lem (keep_merged_frame _ st)

    pub start_trace_frame :
        (t : Traces) (n id : ℕ) (st : State E)
        → ((start_trace text yield m t n id st).out ≡ st.out)
          × ((start_trace text yield m t n id st).cont ≡ st.cont)
    unfolding start_trace
    start_trace_frame t n id st = elim (Bool-cases (positive m && not (leb_ℤ (pos n) m))) [
      | inl over ↦ rw over (refl, refl)
      | inr within ↦ rw within (refl, refl)
    ]
