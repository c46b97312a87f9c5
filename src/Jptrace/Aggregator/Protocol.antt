-- ===== src/Jptrace/Aggregator/Protocol.antt =====
-- The contract of Go's iterators, for AggregateTracesWithLimit: a consumer that has answered false
-- is not called again.
use jaeger.Prelude.{
  ℕ, ◌≡◌, refl, ◌⊎◌, inl, inr, Bool, true, false, ◌&&◌, List, [], ◌∷◌, ◌++◌, arith, ltb, Bool-cases,
  if◌then◌else◌, ◌==◌, nat_eq,
}
use jaeger.Prelude.Int.{ℤ}
use jaeger.Otlp.{Traces, ValueText}
use jaeger.Jptrace.Aggregator.Tracks.{merge_part_frame, start_trace_frame}
use jaeger.Jptrace.Aggregator.Stream.{
  State, Emitted, Batch, chunk, failed, merge_part, start_trace, flush, add_part, add_trace,
  add_traces, callback, run_seq, initial, aggregate_traces_with_limit,
}

module _ {E : Type 0} (yield : List (Emitted E) → Bool) where
  -- The consumer can be called once more.
  abbrev pub Ready : List (Emitted E) → Type 0
  Ready out = (out ≡ []) ⊎ (yield out ≡ true)

  -- Every call was the first one or followed a call that was answered with true.
  pub data Polite : List (Emitted E) → Type 0 where
    none_yet : Polite []
    called :
        (before : List (Emitted E)) (e : Emitted E)
        → Polite before
        → Ready before
        → Polite (before ++ e ∷ [])

  module _ (text : ValueText) (m : ℤ) where
    -- What a step leaves: it may go on only with a consumer that is ready.
    record Fair (r : State E × Bool) : Type 0 where
      polite : Polite r.0.out
      goes_on : r.1 ≡ true → Ready r.0.out
      emits : r.0.cont ≡ true → Ready r.0.out

    flush-Fair : (st : State E) → Polite st.out → Ready st.out → Fair (flush text yield m st)
    unfolding flush
    flush-Fair st p r = elim (Bool-cases (ltb 0 st.current_span_count)) [
      | inr none_left ↦ rw none_left (record { polite = p; goes_on = λ _. r; emits = λ _. r })
      | inl open_group ↦
          let out = st.out ++ Emitted.whole st.current_trace ∷ [] in
          let p' : Polite out = called st.out (Emitted.whole st.current_trace) p r in
          elim (Bool-cases (yield out)) [
            | inl more ↦
                rw (open_group, more)
                  (record { polite = p'; goes_on = λ _. inr more; emits = λ _. inr more })
            | inr stop ↦
                rw (open_group, stop) (record { polite = p'; goes_on = λ h. cc; emits = λ h. cc })
          ]
    ]

    same-Fair :
        (st st' : State E) (b : Bool)
        → st'.out ≡ st.out
        → Polite st.out
        → Ready st.out
        → Fair (st', b)
    same-Fair st st' b e p r = record {
      polite = rw e p;
      goes_on = λ _. rw e r;
      emits = λ _. rw e r;
    }

    add_part-Fair :
        (t : Traces) (n id : ℕ) (st : State E)
        → Polite st.out
        → Ready st.out
        → Fair (add_part text yield m t n id st)
    unfolding add_part
    add_part-Fair t n id st p r = elim (Bool-cases (n == 0)) [
      | inl empty ↦ rw empty (same-Fair st st true refl p r)
      | inr some_span ↦ elim (Bool-cases (st.current_trace_id == id)) [
        | inl same ↦
            rw (some_span, same)
              (same-Fair st (merge_part text yield m t n st) true
                (merge_part_frame text m yield t n st).0 p r)
        | inr other ↦
            rw (some_span, other)
              (started (flush text yield m st).0 (flush text yield m st).1 (flush-Fair st p r))
      ]
    ]
      where
        started :
            (st' : State E) (more : Bool)
            → Fair (st', more)
            → Fair (if more then (start_trace text yield m t n id st', true) else (st', false))
        started st' true h =
            same-Fair st' (start_trace text yield m t n id st') true
              (start_trace_frame text m yield t n id st').0 h.polite (h.goes_on refl)
        started st' false h = h

    add_trace-Fair :
        (t : Traces) (st : State E)
        → Polite st.out
        → Ready st.out
        → Fair (add_trace text yield m t st)
    unfolding add_trace
    add_trace-Fair t st p r = add_part-Fair t _ _ st p r

    add_traces-Fair :
        (ts : List Traces) (st : State E)
        → Polite st.out
        → Ready st.out
        → Fair (add_traces text yield m ts st)
    unfolding add_traces
    add_traces-Fair [] st p r = same-Fair st st true refl p r
    add_traces-Fair (t ∷ ts) st p r =
        go (add_trace text yield m t st).0 (add_trace text yield m t st).1 (add_trace-Fair t st p r)
          (add_traces-Fair ts (add_trace text yield m t st).0)
      where
        go :
            (st' : State E) (more : Bool)
            → Fair (st', more)
            → (Polite st'.out → Ready st'.out → Fair (add_traces text yield m ts st'))
            → Fair (if more then add_traces text yield m ts st' else (st', false))
        go st' true h k = k h.polite (h.goes_on refl)
        go st' false h k = h

    callback-Fair :
        (b : Batch E) (st : State E)
        → Polite st.out
        → Ready st.out
        → Fair (callback text yield m b st)
    unfolding callback
    callback-Fair (chunk ts) st p r = add_traces-Fair ts st p r
    callback-Fair (failed err) st p r = record {
      polite = called st.out (Emitted.failed err) p r;
      goes_on = λ h. cc;
      emits = inr;
    }

    run_seq-Fair :
        (bs : List (Batch E)) (st : State E)
        → Polite st.out
        → Ready st.out
        → Polite (run_seq text yield m bs st).out
          × ((run_seq text yield m bs st).cont ≡ true → Ready (run_seq text yield m bs st).out)
    unfolding run_seq
    run_seq-Fair [] st p r = (p, λ _. r)
    run_seq-Fair (b ∷ bs) st p r =
        go (callback text yield m b st).0 (callback text yield m b st).1 (callback-Fair b st p r)
          (run_seq-Fair bs (callback text yield m b st).0)
      where
        go :
            (st' : State E) (more : Bool)
            → Fair (st', more)
            → (Polite st'.out
                → Ready st'.out
                → Polite (run_seq text yield m bs st').out
                  × ((run_seq text yield m bs st').cont ≡ true
                      → Ready (run_seq text yield m bs st').out))
            → Polite (if more then run_seq text yield m bs st' else st').out
              × ((if more then run_seq text yield m bs st' else st').cont ≡ true
                  → Ready (if more then run_seq text yield m bs st' else st').out)
        go st' true h k = k h.polite (h.goes_on refl)
        go st' false h k = (h.polite, h.emits)

    finish-Polite :
        (st : State E)
        → Polite st.out
        → (st.cont ≡ true → Ready st.out)
        → Polite (
            if st.cont && ltb 0 st.current_span_count
            then st.out ++ Emitted.whole st.current_trace ∷ []
            else st.out)
    finish-Polite st p r = elim (Bool-cases (st.cont && ltb 0 st.current_span_count)) [
      | inl more ↦ rw more (called st.out (Emitted.whole st.current_trace) p (r (ground arith)))
      | inr stop ↦ rw stop p
    ]

    -- Whatever the input, its errors included, and whatever the consumer answers, a consumer that
    -- has answered false is not called again: neither by the callback, nor after an error, nor with
    -- the trace that is left at the end.
    pub aggregate-Polite :
        (seq : List (Batch E)) → Polite (aggregate_traces_with_limit text yield m seq)
    unfolding aggregate_traces_with_limit
    aggregate-Polite seq =
        let (p, r) = run_seq-Fair seq initial none_yet (inl refl) in
        finish-Polite (run_seq text yield m seq initial) p r
