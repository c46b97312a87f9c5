-- ===== src/Jptrace/Aggregator/Result.antt =====
-- The result of AggregateTracesWithLimit for an input without errors and a consumer that accepts
-- everything.
use jaeger.Prelude.{
  ◌<◌, ◌≡◌, refl, sym, ◌∙◌, ap, Bool, true, ◌&&◌, List, [], ◌∷◌, ◌++◌, append-nil, map, arith, ltb,
  length, if◌then◌else◌, nat_eq,
}
use jaeger.Prelude.Int.{ℤ}
use jaeger.Otlp.{Traces, flatten, flat, ValueText}
use jaeger.Jptrace.Spans.{first_trace_id}
use jaeger.Jptrace.Aggregator.Tracks.{Tracks, cut-pos}
use jaeger.Jptrace.Aggregator.Stream.{
  State, Emitted, chunk, add_trace, add_traces, callback, run_seq, initial,
  aggregate_traces_with_limit,
}
use jaeger.Jptrace.Aggregator.Groups.{Spans, groups_from, groups, exceeds, cut}
use jaeger.Jptrace.Aggregator.Steps.{
  Emits, Emits-append, Progress, Progress-append, add_trace-Adds, cut_nil, exceeds_nil,
}

module _ (text : ValueText) (m : ℤ) {E : Type 0} where
  module _ (yield : List (Emitted E) → Bool)
      (accepts : (out : List (Emitted E)) → yield out ≡ true) where
    stay : (st : State E) (g : Spans) → Tracks text m st g → Progress text m st st g []
    stay st g h = record {
      group = g;
      done = [];
      given = [];
      tracks = h;
      out = rw append-nil refl;
      emits = tt;
      spec = λ rest. refl;
      cont = refl;
    }

    add_traces-Progress :
        (ts : List Traces) (st : State E) (g : Spans)
        → Tracks text m st g
        → ((add_traces text yield m ts st).1 ≡ true)
          × Progress text m st (add_traces text yield m ts st).0 g (map flatten ts)
    unfolding add_traces
    add_traces-Progress [] st g h = (refl, stay st g h)
    add_traces-Progress (t ∷ ts) st g h =
        let (more, one) = add_trace-Adds text m yield accepts t st g h in
        let (more', rest) =
          add_traces-Progress ts (add_trace text yield m t st).0 one.group one.tracks in
        rw more (more', Progress-append text m _ _ _ g (flatten t ∷ []) (map flatten ts) one rest)

    run_seq-Progress :
        (chunks : List (List Traces)) (st : State E) (g : Spans)
        → Tracks text m st g
        → Progress text m st
            (run_seq text yield m (map chunk chunks) st)
            g
            (flat (map flatten) chunks)
    unfolding run_seq callback
    run_seq-Progress [] st g h = stay st g h
    run_seq-Progress (ts ∷ chunks) st g h =
        let (more, one) = add_traces-Progress ts st g h in
        let rest = run_seq-Progress chunks (add_traces text yield m ts st).0 one.group one.tracks in
        rw more
          (Progress-append text m _ _ _ g (map flatten ts) (flat (map flatten) chunks) one rest)

    initial-Tracks : Tracks text m {E = E} initial []
    unfolding first_trace_id cut exceeds
    initial-Tracks = record {
      id = refl;
      flat = sym (cut_nil text m);
      count = ap length (sym (cut_nil text m));
      truncated = sym (exceeds_nil m);
    }

    abbrev last_one : State E → List (Emitted E)
    last_one st =
        if st.cont && ltb 0 st.current_span_count
        then st.out ++ Emitted.whole st.current_trace ∷ []
        else st.out

    finish :
        (st : State E) (given : List (Emitted E)) (g : Spans) (done : List Spans)
        → Tracks text m st g
        → st.cont ≡ true
        → st.out ≡ given
        → Emits text m given done
        → Emits text m (last_one st) (done ++ groups_from g [])
    unfolding groups_from
    finish st given [] done h c out e =
        let r : last_one st ≡ given = ground (arith, h.count ∙ ap length (cut_nil text m)) in
        rw (r, append-nil) e
    finish st given (a ∷ g) done h c out e =
        let full : 0 < st.current_span_count = rw h.count (cut-pos text m (a ∷ g) (omega arith)) in
        let r : last_one st ≡ given ++ Emitted.whole st.current_trace ∷ [] = ground arith in
        rw r (Emits-append text m given _ done _ e (h.flat, tt))

    -- Of an input without errors, the loop gives a consumer that accepts everything exactly the
    -- groups, in order: each run of neighbouring parts with one trace identifier as one trace, with
    -- its spans in the order in which they came, cut to the first `m` spans with a warning on the
    -- first one if it has more than a positive limit `m`, and whole otherwise.
    pub aggregate-groups :
        (chunks : List (List Traces))
        → Emits text m
            (aggregate_traces_with_limit text yield m (map chunk chunks))
            (groups (flat (map flatten) chunks))
    unfolding aggregate_traces_with_limit
    aggregate-groups chunks =
        let p = run_seq-Progress chunks initial [] initial-Tracks in
        let ps = flat (map flatten) chunks in
        rw (← append-nil ps, p.spec [])
          (finish _ p.given p.group p.done p.tracks p.cont p.out p.emits)
