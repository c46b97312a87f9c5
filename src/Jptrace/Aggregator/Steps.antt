-- ===== src/Jptrace/Aggregator/Steps.antt =====
-- One part of a trace, as a step of the grouping, for a consumer that accepts everything.
use native.Mathlib.Decide.{dec_lt, ℕ_discrete}
use jaeger.Prelude.{
  ℕ, zero, suc, ◌<◌, ◌≡◌, ◌≢◌, refl, sym, ◌∙◌, ap, Bool, true, false, List, [], ◌∷◌, ◌++◌,
  append-nil, append_assoc, arith, length, nat_eq, ==_iff,
}
use jaeger.Prelude.Int.{ℤ, pos, negsuc}
use jaeger.Otlp.{Traces, flatten, ValueText}
use jaeger.Jptrace.Spans.{get_trace_id, first_trace_id, span_iter-flatten, span_count-flatten}
use jaeger.Jptrace.Aggregator.Tracks.{
  cut_within, Tracks, merge_part-Tracks, merge_part_frame, start_trace_frame, start_trace-Tracks,
  cut-pos,
}
use jaeger.Jptrace.Aggregator.Stream.{
  State, Emitted, merge_part, start_trace, flush, add_part, add_trace,
}
use jaeger.Jptrace.Aggregator.Groups.{Spans, groups_from, exceeds, cut}

groups_from-skip : (g : Spans) (rest : List Spans) → groups_from g ([] ∷ rest) ≡ groups_from g rest
unfolding groups_from
groups_from-skip [] rest = refl
groups_from-skip (a ∷ g) rest = refl

groups_from-join :
    (g p : Spans) (rest : List Spans)
    → first_trace_id g ≡ first_trace_id p
    → groups_from g (p ∷ rest) ≡ groups_from (g ++ p) rest
unfolding groups_from first_trace_id
groups_from-join [] [] rest h = refl
groups_from-join (a ∷ g) [] rest h = rw append-nil refl
groups_from-join [] (x ∷ xs) rest h = refl
groups_from-join (a ∷ g) (x ∷ xs) rest h = ground (arith, ==_iff a.1.trace_id x.1.trace_id)

groups_from-first : (p : Spans) (rest : List Spans) → groups_from [] (p ∷ rest) ≡ groups_from p rest
unfolding groups_from
groups_from-first [] rest = refl
groups_from-first (x ∷ xs) rest = refl

pub exceeds_nil : (m : ℤ) → exceeds m [] ≡ false
unfolding exceeds
exceeds_nil (pos zero) = refl
exceeds_nil (pos (suc k)) = ground arith
exceeds_nil (negsuc k) = ground arith

pub cut_nil : (text : ValueText) (m : ℤ) → cut text m [] ≡ []
cut_nil text m = cut_within text m [] (exceeds_nil m)

groups_from-part :
    (a : _) (g p : Spans) (rest : List Spans)
    → 0 < length p
    → first_trace_id (a ∷ g) ≢ first_trace_id p
    → groups_from (a ∷ g) (p ∷ rest) ≡ (a ∷ g) ∷ groups_from p rest
unfolding groups_from first_trace_id
groups_from-part a g [] rest some_span h = elim some_span [ ]
groups_from-part a g (x ∷ xs) rest some_span h = ground (arith, ==_iff a.1.trace_id x.1.trace_id)

module _ (text : ValueText) (m : ℤ) {E : Type 0} where
  -- The consumer was given these groups, cut to the limit, and no error.
  abbrev pub Emits : List (Emitted E) → List Spans → Type 0
  Emits [] [] = Unit
  Emits (Emitted.whole t ∷ es) (g ∷ gs) = (flatten t ≡ cut text m g) × Emits es gs
  Emits _ _ = ⊥

  pub Emits-append :
      (es fs : List (Emitted E)) (gs hs : List Spans)
      → Emits es gs
      → Emits fs hs
      → Emits (es ++ fs) (gs ++ hs)
  Emits-append [] fs [] hs x y = y
  Emits-append (Emitted.whole t ∷ es) fs (g ∷ gs) hs x y = (x.0, Emits-append es fs gs hs x.1 y)
  Emits-append [] fs (g ∷ gs) hs x y = absurd x
  Emits-append (Emitted.whole t ∷ es) fs [] hs x y = absurd x
  Emits-append (Emitted.failed e ∷ es) fs gs hs x y = absurd x

  -- From `st` to `st'` the parts `ps` were taken in behind the group `g`.
  pub record Progress (st st' : State E) (g : Spans) (ps : List Spans) : Type 0 where
    pub group : Spans
    pub done : List Spans
    pub given : List (Emitted E)
    pub tracks : Tracks text m st' group
    pub out : st'.out ≡ st.out ++ given
    pub emits : Emits given done
    pub spec : (rest : List Spans) → groups_from g (ps ++ rest) ≡ done ++ groups_from group rest
    pub cont : st'.cont ≡ st.cont

  pub Progress-append :
      (a b c : State E) (g : Spans) (ps qs : List Spans) (x : Progress a b g ps)
      → Progress b c x.group qs
      → Progress a c g (ps ++ qs)
  Progress-append a b c g ps qs x y = record {
    group = y.group;
    done = x.done ++ y.done;
    given = x.given ++ y.given;
    tracks = y.tracks;
    out = rw (y.out, x.out, append_assoc) refl;
    emits = Emits-append x.given y.given x.done y.done x.emits y.emits;
    spec = λ rest.
        rw append_assoc
          (x.spec (qs ++ rest) ∙ ap (◌++◌ x.done) (y.spec rest) ∙ sym (append_assoc x.done _ _));
    cont = y.cont ∙ x.cont;
  }

  module _ (yield : List (Emitted E) → Bool)
      (accepts : (out : List (Emitted E)) → yield out ≡ true) where
    flush_some :
        (st : State E)
        → 0 < st.current_span_count
        → flush text yield m st
          ≡ (record st { out = st.out ++ Emitted.whole st.current_trace ∷ [] }, true)
    unfolding flush
    flush_some st h = ground (arith, accepts (st.out ++ Emitted.whole st.current_trace ∷ []))

    flush_none : (st : State E) → st.current_span_count ≡ 0 → flush text yield m st ≡ (st, true)
    unfolding flush
    flush_none st h = ground arith

    -- One part, as a step of the grouping.
    abbrev pub Adds : Traces → State E → Spans → State E × Bool → Type 0
    Adds t st g r = (r.1 ≡ true) × Progress st r.0 g (flatten t ∷ [])

    part : Traces → State E → State E × Bool
    unfolding add_part
    part t = add_part text yield m t (length (flatten t)) (first_trace_id (flatten t))

    skip-Adds :
        (t : Traces) (st : State E) (g : Spans)
        → flatten t ≡ []
        → Tracks text m st g
        → Adds t st g (part t st)
    unfolding part
    skip-Adds t st g none_left h =
        let r : part t st ≡ (st, true) = rw none_left refl in
        rw r (
          refl,
          record {
            group = g;
            done = [];
            given = [];
            tracks = h;
            out = rw append-nil refl;
            emits = tt;
            spec = λ rest. rw none_left (groups_from-skip g rest);
            cont = refl;
          },
        )

    join-Adds :
        (t : Traces) (st : State E) (g : Spans)
        → 0 < length (flatten t)
        → st.current_trace_id ≡ first_trace_id (flatten t)
        → Tracks text m st g
        → Adds t st g (part t st)
    unfolding part
    join-Adds t st g some_span same h =
        let frame = merge_part_frame text m yield t (length (flatten t)) st in
        let r : part t st ≡ (merge_part text yield m t (length (flatten t)) st, true) =
          ground (arith, ==_iff st.current_trace_id (first_trace_id (flatten t))) in
        rw r (
          refl,
          record {
            group = g ++ flatten t;
            done = [];
            given = [];
            tracks = merge_part-Tracks text m yield t st g some_span (sym h.id ∙ same) h;
            out = frame.0 ∙ rw append-nil refl;
            emits = tt;
            spec = λ rest. groups_from-join g (flatten t) rest (sym h.id ∙ same);
            cont = frame.1;
          },
        )

    part-Adds :
        (t : Traces) (st : State E) (a : _) (g : Spans)
        → 0 < length (flatten t)
        → st.current_trace_id ≢ first_trace_id (flatten t)
        → Tracks text m st (a ∷ g)
        → Adds t st (a ∷ g) (part t st)
    unfolding part
    part-Adds t st a g some_span other h =
        let st' = record st { out = st.out ++ Emitted.whole st.current_trace ∷ [] } in
        let n : ℕ = length (flatten t) in
        let id : ℕ = first_trace_id (flatten t) in
        let frame = start_trace_frame text m yield t n id st' in
        let open_group : 0 < st.current_span_count =
          rw h.count (cut-pos text m (a ∷ g) (omega arith)) in
        let r : part t st ≡ (start_trace text yield m t n id st', true) =
          ground (arith, flush_some st open_group, ==_iff st.current_trace_id id) in
        rw r (
          refl,
          record {
            group = flatten t;
            done = (a ∷ g) ∷ [];
            given = Emitted.whole st.current_trace ∷ [];
            tracks = start_trace-Tracks text m yield t st';
            out = frame.0;
            emits = (h.flat, tt);
            spec = λ rest. groups_from-part a g (flatten t) rest some_span (λ e. other (h.id ∙ e));
            cont = frame.1;
          },
        )

    -- The first group.
    first-Adds :
        (t : Traces) (st : State E)
        → 0 < length (flatten t)
        → st.current_trace_id ≢ first_trace_id (flatten t)
        → Tracks text m st []
        → Adds t st [] (part t st)
    unfolding part exceeds cut
    first-Adds t st some_span other h =
        let n : ℕ = length (flatten t) in
        let id : ℕ = first_trace_id (flatten t) in
        let frame = start_trace_frame text m yield t n id st in
        let r : part t st ≡ (start_trace text yield m t n id st, true) = ground (
          arith,
          flush_none st (h.count ∙ ap length (cut_nil text m)),
          ==_iff st.current_trace_id id,
        ) in
        rw r (
          refl,
          record {
            group = flatten t;
            done = [];
            given = [];
            tracks = start_trace-Tracks text m yield t st;
            out = frame.0 ∙ rw append-nil refl;
            emits = tt;
            spec = λ rest. groups_from-first (flatten t) rest;
            cont = frame.1;
          },
        )

    nil-of-length : (p : Spans) → ¬ (0 < length p) → p ≡ []
    nil-of-length [] h = refl
    nil-of-length (x ∷ xs) h = absurd (h (omega arith))

    some-Adds :
        (t : Traces) (st : State E) (g : Spans)
        → 0 < length (flatten t)
        → Tracks text m st g
        → Dec (st.current_trace_id ≡ first_trace_id (flatten t))
        → Adds t st g (part t st)
    some-Adds t st g some_span h (yes same) = join-Adds t st g some_span same h
    some-Adds t st [] some_span h (no other) = first-Adds t st some_span other h
    some-Adds t st (a ∷ g) some_span h (no other) = part-Adds t st a g some_span other h

    part-lem : (t : Traces) (st : State E) → add_trace text yield m t st ≡ part t st
    unfolding add_trace part get_trace_id
    part-lem t st =
        ap (λ (p : ℕ × Spans). add_part text yield m t p.0 (first_trace_id p.1) st)
          (λ i. (span_count-flatten t i, span_iter-flatten t i))

    pub add_trace-Adds :
        (t : Traces) (st : State E) (g : Spans)
        → Tracks text m st g
        → Adds t st g (add_trace text yield m t st)
    add_trace-Adds t st g h = rw part-lem (elim (dec_lt 0 (length (flatten t))) [
      | yes some_span ↦ some-Adds t st g some_span h (ℕ_discrete _ _)
      | no none_left ↦ skip-Adds t st g (nil-of-length (flatten t) none_left) h
    ])
