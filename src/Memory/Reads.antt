-- ===== src/Memory/Reads.antt =====
-- What the store of internal/storage/v2/memory/tenant.go gives back of what was stored.
use jaeger.Prelude.{
  ℕ, ◌<◌, ◌≡◌, ◌≢◌, refl, ◌∙◌, sym, ap, inl, inr, List, [], ◌∷◌, ◌++◌, Option, none, some, Bool,
  false, length, arith, Option-cases, Bool-cases, nat_eq, ◌==◌, if◌then◌else◌, nat_beq_iff,
}
use jaeger.Prelude.Map.{lookup}
use jaeger.Otlp.{Traces}
use jaeger.Memory.Match.{Readings}
use jaeger.Memory.Tenant.{
  Tenant, TraceAndId, Scan, empty_slot, slot, next_slot, extend, replace, store_trace, get_traces,
}
use jaeger.Memory.Ring.{
  IsConsistent, get_or-set_self, get_or-set_ne, slot-replace_self, slot-replace_ne,
  ids-replace_self, ids-replace_ne, lookup-clear_self, lookup-clear_other, scan, store_trace-known,
  store_trace-new, next_slot-below,
}

-- The trace of an answer for one identifier, empty where there is none.
abbrev pub only : List Traces → Traces
only [] = []
only (x ∷ _) = x

pub get_traces-known :
    (t : Tenant) (id index : ℕ)
    → lookup id t.ids ≡ some index
    → get_traces t (id ∷ []) ≡ (slot t index).trace ∷ []
unfolding get_traces
get_traces-known t id index e = rw (e, get_traces) refl

get_traces-unknown : (t : Tenant) (id : ℕ) → lookup id t.ids ≡ none → get_traces t (id ∷ []) ≡ []
unfolding get_traces
get_traces-unknown t id e = rw (e, get_traces) refl

module _ (t : Tenant) (spans : Traces) (st : Scan) (index : ℕ) where
  ids-extend : (j : ℕ) → lookup j (extend index spans st t).ids ≡ lookup j t.ids
  unfolding extend
  ids-extend j = refl

  trace-extend_self :
      index < length t.traces
      → (slot (extend index spans st t) index).trace ≡ (slot t index).trace ++ spans
  unfolding extend
  trace-extend_self h =
      ap (λ (s : TraceAndId). s.trace) (get_or-set_self t.traces index _ empty_slot h)

  trace-extend_ne :
      (i : ℕ) → index ≢ i → (slot (extend index spans st t) i).trace ≡ (slot t i).trace
  unfolding extend
  trace-extend_ne i h =
      ap (λ (s : TraceAndId). s.trace) (get_or-set_ne t.traces index i _ empty_slot h)

abbrev pub replaced : Option ℕ → ℕ → ℕ → Bool
replaced (some _) old j = false
replaced none old j = old == j

-- Whether storing `id` takes the slot of `j`.
abbrev pub evicts : Tenant → ℕ → ℕ → Bool
evicts t id j = replaced (lookup id t.ids) (slot t (next_slot t)).id j

module _ (r : Readings) (t : Tenant) (c : IsConsistent t) where
  -- A trace is read back with what was just stored behind what the store had of it.
  pub get_traces-store_trace :
      (id : ℕ) (spans : Traces)
      → get_traces (store_trace r id spans t) (id ∷ [])
        ≡ (only (get_traces t (id ∷ [])) ++ spans) ∷ []
  get_traces-store_trace id spans = elim (Option-cases (lookup id t.ids)) [
    | inr (index, known) ↦
        let below : index < length t.traces = omega (arith, c.listed id index known, c.size) in
        rw (store_trace-known r id index spans t known, get_traces-known t id index known)
          (get_traces-known _ id index (ids-extend t spans (scan r t spans) index id ∙ known)
            ∙ ap (λ x. x ∷ []) (trace-extend_self t spans (scan r t spans) index below))
    | inl fresh ↦
        let below = next_slot-below t c.room in
        rw (store_trace-new r id spans t fresh, get_traces-unknown t id fresh)
          (get_traces-known _ id (next_slot t)
              (ids-replace_self t c spans (scan r t spans) id (next_slot t) below)
            ∙ ap (λ (s : TraceAndId). s.trace ∷ [])
                (slot-replace_self t c spans (scan r t spans) id (next_slot t) below))
  ]

  lookup-others :
      (j : ℕ) (t' : Tenant) (o : Option ℕ)
      → lookup j t.ids ≡ o
      → lookup j t'.ids ≡ o
      → ((i : ℕ) → o ≡ some i → (slot t' i).trace ≡ (slot t i).trace)
      → get_traces t' (j ∷ []) ≡ get_traces t (j ∷ [])
  lookup-others j t' none e e' same = get_traces-unknown t' j e' ∙ sym (get_traces-unknown t j e)
  lookup-others j t' (some i) e e' same =
      get_traces-known t' j i e' ∙ ap (λ x. x ∷ []) (same i refl) ∙ sym (get_traces-known t j i e)

  extend-others :
      (j id index : ℕ) (spans : Traces) (st : Scan)
      → j ≢ id
      → j ≢ 0
      → id ≢ 0
      → lookup id t.ids ≡ some index
      → get_traces (extend index spans st t) (j ∷ []) ≡ get_traces t (j ∷ [])
  extend-others j id index spans st other some_id real known =
      lookup-others j (extend index spans st t) (lookup j t.ids) refl
        (ids-extend t spans st index j)
        (λ i there. trace-extend_ne t spans st index i (λ at. other (
          sym (c.owner j i some_id there)
          ∙ ap (λ i. (slot t i).id) (sym at)
          ∙ c.owner id index real known)))

  replace-others :
      (j id : ℕ) (spans : Traces) (st : Scan)
      → j ≢ id
      → j ≢ 0
      → (slot t (next_slot t)).id ≢ j
      → get_traces (replace id (next_slot t) spans st t) (j ∷ []) ≡ get_traces t (j ∷ [])
  replace-others j id spans st other some_id apart =
      let below = next_slot-below t c.room in
      lookup-others j (replace id (next_slot t) spans st t) (lookup j t.ids) refl
        (ids-replace_ne t c spans st id (next_slot t) below j (λ e. other (sym e))
          ∙ lookup-clear_other (slot t (next_slot t)).id j t.ids some_id apart)
        (λ i there.
          ap (λ (s : TraceAndId). s.trace)
            (slot-replace_ne t c spans st id (next_slot t) below i
              (λ at. apart (ap (λ i. (slot t i).id) at ∙ c.owner j i some_id there))))

  replace-evicted :
      (j id : ℕ) (spans : Traces) (st : Scan)
      → j ≢ id
      → j ≢ 0
      → (slot t (next_slot t)).id ≡ j
      → get_traces (replace id (next_slot t) spans st t) (j ∷ []) ≡ []
  replace-evicted j id spans st other some_id same =
      let below = next_slot-below t c.room in
      get_traces-unknown (replace id (next_slot t) spans st t) j (
        ids-replace_ne t c spans st id (next_slot t) below j (λ e. other (sym e))
        ∙ rw same (lookup-clear_self j t.ids some_id))

  -- Every other trace is read back as before, except that a trace that is new takes the slot of
  -- the trace that stood there, which is gone. The two identifiers are not the empty one.
  pub get_traces-store_trace_other :
      (j id : ℕ) (spans : Traces)
      → j ≢ id
      → j ≢ 0
      → id ≢ 0
      → get_traces (store_trace r id spans t) (j ∷ [])
        ≡ (if evicts t id j then [] else get_traces t (j ∷ []))
  get_traces-store_trace_other j id spans other some_id real =
      elim (Option-cases (lookup id t.ids)) [
        | inr (index, known) ↦
            rw (known, store_trace-known r id index spans t known)
              (extend-others j id index spans (scan r t spans) other some_id real known)
        | inl fresh ↦ elim (Bool-cases ((slot t (next_slot t)).id == j)) [
          | inl gone ↦
              rw (fresh, gone, store_trace-new r id spans t fresh)
                (replace-evicted j id spans (scan r t spans) other some_id
                  ((nat_beq_iff (slot t (next_slot t)).id j).0 gone))
          | inr kept ↦
              rw (fresh, kept, store_trace-new r id spans t fresh)
                (replace-others j id spans (scan r t spans) other some_id
                  (λ e. cc (kept, (nat_beq_iff (slot t (next_slot t)).id j).1 e)))
        ]
      ]
