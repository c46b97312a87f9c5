-- ===== src/Memory/Search.antt =====
-- findTraceAndIds of internal/storage/v2/memory/tenant.go finds traces that match.
use native.Mathlib.Nat.{mod-lt}
use jaeger.Prelude.{
  ℕ, zero, suc, ◌+◌, ◌≤◌, ◌<◌, ◌≡◌, ◌≢◌, refl, inl, inr, List, [], ◌∷◌, Option, none, some, true,
  length, arith, Bool-cases, nat_eq, ◌==◌, if◌then◌else◌, nat_beq_iff, All, ◌||◌,
}
use jaeger.Prelude.Int.{pos, pos_part, ◌≤ℤ◌, leb_ℤ, ltb_ℤ}
use jaeger.Tracestore.Query.{TraceQueryParams}
use jaeger.Memory.Match.{Readings, valid_trace}
use jaeger.Memory.Tenant.{
  Tenant, TraceAndId, slot, get_traces, collect, ring_index, find_trace_and_ids,
}
use jaeger.Memory.Ring.{IsConsistent}
use jaeger.Memory.Reads.{get_traces-known}

module _ (r : Readings) (t : Tenant) where
  -- What a search takes is read back under its own identifier, and matches.
  abbrev pub Taken : TraceQueryParams → TraceAndId → Type 0
  Taken q e = (valid_trace r e.trace q ≡ true) × (get_traces t (e.id ∷ []) ≡ e.trace ∷ [])

  -- The answer of a search: the depth was refused as it was not from 1 to the number of slots, or
  -- at most as many traces as the depth, all of them as wanted.
  abbrev pub Answered : TraceQueryParams → Option (List TraceAndId) → Type 0
  Answered q none = ¬ ((pos 1 ≤ℤ q.search_depth) × (q.search_depth ≤ℤ pos t.max_traces))
  Answered q (some found) =
      All (Taken q) found
      × (pos (length found) ≤ℤ q.search_depth)
      × (pos 1 ≤ℤ q.search_depth)
      × (q.search_depth ≤ℤ pos t.max_traces)

module _ (r : Readings) (t : Tenant) (c : IsConsistent t) where
  ring_index-below : (i : ℕ) → ring_index t.most_recent i (length t.traces) < t.max_traces
  unfolding ring_index
  ring_index-below i = rw c.size (mod-lt _ c.room)

  slot-Taken :
      (q : TraceQueryParams) (i : ℕ)
      → i < t.max_traces
      → (slot t i).id ≢ 0
      → valid_trace r (slot t i).trace q ≡ true
      → Taken r t q (slot t i)
  slot-Taken q i below some_id valid =
      (valid, get_traces-known t (slot t i).id i (c.found (slot t i).id i some_id below refl))

  collect-Taken :
      (q : TraceQueryParams) (left i depth : ℕ)
      → All (Taken r t q) (collect r t q left i depth)
        × (length (collect r t q left i depth) ≤ depth)
  unfolding collect
  collect-Taken q zero i depth = (tt, omega arith)
  collect-Taken q (suc left) i zero = (tt, omega arith)
  collect-Taken q (suc left) i (suc depth) =
      go (ring_index t.most_recent i (length t.traces)) (ring_index-below i) _ _
        (collect-Taken q left (i + 1) depth) (collect-Taken q left (i + 1) (suc depth))
    where
      go :
          (k : ℕ)
          → k < t.max_traces
          → (taken passed : List TraceAndId) → All (Taken r t q) taken × (length taken ≤ depth)
          → All (Taken r t q) passed × (length passed ≤ suc depth)
          → All (Taken r t q) (
              if (slot t k).id == 0
              then []
              else if valid_trace r (slot t k).trace q
              then slot t k ∷ taken
              else passed)
            × (length (
                  if (slot t k).id == 0
                  then []
                  else if valid_trace r (slot t k).trace q
                  then slot t k ∷ taken
                  else passed)
                ≤ suc depth)
      go k below taken passed x y = elim (Bool-cases ((slot t k).id == 0)) [
        | inl gap ↦ rw gap (tt, omega arith)
        | inr filled ↦ elim (Bool-cases (valid_trace r (slot t k).trace q)) [
          | inr misses ↦ rw (filled, misses) y
          | inl hits ↦
              rw (filled, hits)
                (
                  (
                    slot-Taken q k below (λ e. cc (filled, (nat_beq_iff (slot t k).id 0).1 e)) hits,
                    x.0,
                  ),
                  omega (arith, x.1),
                )
        ]
      ]

  -- On a store whose map and ring agree, findTraceAndIds refuses exactly the depths that are not
  -- from 1 to the number of slots; for another depth it finds at most as many traces, each of them
  -- matches the query, and each is what getTraces gives for its identifier.
  pub find_trace_and_ids-Answered :
      (q : TraceQueryParams) → Answered r t q (find_trace_and_ids r t q)
  unfolding find_trace_and_ids
  find_trace_and_ids-Answered q =
      elim (Bool-cases (leb_ℤ q.search_depth (pos 0) || ltb_ℤ (pos t.max_traces) q.search_depth)) [
        | inl refused ↦ rw refused (λ h. ground arith)
        | inr fine ↦
            let (all, short) = collect-Taken q (length t.traces) 0 (pos_part q.search_depth) in
            rw fine (all, ground arith, ground arith, ground arith)
      ]
