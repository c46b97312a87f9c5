-- ===== src/Tests/Memory.antt =====
-- Tests of the modules below Memory, on a ring of two slots.
use jaeger.Prelude.{ℕ, ◌≡◌, refl, List, [], ◌∷◌, ◌++◌, none, arith, if◌then◌else◌, take, nat_eq}
use jaeger.Prelude.Int.{pos}
use jaeger.Prelude.Map.{lookup, insert, erase}
use jaeger.Otlp.{Traces, flatten}
use jaeger.Tracestore.Query.{TraceQueryParams}
use jaeger.Memory.Match.{Readings}
use jaeger.Memory.Tenant.{
  Tenant, new_tenant, store_trace, store_traces, get_traces, find_trace_and_ids,
}
use jaeger.Memory.Ring.{IsConsistent, new_tenant-IsConsistent, store_traces-IsConsistent}
use jaeger.Memory.Reads.{only, evicts, get_traces-store_trace, get_traces-store_trace_other}
use jaeger.Memory.Search.{Answered, find_trace_and_ids-Answered}
use jaeger.Memory.Reshuffle.{group, reshuffle_resource_spans}
use jaeger.Memory.Spread.{IsOrder}
use jaeger.Memory.Grouping.{written, flatten-reshuffle_resource_spans}
use jaeger.Memory.Sampling.{StoredThroughput, new_sampling_store, insert_throughput, get_throughput}
use jaeger.Memory.Window.{Gathers, insert_all, newest_first, get_throughput-insert_all}
use jaeger.Tests.Data.{text, span, one_resource}

abbrev readings : Readings
readings = record {
  text = text;
  as_time = pos;
  kind_string = λ k. "Server";
  to_upper = λ s. s;
  to_lower = λ s. s;
}

abbrev trace_of : ℕ → Traces
trace_of id = one_resource (span id 1 0 1 9 ∷ [])

abbrev batch : List (ℕ × Traces)
batch = (1, trace_of 1) ∷ (2, trace_of 2) ∷ []

abbrev full : Tenant
full = store_traces readings batch (new_tenant 2)

store_traces-IsConsistent_example : IsConsistent (store_traces readings batch (new_tenant 2))
store_traces-IsConsistent_example =
    store_traces-IsConsistent readings batch (new_tenant 2)
      (new_tenant-IsConsistent 2 (omega arith))

get_traces-store_trace_example :
    get_traces (store_trace readings 1 (trace_of 1) full) (1 ∷ [])
    ≡ (only (get_traces full (1 ∷ [])) ++ trace_of 1) ∷ []
get_traces-store_trace_example =
    get_traces-store_trace readings full
      (store_traces-IsConsistent readings batch (new_tenant 2)
        (new_tenant-IsConsistent 2 (omega arith)))
      1 (trace_of 1)

get_traces-store_trace_other_example :
    get_traces (store_trace readings 3 (trace_of 3) full) (1 ∷ [])
    ≡ (if evicts full 3 1 then [] else get_traces full (1 ∷ []))
get_traces-store_trace_other_example =
    get_traces-store_trace_other readings full
      (store_traces-IsConsistent readings batch (new_tenant 2)
        (new_tenant-IsConsistent 2 (omega arith)))
      1 3 (trace_of 3) (λ e. absurd (omega arith)) (λ e. absurd (omega arith))
      (λ e. absurd (omega arith))

abbrev query : TraceQueryParams
query = record {
  service_name = "a";
  operation_name = "";
  attributes = [];
  start_time_min = none;
  start_time_max = none;
  duration_min = pos 0;
  duration_max = pos 0;
  search_depth = pos 2;
  filter = none;
  pagination = none;
}

find_trace_and_ids-Answered_example :
    Answered readings full query (find_trace_and_ids readings full query)
find_trace_and_ids-Answered_example =
    find_trace_and_ids-Answered readings full
      (store_traces-IsConsistent readings batch (new_tenant 2)
        (new_tenant-IsConsistent 2 (omega arith)))
      query

in-IsOrder : {A : Type 0} → IsOrder {A = A} (λ m. m)
in-IsOrder = record { unique = λ m u. u; same = λ m u k. refl }

abbrev mixed : Traces
mixed = one_resource (span 1 1 0 1 9 ∷ span 2 2 0 1 9 ∷ span 1 3 1 2 8 ∷ [])

flatten-reshuffle_resource_spans_example :
    flatten (group 1 (reshuffle_resource_spans (λ m. m) (λ m. m) mixed []))
    ≡ written 1 (flatten mixed)
flatten-reshuffle_resource_spans_example =
    flatten-reshuffle_resource_spans in-IsOrder in-IsOrder 1 mixed

abbrev calls : List (StoredThroughput ℕ)
calls =
    record { throughput = 7 ∷ []; time = pos 1 }
    ∷ record { throughput = 8 ∷ []; time = pos 5 }
    ∷ record { throughput = 9 ∷ []; time = pos 6 }
    ∷ []

get_throughput-insert_all_example : Gathers (pos 0) (pos 5) (take 2 (newest_first calls)) (
    get_throughput
      (pos 0)
      (pos 5)
      (insert_all calls (new_sampling_store {T = ℕ} {P = ℕ} {Q = ℕ} 2)))
get_throughput-insert_all_example = get_throughput-insert_all ℕ ℕ 2 calls (pos 0) (pos 5)

-- The end is included, and the oldest throughput is forgotten.
window_run :
    get_throughput (pos 0) (pos 5) (insert_all calls (new_sampling_store {T = ℕ} {P = ℕ} {Q = ℕ} 2))
    ≡ 8 ∷ []
unfolding get_throughput insert_throughput new_sampling_store
window_run = refl

-- The third trace takes the slot of the first one.
eviction_run :
    get_traces (store_trace readings 3 (trace_of 3) full) (1 ∷ 2 ∷ 3 ∷ [])
    ≡ trace_of 2 ∷ trace_of 3 ∷ []
unfolding store_traces get_traces new_tenant lookup insert erase
eviction_run = refl

-- The identifier of a trace without one is not taken out of the map when its slot is taken over: a
-- second part of it joins the trace that stands there now.
stale_run :
    get_traces
      (store_traces readings
        ((0, trace_of 0) ∷ (4, trace_of 4) ∷ (0, trace_of 0) ∷ [])
        (new_tenant 1))
      (4 ∷ [])
    ≡ (trace_of 4 ++ trace_of 0) ∷ []
unfolding store_traces get_traces new_tenant lookup insert erase
stale_run = refl
