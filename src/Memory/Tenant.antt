-- ===== src/Memory/Tenant.antt =====
-- The store of one tenant, internal/storage/v2/memory/tenant.go: a ring of traces, with a map from
-- trace identifiers to places in it. Each method runs under the tenant's lock, as one step.
use jaeger.Prelude.{
  ℕ, zero, suc, ◌+◌, ◌%◌, String, List, [], ◌∷◌, ◌++◌, true, ◌&&◌, ◌||◌, Option, none, some, get_or,
  set, replicate, length, if◌then◌else◌, Eq, ◌==◌, nat_eq, string_eq, ==_iff, ◌≡◌, ◌↔◌, arith,
}
use jaeger.Prelude.Int.{ℤ, pos, negsuc, pos_part, ◌+ℤ◌, ◌-ℤ◌, ltb_ℤ, leb_ℤ}
use jaeger.Prelude.Map.{Map, lookup, insert, erase}
use jaeger.Otlp.{Span, ScopeSpans, ResourceSpans, Traces}
use jaeger.Memory.Clock.{Time, is_zero, before, after}
use jaeger.Tracestore.Query.{TraceQueryParams}
use jaeger.Memory.Match.{Readings, get_service_name_from_resource, from_otel_span_kind, valid_trace}

-- tracestore.Operation
pub record Operation : Type 0 where
  pub name : String
  pub span_kind : String

pub same_operation :
    (a b : Operation) → ((a.name == b.name && a.span_kind == b.span_kind) ≡ true) ↔ (a ≡ b)
same_operation a b = ground (arith, ==_iff a.name b.name, ==_iff a.span_kind b.span_kind)

instance abbrev pub operation_eq : Eq Operation
operation_eq = record {
  same = λ a b. a.name == b.name && a.span_kind == b.span_kind;
  same_iff = same_operation;
}

-- Go's struct{}, the values of a map that is a set.
pub data Present : Type 0 where
  present : Present

-- traceAndId
pub record TraceAndId : Type 0 where
  pub id : ℕ
  pub trace : Traces
  pub start_time : Time
  pub end_time : Time

pub record Tenant : Type 0 where
  pub max_traces : ℕ
  pub ids : Map ℕ ℕ
  pub traces : List TraceAndId
  pub most_recent : ℤ
  pub services : Map String Present
  pub operations : Map String (Map Operation Present)

-- A slot of the ring that was never filled.
abbrev pub empty_slot : TraceAndId
empty_slot = record { id = 0; trace = []; start_time = none; end_time = none }

-- newTenant
unfoldable pub new_tenant : ℕ → Tenant
new_tenant max_traces = record {
  max_traces = max_traces;
  ids = [];
  traces = replicate max_traces empty_slot;
  most_recent = negsuc 0;
  services = [];
  operations = [];
}

abbrev pub slot : Tenant → ℕ → TraceAndId
slot t i = get_or t.traces i empty_slot

-- The variables of the loops of storeTraces.
pub record Scan : Type 0 where
  pub services : Map String Present
  pub operations : Map String (Map Operation Present)
  pub start_time : Time
  pub end_time : Time

unfoldable pub operations_of : String → Map String (Map Operation Present) → Map Operation Present
unfolding lookup
operations_of service m = elim (lookup service m) [ none ↦ [] | some ops ↦ ops ]

-- The end of a round of storeTraces for a trace that the store has.
unfoldable pub extend : ℕ → Traces → Scan → Tenant → Tenant
unfolding before after
extend index spans st t =
    let old = slot t index in
    record t {
      services = st.services;
      operations = st.operations;
      traces = set t.traces index (record {
        id = old.id;
        trace = old.trace ++ spans;
        start_time = if before st.start_time old.start_time then st.start_time else old.start_time;
        end_time = if after st.end_time old.end_time then st.end_time else old.end_time;
      });
    }

-- `(t.mostRecent + 1) % t.config.MaxTraces`
unfoldable pub next_slot : Tenant → ℕ
unfolding ◌+ℤ◌
next_slot t = pos_part (t.most_recent +ℤ pos 1) % t.max_traces

-- The end of a round for a new trace, which takes the place of the oldest one.
unfoldable pub replace : ℕ → ℕ → Traces → Scan → Tenant → Tenant
unfolding insert erase
replace id next spans st t =
    let old = slot t next in
    record t {
      services = st.services;
      operations = st.operations;
      ids = insert id next (if old.id == 0 then t.ids else erase old.id t.ids);
      traces =
          set t.traces next
            (record { id = id; trace = spans; start_time = st.start_time; end_time = st.end_time });
      most_recent = pos next;
    }

-- `(t.mostRecent - i + n) % n`
unfoldable pub ring_index : ℤ → ℕ → ℕ → ℕ
unfolding ◌+ℤ◌ ◌-ℤ◌
ring_index most_recent i n = pos_part (most_recent -ℤ pos i +ℤ pos n) % n

module _ (r : Readings) where
  -- The body of the loop over the spans.
  unfoldable pub scan_span : String → Scan → Span → Scan
  unfolding operations_of insert from_otel_span_kind before after
  scan_span service st x =
      let start = some (r.as_time x.start_timestamp) in
      let finish = some (r.as_time x.end_timestamp) in
      let op : Operation = record { name = x.name; span_kind = from_otel_span_kind r x.kind } in
      record {
        services = st.services;
        operations =
            if service == ""
            then st.operations
            else insert service (insert op Present.present (operations_of service st.operations))
                st.operations;
        start_time =
            if is_zero st.start_time || before start st.start_time then start else st.start_time;
        end_time = if is_zero st.end_time || after finish st.end_time then finish else st.end_time;
      }

  unfoldable pub scan_spans : String → List Span → Scan → Scan
  unfolding scan_span
  scan_spans service [] st = st
  scan_spans service (x ∷ xs) st = scan_spans service xs (scan_span service st x)

  unfoldable pub scan_scopes : String → List ScopeSpans → Scan → Scan
  unfolding scan_spans
  scan_scopes service [] st = st
  scan_scopes service (s ∷ ss) st = scan_scopes service ss (scan_spans service s.spans st)

  unfoldable pub add_service : String → Scan → Scan
  unfolding insert
  add_service service st =
      if service == ""
      then st
      else record st { services = insert service Present.present st.services }

  unfoldable pub scan_resources : List ResourceSpans → Scan → Scan
  unfolding scan_scopes add_service get_service_name_from_resource
  scan_resources [] st = st
  scan_resources (x ∷ xs) st =
      let service = get_service_name_from_resource r x.resource in
      scan_resources xs (scan_scopes service x.scope_spans (add_service service st))

  -- One round of storeTraces.
  unfoldable pub store_trace : ℕ → Traces → Tenant → Tenant
  unfolding scan_resources lookup extend replace next_slot
  store_trace id spans t =
      let st = scan_resources spans (record {
        services = t.services;
        operations = t.operations;
        start_time = none;
        end_time = none;
      }) in
      elim (lookup id t.ids) [
        | some index ↦ extend index spans st t
        | none ↦ replace id (next_slot t) spans st t
      ]

  -- storeTraces, with the traces in the order in which Go ranges over them.
  unfoldable pub store_traces : List (ℕ × Traces) → Tenant → Tenant
  unfolding store_trace
  store_traces [] t = t
  store_traces ((id, spans) ∷ rest) t = store_traces rest (store_trace id spans t)

  -- The loop of findTraceAndIds, from round `i` on, with `left` rounds left; `depth` more traces
  -- are wanted.
  unfoldable pub collect : Tenant → TraceQueryParams → ℕ → ℕ → ℕ → List TraceAndId
  unfolding ring_index valid_trace
  collect t q zero i depth = []
  collect t q (suc left) i zero = []
  collect t q (suc left) i (suc depth) =
      let found = slot t (ring_index t.most_recent i (length t.traces)) in
      let taken = collect t q left (i + 1) depth in
      let passed = collect t q left (i + 1) (suc depth) in
      if found.id == 0 then [] else if valid_trace r found.trace q then found ∷ taken else passed

  -- findTraceAndIds; `none` is errInvalidSearchDepth.
  unfoldable pub find_trace_and_ids : Tenant → TraceQueryParams → Option (List TraceAndId)
  unfolding collect
  find_trace_and_ids t q =
      if leb_ℤ q.search_depth (pos 0) || ltb_ℤ (pos t.max_traces) q.search_depth
      then none
      else some (collect t q (length t.traces) 0 (pos_part q.search_depth))

-- getTraces
unfoldable pub get_traces : Tenant → List ℕ → List Traces
unfolding lookup
get_traces t [] = []
get_traces t (id ∷ ids) =
    let rest = get_traces t ids in
    elim (lookup id t.ids) [ none ↦ rest | some index ↦ (slot t index).trace ∷ rest ]
