-- ===== src/Memory/Store.antt =====
-- internal/storage/v2/memory/memory.go: the store of all tenants. A tenant is named by the context
-- of a call, so its name is an argument. What a reader is given is a copy of what the store holds;
-- as values are never shared here, `cloneTrace` is left out.
use jaeger.Prelude.{
  ℕ, true, false, String, List, [], ◌∷◌, map, ◌||◌, Option, none, some, if◌then◌else◌, ◌==◌, nat_eq,
  string_eq,
}
use jaeger.Prelude.Int.{ℤ, pos, pos_part, leb_ℤ}
use jaeger.Prelude.Map.{Map, lookup, insert, keys}
use jaeger.Otlp.{Traces, Span, ScopeSpans}
use jaeger.Tracestore.Query.{TraceQueryParams, SearchCapabilities}
use jaeger.Memory.Match.{Readings}
use jaeger.Memory.Reshuffle.{reshuffle_resource_spans}
use jaeger.Memory.Tenant.{
  Tenant, TraceAndId, Operation, operation_eq, new_tenant, store_traces, find_trace_and_ids,
  get_traces, operations_of,
}

pub record Store : Type 0 where
  pub max_traces : ℕ
  pub per_tenant : Map String Tenant

-- NewStore; `none` is errInvalidMaxTraces.
unfoldable pub new_store : ℤ → Option Store
new_store max_traces =
    if leb_ℤ max_traces (pos 0)
    then none
    else some (record { max_traces = pos_part max_traces; per_tenant = [] })

-- getTenant: a tenant that is not there yet is made and kept.
unfoldable pub get_tenant : String → Store → Store × Tenant
unfolding lookup insert new_tenant
get_tenant id st =
    let fresh = new_tenant st.max_traces in
    elim (lookup id st.per_tenant) [
      | some t ↦ (st, t)
      | none ↦ (record st { per_tenant = insert id fresh st.per_tenant }, fresh)
    ]

-- SearchCapabilities: a search without a service name is one of every service, as in
-- `valid_resource`.
abbrev pub search_capabilities : SearchCapabilities
search_capabilities = record {
  without_service_name = true;
  same_span_conjunction = false;
  filter = none;
  paginated = false;
  span_search = false;
}

-- Purge
unfoldable pub purge : Store → Store
purge st = record st { per_tenant = [] }

-- GetServices
unfoldable pub get_services : String → Store → Store × List String
unfolding get_tenant
get_services tenant st = let (st', t) = get_tenant tenant st in (st', keys t.services)

unfoldable pub of_kind : String → List Operation → List Operation
of_kind kind [] = []
of_kind kind (op ∷ ops) =
    let rest = of_kind kind ops in if kind == "" || kind == op.span_kind then op ∷ rest else rest

-- GetOperations
unfoldable pub get_operations : String → String → String → Store → Store × List Operation
unfolding get_tenant operations_of of_kind
get_operations tenant service kind st =
    let (st', t) = get_tenant tenant st in
    (st', of_kind kind (keys (operations_of service t.operations)))

-- GetTraces: the traces that are given one by one.
unfoldable pub read_traces : String → List ℕ → Store → Store × List Traces
unfolding get_tenant get_traces
read_traces tenant ids st = let (st', t) = get_tenant tenant st in (st', get_traces t ids)

module _ (r : Readings) where
  -- FindTraces
  unfoldable pub find_traces : String → TraceQueryParams → Store → Store × Option (List Traces)
  unfolding get_tenant find_trace_and_ids
  find_traces tenant q st =
      let (st', t) = get_tenant tenant st in
      (
        st',
        elim (find_trace_and_ids r t q) [
          | none ↦ none
          | some found ↦ some (map (λ (e : TraceAndId). e.trace) found)
        ],
      )

  -- FindTraceIDs
  unfoldable pub find_trace_ids : String → TraceQueryParams → Store → Store × Option (List ℕ)
  unfolding get_tenant find_trace_and_ids
  find_trace_ids tenant q st =
      let (st', t) = get_tenant tenant st in
      (
        st',
        elim (find_trace_and_ids r t q) [
          | none ↦ none
          | some found ↦ some (map (λ (e : TraceAndId). e.id) found)
        ],
      )

  -- WriteTraces; `range` orders the traces that are written, the others the maps on the way there.
  unfoldable pub write_traces :
      (Map ℕ (List Span) → Map ℕ (List Span))
      → (Map ℕ (List ScopeSpans) → Map ℕ (List ScopeSpans))
      → (Map ℕ Traces → Map ℕ Traces)
      → String
      → Traces
      → Store
      → Store
  unfolding get_tenant store_traces insert reshuffle_resource_spans
  write_traces range_spans range_scopes range tenant td st =
      let (st', t) = get_tenant tenant st in
      let groups = reshuffle_resource_spans range_spans range_scopes td [] in
      record st' { per_tenant = insert tenant (store_traces r (range groups) t) st'.per_tenant }
