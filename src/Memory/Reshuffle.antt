-- ===== src/Memory/Reshuffle.antt =====
-- reshuffleResourceSpans and its helpers, of internal/storage/v2/memory/memory.go: the spans that
-- are written are grouped by trace. `range_spans` and
-- `range_scopes` stand for the order in which Go ranges over a map.
use jaeger.Prelude.{ℕ, List, [], ◌∷◌, ◌++◌, Option, none, some, nat_eq}
use jaeger.Prelude.Map.{Map, lookup, insert}
use jaeger.Otlp.{Span, ScopeSpans, ResourceSpans}

abbrev pub or_nil : {A : Type 0} → Option (List A) → List A
or_nil none = []
or_nil (some xs) = xs

-- The slice that a map holds, empty where it holds none.
unfoldable pub group : {A : Type 0} → ℕ → Map ℕ (List A) → List A
group k m = or_nil (lookup k m)

-- Appends to the slice of `k`, which is made first if there is none.
unfoldable pub add_to_group : {A : Type 0} → ℕ → A → Map ℕ (List A) → Map ℕ (List A)
add_to_group k x m = insert k (group k m ++ x ∷ []) m

-- reshuffleSpans
unfoldable pub reshuffle_spans : List Span → Map ℕ (List Span) → Map ℕ (List Span)
unfolding add_to_group
reshuffle_spans [] m = m
reshuffle_spans (x ∷ xs) m = reshuffle_spans xs (add_to_group x.trace_id x m)

-- The inner loops of reshuffleScopeSpans and reshuffleResourceSpans: `wrap` makes the new
-- container, which takes all that `groups` holds for one trace.
unfoldable pub spread :
    {A B : Type 0} → (List A → B) → Map ℕ (List A) → Map ℕ (List B) → Map ℕ (List B)
unfolding add_to_group
spread wrap [] m = m
spread wrap ((k, xs) ∷ groups) m = spread wrap groups (add_to_group k (wrap xs) m)

-- The new scope gets no schema URL.
abbrev pub scope_of : ScopeSpans → List Span → ScopeSpans
scope_of s xs = record { scope = s.scope; schema_url = ""; spans = xs }

-- The new resource gets no schema URL.
abbrev pub resource_of : ResourceSpans → List ScopeSpans → ResourceSpans
resource_of r ss = record { resource = r.resource; schema_url = ""; scope_spans = ss }

module _ (range_spans : Map ℕ (List Span) → Map ℕ (List Span)) where
  -- reshuffleScopeSpans
  unfoldable pub reshuffle_scope_spans :
      List ScopeSpans → Map ℕ (List ScopeSpans) → Map ℕ (List ScopeSpans)
  unfolding reshuffle_spans spread
  reshuffle_scope_spans [] m = m
  reshuffle_scope_spans (s ∷ ss) m =
      reshuffle_scope_spans ss (spread (scope_of s) (range_spans (reshuffle_spans s.spans [])) m)

  module _ (range_scopes : Map ℕ (List ScopeSpans) → Map ℕ (List ScopeSpans)) where
    -- reshuffleResourceSpans
    unfoldable pub reshuffle_resource_spans :
        List ResourceSpans → Map ℕ (List ResourceSpans) → Map ℕ (List ResourceSpans)
    unfolding reshuffle_scope_spans spread
    reshuffle_resource_spans [] m = m
    reshuffle_resource_spans (r ∷ rs) m =
        reshuffle_resource_spans rs
          (spread (resource_of r) (range_scopes (reshuffle_scope_spans r.scope_spans [])) m)
