-- ===== src/Jptrace/Aggregator/Copy.antt =====
-- copySpansUpToLimit, MergeTraces and mergeTracesWithLimit of internal/jptrace/aggregator.go.
use jaeger.Prelude.{
  ℕ, ◌+◌, ◌-◌, Bool, true, false, not, ◌&&◌, ◌||◌, List, [], ◌∷◌, ◌++◌, leb, if◌then◌else◌,
}
use jaeger.Prelude.Int.{ℤ, pos, pos_part, leb_ℤ, ltb_ℤ}
use jaeger.Otlp.{Traces, Span, ScopeSpans, ResourceSpans}

-- Changes the last element: what pdata's handle on an element just appended writes to.
unfoldable pub modify_last {ℓ} : {A : Type ℓ} → (A → A) → List A → List A
modify_last f [] = []
modify_last f (x ∷ []) = f x ∷ []
modify_last f (x ∷ y ∷ ys) = x ∷ modify_last f (y ∷ ys)

-- The variables of copySpansUpToLimit.
pub record CopyState : Type 0 where
  pub dest : Traces
  pub copied : ℕ
  pub resource_added : Bool
  pub scope_added : Bool

unfoldable pub add_resource : ResourceSpans → CopyState → CopyState
add_resource r st =
    if st.resource_added
    then st
    else record st { dest = st.dest ++ record r { scope_spans = [] } ∷ []; resource_added = true }

unfoldable pub add_scope : ScopeSpans → CopyState → CopyState
unfolding modify_last
add_scope s st = if st.scope_added then st else record st {
  dest =
      modify_last
        (λ (r : ResourceSpans). record r {
          scope_spans = r.scope_spans ++ record s { spans = [] } ∷ [];
        })
        st.dest;
  scope_added = true;
}

unfoldable pub push_span : Span → CopyState → CopyState
unfolding modify_last
push_span x st = record st {
  dest =
      modify_last
        (λ (r : ResourceSpans). record r {
          scope_spans =
              modify_last (λ (s : ScopeSpans). record s { spans = s.spans ++ x ∷ [] })
                r.scope_spans;
        })
        st.dest;
  copied = st.copied + 1;
}

-- The loop over the spans of one scope. A `return` leaves the state as it is, and the loops
-- outside return at once too, since they make the same test.
unfoldable pub copy_spans : ℕ → ResourceSpans → ScopeSpans → List Span → CopyState → CopyState
unfolding push_span add_scope add_resource
copy_spans limit r s [] st = st
copy_spans limit r s (x ∷ xs) st =
    if leb limit st.copied
    then st
    else copy_spans limit r s xs (push_span x (add_scope s (add_resource r st)))

unfoldable pub copy_scopes : ℕ → ResourceSpans → List ScopeSpans → CopyState → CopyState
unfolding copy_spans
copy_scopes limit r [] st = st
copy_scopes limit r (s ∷ ss) st =
    if leb limit st.copied
    then st
    else copy_scopes limit r ss (copy_spans limit r s s.spans (record st { scope_added = false }))

unfoldable pub copy_resources : ℕ → Traces → CopyState → CopyState
unfolding copy_scopes
copy_resources limit [] st = st
copy_resources limit (r ∷ rs) st =
    if leb limit st.copied
    then st
    else copy_resources limit rs
        (copy_scopes limit r r.scope_spans (record st { resource_added = false }))

-- copySpansUpToLimit; its callers give a limit that is not negative.
unfoldable pub copy_spans_up_to_limit : Traces → Traces → ℕ → Traces
unfolding copy_resources
copy_spans_up_to_limit dest src limit =
    (copy_resources limit src
      (record { dest = dest; copied = 0; resource_added = false; scope_added = false })).dest

-- MergeTraces
unfoldable pub merge_traces : Traces → Traces → Traces
merge_traces dest [] = dest
merge_traces dest (r ∷ rs) = merge_traces (dest ++ r ∷ []) rs

pub record Merged : Type 0 where
  pub dest : Traces
  pub count : ℕ
  pub truncated : Bool

abbrev pub positive : ℤ → Bool
positive m = ltb_ℤ (pos 0) m

-- mergeTracesWithLimit
unfoldable pub merge_traces_with_limit : Traces → ℕ → Traces → ℕ → ℤ → Merged
unfolding merge_traces copy_spans_up_to_limit
merge_traces_with_limit dest dest_count src src_count max_size =
    if positive max_size && leb_ℤ max_size (pos dest_count)
    then record { dest = dest; count = dest_count; truncated = true }
    else if not (positive max_size) || leb_ℤ (pos (dest_count + src_count)) max_size
    then record { dest = merge_traces dest src; count = dest_count + src_count; truncated = false }
    else record {
      dest = copy_spans_up_to_limit dest src (pos_part max_size - dest_count);
      count = pos_part max_size;
      truncated = true;
    }
