-- ===== src/Jptrace/Aggregator/Groups.antt =====
-- What AggregateTracesWithLimit gives to a consumer that accepts everything, described without
-- containers, counters or flags: the parts of the input are grouped by trace identifier, and each
-- group is cut to the limit, with a warning on its first span.
use mathlib.Core.Option
use mathlib.Core.Option.{get_or}
use jaeger.Prelude.{
  ℕ, ◌≡◌, refl, ◌∙◌, Option, none, some, Bool, not, ◌&&◌, List, [], ◌∷◌, ◌++◌, map, length, take,
  if◌then◌else◌, nat_eq, ◌==◌,
}
use jaeger.Prelude.Int.{ℤ, pos, pos_part, leb_ℤ}
use jaeger.Otlp.{
  Traces, Span, ScopeSpans, ResourceSpans, Place, place, flatten, flatten_scopes, flat, ValueText,
}
use jaeger.Jptrace.Warning.{add_warnings}
use jaeger.Jptrace.Aggregator.Copy.{positive}
use jaeger.Jptrace.Aggregator.Stream.{
  update_first, truncation_warning, mark_span, mark_scope, mark_resource, mark_trace_truncated,
}

abbrev pub Spans : Type 0
Spans = List (Place × Span)

-- The parts `ps`, grouped behind the group `acc`: parts without spans are passed over, and a part
-- joins the group before it if the two have one trace identifier.
unfoldable pub groups_from : Spans → List Spans → List Spans
groups_from [] [] = []
groups_from (a ∷ acc) [] = (a ∷ acc) ∷ []
groups_from acc ([] ∷ ps) = groups_from acc ps
groups_from [] ((x ∷ xs) ∷ ps) = groups_from (x ∷ xs) ps
groups_from (a ∷ acc) ((x ∷ xs) ∷ ps) =
    let joined = groups_from (a ∷ acc ++ x ∷ xs) ps in
    let apart = (a ∷ acc) ∷ groups_from (x ∷ xs) ps in
    if a.1.trace_id == x.1.trace_id then joined else apart

abbrev pub groups : List Spans → List Spans
groups = groups_from []

-- Whether a group has more spans than the limit.
unfoldable pub exceeds : ℤ → Spans → Bool
exceeds max_size g = positive max_size && not (leb_ℤ (pos (length g)) max_size)

module _ (text : ValueText) where
  unfoldable pub mark_head : ℕ → Spans → Spans
  mark_head n [] = []
  mark_head n ((p, x) ∷ xs) = (p, add_warnings text x (truncation_warning n ∷ [])) ∷ xs

  -- A group as the consumer sees it.
  unfoldable pub cut : ℤ → Spans → Spans
  cut max_size g =
      if exceeds max_size g then mark_head (pos_part max_size) (take (pos_part max_size) g) else g

  pub length-mark_head : (n : ℕ) (g : Spans) → length (mark_head n g) ≡ length g
  unfolding mark_head
  length-mark_head n [] = refl
  length-mark_head n (x ∷ xs) = refl

  -- `o` is `l` with its first span marked, or `none` where `l` has no span.
  abbrev Marked : {L : Type 0} → (L → Spans) → ℕ → L → Option L → Type 0
  Marked view n l none = view l ≡ []
  Marked view n l (some l') =
      (y : Place × Span) × (ys : Spans) × (view l ≡ y ∷ ys) × (view l' ≡ mark_head n (y ∷ ys))

  Marked-cons :
      {A : Type 0} (view : A → Spans) (n : ℕ) (a : A) (l : List A) (o : Option A)
      (rest : Option (List A))
      → Marked view n a o
      → Marked (flat view) n l rest
      → Marked
          (flat view)
          n
          (a ∷ l)
          (elim o [ some x' ↦ some (x' ∷ l) | none ↦ Option.map (◌∷◌ a) rest ])
  unfolding mark_head
  Marked-cons view n a l none none h k = rw (h, k) refl
  Marked-cons view n a l none (some l') h (y, ys, e, e') = (y, ys, rw h e, rw h e')
  Marked-cons view n a l (some a') rest (y, ys, e, e') k =
      (y, ys ++ flat view l, rw e refl, rw e' refl)

  Marked-update_first :
      {A : Type 0} (view : A → Spans) (f : A → Option A) (n : ℕ)
      → ((a : A) → Marked view n a (f a))
      → (l : List A) → Marked (flat view) n l (update_first f l)
  unfolding update_first
  Marked-update_first view f n each [] = refl
  Marked-update_first view f n each (a ∷ l) =
      Marked-cons view n a l (f a) (update_first f l) (each a) (Marked-update_first view f n each l)

  -- A view that goes on through a container.
  Marked-map :
      {L M : Type 0} (view : L → Spans) (view' : M → Spans) (n : ℕ) (wrap : L → M) (l : L) (m : M)
      (o : Option L)
      → view' m ≡ view l
      → ((k : L) → view' (wrap k) ≡ view k)
      → Marked view n l o
      → Marked view' n m (Option.map wrap o)
  Marked-map view view' n wrap l m none e each h = e ∙ h
  Marked-map view view' n wrap l m (some l') e each (y, ys, p, q) = (y, ys, e ∙ p, each l' ∙ q)

  mark_span-Marked :
      (q : Place) (n : ℕ) (xs : List Span)
      → Marked (λ l. map (λ x. (q, x)) l) n xs (update_first (mark_span text n) xs)
  unfolding update_first mark_span mark_head
  mark_span-Marked q n [] = refl
  mark_span-Marked q n (x ∷ xs) = ((q, x), map (λ x. (q, x)) xs, refl, refl)

  mark_scope-Marked :
      (r : ResourceSpans) (n : ℕ) (s : ScopeSpans)
      → Marked (λ s. map (λ x. (place r s, x)) s.spans) n s (mark_scope text n s)
  unfolding mark_scope
  mark_scope-Marked r n s =
      Marked-map (λ l. map (λ x. (place r s, x)) l) (λ s. map (λ x. (place r s, x)) s.spans) n
        (λ xs. record s { spans = xs }) s.spans s (update_first (mark_span text n) s.spans) refl
        (λ k. refl) (mark_span-Marked (place r s) n s.spans)

  mark_resource-Marked :
      (n : ℕ) (r : ResourceSpans)
      → Marked (λ r. flatten_scopes r r.scope_spans) n r (mark_resource text n r)
  unfolding mark_resource
  mark_resource-Marked n r =
      Marked-map (flatten_scopes r) (λ r. flatten_scopes r r.scope_spans) n
        (λ ss. record r { scope_spans = ss }) r.scope_spans r
        (update_first (mark_scope text n) r.scope_spans) refl (λ k. refl)
        (Marked-update_first _ (mark_scope text n) n (mark_scope-Marked r n) r.scope_spans)

  flatten-get_or :
      (t : Traces) (n : ℕ) (o : Option Traces)
      → Marked flatten n t o
      → flatten (get_or o t) ≡ mark_head n (flatten t)
  unfolding mark_head
  flatten-get_or t n none h = rw h refl
  flatten-get_or t n (some t') (y, ys, e, e') = rw (e, e') refl

  -- The warning goes to the first span of the trace, and nothing else changes.
  pub flatten-mark_trace_truncated :
      (t : Traces) (n : ℕ) → flatten (mark_trace_truncated text t n) ≡ mark_head n (flatten t)
  unfolding mark_trace_truncated
  flatten-mark_trace_truncated t n =
      flatten-get_or t n _
        (Marked-update_first _ (mark_resource text n) n (mark_resource-Marked n) t)
