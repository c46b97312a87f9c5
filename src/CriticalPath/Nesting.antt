-- ===== src/CriticalPath/Nesting.antt =====
-- removeOverflowingChildren, where the map is ranged over with parents before children.
use native.Mathlib.Decide.{ℕ_discrete}
use mathlib.Core.Path.{subst}
use jaeger.Prelude.{
  ℕ, ◌+◌, ◌<◌, ◌≡◌, ◌≢◌, refl, sym, ◌∙◌, ap, inl, inr, List, [], ◌∷◌, Option, none, some, nat_eq,
  In,
}
use jaeger.Prelude.Map.{
  lookup, lookup-insert_self, lookup-insert_ne, lookup-erase_self, lookup-erase_ne,
}
use jaeger.Prelude.Words.{u64_mod}
use jaeger.CriticalPath.Spans.{CpSpan, SpanMap}
use jaeger.CriticalPath.Sanitize.{drop_child, fit_id, remove_overflowing_children}
use jaeger.CriticalPath.Fit.{
  IsKeyed, Fits, Effect, absent, is_root, orphan, outside, kept, cut, fit_id-Effect,
}

-- The same span but for its list of children, or absent in both.
abbrev SameTimes : Option CpSpan → Option CpSpan → Type 0
SameTimes none none = Unit
SameTimes (some s) (some s') =
    (s'.start_time ≡ s.start_time)
    × (s'.duration ≡ s.duration)
    × (s'.parent_span_id ≡ s.parent_span_id)
    × (s'.span_id ≡ s.span_id)
SameTimes _ _ = ⊥

SameTimes-refl : (o : Option CpSpan) → SameTimes o o
SameTimes-refl none = tt
SameTimes-refl (some s) = (refl, refl, refl, refl)

SameTimes-eq : {o o' : Option CpSpan} → o' ≡ o → SameTimes o o'
SameTimes-eq {o} e = rw e (SameTimes-refl o)

module _ (parent : ℕ → ℕ) (m : SpanMap) (keyed : IsKeyed parent m) (id : ℕ)
    (apart : parent id ≢ id) where
  unchanged :
      (s : CpSpan)
      → lookup id m ≡ some s
      → (s.span_id ≡ id) × (s.parent_span_id ≡ parent id) × (s.start_time + s.duration < u64_mod)
  unchanged s h = (keyed.id id s h, keyed.up id s h, keyed.no_wrap id s h)

  lookup-drop_child_self :
      (s p : CpSpan)
      → lookup id m ≡ some s
      → lookup (parent id) m ≡ some p
      → lookup id (drop_child s p m) ≡ none
  unfolding drop_child
  lookup-drop_child_self s p found found' =
      rw (keyed.id id s found, keyed.id (parent id) p found')
        (lookup-insert_ne (parent id) id _ _ apart ∙ lookup-erase_self id m)

  drop_child-SameTimes :
      (s p : CpSpan) (k : ℕ)
      → lookup id m ≡ some s
      → lookup (parent id) m ≡ some p
      → k ≢ id
      → SameTimes (lookup k m) (lookup k (drop_child s p m))
  unfolding drop_child
  drop_child-SameTimes s p k found found' other =
      rw (keyed.id id s found, keyed.id (parent id) p found')
        (elim (ℕ_discrete k (parent id)) [
          | yes e ↦
              rw (e, found', lookup-insert_self)
                (refl, refl, refl, sym (keyed.id (parent id) p found'))
          | no ne ↦ SameTimes-eq (
              lookup-insert_ne (parent id) k _ _ (λ e. ne (sym e))
              ∙ lookup-erase_ne id k m (λ e. other (sym e)))
        ])

  -- The other spans keep their times and their parents.
  Effect-SameTimes :
      (m' : SpanMap) (k : ℕ) → Effect id parent m m' → k ≢ id → SameTimes (lookup k m) (lookup k m')
  Effect-SameTimes m' k (absent _ e) other = rw e (SameTimes-refl _)
  Effect-SameTimes m' k (is_root _ e) other = rw e (SameTimes-refl _)
  Effect-SameTimes m' k (orphan e) other =
      rw e (SameTimes-eq (lookup-erase_ne id k m (λ h. other (sym h))))
  Effect-SameTimes m' k (outside s p found found' e) other =
      rw e (drop_child-SameTimes s p k found found' other)
  Effect-SameTimes m' k (kept s p _ _ _ e) other = rw e (SameTimes-refl _)
  Effect-SameTimes m' k (cut s s' p _ _ _ _ _ _ e) other =
      rw e (SameTimes-eq (lookup-insert_ne id k s' m (λ h. other (sym h))))

  -- The span itself is gone, or lies within its parent.
  Effect-Fits :
      (m' : SpanMap) (s' : CpSpan)
      → Effect id parent m m'
      → parent id ≢ 0
      → lookup id m' ≡ some s'
      → (p : CpSpan) × (lookup (parent id) m' ≡ some p) × Fits s' p
  Effect-Fits m' s' (absent gone e) has h = absurd (cc (gone, ap (lookup id) e))
  Effect-Fits m' s' (is_root none_there e) has h = absurd (has none_there)
  Effect-Fits m' s' (orphan e) has h = absurd (cc (ap (lookup id) e, lookup-erase_self id m))
  Effect-Fits m' s' (outside s p found found' e) has h =
      absurd (cc (ap (lookup id) e, lookup-drop_child_self s p found found'))
  Effect-Fits m' s' (kept s p found found' fits e) has h =
      let same : s ≡ s' = cc (ap (lookup id) e) in (p, rw e found', rw (← same) fits)
  Effect-Fits m' s' (cut s s'' p found found' fits _ _ _ e) has h =
      let same : s'' ≡ s' = cc (ap (lookup id) e, lookup-insert_self id s'' m) in
      (
        p,
        rw e (lookup-insert_ne id (parent id) s'' m (λ h. apart (sym h)) ∙ found'),
        rw (← same) fits,
      )

  -- What the round leaves is keyed again: the span that was cut has its identifier and its parent.
  Effect-kept_self :
      (m' : SpanMap) (s' : CpSpan)
      → Effect id parent m m'
      → lookup id m' ≡ some s'
      → (s'.span_id ≡ id)
        × (s'.parent_span_id ≡ parent id)
        × (s'.start_time + s'.duration < u64_mod)
  Effect-kept_self m' s' (absent gone e) h = absurd (cc (gone, ap (lookup id) e))
  Effect-kept_self m' s' (is_root _ e) h = unchanged s' (ap (lookup id) (sym e) ∙ h)
  Effect-kept_self m' s' (orphan e) h = absurd (cc (ap (lookup id) e, lookup-erase_self id m))
  Effect-kept_self m' s' (outside s p found found' e) h =
      absurd (cc (ap (lookup id) e, lookup-drop_child_self s p found found'))
  Effect-kept_self m' s' (kept s p _ _ _ e) h = unchanged s' (ap (lookup id) (sym e) ∙ h)
  Effect-kept_self m' s' (cut s s'' p found _ _ same_id same_up word e) h =
      let same : s'' ≡ s' = cc (ap (lookup id) e, lookup-insert_self id s'' m) in
      rw (← same) (same_id ∙ keyed.id id s found, same_up ∙ keyed.up id s found, word)

-- A span that is present in both is the same but for its children.
SameTimes-inv :
    (o : Option CpSpan) (s' : CpSpan)
    → SameTimes o (some s')
    → (s : CpSpan) × (o ≡ some s)
      × (s'.start_time ≡ s.start_time)
      × (s'.duration ≡ s.duration)
      × (s'.parent_span_id ≡ s.parent_span_id)
      × (s'.span_id ≡ s.span_id)
SameTimes-inv none s' h = absurd h
SameTimes-inv (some s) s' h = (s, refl, h.0, h.1, h.2, h.3)

SameTimes-fwd :
    (s : CpSpan) (o' : Option CpSpan)
    → SameTimes (some s) o'
    → (s' : CpSpan) × (o' ≡ some s') × (s'.start_time ≡ s.start_time) × (s'.duration ≡ s.duration)
SameTimes-fwd s none h = absurd h
SameTimes-fwd s (some s') h = (s', refl, h.0, h.1)

Effect-IsKeyed :
    (parent : ℕ → ℕ) (m m' : SpanMap) (id : ℕ)
    → IsKeyed parent m
    → parent id ≢ id
    → Effect id parent m m'
    → IsKeyed parent m'
Effect-IsKeyed parent m m' id keyed apart e = record {
  id = λ k s found. (at k s found).0;
  up = λ k s found. (at k s found).1;
  no_wrap = λ k s found. (at k s found).2;
}
  where
    at :
        (k : ℕ) (s : CpSpan)
        → lookup k m' ≡ some s
        → (s.span_id ≡ k) × (s.parent_span_id ≡ parent k) × (s.start_time + s.duration < u64_mod)
    at k s found = elim (ℕ_discrete k id) [
      | yes same ↦ rw same (
          Effect-kept_self parent m keyed id apart m' s e
            (ap (λ j. lookup j m') (sym same) ∙ found))
      | no other ↦
          let (s₀, found₀, e₁, e₂, e₃, e₄) = SameTimes-inv (lookup k m) s (
            subst (SameTimes (lookup k m)) found
              (Effect-SameTimes parent m keyed id apart m' k e other)) in
          (
            e₄ ∙ keyed.id k s₀ found₀,
            e₃ ∙ keyed.up k s₀ found₀,
            rw (e₁, e₂) (keyed.no_wrap k s₀ found₀),
          )
    ]

-- Each span stands behind its parent in the order, if its parent is there at all.
abbrev pub ParentsFirst : (ℕ → ℕ) → List ℕ → Type 0
ParentsFirst parent [] = Unit
ParentsFirst parent (id ∷ rest) =
    (parent id ≢ id) × ¬ In (parent id) rest × ParentsFirst parent rest

-- Every span outside `order` lies within its parent, which is outside `order` too.
record Settled (parent : ℕ → ℕ) (order : List ℕ) (m : SpanMap) : Type 0 where
  keyed : IsKeyed parent m
  nested :
      (k : ℕ) (s : CpSpan)
      → ¬ In k order
      → lookup k m ≡ some s
      → parent k ≢ 0
      → (p : CpSpan) × (lookup (parent k) m ≡ some p) × Fits s p
  parents : (k : ℕ) (s : CpSpan) → ¬ In k order → lookup k m ≡ some s → ¬ In (parent k) order

Fits-times :
    (s s' p p' : CpSpan)
    → s'.start_time ≡ s.start_time
    → s'.duration ≡ s.duration
    → p'.start_time ≡ p.start_time
    → p'.duration ≡ p.duration
    → Fits s p
    → Fits s' p'
Fits-times s s' p p' a b c d h = record {
  starts = rw (a, c) h.starts;
  ends = rw (a, b, c, d) h.ends;
  inside = rw (a, c, d) h.inside;
}

Settled-fit_id :
    (parent : ℕ → ℕ) (id : ℕ) (rest : List ℕ) (m : SpanMap)
    → parent id ≢ id
    → ¬ In (parent id) rest
    → Settled parent (id ∷ rest) m
    → Settled parent rest (fit_id id m)
Settled-fit_id parent id rest m apart first h = record {
  keyed = Effect-IsKeyed parent m m' id h.keyed apart effect;
  nested = λ k s out found has. elim (ℕ_discrete k id) [
    | yes same ↦
        let (p, found', fits) =
          Effect-Fits parent m h.keyed id apart m' s effect (rw (← same) has)
            (ap (λ j. lookup j m') (sym same) ∙ found) in
        (p, ap (λ j. lookup (parent j) m') same ∙ found', fits)
    | no other ↦
        let (s₀, found₀, e₁, e₂, _, _) = before k s other found in
        let out' = outside_both k other out in
        let (p, found', fits) = h.nested k s₀ out' found₀ has in
        let parent_other : parent k ≢ id = λ e. h.parents k s₀ out' found₀ (inl e) in
        let (p', found'', e₃, e₄) = after (parent k) p parent_other found' in
        (p', found'', Fits-times s₀ s p p' e₁ e₂ e₃ e₄ fits)
  ];
  parents = λ k s out found. elim (ℕ_discrete k id) [
    | yes same ↦ λ i. first (subst (λ j. In (parent j) rest) same i)
    | no other ↦
        let (s₀, found₀, _, _, _, _) = before k s other found in
        λ i. h.parents k s₀ (outside_both k other out) found₀ (inr i)
  ];
}
  where
    m' : SpanMap
    m' = fit_id id m

    effect : Effect id parent m m'
    effect = fit_id-Effect parent m h.keyed id

    times : (k : ℕ) → k ≢ id → SameTimes (lookup k m) (lookup k m')
    times k other = Effect-SameTimes parent m h.keyed id apart m' k effect other

    before :
        (k : ℕ) (s : CpSpan)
        → k ≢ id
        → lookup k m' ≡ some s
        → (s₀ : CpSpan) × (lookup k m ≡ some s₀)
          × (s.start_time ≡ s₀.start_time)
          × (s.duration ≡ s₀.duration)
          × (s.parent_span_id ≡ s₀.parent_span_id)
          × (s.span_id ≡ s₀.span_id)
    before k s other found =
        SameTimes-inv (lookup k m) s (subst (SameTimes (lookup k m)) found (times k other))

    after :
        (k : ℕ) (s : CpSpan)
        → k ≢ id
        → lookup k m ≡ some s
        → (s' : CpSpan) × (lookup k m' ≡ some s')
          × (s'.start_time ≡ s.start_time)
          × (s'.duration ≡ s.duration)
    after k s other found =
        SameTimes-fwd s (lookup k m') (subst (λ o. SameTimes o (lookup k m')) found (times k other))

    outside_both : (k : ℕ) → k ≢ id → ¬ In k rest → ¬ In k (id ∷ rest)
    outside_both k other out i = elim i [ inl e ↦ other e | inr later ↦ out later ]

Settled-remove :
    (parent : ℕ → ℕ) (order : List ℕ) (m : SpanMap)
    → ParentsFirst parent order
    → Settled parent order m
    → Settled parent [] (remove_overflowing_children order m)
unfolding remove_overflowing_children
Settled-remove parent [] m first h = h
Settled-remove parent (id ∷ rest) m first h =
    Settled-remove parent rest (fit_id id m) first.2
      (Settled-fit_id parent id rest m first.0 first.1 h)

-- If the map is ranged over with parents before children, then every span that is left and has a
-- parent lies within it: the parent is left too, the child does not start before it or end after
-- it, and starts before its end if the parent has a length. Nothing is said of another order.
pub remove_overflowing_children-nests :
    (parent : ℕ → ℕ) (order : List ℕ) (m : SpanMap)
    → IsKeyed parent m
    → ((k : ℕ) (s : CpSpan) → lookup k m ≡ some s → In k order)
    → ParentsFirst parent order
    → (k : ℕ) (s : CpSpan) → lookup k (remove_overflowing_children order m) ≡ some s
    → parent k ≢ 0
    → (p : CpSpan) × (lookup (parent k) (remove_overflowing_children order m) ≡ some p) × Fits s p
remove_overflowing_children-nests parent order m keyed covers first k s found has =
    (Settled-remove parent order m first (record {
      keyed = keyed;
      nested = λ j x out there _. absurd (out (covers j x there));
      parents = λ j x out there. absurd (out (covers j x there));
    })).nested
      k s (λ i. i) found has
