-- ===== src/CriticalPath/Fit.antt =====
-- One round of removeOverflowingChildren: what it does to the span that it is about, and that it
-- leaves the times of the others alone.
use jaeger.Prelude.{
  ℕ, ◌+◌, ◌-◌, ◌≤◌, ◌<◌, ◌≡◌, refl, sym, ◌∙◌, inl, inr, none, some, arith, ltb, leb, Option-cases,
  Bool-cases, nat_eq, ◌==◌, ==_iff,
}
use jaeger.Prelude.Map.{lookup, insert, erase}
use jaeger.Prelude.Words.{u64_mod, add64_of_lt, sub64_of_le, sub64}
use jaeger.CriticalPath.Spans.{CpSpan, SpanMap}
use jaeger.CriticalPath.Sanitize.{end_time, drop_child, fit_child, fit_span, fit_id}

-- Each span is under its own identifier, has the parent `parent` gives, and its end fits a word.
pub record IsKeyed (parent : ℕ → ℕ) (m : SpanMap) : Type 0 where
  pub id : (k : ℕ) (s : CpSpan) → lookup k m ≡ some s → s.span_id ≡ k
  pub up : (k : ℕ) (s : CpSpan) → lookup k m ≡ some s → s.parent_span_id ≡ parent k
  pub no_wrap : (k : ℕ) (s : CpSpan) → lookup k m ≡ some s → s.start_time + s.duration < u64_mod

-- A child within its parent; it starts before the parent's end unless the parent has no length.
pub record Fits (s p : CpSpan) : Type 0 where
  pub starts : p.start_time ≤ s.start_time
  pub ends : s.start_time + s.duration ≤ p.start_time + p.duration
  pub inside : 0 < p.duration → s.start_time < p.start_time + p.duration

-- What one round makes of the map.
pub data Effect (id : ℕ) (parent : ℕ → ℕ) (m m' : SpanMap) : Type 0 where
  absent : lookup id m ≡ none → m' ≡ m → Effect id parent m m'
  is_root : parent id ≡ 0 → m' ≡ m → Effect id parent m m'
  orphan : m' ≡ erase id m → Effect id parent m m'
  outside :
      (s p : CpSpan)
      → lookup id m ≡ some s
      → lookup (parent id) m ≡ some p
      → m' ≡ drop_child s p m
      → Effect id parent m m'
  kept :
      (s p : CpSpan)
      → lookup id m ≡ some s
      → lookup (parent id) m ≡ some p
      → Fits s p
      → m' ≡ m
      → Effect id parent m m'
  cut :
      (s s' p : CpSpan)
      → lookup id m ≡ some s
      → lookup (parent id) m ≡ some p
      → Fits s' p
      → s'.span_id ≡ s.span_id
      → s'.parent_span_id ≡ s.parent_span_id
      → s'.start_time + s'.duration < u64_mod
      → m' ≡ insert id s' m
      → Effect id parent m m'

module _ (parent : ℕ → ℕ) (m : SpanMap) (keyed : IsKeyed parent m) (id : ℕ) where
  module _ (s p : CpSpan) (found : lookup id m ≡ some s)
      (found' : lookup (parent id) m ≡ some p) where
    end-plain : end_time s ≡ s.start_time + s.duration
    end-plain = add64_of_lt _ _ (keyed.no_wrap id s found)

    parent_end-plain : end_time p ≡ p.start_time + p.duration
    parent_end-plain = add64_of_lt _ _ (keyed.no_wrap (parent id) p found')

    -- The child gets the time from `a` to `b`.
    cut-Effect :
        (a b : ℕ) (m' : SpanMap)
        → a ≤ b
        → p.start_time ≤ a
        → b ≤ p.start_time + p.duration
        → (0 < p.duration → a < p.start_time + p.duration)
        → m' ≡ insert s.span_id (record s { start_time = a; duration = sub64 b a }) m
        → Effect id parent m m'
    cut-Effect a b m' order low high inside e =
        let word : b < u64_mod = omega (arith, keyed.no_wrap (parent id) p found') in
        let d : sub64 b a ≡ b - a = sub64_of_le b a order word in
        cut s (record s { start_time = a; duration = sub64 b a }) p found found'
          (record { starts = low; ends = omega (arith, d); inside = inside }) refl refl
          (omega (arith, d)) (rw (← keyed.id id s found) e)

    fit_child-Effect : Effect id parent m (fit_child s p m)
    unfolding fit_child
    fit_child-Effect = elim (Bool-cases (leb p.start_time s.start_time)) [
      | inl after ↦ elim (Bool-cases (leb (end_time p) s.start_time)) [
        | inl late ↦ outside s p found found' (rw (after, late) refl)
        | inr early ↦ elim (Bool-cases (ltb (end_time p) (end_time s))) [
          | inl over ↦
              cut-Effect s.start_time (end_time p) _ (ground arith) (ground arith)
                (omega (arith, parent_end-plain)) (λ _. ground (arith, parent_end-plain))
                (rw (after, early, over) refl)
          | inr fine ↦
              kept s p found found'
                (record {
                  starts = ground arith;
                  ends = ground (arith, end-plain, parent_end-plain);
                  inside = λ _. ground (arith, end-plain, parent_end-plain);
                })
                (rw (after, early, fine) refl)
        ]
      ]
      | inr before ↦ elim (Bool-cases (leb (end_time s) p.start_time)) [
        | inl gone ↦ outside s p found found' (rw (before, gone) refl)
        | inr reaches ↦ elim (Bool-cases (leb (end_time s) (end_time p))) [
          | inl within ↦
              cut-Effect p.start_time (end_time s) _ (ground arith) (omega arith)
                (ground (arith, end-plain, parent_end-plain)) (λ h. omega arith)
                (rw (before, reaches, within) refl)
          | inr around ↦
              cut-Effect p.start_time (end_time p) _ (omega (arith, parent_end-plain)) (omega arith)
                (omega (arith, parent_end-plain)) (λ h. omega arith)
                (rw (before, reaches, around) refl)
        ]
      ]
    ]

  fit_span-Effect : (s : CpSpan) → lookup id m ≡ some s → Effect id parent m (fit_span m s)
  unfolding fit_span
  fit_span-Effect s found = elim (Bool-cases (s.parent_span_id == 0)) [
    | inl parentless ↦
        is_root (sym (keyed.up id s found) ∙ (==_iff _ _).0 parentless) (rw parentless refl)
    | inr has_parent ↦ elim (Option-cases (lookup s.parent_span_id m)) [
      | inl gone ↦ orphan (rw (has_parent, gone, ← keyed.id id s found) refl)
      | inr (p, found') ↦
          rw (has_parent, found') (fit_child-Effect s p found (rw (← keyed.up id s found) found'))
    ]
  ]

  pub fit_id-Effect : Effect id parent m (fit_id id m)
  unfolding fit_id
  fit_id-Effect = elim (Option-cases (lookup id m)) [
    | inl gone ↦ absent gone (rw (gone, fit_id) refl)
    | inr (s, found) ↦ rw (found, fit_id) (fit_span-Effect s found)
  ]
