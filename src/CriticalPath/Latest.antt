-- ===== src/CriticalPath/Latest.antt =====
-- findLastFinishingChildSpan returns the child that ends last among those that may be taken.
use jaeger.Prelude.{
  ap, ◌∙◌, ℕ, ◌≤◌, ◌<◌, ◌≡◌, refl, ◌⊎◌, inl, inr, List, [], ◌∷◌, Option, none, some, true, ◌&&◌,
  arith, ltb, In, Option-cases, Bool-cases, nat_eq,
}
use jaeger.Prelude.Map.{lookup}
use jaeger.CriticalPath.Spans.{CpSpan, SpanMap}
use jaeger.CriticalPath.Sanitize.{end_time}
use jaeger.CriticalPath.Compute.{
  Latest, before_return, consider, latest_of, find_last_finishing_child_span,
}

module _ (m : SpanMap) (ret : Option ℕ) where
  -- `c` is a listed child that is in the map, may be taken, and does not end at 0.
  pub record Candidate (ids : List ℕ) (c : CpSpan) : Type 0 where
    pub id : ℕ
    pub listed : In id ids
    pub found : lookup id m ≡ some c
    pub allowed : before_return ret c ≡ true
    pub ends : 0 < end_time c

  -- What the loop over `ids` makes of the best child so far.
  record Loop (ids : List ℕ) (b b' : Latest) : Type 0 where
    origin :
        (b' ≡ b)
        ⊎ ((c : CpSpan) × (b'.span ≡ some c) × (b'.max_end_time ≡ end_time c) × Candidate ids c)
    grows : b.max_end_time ≤ b'.max_end_time
    covers :
        (id : ℕ) (c : CpSpan)
        → In id ids
        → lookup id m ≡ some c
        → before_return ret c ≡ true
        → end_time c ≤ b'.max_end_time

  -- One round.
  record Round (id : ℕ) (b b' : Latest) : Type 0 where
    origin :
        (b' ≡ b)
        ⊎ ((c : CpSpan) × (b' ≡ record { span = some c; max_end_time = end_time c })
            × (lookup id m ≡ some c)
            × (before_return ret c ≡ true)
            × (b.max_end_time < end_time c))
    covers :
        (c : CpSpan)
        → lookup id m ≡ some c
        → before_return ret c ≡ true
        → end_time c ≤ b'.max_end_time

  consider-Round : (id : ℕ) (b : Latest) → Round id b (consider m ret id b)
  unfolding consider before_return
  consider-Round id b = elim (Option-cases (lookup id m)) [
    | inl gone ↦
        let r : consider m ret id b ≡ b = rw (gone, consider) refl in
        rw r (record { origin = inl refl; covers = λ c found. absurd (ground arith) })
    | inr (c, found) ↦ elim (Bool-cases (before_return ret c && ltb b.max_end_time (end_time c))) [
      | inl taken ↦
          let r : consider m ret id b ≡ record { span = some c; max_end_time = end_time c } =
            rw (found, consider, taken) refl in
          rw r (record {
            origin = inr (c, refl, found, ground arith, ground arith);
            covers = λ c' found' allowed. ground arith;
          })
      | inr left ↦
          let r : consider m ret id b ≡ b = rw (found, consider, left) refl in
          rw r (record { origin = inl refl; covers = λ c' found' allowed. ground arith })
    ]
  ]

  consider_grows : (id : ℕ) (b : Latest) → b.max_end_time ≤ (consider m ret id b).max_end_time
  consider_grows id b = elim ((consider-Round id b).origin) [
    | inl kept ↦ rw kept (omega arith)
    | inr (c, e, _, _, later) ↦ rw e (omega arith)
  ]

  widen : {id : ℕ} {ids : List ℕ} {c : CpSpan} → Candidate ids c → Candidate (id ∷ ids) c
  widen x = record {
    id = x.id;
    listed = inr x.listed;
    found = x.found;
    allowed = x.allowed;
    ends = x.ends;
  }

  Loop-cons :
      (id : ℕ) (ids : List ℕ) (b b' : Latest)
      → Loop ids (consider m ret id b) b'
      → Loop (id ∷ ids) b b'
  Loop-cons id ids b b' rest = record {
    origin = elim rest.origin [
      | inr (c, e, e', x) ↦ inr (c, e, e', widen x)
      | inl kept ↦ elim first.origin [
        | inl kept' ↦ inl (kept ∙ kept')
        | inr (c, e, found, allowed, later) ↦ inr (
          c,
          ap (λ (l : Latest). l.span) (kept ∙ e),
          ap (λ (l : Latest). l.max_end_time) (kept ∙ e),
          record {
            id = id;
            listed = inl refl;
            found = found;
            allowed = allowed;
            ends = omega arith;
          },
        )
      ]
    ];
    grows = omega (arith, consider_grows id b, rest.grows);
    covers = λ k c listed found allowed. elim listed [
      | inl here ↦ omega (arith, first.covers c (rw (← here) found) allowed, rest.grows)
      | inr later ↦ rest.covers k c later found allowed
    ];
  }
    where
      first : Round id b (consider m ret id b)
      first = consider-Round id b

  latest_of-Loop : (ids : List ℕ) (b : Latest) → Loop ids b (latest_of m ret ids b)
  unfolding latest_of
  latest_of-Loop [] b = record {
    origin = inl refl;
    grows = omega arith;
    covers = λ id c h. absurd h;
  }
  latest_of-Loop (id ∷ ids) b = Loop-cons id ids b _ (latest_of-Loop ids (consider m ret id b))

  abbrev nothing : Latest
  nothing = record { span = none; max_end_time = 0 }

  -- `o` is a child that may be taken, and no child that may be taken ends later; it is `none` only
  -- if no child that may be taken ends after 0.
  abbrev pub Last : List ℕ → Option CpSpan → Type 0
  Last ids (some c) =
      Candidate ids c × ((c' : CpSpan) → Candidate ids c' → end_time c' ≤ end_time c)
  Last ids none = (c : CpSpan) → ¬ Candidate ids c

  Loop-Last :
      (ids : List ℕ) (b : Latest) (o : Option CpSpan) → b.span ≡ o → Loop ids nothing b → Last ids o
  Loop-Last ids b none e l = λ c x. elim l.origin [
    | inl kept ↦
        let zero_end : b.max_end_time ≡ 0 = ap (λ (l : Latest). l.max_end_time) kept in
        omega (arith, l.covers x.id c x.listed x.found x.allowed, x.ends)
    | inr (c', e', _, _) ↦ cc
  ]
  Loop-Last ids b (some c) e l = elim l.origin [
    | inl kept ↦ absurd (cc (ap (λ (l : Latest). l.span) kept))
    | inr (c', e', at, x) ↦
        let same : c' ≡ c = cc in
        (
          rw (← same) x,
          λ k y. rw (← same) (omega (arith, l.covers y.id k y.listed y.found y.allowed)),
        )
  ]

-- The result is a listed child that is in the map, may be taken and does not end at 0, and no other
-- such child ends later; there is no result only if there is no such child.
pub find_last_finishing_child_span-Last :
    (m : SpanMap) (s : CpSpan) (ret : Option ℕ)
    → Last m ret s.child_span_ids (find_last_finishing_child_span m s ret)
unfolding find_last_finishing_child_span
find_last_finishing_child_span-Last m s ret =
    Loop-Last m ret s.child_span_ids (latest_of m ret s.child_span_ids (nothing m ret)) _ refl
      (latest_of-Loop m ret s.child_span_ids (nothing m ret))
