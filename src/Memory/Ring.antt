-- ===== src/Memory/Ring.antt =====
-- The ring of internal/storage/v2/memory/tenant.go and the map into it agree.
use native.Mathlib.Nat.{mod-lt}
use native.Mathlib.Decide.{ℕ_discrete}
use jaeger.Prelude.{
  ℕ, zero, suc, ◌<◌, ◌≡◌, ◌≢◌, refl, ◌∙◌, sym, ap, inl, inr, List, [], ◌∷◌, none, some, get_or, set,
  length, length-set, length-replicate, replicate, arith, Option-cases, nat_eq, ◌==◌, if◌then◌else◌,
  nat_beq_iff,
}
use jaeger.Prelude.Int.{pos_part, pos, ◌+ℤ◌}
use jaeger.Prelude.Map.{lookup, erase, lookup-insert_self, lookup-insert_ne, lookup-erase}
use jaeger.Otlp.{Traces}
use jaeger.Memory.Match.{Readings}
use jaeger.Memory.Tenant.{
  Tenant, TraceAndId, Scan, empty_slot, slot, new_tenant, next_slot, extend, replace, store_trace,
  store_traces, scan_resources,
}

module _ {A : Type 0} where
  pub get_or-set_self :
      (xs : List A) (i : ℕ) (v d : A) → i < length xs → get_or (set xs i v) i d ≡ v
  get_or-set_self [] i v d h = absurd (omega arith)
  get_or-set_self (x ∷ xs) zero v d h = refl
  get_or-set_self (x ∷ xs) (suc i) v d h = get_or-set_self xs i v d (omega arith)

  pub get_or-set_ne :
      (xs : List A) (i j : ℕ) (v d : A) → i ≢ j → get_or (set xs i v) j d ≡ get_or xs j d
  get_or-set_ne [] i j v d h = refl
  get_or-set_ne (x ∷ xs) zero zero v d h = absurd (h refl)
  get_or-set_ne (x ∷ xs) zero (suc j) v d h = refl
  get_or-set_ne (x ∷ xs) (suc i) zero v d h = refl
  get_or-set_ne (x ∷ xs) (suc i) (suc j) v d h = get_or-set_ne xs i j v d (λ e. h (ap suc e))

  get_or-replicate : (n i : ℕ) (d : A) → get_or (replicate n d) i d ≡ d
  get_or-replicate zero i d = refl
  get_or-replicate (suc n) zero d = refl
  get_or-replicate (suc n) (suc i) d = get_or-replicate n i d

-- An identifier that is not empty stands in the map exactly with the slot that has it.
pub record IsConsistent (t : Tenant) : Type 0 where
  pub size : length t.traces ≡ t.max_traces
  pub room : 0 < t.max_traces
  pub listed : (k i : ℕ) → lookup k t.ids ≡ some i → i < t.max_traces
  pub owner : (k i : ℕ) → k ≢ 0 → lookup k t.ids ≡ some i → (slot t i).id ≡ k
  pub found : (k i : ℕ) → k ≢ 0 → i < t.max_traces → (slot t i).id ≡ k → lookup k t.ids ≡ some i

pub new_tenant-IsConsistent : (n : ℕ) → 0 < n → IsConsistent (new_tenant n)
unfolding new_tenant lookup
new_tenant-IsConsistent n h = record {
  size = length-replicate n empty_slot;
  room = h;
  listed = λ k i e. absurd (cc e);
  owner = λ k i some_id e. absurd (cc e);
  found = λ k i some_id below e.
      absurd (some_id (sym e ∙ ap (λ (s : TraceAndId). s.id) (get_or-replicate n i empty_slot)));
}

pub next_slot-below : (t : Tenant) → 0 < t.max_traces → next_slot t < t.max_traces
unfolding next_slot
next_slot-below t h = mod-lt (pos_part (t.most_recent +ℤ pos 1)) h

module _ (t : Tenant) (c : IsConsistent t) (spans : Traces) (st : Scan) where
  pub extend-IsConsistent :
      (index : ℕ) → index < t.max_traces → IsConsistent (extend index spans st t)
  unfolding extend
  extend-IsConsistent index below = record {
    size = length-set t.traces index _ ∙ c.size;
    room = c.room;
    listed = c.listed;
    owner = λ k i some_id e. same_id i ∙ c.owner k i some_id e;
    found = λ k i some_id h e. c.found k i some_id h (sym (same_id i) ∙ e);
  }
    where
      same_id : (i : ℕ) → (slot (extend index spans st t) i).id ≡ (slot t i).id
      same_id i = elim (ℕ_discrete index i) [
        | yes e ↦ rw (← e) (
            ap (λ (s : TraceAndId). s.id)
              (get_or-set_self t.traces index _ empty_slot (omega (arith, c.size))))
        | no e ↦ ap (λ (s : TraceAndId). s.id) (get_or-set_ne t.traces index i _ empty_slot e)
      ]

-- The map without the identifier of the slot that is taken over.
abbrev pub clear : ℕ → List (ℕ × ℕ) → List (ℕ × ℕ)
clear o m = if o == 0 then m else erase o m

pub lookup-clear_other :
    (o j : ℕ) (m : List (ℕ × ℕ)) → j ≢ 0 → o ≢ j → lookup j (clear o m) ≡ lookup j m
lookup-clear_other o j m some_id other =
    ground (arith, lookup-erase o j m, nat_beq_iff o j, nat_beq_iff o 0)

pub lookup-clear_self : (o : ℕ) (m : List (ℕ × ℕ)) → o ≢ 0 → lookup o (clear o m) ≡ none
lookup-clear_self o m some_id = ground (arith, lookup-erase o o m, nat_beq_iff o o, nat_beq_iff o 0)

lookup-clear_kept :
    (o j i : ℕ) (m : List (ℕ × ℕ)) → lookup j (clear o m) ≡ some i → lookup j m ≡ some i
lookup-clear_kept o j i m e = ground (arith, lookup-erase o j m, nat_beq_iff o j, nat_beq_iff o 0)

module _ (t : Tenant) (c : IsConsistent t) (spans : Traces) (st : Scan) (id next : ℕ)
    (below : next < t.max_traces) where
  abbrev t' : Tenant
  t' = replace id next spans st t

  pub slot-replace_self :
      slot t' next
      ≡ record { id = id; trace = spans; start_time = st.start_time; end_time = st.end_time }
  unfolding replace
  slot-replace_self = get_or-set_self t.traces next _ empty_slot (omega (arith, c.size))

  pub slot-replace_ne : (i : ℕ) → next ≢ i → slot t' i ≡ slot t i
  unfolding replace
  slot-replace_ne i h = get_or-set_ne t.traces next i _ empty_slot h

  pub ids-replace_self : lookup id t'.ids ≡ some next
  unfolding replace
  ids-replace_self = lookup-insert_self id next _

  pub ids-replace_ne : (j : ℕ) → id ≢ j → lookup j t'.ids ≡ lookup j (clear (slot t next).id t.ids)
  unfolding replace
  ids-replace_ne j h = lookup-insert_ne id j next _ h

  replace_place : (k i : ℕ) → id ≡ k → lookup k t'.ids ≡ some i → next ≡ i
  replace_place k i same e = let self = ids-replace_self in cc

  replace_listed : (k i : ℕ) → lookup k t'.ids ≡ some i → i < t.max_traces
  replace_listed k i e = elim (ℕ_discrete id k) [
    | yes same ↦ let s : next ≡ i = replace_place k i same e in omega arith
    | no other ↦
        c.listed k i
          (lookup-clear_kept (slot t next).id k i t.ids (sym (ids-replace_ne k other) ∙ e))
  ]

  replace_owner : (k i : ℕ) → k ≢ 0 → lookup k t'.ids ≡ some i → (slot t' i).id ≡ k
  replace_owner k i some_id e = elim (ℕ_discrete id k) [
    | yes same ↦
        let at : next ≡ i = replace_place k i same e in
        rw (← at, ← same) (ap (λ (s : TraceAndId). s.id) slot-replace_self)
    | no other ↦
        let there : lookup k (clear (slot t next).id t.ids) ≡ some i =
          sym (ids-replace_ne k other) ∙ e in
        let was : (slot t i).id ≡ k =
          c.owner k i some_id (lookup-clear_kept (slot t next).id k i t.ids there) in
        elim (ℕ_discrete next i) [
          | yes at ↦
              let gone : (slot t next).id ≡ k = rw at was in
              absurd (none≢some i (sym (lookup-clear_self k t.ids some_id) ∙ (rw gone at there)))
          | no at ↦ ap (λ (s : TraceAndId). s.id) (slot-replace_ne i at) ∙ was
        ]
  ]
    where
      none≢some : (i : ℕ) → (none ≡ some i) → ⊥
      none≢some i h = cc h

  replace_found :
      lookup id t.ids ≡ none
      → (k i : ℕ) → k ≢ 0
      → i < t.max_traces
      → (slot t' i).id ≡ k
      → lookup k t'.ids ≡ some i
  replace_found fresh k i some_id h e = elim (ℕ_discrete next i) [
    | yes at ↦
        let now : (slot t' next).id ≡ id = ap (λ (s : TraceAndId). s.id) slot-replace_self in
        let same : id ≡ k = cc in rw (← at, ← same) ids-replace_self
    | no at ↦
        let was : (slot t i).id ≡ k =
          sym (ap (λ (s : TraceAndId). s.id) (slot-replace_ne i at)) ∙ e in
        let there : lookup k t.ids ≡ some i = c.found k i some_id h was in
        let other : id ≢ k = λ same. cc in
        let apart : (slot t next).id ≢ k = λ same. at (
          let s : some next ≡ some i = sym (c.found k next some_id below same) ∙ there in
          ground arith) in
        ids-replace_ne k other ∙ lookup-clear_other (slot t next).id k t.ids some_id apart ∙ there
  ]

  pub replace-IsConsistent : lookup id t.ids ≡ none → IsConsistent t'
  unfolding replace
  replace-IsConsistent fresh = record {
    size = length-set t.traces next _ ∙ c.size;
    room = c.room;
    listed = replace_listed;
    owner = replace_owner;
    found = replace_found fresh;
  }

module _ (r : Readings) where
  -- What storeTraces scans of the spans that it is given.
  abbrev pub scan : Tenant → Traces → Scan
  scan t spans = scan_resources r spans (record {
    services = t.services;
    operations = t.operations;
    start_time = none;
    end_time = none;
  })

  pub store_trace-known :
      (id index : ℕ) (spans : Traces) (t : Tenant)
      → lookup id t.ids ≡ some index
      → store_trace r id spans t ≡ extend index spans (scan t spans) t
  unfolding store_trace
  store_trace-known id index spans t e = rw (e, store_trace) refl

  pub store_trace-new :
      (id : ℕ) (spans : Traces) (t : Tenant)
      → lookup id t.ids ≡ none
      → store_trace r id spans t ≡ replace id (next_slot t) spans (scan t spans) t
  unfolding store_trace
  store_trace-new id spans t e = rw (e, store_trace) refl

  pub store_trace-IsConsistent :
      (id : ℕ) (spans : Traces) (t : Tenant)
      → IsConsistent t
      → IsConsistent (store_trace r id spans t)
  store_trace-IsConsistent id spans t c = elim (Option-cases (lookup id t.ids)) [
    | inr (index, known) ↦
        rw (store_trace-known id index spans t known)
          (extend-IsConsistent t c spans (scan t spans) index (c.listed id index known))
    | inl fresh ↦ rw (store_trace-new id spans t fresh) (
        replace-IsConsistent t c spans (scan t spans) id (next_slot t) (next_slot-below t c.room)
          fresh)
  ]

  -- Whatever is stored, the map and the ring go on to agree.
  pub store_traces-IsConsistent :
      (batch : List (ℕ × Traces)) (t : Tenant)
      → IsConsistent t
      → IsConsistent (store_traces r batch t)
  unfolding store_traces
  store_traces-IsConsistent [] t c = c
  store_traces-IsConsistent ((id, spans) ∷ rest) t c =
      store_traces-IsConsistent rest (store_trace r id spans t)
        (store_trace-IsConsistent id spans t c)
