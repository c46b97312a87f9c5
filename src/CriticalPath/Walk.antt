-- ===== src/CriticalPath/Walk.antt =====
-- On a tree of nested spans computeCriticalPath ends, and its sections tile the time of the root
-- span. The walk goes back in time: each call starts where the section before it ended.
use native.Mathlib.Decide.{dec_lt}
use mathlib.Core.Path.{subst}
use jaeger.Prelude.{
  ℕ, zero, suc, String, ◌+◌, ◌≤◌, ◌<◌, ◌≡◌, ◌≢◌, refl, sym, ◌∙◌, ap, inl, inr, List, [], ◌∷◌, ◌++◌,
  append-nil, append_assoc, Option, none, some, true, false, ◌&&◌, arith, ltb, leb, All, Bool-cases,
  nat_eq, ◌==◌, ==_iff,
}
use jaeger.Prelude.Map.{lookup}
use jaeger.Prelude.Words.{add64_of_lt}
use jaeger.CriticalPath.Spans.{CpSpan, SpanMap}
use jaeger.CriticalPath.Sanitize.{end_time}
use jaeger.CriticalPath.Compute.{
  before_return, find_last_finishing_child_span, Section, add_section, section_limit,
  compute_critical_path,
}
use jaeger.CriticalPath.Latest.{Candidate, Last, find_last_finishing_child_span-Last}
use jaeger.CriticalPath.Forest.{IsForest, Tiles, Owned, bound, bound-earlier, bound-down, bound-up}

-- The time that a call starts from.
abbrev time : CpSpan → Option ℕ → ℕ
time s none = s.start_time + s.duration
time s (some r) = r

module _ (show_id : ℕ → String) (m : SpanMap) where
  -- A section of no length adds nothing to the tiles.
  record Extended (lo hi : ℕ) (path : List Section) (result : List Section) : Type 0 where
    new : List Section
    shape : result ≡ path ++ new
    tiles : Tiles lo hi new
    owned : All (Owned show_id m) new

  add_section-Extended :
      (x : Section) (lo : ℕ) (path result : List Section)
      → x.section_start ≤ x.section_end
      → Owned show_id m x
      → Extended lo x.section_start (add_section x path) result
      → Extended lo x.section_end path result
  unfolding add_section
  add_section-Extended x lo path result order own h =
      elim (Bool-cases (x.section_start == x.section_end)) [
        | inl same ↦
            let e : x.section_start ≡ x.section_end = (==_iff _ _).0 same in
            record {
              new = h.new;
              shape = h.shape ∙ rw same refl;
              tiles = rw (← e) h.tiles;
              owned = h.owned;
            }
        | inr other ↦ record {
          new = x ∷ h.new;
          shape = h.shape ∙ rw (other, append_assoc) refl;
          tiles = (refl, ground (arith, ==_iff x.section_start x.section_end), h.tiles);
          owned = (own, h.owned);
        }
      ]

  abbrev section : CpSpan → ℕ → Option ℕ → Section
  section s from ret = record {
    span_id = show_id s.span_id;
    section_start = from;
    section_end = section_limit s ret;
  }

  module _ (fuel k : ℕ) (s : CpSpan) (path : List Section) (ret : Option ℕ)
      (found : lookup k m ≡ some s) where
    pub compute_down :
        (c : CpSpan)
        → find_last_finishing_child_span m s ret ≡ some c
        → compute_critical_path show_id (suc fuel) m k path ret
          ≡ compute_critical_path show_id fuel m c.span_id
              (add_section (section s (end_time c) ret) path)
              none
    unfolding compute_critical_path
    compute_down c e = rw (found, compute_critical_path, e) refl

    compute_end :
        find_last_finishing_child_span m s ret ≡ none
        → s.parent_span_id ≡ 0
        → compute_critical_path show_id (suc fuel) m k path ret
          ≡ some (add_section (section s s.start_time ret) path)
    unfolding compute_critical_path
    compute_end e is_root = rw (found, compute_critical_path, e, is_root) refl

    compute_up :
        find_last_finishing_child_span m s ret ≡ none
        → (s.parent_span_id == 0) ≡ false
        → compute_critical_path show_id (suc fuel) m k path ret
          ≡ compute_critical_path show_id fuel m s.parent_span_id
              (add_section (section s s.start_time ret) path)
              (some s.start_time)
    unfolding compute_critical_path
    compute_up e has_parent = rw (found, compute_critical_path, e, has_parent) refl

  module _ {depth home : ℕ → ℕ} {height : ℕ} (forest : IsForest m depth home height) (top : ℕ)
      (r : CpSpan) (top_found : lookup top m ≡ some r) where
    end_time-plain :
        (k : ℕ) (s : CpSpan) → lookup k m ≡ some s → end_time s ≡ s.start_time + s.duration
    end_time-plain k s found = add64_of_lt s.start_time s.duration (forest.no_wrap k s found)

    section_limit-time :
        (k : ℕ) (s : CpSpan) (ret : Option ℕ)
        → lookup k m ≡ some s
        → section_limit s ret ≡ time s ret
    unfolding section_limit
    section_limit-time k s none found = end_time-plain k s found
    section_limit-time k s (some t) found = refl

    -- A call at `s` whose time is within the span.
    record At (fuel k : ℕ) (s : CpSpan) (ret : Option ℕ) : Type 0 where
      found : lookup k m ≡ some s
      at_home : home k ≡ top
      after_start : s.start_time ≤ time s ret
      before_end : time s ret ≤ s.start_time + s.duration
      fuelled : bound height (time s ret) s.start_time (depth k) < fuel

    abbrev Walked : ℕ → ℕ → CpSpan → Option ℕ → List Section → Type 0
    Walked fuel k s ret path =
        (result : List Section) × (compute_critical_path show_id fuel m k path ret ≡ some result)
        × Extended r.start_time (time s ret) path result

    allowed_bounds :
        (s c : CpSpan) (ret : Option ℕ)
        → before_return ret c ≡ true
        → end_time c ≡ c.start_time + c.duration
        → c.start_time < s.start_time + s.duration
        → c.start_time + c.duration ≤ s.start_time + s.duration
        → (c.start_time < time s ret) × (c.start_time + c.duration ≤ time s ret)
    unfolding before_return
    allowed_bounds s c none allowed e start fin = (start, fin)
    allowed_bounds s c (some t) allowed e start fin =
        let e' : ltb c.start_time t && leb (c.start_time + c.duration) t ≡ true =
          rw (← e) allowed in
        ground arith

    -- The child that the walk goes down to.
    At-child :
        (fuel k : ℕ) (s : CpSpan) (ret : Option ℕ) (c : CpSpan)
        → At (suc fuel) k s ret
        → (x : Candidate m ret s.child_span_ids c)
        → At fuel x.id c none × (c.start_time + c.duration ≤ time s ret)
    At-child fuel k s ret c a x =
        let (after, before, within, deeper, same_home) =
          forest.child k x.id s c a.found x.listed x.found in
        let (earlier, ends) =
          allowed_bounds s c ret x.allowed (end_time-plain x.id c x.found) before within in
        let t' : ℕ = c.start_time + c.duration in
        let depth_bound = forest.below x.id c x.found in
        let smaller : bound height t' c.start_time (depth x.id)
            < bound height (time s ret) s.start_time (depth k) =
          elim (dec_lt t' (time s ret)) [
            | yes back ↦
                bound-earlier height (time s ret) t' s.start_time c.start_time (depth k)
                  (depth x.id) back depth_bound
            | no level ↦
                let e : t' ≡ time s ret = omega arith in
                rw (deeper, e)
                  (bound-down height (time s ret) s.start_time c.start_time (depth k) (omega arith)
                    earlier (omega arith))
          ] in
        (
          record {
            found = x.found;
            at_home = same_home ∙ a.at_home;
            after_start = omega arith;
            before_end = omega arith;
            fuelled = omega (arith, a.fuelled, smaller);
          },
          ends,
        )

    -- The parent that it goes back to.
    At-parent :
        (fuel k : ℕ) (s : CpSpan) (ret : Option ℕ)
        → At (suc fuel) k s ret
        → s.parent_span_id ≢ 0
        → (p : CpSpan) × At fuel s.parent_span_id p (some s.start_time)
    At-parent fuel k s ret a has_parent =
        let (p, found, after, before, deeper, same_home) = forest.parent k s a.found has_parent in
        let depth_bound = forest.below s.parent_span_id p found in
        let depth_bound' = forest.below k s a.found in
        let smaller : bound height s.start_time p.start_time (depth s.parent_span_id)
            < bound height (time s ret) s.start_time (depth k) =
          elim (dec_lt s.start_time (time s ret)) [
            | yes back ↦
                bound-earlier height (time s ret) s.start_time s.start_time p.start_time (depth k)
                  (depth s.parent_span_id) back depth_bound
            | no level ↦
                let e : time s ret ≡ s.start_time = omega (arith, a.after_start) in
                rw (deeper, e)
                  (bound-up height s.start_time p.start_time (depth s.parent_span_id) (omega arith))
          ] in
        (
          p,
          record {
            found = found;
            at_home = sym same_home ∙ a.at_home;
            after_start = after;
            before_end = omega arith;
            fuelled = omega (arith, a.fuelled, smaller);
          },
        )

    -- The section that a call adds, up to the time that the walk had come to.
    extend :
        (fuel k : ℕ) (s : CpSpan) (ret : Option ℕ) (from : ℕ) (path result : List Section)
        → At fuel k s ret
        → s.start_time ≤ from
        → from ≤ time s ret
        → Extended r.start_time from (add_section (section s from ret) path) result
        → Extended r.start_time (time s ret) path result
    extend fuel k s ret from path result a low high h =
        let e = section_limit-time k s ret a.found in
        rw e at (
          add_section-Extended (section s from ret) r.start_time path result (rw e high)
            (record {
              id = k;
              span = s;
              found = a.found;
              named = ap show_id (forest.key k s a.found);
              starts = low;
              ends = rw e a.before_end;
            })
            h)

    abbrev Step : ℕ → Type 0
    Step fuel =
        (k : ℕ) (s : CpSpan) (ret : Option ℕ) (path : List Section)
        → At fuel k s ret
        → Walked fuel k s ret path

    weaken : {fuel k : ℕ} {s : CpSpan} {ret : Option ℕ} → At fuel k s ret → At (suc fuel) k s ret
    weaken a = record {
      found = a.found;
      at_home = a.at_home;
      after_start = a.after_start;
      before_end = a.before_end;
      fuelled = omega (arith, a.fuelled);
    }

    walk_down :
        (fuel k : ℕ) (s : CpSpan) (ret : Option ℕ) (path : List Section) (c : CpSpan)
        → At (suc fuel) k s ret
        → find_last_finishing_child_span m s ret ≡ some c
        → Candidate m ret s.child_span_ids c
        → Step fuel
        → Walked (suc fuel) k s ret path
    walk_down fuel k s ret path c a e x step =
        let (at, ends) = At-child fuel k s ret c a x in
        let low = (forest.child k x.id s c a.found x.listed x.found).0 in
        let from = end_time c in
        let plain = end_time-plain x.id c x.found in
        let (result, eq, h) = step x.id c none (add_section (section s from ret) path) at in
        (
          result,
          compute_down fuel k s path ret a.found c e ∙ rw (forest.key x.id c x.found) eq,
          extend (suc fuel) k s ret from path result a (omega (arith, plain, low))
              (omega (arith, plain, ends))
              (subst (λ t. Extended r.start_time t (add_section (section s from ret) path) result)
                (sym plain) h),
        )

    walk_up :
        (fuel k : ℕ) (s : CpSpan) (ret : Option ℕ) (path : List Section)
        → At (suc fuel) k s ret
        → find_last_finishing_child_span m s ret ≡ none
        → Step fuel
        → Walked (suc fuel) k s ret path
    walk_up fuel k s ret path a e step = elim (Bool-cases (s.parent_span_id == 0)) [
      | inl is_root ↦
          let path' = add_section (section s s.start_time ret) path in
          let parentless : s.parent_span_id ≡ 0 = (==_iff _ _).0 is_root in
          let same_id : top ≡ k = sym a.at_home ∙ forest.root k s a.found parentless in
          let same : r ≡ s = cc (top_found, a.found) in
          (
            path',
            compute_end fuel k s path ret a.found e parentless,
            extend (suc fuel) k s ret s.start_time path path' a (omega arith) a.after_start
                (record {
                  new = [];
                  shape = rw append-nil refl;
                  tiles = ap (λ (x : CpSpan). x.start_time) same;
                  owned = tt;
                }),
          )
      | inr has_parent ↦
          let (p, at) =
            At-parent fuel k s ret a (λ h. absurd (ground (arith, ==_iff s.parent_span_id 0))) in
          let (result, eq, h) =
            step s.parent_span_id p (some s.start_time)
              (add_section (section s s.start_time ret) path) at in
          (
            result,
            compute_up fuel k s path ret a.found e has_parent ∙ eq,
            extend (suc fuel) k s ret s.start_time path result a (omega arith) a.after_start h,
          )
    ]

    walk : (fuel : ℕ) → Step fuel
    walk zero k s ret path a = absurd (omega (arith, a.fuelled))
    walk (suc fuel) k s ret path a =
        go (find_last_finishing_child_span m s ret) refl
          (find_last_finishing_child_span-Last m s ret) (walk fuel)
      where
        go :
            (o : Option CpSpan)
            → find_last_finishing_child_span m s ret ≡ o
            → Last m ret s.child_span_ids o
            → Step fuel
            → Walked (suc fuel) k s ret path
        go none e last step = walk_up fuel k s ret path a e step
        go (some c) e last step = walk_down fuel k s ret path c a e last.0 step

-- On a forest of nested spans, and from a span without a parent, enough fuel gives a critical
-- path. Its sections, latest first, cover the time of that span from its end to its start without
-- gap or overlap, each is not empty, and each lies within the span that it names.
pub compute_critical_path-Tiles :
    (show_id : ℕ → String) (m : SpanMap) {depth home : ℕ → ℕ} {height : ℕ}
    → IsForest m depth home height
    → (top : ℕ) (r : CpSpan) → lookup top m ≡ some r
    → r.parent_span_id ≡ 0
    → (fuel : ℕ) → bound height (r.start_time + r.duration) r.start_time (depth top) < fuel
    → (path : List Section) × (compute_critical_path show_id fuel m top [] none ≡ some path)
      × Tiles r.start_time (r.start_time + r.duration) path
      × All (Owned show_id m) path
compute_critical_path-Tiles show_id m forest top r found is_root fuel enough =
    let (result, eq, h) = walk show_id m forest top r found fuel top r none [] (record {
      found = found;
      at_home = forest.root top r found is_root;
      after_start = omega arith;
      before_end = omega arith;
      fuelled = enough;
    }) in
    (result, eq, rw h.shape h.tiles, rw h.shape h.owned)
