-- ===== src/CriticalPath/Forest.antt =====
-- The maps on which computeCriticalPath works, what its sections are to be, and the measure by
-- which it ends.
use Prim.Native.Nat.{◌*◌}
use jaeger.Prelude.{
  ℕ, String, ◌+◌, ◌-◌, ◌≤◌, ◌<◌, ◌≡◌, ◌≢◌, List, [], ◌∷◌, some, arith, ltb, In, nat_eq,
  if◌then◌else◌,
}
use jaeger.Prelude.Map.{lookup}
use jaeger.Prelude.Words.{u64_mod}
use jaeger.CriticalPath.Spans.{CpSpan, SpanMap}
use jaeger.CriticalPath.Compute.{Section}

-- The map is a forest: each span is under its own identifier, each listed child that is in the map
-- lies within its parent and starts before its end, and each parent is in the map and starts no
-- later. `depth` is at most `height`, and `home` is the root of a span's tree.
pub record IsForest (m : SpanMap) (depth home : ℕ → ℕ) (height : ℕ) : Type 0 where
  pub key : (k : ℕ) (s : CpSpan) → lookup k m ≡ some s → s.span_id ≡ k
  pub no_wrap : (k : ℕ) (s : CpSpan) → lookup k m ≡ some s → s.start_time + s.duration < u64_mod
  pub below : (k : ℕ) (s : CpSpan) → lookup k m ≡ some s → depth k ≤ height
  pub child :
      (k c : ℕ) (s x : CpSpan)
      → lookup k m ≡ some s
      → In c s.child_span_ids
      → lookup c m ≡ some x
      → (s.start_time ≤ x.start_time)
        × (x.start_time < s.start_time + s.duration)
        × (x.start_time + x.duration ≤ s.start_time + s.duration)
        × (depth c ≡ depth k + 1)
        × (home c ≡ home k)
  pub parent :
      (k : ℕ) (s : CpSpan)
      → lookup k m ≡ some s
      → s.parent_span_id ≢ 0
      → (p : CpSpan) × (lookup s.parent_span_id m ≡ some p)
        × (p.start_time ≤ s.start_time)
        × (s.start_time < p.start_time + p.duration)
        × (depth k ≡ depth s.parent_span_id + 1)
        × (home k ≡ home s.parent_span_id)
  pub root : (k : ℕ) (s : CpSpan) → lookup k m ≡ some s → s.parent_span_id ≡ 0 → home k ≡ k

-- The sections, latest first, cover the time from `lo` to `hi` without a gap or an overlap.
abbrev pub Tiles : ℕ → ℕ → List Section → Type 0
Tiles lo hi [] = lo ≡ hi
Tiles lo hi (x ∷ xs) = (x.section_end ≡ hi) × (x.section_start < hi) × Tiles lo x.section_start xs

-- A section lies within the span that it names.
pub record Owned (show_id : ℕ → String) (m : SpanMap) (x : Section) : Type 0 where
  pub id : ℕ
  pub span : CpSpan
  pub found : lookup id m ≡ some span
  pub named : x.span_id ≡ show_id id
  pub starts : span.start_time ≤ x.section_start
  pub ends : x.section_end ≤ span.start_time + span.duration

-- Calls with fuel above this number end: `t` is the time that the walk has come to.
unfoldable pub bound : ℕ → ℕ → ℕ → ℕ → ℕ
bound height t start d = t * (2 * height + 2) + (if ltb start t then height - d else height + 1 + d)

-- The time goes back, or the walk goes down from a span that is open at that time, or up from one
-- that starts at it.
pub bound-earlier :
    (h t t' start start' d d' : ℕ) → t' < t → d' ≤ h → bound h t' start' d' < bound h t start d
unfolding bound
bound-earlier h t t' start start' d d' e b =
    let step : t' * (2 * h + 2) + (2 * h + 2) ≤ t * (2 * h + 2) = grind arith in ground arith

pub bound-down :
    (h t start start' d : ℕ)
    → start < t
    → start' < t
    → d + 1 ≤ h
    → bound h t start' (d + 1) < bound h t start d
unfolding bound
bound-down h t start start' d o o' b = ground arith

pub bound-up : (h t start' d : ℕ) → d + 1 ≤ h → bound h t start' d < bound h t t (d + 1)
unfolding bound
bound-up h t start' d b = ground arith
