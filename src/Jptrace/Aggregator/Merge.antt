-- ===== src/Jptrace/Aggregator/Merge.antt =====
-- mergeTracesWithLimit, as a function of the spans that a group has so far.
use native.Mathlib.Decide.{dec_le}
use jaeger.Prelude.{
  ℕ, zero, suc, ◌+◌, ◌-◌, ◌≤◌, ◌<◌, ◌≡◌, refl, true, false, not, ◌++◌, append-nil, arith, leb,
  length, take, length-take, take-append, take_of_length-le, length-append, if◌then◌else◌, nat_eq,
}
use jaeger.Prelude.Int.{ℤ, pos, negsuc, pos_part}
use jaeger.Otlp.{Traces, flatten}
use jaeger.Jptrace.Spans.{flatten-append}
use jaeger.Jptrace.Aggregator.Copy.{
  Merged, merge_traces, copy_spans_up_to_limit, merge_traces_with_limit, positive,
}
use jaeger.Jptrace.Aggregator.CopyLaws.{flatten-copy_spans_up_to_limit, merge_traces-append}
use jaeger.Jptrace.Aggregator.Groups.{Spans, exceeds}

-- A group without its warning.
abbrev pub kept : ℤ → Spans → Spans
kept m g = if exceeds m g then take (pos_part m) g else g

abbrev pub merge : Traces → ℕ → Traces → ℤ → Merged
merge dest n t m = merge_traces_with_limit dest n t (length (flatten t)) m

-- A group over the limit is not added to.
pub merge-full :
    (m : ℤ) (dest t : Traces) (g : Spans) (n : ℕ)
    → exceeds m g ≡ true
    → n ≡ length (kept m g)
    → merge dest n t m ≡ record { dest = dest; count = n; truncated = true }
unfolding merge_traces_with_limit exceeds
merge-full (negsuc k) dest t g n h e = absurd (ground arith)
merge-full (pos zero) dest t g n h e = absurd (ground arith)
merge-full (pos (suc k)) dest t g n h e =
    let over : suc k ≤ length g = ground arith in
    let e' : n ≡ suc k = omega (arith, rw h at e, length-take (suc k) g) in ground arith

pub record Room (m : ℤ) (g : Spans) (r : Merged) : Type 0 where
  pub flat : flatten r.dest ≡ kept m g
  pub count : r.count ≡ length (kept m g)
  pub truncated : r.truncated ≡ exceeds m g

exceeds-positive : (k : ℕ) (g : Spans) → exceeds (pos (suc k)) g ≡ not (leb (length g) (suc k))
unfolding exceeds
exceeds-positive k g = ground arith

Room-unlimited :
    (m : ℤ) (dest t : Traces) (g : Spans) (n : ℕ)
    → positive m ≡ false
    → flatten dest ≡ g
    → n ≡ length g
    → Room m (g ++ flatten t) (merge dest n t m)
unfolding merge_traces_with_limit exceeds
Room-unlimited m dest t g n off fl e = rw off (record {
  flat = rw (off, merge_traces-append, flatten-append, fl) refl;
  count = rw off (omega (arith, length-append g (flatten t)));
  truncated = rw off refl;
})

-- A group within the limit takes what fits.
module _ (k : ℕ) (dest t : Traces) (g : Spans) (n : ℕ) (fl : flatten dest ≡ g)
    (e : n ≡ length g) where
  total : length (g ++ flatten t) ≡ length g + length (flatten t)
  total = length-append g (flatten t)

  Room-at_limit :
      length g ≡ suc k
      → 0 < length (flatten t)
      → Room (pos (suc k)) (g ++ flatten t) (merge dest n t (pos (suc k)))
  unfolding merge_traces_with_limit
  Room-at_limit at some_span =
      let r : merge dest n t (pos (suc k)) ≡ record { dest = dest; count = n; truncated = true } =
        ground arith in
      let x : exceeds (pos (suc k)) (g ++ flatten t) ≡ true =
        ground (arith, exceeds-positive k (g ++ flatten t), total) in
      let left : suc k - length g ≡ 0 = omega arith in
      rw r (record {
        flat =
            rw
              (
                x,
                take-append (suc k) g (flatten t),
                left,
                take_of_length-le (suc k) g (omega arith),
                append-nil,
              )
              fl;
        count = rw x (omega (arith, length-take (suc k) (g ++ flatten t), total));
        truncated = rw x refl;
      })

  Room-fits :
      length g + length (flatten t) ≤ suc k
      → 0 < length (flatten t)
      → Room (pos (suc k)) (g ++ flatten t) (merge dest n t (pos (suc k)))
  unfolding merge_traces_with_limit
  Room-fits fits some_span =
      let r : merge dest n t (pos (suc k)) ≡ record {
        dest = merge_traces dest t;
        count = n + length (flatten t);
        truncated = false;
      } =
        ground arith in
      let x : exceeds (pos (suc k)) (g ++ flatten t) ≡ false =
        ground (arith, exceeds-positive k (g ++ flatten t), total) in
      rw r (record {
        flat = rw (x, merge_traces-append, flatten-append, fl) refl;
        count = rw x (omega (arith, total));
        truncated = rw x refl;
      })

  Room-over :
      length g < suc k
      → suc k < length g + length (flatten t)
      → Room (pos (suc k)) (g ++ flatten t) (merge dest n t (pos (suc k)))
  unfolding merge_traces_with_limit
  Room-over below over =
      let r : merge dest n t (pos (suc k)) ≡ record {
        dest = copy_spans_up_to_limit dest t (suc k - n);
        count = suc k;
        truncated = true;
      } =
        ground arith in
      let x : exceeds (pos (suc k)) (g ++ flatten t) ≡ true =
        ground (arith, exceeds-positive k (g ++ flatten t), total) in
      rw r (record {
        flat =
            rw
              (
                x,
                flatten-copy_spans_up_to_limit,
                fl,
                e,
                take-append (suc k) g (flatten t),
                take_of_length-le (suc k) g (omega arith),
              )
              refl;
        count = rw x (omega (arith, length-take (suc k) (g ++ flatten t), total));
        truncated = rw x refl;
      })

pub merge-Room :
    (m : ℤ) (dest t : Traces) (g : Spans) (n : ℕ)
    → exceeds m g ≡ false
    → 0 < length (flatten t)
    → flatten dest ≡ g
    → n ≡ length g
    → Room m (g ++ flatten t) (merge dest n t m)
merge-Room (negsuc k) dest t g n h some_span fl e =
    Room-unlimited (negsuc k) dest t g n (ground arith) fl e
merge-Room (pos zero) dest t g n h some_span fl e = Room-unlimited (pos zero) dest t g n refl fl e
merge-Room (pos (suc k)) dest t g n h some_span fl e =
    let within : length g ≤ suc k = ground (arith, exceeds-positive k g) in
    elim (dec_le (length g + length (flatten t)) (suc k)) [
      | yes fits ↦ Room-fits k dest t g n fl e fits some_span
      | no over ↦ elim (dec_le (suc k) (length g)) [
        | yes full ↦ Room-at_limit k dest t g n fl e (omega arith) some_span
        | no below ↦ Room-over k dest t g n fl e (omega arith) (omega arith)
      ]
    ]
