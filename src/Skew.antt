-- ===== src/Skew.antt =====
-- The clock skew adjuster of the query service, clockskew.go in
-- cmd/jaeger/internal/extension/jaegerquery/internal/adjuster: the skew of a span against its
-- parent, and what is done with it. pdata's conversions of timestamps and the texts of the warnings
-- are parameters.
use jaeger.Prelude.{
  ℕ, ◌+◌, ◌-◌, ◌/◌, ◌%◌, ◌≤◌, ◌<◌, String, [], ◌∷◌, map, Bool, false, refl, not, ◌&&◌, Option, none,
  some, ltb, if◌then◌else◌, arith, nat_eq, string_eq, ◌==◌, ◌≡◌,
}
use jaeger.Prelude.Int.{ℤ, pos, negsuc, pos_part, neg_part, ltb_ℤ, ◌+ℤ◌, ◌-ℤ◌, ◌≤ℤ◌}
use jaeger.Prelude.Map.{lookup}
use jaeger.Prelude.Words.{u64_mod}
use jaeger.Otlp.{Value, Values, ValueText, Attributes, Span, Event, ResourceSpans}
use jaeger.Jptrace.Warning.{add_warnings}
use jaeger.Memory.Clock.{sub_time}

-- An int64 that overflows wraps around.
unfoldable pub wrap64 : ℤ → ℤ
wrap64 z =
    let u = (pos_part z + (u64_mod - neg_part z % u64_mod)) % u64_mod in
    if ltb u 9223372036854775808 then pos u else negsuc (u64_mod - u - 1)

-- `d / 2`, which rounds towards 0.
unfoldable pub half : ℤ → ℤ
half (pos n) = pos (n / 2)
half (negsuc n) = if n == 0 then pos 0 else negsuc ((n + 1) / 2 - 1)

-- absDuration
unfoldable pub abs_duration : ℤ → ℤ
unfolding wrap64 ◌-ℤ◌
abs_duration d = if ltb_ℤ d (pos 0) then wrap64 (pos 0 -ℤ d) else d

-- calculateSkew, of the times of the parent and of the child.
unfoldable pub skew_between : ℤ → ℤ → ℤ → ℤ → ℤ
skew_between parent_start parent_end child_start child_end =
    let parent_duration = sub_time parent_end parent_start in
    let child_duration = sub_time child_end child_start in
    let latency = half (wrap64 (parent_duration -ℤ child_duration)) in
    if ltb_ℤ parent_duration child_duration
    then (if ltb_ℤ child_start parent_start then sub_time parent_start child_start else pos 0)
    else if not (ltb_ℤ child_start parent_start) && not (ltb_ℤ parent_end child_end)
    then pos 0
    else sub_time (parent_start +ℤ latency) child_start

module _ (text : ValueText) (as_time : ℕ → ℤ) (from_time : ℤ → ℕ) where
  open text use {as_string, get_str}

  unfoldable pub first_ip : Value → Option String
  first_ip (Value.str s) = some (get_str (Value.str s))
  first_ip (Value.slice (Values.cons v _)) = some (as_string v)
  first_ip _ = none

  unfoldable pub host_name : Attributes → String
  unfolding lookup
  host_name attrs = elim (lookup "host.name" attrs) [ none ↦ "" | some v ↦ get_str v ]

  unfoldable pub host_ip : Attributes → Option String
  unfolding lookup first_ip
  host_ip attrs = elim (lookup "host.ip" attrs) [ none ↦ none | some v ↦ first_ip v ]

  -- hostKey
  unfoldable pub host_key : ResourceSpans → String
  unfolding lookup host_ip host_name
  host_key r = elim (lookup "host.id" r.resource) [
    | some v ↦ get_str v
    | none ↦ elim (host_ip r.resource) [ some ip ↦ ip | none ↦ host_name r.resource ]
  ]

  -- calculateSkew
  unfoldable pub calculate_skew : Span → Span → ℤ
  unfolding skew_between
  calculate_skew child parent =
      skew_between (as_time parent.start_timestamp) (as_time parent.end_timestamp)
        (as_time child.start_timestamp) (as_time child.end_timestamp)

  module _ (disabled adjusted : ℤ → String) (exceeded : ℤ → ℤ → String) where
    unfoldable pub move : ℤ → ℕ → ℕ
    unfolding ◌+ℤ◌
    move delta t = from_time (as_time t +ℤ delta)

    -- adjustTimestamps
    unfoldable pub adjust_timestamps : ℤ → ℤ → Span → Span
    unfolding abs_duration move
    adjust_timestamps max_delta delta x =
        if is_nil delta
        then x
        else if ltb_ℤ max_delta (abs_duration delta)
        then (if is_nil max_delta
            then add_warnings text x (disabled delta ∷ [])
            else add_warnings text x (exceeded max_delta delta ∷ []))
        else record (add_warnings text x (adjusted delta ∷ [])) {
          start_timestamp = move delta x.start_timestamp;
          end_timestamp = move delta x.end_timestamp;
          events = map (λ (e : Event). record e { timestamp = move delta e.timestamp }) x.events;
        }
      where
        is_nil : ℤ → Bool
        is_nil (pos n) = n == 0
        is_nil (negsuc _) = Bool.false

sub_time_small :
    (a b : ℕ)
    → a < 4611686018427387904
    → b < 4611686018427387904
    → sub_time (pos a) (pos b) ≡ pos a -ℤ pos b
unfolding sub_time ◌-ℤ◌
sub_time_small a b h k = ground arith

wrap64_small : (a b : ℕ) → a < 4611686018427387904 → b ≤ a → wrap64 (pos a -ℤ pos b) ≡ pos (a - b)
unfolding wrap64 ◌-ℤ◌
wrap64_small a b h k = ground arith

add_pos : (a b : ℕ) → pos a +ℤ pos b ≡ pos (a + b)
unfolding ◌+ℤ◌
add_pos a b = ground arith

sub_pos : (a b : ℕ) → b ≤ a → a < 4611686018427387904 → sub_time (pos a) (pos b) ≡ pos (a - b)
unfolding sub_time ◌-ℤ◌
sub_pos a b h k = ground arith

half_pos : (n : ℕ) → half (pos n) ≡ pos (n / 2)
unfolding half
half_pos n = refl

-- The skew of a child that lasts no longer than its parent.
short_skew :
    (a b c d : ℕ)
    → a ≤ b
    → c ≤ d
    → b < 4611686018427387904
    → d < 4611686018427387904
    → d - c ≤ b - a
    → skew_between (pos a) (pos b) (pos c) (pos d)
      ≡ (if not (ltb c a) && not (ltb b d) then pos 0 else pos (a + (b - a - (d - c)) / 2) -ℤ pos c)
unfolding skew_between
short_skew a b c d p q bl dl fits =
    let no_longer : ltb (b - a) (d - c) ≡ false = ground arith in
    let ordered : (m n : ℕ) → ltb_ℤ (pos m) (pos n) ≡ ltb m n = λ m n. ground arith in
    rw (sub_pos b a p bl, sub_pos d c q dl)
      (rw (wrap64_small (b - a) (d - c) (omega arith) fits, half_pos, add_pos)
        (rw (ordered (b - a) (d - c), no_longer, ordered c a, ordered b d)
          (rw (sub_time_small (a + (b - a - (d - c)) / 2) c (omega arith) (omega arith)) refl)))

-- A child that lasts no longer than its parent lies within it once it is moved by the skew, for
-- times below 2^62 nanoseconds and spans that do not end before they start.
pub skew_between-fits :
    (parent_start parent_end child_start child_end : ℕ)
    → parent_start ≤ parent_end
    → child_start ≤ child_end
    → parent_end < 4611686018427387904
    → child_end < 4611686018427387904
    → child_end - child_start ≤ parent_end - parent_start
    → (pos parent_start
        ≤ℤ pos child_start
          +ℤ skew_between (pos parent_start) (pos parent_end) (pos child_start) (pos child_end))
      × (pos child_end
            +ℤ skew_between (pos parent_start) (pos parent_end) (pos child_start) (pos child_end)
          ≤ℤ pos parent_end)
unfolding ◌+ℤ◌ ◌-ℤ◌
skew_between-fits parent_start parent_end child_start child_end p c pl cl fits =
    rw (short_skew parent_start parent_end child_start child_end p c pl cl fits)
      (ground arith, ground arith)
