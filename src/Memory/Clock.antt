-- ===== src/Memory/Clock.antt =====
-- Go's time.Time and time.Duration, as internal/storage/v2/memory uses them. A time is in
-- nanoseconds since the epoch; `none` is the zero time, year 1, before every time that a span has.
use jaeger.Prelude.{Bool, true, false, Option, none, some, if◌then◌else◌}
use jaeger.Prelude.Int.{ℤ, pos, negsuc, ltb_ℤ, ◌-ℤ◌}

abbrev pub Time : Type 0
Time = Option ℤ

abbrev pub is_zero : Time → Bool
is_zero none = true
is_zero (some _) = false

-- `a.Before(b)`
unfoldable pub before : Time → Time → Bool
before none none = false
before none (some _) = true
before (some _) none = false
before (some a) (some b) = ltb_ℤ a b

-- `a.After(b)`
unfoldable pub after : Time → Time → Bool
unfolding before
after a b = before b a

abbrev pub max_duration : ℤ
max_duration = pos 9223372036854775807

abbrev pub min_duration : ℤ
min_duration = negsuc 9223372036854775807

-- A difference of times that does not fit an int64 is the nearest duration that does.
unfoldable pub saturate : ℤ → ℤ
saturate d =
    if ltb_ℤ max_duration d then max_duration else if ltb_ℤ d min_duration then min_duration else d

-- `b.Sub(a)`
unfoldable pub sub_time : ℤ → ℤ → ℤ
unfolding saturate ◌-ℤ◌
sub_time b a = saturate (b -ℤ a)
