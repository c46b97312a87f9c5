-- ===== src/Tests/Skew.antt =====
-- Tests of Skew.
use jaeger.Prelude.{◌≡◌, refl, arith}
use jaeger.Prelude.Int.{pos, negsuc, ◌+ℤ◌, ◌-ℤ◌, ◌≤ℤ◌}
use jaeger.Memory.Clock.{sub_time}
use jaeger.Skew.{skew_between, wrap64, half, skew_between-fits}

skew_between-fits_example :
    (pos 100 ≤ℤ pos 10 +ℤ skew_between (pos 100) (pos 200) (pos 10) (pos 50))
    × (pos 50 +ℤ skew_between (pos 100) (pos 200) (pos 10) (pos 50) ≤ℤ pos 200)
skew_between-fits_example =
    skew_between-fits 100 200 10 50 (omega arith) (omega arith) (omega arith) (omega arith)
      (omega arith)

-- A child that starts late by another clock is moved back.
skew_run : skew_between (pos 100) (pos 200) (pos 300) (pos 340) ≡ negsuc 169
unfolding skew_between sub_time wrap64 half ◌+ℤ◌ ◌-ℤ◌
skew_run = refl
