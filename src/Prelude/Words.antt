-- ===== src/Prelude/Words.antt =====
-- Go's uint64, with its wrap-around.
use jaeger.Prelude.{ℕ, ◌+◌, ◌-◌, ◌%◌, ◌<◌, ◌≤◌, ◌≡◌, arith}

abbrev pub u64_mod : ℕ
u64_mod = 18446744073709551616

unfoldable pub add64 : ℕ → ℕ → ℕ
add64 a b = (a + b) % u64_mod

unfoldable pub sub64 : ℕ → ℕ → ℕ
sub64 a b = (a + u64_mod - b) % u64_mod

pub add64_of_lt : (a b : ℕ) → a + b < u64_mod → add64 a b ≡ a + b
unfolding add64
add64_of_lt a b h = omega arith

pub sub64_of_le : (a b : ℕ) → b ≤ a → a < u64_mod → sub64 a b ≡ a - b
unfolding sub64
sub64_of_le a b h k = omega arith
