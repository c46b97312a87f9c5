-- ===== src/Jptrace/Decimal.antt =====
-- The `%d` of fmt.Sprintf, for numbers that are not negative.
use Prim.Native.String.{◌++◌ as str_append}
use jaeger.Prelude.{
  ℕ, zero, suc, ◌+◌, ◌/◌, ◌%◌, String, List, [], ◌∷◌, get_or, ltb, if◌then◌else◌, ◌≡◌, refl,
}

abbrev digits : List String
digits = "0" ∷ "1" ∷ "2" ∷ "3" ∷ "4" ∷ "5" ∷ "6" ∷ "7" ∷ "8" ∷ "9" ∷ []

-- A number has fewer digits than `n + 1`, so this fuel is enough.
unfoldable pub decimal_fuel : ℕ → ℕ → String
decimal_fuel zero n = ""
decimal_fuel (suc fuel) n =
    let rest = decimal_fuel fuel (n / 10) in
    let last = get_or digits (n % 10) "" in if ltb n 10 then last else str_append rest last

unfoldable pub decimal : ℕ → String
unfolding decimal_fuel
decimal n = decimal_fuel (n + 1) n

decimal_runs : decimal 10050 ≡ "10050"
unfolding decimal
decimal_runs = refl
