-- ===== src/Base/Decimal.antt =====
-- The decimal text of a number, as `%d` prints it.
use Prim.Native.Nat.{ℕ, zero, suc, ◌/◌, ◌%◌}
use Prim.Native.String.{String, ◌++◌ as concat}
use mathlib.Core.Path.{◌≡◌, refl}
use mathlib.Core.List.{List, [], ◌∷◌}
use ladder_airport.Base.Tests.{ltb, if◌then◌else◌}
use ladder_airport.Base.Lists.{get_or}

abbrev digits : List String
digits = "0" ∷ "1" ∷ "2" ∷ "3" ∷ "4" ∷ "5" ∷ "6" ∷ "7" ∷ "8" ∷ "9" ∷ []

-- On fuel: a number has at most one digit more than its value.
unfoldable pub decimal_from : ℕ → ℕ → String
decimal_from zero n = get_or digits n ""
decimal_from (suc fuel) n =
    let rest = decimal_from fuel (n / 10) in
    if ltb n 10 then get_or digits n "" else concat rest (get_or digits (n % 10) "")

unfoldable pub decimal : ℕ → String
decimal n = decimal_from n n

decimal_runs : decimal 103 ≡ "103"
unfolding decimal decimal_from
decimal_runs = refl
