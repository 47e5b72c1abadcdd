-- ===== src/Prelude/Decimal.antt =====
-- `Display` of the unsigned integers: decimal digits, the most significant first.
use Prim.Native.Nat.{ℕ, zero, suc, ◌/◌, ◌%◌}
use Prim.Native.String.{String, ◌++◌ as ◌<>◌}
use mathlib.Core.Path.{◌≡◌, refl}
use ai_assistant.Prelude.Tests.{ltb, eqb, if◌then◌else◌}

unfoldable pub digit : ℕ → String
digit d =
    if eqb d 0
    then "0"
    else if eqb d 1
    then "1"
    else if eqb d 2
    then "2"
    else if eqb d 3
    then "3"
    else if eqb d 4
    then "4"
    else if eqb d 5
    then "5"
    else if eqb d 6
    then "6"
    else if eqb d 7
    then "7"
    else if eqb d 8
    then "8"
    else "9"

-- A number has no more digits than its value plus one.
unfoldable pub digits : ℕ → ℕ → String
unfolding digit
digits zero n = ""
digits (suc f) n =
    let rest = digits f (n / 10) in if ltb n 10 then digit n else rest <> digit (n % 10)

unfoldable pub show_ℕ : ℕ → String
unfolding digits
show_ℕ n = digits (suc n) n

show_ℕ_runs : show_ℕ 1805 ≡ "1805"
unfolding show_ℕ
show_ℕ_runs = refl
