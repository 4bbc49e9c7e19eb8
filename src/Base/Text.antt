-- ===== src/Base/Text.antt =====
-- The texts of numbers, as `%d` and `strconv` write them, and `strings.Contains`.
use Prim.Native.Nat.{ℕ, zero, suc, ◌-◌, ◌/◌, ◌%◌}
use Prim.Native.String.{String, ◌++◌ as ◌<>◌}
use mathlib.Core.Bool.{Bool, true, false}
use mathlib.Core.Option.{Option, none, some}
use mathlib.Core.Path.{◌≡◌, refl}
use text.Mathlib.Text.{find?}
use agentic_tenancy.Base.Tests.{ltb, if◌then◌else◌, ◌==◌, nat_eq}
use agentic_tenancy.Base.Int64.{Int64, modulus, sign_bit}

abbrev digit : ℕ → String
digit n =
    if n == 0
    then "0"
    else if n == 1
    then "1"
    else if n == 2
    then "2"
    else if n == 3
    then "3"
    else if n == 4
    then "4"
    else if n == 5
    then "5"
    else if n == 6
    then "6"
    else if n == 7
    then "7"
    else if n == 8
    then "8"
    else "9"

-- The fuel is the number of digits.
decimal_in : ℕ → ℕ → String
decimal_in zero n = ""
decimal_in (suc fuel) n =
    let front = decimal_in fuel (n / 10) in if ltb n 10 then digit n else front <> digit (n % 10)

-- A number below 2 ^ 64 has at most twenty digits.
unfoldable pub decimal : ℕ → String
unfolding decimal_in
decimal n = decimal_in 20 n

unfoldable pub signed_decimal : Int64 → String
unfolding decimal
signed_decimal n = if ltb n sign_bit then decimal n else "-" <> decimal (modulus - n)

abbrev found : Option ℕ → Bool
found none = false
found (some _) = true

-- `strings.Contains(s, t)`
abbrev pub contains : String → String → Bool
contains s t = found (find? s t)

eight_thousand : decimal 8080 ≡ "8080"
unfolding decimal
eight_thousand = refl

largest : decimal (modulus - 1) ≡ "18446744073709551615"
unfolding decimal
largest = refl

minus_one : signed_decimal (modulus - 1) ≡ "-1"
unfolding signed_decimal
minus_one = refl
