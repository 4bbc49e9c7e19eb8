-- ===== src/Base/Int64.antt =====
-- `int64` as its bit pattern: a number below 2 ^ 64. A `time.Duration` is one, in nanoseconds.
use Prim.Native.Nat.{ℕ, ◌+◌, ◌-◌, ◌*◌, ◌%◌, ◌^◌}
use mathlib.Core.Bool.{Bool}
use agentic_tenancy.Base.Tests.{ltb}

abbrev pub Int64 : Type 0
Int64 = ℕ

abbrev pub modulus : ℕ
modulus = 2 ^ 64

abbrev pub sign_bit : ℕ
sign_bit = 2 ^ 63

-- `a < b` on signed numbers: the patterns are compared with the sign bit flipped.
abbrev pub signed_lt : Int64 → Int64 → Bool
signed_lt a b = ltb ((a + sign_bit) % modulus) ((b + sign_bit) % modulus)

abbrev pub mul : Int64 → Int64 → Int64
mul a b = (a * b) % modulus

abbrev pub negate : ℕ → Int64
negate n = (modulus - n) % modulus
