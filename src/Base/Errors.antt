-- ===== src/Base/Errors.antt =====
-- Go's `(value, error)` pairs.
use Prim.Native.String.{String}
use mathlib.Core.Path.{◌≡◌, refl}
use mathlib.Core.Logic.{◌⊎◌, inl, inr}

-- `foreign` is an error that code outside the repository made, shown by its text. The last two are
-- no Go errors: `panic` is a run-time panic, and `out_of_fuel` marks a loop that was cut short.
pub data Error : Type 0 where
  foreign : String → Error
  msg : String → Error
  wrap : String → Error → Error
  conditional_check_failed : String → Error
  panic : String → Error
  out_of_fuel : Error

pub data Result {ℓ} (A : Type ℓ) : Type ℓ where
  ok : A → Result A
  err : Error → Result A

-- A split on a computed result that keeps the equation.
pub Result-cases {ℓ} :
    {A : Type ℓ} (r : Result A) → ((a : A) × (r ≡ ok a)) ⊎ ((e : Error) × (r ≡ err e))
Result-cases (ok a) = inl (a, refl)
Result-cases (err e) = inr (e, refl)
