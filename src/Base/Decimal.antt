-- ===== src/Base/Decimal.antt =====
-- A number in a template literal: its decimal digits. A number below 10 to the 21 is meant, from
-- where on JavaScript writes an exponent.
use Prim.Native.Nat.{◌/◌, ◌%◌}
use Prim.Native.Nat.{ℕ, zero, suc, ◌+◌, ◌<◌}
use mathlib.Core.Path.{◌≡◌, refl, ap}
use mathlib.Core.Logic.{inl, inr}
use mathlib.Core.List.{[], ◌∷◌, ◌++◌}
use native.Mathlib.Omega.{arith}
use bitgate.Base.Tests.{ltb, if◌then◌else◌, Bool-cases}
use bitgate.Base.Text.{Text}

-- The digits, with fuel for one more round than there are digits at most.
unfoldable pub digits : ℕ → ℕ → Text
digits zero n = []
digits (suc fuel) n =
    let rest = digits fuel (n / 10) in
    if ltb n 10 then (48 + n) ∷ [] else rest ++ (48 + n % 10) ∷ []

unfoldable pub decimal : ℕ → Text
unfolding digits
decimal n = digits (suc n) n

-- Fuel above the number is enough.
digits_enough : (f g n : ℕ) → n < f → n < g → digits f n ≡ digits g n
unfolding digits
digits_enough zero g n h k = absurd (omega arith)
digits_enough (suc f) zero n h k = absurd (omega arith)
digits_enough (suc f) (suc g) n h k = elim (Bool-cases (ltb n 10)) [
  | inl e ↦ rw e refl
  | inr e ↦
      rw e (
        ap (λ t. t ++ (48 + n % 10) ∷ [])
          (digits_enough f g (n / 10) (ground arith) (ground arith)))
]

-- The digits of a number with any fuel above it.
pub decimal_lem : (fuel n : ℕ) → n < fuel → digits fuel n ≡ decimal n
unfolding decimal
decimal_lem fuel n h = digits_enough fuel (suc n) n h (omega arith)
