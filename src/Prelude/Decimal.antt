-- ===== src/Prelude/Decimal.antt =====
-- The fuel of the decimal print-out.
use Prim.Native.Nat.{ℕ, zero, suc, ◌+◌, ◌/◌, ◌<◌}
use mathlib.Core.Path.{◌≡◌, refl}
use mathlib.Core.Logic.{inl, inr}
use native.Mathlib.Omega.{arith}
use bfsi_voice_agent.Prelude.Tests.{ltb, Bool-cases}
use bfsi_voice_agent.Prelude.Texts.{decimal_fuel, decimal}

decimal_fuel_enough : (f g n : ℕ) → n < f → n < g → decimal_fuel f n ≡ decimal_fuel g n
unfolding decimal_fuel
decimal_fuel_enough zero g n h k = absurd (omega (arith, h))
decimal_fuel_enough (suc f) zero n h k = absurd (omega (arith, k))
decimal_fuel_enough (suc f) (suc g) n h k = elim (Bool-cases (ltb n 10)) [
  | inl e ↦ rw e refl
  | inr e ↦ rw (e, decimal_fuel_enough f g (n / 10) (ground arith) (ground arith)) refl
]

-- More rounds than `decimal` takes print the same.
decimal_enough : (f n : ℕ) → n < f → decimal_fuel f n ≡ decimal n
unfolding decimal
decimal_enough f n h = decimal_fuel_enough f (n + 1) n h (omega arith)
