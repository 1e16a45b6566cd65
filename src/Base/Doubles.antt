-- ===== src/Base/Doubles.antt =====
-- Python's floats: the operations that the engines apply to them. The type has no model in exact
-- numbers, so it is a parameter, as are the laws of its order where a theorem needs them.
use Prim.Native.Nat.{ℕ}
use mathlib.Core.Path.{◌≡◌}
use mathlib.Core.Bool.{Bool, true, false}

pub record Floats : Type 1 where
  pub F : Type 0
  -- `float(n)`, and the literal with mantissa `m` and `k` decimals
  pub of_nat : ℕ → F
  pub lit : (m k : ℕ) → F
  pub add : F → F → F
  pub sub : F → F → F
  pub mul : F → F → F
  pub div : F → F → F
  -- `x <= y`
  pub leb_F : F → F → Bool
  -- `round(x, n)`
  pub round_to : ℕ → F → F
  -- `round(x)` and `int(x)` on numbers that are not negative
  pub nearest : F → ℕ
  pub trunc : F → ℕ

-- The order of the floats other than NaN.
pub record IsOrdered (fl : Floats) : Type 0 where
  pub leb_total : (x y : fl.F) → fl.leb_F x y ≡ false → fl.leb_F y x ≡ true
  pub leb_trans : (x y z : fl.F) → fl.leb_F x y ≡ true → fl.leb_F y z ≡ true → fl.leb_F x z ≡ true
