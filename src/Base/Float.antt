-- ===== src/Base/Float.antt =====
-- Go's `float64`, by its bit pattern. The arithmetic of the machine is a parameter of what uses it.
use Prim.Native.Nat.{ℕ}
use mathlib.Core.Bool.{Bool}
use landman.Base.Numbers.{ℤ}

pub record Float64 : Type 0 where
  pub bits : ℕ

-- The operations of the language and of the `math` package that the program calls.
pub record FloatOps : Type 0 where
  pub of_int : ℤ → Float64
  pub to_int : Float64 → ℤ
  pub add : Float64 → Float64 → Float64
  pub mul : Float64 → Float64 → Float64
  pub div : Float64 → Float64 → Float64
  -- `math.Pow(2, float64(n))`
  pub pow2 : ℤ → Float64
  pub lt : Float64 → Float64 → Bool
  pub le : Float64 → Float64 → Bool
  pub eq : Float64 → Float64 → Bool
