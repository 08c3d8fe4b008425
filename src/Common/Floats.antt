-- ===== src/Common/Floats.antt =====
-- The interface of Go's float64 and of package math.
use disguise.Common.Int.{ℤ}
use Prim.Native.Nat.{ℕ}
use mathlib.Core.Bool.{Bool}

-- No law is assumed: what is proved holds for any arithmetic on float64.
pub record Floats : Type 1 where
  pub Float : Type 0
  -- The constant `n / 10 ^ d`.
  pub constant : ℕ → ℕ → Float
  pub of_int : ℕ → Float
  -- `int(x)`, whose value is up to the machine where `x` is out of range.
  pub to_int : Float → ℤ
  pub add : Float → Float → Float
  pub sub : Float → Float → Float
  pub mul : Float → Float → Float
  pub div : Float → Float → Float
  pub max : Float → Float → Float
  pub pow : Float → Float → Float
  pub log : Float → Float
  -- `-math.MaxFloat64`.
  pub most_negative : Float
  pub eq : Float → Float → Bool
  pub lt : Float → Float → Bool
  pub le : Float → Float → Bool
