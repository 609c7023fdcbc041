-- ===== src/Prelude/Float.antt =====
-- `f64`: the type and the operations that the code uses, with no law assumed here. A module that
-- needs a law of IEEE 754 arithmetic takes it as a hypothesis of its own.
use Prim.Native.Nat.{ℕ}
use mathlib.Core.Bool.{Bool}
use sideswapclient.Prelude.Int64.{I64}

pub record Float : Type 1 where
  pub F64 : Type 0
  -- The literal n / d, rounded.
  pub literal : ℕ → ℕ → F64
  -- `as f64`, and `as i64` and `as u64`, which saturate.
  pub of_i64 : I64 → F64
  pub of_u64 : ℕ → F64
  pub to_i64 : F64 → I64
  pub to_u64 : F64 → ℕ
  pub add : F64 → F64 → F64
  pub sub : F64 → F64 → F64
  pub mul : F64 → F64 → F64
  pub div : F64 → F64 → F64
  pub neg : F64 → F64
  pub abs : F64 → F64
  pub min : F64 → F64 → F64
  pub max : F64 → F64 → F64
  -- `f64::MAX`
  pub max_value : F64
  pub round : F64 → F64
  pub ceil : F64 → F64
  -- `<`, `<=` and `==`; all are false on NaN.
  pub lt : F64 → F64 → Bool
  pub le : F64 → F64 → Bool
  pub eq : F64 → F64 → Bool

-- `Amount::from_bitcoin` and `Amount::to_bitcoin` of rust/sideswap_common/src/types.rs.
abbrev pub coin : I64
coin = 100_000_000

abbrev pub from_bitcoin : (float : Float) → float.F64 → I64
from_bitcoin float value = float.to_i64 (float.round (float.mul value (float.of_i64 coin)))

abbrev pub to_bitcoin : (float : Float) → I64 → float.F64
to_bitcoin float amount = float.div (float.of_i64 amount) (float.of_i64 coin)
