-- ===== src/Prelude/FixedPoint.antt =====
-- An arithmetic on which the operations of `Float` run: numbers in units of 10^-8, never below 0.
-- It stands for `f64` in concrete inputs only.
use sideswapclient.Prelude.{ℕ, ◌+◌, ◌-◌, ◌*◌, ◌/◌, ltb, leb, ◌==◌, if◌then◌else◌}
use sideswapclient.Prelude.Int64
use sideswapclient.Prelude.Float.{Float}

abbrev unit : ℕ
unit = 100_000_000

abbrev pub fixed_point : Float
fixed_point = record {
  F64 = ℕ;
  literal = λ n d. n * unit / d;
  of_i64 = λ n. n * unit;
  of_u64 = λ n. n * unit;
  to_i64 = λ x. x / unit;
  to_u64 = λ x. x / unit;
  add = λ x y. x + y;
  sub = λ x y. x - y;
  mul = λ x y. x * y / unit;
  div = λ x y. x * unit / y;
  neg = λ x. x;
  abs = λ x. x;
  min = λ x y. if leb x y then x else y;
  max = λ x y. if leb x y then y else x;
  max_value = Int64.modulus * unit;
  round = λ x. (x + unit / 2) / unit * unit;
  ceil = λ x. (x + (unit - 1)) / unit * unit;
  lt = ltb;
  le = leb;
  eq = ◌==◌;
}
