-- ===== src/Prelude/Int64.antt =====
-- `i64` as its 64-bit pattern, a number below 2^64; the operations wrap, as a release build does.
use Prim.Native.Nat.{ℕ, ◌+◌, ◌-◌, ◌%◌, ◌≤◌, ◌<◌}
use mathlib.Core.Path.{◌≡◌}
use mathlib.Core.Bool.{Bool}
use native.Mathlib.Omega.{arith}
use sideswapclient.Prelude.Tests.{ltb, leb, if◌then◌else◌}

abbrev pub I64 : Type 0
I64 = ℕ

-- 2^63, the least pattern with the sign bit, and 2^64.
abbrev pub half : ℕ
half = 9_223_372_036_854_775_808

abbrev pub modulus : ℕ
modulus = 18_446_744_073_709_551_616

unfoldable pub add : I64 → I64 → I64
add a b = (a + b) % modulus

unfoldable pub sub : I64 → I64 → I64
sub a b = (a + modulus - b) % modulus

unfoldable pub neg : I64 → I64
neg a = (modulus - a) % modulus

unfoldable pub abs : I64 → I64
unfolding neg
abs a = if leb half a then neg a else a

-- The signed order: shift both patterns by 2^63.
abbrev pub lt : I64 → I64 → Bool
lt a b = ltb ((a + half) % modulus) ((b + half) % modulus)

abbrev pub le : I64 → I64 → Bool
le a b = leb ((a + half) % modulus) ((b + half) % modulus)

-- On patterns below 2^63 the operations and the order are those of the numbers.
pub add-nonneg : (a b : I64) → a + b < half → add a b ≡ a + b
unfolding add
add-nonneg a b h = omega arith

pub sub-nonneg : (a b : I64) → b ≤ a → a < half → sub a b ≡ a - b
unfolding sub
sub-nonneg a b h k = omega arith

pub lt-nonneg : (a b : I64) → a < half → b < half → lt a b ≡ ltb a b
lt-nonneg a b h k = ground arith

-- A difference that falls below zero is not above it.
pub sub-not-pos : (a b : I64) → a ≤ b → b < half → lt 0 (sub a b) ≡ ltb b a
unfolding sub
sub-not-pos a b h k = ground arith

-- The operations on numbers of 64 bits without a sign, where they do not wrap.
pub add-small : (a b : ℕ) → a + b < modulus → add a b ≡ a + b
unfolding add
add-small a b h = omega arith

pub sub-small : (a b : ℕ) → b ≤ a → a < modulus → sub a b ≡ a - b
unfolding sub
sub-small a b h k = omega arith
