-- ===== src/Prelude/Decimal.antt =====
-- Numbers as decimal text: `to_string()`, and `parse::<i32>()`. An `i32` is its pattern of 32 bits.
use Prim.Native.Nat.{ℕ, zero, suc, ◌+◌, ◌-◌, ◌*◌, ◌/◌, ◌%◌, ◌<◌, ◌≤◌}
use mathlib.Core.Path.{◌≡◌, refl, ◌∙◌, ap, subst}
use mathlib.Core.Bool.{Bool, true, false, ◌&&◌}
use mathlib.Core.Logic.{inl, inr}
use mathlib.Core.Option.{Option, none, some}
use mathlib.Core.List.{[], ◌∷◌}
use native.Mathlib.Omega.{arith}
use sideswapclient.Prelude.Tests.{
  ltb, leb, ◌==◌ as nat_eq, if◌then◌else◌, Bool-cases, ◌>>=◌, ltb→lt, lt→ltb,
}
use sideswapclient.Prelude.Key.{Text}

-- With more rounds than the number has digits.
decimal_digits : ℕ → ℕ → Text → Text
decimal_digits zero n digits = digits
decimal_digits (suc fuel) n digits =
    let more = decimal_digits fuel (n / 10) ((b'0' + n % 10) ∷ digits) in
    if ltb n 10 then (b'0' + n) ∷ digits else more

unfoldable pub decimal : ℕ → Text
unfolding decimal_digits
decimal n = decimal_digits (suc n) n []

is_digit : ℕ → Bool
is_digit c = leb b'0' c && leb c b'9'

-- The value of a text of digits, after those that were read.
parse_digits : ℕ → Text → Option ℕ
parse_digits n [] = some n
parse_digits n (c ∷ rest) =
    let later = parse_digits (n * 10 + (c - b'0')) rest in if is_digit c then later else none

-- 2^31 and 2^32.
abbrev pub i32_half : ℕ
i32_half = 2_147_483_648

abbrev pub i32_modulus : ℕ
i32_modulus = 4_294_967_296

-- `to_string()` of an `i32`.
unfoldable pub i32_to_string : ℕ → Text
unfolding decimal
i32_to_string n = if ltb n i32_half then decimal n else b'-' ∷ decimal (i32_modulus - n)

-- The digits after the sign; at least one.
parse_unsigned : Text → Option ℕ
parse_unsigned [] = none
parse_unsigned (c ∷ rest) = parse_digits 0 (c ∷ rest)

below : ℕ → ℕ → Option ℕ
below limit n = if ltb n limit then some n else none

negative : ℕ → Option ℕ
negative n = if leb n i32_half then some ((i32_modulus - n) % i32_modulus) else none

-- `parse::<i32>()`: an optional sign, and an error out of range.
unfoldable pub parse_i32 : Text → Option ℕ
unfolding parse_unsigned below negative parse_digits is_digit
parse_i32 [] = none
parse_i32 (c ∷ rest) =
    if nat_eq c b'-'
    then (parse_unsigned rest >>= negative)
    else if nat_eq c b'+'
    then (parse_unsigned rest >>= below i32_half)
    else (parse_digits 0 (c ∷ rest) >>= below i32_half)

-- A digit is read.
parse_digits-digit :
    (n d : ℕ) (rest : Text)
    → d < 10
    → parse_digits n ((b'0' + d) ∷ rest) ≡ parse_digits (n * 10 + d) rest
unfolding parse_digits is_digit
parse_digits-digit n d rest h =
    let same : n * 10 + (b'0' + d - b'0') ≡ n * 10 + d = omega arith in
    let test : (leb b'0' (b'0' + d) && leb (b'0' + d) b'9') ≡ true = ground arith in
    rw (test, same) refl

-- The digits of a number, read after nothing, leave it before what follows.
parse_digits-decimal_digits :
    (fuel n : ℕ) (rest : Text)
    → n < fuel
    → parse_digits 0 (decimal_digits fuel n rest) ≡ parse_digits n rest
unfolding decimal_digits
parse_digits-decimal_digits zero n rest h = absurd (omega arith)
parse_digits-decimal_digits (suc fuel) n rest h = elim (Bool-cases (ltb n 10)) [
  | inl small ↦
      let same : 0 * 10 + n ≡ n = omega arith in
      rw small
        (parse_digits-digit 0 n rest (ltb→lt n 10 small) ∙ ap (λ m. parse_digits m rest) same)
  | inr large ↦
      let fewer : n / 10 < fuel = ground (arith, large) in
      let whole : n / 10 * 10 + n % 10 ≡ n = omega arith in
      rw large (
        parse_digits-decimal_digits fuel (n / 10) ((b'0' + n % 10) ∷ rest) fewer
        ∙ parse_digits-digit (n / 10) (n % 10) rest (omega arith)
        ∙ ap (λ m. parse_digits m rest) whole)
]

-- They start with a digit.
decimal_digits_head :
    (fuel n : ℕ) (rest : Text)
    → n < fuel
    → (c : ℕ) × (tail : Text) × (decimal_digits fuel n rest ≡ c ∷ tail) × (b'0' ≤ c)
unfolding decimal_digits
decimal_digits_head zero n rest h = absurd (omega arith)
decimal_digits_head (suc fuel) n rest h = elim (Bool-cases (ltb n 10)) [
  | inl small ↦ (b'0' + n, rest, rw small refl, omega arith)
  | inr large ↦
      let fewer : n / 10 < fuel = ground (arith, large) in
      rw large (decimal_digits_head fuel (n / 10) ((b'0' + n % 10) ∷ rest) fewer)
]

parse_i32-head :
    (text : Text) (n c : ℕ) (tail : Text)
    → text ≡ c ∷ tail
    → b'0' ≤ c
    → n < i32_half
    → parse_digits 0 text ≡ some n
    → parse_i32 text ≡ some n
unfolding parse_i32 below
parse_i32-head text n c tail e h small parsed =
    let parsed' : parse_digits 0 (c ∷ tail) ≡ some n =
      subst (λ t. parse_digits 0 t ≡ some n) e parsed in
    let minus : nat_eq c b'-' ≡ false = ground arith in
    let plus : nat_eq c b'+' ≡ false = ground arith in
    rw e (rw (minus, plus) (rw parsed' (rw (lt→ltb n i32_half small) refl)))

-- The text of a number that is not negative is read as this number.
pub parse_i32-i32_to_string : (n : ℕ) → n < i32_half → parse_i32 (i32_to_string n) ≡ some n
unfolding i32_to_string decimal
parse_i32-i32_to_string n h =
    let (c, tail, e, digit) = decimal_digits_head (suc n) n [] (omega arith) in
    rw (lt→ltb n i32_half h) (
      parse_i32-head (decimal_digits (suc n) n []) n c tail e digit h
        (unfold parse_digits in parse_digits-decimal_digits (suc n) n [] (omega arith)))
