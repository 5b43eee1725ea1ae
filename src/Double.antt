-- ===== src/Double.antt =====
-- The C type `double`: IEEE 754 binary64, with every operation rounded to nearest, ties to even.
-- A finite double is a whole multiple of 2^-1074, and is modelled by that multiple, an integer.
-- Infinities and NaN are left out: every divisor in the code is tested or a positive constant, and
-- every value stays far below 2^1024. A zero has no sign, and the code never tells +0.0 from -0.0.
pub mod Round
pub mod Mono
pub mod Laws
pub mod Millionths
pub mod Error
use approximation_computing.Common.{
  ℕ, zero, suc, ◌+◌, ◌-◌, ◌*◌, ◌/◌, ◌%◌, ◌^◌, Bool, true, false, ltb, if◌then◌else◌, ℤ, pos, negsuc,
  pos_part, neg_part, sub_ℕ, neg, ltb_ℤ,
}

-- The least `e` with `num < den * 2 ^ (53 + e)`, looked for below `2 ^ k`.
pub exponent : ℕ → ℕ → ℕ → ℕ
exponent zero num den = 0
exponent (suc k) num den = elim (ltb num (den * 2 ^ (52 + 2 ^ k))) [
  | true ↦ exponent k num den
  | false ↦ 2 ^ k + exponent k num (den * 2 ^ (2 ^ k))
]

-- num / d as a whole number, to nearest, a tie to the even one.
pub nearest : ℕ → ℕ → ℕ
nearest num d =
    let q = num / d in
    let r = num % d in if ltb (2 * r) d then q else if ltb d (2 * r) then q + 1 else q + q % 2

-- num / den as a whole multiple of 2 ^ e.
pub round_at : ℕ → ℕ → ℕ → ℕ
round_at e num den = nearest num (den * 2 ^ e) * 2 ^ e

-- num / den with 53 significant bits.
pub round : ℕ → ℕ → ℕ
round num den = round_at (exponent 12 num den) num den

-- 1.0 in units of 2^-1074.
abbrev pub one : ℕ
one = 2 ^ 1074

abbrev pub Double : Type 0
Double = ℤ

abbrev pub opposite : ℕ → Double
opposite zero = pos 0
opposite (suc m) = negsuc m

-- The magnitude `m` with the sign of `a`.
abbrev pub with_sign : ℤ → ℕ → Double
with_sign (pos _) m = pos m
with_sign (negsuc _) m = opposite m

-- The magnitude `m` with the sign of a product or a quotient.
abbrev pub with_signs : ℤ → ℤ → ℕ → Double
with_signs (pos _) (pos _) m = pos m
with_signs (pos _) (negsuc _) m = opposite m
with_signs (negsuc _) (pos _) m = opposite m
with_signs (negsuc _) (negsuc _) m = pos m

abbrev pub magnitude : ℤ → ℕ
magnitude (pos n) = n
magnitude (negsuc n) = suc n

-- The literal num / 10 ^ digits, and its negation.
unfoldable pub decimal : ℕ → ℕ → Double
unfolding round round_at exponent nearest
decimal num digits = pos (round (num * one) (10 ^ digits))

-- (double)n for an unsigned integer n.
unfoldable pub of_nat : ℕ → Double
unfolding round round_at exponent nearest
of_nat n = pos (round (n * one) 1)

-- (double)n for a signed integer n.
unfoldable pub of_int : ℤ → Double
unfolding round round_at exponent nearest
of_int n = with_sign n (round (magnitude n * one) 1)

-- (u64)x for a double x that is not negative and lies below 2^64.
unfoldable pub to_nat : Double → ℕ
to_nat x = pos_part x / one

unfoldable pub add : Double → Double → Double
unfolding round round_at exponent nearest
add a b =
    let s = sub_ℕ (pos_part a + pos_part b) (neg_part a + neg_part b) in
    with_sign s (round (magnitude s) 1)

unfoldable pub sub : Double → Double → Double
unfolding add
sub a b = add a (neg b)

unfoldable pub mul : Double → Double → Double
unfolding round round_at exponent nearest
mul a b = with_signs a b (round (magnitude a * magnitude b) one)

-- The divisor is not zero.
unfoldable pub div : Double → Double → Double
unfolding round round_at exponent nearest
div a b = with_signs a b (round (magnitude a * one) (magnitude b))

-- A magnitude in millionths, to nearest, a tie to the even one: what `%.6f` prints.
unfoldable pub in_millionths : ℕ → ℕ
unfolding nearest
in_millionths m = nearest (m * 10 ^ 6) one

unfoldable pub fabs : Double → Double
fabs a = pos (magnitude a)

abbrev pub lt : Double → Double → Bool
lt a b = ltb_ℤ a b

-- Unfolding this opens all of the arithmetic above, for a run at concrete numbers.
unfoldable pub run_double : Unit {0}
unfolding decimal of_nat of_int to_nat add sub mul div fabs in_millionths
run_double = tt
