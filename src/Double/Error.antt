-- ===== src/Double/Error.antt =====
-- The error of one rounding: at most one part of 2^53.
use native.Mathlib.Nat.{le_of_mul-le-mul_right, mul-pos}
use approximation_computing.Common.{
  ℕ, zero, suc, ◌+◌, ◌*◌, ◌^◌, ◌≤◌, ◌<◌, ◌≡◌, ap, inl, inr, arith, pos_part, two-pow-pos, pow-add,
}
use approximation_computing.Double.{one, exponent, nearest, round_at, round, of_nat, div}
use approximation_computing.Double.Round.{InRange, IsExponent, exponent_lem}
use approximation_computing.Double.Millionths.{nearest-near}
use approximation_computing.Double.Laws.{of_nat-exact, div_lem, round_zero}

-- The unit that is rounded to is at most one part of 2^52 of the number.
unit-le : (e num den : ℕ) → IsExponent e num den → den * 2 ^ 52 ≤ num → den * 2 ^ e * 2 ^ 52 ≤ num
unit-le e num den (below, inl z) h = rw z (omega arith)
unit-le e num den (below, inr g) h = omega (arith, ap (λ (t : ℕ). den * t) (pow-add 2 52 e))

-- A number of at least 2^52 units is off by at most one part of 2^53.
pub round-near :
    (num den : ℕ)
    → 0 < den
    → InRange num den
    → den * 2 ^ 52 ≤ num
    → (2 ^ 53 * (round num den * den) ≤ 2 ^ 53 * num + num)
      × (2 ^ 53 * num ≤ 2 ^ 53 * (round num den * den) + num)
unfolding round round_at
round-near num den p range h =
    let e : ℕ = exponent 12 num den in
    let fine = unit-le e num den (exponent_lem 12 num den range) h in
    let (low, high) = nearest-near num (den * 2 ^ e) (mul-pos p (two-pow-pos e)) in
    let q : ℕ = nearest num (den * 2 ^ e) in
    let same : q * (den * 2 ^ e) ≡ q * 2 ^ e * den = omega arith in (omega arith, omega arith)

-- The quotient of two whole numbers, the lower one not above 2^53.
pub quotient-near :
    (x total : ℕ)
    → x ≤ total
    → 0 < total
    → total ≤ 2 ^ 53
    → let s = pos_part (div (of_nat x) (of_nat total)) in
      (2 ^ 53 * (s * total) ≤ 2 ^ 53 * (x * one) + x * one)
      × (2 ^ 53 * (x * one) ≤ 2 ^ 53 * (s * total) + x * one)
quotient-near zero total h p fits =
    rw
      (
        of_nat-exact 0 (omega arith),
        of_nat-exact total fits,
        div_lem (0 * one) (total * one),
        round_zero (total * one),
      )
      (omega arith, omega arith)
quotient-near (suc x) total h p fits =
    let n : ℕ = suc x in
    let large : total * one * 2 ^ 52 ≤ n * one * one = omega arith in
    let (low, high) = round-near (n * one * one) (total * one) (omega arith) (omega arith) large in
    rw (of_nat-exact n (omega arith), of_nat-exact total fits, div_lem (n * one) (total * one))
      (
        le_of_mul-le-mul_right {k = one} (omega arith) (omega arith),
        le_of_mul-le-mul_right {k = one} (omega arith) (omega arith),
      )
