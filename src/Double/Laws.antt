-- ===== src/Double/Laws.antt =====
-- The operations on doubles at whole numbers: exact conversions, monotone ones, and quotients.
use native.Mathlib.Nat.{le_antisymm}
use approximation_computing.Common.{
  zero, suc, ◌+◌, sub_ℕ, neg, negsuc, ℕ, ◌*◌, ◌^◌, ◌≤◌, ◌<◌, ◌≡◌, refl, ap, arith, pos, pos_part,
  mul-le-mul, le_trans, ◌/◌,
}
use approximation_computing.Double.{
  one, exponent, nearest, round_at, sub, add, round, of_nat, to_nat, mul, div,
}
use approximation_computing.Double.Round.{InRange, round-le, le-round}
use approximation_computing.Double.Mono.{round_mono}

-- The operations in terms of the rounding, which stays shut elsewhere.
pub of_nat_lem : (n : ℕ) → of_nat n ≡ pos (round (n * one) 1)
unfolding of_nat
of_nat_lem n = refl

pub div_lem : (a b : ℕ) → div (pos a) (pos b) ≡ pos (round (a * one) b)
unfolding div
div_lem a b = refl

pub mul_lem : (a b : ℕ) → mul (pos a) (pos b) ≡ pos (round (a * b) one)
unfolding mul
mul_lem a b = refl

-- A whole number below 2^64 lies in the range of the rounding.
nat-InRange : (n : ℕ) → n < 2 ^ 64 → InRange (n * one) 1
nat-InRange n h = omega arith

-- (double)n is exact up to 2^53.
pub of_nat-exact : (n : ℕ) → n ≤ 2 ^ 53 → of_nat n ≡ pos (n * one)
of_nat-exact n h = rw (of_nat_lem n) (
    ap pos (
      le_antisymm
        (round-le (n * one) 1 (omega arith) (nat-InRange n (omega arith)) n 1074 h (omega arith))
        (le-round (n * one) 1 (omega arith) (nat-InRange n (omega arith)) n 1074 h (omega arith))))

pub of_nat_mono : (a b : ℕ) → a ≤ b → b < 2 ^ 64 → pos_part (of_nat a) ≤ pos_part (of_nat b)
of_nat_mono a b h k =
    rw (of_nat_lem a, of_nat_lem b)
      (round_mono (a * one) 1 (b * one) 1 (omega arith) (omega arith) (nat-InRange a (omega arith))
        (nat-InRange b k) (omega arith))

pub of_nat-pos : (n : ℕ) → 0 < n → n < 2 ^ 64 → one ≤ pos_part (of_nat n)
of_nat-pos n h k =
    rw (of_nat_lem n)
      (le-round (n * one) 1 (omega arith) (nat-InRange n k) 1 1074 (omega arith) (omega arith))

-- A quotient of a smaller by a larger number is at most 1.0.
pub div-le-one : (a b : ℕ) → 0 < b → a ≤ b → pos_part (div (pos a) (pos b)) ≤ one
div-le-one a b p h =
    rw (div_lem a b) (round-le (a * one) b p (omega arith) 1 1074 (omega arith) (omega arith))

pub div_self : (a : ℕ) → 0 < a → div (pos a) (pos a) ≡ pos one
div_self a p = rw (div_lem a a) (
    ap pos (
      le_antisymm (round-le (a * one) a p (omega arith) 1 1074 (omega arith) (omega arith))
        (le-round (a * one) a p (omega arith) 1 1074 (omega arith) (omega arith))))

-- (u64)((double)n * f) for a factor of at most 1.0 lies between the whole numbers round n * f.
module _ (n f m : ℕ) (exact : n ≤ 2 ^ 53) (f_le : f ≤ one) (fits : m ≤ 2 ^ 53) where
  product-InRange : InRange (n * one * f) one
  product-InRange = omega (arith, mul-le-mul exact f_le)

  pub scaled-le : n * f ≤ m * one → to_nat (mul (of_nat n) (pos f)) ≤ m
  unfolding to_nat
  scaled-le h =
      rw (of_nat-exact n exact, mul_lem (n * one) f)
        (omega (
          arith,
          round-le (n * one * f) one (omega arith) product-InRange m 1074 fits (omega arith),
        ))

  pub le-scaled : m * one ≤ n * f → m ≤ to_nat (mul (of_nat n) (pos f))
  unfolding to_nat
  le-scaled h =
      rw (of_nat-exact n exact, mul_lem (n * one) f)
        (omega (
          arith,
          le-round (n * one * f) one (omega arith) product-InRange m 1074 fits (omega arith),
        ))

nearest_zero : (d : ℕ) → nearest 0 d ≡ 0
unfolding nearest
nearest_zero zero = refl
nearest_zero (suc d) = ground arith

-- Zero is not rounded.
pub round_zero : (d : ℕ) → round 0 d ≡ 0
unfolding round round_at
round_zero d = rw (nearest_zero (d * 2 ^ exponent 12 0 d)) (omega arith)

pub sub_self : (m : ℕ) → sub (pos m) (pos m) ≡ pos 0
unfolding sub add
sub_self zero = refl
sub_self (suc m) =
    let opposite : neg (pos (suc m)) ≡ negsuc m = ground arith in
    let total : sub_ℕ (suc m + 0) (0 + suc m) ≡ pos 0 = ground arith in
    rw (opposite, total) (ap pos (round_zero 1))

-- (double)n of a number below 2^64 is off by less than 2048.
pub of_nat-le : (n : ℕ) → n < 2 ^ 64 → pos_part (of_nat n) ≤ (n + 2048) * one
of_nat-le n h =
    let up : n ≤ (n / 2048 + 1) * 2048 = omega arith in
    rw (of_nat_lem n) (
      le_trans
        (round-le (n * one) 1 (omega arith) (nat-InRange n h) (n / 2048 + 1) 1085 (omega arith)
          (omega arith))
        (omega arith))

pub le-of_nat : (n : ℕ) → n < 2 ^ 64 → n * one ≤ pos_part (of_nat n) + 2048 * one
le-of_nat n h =
    let below =
      le-round (n * one) 1 (omega arith) (nat-InRange n h) (n / 2048) 1085 (omega arith)
        (omega arith) in
    rw (of_nat_lem n) (omega arith)
