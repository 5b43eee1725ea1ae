-- ===== src/Exact/Ideal.antt =====
-- `exact_decay_load` against the ideal decay by y^n, where y^32 is one half.
use native.Mathlib.Nat.{
  pow-zero, pow-suc, mul-zero, mul-suc, pow-le-pow_left, pow-lt-pow_left, div-mul-le_self,
  lt-div-mul-add, lt_of_mul-lt-mul_right, div-le_self, le_of_mul-le-mul_right, div-add-mod',
}
use native.Mathlib.Decide.{dec_lt}
use approximation_computing.Common.{
  ℕ, zero, suc, ◌+◌, ◌*◌, ◌/◌, ◌%◌, ◌^◌, ◌≤◌, ◌<◌, ◌≡◌, refl, sym, arith, Bool, true, leb, leb→le,
  ◌&&◌, and_left, and_right, all_below, all_below_sound, pow-add, two-pow-pos, two-pow-le,
  mul-le-mul_left, mul-le-mul_right, le_trans,
}
use approximation_computing.Task.{y_n_inv}
use approximation_computing.Exact.{exact_decay_load}
use approximation_computing.Exact.Decay.{
  factor, factor_bounds, exact_decay_load_lem, exact_decay_load-zero,
}

mul_pow : (a b n : ℕ) → (a * b) ^ n ≡ a ^ n * b ^ n
mul_pow a b zero = rw (pow-zero, pow-zero, pow-zero) refl
mul_pow a b (suc n) = rw (pow-suc, pow-suc a, pow-suc b, mul_pow a b n) (omega arith)

pow_pow : (a m n : ℕ) → (a ^ m) ^ n ≡ a ^ (m * n)
pow_pow a m zero = rw (pow-zero, mul-zero, pow-zero) refl
pow_pow a m (suc n) = rw (pow-suc, mul-suc, pow-add, pow_pow a m n) refl

-- A factor is at most the power of y in units of 2^-32, and less than two units below it.
ideal : ℕ → Bool
ideal l = leb (factor l ^ 32 * 2 ^ l) (2 ^ 1024) && leb (2 ^ 1024) ((factor l + 2) ^ 32 * 2 ^ l)

ideal_table : all_below 32 ideal ≡ true
unfolding all_below ideal factor y_n_inv
ideal_table = refl

factor_ideal :
    (l : ℕ) → l < 32 → (factor l ^ 32 * 2 ^ l ≤ 2 ^ 1024) × (2 ^ 1024 ≤ (factor l + 2) ^ 32 * 2 ^ l)
unfolding ideal
factor_ideal l h =
    let both = all_below_sound 32 ideal l ideal_table h in
    (
      leb→le _ _ (and_left _ _ both),
      leb→le _ _ (and_right (leb (factor l ^ 32 * 2 ^ l) (2 ^ 1024)) _ both),
    )

-- 2^n as the shift and the rest.
parts-pow : (n : ℕ) → (2 ^ (n / 32)) ^ 32 * 2 ^ (n % 32) ≡ 2 ^ n
parts-pow n = rw (pow_pow 2 (n / 32) 32, ← pow-add 2 (n / 32 * 32) (n % 32), div-add-mod' n 32) refl

-- The 32nd powers of a product with 2^32 and a shift.
power_of : (r p : ℕ) → (r * 2 ^ 32 * p) ^ 32 ≡ r ^ 32 * 2 ^ 1024 * p ^ 32
power_of r p = rw (mul_pow (r * 2 ^ 32) p 32, mul_pow r (2 ^ 32) 32) refl

-- With the root taken: what holds of the 32nd powers.
root-le :
    (load r f p two_l : ℕ)
    → r * 2 ^ 32 * p ≤ load * f
    → f ^ 32 * two_l ≤ 2 ^ 1024
    → r ^ 32 * (p ^ 32 * two_l) ≤ load ^ 32
root-le load r f p two_l h k =
    let powers : r ^ 32 * 2 ^ 1024 * p ^ 32 ≤ load ^ 32 * f ^ 32 =
      rw (power_of r p, mul_pow load f 32) at (pow-le-pow_left h 32) in
    le_of_mul-le-mul_right {k = 2 ^ 1024}
      (omega (arith, mul-le-mul_right two_l powers, mul-le-mul_left (load ^ 32) k))
      (two-pow-pos 1024)

lt-root :
    (load r f p two_l : ℕ)
    → load * f < r * 2 ^ 32 * p
    → 2 ^ 1024 ≤ f ^ 32 * two_l
    → 0 < two_l
    → load ^ 32 < r ^ 32 * (p ^ 32 * two_l)
lt-root load r f p two_l h k l_pos =
    let powers : load ^ 32 * f ^ 32 < r ^ 32 * 2 ^ 1024 * p ^ 32 =
      rw (power_of r p, mul_pow load f 32) at (pow-lt-pow_left {n = 32} h (omega arith)) in
    lt_of_mul-lt-mul_right (2 ^ 1024)
      (omega (arith, mul-le-mul_right two_l powers, mul-le-mul_left (load ^ 32) k))

-- The product behind the shift, with the roundings of the shift, the table and the product.
decayed-ideal :
    (load p f r : ℕ)
    → 0 < p
    → load < 2 ^ 31
    → f ≤ 2 ^ 32
    → load / p * f / 2 ^ 32 ≡ r
    → (r * 2 ^ 32 * p ≤ load * f) × (load * (f + 2) < (r + 3) * 2 ^ 32 * p)
decayed-ideal load p f r p_pos fits f_le e =
    let s : ℕ = load / p in
    let s_le = div-le_self load p in
    let below : s * p ≤ load = div-mul-le_self load p in
    let above : load < s * p + p = lt-div-mul-add p_pos in
    let product : r * 2 ^ 32 ≤ s * f = omega arith in
    let product' : (s + 1) * (f + 2) ≤ (r + 3) * 2 ^ 32 = omega arith in
    (
      le_trans (mul-le-mul_right p product) (omega (arith, mul-le-mul_right f below)),
      omega (arith, mul-le-mul_right p product', mul-le-mul_right (f + 2) above),
    )

decay_early :
    (load n : ℕ)
    → load < 2 ^ 31
    → n < 2016
    → let r = exact_decay_load load n in
      (r ^ 32 * 2 ^ n ≤ load ^ 32) × (load ^ 32 < (r + 3) ^ 32 * 2 ^ n)
decay_early load n fits h =
    let l : ℕ = n % 32 in
    let p : ℕ = 2 ^ (n / 32) in
    let r : ℕ = exact_decay_load load n in
    let (f_low, f_high) = factor_ideal l (omega arith) in
    let (low, high) =
      decayed-ideal load p (factor l) r (two-pow-pos (n / 32)) fits
        (factor_bounds l (omega arith)).0 (sym (exact_decay_load_lem load n (omega arith) h)) in
    rw (← parts-pow n) (
      root-le load r (factor l) p (2 ^ l) low f_low,
      lt-root load (r + 3) (factor l + 2) p (2 ^ l) high f_high (two-pow-pos l),
    )

-- For a load below 2^31 and any number of periods, the exact decay is the ideal load * y^n, where y^32
-- is one half, but for less than 3 that it is too small: its 32nd power is at most load^32 / 2^n, and
-- that of the decay plus 3 is above it.
pub exact_decay_load-ideal :
    (load n : ℕ)
    → load < 2 ^ 31
    → let r = exact_decay_load load n in
      (r ^ 32 * 2 ^ n ≤ load ^ 32) × (load ^ 32 < (r + 3) ^ 32 * 2 ^ n)
exact_decay_load-ideal load n fits = elim (dec_lt n 2016) [
  | yes h ↦ decay_early load n fits h
  | no h ↦
      let late : 2 ^ 2016 ≤ 2 ^ n = two-pow-le {m = 2016} (omega arith) in
      let small : load ^ 32 ≤ (2 ^ 31) ^ 32 = pow-le-pow_left {m = 2 ^ 31} (omega arith) 32 in
      rw (exact_decay_load-zero load n (omega arith)) (omega arith, omega arith)
]
