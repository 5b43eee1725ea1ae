-- ===== src/Exact/Delta.antt =====
-- `exact_calc_delta_fair`: how far the scaled runtime lies from delta * 1024 / weight.
use native.Mathlib.Nat.{mod-eq_of_lt, div-mul-le_self, lt-div-mul-add, le-div_iff_mul-le, le_of_lt}
use approximation_computing.Common.{
  ℕ, suc, ◌+◌, ◌*◌, ◌/◌, ◌^◌, ◌≤◌, ◌<◌, ◌≡◌, inl, inr, arith, ◌==◌, ==_iff, Bool-cases, le_trans,
  mul-le-mul_left, mul-le-mul_right,
}
use approximation_computing.Exact.{exact_calc_delta_fair, exact_mul_u64_u32_shr}

-- The reciprocal of a weight in units of 2^-32.
abbrev reciprocal : ℕ → ℕ
reciprocal w = 2 ^ 32 / w

reciprocal-le : (w : ℕ) → 2 ≤ w → reciprocal w ≤ 2 ^ 31
reciprocal-le w h =
    let whole = div-mul-le_self (2 ^ 32) w in
    let twice : reciprocal w * 2 ≤ reciprocal w * w = mul-le-mul_left (reciprocal w) h in
    omega arith

reciprocal_antitone : (v w : ℕ) → 0 < v → v ≤ w → reciprocal w ≤ reciprocal v
reciprocal_antitone v w p h =
    (le-div_iff_mul-le p).1
      (le_trans (mul-le-mul_left (reciprocal w) h) (div-mul-le_self (2 ^ 32) w))

-- In closed form, for a weight above 1 and a runtime that fits 32 bits; weight 1024 needs no case.
exact_calc_delta_fair_lem :
    (d w : ℕ) → 2 ≤ w → d < 2 ^ 32 → exact_calc_delta_fair d w ≡ d * reciprocal w / 2 ^ 22
unfolding exact_calc_delta_fair exact_mul_u64_u32_shr
exact_calc_delta_fair_lem d w h fits =
    let q = reciprocal-le w h in
    let product : d * reciprocal w ≤ d * 2 ^ 31 = mul-le-mul_left d q in
    elim (Bool-cases (w == 1024)) [
      | inl e ↦ rw ((==_iff w 1024).0 e) (ground arith)
      | inr e ↦
          rw (mod-eq_of_lt {n = reciprocal w} {m = 2 ^ 32} (omega arith)) (
            ground (arith, mod-eq_of_lt {n = d * reciprocal w / 2 ^ 22} {m = 2 ^ 64} (omega arith)))
    ]

-- For a weight of at least 2 and a runtime below 2^32, the scaled runtime is never above
-- delta * 1024 / weight, and below it by less than 1 and one part
-- of 2^32 / weight.
pub exact_calc_delta_fair_bounds :
    (d w : ℕ)
    → 2 ≤ w
    → d < 2 ^ 32
    → let r = exact_calc_delta_fair d w in
      (r * w ≤ d * 1024) × (d * 2 ^ 32 < (r + 1) * w * 2 ^ 22 + d * w)
exact_calc_delta_fair_bounds d w h fits = rw (exact_calc_delta_fair_lem d w h fits) (upper, lower)
  where
    r : ℕ
    r = d * reciprocal w / 2 ^ 22

    upper : r * w ≤ d * 1024
    upper = omega (
      arith,
      mul-le-mul_right w (div-mul-le_self (d * reciprocal w) (2 ^ 22)),
      mul-le-mul_left d (div-mul-le_self (2 ^ 32) w),
    )

    lower : d * 2 ^ 32 < (r + 1) * w * 2 ^ 22 + d * w
    lower =
        let near : suc (d * reciprocal w) ≤ r * 2 ^ 22 + 2 ^ 22 =
          lt-div-mul-add {a = d * reciprocal w} {b = 2 ^ 22} (omega arith) in
        let whole : 2 ^ 32 < reciprocal w * w + w = lt-div-mul-add (omega arith) in
        omega (arith, mul-le-mul_right w near, mul-le-mul_left d (le_of_lt whole))

-- For weights of at least 2 and a runtime below 2^32, a heavier task ages no faster.
pub exact_calc_delta_fair_antitone :
    (d v w : ℕ) → 2 ≤ v → v ≤ w → d < 2 ^ 32 → exact_calc_delta_fair d w ≤ exact_calc_delta_fair d v
exact_calc_delta_fair_antitone d v w h le fits =
    rw (exact_calc_delta_fair_lem d w (omega arith) fits, exact_calc_delta_fair_lem d v h fits)
      (omega (arith, mul-le-mul_left d (reciprocal_antitone v w (omega arith) le)))
