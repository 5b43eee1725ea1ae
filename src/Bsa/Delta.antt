-- ===== src/Bsa/Delta.antt =====
-- `bsa_vruntime_delta`: how far the scaled runtime lies from delta * 1024 / weight.
use native.Mathlib.Nat.{mod-eq_of_lt, div-mul-le_self, lt-div-mul-add}
use approximation_computing.Common.{
  ℕ, suc, ◌+◌, ◌*◌, ◌/◌, ◌^◌, ◌≤◌, ◌<◌, ◌≡◌, inl, inr, arith, false, ◌==◌, ==_iff, Bool-cases,
  mul-le-mul_left, mul-le-mul_right,
}
use approximation_computing.Words.{u32}
use approximation_computing.Exact.{exact_mul_u64_u32_shr}
use approximation_computing.Bsa.{bsa_newton_reciprocal, bsa_vruntime_delta}
use approximation_computing.Bsa.Newton.{newton_one}

-- `r` is at most delta * 1024 / weight, and r + 1 at least the given thousandths of it.
abbrev pub IsNear : ℕ → ℕ → ℕ → ℕ → Type 0
IsNear thousandths d w r = (r * w ≤ d * 1024) × (thousandths * (d * 1024) ≤ 1000 * ((r + 1) * w))

-- The product with a reciprocal that is near.
pub reciprocal-IsNear :
    (thousandths d w x : ℕ)
    → 2 ≤ w
    → d < 2 ^ 32
    → w * x ≤ 2 ^ 32
    → thousandths * 2 ^ 32 ≤ 1000 * (w * x)
    → IsNear thousandths d w (exact_mul_u64_u32_shr d (u32 x) 22)
unfolding exact_mul_u64_u32_shr
reciprocal-IsNear c d w x h fits high low =
    let x_small : 2 * x ≤ w * x = mul-le-mul_right x h in
    let bound : d * x ≤ d * 2 ^ 31 = mul-le-mul_left d (omega arith) in
    let r : ℕ = d * x / 2 ^ 22 in
    let above : suc (d * x) ≤ r * 2 ^ 22 + 2 ^ 22 = lt-div-mul-add (omega arith) in
    rw
      (
        mod-eq_of_lt {n = x} {m = 2 ^ 32} (omega arith),
        mod-eq_of_lt {n = d * x / 2 ^ 22} {m = 2 ^ 64} (omega arith),
      )
      (
        omega
            (arith, mul-le-mul_right w (div-mul-le_self (d * x) (2 ^ 22)), mul-le-mul_left d high),
        omega (arith, mul-le-mul_left d low, mul-le-mul_right w above),
      )

-- At the weight of nice 0 the runtime itself is near.
pub unscaled-IsNear : (thousandths d : ℕ) → thousandths ≤ 1000 → IsNear thousandths d 1024 d
unscaled-IsNear c d h = omega (arith, mul-le-mul_right (d * 1024) h)

-- For weights from 2 to 2^17, which holds all of the table, and a runtime below 2^32, the scaled
-- runtime is never above
-- delta * 1024 / weight, and rounded up at least 97.5% of it.
pub bsa_vruntime_delta-IsNear :
    (d w : ℕ) → 2 ≤ w → w ≤ 2 ^ 17 → d < 2 ^ 32 → IsNear 975 d w (bsa_vruntime_delta d w)
unfolding bsa_vruntime_delta
bsa_vruntime_delta-IsNear d w h small fits = elim (Bool-cases (w == 1024)) [
  | inl e ↦ rw ((==_iff w 1024).0 e) (unscaled-IsNear 975 d (omega arith))
  | inr e ↦
      let (high, low) = newton_one w (omega arith) small in
      let near = reciprocal-IsNear 975 d w (bsa_newton_reciprocal w 1) h fits high low in
      rw (e, not-zero w h) near
]
  where
    not-zero : (v : ℕ) → 2 ≤ v → (v == 0) ≡ false
    not-zero v p = ground arith
