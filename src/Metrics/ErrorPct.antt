-- ===== src/Metrics/ErrorPct.antt =====
-- The error of one load against the exact one (`metrics_record`) grows with their distance.
use native.Mathlib.Decide.{dec_le}
use approximation_computing.Common.{
  ℕ, zero, suc, ◌+◌, ◌-◌, ◌*◌, ◌^◌, ◌≤◌, ◌<◌, ◌≡◌, ◌⊎◌, inl, inr, refl, sym, ap, ◌∙◌, arith, ℤ, pos,
  negsuc, pos_part, neg_part, sub_ℕ, neg, ◌≤ℤ◌, mul-le-mul_right,
}
use approximation_computing.Double.{one, round, with_sign, magnitude, add, sub, fabs}
use approximation_computing.Double.Laws.{of_nat_lem, of_nat-exact, div_lem, mul_lem}
use approximation_computing.Double.Round.{round-le}
use approximation_computing.Double.Mono.{round_mono}
use approximation_computing.Metrics.{error_pct}

abbrev pub dist : ℕ → ℕ → ℕ
dist a b = a - b + (b - a)

fabs-with_sign : (s : ℤ) (m : ℕ) → fabs (with_sign s m) ≡ pos m
unfolding fabs
fabs-with_sign (pos n) m = refl
fabs-with_sign (negsuc n) zero = refl
fabs-with_sign (negsuc n) (suc m) = refl

difference :
    (a b : ℕ)
    → magnitude (sub_ℕ (a + pos_part (neg (pos b))) (0 + neg_part (neg (pos b)))) ≡ dist a b
difference a zero = ground arith
difference a (suc b) = ground arith

fabs-sub : (a b : ℕ) → fabs (sub (pos a) (pos b)) ≡ pos (round (dist a b) 1)
unfolding sub add
fabs-sub a b = fabs-with_sign _ _ ∙ ap (λ m. pos (round m 1)) (difference a b)

round_whole : (n : ℕ) → n ≤ 2 ^ 53 → round (n * one) 1 ≡ n * one
round_whole n h = ap pos_part (sym (of_nat_lem n) ∙ of_nat-exact n h)

-- The error in terms of the distance.
abbrev pct : ℕ → ℕ → ℕ
pct d exact = round (round (d * one * one) (exact * one) * (100 * one)) one

error_pct_lem :
    (a exact : ℕ) → a ≤ 2 ^ 53 → exact ≤ 2 ^ 53 → error_pct a exact ≡ pos (pct (dist a exact) exact)
unfolding error_pct
error_pct_lem a exact h k =
    let scaled : dist (a * one) (exact * one) ≡ dist a exact * one = omega arith in
    rw
      (
        of_nat-exact a h,
        of_nat-exact exact k,
        of_nat-exact 100 (omega arith),
        fabs-sub (a * one) (exact * one),
        scaled,
        round_whole (dist a exact) (omega arith),
        div_lem (dist a exact * one) (exact * one),
        mul_lem (round (dist a exact * one * one) (exact * one)) (100 * one),
      )
      refl

ratio-le :
    (d exact : ℕ) → 0 < exact → d ≤ 2 ^ 53 → round (d * one * one) (exact * one) ≤ 2 ^ 53 * 2 ^ 1074
ratio-le d exact p h =
    round-le (d * one * one) (exact * one) (omega arith) (omega arith) (2 ^ 53) 1074 (omega arith)
      (omega arith)

pct_mono : (d d' exact : ℕ) → 0 < exact → d ≤ d' → d' ≤ 2 ^ 53 → pct d exact ≤ pct d' exact
pct_mono d d' exact p h fits =
    let inner =
      round_mono (d * one * one) (exact * one) (d' * one * one) (exact * one) (omega arith)
        (omega arith) (omega arith) (omega arith) (mul-le-mul_right (exact * one) (omega arith)) in
    let below = ratio-le d exact p (omega arith) in
    let below' = ratio-le d' exact p fits in
    round_mono _ one _ one (omega arith) (omega arith) (omega arith) (omega arith) (omega arith)

-- Between two loads the error is at most the larger of theirs.
pub error_pct-between :
    (low a high exact : ℕ)
    → low ≤ a
    → a ≤ high
    → high ≤ 2 ^ 52
    → exact ≤ 2 ^ 52
    → 0 < exact
    → (error_pct a exact ≤ℤ error_pct low exact) ⊎ (error_pct a exact ≤ℤ error_pct high exact)
error_pct-between low a high exact h k fits fits' p = elim (dec_le a exact) [
  | yes below ↦ inl (
      rw
        (
          error_pct_lem a exact (omega arith) (omega arith),
          error_pct_lem low exact (omega arith) (omega arith),
        )
        (omega
          (arith, pct_mono (dist a exact) (dist low exact) exact p (omega arith) (omega arith))))
  | no above ↦ inr (
      rw
        (
          error_pct_lem a exact (omega arith) (omega arith),
          error_pct_lem high exact (omega arith) (omega arith),
        )
        (omega
          (arith, pct_mono (dist a exact) (dist high exact) exact p (omega arith) (omega arith))))
]
