-- ===== src/Apaf/Poly.antt =====
-- The decay factors of APAF: between 0.0 and 1.0, and in each state close to the exact ones.
use approximation_computing.Common.{
  ℕ, ◌*◌, ◌^◌, ◌≤◌, ◌<◌, ◌≡◌, inl, inr, refl, arith, Bool, true, leb, ◌==◌, ◌&&◌, if◌then◌else◌, ℤ,
  pos, negsuc, pos_part, neg_part, ◌==ℤ◌, and_left, and_right, leb→le, all_below, all_below_sound,
}
use approximation_computing.Double.{Double, one, run_double}
use approximation_computing.Task.{apaf_tight, apaf_medium, apaf_loose, y_n_inv}
use approximation_computing.Fairness.Controller.{IsState}
use approximation_computing.Apaf.{coefficients, table_factor, horner, apaf_poly_eval, decay_factor}

-- The least and the greatest ratio to the exact factor, in units of 0.01%.
abbrev pub least_ratio : ℤ → ℕ
least_ratio s = if s ==ℤ apaf_tight then 9997 else if s ==ℤ apaf_loose then 10000 else 9981

abbrev pub greatest_ratio : ℤ → ℕ
greatest_ratio s = if s ==ℤ apaf_tight then 10004 else if s ==ℤ apaf_loose then 10304 else 10022

-- The factor of a state at `l` periods, in units of 2^-1074.
abbrev pub magnitude_of : ℤ → ℕ → ℕ
magnitude_of s l = pos_part (decay_factor l s)

is_fine : ℤ → ℕ → Bool
is_fine s l =
    (neg_part (decay_factor l s) == 0)
    && (leb (magnitude_of s l) one
        && (leb (least_ratio s * (y_n_inv l * one)) (10000 * (magnitude_of s l * 2 ^ 32))
            && leb (10000 * (magnitude_of s l * 2 ^ 32)) (greatest_ratio s * (y_n_inv l * one))))

all_fine :
    (all_below 32 (is_fine apaf_tight)
      && (all_below 32 (is_fine apaf_medium) && all_below 32 (is_fine apaf_loose)))
    ≡ true
unfolding all_below is_fine decay_factor apaf_poly_eval coefficients horner table_factor y_n_inv
    run_double
all_fine = refl

fine_of : (s : ℤ) (l : ℕ) → IsState s → l < 32 → is_fine s l ≡ true
fine_of s l state h =
    let later = and_right (all_below 32 (is_fine apaf_tight)) _ all_fine in
    elim state [
      | inl tight ↦ rw tight (all_below_sound 32 (is_fine apaf_tight) l (and_left _ _ all_fine) h)
      | inr (inl medium) ↦
          rw medium (all_below_sound 32 (is_fine apaf_medium) l (and_left _ _ later) h)
      | inr (inr loose) ↦ rw loose (
          all_below_sound 32 (is_fine apaf_loose) l
            (and_right (all_below 32 (is_fine apaf_medium)) _ later) h)
    ]

-- The factor lies between 0.0 and 1.0, and between the two ratios to the exact one.
pub record IsClose (s : ℤ) (l : ℕ) : Type 0 where
  pub nonnegative : decay_factor l s ≡ pos (magnitude_of s l)
  pub at_most_one : magnitude_of s l ≤ one
  pub from_below : least_ratio s * (y_n_inv l * one) ≤ 10000 * (magnitude_of s l * 2 ^ 32)
  pub from_above : 10000 * (magnitude_of s l * 2 ^ 32) ≤ greatest_ratio s * (y_n_inv l * one)

pos_of : (d : Double) → (neg_part d == 0) ≡ true → d ≡ pos (pos_part d)
pos_of (pos n) h = refl
pos_of (negsuc n) h = ground arith

-- Below 32 periods the factor of every state is within 0.04% (TIGHT), 0.22% (MEDIUM) and
-- 3.04% (LOOSE) of the exact one, and in LOOSE never below it.
pub decay_factor-IsClose : (s : ℤ) (l : ℕ) → IsState s → l < 32 → IsClose s l
unfolding is_fine
decay_factor-IsClose s l state h =
    let sign = fine_of s l state h in
    let rest1 = and_right (neg_part (decay_factor l s) == 0) _ sign in
    let rest2 = and_right (leb (magnitude_of s l) one) _ rest1 in
    let low : Bool =
      leb (least_ratio s * (y_n_inv l * one)) (10000 * (magnitude_of s l * 2 ^ 32)) in
    record {
      nonnegative = pos_of (decay_factor l s) (and_left _ _ sign);
      at_most_one = leb→le _ _ (and_left _ _ rest1);
      from_below = leb→le _ _ (and_left _ _ rest2);
      from_above = leb→le _ _ (and_right low _ rest2);
    }

first_factors :
    (leb (100 * magnitude_of apaf_tight 1) (98 * one)
      && (leb (100 * magnitude_of apaf_medium 1) (98 * one)
          && leb (100 * magnitude_of apaf_loose 1) (98 * one)))
    ≡ true
unfolding decay_factor apaf_poly_eval coefficients horner table_factor y_n_inv run_double
first_factors = refl

-- The factor of one period is at most 0.98 in every state.
pub first_factor : (s : ℤ) → IsState s → 100 * magnitude_of s 1 ≤ 98 * one
first_factor s state =
    let tight : Bool = leb (100 * magnitude_of apaf_tight 1) (98 * one) in
    let medium : Bool = leb (100 * magnitude_of apaf_medium 1) (98 * one) in
    let later = and_right tight _ first_factors in
    elim state [
      | inl e ↦ rw e (leb→le _ _ (and_left _ _ first_factors))
      | inr (inl e) ↦ rw e (leb→le _ _ (and_left _ _ later))
      | inr (inr e) ↦ rw e (leb→le _ _ (and_right medium _ later))
    ]
