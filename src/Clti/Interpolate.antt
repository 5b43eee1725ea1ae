-- ===== src/Clti/Interpolate.antt =====
-- `clti_decay_interpolate`: how far it is from the exact factors, and the end of the table.
use native.Mathlib.Nat.{mod-eq_of_lt, div-le_self}
use native.Mathlib.Decide.{dec_lt}
use approximation_computing.Common.{
  ℕ, zero, suc, ◌+◌, ◌-◌, ◌*◌, ◌/◌, ◌%◌, ◌^◌, ◌≤◌, ◌<◌, ◌≡◌, inl, inr, refl, ap, ◌∙◌, arith, Bool,
  true, false, leb, ltb, ◌==◌, ◌&&◌, ◌||◌, if◌then◌else◌, all_below, all_below_sound, leb→le,
  mul-le-mul_left, Bool-cases, ==_iff, and_left, and_right,
}
use approximation_computing.Words.{u64, sub64}
use approximation_computing.Task.{y_n_inv}
use approximation_computing.Exact.{exact_mul_u64_u32_shr}
use approximation_computing.Clti.{decay_entry, clti_decay_interpolate, clti_decay_load}

-- The factor that the interpolation stands for, in units of 2^-17.
abbrev blend : ℕ → ℕ → ℕ → ℕ
blend e e' rem = e * (4 - rem) + e' * rem

-- The arithmetic of one interpolation, away from the table: `base` and `next` fall, and the
-- correction leads from one towards the other.
blended :
    (load e e' rem : ℕ)
    → load < 2 ^ 48
    → e ≤ 2 ^ 15
    → e' ≤ e
    → rem < 4
    → let base = load * e / 2 ^ 15 in
      let next = load * e' / 2 ^ 15 in
      let r = base - (base - next) * rem / 4 in
      (r * 2 ^ 17 ≤ load * blend e e' rem + 2 ^ 18) × (load * blend e e' rem ≤ (r + 1) * 2 ^ 17)
blended load e e' zero fits small falls below = omega arith
blended load e e' (suc zero) fits small falls below = omega (arith, mul-le-mul_left load falls)
blended load e e' (suc (suc zero)) fits small falls below =
    omega (arith, mul-le-mul_left load falls)
blended load e e' (suc (suc (suc zero))) fits small falls below =
    omega (arith, mul-le-mul_left load falls)
blended load e e' (suc (suc (suc (suc rem)))) fits small falls below = absurd (omega arith)

-- The factor at `n` in units of 2^-17.
abbrev factor_at : ℕ → ℕ
factor_at n = blend (decay_entry (n / 4)) (decay_entry (n / 4 + 1)) (n % 4)

-- What the table must keep: entries that fall from 1.0, and factors within 0.1% of the exact ones.
in_order : ℕ → Bool
in_order n =
    leb (decay_entry (n / 4)) (2 ^ 15)
    && leb (if n % 4 == 0 then 0 else decay_entry (n / 4 + 1)) (decay_entry (n / 4))

close_by : ℕ → Bool
close_by n =
    leb (999 * y_n_inv n * 2 ^ 17) (1000 * factor_at n * 2 ^ 32)
    && leb (1000 * factor_at n * 2 ^ 32) (1001 * y_n_inv n * 2 ^ 17)

table_kept : all_below 29 (λ n. in_order n && close_by n) ≡ true
unfolding all_below in_order close_by decay_entry y_n_inv
table_kept = refl

record Entry (n : ℕ) : Type 0 where
  small : decay_entry (n / 4) ≤ 2 ^ 15
  falls : (if n % 4 == 0 then 0 else decay_entry (n / 4 + 1)) ≤ decay_entry (n / 4)
  above : 999 * y_n_inv n * 2 ^ 17 ≤ 1000 * factor_at n * 2 ^ 32
  below : 1000 * factor_at n * 2 ^ 32 ≤ 1001 * y_n_inv n * 2 ^ 17

entry : (n : ℕ) → n < 29 → Entry n
unfolding in_order close_by
entry n h =
    let kept = all_below_sound 29 (λ n. in_order n && close_by n) n table_kept h in
    let order = and_left (in_order n) (close_by n) kept in
    let near = and_right (in_order n) (close_by n) kept in
    record {
      small = leb→le _ _ (and_left _ _ order);
      falls = leb→le _ _ (and_right (leb (decay_entry (n / 4)) (2 ^ 15)) _ order);
      above = leb→le _ _ (and_left _ _ near);
      below =
          leb→le _ _
            (and_right (leb (999 * y_n_inv n * 2 ^ 17) (1000 * factor_at n * 2 ^ 32)) _ near);
    }

-- The interpolation over unbounded numbers.
abbrev interpolated : ℕ → ℕ → ℕ → ℕ → ℕ
interpolated load e e' rem =
    let base = load * e / 2 ^ 15 in let next = load * e' / 2 ^ 15 in base - (base - next) * rem / 4

-- On the multiples of 4 the next entry has no weight.
abbrev next_entry : ℕ → ℕ
next_entry n = if n % 4 == 0 then 0 else decay_entry (n / 4 + 1)

-- No word wraps on the way from the base towards the next entry.
corrected :
    (base next rem : ℕ)
    → base < 2 ^ 49
    → next ≤ base
    → rem < 4
    → let correction = u64 ((if leb next base then sub64 base next else 0) * rem) / 4 in
      (if leb correction base then sub64 base correction else 0) ≡ base - (base - next) * rem / 4
corrected base next zero small falls below = ground arith
corrected base next (suc zero) small falls below = ground arith
corrected base next (suc (suc zero)) small falls below = ground arith
corrected base next (suc (suc (suc zero))) small falls below = ground arith
corrected base next (suc (suc (suc (suc rem)))) small falls below = absurd (omega arith)

interpolate_lem :
    (load n : ℕ)
    → load < 2 ^ 48
    → n < 29
    → clti_decay_interpolate load n ≡ interpolated load (decay_entry (n / 4)) (next_entry n) (n % 4)
unfolding clti_decay_interpolate decay_entry exact_mul_u64_u32_shr
interpolate_lem load n fits h =
    let k = entry n h in
    let x : load * decay_entry (n / 4) ≤ load * 2 ^ 15 = mul-le-mul_left load k.small in
    let y : load * next_entry n ≤ load * decay_entry (n / 4) = mul-le-mul_left load k.falls in
    elim (Bool-cases (n == 0)) [
      | inl nothing ↦ rw ((==_iff n 0).0 nothing) (omega arith)
      | inr some_left ↦ elim (Bool-cases (n % 4 == 0)) [
        | inl at ↦
            rw
              (
                at,
                mod-eq_of_lt {n = load * decay_entry (n / 4) / 2 ^ 15} {m = 2 ^ 64} (omega arith),
              )
              (ground arith)
        | inr between ↦
            let y' : load * decay_entry (n / 4 + 1) ≤ load * decay_entry (n / 4) =
              rw between at y in
            let base : ℕ = load * decay_entry (n / 4) / 2 ^ 15 in
            let next : ℕ = load * decay_entry (n / 4 + 1) / 2 ^ 15 in
            let e : u64 base ≡ base = mod-eq_of_lt (omega arith) in
            let e' : u64 next ≡ next = mod-eq_of_lt (omega arith) in
            let c = corrected base next (n % 4) (omega arith) (omega arith) (omega arith) in
            let g1 : leb 8 (n / 4) ≡ false = ground arith in
            let g2 : ltb 0 (n % 4) ≡ true = ground arith in
            let g3 : ltb (n / 4 + 1) 8 ≡ true = ground arith in
            rw (some_left, between, g1, g2, g3, e, e') c
      ]
    ]

blend-next : (n : ℕ) → blend (decay_entry (n / 4)) (next_entry n) (n % 4) ≡ factor_at n
blend-next n = elim (Bool-cases (n % 4 == 0)) [
  | inl at ↦ rw (at, (==_iff (n % 4) 0).0 at) (omega arith)
  | inr between ↦ rw between refl
]

-- For a load below 2^48 and up to 28 periods the interpolation is within 0.1% of the exact factor, but for roundings that lose
-- less than 1 and add at most 2.
pub clti_decay_interpolate-near :
    (load n : ℕ)
    → load < 2 ^ 48
    → n < 29
    → let r = clti_decay_interpolate load n in
      (1000 * (r * 2 ^ 32) ≤ 1001 * (load * y_n_inv n) + 2000 * 2 ^ 32)
      × (999 * (load * y_n_inv n) ≤ 1000 * ((r + 1) * 2 ^ 32))
clti_decay_interpolate-near load n fits h =
    let k = entry n h in
    let b =
      blended load (decay_entry (n / 4)) (next_entry n) (n % 4) fits k.small k.falls
        (omega arith) in
    let same : blend (decay_entry (n / 4)) (next_entry n) (n % 4) ≡ factor_at n = blend-next n in
    rw (interpolate_lem load n fits h)
      (omega (arith, rw same at b, mul-le-mul_left load k.above, mul-le-mul_left load k.below))

tail_lem :
    (load n : ℕ)
    → load < 2 ^ 48
    → 29 ≤ n
    → n < 32
    → clti_decay_interpolate load n ≡ load * 17867 / 2 ^ 15 / 2
unfolding clti_decay_interpolate decay_entry exact_mul_u64_u32_shr
tail_lem load n fits low high =
    let q : n / 4 ≡ 7 = omega arith in
    let rem : ltb 0 (n % 4) ≡ true = ground arith in
    let some_left : (n == 0) ≡ false = ground arith in
    rw (some_left, q, rem, mod-eq_of_lt {n = load * 17867 / 2 ^ 15} {m = 2 ^ 64} (omega arith)) refl

interpolate-le : (load n : ℕ) → load < 2 ^ 48 → n < 32 → clti_decay_interpolate load n ≤ load
interpolate-le load n fits h = elim (dec_lt n 29) [
  | yes k ↦
      rw (interpolate_lem load n fits k) (omega (arith, mul-le-mul_left load (entry n k).small))
  | no k ↦ rw (tail_lem load n fits (omega arith) h) (omega arith)
]

-- Decay never raises a load.
pub clti_decay_load-le : (load n : ℕ) → load < 2 ^ 48 → clti_decay_load load n ≤ load
unfolding clti_decay_load
clti_decay_load-le load n fits =
    let halved = div-le_self load (2 ^ (n / 32)) in
    ground
      (arith, halved, interpolate-le (load / 2 ^ (n / 32)) (n % 32) (omega arith) (omega arith))

-- One period takes a quarter of the way to the second entry.
pub clti_decay_load-one :
    (load : ℕ) → load < 2 ^ 48 → clti_decay_load load 1 ≡ load - (load - load * 30048 / 2 ^ 15) / 4
unfolding clti_decay_load decay_entry
clti_decay_load-one load fits =
    let whole : load / 2 ^ 0 ≡ load = omega arith in
    ap (λ l. clti_decay_interpolate l 1) whole
    ∙ interpolate_lem load 1 fits (omega arith)
    ∙ omega arith

-- Half of the last entry lies far below the exact factors of the last three periods.
tail_factors :
    all_below 32 (λ n.
      leb n 28
      || (leb (51 * y_n_inv n * 2 ^ 16) (100 * 17867 * 2 ^ 32)
          && leb (100 * 17867 * 2 ^ 32) (54 * y_n_inv n * 2 ^ 16)))
    ≡ true
unfolding all_below y_n_inv
tail_factors = refl

record TailFactor (n : ℕ) : Type 0 where
  least : 51 * y_n_inv n * 2 ^ 16 ≤ 100 * 17867 * 2 ^ 32
  most : 100 * 17867 * 2 ^ 32 ≤ 54 * y_n_inv n * 2 ^ 16

tail_factor : (n : ℕ) → 29 ≤ n → n < 32 → TailFactor n
tail_factor n low high =
    let late : leb n 28 ≡ false = ground arith in
    let least_one : ℕ → Bool = λ n. leb (51 * y_n_inv n * 2 ^ 16) (100 * 17867 * 2 ^ 32) in
    let most_one : ℕ → Bool = λ n. leb (100 * 17867 * 2 ^ 32) (54 * y_n_inv n * 2 ^ 16) in
    let kept =
      all_below_sound 32 (λ n. leb n 28 || (least_one n && most_one n)) n tail_factors high in
    let both : (least_one n && most_one n) ≡ true = rw late at kept in
    record {
      least = leb→le _ _ (and_left (least_one n) (most_one n) both);
      most = leb→le _ _ (and_right (least_one n) (most_one n) both);
    }

interpolate-none : (load : ℕ) → clti_decay_interpolate load 0 ≡ load
unfolding clti_decay_interpolate
interpolate-none load = refl

-- For a load from 2 on and below 2^48, and 29 to 31 periods, what CLTI leaves is from 51% to 54% of what the exact
-- factor leaves, but for roundings that lose less than 2. So it is less than CLTI leaves after 32
-- periods: the longer decay takes less away.
pub clti_decay_load-tail :
    (load n : ℕ)
    → 2 ≤ load
    → load < 2 ^ 48
    → 29 ≤ n
    → n < 32
    → let r = clti_decay_load load n in
      (51 * (load * y_n_inv n) ≤ 100 * ((r + 2) * 2 ^ 32))
      × (100 * (r * 2 ^ 32) ≤ 54 * (load * y_n_inv n))
      × (r < clti_decay_load load 32)
unfolding clti_decay_load
clti_decay_load-tail load n some_load fits low high =
    let f = tail_factor n low high in
    let least = mul-le-mul_left load f.least in
    let most = mul-le-mul_left load f.most in
    let q : n / 32 ≡ 0 = omega arith in
    let rem : n % 32 ≡ n = omega arith in
    let whole : load / 2 ^ 0 ≡ load = omega arith in
    let some_left : (n == 0) ≡ false = ground arith in
    let in_range : leb 2016 n ≡ false = ground arith in
    let half : clti_decay_interpolate (load / 2 ^ 1) 0 ≡ load / 2 =
      interpolate-none (load / 2 ^ 1) ∙ omega arith in
    rw (some_left, in_range, q, rem, whole, tail_lem load n fits low high, half)
      (omega arith, omega arith, omega arith)
