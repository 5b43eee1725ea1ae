-- ===== src/Exact/Decay.antt =====
-- `exact_decay_load`: bounds, monotonicity, and the half-life of 32 periods.
use native.Mathlib.Nat.{mod-eq_of_lt, div-le_self, div-div-eq-div-mul, pow-suc, add-zero}
use native.Mathlib.Numerals.{add-one}
use native.Mathlib.Decide.{dec_lt}
use approximation_computing.Common.{
  ℕ, zero, suc, ◌+◌, ◌*◌, ◌/◌, ◌%◌, ◌^◌, ◌≤◌, ◌<◌, ◌≡◌, inl, inr, refl, arith, Bool, true, false,
  leb, ◌==◌, ◌&&◌, ==_iff, and_left, and_right, leb→le, if◌then◌else◌, Bool-cases, all_below,
  all_below_sound, le_refl, le_trans, mul-le-mul_left,
}
use approximation_computing.Task.{y_n_inv}
use approximation_computing.Exact.{exact_decay_load, exact_mul_u64_u32_shr}

-- The factor of `l` periods in units of 2^-32; none is no decay.
unfoldable pub factor : ℕ → ℕ
factor l = if l == 0 then 2 ^ 32 else y_n_inv l

bounded : ℕ → Bool
bounded l = leb (factor l) (2 ^ 32) && leb (2 ^ 31) (factor l)

falls : ℕ → Bool
falls l = leb (factor (l + 1)) (factor l)

factor_table : (all_below 32 bounded && all_below 32 falls) ≡ true
unfolding all_below factor y_n_inv bounded falls
factor_table = refl

-- Every factor is at most 1 and at least one half.
pub factor_bounds : (l : ℕ) → l < 32 → (factor l ≤ 2 ^ 32) × (2 ^ 31 ≤ factor l)
unfolding bounded
factor_bounds l h =
    let both = all_below_sound 32 bounded l (and_left _ _ factor_table) h in
    (leb→le _ _ (and_left _ _ both), leb→le _ _ (and_right (leb (factor l) (2 ^ 32)) _ both))

-- And no smaller than the next.
factor_falls : (l : ℕ) → l < 32 → factor (l + 1) ≤ factor l
unfolding falls
factor_falls l h =
    leb→le _ _ (all_below_sound 32 falls l (and_right (all_below 32 bounded) _ factor_table) h)

-- The decay by 32 c + l periods.
abbrev decayed : ℕ → ℕ → ℕ → ℕ
decayed load c l = load / 2 ^ c * factor l / 2 ^ 32

decayed-zero : (load c : ℕ) → decayed load c 0 ≡ load / 2 ^ c
unfolding factor
decayed-zero load c = omega arith

decayed-le : (load c l : ℕ) → l < 32 → decayed load c l ≤ load / 2 ^ c
decayed-le load c l h = omega (arith, mul-le-mul_left (load / 2 ^ c) (factor_bounds l h).0)

factor-table : (l : ℕ) → (l == 0) ≡ false → factor l ≡ y_n_inv l
unfolding factor
factor-table l h = rw h

no_shift : (load n : ℕ) → n ≡ 0 → load / 2 ^ (n / 32) ≡ load
no_shift load n e = rw e (omega arith)

-- In closed form: the shift by whole half-lives, then the factor of the rest, which is 1 where the
-- rest is 0. No product wraps.
pub exact_decay_load_lem :
    (load n : ℕ)
    → load < 2 ^ 64
    → n < 2016
    → exact_decay_load load n ≡ decayed load (n / 32) (n % 32)
unfolding exact_decay_load exact_mul_u64_u32_shr
exact_decay_load_lem load n fits h = elim (Bool-cases (n % 32 == 0)) [
  | inl whole ↦
      let e : n % 32 ≡ 0 = (==_iff _ 0).0 whole in
      rw (e, decayed-zero) (ground (arith, no_shift load n))
  | inr rest ↦
      let small : decayed load (n / 32) (n % 32) < 2 ^ 64 =
        omega (
          arith,
          decayed-le load (n / 32) (n % 32) (omega arith),
          div-le_self load (2 ^ (n / 32)),
        ) in
      let small' : load / 2 ^ (n / 32) * y_n_inv (n % 32) / 2 ^ 32 < 2 ^ 64 =
        rw (factor-table _ rest) at small in
      rw (factor-table _ rest) (ground (arith, mod-eq_of_lt small'))
]

-- From 63 half-lives on nothing is left.
pub exact_decay_load-zero : (load n : ℕ) → 2016 ≤ n → exact_decay_load load n ≡ 0
unfolding exact_decay_load
exact_decay_load-zero load n h = ground arith

-- Decay never raises a load.
pub exact_decay_load-le : (load n : ℕ) → load < 2 ^ 64 → exact_decay_load load n ≤ load
exact_decay_load-le load n fits = elim (dec_lt n 2016) [
  | yes h ↦
      rw (exact_decay_load_lem load n fits h) (
        le_trans (decayed-le load (n / 32) (n % 32) (omega arith))
          (div-le_self load (2 ^ (n / 32))))
  | no h ↦ rw (exact_decay_load-zero load n (omega arith)) (omega arith)
]

-- For a load below 2^64 and k below 63, 32 k periods are k half-lives: load / 2^k is left.
pub exact_decay_load_half_life :
    (load k : ℕ) → load < 2 ^ 64 → k < 63 → exact_decay_load load (32 * k) ≡ load / 2 ^ k
exact_decay_load_half_life load k fits h =
    let quotient : 32 * k / 32 ≡ k = omega arith in
    let rest : 32 * k % 32 ≡ 0 = omega arith in
    rw (exact_decay_load_lem load (32 * k) fits (omega arith), quotient, rest) (decayed-zero load k)

-- One more period.
step_within : (load c l : ℕ) → l < 32 → decayed load c (l + 1) ≤ decayed load c l
step_within load c l h = omega (arith, mul-le-mul_left (load / 2 ^ c) (factor_falls l h))

half-suc : (load c : ℕ) → load / 2 ^ (c + 1) ≡ load / 2 ^ c / 2
half-suc load c = rw (add-one, pow-suc, div-div-eq-div-mul)

step_across : (load c : ℕ) → decayed load (c + 1) 0 ≤ decayed load c 31
step_across load c =
    rw (decayed-zero, half-suc)
      (omega (arith, mul-le-mul_left (load / 2 ^ c) (factor_bounds 31 (omega arith)).1))

exact_decay_load-suc :
    (load n : ℕ) → load < 2 ^ 64 → exact_decay_load load (n + 1) ≤ exact_decay_load load n
exact_decay_load-suc load n fits = elim (dec_lt (n + 1) 2016) [
  | no h ↦ rw (exact_decay_load-zero load (n + 1) (omega arith)) (omega arith)
  | yes h ↦
      rw (exact_decay_load_lem load (n + 1) fits h, exact_decay_load_lem load n fits (omega arith))
        (elim (dec_lt (n % 32) 31) [
          | yes l ↦
              let same : (n + 1) / 32 ≡ n / 32 = omega arith in
              let next : (n + 1) % 32 ≡ n % 32 + 1 = omega arith in
              rw (same, next) (step_within load (n / 32) (n % 32) (omega arith))
          | no l ↦
              let over : (n + 1) / 32 ≡ n / 32 + 1 = omega arith in
              let none_left : (n + 1) % 32 ≡ 0 = omega arith in
              let last : n % 32 ≡ 31 = omega arith in
              rw (over, none_left, last) (step_across load (n / 32))
        ])
]

-- For a load below 2^64, a longer time leaves no more.
pub exact_decay_load_antitone :
    (load m k : ℕ) → load < 2 ^ 64 → exact_decay_load load (m + k) ≤ exact_decay_load load m
exact_decay_load_antitone load m zero fits = rw add-zero (le_refl _)
exact_decay_load_antitone load m (suc k) fits =
    let e : m + suc k ≡ m + k + 1 = omega arith in
    rw e
      (le_trans (exact_decay_load-suc load (m + k) fits) (exact_decay_load_antitone load m k fits))

-- One period takes the first factor of the table.
pub exact_decay_load-one :
    (load : ℕ) → load < 2 ^ 64 → exact_decay_load load 1 ≡ load * 0xfa83b2da / 2 ^ 32
unfolding factor y_n_inv
exact_decay_load-one load fits = rw (exact_decay_load_lem load 1 fits (omega arith)) (omega arith)
