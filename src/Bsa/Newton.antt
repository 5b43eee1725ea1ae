-- ===== src/Bsa/Newton.antt =====
-- `bsa_newton_reciprocal`: the Newton steps approach 2^32 / weight from below, and how far they are.
use native.Mathlib.Nat.{
  mod-eq_of_lt, div-eq_of_eq-mul_left, div-mul-le_self, lt-div-mul-add, mul_comm,
}
use native.Mathlib.Decide.{dec_le}
use approximation_computing.Common.{
  ℕ, suc, ◌+◌, ◌-◌, ◌*◌, ◌/◌, ◌^◌, ◌≤◌, ◌<◌, ◌≡◌, ap, ◌∙◌, false, arith, leb, mul-le-mul,
  mul-le-mul_left, mul-le-mul_right, two-pow-pos, mul-two-pow,
}
use approximation_computing.Words.{sub64}
use approximation_computing.Bsa.{warm_start, newton_loop, bsa_nearest_pow2, bsa_newton_reciprocal}
use approximation_computing.Bsa.Pow2.{bsa_nearest_pow2-nearest}

-- One Newton step without wrap-around.
abbrev newton_step : ℕ → ℕ → ℕ
newton_step w x = x * (2 ^ 33 - w * x) / 2 ^ 32

minus_word : (v : ℕ) → v < 2 ^ 33 → sub64 (2 * 2 ^ 32) v ≡ 2 ^ 33 - v
minus_word v h = omega arith

le→not-leb : (a b : ℕ) → b < a → leb a b ≡ false
le→not-leb a b h = ground arith

newton_loop-suc :
    (n w x : ℕ)
    → 0 < w
    → w * x < 2 ^ 33
    → newton_loop (suc n) w x ≡ newton_loop n w (newton_step w x)
unfolding newton_loop
newton_loop-suc n w x p h =
    let x_small : 1 * x ≤ w * x = mul-le-mul_right x p in
    let bound : x * (2 ^ 33 - w * x) ≤ 2 ^ 33 * 2 ^ 33 =
      mul-le-mul {n₂ = 2 ^ 33} {m₂ = 2 ^ 33} (omega arith) (omega arith) in
    rw (mod-eq_of_lt {n = w * x} {m = 2 ^ 64} (omega arith), le→not-leb (2 ^ 33) (w * x) h)
      (ap (newton_loop n w) (rw (minus_word (w * x) h) (mod-eq_of_lt (omega arith))))

square_gap : (a d : ℕ) → a * (a + 2 * d) + d * d ≡ (a + d) * (a + d)
square_gap a d = omega arith

gap_at :
    (a d t : ℕ)
    → a + d ≡ 2 ^ 32
    → d ≤ t
    → (a * (a + 2 * d) ≤ 2 ^ 64) × (2 ^ 64 ≤ a * (a + 2 * d) + t * t)
gap_at a d t e h =
    let whole : a * (a + 2 * d) + d * d ≡ 2 ^ 32 * 2 ^ 32 =
      square_gap a d ∙ ap (λ (q : ℕ). q * q) e in
    omega (arith, mul-le-mul h h)

-- v (2 - v) in units of 2^-32 is at most 1, and misses it by the square of the error of v.
gap :
    (v t : ℕ)
    → v < 2 ^ 33
    → 2 ^ 32 ≤ v + t
    → v ≤ 2 ^ 32 + t
    → (v * (2 ^ 33 - v) ≤ 2 ^ 64) × (2 ^ 64 ≤ v * (2 ^ 33 - v) + t * t)
gap v t h low high = elim (dec_le v (2 ^ 32)) [
  | yes le ↦
      let other : 2 ^ 33 - v ≡ v + 2 * (2 ^ 32 - v) = omega arith in
      rw other (gap_at v (2 ^ 32 - v) t (omega arith) (omega arith))
  | no gt ↦
      let a : ℕ = 2 ^ 33 - v in
      let other : v ≡ a + 2 * (v - 2 ^ 32) = omega arith in
      let (most, least) = gap_at a (v - 2 ^ 32) t (omega arith) (omega arith) in
      let swap : v * a ≡ a * (a + 2 * (v - 2 ^ 32)) =
        rw (mul_comm v a) (ap (λ (q : ℕ). a * q) other) in
      omega arith
]

-- From an approximation below 2, the step ends at or below the reciprocal, and squares the error.
newton_step_bounds :
    (w x e : ℕ)
    → w * x < 2 ^ 33
    → 2 ^ 32 ≤ w * x + e
    → w * x ≤ 2 ^ 32 + e
    → (w * newton_step w x ≤ 2 ^ 32) × (2 ^ 64 ≤ (w * newton_step w x + w) * 2 ^ 32 + e * e)
newton_step_bounds w x e h low high =
    let y : ℕ = 2 ^ 33 - w * x in
    let floor = mul-le-mul_left w (div-mul-le_self (x * y) (2 ^ 32)) in
    let above : suc (x * y) ≤ x * y / 2 ^ 32 * 2 ^ 32 + 2 ^ 32 = lt-div-mul-add (omega arith) in
    let (most, least) = gap (w * x) e h low high in
    (omega arith, omega (arith, mul-le-mul_left w above))

affine : (y : ℕ) → 2 * y ≤ 3 * 2 ^ 31 → sub64 (3 * 2 ^ 31) y ≡ 3 * 2 ^ 31 - y
affine y h = omega arith

parabola_core :
    (c t v y z : ℕ)
    → t + v ≡ c
    → y ≡ c + t
    → z ≡ 2 * c + v
    → (y * z ≤ 4 * (c * c)) × (3 * (c * c) ≤ y * z)
parabola_core c t v y z sum first second = rw (first, second, ← sum) (omega arith)

-- y (3 - y) between y = 3/4 and y = 3/2, in units of 2^-31.
parabola :
    (y : ℕ)
    → 3 * 2 ^ 31 ≤ 4 * y
    → 2 * y ≤ 3 * 2 ^ 31
    → (y * (3 * 2 ^ 31 - y) ≤ 9 * 2 ^ 60) × (27 * 2 ^ 58 ≤ y * (3 * 2 ^ 31 - y))
parabola y l h =
    let t : ℕ = y - 3 * 2 ^ 29 in
    let v : ℕ = 3 * 2 ^ 30 - y in
    let e : y ≡ 3 * 2 ^ 29 + t = omega arith in
    let f : 3 * 2 ^ 31 - y ≡ 3 * 2 ^ 30 + v = omega arith in
    let g : t + v ≡ 3 * 2 ^ 29 = omega arith in
    parabola_core (3 * 2 ^ 29) t v y (3 * 2 ^ 31 - y) g e f

-- The warm start for a power of two p with s * p = 2^31.
module _ (w p s : ℕ) (p_pos : 0 < p) (unit : s * p ≡ 2 ^ 31) (low : 3 * p ≤ 4 * w)
    (high : 2 * w ≤ 3 * p) where
  scaled : (3 * 2 ^ 31 ≤ 4 * (w * s)) × (2 * (w * s) ≤ 3 * 2 ^ 31) × (s ≤ 2 ^ 31)
  scaled =
      let one_p : s * 1 ≤ s * p = mul-le-mul_left s p_pos in
      omega (arith, mul-le-mul_left s low, mul-le-mul_left s high)

  warm_start_lem : w < 2 ^ 32 → warm_start w p ≡ s * (3 * 2 ^ 31 - w * s) / 2 ^ 31
  unfolding warm_start
  warm_start_lem fits =
      let (l, h, s_le) = scaled in
      let inv : 2 ^ 32 / p ≡ 2 * s = div-eq_of_eq-mul_left p_pos (omega arith) in
      let mantissa : w * 2 ^ 32 / p ≡ w * (2 * s) =
        div-eq_of_eq-mul_left p_pos (omega (arith, ap (λ (t : ℕ). w * t) unit)) in
      let halved : w * (2 * s) / 2 ≡ w * s = omega arith in
      let bound : s * (3 * 2 ^ 31 - w * s) ≤ 2 ^ 31 * (3 * 2 ^ 31) =
        mul-le-mul {m₂ = 3 * 2 ^ 31} s_le (omega arith) in
      rw
        (
          mod-eq_of_lt {n = w * 2 ^ 32} {m = 2 ^ 64} (omega arith),
          inv,
          mantissa,
          halved,
          affine (w * s) h,
        )
        (omega arith)

  warm_start_bounds :
      let x = s * (3 * 2 ^ 31 - w * s) / 2 ^ 31 in (w * x ≤ 9 * 2 ^ 29) × (27 * 2 ^ 27 ≤ w * x + w)
  warm_start_bounds =
      let (l, h, s_le) = scaled in
      let a : ℕ = 3 * 2 ^ 31 - w * s in
      let (most, least) = parabola (w * s) l h in
      let above : suc (s * a) ≤ s * a / 2 ^ 31 * 2 ^ 31 + 2 ^ 31 = lt-div-mul-add (omega arith) in
      (
        omega (arith, mul-le-mul_left w (div-mul-le_self (s * a) (2 ^ 31))),
        omega (arith, mul-le-mul_left w above),
      )

-- The error after one step, and after two, from a warm start that is off by 5/32 and w.
abbrev first_error : ℕ → ℕ
first_error w = 5 * 2 ^ 27 + w

module _ (w : ℕ) (w_pos : 0 < w) (small : w ≤ 2 ^ 17) where
  start : ℕ
  start = warm_start w (bsa_nearest_pow2 w)

  start_bounds : (w * start ≤ 9 * 2 ^ 29) × (27 * 2 ^ 27 ≤ w * start + w)
  unfolding start
  start_bounds =
      let ((k, e, k_le), near, low, high) = bsa_nearest_pow2-nearest w w_pos (omega arith) in
      let s : ℕ = 2 ^ (31 - k) in
      let unit : s * 2 ^ k ≡ 2 ^ 31 =
        omega (arith, mul-two-pow 1 (31 - k) k {r = 31} (omega arith)) in
      let low' : 3 * 2 ^ k ≤ 4 * w = rw e at low in
      let high' : 2 * w ≤ 3 * 2 ^ k = rw e at high in
      rw (e, warm_start_lem w (2 ^ k) s (two-pow-pos k) unit low' high' (omega arith))
        (warm_start_bounds w (2 ^ k) s (two-pow-pos k) unit low' high')

  by_loop : (n : ℕ) → bsa_newton_reciprocal w n ≡ newton_loop n w start
  unfolding bsa_newton_reciprocal start
  by_loop n = ground arith

  after_one : ℕ
  after_one = newton_step w start

  after_one_bounds : (w * after_one ≤ 2 ^ 32) × (975 * 2 ^ 32 ≤ 1000 * (w * after_one))
  unfolding after_one
  after_one_bounds =
      let (high, low) = start_bounds in
      let e : ℕ = first_error w in
      let (below, near) = newton_step_bounds w start e (omega arith) (omega arith) (omega arith) in
      let error : e * e ≤ (5 * 2 ^ 27 + 2 ^ 17) * (5 * 2 ^ 27 + 2 ^ 17) =
        mul-le-mul {n₂ = 5 * 2 ^ 27 + 2 ^ 17} {m₂ = 5 * 2 ^ 27 + 2 ^ 17} (omega arith)
          (omega arith) in
      (below, omega arith)

  one_step : (n : ℕ) → bsa_newton_reciprocal w (suc n) ≡ newton_loop n w after_one
  unfolding after_one
  one_step n =
      by_loop (suc n)
      ∙ newton_loop-suc n w start w_pos (let (high, low) = start_bounds in omega arith)

  -- One step gives at most the reciprocal, and at least 97.5% of it.
  pub newton_one :
      let x = bsa_newton_reciprocal w 1 in (w * x ≤ 2 ^ 32) × (975 * 2 ^ 32 ≤ 1000 * (w * x))
  unfolding newton_loop
  newton_one = rw (one_step 0) after_one_bounds

  -- For a weight from 1 to 2^17, two Newton steps give at most the reciprocal 2^32 / weight, and at
  -- least 99.9% of it.
  pub newton_two :
      let x = bsa_newton_reciprocal w 2 in (w * x ≤ 2 ^ 32) × (999 * 2 ^ 32 ≤ 1000 * (w * x))
  unfolding newton_loop
  newton_two =
      let (high, low) = after_one_bounds in
      let (below, near) =
        newton_step_bounds w after_one 107374183 (omega arith) (omega arith) (omega arith) in
      rw (one_step 1, newton_loop-suc 0 w after_one w_pos (omega arith)) (below, omega arith)
