-- ===== src/Apaf/Decay.antt =====
-- `apaf_decay_load` and `apaf_vruntime_delta`: their accuracy in each state.
use native.Mathlib.Nat.{div-le_self, div-mul-le_self, lt-div-mul-add}
use native.Mathlib.Decide.{dec_lt}
use approximation_computing.Common.{
  ℕ, suc, ◌+◌, ◌*◌, ◌/◌, ◌%◌, ◌^◌, ◌≤◌, ◌<◌, ◌≡◌, inl, inr, ap, arith, true, false, leb, ltb, ◌==◌,
  if◌then◌else◌, ℤ, pos, ◌==ℤ◌, ==_iff, Bool-cases, le_trans, mul-le-mul_left,
}
use approximation_computing.Double.{one, of_nat, to_nat, mul}
use approximation_computing.Double.Laws.{scaled-le, le-scaled}
use approximation_computing.Task.{apaf_loose, y_n_inv}
use approximation_computing.Fairness.Controller.{IsState}
use approximation_computing.Bsa.{bsa_newton_reciprocal}
use approximation_computing.Bsa.Newton.{newton_one, newton_two}
use approximation_computing.Bsa.Delta.{IsNear, reciprocal-IsNear, unscaled-IsNear}
use approximation_computing.Apaf.{apaf_decay_load, newton_iters, apaf_vruntime_delta}
use approximation_computing.Apaf.Poly.{
  least_ratio, greatest_ratio, magnitude_of, decay_factor-IsClose, first_factor,
}

-- The product in doubles is the product over unbounded numbers, rounded down or up by 1 at most.
scaled :
    (n f : ℕ)
    → n < 2 ^ 53
    → f ≤ one
    → let r = to_nat (mul (of_nat n) (pos f)) in (n * f / one ≤ r) × (r ≤ n * f / one + 1)
scaled n f small le =
    let below : n * f ≤ n * one = mul-le-mul_left n le in
    (
      le-scaled n f (n * f / one) (omega arith) le (omega arith) (omega arith),
      scaled-le n f (n * f / one + 1) (omega arith) le (omega arith) (omega arith),
    )

-- The ratios of a factor are those of its product with a load.
near_of :
    (n f t r lo hi : ℕ)
    → n * f / one ≤ r
    → r ≤ n * f / one + 1
    → lo * (t * one) ≤ 10000 * (f * 2 ^ 32)
    → 10000 * (f * 2 ^ 32) ≤ hi * (t * one)
    → (lo * (n * t) ≤ 10000 * ((r + 1) * 2 ^ 32))
      × (10000 * (r * 2 ^ 32) ≤ hi * (n * t) + 20000 * 2 ^ 32)
near_of n f t r lo hi low high below above =
    let b = mul-le-mul_left n below in
    let a = mul-le-mul_left n above in
    let start : n * f / one * one ≤ n * f = div-mul-le_self (n * f) one in
    let end : suc (n * f) ≤ n * f / one * one + one = lt-div-mul-add (omega arith) in omega arith

too_late : (load n : ℕ) (s : ℤ) → 2016 ≤ n → apaf_decay_load load n s ≡ 0
unfolding apaf_decay_load
too_late load n s h = ground arith

no_shift : (load n : ℕ) → n ≡ 0 → load / 2 ^ (n / 32) ≡ load
no_shift load n e = rw e (omega arith)

-- Over whole half-lives the shift is all.
whole_periods :
    (load n : ℕ) (s : ℤ) → n < 2016 → n % 32 ≡ 0 → apaf_decay_load load n s ≡ load / 2 ^ (n / 32)
unfolding apaf_decay_load
whole_periods load n s h whole = ground (arith, no_shift load n)

-- Over the rest the shifted load is multiplied by the factor of the state.
pub rest_periods :
    (load n : ℕ) (s : ℤ)
    → n < 2016
    → 0 < n % 32
    → IsState s
    → apaf_decay_load load n s
      ≡ to_nat (mul (of_nat (load / 2 ^ (n / 32))) (pos (magnitude_of s (n % 32))))
unfolding apaf_decay_load
rest_periods load n s h rest state =
    let k = decay_factor-IsClose s (n % 32) state (omega arith) in
    let not_zero : (n == 0) ≡ false = ground arith in
    let not_all : leb 2016 n ≡ false = ground arith in
    let some_left : ltb 0 (n % 32) ≡ true = ground arith in
    rw (not_zero, not_all, some_left)
      (ap (λ f. to_nat (mul (of_nat (load / 2 ^ (n / 32))) f)) k.nonnegative)

-- Decay never raises a load.
pub apaf_decay_load-le :
    (load n : ℕ) (s : ℤ) → IsState s → load < 2 ^ 53 → apaf_decay_load load n s ≤ load
apaf_decay_load-le load n s state fits =
    let halved = div-le_self load (2 ^ (n / 32)) in
    let f : ℕ = magnitude_of s (n % 32) in
    let k = decay_factor-IsClose s (n % 32) state (omega arith) in
    elim (dec_lt n 2016) [
      | no late ↦ rw (too_late load n s (omega arith)) (omega arith)
      | yes h ↦ elim (Bool-cases (n % 32 == 0)) [
        | inl whole ↦ rw (whole_periods load n s h ((==_iff (n % 32) 0).0 whole)) halved
        | inr rest ↦ rw (rest_periods load n s h (ground arith) state) (
            le_trans
              (scaled-le (load / 2 ^ (n / 32)) f (load / 2 ^ (n / 32)) (omega arith) k.at_most_one
                (omega arith) (mul-le-mul_left (load / 2 ^ (n / 32)) k.at_most_one))
              halved)
      ]
    ]

-- In each state, for a load below 2^53 and less than 2016 periods that are no whole half-lives, the
-- decay is within the ratios of the state (99.97% to 100.04%, 99.81% to 100.22%, 100% to 103.04%)
-- to load / 2^(n / 32) times the exact factor, but for less than 1 below and at most 2 above.
pub apaf_decay_load-near :
    (load n : ℕ) (s : ℤ)
    → IsState s
    → load < 2 ^ 53
    → n < 2016
    → 0 < n % 32
    → let shifted = load / 2 ^ (n / 32) in
      let r = apaf_decay_load load n s in
      (least_ratio s * (shifted * y_n_inv (n % 32)) ≤ 10000 * ((r + 1) * 2 ^ 32))
      × (10000 * (r * 2 ^ 32) ≤ greatest_ratio s * (shifted * y_n_inv (n % 32)) + 20000 * 2 ^ 32)
apaf_decay_load-near load n s state fits h rest =
    let halved = div-le_self load (2 ^ (n / 32)) in
    let f : ℕ = magnitude_of s (n % 32) in
    let k = decay_factor-IsClose s (n % 32) state (omega arith) in
    let (low, high) = scaled (load / 2 ^ (n / 32)) f (omega arith) k.at_most_one in
    rw (rest_periods load n s h rest state) (
      near_of (load / 2 ^ (n / 32)) f (y_n_inv (n % 32)) _ (least_ratio s) (greatest_ratio s) low
        high k.from_below k.from_above)

-- One period takes at least a 50th part away, rounded up by less than 2.
pub apaf_decay_load-one :
    (load : ℕ) (s : ℤ)
    → IsState s
    → load < 2 ^ 53
    → 100 * apaf_decay_load load 1 s ≤ 98 * load + 100
apaf_decay_load-one load s state fits =
    let k = decay_factor-IsClose s 1 state (omega arith) in
    let whole : load / 2 ^ (1 / 32) ≡ load = omega arith in
    let first = mul-le-mul_left load (first_factor s state) in
    let start : load * magnitude_of s 1 / one * one ≤ load * magnitude_of s 1 =
      div-mul-le_self (load * magnitude_of s 1) one in
    let high = (scaled load (magnitude_of s 1) fits k.at_most_one).1 in
    rw (rest_periods load 1 s (omega arith) (omega arith) state, whole) (omega arith)

-- The thousandths of delta * 1024 / weight that the scaled runtime of a state keeps.
abbrev pub kept_by : ℤ → ℕ
kept_by s = if s ==ℤ apaf_loose then 975 else 999

newton_of :
    (s : ℤ) (w : ℕ)
    → IsState s
    → 2 ≤ w
    → w ≤ 2 ^ 17
    → let x = bsa_newton_reciprocal w (newton_iters s) in
      (w * x ≤ 2 ^ 32) × (kept_by s * 2 ^ 32 ≤ 1000 * (w * x))
newton_of s w (inl tight) h small = rw tight (newton_two w (omega arith) small)
newton_of s w (inr (inl medium)) h small = rw medium (newton_two w (omega arith) small)
newton_of s w (inr (inr loose)) h small = rw loose (newton_one w (omega arith) small)

-- For weights from 2 to 2^17, a runtime below 2^32 and a state of the controller, the scaled runtime is never above delta * 1024 / weight, and rounded up
-- at least 99.9% of it in TIGHT and MEDIUM and 97.5% in LOOSE.
pub apaf_vruntime_delta-IsNear :
    (d w : ℕ) (s : ℤ)
    → IsState s
    → 2 ≤ w
    → w ≤ 2 ^ 17
    → d < 2 ^ 32
    → IsNear (kept_by s) d w (apaf_vruntime_delta d w s)
unfolding apaf_vruntime_delta
apaf_vruntime_delta-IsNear d w s state h small fits = elim (Bool-cases (w == 1024)) [
  | inl e ↦ rw ((==_iff w 1024).0 e) (unscaled-IsNear (kept_by s) d (ground arith))
  | inr e ↦
      let (high, low) = newton_of s w state h small in
      let not_zero : (w == 0) ≡ false = ground arith in
      rw (e, not_zero)
        (reciprocal-IsNear (kept_by s) d w (bsa_newton_reciprocal w (newton_iters s)) h fits high
          low)
]
