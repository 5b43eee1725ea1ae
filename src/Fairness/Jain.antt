-- ===== src/Fairness/Jain.antt =====
-- Jain's index (`fairness_jain_index`): the inequality behind it, and what the code returns where its
-- sums fit 64 bits.
use native.Mathlib.Nat.{le_of_mul-le-mul_left, mod-eq_of_lt, mul-pos}
use native.Mathlib.Decide.{dec_le}
use approximation_computing.Common.{
  ◌==◌, ℕ, zero, suc, ◌+◌, ◌-◌, ◌*◌, ◌^◌, ◌≤◌, ◌<◌, ◌≡◌, inl, inr, refl, arith, true, false, List,
  [], ◌∷◌, if◌then◌else◌, pos, pos_part, All, Bool-cases, mul-le-mul_right,
}
use approximation_computing.Double.{Double, one, round, of_nat, div}
use approximation_computing.Double.Laws.{
  of_nat_mono, of_nat-pos, div-le-one, div_self, div_lem, of_nat_lem,
}
use approximation_computing.Task.{CfsTask, CfsRq, is_running, has_no_tasks, visited}
use approximation_computing.Fairness.{
  JainSums, jain_step, jain_loop, jain_of_sums, no_sums, fairness_jain_index,
}

-- The running tasks' CPU times, their sum, the sum of their squares, and their number, unbounded.
abbrev pub runtime_sum : List CfsTask → ℕ
runtime_sum [] = 0
runtime_sum (t ∷ ts) = (if is_running t then t.exec_runtime else 0) + runtime_sum ts

abbrev pub square_sum : List CfsTask → ℕ
square_sum [] = 0
square_sum (t ∷ ts) = (if is_running t then t.exec_runtime * t.exec_runtime else 0) + square_sum ts

abbrev pub running : List CfsTask → ℕ
running [] = 0
running (t ∷ ts) = (if is_running t then 1 else 0) + running ts

twice_product_of_le : (a d : ℕ) → 2 * (a * (a + d)) ≤ a * a + (a + d) * (a + d)
twice_product_of_le a d = omega arith

pub twice_product : (a b : ℕ) → 2 * (a * b) ≤ a * a + b * b
twice_product a b = elim (dec_le a b) [
  | yes h ↦ let e : a + (b - a) ≡ b = omega arith in rw e at (twice_product_of_le a (b - a))
  | no h ↦
      let e : b + (a - b) ≡ a = omega arith in
      let f : 2 * (b * a) ≤ b * b + a * a = rw e at (twice_product_of_le b (a - b)) in omega arith
]

-- The mixed term of the square of a longer sum.
mixed_term : (s x n q : ℕ) → s * s ≤ n * q → 2 * (s * x) ≤ n * (x * x) + q
mixed_term zero x n q h = omega arith
mixed_term (suc s) x zero q h = absurd (omega arith)
mixed_term (suc s) x (suc n) q h =
    le_of_mul-le-mul_left {k = suc n} (omega (arith, twice_product (suc n * x) (suc s)))
      (omega arith)

longer_sum : (s x n q : ℕ) → s * s ≤ n * q → (x + s) * (x + s) ≤ (1 + n) * (x * x + q)
longer_sum s x n q h = omega (arith, mixed_term s x n q h)

-- The square of the sum is at most the number times the sum of the squares.
pub cauchy_schwarz :
    (ts : List CfsTask) → runtime_sum ts * runtime_sum ts ≤ running ts * square_sum ts
cauchy_schwarz [] = omega arith
cauchy_schwarz (t ∷ ts) = elim (Bool-cases (is_running t)) [
  | inl r ↦
      rw r (
        longer_sum (runtime_sum ts) t.exec_runtime (running ts) (square_sum ts) (cauchy_schwarz ts))
  | inr r ↦ rw r (omega (arith, cauchy_schwarz ts))
]

abbrev pub sums_of : List CfsTask → JainSums
sums_of ts = record { sum = runtime_sum ts; sum_sq = square_sum ts; n = running ts }

abbrev time_of : CfsTask → ℕ
time_of t = if is_running t then t.exec_runtime else 0

abbrev square_of : CfsTask → ℕ
square_of t = if is_running t then t.exec_runtime * t.exec_runtime else 0

abbrev one_of : CfsTask → ℕ
one_of t = if is_running t then 1 else 0

-- One round, where nothing wraps.
jain_step-exact :
    (t : CfsTask) (s : JainSums)
    → s.sum + time_of t < 2 ^ 64
    → s.sum_sq + square_of t < 2 ^ 64
    → ((jain_step t s).sum ≡ s.sum + time_of t)
      × ((jain_step t s).sum_sq ≡ s.sum_sq + square_of t)
      × ((jain_step t s).n ≡ s.n + one_of t)
jain_step-exact t s h k = ground arith

jain_loop-exact :
    (ts : List CfsTask) (s : JainSums)
    → s.sum + runtime_sum ts < 2 ^ 64
    → s.sum_sq + square_sum ts < 2 ^ 64
    → ((jain_loop ts s).sum ≡ s.sum + runtime_sum ts)
      × ((jain_loop ts s).sum_sq ≡ s.sum_sq + square_sum ts)
      × ((jain_loop ts s).n ≡ s.n + running ts)
unfolding jain_loop
jain_loop-exact [] s h k = omega arith
jain_loop-exact (t ∷ ts) s h k =
    let (a, b, c) = jain_step-exact t s (omega arith) (omega arith) in
    omega (arith, jain_loop-exact ts (jain_step t s) (omega arith) (omega arith))

-- The code's three sums are the unbounded ones.
jain_loop_lem :
    (ts : List CfsTask)
    → runtime_sum ts < 2 ^ 64
    → square_sum ts < 2 ^ 64
    → jain_loop ts no_sums ≡ sums_of ts
jain_loop_lem ts h k = ground (arith, jain_loop-exact ts no_sums (omega arith) (omega arith))

-- What the sums are where the product under the quotient fits 64 bits.
abbrev SumsFit : List CfsTask → Type 0
SumsFit ts =
    (runtime_sum ts < 2 ^ 64)
    × (square_sum ts < 2 ^ 64)
    × (0 < square_sum ts)
    × (runtime_sum ts * runtime_sum ts ≤ running ts * square_sum ts)

sums_fit :
    (ts : List CfsTask)
    → 0 < running ts
    → 0 < runtime_sum ts
    → running ts * square_sum ts < 2 ^ 64
    → SumsFit ts
sums_fit ts n_pos s_pos fits =
    let cs = cauchy_schwarz ts in
    let square : 1 * runtime_sum ts ≤ runtime_sum ts * runtime_sum ts = mul-le-mul_right _ s_pos in
    let one_of_n : 1 * square_sum ts ≤ running ts * square_sum ts = mul-le-mul_right _ n_pos in
    (omega arith, omega arith, square_pos (square_sum ts) (omega arith), cs)
  where
    square_pos : (q : ℕ) → 0 < running ts * q → 0 < q
    square_pos zero h = absurd (omega arith)
    square_pos (suc q) h = omega arith

of_nat-round_pos : (n : ℕ) → 0 < n → n < 2 ^ 64 → 0 < round (n * one) 1
of_nat-round_pos n p k = let h = rw (of_nat_lem n) at (of_nat-pos n p k) in omega arith

-- The quotient that the index approximates.
abbrev pub quotient : ℕ → ℕ → Double
quotient s nq = div (of_nat s) (of_nat nq)

quotient-le-one : (s nq : ℕ) → s ≤ nq → 0 < nq → nq < 2 ^ 64 → pos_part (quotient s nq) ≤ one
quotient-le-one s nq h p k =
    rw (of_nat_lem s, of_nat_lem nq)
      (div-le-one _ _ (of_nat-round_pos nq p k)
        (rw (of_nat_lem s, of_nat_lem nq) at (of_nat_mono s nq h k)))

quotient-nonneg : (s nq : ℕ) → quotient s nq ≡ pos (pos_part (quotient s nq))
quotient-nonneg s nq =
    rw (of_nat_lem s, of_nat_lem nq, div_lem (round (s * one) 1) (round (nq * one) 1))

jain_of_sums-exact :
    (s q n : ℕ)
    → 2 ≤ n
    → 0 < s
    → 0 < q
    → s * s ≤ n * q
    → n * q < 2 ^ 64
    → jain_of_sums (record { sum = s; sum_sq = q; n = n }) ≡ quotient (s * s) (n * q)
unfolding jain_of_sums
jain_of_sums-exact s q n h s_pos q_pos cs fits =
    let divisor : (n * q == 0) ≡ false = ground (arith, mul-pos {m = n} {n = q}) in
    rw (mod-eq_of_lt {n = s * s} {m = 2 ^ 64} (omega arith), mod-eq_of_lt fits, divisor)
      (ground (
        arith,
        quotient-le-one (s * s) (n * q) cs (omega (arith, mul-pos s_pos s_pos)) fits,
        quotient-nonneg (s * s) (n * q),
      ))

-- With at least two running tasks that have run, and the product under the quotient below 2^64, no
-- sum wraps and no clamp is met: the index is the rounded quotient of Jain's formula over the
-- unbounded sums, and it is at most 1.0.
pub fairness_jain_index-exact :
    (rq : CfsRq)
    → has_no_tasks rq ≡ false
    → 2 ≤ running (visited rq)
    → 0 < runtime_sum (visited rq)
    → running (visited rq) * square_sum (visited rq) < 2 ^ 64
    → let ts = visited rq in
      let j = quotient (runtime_sum ts * runtime_sum ts) (running ts * square_sum ts) in
      (fairness_jain_index rq ≡ j) × (pos_part j ≤ one)
unfolding fairness_jain_index
fairness_jain_index-exact rq some_tasks two s_pos fits =
    let ts = visited rq in
    let (s_fits, q_fits, q_pos, cs) = sums_fit ts (omega arith) s_pos fits in
    (
      rw (some_tasks, jain_loop_lem ts s_fits q_fits)
          (jain_of_sums-exact _ _ _ two s_pos q_pos cs fits),
      quotient-le-one _ _ cs (mul-pos (omega arith) q_pos) fits,
    )

equal_sums :
    (x : ℕ) (ts : List CfsTask)
    → All (λ t. is_running t ≡ true → t.exec_runtime ≡ x) ts
    → (runtime_sum ts ≡ running ts * x) × (square_sum ts ≡ running ts * (x * x))
equal_sums x [] h = omega arith
equal_sums x (t ∷ ts) (same, rest) = elim (Bool-cases (is_running t)) [
  | inl r ↦ rw (r, same r) (omega (arith, equal_sums x ts rest))
  | inr r ↦ rw r (omega (arith, equal_sums x ts rest))
]

quotient_self : (n : ℕ) → 0 < n → n < 2 ^ 64 → quotient n n ≡ pos one
quotient_self n p k = rw (of_nat_lem n) (div_self (round (n * one) 1) (of_nat-round_pos n p k))

jain_of_sums-one :
    (s q n : ℕ)
    → s * s ≡ n * q
    → n * q < 2 ^ 64
    → jain_of_sums (record { sum = s; sum_sq = q; n = n }) ≡ pos one
unfolding jain_of_sums
jain_of_sums-one s q n cs fits =
    rw (mod-eq_of_lt {n = s * s} {m = 2 ^ 64} (omega arith), mod-eq_of_lt fits, cs)
      (elim (dec_le (n * q) 0) [
        | yes z ↦ ground (arith, mul-pos {m = s} {n = s}, mul-pos {m = n} {n = q})
        | no p ↦ ground (arith, quotient_self (n * q) (omega arith) fits)
      ])

root_fits : (s : ℕ) → s * s < 2 ^ 64 → s < 2 ^ 64
root_fits zero h = omega arith
root_fits (suc s) h =
    let h' : 1 * suc s ≤ suc s * suc s = mul-le-mul_right (suc s) (omega arith) in omega arith

factor_fits : (n x : ℕ) {q : ℕ} → q ≡ n * (x * x) → n * q < 2 ^ 64 → q < 2 ^ 64
factor_fits zero x e h = omega arith
factor_fits (suc n) x {q} e h =
    let h' : 1 * q ≤ suc n * q = mul-le-mul_right q (omega arith) in omega arith

-- Where every running task has had the same CPU time, the index is 1.0.
pub fairness_jain_index-equal :
    (rq : CfsRq) (x : ℕ)
    → All (λ t. is_running t ≡ true → t.exec_runtime ≡ x) (visited rq)
    → running (visited rq) * square_sum (visited rq) < 2 ^ 64
    → fairness_jain_index rq ≡ pos one
unfolding fairness_jain_index
fairness_jain_index-equal rq x same fits = elim (Bool-cases (has_no_tasks rq)) [
  | inl nothing ↦ rw nothing refl
  | inr some_tasks ↦
      let ts = visited rq in
      let (s, q) = equal_sums x ts same in
      let squares : runtime_sum ts * runtime_sum ts ≡ running ts * square_sum ts =
        rw (s, q) (omega arith) in
      rw
        (
          some_tasks,
          jain_loop_lem ts (root_fits _ (omega arith)) (factor_fits (running ts) x q fits),
        )
        (jain_of_sums-one _ _ _ squares fits)
]
