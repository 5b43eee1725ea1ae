-- ===== src/Experiment/Jain.antt =====
-- Experiment 1: the fairness index of tasks that are within a tick of each other.
use mathlib.Core.Path.{subst}
use native.Mathlib.Nat.{le_of_mul-le-mul_left}
use approximation_computing.Common.{
  ℕ, zero, suc, ◌+◌, ◌-◌, ◌*◌, ◌^◌, ◌≤◌, ◌<◌, ◌≡◌, refl, sym, ◌∙◌, arith, true, false, List, [],
  ◌∷◌, ℤ, pos, pos_part, length, All, take_all, le_refl, mul-le-mul, mul-le-mul_left,
}
use approximation_computing.Double.{one, round, div}
use approximation_computing.Double.Laws.{of_nat_lem, div_lem, of_nat-le, le-of_nat, of_nat-pos}
use approximation_computing.Double.Round.{le-round}
use approximation_computing.Task.{CfsTask, CfsRq, has_no_tasks, visited, tick_ns}
use approximation_computing.Fairness.{fairness_jain_index}
use approximation_computing.Fairness.Jain.{
  runtime_sum, square_sum, running, quotient, fairness_jain_index-exact, twice_product,
  cauchy_schwarz,
}
use approximation_computing.Ticks.{IsSized, total_runtime}
use approximation_computing.Ticks.Even.{IsEven}
use approximation_computing.Experiment.{run_ticks, start_lanes, run_experiment}
use approximation_computing.Experiment.Busy.{IsMode}
use approximation_computing.Experiment.Fair.{total_of_even, run_ticks-IsBusy, run_ticks-IsMeasured}

-- A rounded quotient of at least 8 / 9, but for the rounding, is at least 7 / 8.
quotient-large :
    (s q : ℕ)
    → 0 < q
    → s < 2 ^ 64
    → q < 2 ^ 64
    → 7 * (q + 2048) + 8 * 2048 ≤ 8 * s
    → 7 * one ≤ 8 * pos_part (quotient s q)
quotient-large s q p s_fits q_fits h =
    let below : round (q * one) 1 ≤ (q + 2048) * one = rw (of_nat_lem q) at (of_nat-le q q_fits) in
    let above : s * one ≤ round (s * one) 1 + 2048 * one =
      rw (of_nat_lem s) at (le-of_nat s s_fits) in
    let high : round (s * one) 1 ≤ (s + 2048) * one = rw (of_nat_lem s) at (of_nat-le s s_fits) in
    let positive : one ≤ round (q * one) 1 = rw (of_nat_lem q) at (of_nat-pos q p q_fits) in
    rw (of_nat_lem s, of_nat_lem q)
      (rounded (round (s * one) 1) (round (q * one) 1) positive (omega arith) (omega arith))
  where
    rounded :
        (a b : ℕ)
        → one ≤ b
        → a ≤ 2 ^ 65 * one
        → 7 * b ≤ 8 * a
        → 7 * one ≤ 8 * pos_part (div (pos a) (pos b))
    rounded a b p h k = rw (div_lem a b) (
        let r =
          le-round (a * one) b (omega arith) (omega arith) 7 1071 (omega arith) (omega arith) in
        omega arith)

chord_of :
    (d g : ℕ) → (d + g + d) * (d + g + d) + 2 * ((d + g) * (d + g)) ≤ 3 * ((d + g) * (d + g + d))
chord_of d g = omega arith

-- The sums of tasks that are even.
module _ (c : ℕ) (ahead : tick_ns ≤ c) where
  chord : (x : ℕ) → c ≤ x → x ≤ c + tick_ns → x * x + 2 * (c * c) ≤ 3 * (c * x)
  chord x low high =
      let d : c ≡ x - c + (c - (x - c)) = omega arith in
      let e : x ≡ c + (x - c) = omega arith in
      let k = chord_of (x - c) (c - (x - c)) in
      subst (λ y. y * y + 2 * (c * c) ≤ 3 * (c * y)) (sym e)
        (subst (λ b. (b + (x - c)) * (b + (x - c)) + 2 * (b * b) ≤ 3 * (b * (b + (x - c)))) (sym d)
          k)

  even_sums :
      (ts : List CfsTask)
      → All (IsEven c) ts
      → (running ts ≡ length ts)
        × (runtime_sum ts ≡ total_runtime ts)
        × (square_sum ts + 2 * (c * c) * length ts ≤ 3 * (c * runtime_sum ts))
  even_sums [] h = (refl, refl, omega arith)
  even_sums (t ∷ ts) h =
      let (n, s, q) = even_sums ts h.1 in
      let runs = h.0.runs in
      let low = chord t.exec_runtime h.0.low h.0.high in
      rw runs (omega arith, omega arith, omega arith)

-- Jain's formula is at least 8 / 9 where the largest value is at most twice the least.
two_ninths : (c n s q : ℕ) → q + 2 * (c * c) * n ≤ 3 * (c * s) → 8 * (n * q) ≤ 9 * (s * s)
two_ninths c n s q h =
    let a = mul-le-mul_left (8 * n) h in let b = twice_product (3 * s) (4 * (c * n)) in omega arith

-- Sums that fit 64 bits.
square_fits :
    (ticks s : ℕ)
    → 0 < ticks
    → ticks ≤ 4000
    → s ≡ ticks * tick_ns
    → (10 ^ 12 ≤ s * s) × (s * s ≤ 16 * 10 ^ 18)
square_fits ticks s some few e =
    let low : tick_ns ≤ s = omega arith in
    let high : s ≤ 4000 * tick_ns = omega arith in (mul-le-mul low low, mul-le-mul high high)

index_bounds :
    (rq : CfsRq) (ticks : ℕ)
    → has_no_tasks rq ≡ false
    → 0 < ticks
    → ticks ≤ 4000
    → 2 ≤ running (visited rq)
    → runtime_sum (visited rq) ≡ ticks * tick_ns
    → 8 * (running (visited rq) * square_sum (visited rq))
      ≤ 9 * (runtime_sum (visited rq) * runtime_sum (visited rq))
    → (7 * one ≤ 8 * pos_part (fairness_jain_index rq)) × (pos_part (fairness_jain_index rq) ≤ one)
index_bounds rq ticks busy some few two time bound =
    let s = runtime_sum (visited rq) in
    let cs = cauchy_schwarz (visited rq) in
    let (low, high) = square_fits ticks s some few time in
    let (exact, most) = fairness_jain_index-exact rq busy two (omega arith) (omega arith) in
    let large =
      quotient-large (s * s) (running (visited rq) * square_sum (visited rq)) (omega arith)
        (omega arith) (omega arith) (omega arith) in
    rw exact (large, most)

-- After two ticks for each of them, and not too many for the sums to fit 64 bits.
jain_of_even :
    (n ticks c : ℕ) (rq : CfsRq)
    → 2 ≤ n
    → 2 * n ≤ ticks
    → ticks ≤ 4000
    → IsSized rq
    → length rq.tasks ≡ n
    → All (IsEven c) rq.tasks
    → total_runtime rq.tasks ≡ ticks * tick_ns
    → (7 * one ≤ 8 * pos_part (fairness_jain_index rq)) × (pos_part (fairness_jain_index rq) ≤ one)
jain_of_even n ticks c rq two enough few sized many even spent =
    let ts = rq.tasks in
    let all : visited rq ≡ ts = rw sized (take_all (length ts) ts (le_refl (length ts))) in
    let most : total_runtime ts ≤ n * (c + tick_ns) = rw many at (total_of_even c ts even).1 in
    let twice : n * (2 * tick_ns) ≤ n * (c + tick_ns) = omega arith in
    let ahead = le_of_mul-le-mul_left {k = n} twice (omega arith) in
    let (ran, sum, squares) = even_sums c (omega arith) ts even in
    let bound = two_ninths c (length ts) (runtime_sum ts) (square_sum ts) squares in
    let busy : has_no_tasks rq ≡ false = rw sized (ground arith) in
    index_bounds rq ticks busy (omega arith) few (rw (all, ran) (omega arith))
      (rw all (sum ∙ spent)) (rw (all, ran) bound)

-- For at least two equal tasks, and from two ticks for each to 4000 ticks in all, the fairness index that
-- experiment 1 reports under each of the four schedulers is from 7/8 to 1.0.
pub run_experiment-fair :
    (n ticks : ℕ) (logic : ℤ)
    → 2 ≤ n
    → 2 * n ≤ ticks
    → ticks ≤ 4000
    → IsMode logic
    → let j = (run_experiment true n logic ticks).final_jain in
      (7 * one ≤ 8 * pos_part j) × (pos_part j ≤ one)
unfolding run_experiment
run_experiment-fair n zero logic two enough few mode = absurd (omega arith)
run_experiment-fair n (suc ticks) logic two enough few mode =
    let rq = (run_ticks (suc ticks) logic (start_lanes n logic)).approx_rq in
    let b = run_ticks-IsBusy n (suc ticks) logic (omega arith) mode (omega arith) in
    let m = run_ticks-IsMeasured n ticks logic (omega arith) mode (omega arith) in
    rw m.fair (jain_of_even n (suc ticks) b.base rq two enough few b.sized b.many b.even b.spent)
