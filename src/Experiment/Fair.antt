-- ===== src/Experiment/Fair.antt =====
-- Experiment 1: the tasks are of equal weight, so every scheduler shares the CPU out evenly.
use mathlib.Core.Path.{subst}
use native.Mathlib.Nat.{add-zero}
use approximation_computing.Common.{
  ℕ, zero, suc, ◌+◌, ◌*◌, ◌^◌, ◌≤◌, ◌<◌, ◌≡◌, arith, List, [], ◌∷◌, ℤ, length, mul-le-mul_left, All,
}
use approximation_computing.Task.{CfsTask, tick_ns}
use approximation_computing.Ticks.{total_runtime}
use approximation_computing.Ticks.Even.{IsEven}
use approximation_computing.Experiment.{Lanes, lockstep, run_ticks, start_lanes}
use approximation_computing.Experiment.Busy.{
  IsBusy, IsMeasured, IsMode, tick_of-IsBusy, start-IsBusy,
}

run_ticks-IsBusy_from :
    (ticks n k : ℕ) (mode logic : ℤ) (s : Lanes)
    → 0 < n
    → (k + ticks) * tick_ns < 2 ^ 64
    → IsBusy n k mode s.approx_rq
    → IsBusy n (k + ticks) mode (run_ticks ticks logic s).approx_rq
unfolding run_ticks lockstep
run_ticks-IsBusy_from zero n k mode logic s h fits b = rw add-zero b
run_ticks-IsBusy_from (suc ticks) n k mode logic s h fits b =
    let moved : k + suc ticks ≡ suc k + ticks = omega arith in
    rw moved (
      run_ticks-IsBusy_from ticks n (suc k) mode logic (lockstep logic s) h (omega arith)
        (tick_of-IsBusy n k mode logic s.approx_rq h (omega arith) b).0)

-- After all of the ticks.
pub run_ticks-IsBusy :
    (n ticks : ℕ) (logic : ℤ)
    → 0 < n
    → IsMode logic
    → ticks * tick_ns < 2 ^ 64
    → IsBusy n ticks logic (run_ticks ticks logic (start_lanes n logic)).approx_rq
unfolding start_lanes
run_ticks-IsBusy n ticks logic h mode fits =
    let none_yet : 0 + ticks ≡ ticks = omega arith in
    subst (λ k. IsBusy n k logic (run_ticks ticks logic (start_lanes n logic)).approx_rq) none_yet
      (run_ticks-IsBusy_from ticks n 0 logic logic (start_lanes n logic) h (omega arith)
        (start-IsBusy n logic mode))

-- And after at least one the fairness index is that of the tasks, and all of them are counted.
run_ticks-IsMeasured_from :
    (ticks n k : ℕ) (mode logic : ℤ) (s : Lanes)
    → 0 < n
    → (k + suc ticks) * tick_ns < 2 ^ 64
    → IsBusy n k mode s.approx_rq
    → IsMeasured n (run_ticks (suc ticks) logic s).approx_rq
unfolding run_ticks lockstep
run_ticks-IsMeasured_from zero n k mode logic s h fits b =
    (tick_of-IsBusy n k mode logic s.approx_rq h (omega arith) b).1
run_ticks-IsMeasured_from (suc ticks) n k mode logic s h fits b =
    run_ticks-IsMeasured_from ticks n (suc k) mode logic (lockstep logic s) h (omega arith)
      (tick_of-IsBusy n k mode logic s.approx_rq h (omega arith) b).0

pub run_ticks-IsMeasured :
    (n ticks : ℕ) (logic : ℤ)
    → 0 < n
    → IsMode logic
    → suc ticks * tick_ns < 2 ^ 64
    → IsMeasured n (run_ticks (suc ticks) logic (start_lanes n logic)).approx_rq
unfolding start_lanes
run_ticks-IsMeasured n ticks logic h mode fits =
    run_ticks-IsMeasured_from ticks n 0 logic logic (start_lanes n logic) h (omega arith)
      (start-IsBusy n logic mode)

-- The time of even tasks together.
pub total_of_even :
    (c : ℕ) (ts : List CfsTask)
    → All (IsEven c) ts
    → (length ts * c ≤ total_runtime ts) × (total_runtime ts ≤ length ts * (c + tick_ns))
total_of_even c [] h = (omega arith, omega arith)
total_of_even c (t ∷ ts) h =
    let low = h.0.low in
    let high = h.0.high in let (least, most) = total_of_even c ts h.1 in (omega arith, omega arith)

-- A task that is within a tick of the `n`-th part of a time.
pub record IsFairShare (n time : ℕ) (t : CfsTask) : Type 0 where
  pub enough : time ≤ n * (t.exec_runtime + tick_ns)
  pub no_more : n * t.exec_runtime ≤ time + n * tick_ns

shares_of_even :
    (n c time : ℕ) (ts : List CfsTask)
    → n * c ≤ time
    → time ≤ n * (c + tick_ns)
    → All (IsEven c) ts
    → All (IsFairShare n time) ts
shares_of_even n c time [] low high h = tt
shares_of_even n c time (t ∷ ts) low high h =
    let above = mul-le-mul_left n h.0.low in
    let below = mul-le-mul_left n h.0.high in
    (
      record { enough = omega arith; no_more = omega arith },
      shares_of_even n c time ts low high h.1,
    )

-- Under each of the four schedulers, as long as the clock does not wrap, every one of the `n` equal tasks
-- of experiment 1 has run for the `n`-th part of all ticks, but for at most one tick more or less.
pub run_ticks-IsFairShare :
    (n ticks : ℕ) (logic : ℤ)
    → 0 < n
    → IsMode logic
    → ticks * tick_ns < 2 ^ 64
    → let s = run_ticks ticks logic (start_lanes n logic) in
      (length s.approx_rq.tasks ≡ n) × All (IsFairShare n (ticks * tick_ns)) s.approx_rq.tasks
run_ticks-IsFairShare n ticks logic h mode fits =
    let b = run_ticks-IsBusy n ticks logic h mode fits in
    let ts = (run_ticks ticks logic (start_lanes n logic)).approx_rq.tasks in
    let (low, high) = total_of_even b.base ts b.even in
    let low' : n * b.base ≤ total_runtime ts =
      subst (λ m. m * b.base ≤ total_runtime ts) b.many low in
    let high' : total_runtime ts ≤ n * (b.base + tick_ns) =
      subst (λ m. total_runtime ts ≤ m * (b.base + tick_ns)) b.many high in
    let spent = b.spent in
    (b.many, shares_of_even n b.base (ticks * tick_ns) ts (omega arith) (omega arith) b.even)
