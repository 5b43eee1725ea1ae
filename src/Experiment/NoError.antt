-- ===== src/Experiment/NoError.antt =====
-- An experiment that runs the exact scheduler against itself: no error and nothing saved.
use mathlib.Core.Path.{subst}
use native.Mathlib.Nat.{zero-mul}
use approximation_computing.Common.{
  ℕ, zero, suc, ◌+◌, ◌*◌, ◌≡◌, refl, sym, ap, ◌∙◌, true, List, [], ◌∷◌, pos, pos_part, length, take,
  ltb, Bool-cases, inl, inr, All, All-append,
}
use approximation_computing.Double.{one, round, of_nat, add, sub, mul, div, fabs}
use approximation_computing.Double.Laws.{of_nat_lem, div_lem, mul_lem, round_zero, sub_self}
use approximation_computing.Task.{CfsTask, CfsRq, visited, rq_init}
use approximation_computing.Exact.{exact_tick}
use approximation_computing.Ticks.{IsSized}
use approximation_computing.Ticks.Rounds.{exact_tick-IsServed}
use approximation_computing.Experiment.{
  Lanes, tick_of, lockstep, run_ticks, equal_tasks, start_lanes, Totals, no_totals, totals_step,
  totals_loop, run_experiment,
}
use approximation_computing.Metrics.{
  Metrics, Errors, no_errors, error_pct, error_step, error_loop, ops_saved_of, metrics_record,
}

div-zero : (n : ℕ) → div (pos 0) (of_nat n) ≡ pos 0
div-zero n =
    rw (of_nat_lem n, div_lem 0 (round (n * one) 1)) (ap pos (round_zero (round (n * one) 1)))

no_difference : (x : ℕ) → sub (of_nat x) (of_nat x) ≡ pos 0
no_difference x = rw (of_nat_lem x) (sub_self (round (x * one) 1))

zero_percent : (n : ℕ) → mul (pos 0) (of_nat n) ≡ pos 0
zero_percent n =
    rw (of_nat_lem n, mul_lem 0 (round (n * one) 1))
      (rw (zero-mul (round (n * one) 1)) (ap pos (round_zero one)))

error_pct_self : (x : ℕ) → error_pct x x ≡ pos 0
unfolding error_pct fabs
error_pct_self x = rw (no_difference x, div-zero x, zero_percent 100) refl

add-zero_zero : add (pos 0) (pos 0) ≡ pos 0
unfolding add
add-zero_zero = ap pos (round_zero 1)

-- The running values while nothing differs.
abbrev IsClean : Errors → Type 0
IsClean s = (s.max_error ≡ pos 0) × (s.sum_error ≡ pos 0)

error_step_self : (t : CfsTask) (s : Errors) → IsClean s → IsClean (error_step t t s)
unfolding error_step
error_step_self t s h = elim (Bool-cases (ltb 0 t.load_avg)) [
  | inl seen ↦ rw (seen, error_pct_self t.load_avg, h.0, h.1) (refl, add-zero_zero)
  | inr not_seen ↦ rw not_seen h
]

error_loop_self :
    (n : ℕ) (ts : List CfsTask) (s : Errors) → IsClean s → IsClean (error_loop (take n ts) ts s)
unfolding error_loop
error_loop_self zero ts s h = h
error_loop_self (suc n) [] s h = h
error_loop_self (suc n) (t ∷ ts) s h =
    error_loop_self n ts (error_step t t s) (error_step_self t s h)

-- What an entry says of a runqueue in EXACT mode that is compared with itself.
pub record IsSpotless (m : Metrics) : Type 0 where
  pub no_max : m.max_error_pct ≡ pos 0
  pub no_avg : m.avg_error_pct ≡ pos 0
  pub no_ops : m.ops_saved ≡ 0

-- A snapshot of a runqueue against itself shows no error, and none of its operations as saved in
-- EXACT mode.
pub metrics_record_self : (rq : CfsRq) → rq.approx_mode ≡ pos 0 → IsSpotless (metrics_record rq rq)
unfolding metrics_record ops_saved_of
metrics_record_self rq mode =
    let errors = error_loop (visited rq) rq.tasks no_errors in
    let clean = error_loop_self (pos_part rq.nr_tasks) rq.tasks no_errors (refl, refl) in
    record {
      no_max = clean.0;
      no_avg = elim (Bool-cases (ltb 0 errors.count)) [
        | inl seen ↦ rw (seen, clean.1) (div-zero errors.count)
        | inr none_seen ↦ rw none_seen refl
      ];
      no_ops = rw mode refl;
    }

-- The lanes of an experiment with the exact scheduler.
record IsTwin (s : Lanes) : Type 0 where
  same : s.approx_rq ≡ s.exact_rq
  mode : s.exact_rq.approx_mode ≡ pos 0
  sized : IsSized s.exact_rq
  spotless : All IsSpotless s.entries

lockstep-IsTwin : (s : Lanes) → IsTwin s → IsTwin (lockstep (pos 0) s)
unfolding lockstep tick_of
lockstep-IsTwin s h =
    let q : CfsRq = exact_tick s.exact_rq in
    let served = exact_tick-IsServed s.exact_rq h.sized in
    let moved : exact_tick s.approx_rq ≡ q = ap exact_tick h.same in
    record {
      same = moved;
      mode = served.mode ∙ h.mode;
      sized = served.sized;
      spotless =
          All-append IsSpotless s.entries (metrics_record (exact_tick s.approx_rq) q) h.spotless (
            subst (λ r. IsSpotless (metrics_record r q)) (sym moved)
              (metrics_record_self q (served.mode ∙ h.mode)));
    }

run_ticks-IsTwin : (ticks : ℕ) (s : Lanes) → IsTwin s → IsTwin (run_ticks ticks (pos 0) s)
unfolding run_ticks
run_ticks-IsTwin zero s h = h
run_ticks-IsTwin (suc ticks) s h = run_ticks-IsTwin ticks (lockstep (pos 0) s) (lockstep-IsTwin s h)

pub length-equal_tasks : (n i : ℕ) → length (equal_tasks n i) ≡ n
unfolding equal_tasks
length-equal_tasks zero i = refl
length-equal_tasks (suc n) i = ap suc (length-equal_tasks n (i + 1))

start_lanes-IsTwin : (n : ℕ) → IsTwin (start_lanes n (pos 0))
unfolding start_lanes rq_init
start_lanes-IsTwin n = record {
  same = refl;
  mode = refl;
  sized = ap pos (sym (length-equal_tasks n 0));
  spotless = tt;
}

abbrev IsNothing : Totals → Type 0
IsNothing s = (s.max_err ≡ pos 0) × (s.sum_err ≡ pos 0) × (s.total_ops ≡ 0)

totals_step-IsNothing :
    (m : Metrics) (s : Totals) → IsSpotless m → IsNothing s → IsNothing (totals_step m s)
unfolding totals_step
totals_step-IsNothing m s k h =
    (rw (k.no_max, h.0) refl, rw (k.no_avg, h.1) add-zero_zero, rw (k.no_ops, h.2) refl)

totals_loop-IsNothing :
    (ms : List Metrics) (s : Totals)
    → All IsSpotless ms
    → IsNothing s
    → IsNothing (totals_loop ms s)
unfolding totals_loop
totals_loop-IsNothing [] s k h = h
totals_loop-IsNothing (m ∷ ms) s k h =
    totals_loop-IsNothing ms (totals_step m s) k.1 (totals_step-IsNothing m s k.0 h)

-- An experiment with the exact scheduler, whose allocations succeed, reports no error and no saved
-- operation, for any number of tasks and of ticks.
pub run_experiment_exact :
    (n ticks : ℕ)
    → let r = run_experiment true n (pos 0) ticks in
      (r.max_error_pct ≡ pos 0) × (r.avg_error_pct ≡ pos 0) × (r.total_ops_saved ≡ 0)
unfolding run_experiment
run_experiment_exact n ticks =
    let s : Lanes = run_ticks ticks (pos 0) (start_lanes n (pos 0)) in
    let twin = run_ticks-IsTwin ticks (start_lanes n (pos 0)) (start_lanes-IsTwin n) in
    let (no_max, no_sum, no_ops) =
      totals_loop-IsNothing s.entries no_totals twin.spotless (refl, refl, refl) in
    (no_max, rw no_sum (div-zero ticks), no_ops)
