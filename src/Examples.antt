-- ===== src/Examples.antt =====
-- The theorems at concrete inputs: three tasks of apex-cfs/src with nice values 0, -5 and 5, and
-- single numbers.
mod Experiments
mod SelfTests
mod Outputs
use Prim.Native.Nat.{min}
use approximation_computing.Common.{
  ℕ, ◌+◌, ◌*◌, ◌/◌, ◌%◌, ◌^◌, ◌≤◌, ◌<◌, ◌≡◌, ◌≢◌, inl, inr, refl, arith, some, List, [], ◌∷◌, ℤ,
  pos, negsuc, pos_part, All,
}
use approximation_computing.Double.{one, decimal}
use approximation_computing.Run.{run}
use approximation_computing.Task.{
  CfsTask, CfsRq, visited, tick_ns, rq_init, y_n_inv, apaf_tight, apaf_loose, load_avg_max,
}
use approximation_computing.Ticks.{IsSized, IsServed, ServesOrIdles, apaf_delta, apaf_decay}
use approximation_computing.Ticks.Reachable.{
  Reachable, start, exact, bsa, apaf, created, IsValid, Reachable-IsValid,
}
use approximation_computing.Ticks.OnTime.{IsOnTime, Reachable-IsOnTime}
use approximation_computing.Ticks.Agree.{ticks_agree}
use approximation_computing.Ticks.Served.{runtimes}
use approximation_computing.Ticks.Rounds.{
  exact_tick-IsServed, bsa_tick-ServesOrIdles, clti_tick-ServesOrIdles,
  approximations-ServesOrIdles,
}
use approximation_computing.Exact.{
  exact_decay_load, exact_calc_delta_fair, exact_pick_next_task, exact_tick,
}
use approximation_computing.Exact.Pick.{IsChoice, exact_pick_next_task-IsChoice}
use approximation_computing.Exact.Delta.{exact_calc_delta_fair_bounds}
use approximation_computing.Bsa.{bsa_decay_load, bsa_nearest_pow2, bsa_vruntime_delta, bsa_tick}
use approximation_computing.Bsa.Pow2.{bsa_nearest_pow2-nearest, dist}
use approximation_computing.Bsa.Delta.{IsNear, bsa_vruntime_delta-IsNear}
use approximation_computing.Bsa.Decay.{after, bsa_decay_load-stuck}
use approximation_computing.Clti.{
  clti_decay_load, clti_decay_load, class_entry, clti_weight_to_class, clti_vruntime_delta,
  clti_decay_interpolate, clti_tick,
}
use approximation_computing.Clti.Classes.{
  IsNearest, clti_weight_to_class-IsNearest, clti_vruntime_delta-IsNear,
}
use approximation_computing.Clti.Interpolate.{clti_decay_interpolate-near, clti_decay_load-tail}
use approximation_computing.Apaf.{apaf_decay_load, apaf_vruntime_delta, apaf_tick}
use approximation_computing.Apaf.Decay.{apaf_decay_load-near, apaf_vruntime_delta-IsNear}
use approximation_computing.Fairness.{fairness_jain_index, fairness_apaf_next_state}
use approximation_computing.Fairness.Jain.{fairness_jain_index-exact, quotient}
use approximation_computing.Fairness.Controller.{next_state-settles}
use approximation_computing.Logic.{age_task}
use approximation_computing.Logic.Loads.{IsLoaded, age_task-exact}
use approximation_computing.Ticks.Loads.{exact_decay_load-IsDecay}
use approximation_computing.Metrics.{fresh, Summary, metrics_print_summary}
use approximation_computing.Metrics.Record.{IsCovered, metrics_print_summary-covers}

abbrev specs : List (ℤ × ℤ)
specs = (pos 0, pos 0) ∷ (pos 1, negsuc 4) ∷ (pos 2, pos 5) ∷ []

abbrev demo : CfsRq
demo = rq_init (created specs) (pos 3) (pos 3)

demo-IsSized : IsSized demo
unfolding run
demo-IsSized = refl

-- Three ticks of three schedulers, a task blocked in between.
abbrev busy : CfsRq
busy = apaf_tick (exact_tick (bsa_tick demo))

busy-Reachable : Reachable 3 busy
unfolding run
busy-Reachable = apaf (exact (bsa (start specs (pos 3))))

Reachable-IsValid_example : IsValid busy
Reachable-IsValid_example = Reachable-IsValid 3 busy busy-Reachable

Reachable-IsOnTime_example : IsOnTime 3 busy
Reachable-IsOnTime_example = Reachable-IsOnTime 3 busy busy-Reachable (omega arith)

ticks_agree_example :
    (runtimes (bsa_tick demo).tasks ≡ runtimes (exact_tick demo).tasks)
    × (runtimes (clti_tick demo).tasks ≡ runtimes (exact_tick demo).tasks)
    × (runtimes (apaf_tick demo).tasks ≡ runtimes (exact_tick demo).tasks)
ticks_agree_example = ticks_agree demo demo-IsSized

exact_tick_example : IsServed exact_calc_delta_fair exact_decay_load demo (exact_tick demo)
exact_tick_example = exact_tick-IsServed demo demo-IsSized

approximations_example :
    ServesOrIdles bsa_vruntime_delta bsa_decay_load demo (bsa_tick demo)
    × ServesOrIdles clti_vruntime_delta clti_decay_load demo (clti_tick demo)
    × ServesOrIdles (apaf_delta demo.apaf_state) (apaf_decay demo.apaf_state) demo (apaf_tick demo)
approximations_example = approximations-ServesOrIdles demo demo-IsSized

exact_pick_next_task_example : IsChoice (visited demo) (exact_pick_next_task demo)
exact_pick_next_task_example = exact_pick_next_task-IsChoice demo

exact_calc_delta_fair_bounds_example :
    let r = exact_calc_delta_fair 1000000 3121 in
    (r * 3121 ≤ 1000000 * 1024) × (1000000 * 2 ^ 32 < (r + 1) * 3121 * 2 ^ 22 + 1000000 * 3121)
exact_calc_delta_fair_bounds_example =
    exact_calc_delta_fair_bounds 1000000 3121 (omega arith) (omega arith)

bsa_nearest_pow2_example :
    let p = bsa_nearest_pow2 3121 in
    ((k : ℕ) × (p ≡ 2 ^ k) × (k ≤ 31))
    × ((j : ℕ) → dist 3121 p ≤ dist 3121 (2 ^ j))
    × (3 * p ≤ 4 * 3121)
    × (2 * 3121 ≤ 3 * p)
bsa_nearest_pow2_example = bsa_nearest_pow2-nearest 3121 (omega arith) (omega arith)

bsa_vruntime_delta_example : IsNear 975 1000000 3121 (bsa_vruntime_delta 1000000 3121)
bsa_vruntime_delta_example =
    bsa_vruntime_delta-IsNear 1000000 3121 (omega arith) (omega arith) (omega arith)

bsa_decay_load-stuck_example :
    (after exact_decay_load 100 31 ≡ 0) × (after bsa_decay_load 100 31 ≡ 31)
bsa_decay_load-stuck_example = bsa_decay_load-stuck 31 100 (omega arith) (omega arith)

clti_weight_to_class_example : IsNearest 14949 (clti_weight_to_class 14949)
clti_weight_to_class_example = clti_weight_to_class-IsNearest 14949 (omega arith)

clti_vruntime_delta_example :
    IsNear 975 1000000
      (class_entry (clti_weight_to_class 14949))
      (clti_vruntime_delta 1000000 14949)
clti_vruntime_delta_example = clti_vruntime_delta-IsNear 1000000 14949 (omega arith) (omega arith)

clti_decay_interpolate-near_example :
    let r = clti_decay_interpolate 100000 6 in
    (1000 * (r * 2 ^ 32) ≤ 1001 * (100000 * y_n_inv 6) + 2000 * 2 ^ 32)
    × (999 * (100000 * y_n_inv 6) ≤ 1000 * ((r + 1) * 2 ^ 32))
clti_decay_interpolate-near_example =
    clti_decay_interpolate-near 100000 6 (omega arith) (omega arith)

clti_decay_load-tail_example :
    let r = clti_decay_load 100000 31 in
    (51 * (100000 * y_n_inv 31) ≤ 100 * ((r + 2) * 2 ^ 32))
    × (100 * (r * 2 ^ 32) ≤ 54 * (100000 * y_n_inv 31))
    × (r < clti_decay_load 100000 32)
clti_decay_load-tail_example =
    clti_decay_load-tail 100000 31 (omega arith) (omega arith) (omega arith) (omega arith)

apaf_decay_load_example :
    let r = apaf_decay_load 100000 38 apaf_loose in
    (10000 * (50000 * y_n_inv 6) ≤ 10000 * ((r + 1) * 2 ^ 32))
    × (10000 * (r * 2 ^ 32) ≤ 10304 * (50000 * y_n_inv 6) + 20000 * 2 ^ 32)
apaf_decay_load_example =
    apaf_decay_load-near 100000 38 apaf_loose (inr (inr refl)) (omega arith) (omega arith)
      (omega arith)

apaf_vruntime_delta_example : IsNear 999 1000000 3121 (apaf_vruntime_delta 1000000 3121 apaf_tight)
apaf_vruntime_delta_example =
    apaf_vruntime_delta-IsNear 1000000 3121 apaf_tight (inl refl) (omega arith) (omega arith)
      (omega arith)

-- Two tasks that have run for two and for one tick.
abbrev ran : ℕ → ℕ → CfsTask
ran i n = record {
  id = pos i;
  nice = pos 0;
  weight = 1024;
  vruntime = 0;
  load_avg = 0;
  load_sum = 0;
  exec_runtime = n * tick_ns;
  runnable = pos 1;
}

abbrev two : ℕ → ℕ → CfsRq
two m n = rq_init (ran 0 m ∷ ran 1 n ∷ []) (pos 2) (pos 0)

fairness_jain_index-exact_example :
    (fairness_jain_index (two 2 1) ≡ quotient (9 * 10 ^ 12) (2 * (5 * 10 ^ 12)))
    × (pos_part (quotient (9 * 10 ^ 12) (2 * (5 * 10 ^ 12))) ≤ one)
unfolding rq_init
fairness_jain_index-exact_example =
    fairness_jain_index-exact (two 2 1) refl (omega arith) (omega arith) (omega arith)

next_state-settles_example :
    let next = λ (q : ℤ). fairness_apaf_next_state q (decimal 98 2) in
    next (next (next apaf_tight)) ≡ next (next apaf_tight)
next_state-settles_example = next_state-settles apaf_tight (decimal 98 2)
