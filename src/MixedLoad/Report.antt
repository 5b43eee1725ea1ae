-- ===== src/MixedLoad/Report.antt =====
-- apex-cfs/experiments/exp2_mixed_load.c: `run_exp2` and what it reports.
use approximation_computing.Common.{
  ℕ, Bool, true, false, not, List, [], ◌∷◌, if◌then◌else◌, ℤ, pos, ◌≤◌, arith,
}
use approximation_computing.Double.{Double, of_nat, div}
use approximation_computing.Task.{CfsTask}
use approximation_computing.Experiment.{totals_loop, no_totals}
use approximation_computing.MixedLoad.{
  mixed_loop, start_mixed, n_batch, batch_sums, batch_avg_jain, interactive_cpu_share,
  avg_wait_ticks,
}
use approximation_computing.MixedLoad.Waiting.{mixed_loop-max_wait}

-- `exp2_result_t`.
pub record MixedResult : Type 0 where
  pub logic : ℤ
  pub ticks : ℕ
  pub interactive_exec_runtime : ℕ
  pub interactive_cpu_share : Double
  pub max_wait_ticks : ℕ
  pub avg_wait_ticks : Double
  pub total_wait_events : ℕ
  pub batch_avg_jain : Double
  pub batch_throughput : Double
  pub final_jain : Double
  pub max_error_pct : Double
  pub avg_error_pct : Double
  pub total_ops_saved : ℕ
  pub final_apaf_state : ℤ

-- What `memset` and the two assignments below it leave where an allocation fails.
unfoldable pub empty_mixed_result : ℤ → ℕ → MixedResult
empty_mixed_result logic ticks = record {
  logic = logic;
  ticks = ticks;
  interactive_exec_runtime = 0;
  interactive_cpu_share = pos 0;
  max_wait_ticks = 0;
  avg_wait_ticks = pos 0;
  total_wait_events = 0;
  batch_avg_jain = pos 0;
  batch_throughput = pos 0;
  final_jain = pos 0;
  max_error_pct = pos 0;
  avg_error_pct = pos 0;
  total_ops_saved = 0;
  final_apaf_state = pos 0;
}

abbrev pub first_runtime : List CfsTask → ℕ
first_runtime [] = 0
first_runtime (t ∷ ts) = t.exec_runtime

abbrev pub batch_of : List CfsTask → List CfsTask
batch_of [] = []
batch_of (t ∷ ts) = ts

-- `allocated` says whether the three calls of malloc succeed; the count of ticks is positive in every
-- call. The loop over the entries sums what that of experiment 1 sums, less the index.
unfoldable pub run_exp2 : Bool → ℤ → ℕ → MixedResult
run_exp2 allocated logic ticks =
    let done = mixed_loop ticks logic 0 (start_mixed logic) in
    let tasks = done.approx_rq.tasks in
    let t = totals_loop done.entries no_totals in
    if not allocated then empty_mixed_result logic ticks else record {
      logic = logic;
      ticks = ticks;
      interactive_exec_runtime = first_runtime tasks;
      interactive_cpu_share = interactive_cpu_share tasks;
      max_wait_ticks = done.waits.max_wait;
      avg_wait_ticks = avg_wait_ticks done.waits;
      total_wait_events = done.waits.wait_events;
      batch_avg_jain = batch_avg_jain (batch_of tasks);
      batch_throughput = div (batch_sums (batch_of tasks) (pos 0) (pos 0)).0 (of_nat n_batch);
      final_jain = done.approx_rq.jain_index;
      max_error_pct = t.max_err;
      avg_error_pct = div t.sum_err (of_nat ticks);
      total_ops_saved = t.total_ops;
      final_apaf_state = done.approx_rq.apaf_state;
    }

-- Under every scheduler and for any number of ticks, the longest wait of the interactive task that the
-- experiment reports is at most 5 ticks, the length of the running half of its cycle.
pub run_exp2-max_wait :
    (allocated : Bool) (logic : ℤ) (ticks : ℕ) → (run_exp2 allocated logic ticks).max_wait_ticks ≤ 5
unfolding run_exp2 empty_mixed_result
run_exp2-max_wait true logic ticks = mixed_loop-max_wait ticks logic
run_exp2-max_wait false logic ticks = omega arith
