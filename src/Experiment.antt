-- ===== src/Experiment.antt =====
-- apex-cfs/experiments/exp1_equal_weight.c: equal tasks under the exact scheduler and under one of the
-- four, tick by tick side by side. The file that it writes is the value of metrics_write_csv.
pub mod Lockstep
pub mod NoError
pub mod Serves
pub mod Busy
pub mod Fair
pub mod Saved
pub mod Jain
pub mod Main
pub mod Csv
pub mod LoadError
use approximation_computing.Common.{
  ℕ, zero, suc, ◌+◌, Bool, not, List, [], ◌∷◌, ◌++◌, ltb, if◌then◌else◌, ℤ, pos, ◌==ℤ◌, get_or,
  length, map,
}
use approximation_computing.Words.{u64}
use approximation_computing.Double.{Double, one, of_nat, add, div, lt}
use approximation_computing.Task.{CfsTask, CfsRq, task_create, rq_init}
use approximation_computing.Exact.{exact_tick}
use approximation_computing.Bsa.{bsa_tick}
use approximation_computing.Clti.{clti_tick}
use approximation_computing.Apaf.{apaf_tick}
use approximation_computing.Metrics.{Metrics, metrics_record}

-- The `switch (logic)` of the loop.
unfoldable pub tick_of : ℤ → CfsRq → CfsRq
tick_of logic rq =
    if logic ==ℤ pos 0
    then exact_tick rq
    else if logic ==ℤ pos 1
    then bsa_tick rq
    else if logic ==ℤ pos 2
    then clti_tick rq
    else if logic ==ℤ pos 3
    then apaf_tick rq
    else exact_tick rq

-- The two runqueues, and the entries recorded so far.
pub record Lanes : Type 0 where
  pub exact_rq : CfsRq
  pub approx_rq : CfsRq
  pub entries : List Metrics

-- One round of the loop over the ticks.
unfoldable pub lockstep : ℤ → Lanes → Lanes
lockstep logic s =
    let exact_rq = exact_tick s.exact_rq in
    let approx_rq = tick_of logic s.approx_rq in
    record {
      exact_rq = exact_rq;
      approx_rq = approx_rq;
      entries = s.entries ++ metrics_record approx_rq exact_rq ∷ [];
    }

unfoldable pub run_ticks : ℕ → ℤ → Lanes → Lanes
run_ticks zero logic s = s
run_ticks (suc ticks) logic s = run_ticks ticks logic (lockstep logic s)

-- `n` tasks of nice value 0, with ids from `i` on.
unfoldable pub equal_tasks : ℕ → ℕ → List CfsTask
equal_tasks zero i = []
equal_tasks (suc n) i = task_create (pos i) (pos 0) ∷ equal_tasks n (i + 1)

unfoldable pub start_lanes : ℕ → ℤ → Lanes
start_lanes n_tasks logic =
    let tasks = equal_tasks n_tasks 0 in
    record {
      exact_rq = rq_init tasks (pos n_tasks) (pos 0);
      approx_rq = rq_init tasks (pos n_tasks) logic;
      entries = [];
    }

-- The running values of the loop over the entries.
pub record Totals : Type 0 where
  pub sum_jain : Double
  pub min_jain : Double
  pub max_err : Double
  pub sum_err : Double
  pub total_ops : ℕ

abbrev pub no_totals : Totals
no_totals = record {
  sum_jain = pos 0;
  min_jain = pos one;
  max_err = pos 0;
  sum_err = pos 0;
  total_ops = 0;
}

unfoldable pub totals_step : Metrics → Totals → Totals
totals_step m s = record {
  sum_jain = add s.sum_jain m.jain_index;
  min_jain = if lt m.jain_index s.min_jain then m.jain_index else s.min_jain;
  max_err = if lt s.max_err m.max_error_pct then m.max_error_pct else s.max_err;
  sum_err = add s.sum_err m.avg_error_pct;
  total_ops = u64 (s.total_ops + m.ops_saved);
}

unfoldable pub totals_loop : List Metrics → Totals → Totals
totals_loop [] s = s
totals_loop (m ∷ ms) s = totals_loop ms (totals_step m s)

-- `exp1_result_t`.
pub record Result : Type 0 where
  pub n_tasks : ℕ
  pub logic : ℤ
  pub ticks : ℕ
  pub final_jain : Double
  pub min_jain : Double
  pub avg_jain : Double
  pub max_error_pct : Double
  pub avg_error_pct : Double
  pub total_ops_saved : ℕ
  pub final_apaf_state : ℤ
  pub final_load_avg : ℕ

-- What `memset` and the three assignments below it leave where an allocation fails.
unfoldable pub empty_result : ℕ → ℤ → ℕ → Result
empty_result n_tasks logic ticks = record {
  n_tasks = n_tasks;
  logic = logic;
  ticks = ticks;
  final_jain = pos 0;
  min_jain = pos 0;
  avg_jain = pos 0;
  max_error_pct = pos 0;
  avg_error_pct = pos 0;
  total_ops_saved = 0;
  final_apaf_state = pos 0;
  final_load_avg = 0;
}

-- `allocated` says whether the three calls of malloc succeed. The counts of tasks and of ticks are
-- positive in every call.
unfoldable pub run_experiment : Bool → ℕ → ℤ → ℕ → Result
run_experiment allocated n_tasks logic ticks =
    let done = run_ticks ticks logic (start_lanes n_tasks logic) in
    let t = totals_loop done.entries no_totals in
    if not allocated then empty_result n_tasks logic ticks else record {
      n_tasks = n_tasks;
      logic = logic;
      ticks = ticks;
      final_jain = done.approx_rq.jain_index;
      min_jain = t.min_jain;
      avg_jain = div t.sum_jain (of_nat ticks);
      max_error_pct = t.max_err;
      avg_error_pct = div t.sum_err (of_nat ticks);
      total_ops_saved = t.total_ops;
      final_apaf_state = done.approx_rq.apaf_state;
      final_load_avg = get_or (map (λ u. u.load_avg) done.approx_rq.tasks) 0 0;
    }
