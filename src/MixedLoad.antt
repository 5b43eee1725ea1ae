-- ===== src/MixedLoad.antt =====
-- apex-cfs/experiments/exp2_mixed_load.c: one interactive task that runs for 5 ticks of every 10 beside
-- 10 batch tasks, under the exact scheduler and under one of the four. The arrays of tasks are those of
-- the runqueues. The file that it writes is the value of metrics_write_csv.
pub mod Waiting
pub mod Report
pub mod Turns
pub mod Share
pub mod Lanes
pub mod Main
use approximation_computing.Common.{
  ℕ, zero, suc, ◌+◌, ◌*◌, ◌%◌, ◌-◌, ◌^◌, Bool, true, false, not, ◌&&◌, Option, none, some, List, [],
  ◌∷◌, ◌++◌, ltb, ◌==◌, if◌then◌else◌, ℤ, pos, negsuc, ◌==ℤ◌, modify, leb,
}
use approximation_computing.Words.{u64}
use approximation_computing.Double.{Double, one, of_nat, add, mul, div, lt}
use approximation_computing.Task.{
  CfsTask, CfsRq, is_running, task_create, task_set_runnable, rq_init, rq_count_running,
}
use approximation_computing.Exact.{exact_tick}
use approximation_computing.Metrics.{Metrics, metrics_record}
use approximation_computing.Experiment.{tick_of}

abbrev pub n_batch : ℕ
n_batch = 10

abbrev pub n_total : ℕ
n_total = 11

abbrev pub interactive_nice : ℤ
interactive_nice = negsuc 9

abbrev pub batch_nice : ℤ
batch_nice = pos 0

abbrev pub interactive_on : ℕ
interactive_on = 5

abbrev pub interactive_off : ℕ
interactive_off = 5

-- The counters of the waiting interactive task.
pub record Waits : Type 0 where
  pub max_wait : ℕ
  pub sum_wait : ℕ
  pub wait_events : ℕ
  pub current_wait : ℕ
  pub was_blocked : ℕ

-- The first half of a round: the interactive task is woken or blocked.
unfoldable pub begin_wait : ℕ → Waits → Waits
begin_wait cycle_pos w =
    if ltb cycle_pos interactive_on
    then (if w.was_blocked == 1 then record w { current_wait = 0; was_blocked = 0 } else w)
    else record w { current_wait = 0; was_blocked = 1 }

-- The loop over the tasks: the first running task of least vruntime below UINT64_MAX.
unfoldable pub least_loop : List CfsTask → ℕ → ℕ → Option ℕ → Option ℕ
least_loop [] j min_vrt min_idx = min_idx
least_loop (t ∷ ts) j min_vrt min_idx =
    let better = is_running t && ltb t.vruntime min_vrt in
    least_loop ts (j + 1) (if better then t.vruntime else min_vrt)
      (if better then some j else min_idx)

abbrev pub is_interactive : Option ℕ → Bool
is_interactive none = false
is_interactive (some j) = j == 0

-- The second half: after the tick, does the interactive task wait?
unfoldable pub end_wait : List CfsTask → Waits → Waits
end_wait [] w = w
end_wait (t ∷ ts) w =
    let min_idx = least_loop (t ∷ ts) 0 (2 ^ 64 - 1) none in
    let longer = u64 (w.current_wait + 1) in
    if not (is_running t)
    then w
    else if not (is_interactive min_idx)
    then record w {
      current_wait = longer;
      max_wait = if ltb w.max_wait longer then longer else w.max_wait;
    }
    else if ltb 0 w.current_wait
    then record w {
      sum_wait = u64 (w.sum_wait + w.current_wait);
      wait_events = w.wait_events + 1;
      current_wait = 0;
    }
    else record w { current_wait = 0 }

unfoldable pub set_interactive : ℤ → CfsRq → CfsRq
set_interactive runnable rq = record rq {
  tasks = modify rq.tasks 0 (λ t. task_set_runnable t runnable);
}

-- The two runqueues, the entries recorded so far, and the counters.
pub record Mixed : Type 0 where
  pub exact_rq : CfsRq
  pub approx_rq : CfsRq
  pub entries : List Metrics
  pub waits : Waits

-- Round `i` of the loop over the ticks.
unfoldable pub mixed_step : ℤ → ℕ → Mixed → Mixed
mixed_step logic i s =
    let cycle_pos = i % (interactive_on + interactive_off) in
    let runnable = if ltb cycle_pos interactive_on then pos 1 else pos 0 in
    let exact_rq = exact_tick (set_interactive runnable s.exact_rq) in
    let approx_rq = tick_of logic (set_interactive runnable s.approx_rq) in
    record {
      exact_rq = (rq_count_running exact_rq).0;
      approx_rq = (rq_count_running approx_rq).0;
      entries = s.entries ++ metrics_record approx_rq exact_rq ∷ [];
      waits = end_wait approx_rq.tasks (begin_wait cycle_pos s.waits);
    }

-- The loop from round `i` on, with the rounds left.
unfoldable pub mixed_loop : ℕ → ℤ → ℕ → Mixed → Mixed
mixed_loop zero logic i s = s
mixed_loop (suc rounds) logic i s = mixed_loop rounds logic (i + 1) (mixed_step logic i s)

unfoldable pub batch_tasks : ℕ → ℕ → List CfsTask
batch_tasks zero i = []
batch_tasks (suc n) i = task_create (pos i) batch_nice ∷ batch_tasks n (i + 1)

abbrev pub no_waits : Waits
no_waits = record { max_wait = 0; sum_wait = 0; wait_events = 0; current_wait = 0; was_blocked = 1 }

unfoldable pub start_mixed : ℤ → Mixed
start_mixed logic =
    let tasks = task_create (pos 0) interactive_nice ∷ batch_tasks n_batch 1 in
    record {
      exact_rq = rq_init tasks (pos n_total) (pos 0);
      approx_rq = rq_init tasks (pos n_total) logic;
      entries = [];
      waits = no_waits;
    }

-- `b_sum` and `b_sq`, over the batch tasks.
unfoldable pub batch_sums : List CfsTask → Double → Double → Double × Double
batch_sums [] b_sum b_sq = (b_sum, b_sq)
batch_sums (t ∷ ts) b_sum b_sq =
    let rt = of_nat t.exec_runtime in batch_sums ts (add b_sum rt) (add b_sq (mul rt rt))

unfoldable pub batch_avg_jain : List CfsTask → Double
batch_avg_jain tasks =
    let sums = batch_sums tasks (pos 0) (pos 0) in
    if lt (pos 0) sums.1 then div (mul sums.0 sums.0) (mul (of_nat n_batch) sums.1) else pos one

unfoldable pub runtime_loop : List CfsTask → ℕ → ℕ
runtime_loop [] total_rt = total_rt
runtime_loop (t ∷ ts) total_rt = runtime_loop ts (u64 (total_rt + t.exec_runtime))

-- The share of the first task.
unfoldable pub interactive_cpu_share : List CfsTask → Double
interactive_cpu_share [] = pos 0
interactive_cpu_share (t ∷ ts) =
    let total_rt = runtime_loop (t ∷ ts) 0 in
    if ltb 0 total_rt then div (of_nat t.exec_runtime) (of_nat total_rt) else pos 0

unfoldable pub avg_wait_ticks : Waits → Double
avg_wait_ticks w =
    if ltb 0 w.wait_events then div (of_nat w.sum_wait) (of_nat w.wait_events) else pos 0
