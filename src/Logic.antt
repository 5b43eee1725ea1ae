-- ===== src/Logic.antt =====
-- What the four schedulers of apex-cfs/src share. `exact_update_curr` and its copies in
-- approx_bsa.c, approx_clti.c and approx_apaf.c differ only in the function that scales the runtime,
-- and `exact_update_load_avg` and its copies only in the function that decays the load. Both are
-- parameters here, and the laws that the load averages need of a decay are a record.
pub mod Loads
pub mod Loop
use approximation_computing.Common.{
  ℕ, zero, suc, ◌+◌, ◌*◌, ◌/◌, ◌%◌, ◌≤◌, ◌||◌, ltb, leb, if◌then◌else◌, ℤ, pos, pos_part, neg_part,
  ltb_ℤ, ◌==ℤ◌, length, modify,
}
use approximation_computing.Words.{u64, u32}
use approximation_computing.Task.{
  CfsTask, CfsRq, is_running, load_avg_max, tick_ns, rq_count_running,
}
use approximation_computing.Fairness.{fairness_jain_index}

-- The body of `*_update_curr` for the task at the index.
unfoldable pub run_task : (ℕ → ℕ → ℕ) → CfsTask → CfsTask
run_task vruntime_delta t = if t.runnable ==ℤ pos 0 then t else record t {
  exec_runtime = u64 (t.exec_runtime + tick_ns);
  vruntime = u64 (t.vruntime + vruntime_delta tick_ns (u32 t.weight));
}

-- The body of `*_update_load_avg` for the task at the index.
unfoldable pub age_task : (ℕ → ℕ → ℕ) → CfsTask → CfsTask
age_task decay_load t =
    let decayed = decay_load t.load_sum 1 in
    let load_sum = if is_running t then u64 (decayed + t.weight) else decayed in
    let load_avg = u64 (t.weight * load_sum) / load_avg_max in
    record t {
      load_sum = load_sum;
      load_avg = if ltb t.weight load_avg then t.weight else load_avg;
    }

-- The guards of both: a NULL array, and an index out of range.
abbrev pub at_task : (CfsTask → CfsTask) → CfsRq → ℤ → CfsRq
at_task f rq task_idx =
    if leb (length rq.tasks) 0
      || (ltb_ℤ task_idx (pos 0) || leb (pos_part rq.nr_tasks) (pos_part task_idx))
    then rq
    else record rq { tasks = modify rq.tasks (pos_part task_idx) f }

unfoldable pub update_curr : (ℕ → ℕ → ℕ) → CfsRq → ℤ → CfsRq
update_curr vruntime_delta = at_task (run_task vruntime_delta)

unfoldable pub update_load_avg : (ℕ → ℕ → ℕ) → CfsRq → ℤ → CfsRq
update_load_avg decay_load = at_task (age_task decay_load)

-- `for (i = 0; i < rq->nr_tasks; i++) update(rq, i)`, with `n` rounds left.
unfoldable pub for_tasks : (CfsRq → ℤ → CfsRq) → ℕ → ℕ → CfsRq → CfsRq
for_tasks update zero i rq = rq
for_tasks update (suc n) i rq = for_tasks update n (i + 1) (update rq (pos i))

-- The end of every tick: the fairness index, then the number of running tasks.
unfoldable pub finish_tick : CfsRq → CfsRq
finish_tick rq = (rq_count_running (record rq { jain_index = fairness_jain_index rq })).0
