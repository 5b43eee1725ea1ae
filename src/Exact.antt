-- ===== src/Exact.antt =====
-- apex-cfs/src/cfs_exact.h and apex-cfs/src/cfs_exact.c: the exact scheduler.
pub mod Decay
pub mod Ideal
pub mod Delta
pub mod Pick
use approximation_computing.Common.{
  ℕ, suc, ◌+◌, ◌-◌, ◌*◌, ◌/◌, ◌%◌, ◌^◌, Bool, true, false, ◌&&◌, ◌||◌, Option, none, some, List, [],
  ◌∷◌, ltb, leb, ◌==◌, if◌then◌else◌, ℤ, pos, pos_part,
}
use approximation_computing.Words.{u64, u32, shr}
use approximation_computing.Task.{
  CfsTask, CfsRq, is_running, has_no_tasks, visited, nice_0_load, load_avg_period, load_avg_max,
  tick_ns, wmult_shift, y_n_inv, rq_tick, rq_count_running,
}
use approximation_computing.Fairness.{fairness_jain_index}
use approximation_computing.Logic.{update_curr, update_load_avg, for_tasks, finish_tick}

abbrev pub pelt_shift : ℕ
pelt_shift = 32

abbrev pub pelt_max_periods : ℕ
pelt_max_periods = 63

abbrev pub wmult_const : ℕ
wmult_const = 2 ^ wmult_shift

-- The product of a u64 and a u32 fits the 128-bit intermediate.
unfoldable pub exact_mul_u64_u32_shr : ℕ → ℕ → ℕ → ℕ
exact_mul_u64_u32_shr a b shift = u64 (shr (a * b) shift)

-- `periods` is an `int` that no caller makes negative.
unfoldable pub exact_decay_load : ℕ → ℕ → ℕ
exact_decay_load load periods =
    let coarse = periods / load_avg_period in
    let local_n = periods % load_avg_period in
    let shifted = shr load coarse in
    if periods == 0
    then load
    else if leb (pelt_max_periods * load_avg_period) periods
    then 0
    else if ltb 0 local_n
    then exact_mul_u64_u32_shr shifted (y_n_inv local_n) pelt_shift
    else shifted

unfoldable pub exact_calc_delta_fair : ℕ → ℕ → ℕ
exact_calc_delta_fair delta_exec weight =
    let scaled = ltb (2 ^ 32 - 1) delta_exec in
    let delta = if scaled then shr delta_exec 1 else delta_exec in
    let inv_weight = wmult_const / weight in
    let result = exact_mul_u64_u32_shr delta (u32 inv_weight) (wmult_shift - 10) in
    if weight == nice_0_load
    then delta_exec
    else if weight == 0
    then 0
    else if scaled
    then u64 (result * 2)
    else result

unfoldable pub exact_update_curr : CfsRq → ℤ → CfsRq
exact_update_curr rq task_idx = update_curr exact_calc_delta_fair rq task_idx

unfoldable pub exact_update_load_avg : CfsRq → ℤ → CfsRq
exact_update_load_avg rq task_idx = update_load_avg exact_decay_load rq task_idx

abbrev pub is_unset : Option ℕ → Bool
is_unset none = true
is_unset (some _) = false

-- The loop of `exact_pick_next_task` from index `i` on: `none` is -1.
unfoldable pub pick_loop : List CfsTask → ℕ → Option ℕ → ℕ → Option ℕ
pick_loop [] i min_idx min_vruntime = min_idx
pick_loop (t ∷ ts) i min_idx min_vruntime =
    let better = is_running t && (is_unset min_idx || ltb t.vruntime min_vruntime) in
    pick_loop ts (i + 1) (if better then some i else min_idx)
      (if better then t.vruntime else min_vruntime)

unfoldable pub exact_pick_next_task : CfsRq → Option ℕ
exact_pick_next_task rq = if has_no_tasks rq then none else pick_loop (visited rq) 0 none 0

unfoldable pub exact_tick : CfsRq → CfsRq
exact_tick rq =
    let ticked = rq_tick rq in
    let run : CfsRq = elim (exact_pick_next_task ticked) [
      | none ↦ ticked
      | some next ↦ exact_update_curr ticked (pos next)
    ] in
    finish_tick (for_tasks exact_update_load_avg (pos_part run.nr_tasks) 0 run)
