-- ===== src/Bsa.antt =====
-- apex-cfs/src/approx_bsa.h and apex-cfs/src/approx_bsa.c: Logic 1, shifts and a Newton step.
pub mod Pow2
pub mod Newton
pub mod Delta
pub mod Decay
use approximation_computing.Common.{
  ℕ, zero, suc, ◌+◌, ◌-◌, ◌*◌, ◌/◌, ◌%◌, ◌^◌, not, ◌&&◌, Option, none, some, ltb, leb, ◌==◌,
  if◌then◌else◌, ℤ, pos, pos_part,
}
use approximation_computing.Words.{u64, u32, sub64, sub32, shr}
use approximation_computing.Task.{CfsRq, nice_0_load, load_avg_period, wmult_shift, rq_tick}
use approximation_computing.Logic.{update_curr, update_load_avg, for_tasks, finish_tick}
use approximation_computing.Exact.{
  pelt_max_periods, wmult_const, exact_mul_u64_u32_shr, exact_pick_next_task,
}

abbrev pub bsa_decay_shift : ℕ
bsa_decay_shift = 5

abbrev pub bsa_newton_iters : ℕ
bsa_newton_iters = 1

-- `while ((floor_pow2 << 1) != 0 && (floor_pow2 << 1) <= weight)`, on fuel.
unfoldable pub floor_loop : ℕ → ℕ → ℕ → ℕ
floor_loop zero weight floor_pow2 = floor_pow2
floor_loop (suc fuel) weight floor_pow2 =
    let next = u32 (floor_pow2 * 2) in
    let rest = floor_loop fuel weight next in
    if not (next == 0) && leb next weight then rest else floor_pow2

-- A u32 is doubled at most 31 times before it wraps to 0.
unfoldable pub bsa_nearest_pow2 : ℕ → ℕ
bsa_nearest_pow2 weight =
    let floor_pow2 = floor_loop 32 weight 1 in
    let ceil_pow2 = u32 (floor_pow2 * 2) in
    let dist_floor = sub32 weight floor_pow2 in
    let dist_ceil = sub32 ceil_pow2 weight in
    if weight == 0
    then 1
    else if floor_pow2 == weight
    then weight
    else if ceil_pow2 == 0
    then floor_pow2
    else if leb dist_floor dist_ceil
    then floor_pow2
    else ceil_pow2

-- The loop `for (i = 0; i < iterations; i++)`, with the rounds left.
unfoldable pub newton_loop : ℕ → ℕ → ℕ → ℕ
newton_loop zero weight x = x
newton_loop (suc rounds) weight x =
    let wx = u64 (weight * x) in
    let two_minus_wx = sub64 (2 * 2 ^ 32) wx in
    let rest = newton_loop rounds weight (u64 (shr (x * two_minus_wx) 32)) in
    if leb (2 * 2 ^ 32) wx then x else rest

-- The affine warm start, before the loop.
unfoldable pub warm_start : ℕ → ℕ → ℕ
warm_start weight p2 =
    let x = wmult_const / p2 in
    let m_q32 = u64 (weight * 2 ^ 32) / p2 in
    let affine_q32 = sub64 (3 * 2 ^ 31) (shr m_q32 1) in u64 (shr (x * affine_q32) 32)

unfoldable pub bsa_newton_reciprocal : ℕ → ℕ → ℕ
bsa_newton_reciprocal weight iterations =
    if weight == 0
    then wmult_const
    else newton_loop iterations weight (warm_start weight (bsa_nearest_pow2 weight))

-- `for (i = 0; i < local_n; i++) load = load - (load >> 5)`, with the rounds left.
unfoldable pub bsa_decay_loop : ℕ → ℕ → ℕ
bsa_decay_loop zero load = load
bsa_decay_loop (suc rounds) load = bsa_decay_loop rounds (load - shr load bsa_decay_shift)

unfoldable pub bsa_decay_load : ℕ → ℕ → ℕ
bsa_decay_load load periods =
    let coarse = periods / load_avg_period in
    let local_n = periods % load_avg_period in
    if periods == 0
    then load
    else if leb (pelt_max_periods * load_avg_period) periods
    then 0
    else bsa_decay_loop local_n (shr load coarse)

unfoldable pub bsa_vruntime_delta : ℕ → ℕ → ℕ
bsa_vruntime_delta delta_exec weight =
    let inv_w = bsa_newton_reciprocal weight bsa_newton_iters in
    if weight == nice_0_load
    then delta_exec
    else if weight == 0
    then 0
    else exact_mul_u64_u32_shr delta_exec (u32 inv_w) (wmult_shift - 10)

unfoldable pub bsa_update_curr : CfsRq → ℤ → CfsRq
bsa_update_curr rq task_idx = update_curr bsa_vruntime_delta rq task_idx

unfoldable pub bsa_update_load_avg : CfsRq → ℤ → CfsRq
bsa_update_load_avg rq task_idx = update_load_avg bsa_decay_load rq task_idx

unfoldable pub bsa_pick_next_task : CfsRq → Option ℕ
bsa_pick_next_task rq = exact_pick_next_task rq

unfoldable pub bsa_tick : CfsRq → CfsRq
bsa_tick rq =
    let ticked = rq_tick rq in
    elim (bsa_pick_next_task ticked) [
      | none ↦ ticked
      | some next ↦
          let run = bsa_update_curr ticked (pos next) in
          finish_tick (for_tasks bsa_update_load_avg (pos_part run.nr_tasks) 0 run)
    ]
