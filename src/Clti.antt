-- ===== src/Clti.antt =====
-- apex-cfs/src/approx_clti.h and apex-cfs/src/approx_clti.c: Logic 2, a table of eight decay factors
-- with interpolation, and eight weight classes.
pub mod Classes
pub mod Interpolate
use approximation_computing.Common.{
  ℕ, suc, ◌+◌, ◌-◌, ◌*◌, ◌/◌, ◌%◌, Option, none, some, List, [], ◌∷◌, ltb, leb, ◌==◌, if◌then◌else◌,
  ℤ, pos, pos_part, get_or,
}
use approximation_computing.Words.{u32, u64, sub64, sub32, shr}
use approximation_computing.Task.{CfsRq, nice_0_load, load_avg_period, wmult_shift, rq_tick}
use approximation_computing.Logic.{update_curr, update_load_avg, for_tasks, finish_tick}
use approximation_computing.Exact.{pelt_max_periods, exact_mul_u64_u32_shr, exact_pick_next_task}
use approximation_computing.Bsa.{bsa_newton_reciprocal}

abbrev pub clti_table_size : ℕ
clti_table_size = 8

abbrev pub clti_table_step : ℕ
clti_table_step = 4

abbrev pub clti_shift : ℕ
clti_shift = 15

abbrev pub clti_decay_table : List ℕ
clti_decay_table = 32768 ∷ 30048 ∷ 27554 ∷ 25268 ∷ 23170 ∷ 21247 ∷ 19484 ∷ 17867 ∷ []

-- `clti_decay_table[idx]` and `clti_weight_class[cls]`.
unfoldable pub decay_entry : ℕ → ℕ
decay_entry idx = get_or clti_decay_table idx 0

abbrev pub clti_weight_class : List ℕ
clti_weight_class = 65536 ∷ 16384 ∷ 4096 ∷ 2048 ∷ 1024 ∷ 256 ∷ 64 ∷ 16 ∷ []

unfoldable pub class_entry : ℕ → ℕ
class_entry cls = get_or clti_weight_class cls 0

-- The distance of a weight to a class representative.
unfoldable pub class_diff : ℕ → ℕ → ℕ
class_diff weight rep = if ltb rep weight then sub32 weight rep else sub32 rep weight

-- The loop over the classes `reps` from index `i` on.
unfoldable pub class_loop : ℕ → List ℕ → ℕ → ℕ → ℕ → ℕ
class_loop weight [] i best best_diff = best
class_loop weight (rep ∷ reps) i best best_diff =
    let diff = class_diff weight rep in
    let closer = ltb diff best_diff in
    class_loop weight reps (i + 1) (if closer then i else best) (if closer then diff else best_diff)

abbrev pub later_classes : List ℕ
later_classes = 16384 ∷ 4096 ∷ 2048 ∷ 1024 ∷ 256 ∷ 64 ∷ 16 ∷ []

unfoldable pub clti_weight_to_class : ℕ → ℕ
clti_weight_to_class weight =
    if weight == 1024
    then 4
    else class_loop weight later_classes 1 0 (class_diff weight (class_entry 0))

-- `local_n` is an `int` that no caller makes negative.
unfoldable pub clti_decay_interpolate : ℕ → ℕ → ℕ
clti_decay_interpolate load local_n =
    let idx = local_n / clti_table_step in
    let rem = local_n % clti_table_step in
    let base = exact_mul_u64_u32_shr load (decay_entry idx) clti_shift in
    let next = exact_mul_u64_u32_shr load (decay_entry (idx + 1)) clti_shift in
    let diff = if leb next base then sub64 base next else 0 in
    let correction = u64 (diff * rem) / clti_table_step in
    if local_n == 0
    then load
    else if leb clti_table_size idx
    then 0
    else if ltb 0 rem
    then (if ltb (idx + 1) clti_table_size
        then (if leb correction base then sub64 base correction else 0)
        else shr base 1)
    else base

unfoldable pub clti_decay_load : ℕ → ℕ → ℕ
clti_decay_load load periods =
    let coarse = periods / load_avg_period in
    let local_n = periods % load_avg_period in
    if periods == 0
    then load
    else if leb (pelt_max_periods * load_avg_period) periods
    then 0
    else clti_decay_interpolate (shr load coarse) local_n

unfoldable pub clti_vruntime_delta : ℕ → ℕ → ℕ
clti_vruntime_delta delta_exec weight =
    let cls = clti_weight_to_class weight in
    let w_rep = class_entry cls in
    let inv_w = bsa_newton_reciprocal w_rep 1 in
    if weight == nice_0_load
    then delta_exec
    else if weight == 0
    then 0
    else exact_mul_u64_u32_shr delta_exec (u32 inv_w) (wmult_shift - 10)

unfoldable pub clti_update_curr : CfsRq → ℤ → CfsRq
clti_update_curr rq task_idx = update_curr clti_vruntime_delta rq task_idx

unfoldable pub clti_update_load_avg : CfsRq → ℤ → CfsRq
clti_update_load_avg rq task_idx = update_load_avg clti_decay_load rq task_idx

unfoldable pub clti_pick_next_task : CfsRq → Option ℕ
clti_pick_next_task rq = exact_pick_next_task rq

unfoldable pub clti_tick : CfsRq → CfsRq
clti_tick rq =
    let ticked = rq_tick rq in
    elim (clti_pick_next_task ticked) [
      | none ↦ ticked
      | some next ↦
          let run = clti_update_curr ticked (pos next) in
          finish_tick (for_tasks clti_update_load_avg (pos_part run.nr_tasks) 0 run)
    ]
