-- ===== src/Apaf.antt =====
-- apex-cfs/src/approx_apaf.h and apex-cfs/src/approx_apaf.c: Logic 3, polynomial decay and Newton
-- steps whose accuracy a controller chooses from the fairness index.
pub mod Poly
pub mod Decay
pub mod State
pub mod Mono
use approximation_computing.Common.{
  ℕ, suc, ◌+◌, ◌-◌, ◌*◌, ◌/◌, ◌%◌, ◌^◌, not, ◌&&◌, Option, none, some, ltb, leb, ◌==◌,
  if◌then◌else◌, ℤ, pos, negsuc, pos_part, neg, ltb_ℤ, ◌==ℤ◌,
}
use approximation_computing.Words.{u32, shr}
use approximation_computing.Double.{Double, one, decimal, of_nat, of_int, to_nat, add, mul, div, lt}
use approximation_computing.Task.{
  CfsRq, nice_0_load, load_avg_period, wmult_shift, y_n_inv, rq_tick, apaf_tight, apaf_medium,
  apaf_loose,
}
use approximation_computing.Fairness.{fairness_jain_index, fairness_apaf_next_state}
use approximation_computing.Logic.{update_curr, update_load_avg, for_tasks, finish_tick}
use approximation_computing.Exact.{pelt_max_periods, exact_mul_u64_u32_shr, exact_pick_next_task}
use approximation_computing.Bsa.{bsa_newton_reciprocal}

abbrev pub apaf_monitor_interval : ℕ
apaf_monitor_interval = 4

-- The coefficients of a state; MEDIUM is also the default.
pub record Coefficients : Type 0 where
  pub a0 : Double
  pub a1 : Double
  pub a2 : Double

unfoldable pub coefficients : ℤ → Coefficients
coefficients state =
    if state ==ℤ apaf_tight
    then record {
      a0 = decimal 999755378067218 15;
      a1 = neg (decimal 21439723696865 15);
      a2 = decimal 197742040395 15;
    }
    else if state ==ℤ apaf_loose
    then record {
      a0 = decimal 977779922300000 15;
      a1 = neg (decimal 15578660700000 15);
      a2 = pos 0;
    }
    else record {
      a0 = decimal 998121961273224 15;
      a1 = neg (decimal 20869371290712 15);
      a2 = decimal 167397421507 15;
    }

-- `(double)runnable_avg_y_n_inv[idx] / (double)0xFFFFFFFFULL`.
unfoldable pub table_factor : ℕ → Double
table_factor idx = div (of_nat (y_n_inv idx)) (of_nat 0xffffffff)

-- a0 + n * (a1 + n * a2), and the clamps behind it.
unfoldable pub horner : Coefficients → ℤ → Double
horner c n =
    let result = add c.a0 (mul (of_int n) (add c.a1 (mul (of_int n) c.a2))) in
    let capped = if lt (pos one) result then pos one else result in
    if lt capped (pos 0) then pos 0 else capped

-- The index of the fallback into the exact table.
abbrev pub table_index : ℤ → ℕ
table_index n =
    let idx = if ltb_ℤ n (pos 0) then pos 0 else n in
    if leb load_avg_period (pos_part idx) then load_avg_period - 1 else pos_part idx

unfoldable pub apaf_poly_eval : ℤ → ℤ → Double
apaf_poly_eval n state =
    if (state ==ℤ apaf_tight) && ltb_ℤ (pos 16) n
    then table_factor (table_index n)
    else horner (coefficients state) n

-- The factor of `apaf_decay_load`: in LOOSE never below the exact one.
unfoldable pub decay_factor : ℕ → ℤ → Double
decay_factor local_n state =
    let factor = apaf_poly_eval (pos local_n) state in
    if (state ==ℤ apaf_loose) && lt factor (table_factor local_n)
    then table_factor local_n
    else factor

unfoldable pub apaf_decay_load : ℕ → ℕ → ℤ → ℕ
apaf_decay_load load periods state =
    let coarse = periods / load_avg_period in
    let local_n = periods % load_avg_period in
    let shifted = shr load coarse in
    if periods == 0
    then load
    else if leb (pelt_max_periods * load_avg_period) periods
    then 0
    else if ltb 0 local_n
    then to_nat (mul (of_nat shifted) (decay_factor local_n state))
    else shifted

-- The Newton steps of a state; MEDIUM is also the default.
abbrev pub newton_iters : ℤ → ℕ
newton_iters state = if state ==ℤ apaf_tight then 2 else if state ==ℤ apaf_loose then 1 else 2

unfoldable pub apaf_vruntime_delta : ℕ → ℕ → ℤ → ℕ
apaf_vruntime_delta delta_exec weight state =
    let inv_w = bsa_newton_reciprocal weight (newton_iters state) in
    if weight == nice_0_load
    then delta_exec
    else if weight == 0
    then 0
    else exact_mul_u64_u32_shr delta_exec (u32 inv_w) (wmult_shift - 10)

unfoldable pub apaf_update_state : CfsRq → CfsRq
apaf_update_state rq =
    let j = fairness_jain_index rq in
    let next = fairness_apaf_next_state rq.apaf_state j in
    let seen = record rq { jain_index = j } in
    if not (rq.tick % apaf_monitor_interval == 0)
    then rq
    else if not (next ==ℤ rq.apaf_state)
    then record seen { apaf_state = next }
    else seen

unfoldable pub apaf_update_curr : CfsRq → ℤ → CfsRq
apaf_update_curr rq task_idx =
    update_curr (λ delta_exec weight. apaf_vruntime_delta delta_exec weight rq.apaf_state) rq
      task_idx

unfoldable pub apaf_update_load_avg : CfsRq → ℤ → CfsRq
apaf_update_load_avg rq task_idx =
    update_load_avg (λ load periods. apaf_decay_load load periods rq.apaf_state) rq task_idx

unfoldable pub apaf_pick_next_task : CfsRq → Option ℕ
apaf_pick_next_task rq = exact_pick_next_task rq

unfoldable pub apaf_tick : CfsRq → CfsRq
apaf_tick rq =
    let ticked = rq_tick rq in
    elim (apaf_pick_next_task ticked) [
      | none ↦ ticked
      | some next ↦
          let run = apaf_update_curr ticked (pos next) in
          finish_tick
            (apaf_update_state (for_tasks apaf_update_load_avg (pos_part run.nr_tasks) 0 run))
    ]
