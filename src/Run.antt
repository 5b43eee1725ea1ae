-- ===== src/Run.antt =====
-- Runs at concrete inputs: a line `unfolding run` opens every function of the program.
use approximation_computing.Double.{run_double}
use approximation_computing.Task.{
  y_n_inv, clamp_nice, weight_of, task_create, task_set_runnable, task_get_weight, count_running,
  rq_init, rq_tick, rq_count_running,
}
use approximation_computing.Fairness.{
  jain_loop, jain_of_sums, fairness_jain_index, fairness_apaf_next_state, share_sums, share_of,
  write_shares, write_zeros, fairness_cpu_shares, fairness_ideal_share, weight_loop,
  fairness_total_weight,
}
use approximation_computing.Logic.{
  run_task, age_task, update_curr, update_load_avg, for_tasks, finish_tick,
}
use approximation_computing.Exact.{
  exact_mul_u64_u32_shr, exact_decay_load, exact_calc_delta_fair, exact_update_curr,
  exact_update_load_avg, pick_loop, exact_pick_next_task, exact_tick,
}
use approximation_computing.Bsa.{
  floor_loop, bsa_nearest_pow2, newton_loop, warm_start, bsa_newton_reciprocal, bsa_decay_loop,
  bsa_decay_load, bsa_vruntime_delta, bsa_update_curr, bsa_update_load_avg, bsa_pick_next_task,
  bsa_tick,
}
use approximation_computing.Clti.{
  decay_entry, class_entry, class_diff, class_loop, clti_weight_to_class, clti_decay_interpolate,
  clti_decay_load, clti_vruntime_delta, clti_update_curr, clti_update_load_avg, clti_pick_next_task,
  clti_tick,
}
use approximation_computing.Apaf.{
  coefficients, table_factor, horner, apaf_poly_eval, decay_factor, apaf_decay_load,
  apaf_vruntime_delta, apaf_update_state, apaf_update_curr, apaf_update_load_avg,
  apaf_pick_next_task, apaf_tick,
}
use approximation_computing.Metrics.{
  metrics_init, error_pct, error_step, error_loop, ops_saved_of, metrics_record,
  metrics_get_logic_name, metrics_get_state_name, csv_row, metrics_write_csv, changed, summary_step,
  summary_loop, metrics_print_summary,
}

unfoldable pub run : Unit {0}
unfolding run_double y_n_inv clamp_nice weight_of task_create task_set_runnable task_get_weight
    count_running rq_init rq_tick rq_count_running jain_loop jain_of_sums fairness_jain_index
    fairness_apaf_next_state share_sums share_of write_shares write_zeros fairness_cpu_shares
    fairness_ideal_share weight_loop fairness_total_weight run_task age_task update_curr
    update_load_avg for_tasks finish_tick exact_mul_u64_u32_shr exact_decay_load
    exact_calc_delta_fair exact_update_curr exact_update_load_avg pick_loop exact_pick_next_task
    exact_tick floor_loop bsa_nearest_pow2 newton_loop warm_start bsa_newton_reciprocal
    bsa_decay_loop bsa_decay_load bsa_vruntime_delta bsa_update_curr bsa_update_load_avg
    bsa_pick_next_task bsa_tick decay_entry class_entry class_diff class_loop clti_weight_to_class
    clti_decay_interpolate clti_decay_load clti_vruntime_delta clti_update_curr clti_update_load_avg
    clti_pick_next_task clti_tick coefficients table_factor horner apaf_poly_eval decay_factor
    apaf_decay_load apaf_vruntime_delta apaf_update_state apaf_update_curr apaf_update_load_avg
    apaf_pick_next_task apaf_tick metrics_init error_pct error_step error_loop ops_saved_of
    metrics_record metrics_get_logic_name metrics_get_state_name csv_row metrics_write_csv changed
    summary_step summary_loop metrics_print_summary
run = tt
