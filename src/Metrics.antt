-- ===== src/Metrics.antt =====
-- apex-cfs/src/metrics.h and apex-cfs/src/metrics.c: snapshots of a run, their summary and CSV rows.
-- What goes to the console and to a file is the returned value; how `%.6f` prints a double is left
-- out.
pub mod Record
pub mod Csv
pub mod ErrorPct
use Prim.Native.String.{String}
use approximation_computing.Common.{
  ℕ, zero, suc, ◌+◌, ◌*◌, ◌%◌, ◌||◌, Option, none, some, List, [], ◌∷◌, map, ltb, leb, ◌==◌, not,
  ◌&&◌, if◌then◌else◌, ℤ, pos, negsuc, pos_part, neg_part, ltb_ℤ, ◌==ℤ◌, length, take, modify_first,
}
use approximation_computing.Words.{u64}
use approximation_computing.Double.{Double, one, of_nat, add, sub, mul, div, fabs, lt}
use approximation_computing.Task.{CfsTask, CfsRq, apaf_tight, apaf_medium, apaf_loose, visited}
use approximation_computing.Fairness.{fairness_jain_index}

abbrev pub metrics_max_ticks : ℕ
metrics_max_ticks = 10000

-- `metrics_t`.
pub record Metrics : Type 0 where
  pub tick : ℕ
  pub logic_used : ℤ
  pub jain_index : Double
  pub max_error_pct : Double
  pub avg_error_pct : Double
  pub ops_saved : ℕ
  pub apaf_state : ℤ

abbrev pub fresh : Metrics
fresh = record {
  tick = 0;
  logic_used = pos 0;
  jain_index = pos one;
  max_error_pct = pos 0;
  avg_error_pct = pos 0;
  ops_saved = 0;
  apaf_state = apaf_medium;
}

-- The buffer after the call.
unfoldable pub metrics_init : List Metrics → ℤ → List Metrics
metrics_init buf n =
    let count = if ltb_ℤ (pos metrics_max_ticks) n then metrics_max_ticks else pos_part n in
    if leb (pos_part n) 0 then buf else modify_first count (λ _. fresh) buf

-- `max_error`, `sum_error` and `count` of `metrics_record`.
pub record Errors : Type 0 where
  pub max_error : Double
  pub sum_error : Double
  pub count : ℕ

-- |approx - exact| / exact * 100 of one task.
unfoldable pub error_pct : ℕ → ℕ → Double
error_pct approx_load exact_load =
    mul (div (fabs (sub (of_nat approx_load) (of_nat exact_load))) (of_nat exact_load)) (of_nat 100)

unfoldable pub error_step : CfsTask → CfsTask → Errors → Errors
error_step approx exact s =
    let err = error_pct approx.load_avg exact.load_avg in
    if ltb 0 exact.load_avg
    then record {
      max_error = if lt s.max_error err then err else s.max_error;
      sum_error = add s.sum_error err;
      count = s.count + 1;
    }
    else s

-- The loop over both arrays; the second is as long as the first.
unfoldable pub error_loop : List CfsTask → List CfsTask → Errors → Errors
error_loop [] exact s = s
error_loop (t ∷ ts) [] s = s
error_loop (t ∷ ts) (e ∷ es) s = error_loop ts es (error_step t e s)

-- The operations that a tick saved; `nr_running` is never negative.
unfoldable pub ops_saved_of : CfsRq → ℕ
ops_saved_of rq =
    let running = u64 rq.nr_running in
    if rq.approx_mode ==ℤ pos 1
    then running
    else if rq.approx_mode ==ℤ pos 2
    then u64 (running * 4)
    else if rq.approx_mode ==ℤ pos 3
    then (if rq.apaf_state ==ℤ apaf_tight
        then u64 (running * 2)
        else if rq.apaf_state ==ℤ apaf_medium
        then u64 (running * 3)
        else u64 (running * 4))
    else 0

abbrev pub no_errors : Errors
no_errors = record { max_error = pos 0; sum_error = pos 0; count = 0 }

-- The entry that the call writes: it sets every field.
unfoldable pub metrics_record : CfsRq → CfsRq → Metrics
metrics_record approx_rq exact_rq =
    let errors = error_loop (visited approx_rq) exact_rq.tasks no_errors in
    record {
      tick = approx_rq.tick;
      logic_used = approx_rq.approx_mode;
      jain_index = fairness_jain_index approx_rq;
      max_error_pct = errors.max_error;
      avg_error_pct =
          if ltb 0 errors.count then div errors.sum_error (of_nat errors.count) else pos 0;
      ops_saved = ops_saved_of approx_rq;
      apaf_state = approx_rq.apaf_state;
    }

unfoldable pub metrics_get_logic_name : ℤ → String
metrics_get_logic_name mode =
    if mode ==ℤ pos 0
    then "EXACT"
    else if mode ==ℤ pos 1
    then "BSA"
    else if mode ==ℤ pos 2
    then "CLTI"
    else if mode ==ℤ pos 3
    then "APAF"
    else "UNKNOWN"

unfoldable pub metrics_get_state_name : ℤ → ℤ → String
metrics_get_state_name mode state =
    if not (mode ==ℤ pos 3)
    then "N/A"
    else if state ==ℤ apaf_tight
    then "TIGHT"
    else if state ==ℤ apaf_medium
    then "MEDIUM"
    else if state ==ℤ apaf_loose
    then "LOOSE"
    else "UNKNOWN"

-- One line of the CSV file, a field for each column.
pub record CsvRow : Type 0 where
  pub tick : ℕ
  pub logic : String
  pub n_tasks : ℤ
  pub jain_index : Double
  pub max_error_pct : Double
  pub avg_error_pct : Double
  pub ops_saved : ℕ
  pub apaf_state : String

unfoldable pub csv_row : ℤ → Metrics → CsvRow
csv_row n_tasks m = record {
  tick = m.tick;
  logic = metrics_get_logic_name m.logic_used;
  n_tasks = n_tasks;
  jain_index = m.jain_index;
  max_error_pct = m.max_error_pct;
  avg_error_pct = m.avg_error_pct;
  ops_saved = m.ops_saved;
  apaf_state = metrics_get_state_name m.logic_used m.apaf_state;
}

-- The rows below the header; `none` where no file is opened.
unfoldable pub metrics_write_csv : List Metrics → ℤ → ℤ → Option (List CsvRow)
metrics_write_csv buf n_entries n_tasks =
    if leb (length buf) 0 || leb (pos_part n_entries) 0
    then none
    else some (map (csv_row n_tasks) (take (pos_part n_entries) buf))

-- The running values of `metrics_print_summary`.
pub record Summary : Type 0 where
  pub avg_jain : Double
  pub min_jain : Double
  pub overall_max_error : Double
  pub overall_avg_error : Double
  pub total_ops_saved : ℕ
  pub ops_per_tick : Double
  pub transitions : ℕ

-- One more transition, where APAF's state differs from that of the entry before.
unfoldable pub changed : ℤ → Option ℤ → Metrics → ℕ
changed logic_mode none m = 0
changed logic_mode (some old) m =
    if (logic_mode ==ℤ pos 3) && not (m.apaf_state ==ℤ old) then 1 else 0

-- One round of its loop; `before` is the state of the entry before, if there is one.
unfoldable pub summary_step : ℤ → Option ℤ → Metrics → Summary → Summary
summary_step logic_mode before m s = record {
  avg_jain = add s.avg_jain m.jain_index;
  min_jain = if lt m.jain_index s.min_jain then m.jain_index else s.min_jain;
  overall_max_error =
      if lt s.overall_max_error m.max_error_pct then m.max_error_pct else s.overall_max_error;
  overall_avg_error = add s.overall_avg_error m.avg_error_pct;
  total_ops_saved = u64 (s.total_ops_saved + m.ops_saved);
  ops_per_tick = s.ops_per_tick;
  transitions = s.transitions + changed logic_mode before m;
}

unfoldable pub summary_loop : ℤ → Option ℤ → List Metrics → Summary → Summary
summary_loop logic_mode before [] s = s
summary_loop logic_mode before (m ∷ ms) s =
    summary_loop logic_mode (some m.apaf_state) ms (summary_step logic_mode before m s)

abbrev pub no_summary : Summary
no_summary = record {
  avg_jain = pos 0;
  min_jain = pos one;
  overall_max_error = pos 0;
  overall_avg_error = pos 0;
  total_ops_saved = 0;
  ops_per_tick = pos 0;
  transitions = 0;
}

-- The numbers that are printed; `none` where nothing is.
unfoldable pub metrics_print_summary : List Metrics → ℤ → Option Summary
metrics_print_summary [] n_entries = none
metrics_print_summary (m ∷ ms) n_entries =
    let n = pos_part n_entries in
    let s = summary_loop m.logic_used none (take n (m ∷ ms)) no_summary in
    if leb n 0
    then none
    else some (record s {
      avg_jain = div s.avg_jain (of_nat n);
      overall_avg_error = div s.overall_avg_error (of_nat n);
      ops_per_tick = div (of_nat s.total_ops_saved) (of_nat n);
    })
