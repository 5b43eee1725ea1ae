-- ===== src/ErrorBound.antt =====
-- apex-cfs/experiments/exp4_error_bound.c: the decay of one period, tick by tick against the bound of
-- the scheduler, beside a run of 20 tasks of four nice values. `g_violations` is a list that every run
-- takes and gives back, `g_violation_count` its length. The CSV file is the value of
-- metrics_write_csv.
pub mod Within
pub mod Report
pub mod Verdict
use approximation_computing.Common.{
  ℕ, zero, suc, ◌+◌, ◌/◌, Bool, true, false, not, List, [], ◌∷◌, ◌++◌, ltb, ◌==◌, if◌then◌else◌, ℤ,
  pos, negsuc, ◌==ℤ◌, get_or, length,
}
use approximation_computing.Double.{Double, of_nat, decimal, add, sub, mul, div, fabs, lt}
use approximation_computing.Task.{
  CfsTask, CfsRq, task_create, rq_init, load_avg_max, apaf_tight, apaf_medium,
}
use approximation_computing.Exact.{exact_decay_load, exact_tick}
use approximation_computing.Bsa.{bsa_decay_load, bsa_tick}
use approximation_computing.Clti.{clti_decay_load, clti_tick}
use approximation_computing.Apaf.{apaf_decay_load, apaf_tick}
use approximation_computing.Metrics.{Metrics, metrics_record}

abbrev pub exp4_n_tasks : ℕ
exp4_n_tasks = 20

abbrev pub exp4_ticks : ℕ
exp4_ticks = 1000

abbrev pub bound_bsa_decay : Double
bound_bsa_decay = decimal 10037 4

abbrev pub bound_clti_decay : Double
bound_clti_decay = decimal 938 4

abbrev pub bound_apaf_tight : Double
bound_apaf_tight = decimal 10000 4

abbrev pub bound_apaf_medium : Double
bound_apaf_medium = decimal 30000 4

abbrev pub bound_apaf_loose : Double
bound_apaf_loose = decimal 41474 4

abbrev pub bound_tolerance : Double
bound_tolerance = decimal 5000 4

abbrev pub eff_bsa : Double
eff_bsa = add bound_bsa_decay bound_tolerance

abbrev pub eff_clti : Double
eff_clti = add bound_clti_decay bound_tolerance

abbrev pub eff_tight : Double
eff_tight = add bound_apaf_tight bound_tolerance

abbrev pub eff_medium : Double
eff_medium = add bound_apaf_medium bound_tolerance

abbrev pub eff_loose : Double
eff_loose = add bound_apaf_loose bound_tolerance

-- `exp4_result_t`.
pub record ErrorResult : Type 0 where
  pub logic : ℤ
  pub max_error_ever : Double
  pub avg_error_overall : Double
  pub n_violations : ℕ
  pub first_violation_tick : ℕ
  pub ticks_under_1pct : ℕ
  pub ticks_1_to_3pct : ℕ
  pub ticks_3_to_5pct : ℕ
  pub ticks_over_5pct : ℕ
  pub ticks_in_tight : ℕ
  pub ticks_in_medium : ℕ
  pub ticks_in_loose : ℕ
  pub bound_verified : Bool
  pub theoretical_bound : Double

-- `exp4_violation_t`.
pub record Violation : Type 0 where
  pub logic : ℤ
  pub tick : ℕ
  pub err_pct : Double
  pub bound_pct : Double

-- The cells of `g_violations`.
abbrev pub max_violations : ℕ
max_violations = 4096

abbrev nice_values : List ℤ
nice_values = negsuc 4 ∷ pos 0 ∷ pos 5 ∷ pos 10 ∷ []

-- `n` tasks with ids from `i` on, five of each nice value.
unfoldable pub graded_tasks : ℕ → ℕ → List CfsTask
graded_tasks zero i = []
graded_tasks (suc n) i =
    task_create (pos i) (get_or nice_values (i / 5) (pos 0)) ∷ graded_tasks n (i + 1)

-- `approx_d`.
unfoldable pub decayed_by : ℤ → ℤ → ℕ → ℕ
decayed_by logic state_before base =
    if logic ==ℤ pos 1
    then bsa_decay_load base 1
    else if logic ==ℤ pos 2
    then clti_decay_load base 1
    else if logic ==ℤ pos 3
    then apaf_decay_load base 1 state_before
    else exact_decay_load base 1

-- `tick_err`, of the decay of `LOAD_AVG_MAX`.
unfoldable pub tick_error : ℤ → ℤ → Double
tick_error logic state_before =
    let base = load_avg_max in
    let exact_d = exact_decay_load base 1 in
    let exact_factor = div (of_nat exact_d) (of_nat base) in
    let approx_factor = div (of_nat (decayed_by logic state_before base)) (of_nat base) in
    if ltb 0 exact_d
    then mul (div (fabs (sub exact_factor approx_factor)) exact_factor) (of_nat 100)
    else pos 0

-- `bound`, by the state after the tick.
unfoldable pub tick_bound : ℤ → ℤ → Double
tick_bound logic apaf_state =
    if logic ==ℤ pos 2
    then eff_clti
    else if logic ==ℤ pos 3
    then (if apaf_state ==ℤ apaf_tight
        then eff_tight
        else if apaf_state ==ℤ apaf_medium
        then eff_medium
        else eff_loose)
    else eff_bsa

-- The `switch (logic)` of the loop.
unfoldable pub measured_tick : ℤ → CfsRq → CfsRq
measured_tick logic rq =
    if logic ==ℤ pos 1
    then bsa_tick rq
    else if logic ==ℤ pos 2
    then clti_tick rq
    else if logic ==ℤ pos 3
    then apaf_tick rq
    else exact_tick rq

-- The counters and running values of the loop.
pub record Tally : Type 0 where
  pub n_violations : ℕ
  pub first_violation : ℕ
  pub violation_found : Bool
  pub under1 : ℕ
  pub b1to3 : ℕ
  pub b3to5 : ℕ
  pub over5 : ℕ
  pub tight_count : ℕ
  pub med_count : ℕ
  pub loose_count : ℕ
  pub max_err : Double
  pub sum_err : Double

abbrev pub no_tally : Tally
no_tally = record {
  n_violations = 0;
  first_violation = 0;
  violation_found = false;
  under1 = 0;
  b1to3 = 0;
  b3to5 = 0;
  over5 = 0;
  tight_count = 0;
  med_count = 0;
  loose_count = 0;
  max_err = pos 0;
  sum_err = pos 0;
}

-- `if (tick_err > bound)`: the counters.
unfoldable pub tally_violation : ℕ → Double → Double → Tally → Tally
tally_violation i tick_err bound c =
    if lt bound tick_err
    then record c {
      n_violations = c.n_violations + 1;
      first_violation = if c.violation_found then c.first_violation else i;
      violation_found = true;
    }
    else c

-- The same test: the entry of the log, while there is room.
unfoldable pub log_violation : ℤ → ℕ → Double → Double → List Violation → List Violation
log_violation logic i tick_err bound log =
    let entry : Violation = record {
      logic = logic;
      tick = i;
      err_pct = tick_err;
      bound_pct = bound;
    } in
    if lt bound tick_err
    then (if ltb (length log) max_violations then log ++ entry ∷ [] else log)
    else log

-- The greatest error and the sum.
unfoldable pub tally_extremes : Double → Tally → Tally
tally_extremes tick_err c = record c {
  max_err = if lt c.max_err tick_err then tick_err else c.max_err;
  sum_err = add c.sum_err tick_err;
}

-- The distribution of the errors.
unfoldable pub tally_range : Double → Tally → Tally
tally_range tick_err c =
    if lt tick_err (of_nat 1)
    then record c { under1 = c.under1 + 1 }
    else if lt tick_err (of_nat 3)
    then record c { b1to3 = c.b1to3 + 1 }
    else if lt tick_err (of_nat 5)
    then record c { b3to5 = c.b3to5 + 1 }
    else record c { over5 = c.over5 + 1 }

-- The ticks in each state, for APAF.
unfoldable pub tally_state : ℤ → ℤ → Tally → Tally
tally_state logic apaf_state c =
    if logic ==ℤ pos 3
    then (if apaf_state ==ℤ apaf_tight
        then record c { tight_count = c.tight_count + 1 }
        else if apaf_state ==ℤ apaf_medium
        then record c { med_count = c.med_count + 1 }
        else record c { loose_count = c.loose_count + 1 })
    else c

-- The two runqueues, the entries recorded so far, the counters and the log of violations.
pub record Measured : Type 0 where
  pub exact_rq : CfsRq
  pub approx_rq : CfsRq
  pub entries : List Metrics
  pub tally : Tally
  pub log : List Violation

-- Round `i` of the loop over the ticks.
unfoldable pub measured_step : ℤ → ℕ → Measured → Measured
measured_step logic i s =
    let tick_err = tick_error logic s.approx_rq.apaf_state in
    let exact_rq = exact_tick s.exact_rq in
    let approx_rq = measured_tick logic s.approx_rq in
    let bound = tick_bound logic approx_rq.apaf_state in
    let seen = tally_extremes tick_err (tally_violation i tick_err bound s.tally) in
    record {
      exact_rq = exact_rq;
      approx_rq = approx_rq;
      entries = s.entries ++ metrics_record approx_rq exact_rq ∷ [];
      tally = tally_state logic approx_rq.apaf_state (tally_range tick_err seen);
      log = log_violation logic i tick_err bound s.log;
    }

-- The loop from round `i` on, with the rounds left.
unfoldable pub measured_loop : ℕ → ℤ → ℕ → Measured → Measured
measured_loop zero logic i s = s
measured_loop (suc rounds) logic i s = measured_loop rounds logic (i + 1) (measured_step logic i s)

unfoldable pub start_measured : ℤ → List Violation → Measured
start_measured logic log =
    let tasks = graded_tasks exp4_n_tasks 0 in
    record {
      exact_rq = rq_init tasks (pos exp4_n_tasks) (pos 0);
      approx_rq = record (rq_init tasks (pos exp4_n_tasks) logic) { apaf_state = apaf_medium };
      entries = [];
      tally = no_tally;
      log = log;
    }

unfoldable pub theoretical_bound_of : ℤ → Double
theoretical_bound_of logic =
    if logic ==ℤ pos 1
    then bound_bsa_decay
    else if logic ==ℤ pos 2
    then bound_clti_decay
    else bound_apaf_loose

-- What `memset` and the assignment below it leave where an allocation fails.
unfoldable pub unmeasured : ℤ → ErrorResult
unmeasured logic = record {
  logic = logic;
  max_error_ever = pos 0;
  avg_error_overall = pos 0;
  n_violations = 0;
  first_violation_tick = 0;
  ticks_under_1pct = 0;
  ticks_1_to_3pct = 0;
  ticks_3_to_5pct = 0;
  ticks_over_5pct = 0;
  ticks_in_tight = 0;
  ticks_in_medium = 0;
  ticks_in_loose = 0;
  bound_verified = false;
  theoretical_bound = pos 0;
}

-- The fields that are set after the loop.
unfoldable pub result_of : ℤ → Tally → ErrorResult
result_of logic c = record {
  logic = logic;
  max_error_ever = c.max_err;
  avg_error_overall = div c.sum_err (of_nat exp4_ticks);
  n_violations = c.n_violations;
  first_violation_tick = c.first_violation;
  ticks_under_1pct = c.under1;
  ticks_1_to_3pct = c.b1to3;
  ticks_3_to_5pct = c.b3to5;
  ticks_over_5pct = c.over5;
  ticks_in_tight = c.tight_count;
  ticks_in_medium = c.med_count;
  ticks_in_loose = c.loose_count;
  bound_verified = c.n_violations == 0;
  theoretical_bound = theoretical_bound_of logic;
}

-- `allocated` says whether the three calls of malloc succeed. The result, and the log after the run.
unfoldable pub run_exp4 : Bool → ℤ → List Violation → ErrorResult × List Violation
run_exp4 allocated logic log =
    let done = measured_loop exp4_ticks logic 0 (start_measured logic log) in
    if not allocated then (unmeasured logic, log) else (result_of logic done.tally, done.log)
