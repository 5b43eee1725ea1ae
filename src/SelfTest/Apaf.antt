-- ===== src/SelfTest/Apaf.antt =====
-- The self-test of apex-cfs/src/approx_apaf.c.
use approximation_computing.Common.{ℕ, Bool, ◌&&◌, List, [], ◌∷◌, ◌++◌, ◌==ℤ◌, ℤ, pos}
use approximation_computing.Double.{Double, decimal}
use approximation_computing.Task.{
  CfsTask, CfsRq, apaf_tight, apaf_medium, apaf_loose, task_create, rq_init,
}
use approximation_computing.Fairness.{fairness_jain_index}
use approximation_computing.Exact.{exact_decay_load, exact_calc_delta_fair, exact_tick}
use approximation_computing.Bsa.{bsa_tick}
use approximation_computing.Clti.{clti_tick}
use approximation_computing.Apaf.{
  apaf_poly_eval, apaf_decay_load, apaf_vruntime_delta, apaf_update_state, apaf_tick,
}
use approximation_computing.SelfTest.{
  Outcome, flagged, le, is_within, error_of, tick_times, equal_rq, first_load,
}

-- Tests 1 to 3: the polynomial at a few points.
unfoldable pub poly_tests : List Bool
poly_tests =
    (is_within (decimal 995 3) (apaf_poly_eval (pos 0) apaf_medium) (decimal 1005 3)
      && is_within (decimal 685 3) (apaf_poly_eval (pos 16) apaf_medium) (decimal 725 3)
      && is_within (decimal 485 3) (apaf_poly_eval (pos 32) apaf_medium) (decimal 515 3))
    ∷ (is_within (decimal 832 3) (apaf_poly_eval (pos 8) apaf_tight) (decimal 849 3)
        && is_within (decimal 700 3) (apaf_poly_eval (pos 16) apaf_tight) (decimal 714 3)
        && is_within (decimal 685 3) (apaf_poly_eval (pos 17) apaf_tight) (decimal 699 3))
    ∷ (is_within (decimal 970 3) (apaf_poly_eval (pos 0) apaf_loose) (decimal 986 3)
        && is_within (decimal 460 3) (apaf_poly_eval (pos 32) apaf_loose) (decimal 498 3))
    ∷ []

abbrev decay_error : ℤ → Double
decay_error state = error_of (exact_decay_load 10000 1) (apaf_decay_load 10000 1 state)

abbrev delta_error : ℤ → Double
delta_error state =
    error_of (exact_calc_delta_fair 1000000 820) (apaf_vruntime_delta 1000000 820 state)

-- Tests 4 and 5: the errors in the three states.
unfoldable pub error_tests : List Bool
error_tests =
    (le (decay_error apaf_tight) (decimal 1 0)
      && le (decay_error apaf_medium) (decimal 3 0)
      && le (decay_error apaf_loose) (decimal 5 0))
    ∷ (le (delta_error apaf_tight) (decimal 2 0)
        && le (delta_error apaf_medium) (decimal 2 0)
        && le (delta_error apaf_loose) (decimal 6 0))
    ∷ []

abbrev ran_for : ℤ → ℕ → CfsTask
ran_for id time = record (task_create id (pos 0)) { exec_runtime = time }

abbrev unfair_tasks : List CfsTask
unfair_tasks =
    ran_for (pos 0) 1000 ∷ ran_for (pos 1) 100 ∷ ran_for (pos 2) 100 ∷ ran_for (pos 3) 100 ∷ []

abbrev fair_tasks : List CfsTask
fair_tasks =
    ran_for (pos 0) 500 ∷ ran_for (pos 1) 500 ∷ ran_for (pos 2) 500 ∷ ran_for (pos 3) 500 ∷ []

-- `apaf_update_state` from this state, at this tick.
abbrev next_state : List CfsTask → ℤ → ℕ → ℤ
next_state tasks state tick =
    let rq : CfsRq = rq_init tasks (pos 4) (pos 3) in
    (apaf_update_state (record rq { apaf_state = state; tick = tick })).apaf_state

-- Tests 6 to 8: the controller.
unfoldable pub state_tests : List Bool
state_tests =
    (next_state unfair_tasks apaf_loose 4 ==ℤ apaf_medium)
    ∷ (next_state fair_tasks apaf_medium 4 ==ℤ apaf_loose)
    ∷ (next_state unfair_tasks apaf_medium 3 ==ℤ apaf_medium)
    ∷ []

-- Test 9: the index of four equal tasks after 200 ticks.
unfoldable pub long_run_test : Bool
long_run_test =
    le (decimal 90 2) (fairness_jain_index (tick_times 200 apaf_tick (equal_rq 4 (pos 3))))

-- Test 10: the four schedulers side by side.
unfoldable pub four_way_test : Bool
four_way_test =
    let ex10_rq = tick_times 100 exact_tick (equal_rq 4 (pos 0)) in
    let bs10_rq = tick_times 100 bsa_tick (equal_rq 4 (pos 1)) in
    let cl10_rq = tick_times 100 clti_tick (equal_rq 4 (pos 2)) in
    let ap10_rq = tick_times 100 apaf_tick (equal_rq 4 (pos 3)) in
    let exact_load = first_load ex10_rq in
    le (decimal 90 2) (fairness_jain_index ex10_rq)
    && le (decimal 90 2) (fairness_jain_index bs10_rq)
    && le (decimal 90 2) (fairness_jain_index cl10_rq)
    && le (decimal 90 2) (fairness_jain_index ap10_rq)
    && le (error_of exact_load (first_load bs10_rq)) (decimal 26 0)
    && le (error_of exact_load (first_load cl10_rq)) (decimal 5 0)
    && le (error_of exact_load (first_load ap10_rq)) (decimal 5 0)

unfoldable pub apaf_tests : List Bool
unfolding poly_tests error_tests state_tests long_run_test four_way_test
apaf_tests = poly_tests ++ error_tests ++ state_tests ++ long_run_test ∷ four_way_test ∷ []

unfoldable pub apaf_self_test : Outcome
unfolding apaf_tests
apaf_self_test = flagged apaf_tests
