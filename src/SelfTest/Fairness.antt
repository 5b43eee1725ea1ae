-- ===== src/SelfTest/Fairness.antt =====
-- The self-test of apex-cfs/src/fairness.c.
use approximation_computing.Common.{ℕ, Bool, ◌&&◌, List, [], ◌∷◌, get_or, ℤ, pos, ◌==ℤ◌}
use approximation_computing.Double.{Double, one, decimal, add, sub, fabs}
use approximation_computing.Task.{
  CfsTask, CfsRq, apaf_tight, apaf_medium, apaf_loose, task_create, rq_init,
}
use approximation_computing.Fairness.{
  fairness_jain_index, fairness_apaf_next_state, fairness_cpu_shares,
}
use approximation_computing.SelfTest.{Outcome, printed, le}

-- Tasks of nice value 0 that have run for these times.
abbrev ran_for : ℤ → ℕ → CfsTask
ran_for id time = record (task_create id (pos 0)) { exec_runtime = time }

abbrev rq1 : CfsRq
rq1 =
    rq_init
      (ran_for (pos 0) 100 ∷ ran_for (pos 1) 100 ∷ ran_for (pos 2) 100 ∷ ran_for (pos 3) 100 ∷ [])
      (pos 4) (pos 0)

abbrev rq2 : CfsRq
rq2 =
    rq_init
      (ran_for (pos 0) 100 ∷ ran_for (pos 1) 200 ∷ ran_for (pos 2) 300 ∷ ran_for (pos 3) 400 ∷ [])
      (pos 4) (pos 0)

abbrev rq3 : CfsRq
rq3 = rq_init (ran_for (pos 0) 500 ∷ []) (pos 1) (pos 0)

abbrev rq4 : CfsRq
rq4 = rq_init (ran_for (pos 0) 0 ∷ ran_for (pos 1) 0 ∷ ran_for (pos 2) 0 ∷ []) (pos 3) (pos 0)

abbrev rq5 : CfsRq
rq5 = rq_init (ran_for (pos 0) 300 ∷ ran_for (pos 1) 500 ∷ ran_for (pos 2) 200 ∷ []) (pos 3) (pos 0)

-- fabs(x - y) <= bound.
abbrev is_near : Double → Double → Double → Bool
is_near x y bound = le (fabs (sub x y)) bound

-- Test 10, on the array that `fairness_cpu_shares` leaves.
unfoldable pub shares_test : List Double → Bool
shares_test shares =
    let share0 = get_or shares 0 (pos 0) in
    let share1 = get_or shares 1 (pos 0) in
    let share2 = get_or shares 2 (pos 0) in
    let sum_shares = add (add share0 share1) share2 in
    is_near share0 (decimal 3 1) (decimal 1 2)
    && is_near share1 (decimal 5 1) (decimal 1 2)
    && is_near share2 (decimal 2 1) (decimal 1 2)
    && is_near sum_shares (pos one) (decimal 1 2)

-- `shares` is what the array of three doubles holds before the call.
unfoldable pub fairness_tests : List Double → List Bool
unfolding shares_test
fairness_tests shares =
    (fairness_jain_index rq1 ==ℤ pos one)
    ∷ is_near (fairness_jain_index rq2) (decimal 833333 6) (decimal 1 3)
    ∷ (fairness_jain_index rq3 ==ℤ pos one)
    ∷ (fairness_jain_index rq4 ==ℤ pos one)
    ∷ (fairness_apaf_next_state apaf_loose (decimal 92 2) ==ℤ apaf_medium)
    ∷ (fairness_apaf_next_state apaf_medium (decimal 94 2) ==ℤ apaf_medium)
    ∷ (fairness_apaf_next_state apaf_medium (decimal 88 2) ==ℤ apaf_tight)
    ∷ (fairness_apaf_next_state apaf_tight (decimal 96 2) ==ℤ apaf_medium)
    ∷ (fairness_apaf_next_state apaf_loose (decimal 85 2) ==ℤ apaf_medium)
    ∷ shares_test (fairness_cpu_shares rq5 shares (pos 3))
    ∷ []

unfoldable pub fairness_self_test : List Double → Outcome
unfolding fairness_tests
fairness_self_test shares = printed (fairness_tests shares)
