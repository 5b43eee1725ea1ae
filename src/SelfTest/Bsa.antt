-- ===== src/SelfTest/Bsa.antt =====
-- The self-test of apex-cfs/src/approx_bsa.c.
use approximation_computing.Common.{
  ℕ, Bool, true, ◌&&◌, ◌||◌, not, List, [], ◌∷◌, map, ◌==◌, if◌then◌else◌, pos, ◌==ℤ◌,
}
use approximation_computing.Double.{Double, decimal, sub, fabs, lt}
use approximation_computing.Task.{CfsRq, CfsTask, rq_count_running}
use approximation_computing.Fairness.{fairness_jain_index}
use approximation_computing.Exact.{exact_decay_load, exact_calc_delta_fair, exact_tick}
use approximation_computing.Bsa.{bsa_nearest_pow2, bsa_decay_load, bsa_vruntime_delta, bsa_tick}
use approximation_computing.Metrics.{metrics_record}
use approximation_computing.SelfTest.{
  Outcome, flagged, le, error_of, tick_times, equal_rq, first_load,
}

-- Test 7: the loop over the weights; it is left at the first one that fails.
unfoldable pub weights_test : List ℕ → Bool
weights_test [] = true
weights_test (weight ∷ weights) =
    let exact_v = exact_calc_delta_fair 1000000 weight in
    let err =
      if exact_v == 0 then pos 0 else error_of exact_v (bsa_vruntime_delta 1000000 weight) in
    let off_unit = (weight == 1024) && not (err ==ℤ pos 0) in
    let off_bound = not (weight == 1024) && lt (decimal 2 0) err in
    not (off_unit || off_bound) && weights_test weights

abbrev exact_rq : CfsRq
exact_rq = tick_times 100 exact_tick (equal_rq 4 (pos 0))

abbrev bsa_rq : CfsRq
bsa_rq = tick_times 100 bsa_tick (equal_rq 4 (pos 1))

-- Test 8.
unfoldable pub jain_test : Double → Double → Bool
jain_test exact_j approx_j =
    le (decimal 90 2) approx_j && le (fabs (sub exact_j approx_j)) (decimal 10 2)

-- Test 10: what the two runqueues are set to before `metrics_record`.
abbrev reset_bsa : CfsRq
reset_bsa =
    let rq : CfsRq = record bsa_rq {
      tasks = map (λ (t : CfsTask). record t { runnable = pos 1; load_avg = 100 }) bsa_rq.tasks;
    } in
    record (rq_count_running rq).0 { approx_mode = pos 1 }

abbrev reset_exact : CfsRq
reset_exact = record exact_rq {
  tasks = map (λ (t : CfsTask). record t { load_avg = 100 }) exact_rq.tasks;
}

unfoldable pub bsa_tests : List Bool
unfolding weights_test jain_test
bsa_tests =
    ((bsa_nearest_pow2 1024 == 1024) && (bsa_nearest_pow2 512 == 512) && (bsa_nearest_pow2 1 == 1))
    ∷ ((bsa_nearest_pow2 820 == 1024) && (bsa_nearest_pow2 700 == 512))
    ∷ le (error_of (exact_decay_load 47742 32) (bsa_decay_load 47742 32)) (decimal 35 0)
    ∷ le (error_of (exact_decay_load 10000 1) (bsa_decay_load 10000 1)) (decimal 11 1)
    ∷ (bsa_vruntime_delta 1000000 1024 == 1000000)
    ∷ le (error_of (exact_calc_delta_fair 1000000 820) (bsa_vruntime_delta 1000000 820))
        (decimal 2 0)
    ∷ weights_test (1024 ∷ 820 ∷ 1277 ∷ 1586 ∷ 655 ∷ [])
    ∷ jain_test (fairness_jain_index exact_rq) (fairness_jain_index bsa_rq)
    ∷ le
        (error_of (first_load (tick_times 100 exact_tick (equal_rq 1 (pos 0))))
          (first_load (tick_times 100 bsa_tick (equal_rq 1 (pos 1)))))
        (decimal 26 0)
    ∷ ((metrics_record reset_bsa reset_exact).ops_saved == 4)
    ∷ []

unfoldable pub bsa_self_test : Outcome
unfolding bsa_tests
bsa_self_test = flagged bsa_tests
