-- ===== src/SelfTest/Clti.antt =====
-- The self-test of apex-cfs/src/approx_clti.c.
use approximation_computing.Common.{ℕ, Bool, ◌&&◌, List, [], ◌∷◌, leb, ◌==◌, pos}
use approximation_computing.Double.{decimal}
use approximation_computing.Fairness.{fairness_jain_index}
use approximation_computing.Exact.{exact_decay_load, exact_tick}
use approximation_computing.Bsa.{bsa_decay_load, bsa_tick}
use approximation_computing.Clti.{
  decay_entry, clti_weight_to_class, clti_decay_interpolate, clti_decay_load, clti_tick,
}
use approximation_computing.SelfTest.{
  Outcome, flagged, le, error_of, tick_times, equal_rq, first_load,
}
use approximation_computing.SelfTest.Bsa.{jain_test}

abbrev exact_load : ℕ
exact_load = first_load (tick_times 100 exact_tick (equal_rq 1 (pos 0)))

unfoldable pub clti_tests : List Bool
unfolding jain_test
clti_tests =
    ((decay_entry 0 == 32768)
      && (decay_entry 1 == 30048)
      && (decay_entry 4 == 23170)
      && (decay_entry 7 == 17867))
    ∷ ((clti_weight_to_class 1024 == 4)
        && (clti_weight_to_class 820 == 4)
        && (clti_weight_to_class 88761 == 0)
        && (clti_weight_to_class 15 == 7))
    ∷ (clti_decay_interpolate 10000 0 == 10000)
    ∷ (clti_decay_interpolate 32768 4 == 30048)
    ∷ (leb 28751 (clti_decay_interpolate 32768 6) && leb (clti_decay_interpolate 32768 6) 28851)
    ∷ le (error_of (exact_decay_load 10000 1) (clti_decay_load 10000 1)) (decimal 5 1)
    ∷ le (error_of (exact_decay_load 47742 32) (clti_decay_load 47742 32)) (decimal 3 0)
    ∷ le (error_of (exact_decay_load 47742 32) (clti_decay_load 47742 32))
        (error_of (exact_decay_load 47742 32) (bsa_decay_load 47742 32))
    ∷ jain_test (fairness_jain_index (tick_times 100 exact_tick (equal_rq 4 (pos 0))))
        (fairness_jain_index (tick_times 100 clti_tick (equal_rq 4 (pos 2))))
    ∷ le (error_of exact_load (first_load (tick_times 100 clti_tick (equal_rq 1 (pos 2)))))
        (error_of exact_load (first_load (tick_times 100 bsa_tick (equal_rq 1 (pos 1)))))
    ∷ []

unfoldable pub clti_self_test : Outcome
unfolding clti_tests
clti_self_test = flagged clti_tests
