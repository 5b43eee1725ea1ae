-- ===== src/Examples/SelfTests.antt =====
-- The self-tests of apex-cfs/src, run: every test passes.
use approximation_computing.Common.{Bool, true, false, List, [], ◌∷◌, ◌≡◌, refl}
use approximation_computing.Double.{Double}
use approximation_computing.Run.{run}
use approximation_computing.Text.{emit, print_nat, print_int, print_double, pad, print_millionths}
use approximation_computing.Text.Read.{cut}
use approximation_computing.Metrics.{Metrics}
use approximation_computing.Metrics.Csv.{csv_file, print_row, print_rows}
use approximation_computing.Experiment.{equal_tasks}
use approximation_computing.SelfTest.{printed, flagged, tick_times}
use approximation_computing.SelfTest.Task.{task_self_test, task_tests}
use approximation_computing.SelfTest.Fairness.{fairness_self_test}
use approximation_computing.SelfTest.Exact.{exact_self_test}
use approximation_computing.SelfTest.Bsa.{bsa_self_test}
use approximation_computing.SelfTest.Clti.{clti_self_test}
use approximation_computing.SelfTest.Apaf.{apaf_self_test}
use approximation_computing.SelfTest.Metrics.{metrics_self_test}

abbrev seven : List Bool
seven = true ∷ true ∷ true ∷ true ∷ true ∷ true ∷ true ∷ []

abbrev ten : List Bool
ten = true ∷ true ∷ true ∷ seven

task_passes : task_self_test ≡ printed seven
unfolding run task_self_test task_tests tick_times
task_passes = refl

-- Whatever the array holds before the call.
fairness_passes : (a b c : Double) → fairness_self_test (a ∷ b ∷ c ∷ []) ≡ printed ten
unfolding run fairness_self_test
fairness_passes a b c = refl

exact_passes : exact_self_test ≡ printed ten
unfolding run exact_self_test tick_times equal_tasks
exact_passes = refl

bsa_passes : bsa_self_test ≡ flagged ten
unfolding run bsa_self_test tick_times equal_tasks
bsa_passes = refl

clti_passes : clti_self_test ≡ flagged ten
unfolding run clti_self_test tick_times equal_tasks
clti_passes = refl

apaf_passes : apaf_self_test ≡ flagged ten
unfolding run apaf_self_test tick_times equal_tasks
apaf_passes = refl

abbrev ten_entries : Metrics → List Metrics
ten_entries m = m ∷ m ∷ m ∷ m ∷ m ∷ m ∷ m ∷ m ∷ m ∷ m ∷ []

-- Whatever the buffer holds before the call.
metrics_passes : (m : Metrics) → metrics_self_test true (ten_entries m) ≡ printed seven
unfolding run metrics_self_test csv_file print_row print_rows cut print_nat print_int print_double
    print_millionths emit pad
metrics_passes m = refl

-- Where the file does not open, the sixth test fails, and the program still returns 0.
metrics_unopened :
    (m : Metrics)
    → metrics_self_test false (ten_entries m)
      ≡ printed (true ∷ true ∷ true ∷ true ∷ true ∷ false ∷ true ∷ [])
unfolding run metrics_self_test csv_file
metrics_unopened m = refl
