-- ===== src/SelfTest.antt =====
-- The self-tests of apex-cfs/src: the `main` at the end of each source file. A test is the condition
-- under which its PASS line is printed.
pub mod Task
pub mod Fairness
pub mod Metrics
pub mod Exact
pub mod Bsa
pub mod Clti
pub mod Apaf
use approximation_computing.Common.{
  ℕ, zero, suc, Bool, true, false, not, ◌&&◌, List, [], ◌∷◌, map, get_or, if◌then◌else◌, ℤ, pos,
}
use approximation_computing.Double.{Double, of_nat, sub, mul, div, fabs, lt}
use approximation_computing.Task.{CfsRq, rq_init}
use approximation_computing.Experiment.{equal_tasks}

-- What a self-test leaves: the tests that print PASS, and the exit code.
pub record Outcome : Type 0 where
  pub passed : List Bool
  pub exit_code : ℕ

abbrev pub all_passed : List Bool → Bool
all_passed [] = true
all_passed (test ∷ tests) = test && all_passed tests

-- A self-test that only prints.
abbrev pub printed : List Bool → Outcome
printed tests = record { passed = tests; exit_code = 0 }

-- A self-test that keeps the flag `ok`.
abbrev pub flagged : List Bool → Outcome
flagged tests = record { passed = tests; exit_code = if all_passed tests then 0 else 1 }

-- a <= b on doubles.
abbrev pub le : Double → Double → Bool
le a b = not (lt b a)

abbrev pub is_within : Double → Double → Double → Bool
is_within low x high = le low x && le x high

-- fabs((double)exact - (double)approx) / (double)exact * 100.0.
abbrev pub error_of : ℕ → ℕ → Double
error_of exact approx =
    mul (div (fabs (sub (of_nat exact) (of_nat approx))) (of_nat exact)) (of_nat 100)

-- `for (i = 0; i < n; i++) tick(&rq);`
unfoldable pub tick_times : ℕ → (CfsRq → CfsRq) → CfsRq → CfsRq
tick_times zero tick rq = rq
tick_times (suc n) tick rq = tick_times n tick (tick rq)

-- `rq_init` of `n` tasks that `task_create(i, 0)` makes.
abbrev pub equal_rq : ℕ → ℤ → CfsRq
equal_rq n mode = rq_init (equal_tasks n 0) (pos n) mode

-- `rq.tasks[0].load_avg`.
abbrev pub first_load : CfsRq → ℕ
first_load rq = get_or (map (λ t. t.load_avg) rq.tasks) 0 0
