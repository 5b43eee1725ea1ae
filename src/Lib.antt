-- ===== src/Lib.antt =====
-- The verification library of APEX-CFS (apex-cfs/), a simulation of the scheduler of the Linux kernel
-- that compares the exact load tracking with three approximations of it.
--
-- A runqueue (`cfs_rq_t`, Task.CfsRq) holds an array of tasks, a clock and the state of a controller.
-- One tick advances the clock, picks the running task of least vruntime, charges it 1 ms, decays the
-- load of every task by a period, and measures Jain's fairness index. The four schedulers differ in
-- two functions, the one that scales the charge by the weight and the one that decays a load; APAF
-- moreover chooses its accuracy by a controller that watches the index. Pointers become values: an
-- operation takes the runqueue and returns the new one.
--
-- Task.antt: apex-cfs/src/task.h and task.c (task_create, rq_init, rq_tick, rq_count_running);
--   Task/Print.antt is the text of task_print and rq_print, with readers below it.
-- Fairness.antt: apex-cfs/src/fairness.c (fairness_jain_index, fairness_apaf_next_state, shares).
-- Logic.antt: the bodies that `*_update_curr`, `*_update_load_avg` and the ticks have in common.
-- Exact.antt, Bsa.antt, Clti.antt, Apaf.antt: apex-cfs/src/cfs_exact.c, approx_bsa.c, approx_clti.c
--   and approx_apaf.c, function for function under the same names.
-- Metrics.antt: apex-cfs/src/metrics.c (snapshots, CSV rows, summary); Metrics/Csv.antt is the text of
--   the CSV file, with a reader of such files.
-- Experiment.antt: run_experiment of apex-cfs/experiments/exp1_equal_weight.c, the run of the exact
--   scheduler and another one side by side; Experiment/Main.antt is its main.
-- MixedLoad.antt: run_exp2 of apex-cfs/experiments/exp2_mixed_load.c, with an interactive task that is
--   blocked and woken; MixedLoad/Main.antt is its main.
-- Spike.antt: the loop of apex-cfs/experiments/exp3_dynamic_spike.c, where the number of running tasks
--   jumps and APAF's changes of state are logged; Spike/Summary.antt is what its main computes
--   behind the loop.
-- ErrorBound.antt: run_exp4 of apex-cfs/experiments/exp4_error_bound.c, the error of every tick against
--   the bound of the scheduler; ErrorBound/Verdict.antt is its main.
-- Ticks.antt: the specification of a tick and, below it, the proofs that the four ticks meet it.
-- SelfTest.antt and the files below it: the `main` under #ifdef at the end of each file of
--   apex-cfs/src, with the condition of each of its tests; Examples/SelfTests.antt runs them.
-- Text.antt: the texts that printf writes for %llu, %d, %s and %.6f, and how they are read back.
-- Double.antt: the C type double, as IEEE 754 binary64 with round to nearest even.
-- Words.antt, Common.antt: u64 and u32 with their wrap, and shared names and lemmas.
-- Run.antt, Examples.antt: runs at concrete inputs.
--
-- Bounds. u64 and u32 wrap at 2^64 and 2^32; the 128-bit intermediates hold every product taken in
-- them. The loop of bsa_nearest_pow2 has fuel 32: a u32 is doubled at most 31 times before it wraps
-- to 0, which ends the loop. A double is a multiple of 2^-1074, without infinities and NaN. The
-- divisors are tested, or positive constants (the number of ticks of an experiment is positive in every
-- call), but for one: in fairness_jain_index the product n * sum_sq can wrap to 0. The quotient is
-- then infinite, and cut to 1.0 in the code and here; but where sum * sum wraps to 0 as well it is
-- 0.0 / 0.0, and the code stores a NaN where the model stores 1.0. That takes running tasks that have
-- together run for 2^32 ns (more than 4294 ticks); every comparison of the controller with a NaN fails,
-- so APAF keeps its state. All other values stay far below 2^1024. Arguments of type int that no
-- caller makes negative (periods, local_n) are natural numbers.
--
-- Pointers. The NULL array of tasks is the empty list, so a guard that only keeps the code from reading
-- through NULL cannot be told from its absence where the loop behind it finds no task; pointers to
-- a runqueue or a task are never NULL.
--
-- Not modelled: the printing to the console of the summaries and the reports of the experiments (their
-- numbers are fields of the results), the failure of a write to a file that is open, and
-- apex-cfs/docs, which holds copies of kernel files that nothing is compiled from.
pub mod Common
pub mod Double
pub mod Words
pub mod Task
pub mod Fairness
pub mod Logic
pub mod Exact
pub mod Bsa
pub mod Clti
pub mod Apaf
pub mod Metrics
pub mod Ticks
pub mod Experiment
pub mod MixedLoad
pub mod ErrorBound
pub mod Spike
pub mod Run
pub mod Examples
pub mod Text
pub mod SelfTest
