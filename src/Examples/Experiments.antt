-- ===== src/Examples/Experiments.antt =====
-- The theorems on the experiments of apex-cfs/experiments at concrete numbers of tasks and ticks.
use approximation_computing.Common.{
  ◌+◌, ◌≤ℤ◌, ◌++◌, ℕ, ◌*◌, ◌≤◌, ◌≡◌, ◌↔◌, ◌⊎◌, arith, Bool, true, false, some, none, [], ◌&&◌, ℤ,
  pos, pos_part, All, length, if◌then◌else◌, ◌==ℤ◌,
}
use approximation_computing.Double.{one, decimal}
use approximation_computing.Task.{tick_ns}
use approximation_computing.Experiment.{run_ticks, start_lanes, run_experiment}
use approximation_computing.Experiment.LoadError.ApafBound.{run_experiment-apaf_error}
use approximation_computing.Experiment.LoadError.Bounds.{run_experiment-load_error}
use approximation_computing.Text.Read.{millionths}
use approximation_computing.Experiment.Fair.{IsFairShare, run_ticks-IsFairShare}
use approximation_computing.Experiment.Jain.{run_experiment-fair}
use approximation_computing.Experiment.Saved.{least_saved, greatest_saved, run_experiment-saves}
use approximation_computing.Experiment.Main.{n_values, failures, main_exp1, main_exp1-warnings}
use approximation_computing.MixedLoad.Report.{run_exp2, run_exp2-max_wait}
use approximation_computing.MixedLoad.Share.{woken_before, run_exp2-share}
use approximation_computing.MixedLoad.Main.{main_exp2, main_exp2-warnings, starved, wait_warning}
use approximation_computing.ErrorBound.{run_exp4}
use approximation_computing.ErrorBound.Report.{IsVerified, run_exp4-IsVerified}
use approximation_computing.ErrorBound.Verdict.{
  main_exp4, main_exp4-exit_code, all_within, no_violations_detected,
}
use approximation_computing.Spike.{spike_loop, start_spike, total_ticks}
use approximation_computing.Spike.Log.{IsKept}
use approximation_computing.Spike.Transitions.{spike_loop-IsKept}
use approximation_computing.Spike.Summary.{SpikeReport, main_exp3}
use approximation_computing.Spike.Phases.{spike_loop-HasRunning}
use approximation_computing.Spike.Flags.{HasRunning}
use approximation_computing.Spike.Report.{IsReported, main_exp3-IsReported}

run_experiment-load_error_example :
    let reported = λ (logic : ℤ). millionths (run_experiment true 10 logic 1000).max_error_pct in
    (reported (pos 0) ≡ pos 0)
    × (reported (pos 1) ≡ pos 31445312)
    × (reported (pos 2) ≡ pos 3021148)
run_experiment-load_error_example =
    run_experiment-load_error 10 1000 (omega arith) (omega arith) (omega arith)

run_experiment-apaf_error_example :
    (run_experiment true 100 (pos 3) 1000).max_error_pct ≤ℤ decimal 518 2
run_experiment-apaf_error_example = run_experiment-apaf_error 100 1000 (omega arith) (omega arith)

run_exp2-max_wait_example : (run_exp2 true (pos 3) 2000).max_wait_ticks ≤ 5
run_exp2-max_wait_example = run_exp2-max_wait true (pos 3) 2000

run_ticks-IsFairShare_example :
    let s = run_ticks 1000 (pos 3) (start_lanes 10 (pos 3)) in
    (length s.approx_rq.tasks ≡ 10) × All (IsFairShare 10 (1000 * tick_ns)) s.approx_rq.tasks
run_ticks-IsFairShare_example =
    run_ticks-IsFairShare 10 1000 (pos 3) (omega arith) (omega arith, omega arith) (omega arith)

run_experiment-fair_example :
    let j = (run_experiment true 50 (pos 1) 1000).final_jain in
    (7 * one ≤ 8 * pos_part j) × (pos_part j ≤ one)
run_experiment-fair_example =
    run_experiment-fair 50 1000 (pos 1) (omega arith) (omega arith) (omega arith)
      (omega arith, omega arith)

run_experiment-saves_example :
    let saved = (run_experiment true 100 (pos 3) 1000).total_ops_saved in
    (least_saved (pos 3) * 100 * 1000 ≤ saved) × (saved ≤ greatest_saved (pos 3) * 100 * 1000)
run_experiment-saves_example =
    run_experiment-saves 100 1000 (pos 3) (omega arith) (omega arith, omega arith) (omega arith)
      (omega arith) (omega arith)

-- The allocations of one run fail: that of APAF.
abbrev without_apaf : ℕ → ℤ → Bool
without_apaf n logic = if logic ==ℤ pos 3 then false else true

main_exp1-warnings_example :
    let o = main_exp1 without_apaf true in
    (o.warnings ≡ (if true then failures without_apaf n_values else []))
    × (o.exit_code ≡ (if true then 0 else 1))
main_exp1-warnings_example = main_exp1-warnings without_apaf true

run_exp4-IsVerified_example :
    IsVerified (run_exp4 true (pos 3) []).0 × ((run_exp4 true (pos 3) []).1 ≡ [])
run_exp4-IsVerified_example = run_exp4-IsVerified (pos 3) []

main_exp4-exit_code_example :
    let v = main_exp4 (λ l. without_apaf 20 l) true in
    let all = without_apaf 20 (pos 1) && (without_apaf 20 (pos 2) && without_apaf 20 (pos 3)) in
    ((v.exit_code ≡ 0) ↔ (all ≡ true))
    × ((v.conclusion ≡ all_within) ↔ (all ≡ true))
    × (v.violations_file ≡ (if true then some no_violations_detected else none))
main_exp4-exit_code_example = main_exp4-exit_code (λ l. without_apaf 20 l) true

spike_loop-IsKept_example :
    let s = spike_loop total_ticks 0 start_spike in
    IsKept s.transitions s.apaf_rq.apaf_state total_ticks
spike_loop-IsKept_example = spike_loop-IsKept total_ticks (omega arith)

main_exp3-IsReported_example :
    ((true ≡ true) × ((r : SpikeReport) × (main_exp3 true ≡ (some r, 0)) × IsReported r))
    ⊎ ((true ≡ false) × (main_exp3 true ≡ (none, 1)))
main_exp3-IsReported_example = main_exp3-IsReported true

run_exp2-share_example :
    let r = run_exp2 true (pos 3) 2000 in
    (2 * (2000 * tick_ns) ≤ 7 * r.interactive_exec_runtime + 30 * tick_ns)
    × (r.interactive_exec_runtime ≤ woken_before 2000 * tick_ns)
    × (one ≤ 4 * pos_part r.interactive_cpu_share)
    × (pos_part r.interactive_cpu_share ≤ one)
run_exp2-share_example = run_exp2-share (pos 3) 2000 (omega arith) (omega arith)

main_exp2-warnings_example :
    let o = main_exp2 (λ l. without_apaf 11 l) true in
    (o.warnings ≡ (if true then starved (λ l. without_apaf 11 l) ++ wait_warning o.row else []))
    × (o.exit_code ≡ (if true then 0 else 1))
main_exp2-warnings_example = main_exp2-warnings (λ l. without_apaf 11 l) true

spike_loop-HasRunning_example :
    let s = spike_loop 1000 0 start_spike in HasRunning 55 s.exact_rq × HasRunning 55 s.apaf_rq
spike_loop-HasRunning_example = spike_loop-HasRunning 999
