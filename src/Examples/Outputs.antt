-- ===== src/Examples/Outputs.antt =====
-- The theorems on files, shares and empty runqueues at concrete inputs.
use approximation_computing.Common.{
  ◌^◌, ◌*◌, ◌+◌, ◌<◌, ◌≤◌, ◌≡◌, inl, inr, refl, arith, true, some, List, [], ◌∷◌, map, pos, All,
  take,
}
use approximation_computing.Double.{Double, decimal}
use approximation_computing.Task.{CfsTask, CfsRq, apaf_loose, task_create, rq_init}
use approximation_computing.Fairness.{fairness_cpu_shares}
use approximation_computing.Fairness.Shares.{AddUp, fairness_cpu_shares-AddUp}
use approximation_computing.Exact.{exact_decay_load}
use approximation_computing.Exact.Ideal.{exact_decay_load-ideal}
use approximation_computing.Task.Print.{rq_print}
use approximation_computing.Task.Print.Reader.{read_rq, printed_rq}
use approximation_computing.Task.Print.Runqueue.{rq_print-read}
use approximation_computing.Metrics.{Metrics, fresh}
use approximation_computing.Metrics.Csv.{Entry, csv_file, read_csv}
use approximation_computing.Metrics.Csv.RoundTrip.{seen}
use approximation_computing.Metrics.Csv.File.{AreNear, csv_file-read}
use approximation_computing.Text.{Bytes}
use approximation_computing.Experiment.{run_ticks, start_lanes}
use approximation_computing.Experiment.Csv.{IsRowOf, up_to, run_ticks-csv}

abbrev loose_entry : Metrics
loose_entry = record fresh {
  tick = 7;
  logic_used = pos 3;
  jain_index = decimal 97512345678 11;
  ops_saved = 40;
  apaf_state = apaf_loose;
}

abbrev buf : List Metrics
buf = fresh ∷ loose_entry ∷ []

csv_file-read_example :
    (text : Bytes) × (csv_file true buf (pos 2) (pos 10) ≡ some text)
    × (read_csv text ≡ some (map (seen (pos 10)) buf))
    × All (AreNear (pos 10)) buf
csv_file-read_example =
    csv_file-read buf 2 (pos 10) (omega arith) refl
      ((inl refl, inr (inl refl)), ((inr (inr (inr refl)), inr (inr refl)), tt))

run_ticks-csv_example :
    let s = run_ticks 5 (pos 3) (start_lanes 3 (pos 3)) in
    (text : Bytes) × (rows : List Entry) × (csv_file true s.entries (pos 5) (pos 3) ≡ some text)
    × (read_csv text ≡ some rows)
    × (map (λ e. e.tick) rows ≡ up_to 5)
    × All (IsRowOf 3 (pos 3)) rows
run_ticks-csv_example =
    run_ticks-csv 3 5 (pos 3) (omega arith) (omega arith) (omega arith) (omega arith)

-- Three tasks, of which the second is blocked.
abbrev three_tasks : List CfsTask
three_tasks =
    record (task_create (pos 0) (pos 0)) { exec_runtime = 3000000 }
    ∷ record (task_create (pos 1) (pos 0)) { exec_runtime = 5000000; runnable = pos 0 }
    ∷ record (task_create (pos 2) (pos 5)) { exec_runtime = 4000000 }
    ∷ []

abbrev three : CfsRq
three = rq_init three_tasks (pos 3) (pos 0)

abbrev cells : List Double
cells = pos 0 ∷ pos 0 ∷ pos 0 ∷ pos 0 ∷ []

fairness_cpu_shares-AddUp_example : AddUp (take 3 (fairness_cpu_shares three cells (pos 4)))
unfolding rq_init task_create
fairness_cpu_shares-AddUp_example =
    fairness_cpu_shares-AddUp three cells (pos 4) refl (omega arith) (omega arith) (omega arith)
      (omega arith) (omega arith)

exact_decay_load-ideal_example :
    let r = exact_decay_load 47742 40 in
    (r ^ 32 * 2 ^ 40 ≤ 47742 ^ 32) × (47742 ^ 32 < (r + 3) ^ 32 * 2 ^ 40)
exact_decay_load-ideal_example = exact_decay_load-ideal 47742 40 (omega arith)

rq_print-read_example : read_rq (rq_print three) ≡ some (printed_rq three)
unfolding rq_init
rq_print-read_example = rq_print-read three refl
