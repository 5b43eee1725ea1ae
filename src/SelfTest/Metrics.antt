-- ===== src/SelfTest/Metrics.antt =====
-- The self-test of apex-cfs/src/metrics.c.
use Prim.Native.String.{String}
use approximation_computing.Common.{
  ℕ, zero, suc, ◌+◌, Bool, true, false, ◌&&◌, Option, none, some, List, [], ◌∷◌, get_or, ◌==◌, ℤ,
  pos, ◌==ℤ◌,
}
use approximation_computing.Double.{one, decimal, sub, fabs}
use approximation_computing.Task.{
  CfsTask, CfsRq, apaf_tight, apaf_medium, apaf_loose, task_create, rq_init,
}
use approximation_computing.Metrics.{
  Metrics, fresh, metrics_init, metrics_record, metrics_get_logic_name, metrics_get_state_name,
}
use approximation_computing.Metrics.Csv.{metrics_csv_header, line_feed, csv_file}
use approximation_computing.Text.{Bytes, codes, same}
use approximation_computing.Text.Read.{cut}
use approximation_computing.SelfTest.{Outcome, printed, le}

-- Three tasks of nice value 0 with this load.
abbrev loaded_tasks : ℕ → List CfsTask
loaded_tasks load =
    let t : ℤ → CfsTask = λ id. record (task_create id (pos 0)) { load_avg = load } in
    t (pos 0) ∷ t (pos 1) ∷ t (pos 2) ∷ []

abbrev rq_a : CfsRq
rq_a = record (rq_init (loaded_tasks 990) (pos 3) (pos 1)) { tick = 42 }

abbrev rq_b : CfsRq
rq_b = rq_init (loaded_tasks 1000) (pos 3) (pos 0)

-- Test 2.
unfoldable pub record_test : Metrics → Bool
record_test m =
    (m.tick == 42)
    && (m.logic_used ==ℤ pos 1)
    && le (fabs (sub m.max_error_pct (pos one))) (decimal 1 1)

-- Test 3: the operations saved in this mode.
abbrev saved_in : ℤ → ℕ
saved_in mode =
    let rq : CfsRq = record rq_a { nr_running = 3; apaf_state = apaf_loose; approx_mode = mode } in
    (metrics_record rq rq_b).ops_saved

abbrev is_named : String → String → Bool
is_named name expected = same (codes name) (codes expected)

-- Test 6: the entries that are written, numbered from `i` on.
abbrev sample_entries : ℕ → ℕ → List Metrics
sample_entries zero i = []
sample_entries (suc n) i =
    record fresh {
      tick = i;
      logic_used = pos 1;
      max_error_pct = decimal 5 1;
      avg_error_pct = decimal 25 2;
      ops_saved = 10;
    }
    ∷ sample_entries n (i + 1)

-- `fgets`, of a file that could be written.
unfoldable pub header_test : Option Bytes → Bool
header_test none = false
header_test (some text) = same (get_or (cut line_feed text) 0 []) (codes metrics_csv_header)

-- `buf` is the buffer before the call of `metrics_init`; `opened` says whether the file opens, for
-- writing and then for reading. The last test only prints.
unfoldable pub metrics_tests : Bool → List Metrics → List Bool
unfolding record_test header_test
metrics_tests opened buf =
    let reset = metrics_init buf (pos 10) in
    let first = get_or reset 0 fresh in
    let sixth = get_or reset 5 fresh in
    ((first.tick == 0) && (first.jain_index ==ℤ pos one) && (sixth.apaf_state ==ℤ apaf_medium))
    ∷ record_test (metrics_record rq_a rq_b)
    ∷ ((saved_in (pos 0) == 0)
        && (saved_in (pos 1) == 3)
        && (saved_in (pos 2) == 12)
        && (saved_in (pos 3) == 12))
    ∷ (is_named (metrics_get_logic_name (pos 0)) "EXACT"
        && is_named (metrics_get_logic_name (pos 1)) "BSA"
        && is_named (metrics_get_logic_name (pos 2)) "CLTI"
        && is_named (metrics_get_logic_name (pos 3)) "APAF"
        && is_named (metrics_get_logic_name (pos 9)) "UNKNOWN")
    ∷ (is_named (metrics_get_state_name (pos 3) apaf_tight) "TIGHT"
        && is_named (metrics_get_state_name (pos 3) apaf_medium) "MEDIUM"
        && is_named (metrics_get_state_name (pos 3) apaf_loose) "LOOSE"
        && is_named (metrics_get_state_name (pos 1) apaf_tight) "N/A")
    ∷ header_test (csv_file opened (sample_entries 5 0) (pos 5) (pos 3))
    ∷ true
    ∷ []

unfoldable pub metrics_self_test : Bool → List Metrics → Outcome
unfolding metrics_tests
metrics_self_test opened buf = printed (metrics_tests opened buf)
