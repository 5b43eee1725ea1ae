-- ===== src/Experiment/Csv.antt =====
-- The CSV file that a run of experiment 1 leaves.
use mathlib.Core.List.{map-append}
use mathlib.Core.Path.{subst}
use native.Mathlib.Nat.{add-zero, zero-add}
use approximation_computing.Common.{
  ℕ, zero, suc, ◌+◌, ◌*◌, ◌^◌, ◌<◌, ◌≡◌, ◌⊎◌, refl, ◌∙◌, ap, arith, true, some, List, [], ◌∷◌, ◌++◌,
  map, ℤ, pos, All, All-append,
}
use approximation_computing.Task.{CfsRq, tick_ns}
use approximation_computing.Exact.{exact_tick}
use approximation_computing.Fairness.Controller.{IsState}
use approximation_computing.Metrics.{Metrics, metrics_record}
use approximation_computing.Text.{Bytes}
use approximation_computing.Metrics.Csv.{Entry, csv_file, read_csv}
use approximation_computing.Metrics.Csv.RoundTrip.{IsNamed, seen}
use approximation_computing.Metrics.Csv.File.{csv_file-read}
use approximation_computing.Ticks.Reachable.{Reachable, Reachable-IsValid}
use approximation_computing.Ticks.OnTime.{Reachable-IsOnTime}
use approximation_computing.Experiment.{Lanes, tick_of, lockstep, run_ticks, start_lanes}
use approximation_computing.Experiment.Busy.{IsBusy, IsMode, tick_of-IsBusy, start-IsBusy}
use approximation_computing.Experiment.Lockstep.{
  start-Reachable, tick_of-Reachable, run_ticks_in_step,
}

-- 1 to `k`.
abbrev pub up_to : ℕ → List ℕ
up_to zero = []
up_to (suc k) = up_to k ++ suc k ∷ []

-- An entry of this scheduler.
abbrev IsOf : ℤ → Metrics → Type 0
IsOf logic m = (m.logic_used ≡ logic) × IsState m.apaf_state

-- After `k` ticks there is an entry for each of them, in order.
record IsLogged (n k : ℕ) (logic : ℤ) (s : Lanes) : Type 0 where
  busy : IsBusy n k logic s.approx_rq
  reached : Reachable k s.approx_rq
  ticks : map (λ m. m.tick) s.entries ≡ up_to k
  named : All (IsOf logic) s.entries

lockstep-IsLogged :
    (n k : ℕ) (logic : ℤ) (s : Lanes)
    → 0 < n
    → suc k * tick_ns < 2 ^ 64
    → IsLogged n k logic s
    → IsLogged n (suc k) logic (lockstep logic s)
unfolding lockstep metrics_record
lockstep-IsLogged n k logic s some_task fits h =
    let rq : CfsRq = tick_of logic s.approx_rq in
    let (busy, measured) = tick_of-IsBusy n k logic logic s.approx_rq some_task fits h.busy in
    let reached = tick_of-Reachable logic k s.approx_rq h.reached in
    let shown = (Reachable-IsOnTime (suc k) rq reached fits).ticked in
    let entry : Metrics = metrics_record rq (exact_tick s.exact_rq) in
    record {
      busy = busy;
      reached = reached;
      ticks =
          map-append (λ m. m.tick) s.entries (entry ∷ [])
          ∙ ap (λ l. l ++ rq.tick ∷ []) h.ticks
          ∙ ap (λ t. up_to k ++ t ∷ []) shown;
      named =
          All-append (IsOf logic) s.entries entry h.named
            (busy.keeps_mode, (Reachable-IsValid (suc k) rq reached).state);
    }

run_ticks-IsLogged :
    (ticks n k : ℕ) (logic : ℤ) (s : Lanes)
    → 0 < n
    → (k + ticks) * tick_ns < 2 ^ 64
    → IsLogged n k logic s
    → IsLogged n (k + ticks) logic (run_ticks ticks logic s)
unfolding run_ticks
run_ticks-IsLogged zero n k logic s some_task fits h = rw add-zero h
run_ticks-IsLogged (suc ticks) n k logic s some_task fits h =
    let moved : k + suc ticks ≡ suc k + ticks = omega arith in
    rw moved (
      run_ticks-IsLogged ticks n (suc k) logic (lockstep logic s) some_task (omega arith)
        (lockstep-IsLogged n k logic s some_task (omega arith) h))

start-IsLogged : (n : ℕ) (logic : ℤ) → IsMode logic → IsLogged n 0 logic (start_lanes n logic)
unfolding start_lanes
start-IsLogged n logic mode = record {
  busy = start-IsBusy n logic mode;
  reached = start-Reachable n logic;
  ticks = refl;
  named = tt;
}

run-IsLogged :
    (n ticks : ℕ) (logic : ℤ)
    → 0 < n
    → IsMode logic
    → ticks * tick_ns < 2 ^ 64
    → IsLogged n ticks logic (run_ticks ticks logic (start_lanes n logic))
run-IsLogged n ticks logic some_task mode fits =
    subst (λ k. IsLogged n k logic (run_ticks ticks logic (start_lanes n logic))) (zero-add ticks)
      (run_ticks-IsLogged ticks n 0 logic (start_lanes n logic) some_task (omega arith)
        (start-IsLogged n logic mode))

mode-cases :
    (logic : ℤ)
    → IsMode logic
    → (logic ≡ pos 0) ⊎ ((logic ≡ pos 1) ⊎ ((logic ≡ pos 2) ⊎ (logic ≡ pos 3)))
mode-cases logic h = ground arith

IsOf-IsNamed : (logic : ℤ) (ms : List Metrics) → IsMode logic → All (IsOf logic) ms → All IsNamed ms
IsOf-IsNamed logic [] mode h = tt
IsOf-IsNamed logic (m ∷ ms) mode ((e, s), hs) =
    ((rw e (mode-cases logic mode), s), IsOf-IsNamed logic ms mode hs)

-- A row of this run.
abbrev pub IsRowOf : ℕ → ℤ → Entry → Type 0
IsRowOf n logic e = (e.logic_used ≡ logic) × (e.n_tasks ≡ pos n)

seen-IsRowOf :
    (n : ℕ) (logic : ℤ) (ms : List Metrics)
    → All (IsOf logic) ms
    → All (IsRowOf n logic) (map (seen (pos n)) ms)
seen-IsRowOf n logic [] h = tt
seen-IsRowOf n logic (m ∷ ms) ((e, s), hs) = ((e, refl), seen-IsRowOf n logic ms hs)

map-seen : (n : ℤ) (ms : List Metrics) → map (λ e. e.tick) (map (seen n) ms) ≡ map (λ m. m.tick) ms
map-seen n [] = refl
map-seen n (m ∷ ms) = ap (λ l. m.tick ∷ l) (map-seen n ms)

-- The file that a run of experiment 1 leaves, where it opens, is read back as one row for each tick,
-- numbered from 1 on, that names the scheduler and the number of tasks: for at least one task, from one
-- tick to 4294 (2^32 ns), up to which the square of the CPU times' sum does not wrap, so that no
-- index is a NaN.
pub run_ticks-csv :
    (n ticks : ℕ) (logic : ℤ)
    → 0 < n
    → 0 < ticks
    → IsMode logic
    → ticks * tick_ns < 2 ^ 32
    → let s = run_ticks ticks logic (start_lanes n logic) in
      (text : Bytes) × (rows : List Entry) × (csv_file true s.entries (pos ticks) (pos n)
        ≡ some text)
      × (read_csv text ≡ some rows)
      × (map (λ e. e.tick) rows ≡ up_to ticks)
      × All (IsRowOf n logic) rows
run_ticks-csv n ticks logic some_task some_tick mode fits =
    let s : Lanes = run_ticks ticks logic (start_lanes n logic) in
    let h = run-IsLogged n ticks logic some_task mode (omega arith) in
    let many = (run_ticks_in_step n ticks logic (omega arith)).4 in
    let (text, written, read, near) =
      csv_file-read s.entries ticks (pos n) some_tick many
        (IsOf-IsNamed logic s.entries mode h.named) in
    (
      text,
      map (seen (pos n)) s.entries,
      written,
      read,
      map-seen (pos n) s.entries ∙ h.ticks,
      seen-IsRowOf n logic s.entries h.named,
    )
