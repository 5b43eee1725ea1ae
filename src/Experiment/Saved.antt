-- ===== src/Experiment/Saved.antt =====
-- Experiment 1: the operations that each scheduler saves.
use mathlib.Core.Path.{subst}
use approximation_computing.Common.{
  ℕ, zero, suc, ◌+◌, ◌*◌, ◌^◌, ◌≤◌, ◌<◌, ◌≡◌, arith, true, if◌then◌else◌, List, [], ◌∷◌, ℤ, pos,
  ◌==ℤ◌, length, mul-le-mul_right, All, All-append,
}
use approximation_computing.Task.{CfsRq, tick_ns}
use approximation_computing.Exact.{exact_tick}
use approximation_computing.Metrics.{Metrics, ops_saved_of, metrics_record}
use approximation_computing.Experiment.{
  Lanes, Totals, no_totals, totals_step, totals_loop, tick_of, lockstep, run_ticks, start_lanes,
  run_experiment,
}
use approximation_computing.Experiment.Busy.{IsBusy, IsMode, tick_of-IsBusy, start-IsBusy}
use approximation_computing.Experiment.Lockstep.{run_ticks_in_step}

-- The least and the greatest number of operations that a scheduler saves for one task in one tick.
abbrev pub least_saved : ℤ → ℕ
least_saved logic =
    if logic ==ℤ pos 1 then 1 else if logic ==ℤ pos 2 then 4 else if logic ==ℤ pos 3 then 2 else 0

abbrev pub greatest_saved : ℤ → ℕ
greatest_saved logic =
    if logic ==ℤ pos 1 then 1 else if logic ==ℤ pos 2 then 4 else if logic ==ℤ pos 3 then 4 else 0

record IsSaving (least greatest ops : ℕ) : Type 0 where
  low : least ≤ ops
  high : ops ≤ greatest

ops_saved_of-IsSaving :
    (n : ℕ) (logic : ℤ) (rq : CfsRq)
    → 4 * n < 2 ^ 64
    → rq.nr_running ≡ n
    → rq.approx_mode ≡ logic
    → IsSaving (least_saved logic * n) (greatest_saved logic * n) (ops_saved_of rq)
unfolding ops_saved_of
ops_saved_of-IsSaving n logic rq fits e m = record { low = ground arith; high = ground arith }

-- What an entry of the experiment counts as saved.
abbrev Saves : ℕ → ℤ → Metrics → Type 0
Saves n logic m = IsSaving (least_saved logic * n) (greatest_saved logic * n) m.ops_saved

metrics_record-Saves :
    (n : ℕ) (logic : ℤ) (rq exact_rq : CfsRq)
    → 4 * n < 2 ^ 64
    → rq.nr_running ≡ n
    → rq.approx_mode ≡ logic
    → Saves n logic (metrics_record rq exact_rq)
unfolding metrics_record
metrics_record-Saves n logic rq exact_rq fits e m = ops_saved_of-IsSaving n logic rq fits e m

run_ticks-Saves :
    (ticks n k : ℕ) (logic : ℤ) (s : Lanes)
    → 0 < n
    → 4 * n < 2 ^ 64
    → (k + ticks) * tick_ns < 2 ^ 64
    → IsBusy n k logic s.approx_rq
    → All (Saves n logic) s.entries
    → All (Saves n logic) (run_ticks ticks logic s).entries
unfolding run_ticks lockstep
run_ticks-Saves zero n k logic s h small fits b all = all
run_ticks-Saves (suc ticks) n k logic s h small fits b all =
    let (busy, measured) = tick_of-IsBusy n k logic logic s.approx_rq h (omega arith) b in
    run_ticks-Saves ticks n (suc k) logic (lockstep logic s) h small (omega arith) busy (
      All-append (Saves n logic) s.entries _ all (
        metrics_record-Saves n logic (tick_of logic s.approx_rq) (exact_tick s.exact_rq) small
          measured.counted busy.keeps_mode))

totals_loop-saves :
    (least greatest : ℕ) (ms : List Metrics) (t : Totals)
    → All (λ m. IsSaving least greatest m.ops_saved) ms
    → t.total_ops + greatest * length ms < 2 ^ 64
    → IsSaving
        (t.total_ops + least * length ms)
        (t.total_ops + greatest * length ms)
        (totals_loop ms t).total_ops
unfolding totals_loop totals_step
totals_loop-saves least greatest [] t all fits = record { low = omega arith; high = omega arith }
totals_loop-saves least greatest (m ∷ ms) t all fits =
    let low = all.0.low in
    let high = all.0.high in
    let rest = totals_loop-saves least greatest ms (totals_step m t) all.1 (omega arith) in
    let low' = rest.low in let high' = rest.high in record { low = omega arith; high = omega arith }

greatest_saved-le : (logic : ℤ) → greatest_saved logic ≤ 4
greatest_saved-le logic = ground arith

-- For `n` equal tasks and some ticks, without a word that wraps, an experiment whose allocations succeed
-- reports for each task and tick 0 saved operations under the exact scheduler, 1 under BSA, 4 under
-- CLTI, and from 2 to 4 under APAF.
pub run_experiment-saves :
    (n ticks : ℕ) (logic : ℤ)
    → 0 < n
    → IsMode logic
    → ticks * tick_ns < 2 ^ 64
    → 4 * n * ticks < 2 ^ 64
    → 4 * n < 2 ^ 64
    → let saved = (run_experiment true n logic ticks).total_ops_saved in
      (least_saved logic * n * ticks ≤ saved) × (saved ≤ greatest_saved logic * n * ticks)
unfolding run_experiment start_lanes
run_experiment-saves n ticks logic h mode fits small few =
    let done = run_ticks ticks logic (start_lanes n logic) in
    let most = mul-le-mul_right n (greatest_saved-le logic) in
    let all_most = mul-le-mul_right ticks most in
    let many = (run_ticks_in_step n ticks logic fits).4 in
    let all =
      run_ticks-Saves ticks n 0 logic (start_lanes n logic) h few (omega arith)
        (start-IsBusy n logic mode) tt in
    let room : 0 + greatest_saved logic * n * length done.entries < 2 ^ 64 =
      rw many (omega arith) in
    let total =
      totals_loop-saves (least_saved logic * n) (greatest_saved logic * n) done.entries no_totals
        all room in
    let low : 0 + least_saved logic * n * ticks ≤ (totals_loop done.entries no_totals).total_ops =
      subst (λ k. 0 + least_saved logic * n * k ≤ (totals_loop done.entries no_totals).total_ops)
        many total.low in
    let high : (totals_loop done.entries no_totals).total_ops
        ≤ 0 + greatest_saved logic * n * ticks =
      subst (λ k. (totals_loop done.entries no_totals).total_ops ≤ 0 + greatest_saved logic * n * k)
        many total.high in
    (omega arith, omega arith)
