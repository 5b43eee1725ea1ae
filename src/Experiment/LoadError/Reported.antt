-- ===== src/Experiment/LoadError/Reported.antt =====
-- The largest error that a run of experiment 1 reports is that of the recursion on two load sums.
use approximation_computing.Common.{
  ℕ, zero, suc, ◌+◌, ◌*◌, ◌^◌, ◌<◌, ◌≡◌, ◌≢◌, inl, refl, ap, ◌∙◌, arith, true, none, List, [], ◌∷◌,
  ◌++◌, if◌then◌else◌, ℤ, pos, length, take_all, All,
}
use approximation_computing.Double.{Double, lt}
use approximation_computing.Task.{
  CfsRq, tick_ns, visited, task_create, clamp_nice, weight_of, rq_init,
}
use approximation_computing.Exact.{exact_pick_next_task, exact_decay_load, exact_tick}
use approximation_computing.Metrics.{Metrics, no_errors, metrics_record}
use approximation_computing.Ticks.Round.{picked-IsChoice}
use approximation_computing.Ticks.Even.{choice_of_even}
use approximation_computing.Experiment.{
  Lanes, Totals, no_totals, totals_step, totals_loop, tick_of, lockstep, run_ticks, equal_tasks,
  start_lanes, run_experiment,
}
use approximation_computing.Experiment.Busy.{IsBusy, IsMode, tick_of-IsBusy, start-IsBusy}
use approximation_computing.Experiment.LoadError.{
  decay_of, next_sum, average_of, worse, worst_from, worst_error,
}
use approximation_computing.Experiment.LoadError.Lane.{
  IsAt, Shows, Shows-IsAt, IsPlain, tick_of-Shows, error_loop_all,
}

pub totals_append :
    (ms : List Metrics) (m : Metrics) (t : Totals)
    → totals_loop (ms ++ m ∷ []) t ≡ totals_step m (totals_loop ms t)
unfolding totals_loop
totals_append [] m t = refl
totals_append (n ∷ ms) m t = totals_append ms m (totals_step n t)

pub busy-picks :
    (n k : ℕ) (mode : ℤ) (rq : CfsRq) → 0 < n → IsBusy n k mode rq → exact_pick_next_task rq ≢ none
busy-picks n k mode rq some_task b =
    let many = b.many in
    (choice_of_even b.base rq.tasks (exact_pick_next_task rq) b.even (omega arith)
      (picked-IsChoice rq b.sized)).0

-- After `k` ticks, with these load sums in the two lanes and this largest error so far.
record IsMeasured (n k : ℕ) (logic : ℤ) (exact approx : ℕ) (m : Double) (s : Lanes) : Type 0 where
  exact_lane : IsBusy n k (pos 0) s.exact_rq
  approx_lane : IsBusy n k logic s.approx_rq
  exact_load : All (IsAt exact) s.exact_rq.tasks
  approx_load : All (IsAt approx) s.approx_rq.tasks
  worst : (totals_loop s.entries no_totals).max_err ≡ m

-- What an entry shows where both lanes have tasks of the same load.
pub entry-worst :
    (n k : ℕ) (logic : ℤ) (exact approx : ℕ) (rq exact_rq : CfsRq)
    → 0 < n
    → IsBusy n k logic rq
    → IsBusy n k (pos 0) exact_rq
    → All (Shows approx) rq.tasks
    → All (Shows exact) exact_rq.tasks
    → (metrics_record rq exact_rq).max_error_pct
      ≡ worse (pos 0) (average_of approx) (average_of exact)
unfolding metrics_record
entry-worst n k logic exact approx rq exact_rq some_task b c h g =
    let many = b.many in
    let many' = c.many in
    let all : visited rq ≡ rq.tasks =
      rw b.sized (take_all (length rq.tasks) rq.tasks (omega arith)) in
    rw all (
      error_loop_all exact approx rq.tasks exact_rq.tasks no_errors h g (omega arith) (omega arith))

lockstep-IsMeasured :
    (n k : ℕ) (logic : ℤ) (exact approx : ℕ) (m : Double) (s : Lanes)
    → 0 < n
    → IsPlain logic
    → suc k * tick_ns < 2 ^ 64
    → IsMeasured n k logic exact approx m s
    → let exact' = next_sum exact_decay_load exact in
      let approx' = next_sum (decay_of logic) approx in
      let err = worse (pos 0) (average_of approx') (average_of exact') in
      IsMeasured n (suc k) logic exact' approx' (if lt m err then err else m) (lockstep logic s)
unfolding lockstep totals_step
lockstep-IsMeasured n k logic exact approx m s some_task plain fits h =
    let rq : CfsRq = tick_of logic s.approx_rq in
    let exact_rq : CfsRq = exact_tick s.exact_rq in
    let entry : Metrics = metrics_record rq exact_rq in
    let exact' = next_sum exact_decay_load exact in
    let approx' = next_sum (decay_of logic) approx in
    let b = (tick_of-IsBusy n k logic logic s.approx_rq some_task fits h.approx_lane).0 in
    let c = exact-IsBusy in
    let shown =
      tick_of-Shows logic approx s.approx_rq plain h.approx_lane.sized
        (busy-picks n k logic s.approx_rq some_task h.approx_lane) h.approx_load in
    let shown' = exact-Shows in
    let err = entry-worst n (suc k) logic exact' approx' rq exact_rq some_task b c shown shown' in
    record {
      exact_lane = c;
      approx_lane = b;
      exact_load = Shows-IsAt exact' exact_rq.tasks shown';
      approx_load = Shows-IsAt approx' rq.tasks shown;
      worst =
          ap (λ (t : Totals). t.max_err) (totals_append s.entries entry no_totals)
          ∙ rw (err, h.worst) refl;
    }
  where
    exact-IsBusy : IsBusy n (suc k) (pos 0) (exact_tick s.exact_rq)
    exact-IsBusy =
        unfold tick_of in
        (tick_of-IsBusy n k (pos 0) (pos 0) s.exact_rq some_task fits h.exact_lane).0

    exact-Shows : All (Shows (next_sum exact_decay_load exact)) (exact_tick s.exact_rq).tasks
    exact-Shows =
        unfold tick_of in
        (tick_of-Shows (pos 0) exact s.exact_rq (inl refl) h.exact_lane.sized
          (busy-picks n k (pos 0) s.exact_rq some_task h.exact_lane) h.exact_load)

run_ticks-worst :
    (ticks n k : ℕ) (logic : ℤ) (exact approx : ℕ) (m : Double) (s : Lanes)
    → 0 < n
    → IsPlain logic
    → (k + ticks) * tick_ns < 2 ^ 64
    → IsMeasured n k logic exact approx m s
    → (totals_loop (run_ticks ticks logic s).entries no_totals).max_err
      ≡ worst_from ticks (decay_of logic) exact approx m
unfolding run_ticks worst_from
run_ticks-worst zero n k logic exact approx m s some_task plain fits h = h.worst
run_ticks-worst (suc ticks) n k logic exact approx m s some_task plain fits h =
    run_ticks-worst ticks n (suc k) logic _ _ _ (lockstep logic s) some_task plain (omega arith)
      (lockstep-IsMeasured n k logic exact approx m s some_task plain (omega arith) h)

plain-IsMode : (logic : ℤ) → IsPlain logic → IsMode logic
plain-IsMode logic h = ground arith

pub equal_tasks-IsAt : (n i : ℕ) → All (IsAt 0) (equal_tasks n i)
unfolding equal_tasks task_create clamp_nice weight_of
equal_tasks-IsAt zero i = tt
equal_tasks-IsAt (suc n) i =
    (record { runs = refl; unit = refl; load = refl }, equal_tasks-IsAt n (i + 1))

start-IsMeasured :
    (n : ℕ) (logic : ℤ) → IsPlain logic → IsMeasured n 0 logic 0 0 (pos 0) (start_lanes n logic)
unfolding start_lanes totals_loop
start-IsMeasured n logic plain = record {
  exact_lane = start-IsBusy n (pos 0) (omega arith);
  approx_lane = start-IsBusy n logic (plain-IsMode logic plain);
  exact_load = unfold rq_init in equal_tasks-IsAt n 0;
  approx_load = unfold rq_init in equal_tasks-IsAt n 0;
  worst = refl;
}

-- Under the exact scheduler, BSA and CLTI the largest load error that a run of experiment 1 reports
-- does not depend on the number of tasks, of which there is at least one: it is the largest one along
-- a recursion on two load sums, that of the exact decay and that of the scheduler's, as long as the
-- clock does not wrap.
pub run_experiment-worst_error :
    (n ticks : ℕ) (logic : ℤ)
    → 0 < n
    → IsPlain logic
    → ticks * tick_ns < 2 ^ 64
    → (run_experiment true n logic ticks).max_error_pct ≡ worst_error ticks logic
unfolding run_experiment
run_experiment-worst_error n ticks logic some_task plain fits =
    run_ticks-worst ticks n 0 logic 0 0 (pos 0) (start_lanes n logic) some_task plain (omega arith)
      (start-IsMeasured n logic plain)
