-- ===== src/Experiment/LoadError/ApafBound.antt =====
-- The load error of APAF that experiment 1 reports is bounded, whatever the states of the controller.
use native.Mathlib.Nat.{zero-add, suc-add}
use native.Mathlib.Decide.{dec_le}
use approximation_computing.Common.{
  ℕ, zero, suc, ◌+◌, ◌-◌, ◌*◌, ◌^◌, ◌<◌, ◌≡◌, inl, inr, refl, sym, ap, ◌∙◌, arith, true, pos, ◌≤ℤ◌,
  ltb_ℤ, false, not-ltb→le,
}
use approximation_computing.Double.{Double, decimal, lt}
use approximation_computing.Run.{run}
use approximation_computing.Task.{tick_ns, apaf_medium, apaf_loose, rq_init}
use approximation_computing.Exact.{exact_decay_load}
use approximation_computing.Metrics.{error_pct}
use approximation_computing.Experiment.{
  Lanes, no_totals, totals_loop, lockstep, run_ticks, start_lanes, run_experiment,
}
use approximation_computing.Experiment.Busy.{start-IsBusy}
use approximation_computing.Experiment.LoadError.{
  next_sum, average_of, worse, apaf_by, enclosed_from, sum_after,
}
use approximation_computing.Experiment.LoadError.Reported.{equal_tasks-IsAt}
use approximation_computing.Experiment.LoadError.Bounds.{exact_rests}
use approximation_computing.Experiment.LoadError.Enclosed.{IsEnclosed, lockstep-IsEnclosed}

run_ticks-enclosed :
    (ticks n k exact low high : ℕ) (m : Double) (s : Lanes)
    → 0 < n
    → (k + ticks) * tick_ns < 2 ^ 64
    → IsEnclosed n k exact low high m s
    → (totals_loop (run_ticks ticks (pos 3) s).entries no_totals).max_err
      ≤ℤ enclosed_from ticks exact low high m
unfolding run_ticks enclosed_from
run_ticks-enclosed zero n k exact low high m s some_task fits h = h.worst
run_ticks-enclosed (suc ticks) n k exact low high m s some_task fits h =
    run_ticks-enclosed ticks n (suc k) _ _ _ _ (lockstep (pos 3) s) some_task (omega arith)
      (lockstep-IsEnclosed n k exact low high m s some_task (omega arith) h)

start-IsEnclosed : (n : ℕ) → IsEnclosed n 0 0 0 0 (pos 0) (start_lanes n (pos 3))
unfolding start_lanes totals_loop
start-IsEnclosed n = record {
  exact_lane = start-IsBusy n (pos 0) (omega arith);
  approx_lane = start-IsBusy n (pos 3) (omega arith);
  exact_load = unfold rq_init in equal_tasks-IsAt n 0;
  sum = 0;
  approx_load = unfold rq_init in equal_tasks-IsAt n 0;
  above_low = omega arith;
  below_high = omega arith;
  capped = omega arith;
  state = unfold rq_init in inr (inl refl);
  worst = omega arith;
  nonnegative = omega arith;
}

-- The sums that enclose APAF's, after this many ticks.
abbrev low_after : ℕ → ℕ
low_after ticks = sum_after ticks (apaf_by apaf_medium) 0

abbrev high_after : ℕ → ℕ
high_after ticks = sum_after ticks (apaf_by apaf_loose) 0

enclosed_from-add :
    (k j exact low high : ℕ) (m : Double)
    → enclosed_from (k + j) exact low high m
      ≡ enclosed_from j
          (sum_after k exact_decay_load exact)
          (sum_after k (apaf_by apaf_medium) low)
          (sum_after k (apaf_by apaf_loose) high)
          (enclosed_from k exact low high m)
unfolding enclosed_from sum_after
enclosed_from-add zero j exact low high m = rw zero-add refl
enclosed_from-add (suc k) j exact low high m = rw suc-add (enclosed_from-add k j _ _ _ _)

worse-le : (m : Double) (approx exact : ℕ) → m ≤ℤ worse m approx exact
worse-le m approx exact = ground arith

enclosed_from-le : (j exact low high : ℕ) (m : Double) → m ≤ℤ enclosed_from j exact low high m
unfolding enclosed_from
enclosed_from-le zero exact low high m = omega arith
enclosed_from-le (suc j) exact low high m =
    let exact' = average_of (next_sum exact_decay_load exact) in
    let low' = average_of (next_sum (apaf_by apaf_medium) low) in
    let high' = average_of (next_sum (apaf_by apaf_loose) high) in
    let below = worse m low' exact' in
    let a = worse-le m low' exact' in
    let b = worse-le below high' exact' in
    omega (
      arith,
      enclosed_from-le j (next_sum exact_decay_load exact) (next_sum (apaf_by apaf_medium) low)
          (next_sum (apaf_by apaf_loose) high) (worse below high' exact'),
    )

-- Where the three sums stay and their errors are not above the largest one, nothing changes.
enclosed_from_still :
    (j exact low high : ℕ) (m : Double)
    → next_sum exact_decay_load exact ≡ exact
    → next_sum (apaf_by apaf_medium) low ≡ low
    → next_sum (apaf_by apaf_loose) high ≡ high
    → worse m (average_of low) (average_of exact) ≡ m
    → worse m (average_of high) (average_of exact) ≡ m
    → enclosed_from j exact low high m ≡ m
unfolding enclosed_from
enclosed_from_still zero exact low high m e l h a b = refl
enclosed_from_still (suc j) exact low high m e l h a b =
    rw (e, l, h, a, b, enclosed_from) (enclosed_from_still j exact low high m e l h a b)

low_rests : next_sum (apaf_by apaf_medium) (low_after 1000) ≡ low_after 1000
unfolding run sum_after
low_rests = refl

high_rests : next_sum (apaf_by apaf_loose) (high_after 1000) ≡ high_after 1000
unfolding run sum_after
high_rests = refl

abbrev bound : Double
bound = enclosed_from 1000 0 0 0 (pos 0)

abbrev exact_average : ℕ
exact_average = average_of (sum_after 1000 exact_decay_load 0)

worse_still :
    (m : Double) (approx exact : ℕ)
    → lt m (error_pct approx exact) ≡ false
    → worse m approx exact ≡ m
worse_still m approx exact h = ground arith

low_within : lt bound (error_pct (average_of (low_after 1000)) exact_average) ≡ false
unfolding run sum_after enclosed_from
low_within = refl

high_within : lt bound (error_pct (average_of (high_after 1000)) exact_average) ≡ false
unfolding run sum_after enclosed_from
high_within = refl

low_not_worse : worse bound (average_of (low_after 1000)) exact_average ≡ bound
low_not_worse = worse_still bound (average_of (low_after 1000)) exact_average low_within

high_not_worse : worse bound (average_of (high_after 1000)) exact_average ≡ bound
high_not_worse = worse_still bound (average_of (high_after 1000)) exact_average high_within

bound_shown : ltb_ℤ (decimal 518 2) bound ≡ false
unfolding run enclosed_from
bound_shown = refl

enclosed-le-bound : (ticks : ℕ) → enclosed_from ticks 0 0 0 (pos 0) ≤ℤ bound
enclosed-le-bound ticks = elim (dec_le ticks 1000) [
  | yes short ↦
      let split : ticks + (1000 - ticks) ≡ 1000 = omega arith in
      let m = enclosed_from ticks 0 0 0 (pos 0) in
      let longer =
        enclosed_from-le (1000 - ticks) (sum_after ticks exact_decay_load 0) (low_after ticks)
          (high_after ticks) m in
      rw (← enclosed_from-add ticks (1000 - ticks) 0 0 0 (pos 0), split) at longer
  | no long ↦
      let split : 1000 + (ticks - 1000) ≡ ticks = omega arith in
      let same : enclosed_from ticks 0 0 0 (pos 0) ≡ bound =
        ap (λ k. enclosed_from k 0 0 0 (pos 0)) (sym split)
        ∙ enclosed_from-add 1000 (ticks - 1000) 0 0 0 (pos 0)
        ∙ enclosed_from_still (ticks - 1000) _ _ _ _ exact_rests low_rests high_rests low_not_worse
            high_not_worse in
      rw same (omega arith)
]

-- For any number of tasks and of ticks, as long as the clock does not wrap, the largest load error that
-- experiment 1 reports under APAF is at most 5.18%, whatever states its controller goes through.
pub run_experiment-apaf_error :
    (n ticks : ℕ)
    → 0 < n
    → ticks * tick_ns < 2 ^ 64
    → (run_experiment true n (pos 3) ticks).max_error_pct ≤ℤ decimal 518 2
unfolding run_experiment
run_experiment-apaf_error n ticks some_task fits =
    let reported =
      run_ticks-enclosed ticks n 0 0 0 0 (pos 0) (start_lanes n (pos 3)) some_task (omega arith)
        (start-IsEnclosed n) in
    let at_most = enclosed-le-bound ticks in omega (arith, not-ltb→le _ _ bound_shown)
