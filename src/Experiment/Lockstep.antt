-- ===== src/Experiment/Lockstep.antt =====
-- The two lanes of an experiment: they stay in step, and under the exact scheduler they are equal.
use mathlib.Core.Path.{subst}
use native.Mathlib.Nat.{add-zero, zero-add}
use approximation_computing.Common.{
  ℕ, zero, suc, ◌+◌, ◌*◌, ◌^◌, ◌<◌, ◌≡◌, refl, ◌∙◌, arith, [], ◌∷◌, ℤ, pos, length, length-append,
  ◌==ℤ◌, Bool-cases, inl, inr,
}
use approximation_computing.Task.{CfsRq, rq_init, tick_ns}
use approximation_computing.Ticks.Reachable.{
  rq_init-Reachable, specs_by, specs_by_unique, length-specs_by, Reachable, exact, bsa, clti, apaf,
  IsValid, Reachable-IsValid,
}
use approximation_computing.Ticks.OnTime.{Reachable-IsOnTime}
use approximation_computing.Exact.{exact_tick}
use approximation_computing.Metrics.{Metrics, metrics_record}
use approximation_computing.Experiment.{
  Lanes, tick_of, lockstep, run_ticks, equal_tasks, start_lanes,
}

pub start-Reachable : (n : ℕ) (mode : ℤ) → Reachable 0 (rq_init (equal_tasks n 0) (pos n) mode)
unfolding equal_tasks
start-Reachable n mode =
    let nice = λ (i : ℕ). pos 0 in
    rq_init-Reachable (specs_by nice n 0) n (equal_tasks n 0) mode (length-specs_by nice n 0)
      (specs_by_unique nice equal_tasks (λ i. refl) (λ m i. refl) n 0)

pub tick_of-Reachable :
    (logic : ℤ) (k : ℕ) (rq : CfsRq) → Reachable k rq → Reachable (suc k) (tick_of logic rq)
unfolding tick_of
tick_of-Reachable logic k rq h = elim (Bool-cases (logic ==ℤ pos 0)) [
  | inl e ↦ rw e (exact h)
  | inr e0 ↦ elim (Bool-cases (logic ==ℤ pos 1)) [
    | inl e ↦ rw (e0, e) (bsa h)
    | inr e1 ↦ elim (Bool-cases (logic ==ℤ pos 2)) [
      | inl e ↦ rw (e0, e1, e) (clti h)
      | inr e2 ↦ elim (Bool-cases (logic ==ℤ pos 3)) [
        | inl e ↦ rw (e0, e1, e2, e) (apaf h)
        | inr e3 ↦ rw (e0, e1, e2, e3) (exact h)
      ]
    ]
  ]
]

-- Both lanes have made this number of ticks, and there is an entry for each.
pub record IsInStep (k : ℕ) (s : Lanes) : Type 0 where
  pub exact_lane : Reachable k s.exact_rq
  pub approx_lane : Reachable k s.approx_rq
  pub recorded : length s.entries ≡ k

run_ticks-IsInStep :
    (ticks k : ℕ) (logic : ℤ) (s : Lanes)
    → IsInStep k s
    → IsInStep (k + ticks) (run_ticks ticks logic s)
unfolding run_ticks lockstep
run_ticks-IsInStep zero k logic s h = rw add-zero h
run_ticks-IsInStep (suc ticks) k logic s h =
    let approx_rq : CfsRq = tick_of logic s.approx_rq in
    let entry : Metrics = metrics_record approx_rq (exact_tick s.exact_rq) in
    let moved : k + suc ticks ≡ suc k + ticks = omega arith in
    rw moved (
      run_ticks-IsInStep ticks (suc k) logic (lockstep logic s) (record {
        exact_lane = exact h.exact_lane;
        approx_lane = tick_of-Reachable logic k s.approx_rq h.approx_lane;
        recorded = length-append s.entries (entry ∷ []) ∙ omega (arith, h.recorded);
      }))

run_ticks-start_lanes :
    (n ticks : ℕ) (logic : ℤ) → IsInStep ticks (run_ticks ticks logic (start_lanes n logic))
unfolding start_lanes
run_ticks-start_lanes n ticks logic =
    subst (λ k. IsInStep k (run_ticks ticks logic (start_lanes n logic))) (zero-add ticks)
      (run_ticks-IsInStep ticks 0 logic (start_lanes n logic) (record {
        exact_lane = start-Reachable n (pos 0);
        approx_lane = start-Reachable n logic;
        recorded = refl;
      }))

-- Whatever the scheduler, after the ticks of an experiment, as long as the clock does not wrap, both
-- runqueues show the time of that many ticks and keep the bounds on weights and loads, and one entry
-- is recorded for each tick.
pub run_ticks_in_step :
    (n ticks : ℕ) (logic : ℤ)
    → ticks * tick_ns < 2 ^ 64
    → let s = run_ticks ticks logic (start_lanes n logic) in
      (s.exact_rq.clock ≡ ticks * tick_ns)
      × (s.approx_rq.clock ≡ ticks * tick_ns)
      × IsValid s.exact_rq
      × IsValid s.approx_rq
      × (length s.entries ≡ ticks)
run_ticks_in_step n ticks logic fits =
    let s : Lanes = run_ticks ticks logic (start_lanes n logic) in
    let h = run_ticks-start_lanes n ticks logic in
    (
      (Reachable-IsOnTime ticks s.exact_rq h.exact_lane fits).clock,
      (Reachable-IsOnTime ticks s.approx_rq h.approx_lane fits).clock,
      Reachable-IsValid ticks s.exact_rq h.exact_lane,
      Reachable-IsValid ticks s.approx_rq h.approx_lane,
      h.recorded,
    )
