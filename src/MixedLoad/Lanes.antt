-- ===== src/MixedLoad/Lanes.antt =====
-- Experiment 2: both lanes stay among the runqueues that apex-cfs/src can reach.
use mathlib.Core.Path.{subst}
use native.Mathlib.Nat.{add-zero}
use approximation_computing.Common.{
  ℕ, zero, suc, ◌+◌, ◌*◌, ◌%◌, ◌^◌, ◌<◌, ◌≡◌, refl, ap, ◌∙◌, arith, [], ◌∷◌, ltb, if◌then◌else◌, ℤ,
  pos, length, length-append,
}
use approximation_computing.Task.{task_create, rq_init, tick_ns}
use approximation_computing.Exact.{exact_tick}
use approximation_computing.Metrics.{metrics_record}
use approximation_computing.Ticks.Reachable.{
  rq_init-Reachable, specs_by, specs_by_unique, length-specs_by, Reachable, set_runnable, counted,
  exact, IsValid, Reachable-IsValid,
}
use approximation_computing.Ticks.OnTime.{IsOnTime, Reachable-IsOnTime}
use approximation_computing.Experiment.{tick_of}
use approximation_computing.Experiment.Lockstep.{tick_of-Reachable}
use approximation_computing.MixedLoad.{
  n_batch, n_total, interactive_on, interactive_off, interactive_nice, batch_nice, set_interactive,
  Mixed, mixed_step, mixed_loop, batch_tasks, start_mixed,
}

-- Both lanes have made this number of ticks, and there is an entry for each.
record AreReachable (k : ℕ) (s : Mixed) : Type 0 where
  exact_lane : Reachable k s.exact_rq
  approx_lane : Reachable k s.approx_rq
  recorded : length s.entries ≡ k

start_lane :
    (mode : ℤ)
    → Reachable 0
        (rq_init (task_create (pos 0) interactive_nice ∷ batch_tasks n_batch 1) (pos n_total) mode)
unfolding batch_tasks
start_lane mode =
    let nice = λ (i : ℕ). batch_nice in
    rq_init-Reachable ((pos 0, interactive_nice) ∷ specs_by nice n_batch 1) n_total _ mode
      (ap suc (length-specs_by nice n_batch 1))
      (ap (λ ts. task_create (pos 0) interactive_nice ∷ ts)
        (specs_by_unique nice batch_tasks (λ i. refl) (λ m i. refl) n_batch 1))

mixed_step-AreReachable :
    (logic : ℤ) (i k : ℕ) (s : Mixed)
    → AreReachable k s
    → AreReachable (suc k) (mixed_step logic i s)
unfolding mixed_step set_interactive
mixed_step-AreReachable logic i k s h =
    let r = if ltb (i % (interactive_on + interactive_off)) interactive_on then pos 1 else pos 0 in
    let exact_rq = exact_tick (set_interactive r s.exact_rq) in
    let approx_rq = tick_of logic (set_interactive r s.approx_rq) in
    let longer = length-append s.entries (metrics_record approx_rq exact_rq ∷ []) in
    record {
      exact_lane = counted (exact (set_runnable 0 r h.exact_lane));
      approx_lane = counted (
          tick_of-Reachable logic k (set_interactive r s.approx_rq)
            (set_runnable 0 r h.approx_lane));
      recorded = longer ∙ omega (arith, h.recorded);
    }

mixed_loop-AreReachable :
    (rounds i k : ℕ) (logic : ℤ) (s : Mixed)
    → AreReachable k s
    → AreReachable (k + rounds) (mixed_loop rounds logic i s)
unfolding mixed_loop
mixed_loop-AreReachable zero i k logic s h = rw add-zero h
mixed_loop-AreReachable (suc rounds) i k logic s h =
    let moved : k + suc rounds ≡ suc k + rounds = omega arith in
    rw moved (
      mixed_loop-AreReachable rounds (i + 1) (suc k) logic (mixed_step logic i s)
        (mixed_step-AreReachable logic i k s h))

-- Whatever the scheduler, after the ticks of experiment 2, as long as the clock does not wrap, both
-- runqueues keep the bounds on weights and loads, show the time of that many ticks and have handed out
-- no more than that, and one entry is recorded for each tick.
pub mixed_loop-IsOnTime :
    (ticks : ℕ) (logic : ℤ)
    → ticks * tick_ns < 2 ^ 64
    → let s = mixed_loop ticks logic 0 (start_mixed logic) in
      (IsValid s.exact_rq × IsOnTime ticks s.exact_rq)
      × (IsValid s.approx_rq × IsOnTime ticks s.approx_rq)
      × (length s.entries ≡ ticks)
unfolding start_mixed
mixed_loop-IsOnTime ticks logic fits =
    let s = mixed_loop ticks logic 0 (start_mixed logic) in
    let from : 0 + ticks ≡ ticks = omega arith in
    let h =
      subst (λ k. AreReachable k s) from
        (mixed_loop-AreReachable ticks 0 0 logic (start_mixed logic) (record {
          exact_lane = start_lane (pos 0);
          approx_lane = start_lane logic;
          recorded = refl;
        })) in
    (
      (
        Reachable-IsValid ticks s.exact_rq h.exact_lane,
        Reachable-IsOnTime ticks s.exact_rq h.exact_lane fits,
      ),
      (
        Reachable-IsValid ticks s.approx_rq h.approx_lane,
        Reachable-IsOnTime ticks s.approx_rq h.approx_lane fits,
      ),
      h.recorded,
    )
