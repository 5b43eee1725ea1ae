-- ===== src/Spike/Phases.antt =====
-- Experiment 3: how many tasks run in each phase.
use mathlib.Core.Path.{subst}
use native.Mathlib.Nat.{add-zero}
use approximation_computing.Common.{
  ℕ, zero, suc, ◌+◌, ◌-◌, ◌≤◌, ◌≡◌, inl, inr, refl, arith, Bool-cases, ◌==◌, ◌==ℤ◌, pos,
}
use approximation_computing.Run.{run}
use approximation_computing.Spike.{
  Spike, phase1_end, phase2_end, max_tasks, tasks_of_phase, set_runnable_from, change_phase,
  tick_both, log_transition, record_phase, snapshot, spike_step, spike_loop, spike_tasks,
  initial_tasks, start_spike,
}
use approximation_computing.Spike.Log.{phase_at}
use approximation_computing.Spike.Flags.{
  HasRunning, spike_on, spike_off, exact_tick-HasRunning, apaf_tick-HasRunning, reflag-HasRunning,
}

-- Both lanes in a phase.
record AreInPhase (p : ℕ) (s : Spike) : Type 0 where
  exact_lane : HasRunning (tasks_of_phase p) s.exact_rq
  apaf_lane : HasRunning (tasks_of_phase p) s.apaf_rq

tasks_of_phase-le : (p : ℕ) → tasks_of_phase p ≤ max_tasks
tasks_of_phase-le p = ground arith

change_phase-AreInPhase :
    (i : ℕ) (s : Spike)
    → AreInPhase (phase_at (i - 1)) s
    → AreInPhase (phase_at i) (change_phase i s)
unfolding change_phase
change_phase-AreInPhase i s h = elim (Bool-cases (i == phase1_end)) [
  | inl e ↦
      let before : phase_at (i - 1) ≡ 1 = ground arith in
      let now : phase_at i ≡ 2 = ground arith in
      let h' : AreInPhase 1 s = rw before at h in
      rw (e, now)
        (record {
          exact_lane =
              reflag-HasRunning (pos 1) 5 55 5 55 s.exact_rq (omega arith) (omega arith) spike_on
                h'.exact_lane;
          apaf_lane =
              reflag-HasRunning (pos 1) 5 55 5 55 s.apaf_rq (omega arith) (omega arith) spike_on
                h'.apaf_lane;
        })
  | inr e1 ↦ elim (Bool-cases (i == phase2_end)) [
    | inl e ↦
        let before : phase_at (i - 1) ≡ 2 = ground arith in
        let now : phase_at i ≡ 3 = ground arith in
        let h' : AreInPhase 2 s = rw before at h in
        rw (e1, e, now)
          (record {
            exact_lane =
                reflag-HasRunning (pos 0) 15 55 55 15 s.exact_rq (omega arith) (omega arith)
                  spike_off h'.exact_lane;
            apaf_lane =
                reflag-HasRunning (pos 0) 15 55 55 15 s.apaf_rq (omega arith) (omega arith)
                  spike_off h'.apaf_lane;
          })
    | inr e2 ↦
        let same : phase_at (i - 1) ≡ phase_at i = ground arith in
        rw (e1, e2) (subst (λ p. AreInPhase p s) same h)
  ]
]

tick_both-AreInPhase : (p : ℕ) (s : Spike) → AreInPhase p s → AreInPhase p (tick_both s)
unfolding tick_both
tick_both-AreInPhase p s h = record {
  exact_lane =
      exact_tick-HasRunning (tasks_of_phase p) s.exact_rq (tasks_of_phase-le p) h.exact_lane;
  apaf_lane = apaf_tick-HasRunning (tasks_of_phase p) s.apaf_rq (tasks_of_phase-le p) h.apaf_lane;
}

log_transition-AreInPhase :
    (p i : ℕ) (s : Spike) → AreInPhase p s → AreInPhase p (log_transition i s)
unfolding log_transition
log_transition-AreInPhase p i s h = elim (Bool-cases (s.apaf_rq.apaf_state ==ℤ s.prev_apaf_state)) [
  | inl e ↦ rw e h
  | inr e ↦ rw e (record { exact_lane = h.exact_lane; apaf_lane = h.apaf_lane })
]

spike_step-AreInPhase :
    (i : ℕ) (s : Spike) → AreInPhase (phase_at (i - 1)) s → AreInPhase (phase_at i) (spike_step i s)
unfolding spike_step record_phase snapshot
spike_step-AreInPhase i s h =
    let p = phase_at i in
    let k =
      log_transition-AreInPhase p i (tick_both (change_phase i s))
        (tick_both-AreInPhase p (change_phase i s) (change_phase-AreInPhase i s h)) in
    record { exact_lane = k.exact_lane; apaf_lane = k.apaf_lane }

spike_loop-AreInPhase :
    (rounds i : ℕ) (s : Spike)
    → AreInPhase (phase_at (i - 1)) s
    → AreInPhase (phase_at (i + rounds - 1)) (spike_loop rounds i s)
unfolding spike_loop
spike_loop-AreInPhase zero i s h = rw add-zero h
spike_loop-AreInPhase (suc rounds) i s h =
    let moved : i + suc rounds ≡ i + 1 + rounds = omega arith in
    let back : i + 1 - 1 ≡ i = omega arith in
    rw moved (
      spike_loop-AreInPhase rounds (i + 1) (spike_step i s) (rw back (spike_step-AreInPhase i s h)))

start-AreInPhase : AreInPhase 1 start_spike
unfolding run start_spike initial_tasks set_runnable_from spike_tasks
start-AreInPhase = record {
  exact_lane = record { sized = refl; first = refl; counted = refl };
  apaf_lane = record { sized = refl; first = refl; counted = refl };
}

-- After round `i` of experiment 3 it is just the first 5, 55 or 15 tasks that have their run flag set,
-- by the phase of the round, and both runqueues count that many as running: the number of tasks that the
-- report shows for the phase.
pub spike_loop-HasRunning :
    (i : ℕ)
    → let s = spike_loop (suc i) 0 start_spike in
      HasRunning (tasks_of_phase (phase_at i)) s.exact_rq
      × HasRunning (tasks_of_phase (phase_at i)) s.apaf_rq
spike_loop-HasRunning i =
    let s = spike_loop (suc i) 0 start_spike in
    let last : 0 + suc i - 1 ≡ i = omega arith in
    let h =
      subst (λ p. AreInPhase (phase_at p) s) last
        (spike_loop-AreInPhase (suc i) 0 start_spike start-AreInPhase) in
    (h.exact_lane, h.apaf_lane)
