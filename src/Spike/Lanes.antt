-- ===== src/Spike/Lanes.antt =====
-- Experiment 3: both lanes stay among the runqueues that apex-cfs/src can reach.
use mathlib.Core.Path.{subst}
use native.Mathlib.Nat.{add-zero}
use approximation_computing.Common.{
  ℕ, zero, suc, ◌+◌, ◌-◌, ◌*◌, ◌^◌, ◌<◌, ◌≡◌, inl, inr, refl, ap, arith, Bool-cases, List, [], ◌∷◌,
  ℤ, pos, modify, ◌==◌, ◌==ℤ◌,
}
use approximation_computing.Run.{run}
use approximation_computing.Task.{
  CfsTask, CfsRq, task_set_runnable, rq_init, rq_count_running, tick_ns,
}
use approximation_computing.Ticks.Reachable.{
  rq_init-Reachable, specs_by, specs_by_unique, length-specs_by, Reachable, set_runnable, counted,
  exact, apaf, IsValid, Reachable-IsValid,
}
use approximation_computing.Ticks.OnTime.{IsOnTime, Reachable-IsOnTime}
use approximation_computing.Spike.{
  Spike, phase1_end, phase2_end, max_tasks, set_runnable_from, reflag, change_phase, tick_both,
  log_transition, record_phase, snapshot, spike_step, spike_loop, spike_tasks, initial_tasks,
  start_spike,
}

abbrev IsFlag : ℤ → Type 0
IsFlag r = (t : CfsTask) → task_set_runnable t r ≡ record t { runnable = r }

zero-IsFlag : IsFlag (pos 0)
unfolding task_set_runnable
zero-IsFlag t = refl

one-IsFlag : IsFlag (pos 1)
unfolding task_set_runnable
one-IsFlag t = refl

same_flags :
    (r : ℤ) (ts : List CfsTask) (i : ℕ)
    → IsFlag r
    → modify ts i (λ t. task_set_runnable t r) ≡ modify ts i (λ t. record t { runnable = r })
same_flags r [] i flag = refl
same_flags r (t ∷ ts) zero flag = ap (λ u. u ∷ ts) (flag t)
same_flags r (t ∷ ts) (suc i) flag = ap (λ l. t ∷ l) (same_flags r ts i flag)

set_runnable_from-Reachable :
    (r : ℤ) (n t k : ℕ) (rq : CfsRq)
    → IsFlag r
    → Reachable k rq
    → Reachable k (record rq { tasks = set_runnable_from r n t rq.tasks })
unfolding set_runnable_from
set_runnable_from-Reachable r zero t k rq flag h = h
set_runnable_from-Reachable r (suc n) t k rq flag h =
    set_runnable_from-Reachable r n (t + 1) k
      (record rq { tasks = modify rq.tasks t (λ u. record u { runnable = r }) }) flag
      (subst (λ ts. Reachable k (record rq { tasks = ts })) (same_flags r rq.tasks t flag)
        (set_runnable t r h))

reflag-Reachable :
    (r : ℤ) (first last k : ℕ) (rq : CfsRq)
    → IsFlag r
    → Reachable k rq
    → Reachable k (reflag r first last rq)
unfolding reflag
reflag-Reachable r first last k rq flag h =
    counted (set_runnable_from-Reachable r (last - first) first k rq flag h)

-- Both lanes have made this number of ticks.
record AreReachable (k : ℕ) (s : Spike) : Type 0 where
  exact_lane : Reachable k s.exact_rq
  apaf_lane : Reachable k s.apaf_rq

change_phase-AreReachable :
    (i k : ℕ) (s : Spike) → AreReachable k s → AreReachable k (change_phase i s)
unfolding change_phase
change_phase-AreReachable i k s h = elim (Bool-cases (i == phase1_end)) [
  | inl e ↦ rw e (record {
    exact_lane = reflag-Reachable (pos 1) _ _ k s.exact_rq one-IsFlag h.exact_lane;
    apaf_lane = reflag-Reachable (pos 1) _ _ k s.apaf_rq one-IsFlag h.apaf_lane;
  })
  | inr e1 ↦ elim (Bool-cases (i == phase2_end)) [
    | inl e ↦
        rw (e1, e)
          (record {
            exact_lane = reflag-Reachable (pos 0) _ _ k s.exact_rq zero-IsFlag h.exact_lane;
            apaf_lane = reflag-Reachable (pos 0) _ _ k s.apaf_rq zero-IsFlag h.apaf_lane;
          })
    | inr e2 ↦ rw (e1, e2) h
  ]
]

log_transition-AreReachable :
    (k i : ℕ) (s : Spike) → AreReachable k s → AreReachable k (log_transition i s)
unfolding log_transition
log_transition-AreReachable k i s h =
    elim (Bool-cases (s.apaf_rq.apaf_state ==ℤ s.prev_apaf_state)) [
      | inl e ↦ rw e h
      | inr e ↦ rw e (record { exact_lane = h.exact_lane; apaf_lane = h.apaf_lane })
    ]

spike_step-AreReachable :
    (i k : ℕ) (s : Spike) → AreReachable k s → AreReachable (suc k) (spike_step i s)
unfolding spike_step record_phase snapshot tick_both
spike_step-AreReachable i k s h =
    let c = change_phase-AreReachable i k s h in
    let l =
      log_transition-AreReachable (suc k) i (tick_both (change_phase i s))
        (record { exact_lane = exact c.exact_lane; apaf_lane = apaf c.apaf_lane }) in
    record { exact_lane = l.exact_lane; apaf_lane = l.apaf_lane }

spike_loop-AreReachable :
    (rounds i k : ℕ) (s : Spike)
    → AreReachable k s
    → AreReachable (k + rounds) (spike_loop rounds i s)
unfolding spike_loop
spike_loop-AreReachable zero i k s h = rw add-zero h
spike_loop-AreReachable (suc rounds) i k s h =
    let moved : k + suc rounds ≡ suc k + rounds = omega arith in
    rw moved (
      spike_loop-AreReachable rounds (i + 1) (suc k) (spike_step i s)
        (spike_step-AreReachable i k s h))

-- With all 55 tasks running.
fresh_lane : (mode : ℤ) → Reachable 0 (rq_init (spike_tasks max_tasks 0) (pos max_tasks) mode)
unfolding spike_tasks
fresh_lane mode =
    let nice = λ (i : ℕ). pos 0 in
    rq_init-Reachable (specs_by nice max_tasks 0) max_tasks (spike_tasks max_tasks 0) mode
      (length-specs_by nice max_tasks 0)
      (specs_by_unique nice spike_tasks (λ i. refl) (λ m i. refl) max_tasks 0)

-- With the flags of the first phase, counted by `rq_init` itself.
flagged_lane :
    (mode : ℤ)
    → Reachable 0
        (rq_count_running (record (rq_init (spike_tasks max_tasks 0) (pos max_tasks) mode) {
          tasks = initial_tasks;
        })).0
unfolding initial_tasks rq_init
flagged_lane mode =
    let rq = rq_init (spike_tasks max_tasks 0) (pos max_tasks) mode in
    counted (
      set_runnable_from-Reachable (pos 0) 50 5 0
        (record rq { tasks = set_runnable_from (pos 1) 5 0 rq.tasks }) zero-IsFlag
        (set_runnable_from-Reachable (pos 1) 5 0 0 rq one-IsFlag (fresh_lane mode)))

counted_at_once :
    (mode : ℤ)
    → (rq_count_running (record (rq_init (spike_tasks max_tasks 0) (pos max_tasks) mode) {
      tasks = initial_tasks;
    })).0
      ≡ rq_init initial_tasks (pos max_tasks) mode
unfolding run initial_tasks set_runnable_from spike_tasks
counted_at_once mode = refl

start_lane : (mode : ℤ) → Reachable 0 (rq_init initial_tasks (pos max_tasks) mode)
start_lane mode = subst (Reachable 0) (counted_at_once mode) (flagged_lane mode)

-- After any number of rounds of experiment 3 for which the clock does not wrap, both runqueues keep the
-- bounds on weights and loads, show the time of that many ticks and have handed out no more than that.
pub spike_loop-IsOnTime :
    (rounds : ℕ)
    → rounds * tick_ns < 2 ^ 64
    → let s = spike_loop rounds 0 start_spike in
      (IsValid s.exact_rq × IsOnTime rounds s.exact_rq)
      × (IsValid s.apaf_rq × IsOnTime rounds s.apaf_rq)
unfolding start_spike
spike_loop-IsOnTime rounds fits =
    let s = spike_loop rounds 0 start_spike in
    let from : 0 + rounds ≡ rounds = omega arith in
    let h =
      subst (λ k. AreReachable k s) from
        (spike_loop-AreReachable rounds 0 0 start_spike
          (record { exact_lane = start_lane (pos 0); apaf_lane = start_lane (pos 3) })) in
    (
      (
        Reachable-IsValid rounds s.exact_rq h.exact_lane,
        Reachable-IsOnTime rounds s.exact_rq h.exact_lane fits,
      ),
      (
        Reachable-IsValid rounds s.apaf_rq h.apaf_lane,
        Reachable-IsOnTime rounds s.apaf_rq h.apaf_lane fits,
      ),
    )
