-- ===== src/Ticks.antt =====
-- What the four ticks of apex-cfs/src have in common, as a specification: a tick moves the clock, runs
-- the task of choice, decays every load and measures the fairness.
pub mod Round
pub mod Rounds
pub mod Served
pub mod Loads
pub mod Reachable
pub mod OnTime
pub mod Agree
pub mod Even
pub mod Idle
use approximation_computing.Common.{
  ℕ, zero, suc, ◌+◌, ◌*◌, ◌≤◌, ◌<◌, ◌≡◌, ◌⊎◌, ◌^◌, Bool, true, false, Option, none, some, List, [],
  ◌∷◌, map, ℤ, pos, length, modify, All,
}
use approximation_computing.Words.{u64}
use approximation_computing.Task.{CfsTask, CfsRq, tick_ns, has_no_tasks, count_running, rq_tick}
use approximation_computing.Fairness.{fairness_jain_index}
use approximation_computing.Fairness.Controller.{IsState}
use approximation_computing.Logic.{run_task, age_task}
use approximation_computing.Apaf.{apaf_vruntime_delta, apaf_decay_load}
use approximation_computing.Exact.{exact_pick_next_task}

-- The array holds just the tasks that the runqueue counts.
abbrev pub IsSized : CfsRq → Type 0
IsSized rq = rq.nr_tasks ≡ pos (length rq.tasks)

-- The tasks after the task of choice has run for a tick.
abbrev pub run_choice : (ℕ → ℕ → ℕ) → Option ℕ → List CfsTask → List CfsTask
run_choice delta none ts = ts
run_choice delta (some k) ts = modify ts k (run_task delta)

-- What a tick that serves a task does, for a scheduler with these two functions.
pub record IsServed (delta decay : ℕ → ℕ → ℕ) (rq rq' : CfsRq) : Type 0 where
  pub tasks : rq'.tasks ≡ map (age_task decay) (run_choice delta (exact_pick_next_task rq) rq.tasks)
  pub sized : IsSized rq'
  pub clock : rq'.clock ≡ u64 (rq.clock + tick_ns)
  pub tick : rq'.tick ≡ u64 (rq.tick + 1)
  pub state : IsState rq.apaf_state → IsState rq'.apaf_state
  pub mode : rq'.approx_mode ≡ rq.approx_mode
  pub fair : rq'.jain_index ≡ fairness_jain_index rq'
  pub counted : has_no_tasks rq ≡ false → rq'.nr_running ≡ count_running rq'.tasks

-- What the tick of an approximation does: with no task to run it only moves the clock.
abbrev pub ServesOrIdles : (ℕ → ℕ → ℕ) → (ℕ → ℕ → ℕ) → CfsRq → CfsRq → Type 0
ServesOrIdles delta decay rq rq' =
    ((exact_pick_next_task rq ≡ none) × (rq' ≡ rq_tick rq))
    ⊎ ((k : ℕ) × (exact_pick_next_task rq ≡ some k) × IsServed delta decay rq rq')

-- The two functions of APAF in a state.
abbrev pub apaf_delta : ℤ → ℕ → ℕ → ℕ
apaf_delta state delta_exec weight = apaf_vruntime_delta delta_exec weight state

abbrev pub apaf_decay : ℤ → ℕ → ℕ → ℕ
apaf_decay state load periods = apaf_decay_load load periods state

-- The CPU time that the tasks have received.
abbrev pub total_runtime : List CfsTask → ℕ
total_runtime [] = 0
total_runtime (t ∷ ts) = t.exec_runtime + total_runtime ts
