-- ===== src/Spike.antt =====
-- apex-cfs/experiments/exp3_dynamic_spike.c: 5 tasks, then 55, then 15, under the exact scheduler and
-- under APAF, whose changes of state are logged. The arrays of tasks are those of the runqueues, and
-- `n_transitions` is the length of the log.
pub mod Tick
pub mod Log
pub mod Transitions
pub mod Counts
pub mod Totals
pub mod Summary
pub mod Reaction
pub mod Events
pub mod Report
pub mod Flags
pub mod Phases
pub mod Lanes
use approximation_computing.Common.{
  ℕ, zero, suc, ◌+◌, ◌-◌, Bool, not, ◌&&◌, ◌||◌, List, [], ◌∷◌, ◌++◌, ltb, leb, ◌==◌, if◌then◌else◌,
  ℤ, pos, pos_part, ltb_ℤ, ◌==ℤ◌, length, modify,
}
use approximation_computing.Double.{Double, one, add, lt}
use approximation_computing.Task.{
  CfsTask, CfsRq, task_create, rq_init, rq_count_running, apaf_tight, apaf_loose,
}
use approximation_computing.Exact.{exact_tick}
use approximation_computing.Apaf.{apaf_tick}
use approximation_computing.Metrics.{Metrics, metrics_record}

abbrev pub phase1_tasks : ℕ
phase1_tasks = 5

abbrev pub phase2_tasks : ℕ
phase2_tasks = 55

abbrev pub phase3_tasks : ℕ
phase3_tasks = 15

abbrev pub max_tasks : ℕ
max_tasks = 55

abbrev pub phase1_end : ℕ
phase1_end = 500

abbrev pub phase2_end : ℕ
phase2_end = 1500

abbrev pub total_ticks : ℕ
total_ticks = 2001

-- `transition_event_t`.
pub record TransitionEvent : Type 0 where
  pub tick : ℕ
  pub old_state : ℤ
  pub new_state : ℤ
  pub jain_at_transition : Double
  pub phase : ℕ

-- `phase_summary_t`.
pub record PhaseSummary : Type 0 where
  pub phase : ℕ
  pub n_tasks : ℕ
  pub tick_start : ℕ
  pub tick_end : ℕ
  pub avg_jain : Double
  pub min_jain : Double
  pub dominant_state : ℤ
  pub n_transitions : ℕ

-- The cells of `transitions`.
abbrev pub max_transitions : ℕ
max_transitions = 100

-- `n` tasks with ids from `i` on.
unfoldable pub spike_tasks : ℕ → ℕ → List CfsTask
spike_tasks zero i = []
spike_tasks (suc n) i = task_create (pos i) (pos 0) ∷ spike_tasks n (i + 1)

-- `tasks[t].runnable = runnable` for `n` indices from `t` on.
unfoldable pub set_runnable_from : ℤ → ℕ → ℕ → List CfsTask → List CfsTask
set_runnable_from runnable zero t tasks = tasks
set_runnable_from runnable (suc n) t tasks =
    set_runnable_from runnable n (t + 1) (modify tasks t (λ u. record u { runnable = runnable }))

-- What the loop over the ticks changes.
pub record Spike : Type 0 where
  pub exact_rq : CfsRq
  pub apaf_rq : CfsRq
  pub exact_buf : List Metrics
  pub apaf_buf : List Metrics
  pub transitions : List TransitionEvent
  pub phases : List PhaseSummary
  pub state_counts : List (List ℕ)
  pub prev_apaf_state : ℤ
  pub current_phase : ℕ

-- The flags of one runqueue at the start of a phase, and its count.
unfoldable pub reflag : ℤ → ℕ → ℕ → CfsRq → CfsRq
reflag runnable first last rq =
    (rq_count_running
      (record rq { tasks = set_runnable_from runnable (last - first) first rq.tasks })).0

-- The two tests at the head of a round.
unfoldable pub change_phase : ℕ → Spike → Spike
change_phase i s =
    if i == phase1_end
    then record s {
      exact_rq = reflag (pos 1) phase1_tasks phase2_tasks s.exact_rq;
      apaf_rq = reflag (pos 1) phase1_tasks phase2_tasks s.apaf_rq;
      current_phase = 2;
    }
    else if i == phase2_end
    then record s {
      exact_rq = reflag (pos 0) phase3_tasks max_tasks s.exact_rq;
      apaf_rq = reflag (pos 0) phase3_tasks max_tasks s.apaf_rq;
      current_phase = 3;
    }
    else s

-- A change of APAF's state: an entry of the log, while there is room, and the new state.
unfoldable pub log_transition : ℕ → Spike → Spike
log_transition i s =
    let event : TransitionEvent = record {
      tick = i;
      old_state = s.prev_apaf_state;
      new_state = s.apaf_rq.apaf_state;
      jain_at_transition = s.apaf_rq.jain_index;
      phase = s.current_phase;
    } in
    if not (s.apaf_rq.apaf_state ==ℤ s.prev_apaf_state)
    then record s {
      transitions =
          if ltb (length s.transitions) max_transitions
          then s.transitions ++ event ∷ []
          else s.transitions;
      prev_apaf_state = s.apaf_rq.apaf_state;
    }
    else s

abbrev pub tasks_of_phase : ℕ → ℕ
tasks_of_phase phase =
    if phase == 1 then phase1_tasks else if phase == 2 then phase2_tasks else phase3_tasks

abbrev pub start_of_phase : ℕ → ℕ
start_of_phase ph = if ph == 0 then 0 else if ph == 1 then phase1_end else phase2_end

unfoldable pub update_phase : ℕ → ℕ → Double → PhaseSummary → PhaseSummary
update_phase i current_phase j p = record p {
  phase = current_phase;
  n_tasks = tasks_of_phase current_phase;
  tick_start = start_of_phase (current_phase - 1);
  tick_end = i;
  avg_jain = add p.avg_jain j;
  min_jain = if lt j p.min_jain then j else p.min_jain;
}

-- The summary and the counters of the current phase, which starts at 1.
unfoldable pub record_phase : ℕ → Spike → Spike
record_phase i s =
    let ph = s.current_phase - 1 in
    let state = s.apaf_rq.apaf_state in
    record s {
      phases = modify s.phases ph (update_phase i s.current_phase s.apaf_rq.jain_index);
      state_counts =
          if not (ltb_ℤ state apaf_tight) && not (ltb_ℤ apaf_loose state)
          then modify s.state_counts ph (λ counts. modify counts (pos_part state) suc)
          else s.state_counts;
    }

-- The two snapshots.
unfoldable pub snapshot : Spike → Spike
snapshot s = record s {
  exact_buf = s.exact_buf ++ metrics_record s.exact_rq s.exact_rq ∷ [];
  apaf_buf = s.apaf_buf ++ metrics_record s.apaf_rq s.exact_rq ∷ [];
}

unfoldable pub tick_both : Spike → Spike
tick_both s = record s { exact_rq = exact_tick s.exact_rq; apaf_rq = apaf_tick s.apaf_rq }

-- Round `i` of the loop over the ticks.
unfoldable pub spike_step : ℕ → Spike → Spike
spike_step i s = snapshot (record_phase i (log_transition i (tick_both (change_phase i s))))

-- The loop from round `i` on, with the rounds left.
unfoldable pub spike_loop : ℕ → ℕ → Spike → Spike
spike_loop zero i s = s
spike_loop (suc rounds) i s = spike_loop rounds (i + 1) (spike_step i s)

-- A phase after `memset` and `min_jain = 1.0`.
abbrev pub blank_phase : PhaseSummary
blank_phase = record {
  phase = 0;
  n_tasks = 0;
  tick_start = 0;
  tick_end = 0;
  avg_jain = pos 0;
  min_jain = pos one;
  dominant_state = pos 0;
  n_transitions = 0;
}

abbrev pub no_counts : List (List ℕ)
no_counts = (0 ∷ 0 ∷ 0 ∷ []) ∷ (0 ∷ 0 ∷ 0 ∷ []) ∷ (0 ∷ 0 ∷ 0 ∷ []) ∷ []

-- The tasks of both arrays, with the flags of the first phase.
unfoldable pub initial_tasks : List CfsTask
initial_tasks =
    set_runnable_from (pos 0) (max_tasks - phase1_tasks) phase1_tasks
      (set_runnable_from (pos 1) phase1_tasks 0 (spike_tasks max_tasks 0))

unfoldable pub start_spike : Spike
start_spike =
    let apaf_rq = rq_init initial_tasks (pos max_tasks) (pos 3) in
    record {
      exact_rq = rq_init initial_tasks (pos max_tasks) (pos 0);
      apaf_rq = apaf_rq;
      exact_buf = [];
      apaf_buf = [];
      transitions = [];
      phases = blank_phase ∷ blank_phase ∷ blank_phase ∷ [];
      state_counts = no_counts;
      prev_apaf_state = apaf_rq.apaf_state;
      current_phase = 1;
    }
