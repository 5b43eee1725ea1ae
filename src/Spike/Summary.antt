-- ===== src/Spike/Summary.antt =====
-- apex-cfs/experiments/exp3_dynamic_spike.c, `main` behind the loop over the ticks: the averages, the
-- dominant state of each phase, and how long the controller took to react. The tables and the two text
-- files show the fields of the report.
use approximation_computing.Common.{
  ℕ, ◌+◌, ◌-◌, Bool, true, false, not, ◌&&◌, Option, none, some, List, [], ◌∷◌, ltb, leb,
  if◌then◌else◌, ℤ, pos, negsuc, ltb_ℤ, get_or, modify,
}
use approximation_computing.Double.{of_nat, div}
use approximation_computing.Task.{apaf_medium}
use approximation_computing.Metrics.{CsvRow, metrics_write_csv}
use approximation_computing.Spike.{
  TransitionEvent, PhaseSummary, Spike, max_tasks, phase1_end, phase2_end, total_ticks, start_spike,
  spike_loop,
}

-- The ticks of a phase, by which its sum is divided.
abbrev pub phase_length : ℕ → ℕ
phase_length i =
    if ltb i 1
    then phase1_end
    else if ltb i 2
    then phase2_end - phase1_end
    else total_ticks - phase2_end

-- The loop over the counters of a phase from state `s` on.
unfoldable pub best_loop : List ℕ → ℕ → ℤ → ℤ → ℤ
best_loop [] s best_count best_state = best_state
best_loop (count ∷ counts) s best_count best_state =
    let better = ltb_ℤ best_count (pos count) in
    best_loop counts (s + 1) (if better then pos count else best_count)
      (if better then pos s else best_state)

unfoldable pub dominant_state_of : List ℕ → ℤ
dominant_state_of counts = best_loop counts 0 (negsuc 0) apaf_medium

-- The average and the dominant state of the phases from index `i` on.
unfoldable pub finish_phases : List PhaseSummary → List (List ℕ) → ℕ → List PhaseSummary
finish_phases [] state_counts i = []
finish_phases (p ∷ phases) state_counts i =
    record p {
      avg_jain = div p.avg_jain (of_nat (phase_length i));
      dominant_state = dominant_state_of (get_or state_counts i []);
      n_transitions = 0;
    }
    ∷ finish_phases phases state_counts (i + 1)

-- What the loop over the log changes.
pub record Reaction : Type 0 where
  pub phases : List PhaseSummary
  pub reaction_ticks : ℕ
  pub recovery_ticks : ℕ
  pub found_reaction : Bool
  pub found_recovery : Bool

-- A phase below 1 or above 3 has no summary.
unfoldable pub count_transition : ℕ → List PhaseSummary → List PhaseSummary
count_transition phase phases =
    if ltb 0 phase && ltb (phase - 1) 3
    then modify phases (phase - 1) (λ p. record p { n_transitions = p.n_transitions + 1 })
    else phases

unfoldable pub event_step : TransitionEvent → Reaction → Reaction
event_step e r =
    let reacts = not r.found_reaction && leb phase1_end e.tick in
    let recovers = not r.found_recovery && leb phase2_end e.tick in
    record {
      phases = count_transition e.phase r.phases;
      reaction_ticks = if reacts then e.tick - phase1_end else r.reaction_ticks;
      recovery_ticks = if recovers then e.tick - phase2_end else r.recovery_ticks;
      found_reaction = if reacts then true else r.found_reaction;
      found_recovery = if recovers then true else r.found_recovery;
    }

unfoldable pub event_loop : List TransitionEvent → Reaction → Reaction
event_loop [] r = r
event_loop (e ∷ events) r = event_loop events (event_step e r)

unfoldable pub summarise : Spike → Reaction
summarise s = event_loop s.transitions (record {
  phases = finish_phases s.phases s.state_counts 0;
  reaction_ticks = 0;
  recovery_ticks = 0;
  found_reaction = false;
  found_recovery = false;
})

-- What the program shows: the report, the log, the counters, and the rows of the two CSV files.
pub record SpikeReport : Type 0 where
  pub reaction : Reaction
  pub transitions : List TransitionEvent
  pub state_counts : List (List ℕ)
  pub exact_csv : Option (List CsvRow)
  pub apaf_csv : Option (List CsvRow)

unfoldable pub report_of : Spike → SpikeReport
report_of s = record {
  reaction = summarise s;
  transitions = s.transitions;
  state_counts = s.state_counts;
  exact_csv = metrics_write_csv s.exact_buf (pos total_ticks) (pos max_tasks);
  apaf_csv = metrics_write_csv s.apaf_buf (pos total_ticks) (pos max_tasks);
}

-- `allocated` says whether the four calls of malloc succeed. The report, if there is one, and the
-- exit code.
unfoldable pub main_exp3 : Bool → Option SpikeReport × ℕ
main_exp3 allocated =
    if not allocated
    then (none, 1)
    else (some (report_of (spike_loop total_ticks 0 start_spike)), 0)
