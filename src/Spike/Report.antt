-- ===== src/Spike/Report.antt =====
-- Experiment 3: the whole report.
use approximation_computing.Common.{
  ◌%◌, ◌≡◌, ◌⊎◌, inl, inr, refl, sym, ap, ◌∙◌, arith, Bool, true, false, none, some, [], ◌∷◌, ℤ,
  length, map, All, length-map,
}
use approximation_computing.Spike.{
  Spike, phase1_end, phase2_end, total_ticks, spike_loop, start_spike, phase1_tasks, phase2_tasks,
  phase3_tasks,
}
use approximation_computing.Spike.Log.{IsKept}
use approximation_computing.Spike.Transitions.{spike_loop-IsKept}
use approximation_computing.Spike.Counts.{total, span}
use approximation_computing.Spike.Totals.{IsCounted, all_rounds-IsCounted}
use approximation_computing.Spike.Summary.{
  dominant_state_of, finish_phases, Reaction, summarise, SpikeReport, report_of, main_exp3,
}
use approximation_computing.Spike.Reaction.{
  IsDominant, rows-IsDominant, finished_dominant, finished_span, finished_none,
  length-finish_phases, event_loop-same,
}
use approximation_computing.Spike.Events.{
  log-IsUsable, event_loop_counted, first_from, found, event_loop-reaction, event_loop-recovery,
  found-asked,
}

-- A report of the whole run.
pub record IsReported (r : SpikeReport) : Type 0 where
  pub spans :
      map span r.reaction.phases
      ≡ (1, phase1_tasks, 0, 499)
        ∷ (2, phase2_tasks, 500, 1499)
        ∷ (3, phase3_tasks, 1500, 2000)
        ∷ []
  pub shares : map total r.state_counts ≡ 500 ∷ 1000 ∷ 501 ∷ []
  pub dominants :
      map (λ p. p.dominant_state) r.reaction.phases ≡ map dominant_state_of r.state_counts
  pub greatest : All (λ row. IsDominant row (dominant_state_of row)) r.state_counts
  pub counted : total (map (λ p. p.n_transitions) r.reaction.phases) ≡ length r.transitions
  pub reaction :
      found r.reaction.found_reaction r.reaction.reaction_ticks
      ≡ first_from phase1_end r.transitions
  pub recovery :
      found r.reaction.found_recovery r.reaction.recovery_ticks
      ≡ first_from phase2_end r.transitions
  pub latency :
      ((r.reaction.found_reaction ≡ false) ⊎ (r.reaction.reaction_ticks % 4 ≡ 3))
      × ((r.reaction.found_recovery ≡ false) ⊎ (r.reaction.recovery_ticks % 4 ≡ 3))

report_of-IsReported :
    (s : Spike) (state : ℤ)
    → IsKept s.transitions state total_ticks
    → IsCounted total_ticks s
    → IsReported (report_of s)
unfolding report_of summarise
report_of-IsReported s state k c =
    let ps = finish_phases s.phases s.state_counts 0 in
    let usable = log-IsUsable s.transitions k.last total_ticks k.chain in
    let start : Reaction = record {
      phases = ps;
      reaction_ticks = 0;
      recovery_ticks = 0;
      found_reaction = false;
      found_recovery = false;
    } in
    let three_phases : length s.phases ≡ 3 = sym (length-map span s.phases) ∙ ap length c.spans in
    let three_rows : length s.state_counts ≡ 3 =
      sym (length-map total s.state_counts) ∙ ap length c.counts in
    let many = length-finish_phases s.phases s.state_counts 0 ∙ three_phases in
    let all = event_loop_counted s.transitions start many usable in
    let reaction = event_loop-reaction s.transitions start in
    let recovery = event_loop-recovery s.transitions start in
    let none_yet = finished_none s.phases s.state_counts 0 in
    record {
      spans =
          event_loop-same span (λ p. refl) s.transitions start
          ∙ finished_span s.phases s.state_counts 0
          ∙ c.spans;
      shares = c.counts;
      dominants =
          event_loop-same (λ p. p.dominant_state) (λ p. refl) s.transitions start
          ∙ finished_dominant s.phases s.state_counts three_phases three_rows;
      greatest = rows-IsDominant s.state_counts c.rows;
      counted = omega arith;
      reaction = reaction;
      recovery = recovery;
      latency = (
        found-asked _ _ phase1_end s.transitions usable refl reaction,
        found-asked _ _ phase2_end s.transitions usable refl recovery,
      );
    }

-- Where the allocations succeed the program returns 0 with a report: the three phases show 5, 55 and 15
-- tasks and ticks 0 to 499, 500 to 1499 and 1500 to 2000, and the ticks in the three states add up to
-- 500, 1000 and 501; the dominant state of each is one in which most ticks were spent; the transitions
-- of the phases add up to the entries of the log. Reaction and recovery are the ticks from 500 and from
-- 1500 to the first entry from there on, if there is one, and are then 3 modulo 4. Where an allocation
-- fails it returns 1 without a report.
pub main_exp3-IsReported :
    (allocated : Bool)
    → ((allocated ≡ true)
        × ((r : SpikeReport) × (main_exp3 allocated ≡ (some r, 0)) × IsReported r))
      ⊎ ((allocated ≡ false) × (main_exp3 allocated ≡ (none, 1)))
unfolding main_exp3
main_exp3-IsReported false = inr (refl, refl)
main_exp3-IsReported true =
    let s = spike_loop total_ticks 0 start_spike in
    inl (
      refl,
      (
        report_of s,
        refl,
        report_of-IsReported s s.apaf_rq.apaf_state (spike_loop-IsKept total_ticks (omega arith))
            all_rounds-IsCounted,
      ),
    )
