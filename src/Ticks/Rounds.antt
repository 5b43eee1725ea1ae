-- ===== src/Ticks/Rounds.antt =====
-- The four ticks meet the specification: exact_tick always, and bsa_tick, clti_tick and apaf_tick
-- wherever a task is running; elsewhere these only move the clock.
use approximation_computing.Common.{
  ◌%◌, ◌==◌, ◌==ℤ◌, ◌≡◌, inl, inr, refl, ◌∙◌, none, some, Bool-cases, Option-cases,
}
use approximation_computing.Task.{CfsRq, rq_tick}
use approximation_computing.Fairness.{fairness_jain_index, fairness_apaf_next_state}
use approximation_computing.Fairness.Controller.{next-IsState}
use approximation_computing.Logic.{update_load_avg}
use approximation_computing.Exact.{
  exact_pick_next_task, exact_calc_delta_fair, exact_decay_load, exact_update_curr,
  exact_update_load_avg, exact_tick,
}
use approximation_computing.Bsa.{
  bsa_vruntime_delta, bsa_decay_load, bsa_pick_next_task, bsa_update_curr, bsa_update_load_avg,
  bsa_tick,
}
use approximation_computing.Clti.{
  clti_vruntime_delta, clti_decay_load, clti_pick_next_task, clti_update_curr, clti_update_load_avg,
  clti_tick,
}
use approximation_computing.Apaf.{
  apaf_pick_next_task, apaf_update_curr, apaf_update_load_avg, apaf_tick, apaf_update_state,
}
use approximation_computing.Ticks.{IsSized, apaf_delta, apaf_decay, IsServed, ServesOrIdles}
use approximation_computing.Ticks.Round.{
  pick-rq_tick, Still, round-IsServed, nothing_more, run_choice_lem,
}

-- On a runqueue whose count is right, `exact_tick` meets the specification: the task of choice runs,
-- if there is one, every load decays, clock and tick advance, the index and the number of running
-- tasks are renewed.
pub exact_tick-IsServed :
    (rq : CfsRq) → IsSized rq → IsServed exact_calc_delta_fair exact_decay_load rq (exact_tick rq)
unfolding exact_tick exact_update_curr exact_update_load_avg update_load_avg rq_tick
exact_tick-IsServed rq sized = elim (Option-cases (exact_pick_next_task rq)) [
  | inl nobody ↦
      rw (pick-rq_tick rq, nobody)
        (round-IsServed exact_calc_delta_fair exact_decay_load rq none exact_update_load_avg
          (λ q. q) sized nobody (λ ts i. refl) nothing_more)
  | inr (k, picked) ↦
      rw
        (
          pick-rq_tick rq,
          picked,
          run_choice_lem exact_calc_delta_fair (rq_tick rq) k (pick-rq_tick rq ∙ picked) sized,
        )
        (round-IsServed exact_calc_delta_fair exact_decay_load rq (some k) exact_update_load_avg
          (λ q. q) sized picked (λ ts i. refl) nothing_more)
]

-- On a runqueue whose count is right, `bsa_tick` meets the specification where a task is running;
-- with no task to run, it moves the clock and nothing else.
pub bsa_tick-ServesOrIdles :
    (rq : CfsRq) → IsSized rq → ServesOrIdles bsa_vruntime_delta bsa_decay_load rq (bsa_tick rq)
unfolding bsa_tick bsa_pick_next_task bsa_update_curr bsa_update_load_avg update_load_avg rq_tick
bsa_tick-ServesOrIdles rq sized = elim (Option-cases (exact_pick_next_task rq)) [
  | inl nobody ↦
      let idles : bsa_tick rq ≡ rq_tick rq = rw (bsa_tick, pick-rq_tick rq, nobody) refl in
      inl (nobody, idles)
  | inr (k, picked) ↦
      let serves : IsServed bsa_vruntime_delta bsa_decay_load rq (bsa_tick rq) =
        rw
          (
            bsa_tick,
            pick-rq_tick rq,
            picked,
            run_choice_lem bsa_vruntime_delta (rq_tick rq) k (pick-rq_tick rq ∙ picked) sized,
          )
          (round-IsServed bsa_vruntime_delta bsa_decay_load rq (some k) bsa_update_load_avg (λ q. q)
            sized picked (λ ts i. refl) nothing_more) in
      inr (k, picked, serves)
]

-- On a runqueue whose count is right, `clti_tick` meets the specification where a task is running;
-- with no task to run, it moves the clock and nothing else.
pub clti_tick-ServesOrIdles :
    (rq : CfsRq) → IsSized rq → ServesOrIdles clti_vruntime_delta clti_decay_load rq (clti_tick rq)
unfolding clti_tick clti_pick_next_task clti_update_curr clti_update_load_avg update_load_avg
    rq_tick
clti_tick-ServesOrIdles rq sized = elim (Option-cases (exact_pick_next_task rq)) [
  | inl nobody ↦
      let idles : clti_tick rq ≡ rq_tick rq = rw (clti_tick, pick-rq_tick rq, nobody) refl in
      inl (nobody, idles)
  | inr (k, picked) ↦
      let serves : IsServed clti_vruntime_delta clti_decay_load rq (clti_tick rq) =
        rw
          (
            clti_tick,
            pick-rq_tick rq,
            picked,
            run_choice_lem clti_vruntime_delta (rq_tick rq) k (pick-rq_tick rq ∙ picked) sized,
          )
          (round-IsServed clti_vruntime_delta clti_decay_load rq (some k) clti_update_load_avg
            (λ q. q) sized picked (λ ts i. refl) nothing_more) in
      inr (k, picked, serves)
]

-- The monitor of APAF may change the state and the index, and nothing else.
apaf_update_state-Still : (q : CfsRq) → Still q (apaf_update_state q)
unfolding apaf_update_state
apaf_update_state-Still q =
    let j = fairness_jain_index q in
    let next = fairness_apaf_next_state q.apaf_state j in
    elim (Bool-cases (q.tick % 4 == 0)) [
      | inl due ↦ elim (Bool-cases (next ==ℤ q.apaf_state)) [
        | inl stays ↦ record {
          state = q.apaf_state;
          index = j;
          same = rw (due, stays) refl;
          valid = λ h. h;
        }
        | inr moves ↦ record {
          state = next;
          index = j;
          same = rw (due, moves) refl;
          valid = λ h. (next-IsState q.apaf_state j h).0;
        }
      ]
      | inr not_due ↦ record {
        state = q.apaf_state;
        index = q.jain_index;
        same = rw not_due refl;
        valid = λ h. h;
      }
    ]

-- On a runqueue whose count is right, `apaf_tick` meets the specification where a task is running,
-- with the accuracy of the state that the runqueue is in when the tick begins; with no task to run, it
-- moves the clock and nothing else.
pub apaf_tick-ServesOrIdles :
    (rq : CfsRq)
    → IsSized rq
    → ServesOrIdles (apaf_delta rq.apaf_state) (apaf_decay rq.apaf_state) rq (apaf_tick rq)
unfolding apaf_tick apaf_pick_next_task apaf_update_curr apaf_update_load_avg update_load_avg
    rq_tick
apaf_tick-ServesOrIdles rq sized = elim (Option-cases (exact_pick_next_task rq)) [
  | inl nobody ↦
      let idles : apaf_tick rq ≡ rq_tick rq = rw (apaf_tick, pick-rq_tick rq, nobody) refl in
      inl (nobody, idles)
  | inr (k, picked) ↦
      let s = rq.apaf_state in
      let serves : IsServed (apaf_delta s) (apaf_decay s) rq (apaf_tick rq) =
        rw
          (
            apaf_tick,
            pick-rq_tick rq,
            picked,
            run_choice_lem (apaf_delta s) (rq_tick rq) k (pick-rq_tick rq ∙ picked) sized,
          )
          (round-IsServed (apaf_delta s) (apaf_decay s) rq (some k) apaf_update_load_avg
            apaf_update_state sized picked (λ ts i. refl) apaf_update_state-Still) in
      inr (k, picked, serves)
]

-- On a runqueue whose count is right, the tick of each approximation meets the specification where a
-- task is running, APAF's with the accuracy of the state that the runqueue is in when the tick begins;
-- with no task to run, it moves the clock and nothing else.
pub approximations-ServesOrIdles :
    (rq : CfsRq)
    → IsSized rq
    → ServesOrIdles bsa_vruntime_delta bsa_decay_load rq (bsa_tick rq)
      × ServesOrIdles clti_vruntime_delta clti_decay_load rq (clti_tick rq)
      × ServesOrIdles (apaf_delta rq.apaf_state) (apaf_decay rq.apaf_state) rq (apaf_tick rq)
approximations-ServesOrIdles rq sized = (
  bsa_tick-ServesOrIdles rq sized,
  clti_tick-ServesOrIdles rq sized,
  apaf_tick-ServesOrIdles rq sized,
)
