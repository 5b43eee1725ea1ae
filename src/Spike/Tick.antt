-- ===== src/Spike/Tick.antt =====
-- What a tick of APAF does to the state of the controller.
use approximation_computing.Common.{
  ℕ, zero, suc, ◌+◌, ◌%◌, ◌≡◌, ◌⊎◌, inl, inr, refl, sym, ◌∙◌, Option-cases, Bool, true, false,
  if◌then◌else◌, ℤ, pos, pos_part, List, modify,
}
use approximation_computing.Task.{CfsTask, CfsRq, rq_tick}
use approximation_computing.Fairness.{fairness_jain_index, fairness_apaf_next_state}
use approximation_computing.Logic.{at_task, update_curr, update_load_avg, for_tasks, finish_tick}
use approximation_computing.Apaf.{
  apaf_update_state, apaf_update_curr, apaf_update_load_avg, apaf_pick_next_task, apaf_tick,
}
use approximation_computing.Apaf.State.{apaf_update_state-cases}
use approximation_computing.Ticks.Round.{finish_tick_lem}

-- The controller keeps its state, or moves at a tick that is a multiple of 4, by the index that the
-- runqueue shows after the tick.
abbrev pub Controls : CfsRq → CfsRq → Type 0
Controls rq rq' =
    (rq'.apaf_state ≡ rq.apaf_state)
    ⊎ ((rq'.tick % 4 ≡ 0)
        × (rq'.apaf_state ≡ fairness_apaf_next_state rq.apaf_state rq'.jain_index))

-- What the updates of single tasks leave alone.
record IsSameBut (rq rq' : CfsRq) : Type 0 where
  state : rq'.apaf_state ≡ rq.apaf_state
  tick : rq'.tick ≡ rq.tick

either-IsSameBut :
    (b : Bool) (rq : CfsRq) (ts : List CfsTask)
    → IsSameBut rq (if b then rq else record rq { tasks = ts })
either-IsSameBut true rq ts = record { state = refl; tick = refl }
either-IsSameBut false rq ts = record { state = refl; tick = refl }

at_task-IsSameBut : (f : CfsTask → CfsTask) (rq : CfsRq) (i : ℤ) → IsSameBut rq (at_task f rq i)
at_task-IsSameBut f rq i = either-IsSameBut _ rq (modify rq.tasks (pos_part i) f)

for_tasks-IsSameBut : (n i : ℕ) (rq : CfsRq) → IsSameBut rq (for_tasks apaf_update_load_avg n i rq)
unfolding for_tasks apaf_update_load_avg update_load_avg
for_tasks-IsSameBut zero i rq = record { state = refl; tick = refl }
for_tasks-IsSameBut (suc n) i rq =
    let first = at_task-IsSameBut _ rq (pos i) in
    let rest = for_tasks-IsSameBut n (i + 1) (apaf_update_load_avg rq (pos i)) in
    record { state = rest.state ∙ first.state; tick = rest.tick ∙ first.tick }

finish-Controls : (q : CfsRq) → Controls q (finish_tick (apaf_update_state q))
unfolding fairness_jain_index
finish-Controls q = rw (finish_tick_lem (apaf_update_state q)) (elim (apaf_update_state-cases q) [
  | inl (not_due, e) ↦ rw e (inl refl)
  | inr (due, e) ↦ rw e (inr (due, refl))
])

same_start : (rq q r : CfsRq) → q.apaf_state ≡ rq.apaf_state → Controls q r → Controls rq r
same_start rq q r e c = rw (sym e) c

pub apaf_tick-Controls : (rq : CfsRq) → Controls rq (apaf_tick rq)
unfolding apaf_tick apaf_update_curr update_curr rq_tick
apaf_tick-Controls rq = elim (Option-cases (apaf_pick_next_task (rq_tick rq))) [
  | inl nobody ↦ rw (apaf_tick, nobody) (inl refl)
  | inr (k, picked) ↦
      let run = apaf_update_curr (rq_tick rq) (pos k) in
      let first = at_task-IsSameBut _ (rq_tick rq) (pos k) in
      let rest = for_tasks-IsSameBut (pos_part run.nr_tasks) 0 run in
      let aged = for_tasks apaf_update_load_avg (pos_part run.nr_tasks) 0 run in
      let c = finish-Controls aged in
      rw (apaf_tick, picked)
        (same_start rq aged (finish_tick (apaf_update_state aged)) (rest.state ∙ first.state) c)
]
