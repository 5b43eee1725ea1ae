-- ===== src/Ticks/Idle.antt =====
-- The guards of every operation: what happens on a runqueue that holds nothing, and at an index out
-- of range.
use approximation_computing.Common.{
  ℕ, zero, suc, ◌+◌, ◌≤◌, ◌≡◌, ◌⊎◌, refl, arith, true, none, ℤ, pos, pos_part, ◌<ℤ◌, length,
}
use approximation_computing.Double.{one}
use approximation_computing.Task.{CfsTask, CfsRq, has_no_tasks, rq_tick, rq_count_running}
use approximation_computing.Fairness.{fairness_jain_index, fairness_total_weight}
use approximation_computing.Logic.{at_task, update_curr, update_load_avg, for_tasks, finish_tick}
use approximation_computing.Exact.{
  exact_pick_next_task, exact_update_curr, exact_update_load_avg, exact_tick,
}
use approximation_computing.Bsa.{bsa_update_curr, bsa_update_load_avg, bsa_pick_next_task, bsa_tick}
use approximation_computing.Clti.{
  clti_update_curr, clti_update_load_avg, clti_pick_next_task, clti_tick,
}
use approximation_computing.Apaf.{
  apaf_update_curr, apaf_update_load_avg, apaf_pick_next_task, apaf_tick,
}

-- No task of the array has this index.
abbrev IsOutside : CfsRq → ℤ → Type 0
IsOutside rq i = (length rq.tasks ≡ 0) ⊎ ((i <ℤ pos 0) ⊎ (pos_part rq.nr_tasks ≤ pos_part i))

at_task_outside :
    (f : CfsTask → CfsTask) (rq : CfsRq) (i : ℤ) → IsOutside rq i → at_task f rq i ≡ rq
at_task_outside f rq i h = ground arith

-- At an index that is negative or not below the number of tasks, and where the array is empty, the
-- update of a running task and that of a load leave the runqueue as it is, in all four schedulers.
updates_outside :
    (rq : CfsRq) (i : ℤ)
    → IsOutside rq i
    → (exact_update_curr rq i ≡ rq)
      × (bsa_update_curr rq i ≡ rq)
      × (clti_update_curr rq i ≡ rq)
      × (apaf_update_curr rq i ≡ rq)
      × (exact_update_load_avg rq i ≡ rq)
      × (bsa_update_load_avg rq i ≡ rq)
      × (clti_update_load_avg rq i ≡ rq)
      × (apaf_update_load_avg rq i ≡ rq)
unfolding exact_update_curr bsa_update_curr clti_update_curr apaf_update_curr exact_update_load_avg
    bsa_update_load_avg clti_update_load_avg apaf_update_load_avg update_curr update_load_avg
updates_outside rq i h = (
  at_task_outside _ rq i h,
  at_task_outside _ rq i h,
  at_task_outside _ rq i h,
  at_task_outside _ rq i h,
  at_task_outside _ rq i h,
  at_task_outside _ rq i h,
  at_task_outside _ rq i h,
  at_task_outside _ rq i h,
)

for_tasks_still :
    (update : CfsRq → ℤ → CfsRq) (rq : CfsRq) (n i : ℕ)
    → ((k : ℕ) → update rq (pos k) ≡ rq)
    → for_tasks update n i rq ≡ rq
unfolding for_tasks
for_tasks_still update rq zero i h = refl
for_tasks_still update rq (suc n) i h = rw (h i) (for_tasks_still update rq n (i + 1) h)

empty-IsOutside : (rq : CfsRq) (k : ℕ) → has_no_tasks rq ≡ true → IsOutside rq (pos k)
empty-IsOutside rq k h = ground arith

empty-pick : (rq : CfsRq) → has_no_tasks rq ≡ true → exact_pick_next_task rq ≡ none
unfolding exact_pick_next_task
empty-pick rq h = rw h refl

empty-jain : (rq : CfsRq) → has_no_tasks rq ≡ true → fairness_jain_index rq ≡ pos one
unfolding fairness_jain_index
empty-jain rq h = rw h refl

empty-count : (rq : CfsRq) → has_no_tasks rq ≡ true → rq_count_running rq ≡ (rq, 0)
unfolding rq_count_running
empty-count rq h = rw h refl

empty-weight : (rq : CfsRq) → has_no_tasks rq ≡ true → fairness_total_weight rq ≡ 0
unfolding fairness_total_weight
empty-weight rq h = rw h refl

empty-finish :
    (rq : CfsRq) → has_no_tasks rq ≡ true → finish_tick rq ≡ record rq { jain_index = pos one }
unfolding finish_tick
empty-finish rq h =
    rw (empty-jain rq h, finish_tick) (rw (empty-count (record rq { jain_index = pos one }) h) refl)

empty-exact_tick :
    (rq : CfsRq)
    → has_no_tasks rq ≡ true
    → exact_tick rq ≡ record (rq_tick rq) { jain_index = pos one }
unfolding exact_tick
empty-exact_tick rq h =
    let ticked : CfsRq = rq_tick rq in
    let empty : has_no_tasks ticked ≡ true = unfold rq_tick in h in
    rw
      (
        empty-pick ticked empty,
        for_tasks_still exact_update_load_avg ticked (pos_part ticked.nr_tasks) 0
            (λ k. (updates_outside ticked (pos k) (empty-IsOutside ticked k empty)).4),
        exact_tick,
      )
      (empty-finish ticked empty)

-- On a runqueue that holds no task, or that counts no positive number of them, no task
-- is picked, none is counted as running and the weights add up to 0, the fairness index is 1.0, and a
-- tick of any scheduler moves the clock and nothing else, but that the exact one also stores the
-- index.
empty_runqueue :
    (rq : CfsRq)
    → has_no_tasks rq ≡ true
    → (exact_pick_next_task rq ≡ none)
      × (rq_count_running rq ≡ (rq, 0))
      × (fairness_total_weight rq ≡ 0)
      × (fairness_jain_index rq ≡ pos one)
      × (exact_tick rq ≡ record (rq_tick rq) { jain_index = pos one })
      × (bsa_tick rq ≡ rq_tick rq)
      × (clti_tick rq ≡ rq_tick rq)
      × (apaf_tick rq ≡ rq_tick rq)
unfolding bsa_tick clti_tick apaf_tick bsa_pick_next_task clti_pick_next_task apaf_pick_next_task
    rq_tick
empty_runqueue rq h =
    let idle = empty-pick (rq_tick rq) h in
    (
      empty-pick rq h,
      empty-count rq h,
      empty-weight rq h,
      empty-jain rq h,
      empty-exact_tick rq h,
      rw (idle, bsa_tick) refl,
      rw (idle, clti_tick) refl,
      rw (idle, apaf_tick) refl,
    )
