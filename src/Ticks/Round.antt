-- ===== src/Ticks/Round.antt =====
-- One round of any of the four ticks: what the common end of the ticks and the loop over the loads do.
use mathlib.Core.Path.{subst}
use approximation_computing.Common.{
  ℕ, ◌<◌, ◌≡◌, refl, sym, ap, ◌∙◌, Bool, true, false, Option, none, some, List, map, ℤ, pos,
  pos_part, if◌then◌else◌, length, take_all, le_refl, length-map, length-modify, get_elem?-below,
}
use approximation_computing.Task.{
  CfsTask, CfsRq, has_no_tasks, rq_tick, rq_count_running, count_running, visited,
}
use approximation_computing.Double.{Double}
use approximation_computing.Fairness.{fairness_jain_index}
use approximation_computing.Fairness.Controller.{IsState}
use approximation_computing.Logic.{run_task, age_task, at_task, update_curr, for_tasks, finish_tick}
use approximation_computing.Logic.Loop.{for_tasks_lem, at_task-in_range}
use approximation_computing.Exact.{exact_pick_next_task}
use approximation_computing.Exact.Pick.{IsChoice, idle, chosen, exact_pick_next_task-IsChoice}
use approximation_computing.Ticks.{IsSized, IsServed, run_choice}

pub length-run_choice :
    (delta : ℕ → ℕ → ℕ) (r : Option ℕ) (ts : List CfsTask)
    → length (run_choice delta r ts) ≡ length ts
length-run_choice delta none ts = refl
length-run_choice delta (some k) ts = length-modify ts k (run_task delta)

abbrev pub finished : CfsRq → CfsRq
finished rq = record rq {
  jain_index = fairness_jain_index rq;
  nr_running = if has_no_tasks rq then rq.nr_running else count_running (visited rq);
}

counted_or_not :
    (b : Bool) (rq : CfsRq) (c : ℕ)
    → (if◌then◌else◌ {A = CfsRq × ℕ} b (rq, 0) (record rq { nr_running = c }, c)).0
      ≡ record rq { nr_running = if b then rq.nr_running else c }
counted_or_not true rq c = refl
counted_or_not false rq c = refl

pub finish_tick_lem : (rq : CfsRq) → finish_tick rq ≡ finished rq
unfolding finish_tick rq_count_running fairness_jain_index
finish_tick_lem rq =
    counted_or_not (has_no_tasks rq) (record rq { jain_index = fairness_jain_index rq })
      (count_running (visited rq))

-- What the end of a tick leaves alone, and what it measures.
finish_tick-IsServed :
    (delta decay : ℕ → ℕ → ℕ) (rq rq' : CfsRq)
    → IsSized rq
    → rq'.tasks ≡ map (age_task decay) (run_choice delta (exact_pick_next_task rq) rq.tasks)
    → rq'.nr_tasks ≡ rq.nr_tasks
    → rq'.clock ≡ (rq_tick rq).clock
    → rq'.tick ≡ (rq_tick rq).tick
    → (IsState rq.apaf_state → IsState rq'.apaf_state)
    → rq'.approx_mode ≡ rq.approx_mode
    → IsServed delta decay rq (finish_tick rq')
unfolding finish_tick rq_count_running fairness_jain_index rq_tick
finish_tick-IsServed delta decay rq rq' sized tasks nr clock tick state mode =
    let same : length rq'.tasks ≡ length rq.tasks =
      ap length tasks
      ∙ length-map (age_task decay) (run_choice delta (exact_pick_next_task rq) rq.tasks)
      ∙ length-run_choice delta (exact_pick_next_task rq) rq.tasks in
    let sized' : IsSized rq' = nr ∙ sized ∙ ap pos (sym same) in
    let all : visited rq' ≡ rq'.tasks =
      take_all (pos_part rq'.nr_tasks) rq'.tasks (rw sized' (le_refl (length rq'.tasks))) in
    let guard : has_no_tasks rq' ≡ has_no_tasks rq = rw (same, nr) refl in
    subst (IsServed delta decay rq) (sym (finish_tick_lem rq')) (record {
      tasks = tasks;
      sized = sized';
      clock = clock;
      tick = tick;
      state = state;
      mode = mode;
      fair = refl;
      counted = λ h. rw (guard ∙ h) (ap count_running all);
    })

-- The choice looks at nothing that the clock changes.
pub pick-rq_tick : (rq : CfsRq) → exact_pick_next_task (rq_tick rq) ≡ exact_pick_next_task rq
unfolding exact_pick_next_task rq_tick
pick-rq_tick rq = refl

-- A last step that leaves the fields alone which the specification fixes, and keeps the state valid.
pub record Still (q q' : CfsRq) : Type 0 where
  pub state : ℤ
  pub index : Double
  pub same : q' ≡ record q { apaf_state = state; jain_index = index }
  pub valid : IsState q.apaf_state → IsState state

-- One round of a scheduler whose updates and last step are these.
pub round-IsServed :
    (delta decay : ℕ → ℕ → ℕ) (rq : CfsRq) (r : Option ℕ) (update : CfsRq → ℤ → CfsRq)
    (last : CfsRq → CfsRq)
    → IsSized rq
    → exact_pick_next_task rq ≡ r
    → ((ts : List CfsTask) (i : ℤ)
        → update (record (rq_tick rq) { tasks = ts }) i
          ≡ at_task (age_task decay) (record (rq_tick rq) { tasks = ts }) i)
    → ((q : CfsRq) → Still q (last q))
    → IsServed delta decay rq (
        finish_tick (
          last (
            for_tasks update
              (pos_part rq.nr_tasks)
              0
              (record (rq_tick rq) { tasks = run_choice delta r rq.tasks }))))
unfolding rq_tick
round-IsServed delta decay rq r update last sized picked same still =
    let ran : List CfsTask = run_choice delta r rq.tasks in
    let all =
      for_tasks_lem (record (rq_tick rq) { tasks = ran }) (age_task decay) update same
        (sized ∙ ap pos (sym (length-run_choice delta r rq.tasks))) in
    let aged : CfsRq = record (rq_tick rq) { tasks = map (age_task decay) ran } in
    rw (all, (still aged).same)
      (finish_tick-IsServed delta decay rq
        (record aged { apaf_state = (still aged).state; jain_index = (still aged).index }) sized
        (rw picked refl) refl refl refl (still aged).valid refl)

-- No last step.
pub nothing_more : (q : CfsRq) → Still q q
nothing_more q = record { state = q.apaf_state; index = q.jain_index; same = refl; valid = λ h. h }

-- The choice is made among all tasks of the array.
pub picked-IsChoice : (rq : CfsRq) → IsSized rq → IsChoice rq.tasks (exact_pick_next_task rq)
picked-IsChoice rq sized =
    subst (λ ts. IsChoice ts (exact_pick_next_task rq))
      (take_all (pos_part rq.nr_tasks) rq.tasks (rw sized (le_refl (length rq.tasks))))
      (exact_pick_next_task-IsChoice rq)

choice-below :
    (ts : List CfsTask) (r : Option ℕ) (k : ℕ) → IsChoice ts r → r ≡ some k → k < length ts
choice-below ts r k (idle none_running h) picked = absurd cc
choice-below ts r k (chosen j t e there run least) picked =
    let same : k ≡ j = cc in rw same (get_elem?-below ts j t there)

pub run_choice_lem :
    (delta : ℕ → ℕ → ℕ) (rq : CfsRq) (k : ℕ)
    → exact_pick_next_task rq ≡ some k
    → IsSized rq
    → update_curr delta rq (pos k) ≡ record rq { tasks = run_choice delta (some k) rq.tasks }
unfolding update_curr
run_choice_lem delta rq k picked sized =
    at_task-in_range (run_task delta) rq k sized
      (choice-below rq.tasks (exact_pick_next_task rq) k (picked-IsChoice rq sized) picked)
