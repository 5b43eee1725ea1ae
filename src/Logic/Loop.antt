-- ===== src/Logic/Loop.antt =====
-- The loop `for (i = 0; i < rq->nr_tasks; i++) update(rq, i)` reaches every task once.
use approximation_computing.Common.{
  ℕ, ◌+◌, ◌<◌, ◌≡◌, refl, sym, ap, ◌∙◌, arith, List, [], ◌∷◌, ◌++◌, map, ℤ, pos, pos_part, length,
  modify, length-append,
}
use approximation_computing.Task.{CfsTask, CfsRq}
use approximation_computing.Logic.{at_task, for_tasks}

-- The element behind a prefix.
modify-append :
    (f : CfsTask → CfsTask) (before : List CfsTask) (t : CfsTask) (after : List CfsTask)
    → modify (before ++ t ∷ after) (length before) f ≡ before ++ f t ∷ after
modify-append f [] t after = refl
modify-append f (b ∷ before) t after = ap (λ l. b ∷ l) (modify-append f before t after)

append-one :
    (before : List CfsTask) (t : CfsTask) (after : List CfsTask)
    → (before ++ t ∷ []) ++ after ≡ before ++ t ∷ after
append-one [] t after = refl
append-one (b ∷ before) t after = ap (λ l. b ∷ l) (append-one before t after)

-- The guards of `at_task` let every index of the array through.
pub at_task-in_range :
    (f : CfsTask → CfsTask) (rq : CfsRq) (i : ℕ)
    → rq.nr_tasks ≡ pos (length rq.tasks)
    → i < length rq.tasks
    → at_task f rq (pos i) ≡ record rq { tasks = modify rq.tasks i f }
at_task-in_range f rq i sized h = ground arith

-- Where the update of a task leaves the rest of the runqueue alone, the loop over all indices applies
-- it to every task of the array exactly once.
module _ (rq : CfsRq) (f : CfsTask → CfsTask) (update : CfsRq → ℤ → CfsRq)
    (same : (ts : List CfsTask) (i : ℤ)
      → update (record rq { tasks = ts }) i ≡ at_task f (record rq { tasks = ts }) i) where
  step-at :
      (before : List CfsTask) (t : CfsTask) (after : List CfsTask)
      → rq.nr_tasks ≡ pos (length (before ++ t ∷ after))
      → update (record rq { tasks = before ++ t ∷ after }) (pos (length before))
        ≡ record rq { tasks = before ++ f t ∷ after }
  step-at before t after sized =
      same (before ++ t ∷ after) (pos (length before))
      ∙ at_task-in_range f (record rq { tasks = before ++ t ∷ after }) (length before) sized
          (rw (length-append before (t ∷ after)) (omega arith))
      ∙ ap (λ ts. record rq { tasks = ts }) (modify-append f before t after)

  for_tasks-append :
      (before after : List CfsTask)
      → rq.nr_tasks ≡ pos (length (before ++ after))
      → for_tasks update (length after) (length before) (record rq { tasks = before ++ after })
        ≡ record rq { tasks = before ++ map f after }
  unfolding for_tasks
  for_tasks-append before [] sized = refl
  for_tasks-append before (t ∷ after) sized =
      let next : List CfsTask = before ++ f t ∷ [] in
      let moved : next ++ after ≡ before ++ f t ∷ after = append-one before (f t) after in
      let counted : length before + 1 ≡ length next =
        omega (arith, length-append before (f t ∷ [])) in
      let kept : length (next ++ after) ≡ length (before ++ t ∷ after) =
        rw (moved, length-append before (f t ∷ after), length-append before (t ∷ after)) refl in
      ap (λ q. for_tasks update (length after) (length before + 1) q) (step-at before t after sized)
      ∙ (rw (sym moved, counted) (for_tasks-append next after (rw kept sized)))
      ∙ ap (λ ts. record rq { tasks = ts }) (append-one before (f t) (map f after))

  pub for_tasks_lem :
      rq.nr_tasks ≡ pos (length rq.tasks)
      → for_tasks update (pos_part rq.nr_tasks) 0 rq ≡ record rq { tasks = map f rq.tasks }
  for_tasks_lem sized =
      ap (λ n. for_tasks update (pos_part n) 0 rq) sized ∙ for_tasks-append [] rq.tasks sized
