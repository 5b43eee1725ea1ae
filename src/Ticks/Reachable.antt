-- ===== src/Ticks/Reachable.antt =====
-- What holds of every runqueue that apex-cfs/src can reach: from `rq_init` over tasks of
-- `task_create`, by the ticks of any scheduler, `task_set_runnable` and `rq_count_running`, in any order.
use mathlib.Core.Path.{subst}
use approximation_computing.Common.{
  ◌+◌, ◌≡◌, ◌∙◌, zero, ℕ, suc, inl, inr, refl, sym, ap, arith, List, [], ◌∷◌, map, ℤ, pos, length,
  modify, All, All-modify, length-modify, Bool-cases,
}
use approximation_computing.Task.{
  CfsTask, CfsRq, task_create, task_set_runnable, rq_init, rq_tick, rq_count_running, count_running,
  visited, has_no_tasks,
}
use approximation_computing.Task.Weights.{task_create-weight}
use approximation_computing.Fairness.Controller.{IsState}
use approximation_computing.Logic.Loads.{IsLoaded, IsDecay}
use approximation_computing.Exact.{exact_tick}
use approximation_computing.Bsa.{bsa_tick}
use approximation_computing.Clti.{clti_tick}
use approximation_computing.Apaf.{apaf_tick}
use approximation_computing.Ticks.{IsSized, IsServed, ServesOrIdles}
use approximation_computing.Ticks.Rounds.{
  exact_tick-IsServed, bsa_tick-ServesOrIdles, clti_tick-ServesOrIdles, apaf_tick-ServesOrIdles,
}
use approximation_computing.Ticks.Served.{served-IsLoaded}
use approximation_computing.Ticks.Loads.{
  exact_decay_load-IsDecay, bsa_decay_load-IsDecay, clti_decay_load-IsDecay,
  apaf_decay_load-IsDecay,
}

-- The tasks with these ids and nice values.
abbrev pub created : List (ℤ × ℤ) → List CfsTask
created = map (λ s. task_create s.0 s.1)

-- The runqueue after some ticks.
pub data Reachable : ℕ → CfsRq → Type 0 where
  start :
      (specs : List (ℤ × ℤ)) (mode : ℤ)
      → Reachable 0 (rq_init (created specs) (pos (length (created specs))) mode)
  set_runnable :
      {n : ℕ} {rq : CfsRq} (i : ℕ) (runnable : ℤ)
      → Reachable n rq
      → Reachable n (record rq { tasks = modify rq.tasks i (λ t. task_set_runnable t runnable) })
  counted : {n : ℕ} {rq : CfsRq} → Reachable n rq → Reachable n (rq_count_running rq).0
  exact : {n : ℕ} {rq : CfsRq} → Reachable n rq → Reachable (suc n) (exact_tick rq)
  bsa : {n : ℕ} {rq : CfsRq} → Reachable n rq → Reachable (suc n) (bsa_tick rq)
  clti : {n : ℕ} {rq : CfsRq} → Reachable n rq → Reachable (suc n) (clti_tick rq)
  apaf : {n : ℕ} {rq : CfsRq} → Reachable n rq → Reachable (suc n) (apaf_tick rq)

-- The ids and nice values of `n` tasks from id `i` on.
pub specs_by : (ℕ → ℤ) → ℕ → ℕ → List (ℤ × ℤ)
specs_by nice zero i = []
specs_by nice (suc n) i = (pos i, nice i) ∷ specs_by nice n (i + 1)

-- The loops that create the tasks of an array one by one.
pub specs_by_unique :
    (nice : ℕ → ℤ) (loop : ℕ → ℕ → List CfsTask)
    → ((i : ℕ) → loop 0 i ≡ [])
    → ((n i : ℕ) → loop (suc n) i ≡ task_create (pos i) (nice i) ∷ loop n (i + 1))
    → (n i : ℕ) → loop n i ≡ created (specs_by nice n i)
unfolding specs_by
specs_by_unique nice loop stop step zero i = stop i
specs_by_unique nice loop stop step (suc n) i =
    step n i
    ∙ ap (λ ts. task_create (pos i) (nice i) ∷ ts) (specs_by_unique nice loop stop step n (i + 1))

pub length-specs_by : (nice : ℕ → ℤ) (n i : ℕ) → length (created (specs_by nice n i)) ≡ n
unfolding specs_by
length-specs_by nice zero i = refl
length-specs_by nice (suc n) i = ap suc (length-specs_by nice n (i + 1))

-- A runqueue of tasks that are just created, all of them counted.
pub rq_init-Reachable :
    (specs : List (ℤ × ℤ)) (n : ℕ) (ts : List CfsTask) (mode : ℤ)
    → length (created specs) ≡ n
    → ts ≡ created specs
    → Reachable 0 (rq_init ts (pos n) mode)
rq_init-Reachable specs n ts mode many are =
    subst (λ us. Reachable 0 (rq_init us (pos n) mode)) (sym are)
      (subst (λ k. Reachable 0 (rq_init (created specs) (pos k) mode)) many (start specs mode))

pub record IsValid (rq : CfsRq) : Type 0 where
  pub sized : IsSized rq
  pub loaded : All IsLoaded rq.tasks
  pub state : IsState rq.apaf_state

created-IsLoaded : (id nice : ℤ) → IsLoaded (task_create id nice)
unfolding task_create
created-IsLoaded id nice = record {
  heavy = (task_create-weight id nice).0;
  light = (task_create-weight id nice).1;
  capped = omega arith;
  average = omega arith;
}

All-created : (specs : List (ℤ × ℤ)) → All IsLoaded (created specs)
All-created [] = tt
All-created (s ∷ specs) = (created-IsLoaded s.0 s.1, All-created specs)

set_runnable-IsLoaded : (r : ℤ) (t : CfsTask) → IsLoaded t → IsLoaded (task_set_runnable t r)
unfolding task_set_runnable
set_runnable-IsLoaded r t h = ground arith

served-IsValid :
    {delta decay : ℕ → ℕ → ℕ} (rq rq' : CfsRq)
    → IsDecay decay
    → IsServed delta decay rq rq'
    → IsValid rq
    → IsValid rq'
served-IsValid {delta = delta} {decay = decay} rq rq' laws h v = record {
  sized = h.sized;
  loaded = served-IsLoaded delta decay rq rq' laws h v.loaded;
  state = h.state v.state;
}

rq_tick-IsValid : (rq : CfsRq) → IsValid rq → IsValid (rq_tick rq)
unfolding rq_tick
rq_tick-IsValid rq v = record { sized = v.sized; loaded = v.loaded; state = v.state }

ServesOrIdles-IsValid :
    {delta decay : ℕ → ℕ → ℕ} (rq rq' : CfsRq)
    → IsDecay decay
    → ServesOrIdles delta decay rq rq'
    → IsValid rq
    → IsValid rq'
ServesOrIdles-IsValid rq rq' laws (inl (nobody, e)) v = rw e (rq_tick-IsValid rq v)
ServesOrIdles-IsValid rq rq' laws (inr (k, picked, h)) v = served-IsValid rq rq' laws h v

-- Counting changes nothing but the count.
pub rq_count_running-same {ℓ} :
    (P : CfsRq → Type ℓ) (rq : CfsRq)
    → P rq
    → ((c : ℕ) → P (record rq { nr_running = c }))
    → P (rq_count_running rq).0
unfolding rq_count_running
rq_count_running-same P rq h k = elim (Bool-cases (has_no_tasks rq)) [
  | inl e ↦ rw e h
  | inr e ↦ rw e (k (count_running (visited rq)))
]

-- Every runqueue that ticks of any schedulers, changes of run flags and counting reach from created tasks counts
-- its tasks, has every weight in 15..88761, every load sum at most 64 weights and every load average
-- at most the weight, and is in one of the three states of the controller.
pub Reachable-IsValid : (n : ℕ) (rq : CfsRq) → Reachable n rq → IsValid rq
unfolding rq_init
Reachable-IsValid _ _ (start specs mode) = record {
  sized = refl;
  loaded = All-created specs;
  state = inr (inl refl);
}
Reachable-IsValid _ _ (set_runnable {n = n} {rq = rq} i r h) =
    let v = Reachable-IsValid n rq h in
    record {
      sized = v.sized ∙ ap pos (sym (length-modify rq.tasks i (λ t. task_set_runnable t r)));
      loaded =
          All-modify IsLoaded rq.tasks i (λ t. task_set_runnable t r) (set_runnable-IsLoaded r)
            v.loaded;
      state = v.state;
    }
Reachable-IsValid _ _ (counted {n = n} {rq = rq} h) =
    let v = Reachable-IsValid n rq h in
    rq_count_running-same IsValid rq v
      (λ c. record { sized = v.sized; loaded = v.loaded; state = v.state })
Reachable-IsValid _ _ (exact {n = n} {rq = rq} h) =
    let v = Reachable-IsValid n rq h in
    served-IsValid rq (exact_tick rq) exact_decay_load-IsDecay (exact_tick-IsServed rq v.sized) v
Reachable-IsValid _ _ (bsa {n = n} {rq = rq} h) =
    let v = Reachable-IsValid n rq h in
    ServesOrIdles-IsValid rq (bsa_tick rq) bsa_decay_load-IsDecay
      (bsa_tick-ServesOrIdles rq v.sized) v
Reachable-IsValid _ _ (clti {n = n} {rq = rq} h) =
    let v = Reachable-IsValid n rq h in
    ServesOrIdles-IsValid rq (clti_tick rq) clti_decay_load-IsDecay
      (clti_tick-ServesOrIdles rq v.sized) v
Reachable-IsValid _ _ (apaf {n = n} {rq = rq} h) =
    let v = Reachable-IsValid n rq h in
    ServesOrIdles-IsValid rq (apaf_tick rq) (apaf_decay_load-IsDecay rq.apaf_state v.state)
      (apaf_tick-ServesOrIdles rq v.sized) v
