-- ===== src/Experiment/LoadError/Lane.antt =====
-- The tasks of a lane all have the same load.
use approximation_computing.Common.{
  ℕ, ◌<◌, ◌≡◌, ◌≢◌, ◌⊎◌, inl, inr, refl, arith, true, Option, none, some, List, [], ◌∷◌, map, ℤ,
  pos, length, All, All-modify,
}
use approximation_computing.Double.{Double}
use approximation_computing.Task.{CfsTask, CfsRq, is_running}
use approximation_computing.Logic.{run_task, age_task}
use approximation_computing.Metrics.{Errors, error_step, error_loop}
use approximation_computing.Ticks.{IsSized, IsServed, run_choice, ServesOrIdles}
use approximation_computing.Ticks.Rounds.{
  exact_tick-IsServed, bsa_tick-ServesOrIdles, clti_tick-ServesOrIdles,
}
use approximation_computing.Exact.{exact_pick_next_task}
use approximation_computing.Experiment.{tick_of}
use approximation_computing.Experiment.LoadError.{decay_of, next_sum, average_of, worse}

-- A running task of nice value 0 with this load sum.
pub record IsAt (sum : ℕ) (t : CfsTask) : Type 0 where
  pub runs : is_running t ≡ true
  pub unit : t.weight ≡ 1024
  pub load : t.load_sum ≡ sum

-- And with the load average that belongs to it.
abbrev pub Shows : ℕ → CfsTask → Type 0
Shows sum t = IsAt sum t × (t.load_avg ≡ average_of sum)

run_task-IsAt :
    (delta : ℕ → ℕ → ℕ) (sum : ℕ) (t : CfsTask) → IsAt sum t → IsAt sum (run_task delta t)
unfolding run_task
run_task-IsAt delta sum t h = ground arith

age_task-Shows :
    (decay : ℕ → ℕ → ℕ) (sum : ℕ) (t : CfsTask)
    → IsAt sum t
    → Shows (next_sum decay sum) (age_task decay t)
unfolding age_task
age_task-Shows decay sum t h =
    let runs = h.runs in
    let unit = h.unit in
    let load = h.load in
    (
      record { runs = runs; unit = unit; load = rw (runs, unit, load) refl },
      rw (runs, unit, load) refl,
    )

run_choice-IsAt :
    (delta : ℕ → ℕ → ℕ) (sum : ℕ) (r : Option ℕ) (ts : List CfsTask)
    → All (IsAt sum) ts
    → All (IsAt sum) (run_choice delta r ts)
run_choice-IsAt delta sum none ts h = h
run_choice-IsAt delta sum (some k) ts h =
    All-modify (IsAt sum) ts k (run_task delta) (run_task-IsAt delta sum) h

aged-Shows :
    (decay : ℕ → ℕ → ℕ) (sum : ℕ) (ts : List CfsTask)
    → All (IsAt sum) ts
    → All (Shows (next_sum decay sum)) (map (age_task decay) ts)
aged-Shows decay sum [] h = tt
aged-Shows decay sum (t ∷ ts) (h, hs) = (age_task-Shows decay sum t h, aged-Shows decay sum ts hs)

pub Shows-IsAt : (sum : ℕ) (ts : List CfsTask) → All (Shows sum) ts → All (IsAt sum) ts
Shows-IsAt sum [] h = tt
Shows-IsAt sum (t ∷ ts) (h, hs) = (h.0, Shows-IsAt sum ts hs)

pub served-Shows :
    (delta decay : ℕ → ℕ → ℕ) (sum : ℕ) (rq rq' : CfsRq)
    → IsServed delta decay rq rq'
    → All (IsAt sum) rq.tasks
    → All (Shows (next_sum decay sum)) rq'.tasks
served-Shows delta decay sum rq rq' h all =
    rw h.tasks
      (aged-Shows decay sum _ (run_choice-IsAt delta sum (exact_pick_next_task rq) rq.tasks all))

-- One of the schedulers whose decay has no state.
abbrev pub IsPlain : ℤ → Type 0
IsPlain logic = (logic ≡ pos 0) ⊎ ((logic ≡ pos 1) ⊎ (logic ≡ pos 2))

pub serves :
    (delta decay : ℕ → ℕ → ℕ) (rq rq' : CfsRq)
    → exact_pick_next_task rq ≢ none
    → ServesOrIdles delta decay rq rq'
    → IsServed delta decay rq rq'
serves delta decay rq rq' busy (inl (nobody, e)) = absurd (busy nobody)
serves delta decay rq rq' busy (inr (k, picked, h)) = h

pub tick_of-Shows :
    (logic : ℤ) (sum : ℕ) (rq : CfsRq)
    → IsPlain logic
    → IsSized rq
    → exact_pick_next_task rq ≢ none
    → All (IsAt sum) rq.tasks
    → All (Shows (next_sum (decay_of logic) sum)) (tick_of logic rq).tasks
unfolding tick_of
tick_of-Shows logic sum rq (inl e) sized busy all =
    rw (e, tick_of) (served-Shows _ _ sum rq _ (exact_tick-IsServed rq sized) all)
tick_of-Shows logic sum rq (inr (inl e)) sized busy all =
    rw (e, tick_of)
      (served-Shows _ _ sum rq _ (serves _ _ rq _ busy (bsa_tick-ServesOrIdles rq sized)) all)
tick_of-Shows logic sum rq (inr (inr e)) sized busy all =
    rw (e, tick_of)
      (served-Shows _ _ sum rq _ (serves _ _ rq _ busy (clti_tick-ServesOrIdles rq sized)) all)

stays :
    (approx exact : ℕ) (t u : CfsTask) (s : Errors) (m : Double)
    → t.load_avg ≡ approx
    → u.load_avg ≡ exact
    → s.max_error ≡ worse m approx exact
    → (error_step t u s).max_error ≡ worse m approx exact
unfolding error_step
stays approx exact t u s m a b e = ground arith

-- The error of the tasks of both lanes is that of any of them.
error_loop-max :
    (exact approx : ℕ) (ts es : List CfsTask) (s : Errors) (m : Double)
    → All (Shows approx) ts
    → All (Shows exact) es
    → length ts ≡ length es
    → s.max_error ≡ worse m (average_of approx) (average_of exact)
    → (error_loop ts es s).max_error ≡ worse m (average_of approx) (average_of exact)
unfolding error_loop error_step
error_loop-max exact approx [] es s m h k same e = e
error_loop-max exact approx (t ∷ ts) [] s m h k same e = e
error_loop-max exact approx (t ∷ ts) (u ∷ us) s m (h, hs) (k, ks) same e =
    error_loop-max exact approx ts us (error_step t u s) m hs ks (omega arith)
      (stays (average_of approx) (average_of exact) t u s m h.1 k.1 e)

first :
    (approx exact : ℕ) (t u : CfsTask) (s : Errors)
    → t.load_avg ≡ approx
    → u.load_avg ≡ exact
    → (error_step t u s).max_error ≡ worse s.max_error approx exact
unfolding error_step
first approx exact t u s a b = ground arith

pub error_loop_all :
    (exact approx : ℕ) (ts es : List CfsTask) (s : Errors)
    → All (Shows approx) ts
    → All (Shows exact) es
    → length ts ≡ length es
    → 0 < length ts
    → (error_loop ts es s).max_error ≡ worse s.max_error (average_of approx) (average_of exact)
unfolding error_loop
error_loop_all exact approx [] es s h k same some_task = absurd (omega arith)
error_loop_all exact approx (t ∷ ts) [] s h k same some_task = absurd (omega arith)
error_loop_all exact approx (t ∷ ts) (u ∷ us) s (h, hs) (k, ks) same some_task =
    error_loop-max exact approx ts us (error_step t u s) s.max_error hs ks (omega arith)
      (first (average_of approx) (average_of exact) t u s h.1 k.1)
