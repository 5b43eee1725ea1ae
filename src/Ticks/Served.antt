-- ===== src/Ticks/Served.antt =====
-- What follows for every tick that meets the specification: CPU time is handed out once, the loads
-- stay within their bounds, and the schedulers agree on who runs.
use approximation_computing.Common.{
  ℕ, zero, suc, ◌+◌, ◌^◌, ◌<◌, ◌≡◌, refl, sym, ap, ◌∙◌, arith, true, Option, none, some, List, [],
  ◌∷◌, map, get_elem?, modify, All, All-map, All-modify,
}
use approximation_computing.Task.{CfsTask, CfsRq, is_running, tick_ns}
use approximation_computing.Logic.{run_task, age_task}
use approximation_computing.Logic.Loads.{IsDecay, IsLoaded, age_task-IsLoaded, run_task-IsLoaded}
use approximation_computing.Exact.{exact_pick_next_task}
use approximation_computing.Exact.Pick.{IsChoice, idle, chosen}
use approximation_computing.Ticks.{IsSized, IsServed, run_choice, total_runtime}
use approximation_computing.Ticks.Round.{picked-IsChoice}

-- The time that a choice grants.
abbrev pub granted : Option ℕ → ℕ
granted none = 0
granted (some k) = tick_ns

-- The clock of the task has room for one more tick.
abbrev pub HasRoom : CfsTask → Type 0
HasRoom t = t.exec_runtime + tick_ns < 2 ^ 64

module _ (delta decay : ℕ → ℕ → ℕ) where
  age_task-exec_runtime : (t : CfsTask) → (age_task decay t).exec_runtime ≡ t.exec_runtime
  unfolding age_task
  age_task-exec_runtime t = refl

  pub run_task-exec_runtime :
      (t : CfsTask)
      → is_running t ≡ true
      → HasRoom t
      → (run_task delta t).exec_runtime ≡ t.exec_runtime + tick_ns
  unfolding run_task
  run_task-exec_runtime t running room = ground arith

  pub total-map-age_task :
      (ts : List CfsTask) → total_runtime (map (age_task decay) ts) ≡ total_runtime ts
  total-map-age_task [] = refl
  total-map-age_task (t ∷ ts) = omega (arith, age_task-exec_runtime t, total-map-age_task ts)

  pub total-modify-run_task :
      (ts : List CfsTask) (k : ℕ) (t : CfsTask)
      → get_elem? ts k ≡ some t
      → is_running t ≡ true
      → All HasRoom ts
      → total_runtime (modify ts k (run_task delta)) ≡ total_runtime ts + tick_ns
  total-modify-run_task [] k t there running room = absurd cc
  total-modify-run_task (u ∷ ts) zero t there running room =
      let same : u ≡ t = cc in omega (arith, run_task-exec_runtime u (rw same running) room.0)
  total-modify-run_task (u ∷ ts) (suc k) t there running room =
      omega (arith, total-modify-run_task ts k t there running room.1)

  total-run_choice :
      (ts : List CfsTask) (r : Option ℕ)
      → IsChoice ts r
      → All HasRoom ts
      → total_runtime (run_choice delta r ts) ≡ total_runtime ts + granted r
  total-run_choice ts r (idle nobody h) room = rw nobody (omega arith)
  total-run_choice ts r (chosen k t picked there running least) room =
      rw picked (total-modify-run_task ts k t there running room)

  -- A served tick hands out one tick of CPU time to the task of choice, and none where no task runs.
  pub served-total_runtime :
      (rq rq' : CfsRq)
      → IsSized rq
      → IsServed delta decay rq rq'
      → All HasRoom rq.tasks
      → total_runtime rq'.tasks ≡ total_runtime rq.tasks + granted (exact_pick_next_task rq)
  served-total_runtime rq rq' sized h room =
      ap total_runtime h.tasks
      ∙ total-map-age_task (run_choice delta (exact_pick_next_task rq) rq.tasks)
      ∙ total-run_choice rq.tasks (exact_pick_next_task rq) (picked-IsChoice rq sized) room

  All-run_choice :
      (ts : List CfsTask) (r : Option ℕ) → All IsLoaded ts → All IsLoaded (run_choice delta r ts)
  All-run_choice ts none h = h
  All-run_choice ts (some k) h =
      All-modify IsLoaded ts k (run_task delta) (run_task-IsLoaded delta) h

  -- A served tick keeps every load within its bounds.
  pub served-IsLoaded :
      (rq rq' : CfsRq)
      → IsDecay decay
      → IsServed delta decay rq rq'
      → All IsLoaded rq.tasks
      → All IsLoaded rq'.tasks
  served-IsLoaded rq rq' laws h loaded = rw h.tasks (
      All-map IsLoaded (age_task decay) _ (age_task-IsLoaded laws)
        (All-run_choice rq.tasks (exact_pick_next_task rq) loaded))

-- The CPU times of the tasks, in order.
abbrev pub runtimes : List CfsTask → List ℕ
runtimes = map (λ t. t.exec_runtime)

runtimes-map-age_task :
    (decay : ℕ → ℕ → ℕ) (ts : List CfsTask) → runtimes (map (age_task decay) ts) ≡ runtimes ts
unfolding age_task
runtimes-map-age_task decay [] = refl
runtimes-map-age_task decay (t ∷ ts) = ap (λ l. t.exec_runtime ∷ l) (runtimes-map-age_task decay ts)

run_task-same :
    (d e : ℕ → ℕ → ℕ) (t : CfsTask) → (run_task d t).exec_runtime ≡ (run_task e t).exec_runtime
unfolding run_task
run_task-same d e t = ground arith

runtimes-modify :
    (d e : ℕ → ℕ → ℕ) (ts : List CfsTask) (k : ℕ)
    → runtimes (modify ts k (run_task d)) ≡ runtimes (modify ts k (run_task e))
runtimes-modify d e [] k = refl
runtimes-modify d e (t ∷ ts) zero = ap (λ x. x ∷ runtimes ts) (run_task-same d e t)
runtimes-modify d e (t ∷ ts) (suc k) = ap (λ l. t.exec_runtime ∷ l) (runtimes-modify d e ts k)

runtimes-run_choice :
    (d e : ℕ → ℕ → ℕ) (r : Option ℕ) (ts : List CfsTask)
    → runtimes (run_choice d r ts) ≡ runtimes (run_choice e r ts)
runtimes-run_choice d e none ts = refl
runtimes-run_choice d e (some k) ts = runtimes-modify d e ts k

-- Two served ticks from the same runqueue agree on the CPU times, whatever the two schedulers.
pub served-runtimes :
    {d e c b : ℕ → ℕ → ℕ} (rq rq1 rq2 : CfsRq)
    → IsServed d c rq rq1
    → IsServed e b rq rq2
    → runtimes rq1.tasks ≡ runtimes rq2.tasks
served-runtimes {d = d} {e = e} {c = c} {b = b} rq rq1 rq2 h k =
    let r = exact_pick_next_task rq in
    ap runtimes h.tasks
    ∙ runtimes-map-age_task c (run_choice d r rq.tasks)
    ∙ runtimes-run_choice d e r rq.tasks
    ∙ sym (runtimes-map-age_task b (run_choice e r rq.tasks))
    ∙ sym (ap runtimes k.tasks)

-- A served tick with no task to run changes no CPU time.
pub served-idle :
    {d c : ℕ → ℕ → ℕ} (rq rq' : CfsRq)
    → exact_pick_next_task rq ≡ none
    → IsServed d c rq rq'
    → runtimes rq'.tasks ≡ runtimes rq.tasks
served-idle {d = d} {c = c} rq rq' nobody h =
    ap runtimes h.tasks
    ∙ runtimes-map-age_task c (run_choice d (exact_pick_next_task rq) rq.tasks)
    ∙ ap (λ r. runtimes (run_choice d r rq.tasks)) nobody
