-- ===== src/Ticks/Even.antt =====
-- Tasks of equal weight under any of the four schedulers: the tick is given to a task that has had
-- least, so no two of them ever lie further apart than a tick.
use approximation_computing.Common.{
  ℕ, suc, ◌+◌, ◌≤◌, ◌<◌, ◌≡◌, ◌≢◌, refl, ap, arith, true, Option, none, some, List, [], ◌∷◌,
  get_elem?, length, All, All-map, All-tabulate, All-get_elem?, All-modify_at,
}
use approximation_computing.Words.{u32}
use approximation_computing.Task.{CfsTask, CfsRq, is_running, count_running, tick_ns, nice_0_load}
use approximation_computing.Logic.{run_task, age_task}
use approximation_computing.Exact.{exact_pick_next_task}
use approximation_computing.Exact.Pick.{IsChoice, IsLeast, idle, chosen}
use approximation_computing.Ticks.{IsSized, IsServed, run_choice}
use approximation_computing.Ticks.Round.{picked-IsChoice}
use approximation_computing.Ticks.Served.{HasRoom, granted}

-- A running task of the weight of nice 0 whose CPU time is from `c` to one tick above.
pub record IsEven (c : ℕ) (t : CfsTask) : Type 0 where
  pub runs : is_running t ≡ true
  pub unit : t.weight ≡ nice_0_load
  pub same : t.vruntime ≡ t.exec_runtime
  pub low : c ≤ t.exec_runtime
  pub high : t.exec_runtime ≤ c + tick_ns

-- The runtime of such a task is not scaled.
abbrev pub IsUnscaled : (ℕ → ℕ → ℕ) → Type 0
IsUnscaled delta = delta tick_ns nice_0_load ≡ tick_ns

pub age_task-IsEven :
    (decay : ℕ → ℕ → ℕ) (c : ℕ) (t : CfsTask) → IsEven c t → IsEven c (age_task decay t)
unfolding age_task
age_task-IsEven decay c t h = record {
  runs = h.runs;
  unit = h.unit;
  same = h.same;
  low = h.low;
  high = h.high;
}

-- Among tasks that are even, each is within a tick of the one with least.
pub above_least :
    (c k : ℕ) (ts : List CfsTask) (t : CfsTask)
    → get_elem? ts k ≡ some t
    → IsLeast ts t.vruntime k
    → All (IsEven c) ts
    → All (IsEven t.exec_runtime) ts
above_least c k ts t there least even = All-tabulate (IsEven t.exec_runtime) ts λ j u e.
    let h = All-get_elem? (IsEven c) ts j u even e in
    let k' = All-get_elem? (IsEven c) ts k t even there in
    let smallest = (least j u e h.runs).0 in
    let s = h.same in
    let s' = k'.same in
    let l = k'.low in
    let m = h.high in
    record { runs = h.runs; unit = h.unit; same = h.same; low = omega arith; high = omega arith }

module _ (delta decay : ℕ → ℕ → ℕ) (unscaled : IsUnscaled delta) where
  -- The task with least runs, and is one tick ahead of where it was.
  pub run_task-IsEven :
      (c : ℕ) (t : CfsTask) → IsEven c t → HasRoom t → IsEven t.exec_runtime (run_task delta t)
  unfolding run_task
  run_task-IsEven c t h room =
      let e = h.unit in
      let runs = h.runs in
      let same = h.same in
      let scaled : delta tick_ns (u32 t.weight) ≡ tick_ns = rw e unscaled in ground arith

  run_choice-IsEven :
      (c : ℕ) (ts : List CfsTask) (r : Option ℕ)
      → IsChoice ts r
      → All (IsEven c) ts
      → All HasRoom ts
      → (c' : ℕ) × All (IsEven c') (run_choice delta r ts)
  run_choice-IsEven c ts r (idle e nobody) even room = rw e (c, even)
  run_choice-IsEven c ts r (chosen k t e there running least) even room = rw e (
    t.exec_runtime,
    All-modify_at (IsEven t.exec_runtime) ts k t (run_task delta) there
        (run_task-IsEven c t (All-get_elem? (IsEven c) ts k t even there)
          (All-get_elem? HasRoom ts k t room there))
        (above_least c k ts t there least even),
  )

  -- A served tick keeps the tasks within one tick of each other.
  pub served-IsEven :
      (c : ℕ) (rq rq' : CfsRq)
      → IsSized rq
      → IsServed delta decay rq rq'
      → All HasRoom rq.tasks
      → All (IsEven c) rq.tasks
      → (c' : ℕ) × All (IsEven c') rq'.tasks
  served-IsEven c rq rq' sized h room even =
      let (c', ran) =
        run_choice-IsEven c rq.tasks (exact_pick_next_task rq) (picked-IsChoice rq sized) even
          room in
      (c', rw h.tasks (All-map (IsEven c') (age_task decay) _ (age_task-IsEven decay c') ran))

-- Where some task is there and all of them run, one is chosen.
pub choice_of_even :
    (c : ℕ) (ts : List CfsTask) (r : Option ℕ)
    → All (IsEven c) ts
    → 0 < length ts
    → IsChoice ts r
    → (r ≢ none) × (granted r ≡ tick_ns)
choice_of_even c [] r even some_task choice = absurd (omega arith)
choice_of_even c (t ∷ ts) r even some_task (idle e nobody) = absurd (nobody 0 t refl even.0.runs)
choice_of_even c (t ∷ ts) r even some_task (chosen k u e there running least) =
    (λ none_chosen. cc, rw e refl)

-- And all of them are counted.
pub count_running-even :
    (c : ℕ) (ts : List CfsTask) → All (IsEven c) ts → count_running ts ≡ length ts
unfolding count_running
count_running-even c [] even = refl
count_running-even c (t ∷ ts) even =
    let runs = even.0.runs in rw runs (ap suc (count_running-even c ts even.1))
