-- ===== src/Experiment/Busy.antt =====
-- A lane of equal tasks: every tick of it serves a task, whatever the scheduler.
use approximation_computing.Common.{
  ℕ, zero, suc, ◌+◌, ◌*◌, ◌^◌, ◌<◌, ◌≡◌, refl, sym, ap, ◌∙◌, arith, false, ℤ, pos, ◌≤ℤ◌, length,
  length-map, All,
}
use approximation_computing.Task.{
  CfsRq, tick_ns, has_no_tasks, rq_init, task_create, clamp_nice, weight_of,
}
use approximation_computing.Fairness.{fairness_jain_index}
use approximation_computing.Logic.{age_task}
use approximation_computing.Experiment.NoError.{length-equal_tasks}
use approximation_computing.Exact.{exact_pick_next_task}
use approximation_computing.Experiment.{tick_of, equal_tasks}
use approximation_computing.Ticks.{IsSized, IsServed, total_runtime, run_choice}
use approximation_computing.Ticks.Round.{picked-IsChoice, length-run_choice}
use approximation_computing.Ticks.Served.{served-total_runtime}
use approximation_computing.Ticks.OnTime.{has_room}
use approximation_computing.Experiment.Serves.{tick_of-Serves}
use approximation_computing.Ticks.Even.{IsEven, served-IsEven, choice_of_even, count_running-even}

-- After `k` ticks of a lane of `n` equal tasks in this mode.
pub record IsBusy (n k : ℕ) (mode : ℤ) (rq : CfsRq) : Type 0 where
  pub sized : IsSized rq
  pub many : length rq.tasks ≡ n
  pub base : ℕ
  pub even : All (IsEven base) rq.tasks
  pub spent : total_runtime rq.tasks ≡ k * tick_ns
  pub keeps_mode : rq.approx_mode ≡ mode

-- What a tick leaves besides.
pub record IsMeasured (n : ℕ) (rq : CfsRq) : Type 0 where
  pub fair : rq.jain_index ≡ fairness_jain_index rq
  pub counted : rq.nr_running ≡ n

has_tasks : (rq : CfsRq) → IsSized rq → 0 < length rq.tasks → has_no_tasks rq ≡ false
has_tasks rq sized h = rw sized (ground arith)

served-length :
    (delta decay : ℕ → ℕ → ℕ) (rq rq' : CfsRq)
    → IsServed delta decay rq rq'
    → length rq'.tasks ≡ length rq.tasks
served-length delta decay rq rq' h =
    let r = exact_pick_next_task rq in
    ap length h.tasks
    ∙ length-map (age_task decay) (run_choice delta r rq.tasks)
    ∙ length-run_choice delta r rq.tasks

-- A tick of any scheduler keeps the lane busy, and measures it.
pub tick_of-IsBusy :
    (n k : ℕ) (mode logic : ℤ) (rq : CfsRq)
    → 0 < n
    → suc k * tick_ns < 2 ^ 64
    → IsBusy n k mode rq
    → IsBusy n (suc k) mode (tick_of logic rq) × IsMeasured n (tick_of logic rq)
tick_of-IsBusy n k mode logic rq some_task fits b =
    let rq' = tick_of logic rq in
    let left = b.spent in
    let many = b.many in
    let room = has_room rq.tasks (omega arith) in
    let (busy, grant) =
      choice_of_even b.base rq.tasks (exact_pick_next_task rq) b.even (omega arith)
        (picked-IsChoice rq b.sized) in
    let s = tick_of-Serves logic rq b.sized busy in
    let h = s.served in
    let (base, even) =
      served-IsEven s.delta s.decay s.unscaled b.base rq rq' b.sized h room b.even in
    let many' = served-length s.delta s.decay rq rq' h ∙ many in
    let more = served-total_runtime s.delta s.decay rq rq' b.sized h room in
    (
      record {
        sized = h.sized;
        many = many';
        base = base;
        even = even;
        spent = omega arith;
        keeps_mode = h.mode ∙ b.keeps_mode;
      },
      record {
        fair = h.fair;
        counted =
            h.counted (has_tasks rq b.sized (omega arith))
            ∙ count_running-even base rq'.tasks even
            ∙ many';
      },
    )

equal_tasks-IsEven : (n i : ℕ) → All (IsEven 0) (equal_tasks n i)
unfolding equal_tasks task_create clamp_nice weight_of
equal_tasks-IsEven zero i = tt
equal_tasks-IsEven (suc n) i = (
  record { runs = refl; unit = refl; same = refl; low = omega arith; high = omega arith },
  equal_tasks-IsEven n (i + 1),
)

equal_tasks-total : (n i : ℕ) → total_runtime (equal_tasks n i) ≡ 0
unfolding equal_tasks task_create
equal_tasks-total zero i = refl
equal_tasks-total (suc n) i = omega (arith, equal_tasks-total n (i + 1))

-- A mode that `rq_init` takes as it is.
abbrev pub IsMode : ℤ → Type 0
IsMode logic = (pos 0 ≤ℤ logic) × (logic ≤ℤ pos 3)

pub start-IsBusy :
    (n : ℕ) (logic : ℤ) → IsMode logic → IsBusy n 0 logic (rq_init (equal_tasks n 0) (pos n) logic)
unfolding rq_init
start-IsBusy n logic mode =
    let many = length-equal_tasks n 0 in
    record {
      sized = ap pos (sym many);
      many = many;
      base = 0;
      even = equal_tasks-IsEven n 0;
      spent = equal_tasks-total n 0;
      keeps_mode = ground arith;
    }
