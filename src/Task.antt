-- ===== src/Task.antt =====
-- apex-cfs/src/task.h and apex-cfs/src/task.c: tasks, the runqueue and their operations.
-- An array of tasks is a list, and the NULL array is the empty list. A pointer to a task or to a
-- runqueue is the object itself, so the tests of these pointers for NULL have no counterpart.
pub mod Weights
pub mod Runqueue
pub mod Print
use approximation_computing.Common.{
  ℕ, suc, ◌+◌, ◌-◌, ◌*◌, ◌%◌, ◌<◌, Bool, true, false, not, ◌&&◌, ◌||◌, List, [], ◌∷◌, ltb, leb,
  if◌then◌else◌, ℤ, pos, negsuc, pos_part, neg_part, ltb_ℤ, ◌==ℤ◌, get_or, take, length,
}
use approximation_computing.Words.{u64, u32}
use approximation_computing.Double.{Double, one}

abbrev pub nice_0_load : ℕ
nice_0_load = 1024

abbrev pub load_avg_period : ℕ
load_avg_period = 32

abbrev pub load_avg_max : ℕ
load_avg_max = 47742

abbrev pub tick_ns : ℕ
tick_ns = 1000000

abbrev pub wmult_shift : ℕ
wmult_shift = 32

abbrev pub runnable_avg_y_n_inv : List ℕ
runnable_avg_y_n_inv =
    0xffffffff ∷ 0xfa83b2da ∷ 0xf5257d14 ∷ 0xefe4b99a ∷ 0xeac0c6e6 ∷ 0xe5b906e6 ∷ 0xe0ccdeeb
    ∷ 0xdbfbb796 ∷ 0xd744fcc9 ∷ 0xd2a81d91 ∷ 0xce248c14 ∷ 0xc9b9bd85 ∷ 0xc5672a10 ∷ 0xc12c4cc9
    ∷ 0xbd08a39e ∷ 0xb8fbaf46 ∷ 0xb504f333 ∷ 0xb123f581 ∷ 0xad583ee9 ∷ 0xa9a15ab4 ∷ 0xa5fed6a9
    ∷ 0xa2704302 ∷ 0x9ef5325f ∷ 0x9b8d39b9 ∷ 0x9837f050 ∷ 0x94f4efa8 ∷ 0x91c3d373 ∷ 0x8ea4398a
    ∷ 0x8b95c1e3 ∷ 0x88980e80 ∷ 0x85aac367 ∷ 0x82cd8698 ∷ []

-- `runnable_avg_y_n_inv[n]`.
unfoldable pub y_n_inv : ℕ → ℕ
y_n_inv n = get_or runnable_avg_y_n_inv n 0

abbrev pub nice_to_weight : List ℕ
nice_to_weight =
    88761 ∷ 71755 ∷ 56483 ∷ 46273 ∷ 36291 ∷ 29154 ∷ 23254 ∷ 18705 ∷ 14949 ∷ 11916 ∷ 9548 ∷ 7620
    ∷ 6100 ∷ 4904 ∷ 3906 ∷ 3121 ∷ 2501 ∷ 1991 ∷ 1586 ∷ 1277 ∷ 1024 ∷ 820 ∷ 655 ∷ 526 ∷ 423 ∷ 335
    ∷ 272 ∷ 215 ∷ 172 ∷ 137 ∷ 110 ∷ 87 ∷ 70 ∷ 56 ∷ 45 ∷ 36 ∷ 29 ∷ 23 ∷ 18 ∷ 15 ∷ []

abbrev pub apaf_tight : ℤ
apaf_tight = pos 0

abbrev pub apaf_medium : ℤ
apaf_medium = pos 1

abbrev pub apaf_loose : ℤ
apaf_loose = pos 2

pub record CfsTask : Type 0 where
  pub id : ℤ
  pub nice : ℤ
  pub weight : ℕ
  pub vruntime : ℕ
  pub load_avg : ℕ
  pub load_sum : ℕ
  pub exec_runtime : ℕ
  pub runnable : ℤ

pub record CfsRq : Type 0 where
  pub tasks : List CfsTask
  pub nr_tasks : ℤ
  pub nr_running : ℕ
  pub clock : ℕ
  pub tick : ℕ
  pub approx_mode : ℤ
  pub apaf_state : ℤ
  pub jain_index : Double

-- The clamped nice value.
unfoldable pub clamp_nice : ℤ → ℤ
clamp_nice nice =
    if ltb_ℤ nice (negsuc 19) then negsuc 19 else if ltb_ℤ (pos 19) nice then pos 19 else nice

-- `nice_to_weight[nice + 20]`, for a nice value that is not below -20.
unfoldable pub weight_of : ℤ → ℕ
weight_of nice = get_or nice_to_weight (pos_part nice + 20 - neg_part nice) 0

unfoldable pub task_create : ℤ → ℤ → CfsTask
task_create id nice =
    let clamped = clamp_nice nice in
    record {
      id = id;
      nice = clamped;
      weight = u64 (weight_of clamped);
      vruntime = 0;
      load_avg = 0;
      load_sum = 0;
      exec_runtime = 0;
      runnable = pos 1;
    }

unfoldable pub task_set_runnable : CfsTask → ℤ → CfsTask
task_set_runnable t runnable =
    if not (runnable ==ℤ pos 0) && not (runnable ==ℤ pos 1)
    then record t { runnable = pos 0 }
    else record t { runnable = runnable }

unfoldable pub task_get_weight : CfsTask → ℕ
task_get_weight t = u32 t.weight

abbrev pub is_running : CfsTask → Bool
is_running t = t.runnable ==ℤ pos 1

-- The loops that count the tasks with `runnable == 1`.
unfoldable pub count_running : List CfsTask → ℕ
count_running [] = 0
count_running (t ∷ ts) = if is_running t then suc (count_running ts) else count_running ts

-- The guard `!rq->tasks || rq->nr_tasks <= 0`.
abbrev pub has_no_tasks : CfsRq → Bool
has_no_tasks rq = leb (length rq.tasks) 0 || leb (pos_part rq.nr_tasks) 0

-- The tasks that the loops `for (i = 0; i < rq->nr_tasks; i++)` visit.
abbrev pub visited : CfsRq → List CfsTask
visited rq = take (pos_part rq.nr_tasks) rq.tasks

unfoldable pub rq_init : List CfsTask → ℤ → ℤ → CfsRq
rq_init tasks nr_tasks approx_mode =
    let mode =
      if ltb_ℤ approx_mode (pos 0) || ltb_ℤ (pos 3) approx_mode then pos 0 else approx_mode in
    record {
      tasks = tasks;
      nr_tasks = nr_tasks;
      nr_running = count_running (take (pos_part nr_tasks) tasks);
      clock = 0;
      tick = 0;
      approx_mode = mode;
      apaf_state = apaf_medium;
      jain_index = pos one;
    }

unfoldable pub rq_tick : CfsRq → CfsRq
rq_tick rq = record rq { clock = u64 (rq.clock + tick_ns); tick = u64 (rq.tick + 1) }

-- The new runqueue and the count.
unfoldable pub rq_count_running : CfsRq → CfsRq × ℕ
rq_count_running rq =
    let count = count_running (visited rq) in
    if has_no_tasks rq then (rq, 0) else (record rq { nr_running = count }, count)
