-- ===== src/Task/Print/Reader.antt =====
-- A reader of what `rq_print` prints.
use approximation_computing.Common.{
  ℕ, zero, suc, ◌≡◌, refl, Option, some, List, [], ◌∷◌, ◌++◌, ℤ, get_or, length, pos_part, map,
}
use approximation_computing.Words.{u32}
use approximation_computing.Task.{CfsTask, CfsRq, visited}
use approximation_computing.Text.{Bytes}
use approximation_computing.Text.Read.{cut, read_nat, read_int, read_double, millionths}
use approximation_computing.Task.Print.{
  line_feed, tasks_print, word, spaced, read_task, task_lines, ◌>>=◌,
}
use approximation_computing.Task.Print.File.{cut-task_print, read_task-append}

-- What the text keeps of a runqueue: Jain's index in millionths.
pub record PrintedRq : Type 0 where
  pub tick : ℕ
  pub clock : ℕ
  pub nr_tasks : ℤ
  pub nr_running : ℕ
  pub approx_mode : ℤ
  pub apaf_state : ℤ
  pub jain : ℤ
  pub tasks : List CfsTask

abbrev printed_task : CfsTask → CfsTask
printed_task t = record t { weight = u32 t.weight }

abbrev pub printed_rq : CfsRq → PrintedRq
printed_rq rq = record {
  tick = rq.tick;
  clock = rq.clock;
  nr_tasks = rq.nr_tasks;
  nr_running = rq.nr_running;
  approx_mode = rq.approx_mode;
  apaf_state = rq.apaf_state;
  jain = millionths rq.jain_index;
  tasks = map printed_task (visited rq);
}

-- The lines behind the first `n`.
abbrev behind : ℕ → List Bytes → List Bytes
behind zero lines = lines
behind (suc n) [] = []
behind (suc n) (line ∷ lines) = behind n lines

-- Tasks of six lines each.
abbrev pub read_tasks : ℕ → List Bytes → Option (List CfsTask)
read_tasks zero lines = some []
read_tasks (suc n) lines = do t ← read_task lines; ts ← read_tasks n (behind 6 lines); some (t ∷ ts)

abbrev pub read_rq_lines : List Bytes → Option PrintedRq
read_rq_lines lines = do
  tick ← read_nat (word 1 b' ' (get_or lines 0 []))
  clock ← read_nat (word 2 b' ' (get_or lines 0 []))
  nr_tasks ← read_int (spaced (get_or lines 1 []))
  nr_running ← read_nat (spaced (get_or lines 2 []))
  approx_mode ← read_int (spaced (get_or lines 3 []))
  apaf_state ← read_int (spaced (get_or lines 4 []))
  jain ← read_double (spaced (get_or lines 5 []))
  tasks ← read_tasks (pos_part nr_tasks) (behind 6 lines)
  some (record {
    tick = tick;
    clock = clock;
    nr_tasks = nr_tasks;
    nr_running = nr_running;
    approx_mode = approx_mode;
    apaf_state = apaf_state;
    jain = jain;
    tasks = tasks;
  })

unfoldable pub read_rq : Bytes → Option PrintedRq
read_rq text = read_rq_lines (cut line_feed text)

behind-task_lines : (t : CfsTask) (rest : List Bytes) → behind 6 (task_lines t ++ rest) ≡ rest
unfolding task_lines
behind-task_lines t rest = refl

read_tasks-print :
    (ts : List CfsTask)
    → read_tasks (length ts) (cut line_feed (tasks_print ts)) ≡ some (map printed_task ts)
unfolding tasks_print
read_tasks-print [] = refl
read_tasks-print (t ∷ ts) =
    rw
      (
        cut-task_print t (tasks_print ts),
        read_task-append t (cut line_feed (tasks_print ts)),
        behind-task_lines t (cut line_feed (tasks_print ts)),
        read_tasks-print ts,
      )
      refl

pub read_tasks-counted :
    (ts : List CfsTask) (n : ℕ)
    → length ts ≡ n
    → read_tasks n (cut line_feed (tasks_print ts)) ≡ some (map printed_task ts)
read_tasks-counted ts n h = rw (← h) (read_tasks-print ts)
