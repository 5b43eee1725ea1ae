-- ===== src/Task/Print/File.antt =====
-- The whole text of `task_print` and of `rq_print`, read back line by line.
use mathlib.Core.List.{append_assoc}
use approximation_computing.Common.{ℕ, ◌≡◌, refl, arith, some, List, [], ◌∷◌, ◌++◌, ℤ, All}
use approximation_computing.Words.{u32}
use approximation_computing.Task.{CfsTask}
use approximation_computing.Text.{Bytes, codes, print_nat, print_int}
use approximation_computing.Text.Read.{
  cut, cut_at, Lacks, NoDigit, Lacks-append, print_nat-Lacks, print_int-Lacks,
}
use approximation_computing.Task.Print.{line_feed, unlines, task_lines, task_print, read_task}
use approximation_computing.Task.Print.RoundTrip.{read_task-lines}

pub no_line_feed : NoDigit line_feed
no_line_feed d h = ground arith

pub nat-Lacks : (n : ℕ) → Lacks line_feed (print_nat n)
nat-Lacks n = print_nat-Lacks line_feed n no_line_feed

pub int-Lacks : (n : ℤ) → Lacks line_feed (print_int n)
int-Lacks n = print_int-Lacks line_feed n no_line_feed refl

-- Lines without a line feed come back when the text is cut at the line feeds.
pub cut-unlines :
    (lines : List Bytes) (rest : Bytes)
    → All (Lacks line_feed) lines
    → cut line_feed (unlines lines ++ rest) ≡ lines ++ cut line_feed rest
unfolding unlines
cut-unlines [] rest h = refl
cut-unlines (s ∷ lines) rest (h, hs) =
    rw (append_assoc s, cut_at line_feed s (unlines lines ++ rest) h, cut-unlines lines rest hs)
      refl

-- Two texts without a line feed.
pub both : (s t : Bytes) → Lacks line_feed s → Lacks line_feed t → Lacks line_feed (s ++ t)
both = Lacks-append line_feed

task_lines-Lacks : (t : CfsTask) → All (Lacks line_feed) (task_lines t)
unfolding task_lines
task_lines-Lacks t =
    let id = int-Lacks t.id in
    let nice = int-Lacks t.nice in
    let weight = nat-Lacks (u32 t.weight) in
    let blank = codes " ns" in
    let exec = nat-Lacks t.exec_runtime in
    (
      both (codes "[Task id=") _ (ground arith) (
          both (print_int t.id) _ id (
            both (codes " nice=") _ (ground arith) (
              both (print_int t.nice) _ nice (
                both (codes " weight=") _ (ground arith)
                  (both (print_nat (u32 t.weight)) (codes "]") weight (ground arith)))))),
      (
        both (codes "  vruntime     = ") _ (ground arith)
            (both (print_nat t.vruntime) blank (nat-Lacks t.vruntime) (ground arith)),
        (
          both (codes "  load_avg     = ") _ (ground arith) (nat-Lacks t.load_avg),
          (
            both (codes "  load_sum     = ") _ (ground arith) (nat-Lacks t.load_sum),
            (
              both (codes "  exec_runtime = ") _ (ground arith)
                  (both (print_nat t.exec_runtime) blank exec (ground arith)),
              (both (codes "  runnable     = ") _ (ground arith) (int-Lacks t.runnable), tt),
            ),
          ),
        ),
      ),
    )

-- The text of `task_print` with anything behind it starts with the lines of the task.
pub cut-task_print :
    (t : CfsTask) (rest : Bytes)
    → cut line_feed (task_print t ++ rest) ≡ task_lines t ++ cut line_feed rest
unfolding task_print
cut-task_print t rest = cut-unlines (task_lines t) rest (task_lines-Lacks t)

pub read_task-append :
    (t : CfsTask) (rest : List Bytes)
    → read_task (task_lines t ++ rest) ≡ some (record t { weight = u32 t.weight })
unfolding task_lines
read_task-append t rest = read_task-lines t
