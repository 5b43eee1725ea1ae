-- ===== src/Task/Print.antt =====
-- `task_print` and `rq_print` of apex-cfs/src/task.c, character by character, and a reader of what they
-- print.
pub mod RoundTrip
pub mod File
pub mod Reader
pub mod Runqueue
use mathlib.Core.Option
use Prim.Native.String.{String}
use approximation_computing.Common.{
  ℕ, Option, none, some, List, [], ◌∷◌, ◌++◌, map, get_or, if◌then◌else◌, ℤ, pos, ◌==ℤ◌,
}
use approximation_computing.Words.{u32}
use approximation_computing.Double.{Double}
use approximation_computing.Task.{CfsTask, CfsRq, apaf_tight, apaf_loose, visited}
use approximation_computing.Text.{Bytes, codes, print_nat, print_int, print_double}
use approximation_computing.Text.Read.{cut, read_nat, read_int, read_double}

abbrev pub line_feed : ℕ
line_feed = 10

-- Every line ends with a line feed.
unfoldable pub unlines : List Bytes → Bytes
unlines [] = []
unlines (s ∷ lines) = s ++ line_feed ∷ unlines lines

-- The six lines of `task_print`.
unfoldable pub task_lines : CfsTask → List Bytes
task_lines t =
    (codes "[Task id="
      ++ (print_int t.id
          ++ (codes " nice="
              ++ (print_int t.nice
                  ++ (codes " weight=" ++ (print_nat (u32 t.weight) ++ codes "]"))))))
    ∷ (codes "  vruntime     = " ++ (print_nat t.vruntime ++ codes " ns"))
    ∷ (codes "  load_avg     = " ++ print_nat t.load_avg)
    ∷ (codes "  load_sum     = " ++ print_nat t.load_sum)
    ∷ (codes "  exec_runtime = " ++ (print_nat t.exec_runtime ++ codes " ns"))
    ∷ (codes "  runnable     = " ++ print_int t.runnable)
    ∷ []

unfoldable pub task_print : CfsTask → Bytes
task_print t = unlines (task_lines t)

abbrev pub mode_str : ℤ → String
mode_str mode =
    if mode ==ℤ pos 1
    then "BSA"
    else if mode ==ℤ pos 2
    then "CLTI"
    else if mode ==ℤ pos 3
    then "APAF"
    else "EXACT"

abbrev pub state_str : ℤ → String
state_str state =
    if state ==ℤ apaf_tight then "TIGHT" else if state ==ℤ apaf_loose then "LOOSE" else "MEDIUM"

-- The six lines of `rq_print` above those of the tasks.
unfoldable pub rq_lines : CfsRq → List Bytes
rq_lines rq =
    (codes "[Runqueue tick="
      ++ (print_nat rq.tick ++ (codes " clock=" ++ (print_nat rq.clock ++ codes " ns]"))))
    ∷ (codes "  nr_tasks    = " ++ print_int rq.nr_tasks)
    ∷ (codes "  nr_running  = " ++ print_nat rq.nr_running)
    ∷ (codes "  approx_mode = "
        ++ (print_int rq.approx_mode
            ++ (codes " (" ++ (codes (mode_str rq.approx_mode) ++ codes ")"))))
    ∷ (codes "  apaf_state  = "
        ++ (print_int rq.apaf_state
            ++ (codes " (" ++ (codes (state_str rq.apaf_state) ++ codes ")"))))
    ∷ (codes "  jain_index  = " ++ print_double rq.jain_index)
    ∷ []

unfoldable pub tasks_print : List CfsTask → Bytes
tasks_print [] = []
tasks_print (t ∷ ts) = task_print t ++ tasks_print ts

unfoldable pub rq_print : CfsRq → Bytes
rq_print rq = unlines (rq_lines rq) ++ tasks_print (visited rq)

-- The word behind an equals sign: the `k`-th one of a line, up to this character.
abbrev pub word : ℕ → ℕ → Bytes → Bytes
word k stop line = get_or (cut stop (get_or (cut b'=' line) k [])) 0 []

-- The same, behind a blank.
abbrev pub spaced : Bytes → Bytes
spaced line = get_or (cut b' ' (get_or (cut b'=' line) 1 [])) 1 []

infixl 55 ◌>>=◌
abbrev ◌>>=◌ : {A B : Type 0} → Option A → (A → Option B) → Option B
none >>= f = none
some a >>= f = f a

-- A task from the first six lines.
abbrev pub read_task : List Bytes → Option CfsTask
read_task lines = do
  id ← read_int (word 1 b' ' (get_or lines 0 []))
  nice ← read_int (word 2 b' ' (get_or lines 0 []))
  weight ← read_nat (word 3 b']' (get_or lines 0 []))
  vruntime ← read_nat (spaced (get_or lines 1 []))
  load_avg ← read_nat (spaced (get_or lines 2 []))
  load_sum ← read_nat (spaced (get_or lines 3 []))
  exec_runtime ← read_nat (spaced (get_or lines 4 []))
  runnable ← read_int (spaced (get_or lines 5 []))
  some (record {
    id = id;
    nice = nice;
    weight = weight;
    vruntime = vruntime;
    load_avg = load_avg;
    load_sum = load_sum;
    exec_runtime = exec_runtime;
    runnable = runnable;
  })
