-- ===== src/Task/Print/RoundTrip.antt =====
-- What `task_print` prints is read back as the task.
use mathlib.Core.List.{append-nil}
use approximation_computing.Common.{ℕ, ◌≡◌, refl, arith, some, [], ◌∷◌, ◌++◌, ℤ, get_or}
use approximation_computing.Words.{u32}
use approximation_computing.Task.{CfsTask}
use approximation_computing.Text.{Bytes, codes, print_nat, print_int}
use approximation_computing.Text.Read.{
  cut, cut_at, cut_end, Lacks, NoDigit, value-print_nat, read_int-print, print_nat-Lacks,
  print_int-Lacks,
}
use approximation_computing.Text.Prefix.{prepend-cons, cut_prefix}
use approximation_computing.Task.Print.{task_lines, spaced, read_task}

pub no_equals : NoDigit b'='
no_equals d h = ground arith

pub no_blank : NoDigit b' '
no_blank d h = ground arith

no_bracket : NoDigit b']'
no_bracket d h = ground arith

-- A number that is the last word of its line, and one with more behind it.
pub last_word :
    (label s : Bytes)
    → Lacks b'=' label
    → Lacks b'=' s
    → Lacks b' ' s
    → spaced (label ++ (codes "= " ++ s)) ≡ s
unfolding cut
last_word label s l h k =
    rw (cut_prefix b'=' label _ l, cut_end b'=' s h, cut)
      (rw (prepend-cons label, cut_end b' ' s k, cut) refl)

pub word_before :
    (label s tail : Bytes)
    → Lacks b'=' label
    → Lacks b'=' s
    → Lacks b' ' s
    → Lacks b'=' tail
    → spaced (label ++ (codes "= " ++ (s ++ b' ' ∷ tail))) ≡ s
unfolding cut
word_before label s tail l h k e =
    rw (cut_prefix b'=' label _ l, cut_prefix b'=' s _ h, cut_end b'=' tail e, prepend-cons s)
      (rw (prepend-cons label, cut_prefix b' ' s _ k, prepend-cons s) (append-nil s))

word_with_unit :
    (label s : Bytes)
    → Lacks b'=' label
    → Lacks b'=' s
    → Lacks b' ' s
    → spaced (label ++ (codes "= " ++ (s ++ codes " ns"))) ≡ s
word_with_unit label s l h k = word_before label s (codes "ns") l h k (ground arith)

-- The three words of the first line.
abbrev first_line : Bytes → Bytes → Bytes → Bytes
first_line id nice weight =
    codes "[Task id="
    ++ (id ++ (codes " nice=" ++ (nice ++ (codes " weight=" ++ (weight ++ codes "]")))))

abbrev pub IsWord : Bytes → Type 0
IsWord s = Lacks b'=' s × (Lacks b' ' s × Lacks b']' s)

cut_first :
    (id nice weight : Bytes)
    → IsWord id
    → IsWord nice
    → IsWord weight
    → cut b'=' (first_line id nice weight)
      ≡ codes "[Task id"
        ∷ (id ++ codes " nice")
        ∷ (nice ++ codes " weight")
        ∷ (weight ++ codes "]")
        ∷ []
unfolding cut
cut_first id nice weight h k l =
    rw
      (
        cut_prefix b'=' id _ h.0,
        cut_prefix b'=' nice _ k.0,
        cut_prefix b'=' weight _ l.0,
        prepend-cons weight,
        prepend-cons nice,
        prepend-cons id,
      )
      refl

pub before : (stop : ℕ) (s t : Bytes) → Lacks stop s → get_or (cut stop (s ++ stop ∷ t)) 0 [] ≡ s
before stop s t h = rw (cut_at stop s t h) refl

pub nat-IsWord : (n : ℕ) → IsWord (print_nat n)
nat-IsWord n = (
  print_nat-Lacks b'=' n no_equals,
  (print_nat-Lacks b' ' n no_blank, print_nat-Lacks b']' n no_bracket),
)

pub int-IsWord : (n : ℤ) → IsWord (print_int n)
int-IsWord n = (
  print_int-Lacks b'=' n no_equals refl,
  (print_int-Lacks b' ' n no_blank refl, print_int-Lacks b']' n no_bracket refl),
)

-- The lines of `task_print` are read back as the task, its weight as the u32 that is printed.
pub read_task-lines :
    (t : CfsTask) → read_task (task_lines t) ≡ some (record t { weight = u32 t.weight })
unfolding task_lines
read_task-lines t =
    let id = int-IsWord t.id in
    let nice = int-IsWord t.nice in
    let weight = nat-IsWord (u32 t.weight) in
    let vruntime = nat-IsWord t.vruntime in
    let load_avg = nat-IsWord t.load_avg in
    let load_sum = nat-IsWord t.load_sum in
    let exec_runtime = nat-IsWord t.exec_runtime in
    let runnable = int-IsWord t.runnable in
    rw
      (
        cut_first (print_int t.id) (print_int t.nice) (print_nat (u32 t.weight)) id nice weight,
        before b' ' (print_int t.id) (codes "nice") id.1.0,
        before b' ' (print_int t.nice) (codes "weight") nice.1.0,
        before b']' (print_nat (u32 t.weight)) [] weight.1.1,
        word_with_unit (codes "  vruntime     ") (print_nat t.vruntime) (ground arith) vruntime.0
            vruntime.1.0,
        last_word (codes "  load_avg     ") (print_nat t.load_avg) (ground arith) load_avg.0
            load_avg.1.0,
        last_word (codes "  load_sum     ") (print_nat t.load_sum) (ground arith) load_sum.0
            load_sum.1.0,
        word_with_unit (codes "  exec_runtime ") (print_nat t.exec_runtime) (ground arith)
            exec_runtime.0 exec_runtime.1.0,
        last_word (codes "  runnable     ") (print_int t.runnable) (ground arith) runnable.0
            runnable.1.0,
        read_int-print t.id,
        read_int-print t.nice,
        value-print_nat (u32 t.weight),
        value-print_nat t.vruntime,
        value-print_nat t.load_avg,
        value-print_nat t.load_sum,
        value-print_nat t.exec_runtime,
        read_int-print t.runnable,
      )
      refl
