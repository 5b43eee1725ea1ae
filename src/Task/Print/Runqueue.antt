-- ===== src/Task/Print/Runqueue.antt =====
-- The text of `rq_print`, read back as the counters of the runqueue and its tasks.
use Prim.Native.String.{String}
use approximation_computing.Common.{
  Bool, if◌then◌else◌, ◌≡◌, refl, arith, true, false, some, [], ◌∷◌, ◌++◌, ◌==ℤ◌, ℤ, pos, All,
  length, pos_part,
}
use approximation_computing.Task.{CfsRq, visited, apaf_tight, apaf_loose}
use approximation_computing.Text.{Bytes, codes, print_nat, print_int, print_double}
use approximation_computing.Text.Read.{
  cut, Lacks, Lacks-append, value-print_nat, read_int-print, read_double-print, print_double-Lacks,
}
use approximation_computing.Text.Prefix.{prepend-cons, cut_prefix}
use approximation_computing.Task.Print.{
  line_feed, rq_lines, tasks_print, rq_print, mode_str, state_str,
}
use approximation_computing.Task.Print.RoundTrip.{
  last_word, word_before, before, no_equals, no_blank, IsWord, nat-IsWord, int-IsWord,
}
use approximation_computing.Task.Print.File.{no_line_feed, nat-Lacks, int-Lacks, cut-unlines, both}
use approximation_computing.Task.Print.Reader.{
  printed_rq, read_rq_lines, read_rq, read_tasks-counted,
}

-- The words of the first line.
abbrev first_line : Bytes → Bytes → Bytes
first_line tick clock =
    codes "[Runqueue tick=" ++ (tick ++ (codes " clock=" ++ (clock ++ codes " ns]")))

cut_first :
    (tick clock : Bytes)
    → IsWord tick
    → IsWord clock
    → cut b'=' (first_line tick clock)
      ≡ codes "[Runqueue tick" ∷ (tick ++ codes " clock") ∷ (clock ++ codes " ns]") ∷ []
unfolding cut
cut_first tick clock h k =
    rw
      (
        cut_prefix b'=' tick _ h.0,
        cut_prefix b'=' clock _ k.0,
        prepend-cons clock,
        prepend-cons tick,
      )
      refl

-- A name that is printed in brackets.
abbrev IsName : Bytes → Type 0
IsName s = Lacks b'=' s × Lacks line_feed s

either-IsName :
    (b : Bool) (x y : String)
    → IsName (codes x)
    → IsName (codes y)
    → IsName (codes (if b then x else y))
either-IsName true x y h k = h
either-IsName false x y h k = k

mode_str-IsName : (mode : ℤ) → IsName (codes (mode_str mode))
mode_str-IsName mode =
    either-IsName (mode ==ℤ pos 1) "BSA" _ (ground arith, ground arith)
      (either-IsName (mode ==ℤ pos 2) "CLTI" _ (ground arith, ground arith)
        (either-IsName (mode ==ℤ pos 3) "APAF" "EXACT" (ground arith, ground arith)
          (ground arith, ground arith)))

state_str-IsName : (state : ℤ) → IsName (codes (state_str state))
state_str-IsName state =
    either-IsName (state ==ℤ apaf_tight) "TIGHT" _ (ground arith, ground arith)
      (either-IsName (state ==ℤ apaf_loose) "LOOSE" "MEDIUM" (ground arith, ground arith)
        (ground arith, ground arith))

-- The name in its brackets.
bracketed : (name : Bytes) → IsName name → IsName (codes "(" ++ (name ++ codes ")"))
bracketed name (h, k) = (
  (refl, Lacks-append b'=' name (codes ")") h (ground arith)),
  (refl, Lacks-append line_feed name (codes ")") k (ground arith)),
)

rq_lines-Lacks : (rq : CfsRq) → All (Lacks line_feed) (rq_lines rq)
unfolding rq_lines
rq_lines-Lacks rq =
    let mode = (bracketed (codes (mode_str rq.approx_mode)) (mode_str-IsName rq.approx_mode)).1 in
    let state = (bracketed (codes (state_str rq.apaf_state)) (state_str-IsName rq.apaf_state)).1 in
    let clock = both (print_nat rq.clock) (codes " ns]") (nat-Lacks rq.clock) (ground arith) in
    (
      both (codes "[Runqueue tick=") _ (ground arith) (
          both (print_nat rq.tick) _ (nat-Lacks rq.tick)
            (both (codes " clock=") _ (ground arith) clock)),
      (
        both (codes "  nr_tasks    = ") _ (ground arith) (int-Lacks rq.nr_tasks),
        (
          both (codes "  nr_running  = ") _ (ground arith) (nat-Lacks rq.nr_running),
          (
            both (codes "  approx_mode = ") _ (ground arith)
                (both (print_int rq.approx_mode) _ (int-Lacks rq.approx_mode) (refl, mode)),
            (
              both (codes "  apaf_state  = ") _ (ground arith)
                  (both (print_int rq.apaf_state) _ (int-Lacks rq.apaf_state) (refl, state)),
              (
                both (codes "  jain_index  = ") _ (ground arith)
                    (print_double-Lacks line_feed rq.jain_index no_line_feed refl refl),
                tt,
              ),
            ),
          ),
        ),
      ),
    )

read_rq_lines-print :
    (rq : CfsRq)
    → length (visited rq) ≡ pos_part rq.nr_tasks
    → read_rq_lines (rq_lines rq ++ cut line_feed (tasks_print (visited rq))) ≡ some (printed_rq rq)
unfolding rq_lines
read_rq_lines-print rq counted =
    let tick = nat-IsWord rq.tick in
    let clock = nat-IsWord rq.clock in
    let nr_tasks = int-IsWord rq.nr_tasks in
    let nr_running = nat-IsWord rq.nr_running in
    let mode = int-IsWord rq.approx_mode in
    let state = int-IsWord rq.apaf_state in
    let jain = rq.jain_index in
    let mode_name = bracketed (codes (mode_str rq.approx_mode)) (mode_str-IsName rq.approx_mode) in
    let state_name = bracketed (codes (state_str rq.apaf_state)) (state_str-IsName rq.apaf_state) in
    rw
      (
        cut_first (print_nat rq.tick) (print_nat rq.clock) tick clock,
        before b' ' (print_nat rq.tick) (codes "clock") tick.1.0,
        before b' ' (print_nat rq.clock) (codes "ns]") clock.1.0,
        last_word (codes "  nr_tasks    ") (print_int rq.nr_tasks) (ground arith) nr_tasks.0
            nr_tasks.1.0,
        last_word (codes "  nr_running  ") (print_nat rq.nr_running) (ground arith) nr_running.0
            nr_running.1.0,
        word_before (codes "  approx_mode ") (print_int rq.approx_mode) _ (ground arith) mode.0
            mode.1.0 mode_name.0,
        word_before (codes "  apaf_state  ") (print_int rq.apaf_state) _ (ground arith) state.0
            state.1.0 state_name.0,
        last_word (codes "  jain_index  ") (print_double jain) (ground arith)
            (print_double-Lacks b'=' jain no_equals refl refl)
            (print_double-Lacks b' ' jain no_blank refl refl),
        value-print_nat rq.tick,
        value-print_nat rq.clock,
        read_int-print rq.nr_tasks,
        value-print_nat rq.nr_running,
        read_int-print rq.approx_mode,
        read_int-print rq.apaf_state,
        read_double-print jain,
        read_tasks-counted (visited rq) (pos_part rq.nr_tasks) counted,
      )
      refl

-- When the runqueue holds as many tasks as nr_tasks says, the text of `rq_print` is read back as its
-- counters, its mode, its state, Jain's index in millionths and its tasks, each with its weight as
-- a u32.
pub rq_print-read :
    (rq : CfsRq)
    → length (visited rq) ≡ pos_part rq.nr_tasks
    → read_rq (rq_print rq) ≡ some (printed_rq rq)
unfolding rq_print read_rq
rq_print-read rq counted =
    rw (cut-unlines (rq_lines rq) (tasks_print (visited rq)) (rq_lines-Lacks rq))
      (read_rq_lines-print rq counted)
