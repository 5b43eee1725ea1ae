-- ===== src/MixedLoad/Share.antt =====
-- Experiment 2: the CPU time of the interactive task.
use native.Mathlib.Nat.{add-zero}
use approximation_computing.Common.{
  ℕ, zero, suc, ◌+◌, ◌-◌, ◌*◌, ◌&&◌, not, ◌==ℤ◌, ◌%◌, ◌/◌, ◌^◌, ◌≤◌, ◌<◌, ◌≡◌, inl, inr, refl, sym,
  ap, ◌∙◌, arith, true, false, Bool, Option, none, ◌≢◌, List, [], ◌∷◌, map, if◌then◌else◌, ltb, ℤ,
  pos, pos_part, modify, length, All, Bool-cases,
}
use mathlib.Core.Path.{subst}
use approximation_computing.Words.{u64}
use approximation_computing.Double.{one, of_nat, div}
use approximation_computing.Double.Laws.{of_nat-exact, div_lem, div-le-one}
use approximation_computing.Double.Round.{le-round}
use approximation_computing.Run.{run}
use approximation_computing.Task.{
  CfsTask, CfsRq, is_running, has_no_tasks, tick_ns, task_set_runnable, rq_count_running, visited,
  count_running, task_create, clamp_nice, weight_of,
}
use approximation_computing.Logic.{age_task}
use approximation_computing.Exact.{exact_pick_next_task}
use approximation_computing.Exact.Pick.{IsChoice, idle, chosen}
use approximation_computing.Ticks.{IsSized, run_choice, total_runtime}
use approximation_computing.Ticks.Even.{IsEven}
use approximation_computing.Ticks.Round.{picked-IsChoice}
use approximation_computing.Experiment.{tick_of}
use approximation_computing.Experiment.Serves.{tick_of-Acts}
use approximation_computing.MixedLoad.{
  Mixed, n_batch, set_interactive, mixed_step, mixed_loop, start_mixed, runtime_loop,
  interactive_cpu_share, batch_tasks, interactive_on, interactive_off,
}
use approximation_computing.MixedLoad.Turns.{IsShared, AreShared, Allows, turn}
use approximation_computing.MixedLoad.Report.{first_runtime, run_exp2}

-- By how many ticks the batch tasks may be ahead before round `i`.
abbrev slack_at : ℕ → ℕ
slack_at i = if ltb (i % 10) 5 then 15 - i % 10 else i % 10 + 5

-- The rounds before round `i` in which the interactive task is woken.
abbrev pub woken_before : ℕ → ℕ
woken_before i = i / 10 * 5 + (if ltb (i % 10) 5 then i % 10 else 5)

-- A lane before round `i`.
record IsLane (i : ℕ) (rq : CfsRq) : Type 0 where
  sized : IsSized rq
  shared : AreShared i (slack_at i) (woken_before i) rq.tasks

abbrev flag_at : ℕ → ℤ
flag_at i = if ltb (i % (interactive_on + interactive_off)) interactive_on then pos 1 else pos 0

on_slack :
    (i : ℕ)
    → ltb (i % 10) 5 ≡ true
    → (10 ≤ slack_at (suc i))
      × (slack_at i ≤ suc (slack_at (suc i)))
      × (suc (woken_before i) ≡ woken_before (suc i))
on_slack i on = (ground arith, ground arith, ground arith)

off_slack :
    (i : ℕ)
    → ltb (i % 10) 5 ≡ false
    → (suc (slack_at i) ≤ slack_at (suc i)) × (woken_before i ≡ woken_before (suc i))
off_slack i off = (ground arith, ground arith)

woken_runs : (t : CfsTask) → is_running (task_set_runnable t (pos 1)) ≡ true
unfolding task_set_runnable
woken_runs t = refl

blocked_stays : (t : CfsTask) → is_running (task_set_runnable t (pos 0)) ≡ false
unfolding task_set_runnable
blocked_stays t = refl

-- The flag of the round decides which of the two limits applies.
set-Allows :
    (i : ℕ) (t : CfsTask)
    → Allows
        (task_set_runnable t (flag_at i))
        (slack_at i)
        (slack_at (suc i))
        (woken_before i)
        (woken_before (suc i))
set-Allows i t = elim (Bool-cases (ltb (i % 10) 5)) [
  | inl on ↦
      let runs : is_running (task_set_runnable t (flag_at i)) ≡ true = rw on (woken_runs t) in
      record { awake = λ _. on_slack i on; blocked = λ e. absurd cc }
  | inr off ↦
      let still : is_running (task_set_runnable t (flag_at i)) ≡ false = rw off (blocked_stays t) in
      record { awake = λ e. absurd cc; blocked = λ _. off_slack i off }
]

flagged :
    (k slack woken : ℕ) (r : ℤ) (t : CfsTask) (ts : List CfsTask)
    → IsShared k slack woken t ts
    → IsShared k slack woken (record t { runnable = r }) ts
flagged k slack woken r t ts h = record {
  base = h.base;
  even = h.even;
  many = h.many;
  heavy = h.heavy;
  slow = h.slow;
  spent = h.spent;
  behind = h.behind;
  no_more = h.no_more;
}

set-IsShared :
    (k slack woken : ℕ) (r : ℤ) (t : CfsTask) (ts : List CfsTask)
    → IsShared k slack woken t ts
    → IsShared k slack woken (task_set_runnable t r) ts
unfolding task_set_runnable
set-IsShared k slack woken r t ts h = elim (Bool-cases (not (r ==ℤ pos 0) && not (r ==ℤ pos 1))) [
  | inl e ↦ rw e (flagged k slack woken (pos 0) t ts h)
  | inr e ↦ rw e (flagged k slack woken r t ts h)
]

-- A batch task is there, so one is chosen.
someone :
    (t : CfsTask) (ts : List CfsTask) (r : Option ℕ) (k slack woken : ℕ)
    → IsChoice (t ∷ ts) r
    → IsShared k slack woken t ts
    → r ≢ none
someone t [] r k slack woken choice h = λ _. absurd (omega (arith, h.many))
someone t (b ∷ ts) r k slack woken (idle e nobody) h = absurd (nobody 1 b refl h.even.0.runs)
someone t (b ∷ ts) r k slack woken (chosen j u e there running least) h = λ nobody. cc

-- The tick of a round in which some batch task runs, as they all do.
tick-AreShared :
    (logic : ℤ) (i : ℕ) (rq : CfsRq) (t : CfsTask) (ts : List CfsTask)
    → suc i * tick_ns < 2 ^ 64
    → IsSized rq
    → rq.tasks ≡ t ∷ ts
    → Allows t (slack_at i) (slack_at (suc i)) (woken_before i) (woken_before (suc i))
    → IsShared i (slack_at i) (woken_before i) t ts
    → IsLane (suc i) (tick_of logic rq)
tick-AreShared logic i rq t ts fits sized are allows h =
    let choice : IsChoice (t ∷ ts) (exact_pick_next_task rq) =
      subst (λ l. IsChoice l (exact_pick_next_task rq)) are (picked-IsChoice rq sized) in
    elim (tick_of-Acts logic rq sized) [
      | inl (nobody, e) ↦
          absurd
            (someone t ts (exact_pick_next_task rq) i (slack_at i) (woken_before i) choice h nobody)
      | inr s ↦
          let ran =
            turn s.delta s.decay s.unscaled s.slow i (slack_at i) (slack_at (suc i))
              (woken_before i) (woken_before (suc i)) t ts (exact_pick_next_task rq) fits choice
              allows h in
          let after =
            s.served.tasks
            ∙ ap (λ l. map (age_task s.decay) (run_choice s.delta (exact_pick_next_task rq) l))
                are in
          record { sized = s.served.sized; shared = rw after ran }
    ]

counted-IsLane :
    (i : ℕ) (b : Bool) (rq : CfsRq) (c : ℕ)
    → IsLane i rq
    → IsLane i (if◌then◌else◌ {A = CfsRq × ℕ} b (rq, 0) (record rq { nr_running = c }, c)).0
counted-IsLane i true rq c h = h
counted-IsLane i false rq c h = record { sized = h.sized; shared = h.shared }

rq_count_running-IsLane : (i : ℕ) (rq : CfsRq) → IsLane i rq → IsLane i (rq_count_running rq).0
unfolding rq_count_running
rq_count_running-IsLane i rq h =
    counted-IsLane i (has_no_tasks rq) rq (count_running (visited rq)) h

-- The first half of a round, on the list of the lane.
flagged-tick :
    (logic : ℤ) (i : ℕ) (rq : CfsRq) (ts : List CfsTask)
    → suc i * tick_ns < 2 ^ 64
    → rq.nr_tasks ≡ pos (length ts)
    → AreShared i (slack_at i) (woken_before i) ts
    → rq.tasks ≡ modify ts 0 (λ t. task_set_runnable t (flag_at i))
    → IsLane (suc i) (tick_of logic rq)
flagged-tick logic i rq [] fits sized h are = absurd (omega (arith, h))
flagged-tick logic i rq (t ∷ ts) fits sized h are =
    tick-AreShared logic i rq (task_set_runnable t (flag_at i)) ts fits
      (sized ∙ ap (λ l. pos (length l)) (sym are)) are (set-Allows i t)
      (set-IsShared i (slack_at i) (woken_before i) (flag_at i) t ts h)

mixed_step-IsLane :
    (logic : ℤ) (i : ℕ) (s : Mixed)
    → suc i * tick_ns < 2 ^ 64
    → IsLane i s.approx_rq
    → IsLane (suc i) (mixed_step logic i s).approx_rq
unfolding mixed_step set_interactive
mixed_step-IsLane logic i s fits h =
    let flagged_rq = set_interactive (flag_at i) s.approx_rq in
    rq_count_running-IsLane (suc i) (tick_of logic flagged_rq)
      (flagged-tick logic i flagged_rq s.approx_rq.tasks fits h.sized h.shared refl)

mixed_loop-IsLane :
    (rounds i : ℕ) (logic : ℤ) (s : Mixed)
    → (i + rounds) * tick_ns < 2 ^ 64
    → IsLane i s.approx_rq
    → IsLane (i + rounds) (mixed_loop rounds logic i s).approx_rq
unfolding mixed_loop
mixed_loop-IsLane zero i logic s fits h = rw add-zero h
mixed_loop-IsLane (suc rounds) i logic s fits h =
    let moved : i + suc rounds ≡ i + 1 + rounds = omega arith in
    let next : i + 1 ≡ suc i = omega arith in
    rw moved (
      mixed_loop-IsLane rounds (i + 1) logic (mixed_step logic i s) (omega arith)
        (rw next (mixed_step-IsLane logic i s (omega arith) h)))

batch_tasks-IsEven : (n i : ℕ) → All (IsEven 0) (batch_tasks n i)
unfolding batch_tasks task_create clamp_nice weight_of
batch_tasks-IsEven zero i = tt
batch_tasks-IsEven (suc n) i = (
  record { runs = refl; unit = refl; same = refl; low = omega arith; high = omega arith },
  batch_tasks-IsEven n (i + 1),
)

start-IsLane : (logic : ℤ) → IsLane 0 (start_mixed logic).approx_rq
unfolding run start_mixed batch_tasks
start-IsLane logic = record {
  sized = refl;
  shared = record {
    base = 0;
    even = batch_tasks-IsEven n_batch 1;
    many = refl;
    heavy = refl;
    slow = omega arith;
    spent = refl;
    behind = omega arith;
    no_more = omega arith;
  };
}

runtime_loop_lem :
    (ts : List CfsTask) (n : ℕ)
    → n + total_runtime ts < 2 ^ 64
    → runtime_loop ts n ≡ n + total_runtime ts
unfolding runtime_loop
runtime_loop_lem [] n h = omega arith
runtime_loop_lem (t ∷ ts) n h =
    let rest = runtime_loop_lem ts (u64 (n + t.exec_runtime)) (omega arith) in omega arith

-- A quotient of two small numbers that are not too far apart.
quotient_bounds :
    (x total : ℕ)
    → 0 < x
    → x ≤ total
    → total ≤ 4 * x
    → total ≤ 2 ^ 53
    → let q = div (of_nat x) (of_nat total) in (one ≤ 4 * pos_part q) × (pos_part q ≤ one)
quotient_bounds x total p below above fits =
    rw (of_nat-exact x (omega arith), of_nat-exact total fits)
      (large, div-le-one (x * one) (total * one) (omega arith) (omega arith))
  where
    large : one ≤ 4 * pos_part (div (pos (x * one)) (pos (total * one)))
    large = rw (div_lem (x * one) (total * one)) (
        let r =
          le-round (x * one * one) (total * one) (omega arith) (omega arith) 1 1072 (omega arith)
            (omega arith) in
        omega arith)

-- The share of a first task that has had a quarter of the time.
interactive_cpu_share_bounds :
    (ts : List CfsTask)
    → 0 < first_runtime ts
    → total_runtime ts ≤ 4 * first_runtime ts
    → total_runtime ts ≤ 2 ^ 53
    → let share = interactive_cpu_share ts in (one ≤ 4 * pos_part share) × (pos_part share ≤ one)
unfolding interactive_cpu_share
interactive_cpu_share_bounds [] h k fits = absurd (omega arith)
interactive_cpu_share_bounds (t ∷ ts) h k fits =
    let total = runtime_loop_lem (t ∷ ts) 0 (omega arith) in
    let some_time : ltb 0 (runtime_loop (t ∷ ts) 0) ≡ true = ground arith in
    rw some_time (
      quotient_bounds t.exec_runtime (runtime_loop (t ∷ ts) 0) (omega arith) (omega arith)
        (omega arith) (omega arith))

-- What the lane says of its first task after `k` ticks.
record IsServedWell (k : ℕ) (ts : List CfsTask) : Type 0 where
  enough : 2 * (k * tick_ns) ≤ 7 * first_runtime ts + 30 * tick_ns
  no_more : first_runtime ts ≤ woken_before k * tick_ns
  spent : total_runtime ts ≡ k * tick_ns

slack_at-le : (i : ℕ) → slack_at i ≤ 15
slack_at-le i = ground arith

served_well :
    (k : ℕ) (ts : List CfsTask) → AreShared k (slack_at k) (woken_before k) ts → IsServedWell k ts
served_well k [] h = absurd (omega arith)
served_well k (t ∷ ts) h =
    let s = slack_at-le k in
    let behind = h.behind in
    let spent = h.spent in record { enough = omega arith; no_more = h.no_more; spent = h.spent }

-- Under every scheduler, from 120 ticks on up to 2^53 ns, the interactive task of experiment 2 is not
-- starved by the 10 batch tasks, though it is blocked in half of the rounds: it has at least two
-- sevenths of all ticks but for 30/7 of a tick, and at most the ticks of the rounds in which it
-- is woken. The share that is reported for it is from 1/4 to 1.0.
pub run_exp2-share :
    (logic : ℤ) (ticks : ℕ)
    → 120 ≤ ticks
    → ticks * tick_ns ≤ 2 ^ 53
    → let r = run_exp2 true logic ticks in
      (2 * (ticks * tick_ns) ≤ 7 * r.interactive_exec_runtime + 30 * tick_ns)
      × (r.interactive_exec_runtime ≤ woken_before ticks * tick_ns)
      × (one ≤ 4 * pos_part r.interactive_cpu_share)
      × (pos_part r.interactive_cpu_share ≤ one)
unfolding run_exp2
run_exp2-share logic ticks many fits =
    let done = (mixed_loop ticks logic 0 (start_mixed logic)).approx_rq in
    let lane : IsLane ticks done =
      subst (λ k. IsLane k done) (omega arith)
        (mixed_loop-IsLane ticks 0 logic (start_mixed logic) (omega arith) (start-IsLane logic)) in
    let w = served_well ticks done.tasks lane.shared in
    let enough = w.enough in
    let spent = w.spent in
    let (low, high) =
      interactive_cpu_share_bounds done.tasks (omega arith) (omega arith) (omega arith) in
    (enough, w.no_more, low, high)
