-- ===== src/SelfTest/Exact.antt =====
-- The self-test of apex-cfs/src/cfs_exact.c.
use approximation_computing.Common.{
  ℕ, ◌*◌, Bool, ◌&&◌, List, [], ◌∷◌, map, get_or, modify, ltb, leb, ◌==◌, if◌then◌else◌, pos,
}
use approximation_computing.Words.{sub64}
use approximation_computing.Double.{decimal}
use approximation_computing.Task.{CfsRq, tick_ns, task_create, task_set_runnable, rq_init}
use approximation_computing.Fairness.{fairness_jain_index}
use approximation_computing.Exact.{exact_decay_load, exact_calc_delta_fair, exact_tick}
use approximation_computing.SelfTest.{Outcome, printed, le, tick_times, equal_rq, first_load}

abbrev is_between : ℕ → ℕ → ℕ → Bool
is_between low x high = leb low x && leb x high

-- Test 8: the difference of two vruntimes after 100 ticks.
unfoldable pub vruntime_diff : CfsRq → ℕ
vruntime_diff rq =
    let vr0 = get_or (map (λ t. t.vruntime) rq.tasks) 0 0 in
    let vr1 = get_or (map (λ t. t.vruntime) rq.tasks) 1 0 in
    if leb vr1 vr0 then sub64 vr0 vr1 else sub64 vr1 vr0

abbrev rq_mix : CfsRq
rq_mix =
    tick_times 100 exact_tick
      (rq_init (task_create (pos 0) (pos 0) ∷ task_create (pos 1) (pos 5) ∷ []) (pos 2) (pos 0))

-- Test 9: the load of a single task in four moments.
unfoldable pub converges : Bool
converges =
    let rq50 = tick_times 50 exact_tick (equal_rq 1 (pos 0)) in
    let rq100 = tick_times 50 exact_tick rq50 in
    let rq150 = tick_times 50 exact_tick rq100 in
    let rq200 = tick_times 50 exact_tick rq150 in
    let weight = get_or (map (λ t. t.weight) rq200.tasks) 0 0 in
    ltb 0 (first_load rq200)
    && leb (first_load rq200) weight
    && ltb (first_load rq50) (first_load rq100)
    && ltb (first_load rq100) (first_load rq150)
    && ltb (first_load rq150) (first_load rq200)

-- Test 10: a task that blocks loses load.
unfoldable pub decays : Bool
decays =
    let rq = tick_times 100 exact_tick (equal_rq 1 (pos 0)) in
    let blocked : CfsRq = record rq {
      tasks = modify rq.tasks 0 (λ t. task_set_runnable t (pos 0));
    } in
    ltb (first_load (tick_times 100 exact_tick blocked)) (first_load rq)

unfoldable pub exact_tests : List Bool
unfolding vruntime_diff converges decays
exact_tests =
    is_between 23800 (exact_decay_load 47742 32) 23950
    ∷ (exact_decay_load 10000 0 == 10000)
    ∷ (exact_decay_load 47742 9999 == 0)
    ∷ (exact_calc_delta_fair 1000000 1024 == 1000000)
    ∷ is_between 300000 (exact_calc_delta_fair 1000000 3121) 360000
    ∷ is_between 2900000 (exact_calc_delta_fair 1000000 335) 3200000
    ∷ le (decimal 95 2) (fairness_jain_index (tick_times 100 exact_tick (equal_rq 4 (pos 0))))
    ∷ ltb (vruntime_diff rq_mix) (10 * tick_ns)
    ∷ converges
    ∷ decays
    ∷ []

unfoldable pub exact_self_test : Outcome
unfolding exact_tests
exact_self_test = printed exact_tests
