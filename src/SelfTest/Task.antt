-- ===== src/SelfTest/Task.antt =====
-- The self-test of apex-cfs/src/task.c.
use approximation_computing.Common.{◌*◌, Bool, true, ◌&&◌, List, [], ◌∷◌, ◌==◌, pos, negsuc, ◌==ℤ◌}
use approximation_computing.Task.{
  CfsTask, CfsRq, apaf_medium, tick_ns, task_create, rq_init, rq_tick,
}
use approximation_computing.SelfTest.{Outcome, printed, tick_times}

abbrev t0 : CfsTask
t0 = task_create (pos 0) (pos 0)

abbrev t1 : CfsTask
t1 = task_create (pos 1) (negsuc 4)

abbrev t2 : CfsTask
t2 = task_create (pos 2) (pos 1)

abbrev t3 : CfsTask
t3 = task_create (pos 3) (pos 25)

abbrev task_rq : CfsRq
task_rq = rq_init (t0 ∷ t1 ∷ t2 ∷ t3 ∷ []) (pos 4) (pos 0)

abbrev ticked_rq : CfsRq
ticked_rq = tick_times 5 rq_tick task_rq

-- The last test only prints.
unfoldable pub task_tests : List Bool
task_tests =
    ((t0.weight == 1024) && (t0.vruntime == 0) && (t0.runnable ==ℤ pos 1))
    ∷ (t1.weight == 3121)
    ∷ (t2.weight == 820)
    ∷ ((t3.nice ==ℤ pos 19) && (t3.weight == 15))
    ∷ ((task_rq.nr_running == 4) && (task_rq.clock == 0) && (task_rq.apaf_state ==ℤ apaf_medium))
    ∷ ((ticked_rq.tick == 5) && (ticked_rq.clock == 5 * tick_ns))
    ∷ true
    ∷ []

unfoldable pub task_self_test : Outcome
task_self_test = printed task_tests
