-- ===== src/Ticks/Agree.antt =====
-- The approximations against the exact scheduler, one tick from the same runqueue.
use approximation_computing.Common.{ℕ, ◌≡◌, inl, inr, sym, ap, ◌∙◌}
use approximation_computing.Task.{CfsRq, rq_tick}
use approximation_computing.Exact.{exact_tick}
use approximation_computing.Bsa.{bsa_tick}
use approximation_computing.Clti.{clti_tick}
use approximation_computing.Apaf.{apaf_tick}
use approximation_computing.Ticks.{IsSized, ServesOrIdles}
use approximation_computing.Ticks.Rounds.{
  exact_tick-IsServed, bsa_tick-ServesOrIdles, clti_tick-ServesOrIdles, apaf_tick-ServesOrIdles,
}
use approximation_computing.Ticks.Served.{runtimes, served-runtimes, served-idle}

agree :
    {delta decay : ℕ → ℕ → ℕ} (rq rq' : CfsRq)
    → IsSized rq
    → ServesOrIdles delta decay rq rq'
    → runtimes rq'.tasks ≡ runtimes (exact_tick rq).tasks
unfolding rq_tick
agree rq rq' sized (inl (nobody, e)) =
    ap (λ q. runtimes q.tasks) e
    ∙ sym (served-idle rq (exact_tick rq) nobody (exact_tick-IsServed rq sized))
agree rq rq' sized (inr (k, picked, h)) =
    served-runtimes rq rq' (exact_tick rq) h (exact_tick-IsServed rq sized)

-- From the same runqueue, whose count is right, the tick of each approximation leaves every task with
-- the same CPU time as the exact tick does.
pub ticks_agree :
    (rq : CfsRq)
    → IsSized rq
    → (runtimes (bsa_tick rq).tasks ≡ runtimes (exact_tick rq).tasks)
      × (runtimes (clti_tick rq).tasks ≡ runtimes (exact_tick rq).tasks)
      × (runtimes (apaf_tick rq).tasks ≡ runtimes (exact_tick rq).tasks)
ticks_agree rq sized = (
  agree rq (bsa_tick rq) sized (bsa_tick-ServesOrIdles rq sized),
  agree rq (clti_tick rq) sized (clti_tick-ServesOrIdles rq sized),
  agree rq (apaf_tick rq) sized (apaf_tick-ServesOrIdles rq sized),
)
