-- ===== src/Task/Runqueue.antt =====
-- The runqueue: which tasks the loops visit.
use approximation_computing.Common.{
  ℕ, zero, suc, ◌≡◌, refl, arith, true, ◌||◌, List, [], ◌∷◌, leb, length, take, pos_part,
}
use approximation_computing.Task.{CfsTask, CfsRq, has_no_tasks, visited}

take-none : (ts : List CfsTask) (n : ℕ) → (leb (length ts) 0 || leb n 0) ≡ true → take n ts ≡ []
take-none ts zero h = refl
take-none [] (suc n) h = refl
take-none (t ∷ ts) (suc n) h = ground arith

-- Under the guard of the loops no task would be visited.
pub visited-none : (rq : CfsRq) → has_no_tasks rq ≡ true → visited rq ≡ []
visited-none rq h = take-none rq.tasks (pos_part rq.nr_tasks) h
