-- ===== src/Ticks/OnTime.antt =====
-- The clock of every runqueue in reach, and the CPU time that its tasks have received.
use approximation_computing.Common.{
  ℕ, zero, suc, ◌+◌, ◌*◌, ◌^◌, ◌≤◌, ◌<◌, ◌≡◌, inl, inr, refl, ap, arith, Option, none, some, List,
  [], ◌∷◌, ℤ, modify, All,
}
use approximation_computing.Task.{
  CfsTask, CfsRq, tick_ns, task_create, task_set_runnable, rq_init, rq_tick,
}
use approximation_computing.Exact.{exact_tick, exact_pick_next_task}
use approximation_computing.Bsa.{bsa_tick}
use approximation_computing.Clti.{clti_tick}
use approximation_computing.Apaf.{apaf_tick}
use approximation_computing.Ticks.{IsSized, IsServed, ServesOrIdles, total_runtime}
use approximation_computing.Ticks.Rounds.{
  exact_tick-IsServed, bsa_tick-ServesOrIdles, clti_tick-ServesOrIdles, apaf_tick-ServesOrIdles,
}
use approximation_computing.Ticks.Served.{granted, HasRoom, served-total_runtime}
use approximation_computing.Ticks.Reachable.{
  counted, rq_count_running-same, Reachable, start, set_runnable, exact, bsa, clti, apaf, created,
  Reachable-IsValid,
}

pub record IsOnTime (n : ℕ) (rq : CfsRq) : Type 0 where
  pub clock : rq.clock ≡ n * tick_ns
  pub ticked : rq.tick ≡ n
  pub spent : total_runtime rq.tasks ≤ rq.clock

pub has_room : (ts : List CfsTask) → total_runtime ts + tick_ns < 2 ^ 64 → All HasRoom ts
has_room [] h = tt
has_room (t ∷ ts) h = (omega arith, has_room ts (omega arith))

pub granted-le : (r : Option ℕ) → granted r ≤ tick_ns
granted-le none = omega arith
granted-le (some k) = omega arith

served-IsOnTime :
    {delta decay : ℕ → ℕ → ℕ} (n : ℕ) (rq rq' : CfsRq)
    → suc n * tick_ns < 2 ^ 64
    → IsSized rq
    → IsServed delta decay rq rq'
    → IsOnTime n rq
    → IsOnTime (suc n) rq'
served-IsOnTime {delta = delta} {decay = decay} n rq rq' fits sized h v =
    let c = v.clock in
    let k = v.ticked in
    let b = v.spent in
    let room = has_room rq.tasks (omega arith) in
    let more = served-total_runtime delta decay rq rq' sized h room in
    let most = granted-le (exact_pick_next_task rq) in
    let c' = h.clock in
    let k' = h.tick in record { clock = omega arith; ticked = omega arith; spent = omega arith }

idle-IsOnTime :
    (n : ℕ) (rq : CfsRq) → suc n * tick_ns < 2 ^ 64 → IsOnTime n rq → IsOnTime (suc n) (rq_tick rq)
unfolding rq_tick
idle-IsOnTime n rq fits v =
    let c = v.clock in
    let k = v.ticked in
    let b = v.spent in record { clock = omega arith; ticked = omega arith; spent = omega arith }

ServesOrIdles-IsOnTime :
    {delta decay : ℕ → ℕ → ℕ} (n : ℕ) (rq rq' : CfsRq)
    → suc n * tick_ns < 2 ^ 64
    → IsSized rq
    → ServesOrIdles delta decay rq rq'
    → IsOnTime n rq
    → IsOnTime (suc n) rq'
ServesOrIdles-IsOnTime n rq rq' fits sized (inl (nobody, e)) v = rw e (idle-IsOnTime n rq fits v)
ServesOrIdles-IsOnTime n rq rq' fits sized (inr (k, picked, h)) v =
    served-IsOnTime n rq rq' fits sized h v

created-total : (specs : List (ℤ × ℤ)) → total_runtime (created specs) ≡ 0
unfolding task_create
created-total [] = refl
created-total (s ∷ specs) = omega (arith, created-total specs)

set_runnable-total :
    (ts : List CfsTask) (i : ℕ) (r : ℤ)
    → total_runtime (modify ts i (λ t. task_set_runnable t r)) ≡ total_runtime ts
unfolding task_set_runnable
set_runnable-total [] i r = refl
set_runnable-total (t ∷ ts) zero r = ground arith
set_runnable-total (t ∷ ts) (suc i) r = ap (λ n. t.exec_runtime + n) (set_runnable-total ts i r)

-- After n ticks of any schedulers, with n * 1000000 below 2^64: the clock shows n * 1000000 ns, the
-- tick counter n, and the tasks have together run no longer than the clock shows.
pub Reachable-IsOnTime :
    (n : ℕ) (rq : CfsRq) → Reachable n rq → n * tick_ns < 2 ^ 64 → IsOnTime n rq
unfolding rq_init
Reachable-IsOnTime _ _ (start specs mode) fits = record {
  clock = refl;
  ticked = refl;
  spent = omega (arith, created-total specs);
}
Reachable-IsOnTime _ _ (set_runnable {n = n} {rq = rq} i r h) fits =
    let v = Reachable-IsOnTime n rq h fits in
    record {
      clock = v.clock;
      ticked = v.ticked;
      spent = rw (set_runnable-total rq.tasks i r) v.spent;
    }
Reachable-IsOnTime _ _ (counted {n = n} {rq = rq} h) fits =
    let v = Reachable-IsOnTime n rq h fits in
    rq_count_running-same (IsOnTime n) rq v
      (λ c. record { clock = v.clock; ticked = v.ticked; spent = v.spent })
Reachable-IsOnTime _ _ (exact {n = n} {rq = rq} h) fits =
    let sized = (Reachable-IsValid n rq h).sized in
    served-IsOnTime n rq (exact_tick rq) fits sized (exact_tick-IsServed rq sized)
      (Reachable-IsOnTime n rq h (omega arith))
Reachable-IsOnTime _ _ (bsa {n = n} {rq = rq} h) fits =
    let sized = (Reachable-IsValid n rq h).sized in
    ServesOrIdles-IsOnTime n rq (bsa_tick rq) fits sized (bsa_tick-ServesOrIdles rq sized)
      (Reachable-IsOnTime n rq h (omega arith))
Reachable-IsOnTime _ _ (clti {n = n} {rq = rq} h) fits =
    let sized = (Reachable-IsValid n rq h).sized in
    ServesOrIdles-IsOnTime n rq (clti_tick rq) fits sized (clti_tick-ServesOrIdles rq sized)
      (Reachable-IsOnTime n rq h (omega arith))
Reachable-IsOnTime _ _ (apaf {n = n} {rq = rq} h) fits =
    let sized = (Reachable-IsValid n rq h).sized in
    ServesOrIdles-IsOnTime n rq (apaf_tick rq) fits sized (apaf_tick-ServesOrIdles rq sized)
      (Reachable-IsOnTime n rq h (omega arith))
