-- ===== src/Experiment/Serves.antt =====
-- The tick of an experiment, whatever its scheduler: it serves a task, or only moves the clock.
use approximation_computing.Common.{
  ℕ, ◌*◌, ◌-◌, ◌≤◌, arith, ◌≡◌, ◌≢◌, ◌⊎◌, inl, inr, refl, none, ◌==ℤ◌, ℤ, pos, Bool-cases,
}
use approximation_computing.Run.{run}
use approximation_computing.Words.{u32}
use approximation_computing.Task.{rq_tick, CfsRq, tick_ns, wmult_shift}
use approximation_computing.Exact.{
  exact_pick_next_task, exact_tick, exact_calc_delta_fair, exact_mul_u64_u32_shr,
}
use approximation_computing.Bsa.{bsa_newton_reciprocal, bsa_tick, bsa_vruntime_delta}
use approximation_computing.Clti.{clti_tick, clti_vruntime_delta}
use approximation_computing.Apaf.{newton_iters, apaf_tick, apaf_vruntime_delta}
use approximation_computing.Experiment.{tick_of}
use approximation_computing.Ticks.{IsSized, IsServed, ServesOrIdles, apaf_delta}
use approximation_computing.Ticks.Rounds.{
  exact_tick-IsServed, bsa_tick-ServesOrIdles, clti_tick-ServesOrIdles, apaf_tick-ServesOrIdles,
}
use approximation_computing.Ticks.Even.{IsUnscaled}

exact-IsUnscaled : IsUnscaled exact_calc_delta_fair
unfolding exact_calc_delta_fair exact_mul_u64_u32_shr
exact-IsUnscaled = refl

bsa-IsUnscaled : IsUnscaled bsa_vruntime_delta
unfolding bsa_vruntime_delta
bsa-IsUnscaled = refl

clti-IsUnscaled : IsUnscaled clti_vruntime_delta
unfolding clti_vruntime_delta
clti-IsUnscaled = refl

apaf-IsUnscaled : (s : ℤ) → IsUnscaled (apaf_delta s)
unfolding apaf_vruntime_delta
apaf-IsUnscaled s = refl

-- The runtime of a task of nice -10 is scaled down to a quarter or less.
abbrev pub IsSlow : (ℕ → ℕ → ℕ) → Type 0
IsSlow delta = 4 * delta tick_ns 9548 ≤ tick_ns

exact-IsSlow : IsSlow exact_calc_delta_fair
unfolding run
exact-IsSlow = omega arith

bsa-IsSlow : IsSlow bsa_vruntime_delta
unfolding run
bsa-IsSlow = omega arith

clti-IsSlow : IsSlow clti_vruntime_delta
unfolding run
clti-IsSlow = omega arith

slow_steps :
    (n : ℕ)
    → (n ≡ 1) ⊎ (n ≡ 2)
    → 4 * exact_mul_u64_u32_shr tick_ns (u32 (bsa_newton_reciprocal 9548 n)) (wmult_shift - 10)
      ≤ tick_ns
unfolding run
slow_steps n (inl e) = rw e (omega arith)
slow_steps n (inr e) = rw e (omega arith)

one_or_two : (s : ℤ) → (newton_iters s ≡ 1) ⊎ (newton_iters s ≡ 2)
one_or_two s = ground arith

apaf-IsSlow : (s : ℤ) → IsSlow (apaf_delta s)
unfolding apaf_vruntime_delta
apaf-IsSlow s = slow_steps (newton_iters s) (one_or_two s)

-- A tick that serves, by a scheduler that does not scale the runtime of an equal task.
pub record Serves (rq rq' : CfsRq) : Type 0 where
  pub delta : ℕ → ℕ → ℕ
  pub decay : ℕ → ℕ → ℕ
  pub unscaled : IsUnscaled delta
  pub slow : IsSlow delta
  pub served : IsServed delta decay rq rq'

-- What a tick of an approximation does, with its two functions hidden.
abbrev pub Acts : CfsRq → CfsRq → Type 0
Acts rq rq' = ((exact_pick_next_task rq ≡ none) × (rq' ≡ rq_tick rq)) ⊎ Serves rq rq'

ServesOrIdles-Acts :
    (delta decay : ℕ → ℕ → ℕ) (rq rq' : CfsRq)
    → IsUnscaled delta
    → IsSlow delta
    → ServesOrIdles delta decay rq rq'
    → Acts rq rq'
ServesOrIdles-Acts delta decay rq rq' unscaled slow (inl h) = inl h
ServesOrIdles-Acts delta decay rq rq' unscaled slow (inr (k, picked, h)) =
    inr (record { delta = delta; decay = decay; unscaled = unscaled; slow = slow; served = h })

-- Every branch of the `switch` acts so.
pub tick_of-Acts : (logic : ℤ) (rq : CfsRq) → IsSized rq → Acts rq (tick_of logic rq)
unfolding tick_of
tick_of-Acts logic rq sized =
    let by_exact : Acts rq (exact_tick rq) = inr (record {
      delta = _;
      decay = _;
      unscaled = exact-IsUnscaled;
      slow = exact-IsSlow;
      served = exact_tick-IsServed rq sized;
    }) in
    elim (Bool-cases (logic ==ℤ pos 0)) [
      | inl e ↦ rw e by_exact
      | inr e0 ↦ elim (Bool-cases (logic ==ℤ pos 1)) [
        | inl e ↦
            rw (e0, e)
              (ServesOrIdles-Acts _ _ rq (bsa_tick rq) bsa-IsUnscaled bsa-IsSlow
                (bsa_tick-ServesOrIdles rq sized))
        | inr e1 ↦ elim (Bool-cases (logic ==ℤ pos 2)) [
          | inl e ↦
              rw (e0, e1, e)
                (ServesOrIdles-Acts _ _ rq (clti_tick rq) clti-IsUnscaled clti-IsSlow
                  (clti_tick-ServesOrIdles rq sized))
          | inr e2 ↦ elim (Bool-cases (logic ==ℤ pos 3)) [
            | inl e ↦
                rw (e0, e1, e2, e)
                  (ServesOrIdles-Acts _ _ rq (apaf_tick rq) (apaf-IsUnscaled rq.apaf_state)
                    (apaf-IsSlow rq.apaf_state) (apaf_tick-ServesOrIdles rq sized))
            | inr e3 ↦ rw (e0, e1, e2, e3) by_exact
          ]
        ]
      ]
    ]

-- Where there is a task to run, it is served.
pub tick_of-Serves :
    (logic : ℤ) (rq : CfsRq)
    → IsSized rq
    → exact_pick_next_task rq ≢ none
    → Serves rq (tick_of logic rq)
tick_of-Serves logic rq sized busy = elim (tick_of-Acts logic rq sized) [
  | inl (nobody, e) ↦ absurd (busy nobody)
  | inr s ↦ s
]
