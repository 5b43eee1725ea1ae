-- ===== src/Experiment/LoadError/Bounds.antt =====
-- The load errors of BSA and CLTI that experiment 1 reports, in numbers.
use native.Mathlib.Nat.{zero-add, suc-add}
use approximation_computing.Common.{
  ℕ, zero, suc, ◌+◌, ◌-◌, ◌*◌, ◌^◌, ◌≤◌, ◌<◌, ◌≡◌, inl, inr, refl, sym, ◌∙◌, arith, true, false, ℤ,
  pos, ap,
}
use approximation_computing.Double.{Double, lt}
use approximation_computing.Run.{run}
use approximation_computing.Text.Read.{millionths}
use approximation_computing.Task.{tick_ns}
use approximation_computing.Exact.{exact_decay_load}
use approximation_computing.Experiment.{run_experiment}
use approximation_computing.Experiment.LoadError.{
  decay_of, next_sum, average_of, worse, worst_from, worst_error, sum_after,
}
use approximation_computing.Experiment.LoadError.Reported.{run_experiment-worst_error}

module _ (decay : ℕ → ℕ → ℕ) where
  worst_from-add :
      (k j exact approx : ℕ) (m : Double)
      → worst_from (k + j) decay exact approx m
        ≡ worst_from j decay
            (sum_after k exact_decay_load exact)
            (sum_after k decay approx)
            (worst_from k decay exact approx m)
  unfolding worst_from sum_after
  worst_from-add zero j exact approx m = rw zero-add refl
  worst_from-add (suc k) j exact approx m = rw suc-add (worst_from-add k j _ _ _)

  -- Where both load sums stay, and their error is not above the largest one, nothing changes.
  worst_from_still :
      (j exact approx : ℕ) (m : Double)
      → next_sum exact_decay_load exact ≡ exact
      → next_sum decay approx ≡ approx
      → lt m (worse (pos 0) (average_of approx) (average_of exact)) ≡ false
      → worst_from j decay exact approx m ≡ m
  unfolding worst_from
  worst_from_still zero exact approx m e a h = refl
  worst_from_still (suc j) exact approx m e a h =
      rw (e, a, h, worst_from) (worst_from_still j exact approx m e a h)

-- After 1000 ticks the load sums of both lanes have come to rest.
pub exact_rests :
    next_sum exact_decay_load (sum_after 1000 exact_decay_load 0)
    ≡ sum_after 1000 exact_decay_load 0
unfolding run sum_after
exact_rests = refl

bsa_rests :
    next_sum (decay_of (pos 1)) (sum_after 1000 (decay_of (pos 1)) 0)
    ≡ sum_after 1000 (decay_of (pos 1)) 0
unfolding run sum_after
bsa_rests = refl

clti_rests :
    next_sum (decay_of (pos 2)) (sum_after 1000 (decay_of (pos 2)) 0)
    ≡ sum_after 1000 (decay_of (pos 2)) 0
unfolding run sum_after
clti_rests = refl

bsa_not_worse :
    lt (worst_error 1000 (pos 1)) (
      worse
        (pos 0)
        (average_of (sum_after 1000 (decay_of (pos 1)) 0))
        (average_of (sum_after 1000 exact_decay_load 0)))
    ≡ false
unfolding run sum_after worst_from
bsa_not_worse = refl

clti_not_worse :
    lt (worst_error 1000 (pos 2)) (
      worse
        (pos 0)
        (average_of (sum_after 1000 (decay_of (pos 2)) 0))
        (average_of (sum_after 1000 exact_decay_load 0)))
    ≡ false
unfolding run sum_after worst_from
clti_not_worse = refl

exact_not_worse :
    lt (worst_error 1000 (pos 0)) (
      worse
        (pos 0)
        (average_of (sum_after 1000 exact_decay_load 0))
        (average_of (sum_after 1000 exact_decay_load 0)))
    ≡ false
unfolding run sum_after worst_from
exact_not_worse = refl

after_rest :
    (logic : ℤ) (ticks : ℕ)
    → 1000 ≤ ticks
    → next_sum (decay_of logic) (sum_after 1000 (decay_of logic) 0)
      ≡ sum_after 1000 (decay_of logic) 0
    → lt (worst_error 1000 logic) (
        worse
          (pos 0)
          (average_of (sum_after 1000 (decay_of logic) 0))
          (average_of (sum_after 1000 exact_decay_load 0)))
      ≡ false
    → worst_error ticks logic ≡ worst_error 1000 logic
after_rest logic ticks long rests not_worse =
    let split : 1000 + (ticks - 1000) ≡ ticks = omega arith in
    ap (λ k. worst_error k logic) (sym split)
    ∙ worst_from-add (decay_of logic) 1000 (ticks - 1000) 0 0 (pos 0)
    ∙ worst_from_still (decay_of logic) (ticks - 1000) _ _ _ exact_rests rests not_worse

exact_shown : millionths (worst_error 1000 (pos 0)) ≡ pos 0
unfolding run worst_from millionths
exact_shown = refl

bsa_shown : millionths (worst_error 1000 (pos 1)) ≡ pos 31445312
unfolding run worst_from millionths
bsa_shown = refl

clti_shown : millionths (worst_error 1000 (pos 2)) ≡ pos 3021148
unfolding run worst_from millionths
clti_shown = refl

-- For any number of tasks and from 1000 ticks on, as long as the clock does not wrap, the largest load
-- error that experiment 1 reports is 0 under the exact scheduler, 31.445312% under BSA and 3.021148%
-- under CLTI, to six digits.
pub run_experiment-load_error :
    (n ticks : ℕ)
    → 0 < n
    → 1000 ≤ ticks
    → ticks * tick_ns < 2 ^ 64
    → let reported = λ (logic : ℤ). millionths (run_experiment true n logic ticks).max_error_pct in
      (reported (pos 0) ≡ pos 0)
      × (reported (pos 1) ≡ pos 31445312)
      × (reported (pos 2) ≡ pos 3021148)
run_experiment-load_error n ticks some_task long fits = (
  rw
      (
        run_experiment-worst_error n ticks (pos 0) some_task (inl refl) fits,
        after_rest (pos 0) ticks long exact_rests exact_not_worse,
      )
      exact_shown,
  rw
      (
        run_experiment-worst_error n ticks (pos 1) some_task (inr (inl refl)) fits,
        after_rest (pos 1) ticks long bsa_rests bsa_not_worse,
      )
      bsa_shown,
  rw
      (
        run_experiment-worst_error n ticks (pos 2) some_task (inr (inr refl)) fits,
        after_rest (pos 2) ticks long clti_rests clti_not_worse,
      )
      clti_shown,
)
