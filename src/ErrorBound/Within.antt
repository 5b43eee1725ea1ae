-- ===== src/ErrorBound/Within.antt =====
-- Experiment 4: the error of every tick lies within the bound of the scheduler.
use mathlib.Core.Path.{subst}
use approximation_computing.Common.{
  ◌≡◌, inl, inr, refl, sym, true, false, Bool-cases, ℤ, pos, ◌==ℤ◌, ==ℤ_iff,
}
use approximation_computing.Double.{Double, of_nat, lt, run_double}
use approximation_computing.Run.{run}
use approximation_computing.Task.{apaf_tight, apaf_medium, apaf_loose}
use approximation_computing.Fairness.Controller.{IsState}
use approximation_computing.ErrorBound.{tick_error, tick_bound, decayed_by, theoretical_bound_of}

-- An error that is below 1%, within the bound of the tick and within the theoretical one.
pub record IsWithin (err bound theory : Double) : Type 0 where
  pub in_bound : lt bound err ≡ false
  pub in_theory : lt theory err ≡ false
  pub small : lt err (of_nat 1) ≡ true

abbrev HoldsAt : ℤ → ℤ → ℤ → Type 0
HoldsAt logic s s' =
    IsWithin (tick_error logic s) (tick_bound logic s') (theoretical_bound_of logic)

exact_error : (s s' : ℤ) → HoldsAt (pos 0) s s'
unfolding tick_error decayed_by tick_bound theoretical_bound_of run run_double
exact_error s s' = record { in_bound = refl; in_theory = refl; small = refl }

bsa_error : (s s' : ℤ) → HoldsAt (pos 1) s s'
unfolding tick_error decayed_by tick_bound theoretical_bound_of run run_double
bsa_error s s' = record { in_bound = refl; in_theory = refl; small = refl }

clti_error : (s s' : ℤ) → HoldsAt (pos 2) s s'
unfolding tick_error decayed_by tick_bound theoretical_bound_of run run_double
clti_error s s' = record { in_bound = refl; in_theory = refl; small = refl }

-- From one state, whatever the state after the tick.
abbrev FromState : ℤ → Type 0
FromState s =
    HoldsAt (pos 3) s apaf_tight × HoldsAt (pos 3) s apaf_medium × HoldsAt (pos 3) s apaf_loose

from_tight : FromState apaf_tight
unfolding tick_error decayed_by tick_bound theoretical_bound_of run run_double
from_tight = (
  record { in_bound = refl; in_theory = refl; small = refl },
  record { in_bound = refl; in_theory = refl; small = refl },
  record { in_bound = refl; in_theory = refl; small = refl },
)

from_medium : FromState apaf_medium
unfolding tick_error decayed_by tick_bound theoretical_bound_of run run_double
from_medium = (
  record { in_bound = refl; in_theory = refl; small = refl },
  record { in_bound = refl; in_theory = refl; small = refl },
  record { in_bound = refl; in_theory = refl; small = refl },
)

from_loose : FromState apaf_loose
unfolding tick_error decayed_by tick_bound theoretical_bound_of run run_double
from_loose = (
  record { in_bound = refl; in_theory = refl; small = refl },
  record { in_bound = refl; in_theory = refl; small = refl },
  record { in_bound = refl; in_theory = refl; small = refl },
)

from_state : (s : ℤ) → IsState s → FromState s
from_state s (inl e) = subst FromState (sym e) from_tight
from_state s (inr (inl e)) = subst FromState (sym e) from_medium
from_state s (inr (inr e)) = subst FromState (sym e) from_loose

apaf_error : (s s' : ℤ) → IsState s → IsState s' → HoldsAt (pos 3) s s'
apaf_error s s' h (inl e) = subst (HoldsAt (pos 3) s) (sym e) (from_state s h).0
apaf_error s s' h (inr (inl e)) = subst (HoldsAt (pos 3) s) (sym e) (from_state s h).1
apaf_error s s' h (inr (inr e)) = subst (HoldsAt (pos 3) s) (sym e) (from_state s h).2

-- Any other number stands for the exact scheduler.
other_error :
    (logic s s' : ℤ)
    → (logic ==ℤ pos 1) ≡ false
    → (logic ==ℤ pos 2) ≡ false
    → (logic ==ℤ pos 3) ≡ false
    → HoldsAt logic s s'
unfolding tick_error decayed_by tick_bound theoretical_bound_of
other_error logic s s' e1 e2 e3 = rw (e1, e2, e3) (exact_error s s')

-- Whatever the scheduler, and the states before and after the tick.
pub tick_error-IsWithin :
    (logic s s' : ℤ)
    → IsState s
    → IsState s'
    → IsWithin (tick_error logic s) (tick_bound logic s') (theoretical_bound_of logic)
tick_error-IsWithin logic s s' h h' = elim (Bool-cases (logic ==ℤ pos 1)) [
  | inl e ↦ subst (λ l. HoldsAt l s s') (sym ((==ℤ_iff logic (pos 1)).0 e)) (bsa_error s s')
  | inr e1 ↦ elim (Bool-cases (logic ==ℤ pos 2)) [
    | inl e ↦ subst (λ l. HoldsAt l s s') (sym ((==ℤ_iff logic (pos 2)).0 e)) (clti_error s s')
    | inr e2 ↦ elim (Bool-cases (logic ==ℤ pos 3)) [
      | inl e ↦
          subst (λ l. HoldsAt l s s') (sym ((==ℤ_iff logic (pos 3)).0 e)) (apaf_error s s' h h')
      | inr e3 ↦ other_error logic s s' e1 e2 e3
    ]
  ]
]
