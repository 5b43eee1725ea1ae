-- ===== src/Fairness/Controller.antt =====
-- The APAF controller (`fairness_apaf_next_state`) as a state machine over TIGHT, MEDIUM and LOOSE.
use mathlib.Core.Path.{subst}
use approximation_computing.Common.{
  ◌+◌, ◌*◌, ◌≤◌, ◌<◌, ◌≡◌, ◌↔◌, ◌⊎◌, refl, arith, ℤ, pos_part, neg_part, ◌≤ℤ◌, ◌<ℤ◌,
}
use approximation_computing.Double.{Double, one, run_double}
use approximation_computing.Task.{apaf_tight, apaf_medium, apaf_loose}
use approximation_computing.Fairness.{
  fairness_apaf_next_state, jain_loose_to_medium, jain_medium_to_tight, jain_medium_to_loose,
  jain_tight_to_medium,
}

-- The four thresholds in order, and far enough apart: in thousandths of 1.0, by at least 39 and 49.
pub record IsSpread : Type 0 where
  pub low : (neg_part jain_medium_to_tight ≡ 0) × (neg_part jain_loose_to_medium ≡ 0)
  pub high : (neg_part jain_tight_to_medium ≡ 0) × (neg_part jain_medium_to_loose ≡ 0)
  pub first : pos_part jain_medium_to_tight < pos_part jain_loose_to_medium
  pub second : pos_part jain_loose_to_medium < pos_part jain_tight_to_medium
  pub third : pos_part jain_tight_to_medium < pos_part jain_medium_to_loose
  pub top : pos_part jain_medium_to_loose < one
  pub bottom : 0 < pos_part jain_medium_to_tight
  pub loose_gap :
      1000 * pos_part jain_loose_to_medium + 39 * one ≤ 1000 * pos_part jain_medium_to_loose
  pub tight_gap :
      1000 * pos_part jain_medium_to_tight + 49 * one ≤ 1000 * pos_part jain_tight_to_medium

thresholds : IsSpread
unfolding run_double
thresholds = record {
  low = (refl, refl);
  high = (refl, refl);
  first = omega arith;
  second = omega arith;
  third = omega arith;
  top = omega arith;
  bottom = omega arith;
  loose_gap = omega arith;
  tight_gap = omega arith;
}

abbrev pub IsState : ℤ → Type 0
IsState s = (s ≡ apaf_tight) ⊎ ((s ≡ apaf_medium) ⊎ (s ≡ apaf_loose))

-- The diagram of the controller: the moves between neighbours, each with its threshold, and the
-- three ways to stay.
pub data Move (s : ℤ) (j : Double) (s' : ℤ) : Type 0 where
  relax_tight : s ≡ apaf_tight → jain_tight_to_medium <ℤ j → s' ≡ apaf_medium → Move s j s'
  stay_tight : s ≡ apaf_tight → j ≤ℤ jain_tight_to_medium → s' ≡ apaf_tight → Move s j s'
  tighten_medium : s ≡ apaf_medium → j <ℤ jain_medium_to_tight → s' ≡ apaf_tight → Move s j s'
  relax_medium : s ≡ apaf_medium → jain_medium_to_loose <ℤ j → s' ≡ apaf_loose → Move s j s'
  stay_medium :
      s ≡ apaf_medium
      → jain_medium_to_tight ≤ℤ j
      → j ≤ℤ jain_medium_to_loose
      → s' ≡ apaf_medium
      → Move s j s'
  tighten_loose : s ≡ apaf_loose → j <ℤ jain_loose_to_medium → s' ≡ apaf_medium → Move s j s'
  stay_loose : s ≡ apaf_loose → jain_loose_to_medium ≤ℤ j → s' ≡ apaf_loose → Move s j s'

ruleset moves =
    (relax_tight, stay_tight, tighten_medium, relax_medium, stay_medium, tighten_loose, stay_loose)

next_state_moves : (s : ℤ) (j : Double) → IsState s → Move s j (fairness_apaf_next_state s j)
unfolding fairness_apaf_next_state
next_state_moves s j h = grind (arith, thresholds, moves)

Move-next : {s : ℤ} {j : Double} {s' : ℤ} → Move s j s' → fairness_apaf_next_state s j ≡ s'
unfolding fairness_apaf_next_state
Move-next (relax_tight a b c) = ground (arith, thresholds)
Move-next (stay_tight a b c) = ground (arith, thresholds)
Move-next (tighten_medium a b c) = ground (arith, thresholds)
Move-next (relax_medium a b c) = ground (arith, thresholds)
Move-next (stay_medium a b d c) = ground (arith, thresholds)
Move-next (tighten_loose a b c) = ground (arith, thresholds)
Move-next (stay_loose a b c) = ground (arith, thresholds)

pub next_state-Move :
    (s : ℤ) (j : Double) (s' : ℤ) → IsState s → (fairness_apaf_next_state s j ≡ s') ↔ Move s j s'
next_state-Move s j s' h = (λ e. subst (Move s j) e (next_state_moves s j h), Move-next)

-- A move ends in a state that is the old one or its neighbour: no level is skipped.
pub next-IsState :
    (s : ℤ) (j : Double)
    → IsState s
    → let s' = fairness_apaf_next_state s j in
      IsState s' × (pos_part s' ≤ pos_part s + 1) × (pos_part s ≤ pos_part s' + 1)
unfolding fairness_apaf_next_state
next-IsState s j h = ground arith

-- Held at one index, the controller comes to rest after at most two rounds, from whatever state.
pub next_state-settles :
    (s : ℤ) (j : Double)
    → let next = λ (q : ℤ). fairness_apaf_next_state q j in next (next (next s)) ≡ next (next s)
unfolding fairness_apaf_next_state
next_state-settles s j = ground (arith, thresholds)
