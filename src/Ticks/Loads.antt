-- ===== src/Ticks/Loads.antt =====
-- Each of the four decay functions keeps the laws that the load averages need.
use approximation_computing.Common.{ℕ, ◌+◌, ◌*◌, ◌≤◌, arith, ℤ}
use approximation_computing.Logic.Loads.{IsDecay, load_cap, max_weight, min_weight}
use approximation_computing.Exact.{exact_decay_load}
use approximation_computing.Exact.Decay.{exact_decay_load-le, exact_decay_load-one}
use approximation_computing.Bsa.{bsa_decay_load}
use approximation_computing.Bsa.Decay.{bsa_decay_load-le, bsa_decay_load-one}
use approximation_computing.Clti.{clti_decay_load}
use approximation_computing.Clti.Interpolate.{clti_decay_load-le, clti_decay_load-one}
use approximation_computing.Fairness.Controller.{IsState}
use approximation_computing.Apaf.Decay.{apaf_decay_load-le, apaf_decay_load-one}
use approximation_computing.Apaf.{apaf_decay_load}
use approximation_computing.Ticks.{apaf_decay}

pub exact_decay_load-IsDecay : IsDecay exact_decay_load
exact_decay_load-IsDecay = record {
  shrinks = λ load h. exact_decay_load-le load 1 (omega arith);
  makes_room = λ w load low high h. rw (exact_decay_load-one load (omega arith)) (omega arith);
}

pub bsa_decay_load-IsDecay : IsDecay bsa_decay_load
bsa_decay_load-IsDecay = record {
  shrinks = λ load h. bsa_decay_load-le load 1;
  makes_room = λ w load low high h. rw (bsa_decay_load-one load) (omega arith);
}

pub clti_decay_load-IsDecay : IsDecay clti_decay_load
clti_decay_load-IsDecay = record {
  shrinks = λ load h. clti_decay_load-le load 1 (omega arith);
  makes_room = λ w load low high h. rw (clti_decay_load-one load (omega arith)) (omega arith);
}

apaf_room :
    (s : ℤ) (w load : ℕ)
    → IsState s
    → min_weight ≤ w
    → w ≤ max_weight
    → load ≤ load_cap * w
    → apaf_decay_load load 1 s + w ≤ load_cap * w
apaf_room s w load state low high h = omega (arith, apaf_decay_load-one load s state (omega arith))

pub apaf_decay_load-IsDecay : (s : ℤ) → IsState s → IsDecay (apaf_decay s)
apaf_decay_load-IsDecay s state = record {
  shrinks = λ load h. apaf_decay_load-le load 1 s state (omega arith);
  makes_room = λ w load low high h. apaf_room s w load state low high h;
}
