-- ===== src/Bsa/Decay.antt =====
-- `bsa_decay_load`: bounds, and the loads that it never brings to zero.
use native.Mathlib.Nat.{div-le_self}
use approximation_computing.Common.{
  ℕ, zero, suc, ◌-◌, ◌/◌, ◌%◌, ◌^◌, ◌≤◌, ◌<◌, ◌≡◌, refl, arith, le_trans, le_refl,
}
use approximation_computing.Exact.{exact_decay_load}
use approximation_computing.Exact.Decay.{exact_decay_load-one}
use approximation_computing.Bsa.{bsa_decay_loop, bsa_decay_load}

bsa_decay_loop-le : (n load : ℕ) → bsa_decay_loop n load ≤ load
unfolding bsa_decay_loop
bsa_decay_loop-le zero load = le_refl load
bsa_decay_loop-le (suc n) load = le_trans (bsa_decay_loop-le n (load - load / 32)) (omega arith)

-- Decay never raises a load.
pub bsa_decay_load-le : (load n : ℕ) → bsa_decay_load load n ≤ load
unfolding bsa_decay_load
bsa_decay_load-le load n =
    ground
      (arith, bsa_decay_loop-le (n % 32) (load / 2 ^ (n / 32)), div-le_self load (2 ^ (n / 32)))

-- One period takes a 32nd part away, rounded down.
pub bsa_decay_load-one : (load : ℕ) → bsa_decay_load load 1 ≡ load - load / 32
unfolding bsa_decay_load bsa_decay_loop
bsa_decay_load-one load = ground arith

-- The load after `n` single periods.
abbrev pub after : (ℕ → ℕ → ℕ) → ℕ → ℕ → ℕ
after decay zero load = load
after decay (suc n) load = after decay n (decay load 1)

-- A load below 32 stays as it is, however many periods pass one by one.
bsa_stuck : (n load : ℕ) → load < 32 → after bsa_decay_load n load ≡ load
bsa_stuck zero load h = refl
bsa_stuck (suc n) load h =
    let same : load - load / 32 ≡ load = omega arith in
    rw (bsa_decay_load-one load, same) (bsa_stuck n load h)

exact_runs_out : (n load : ℕ) → load < 32 → load ≤ n → after exact_decay_load n load ≡ 0
exact_runs_out zero load fits h = omega arith
exact_runs_out (suc n) load fits h =
    let one = exact_decay_load-one load (omega arith) in
    exact_runs_out n (exact_decay_load load 1) (omega arith) (omega arith)

-- A load below 32 that decays one period at a time is gone after as many periods as its size in the exact
-- scheduler, and never gets smaller in BSA.
pub bsa_decay_load-stuck :
    (load n : ℕ)
    → load < 32
    → load ≤ n
    → (after exact_decay_load n load ≡ 0) × (after bsa_decay_load n load ≡ load)
bsa_decay_load-stuck load n fits h = (exact_runs_out n load fits h, bsa_stuck n load fits)
