-- ===== src/Experiment/LoadError.antt =====
-- Experiment 1: the load error that a run reports, by a recursion on two numbers. All tasks are of
-- nice value 0 and runnable, so in each lane they all have the same load sum at any time.
pub mod Lane
pub mod Reported
pub mod Bounds
pub mod Enclosed
pub mod ApafBound
use approximation_computing.Common.{
  ℕ, zero, suc, ◌+◌, ◌*◌, ◌/◌, ◌%◌, ltb, if◌then◌else◌, ℤ, pos, ◌==ℤ◌,
}
use approximation_computing.Words.{u64}
use approximation_computing.Double.{Double, lt}
use approximation_computing.Task.{nice_0_load, load_avg_max, apaf_medium, apaf_loose}
use approximation_computing.Exact.{exact_decay_load}
use approximation_computing.Bsa.{bsa_decay_load}
use approximation_computing.Clti.{clti_decay_load}
use approximation_computing.Apaf.{apaf_decay_load}
use approximation_computing.Metrics.{error_pct}

-- The decay of the schedulers 0 to 2.
abbrev pub decay_of : ℤ → ℕ → ℕ → ℕ
decay_of logic =
    if logic ==ℤ pos 1
    then bsa_decay_load
    else if logic ==ℤ pos 2
    then clti_decay_load
    else exact_decay_load

-- The load sum after a tick, and the load average that belongs to a load sum.
abbrev pub next_sum : (ℕ → ℕ → ℕ) → ℕ → ℕ
next_sum decay sum = u64 (decay sum 1 + nice_0_load)

abbrev pub average_of : ℕ → ℕ
average_of sum =
    let avg = u64 (nice_0_load * sum) / load_avg_max in
    if ltb nice_0_load avg then nice_0_load else avg

-- The larger of an error and that of these two load averages.
abbrev pub worse : Double → ℕ → ℕ → Double
worse m approx exact =
    let err = error_pct approx exact in if ltb 0 exact then (if lt m err then err else m) else m

-- The largest error from two load sums on, and `m`.
unfoldable pub worst_from : ℕ → (ℕ → ℕ → ℕ) → ℕ → ℕ → Double → Double
worst_from zero decay exact approx m = m
worst_from (suc ticks) decay exact approx m =
    let exact' = next_sum exact_decay_load exact in
    let approx' = next_sum decay approx in
    let err = worse (pos 0) (average_of approx') (average_of exact') in
    worst_from ticks decay exact' approx' (if lt m err then err else m)

-- The largest error of this many ticks.
abbrev pub worst_error : ℕ → ℤ → Double
worst_error ticks logic = worst_from ticks (decay_of logic) 0 0 (pos 0)

-- The load sum after this many ticks.
unfoldable pub sum_after : ℕ → (ℕ → ℕ → ℕ) → ℕ → ℕ
sum_after zero decay sum = sum
sum_after (suc ticks) decay sum = sum_after ticks decay (next_sum decay sum)

-- The decay of APAF in this state.
abbrev pub apaf_by : ℤ → ℕ → ℕ → ℕ
apaf_by state load periods = apaf_decay_load load periods state

-- APAF decays by one of its three states, of which MEDIUM keeps least of a load and LOOSE most: the
-- largest error of the two sums that enclose APAF's, and `m`.
unfoldable pub enclosed_from : ℕ → ℕ → ℕ → ℕ → Double → Double
enclosed_from zero exact low high m = m
enclosed_from (suc ticks) exact low high m =
    let exact' = next_sum exact_decay_load exact in
    let low' = next_sum (apaf_by apaf_medium) low in
    let high' = next_sum (apaf_by apaf_loose) high in
    let below = worse m (average_of low') (average_of exact') in
    enclosed_from ticks exact' low' high' (worse below (average_of high') (average_of exact'))
