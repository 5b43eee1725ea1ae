-- ===== src/Experiment/LoadError/Enclosed.antt =====
-- Experiment 1 under APAF: in whatever states the controller is, the load sums lie between those that
-- decay in MEDIUM and those that decay in LOOSE, and so does the error.
use approximation_computing.Common.{
  ℕ, suc, ◌*◌, ◌/◌, ◌^◌, ◌≤◌, ◌<◌, ◌⊎◌, inl, inr, refl, arith, ltb, if◌then◌else◌, ℤ, pos, ◌≤ℤ◌,
  All, Bool-cases, ltb→lt,
}
use approximation_computing.Double.{Double, lt}
use approximation_computing.Task.{CfsRq, tick_ns, apaf_medium, apaf_loose}
use approximation_computing.Exact.{exact_decay_load, exact_tick}
use approximation_computing.Fairness.Controller.{IsState}
use approximation_computing.Apaf.{apaf_tick}
use approximation_computing.Apaf.Mono.{medium-le-decay, decay-le-loose}
use approximation_computing.Metrics.{Metrics, error_pct, metrics_record}
use approximation_computing.Metrics.ErrorPct.{error_pct-between}
use approximation_computing.Ticks.{apaf_delta, apaf_decay}
use approximation_computing.Ticks.Loads.{apaf_decay_load-IsDecay}
use approximation_computing.Ticks.Rounds.{apaf_tick-ServesOrIdles}
use approximation_computing.Experiment.{
  Lanes, no_totals, totals_step, totals_loop, tick_of, lockstep,
}
use approximation_computing.Experiment.Busy.{IsBusy, tick_of-IsBusy}
use approximation_computing.Experiment.LoadError.{next_sum, average_of, worse, apaf_by}
use approximation_computing.Experiment.LoadError.Lane.{
  IsAt, Shows-IsAt, served-Shows, serves, tick_of-Shows,
}
use approximation_computing.Experiment.LoadError.Reported.{totals_append, busy-picks, entry-worst}

average_of-le : (sum : ℕ) → average_of sum ≤ 1024
average_of-le sum = ground arith

average_of_mono : (a b : ℕ) → a ≤ b → b ≤ 65536 → average_of a ≤ average_of b
average_of_mono a b h fits =
    let plain : 1024 * a / 47742 ≤ 1024 * b / 47742 = omega arith in ground arith

-- A tick of each of the three sums keeps their order.
next_sum-enclosed :
    (s : ℤ) (low sum high : ℕ)
    → IsState s
    → low ≤ sum
    → sum ≤ high
    → high ≤ 65536
    → (next_sum (apaf_by apaf_medium) low ≤ next_sum (apaf_by s) sum)
      × (next_sum (apaf_by s) sum ≤ next_sum (apaf_by apaf_loose) high)
      × (next_sum (apaf_by apaf_loose) high ≤ 65536)
next_sum-enclosed s low sum high state h k fits =
    let below = medium-le-decay low sum s state h (omega arith) in
    let above = decay-le-loose sum high s state k (omega arith) in
    let room =
      (apaf_decay_load-IsDecay apaf_loose (inr (inr refl))).makes_room 1024 high (omega arith)
        (omega arith) (omega arith) in
    (omega arith, omega arith, omega arith)

-- The larger of an error so far and that of a tick, against the enclosing ones.
step-enclosed :
    (old m : Double) (low a high exact : ℕ)
    → low ≤ a
    → a ≤ high
    → high ≤ 1024
    → exact ≤ 1024
    → old ≤ℤ m
    → pos 0 ≤ℤ m
    → let err = worse (pos 0) a exact in
      let m' = worse (worse m low exact) high exact in
      ((if lt old err then err else old) ≤ℤ m') × (pos 0 ≤ℤ m')
step-enclosed old m low a high exact h k fits fits' below nonneg = elim (Bool-cases (ltb 0 exact)) [
  | inr none_exact ↦ rw none_exact (ground arith)
  | inl some_exact ↦
      let between =
        error_pct-between low a high exact h k (omega arith) (omega arith)
          (ltb→lt _ _ some_exact) in
      rw some_exact (
        ordered old m (error_pct low exact) (error_pct a exact) (error_pct high exact) between below
          nonneg)
]
  where
    ordered :
        (old m l x u : Double)
        → (x ≤ℤ l) ⊎ (x ≤ℤ u)
        → old ≤ℤ m
        → pos 0 ≤ℤ m
        → let err = if lt (pos 0) x then x else pos 0 in
          let ml = if lt m l then l else m in
          let mu = if lt ml u then u else ml in
          ((if lt old err then err else old) ≤ℤ mu) × (pos 0 ≤ℤ mu)
    ordered old m l x u b p q = ground arith

-- After `k` ticks, with this load sum in the exact lane, APAF's between two others, and no error above
-- this one so far.
pub record IsEnclosed (n k exact low high : ℕ) (m : Double) (s : Lanes) : Type 0 where
  pub exact_lane : IsBusy n k (pos 0) s.exact_rq
  pub approx_lane : IsBusy n k (pos 3) s.approx_rq
  pub exact_load : All (IsAt exact) s.exact_rq.tasks
  pub sum : ℕ
  pub approx_load : All (IsAt sum) s.approx_rq.tasks
  pub above_low : low ≤ sum
  pub below_high : sum ≤ high
  pub capped : high ≤ 65536
  pub state : IsState s.approx_rq.apaf_state
  pub worst : (totals_loop s.entries no_totals).max_err ≤ℤ m
  pub nonnegative : pos 0 ≤ℤ m

abbrev pub StepOf : (n k exact low high : ℕ) → Double → Lanes → Type 0
StepOf n k exact low high m s =
    let exact' = next_sum exact_decay_load exact in
    let low' = next_sum (apaf_by apaf_medium) low in
    let high' = next_sum (apaf_by apaf_loose) high in
    let below = worse m (average_of low') (average_of exact') in
    IsEnclosed n (suc k) exact' low' high' (worse below (average_of high') (average_of exact'))
      (lockstep (pos 3) s)

pub lockstep-IsEnclosed :
    (n k exact low high : ℕ) (m : Double) (s : Lanes)
    → 0 < n
    → suc k * tick_ns < 2 ^ 64
    → IsEnclosed n k exact low high m s
    → StepOf n k exact low high m s
unfolding lockstep totals_step tick_of
lockstep-IsEnclosed n k exact low high m s some_task fits h =
    let rq : CfsRq = apaf_tick s.approx_rq in
    let exact_rq : CfsRq = exact_tick s.exact_rq in
    let entry : Metrics = metrics_record rq exact_rq in
    let mode = s.approx_rq.apaf_state in
    let exact' = next_sum exact_decay_load exact in
    let sum' = next_sum (apaf_by mode) h.sum in
    let b = (tick_of-IsBusy n k (pos 3) (pos 3) s.approx_rq some_task fits h.approx_lane).0 in
    let c = (tick_of-IsBusy n k (pos 0) (pos 0) s.exact_rq some_task fits h.exact_lane).0 in
    let served =
      serves (apaf_delta mode) (apaf_decay mode) s.approx_rq rq
        (busy-picks n k (pos 3) s.approx_rq some_task h.approx_lane)
        (apaf_tick-ServesOrIdles s.approx_rq h.approx_lane.sized) in
    let shown =
      served-Shows (apaf_delta mode) (apaf_decay mode) h.sum s.approx_rq rq served h.approx_load in
    let shown' =
      tick_of-Shows (pos 0) exact s.exact_rq (inl refl) h.exact_lane.sized
        (busy-picks n k (pos 0) s.exact_rq some_task h.exact_lane) h.exact_load in
    let (above, below, room) =
      next_sum-enclosed mode low h.sum high h.state h.above_low h.below_high h.capped in
    let err = entry-worst n (suc k) (pos 3) exact' sum' rq exact_rq some_task b c shown shown' in
    let (worst, nonneg) =
      step-enclosed (totals_loop s.entries no_totals).max_err m _ (average_of sum') _
        (average_of exact') (average_of_mono _ sum' above (omega arith))
        (average_of_mono sum' _ below room) (average_of-le _) (average_of-le exact') h.worst
        h.nonnegative in
    record {
      exact_lane = c;
      approx_lane = b;
      exact_load = Shows-IsAt exact' exact_rq.tasks shown';
      sum = sum';
      approx_load = Shows-IsAt sum' rq.tasks shown;
      above_low = above;
      below_high = below;
      capped = room;
      state = served.state h.state;
      worst = rw (totals_append s.entries entry no_totals, err) worst;
      nonnegative = nonneg;
    }
