-- ===== src/ErrorBound/Report.antt =====
-- Experiment 4: what a run reports.
use mathlib.Core.Path.{subst}
use native.Mathlib.Nat.{add-zero}
use approximation_computing.Common.{
  ℕ, zero, suc, ◌+◌, ◌≡◌, inl, inr, refl, sym, ◌∙◌, arith, true, false, Bool-cases, if◌then◌else◌,
  List, [], ◌∷◌, ℤ, pos, ◌==ℤ◌, ◌≤ℤ◌, ==ℤ_iff, length, length-append, get_or, ◌/◌,
}
use approximation_computing.Double.{Double, lt, run_double}
use approximation_computing.Task.{CfsRq, rq_init}
use approximation_computing.Exact.{exact_tick}
use approximation_computing.Metrics.{Metrics, metrics_record}
use approximation_computing.Ticks.Reachable.{
  rq_init-Reachable, specs_by, specs_by_unique, length-specs_by, Reachable, exact,
  Reachable-IsValid,
}
use approximation_computing.Experiment.{tick_of}
use approximation_computing.Experiment.Lockstep.{tick_of-Reachable}
use approximation_computing.ErrorBound.{
  exp4_n_tasks, exp4_ticks, ErrorResult, Violation, nice_values, graded_tasks, tick_error,
  tick_bound, measured_tick, Tally, tally_violation, log_violation, tally_extremes, tally_range,
  tally_state, Measured, measured_step, measured_loop, start_measured, theoretical_bound_of,
  result_of, run_exp4,
}
use approximation_computing.ErrorBound.Within.{IsWithin, tick_error-IsWithin}

graded-Reachable :
    (mode : ℤ) → Reachable 0 (rq_init (graded_tasks exp4_n_tasks 0) (pos exp4_n_tasks) mode)
unfolding graded_tasks
graded-Reachable mode =
    let nice = λ (i : ℕ). get_or nice_values (i / 5) (pos 0) in
    rq_init-Reachable (specs_by nice exp4_n_tasks 0) exp4_n_tasks (graded_tasks exp4_n_tasks 0) mode
      (length-specs_by nice exp4_n_tasks 0)
      (specs_by_unique nice graded_tasks (λ i. refl) (λ m i. refl) exp4_n_tasks 0)

measured_tick_lem : (logic : ℤ) (rq : CfsRq) → measured_tick logic rq ≡ tick_of logic rq
unfolding measured_tick tick_of
measured_tick_lem logic rq = elim (Bool-cases (logic ==ℤ pos 0)) [
  | inl e ↦ subst (λ l. measured_tick l rq ≡ tick_of l rq) (sym ((==ℤ_iff logic (pos 0)).0 e)) refl
  | inr e ↦ rw e refl
]

-- The counters after `i` ticks that are all below 1% and within their bounds.
record IsClear (logic : ℤ) (i : ℕ) (c : Tally) : Type 0 where
  violations : c.n_violations ≡ 0
  first : c.first_violation ≡ 0
  all_small : c.under1 ≡ i
  no_others : (c.b1to3 ≡ 0) × (c.b3to5 ≡ 0) × (c.over5 ≡ 0)
  greatest : lt (theoretical_bound_of logic) c.max_err ≡ false
  states : c.tight_count + (c.med_count + c.loose_count) ≡ (if logic ==ℤ pos 3 then i else 0)

module _ (logic : ℤ) (i : ℕ) (err bound : Double) (s : ℤ)
    (w : IsWithin err bound (theoretical_bound_of logic)) where
  seen-IsClear :
      (c : Tally)
      → IsClear logic i c
      → IsClear logic i (tally_extremes err (tally_violation i err bound c))
  unfolding tally_extremes tally_violation
  seen-IsClear c h = rw w.in_bound (record {
    violations = h.violations;
    first = h.first;
    all_small = h.all_small;
    no_others = h.no_others;
    greatest = elim (Bool-cases (lt c.max_err err)) [
      | inl e ↦ rw e w.in_theory
      | inr e ↦ rw e h.greatest
    ];
    states = h.states;
  })

  counted-IsClear :
      (c : Tally)
      → IsClear logic i c
      → IsClear logic (suc i) (tally_state logic s (tally_range err c))
  unfolding tally_range tally_state
  counted-IsClear c h =
      let v = h.violations in
      let f = h.first in
      let a = h.all_small in
      let o = h.no_others in
      let g = h.greatest in
      let t = h.states in
      rw w.small (record {
        violations = ground arith;
        first = ground arith;
        all_small = ground arith;
        no_others = (ground arith, ground arith, ground arith);
        greatest = ground arith;
        states = ground arith;
      })

  log_violation-IsClear : (log : List Violation) → log_violation logic i err bound log ≡ log
  unfolding log_violation
  log_violation-IsClear log = rw w.in_bound refl

-- After `i` ticks of a run that began with this log.
record IsOnTrack (logic : ℤ) (log : List Violation) (i : ℕ) (s : Measured) : Type 0 where
  exact_lane : Reachable i s.exact_rq
  approx_lane : Reachable i s.approx_rq
  recorded : length s.entries ≡ i
  clear : IsClear logic i s.tally
  same_log : s.log ≡ log

measured_step-IsOnTrack :
    (logic : ℤ) (log : List Violation) (i : ℕ) (s : Measured)
    → IsOnTrack logic log i s
    → IsOnTrack logic log (i + 1) (measured_step logic i s)
unfolding measured_step
measured_step-IsOnTrack logic log i s h =
    let rq : CfsRq = measured_tick logic s.approx_rq in
    let entry : Metrics = metrics_record rq (exact_tick s.exact_rq) in
    let err = tick_error logic s.approx_rq.apaf_state in
    let bound = tick_bound logic rq.apaf_state in
    let reached : Reachable (suc i) rq =
      subst (Reachable (suc i)) (sym (measured_tick_lem logic s.approx_rq))
        (tick_of-Reachable logic i s.approx_rq h.approx_lane) in
    let w =
      tick_error-IsWithin logic s.approx_rq.apaf_state rq.apaf_state
        (Reachable-IsValid i s.approx_rq h.approx_lane).state
        (Reachable-IsValid (suc i) rq reached).state in
    let next : i + 1 ≡ suc i = omega arith in
    rw next (record {
      exact_lane = exact h.exact_lane;
      approx_lane = reached;
      recorded = length-append s.entries (entry ∷ []) ∙ omega (arith, h.recorded);
      clear =
          counted-IsClear logic i err bound rq.apaf_state w _
            (seen-IsClear logic i err bound rq.apaf_state w s.tally h.clear);
      same_log = log_violation-IsClear logic i err bound rq.apaf_state w s.log ∙ h.same_log;
    })

measured_loop-IsOnTrack :
    (rounds : ℕ) (logic : ℤ) (log : List Violation) (i : ℕ) (s : Measured)
    → IsOnTrack logic log i s
    → IsOnTrack logic log (i + rounds) (measured_loop rounds logic i s)
unfolding measured_loop
measured_loop-IsOnTrack zero logic log i s h = rw add-zero h
measured_loop-IsOnTrack (suc rounds) logic log i s h =
    let moved : i + suc rounds ≡ i + 1 + rounds = omega arith in
    rw moved (
      measured_loop-IsOnTrack rounds logic log (i + 1) (measured_step logic i s)
        (measured_step-IsOnTrack logic log i s h))

theory_lem : (logic : ℤ) → lt (theoretical_bound_of logic) (pos 0) ≡ false
unfolding theoretical_bound_of run_double
theory_lem logic = elim (Bool-cases (logic ==ℤ pos 1)) [
  | inl e ↦ rw e refl
  | inr e1 ↦ elim (Bool-cases (logic ==ℤ pos 2)) [
    | inl e ↦ rw (e1, e) refl
    | inr e2 ↦ rw (e1, e2) refl
  ]
]

start-IsOnTrack :
    (logic : ℤ) (log : List Violation) → IsOnTrack logic log 0 (start_measured logic log)
unfolding start_measured rq_init
start-IsOnTrack logic log =
    let none_yet : (if logic ==ℤ pos 3 then 0 else 0) ≡ 0 = ground arith in
    record {
      exact_lane = graded-Reachable (pos 0);
      approx_lane = graded-Reachable logic;
      recorded = refl;
      clear = record {
        violations = refl;
        first = refl;
        all_small = refl;
        no_others = (refl, refl, refl);
        greatest = theory_lem logic;
        states = sym none_yet;
      };
      same_log = refl;
    }

-- What a run reports when nothing goes wrong, over all of its ticks.
pub record IsVerified (r : ErrorResult) : Type 0 where
  pub verified : r.bound_verified ≡ true
  pub violations : r.n_violations ≡ 0
  pub greatest : r.max_error_ever ≤ℤ r.theoretical_bound
  pub all_small : r.ticks_under_1pct ≡ exp4_ticks
  pub no_others : (r.ticks_1_to_3pct ≡ 0) × (r.ticks_3_to_5pct ≡ 0) × (r.ticks_over_5pct ≡ 0)
  pub states :
      r.ticks_in_tight + (r.ticks_in_medium + r.ticks_in_loose)
      ≡ (if r.logic ==ℤ pos 3 then exp4_ticks else 0)

not-lt : (a b : Double) → lt a b ≡ false → b ≤ℤ a
not-lt a b h = ground arith

-- Under every scheduler a run whose allocations succeed finds no violation and logs none: the error of
-- each of the 1000 ticks is below 1%, the greatest of them within the theoretical bound of the
-- scheduler, and for APAF the ticks in the three states add up to 1000.
pub run_exp4-IsVerified :
    (logic : ℤ) (log : List Violation)
    → IsVerified (run_exp4 true logic log).0 × ((run_exp4 true logic log).1 ≡ log)
unfolding run_exp4 result_of
run_exp4-IsVerified logic log =
    let c = (measured_loop exp4_ticks logic 0 (start_measured logic log)).tally in
    let h : IsOnTrack logic log exp4_ticks
        (measured_loop exp4_ticks logic 0 (start_measured logic log)) =
      measured_loop-IsOnTrack exp4_ticks logic log 0 (start_measured logic log)
        (start-IsOnTrack logic log) in
    let k = h.clear in
    (
      record {
        verified = rw k.violations refl;
        violations = k.violations;
        greatest = not-lt (theoretical_bound_of logic) c.max_err k.greatest;
        all_small = k.all_small;
        no_others = k.no_others;
        states = k.states;
      },
      h.same_log,
    )
