-- ===== src/Spike/Totals.antt =====
-- Experiment 3: every round is counted once, for its phase.
use native.Mathlib.Nat.{add-zero}
use approximation_computing.Common.{
  ℕ, zero, suc, ◌+◌, ◌-◌, ◌≤◌, ◌<◌, ◌≡◌, inl, inr, refl, ap, ◌∙◌, arith, true, not, ◌&&◌, ltb_ℤ,
  ◌==ℤ◌, Bool-cases, ◌==◌, ℤ, pos_part, length, length-modify, modify, map, All, All-modify,
}
use approximation_computing.Task.{apaf_tight, apaf_loose}
use approximation_computing.Fairness.Controller.{IsState}
use approximation_computing.Spike.{
  Spike, phase1_end, phase2_end, total_ticks, update_phase, change_phase, log_transition,
  record_phase, snapshot, tick_both, spike_step, spike_loop, start_spike,
}
use approximation_computing.Spike.Log.{phase_at, IsSteady, change_phase-IsFlagged}
use approximation_computing.Spike.Transitions.{tick-IsSteady, spike_step-IsSteady, start-IsSteady}
use approximation_computing.Spike.Counts.{
  total, total-modify, map-modify, All-always, rounds_at, rounds_at-next, span, spans_at,
  current_span, spans_at-next,
}

-- Before round `i`.
pub record IsCounted (i : ℕ) (s : Spike) : Type 0 where
  pub rows : All (λ r. length r ≡ 3) s.state_counts
  pub counts : map total s.state_counts ≡ rounds_at i
  pub spans : map span s.phases ≡ spans_at i

-- The summary and the counters are left alone.
record IsUnrecorded (s s' : Spike) : Type 0 where
  counts : s'.state_counts ≡ s.state_counts
  phases : s'.phases ≡ s.phases

change_phase-IsUnrecorded : (i : ℕ) (s : Spike) → IsUnrecorded s (change_phase i s)
unfolding change_phase
change_phase-IsUnrecorded i s = elim (Bool-cases (i == phase1_end)) [
  | inl e ↦ rw e (record { counts = refl; phases = refl })
  | inr e1 ↦ elim (Bool-cases (i == phase2_end)) [
    | inl e ↦ rw (e1, e) (record { counts = refl; phases = refl })
    | inr e2 ↦ rw (e1, e2) (record { counts = refl; phases = refl })
  ]
]

log_transition-IsUnrecorded : (i : ℕ) (s : Spike) → IsUnrecorded s (log_transition i (tick_both s))
unfolding log_transition tick_both
log_transition-IsUnrecorded i s =
    elim (Bool-cases ((tick_both s).apaf_rq.apaf_state ==ℤ s.prev_apaf_state)) [
      | inl e ↦ rw e (record { counts = refl; phases = refl })
      | inr e ↦ rw e (record { counts = refl; phases = refl })
    ]

valid_state :
    (s : ℤ)
    → IsState s
    → (pos_part s < 3) × ((not (ltb_ℤ s apaf_tight) && not (ltb_ℤ apaf_loose s)) ≡ true)
valid_state s h = (ground arith, ground arith)

record_phase-IsCounted :
    (i : ℕ) (s : Spike)
    → i < total_ticks
    → IsState s.apaf_rq.apaf_state
    → s.current_phase ≡ phase_at i
    → IsCounted i s
    → IsCounted (i + 1) (record_phase i s)
unfolding record_phase update_phase
record_phase-IsCounted i s h state phase k =
    let at = pos_part s.apaf_rq.apaf_state in
    let (below, valid) = valid_state s.apaf_rq.apaf_state state in
    let ph = phase_at i - 1 in
    rw (valid, phase)
      (record {
        rows =
            All-modify (λ r. length r ≡ 3) s.state_counts ph (λ counts. modify counts at suc)
              (λ r e. length-modify r at suc ∙ e) k.rows;
        counts =
            map-modify total (λ r. modify r at suc) suc (λ r. length r ≡ 3)
              (λ r e. total-modify r at (omega arith)) s.state_counts ph k.rows
            ∙ ap (λ l. modify l ph suc) k.counts
            ∙ rounds_at-next i;
        spans =
            map-modify span (update_phase i (phase_at i) s.apaf_rq.jain_index) (λ _. current_span i)
              (λ _. Unit {0}) (λ p _. refl) s.phases ph (All-always s.phases)
            ∙ ap (λ l. modify l ph (λ _. current_span i)) k.spans
            ∙ spans_at-next i h;
      })

spike_step-IsCounted :
    (i : ℕ) (s : Spike)
    → i < total_ticks
    → IsSteady i s
    → IsCounted i s
    → IsCounted (i + 1) (spike_step i s)
unfolding spike_step snapshot
spike_step-IsCounted i s h steady k =
    let flagged = change_phase i s in
    let logged = log_transition i (tick_both flagged) in
    let t = tick-IsSteady i flagged (omega arith) (change_phase-IsFlagged i s steady) in
    let a = change_phase-IsUnrecorded i s in
    let b = log_transition-IsUnrecorded i flagged in
    let back : i + 1 - 1 ≡ i = omega arith in
    let counts = b.counts ∙ a.counts in
    let phases = b.phases ∙ a.phases in
    let c = record_phase-IsCounted i logged h t.state (t.phase ∙ ap phase_at back) (record {
      rows = rw counts k.rows;
      counts = rw counts k.counts;
      spans = rw phases k.spans;
    }) in
    record { rows = c.rows; counts = c.counts; spans = c.spans }

spike_loop-IsCounted :
    (rounds i : ℕ) (s : Spike)
    → i + rounds ≤ total_ticks
    → IsSteady i s
    → IsCounted i s
    → IsCounted (i + rounds) (spike_loop rounds i s)
unfolding spike_loop
spike_loop-IsCounted zero i s h steady k = rw add-zero k
spike_loop-IsCounted (suc rounds) i s h steady k =
    let moved : i + suc rounds ≡ i + 1 + rounds = omega arith in
    rw moved (
      spike_loop-IsCounted rounds (i + 1) (spike_step i s) (omega arith)
        (spike_step-IsSteady i s (omega arith) steady)
        (spike_step-IsCounted i s (omega arith) steady k))

start-IsCounted : IsCounted 0 start_spike
unfolding start_spike
start-IsCounted = record { rows = (refl, (refl, (refl, tt))); counts = refl; spans = refl }

-- When all the rounds are made.
pub all_rounds-IsCounted : IsCounted total_ticks (spike_loop total_ticks 0 start_spike)
all_rounds-IsCounted =
    spike_loop-IsCounted total_ticks 0 start_spike (omega arith) start-IsSteady start-IsCounted
