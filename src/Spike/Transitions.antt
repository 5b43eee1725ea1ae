-- ===== src/Spike/Transitions.antt =====
-- Experiment 3: every round of the loop keeps the log a chain of moves.
use mathlib.Core.Path.{subst}
use native.Mathlib.Nat.{add-zero}
use approximation_computing.Common.{
  ℕ, zero, suc, ◌+◌, ◌-◌, ◌%◌, ◌^◌, ◌≤◌, ◌<◌, ◌≡◌, ◌≢◌, inl, inr, refl, sym, ap, ◌∙◌, arith,
  Bool-cases, if◌then◌else◌, ltb, List, [], ◌∷◌, ◌++◌, ℤ, pos, ◌==ℤ◌, ==ℤ_iff, length,
  length-append,
}
use approximation_computing.Task.{CfsRq, rq_init, rq_tick, apaf_medium}
use approximation_computing.Apaf.{apaf_tick}
use approximation_computing.Fairness.Controller.{IsState, next_state-Move}
use approximation_computing.Ticks.{IsSized}
use approximation_computing.Ticks.Rounds.{apaf_tick-ServesOrIdles}
use approximation_computing.Spike.{
  TransitionEvent, Spike, max_tasks, max_transitions, set_runnable_from, change_phase,
  log_transition, record_phase, snapshot, tick_both, spike_step, spike_loop, spike_tasks,
  initial_tasks, start_spike,
}
use approximation_computing.Spike.Tick.{Controls, apaf_tick-Controls}
use approximation_computing.Spike.Log.{
  phase_at, IsEntry, IsLog, empty, later, entry, IsKept, IsSteady, IsFlagged,
  change_phase-IsFlagged, length-set_runnable_from,
}

-- What the tick of APAF keeps.
record IsTicked (rq rq' : CfsRq) : Type 0 where
  sized : IsSized rq'
  state : IsState rq.apaf_state → IsState rq'.apaf_state
  tick : rq'.tick ≡ (rq.tick + 1) % 2 ^ 64

apaf_tick-IsTicked : (rq : CfsRq) → IsSized rq → IsTicked rq (apaf_tick rq)
unfolding rq_tick
apaf_tick-IsTicked rq sized = elim (apaf_tick-ServesOrIdles rq sized) [
  | inl (nobody, e) ↦ rw e (record { sized = sized; state = λ h. h; tick = refl })
  | inr (k, picked, h) ↦ record { sized = h.sized; state = h.state; tick = h.tick }
]

-- A state that is left is left by a move, at a tick that is asked for.
log_transition-IsEntry :
    (i : ℕ) (s : ℤ) (rq' : CfsRq) (rq : CfsRq) (phase : ℕ)
    → Controls rq rq'
    → rq'.tick ≡ suc i
    → IsState rq.apaf_state
    → s ≡ rq.apaf_state
    → rq'.apaf_state ≢ s
    → phase ≡ phase_at i
    → IsEntry s (record {
      tick = i;
      old_state = s;
      new_state = rq'.apaf_state;
      jain_at_transition = rq'.jain_index;
      phase = phase;
    })
log_transition-IsEntry i s rq' rq phase (inl stays) ticked state followed changed h =
    absurd (changed (stays ∙ sym followed))
log_transition-IsEntry i s rq' rq phase (inr (due, moved)) ticked state followed changed h =
    record {
      from = refl;
      move =
          (next_state-Move s rq'.jain_index rq'.apaf_state (rw followed state)).0
            (rw followed (sym moved));
      changes = changed;
      asked = omega arith;
      in_phase = h;
    }

-- The log after an entry, if there is room.
keep_entry :
    (i : ℕ) (log : List TransitionEvent) (s : ℤ) (e : TransitionEvent)
    → IsKept log s i
    → e.tick ≡ i
    → IsEntry s e
    → IsKept (if ltb (length log) max_transitions then log ++ e ∷ [] else log) e.new_state (suc i)
keep_entry i log s e k at h = elim (Bool-cases (ltb (length log) max_transitions)) [
  | inl room ↦
      let longer = length-append log (e ∷ []) in
      let last_is : k.last ≡ s = elim k.current [
        | inl same ↦ same
        | inr full ↦ absurd (ground arith)
      ] in
      let here : i ≤ e.tick = omega arith in
      let chain = subst (λ q. IsLog log q i) last_is k.chain in
      rw room (record {
        last = e.new_state;
        chain = subst (λ n. IsLog (log ++ e ∷ []) e.new_state (suc n)) at (entry e chain here h);
        bounded = ground arith;
        current = inl refl;
      })
  | inr full ↦
      let most = k.bounded in
      rw full (record {
        last = k.last;
        chain = later k.chain (omega arith);
        bounded = most;
        current = inr (ground arith);
      })
]

-- After the round, but for what is recorded of the phases.
pub tick-IsSteady :
    (i : ℕ) (s : Spike)
    → suc i < 2 ^ 64
    → IsFlagged i s
    → IsSteady (i + 1) (log_transition i (tick_both s))
unfolding log_transition tick_both
tick-IsSteady i s fits h =
    let rq' = apaf_tick s.apaf_rq in
    let t = apaf_tick-IsTicked s.apaf_rq h.sized in
    let now = h.ticked in
    let moves = t.tick in
    let ticked : rq'.tick ≡ suc i = omega arith in
    let next : i + 1 ≡ suc i = omega arith in
    let before : suc i - 1 ≡ i = omega arith in
    rw next (elim (Bool-cases (rq'.apaf_state ==ℤ s.prev_apaf_state)) [
      | inl e ↦ rw e (record {
        sized = t.sized;
        state = t.state h.state;
        ticked = ticked;
        followed = sym ((==ℤ_iff rq'.apaf_state s.prev_apaf_state).0 e);
        phase = rw before h.phase;
        kept = record {
          last = h.kept.last;
          chain = later h.kept.chain (omega arith);
          bounded = h.kept.bounded;
          current = h.kept.current;
        };
      })
      | inr e ↦
          let changed : rq'.apaf_state ≢ s.prev_apaf_state =
            λ same. let yes = (==ℤ_iff rq'.apaf_state s.prev_apaf_state).1 same in cc in
          let event : TransitionEvent = record {
            tick = i;
            old_state = s.prev_apaf_state;
            new_state = rq'.apaf_state;
            jain_at_transition = rq'.jain_index;
            phase = s.current_phase;
          } in
          rw e (record {
            sized = t.sized;
            state = t.state h.state;
            ticked = ticked;
            followed = refl;
            phase = rw before h.phase;
            kept = keep_entry i s.transitions s.prev_apaf_state event h.kept refl (
                log_transition-IsEntry i s.prev_apaf_state rq' s.apaf_rq s.current_phase
                  (apaf_tick-Controls s.apaf_rq) ticked h.state h.followed changed h.phase);
          })
    ])

pub spike_step-IsSteady :
    (i : ℕ) (s : Spike) → suc i < 2 ^ 64 → IsSteady i s → IsSteady (i + 1) (spike_step i s)
unfolding spike_step record_phase snapshot
spike_step-IsSteady i s fits h =
    let k = tick-IsSteady i (change_phase i s) fits (change_phase-IsFlagged i s h) in
    record {
      sized = k.sized;
      state = k.state;
      ticked = k.ticked;
      followed = k.followed;
      phase = k.phase;
      kept = k.kept;
    }

spike_loop-IsSteady :
    (rounds i : ℕ) (s : Spike)
    → i + rounds < 2 ^ 64
    → IsSteady i s
    → IsSteady (i + rounds) (spike_loop rounds i s)
unfolding spike_loop
spike_loop-IsSteady zero i s fits h = rw add-zero h
spike_loop-IsSteady (suc rounds) i s fits h =
    let moved : i + suc rounds ≡ i + 1 + rounds = omega arith in
    rw moved (
      spike_loop-IsSteady rounds (i + 1) (spike_step i s) (omega arith)
        (spike_step-IsSteady i s (omega arith) h))

length-spike_tasks : (n i : ℕ) → length (spike_tasks n i) ≡ n
unfolding spike_tasks
length-spike_tasks zero i = refl
length-spike_tasks (suc n) i = ap suc (length-spike_tasks n (i + 1))

length-initial_tasks : length initial_tasks ≡ max_tasks
unfolding initial_tasks
length-initial_tasks =
    length-set_runnable_from (pos 0) 50 5 (set_runnable_from (pos 1) 5 0 (spike_tasks 55 0))
    ∙ length-set_runnable_from (pos 1) 5 0 (spike_tasks 55 0)
    ∙ length-spike_tasks 55 0

pub start-IsSteady : IsSteady 0 start_spike
unfolding start_spike rq_init
start-IsSteady = record {
  sized = ap pos (sym length-initial_tasks);
  state = inr (inl refl);
  ticked = refl;
  followed = refl;
  phase = refl;
  kept = record { last = apaf_medium; chain = empty; bounded = omega arith; current = inl refl };
}

-- After any number of rounds below 2^64 the log of experiment 3 is a chain that starts in MEDIUM: each
-- entry is a move of the controller, by the index that it shows, from the state where the entry before
-- ended to another one, at a later tick that is 3 modulo 4, and shows the phase of that tick. It has at
-- most 100 entries, and unless it is full it ends in the state that the controller is in.
pub spike_loop-IsKept :
    (rounds : ℕ)
    → rounds < 2 ^ 64
    → let s = spike_loop rounds 0 start_spike in IsKept s.transitions s.apaf_rq.apaf_state rounds
spike_loop-IsKept rounds fits =
    let s = spike_loop rounds 0 start_spike in
    let from : 0 + rounds ≡ rounds = omega arith in
    let h = spike_loop-IsSteady rounds 0 start_spike (omega arith) start-IsSteady in
    subst (IsKept s.transitions s.apaf_rq.apaf_state) from
      (subst (λ q. IsKept s.transitions q (0 + rounds)) h.followed h.kept)
