-- ===== src/Spike/Log.antt =====
-- The log of experiment 3: its entries are moves of the controller, each from where the one before ended.
use approximation_computing.Common.{
  ℕ, zero, suc, ◌+◌, ◌-◌, ◌%◌, ◌≤◌, ◌≡◌, ◌≢◌, ◌⊎◌, inl, inr, refl, sym, ap, ◌∙◌, arith, Bool, true,
  false, Bool-cases, if◌then◌else◌, ltb, ◌==◌, List, [], ◌∷◌, ◌++◌, ℤ, pos, length, length-modify,
  modify,
}
use approximation_computing.Task.{CfsTask, CfsRq, rq_count_running, apaf_medium}
use approximation_computing.Fairness.Controller.{IsState, Move}
use approximation_computing.Ticks.{IsSized}
use approximation_computing.Spike.{
  TransitionEvent, Spike, phase1_end, phase2_end, max_transitions, set_runnable_from, reflag,
  change_phase,
}

-- The phase of a tick.
abbrev pub phase_at : ℕ → ℕ
phase_at i = if ltb i phase1_end then 1 else if ltb i phase2_end then 2 else 3

-- One entry: a move of the controller to another state, at a tick that it is asked at.
pub record IsEntry (s : ℤ) (e : TransitionEvent) : Type 0 where
  pub from : e.old_state ≡ s
  pub move : Move e.old_state e.jain_at_transition e.new_state
  pub changes : e.new_state ≢ e.old_state
  pub asked : e.tick % 4 ≡ 3
  pub in_phase : e.phase ≡ phase_at e.tick

-- A log that starts in MEDIUM, ends in this state, and has all of its entries before this tick.
pub data IsLog : List TransitionEvent → ℤ → ℕ → Type 0 where
  empty : IsLog [] apaf_medium 0
  later : {log : List TransitionEvent} {s : ℤ} {n m : ℕ} → IsLog log s n → n ≤ m → IsLog log s m
  entry :
      {log : List TransitionEvent} {s : ℤ} {n : ℕ} (e : TransitionEvent)
      → IsLog log s n
      → n ≤ e.tick
      → IsEntry s e
      → IsLog (log ++ e ∷ []) e.new_state (suc e.tick)

-- The log has room and ends in the state of the controller, or it is full.
pub record IsKept (log : List TransitionEvent) (state : ℤ) (n : ℕ) : Type 0 where
  pub last : ℤ
  pub chain : IsLog log last n
  pub bounded : length log ≤ max_transitions
  pub current : (last ≡ state) ⊎ (length log ≡ max_transitions)

-- Before round `i`.
pub record IsSteady (i : ℕ) (s : Spike) : Type 0 where
  pub sized : IsSized s.apaf_rq
  pub state : IsState s.apaf_rq.apaf_state
  pub ticked : s.apaf_rq.tick ≡ i
  pub followed : s.prev_apaf_state ≡ s.apaf_rq.apaf_state
  pub phase : s.current_phase ≡ phase_at (i - 1)
  pub kept : IsKept s.transitions s.prev_apaf_state i

-- After the flags of round `i` are set.
pub record IsFlagged (i : ℕ) (s : Spike) : Type 0 where
  pub sized : IsSized s.apaf_rq
  pub state : IsState s.apaf_rq.apaf_state
  pub ticked : s.apaf_rq.tick ≡ i
  pub followed : s.prev_apaf_state ≡ s.apaf_rq.apaf_state
  pub phase : s.current_phase ≡ phase_at i
  pub kept : IsKept s.transitions s.prev_apaf_state i

pub length-set_runnable_from :
    (r : ℤ) (n t : ℕ) (tasks : List CfsTask) → length (set_runnable_from r n t tasks) ≡ length tasks
unfolding set_runnable_from
length-set_runnable_from r zero t tasks = refl
length-set_runnable_from r (suc n) t tasks =
    length-set_runnable_from r n (t + 1) (modify tasks t (λ u. record u { runnable = r }))
    ∙ length-modify tasks t (λ u. record u { runnable = r })

-- The new flags leave the rest of a runqueue alone.
record IsReflagged (rq rq' : CfsRq) : Type 0 where
  sized : IsSized rq → IsSized rq'
  state : rq'.apaf_state ≡ rq.apaf_state
  tick : rq'.tick ≡ rq.tick

either-IsReflagged :
    (b : Bool) (rq : CfsRq) (ts : List CfsTask) (count : ℕ)
    → length ts ≡ length rq.tasks
    → IsReflagged rq
        (if◌then◌else◌ {A = CfsRq × ℕ} b
          (record rq { tasks = ts }, 0)
          (record rq { tasks = ts; nr_running = count }, count)).0
either-IsReflagged true rq ts count e = record {
  sized = λ h. h ∙ ap pos (sym e);
  state = refl;
  tick = refl;
}
either-IsReflagged false rq ts count e = record {
  sized = λ h. h ∙ ap pos (sym e);
  state = refl;
  tick = refl;
}

reflag-IsReflagged : (r : ℤ) (first last : ℕ) (rq : CfsRq) → IsReflagged rq (reflag r first last rq)
unfolding reflag rq_count_running
reflag-IsReflagged r first last rq =
    either-IsReflagged _ rq (set_runnable_from r (last - first) first rq.tasks) _
      (length-set_runnable_from r (last - first) first rq.tasks)

reflagged-IsFlagged :
    (i : ℕ) (s : Spike) (exact_rq rq : CfsRq) (phase : ℕ)
    → IsReflagged s.apaf_rq rq
    → IsSteady i s
    → phase ≡ phase_at i
    → IsFlagged i (record s { exact_rq = exact_rq; apaf_rq = rq; current_phase = phase })
reflagged-IsFlagged i s exact_rq rq phase f h e = record {
  sized = f.sized h.sized;
  state = rw f.state h.state;
  ticked = f.tick ∙ h.ticked;
  followed = h.followed ∙ sym f.state;
  phase = e;
  kept = h.kept;
}

pub change_phase-IsFlagged : (i : ℕ) (s : Spike) → IsSteady i s → IsFlagged i (change_phase i s)
unfolding change_phase
change_phase-IsFlagged i s h = elim (Bool-cases (i == phase1_end)) [
  | inl e ↦
      let at : phase_at i ≡ 2 = ground arith in
      rw e (reflagged-IsFlagged i s _ _ 2 (reflag-IsReflagged _ _ _ s.apaf_rq) h (sym at))
  | inr e1 ↦ elim (Bool-cases (i == phase2_end)) [
    | inl e ↦
        let at : phase_at i ≡ 3 = ground arith in
        rw (e1, e) (reflagged-IsFlagged i s _ _ 3 (reflag-IsReflagged _ _ _ s.apaf_rq) h (sym at))
    | inr e2 ↦
        let p = h.phase in
        rw (e1, e2)
          (record {
            sized = h.sized;
            state = h.state;
            ticked = h.ticked;
            followed = h.followed;
            phase = ground arith;
            kept = h.kept;
          })
  ]
]
