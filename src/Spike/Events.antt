-- ===== src/Spike/Events.antt =====
-- Experiment 3: what the loop over the log counts and finds.
use mathlib.Core.Option.{some-injective}
use approximation_computing.Common.{
  ℕ, suc, ◌+◌, ◌-◌, ◌%◌, ◌≤◌, ◌<◌, ◌≡◌, ◌⊎◌, inl, inr, refl, sym, ap, ◌∙◌, arith, Bool, true, false,
  ◌&&◌, Bool-cases, if◌then◌else◌, ltb, leb, leb→le, Option, none, some, List, [], ◌∷◌, ℤ, length,
  map, All, All-append, length-map,
}
use approximation_computing.Spike.{TransitionEvent, PhaseSummary, phase1_end, phase2_end}
use approximation_computing.Spike.Log.{IsLog, empty, later, entry, IsEntry}
use approximation_computing.Spike.Counts.{total, total-modify, map-modify, All-always}
use approximation_computing.Spike.Summary.{Reaction, count_transition, event_step, event_loop}
use approximation_computing.Spike.Reaction.{count_transition-same, add_transition}

-- An entry counts for one of the phases, and comes when the controller is asked.
pub record IsUsable (e : TransitionEvent) : Type 0 where
  pub first : 0 < e.phase
  pub last : e.phase ≤ 3
  pub asked : e.tick % 4 ≡ 3

entry-IsUsable : (s : ℤ) (e : TransitionEvent) → IsEntry s e → IsUsable e
entry-IsUsable s e h =
    let p = h.in_phase in record { first = ground arith; last = ground arith; asked = h.asked }

pub log-IsUsable : (log : List TransitionEvent) (s : ℤ) (n : ℕ) → IsLog log s n → All IsUsable log
log-IsUsable _ _ _ empty = tt
log-IsUsable _ _ _ (later {log = log} {s = s} {n = n} h le) = log-IsUsable log s n h
log-IsUsable _ _ _ (entry {log = log} {s = s} {n = n} e h le k) =
    All-append IsUsable log e (log-IsUsable log s n h) (entry-IsUsable s e k)

abbrev all_counted : List PhaseSummary → ℕ
all_counted ps = total (map (λ p. p.n_transitions) ps)

count_transition-one :
    (phase : ℕ) (ps : List PhaseSummary)
    → length ps ≡ 3
    → 0 < phase
    → phase ≤ 3
    → all_counted (count_transition phase ps) ≡ suc (all_counted ps)
unfolding count_transition
count_transition-one phase ps h low high =
    let inside : (ltb 0 phase && ltb (phase - 1) 3) ≡ true = ground arith in
    let counts = map (λ (p : PhaseSummary). p.n_transitions) ps in
    let many = length-map (λ (p : PhaseSummary). p.n_transitions) ps in
    rw inside (
      ap total (
        map-modify (λ p. p.n_transitions) add_transition suc (λ _. Unit {0}) (λ p _. omega arith) ps
          (phase - 1) (All-always ps))
      ∙ total-modify counts (phase - 1) (omega arith))

-- Every entry of such a log is counted for one phase.
pub event_loop_counted :
    (es : List TransitionEvent) (r : Reaction)
    → length r.phases ≡ 3
    → All IsUsable es
    → all_counted (event_loop es r).phases ≡ all_counted r.phases + length es
unfolding event_loop event_step
event_loop_counted [] r h k = omega arith
event_loop_counted (e ∷ es) r h k =
    let next = event_step e r in
    let many = length-map (λ (p : PhaseSummary). p.phase) r.phases in
    let many' = length-map (λ (p : PhaseSummary). p.phase) next.phases in
    let same =
      ap length
        (count_transition-same (λ (p : PhaseSummary). p.phase) (λ p. refl) e.phase r.phases) in
    let rest = event_loop_counted es next (omega arith) k.1 in
    let first = count_transition-one e.phase r.phases h k.0.first k.0.last in omega arith

-- The ticks from this tick to the first entry of the log at or after it.
abbrev pub first_from : ℕ → List TransitionEvent → Option ℕ
first_from bound [] = none
first_from bound (e ∷ es) = if leb bound e.tick then some (e.tick - bound) else first_from bound es

abbrev pub found : Bool → ℕ → Option ℕ
found b n = if b then some n else none

pub event_loop-reaction :
    (es : List TransitionEvent) (r : Reaction)
    → let r' = event_loop es r in
      found r'.found_reaction r'.reaction_ticks
      ≡ (if r.found_reaction then some r.reaction_ticks else first_from phase1_end es)
unfolding event_loop event_step
event_loop-reaction [] r = refl
event_loop-reaction (e ∷ es) r = event_loop-reaction es (event_step e r) ∙ ground arith

pub event_loop-recovery :
    (es : List TransitionEvent) (r : Reaction)
    → let r' = event_loop es r in
      found r'.found_recovery r'.recovery_ticks
      ≡ (if r.found_recovery then some r.recovery_ticks else first_from phase2_end es)
unfolding event_loop event_step
event_loop-recovery [] r = refl
event_loop-recovery (e ∷ es) r = event_loop-recovery es (event_step e r) ∙ ground arith

-- The ticks to an entry from a tick that is a multiple of 4.
first_from-asked :
    (bound n : ℕ) (es : List TransitionEvent)
    → All IsUsable es
    → bound % 4 ≡ 0
    → first_from bound es ≡ some n
    → n % 4 ≡ 3
first_from-asked bound n [] h whole e = absurd cc
first_from-asked bound n (v ∷ es) h whole e =
    let asked = h.0.asked in
    elim (Bool-cases (leb bound v.tick)) [
      | inl here ↦
          let below = leb→le bound v.tick here in
          let same : some (v.tick - bound) ≡ some n = ground arith in
          let number = some-injective (v.tick - bound) n same in omega arith
      | inr not_here ↦
          let rest : first_from bound es ≡ some n = ground arith in
          first_from-asked bound n es h.1 whole rest
    ]

pub found-asked :
    (b : Bool) (n bound : ℕ) (es : List TransitionEvent)
    → All IsUsable es
    → bound % 4 ≡ 0
    → found b n ≡ first_from bound es
    → (b ≡ false) ⊎ (n % 4 ≡ 3)
found-asked false n bound es h whole e = inl refl
found-asked true n bound es h whole e = inr (first_from-asked bound n es h whole (sym e))
