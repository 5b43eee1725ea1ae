-- ===== src/Spike/Reaction.antt =====
-- Experiment 3: what the report says of the phases and of the controller.
use mathlib.Core.Path.{subst}
use approximation_computing.Common.{
  ℕ, zero, suc, ◌+◌, ◌-◌, ◌≤◌, ◌≡◌, inl, inr, refl, sym, ap, ◌∙◌, arith, ◌&&◌, Bool-cases, ltb,
  List, [], ◌∷◌, ℤ, pos_part, length, modify, map, All, get_or,
}
use approximation_computing.Fairness.Controller.{IsState}
use approximation_computing.Spike.{TransitionEvent, PhaseSummary}
use approximation_computing.Spike.Counts.{total, span}
use approximation_computing.Spike.Summary.{
  best_loop, dominant_state_of, finish_phases, Reaction, count_transition, event_step, event_loop,
}

-- The dominant state of three counters is a state, and none of the others has been there longer.
pub record IsDominant (counts : List ℕ) (best : ℤ) : Type 0 where
  pub state : IsState best
  pub most : All (λ n. n ≤ get_or counts (pos_part best) 0) counts

dominant_state_of-IsDominant :
    (a b c : ℕ) → IsDominant (a ∷ b ∷ c ∷ []) (dominant_state_of (a ∷ b ∷ c ∷ []))
unfolding dominant_state_of best_loop
dominant_state_of-IsDominant a b c = record {
  state = ground arith;
  most = (ground arith, (ground arith, (ground arith, tt)));
}

-- A list of three.
three :
    {A : Type 0} (xs : List A) → length xs ≡ 3 → (x : A) × (y : A) × (z : A) × (xs ≡ x ∷ y ∷ z ∷ [])
three [] h = absurd (omega arith)
three (x ∷ []) h = absurd (omega arith)
three (x ∷ y ∷ []) h = absurd (omega arith)
three (x ∷ y ∷ z ∷ []) h = (x, y, z, refl)
three (x ∷ y ∷ z ∷ w ∷ xs) h = absurd (omega arith)

row-IsDominant : (row : List ℕ) → length row ≡ 3 → IsDominant row (dominant_state_of row)
row-IsDominant row h =
    let (a, b, c, e) = three row h in
    subst (λ r. IsDominant r (dominant_state_of r)) (sym e) (dominant_state_of-IsDominant a b c)

pub rows-IsDominant :
    (rows : List (List ℕ))
    → All (λ r. length r ≡ 3) rows
    → All (λ r. IsDominant r (dominant_state_of r)) rows
rows-IsDominant [] h = tt
rows-IsDominant (r ∷ rows) h = (row-IsDominant r h.0, rows-IsDominant rows h.1)

pub finished_dominant :
    (ps : List PhaseSummary) (rows : List (List ℕ))
    → length ps ≡ 3
    → length rows ≡ 3
    → map (λ p. p.dominant_state) (finish_phases ps rows 0) ≡ map dominant_state_of rows
unfolding finish_phases
finished_dominant ps rows h k =
    let (p, q, r, e) = three ps h in let (a, b, c, f) = three rows k in rw (e, f) refl

pub finished_span :
    (ps : List PhaseSummary) (rows : List (List ℕ)) (i : ℕ)
    → map span (finish_phases ps rows i) ≡ map span ps
unfolding finish_phases
finished_span [] rows i = refl
finished_span (p ∷ ps) rows i = ap (λ l. span p ∷ l) (finished_span ps rows (i + 1))

pub finished_none :
    (ps : List PhaseSummary) (rows : List (List ℕ)) (i : ℕ)
    → total (map (λ p. p.n_transitions) (finish_phases ps rows i)) ≡ 0
unfolding finish_phases
finished_none [] rows i = refl
finished_none (p ∷ ps) rows i = omega (arith, finished_none ps rows (i + 1))

pub length-finish_phases :
    (ps : List PhaseSummary) (rows : List (List ℕ)) (i : ℕ)
    → length (finish_phases ps rows i) ≡ length ps
unfolding finish_phases
length-finish_phases [] rows i = refl
length-finish_phases (p ∷ ps) rows i = ap suc (length-finish_phases ps rows (i + 1))

abbrev pub add_transition : PhaseSummary → PhaseSummary
add_transition p = record p { n_transitions = p.n_transitions + 1 }

-- What the loop over the log leaves of the phases, and what it counts.
module _ {B : Type 0} (f : PhaseSummary → B)
    (same : (p : PhaseSummary) → f (add_transition p) ≡ f p) where
  modify-same : (ps : List PhaseSummary) (k : ℕ) → map f (modify ps k add_transition) ≡ map f ps
  modify-same [] k = refl
  modify-same (p ∷ ps) zero = ap (λ y. y ∷ map f ps) (same p)
  modify-same (p ∷ ps) (suc k) = ap (λ l. f p ∷ l) (modify-same ps k)

  pub count_transition-same :
      (phase : ℕ) (ps : List PhaseSummary) → map f (count_transition phase ps) ≡ map f ps
  unfolding count_transition
  count_transition-same phase ps = elim (Bool-cases (ltb 0 phase && ltb (phase - 1) 3)) [
    | inl e ↦ rw e (modify-same ps (phase - 1))
    | inr e ↦ rw e refl
  ]

  pub event_loop-same :
      (es : List TransitionEvent) (r : Reaction) → map f (event_loop es r).phases ≡ map f r.phases
  unfolding event_loop event_step
  event_loop-same [] r = refl
  event_loop-same (e ∷ es) r =
      event_loop-same es (event_step e r) ∙ count_transition-same e.phase r.phases
