-- ===== src/Spike/Counts.antt =====
-- Experiment 3: what the loop records of the three phases.
use Prim.Native.Nat.{min}
use approximation_computing.Common.{
  ℕ, zero, suc, ◌+◌, ◌-◌, ◌≤◌, ◌<◌, ◌≡◌, inl, inr, refl, ap, arith, true, false, Bool-cases,
  if◌then◌else◌, ltb, List, [], ◌∷◌, length, modify, map, All,
}
use approximation_computing.Spike.{
  PhaseSummary, phase1_end, phase2_end, total_ticks, tasks_of_phase, start_of_phase,
}
use approximation_computing.Spike.Log.{phase_at}

abbrev pub total : List ℕ → ℕ
total [] = 0
total (n ∷ ns) = n + total ns

pub total-modify : (ns : List ℕ) (k : ℕ) → k < length ns → total (modify ns k suc) ≡ suc (total ns)
total-modify [] k h = absurd (omega arith)
total-modify (n ∷ ns) zero h = omega arith
total-modify (n ∷ ns) (suc k) h = omega (arith, total-modify ns k (omega arith))

module _ {A B : Type 0} (f : A → B) (g : A → A) (g' : B → B) (P : A → Type 0)
    (moves : (x : A) → P x → f (g x) ≡ g' (f x)) where
  pub map-modify : (xs : List A) (k : ℕ) → All P xs → map f (modify xs k g) ≡ modify (map f xs) k g'
  map-modify [] k h = refl
  map-modify (x ∷ xs) zero h = ap (λ y. y ∷ map f xs) (moves x h.0)
  map-modify (x ∷ xs) (suc k) h = ap (λ ys. f x ∷ ys) (map-modify xs k h.1)

pub All-always : {A : Type 0} (xs : List A) → All (λ _. Unit {0}) xs
All-always [] = tt
All-always (x ∷ xs) = (tt, All-always xs)

-- The rounds made in each phase, when `i` are made.
abbrev pub rounds_at : ℕ → List ℕ
rounds_at i = min i phase1_end ∷ (min i phase2_end - phase1_end) ∷ (i - phase2_end) ∷ []

pub rounds_at-next : (i : ℕ) → modify (rounds_at i) (phase_at i - 1) suc ≡ rounds_at (i + 1)
rounds_at-next i = elim (Bool-cases (ltb i phase1_end)) [
  | inl e ↦
      let a : suc (min i phase1_end) ≡ min (i + 1) phase1_end = ground arith in
      let b : min i phase2_end - phase1_end ≡ min (i + 1) phase2_end - phase1_end = ground arith in
      let c : i - phase2_end ≡ i + 1 - phase2_end = ground arith in rw (e, a, b, c) refl
  | inr e1 ↦ elim (Bool-cases (ltb i phase2_end)) [
    | inl e ↦
        let a : min i phase1_end ≡ min (i + 1) phase1_end = ground arith in
        let b : suc (min i phase2_end - phase1_end) ≡ min (i + 1) phase2_end - phase1_end =
          ground arith in
        let c : i - phase2_end ≡ i + 1 - phase2_end = ground arith in rw (e1, e, a, b, c) refl
    | inr e2 ↦
        let a : min i phase1_end ≡ min (i + 1) phase1_end = ground arith in
        let b : min i phase2_end - phase1_end ≡ min (i + 1) phase2_end - phase1_end =
          ground arith in
        let c : suc (i - phase2_end) ≡ i + 1 - phase2_end = ground arith in
        rw (e1, e2, a, b, c) refl
  ]
]

-- The span of a summary: its phase, tasks, first and last tick.
abbrev pub span : PhaseSummary → ℕ × ℕ × ℕ × ℕ
span p = (p.phase, p.n_tasks, p.tick_start, p.tick_end)

-- The span of phase `ph` (from 0) when `i` rounds are made.
abbrev span_at : ℕ → ℕ → ℕ → ℕ × ℕ × ℕ × ℕ
span_at ph stop i =
    if ltb (start_of_phase ph) i
    then (ph + 1, tasks_of_phase (ph + 1), start_of_phase ph, min i stop - 1)
    else (0, 0, 0, 0)

abbrev pub spans_at : ℕ → List (ℕ × ℕ × ℕ × ℕ)
spans_at i = span_at 0 phase1_end i ∷ span_at 1 phase2_end i ∷ span_at 2 total_ticks i ∷ []

-- The span of the current phase in round `i`.
abbrev pub current_span : ℕ → ℕ × ℕ × ℕ × ℕ
current_span i = (phase_at i, tasks_of_phase (phase_at i), start_of_phase (phase_at i - 1), i)

-- A phase that has not begun, and one that is over.
waits : (ph stop i : ℕ) → i + 1 ≤ start_of_phase ph → span_at ph stop i ≡ span_at ph stop (i + 1)
waits ph stop i h =
    let a : ltb (start_of_phase ph) i ≡ false = ground arith in
    let b : ltb (start_of_phase ph) (i + 1) ≡ false = ground arith in rw (a, b) refl

is_over :
    (ph stop i : ℕ)
    → start_of_phase ph < stop
    → stop ≤ i
    → span_at ph stop i ≡ span_at ph stop (i + 1)
is_over ph stop i h k =
    let a : ltb (start_of_phase ph) i ≡ true = ground arith in
    let b : ltb (start_of_phase ph) (i + 1) ≡ true = ground arith in
    let c : min i stop - 1 ≡ min (i + 1) stop - 1 = ground arith in rw (a, b, c) refl

goes_on :
    (ph stop i : ℕ)
    → start_of_phase ph ≤ i
    → i < stop
    → (ph + 1, tasks_of_phase (ph + 1), start_of_phase ph, i) ≡ span_at ph stop (i + 1)
goes_on ph stop i h k =
    let b : ltb (start_of_phase ph) (i + 1) ≡ true = ground arith in
    let c : min (i + 1) stop - 1 ≡ i = ground arith in rw (b, c) refl

cong_three :
    {A : Type 0} {a a' b b' c c' : A}
    → a ≡ a'
    → b ≡ b'
    → c ≡ c'
    → (a ∷ b ∷ c ∷ []) ≡ (a' ∷ b' ∷ c' ∷ [])
cong_three x y z = cc

pub spans_at-next :
    (i : ℕ)
    → i < total_ticks
    → modify (spans_at i) (phase_at i - 1) (λ _. current_span i) ≡ spans_at (i + 1)
spans_at-next i h = elim (Bool-cases (ltb i phase1_end)) [
  | inl e ↦
      let now = goes_on 0 phase1_end i (ground arith) (ground arith) in
      let second = waits 1 phase2_end i (ground arith) in
      let third = waits 2 total_ticks i (ground arith) in rw e (cong_three now second third)
  | inr e1 ↦ elim (Bool-cases (ltb i phase2_end)) [
    | inl e ↦
        let first = is_over 0 phase1_end i (ground arith) (ground arith) in
        let now = goes_on 1 phase2_end i (ground arith) (ground arith) in
        let third = waits 2 total_ticks i (ground arith) in rw (e1, e) (cong_three first now third)
    | inr e2 ↦
        let first = is_over 0 phase1_end i (ground arith) (ground arith) in
        let second = is_over 1 phase2_end i (ground arith) (ground arith) in
        let now = goes_on 2 total_ticks i (ground arith) (ground arith) in
        rw (e1, e2) (cong_three first second now)
  ]
]
