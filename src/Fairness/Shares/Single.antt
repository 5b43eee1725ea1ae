-- ===== src/Fairness/Shares/Single.antt =====
-- A single share of `fairness_cpu_shares`: off the quotient by at most one part of 2^53.
use approximation_computing.Common.{
  ℕ, ◌+◌, ◌*◌, ◌^◌, ◌≤◌, ◌<◌, ◌≡◌, inl, inr, refl, arith, Bool, true, false, List, [], ◌∷◌, ltb,
  if◌then◌else◌, pos, pos_part, ◌≤ℤ◌, Bool-cases,
}
use approximation_computing.Double.{Double, one, of_nat, div}
use approximation_computing.Double.Error.{quotient-near}
use approximation_computing.Double.Laws.{of_nat-exact, div_lem, div-le-one}
use approximation_computing.Task.{CfsTask, is_running}
use approximation_computing.Fairness.{share_of}
use approximation_computing.Fairness.Jain.{runtime_sum, running}

-- The numbers whose quotient by the total is the share: the CPU times, or 1 for each task where no
-- running one has run.
abbrev pub part_of : Bool → CfsTask → ℕ
part_of has_run t = if is_running t then (if has_run then t.exec_runtime else 1) else 0

abbrev pub parts : Bool → List CfsTask → ℕ
parts has_run [] = 0
parts has_run (t ∷ ts) = part_of has_run t + parts has_run ts

pub parts_run : (ts : List CfsTask) → parts true ts ≡ runtime_sum ts
parts_run [] = refl
parts_run (t ∷ ts) = rw (parts_run ts) refl

pub parts_fresh : (ts : List CfsTask) → parts false ts ≡ running ts
parts_fresh [] = refl
parts_fresh (t ∷ ts) = rw (parts_fresh ts) refl

-- A double from 0 to 1.0 that is off `x / total` by at most one part of 2^53.
abbrev pub IsShare : ℕ → ℕ → Double → Type 0
IsShare total x s =
    (pos 0 ≤ℤ s)
    × (s ≤ℤ pos one)
    × (2 ^ 53 * (pos_part s * total) ≤ 2 ^ 53 * (x * one) + x * one)
    × (2 ^ 53 * (x * one) ≤ 2 ^ 53 * (pos_part s * total) + x * one)

quotient-unit :
    (x total : ℕ)
    → x ≤ total
    → 0 < total
    → total ≤ 2 ^ 53
    → (pos 0 ≤ℤ div (of_nat x) (of_nat total)) × (div (of_nat x) (of_nat total) ≤ℤ pos one)
quotient-unit x total h p fits =
    let at_most = div-le-one (x * one) (total * one) (omega arith) (omega arith) in
    rw (of_nat-exact x (omega arith), of_nat-exact total fits, div_lem (x * one) (total * one))
      (omega arith, omega (arith, rw (div_lem (x * one) (total * one)) at at_most))

quotient-IsShare :
    (x total : ℕ)
    → x ≤ total
    → 0 < total
    → total ≤ 2 ^ 53
    → IsShare total x (div (of_nat x) (of_nat total))
quotient-IsShare x total h p fits =
    let (low, high) = quotient-unit x total h p fits in
    let (below, above) = quotient-near x total h p fits in (low, high, below, above)

none-IsShare : (total : ℕ) → IsShare total 0 (pos 0)
none-IsShare total = (omega arith, omega arith, omega arith, omega arith)

-- The share of a task where some running one has run.
pub share_of-run :
    (total nr : ℕ) (t : CfsTask)
    → 0 < total
    → total ≤ 2 ^ 53
    → part_of true t ≤ total
    → IsShare total (part_of true t) (share_of total nr t)
unfolding share_of
share_of-run total nr t p fits h = elim (Bool-cases (is_running t)) [
  | inl r ↦
      let has_run : ltb 0 total ≡ true = ground arith in
      rw (r, has_run, share_of) (quotient-IsShare t.exec_runtime total (rw r at h) p fits)
  | inr r ↦ rw (r, share_of) (none-IsShare total)
]

-- And where none has.
pub share_of-fresh :
    (nr : ℕ) (t : CfsTask) → 0 < nr → nr ≤ 2 ^ 53 → IsShare nr (part_of false t) (share_of 0 nr t)
unfolding share_of
share_of-fresh nr t p fits = elim (Bool-cases (is_running t)) [
  | inl r ↦
      let some_task : ltb 0 nr ≡ true = ground arith in
      rw (r, some_task, share_of)
        (rw (of_nat-exact 1 (omega arith)) at (quotient-IsShare 1 nr p p fits))
  | inr r ↦ rw (r, share_of) (none-IsShare nr)
]
