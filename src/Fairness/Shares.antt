-- ===== src/Fairness/Shares.antt =====
-- The CPU shares of apex-cfs/src/fairness.c (`fairness_cpu_shares`) add up to 1.0 but for roundings.
pub mod Single
use native.Mathlib.Nat.{le_of_mul-le-mul_right, mod-eq_of_lt}
use native.Mathlib.Decide.{dec_le}
use approximation_computing.Common.{
  ℕ, zero, suc, ◌+◌, ◌*◌, ◌-◌, ◌^◌, ◌≤◌, ◌<◌, ◌≡◌, ◌⊎◌, inl, inr, refl, ap, arith, Bool, true,
  false, List, [], ◌∷◌, map, ltb, leb, ◌||◌, if◌then◌else◌, ℤ, pos, pos_part, ltb_ℤ, ◌≤ℤ◌, length,
  take, All, Bool-cases,
}
use approximation_computing.Double.{Double, one, of_nat, div}
use approximation_computing.Double.Error.{quotient-near}
use approximation_computing.Double.Laws.{of_nat-exact, div_lem, div-le-one}
use approximation_computing.Task.{CfsTask, CfsRq, is_running, has_no_tasks}
use approximation_computing.Fairness.{share_sums, share_of, write_shares, fairness_cpu_shares}
use approximation_computing.Fairness.Shares.Single.{
  part_of, parts, parts_run, parts_fresh, IsShare, share_of-run, share_of-fresh,
}
use approximation_computing.Fairness.Jain.{runtime_sum, running}

share_sums-exact :
    (ts : List CfsTask) (a b : ℕ)
    → a + runtime_sum ts < 2 ^ 64
    → share_sums ts (a, b) ≡ (a + runtime_sum ts, b + running ts)
unfolding share_sums
share_sums-exact [] a b h = ground arith
share_sums-exact (t ∷ ts) a b h = elim (Bool-cases (is_running t)) [
  | inl r ↦
      let h' : a + t.exec_runtime + runtime_sum ts < 2 ^ 64 = ground (arith, r, h) in
      ground (
        arith,
        r,
        mod-eq_of_lt {n = a + t.exec_runtime} {m = 2 ^ 64},
        share_sums-exact ts (a + t.exec_runtime) (b + 1) h',
      )
  | inr r ↦ ground (arith, r, share_sums-exact ts a b)
]

-- The exact sum of doubles that are not negative.
abbrev pub share_total : List Double → ℕ
share_total [] = 0
share_total (s ∷ ss) = pos_part s + share_total ss

-- The errors of the shares do not add up to more than their one part of the sum.
module _ (share : CfsTask → Double) (has_run : Bool) (total : ℕ) where
  shares_near :
      (ts : List CfsTask)
      → All (λ t. IsShare total (part_of has_run t) (share t)) ts
      → (2 ^ 53 * (share_total (map share ts) * total)
          ≤ 2 ^ 53 * (parts has_run ts * one) + parts has_run ts * one)
        × (2 ^ 53 * (parts has_run ts * one)
            ≤ 2 ^ 53 * (share_total (map share ts) * total) + parts has_run ts * one)
  shares_near [] h = (omega arith, omega arith)
  shares_near (t ∷ ts) (h, hs) =
      let (a, b) = shares_near ts hs in let (_, _, c, d) = h in (omega arith, omega arith)

  shares_unit :
      (ts : List CfsTask)
      → All (λ t. IsShare total (part_of has_run t) (share t)) ts
      → All (λ s. (pos 0 ≤ℤ s) × (s ≤ℤ pos one)) (map share ts)
  shares_unit [] h = tt
  shares_unit (t ∷ ts) (h, hs) = ((h.0, h.1), shares_unit ts hs)

run-AreShares :
    (total nr : ℕ) (ts : List CfsTask)
    → 0 < total
    → total ≤ 2 ^ 53
    → parts true ts ≤ total
    → All (λ t. IsShare total (part_of true t) (share_of total nr t)) ts
run-AreShares total nr [] p fits h = tt
run-AreShares total nr (t ∷ ts) p fits h =
    (share_of-run total nr t p fits (omega arith), run-AreShares total nr ts p fits (omega arith))

fresh-AreShares :
    (nr : ℕ) (ts : List CfsTask)
    → 0 < nr
    → nr ≤ 2 ^ 53
    → All (λ t. IsShare nr (part_of false t) (share_of 0 nr t)) ts
fresh-AreShares nr [] p fits = tt
fresh-AreShares nr (t ∷ ts) p fits = (share_of-fresh nr t p fits, fresh-AreShares nr ts p fits)

take-write_shares :
    (total nr : ℕ) (ts : List CfsTask) (cells : List Double)
    → length ts ≤ length cells
    → take (length ts) (write_shares total nr ts cells) ≡ map (share_of total nr) ts
unfolding write_shares
take-write_shares total nr [] cells h = refl
take-write_shares total nr (t ∷ ts) [] h = absurd (omega arith)
take-write_shares total nr (t ∷ ts) (c ∷ cells) h =
    ap (λ l. share_of total nr t ∷ l) (take-write_shares total nr ts cells (omega arith))

-- From 0 to 1.0 each, and in sum 1.0 but for one part of 2^53.
abbrev pub AddUp : List Double → Type 0
AddUp shares =
    All (λ s. (pos 0 ≤ℤ s) × (s ≤ℤ pos one)) shares
    × (2 ^ 53 * share_total shares ≤ 2 ^ 53 * one + one)
    × (2 ^ 53 * one ≤ 2 ^ 53 * share_total shares + one)

total-AddUp :
    (share : CfsTask → Double) (has_run : Bool) (total : ℕ) (ts : List CfsTask)
    → 0 < total
    → parts has_run ts ≡ total
    → All (λ t. IsShare total (part_of has_run t) (share t)) ts
    → AddUp (map share ts)
total-AddUp share has_run total ts p all h =
    let (low, high) = shares_near share has_run total ts h in
    let s : ℕ = share_total (map share ts) in
    let below : 2 ^ 53 * (s * total) ≤ 2 ^ 53 * (total * one) + total * one = rw all at low in
    let above : 2 ^ 53 * (total * one) ≤ 2 ^ 53 * (s * total) + total * one = rw all at high in
    (
      shares_unit share has_run total ts h,
      le_of_mul-le-mul_right {k = total} (omega arith) p,
      le_of_mul-le-mul_right {k = total} (omega arith) p,
    )

share_sums_lem :
    (ts : List CfsTask)
    → runtime_sum ts < 2 ^ 64
    → share_sums ts (0, 0) ≡ (runtime_sum ts, running ts)
share_sums_lem ts h = rw (share_sums-exact ts 0 0 (omega arith)) (ground arith)

running_cells : (ts : List CfsTask) → running ts ≤ length ts
running_cells [] = omega arith
running_cells (t ∷ ts) = elim (Bool-cases (is_running t)) [
  | inl r ↦ rw r (omega (arith, running_cells ts))
  | inr r ↦ rw r (omega (arith, running_cells ts))
]

-- The tasks that a call with this limit reads.
abbrev pub limited : CfsRq → ℤ → List CfsTask
limited rq max_tasks =
    take (pos_part (if ltb_ℤ rq.nr_tasks max_tasks then rq.nr_tasks else max_tasks)) rq.tasks

shares-AddUp :
    (ts : List CfsTask)
    → 0 < running ts
    → running ts ≤ 2 ^ 53
    → runtime_sum ts ≤ 2 ^ 53
    → AddUp (map (share_of (runtime_sum ts) (running ts)) ts)
shares-AddUp ts some_task few fits = elim (dec_le (runtime_sum ts) 0) [
  | yes none_ran ↦
      let z : runtime_sum ts ≡ 0 = omega arith in
      rw z (
        total-AddUp (share_of 0 (running ts)) false (running ts) ts some_task (parts_fresh ts)
          (fresh-AreShares (running ts) ts some_task few))
  | no ran ↦
      total-AddUp (share_of (runtime_sum ts) (running ts)) true (runtime_sum ts) ts (omega arith)
        (parts_run ts)
        (run-AreShares (runtime_sum ts) (running ts) ts (omega arith) fits
          (omega (arith, parts_run ts)))
]

-- Where a task of those that are read is running, the array has a cell for each of them, and their CPU
-- time and number are at most 2^53, the cells that `fairness_cpu_shares` writes hold shares from 0 to
-- 1.0 that add up to 1.0, but for at most one part of 2^53; also where no task has run yet.
pub fairness_cpu_shares-AddUp :
    (rq : CfsRq) (shares : List Double) (max_tasks : ℤ)
    → has_no_tasks rq ≡ false
    → 0 < pos_part max_tasks
    → let ts = limited rq max_tasks in
      length ts ≤ length shares
      → 0 < running ts
      → running ts ≤ 2 ^ 53
      → runtime_sum ts ≤ 2 ^ 53
      → AddUp (take (length ts) (fairness_cpu_shares rq shares max_tasks))
unfolding fairness_cpu_shares
fairness_cpu_shares-AddUp rq shares max_tasks some_tasks positive room some_task few fits =
    let ts = limited rq max_tasks in
    let asked : (leb (length shares) 0 || leb (pos_part max_tasks) 0) ≡ false =
      ground (arith, running_cells ts) in
    rw
      (
        asked,
        some_tasks,
        share_sums_lem ts (omega arith),
        take-write_shares (runtime_sum ts) (running ts) ts shares room,
      )
      (shares-AddUp ts some_task few fits)
