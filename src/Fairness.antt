-- ===== src/Fairness.antt =====
-- apex-cfs/src/fairness.h and apex-cfs/src/fairness.c: Jain's index, the APAF controller, CPU shares.
pub mod Controller
pub mod Jain
pub mod Shares
use approximation_computing.Common.{
  ℕ, zero, suc, ◌+◌, ◌*◌, ◌%◌, Bool, ◌||◌, Option, none, some, List, [], ◌∷◌, ltb, leb, ◌==◌,
  if◌then◌else◌, ℤ, pos, pos_part, ltb_ℤ, ◌==ℤ◌, take, length,
}
use approximation_computing.Words.{u64, u32}
use approximation_computing.Double.{Double, one, decimal, of_nat, div, lt}
use approximation_computing.Task.{
  CfsTask, CfsRq, is_running, has_no_tasks, visited, apaf_tight, apaf_medium, apaf_loose,
}

abbrev pub jain_loose_to_medium : Double
jain_loose_to_medium = decimal 93 2

abbrev pub jain_medium_to_tight : Double
jain_medium_to_tight = decimal 90 2

abbrev pub jain_medium_to_loose : Double
jain_medium_to_loose = decimal 97 2

abbrev pub jain_tight_to_medium : Double
jain_tight_to_medium = decimal 95 2

abbrev jain_min_tasks : ℕ
jain_min_tasks = 2

-- `sum`, `sum_sq` and `n` of `fairness_jain_index`.
pub record JainSums : Type 0 where
  pub sum : ℕ
  pub sum_sq : ℕ
  pub n : ℕ

abbrev pub jain_step : CfsTask → JainSums → JainSums
jain_step t s =
    let x = t.exec_runtime in
    if is_running t
    then record { sum = u64 (s.sum + x); sum_sq = u64 (s.sum_sq + u64 (x * x)); n = s.n + 1 }
    else s

unfoldable pub jain_loop : List CfsTask → JainSums → JainSums
jain_loop [] s = s
jain_loop (t ∷ ts) s = jain_loop ts (jain_step t s)

-- The quotient of the two sums, and the clamps behind it. Where the product under the quotient wraps to
-- 0 the quotient is infinite, which the first clamp cuts to 1.0; that of 0.0 by 0.0, a NaN where
-- `sum * sum` wraps to 0 as well, has no counterpart here.
unfoldable pub jain_of_sums : JainSums → Double
jain_of_sums s =
    let j = div (of_nat (u64 (s.sum * s.sum))) (of_nat (u64 (s.n * s.sum_sq))) in
    if ltb s.n jain_min_tasks
    then pos one
    else if s.sum == 0 || s.sum_sq == 0
    then pos one
    else if u64 (s.n * s.sum_sq) == 0
    then pos one
    else if lt (pos one) j
    then pos one
    else if lt j (pos 0)
    then pos 0
    else j

abbrev pub no_sums : JainSums
no_sums = record { sum = 0; sum_sq = 0; n = 0 }

unfoldable pub fairness_jain_index : CfsRq → Double
fairness_jain_index rq =
    if has_no_tasks rq then pos one else jain_of_sums (jain_loop (visited rq) no_sums)

-- The clamp at the head of `fairness_apaf_next_state`.
abbrev clamp_unit : Double → Double
clamp_unit j = if lt (pos one) j then pos one else if lt j (pos 0) then pos 0 else j

unfoldable pub fairness_apaf_next_state : ℤ → Double → ℤ
fairness_apaf_next_state current_state jain =
    let j = clamp_unit jain in
    if current_state ==ℤ apaf_loose
    then (if lt j jain_loose_to_medium then apaf_medium else apaf_loose)
    else if current_state ==ℤ apaf_medium
    then (if lt j jain_medium_to_tight
        then apaf_tight
        else if lt jain_medium_to_loose j
        then apaf_loose
        else apaf_medium)
    else if current_state ==ℤ apaf_tight
    then (if lt jain_tight_to_medium j then apaf_medium else apaf_tight)
    else current_state

-- `total` and `nr_running` of `fairness_cpu_shares`.
abbrev share_step : CfsTask → ℕ × ℕ → ℕ × ℕ
share_step t (total, running) =
    if is_running t then (u64 (total + t.exec_runtime), running + 1) else (total, running)

unfoldable pub share_sums : List CfsTask → ℕ × ℕ → ℕ × ℕ
share_sums [] s = s
share_sums (t ∷ ts) s = share_sums ts (share_step t s)

unfoldable pub share_of : ℕ → ℕ → CfsTask → Double
share_of total running t =
    if is_running t
    then (if ltb 0 total
        then div (of_nat t.exec_runtime) (of_nat total)
        else if ltb 0 running
        then div (pos one) (of_nat running)
        else pos 0)
    else pos 0

-- The loop that writes `shares[0 .. limit)`; the cells behind the limit keep their values.
unfoldable pub write_shares : ℕ → ℕ → List CfsTask → List Double → List Double
write_shares total running [] shares = shares
write_shares total running (t ∷ ts) [] = []
write_shares total running (t ∷ ts) (c ∷ cs) =
    share_of total running t ∷ write_shares total running ts cs

-- `shares[0 .. limit) = 0.0`.
unfoldable pub write_zeros : ℕ → List Double → List Double
write_zeros zero shares = shares
write_zeros (suc n) [] = []
write_zeros (suc n) (c ∷ cs) = pos 0 ∷ write_zeros n cs

-- The cells of the array `shares` after the call.
unfoldable pub fairness_cpu_shares : CfsRq → List Double → ℤ → List Double
fairness_cpu_shares rq shares max_tasks =
    let limit = if ltb_ℤ rq.nr_tasks max_tasks then rq.nr_tasks else max_tasks in
    let seen = take (pos_part limit) rq.tasks in
    let sums = share_sums seen (0, 0) in
    if leb (length shares) 0 || leb (pos_part max_tasks) 0
    then shares
    else if has_no_tasks rq
    then write_zeros (pos_part max_tasks) shares
    else write_shares sums.0 sums.1 seen shares

unfoldable pub fairness_ideal_share : ℕ → ℕ → Double
fairness_ideal_share task_weight total_weight =
    if total_weight == 0 then pos 0 else div (of_nat task_weight) (of_nat total_weight)

unfoldable pub weight_loop : List CfsTask → ℕ → ℕ
weight_loop [] total = total
weight_loop (t ∷ ts) total =
    weight_loop ts (if is_running t then u32 (total + u32 t.weight) else total)

unfoldable pub fairness_total_weight : CfsRq → ℕ
fairness_total_weight rq = if has_no_tasks rq then 0 else weight_loop (visited rq) 0
