-- ===== src/Metrics/Record.antt =====
-- `metrics_record`, `metrics_init` and `metrics_print_summary`: what the numbers mean.
use Prim.Native.Nat.{min}
use native.Mathlib.Decide.{dec_lt}
use approximation_computing.Common.{
  ℕ, zero, suc, ◌+◌, ◌≤◌, ◌<◌, ◌≡◌, ◌⊎◌, inl, inr, refl, ap, arith, false, Option, none, some, List,
  [], ◌∷◌, if◌then◌else◌, leb, ℤ, pos, ltb_ℤ, ◌≤ℤ◌, get_elem?, length, take, modify_first, All,
}
use approximation_computing.Double.{div, of_nat}
use approximation_computing.Metrics.{
  Metrics, Summary, summary_step, summary_loop, no_summary, metrics_print_summary, fresh,
  metrics_init, changed,
}

-- What the running values are worth for entries seen: no worse index and no larger error.
abbrev pub IsCovered : Summary → Metrics → Type 0
IsCovered s m = (s.min_jain ≤ℤ m.jain_index) × (m.max_error_pct ≤ℤ s.overall_max_error)

-- The running values only ever spread.
abbrev Spreads : Summary → Summary → Type 0
Spreads s s' =
    (s'.min_jain ≤ℤ s.min_jain)
    × (s.overall_max_error ≤ℤ s'.overall_max_error)
    × (s.transitions ≤ s'.transitions)

summary_step-Spreads :
    (mode : ℤ) (before : Option ℤ) (m : Metrics) (s : Summary)
    → Spreads s (summary_step mode before m s)
unfolding summary_step
summary_step-Spreads mode before m s = ground arith

summary_step-IsCovered :
    (mode : ℤ) (before : Option ℤ) (m : Metrics) (s : Summary)
    → IsCovered (summary_step mode before m s) m
unfolding summary_step
summary_step-IsCovered mode before m s = ground arith

summary_loop-Spreads :
    (mode : ℤ) (before : Option ℤ) (ms : List Metrics) (s : Summary)
    → Spreads s (summary_loop mode before ms s)
unfolding summary_loop
summary_loop-Spreads mode before [] s = ground arith
summary_loop-Spreads mode before (m ∷ ms) s =
    let s' = summary_step mode before m s in
    let (a, b, c) = summary_step-Spreads mode before m s in
    let (d, e, f) = summary_loop-Spreads mode (some m.apaf_state) ms s' in
    (omega arith, omega arith, omega arith)

summary_loop-IsCovered :
    (mode : ℤ) (before : Option ℤ) (ms : List Metrics) (s : Summary)
    → All (IsCovered (summary_loop mode before ms s)) ms
unfolding summary_loop
summary_loop-IsCovered mode before [] s = tt
summary_loop-IsCovered mode before (m ∷ ms) s =
    let s' = summary_step mode before m s in
    let (a, b) = summary_step-IsCovered mode before m s in
    let (d, e, f) = summary_loop-Spreads mode (some m.apaf_state) ms s' in
    ((omega arith, omega arith), summary_loop-IsCovered mode (some m.apaf_state) ms s')

changed-le : (mode : ℤ) (before : Option ℤ) (m : Metrics) → changed mode before m ≤ 1
unfolding changed
changed-le mode none m = omega arith
changed-le mode (some q) m = ground arith

summary_loop-transitions :
    (mode : ℤ) (q : ℤ) (ms : List Metrics) (s : Summary)
    → (summary_loop mode (some q) ms s).transitions ≤ s.transitions + length ms
unfolding summary_loop summary_step
summary_loop-transitions mode q [] s = omega arith
summary_loop-transitions mode q (m ∷ ms) s = omega (
  arith,
  summary_loop-transitions mode m.apaf_state ms (summary_step mode (some q) m s),
  changed-le mode (some q) m,
)

first_transitions :
    (mode : ℤ) (m : Metrics) (ms : List Metrics)
    → (summary_loop mode none (m ∷ ms) no_summary).transitions ≤ length ms
unfolding summary_loop summary_step changed
first_transitions mode m ms =
    omega
      (arith, summary_loop-transitions mode m.apaf_state ms (summary_step mode none m no_summary))

-- A summary of at least one entry is printed; its least index is at most that of any entry, its
-- largest error at least that of any entry, and it counts fewer transitions than entries.
pub metrics_print_summary-covers :
    (m : Metrics) (ms : List Metrics) (k : ℕ)
    → let entries = take (suc k) (m ∷ ms) in
      (s : Summary) × (metrics_print_summary (m ∷ ms) (pos (suc k)) ≡ some s)
      × All (IsCovered s) entries
      × (s.transitions < length entries)
unfolding metrics_print_summary
metrics_print_summary-covers m ms k =
    let total = summary_loop m.logic_used none (m ∷ take k ms) no_summary in
    let some_left : leb (suc k) 0 ≡ false = ground arith in
    (
      record total {
        avg_jain = div total.avg_jain (of_nat (suc k));
        overall_avg_error = div total.overall_avg_error (of_nat (suc k));
        ops_per_tick = div (of_nat total.total_ops_saved) (of_nat (suc k));
      },
      rw some_left refl,
      summary_loop-IsCovered m.logic_used none (m ∷ take k ms) no_summary,
      omega (arith, first_transitions m.logic_used m (take k ms)),
    )

reset_below :
    (n i : ℕ) (ms : List Metrics)
    → i < n
    → i < length ms
    → get_elem? (modify_first n (λ _. fresh) ms) i ≡ some fresh
reset_below zero i ms h k = absurd (omega arith)
reset_below (suc n) i [] h k = absurd (omega arith)
reset_below (suc n) zero (m ∷ ms) h k = refl
reset_below (suc n) (suc i) (m ∷ ms) h k = reset_below n i ms (omega arith) (omega arith)

kept_above :
    (n i : ℕ) (ms : List Metrics)
    → n ≤ i
    → get_elem? (modify_first n (λ _. fresh) ms) i ≡ get_elem? ms i
kept_above zero i ms h = refl
kept_above (suc n) i [] h = refl
kept_above (suc n) zero (m ∷ ms) h = absurd (omega arith)
kept_above (suc n) (suc i) (m ∷ ms) h = kept_above n i ms (omega arith)

init_lem :
    (buf : List Metrics) (n : ℕ)
    → metrics_init buf (pos n) ≡ modify_first (min n 10000) (λ _. fresh) buf
unfolding metrics_init
init_lem buf zero = refl
init_lem buf (suc n) =
    let some_left : leb (suc n) 0 ≡ false = ground arith in
    let count : (if ltb_ℤ (pos 10000) (pos (suc n)) then 10000 else suc n) ≡ min (suc n) 10000 =
      ground arith in
    rw (metrics_init, some_left) (ap (λ c. modify_first c (λ _. fresh) buf) count)

-- The first `n` entries of the buffer, at most 10000, are reset, and the others stay.
pub metrics_init-resets :
    (buf : List Metrics) (n i : ℕ)
    → i < length buf
    → ((i < min n 10000) × (get_elem? (metrics_init buf (pos n)) i ≡ some fresh))
      ⊎ ((min n 10000 ≤ i) × (get_elem? (metrics_init buf (pos n)) i ≡ get_elem? buf i))
metrics_init-resets buf n i h = rw (init_lem buf n) (elim (dec_lt i (min n 10000)) [
  | yes low ↦ inl (low, reset_below (min n 10000) i buf low h)
  | no high ↦
      let above : min n 10000 ≤ i = omega arith in inr (above, kept_above (min n 10000) i buf above)
])
