-- ===== src/MixedLoad/Main.antt =====
-- apex-cfs/experiments/exp2_mixed_load.c, `main`: the four schedulers over 2000 ticks, the findings of
-- the summary and the warnings that follow. The tables show the fields of the results.
use approximation_computing.Common.{
  ℕ, ◌*◌, ◌≤◌, ◌≡◌, refl, arith, Bool, true, false, not, ◌||◌, ltb, Option, none, some, List, [],
  ◌∷◌, ◌++◌, if◌then◌else◌, ℤ, pos, pos_part,
}
use approximation_computing.Words.{u64}
use approximation_computing.Double.{Double, one, decimal, of_nat, sub, mul, lt}
use approximation_computing.MixedLoad.Report.{MixedResult, empty_mixed_result, run_exp2}
use approximation_computing.MixedLoad.Share.{run_exp2-share}

abbrev pub exp2_ticks : ℕ
exp2_ticks = 2000

-- `results`.
pub record MixedRow : Type 0 where
  pub exact : MixedResult
  pub bsa : MixedResult
  pub clti : MixedResult
  pub apaf : MixedResult

-- `allocated` says for each scheduler whether its calls of malloc succeed.
unfoldable pub run_mixed : (ℤ → Bool) → MixedRow
run_mixed allocated = record {
  exact = run_exp2 (allocated (pos 0)) (pos 0) exp2_ticks;
  bsa = run_exp2 (allocated (pos 1)) (pos 1) exp2_ticks;
  clti = run_exp2 (allocated (pos 2)) (pos 2) exp2_ticks;
  apaf = run_exp2 (allocated (pos 3)) (pos 3) exp2_ticks;
}

-- The key findings of the summary.
pub record KeyFindings : Type 0 where
  pub exact_share : Double
  pub apaf_share : Double
  pub share_diff : Double
  pub fair_ok : Bool

abbrev is_unfair : MixedResult → Bool
is_unfair r = lt r.batch_avg_jain (decimal 90 2)

unfoldable pub key_findings : MixedRow → KeyFindings
key_findings row =
    let exact_share = mul row.exact.interactive_cpu_share (of_nat 100) in
    let apaf_share = mul row.apaf.interactive_cpu_share (of_nat 100) in
    record {
      exact_share = exact_share;
      apaf_share = apaf_share;
      share_diff = sub apaf_share exact_share;
      fair_ok = not (
          is_unfair row.exact || (is_unfair row.bsa || (is_unfair row.clti || is_unfair row.apaf)));
    }

-- The lines that begin with WARNING.
pub data MixedWarning : Type 0 where
  share_is_zero : ℤ → MixedWarning
  apaf_waits : ℕ → ℕ → MixedWarning

unfoldable pub share_warning : ℤ → MixedResult → List MixedWarning
share_warning i r = if lt (pos 0) r.interactive_cpu_share then [] else share_is_zero i ∷ []

unfoldable pub share_warnings : MixedRow → List MixedWarning
share_warnings row =
    share_warning (pos 0) row.exact
    ++ (share_warning (pos 1) row.bsa
        ++ (share_warning (pos 2) row.clti ++ share_warning (pos 3) row.apaf))

unfoldable pub wait_warning : MixedRow → List MixedWarning
wait_warning row =
    if ltb (u64 (row.exact.max_wait_ticks * 2)) row.apaf.max_wait_ticks
    then apaf_waits row.apaf.max_wait_ticks row.exact.max_wait_ticks ∷ []
    else []

pub record MixedOutcome : Type 0 where
  pub row : MixedRow
  pub findings : Option KeyFindings
  pub warnings : List MixedWarning
  pub exit_code : ℕ

-- `opened` says whether the file of the summary opens.
unfoldable pub main_exp2 : (ℤ → Bool) → Bool → MixedOutcome
main_exp2 allocated opened =
    let row = run_mixed allocated in
    record {
      row = row;
      findings = if not opened then none else some (key_findings row);
      warnings = if not opened then [] else share_warnings row ++ wait_warning row;
      exit_code = if not opened then 1 else 0;
    }

abbrev run_starved : ℤ → Bool → List MixedWarning
run_starved i allocated = if allocated then [] else share_is_zero i ∷ []

-- The runs that were not made.
abbrev pub starved : (ℤ → Bool) → List MixedWarning
starved allocated =
    run_starved (pos 0) (allocated (pos 0))
    ++ (run_starved (pos 1) (allocated (pos 1))
        ++ (run_starved (pos 2) (allocated (pos 2)) ++ run_starved (pos 3) (allocated (pos 3))))

above_zero : (x : Double) → one ≤ 4 * pos_part x → lt (pos 0) x ≡ true
above_zero x h = ground arith

share_warning-run :
    (i : ℤ) (allocated : Bool)
    → share_warning i (run_exp2 allocated i exp2_ticks) ≡ run_starved i allocated
unfolding share_warning run_exp2 empty_mixed_result
share_warning-run i false = refl
share_warning-run i true =
    let low = (run_exp2-share i exp2_ticks (omega arith) (omega arith)).2 in
    let positive : lt (pos 0) (run_exp2 true i exp2_ticks).interactive_cpu_share ≡ true =
      above_zero _ low in
    rw positive refl

-- Experiment 2 warns of a share of 0 under just those schedulers whose allocations fail; besides, it
-- warns only of APAF's longest wait. It returns 1, without a warning, where the summary does not open,
-- and 0 otherwise.
pub main_exp2-warnings :
    (allocated : ℤ → Bool) (opened : Bool)
    → let o = main_exp2 allocated opened in
      (o.warnings ≡ (if opened then starved allocated ++ wait_warning o.row else []))
      × (o.exit_code ≡ (if opened then 0 else 1))
unfolding main_exp2 run_mixed share_warnings
main_exp2-warnings allocated false = (refl, refl)
main_exp2-warnings allocated true = (
  rw
      (
        share_warning-run (pos 0) (allocated (pos 0)),
        share_warning-run (pos 1) (allocated (pos 1)),
        share_warning-run (pos 2) (allocated (pos 2)),
        share_warning-run (pos 3) (allocated (pos 3)),
      )
      refl,
  refl,
)
