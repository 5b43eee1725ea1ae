-- ===== src/Experiment/Main.antt =====
-- apex-cfs/experiments/exp1_equal_weight.c, `main`: three numbers of tasks under the four schedulers,
-- and the warnings that follow. The tables on the console and in the summary show the fields of the
-- results.
use approximation_computing.Common.{
  ℕ, ◌*◌, ◌≤◌, ◌≡◌, refl, arith, Bool, true, false, not, leb, if◌then◌else◌, List, [], ◌∷◌, ◌++◌,
  map, ℤ, pos, pos_part,
}
use approximation_computing.Double.{one, decimal, lt, run_double}
use approximation_computing.Experiment.{Result, empty_result, run_experiment}
use approximation_computing.Experiment.Busy.{IsMode}
use approximation_computing.Experiment.Saved.{run_experiment-saves}
use approximation_computing.Experiment.Jain.{run_experiment-fair}

abbrev pub exp1_ticks : ℕ
exp1_ticks = 1000

abbrev pub n_values : List ℕ
n_values = 10 ∷ 50 ∷ 100 ∷ []

-- The four results for one number of tasks.
pub record Row : Type 0 where
  pub exact : Result
  pub bsa : Result
  pub clti : Result
  pub apaf : Result

-- `allocated` says for each run whether its calls of malloc succeed.
unfoldable pub run_row : (ℕ → ℤ → Bool) → ℕ → Row
run_row allocated n = record {
  exact = run_experiment (allocated n (pos 0)) n (pos 0) exp1_ticks;
  bsa = run_experiment (allocated n (pos 1)) n (pos 1) exp1_ticks;
  clti = run_experiment (allocated n (pos 2)) n (pos 2) exp1_ticks;
  apaf = run_experiment (allocated n (pos 3)) n (pos 3) exp1_ticks;
}

-- The lines that begin with WARNING.
pub data Warning : Type 0 where
  jain_below : ℕ → ℤ → Warning
  not_greater : ℕ → Warning

unfoldable pub jain_warning : ℤ → Result → List Warning
jain_warning li r = if lt r.final_jain (decimal 85 2) then jain_below r.n_tasks li ∷ [] else []

unfoldable pub ops_warning : Row → List Warning
ops_warning row =
    if leb row.apaf.total_ops_saved row.exact.total_ops_saved
    then not_greater row.apaf.n_tasks ∷ []
    else []

unfoldable pub row_warnings : Row → List Warning
row_warnings row =
    jain_warning (pos 0) row.exact
    ++ (jain_warning (pos 1) row.bsa
        ++ (jain_warning (pos 2) row.clti ++ (jain_warning (pos 3) row.apaf ++ ops_warning row)))

unfoldable pub all_warnings : List Row → List Warning
all_warnings [] = []
all_warnings (row ∷ rows) = row_warnings row ++ all_warnings rows

pub record Outcome : Type 0 where
  pub rows : List Row
  pub warnings : List Warning
  pub exit_code : ℕ

-- `opened` says whether the file of the summary opens.
unfoldable pub main_exp1 : (ℕ → ℤ → Bool) → Bool → Outcome
main_exp1 allocated opened =
    let rows = map (run_row allocated) n_values in
    record {
      rows = rows;
      warnings = if not opened then [] else all_warnings rows;
      exit_code = if not opened then 1 else 0;
    }

jain_warning-none :
    (li : ℤ) (r : Result) → 7 * one ≤ 8 * pos_part r.final_jain → jain_warning li r ≡ []
unfolding jain_warning run_double
jain_warning-none li r h = ground arith

-- The warnings of a run, by its allocations alone.
abbrev run_failure : ℕ → ℤ → Bool → List Warning
run_failure n li allocated = if allocated then [] else jain_below n li ∷ []

abbrev row_failures : (ℕ → ℤ → Bool) → ℕ → List Warning
row_failures allocated n =
    run_failure n (pos 0) (allocated n (pos 0))
    ++ (run_failure n (pos 1) (allocated n (pos 1))
        ++ (run_failure n (pos 2) (allocated n (pos 2))
            ++ (run_failure n (pos 3) (allocated n (pos 3))
                ++ (if allocated n (pos 3) then [] else not_greater n ∷ []))))

abbrev pub failures : (ℕ → ℤ → Bool) → List ℕ → List Warning
failures allocated [] = []
failures allocated (n ∷ ns) = row_failures allocated n ++ failures allocated ns

module _ (n : ℕ) (two : 2 ≤ n) (enough : 2 * n ≤ exp1_ticks) where
  jain_warning-run :
      (li : ℤ) (allocated : Bool)
      → IsMode li
      → jain_warning li (run_experiment allocated n li exp1_ticks) ≡ run_failure n li allocated
  unfolding run_experiment empty_result jain_warning run_double
  jain_warning-run li false mode = refl
  jain_warning-run li true mode =
      jain_warning-none li (run_experiment true n li exp1_ticks)
        (run_experiment-fair n exp1_ticks li two enough (omega arith) mode).0

  exact_saved :
      (allocated : Bool) → (run_experiment allocated n (pos 0) exp1_ticks).total_ops_saved ≡ 0
  unfolding run_experiment empty_result
  exact_saved false = refl
  exact_saved true =
      let h =
        run_experiment-saves n exp1_ticks (pos 0) (omega arith) (omega arith, omega arith)
          (omega arith) (omega arith) (omega arith) in
      let most = h.1 in omega arith

  apaf_saved :
      (b : Bool)
      → (if leb (run_experiment b n (pos 3) exp1_ticks).total_ops_saved 0
          then not_greater (run_experiment b n (pos 3) exp1_ticks).n_tasks ∷ []
          else [])
        ≡ (if b then [] else not_greater n ∷ [])
  unfolding run_experiment empty_result
  apaf_saved false = refl
  apaf_saved true =
      let least =
        (run_experiment-saves n exp1_ticks (pos 3) (omega arith) (omega arith, omega arith)
          (omega arith) (omega arith) (omega arith)).0 in
      let some_saved : leb (run_experiment true n (pos 3) exp1_ticks).total_ops_saved 0 ≡ false =
        ground arith in
      rw some_saved refl

  ops_warning-row :
      (allocated : ℕ → ℤ → Bool)
      → ops_warning (run_row allocated n) ≡ (if allocated n (pos 3) then [] else not_greater n ∷ [])
  unfolding ops_warning run_row
  ops_warning-row allocated =
      rw (exact_saved (allocated n (pos 0))) (apaf_saved (allocated n (pos 3)))

  row_warnings-row :
      (allocated : ℕ → ℤ → Bool) → row_warnings (run_row allocated n) ≡ row_failures allocated n
  unfolding row_warnings run_row
  row_warnings-row allocated =
      rw
        (
          jain_warning-run (pos 0) (allocated n (pos 0)) (omega arith, omega arith),
          jain_warning-run (pos 1) (allocated n (pos 1)) (omega arith, omega arith),
          jain_warning-run (pos 2) (allocated n (pos 2)) (omega arith, omega arith),
          jain_warning-run (pos 3) (allocated n (pos 3)) (omega arith, omega arith),
          ops_warning-row allocated,
        )
        refl

-- Experiment 1 warns of just those runs whose allocations fail: once for its index, and under APAF once
-- more for its saved operations. It returns 1, without a warning, where the summary does not open, and
-- 0 otherwise.
pub main_exp1-warnings :
    (allocated : ℕ → ℤ → Bool) (opened : Bool)
    → let o = main_exp1 allocated opened in
      (o.warnings ≡ (if opened then failures allocated n_values else []))
      × (o.exit_code ≡ (if opened then 0 else 1))
unfolding main_exp1 all_warnings
main_exp1-warnings allocated false = (refl, refl)
main_exp1-warnings allocated true = (
  rw
      (
        row_warnings-row 10 (omega arith) (omega arith) allocated,
        row_warnings-row 50 (omega arith) (omega arith) allocated,
        row_warnings-row 100 (omega arith) (omega arith) allocated,
      )
      refl,
  refl,
)
