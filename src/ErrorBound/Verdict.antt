-- ===== src/ErrorBound/Verdict.antt =====
-- apex-cfs/experiments/exp4_error_bound.c, `main`: three runs, the two text files, and the exit code.
-- The tables on the console and in the summary show the fields of the results.
use approximation_computing.Common.{
  ℕ, suc, ◌-◌, ◌≡◌, ◌↔◌, refl, arith, Bool, true, false, ◌&&◌, Option, none, some, List, [], ◌∷◌,
  ◌==◌, if◌then◌else◌, ℤ, pos,
}
use approximation_computing.ErrorBound.{ErrorResult, Violation, unmeasured, run_exp4}
use approximation_computing.ErrorBound.Report.{run_exp4-IsVerified}

abbrev pub logics : List ℤ
logics = pos 1 ∷ pos 2 ∷ pos 3 ∷ []

-- The results, and the log of violations after them.
unfoldable pub run_logics : (ℤ → Bool) → List ℤ → List Violation → List ErrorResult × List Violation
run_logics allocated [] log = ([], log)
run_logics allocated (logic ∷ rest) log =
    let first = run_exp4 (allocated logic) logic log in
    let others = run_logics allocated rest first.1 in (first.0 ∷ others.0, others.1)

unfoldable pub count_verified : List ErrorResult → ℕ
count_verified [] = 0
count_verified (r ∷ rest) =
    if r.bound_verified then suc (count_verified rest) else count_verified rest

unfoldable pub without_violations : List ErrorResult → Bool
without_violations [] = true
without_violations (r ∷ rest) = (r.n_violations == 0) && without_violations rest

-- `results/exp4_violations.txt`.
pub data ViolationsFile : Type 0 where
  no_violations_detected : ViolationsFile
  violations_detected : List Violation → ViolationsFile

-- The last lines of the summary and of the console.
pub data Conclusion : Type 0 where
  all_within : Conclusion
  warning : ℕ → Conclusion

pub record Verdict : Type 0 where
  pub results : List ErrorResult
  pub n_verified : ℕ
  pub violations_file : Option ViolationsFile
  pub conclusion : Conclusion
  pub exit_code : ℕ

-- `allocated` says for each of the schedulers whether the calls of malloc succeed, `opened` whether the
-- file of violations opens.
unfoldable pub main_exp4 : (ℤ → Bool) → Bool → Verdict
main_exp4 allocated opened =
    let (results, log) = run_logics allocated logics [] in
    let n_verified = count_verified results in
    record {
      results = results;
      n_verified = n_verified;
      violations_file =
          if opened
          then some (
              if without_violations results
              then no_violations_detected
              else violations_detected log)
          else none;
      conclusion = if n_verified == 3 then all_within else warning (3 - n_verified);
      exit_code = if n_verified == 3 then 0 else 1;
    }

-- A run reports no violation, is verified just where its allocations succeed, and leaves the log.
record IsOrderly (allocated : Bool) (logic : ℤ) (log : List Violation) : Type 0 where
  violations : ((run_exp4 allocated logic log).0.n_violations == 0) ≡ true
  verified : (run_exp4 allocated logic log).0.bound_verified ≡ allocated
  same_log : (run_exp4 allocated logic log).1 ≡ log

run_exp4-IsOrderly :
    (allocated : Bool) (logic : ℤ) (log : List Violation) → IsOrderly allocated logic log
unfolding run_exp4 unmeasured
run_exp4-IsOrderly false logic log = record { violations = refl; verified = refl; same_log = refl }
run_exp4-IsOrderly true logic log =
    let h = run_exp4-IsVerified logic log in
    let v = h.0.violations in
    record { violations = rw v refl; verified = h.0.verified; same_log = h.1 }

count_true : List Bool → ℕ
count_true [] = 0
count_true (b ∷ bs) = if b then suc (count_true bs) else count_true bs

abbrev allocations : (ℤ → Bool) → List ℤ → List Bool
allocations allocated [] = []
allocations allocated (logic ∷ rest) = allocated logic ∷ allocations allocated rest

record AreOrderly (allocated : ℤ → Bool) (ls : List ℤ) (log : List Violation) : Type 0 where
  clear : without_violations (run_logics allocated ls log).0 ≡ true
  counted : count_verified (run_logics allocated ls log).0 ≡ count_true (allocations allocated ls)

run_logics-AreOrderly :
    (allocated : ℤ → Bool) (ls : List ℤ) (log : List Violation) → AreOrderly allocated ls log
unfolding run_logics without_violations count_verified count_true
run_logics-AreOrderly allocated [] log = record { clear = refl; counted = refl }
run_logics-AreOrderly allocated (logic ∷ rest) log =
    let h = run_exp4-IsOrderly (allocated logic) logic log in
    let k = run_logics-AreOrderly allocated rest (run_exp4 (allocated logic) logic log).1 in
    record { clear = rw (h.violations, k.clear) refl; counted = rw (h.verified, k.counted) refl }

-- The test behind the exit code and the conclusion.
all_counted :
    (a b c : Bool) → ((count_true (a ∷ b ∷ c ∷ []) == 3) ≡ true) ↔ ((a && (b && c)) ≡ true)
unfolding count_true
all_counted a b c = ground arith

abbrev exit_of : Bool → ℕ
exit_of b = if b then 0 else 1

exit_code_lem : (b : Bool) → (exit_of b ≡ 0) ↔ (b ≡ true)
exit_code_lem b = ground arith

conclusion_lem :
    (b : Bool) (n : ℕ) → ((if b then all_within else warning n) ≡ all_within) ↔ (b ≡ true)
conclusion_lem true n = (λ _. refl, λ _. refl)
conclusion_lem false n = (λ e. absurd cc, λ e. absurd cc)

-- The program returns 0 just where the allocations of all three runs succeed. But its file of
-- violations, where it opens, says that no violation was detected and all three schedulers are
-- confirmed, whether or not the runs were made.
pub main_exp4-exit_code :
    (allocated : ℤ → Bool) (opened : Bool)
    → let v = main_exp4 allocated opened in
      let all = allocated (pos 1) && (allocated (pos 2) && allocated (pos 3)) in
      ((v.exit_code ≡ 0) ↔ (all ≡ true))
      × ((v.conclusion ≡ all_within) ↔ (all ≡ true))
      × (v.violations_file ≡ (if opened then some no_violations_detected else none))
unfolding main_exp4
main_exp4-exit_code allocated opened =
    let h = run_logics-AreOrderly allocated logics [] in
    let counted = count_verified (run_logics allocated logics []).0 in
    let e = exit_code_lem (counted == 3) in
    let k = conclusion_lem (counted == 3) (3 - counted) in
    let all = all_counted (allocated (pos 1)) (allocated (pos 2)) (allocated (pos 3)) in
    let n = h.counted in
    let same : ((counted == 3) ≡ true)
        ↔ ((allocated (pos 1) && (allocated (pos 2) && allocated (pos 3))) ≡ true) =
      rw n all in
    let c = h.clear in
    (
      (λ x. same.0 (e.0 x), λ x. e.1 (same.1 x)),
      (λ x. same.0 (k.0 x), λ x. k.1 (same.1 x)),
      rw c refl,
    )
