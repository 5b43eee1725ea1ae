-- ===== src/Clti/Classes.antt =====
-- `clti_weight_to_class`: the class is a nearest one, and the scaled runtime is that of its
-- representative.
use approximation_computing.Common.{
  ℕ, zero, suc, ◌+◌, ◌^◌, ◌≤◌, ◌<◌, ◌≡◌, inl, inr, refl, arith, true, false, leb, ltb, ◌==◌, ◌&&◌,
  get_or, List, [], ◌∷◌, Bool-cases, ==_iff, leb→le, ltb→lt, and_left, and_right, length, le_refl,
  all_below, all_below_sound,
}
use approximation_computing.Bsa.{bsa_newton_reciprocal}
use approximation_computing.Bsa.Pow2.{dist}
use approximation_computing.Bsa.Newton.{newton_one}
use approximation_computing.Bsa.Delta.{IsNear, reciprocal-IsNear, unscaled-IsNear}
use approximation_computing.Clti.{
  class_entry, class_diff, class_loop, later_classes, clti_weight_to_class, clti_vruntime_delta,
}

-- The loop keeps the best class in hand, or finds a nearer one further on.
data Nearest (w : ℕ) (reps : List ℕ) (i best best_diff r : ℕ) : Type 0 where
  kept :
      r ≡ best
      → ((j : ℕ) → j < length reps → best_diff ≤ class_diff w (get_or reps j 0))
      → Nearest w reps i best best_diff r
  found :
      (k : ℕ)
      → r ≡ i + k
      → k < length reps
      → class_diff w (get_or reps k 0) < best_diff
      → ((j : ℕ)
          → j < length reps
          → class_diff w (get_or reps k 0) ≤ class_diff w (get_or reps j 0))
      → Nearest w reps i best best_diff r

take_class :
    (w rep : ℕ) (reps : List ℕ) (i best best_diff r : ℕ)
    → class_diff w rep < best_diff
    → Nearest w reps (i + 1) i (class_diff w rep) r
    → Nearest w (rep ∷ reps) i best best_diff r
take_class w rep reps i best best_diff r closer (kept e all) =
    found zero (omega arith) (omega arith) closer least
  where
    least :
        (j : ℕ) → j < suc (length reps) → class_diff w rep ≤ class_diff w (get_or (rep ∷ reps) j 0)
    least zero h = le_refl _
    least (suc j) h = all j (omega arith)
take_class w rep reps i best best_diff r closer (found k e below nearer all) =
    found (suc k) (omega arith) (omega arith) (omega arith) least
  where
    least :
        (j : ℕ)
        → j < suc (length reps)
        → class_diff w (get_or reps k 0) ≤ class_diff w (get_or (rep ∷ reps) j 0)
    least zero h = omega arith
    least (suc j) h = all j (omega arith)

skip_class :
    (w rep : ℕ) (reps : List ℕ) (i best best_diff r : ℕ)
    → best_diff ≤ class_diff w rep
    → Nearest w reps (i + 1) best best_diff r
    → Nearest w (rep ∷ reps) i best best_diff r
skip_class w rep reps i best best_diff r further (kept e all) = kept e least
  where
    least : (j : ℕ) → j < suc (length reps) → best_diff ≤ class_diff w (get_or (rep ∷ reps) j 0)
    least zero h = further
    least (suc j) h = all j (omega arith)
skip_class w rep reps i best best_diff r further (found k e below nearer all) =
    found (suc k) (omega arith) (omega arith) nearer least
  where
    least :
        (j : ℕ)
        → j < suc (length reps)
        → class_diff w (get_or reps k 0) ≤ class_diff w (get_or (rep ∷ reps) j 0)
    least zero h = omega arith
    least (suc j) h = all j (omega arith)

class_loop-Nearest :
    (w : ℕ) (reps : List ℕ) (i best best_diff : ℕ)
    → Nearest w reps i best best_diff (class_loop w reps i best best_diff)
unfolding class_loop
class_loop-Nearest w [] i best best_diff = kept refl (λ j h. absurd (omega arith))
class_loop-Nearest w (rep ∷ reps) i best best_diff =
    elim (Bool-cases (ltb (class_diff w rep) best_diff)) [
      | inl closer ↦ rw closer (
          take_class w rep reps i best best_diff _ (ground arith)
            (class_loop-Nearest w reps (i + 1) i (class_diff w rep)))
      | inr further ↦ rw further (
          skip_class w rep reps i best best_diff _ (ground arith)
            (class_loop-Nearest w reps (i + 1) best best_diff))
    ]

-- A class of the table, by the distance of the code.
record IsLeast (w cls : ℕ) : Type 0 where
  in_table : cls < 8
  least : (j : ℕ) → j < 8 → class_diff w (class_entry cls) ≤ class_diff w (class_entry j)

of_loop : (w r : ℕ) → Nearest w later_classes 1 0 (class_diff w (class_entry 0)) r → IsLeast w r
unfolding class_entry
of_loop w r (kept e all) = record { in_table = omega arith; least = rw e all_least }
  where
    all_least : (j : ℕ) → j < 8 → class_diff w (class_entry 0) ≤ class_diff w (class_entry j)
    all_least zero h = le_refl _
    all_least (suc j) h = all j (omega arith)
of_loop w r (found k e below nearer all) =
    let e' : r ≡ suc k = omega arith in record { in_table = omega arith; least = rw e' all_least }
  where
    all_least : (j : ℕ) → j < 8 → class_diff w (class_entry (suc k)) ≤ class_diff w (class_entry j)
    all_least zero h = omega arith
    all_least (suc j) h = all j (omega arith)

four-IsLeast : IsLeast 1024 4
unfolding class_entry class_diff
four-IsLeast = record { in_table = omega arith; least = λ j h. omega arith }

weight_to_class-IsLeast : (w : ℕ) → IsLeast w (clti_weight_to_class w)
unfolding clti_weight_to_class
weight_to_class-IsLeast w = elim (Bool-cases (w == 1024)) [
  | inl e ↦ rw ((==_iff w 1024).0 e) four-IsLeast
  | inr e ↦
      rw e (of_loop w _ (class_loop-Nearest w later_classes 1 0 (class_diff w (class_entry 0))))
]

-- A class of the table no representative of which is nearer to the weight, as numbers that do not wrap.
pub record IsNearest (w cls : ℕ) : Type 0 where
  pub in_table : cls < 8
  pub nearest : (j : ℕ) → j < 8 → dist w (class_entry cls) ≤ dist w (class_entry j)

-- Between words of 32 bits the distance of the code is the true one.
class_diff_lem : (w rep : ℕ) → w < 2 ^ 32 → rep < 2 ^ 32 → class_diff w rep ≡ dist w rep
unfolding class_diff
class_diff_lem w rep h k = ground arith

class_entry-small : all_below 8 (λ j. ltb (class_entry j) (2 ^ 32)) ≡ true
unfolding all_below class_entry
class_entry-small = refl

entry_diff : (w j : ℕ) → w < 2 ^ 32 → j < 8 → class_diff w (class_entry j) ≡ dist w (class_entry j)
entry_diff w j fits h =
    let small = all_below_sound 8 (λ j. ltb (class_entry j) (2 ^ 32)) j class_entry-small h in
    class_diff_lem w (class_entry j) fits (ltb→lt _ _ small)

-- For every weight below 2^32 the class is one of the eight, and no representative is nearer to the
-- weight than that of the class, where the distance is the difference of the two numbers.
pub clti_weight_to_class-IsNearest : (w : ℕ) → w < 2 ^ 32 → IsNearest w (clti_weight_to_class w)
clti_weight_to_class-IsNearest w fits =
    let cls : ℕ = clti_weight_to_class w in
    let h = weight_to_class-IsLeast w in
    let mine = entry_diff w cls fits h.in_table in
    record {
      in_table = h.in_table;
      nearest = λ j k. let other = entry_diff w j fits k in omega (arith, h.least j k);
    }

class_sizes : all_below 8 (λ j. leb 2 (class_entry j) && leb (class_entry j) (2 ^ 17)) ≡ true
unfolding all_below class_entry
class_sizes = refl

class_of_unit : class_entry (clti_weight_to_class 1024) ≡ 1024
unfolding class_entry clti_weight_to_class
class_of_unit = refl

-- For a weight above 0 and a runtime below 2^32, the runtime is scaled as for the representative of the class: never above
-- delta * 1024 / representative, and rounded up at least 97.5% of it.
pub clti_vruntime_delta-IsNear :
    (d w : ℕ)
    → 0 < w
    → d < 2 ^ 32
    → IsNear 975 d (class_entry (clti_weight_to_class w)) (clti_vruntime_delta d w)
unfolding clti_vruntime_delta
clti_vruntime_delta-IsNear d w some_weight fits = elim (Bool-cases (w == 1024)) [
  | inl e ↦ rw ((==_iff w 1024).0 e, class_of_unit) (unscaled-IsNear 975 d (omega arith))
  | inr e ↦
      let cls : ℕ = clti_weight_to_class w in
      let size =
        all_below_sound 8 (λ j. leb 2 (class_entry j) && leb (class_entry j) (2 ^ 17)) cls
          class_sizes (weight_to_class-IsLeast w).in_table in
      let large : 2 ≤ class_entry cls = leb→le _ _ (and_left _ _ size) in
      let small : class_entry cls ≤ 2 ^ 17 =
        leb→le _ _ (and_right (leb 2 (class_entry cls)) _ size) in
      let (high, low) = newton_one (class_entry cls) (omega arith) small in
      let not_zero : (w == 0) ≡ false = ground arith in
      rw (e, not_zero)
        (reciprocal-IsNear 975 d (class_entry cls) (bsa_newton_reciprocal (class_entry cls) 1) large
          fits high low)
]
