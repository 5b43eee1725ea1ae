-- ===== src/Double/Round.antt =====
-- What rounding to 53 bits keeps: the exponent is the least one, and no representable number is
-- crossed.
use native.Mathlib.Nat.{
  two-pow-succ, div-add-mod', div-le_of_le-mul, le-div_iff_mul-le, mul_comm, mul-pos,
  le_of_mul-le-mul_right,
}
use approximation_computing.Common.{
  ℕ, zero, suc, ◌+◌, ◌-◌, ◌*◌, ◌/◌, ◌%◌, ◌^◌, ◌≤◌, ◌<◌, ◌≡◌, ◌⊎◌, inl, inr, refl, arith, ltb,
  Bool-cases, ltb→lt, not-ltb→le, mul-two-pow, two-pow-pos, two-pow-le, pow-add, ap, le_trans,
  mul-le-mul_right,
}
use native.Mathlib.Decide.{dec_le}
use approximation_computing.Double.{exponent, nearest, round_at, round}

-- The exponent found behind a first jump by `p`.
exponent_jump :
    (p num den e : ℕ)
    → den * 2 ^ (52 + p) ≤ num
    → num < den * 2 ^ p * 2 ^ (53 + e)
    → (e ≡ 0) ⊎ (den * 2 ^ p * 2 ^ (52 + e) ≤ num)
    → (num < den * 2 ^ (53 + (p + e))) × ((p + e ≡ 0) ⊎ (den * 2 ^ (52 + (p + e)) ≤ num))
exponent_jump p num den e high below least =
    (omega (arith, mul-two-pow den p (53 + e) {r = 53 + (p + e)} (omega arith)), inr (above least))
  where
    above : (e ≡ 0) ⊎ (den * 2 ^ p * 2 ^ (52 + e) ≤ num) → den * 2 ^ (52 + (p + e)) ≤ num
    above (inl z) = let same : 52 + (p + e) ≡ 52 + p = omega arith in rw same high
    above (inr g) = omega (arith, mul-two-pow den p (52 + e) {r = 52 + (p + e)} (omega arith))

pub exponent_lem :
    (k num den : ℕ)
    → num < den * 2 ^ (52 + 2 ^ k)
    → (num < den * 2 ^ (53 + exponent k num den))
      × ((exponent k num den ≡ 0) ⊎ (den * 2 ^ (52 + exponent k num den) ≤ num))
unfolding exponent
exponent_lem zero num den h = (h, inl refl)
exponent_lem (suc k) num den h = elim (Bool-cases (ltb num (den * 2 ^ (52 + 2 ^ k)))) [
  | inl low ↦ rw (low, exponent) (exponent_lem k num den (ltb→lt _ _ low))
  | inr high ↦
      let p : ℕ = 2 ^ k in
      let twice : p + (52 + p) ≡ 52 + 2 ^ suc k = omega (arith, two-pow-succ k) in
      let (below, least) =
        exponent_lem k num (den * 2 ^ p) (omega (arith, mul-two-pow den p (52 + p) twice)) in
      rw (high, exponent) (exponent_jump p num den _ (not-ltb→le _ _ high) below least)
]

pub nearest-le : (num d m : ℕ) → 0 < d → num ≤ m * d → nearest num d ≤ m
unfolding nearest
nearest-le num d m d_pos h =
    let floor : num / d ≤ m = div-le_of_le-mul d (omega (arith, mul_comm d m)) in
    ground (arith, div-add-mod' num d, exact_multiple)
  where
    exact_multiple : num / d ≡ m → num % d ≡ 0
    exact_multiple e = let same : num / d * d ≡ m * d = rw e in omega (arith, div-add-mod' num d)

pub le-nearest : (num d m : ℕ) → 0 < d → m * d ≤ num → m ≤ nearest num d
unfolding nearest
le-nearest num d m d_pos h = let floor : m ≤ num / d = (le-div_iff_mul-le d_pos).1 h in ground arith

-- The numbers that the rounding reads: below 2^2048 in the unit of the result, which no double passes.
abbrev pub InRange : ℕ → ℕ → Type 0
InRange num den = num < den * 2 ^ (52 + 2 ^ 12)

abbrev pub IsExponent : ℕ → ℕ → ℕ → Type 0
IsExponent e num den = (num < den * 2 ^ (53 + e)) × ((e ≡ 0) ⊎ (den * 2 ^ (52 + e) ≤ num))

-- With more than 52 bits of the exponent in use, the quotient has its top bit set.
pub top_bit : (e j num den : ℕ) → IsExponent e num den → suc j ≤ e → den * 2 ^ (52 + e) ≤ num
top_bit e j num den (below, inl z) h = absurd (omega arith)
top_bit e j num den (below, inr g) h = g

-- A multiple of 2 ^ j, as a multiple of a smaller power.
coarser : (m e j : ℕ) → e ≤ j → m * 2 ^ (j - e) * 2 ^ e ≡ m * 2 ^ j
coarser m e j h = mul-two-pow m (j - e) e (omega arith)

pub small : {m e j : ℕ} → m ≤ 2 ^ 53 → suc j ≤ e → m * 2 ^ j ≤ 2 ^ 52 * 2 ^ e
small {m} {e} {j} fits h =
    omega (arith, mul-le-mul_right (2 ^ j) fits, two-pow-le h, two-pow-succ j)

module _ (e num den : ℕ) (den_pos : 0 < den) (exp : IsExponent e num den) (m j : ℕ) where
  scale_pos : 0 < den * 2 ^ e
  scale_pos = mul-pos den_pos (two-pow-pos e)

  at_scale : (k : ℕ) → k * (den * 2 ^ e) ≡ k * 2 ^ e * den
  at_scale k = omega arith

  round_at-le : m ≤ 2 ^ 53 → num ≤ m * 2 ^ j * den → round_at e num den ≤ m * 2 ^ j
  unfolding round_at
  round_at-le fits h = elim (dec_le e j) [
    | yes le ↦
        let c = coarser m e j le in
        let n =
          nearest-le num (den * 2 ^ e) (m * 2 ^ (j - e)) scale_pos
            (rw (at_scale (m * 2 ^ (j - e)), c) h) in
        rw (← c) (mul-le-mul_right (2 ^ e) n)
    | no gt ↦
        let lt : suc j ≤ e = omega arith in
        let top : 2 ^ 52 * 2 ^ e * den ≤ num =
          omega (arith, top_bit e j num den exp lt, ap (λ (t : ℕ). den * t) (pow-add 2 52 e)) in
        let room : m * 2 ^ j ≤ 2 ^ 52 * 2 ^ e = small fits lt in
        let n =
          nearest-le num (den * 2 ^ e) (2 ^ 52) scale_pos
            (rw (at_scale (2 ^ 52)) (le_trans h (mul-le-mul_right den room))) in
        le_trans (mul-le-mul_right (2 ^ e) n) (le_of_mul-le-mul_right (le_trans top h) den_pos)
  ]

  le-round_at : m ≤ 2 ^ 53 → m * 2 ^ j * den ≤ num → m * 2 ^ j ≤ round_at e num den
  unfolding round_at
  le-round_at fits h = elim (dec_le e j) [
    | yes le ↦
        let c = coarser m e j le in
        let n =
          le-nearest num (den * 2 ^ e) (m * 2 ^ (j - e)) scale_pos
            (rw (at_scale (m * 2 ^ (j - e)), c) h) in
        rw (← c) (mul-le-mul_right (2 ^ e) n)
    | no gt ↦
        let lt : suc j ≤ e = omega arith in
        let top : 2 ^ 52 * 2 ^ e * den ≤ num =
          omega (arith, top_bit e j num den exp lt, ap (λ (t : ℕ). den * t) (pow-add 2 52 e)) in
        let n = le-nearest num (den * 2 ^ e) (2 ^ 52) scale_pos (rw (at_scale (2 ^ 52)) top) in
        le_trans (small fits lt) (mul-le-mul_right (2 ^ e) n)
  ]

module _ (num den : ℕ) (den_pos : 0 < den) (range : InRange num den) where
  -- Rounding does not pass a representable number from below.
  pub round-le : (m j : ℕ) → m ≤ 2 ^ 53 → num ≤ m * 2 ^ j * den → round num den ≤ m * 2 ^ j
  unfolding round
  round-le m j fits h = round_at-le _ num den den_pos (exponent_lem 12 num den range) m j fits h

  -- Nor from above.
  pub le-round : (m j : ℕ) → m ≤ 2 ^ 53 → m * 2 ^ j * den ≤ num → m * 2 ^ j ≤ round num den
  unfolding round
  le-round m j fits h = le-round_at _ num den den_pos (exponent_lem 12 num den range) m j fits h
