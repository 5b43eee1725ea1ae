-- ===== src/Double/Millionths.antt =====
-- What `%.6f` keeps of a double: the nearest millionth.
use native.Mathlib.Nat.{div-add-mod', mod-lt}
use approximation_computing.Common.{
  ℕ, suc, ◌+◌, ◌*◌, ◌/◌, ◌%◌, ◌^◌, ◌≤◌, ◌<◌, ◌≡◌, refl, ◌⊎◌, inl, inr, arith, ltb, Bool-cases,
  two-pow-pos,
}
use approximation_computing.Double.{nearest, one, in_millionths}

nearest-cases :
    (num d : ℕ)
    → ((nearest num d ≡ num / d) × (2 * (num % d) ≤ d))
      ⊎ ((nearest num d ≡ suc (num / d)) × (d ≤ 2 * (num % d)))
unfolding nearest
nearest-cases num d = elim (Bool-cases (ltb (2 * (num % d)) d)) [
  | inl low ↦ inl (rw low refl, ground arith)
  | inr high ↦ ground arith
]

pub nearest-near :
    (num d : ℕ)
    → 0 < d
    → (2 * num ≤ 2 * (nearest num d * d) + d) × (2 * (nearest num d * d) ≤ 2 * num + d)
nearest-near num d p = elim (nearest-cases num d) [
  | inl (e, h) ↦ rw e (omega (arith, div-add-mod' num d))
  | inr (e, h) ↦ rw e (omega (arith, div-add-mod' num d, mod-lt num p))
]

-- The number of millionths is off by at most half a millionth.
pub in_millionths-near :
    (m : ℕ)
    → (2 * (m * 10 ^ 6) ≤ 2 * (in_millionths m * one) + one)
      × (2 * (in_millionths m * one) ≤ 2 * (m * 10 ^ 6) + one)
unfolding in_millionths
in_millionths-near m = nearest-near (m * 10 ^ 6) one (two-pow-pos 1074)
