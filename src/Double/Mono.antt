-- ===== src/Double/Mono.antt =====
-- Rounding is monotone, also where the two numbers have different exponents.
use native.Mathlib.Nat.{
  div-add-mod', mul-pos, le_of_mul-le-mul_right, le-div_iff_mul-le, div-mul-le_self,
}
use native.Mathlib.Decide.{dec_lt}
use approximation_computing.Common.{
  ℕ, suc, ◌+◌, ◌*◌, ◌/◌, ◌%◌, ◌^◌, ◌≤◌, ◌<◌, ◌≡◌, ap, arith, pow-add, two-pow-pos, two-pow-le,
  le_refl, le_trans, mul-le-mul_right, mul-le-mul_left,
}
use approximation_computing.Double.{exponent, nearest, round_at, round}
use approximation_computing.Double.Round.{
  IsExponent, InRange, exponent_lem, nearest-le, le-nearest, top_bit, small,
}

rest_of_equal : (q d r d' r' : ℕ) → (q * d + r) * d' ≤ (q * d' + r') * d → r * d' ≤ r' * d
rest_of_equal q d r d' r' h = omega arith

-- Where r / d is at most r' / d', a half that the first passes is passed by the second.
over_half : (d r d' r' : ℕ) → 0 < d → 0 < d' → r * d' ≤ r' * d → d < 2 * r → d' < 2 * r'
over_half d r d' r' p p' h g = elim (dec_lt d' (2 * r')) [
  | yes y ↦ y
  | no n ↦
      let a : suc d * d' ≤ 2 * r * d' = mul-le-mul_right d' g in
      let b : 2 * r' * d ≤ d' * d = mul-le-mul_right d (omega arith) in absurd (omega arith)
]

from_half : (d r d' r' : ℕ) → 0 < d → 0 < d' → r * d' ≤ r' * d → d ≤ 2 * r → d' ≤ 2 * r'
from_half d r d' r' p p' h g =
    le_of_mul-le-mul_right {k = d} (omega (arith, mul-le-mul_right {m = d} {n = 2 * r} d' g)) p

module _ (num d num' d' : ℕ) (d_pos : 0 < d) (d'_pos : 0 < d') (h : num * d' ≤ num' * d) where
  floors : num / d ≤ num' / d'
  floors = (le-div_iff_mul-le d'_pos).1 (
      le_of_mul-le-mul_right {k = d} (omega (arith, mul-le-mul_right d' (div-mul-le_self num d)))
        d_pos)

  rests : num / d ≡ num' / d' → num % d * d' ≤ num' % d' * d
  rests e =
      rest_of_equal (num / d) d (num % d) d' (num' % d')
        (rw (div-add-mod' num d) (rw (e, div-add-mod' num' d') h))

  nearest_mono : nearest num d ≤ nearest num' d'
  unfolding nearest
  nearest_mono = ground (
    arith,
    floors,
    λ (e : num / d ≡ num' / d'). over_half d (num % d) d' (num' % d') d_pos d'_pos (rests e),
    λ (e : num / d ≡ num' / d'). from_half d (num % d) d' (num' % d') d_pos d'_pos (rests e),
  )

same_exponent :
    (e num den num' den' : ℕ)
    → 0 < den
    → 0 < den'
    → num * den' ≤ num' * den
    → round_at e num den ≤ round_at e num' den'
unfolding round_at
same_exponent e num den num' den' p p' h = mul-le-mul_right (2 ^ e) (
    nearest_mono num (den * 2 ^ e) num' (den' * 2 ^ e) (mul-pos p (two-pow-pos e))
      (mul-pos p' (two-pow-pos e)) (omega (arith, mul-le-mul_right (2 ^ e) h)))

smaller_exponent :
    (e num den e' num' den' : ℕ)
    → 0 < den
    → 0 < den'
    → IsExponent e num den
    → IsExponent e' num' den'
    → e < e'
    → round_at e num den ≤ round_at e' num' den'
unfolding round_at
smaller_exponent e num den e' num' den' p p' exp exp' lt =
    let n = nearest-le num (den * 2 ^ e) (2 ^ 53) (mul-pos p (two-pow-pos e)) (upper exp) in
    let n' = le-nearest num' (den' * 2 ^ e') (2 ^ 52) (mul-pos p' (two-pow-pos e')) lower in
    le_trans (mul-le-mul_right (2 ^ e) n)
      (le_trans (small (le_refl (2 ^ 53)) lt) (mul-le-mul_right (2 ^ e') n'))
  where
    upper : IsExponent e num den → num ≤ 2 ^ 53 * (den * 2 ^ e)
    upper x = omega (arith, ap (λ (t : ℕ). den * t) (pow-add 2 53 e), x.0)

    lower : 2 ^ 52 * (den' * 2 ^ e') ≤ num'
    lower =
        omega (arith, ap (λ (t : ℕ). den' * t) (pow-add 2 52 e'), top_bit e' e num' den' exp' lt)

larger_exponent_absurd :
    (e num den e' num' den' : ℕ)
    → 0 < den
    → IsExponent e num den
    → IsExponent e' num' den'
    → num * den' ≤ num' * den
    → ¬ (e' < e)
larger_exponent_absurd e num den e' num' den' p exp exp' h lt =
    let top = mul-le-mul_right den' (top_bit e e' num den exp lt) in
    let below : suc num' * den ≤ den' * 2 ^ (53 + e') * den = mul-le-mul_right den exp'.0 in
    let powers : 2 ^ (53 + e') ≤ 2 ^ (52 + e) = two-pow-le (omega arith) in
    omega (arith, mul-le-mul_left (den * den') powers)

round_at_mono :
    (e num den e' num' den' : ℕ)
    → 0 < den
    → 0 < den'
    → IsExponent e num den
    → IsExponent e' num' den'
    → num * den' ≤ num' * den
    → round_at e num den ≤ round_at e' num' den'
round_at_mono e num den e' num' den' p p' exp exp' h = elim (dec_lt e e') [
  | yes lt ↦ smaller_exponent e num den e' num' den' p p' exp exp' lt
  | no ge ↦
      let same : e ≡ e' =
        omega (arith, larger_exponent_absurd e num den e' num' den' p exp exp' h) in
      rw (← same) (same_exponent e num den num' den' p p' h)
]

pub round_mono :
    (num den num' den' : ℕ)
    → 0 < den
    → 0 < den'
    → InRange num den
    → InRange num' den'
    → num * den' ≤ num' * den
    → round num den ≤ round num' den'
unfolding round
round_mono num den num' den' p p' range range' h =
    round_at_mono (exponent 12 num den) num den (exponent 12 num' den') num' den' p p'
      (exponent_lem 12 num den range) (exponent_lem 12 num' den' range') h
