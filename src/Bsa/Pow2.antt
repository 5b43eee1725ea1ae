-- ===== src/Bsa/Pow2.antt =====
-- `bsa_nearest_pow2`: the loop ends by its test, and the result is the power of two that lies nearest.
use native.Mathlib.Nat.{mod-eq_of_lt, two-pow-succ, pow-suc}
use native.Mathlib.Decide.{dec_lt}
use approximation_computing.Common.{
  ℕ, zero, suc, ◌+◌, ◌-◌, ◌*◌, ◌%◌, ◌^◌, ◌≤◌, ◌<◌, ◌≡◌, ◌⊎◌, inl, inr, refl, arith, Bool, true,
  false, not, ◌&&◌, leb, ◌==◌, if◌then◌else◌, two-pow-pos, two-pow-le,
}
use approximation_computing.Words.{u32, sub32}
use approximation_computing.Bsa.{floor_loop, bsa_nearest_pow2}

-- The largest power of two that is at most the weight, or 2^31.
abbrev pub IsFloor : ℕ → ℕ → Type 0
IsFloor w p = (k : ℕ) × (p ≡ 2 ^ k) × (k ≤ 31) × (p ≤ w) × (w < 2 * p)

doubled : (k : ℕ) → k < 31 → 2 ^ k * 2 % 2 ^ 32 ≡ 2 ^ suc k
doubled k h =
    let bound : 2 ^ suc k ≤ 2 ^ 31 = two-pow-le h in rw (← pow-suc 2 k) (mod-eq_of_lt (omega arith))

-- The test of the loop.
abbrev goes_on : ℕ → ℕ → Bool
goes_on w next = not (next == 0) && leb next w

goes_on-true : (w next : ℕ) → 0 < next → next ≤ w → goes_on w next ≡ true
goes_on-true w next p h = ground arith

goes_on-false : (w next : ℕ) → w < next → goes_on w next ≡ false
goes_on-false w next h = ground arith

-- From 2^k on, with fuel for the doublings that are left.
floor_loop-IsFloor :
    (fuel w k : ℕ)
    → 32 ≤ fuel + k
    → k ≤ 31
    → w < 2 ^ 32
    → 2 ^ k ≤ w
    → IsFloor w (floor_loop fuel w (2 ^ k))
unfolding floor_loop
floor_loop-IsFloor zero w k f h fits le = absurd (omega arith)
floor_loop-IsFloor (suc fuel) w k f h fits le = elim (dec_lt k 31) [
  | yes lt ↦ rw (doubled k lt) (elim (dec_lt w (2 ^ suc k)) [
    | no ge ↦
        rw (goes_on-true w (2 ^ suc k) (two-pow-pos (suc k)) (omega arith))
          (floor_loop-IsFloor fuel w (suc k) (omega arith) lt fits (omega arith))
    | yes above ↦
        rw (goes_on-false w (2 ^ suc k) above) (k, refl, h, le, omega (arith, two-pow-succ k))
  ])
  | no last ↦
      let e : k ≡ 31 = omega arith in
      let le' : 2 ^ 31 ≤ w = rw e at le in rw e (31, refl, omega arith, le', omega arith)
]

-- The power of two that the function returns for a weight that is not 0.
pub bsa_nearest_pow2-IsFloor : (w : ℕ) → 0 < w → w < 2 ^ 32 → IsFloor w (floor_loop 32 w 1)
bsa_nearest_pow2-IsFloor w p h = floor_loop-IsFloor 32 w 0 (omega arith) (omega arith) h p

-- The two cases, by the middle between the two powers of two.
Chosen : ℕ → ℕ → ℕ → Type 0
Chosen w k p =
    ((p ≡ 2 ^ k) × (2 * w ≤ 3 * 2 ^ k)) ⊎ ((p ≡ 2 ^ suc k) × (k < 31) × (3 * 2 ^ k < 2 * w))

-- The choice between the two, once the loop has ended.
choose : ℕ → ℕ → ℕ
choose weight floor_pow2 =
    let ceil_pow2 = u32 (floor_pow2 * 2) in
    if floor_pow2 == weight
    then weight
    else if ceil_pow2 == 0
    then floor_pow2
    else if leb (sub32 weight floor_pow2) (sub32 ceil_pow2 weight)
    then floor_pow2
    else ceil_pow2

choose_lem :
    (w k : ℕ) → k ≤ 31 → w ≤ 2 ^ 31 → 2 ^ k ≤ w → w < 2 * 2 ^ k → Chosen w k (choose w (2 ^ k))
unfolding choose Chosen
choose_lem w k h fits le lt = elim (dec_lt k 31) [
  | yes below ↦ rw (doubled k below) (ground (arith, two-pow-succ k, two-pow-pos k))
  | no last ↦
      let e : k ≡ 31 = omega arith in
      let le' : 2 ^ 31 ≤ w = rw e at le in
      let e' : w ≡ 2 ^ 31 = omega arith in rw (e, e') (inl (refl, omega arith))
]

nearest_eq_choose : (w : ℕ) → 0 < w → bsa_nearest_pow2 w ≡ choose w (floor_loop 32 w 1)
unfolding bsa_nearest_pow2 choose
nearest_eq_choose w h = ground arith

-- |a - b|.
abbrev pub dist : ℕ → ℕ → ℕ
dist a b = (a - b) + (b - a)

-- A power of two lies at or below the floor, or at or above its double.
around : (k j : ℕ) → (2 ^ j ≤ 2 ^ k) ⊎ (2 * 2 ^ k ≤ 2 ^ j)
around k j = elim (dec_lt k j) [
  | yes h ↦ inr (omega (arith, two-pow-le h, two-pow-succ k))
  | no h ↦ inl (two-pow-le (omega arith))
]

Chosen-dist :
    (w k p : ℕ)
    → 2 ^ k ≤ w
    → w < 2 * 2 ^ k
    → Chosen w k p
    → ((j : ℕ) → dist w p ≤ dist w (2 ^ j)) × (3 * p ≤ 4 * w) × (2 * w ≤ 3 * p)
unfolding Chosen
Chosen-dist w k p le lt (inl (e, c)) =
    rw e (λ j. omega (arith, around k j), omega arith, omega arith)
Chosen-dist w k p le lt (inr (e, below, c)) = rw e (
  λ j. omega (arith, around k j, two-pow-succ k),
  omega (arith, two-pow-succ k),
  omega (arith, two-pow-succ k),
)

Chosen-power : (w k p : ℕ) → k ≤ 31 → Chosen w k p → (n : ℕ) × (p ≡ 2 ^ n) × (n ≤ 31)
unfolding Chosen
Chosen-power w k p h (inl (e, c)) = (k, e, h)
Chosen-power w k p h (inr (e, below, c)) = (suc k, e, below)

-- For a weight from 1 to 2^31 the result is a power of two at least as near as any other; the mantissa weight / p lies
-- between 3/4 and 3/2.
pub bsa_nearest_pow2-nearest :
    (w : ℕ)
    → 0 < w
    → w ≤ 2 ^ 31
    → let p = bsa_nearest_pow2 w in
      ((k : ℕ) × (p ≡ 2 ^ k) × (k ≤ 31))
      × ((j : ℕ) → dist w p ≤ dist w (2 ^ j))
      × (3 * p ≤ 4 * w)
      × (2 * w ≤ 3 * p)
bsa_nearest_pow2-nearest w pos_w h =
    let (k, e, k_le, le, lt) = bsa_nearest_pow2-IsFloor w pos_w (omega arith) in
    let le' : 2 ^ k ≤ w = rw e at le in
    let lt' : w < 2 * 2 ^ k = rw e at lt in
    rw (nearest_eq_choose w pos_w, e)
      (let chosen = choose_lem w k k_le h le' lt' in
        let (near, low, high) = Chosen-dist w k _ le' lt' chosen in
        (Chosen-power w k _ k_le chosen, near, low, high))
