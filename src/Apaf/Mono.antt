-- ===== src/Apaf/Mono.antt =====
-- `apaf_decay_load` keeps the order of loads, over one period in each state.
use approximation_computing.Common.{
  ℕ, ◌*◌, ◌/◌, ◌%◌, ◌^◌, ◌≤◌, ◌≡◌, arith, ℤ, pos, mul-le-mul, le_trans, inl, inr, refl, true, Bool,
  leb, leb→le, ◌&&◌, and_left, and_right,
}
use approximation_computing.Double.{one, of_nat, to_nat, mul}
use approximation_computing.Double.Laws.{of_nat-exact, mul_lem}
use approximation_computing.Double.Mono.{round_mono}
use approximation_computing.Task.{apaf_tight, apaf_medium, apaf_loose}
use approximation_computing.Run.{run}
use approximation_computing.Fairness.Controller.{IsState}
use approximation_computing.Apaf.{apaf_decay_load}
use approximation_computing.Apaf.Poly.{magnitude_of, decay_factor-IsClose}
use approximation_computing.Apaf.Decay.{rest_periods}

to_nat_mono : (a b : ℕ) → a ≤ b → to_nat (pos a) ≤ to_nat (pos b)
unfolding to_nat
to_nat_mono a b h = omega arith

product_mono :
    (a b f g : ℕ)
    → a ≤ b
    → b ≤ 2 ^ 53
    → f ≤ g
    → g ≤ one
    → to_nat (mul (of_nat a) (pos f)) ≤ to_nat (mul (of_nat b) (pos g))
product_mono a b f g h fits le unit =
    let small : b * g ≤ 2 ^ 53 * one = mul-le-mul fits unit in
    let more : a * f ≤ b * g = mul-le-mul h le in
    rw (of_nat-exact a (omega arith), of_nat-exact b fits, mul_lem (a * one) f, mul_lem (b * one) g)
      (to_nat_mono _ _ (
        round_mono (a * one * f) one (b * one * g) one (omega arith) (omega arith) (omega arith)
          (omega arith) (omega arith)))

-- A state that decays more, over one period.
decay_mono :
    (a b : ℕ) (s s' : ℤ)
    → IsState s
    → IsState s'
    → a ≤ b
    → b ≤ 2 ^ 53
    → magnitude_of s 1 ≤ magnitude_of s' 1
    → apaf_decay_load a 1 s ≤ apaf_decay_load b 1 s'
decay_mono a b s s' state state' h fits le =
    rw
      (
        rest_periods a 1 s (omega arith) (omega arith) state,
        rest_periods b 1 s' (omega arith) (omega arith) state',
      )
      (product_mono (a / 2 ^ (1 / 32)) (b / 2 ^ (1 / 32)) (magnitude_of s (1 % 32))
        (magnitude_of s' (1 % 32)) (omega arith) (omega arith) le
        (decay_factor-IsClose s' 1 state' (omega arith)).at_most_one)

abbrev factor_order : Bool
factor_order =
    leb (magnitude_of apaf_medium 1) (magnitude_of apaf_tight 1)
    && leb (magnitude_of apaf_tight 1) (magnitude_of apaf_loose 1)

ordered : factor_order ≡ true
unfolding run
ordered = refl

medium-le-tight : magnitude_of apaf_medium 1 ≤ magnitude_of apaf_tight 1
medium-le-tight =
    leb→le _ _ (and_left _ (leb (magnitude_of apaf_tight 1) (magnitude_of apaf_loose 1)) ordered)

tight-le-loose : magnitude_of apaf_tight 1 ≤ magnitude_of apaf_loose 1
tight-le-loose =
    leb→le _ _ (and_right (leb (magnitude_of apaf_medium 1) (magnitude_of apaf_tight 1)) _ ordered)

medium_least : (s : ℤ) → IsState s → magnitude_of apaf_medium 1 ≤ magnitude_of s 1
medium_least s (inl e) = rw e medium-le-tight
medium_least s (inr (inl e)) = rw e (omega arith)
medium_least s (inr (inr e)) = rw e (le_trans medium-le-tight tight-le-loose)

loose_greatest : (s : ℤ) → IsState s → magnitude_of s 1 ≤ magnitude_of apaf_loose 1
loose_greatest s (inl e) = rw e tight-le-loose
loose_greatest s (inr (inl e)) = rw e (le_trans medium-le-tight tight-le-loose)
loose_greatest s (inr (inr e)) = rw e (omega arith)

-- Over one period every state keeps at least what MEDIUM keeps of a smaller load, and at most what
-- LOOSE keeps of a larger one.
pub medium-le-decay :
    (a b : ℕ) (s : ℤ)
    → IsState s
    → a ≤ b
    → b ≤ 2 ^ 53
    → apaf_decay_load a 1 apaf_medium ≤ apaf_decay_load b 1 s
medium-le-decay a b s state h fits =
    decay_mono a b apaf_medium s (inr (inl refl)) state h fits (medium_least s state)

pub decay-le-loose :
    (a b : ℕ) (s : ℤ)
    → IsState s
    → a ≤ b
    → b ≤ 2 ^ 53
    → apaf_decay_load a 1 s ≤ apaf_decay_load b 1 apaf_loose
decay-le-loose a b s state h fits =
    decay_mono a b s apaf_loose state (inr (inr refl)) h fits (loose_greatest s state)
