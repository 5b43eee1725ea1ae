-- ===== src/Text/Read.antt =====
-- Numbers read back from the texts that `printf` writes, and the fields of a line.
use mathlib.Core.Option
use approximation_computing.Common.{
  ℕ, zero, suc, ◌+◌, ◌-◌, ◌*◌, ◌/◌, ◌%◌, ◌^◌, ◌<◌, ◌≡◌, refl, arith, true, false, Option, none,
  some, List, [], ◌∷◌, ◌++◌, ltb, leb, ◌==◌, ◌&&◌, if◌then◌else◌, ℤ, pos, negsuc, All, Bool-cases,
  inl, inr,
}
use approximation_computing.Double.{Double, opposite, in_millionths}
use approximation_computing.Text.{
  Bytes, emit, print_nat, print_int, pad, print_millionths, print_double,
}

-- The number that digits spell behind `n`; `none` at any other character.
abbrev pub value : Bytes → ℕ → Option ℕ
value [] n = some n
value (c ∷ s) n = if leb b'0' c && leb c b'9' then value s (n * 10 + (c - b'0')) else none

-- A text without the character.
abbrev pub Lacks : ℕ → Bytes → Type 0
Lacks sep = All (λ c. (c == sep) ≡ false)

value-emit : (fuel n : ℕ) (out : Bytes) → n < fuel → value (emit fuel n out) 0 ≡ value out n
unfolding emit
value-emit zero n out h = absurd (omega arith)
value-emit (suc fuel) n out h = ground (arith, value-emit fuel (n / 10) ((b'0' + n % 10) ∷ out))

pub value-print_nat : (n : ℕ) → value (print_nat n) 0 ≡ some n
unfolding print_nat
value-print_nat n = value-emit (suc n) n [] (omega arith)

pub value-pad :
    (width n : ℕ) (out : Bytes) → n < 10 ^ width → value (pad width n out) 0 ≡ value out n
unfolding pad
value-pad zero n out h = let none_left : n ≡ 0 = omega arith in rw none_left refl
value-pad (suc width) n out h = ground (arith, value-pad width (n / 10) ((b'0' + n % 10) ∷ out))

-- No digit is the separator.
abbrev pub NoDigit : ℕ → Type 0
NoDigit sep = (d : ℕ) → d < 10 → ((b'0' + d) == sep) ≡ false

emit-Lacks :
    (sep fuel n : ℕ) (out : Bytes) → NoDigit sep → Lacks sep out → Lacks sep (emit fuel n out)
unfolding emit
emit-Lacks sep zero n out d h = h
emit-Lacks sep (suc fuel) n out d h = elim (Bool-cases (ltb n 10)) [
  | inl low ↦ rw (low, emit) (d n (ground arith), h)
  | inr high ↦ rw (high, emit) (emit-Lacks sep fuel (n / 10) _ d (d (n % 10) (omega arith), h))
]

pub print_nat-Lacks : (sep n : ℕ) → NoDigit sep → Lacks sep (print_nat n)
unfolding print_nat
print_nat-Lacks sep n d = emit-Lacks sep (suc n) n [] d tt

pub pad-Lacks :
    (sep width n : ℕ) (out : Bytes) → NoDigit sep → Lacks sep out → Lacks sep (pad width n out)
unfolding pad
pad-Lacks sep zero n out d h = h
pad-Lacks sep (suc width) n out d h = pad-Lacks sep width (n / 10) _ d (d (n % 10) (omega arith), h)

-- The parts of a text between the separators.
abbrev pub push : ℕ → List Bytes → List Bytes
push c [] = (c ∷ []) ∷ []
push c (part ∷ parts) = (c ∷ part) ∷ parts

unfoldable pub cut : ℕ → Bytes → List Bytes
cut sep [] = [] ∷ []
cut sep (c ∷ s) = elim (c == sep) [ true ↦ [] ∷ cut sep s | false ↦ push c (cut sep s) ]

pub cut_at : (sep : ℕ) (s rest : Bytes) → Lacks sep s → cut sep (s ++ sep ∷ rest) ≡ s ∷ cut sep rest
unfolding cut
cut_at sep [] rest h = ground arith
cut_at sep (c ∷ s) rest (h, hs) = rw (h, cut) (rw (cut_at sep s rest hs) refl)

pub cut_end : (sep : ℕ) (s : Bytes) → Lacks sep s → cut sep s ≡ s ∷ []
unfolding cut
cut_end sep [] h = refl
cut_end sep (c ∷ s) (h, hs) = rw (h, cut) (rw (cut_end sep s hs) refl)

pub Lacks-append : (sep : ℕ) (s t : Bytes) → Lacks sep s → Lacks sep t → Lacks sep (s ++ t)
Lacks-append sep [] t h k = k
Lacks-append sep (c ∷ s) t (h, hs) k = (h, Lacks-append sep s t hs k)

-- A number behind an optional minus sign, by a reader of what follows.
abbrev signed : (Bytes → Option ℕ) → Bytes → Option ℤ
signed read [] = Option.map pos (read [])
signed read (c ∷ s) =
    if c == b'-' then Option.map opposite (read s) else Option.map pos (read (c ∷ s))

abbrev pub read_nat : Bytes → Option ℕ
read_nat s = value s 0

unfoldable pub read_int : Bytes → Option ℤ
read_int s = signed read_nat s

abbrev of_parts : Option ℕ → Option ℕ → Option ℕ
of_parts none y = none
of_parts (some x) none = none
of_parts (some x) (some y) = some (x * 10 ^ 6 + y)

abbrev of_fields : List Bytes → Option ℕ
of_fields [] = none
of_fields (whole ∷ []) = none
of_fields (whole ∷ fraction ∷ []) = of_parts (read_nat whole) (read_nat fraction)
of_fields (whole ∷ fraction ∷ f ∷ fs) = none

-- A decimal number with six digits behind the point, in millionths.
unfoldable pub read_millionths : Bytes → Option ℕ
read_millionths s = of_fields (cut b'.' s)

unfoldable pub read_double : Bytes → Option ℤ
read_double s = signed read_millionths s

no_point : NoDigit b'.'
no_point d h = ground arith

pub no_minus : NoDigit b'-'
no_minus d h = ground arith

pub read_millionths-print : (n : ℕ) → read_millionths (print_millionths n) ≡ some n
unfolding read_millionths print_millionths
read_millionths-print n =
    rw
      (
        cut_at b'.' (print_nat (n / 10 ^ 6)) (pad 6 (n % 10 ^ 6) [])
            (print_nat-Lacks b'.' _ no_point),
        cut_end b'.' (pad 6 (n % 10 ^ 6) []) (pad-Lacks b'.' 6 _ [] no_point tt),
        value-print_nat (n / 10 ^ 6),
        value-pad 6 (n % 10 ^ 6) [] (omega arith),
      )
      (ground arith)

-- A text that does not start with a minus sign is read as a number that is not negative.
signed-pos :
    (read : Bytes → Option ℕ) (s : Bytes) (n : ℕ)
    → Lacks b'-' s
    → read s ≡ some n
    → signed read s ≡ some (pos n)
signed-pos read [] n h e = rw e refl
signed-pos read (c ∷ s) n (h, hs) e = rw (h, e) refl

pub read_int-print : (n : ℤ) → read_int (print_int n) ≡ some n
unfolding read_int print_int
read_int-print (pos n) =
    signed-pos read_nat (print_nat n) n (print_nat-Lacks b'-' n no_minus) (value-print_nat n)
read_int-print (negsuc n) = rw (value-print_nat (suc n)) refl

print_millionths-Lacks :
    (sep n : ℕ) → NoDigit sep → (b'.' == sep) ≡ false → Lacks sep (print_millionths n)
unfolding print_millionths
print_millionths-Lacks sep n d h =
    Lacks-append sep (print_nat (n / 10 ^ 6)) _ (print_nat-Lacks sep _ d)
      (h, pad-Lacks sep 6 _ [] d tt)

-- What a text of `%.6f` keeps of a double.
unfoldable pub millionths : Double → ℤ
millionths (pos m) = pos (in_millionths m)
millionths (negsuc m) = opposite (in_millionths (suc m))

pub read_double-print : (x : Double) → read_double (print_double x) ≡ some (millionths x)
unfolding read_double print_double millionths
read_double-print (pos m) =
    signed-pos read_millionths _ _ (print_millionths-Lacks b'-' _ no_minus refl)
      (read_millionths-print (in_millionths m))
read_double-print (negsuc m) = rw (read_millionths-print (in_millionths (suc m))) refl

pub print_int-Lacks :
    (sep : ℕ) (n : ℤ) → NoDigit sep → (b'-' == sep) ≡ false → Lacks sep (print_int n)
unfolding print_int
print_int-Lacks sep (pos n) d h = print_nat-Lacks sep n d
print_int-Lacks sep (negsuc n) d h = (h, print_nat-Lacks sep (suc n) d)

pub print_double-Lacks :
    (sep : ℕ) (x : Double)
    → NoDigit sep
    → (b'.' == sep) ≡ false
    → (b'-' == sep) ≡ false
    → Lacks sep (print_double x)
unfolding print_double
print_double-Lacks sep (pos m) d h k = print_millionths-Lacks sep _ d h
print_double-Lacks sep (negsuc m) d h k = (k, print_millionths-Lacks sep _ d h)
