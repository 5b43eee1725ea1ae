-- ===== src/Text.antt =====
-- Texts as C's `printf` writes them: the conversions `%llu`, `%d`, `%s` and `%.6f`, as lists of the
-- codes of their characters.
pub mod Read
pub mod Prefix
use Prim.Native.Char.{code}
use Prim.Native.String.{String}
use approximation_computing.Common.{
  ℕ, zero, suc, Bool, ◌==◌, ◌&&◌, ◌+◌, ◌/◌, ◌%◌, ◌^◌, true, false, List, [], ◌∷◌, ◌++◌, ltb, ℤ, pos,
  negsuc,
}
use approximation_computing.Double.{Double, in_millionths}

abbrev pub Bytes : Type 0
Bytes = List ℕ

-- `%s` of a literal.
abbrev pub codes : String → Bytes
codes String.[] = []
codes (String.◌∷◌ c s) = code c ∷ codes s

-- `strcmp` finds no difference.
abbrev pub same : Bytes → Bytes → Bool
same [] [] = true
same [] (d ∷ t) = false
same (c ∷ s) [] = false
same (c ∷ s) (d ∷ t) = (c == d) && same s t

-- The digits of `n` in front of `out`; `fuel` above `n` is enough.
unfoldable pub emit : ℕ → ℕ → Bytes → Bytes
emit zero n out = out
emit (suc fuel) n out = elim (ltb n 10) [
  | true ↦ (b'0' + n) ∷ out
  | false ↦ emit fuel (n / 10) ((b'0' + n % 10) ∷ out)
]

-- `%llu`.
unfoldable pub print_nat : ℕ → Bytes
print_nat n = emit (suc n) n []

-- `%d`.
unfoldable pub print_int : ℤ → Bytes
print_int (pos n) = print_nat n
print_int (negsuc n) = b'-' ∷ print_nat (suc n)

-- The last `width` digits of `n` in front of `out`, with leading zeros.
unfoldable pub pad : ℕ → ℕ → Bytes → Bytes
pad zero n out = out
pad (suc width) n out = pad width (n / 10) ((b'0' + n % 10) ∷ out)

unfoldable pub print_millionths : ℕ → Bytes
print_millionths n = print_nat (n / 10 ^ 6) ++ b'.' ∷ pad 6 (n % 10 ^ 6) []

-- `%.6f`.
unfoldable pub print_double : Double → Bytes
print_double (pos m) = print_millionths (in_millionths m)
print_double (negsuc m) = b'-' ∷ print_millionths (in_millionths (suc m))
