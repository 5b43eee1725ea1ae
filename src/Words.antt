-- ===== src/Words.antt =====
-- Machine words (`u64`, `u32` of apex-cfs/src/task.h): native numbers that wrap at 2^64 and 2^32.
use approximation_computing.Common.{ℕ, ◌+◌, ◌-◌, ◌/◌, ◌%◌, ◌^◌}

abbrev pub u64_mod : ℕ
u64_mod = 2 ^ 64

abbrev pub u32_mod : ℕ
u32_mod = 2 ^ 32

-- (u64)n and (u32)n.
abbrev pub u64 : ℕ → ℕ
u64 n = n % u64_mod

abbrev pub u32 : ℕ → ℕ
u32 n = n % u32_mod

-- a - b on u64, for operands below 2^64.
abbrev pub sub64 : ℕ → ℕ → ℕ
sub64 a b = (a + u64_mod - b) % u64_mod

-- a - b on u32, for operands below 2^32.
abbrev pub sub32 : ℕ → ℕ → ℕ
sub32 a b = (a + u32_mod - b) % u32_mod

-- a >> k.
abbrev pub shr : ℕ → ℕ → ℕ
shr a k = a / 2 ^ k
