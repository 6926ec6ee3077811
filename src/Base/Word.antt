-- ===== src/Base/Word.antt =====
-- Machine integers as bit patterns: `short` below 2 ^ 16, `int` below 2 ^ 32, `long` below 2 ^ 64.
use Prim.Native.Nat.{ℕ, ◌+◌, ◌-◌, ◌%◌, ◌^◌}
use mathlib.Core.Bool.{Bool}
use option_hedge.Base.Tests.{ltb, if◌then◌else◌}

abbrev pub to_short : ℕ → ℕ
to_short n = n % 2 ^ 16

abbrev pub to_int : ℕ → ℕ
to_int n = n % 2 ^ 32

abbrev pub to_long : ℕ → ℕ
to_long n = n % 2 ^ 64

-- The pattern of -1 in each width.
abbrev pub minus_one_short : ℕ
minus_one_short = 2 ^ 16 - 1

abbrev pub minus_one_int : ℕ
minus_one_int = 2 ^ 32 - 1

abbrev pub minus_one_long : ℕ
minus_one_long = 2 ^ 64 - 1

-- Signed comparison: adding half the range turns it into that of the patterns.
abbrev pub short_lt : ℕ → ℕ → Bool
short_lt a b = ltb ((a + 2 ^ 15) % 2 ^ 16) ((b + 2 ^ 15) % 2 ^ 16)

abbrev pub int_lt : ℕ → ℕ → Bool
int_lt a b = ltb ((a + 2 ^ 31) % 2 ^ 32) ((b + 2 ^ 31) % 2 ^ 32)

abbrev pub long_lt : ℕ → ℕ → Bool
long_lt a b = ltb ((a + 2 ^ 63) % 2 ^ 64) ((b + 2 ^ 63) % 2 ^ 64)

-- Conversion to a wider type keeps the sign.
abbrev pub short_to_int : ℕ → ℕ
short_to_int n = if ltb n (2 ^ 15) then n else n + (2 ^ 32 - 2 ^ 16)

abbrev pub int_to_long : ℕ → ℕ
int_to_long n = if ltb n (2 ^ 31) then n else n + (2 ^ 64 - 2 ^ 32)
