-- ===== src/Base/Word.antt =====
-- Machine integers by their bit patterns: `off_t` and `size_t` have 64 bits, `short` has 16.
use Prim.Native.Nat.{ℕ, ◌+◌, ◌-◌, ◌%◌, ◌^◌}
use mathlib.Core.Bool.{Bool}
use course_pj.Base.Tests.{ltb, leb, if◌then◌else◌}

abbrev pub mod64 : ℕ
mod64 = 2 ^ 64

abbrev pub mod16 : ℕ
mod16 = 2 ^ 16

-- The pattern of -1.
abbrev pub minus_one : ℕ
minus_one = 2 ^ 64 - 1

abbrev pub short_minus_one : ℕ
short_minus_one = 2 ^ 16 - 1

-- `x < 0` of a signed 64-bit pattern, and of a signed 16-bit one.
abbrev pub is_neg : ℕ → Bool
is_neg x = leb (2 ^ 63) x

abbrev pub short_is_neg : ℕ → Bool
short_is_neg x = leb (2 ^ 15) x

-- `a < b` of signed 64-bit patterns, and of signed 16-bit ones.
abbrev pub slt : ℕ → ℕ → Bool
slt a b = ltb ((a + 2 ^ 63) % 2 ^ 64) ((b + 2 ^ 63) % 2 ^ 64)

abbrev pub short_lt : ℕ → ℕ → Bool
short_lt a b = ltb ((a + 2 ^ 15) % 2 ^ 16) ((b + 2 ^ 15) % 2 ^ 16)

-- A `short` converted to 64 bits.
abbrev pub sign_extend : ℕ → ℕ
sign_extend x = if short_is_neg x then x + (2 ^ 64 - 2 ^ 16) else x

-- `a + b` and `a - b` stored in a `short`.
abbrev pub add16 : ℕ → ℕ → ℕ
add16 a b = (a + b) % 2 ^ 16

abbrev pub sub16 : ℕ → ℕ → ℕ
sub16 a b = (a + 2 ^ 16 - b) % 2 ^ 16

-- `a + b` and `a - b` of 64-bit words.
abbrev pub add64 : ℕ → ℕ → ℕ
add64 a b = (a + b) % 2 ^ 64

abbrev pub sub64 : ℕ → ℕ → ℕ
sub64 a b = (a + 2 ^ 64 - b) % 2 ^ 64

-- The rounds of a loop `for (int j = 0; j < size; j++)` over a `short`.
abbrev pub rounds : ℕ → ℕ
rounds size = if short_is_neg size then 0 else size

-- An `int` as a 32-bit pattern: -1, and the test for a negative one.
abbrev pub int_minus_one : ℕ
int_minus_one = 2 ^ 32 - 1

abbrev pub int_is_neg : ℕ → Bool
int_is_neg x = leb (2 ^ 31) x
