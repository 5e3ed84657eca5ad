-- ===== src/Common/Words.antt =====
-- Go's 64-bit `int` as a bit pattern below `2 ^ 64`, in two's complement.
use Prim.Native.Nat.{ℕ, ◌+◌, ◌-◌, ◌%◌, ◌^◌}
use mathlib.Core.Bool.{Bool, ◌&&◌}
use godash.Common.Tests.{ltb, if◌then◌else◌}

abbrev pub int_mod : ℕ
int_mod = 2 ^ 64

abbrev pub int_half : ℕ
int_half = 2 ^ 63

abbrev pub add_int : ℕ → ℕ → ℕ
add_int a b = (a + b) % int_mod

abbrev pub sub_int : ℕ → ℕ → ℕ
sub_int a b = (a + int_mod - b) % int_mod

-- `x > 0`
abbrev pub is_positive : ℕ → Bool
is_positive x = ltb 0 x && ltb x int_half

-- `int(int32(w))` of a 32-bit word.
abbrev pub int_of_int32 : ℕ → ℕ
int_of_int32 w = if ltb w (2 ^ 31) then w else w + (int_mod - 2 ^ 32)
