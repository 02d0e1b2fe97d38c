-- ===== src/Base/Words.antt =====
-- Arithmetic on `u32` and `u64` as native numbers: every operation wraps at the width.
use Prim.Native.Nat.{ℕ, zero, suc, ◌+◌, ◌-◌, ◌*◌, ◌/◌, ◌%◌, ◌^◌}
use toccata.Base.Tests.{ltb, ◌==◌, if◌then◌else◌}

-- `x as u32`
abbrev pub as_u32 : ℕ → ℕ
as_u32 x = x % 2 ^ 32

-- `a + b` and `a - b` on `u32`
abbrev pub add_u32 : ℕ → ℕ → ℕ
add_u32 a b = (a + b) % 2 ^ 32

abbrev pub sub_u32 : ℕ → ℕ → ℕ
sub_u32 a b = (a + 2 ^ 32 - b) % 2 ^ 32

-- `a * b` on `u32`
abbrev pub mul_u32 : ℕ → ℕ → ℕ
mul_u32 a b = (a * b) % 2 ^ 32

-- `a.div_ceil(b)`
abbrev pub div_ceil : ℕ → ℕ → ℕ
div_ceil a b = (a + (b - 1)) / b

-- `a + b`, `a - b` and `a * b` on `usize`, which has 64 digits
abbrev pub add_usize : ℕ → ℕ → ℕ
add_usize a b = (a + b) % 2 ^ 64

abbrev pub sub_usize : ℕ → ℕ → ℕ
sub_usize a b = (a + 2 ^ 64 - b) % 2 ^ 64

abbrev pub mul_usize : ℕ → ℕ → ℕ
mul_usize a b = (a * b) % 2 ^ 64

-- `x as u16`
abbrev pub as_u16 : ℕ → ℕ
as_u16 x = x % 2 ^ 16

-- `x << b`, `x & y`, `x | y` and `!x` on `u64`, and `u64::MAX`
abbrev pub u64_max : ℕ
u64_max = 2 ^ 64 - 1

unfoldable pub shl_u64 : ℕ → ℕ → ℕ
shl_u64 x b = (x * 2 ^ b) % 2 ^ 64

unfoldable pub not_u64 : ℕ → ℕ
not_u64 x = u64_max - x

-- The zeros below the lowest one of a word of `n` digits: `n` where there is no one.
unfoldable pub trailing_zeros_of : ℕ → ℕ → ℕ
trailing_zeros_of zero x = 0
trailing_zeros_of (suc n) x =
    let rest = suc (trailing_zeros_of n (x / 2)) in if x % 2 == 1 then 0 else rest

-- `x.trailing_zeros()` on `u64`
unfoldable pub trailing_zeros : ℕ → ℕ
unfolding trailing_zeros_of
trailing_zeros x = trailing_zeros_of 64 x

-- The zeros above the highest one of a word of `n` digits.
unfoldable pub leading_zeros_of : ℕ → ℕ → ℕ
leading_zeros_of zero x = 0
leading_zeros_of (suc n) x =
    let rest = suc (leading_zeros_of n x) in if ltb x (2 ^ n) then rest else 0

-- `x.leading_zeros()` on `usize`
unfoldable pub leading_zeros : ℕ → ℕ
leading_zeros x = leading_zeros_of 64 x
