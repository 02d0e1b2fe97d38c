-- ===== src/Base/Masks.antt =====
-- Words that are put together from fields, and fields that are cut out of words.
use Prim.Native.Nat.{ℕ, zero, suc, ◌+◌, ◌-◌, ◌*◌, ◌/◌, ◌%◌, ◌^◌, ◌<◌, ◌≤◌, bit_and, bit_or}
use mathlib.Core.Path.{◌≡◌, refl, ap}
use native.Mathlib.Omega.{arith}
use native.Mathlib.Nat.{pow-suc}
use toccata.Base.Bits.{bit_and-lowest, bit_or-lowest, mul-half, pow-pos, mod-double}

bit_or_zero : (n x : ℕ) → x ≤ n → bit_or x 0 ≡ x
bit_or_zero n zero h = refl
bit_or_zero zero (suc x) h = absurd (omega arith)
bit_or_zero (suc n) (suc x) h =
    omega (arith, bit_or-lowest (suc x) 0, bit_or_zero n (suc x / 2) (omega arith))

pub bit_and_zero : (n x : ℕ) → x ≤ n → bit_and x 0 ≡ 0
bit_and_zero n zero h = refl
bit_and_zero zero (suc x) h = absurd (omega arith)
bit_and_zero (suc n) (suc x) h =
    omega (arith, bit_and-lowest (suc x) 0, bit_and_zero n (suc x / 2) (omega arith))

-- `x << n | y`
pub bit_or_field : (n x y : ℕ) → y < 2 ^ n → bit_or (x * 2 ^ n) y ≡ x * 2 ^ n + y
bit_or_field zero x y h =
    let none_low : y ≡ 0 = omega arith in
    rw none_low (omega (arith, bit_or_zero (x * 1) (x * 1) (omega arith)))
bit_or_field (suc n) x y h = omega (
  arith,
  bit_or-lowest (x * 2 ^ suc n) y,
  ap (λ (t : ℕ). bit_or t (y / 2)) (mul-half n x),
  bit_or_field n x (y / 2) (omega (arith, pow-suc 2 n)),
  ap (λ (t : ℕ). x * t) (pow-suc 2 n),
)

pub ones-half : (n : ℕ) → (2 ^ suc n - 1) / 2 ≡ 2 ^ n - 1
ones-half n = omega (arith, pow-suc 2 n, pow-pos n)

-- `x & (2 ^ n - 1)`
pub bit_and_ones : (n x : ℕ) → bit_and x (2 ^ n - 1) ≡ x % 2 ^ n
bit_and_ones zero x = omega (arith, bit_and_zero x x (omega arith))
bit_and_ones (suc n) x = omega (
  arith,
  bit_and-lowest x (2 ^ suc n - 1),
  ap (bit_and (x / 2)) (ones-half n),
  bit_and_ones n (x / 2),
  mod-double n x,
  pow-suc 2 n,
  pow-pos n,
)
