-- ===== src/Base/Bits.antt =====
-- The binary digits of a machine word, and what the word operations do to them.
use Prim.Native.Nat.{
  ℕ, zero, suc, ◌+◌, ◌-◌, ◌*◌, ◌/◌, ◌%◌, ◌^◌, ◌<◌, ◌≤◌, min, max, bit_and, bit_or, digits,
  bit_and-bitwise, bit_or-bitwise,
}
use mathlib.Core.Path.{◌≡◌, refl, ap}
use mathlib.Core.Logic.{◌≢◌, inl, inr}
use mathlib.Core.Bool.{Bool, true, false, not, ◌&&◌, ◌||◌}
use native.Mathlib.Omega.{arith}
use native.Mathlib.Nat.{pow-suc}
use toccata.Base.Tests.{ltb, leb, ◌==◌, Bool-cases}
use toccata.Base.Words.{u64_max, shl_u64, not_u64, trailing_zeros_of, trailing_zeros}

-- Digit `k` of `w`, from the lowest on.
unfoldable pub bit : ℕ → ℕ → Bool
bit w zero = w % 2 == 1
bit w (suc k) = bit (w / 2) k

-- The native word operations fold a function over the digits with as much fuel as the first word
-- is large. More fuel changes nothing, so the lowest digit can be split off.
module _ (rest : ℕ → ℕ) (join : ℕ → ℕ → ℕ) where
  spare_fuel : (x m n y : ℕ) → x ≤ m → x ≤ n → digits rest join m x y ≡ digits rest join n x y
  spare_fuel zero zero zero y l u = refl
  spare_fuel zero zero (suc n) y l u = refl
  spare_fuel zero (suc m) zero y l u = refl
  spare_fuel zero (suc m) (suc n) y l u = refl
  spare_fuel (suc x) zero n y l u = elim l [ ]
  spare_fuel (suc x) (suc m) zero y l u = elim u [ ]
  spare_fuel (suc x) (suc m) (suc n) y l u =
      let half : suc x / 2 ≤ x = omega arith in
      omega (arith, spare_fuel (suc x / 2) m n (y / 2) (omega (arith, half)) (omega (arith, half)))

  lowest_apart :
      (x y : ℕ)
      → digits rest join (suc x) (suc x) y
        ≡ digits rest join (suc x / 2) (suc x / 2) (y / 2) * 2 + join (suc x % 2) (y % 2)
  lowest_apart x y =
      omega (arith, spare_fuel (suc x / 2) x (suc x / 2) (y / 2) (omega arith) (omega arith))

pub zero-bit_and : (y : ℕ) → bit_and 0 y ≡ 0
zero-bit_and = bit_and-bitwise 0

zero-bit_or : (y : ℕ) → bit_or 0 y ≡ y
zero-bit_or = bit_or-bitwise 0

pub bit_and-lowest : (x y : ℕ) → bit_and x y ≡ bit_and (x / 2) (y / 2) * 2 + min (x % 2) (y % 2)
bit_and-lowest zero y = omega (arith, zero-bit_and y, zero-bit_and (y / 2))
bit_and-lowest (suc x) y =
    rw (bit_and-bitwise (suc x) y, bit_and-bitwise (suc x / 2) (y / 2))
      (lowest_apart (λ _. 0) min x y)

pub bit_or-lowest : (x y : ℕ) → bit_or x y ≡ bit_or (x / 2) (y / 2) * 2 + max (x % 2) (y % 2)
bit_or-lowest zero y = omega (arith, zero-bit_or y, zero-bit_or (y / 2))
bit_or-lowest (suc x) y =
    rw (bit_or-bitwise (suc x) y, bit_or-bitwise (suc x / 2) (y / 2))
      (lowest_apart (λ b. b) max x y)

bit_and-half : (a b : ℕ) → bit_and a b / 2 ≡ bit_and (a / 2) (b / 2)
bit_and-half a b = omega (arith, bit_and-lowest a b)

bit_or-half : (a b : ℕ) → bit_or a b / 2 ≡ bit_or (a / 2) (b / 2)
bit_or-half a b = omega (arith, bit_or-lowest a b)

pub bit-bit_and : (k a b : ℕ) → bit (bit_and a b) k ≡ (bit a k && bit b k)
unfolding bit
bit-bit_and zero a b = ground (arith, bit_and-lowest a b)
bit-bit_and (suc k) a b = rw (bit_and-half a b) (bit-bit_and k (a / 2) (b / 2))

pub bit-bit_or : (k a b : ℕ) → bit (bit_or a b) k ≡ (bit a k || bit b k)
unfolding bit
bit-bit_or zero a b = ground (arith, bit_or-lowest a b)
bit-bit_or (suc k) a b = rw (bit_or-half a b) (bit-bit_or k (a / 2) (b / 2))

pub bit-zero : (k : ℕ) → bit 0 k ≡ false
unfolding bit
bit-zero zero = refl
bit-zero (suc k) = bit-zero k

pub pow-half : (b : ℕ) → 2 ^ suc b / 2 ≡ 2 ^ b
pow-half b = omega (arith, pow-suc 2 b)

pub bit-pow : (b k : ℕ) → bit (2 ^ b) k ≡ (k == b)
unfolding bit
bit-pow zero zero = refl
bit-pow zero (suc k) = ground (arith, bit-zero k)
bit-pow (suc b) zero = ground (arith, pow-suc 2 b)
bit-pow (suc b) (suc k) = rw (pow-half b) (ground (arith, bit-pow b k))

pub pow-pos : (n : ℕ) → 0 < 2 ^ n
pow-pos zero = omega arith
pow-pos (suc n) = omega (arith, pow-suc 2 n, pow-pos n)

pub mod-double : (n x : ℕ) → x % 2 ^ suc n ≡ x / 2 % 2 ^ n * 2 + x % 2
mod-double n x = rw (pow-suc 2 n) (grind (arith, pow-pos n))

mod-half : (n x : ℕ) → x % 2 ^ suc n / 2 ≡ x / 2 % 2 ^ n
mod-half n x = omega (arith, mod-double n x)

pub mul-half : (b x : ℕ) → x * 2 ^ suc b / 2 ≡ x * 2 ^ b
mul-half b x = omega (arith, ap (λ (t : ℕ). x * t) (pow-suc 2 b))

complement-half : (n x : ℕ) → x < 2 ^ suc n → (2 ^ suc n - 1 - x) / 2 ≡ 2 ^ n - 1 - x / 2
complement-half n x h = omega (arith, pow-suc 2 n)

-- The digits of a word of `n` digits that is cut off, shifted or complemented.
pub bit-mod : (n k x : ℕ) → bit (x % 2 ^ n) k ≡ (ltb k n && bit x k)
unfolding bit
bit-mod zero k x = ground (arith, bit-zero k)
bit-mod (suc n) zero x =
    let low : x % 2 ^ suc n % 2 ≡ x % 2 = omega (arith, mod-double n x) in rw low (ground arith)
bit-mod (suc n) (suc k) x = rw (mod-half n x) (ground (arith, bit-mod n k (x / 2)))

bit-mul : (b k x : ℕ) → bit (x * 2 ^ b) k ≡ (leb b k && bit x (k - b))
unfolding bit
bit-mul zero k x = ground arith
bit-mul (suc b) zero x =
    let low : x * 2 ^ suc b % 2 ≡ 0 = omega (arith, ap (λ (t : ℕ). x * t) (pow-suc 2 b)) in
    rw low (ground arith)
bit-mul (suc b) (suc k) x = rw (mul-half b x) (ground (arith, bit-mul b k x))

bit-complement : (n k x : ℕ) → x < 2 ^ n → k < n → bit (2 ^ n - 1 - x) k ≡ not (bit x k)
unfolding bit
bit-complement zero k x h l = elim l [ ]
bit-complement (suc n) zero x h l = ground (arith, pow-suc 2 n)
bit-complement (suc n) (suc k) x h l =
    rw (complement-half n x h)
      (bit-complement n k (x / 2) (omega (arith, pow-suc 2 n)) (omega arith))

bit_and-le : (n a b : ℕ) → a ≤ n → bit_and a b ≤ a
bit_and-le zero zero b h = omega (arith, zero-bit_and b)
bit_and-le zero (suc a) b h = absurd (omega arith)
bit_and-le (suc n) zero b h = omega (arith, zero-bit_and b)
bit_and-le (suc n) (suc a) b h =
    omega (arith, bit_and-lowest (suc a) b, bit_and-le n (suc a / 2) (b / 2) (omega arith))

-- `&` and `|` of two words is a word.
pub bit_and-lt : (n a b : ℕ) → a < 2 ^ n → bit_and a b < 2 ^ n
bit_and-lt n a b h = omega (arith, bit_and-le a a b (omega arith))

pub bit_or-lt : (n a b : ℕ) → a < 2 ^ n → b < 2 ^ n → bit_or a b < 2 ^ n
bit_or-lt zero a b p q = let e : a ≡ 0 = omega arith in rw (e, zero-bit_or b) q
bit_or-lt (suc n) a b p q = omega (
  arith,
  bit_or-lowest a b,
  pow-suc 2 n,
  bit_or-lt n (a / 2) (b / 2) (omega (arith, pow-suc 2 n)) (omega (arith, pow-suc 2 n)),
)

pub shl_u64-lt : (x b : ℕ) → shl_u64 x b < 2 ^ 64
unfolding shl_u64
shl_u64-lt x b = omega arith

pub bit-shl_u64 : (b k x : ℕ) → k < 64 → bit (shl_u64 x b) k ≡ (leb b k && bit x (k - b))
unfolding shl_u64
bit-shl_u64 b k x h = rw (bit-mod 64 k (x * 2 ^ b)) (ground (arith, bit-mul b k x))

pub bit-not_u64 : (k x : ℕ) → x < 2 ^ 64 → k < 64 → bit (not_u64 x) k ≡ not (bit x k)
unfolding not_u64
bit-not_u64 k x p q = bit-complement 64 k x p q

pub bit-u64_max : (k : ℕ) → k < 64 → bit u64_max k ≡ true
bit-u64_max k h = ground (arith, bit-complement 64 k 0 (omega arith) h, bit-zero k)

-- What the three read-modify-write forms of the source do to digit `k` of a word.
-- `w | 1u64 << b`
pub bit-or_shl :
    (b k w : ℕ) → b < 64 → k < 64 → bit (bit_or w (shl_u64 1 b)) k ≡ (bit w k || (k == b))
bit-or_shl b k w p q =
    ground (arith, bit-bit_or k w (shl_u64 1 b), bit-shl_u64 b k 1 q, bit-pow 0 (k - b))

-- `w & !(1u64 << b)`
pub bit-and_not_shl :
    (b k w : ℕ)
    → b < 64
    → k < 64
    → bit (bit_and w (not_u64 (shl_u64 1 b))) k ≡ (bit w k && not (k == b))
bit-and_not_shl b k w p q = ground (
  arith,
  bit-bit_and k w (not_u64 (shl_u64 1 b)),
  bit-not_u64 k (shl_u64 1 b) (shl_u64-lt 1 b) q,
  bit-shl_u64 b k 1 q,
  bit-pow 0 (k - b),
)

-- `w & (u64::MAX << b)`
pub bit-and_mask :
    (b k w : ℕ) → k < 64 → bit (bit_and w (shl_u64 u64_max b)) k ≡ (bit w k && leb b k)
bit-and_mask b k w q = ground (
  arith,
  bit-bit_and k w (shl_u64 u64_max b),
  bit-shl_u64 b k u64_max q,
  bit-u64_max (k - b) (omega arith),
)

pub or_shl-lt : (b w : ℕ) → w < 2 ^ 64 → bit_or w (shl_u64 1 b) < 2 ^ 64
or_shl-lt b w h = bit_or-lt 64 w (shl_u64 1 b) h (shl_u64-lt 1 b)

pub ne-zero_of_bit : (w k : ℕ) → bit w k ≡ true → w ≢ 0
ne-zero_of_bit w k h e = cc (rw e at h, bit-zero k)

-- The lowest one of a word.
pub record IsLowest (n w : ℕ) (k : ℕ) : Type 0 where
  pub inside : k < n
  pub one : bit w k ≡ true
  pub least : (j : ℕ) → j < k → bit w j ≡ false

least_suc :
    (w k : ℕ)
    → (w % 2 == 1) ≡ false
    → ((j : ℕ) → j < k → bit (w / 2) j ≡ false)
    → (j : ℕ) → j < suc k
    → bit w j ≡ false
unfolding bit
least_suc w k e h zero l = e
least_suc w k e h (suc j) l = h j (omega arith)

trailing_zeros_of-IsLowest : (n w : ℕ) → w < 2 ^ n → w ≢ 0 → IsLowest n w (trailing_zeros_of n w)
unfolding trailing_zeros_of bit
trailing_zeros_of-IsLowest zero w h ne = absurd (omega arith)
trailing_zeros_of-IsLowest (suc n) w h ne = elim (Bool-cases (w % 2 == 1)) [
  | inl e ↦ rw e (record { inside = omega arith; one = e; least = λ j l. elim l [ ] })
  | inr e ↦
      let ih = trailing_zeros_of-IsLowest n (w / 2) (omega (arith, pow-suc 2 n)) (ground arith) in
      rw e (record {
        inside = omega (arith, ih.inside);
        one = ih.one;
        least = least_suc w (trailing_zeros_of n (w / 2)) e ih.least;
      })
]

pub trailing_zeros-IsLowest : (w : ℕ) → w < 2 ^ 64 → w ≢ 0 → IsLowest 64 w (trailing_zeros w)
unfolding trailing_zeros
trailing_zeros-IsLowest w h ne = trailing_zeros_of-IsLowest 64 w h ne
