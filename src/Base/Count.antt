-- ===== src/Base/Count.antt =====
-- How many of the first numbers satisfy a test, and the population count of a word.
use Prim.Native.Nat.{ℕ, zero, suc, ◌+◌, ◌/◌, ◌%◌, ◌<◌, ◌≤◌}
use mathlib.Core.Path.{◌≡◌, refl}
use mathlib.Core.Logic.{inl, inr}
use mathlib.Core.Bool.{Bool, true, false}
use native.Mathlib.Omega.{arith}
use toccata.Base.Tests.{◌==◌, if◌then◌else◌, Bool-cases}
use toccata.Base.Bits.{bit}

-- `x.count_ones()` of a word of `n` digits
unfoldable pub count_ones : ℕ → ℕ → ℕ
count_ones zero x = 0
count_ones (suc n) x = x % 2 + count_ones n (x / 2)

unfoldable pub count_below : (ℕ → Bool) → ℕ → ℕ
count_below f zero = 0
count_below f (suc n) = count_below f n + (if f n then 1 else 0)

pub count_below-le : (f : ℕ → Bool) (n : ℕ) → count_below f n ≤ n
unfolding count_below
count_below-le f zero = omega arith
count_below-le f (suc n) = ground (arith, count_below-le f n)

pub count_below-congr :
    (f g : ℕ → Bool) (n : ℕ) → ((i : ℕ) → i < n → f i ≡ g i) → count_below f n ≡ count_below g n
unfolding count_below
count_below-congr f g zero h = refl
count_below-congr f g (suc n) h =
    ground (arith, count_below-congr f g n (λ i l. h i (omega arith)), h n)

pub count_below-append :
    (f : ℕ → Bool) (m n : ℕ)
    → count_below f (m + n) ≡ count_below f m + count_below (λ i. f (m + i)) n
unfolding count_below
count_below-append f m zero = ground arith
count_below-append f m (suc n) =
    let shift : m + suc n ≡ suc (m + n) = omega arith in
    rw shift (omega (arith, count_below-append f m n))

pub count_below-full : (f : ℕ → Bool) (n : ℕ) → count_below f n ≡ n → (i : ℕ) → i < n → f i ≡ true
unfolding count_below
count_below-full f zero h i l = elim l [ ]
count_below-full f (suc n) h i l = elim (Bool-cases (i == n)) [
  | inl e ↦ ground (arith, e, h, count_below-le f n)
  | inr e ↦ count_below-full f n (ground (arith, h, count_below-le f n)) i (ground (arith, e))
]

pub count_below-all : (f : ℕ → Bool) (n : ℕ) → ((i : ℕ) → i < n → f i ≡ true) → count_below f n ≡ n
unfolding count_below
count_below-all f zero h = refl
count_below-all f (suc n) h = ground (arith, count_below-all f n (λ i l. h i (omega arith)), h n)

pub count_below-none :
    (f : ℕ → Bool) (n : ℕ) → ((i : ℕ) → i < n → f i ≡ false) → count_below f n ≡ 0
unfolding count_below
count_below-none f zero h = refl
count_below-none f (suc n) h = ground (arith, count_below-none f n (λ i l. h i (omega arith)), h n)

count_below-front :
    (f : ℕ → Bool) (n : ℕ)
    → count_below f (suc n) ≡ (if f 0 then 1 else 0) + count_below (λ i. f (suc i)) n
unfolding count_below
count_below-front f zero = ground arith
count_below-front f (suc n) = omega (arith, count_below-front f n)

pub count_ones-count_below : (n x : ℕ) → count_ones n x ≡ count_below (bit x) n
unfolding count_ones bit count_below
count_ones-count_below zero x = refl
count_ones-count_below (suc n) x =
    ground (arith, count_below-front (bit x) n, count_ones-count_below n (x / 2))
