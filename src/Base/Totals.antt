-- ===== src/Base/Totals.antt =====
-- Sums over lists: what a list weighs where every value has a weight. The weight 1 counts the list,
-- and the weight of one value counts its occurrences.
use Prim.Native.Nat.{ℕ, ◌+◌}
use mathlib.Core.Path.{◌≡◌, refl}
use mathlib.Core.List.{List, [], ◌∷◌, ◌++◌}
use native.Mathlib.Omega.{arith}
use toccata.Base.Tests.{◌==◌, if◌then◌else◌}
use toccata.Base.Lists.{length}

unfoldable pub total : (ℕ → ℕ) → List ℕ → ℕ
total w [] = 0
total w (x ∷ xs) = w x + total w xs

abbrev pub once : ℕ → ℕ
once x = 1

-- 1 at `p` and 0 elsewhere.
abbrev pub occurs : ℕ → ℕ → ℕ
occurs p x = if x == p then 1 else 0

pub total-cons : (w : ℕ → ℕ) (x : ℕ) (xs : List ℕ) → total w (x ∷ xs) ≡ w x + total w xs
unfolding total
total-cons w x xs = refl

pub total-nil : (w : ℕ → ℕ) → total w [] ≡ 0
unfolding total
total-nil w = refl

pub total-append : (w : ℕ → ℕ) (xs ys : List ℕ) → total w (xs ++ ys) ≡ total w xs + total w ys
unfolding total
total-append w [] ys = omega arith
total-append w (x ∷ xs) ys = omega (arith, total-append w xs ys)

pub total-once : (xs : List ℕ) → total once xs ≡ length xs
unfolding total
total-once [] = refl
total-once (x ∷ xs) = omega (arith, total-once xs)

pub occurs_self : (p : ℕ) → occurs p p ≡ 1
occurs_self p = ground arith
