-- ===== src/Base/Stacks.antt =====
-- A stack that is kept in an array: `n` values, the last one the first to be taken.
use Prim.Native.Nat.{ℕ, zero, suc, ◌+◌, ◌-◌, ◌<◌}
use mathlib.Core.Path.{◌≡◌, refl}
use mathlib.Core.Logic.{◌≢◌}
use mathlib.Core.List.{List, [], ◌∷◌}
use native.Mathlib.Omega.{arith}
use toccata.Base.Memory.{update}
use toccata.Base.Lists.{length}

unfoldable pub stack : ℕ → (ℕ → ℕ) → List ℕ
stack zero f = []
stack (suc n) f = f n ∷ stack n f

pub stack-congr : (n : ℕ) (f g : ℕ → ℕ) → ((i : ℕ) → i < n → f i ≡ g i) → stack n f ≡ stack n g
unfolding stack
stack-congr zero f g h = refl
stack-congr (suc n) f g h = cc (h n (omega arith), stack-congr n f g (λ i l. h i (omega arith)))

pub stack-top : (n : ℕ) (f : ℕ → ℕ) → n ≢ 0 → stack n f ≡ f (n - 1) ∷ stack (n - 1) f
unfolding stack
stack-top zero f ne = absurd (ne refl)
stack-top (suc n) f ne = let one_less : suc n - 1 ≡ n = omega arith in rw one_less refl

pub stack-push : (n : ℕ) (f : ℕ → ℕ) (p : ℕ) → stack (n + 1) (update f n p) ≡ p ∷ stack n f
unfolding stack
stack-push n f p =
    let one_more : n + 1 ≡ suc n = omega arith in
    let hit : update f n p n ≡ p = ground arith in
    rw one_more (cc (hit, stack-congr n (update f n p) f (λ i l. ground arith)))

pub length-stack : (n : ℕ) (f : ℕ → ℕ) → length (stack n f) ≡ n
unfolding stack
length-stack zero f = refl
length-stack (suc n) f = omega (arith, length-stack n f)
