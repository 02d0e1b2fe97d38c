-- ===== src/Magazine/Stack.antt =====
-- The magazine of toccata-core/src/magazine.rs as a list, the next object to be handed out first.
use toccata.Base.{
  ℕ, zero, suc, ◌+◌, ◌-◌, ◌≤◌, ◌<◌, ◌≡◌, refl, ap, ◌∙◌, arith, List, [], ◌∷◌, length, update,
}
use toccata.Base.Stacks.{stack}
use toccata.Magazine.{Magazine, mag_cap, slots, fill, reverse_slice}

-- The objects of the magazine in the order in which they are popped.
abbrev pub pops : Magazine → List ℕ
pops m = stack m.len m.ptrs.at

pub record IsValid (m : Magazine) : Type 0 where
  pub room : m.ptrs.len ≡ mag_cap
  pub few : m.len ≤ mag_cap

-- A slice that is read from behind.
stack-slots :
    (n k : ℕ) (f g : ℕ → ℕ)
    → ((i : ℕ) → i < n → g i ≡ f (k + (n - 1 - i)))
    → stack n g ≡ slots f k n
unfolding stack slots
stack-slots zero k f g h = refl
stack-slots (suc n) k f g h =
    let first : g n ≡ f k = h n (omega arith) ∙ ap f (omega arith) in
    let rest = stack-slots n (k + 1) f g (λ i l. h i (omega arith) ∙ ap f (omega arith)) in
    cc (first, rest)

fill-below : (f : ℕ → ℕ) (i j : ℕ) (xs : List ℕ) → j < i → fill f i xs j ≡ f j
fill-below f i j [] l = refl
fill-below f i j (x ∷ xs) l = ground (arith, fill-below (update f i x) (i + 1) j xs (omega arith))

slots-fill : (f : ℕ → ℕ) (i : ℕ) (xs : List ℕ) → slots (fill f i xs) i (length xs) ≡ xs
unfolding slots
slots-fill f i [] = refl
slots-fill f i (x ∷ xs) =
    let first : fill (update f i x) (i + 1) xs i ≡ x =
      ground (arith, fill-below (update f i x) (i + 1) i xs (omega arith)) in
    cc (first, slots-fill (update f i x) (i + 1) xs)

-- A batch that has been written and reversed is popped in its own order.
pub stack-reverse_slice :
    (f : ℕ → ℕ) (xs : List ℕ) → stack (length xs) (reverse_slice (fill f 0 xs) 0 (length xs)) ≡ xs
stack-reverse_slice f xs =
    stack-slots (length xs) 0 (fill f 0 xs) _ (λ i l. ground arith) ∙ slots-fill f 0 xs
