-- ===== src/SizeClass/Waste.antt =====
-- The internal fragmentation of the classes of toccata-core/src/sizeclass.rs.
use toccata.Base.{ℕ, zero, suc, ◌*◌, ◌≤◌, ◌<◌, ◌≡◌, refl, arith, some, List, [], ◌∷◌, get_elem?}
use toccata.SizeClass.{max_small, real_sizes, class_for, size_of_class}
use toccata.SizeClass.Fit.{IsSmallestClass, small_class}

-- No size of the list is more than twice the one before it.
abbrev Dense : List ℕ → Type 0
Dense [] = Unit
Dense (s ∷ []) = Unit
Dense (s ∷ t ∷ ss) = (t ≤ 2 * s) × Dense (t ∷ ss)

real_sizes-Dense : Dense real_sizes
real_sizes-Dense = omega arith

Dense-before :
    (ss : List ℕ) (j s : ℕ)
    → Dense ss
    → get_elem? ss (suc j) ≡ some s
    → (t : ℕ) × (get_elem? ss j ≡ some t) × (s ≤ 2 * t)
Dense-before [] j s d e = cc
Dense-before (a ∷ []) j s d e = cc
Dense-before (a ∷ b ∷ ss) zero s d e = (a, refl, ground arith)
Dense-before (a ∷ b ∷ ss) (suc j) s d e = Dense-before (b ∷ ss) j s d.1 e

waste_bound : (size c : ℕ) → 8 < size → (k : IsSmallestClass size c) → k.object < 2 * size
unfolding size_of_class
waste_bound size zero h k = absurd (omega (arith, k.real))
waste_bound size (suc zero) h k = ground (arith, k.found, k.holds)
waste_bound size (suc (suc c)) h k =
    let (t, e, l) = Dense-before real_sizes c k.object real_sizes-Dense k.found in
    omega (arith, k.least (suc c) t (omega arith) (omega arith) e)

-- A request of more than 8 bytes, up to `MAX_SMALL`, gets an object of less than twice its size.
pub class_for_waste :
    (size : ℕ)
    → 8 < size
    → size ≤ max_small
    → (c s : ℕ) × (class_for size ≡ some c)
      × (size_of_class c ≡ some s)
      × (size ≤ s)
      × (s < 2 * size)
class_for_waste size h l =
    let (c, e, k) = small_class size l in (c, k.object, e, k.found, k.holds, waste_bound size c h k)
