-- ===== src/SizeClass/Tests.antt =====
-- The tests of toccata-core/src/sizeclass.rs, run on the model, and each theorem about the classes at
-- a concrete input.
use toccata.Base.{ℕ, ◌+◌, ◌*◌, ◌≤◌, ◌<◌, ◌≡◌, refl, arith, Option, none, some, ◌>>=◌}
use toccata.SizeClass.{
  max_small, first_fit, class_for, lookup, class_of, size_of_class, aligned_class, align_from,
}
use toccata.SizeClass.Fit.{Classifies, class_for-Classifies}
use toccata.SizeClass.Waste.{class_for_waste}
use toccata.SizeClass.Lookup.{class_of-eq-class_for}
use toccata.SizeClass.Aligned.{IsSmallestAligned, aligned_class-IsSmallestAligned}

-- `size_of_class(class_for(size).unwrap())`
object_size : ℕ → Option ℕ
unfolding class_for first_fit size_of_class
object_size size = do c ← class_for size; size_of_class c

class_for_rounds_up :
    (object_size 1 ≡ some 8)
    × (object_size 8 ≡ some 8)
    × (object_size 9 ≡ some 16)
    × (object_size 1500 ≡ some 1536)
    × (object_size 2048 ≡ some 2048)
    × (class_for max_small ≡ some 48)
    × (class_for (max_small + 1) ≡ none)
unfolding object_size
class_for_rounds_up = (refl, refl, refl, refl, refl, refl, refl)

lookup_table_matches_class_for :
    (class_of 0 ≡ some none)
    × (class_of 1 ≡ some (some 1))
    × (class_of 17 ≡ some (some 3))
    × (class_of 1500 ≡ some (some 24))
unfolding class_of lookup
lookup_table_matches_class_for = (refl, refl, refl, refl)

-- 100 bytes at an alignment of 64 skip the class of 112 bytes.
aligned_skips : aligned_class 100 64 ≡ some (some 10)
unfolding aligned_class align_from class_of lookup
aligned_skips = refl

class_for-Classifies_example : Classifies 1500 (class_for 1500)
class_for-Classifies_example = class_for-Classifies 1500

class_for_waste_example :
    (c s : ℕ) × (class_for 9 ≡ some c) × (size_of_class c ≡ some s) × (9 ≤ s) × (s < 2 * 9)
class_for_waste_example = class_for_waste 9 (omega arith) (omega arith)

class_of-eq-class_for_example : class_of 1500 ≡ some (class_for 1500)
class_of-eq-class_for_example = class_of-eq-class_for 1500

aligned_class-IsSmallestAligned_example :
    (r : Option ℕ) × (aligned_class 100 64 ≡ some r) × IsSmallestAligned 100 64 r
aligned_class-IsSmallestAligned_example =
    aligned_class-IsSmallestAligned 100 64 (omega arith) (omega arith) (omega arith)
