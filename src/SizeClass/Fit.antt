-- ===== src/SizeClass/Fit.antt =====
-- `class_for` of toccata-core/src/sizeclass.rs returns the smallest class that is large enough.
use toccata.Base.{
  ℕ, zero, suc, ◌+◌, ◌≤◌, ◌<◌, ◌≡◌, refl, ◌∙◌, arith, ◌==◌, ltb, leb, ltb→lt, ltb→le_of_false, max,
  if◌then◌else◌, inl, inr, Bool-cases, true, false, Option, none, some, List, [], ◌∷◌, get_elem?,
}
use toccata.SizeClass.{max_small, real_sizes, class_sizes, first_fit, class_for, size_of_class}

-- The class `idx + j` is the first of the list that holds `want` bytes.
pub record IsFirstFit (ss : List ℕ) (want j : ℕ) : Type 0 where
  pub size : ℕ
  pub found : get_elem? ss j ≡ some size
  pub holds : want ≤ size
  pub least : (i t : ℕ) → i < j → get_elem? ss i ≡ some t → t < want

skip :
    (s : ℕ) (ss : List ℕ) (want j : ℕ)
    → s < want
    → IsFirstFit ss want j
    → IsFirstFit (s ∷ ss) want (suc j)
skip s ss want j h f = record { size = f.size; found = f.found; holds = f.holds; least = earlier }
  where
    earlier : (i t : ℕ) → i < suc j → get_elem? (s ∷ ss) i ≡ some t → t < want
    earlier zero t l e = ground arith
    earlier (suc i) t l e = f.least i t (omega arith) e

pub first_fit-IsFirstFit :
    (ss : List ℕ) (idx want c : ℕ)
    → first_fit ss idx want ≡ some c
    → (j : ℕ) × (c ≡ idx + j) × IsFirstFit ss want j
unfolding first_fit
first_fit-IsFirstFit [] idx want c e = cc
first_fit-IsFirstFit (s ∷ ss) idx want c e = elim (Bool-cases (leb want s)) [
  | inl b ↦ (
    0,
    ground arith,
    record { size = s; found = refl; holds = ground arith; least = λ i t l. elim l [ ] },
  )
  | inr b ↦
      let (j, at, f) = first_fit-IsFirstFit ss (idx + 1) want c (ground arith) in
      (suc j, omega arith, skip s ss want j (ground arith) f)
]

-- The scan finds a class as soon as one size is large enough.
pub first_fit_total :
    (ss : List ℕ) (idx want i s : ℕ)
    → get_elem? ss i ≡ some s
    → want ≤ s
    → (c : ℕ) × (first_fit ss idx want ≡ some c)
unfolding first_fit
first_fit_total [] idx want i s e h = cc
first_fit_total (t ∷ ss) idx want zero s e h = (idx, ground arith)
first_fit_total (t ∷ ss) idx want (suc i) s e h = elim (Bool-cases (leb want t)) [
  | inl b ↦ (idx, rw b)
  | inr b ↦ rw b (first_fit_total ss (idx + 1) want i s e h)
]

-- The smallest class of a size, as the table and nothing else determines it.
pub record IsSmallestClass (size c : ℕ) : Type 0 where
  pub object : ℕ
  pub real : 0 < c
  pub found : size_of_class c ≡ some object
  pub holds : size ≤ object
  pub least : (d t : ℕ) → 0 < d → d < c → size_of_class d ≡ some t → t < max size 1

top_class : get_elem? real_sizes 47 ≡ some max_small
top_class = refl

pub want_max : (size : ℕ) → (if size == 0 then 1 else size) ≡ max size 1
want_max size = ground arith

smallest_of_first :
    (size j : ℕ) → IsFirstFit real_sizes (max size 1) j → IsSmallestClass size (suc j)
unfolding size_of_class
smallest_of_first size j f = record {
  object = f.size;
  real = omega arith;
  found = f.found;
  holds = omega (arith, f.holds);
  least = earlier;
}
  where
    earlier : (d t : ℕ) → 0 < d → d < suc j → get_elem? class_sizes d ≡ some t → t < max size 1
    earlier zero t p l e = absurd (omega arith)
    earlier (suc d) t p l e = f.least d t (omega arith) e

-- `class_for` refuses exactly the sizes above `MAX_SMALL`.
class_for_large : (size : ℕ) → max_small < size → class_for size ≡ none
unfolding class_for
class_for_large size h = rw (large) refl
  where
    large : ltb max_small size ≡ true
    large = ground arith

class_for_scan :
    (size : ℕ) → size ≤ max_small → class_for size ≡ first_fit real_sizes 1 (max size 1)
unfolding class_for
class_for_scan size h = rw (small, want_max size) refl
  where
    small : ltb max_small size ≡ false
    small = ground arith

pub small_class :
    (size : ℕ) → size ≤ max_small → (c : ℕ) × (class_for size ≡ some c) × IsSmallestClass size c
small_class size h =
    let (c, e) = first_fit_total real_sizes 1 (max size 1) 47 max_small top_class (omega arith) in
    let (j, at, f) = first_fit-IsFirstFit real_sizes 1 (max size 1) c e in
    let same : c ≡ suc j = omega arith in
    (c, class_for_scan size h ∙ e, rw same (smallest_of_first size j f))

-- What the class of a size has to be.
pub data Classifies (size : ℕ) : Option ℕ → Type 0 where
  fits : (c : ℕ) → size ≤ max_small → IsSmallestClass size c → Classifies size (some c)
  oversize : max_small < size → Classifies size none

-- `class_for` gives every size up to `MAX_SMALL` the smallest class whose objects hold it, and
-- refuses every larger size.
pub class_for-Classifies : (size : ℕ) → Classifies size (class_for size)
class_for-Classifies size = elim (Bool-cases (ltb max_small size)) [
  | inl e ↦ let h = ltb→lt max_small size e in rw (class_for_large size h) (oversize h)
  | inr e ↦
      let h = ltb→le_of_false max_small size e in
      let (c, eq, k) = small_class size h in rw eq (fits c h k)
]
