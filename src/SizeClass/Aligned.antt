-- ===== src/SizeClass/Aligned.antt =====
-- `aligned_class` of toccata-core/src/sizeclass.rs: the smallest class that is large enough and whose
-- size is a multiple of the alignment.
use native.Mathlib.Nat.{le_trans}
use toccata.Base.{
  ℕ, zero, suc, ◌+◌, ◌-◌, ◌%◌, ◌≤◌, ◌<◌, ◌≡◌, ◌≢◌, refl, ◌∙◌, sym, ap, arith, ◌==◌, ltb, leb,
  ltb→lt, ltb→le_of_false, inl, inr, Bool-cases, false, Option, none, some, List, [], ◌∷◌, length,
  get_elem?, drop,
}
use toccata.SizeClass.{
  max_small, class_sizes, num_classes, size_of_class, align_from, aligned_class,
}
use toccata.SizeClass.Fit.{IsSmallestClass, small_class}
use toccata.SizeClass.Lookup.{class_of-eq-class_for}

-- The first class from `class` on whose size is a multiple of `align`, the list holding the sizes.
abbrev IsFirstAligned : ℕ → List ℕ → ℕ → Option ℕ → Type 0
IsFirstAligned align ss class none = (j t : ℕ) → get_elem? ss j ≡ some t → t % align ≢ 0
IsFirstAligned align ss class (some c) =
    (j s : ℕ) × (c ≡ class + j)
    × (get_elem? ss j ≡ some s)
    × (s % align ≡ 0)
    × ((i t : ℕ) → i < j → get_elem? ss i ≡ some t → t % align ≢ 0)

aligned_skip :
    (align s class : ℕ) (ss : List ℕ) (r : Option ℕ)
    → s % align ≢ 0
    → IsFirstAligned align ss (class + 1) r
    → IsFirstAligned align (s ∷ ss) class r
aligned_skip align s class ss none h f = all
  where
    all : (j t : ℕ) → get_elem? (s ∷ ss) j ≡ some t → t % align ≢ 0
    all zero t e = ground arith
    all (suc j) t e = f j t e
aligned_skip align s class ss (some c) h (j, t, at, e, m, least) =
    (suc j, t, omega arith, e, m, earlier)
  where
    earlier : (i u : ℕ) → i < suc j → get_elem? (s ∷ ss) i ≡ some u → u % align ≢ 0
    earlier zero u l e' = ground arith
    earlier (suc i) u l e' = least i u (omega arith) e'

align_from-IsFirstAligned :
    (align class s : ℕ) (ss : List ℕ)
    → align ≢ 0
    → class + suc (length ss) ≡ num_classes
    → (r : Option ℕ) × (align_from align class (s ∷ ss) ≡ some r)
      × IsFirstAligned align (s ∷ ss) class r
unfolding align_from
align_from-IsFirstAligned align class s [] pos e = elim (Bool-cases (s % align == 0)) [
  | inl b ↦ (some class, ground arith, (0, s, omega arith, refl, ground arith, λ i t l. elim l [ ]))
  | inr b ↦ (none, ground arith, aligned_skip align s class [] none (ground arith) (λ j t e'. cc))
]
align_from-IsFirstAligned align class s (t ∷ ss) pos e = elim (Bool-cases (s % align == 0)) [
  | inl b ↦ (some class, ground arith, (0, s, omega arith, refl, ground arith, λ i t l. elim l [ ]))
  | inr b ↦
      let (r, eq, f) = align_from-IsFirstAligned align (class + 1) t ss pos (omega arith) in
      let zero : (align == 0) ≡ false = ground arith in
      let more : leb num_classes (class + 1) ≡ false = ground arith in
      (
        r,
        rw (zero, b, more) (rw zero at eq),
        aligned_skip align s class (t ∷ ss) r (ground arith) f,
      )
]

-- Along an ascending table a later size is not smaller.
abbrev Ascending : List ℕ → Type 0
Ascending [] = Unit
Ascending (s ∷ []) = Unit
Ascending (s ∷ t ∷ ss) = (s ≤ t) × Ascending (t ∷ ss)

class_sizes-Ascending : Ascending class_sizes
class_sizes-Ascending = omega arith

Ascending-le :
    (ss : List ℕ) (j s t : ℕ)
    → Ascending ss
    → get_elem? ss 0 ≡ some s
    → get_elem? ss j ≡ some t
    → s ≤ t
Ascending-le [] j s t a e e' = cc
Ascending-le (x ∷ ss) zero s t a e e' = ground arith
Ascending-le (x ∷ []) (suc j) s t a e e' = cc
Ascending-le (x ∷ y ∷ ss) (suc j) s t a e e' =
    omega (arith, Ascending-le (y ∷ ss) j y t a.1 refl e', (let z : x ≡ s = ground arith in z))

Ascending-drop : (n : ℕ) (ss : List ℕ) → Ascending ss → Ascending (drop n ss)
Ascending-drop zero ss a = a
Ascending-drop (suc n) [] a = tt
Ascending-drop (suc zero) (s ∷ []) a = tt
Ascending-drop (suc (suc n)) (s ∷ []) a = tt
Ascending-drop (suc n) (s ∷ t ∷ ss) a = Ascending-drop n (t ∷ ss) a.1

get_elem?-drop : (n j : ℕ) (ss : List ℕ) → get_elem? (drop n ss) j ≡ get_elem? ss (n + j)
get_elem?-drop zero j ss = ap (get_elem? ss) (omega arith)
get_elem?-drop (suc n) j [] = refl
get_elem?-drop (suc n) j (s ∷ ss) =
    get_elem?-drop n j ss ∙ ap (get_elem? (s ∷ ss)) {x = suc (n + j)} (omega arith)

drop_cons :
    (n : ℕ) (ss : List ℕ) (s : ℕ)
    → get_elem? ss n ≡ some s
    → (rest : List ℕ) × (drop n ss ≡ s ∷ rest) × (n + suc (length rest) ≡ length ss)
drop_cons n [] s e = cc
drop_cons zero (x ∷ ss) s e = (ss, ground arith, omega arith)
drop_cons (suc n) (x ∷ ss) s e = let (rest, d, l) = drop_cons n ss s e in (rest, d, omega arith)

-- The smallest class of objects that hold `need` bytes and whose size is a multiple of `align`, or
-- that there is none.
abbrev pub IsSmallestAligned : ℕ → ℕ → Option ℕ → Type 0
IsSmallestAligned need align none = (d t : ℕ) → size_of_class d ≡ some t → need ≤ t → t % align ≢ 0
IsSmallestAligned need align (some c) =
    (s : ℕ) × (size_of_class c ≡ some s)
    × (need ≤ s)
    × (s % align ≡ 0)
    × ((d t : ℕ) → d < c → size_of_class d ≡ some t → need ≤ t → t % align ≢ 0)

module _ (ss : List ℕ) (need align class object : ℕ) (rest : List ℕ) (sorted : Ascending ss)
    (holds : need ≤ object) (least : (d t : ℕ) → d < class → get_elem? ss d ≡ some t → t < need)
    (tail : drop class ss ≡ object ∷ rest) where
  at_class : (j : ℕ) → get_elem? ss (class + j) ≡ get_elem? (object ∷ rest) j
  at_class j = sym (get_elem?-drop class j ss) ∙ ap (λ l. get_elem? l j) tail

  ascending : Ascending (object ∷ rest)
  ascending = rw tail at (Ascending-drop class ss sorted)

  -- A class that is large enough is not before the first one.
  later :
      (d t : ℕ)
      → get_elem? ss d ≡ some t
      → need ≤ t
      → (j : ℕ) × (d ≡ class + j) × (get_elem? (object ∷ rest) j ≡ some t)
  later d t e h = elim (Bool-cases (ltb d class)) [
    | inl b ↦ absurd (omega (arith, least d t (ltb→lt d class b) e))
    | inr b ↦
        let same : d ≡ class + (d - class) = omega (arith, ltb→le_of_false d class b) in
        (d - class, same, sym (at_class (d - class)) ∙ ap (get_elem? ss) (sym same) ∙ e)
  ]

  abbrev IsBest : Option ℕ → Type 0
  IsBest none = (d t : ℕ) → get_elem? ss d ≡ some t → need ≤ t → t % align ≢ 0
  IsBest (some c) =
      (s : ℕ) × (get_elem? ss c ≡ some s)
      × (need ≤ s)
      × (s % align ≡ 0)
      × ((d t : ℕ) → d < c → get_elem? ss d ≡ some t → need ≤ t → t % align ≢ 0)

  best : (r : Option ℕ) → IsFirstAligned align (object ∷ rest) class r → IsBest r
  best none f = λ d t e h. let (j, _, g) = later d t e h in f j t g
  best (some c) (j, s, at, e, m, first) = (
    s,
    rw at (at_class j ∙ e),
    le_trans holds (Ascending-le (object ∷ rest) j object s ascending refl e),
    m,
    λ d t l e' h. let (i, at', g) = later d t e' h in first i t (omega arith) g,
  )

-- The class ids below the smallest class stand for sizes that are too small, the sentinel 0 among
-- them.
below_smallest :
    (need class : ℕ)
    → 0 < need
    → IsSmallestClass need class
    → (d t : ℕ) → d < class
    → get_elem? class_sizes d ≡ some t
    → t < need
unfolding size_of_class
below_smallest need class pos k zero t l e = ground arith
below_smallest need class pos k (suc d) t l e = omega (arith, k.least (suc d) t (omega arith) l e)

smallest_aligned :
    (need align class : ℕ) (rest : List ℕ) (r : Option ℕ)
    → 0 < need
    → (k : IsSmallestClass need class) → drop class class_sizes ≡ k.object ∷ rest
    → IsFirstAligned align (k.object ∷ rest) class r
    → IsSmallestAligned need align r
unfolding size_of_class
smallest_aligned need align class rest none pos k tail f =
    best class_sizes need align class k.object rest class_sizes-Ascending k.holds
      (below_smallest need class pos k) tail none f
smallest_aligned need align class rest (some c) pos k tail f =
    best class_sizes need align class k.object rest class_sizes-Ascending k.holds
      (below_smallest need class pos k) tail (some c) f

-- On an alignment that is not 0 and a size from 1 to `MAX_SMALL`, `aligned_class` never panics, and
-- returns the smallest class whose objects hold the size and are a multiple of the alignment, or
-- that no class is.
pub aligned_class-IsSmallestAligned :
    (need align : ℕ)
    → 0 < need
    → need ≤ max_small
    → align ≢ 0
    → (r : Option ℕ) × (aligned_class need align ≡ some r) × IsSmallestAligned need align r
unfolding aligned_class size_of_class
aligned_class-IsSmallestAligned need align pos le ne =
    let (class, e, k) = small_class need le in
    let (rest, tail, len) = drop_cons class class_sizes k.object k.found in
    let (r, eq, f) = align_from-IsFirstAligned align class k.object rest ne len in
    let some_size : (need == 0) ≡ false = ground arith in
    (
      r,
      rw (class_of-eq-class_for need, some_size, e, tail) eq,
      smallest_aligned need align class rest r pos k tail f,
    )
