-- ===== src/SizeClass/Lookup.antt =====
-- The table of toccata-core/src/sizeclass.rs: `class_of`, one load from it, is `class_for`.
use toccata.Base.{
  ℕ, zero, suc, ◌+◌, ◌/◌, ◌%◌, ◌^◌, ◌≤◌, ◌<◌, ◌≡◌, refl, ◌∙◌, ap, arith, ◌==◌, ltb, if◌then◌else◌,
  inl, inr, Bool-cases, false, ◌||◌, Option, none, some, List, [], ◌∷◌, length, get_elem?, All,
}
use toccata.SizeClass.{
  max_small, real_sizes, num_classes, lookup_len, first_fit, class_for, Cursor, advance, entry_size,
  build_from, lookup, class_of,
}

-- The cursor goes on from where it stands: the classes that it has passed are too small later too.
advance_from :
    (small size class : ℕ) (ss : List ℕ)
    → small ≤ size
    → advance size (advance small class ss).class (advance small class ss).sizes
      ≡ advance size class ss
unfolding advance
advance_from small size class [] h = refl
advance_from small size class (s ∷ ss) h = ground (arith, advance_from small size (class + 1) ss)

-- The entry that the cursor gives is the class that the scan finds, 0 where it finds none.
entry : Cursor → ℕ
entry cur = if ltb cur.class num_classes then cur.class % 2 ^ 16 else 0

-- What the table holds for the result of the scan.
abbrev or_zero : Option ℕ → ℕ
or_zero none = 0
or_zero (some c) = c

entry-first_fit :
    (size class : ℕ) (ss : List ℕ)
    → class + length ss ≡ num_classes
    → entry (advance size class ss) ≡ or_zero (first_fit ss class size)
unfolding advance first_fit entry
entry-first_fit size class [] e = ground arith
entry-first_fit size class (s ∷ ss) e =
    ground (arith, entry-first_fit size (class + 1) ss (omega arith))

entry_size_mono : (i : ℕ) → entry_size i ≤ entry_size (i + 1)
entry_size_mono i = ground arith

build_from-entry :
    (ss : List ℕ) (n i k small : ℕ) (cur : Cursor)
    → cur ≡ advance small 1 ss
    → small ≤ entry_size i
    → k < n
    → get_elem? (build_from n i cur) k ≡ some (entry (advance (entry_size (i + k)) 1 ss))
unfolding build_from entry
build_from-entry ss zero i k small cur e h l = elim l [ ]
build_from-entry ss (suc n) i zero small cur e h l =
    let at : i + 0 ≡ i = omega arith in rw (at, e, advance_from small (entry_size i) 1 ss h) refl
build_from-entry ss (suc n) i (suc k) small cur e h l =
    let at : i + suc k ≡ i + 1 + k = omega arith in
    rw at (
      build_from-entry ss n (i + 1) k (entry_size i) _
        (rw e (advance_from small (entry_size i) 1 ss h)) (entry_size_mono i) (omega arith))

-- The load of `class_of` is in range, and gives the class of the size rounded up to 8.
lookup-entry :
    (i : ℕ)
    → i < lookup_len
    → get_elem? lookup i ≡ some (or_zero (first_fit real_sizes 1 (entry_size i)))
unfolding lookup advance
lookup-entry i l =
    build_from-entry real_sizes lookup_len 0 i 0 (record { class = 1; sizes = real_sizes }) refl
      (omega arith) l
    ∙ ap some (entry-first_fit (entry_size (0 + i)) 1 real_sizes refl)
    ∙ ap (λ (k : ℕ). some (or_zero (first_fit real_sizes 1 (entry_size k)))) (omega arith)

-- Rounding a size up to a multiple of 8 changes nothing for sizes that are multiples of 8.
first_fit-round :
    (ss : List ℕ) (idx size : ℕ)
    → All (λ s. s % 8 ≡ 0) ss
    → 0 < size
    → first_fit ss idx (entry_size ((size + 7) / 8)) ≡ first_fit ss idx size
unfolding first_fit
first_fit-round [] idx size a h = refl
first_fit-round (s ∷ ss) idx size a h = ground (arith, first_fit-round ss (idx + 1) size a.1 h)

first_fit-ne-zero : (ss : List ℕ) (idx want c : ℕ) → first_fit ss idx want ≡ some c → idx ≤ c
unfolding first_fit
first_fit-ne-zero [] idx want c e = cc
first_fit-ne-zero (s ∷ ss) idx want c e = ground (arith, first_fit-ne-zero ss (idx + 1) want c)

real_sizes_round : All (λ s. s % 8 ≡ 0) real_sizes
real_sizes_round = omega arith

-- `class_of` never reads outside its table. It refuses size 0, and on every other size it is
-- `class_for`: one load from the precomputed table replaces the scan.
pub class_of-eq-class_for :
    (size : ℕ) → class_of size ≡ some (if size == 0 then none else class_for size)
unfolding class_of class_for
class_of-eq-class_for size = elim (Bool-cases ((size == 0) || ltb max_small size)) [
  | inl e ↦ rw e (ground arith)
  | inr e ↦
      let small : ltb max_small size ≡ false = ground arith in
      let pos : (size == 0) ≡ false = ground arith in
      let load = lookup-entry ((size + 7) / 8) (ground arith) in
      rw (e, small, pos, load, first_fit-round real_sizes 1 size real_sizes_round (ground arith))
        (ap some (by_scan (first_fit real_sizes 1 size) (first_fit-ne-zero real_sizes 1 size)))
]
  where
    by_scan :
        (r : Option ℕ)
        → ((c : ℕ) → r ≡ some c → 1 ≤ c)
        → (if or_zero r == 0 then none else some (or_zero r)) ≡ r
    by_scan none h = refl
    by_scan (some c) h = ground (arith, h c)
