-- ===== src/GlobalAlloc/Route.antt =====
-- Which part of the runtime serves a request in toccata/src/lib.rs, and what for.
use native.Mathlib.Nat.{
  pow-le-pow_right, pow-succ', mul-mod_left, mul_assoc, one-mul, zero-add, suc-add,
}
use toccata.Base.{
  ℕ, zero, suc, ◌-◌, ◌+◌, ◌*◌, ◌%◌, ◌^◌, true, if◌then◌else◌, ◌≤◌, ◌<◌, ◌≡◌, ◌≢◌, inl, inr, refl,
  sym, ap, subst, ◌∙◌, arith, false, Option, none, some, List, [], ◌∷◌, All, get_elem?, leb, ltb,
  ◌==◌, Bool-cases,
}
use toccata.Base.Bits.{pow-pos}
use toccata.SizeClass.{max_small, min_align, class_sizes, class_of, size_of_class}
use toccata.SizeClass.Fit.{IsSmallestClass, Classifies, fits, oversize, class_for-Classifies}
use toccata.SizeClass.Lookup.{class_of-eq-class_for}
use toccata.SizeClass.Aligned.{IsSmallestAligned, aligned_class-IsSmallestAligned}
use toccata.Meta.{span_bytes}
use toccata.GlobalAlloc.{
  Layout, Runtime, need_of, is_small, or_abort, after_pop, on_miss, alloc_large_smallclass,
  alloc_small, alloc_cold, alloc,
}

All-get : (P : ℕ → Type 0) (xs : List ℕ) (i : ℕ) {x : ℕ} → get_elem? xs i ≡ some x → All P xs → P x
All-get P [] i e a = cc e
All-get P (y ∷ ys) zero {x} e a = let same : y ≡ x = cc e in subst P same a.0
All-get P (y ∷ ys) (suc i) e a = All-get P ys i e a.1

class_sizes_round : All (λ s. s % 8 ≡ 0) class_sizes
class_sizes_round = omega arith

size_of_class-round : (c osz : ℕ) → size_of_class c ≡ some osz → osz % 8 ≡ 0
unfolding size_of_class
size_of_class-round c osz e = All-get (λ s. s % 8 ≡ 0) class_sizes c e class_sizes_round

-- A power of two up to 8 divides what 8 divides.
power_divides : (k x : ℕ) → 2 ^ k ≤ 8 → x % 8 ≡ 0 → x % 2 ^ k ≡ 0
power_divides zero x le e = omega arith
power_divides (suc zero) x le e = omega (arith, e)
power_divides (suc (suc zero)) x le e = omega (arith, e)
power_divides (suc (suc (suc zero))) x le e = e
power_divides (suc (suc (suc (suc k)))) x le e =
    let above : 2 ^ 4 ≤ 2 ^ suc (suc (suc (suc k))) =
      pow-le-pow_right (omega arith) {i = 4} (omega arith) in
    absurd (omega (arith, le, above))

Classifies-small :
    {size : ℕ} {r : Option ℕ}
    → Classifies size r
    → size ≤ max_small
    → (c : ℕ) × (r ≡ some c) × IsSmallestClass size c
Classifies-small (fits c le k) h = (c, refl, k)
Classifies-small (oversize over) h = absurd (omega (arith, over, h))

pow_split : (a k : ℕ) → 2 ^ (a + k) ≡ 2 ^ a * 2 ^ k
pow_split zero k = ap (λ n. 2 ^ n) (zero-add k) ∙ sym (one-mul (2 ^ k))
pow_split (suc a) k =
    let doubled : 2 ^ suc a * 2 ^ k ≡ 2 * (2 ^ a * 2 ^ k) =
      ap (λ n. n * 2 ^ k) (pow-succ' 2 a) ∙ mul_assoc 2 (2 ^ a) (2 ^ k) in
    ap (λ n. 2 ^ n) (suc-add a k)
    ∙ pow-succ' 2 (a + k)
    ∙ ap (λ n. 2 * n) (pow_split a k)
    ∙ sym doubled

-- The largest class is a multiple of every power of two up to its own size.
top_divides : (k : ℕ) → 2 ^ k ≤ max_small → max_small % 2 ^ k ≡ 0
top_divides k le = elim (Bool-cases (leb k 18)) [
  | inl e ↦
      let parts : max_small ≡ 2 ^ (18 - k) * 2 ^ k =
        let whole : 18 ≡ 18 - k + k = ground (arith, e) in
        ap (λ n. 2 ^ n) whole ∙ pow_split (18 - k) k in
      rw parts (mul-mod_left (2 ^ (18 - k)) (2 ^ k))
  | inr e ↦
      let above : 2 ^ 19 ≤ 2 ^ k = pow-le-pow_right (omega arith) {i = 19} (ground (arith, e)) in
      absurd (omega (arith, le, above))
]

size_of_top : size_of_class 48 ≡ some max_small
unfolding size_of_class
size_of_top = refl

-- A power of two never wants a class that the table does not have.
aligned_in_table :
    (need align k : ℕ)
    → need ≤ max_small
    → align ≤ need
    → align ≡ 2 ^ k
    → ¬ IsSmallestAligned need align none
aligned_in_table need align k le al power a =
    a 48 max_small size_of_top le (rw power (top_divides k (omega (arith, le, al, power))))

module _ {S : Type 0} (run : Runtime S) (l : Layout) where
  -- An answer is handed on, and where there is none, the program aborts.
  pub data Answers : Option ℕ × S → Option (ℕ × S) → Type 0 where
    granted : {p : ℕ} {t : S} → Answers (some p, t) (some (p, t))
    aborted : {t : S} → Answers (none, t) none

  -- The smallest class that holds the request, whose size is a multiple of the alignment.
  pub record IsClassFor (c : ℕ) : Type 0 where
    pub smallest : IsSmallestClass (need_of l) c
    pub round : smallest.object % l.align ≡ 0

  -- The pop of the thread's cache: the one that prefetches, from 1024 bytes on.
  abbrev pub pop_of : S → (c : ℕ) → IsClassFor c → Option ℕ × S
  pop_of s c is =
      if leb 1024 (need_of l) then run.alloc_prefetch s c is.smallest.object else run.try_pop s c

  -- Who serves a request, with which call, and what comes of it.
  pub data Serves (s : S) : Option (ℕ × S) → Type 0 where
    dangling : l.size ≡ 0 → Serves s (some (l.align, s))
    popped :
        (c p : ℕ) (t : S) (is : IsClassFor c)
        → l.size ≢ 0
        → l.align ≤ min_align
        → pop_of s c is ≡ (some p, t)
        → Serves s (some (p, t))
    refilled :
        (c : ℕ) (t : S) (is : IsClassFor c) {r : Option (ℕ × S)}
        → l.size ≢ 0
        → l.align ≤ min_align
        → pop_of s c is ≡ (none, t)
        → (run.heap t).0 ≡ true
        → Answers (run.refill (run.heap t).1 c) r
        → Serves s r
    unconfigured :
        (c : ℕ) (t : S) (is : IsClassFor c)
        → l.size ≢ 0
        → l.align ≤ min_align
        → pop_of s c is ≡ (none, t)
        → (run.heap t).0 ≡ false
        → Serves s (some (run.system_alloc (run.heap t).1 l))
    system :
        l.size ≢ 0
        → is_small l ≡ false
        → (run.heap s).0 ≡ false
        → Serves s (some (run.system_alloc (run.heap s).1 l))
    aligned :
        (c : ℕ) {r : Option (ℕ × S)}
        → l.size ≢ 0
        → min_align < l.align
        → (run.heap s).0 ≡ true
        → need_of l ≤ max_small
        → IsSmallestAligned (need_of l) l.align (some c)
        → Answers (run.alloc_class (run.heap s).1 c) r
        → Serves s r
    large :
        {r : Option (ℕ × S)}
        → l.size ≢ 0
        → (run.heap s).0 ≡ true
        → max_small < need_of l
        → l.align ≤ span_bytes
        → Answers (run.alloc_large (run.heap s).1 (need_of l)) r
        → Serves s r
    over_aligned :
        l.size ≢ 0
        → (run.heap s).0 ≡ true
        → max_small < need_of l
        → span_bytes < l.align
        → Serves s none

  or_abort-Answers : (r : Option ℕ × S) → Answers r (or_abort run r)
  unfolding or_abort
  or_abort-Answers (none, t) = aborted
  or_abort-Answers (some p, t) = granted

  module _ (some_size : l.size ≢ 0) (exp : ℕ) (power : l.align ≡ 2 ^ exp) where
    module _ (c : ℕ) (is : IsClassFor c) (al : l.align ≤ min_align) (s : S) where
      after_pop-Serves :
          (r : Option ℕ) (t : S) → pop_of s c is ≡ (r, t) → Serves s (after_pop run (r, t) l c)
      unfolding after_pop on_miss
      after_pop-Serves (some p) t e = popped c p t is some_size al e
      after_pop-Serves none t e = elim (Bool-cases (run.heap t).0) [
        | inl h ↦ rw (on_miss, h) (refilled c t is some_size al e h (or_abort-Answers _))
        | inr h ↦ rw (on_miss, h) (unconfigured c t is some_size al e h)
      ]

    small-class :
        need_of l ≤ max_small
        → l.align ≤ min_align
        → (c : ℕ) × (class_of (need_of l) ≡ some (some c)) × IsClassFor c
    small-class le al =
        let (c, e, k) = Classifies-small (class_for-Classifies (need_of l)) le in
        let real : (need_of l == 0) ≡ false = ground (arith, some_size) in
        (
          c,
          class_of-eq-class_for (need_of l) ∙ rw real (ap some e),
          record {
            smallest = k;
            round =
                subst (λ a. k.object % a ≡ 0) (sym power)
                  (power_divides exp k.object (omega (arith, power, al))
                    (size_of_class-round c k.object k.found));
          },
        )

    alloc_small-Serves :
        (s : S) → need_of l ≤ max_small → l.align ≤ min_align → Serves s (alloc_small run s l)
    unfolding alloc_small alloc_large_smallclass
    alloc_small-Serves s le al =
        let (c, e, is) = small-class le al in
        elim (Bool-cases (leb 1024 (need_of l))) [
          | inl b ↦
              rw (alloc_small, e, b, alloc_large_smallclass, is.smallest.found)
                (after_pop-Serves c is al s _ _ (rw b refl))
          | inr b ↦ rw (alloc_small, e, b) (after_pop-Serves c is al s _ _ (rw b refl))
        ]

    alloc_cold-Serves :
        (s : S)
        → is_small l ≡ false
        → (run.heap s).0 ≡ true
        → Serves s (alloc_cold run (run.heap s).1 l)
    unfolding alloc_cold is_small
    alloc_cold-Serves s cold heap = elim (Bool-cases (ltb max_small (need_of l))) [
      | inl e ↦ elim (Bool-cases (ltb span_bytes l.align)) [
        | inl over ↦
            rw (alloc_cold, e, over)
              (over_aligned some_size heap (ground (arith, e)) (ground (arith, over)))
        | inr f ↦
            rw (alloc_cold, e, f)
              (large some_size heap (ground (arith, e)) (ground (arith, f)) (or_abort-Answers _))
      ]
      | inr e ↦
          let positive : l.align ≢ 0 = omega (arith, power, pow-pos exp) in
          let le : need_of l ≤ max_small = ground (arith, e) in
          let (r, found, is) =
            aligned_class-IsSmallestAligned (need_of l) l.align (ground (arith, some_size)) le
              positive in
          rw (alloc_cold, e, found) (by_class r is le)
    ]
      where
        by_class :
            (r : Option ℕ)
            → IsSmallestAligned (need_of l) l.align r
            → need_of l ≤ max_small
            → Serves s (
                or_abort run (elim r [
                  | some c ↦ run.alloc_class (run.heap s).1 c
                  | none ↦ run.alloc_large (run.heap s).1 (need_of l)
                ]))
        by_class none is le =
            absurd (aligned_in_table (need_of l) l.align exp le (omega arith) power is)
        by_class (some c) is le =
            aligned c some_size (ground (arith, cold, le)) heap le is (or_abort-Answers _)

  -- Every request whose alignment is a power of two goes to one call, with the right argument, and what
  -- that call answers is handed on: one of no bytes gets an address that is not read. Up to the largest
  -- class and an alignment of 8, the thread's cache is popped for the smallest class that holds the
  -- request, whose size is a multiple of the alignment; on a miss that class is refilled, or the system
  -- serves where no sub-heap is configured. Every other request goes to the system where none is
  -- configured, and else to the sub-heap: up to the largest class for the smallest class that holds it
  -- and is a multiple of the alignment, which there is; above it for a run, where the alignment is at
  -- most the size of a span. It aborts only where the refill, the class or the run called for is not
  -- there, or where a request above the largest class wants a larger alignment than a span.
  pub alloc-Serves : (k : ℕ) → l.align ≡ 2 ^ k → (s : S) → Serves s (alloc run s l)
  unfolding alloc is_small
  alloc-Serves k power s = elim (Bool-cases (l.size == 0)) [
    | inl e ↦ rw (alloc, e) (dangling (ground (arith, e)))
    | inr e ↦
        let some_size : l.size ≢ 0 = ground (arith, e) in
        elim (Bool-cases (is_small l)) [
          | inl f ↦
              rw (alloc, e, f)
                (alloc_small-Serves some_size k power s (ground (arith, f)) (ground (arith, f)))
          | inr f ↦ elim (Bool-cases (run.heap s).0) [
            | inl g ↦ rw (alloc, e, f, g) (alloc_cold-Serves some_size k power s f g)
            | inr g ↦ rw (alloc, e, f, g) (system some_size f g)
          ]
        ]
  ]
