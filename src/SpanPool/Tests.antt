-- ===== src/SpanPool/Tests.antt =====
-- The tests of toccata-core/src/spanpool.rs, run on the model, and each theorem about the pool at
-- a concrete input.
use toccata.Base.{
  subst, ℕ, ◌≡◌, refl, arith, Option, none, some, ◌>>=◌, List, [], ◌∷◌, shl_u64, not_u64,
  trailing_zeros,
}
use toccata.SpanPool.{
  SpanPool, new, alloc, free, find_first_set_ge, take_from, absorb_right, absorb_left, link, unlink,
}
use toccata.SpanPool.Alloc.{Allocates, alloc-Allocates, find_first_set_ge-IsLowestFrom}
use toccata.SpanPool.Client.{Reach, seed, next, obtain, IsSound}
use toccata.SpanPool.Drain.{drained-alloc}
use toccata.SpanPool.Find.{IsLowestFrom}
use toccata.SpanPool.Free.{Freed, free-Freed}
use toccata.SpanPool.History.{Reach-IsSound}
use toccata.SpanPool.New.{new-IsValid}
use toccata.SpanPool.Spans.{IsTaken}
use toccata.SpanPool.Valid.{IsValid}

-- A call of the pool, and what a script of calls returns.
data Op : Type 0 where
  allocs : ℕ → Op
  frees : ℕ → ℕ → Op

run : SpanPool → List Op → Option (List (Option ℕ))
run p [] = some []
run p (allocs n ∷ ops) = do (r, p) ← alloc p n; rs ← run p ops; some (r ∷ rs)
run p (frees h c ∷ ops) = do p ← free p h c; run p ops

-- All that a run of the script computes with.
script : Unit {0}
unfolding run new alloc free find_first_set_ge take_from absorb_right absorb_left link unlink
    shl_u64 not_u64 trailing_zeros
script = tt

inexact_splits_tail :
    run (new 100) (frees 10 8 ∷ allocs 3 ∷ allocs 5 ∷ allocs 1 ∷ [])
    ≡ some (some 10 ∷ some 13 ∷ none ∷ [])
unfolding script
inexact_splits_tail = refl

coalesce_right_left_and_both :
    run
      (new 100)
      (frees 0 4 ∷ frees 4 4 ∷ allocs 8 ∷ frees 20 2 ∷ frees 18 2 ∷ frees 22 2 ∷ allocs 6 ∷ [])
    ≡ some (some 0 ∷ some 18 ∷ [])
unfolding script
coalesce_right_left_and_both = refl

no_coalesce_across_gap :
    run (new 100) (frees 0 2 ∷ frees 3 2 ∷ allocs 4 ∷ allocs 2 ∷ allocs 2 ∷ [])
    ≡ some (none ∷ some 3 ∷ some 0 ∷ [])
unfolding script
no_coalesce_across_gap = refl

find_twice : Option (List (Option ℕ))
find_twice = do
  p ← free (new 500) 0 200
  p ← free p 300 5
  a ← find_first_set_ge p 1
  b ← find_first_set_ge p 6
  c ← find_first_set_ge p 201
  some (a ∷ b ∷ c ∷ [])

find_first_set_spans_word_boundary : find_twice ≡ some (some 5 ∷ some 200 ∷ none ∷ [])
unfolding script find_twice
find_first_set_spans_word_boundary = refl

-- The pool of 100 spans, with all of them free, and after an `alloc` of 5.
seeded : SpanPool
unfolding script
seeded = elim (free (new 100) 0 100) [ none ↦ new 100 | some p ↦ p ]

after_five : SpanPool
unfolding seeded
after_five = elim (alloc seeded 5) [ some (some h, q) ↦ q | _ ↦ seeded ]

-- A pool with the free run [0, 10).
low_ten : SpanPool
unfolding script
low_ten = elim (free (new 100) 0 10) [ none ↦ new 100 | some p ↦ p ]

new-IsValid_lem : IsValid (new 100)
new-IsValid_lem = (new-IsValid 100 (omega arith)).0

seeded-Reach : Reach 100 (record { pool = seeded; live = [] })
unfolding seeded
seeded-Reach = seed seeded refl

after_five-Reach : Reach 100 (record { pool = after_five; live = (0, 5) ∷ [] })
unfolding after_five
after_five-Reach = next seeded-Reach (obtain 5 0 seeded after_five [] (omega arith) refl)

seeded-IsValid : IsValid seeded
seeded-IsValid = (Reach-IsSound (omega arith) (omega arith) seeded-Reach).valid

new-IsTaken : (h c : ℕ) → IsTaken (new 100).head_count.at h c
unfolding new
new-IsTaken h c k q = absurd (q refl)

low_ten-eq : free (new 100) 0 10 ≡ some low_ten
unfolding low_ten
low_ten-eq = refl

low_ten-IsValid : IsValid low_ten
low_ten-IsValid =
    let (v, size, taken) = new-IsValid 100 (omega arith) in
    let (q, e, f) = free-Freed 0 10 v (omega arith) (omega (arith, size)) (new-IsTaken 0 10) in
    let same : q ≡ low_ten = ground (arith, e, low_ten-eq) in subst IsValid same f.valid

find_first_set_ge-IsLowestFrom_example :
    (r : Option ℕ) × (find_first_set_ge seeded 70 ≡ some r)
    × IsLowestFrom seeded.bucket_head.at 70 r
find_first_set_ge-IsLowestFrom_example = find_first_set_ge-IsLowestFrom 70 seeded-IsValid

alloc-Allocates_example : Allocates seeded 5 (alloc seeded 5)
alloc-Allocates_example = alloc-Allocates 5 seeded-IsValid (omega arith)

free-Freed_example : (q : SpanPool) × (free low_ten 10 5 ≡ some q) × Freed low_ten 10 5 q
unfolding low_ten
free-Freed_example =
    free-Freed 10 5 low_ten-IsValid (omega arith) (omega arith) (λ k q. ground arith)

Reach-IsSound_example : IsSound 100 (record { pool = after_five; live = (0, 5) ∷ [] })
Reach-IsSound_example = Reach-IsSound (omega arith) (omega arith) after_five-Reach

drained-alloc_example : (q : SpanPool) × (alloc seeded 100 ≡ some (some 0, q))
drained-alloc_example = drained-alloc (omega arith) (omega arith) seeded-Reach
