-- ===== src/SubHeap/LargeTests.antt =====
-- The theorems about the large runs of toccata-core/src/subheap.rs, each at a concrete input.
use toccata.Base.{ℕ, ◌*◌, ◌^◌, ◌≤◌, ◌≡◌, arith, none, some, inr, [], ◌∷◌, inl}
use toccata.SpanPool.Client.{Live}
use toccata.SpanPool.Free.{Freed}
use toccata.SubHeap.Large.{Store, built, spans_for, alloc_large, dealloc_large}
use toccata.SubHeap.Runs.{run_at, IsSound}
use toccata.SubHeap.Obtain.{Obtains, alloc_large-Obtains}
use toccata.SubHeap.Return.{dealloc_large-Returns}
use toccata.SubHeap.Requests.{
  obtain, Requested, start, next, Obtains-cases, built-IsSound, Requested-IsSound,
}

-- Four spans from 2 ^ 20 on, on a machine with two processors.
abbrev pub four_spans : Store
four_spans = built (2 ^ 20) (4 * 65536) 2

pub four_spans-IsSound : IsSound four_spans []
four_spans-IsSound = built-IsSound (2 ^ 20) (4 * 65536) 2 (omega arith) (omega arith)

alloc_large-Obtains_example :
    (70000 ≤ spans_for 70000 * 2 ^ 16)
    × Obtains four_spans [] (spans_for 70000) (alloc_large four_spans (some 1) 70000)
alloc_large-Obtains_example =
    alloc_large-Obtains {s = four_spans} {live = []} (some 1) 70000 four_spans-IsSound (omega arith)

-- What a request of two spans gets, on processor 1.
answer :
    (q : Store) × (h : ℕ) × (alloc_large four_spans (some 1) 70000
      ≡ some (some (run_at four_spans h), q))
    × IsSound q ((h, 2) ∷ [])
answer =
    elim (Obtains-cases (alloc_large-Obtains (some 1) 70000 four_spans-IsSound (omega arith)).1) [
      | inl (q, e, over, v) ↦ absurd (omega (arith, over))
      | inr (q, h, e, v) ↦ (q, h, e, v)
    ]

abbrev after : Store
after = answer.0

abbrev held : Live
held = (answer.1, 2) ∷ []

two_in_use : Requested (2 ^ 20) (4 * 65536) 2 (after, held)
two_in_use =
    next (four_spans, []) (after, held) start
      (obtain (some 1) 70000 answer.1 (omega arith) answer.2)

Requested-IsSound_example : IsSound after held
Requested-IsSound_example =
    Requested-IsSound {x = (after, held)} two_in_use (omega arith) (omega arith)

dealloc_large-Returns_example :
    (q : Store) × (dealloc_large after none (run_at after answer.1) ≡ some q)
    × IsSound q []
    × Freed after.large.pool answer.1 2 q.large.pool
dealloc_large-Returns_example =
    dealloc_large-Returns after [] answer.1 2 []
      (Requested-IsSound {x = (after, held)} two_in_use (omega arith) (omega arith)) none
