-- ===== src/Magazine/Tests.antt =====
-- The magazine of toccata-core/src/magazine.rs at concrete inputs, over a list of free objects and over
-- a sub-heap.
use toccata.Base.{
  false, ℕ, zero, suc, ◌*◌, ◌≡◌, refl, arith, none, some, ◌>>=◌, List, [], ◌∷◌, ◌++◌, drop,
}
use toccata.SubHeap.Pools.{Pools}
use toccata.SubHeap.Tests.{two_shards, thread, calm}
use toccata.Magazine.{
  Magazine, new, Backing, alloc, free, refill, try_pop, try_push, drain_then_push, slots,
}
use toccata.Magazine.Exchange.{HandsOut}
use toccata.Magazine.Backed.{sub_heap, alloc-HandsOut}
use toccata.Magazine.Stack.{IsValid}

abbrev take : ℕ → List ℕ → List ℕ
take zero xs = []
take (suc n) [] = []
take (suc n) (x ∷ xs) = x ∷ take n xs

abbrev pool : Backing (List ℕ)
pool = record {
  refill_batch = λ s room. some (take room s, drop room s);
  dealloc_class_batch = λ s batch. some (batch ++ s);
}

empty-IsValid : IsValid new
empty-IsValid = record { room = refl; few = omega arith }

-- Three objects are refilled, and handed out in ascending order.
refill_ascends :
    (do
      (a, m, s) ← alloc pool (64 ∷ 128 ∷ 192 ∷ []) new
      (b, m, s) ← alloc pool s m
      (m, s) ← free pool s m 512
      (c, m, s) ← alloc pool s m
      (d, m, s) ← alloc pool s m
      (e, m, s) ← alloc pool s m
      some (a ∷ b ∷ c ∷ d ∷ e ∷ []))
    ≡ some (some 64 ∷ some 128 ∷ some 512 ∷ some 192 ∷ none ∷ [])
unfolding alloc refill free try_pop try_push drain_then_push slots
refill_ascends = refl

abbrev backing : Backing Pools
backing = sub_heap 1 thread calm false 1 24

alloc-HandsOut_example : HandsOut backing two_shards new (alloc backing two_shards new)
alloc-HandsOut_example = alloc-HandsOut 1 thread calm false 1 24 two_shards new empty-IsValid

abbrev full : Magazine
full = record { len = 32; ptrs = record { len = 32; at = λ i. i * 64 } }
