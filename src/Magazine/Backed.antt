-- ===== src/Magazine/Backed.antt =====
-- `ThreadCache` of toccata-core/src/magazine.rs over the sub-heap of toccata-core/src/subheap.rs: its
-- batches are refilled by `refill_batch` and returned by `dealloc_class_batch`.
use toccata.Base.{ℕ, Bool}
use toccata.Slab.{Thread}
use toccata.SubHeap.Pools.{Pools, Envs, dealloc_class_batch}
use toccata.SubHeap.Room.{refill_batch-AtMost}
use toccata.SubHeap.Serve.{refill_batch}
use toccata.Magazine.{Magazine, mag_cap, Backing, alloc}
use toccata.Magazine.Stack.{IsValid}
use toccata.Magazine.Exchange.{HandsOut, alloc-outcome}

-- The sub-heap, as thread `thread` calls it for its magazine of `class`.
abbrev pub sub_heap : ℕ → Thread → (ℕ → Envs) → Bool → ℕ → ℕ → Backing Pools
sub_heap fuel t env got thread class = record {
  refill_batch = λ s room. refill_batch fuel s t got thread class room;
  dealloc_class_batch = λ s ptrs. dealloc_class_batch s t env thread ptrs class;
}

module _ (fuel : ℕ) (t : Thread) (env : ℕ → Envs) (got : Bool) (thread class : ℕ) (s : Pools)
    (m : Magazine) where
  -- An allocation from a valid magazine over the sub-heap returns the first object that the magazine
  -- would pop and leaves the sub-heap alone. Where the magazine is empty, it asks the sub-heap for a
  -- full magazine, returns the first object of the batch, and keeps the others so that the next
  -- allocations hand them out in their order; it returns nothing where the batch is empty. The magazine
  -- stays valid. It does not return only where it was empty and `refill_batch` does not return.
  pub alloc-HandsOut :
      IsValid m
      → HandsOut
          (sub_heap fuel t env got thread class)
          s
          m
          (alloc (sub_heap fuel t env got thread class) s m)
  alloc-HandsOut v =
      alloc-outcome (sub_heap fuel t env got thread class) s m v
        (refill_batch-AtMost fuel s t got thread class mag_cap)
