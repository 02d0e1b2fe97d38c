-- ===== src/Slab/Stopped.antt =====
-- What the stop flag of a processor does to the operations of toccata-core/src/rseq/slab.rs and
-- toccata-core/src/rseq/asm.rs.
use toccata.Base.{ℕ, ◌<◌, ◌≡◌, ◌≢◌, arith, some, true, max, put}
use toccata.Slab.{
  Memory, ClassLoc, SlabLayout, set_stopped, is_stopped, needs_slow, push_locked, pop_locked,
}
use toccata.Slab.Sequence.{seized, pop_section, push_section, fallback}

-- Setting the flag of a processor returns. Whatever operation on its stacks then meets the flag, on the
-- locked path or in a critical section, takes its slow path and changes nothing, and the flag of every
-- other processor is as before.
pub set_stopped-Stops :
    (l : SlabLayout) (cpu j : ℕ)
    → l.stopped.len ≡ max l.num_cpus 1
    → cpu < l.num_cpus
    → j < l.num_cpus
    → j ≢ cpu
    → (m : Memory) (loc : ClassLoc) (c p : ℕ)
    → (k : SlabLayout) × (set_stopped l cpu true ≡ some k)
      × (pop_locked k m cpu c ≡ some (needs_slow, m))
      × (push_locked k m cpu c p ≡ some (needs_slow, m))
      × (pop_section k loc cpu m ≡ (fallback, m))
      × (push_section k loc cpu p m ≡ (fallback, m))
      × (is_stopped k j ≡ is_stopped l j)
unfolding set_stopped is_stopped pop_locked push_locked pop_section push_section seized
set_stopped-Stops l cpu j flags lc lj other m loc c p = (
  record l { stopped = put l.stopped cpu 1 },
  ground (arith, flags, lc),
  ground (arith, flags, lc),
  ground (arith, flags, lc),
  ground (arith, flags, lc),
  ground (arith, flags, lc),
  ground (arith, flags, lc, lj, other),
)
