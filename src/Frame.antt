-- ===== src/Frame.antt =====
-- The frame pool of toccata-core/src/frame.rs: frames of one size, the free ones in the processors'
-- stacks and in a central stack behind them. A panic is `none`; where a pool has no frame, the
-- result inside is `none`.
pub mod Meta
pub mod Central
mod Conserve
pub mod Local
pub mod Allocate
pub mod Address
pub mod Slab
pub mod Build
pub mod Built
pub mod Buffer
pub mod Windows
mod Tests
pub mod Cache
pub mod Cached
pub mod Taken
mod CentralStack
use toccata.Base.{
  ℕ, zero, suc, ◌+◌, ◌-◌, ◌*◌, ◌/◌, ◌%◌, ◌^◌, max, Bool, true, false, Option, none, some, List, [],
  ◌∷◌, length, ltb, leb, ◌==◌, if◌then◌else◌, ◌>>=◌, ◌>>◌, Slice, read, write, debug_assert,
  mul_usize,
}
use toccata.Base.LocalStack.{LocalStack}
use toccata.Frame.Meta.{Reclaim, free, keep, FrameMeta}

abbrev pub batch : ℕ
batch = 32

abbrev pub cap_per_cpu : ℕ
cap_per_cpu = 256

pub record FramePool (S M : Type 0) : Type 0 where
  pub frames_base : ℕ
  pub frame_shift : ℕ
  pub frame_size : ℕ
  pub n_frames : ℕ
  pub slab : S
  pub central : Central.Central
  pub meta : Slice M

module _ {S M : Type 0} where
  -- `ptr - self.frames_base` panics below zero.
  pub index_of : FramePool S M → ℕ → Option ℕ
  index_of pool ptr =
      if ltb ptr pool.frames_base
      then none
      else some ((ptr - pool.frames_base) / 2 ^ pool.frame_shift)

  pub into_addr : FramePool S M → ℕ → Option ℕ
  into_addr pool ptr = if ltb ptr pool.frames_base then none else some (ptr - pool.frames_base)

  pub from_addr : FramePool S M → ℕ → Option ℕ
  from_addr pool addr = do
    debug_assert (ltb addr (pool.n_frames * pool.frame_size))
    debug_assert (addr % pool.frame_size == 0)
    some (pool.frames_base + addr)

module _ {S M : Type 0} (policy : FrameMeta M) where
  -- `self.meta[self.index_of(ptr)].on_alloc()`, and the same of `on_free`.
  pub meta_on_alloc : FramePool S M → ℕ → Option (FramePool S M)
  meta_on_alloc pool ptr = do
    i ← index_of pool ptr
    m ← read pool.meta i
    ms ← write pool.meta i (policy.on_alloc m)
    some (record pool { meta = ms })

  pub meta_on_free : FramePool S M → ℕ → Option (Reclaim × FramePool S M)
  meta_on_free pool ptr = do
    i ← index_of pool ptr
    m ← read pool.meta i
    let (what, m) = policy.on_free m
    ms ← write pool.meta i m
    some (what, record pool { meta = ms })

module _ {S : Type 0} (l2 : LocalStack S) where
  -- The loop of `refill` that moves at most `n` more frames from the central stack to the processor's.
  pub refill_each : ℕ → S → Central.Central → Option (S × Central.Central)
  refill_each zero s c = some (s, c)
  refill_each (suc n) s c = do
    (r, c) ← Central.pop c
    elim r [
      | none ↦ some (s, c)
      | some p ↦
          let (pushed, s) = l2.push s p in
          let rest = refill_each n s c in
          if pushed then rest else (do c ← Central.push c p; some (s, c))
    ]

  -- The loop of `drain` that moves at most `n` frames from the processor's stack to the central one.
  pub drain_each : ℕ → S → Central.Central → Option (S × Central.Central)
  drain_each zero s c = some (s, c)
  drain_each (suc n) s c =
      let (r, s) = l2.pop s in
      elim r [ none ↦ some (s, c) | some p ↦ do c ← Central.push c p; drain_each n s c ]

module _ {S M : Type 0} (l2 : LocalStack S) where
  pub refill : FramePool S M → Option (Option ℕ × FramePool S M)
  refill pool = do
    (r, c) ← Central.pop pool.central
    elim r [
      | none ↦ some (none, record pool { central = c })
      | some handed ↦ do
        (s, c) ← refill_each l2 (batch - 1) pool.slab c
        some (some handed, record pool { slab = s; central = c })
    ]

  pub drain : FramePool S M → ℕ → Option (FramePool S M)
  drain pool ptr = do
    (s, c) ← drain_each l2 (max (batch / 2) 1) pool.slab pool.central
    let (pushed, s) = l2.push s ptr
    (s, c) ← if pushed then some (s, c) else (do c ← Central.push c ptr; some (s, c))
    some (record pool { slab = s; central = c })

  pub pop_l2 : FramePool S M → Option (Option ℕ × FramePool S M)
  pop_l2 pool =
      let (r, s) = l2.pop pool.slab in
      elim r [
        | some p ↦ some (some p, record pool { slab = s })
        | none ↦ refill (record pool { slab = s })
      ]

  pub push_l2 : FramePool S M → ℕ → Option (FramePool S M)
  push_l2 pool p =
      let (pushed, s) = l2.push pool.slab p in
      if pushed then some (record pool { slab = s }) else drain (record pool { slab = s }) p

  module _ (policy : FrameMeta M) where
    pub alloc : FramePool S M → Option (Option ℕ × FramePool S M)
    alloc pool = do
      (r, pool) ← pop_l2 pool
      elim r [
        | none ↦ some (none, pool)
        | some ptr ↦ do pool ← meta_on_alloc policy pool ptr; some (some ptr, pool)
      ]

    -- `FramePool::free`; `recycle` is `push_l2`.
    pub dealloc : FramePool S M → ℕ → Option (FramePool S M)
    dealloc pool f = do
      (what, pool) ← meta_on_free policy pool f
      elim what [ keep ↦ some pool | free ↦ push_l2 pool f ]

    -- `alloc_n` for the room that is left in `out`.
    pub alloc_n : ℕ → FramePool S M → Option (List ℕ × FramePool S M)
    alloc_n zero pool = some ([], pool)
    alloc_n (suc n) pool = do
      (r, pool) ← alloc pool
      elim r [
        | none ↦ some ([], pool)
        | some f ↦ do (fs, pool) ← alloc_n n pool; some (f ∷ fs, pool)
      ]

    pub free_n : List ℕ → FramePool S M → Option (FramePool S M)
    free_n [] pool = some pool
    free_n (f ∷ fs) pool = do pool ← dealloc pool f; free_n fs pool
