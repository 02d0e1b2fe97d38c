-- ===== src/Frame/Cache.antt =====
-- `FrameCache` of toccata-core/src/frame.rs: one thread's free frames in front of the pool. A panic is
-- `none`.
use toccata.Base.{
  ℕ, zero, suc, ◌+◌, ◌-◌, ◌/◌, Option, none, some, if◌then◌else◌, ◌>>=◌, ltb, ◌==◌, Slice, read,
  write, sys_boxed_slice,
}
use toccata.Base.LocalStack.{LocalStack}
use toccata.Frame.{FramePool, pop_l2, push_l2, meta_on_alloc, meta_on_free}
use toccata.Frame.Meta.{free, keep, FrameMeta}

abbrev pub frame_mag_cap : ℕ
frame_mag_cap = 32

pub record FrameCache (S M : Type 0) : Type 0 where
  pub pool : FramePool S M
  pub len : ℕ
  pub ptrs : Slice ℕ

module _ {S M : Type 0} where
  -- `self.len -= 1` and the read of the slot, where `len` is not 0; and the write with `self.len += 1`.
  unfoldable pub take_slot : FrameCache S M → Option (ℕ × FrameCache S M)
  take_slot c =
      if c.len == 0
      then none
      else (do p ← read c.ptrs (c.len - 1); some (p, record c { len = c.len - 1 }))

  unfoldable pub put_slot : FrameCache S M → ℕ → Option (FrameCache S M)
  put_slot c p = do ps ← write c.ptrs c.len p; some (record c { len = c.len + 1; ptrs = ps })

module _ {S M : Type 0} (l2 : LocalStack S) where
  abbrev pub cache : FramePool S M → FrameCache S M
  cache pool = record { pool = pool; len = 0; ptrs = sys_boxed_slice frame_mag_cap (λ _. 0) }

  -- At most `n` more rounds of the loop of `refill`.
  unfoldable pub refill_loop : ℕ → FrameCache S M → Option (FrameCache S M)
  refill_loop zero c = some c
  refill_loop (suc n) c = do
    (r, pool) ← pop_l2 l2 c.pool
    elim r [
      | none ↦ some (record c { pool = pool })
      | some p ↦ do c ← put_slot (record c { pool = pool }) p; refill_loop n c
    ]

  unfoldable pub refill : FrameCache S M → Option (Option ℕ × FrameCache S M)
  refill c = do
    c ← refill_loop (frame_mag_cap / 2 - c.len) c
    if c.len == 0 then some (none, c) else (do (p, c) ← take_slot c; some (some p, c))

  -- `n` rounds of the loops of `drain_then_push` and of `drop`.
  unfoldable pub flush_loop : ℕ → FrameCache S M → Option (FrameCache S M)
  flush_loop zero c = some c
  flush_loop (suc n) c = do
    (p, c) ← take_slot c
    pool ← push_l2 l2 c.pool p
    flush_loop n (record c { pool = pool })

  unfoldable pub drain_then_push : FrameCache S M → ℕ → Option (FrameCache S M)
  drain_then_push c ptr = do c ← flush_loop (frame_mag_cap / 2) c; put_slot c ptr

  unfoldable pub recycle : FrameCache S M → ℕ → Option (FrameCache S M)
  recycle c f = if ltb c.len frame_mag_cap then put_slot c f else drain_then_push c f

  unfoldable pub drop : FrameCache S M → Option (FrameCache S M)
  drop c = flush_loop c.len c

  unfoldable pub take : FrameCache S M → Option (Option ℕ × FrameCache S M)
  take c = if ltb 0 c.len then (do (p, c) ← take_slot c; some (some p, c)) else refill c

  module _ (policy : FrameMeta M) where
    pub alloc : FrameCache S M → Option (Option ℕ × FrameCache S M)
    alloc c = do
      (r, c) ← take c
      elim r [
        | none ↦ some (none, c)
        | some p ↦ do pool ← meta_on_alloc policy c.pool p; some (some p, record c { pool = pool })
      ]

    pub dealloc : FrameCache S M → ℕ → Option (FrameCache S M)
    dealloc c f = do
      (what, pool) ← meta_on_free policy c.pool f
      elim what [
        | keep ↦ some (record c { pool = pool })
        | free ↦ recycle (record c { pool = pool }) f
      ]
