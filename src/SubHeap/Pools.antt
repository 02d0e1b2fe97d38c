-- ===== src/SubHeap/Pools.antt =====
-- The small objects of toccata-core/src/subheap.rs on their way back: onto the stack of the processor,
-- or as a bit in the bitmap of their span. `env` is what a thread meets in the restartable sections of
-- one stack operation, numbered in the order of the operations. A panic is `none`.
use Prim.Native.Nat.{bit_or}
use toccata.Base.{
  ℕ, zero, suc, ◌+◌, ◌-◌, ◌*◌, ◌/◌, ◌%◌, ◌^◌, min, max, Bool, true, false, ◌&&◌, ◌||◌, Option, none,
  some, List, [], ◌∷◌, ltb, ◌==◌, if◌then◌else◌, ◌>>=◌, Slice, read, write, update, mul_usize,
  shl_u64,
}
use toccata.SizeClass.{num_classes, size_of_class}
use toccata.SpanPool.{no_span}
use toccata.Meta.Table.{home_relaxed, lookup}
use toccata.Meta.Bitmaps.{SpanBitmaps, span_base, locate, set_mask}
use toccata.Slab.{SlabLayout, Memory, Thread, ok, needs_slow, current, header_mut, slot_ptr}
use toccata.Slab.Sequence.{Attempt, pop, push}
use toccata.SubHeap.{batch_for, large_class}
use toccata.SubHeap.Central.{CentralList, central_deposit}
use toccata.SubHeap.Large.{Store, add_local, negated, dealloc_large}

-- `SubHeap`, with the memory that the stacks of `slab` lie in.
pub record Pools : Type 0 where
  pub slab : SlabLayout
  pub memory : Memory
  pub central : Slice CentralList
  pub bitmaps : SpanBitmaps
  pub num_shards : ℕ
  pub store : Store

abbrev pub Envs : Type 0
Envs = ℕ → ℕ → Attempt

-- `x % self.num_shards`
abbrev pub shard_of : Pools → ℕ → Option ℕ
shard_of s x = if s.num_shards == 0 then none else some (x % s.num_shards)

-- `central`: the index of the list.
abbrev pub central : Pools → ℕ → ℕ → Option ℕ
central s shard class = do shard ← shard_of s shard; some (shard * num_classes + class)

abbrev pub deposit : Pools → ℕ → ℕ → Option Pools
deposit s obj osz = do p ← central_deposit s.bitmaps obj osz; some (record s { bitmaps = p })

-- The loop of `drain` for the rounds that are left.
abbrev pub drain_each : Pools → Thread → Envs → ℕ → ℕ → ℕ → ℕ → ℕ → Option Pools
drain_each s t env cpu class osz zero k = some s
drain_each s t env cpu class osz (suc n) k = do
  (r, m) ← pop s.slab t (env k) s.memory cpu class
  elim r [
    | needs_slow ↦ some (record s { memory = m })
    | ok p ↦ do
      s ← deposit (record s { memory = m }) p osz
      drain_each s t env cpu class osz n (k + 1)
  ]

abbrev pub drain : Pools → Thread → Envs → ℕ → ℕ → ℕ → Option Pools
drain s t env cpu class ptr = do
  batch ← batch_for class
  osz ← size_of_class class
  s ← drain_each s t env cpu class osz (max (batch / 2) 1) 0
  (r, m) ← push s.slab t (env (max (batch / 2) 1)) s.memory cpu class ptr
  elim r [
    | ok u ↦ some (record s { memory = m })
    | needs_slow ↦ deposit (record s { memory = m }) ptr osz
  ]

-- `match stack.push(class, ptr)`, which drains a stack that is full.
abbrev pub push_local : Pools → Thread → Envs → ℕ → ℕ → ℕ → Option Pools
push_local s t env cpu class ptr = do
  (r, m) ← push s.slab t (env 0) s.memory cpu class ptr
  elim r [
    | ok u ↦ some (record s { memory = m })
    | needs_slow ↦ drain (record s { memory = m }) t (λ k. env (k + 1)) cpu class ptr
  ]

abbrev pub unowned : ℕ
unowned = 2 ^ 16 - 1

-- `home == u16::MAX || home % self.num_shards == my_shard`, for `num_shards` that is not 0.
unfoldable pub is_local : ℕ → ℕ → ℕ → Bool
is_local num_shards my_shard home = (home == unowned) || (home % num_shards == my_shard)

-- `self.counters.add_local(cpu, bytes, objs)`
abbrev pub charge : Pools → ℕ → ℕ → ℕ → Option Pools
charge s cpu bytes objs = do
  cells ← add_local s.store.counters cpu bytes objs
  some (record s { store = record s.store { counters = cells } })

-- `thread` is the number that `thread_shard_id` gives the thread.
abbrev pub dealloc_class : Pools → Thread → Envs → ℕ → ℕ → ℕ → Option Pools
dealloc_class s t env thread ptr class = do
  home ← home_relaxed s.store.spans ptr
  obj_size ← size_of_class class
  my_shard ← shard_of s thread
  let cur_cpu = current t s.slab
  s ← elim (is_local s.num_shards my_shard home) [
    | true ↦ push_local s t env cur_cpu class ptr
    | false ↦ deposit s ptr obj_size
  ]
  charge s cur_cpu (negated obj_size) (negated 1)

-- `cur_span`, `cur_word` and `cur_mask`.
pub record Pending : Type 0 where
  pub span : ℕ
  pub word : ℕ
  pub mask : ℕ

unfoldable pub flush_pending : SpanBitmaps → Pending → Option SpanBitmaps
flush_pending p c = if c.mask == 0 then some p else set_mask p c.span c.word c.mask

-- The pending word is kept where it matches, and else deposited and begun anew.
unfoldable pub coalesce : SpanBitmaps → Pending → ℕ × ℕ × ℕ → Option (SpanBitmaps × Pending)
coalesce p c (span, word, b) =
    let bit = shl_u64 1 b in
    if (span == c.span) && (word == c.word)
    then some (p, record c { mask = bit_or c.mask bit })
    else (do p ← flush_pending p c; some (p, record { span = span; word = word; mask = bit }))

-- The loop of `dealloc_class_batch`, with the lengths counted so far.
unfoldable pub batch_each :
    Pools
    → Thread
    → (ℕ → Envs)
    → ℕ
    → ℕ
    → ℕ
    → ℕ
    → List ℕ
    → Pending
    → ℕ
    → ℕ
    → Option (Pools × Pending × ℕ × ℕ)
batch_each s t env cpu class osz my_shard [] c local_len remote_len =
    some (s, c, local_len, remote_len)
batch_each s t env cpu class osz my_shard (p ∷ ptrs) c local_len remote_len = do
  home ← home_relaxed s.store.spans p
  elim (is_local s.num_shards my_shard home) [
    | true ↦ do
      s ← push_local s t (env local_len) cpu class p
      batch_each s t env cpu class osz my_shard ptrs c (local_len + 1) remote_len
    | false ↦ do
      (b, c) ← coalesce s.bitmaps c (locate s.bitmaps p osz)
      batch_each (record s { bitmaps = b }) t env cpu class osz my_shard ptrs c local_len
          (remote_len + 1)
  ]

-- The hint of the home shard, after a deposit into `span`.
unfoldable pub publish_hint : Pools → ℕ → ℕ → Option Pools
publish_hint s class span = if span == no_span then some s else (do
  home ← home_relaxed s.store.spans (span_base s.bitmaps span)
  i ← central s home class
  c ← read s.central i
  lists ← write s.central i (record c { reuse_hint = span })
  some (record s { central = lists }))

unfoldable pub dealloc_class_batch : Pools → Thread → (ℕ → Envs) → ℕ → List ℕ → ℕ → Option Pools
dealloc_class_batch s t env thread ptrs class = do
  osz ← size_of_class class
  my_shard ← shard_of s thread
  let cur_cpu = current t s.slab
  (s, c, local_len, remote_len) ←
      batch_each s t env cur_cpu class osz my_shard ptrs
        (record { span = no_span; word = 0; mask = 0 }) 0 0
  b ← flush_pending s.bitmaps c
  s ← publish_hint (record s { bitmaps = b }) class c.span
  let total = local_len + remote_len
  if ltb 0 total then charge s cur_cpu (mul_usize (negated osz) total) (negated total) else some s

-- `dealloc_large` on the store.
abbrev pub dealloc_by_ptr : Pools → Thread → Envs → ℕ → ℕ → Option (Bool × Pools)
dealloc_by_ptr s t env thread ptr = do
  owner ← lookup s.store.spans ptr
  elim owner [
    | none ↦ some (false, s)
    | some (class, home) ↦ elim (class == large_class) [
      | true ↦ do q ← dealloc_large s.store t.current_cpu ptr; some (true, record s { store = q })
      | false ↦ do s ← dealloc_class s t env thread ptr class; some (true, s)
    ]
  ]

-- The loop of `rebalance_capacity` for the objects that are left.
abbrev pub park_each : Pools → ℕ → ℕ → ℕ → ℕ → Option Pools
park_each s cpu class osz zero = some s
park_each s cpu class osz (suc n) = do
  hdr ← header_mut s.slab cpu class
  slot ← slot_ptr s.slab cpu class (s.memory hdr - 1)
  let obj = s.memory slot
  let s : Pools = record s { memory = update s.memory hdr (s.memory hdr - 1) }
  s ← if obj == 0 then some s else deposit s obj osz
  park_each s cpu class osz n

abbrev pub rebalance_capacity : Pools → ℕ → ℕ → ℕ → Option (ℕ × Pools)
rebalance_capacity s cpu class count = do
  hdr ← header_mut s.slab cpu class
  let take = min count (s.memory hdr)
  if take == 0
      then some (0, s)
      else (do osz ← size_of_class class; s ← park_each s cpu class osz take; some (take, s))
