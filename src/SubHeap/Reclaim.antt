-- ===== src/SubHeap/Reclaim.antt =====
-- How toccata-core/src/subheap.rs returns the empty spans of a central list to the pool of runs. `fuel`
-- bounds the walk of the active list. A panic is `none`.
use toccata.Base.{
  ℕ, zero, suc, ◌-◌, ◌*◌, ◌/◌, min, max, true, false, ◌&&◌, not, Option, none, some, List, [], ◌∷◌,
  length, ◌==◌, if◌then◌else◌, ◌>>=◌, read, write, as_u32, div_ceil,
}
use toccata.SizeClass.{size_of_class}
use toccata.SpanPool
use toccata.SpanPool.{SpanPool, no_span}
use toccata.Meta.{span_bytes}
use toccata.Meta.Table.{SpanTable, assign_range}
use toccata.Meta.Bitmaps.{SpanBitmaps, span_base, next, is_fully_free, unlink_active, reset_bitmaps}
use toccata.SubHeap.{large_class, round_size}
use toccata.SubHeap.Central.{CentralList, release}
use toccata.SubHeap.Large.{LargeAllocator, span_index}
use toccata.SubHeap.Pools.{Pools, central}

-- What the walk works on.
pub record Cell : Type 0 where
  pub list : CentralList
  pub bitmaps : SpanBitmaps
  pub spans : SpanTable

-- An empty span leaves its class.
abbrev retire : Cell → ℕ → ℕ → ℕ → ℕ → Option Cell
retire c slots group prev span = do
  (head, p) ← unlink_active c.bitmaps span prev c.list.head
  let hint = if c.list.reuse_hint == span then no_span else c.list.reuse_hint
  spans ← assign_range c.spans (span_base p span) (group * span_bytes) large_class 0
  p ← reset_bitmaps p span (div_ceil slots 64)
  some (record {
    list = record c.list { head = head; reuse_hint = hint };
    bitmaps = p;
    spans = spans;
  })

-- The walk from `span` on, with room for so many spans more: the spans taken.
abbrev reclaim_walk : ℕ → Cell → ℕ → ℕ → ℕ → ℕ → ℕ → Option (List ℕ × Cell)
reclaim_walk zero c slots group prev span room =
    if not (span == no_span) && not (room == 0) then none else some ([], c)
reclaim_walk (suc fuel) c slots group prev span room =
    elim (not (span == no_span) && not (room == 0)) [
      | false ↦ some ([], c)
      | true ↦ do
        succ ← next c.bitmaps span
        (empty, p) ← is_fully_free c.bitmaps span slots
        elim empty [
          | false ↦ reclaim_walk fuel (record c { bitmaps = p }) slots group span succ room
          | true ↦ do
            c ← retire (record c { bitmaps = p }) slots group prev span
            (rest, c) ← reclaim_walk fuel c slots group prev succ (room - 1)
            some (span ∷ rest, c)
        ]
    ]

-- The loop that files the spans into the pool.
abbrev file_each : LargeAllocator → SpanBitmaps → ℕ → List ℕ → Option LargeAllocator
file_each l p group [] = some l
file_each l p group (span ∷ taken) = do
  pool ← SpanPool.free l.pool (as_u32 (span_index l (span_base p span))) group
  file_each (record l { pool = pool }) p group taken

-- `reclaim_cell`, which does nothing where the lock is held.
abbrev reclaim_cell : ℕ → Pools → ℕ → ℕ → ℕ → Option (ℕ × Pools)
reclaim_cell fuel s shard class cap = if cap == 0 then some (0, s) else (do
  osz0 ← size_of_class class
  let osz = round_size osz0
  let slots = max (span_bytes / osz) 1
  let group = max (div_ceil osz span_bytes) 1
  i ← central s shard class
  c ← read s.central i
  elim (c.lock == 0) [
    | false ↦ some (0, s)
    | true ↦ do
      (taken, q) ←
          reclaim_walk fuel
            (record { list = record c { lock = 1 }; bitmaps = s.bitmaps; spans = s.store.spans })
            slots group no_span c.head (min cap 32)
      lists ← write s.central i (release q.list)
      large ← file_each s.store.large q.bitmaps group taken
      some (
        length taken,
        record s {
          central = lists;
          bitmaps = q.bitmaps;
          store = record s.store { large = large; spans = q.spans };
        },
      )
  ])
