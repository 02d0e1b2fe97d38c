-- ===== src/SubHeap/Carving.antt =====
-- How toccata-core/src/subheap.rs claims whole spans for a class and lists their objects as free. `got`
-- says whether `try_lock` gets the lock of the large allocator. A panic is `none`.
use toccata.Base.{
  ℕ, zero, suc, ◌+◌, ◌-◌, ◌/◌, ◌%◌, ◌^◌, max, Bool, true, false, Option, none, some, leb, ltb, ◌==◌,
  if◌then◌else◌, ◌>>=◌, read, write, as_u16, as_u32, add_usize, sub_usize, mul_usize, div_ceil,
}
use toccata.SizeClass.{size_of_class}
use toccata.SpanPool
use toccata.Meta.{span_bytes}
use toccata.Meta.Table.{assign_range}
use toccata.Meta.Bitmaps.{SpanBitmaps, span_of, is_on_list, link_front, alloc_set_mask}
use toccata.Arena.{carve_spans}
use toccata.SubHeap.{round_size}
use toccata.SubHeap.Large.{Store, span_ptr}
use toccata.SubHeap.Pools.{Pools}

-- `try_pool_alloc` from the run on, which the table is tagged for.
unfoldable pub tag_run : Store → ℕ → ℕ → ℕ → ℕ → Option ((ℕ × ℕ) × Store)
tag_run s head_idx num_spans class home = do
  let start = span_ptr s.large head_idx
  let end = add_usize start (mul_usize num_spans span_bytes)
  spans ← assign_range s.spans start (sub_usize end start) class home
  let run : ℕ × ℕ = (start, end)
  some (run, record s { spans = spans })

unfoldable pub try_pool_alloc : Store → Bool → ℕ → ℕ → ℕ → Option (Option (ℕ × ℕ) × Store)
try_pool_alloc s false num_spans class home = some (none, s)
try_pool_alloc s true num_spans class home = do
  (r, pool) ← SpanPool.alloc s.large.pool (as_u32 num_spans)
  let s : Store = record s { large = record s.large { pool = pool } }
  elim r [
    | none ↦ some (none, s)
    | some head_idx ↦ do (run, s) ← tag_run s head_idx num_spans class home; some (some run, s)
  ]

unfoldable pub carve_or_reuse_spans : Store → Bool → ℕ → ℕ → ℕ → Option ((ℕ × ℕ) × Store)
carve_or_reuse_spans s got num_spans class home = do
  (r, s) ← try_pool_alloc s got num_spans class home
  elim r [
    | some run ↦ some (run, s)
    | none ↦ do
      (run, arena, spans) ← carve_spans s.arena s.spans num_spans class home
      some (run, record s { arena = arena; spans = spans })
  ]

-- A span that is on no list is linked in front of the list.
unfoldable pub link_new : SpanBitmaps → ℕ → ℕ → Option (ℕ × SpanBitmaps)
link_new p span head = do
  on ← is_on_list p span
  if on then some (head, p) else link_front p span head

-- `n` whole words of free slots, from word `w` on.
unfoldable pub fill_words : SpanBitmaps → ℕ → ℕ → ℕ → Option SpanBitmaps
fill_words p span zero w = some p
fill_words p span (suc n) w = do
  p ← alloc_set_mask p span w (2 ^ 64 - 1)
  fill_words p span n (w + 1)

unfoldable pub tile_span : SpanBitmaps → ℕ → ℕ → Option SpanBitmaps
tile_span p span per_span = do
  p ← fill_words p span (per_span / 64) 0
  if per_span % 64 == 0
      then some p
      else alloc_set_mask p span (per_span / 64) (2 ^ (per_span % 64) - 1)

-- The loop over the spans of a run, `n` of them at most: `none` where the run is longer. The head of
-- the list comes first, the number of objects last.
unfoldable pub tile_each : ℕ → SpanBitmaps → ℕ → ℕ → ℕ → ℕ → ℕ → Option (ℕ × SpanBitmaps × ℕ)
tile_each zero p head per_span span_base run_end carved =
    if ltb span_base run_end then none else some (head, p, carved)
tile_each (suc n) p head per_span span_base run_end carved = elim (ltb span_base run_end) [
  | false ↦ some (head, p, carved)
  | true ↦ do
    let span = span_of p span_base
    p ← tile_span p span per_span
    (head, p) ← link_new p span head
    tile_each n p head per_span (span_base + span_bytes) run_end (carved + per_span)
]

-- A class whose objects are larger than a span: one object in a group of spans.
abbrev pub carve_group :
    Store → SpanBitmaps → Bool → ℕ → ℕ → ℕ → ℕ → Option (ℕ × ℕ × SpanBitmaps × Store)
carve_group s p got head osz class my_shard = do
  ((start, run_end), s) ←
      carve_or_reuse_spans s got (div_ceil osz span_bytes) (as_u16 class) (as_u16 my_shard)
  if leb run_end start then some (0, head, p, s) else (do
    let span = span_of p start
    p ← alloc_set_mask p span 0 1
    (head, p) ← link_new p span head
    some (1, head, p, s))

-- A class whose objects fit into a span.
unfoldable pub carve_tiles :
    Store → SpanBitmaps → Bool → ℕ → ℕ → ℕ → ℕ → ℕ → Option (ℕ × ℕ × SpanBitmaps × Store)
carve_tiles s p got head osz class my_shard batch = if osz == 0 then none else (do
  let per_span = span_bytes / osz
  let want_spans = max (div_ceil batch per_span) 1
  ((start, run_end), s) ← carve_or_reuse_spans s got want_spans (as_u16 class) (as_u16 my_shard)
  if leb run_end start then some (0, head, p, s) else (do
    (head, p, carved) ← tile_each want_spans p head per_span start run_end 0
    some (carved, head, p, s)))

-- `central_carve` for the list at index `i`, while its lock is held.
abbrev pub central_carve : Pools → Bool → ℕ → ℕ → ℕ → ℕ → Option (ℕ × Pools)
central_carve s got i class my_shard batch = do
  osz0 ← size_of_class class
  let osz = round_size osz0
  c ← read s.central i
  (carved, head, p, store) ←
      if ltb span_bytes osz
      then carve_group s.store s.bitmaps got c.head osz class my_shard
      else carve_tiles s.store s.bitmaps got c.head osz class my_shard batch
  lists ← write s.central i (record c { head = head })
  some (carved, record s { central = lists; bitmaps = p; store = store })
