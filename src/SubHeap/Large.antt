-- ===== src/SubHeap/Large.antt =====
-- The allocator of large runs in toccata-core/src/subheap.rs, with the arena, the span table and the
-- counters of the sub-heap that it uses. `cpu` is the processor that a thread reads from its
-- restartable sequence, if it is registered. A panic is `none`.
use toccata.Base.{
  ℕ, ◌+◌, ◌-◌, ◌*◌, ◌/◌, ◌^◌, min, max, Option, none, some, ltb, ◌>>=◌, ◌>>◌, Slice,
  sys_boxed_slice, read, write, debug_assert, as_u32, add_usize, sub_usize, mul_usize, div_ceil,
}
use toccata.SpanPool
use toccata.SpanPool.{SpanPool}
use toccata.Meta.{span_bytes}
use toccata.Meta.Table as Table
use toccata.Meta.Table.{SpanTable, assign_range}
use toccata.Arena.{BumpArena, carve_run}
use toccata.SubHeap.{large_class}

-- The fields are `i64`, kept as words of 64 digits.
pub record CpuCounter : Type 0 where
  pub local_bytes : ℕ
  pub local_objs : ℕ
  pub remote_bytes : ℕ
  pub remote_objs : ℕ

-- `PerCpuCounters::new`
abbrev pub new_counters : ℕ → Slice CpuCounter
new_counters num_cpus =
    sys_boxed_slice (max num_cpus 1)
      (λ _. record { local_bytes = 0; local_objs = 0; remote_bytes = 0; remote_objs = 0 })

-- `cell`: the index of the counter.
abbrev pub cell : Slice CpuCounter → ℕ → ℕ
cell cells cpu = min cpu (cells.len - 1)

unfoldable pub add_remote : Slice CpuCounter → ℕ → ℕ → ℕ → Option (Slice CpuCounter)
add_remote cells cpu bytes objs = do
  c ← read cells (cell cells cpu)
  write cells (cell cells cpu) (record c {
    remote_bytes = add_usize c.remote_bytes bytes;
    remote_objs = add_usize c.remote_objs objs;
  })

unfoldable pub add_local : Slice CpuCounter → ℕ → ℕ → ℕ → Option (Slice CpuCounter)
add_local cells cpu bytes objs = do
  c ← read cells (cell cells cpu)
  write cells (cell cells cpu) (record c {
    local_bytes = add_usize c.local_bytes bytes;
    local_objs = add_usize c.local_objs objs;
  })

-- `-x` on `i64`
abbrev pub negated : ℕ → ℕ
negated x = sub_usize 0 x

pub record LargeAllocator : Type 0 where
  pub pool : SpanPool
  pub run_spans : Slice ℕ
  pub arena_base : ℕ

abbrev pub new : ℕ → ℕ → LargeAllocator
new arena_base arena_bytes =
    let num_spans = max (div_ceil arena_bytes span_bytes) 1 in
    record {
      pool = SpanPool.new num_spans;
      run_spans = sys_boxed_slice num_spans (λ _. 0);
      arena_base = arena_base;
    }

unfoldable pub span_index : LargeAllocator → ℕ → ℕ
span_index l ptr = sub_usize ptr l.arena_base / 2 ^ 16

unfoldable pub span_ptr : LargeAllocator → ℕ → ℕ
span_ptr l idx = add_usize l.arena_base (idx * 2 ^ 16)

-- The fields of `SubHeap` that a large request reads and writes.
pub record Store : Type 0 where
  pub large : LargeAllocator
  pub arena : BumpArena
  pub spans : SpanTable
  pub counters : Slice CpuCounter

-- `current_cpu().unwrap_or(0).min(cells.len() as u32 - 1)`
abbrev pub charged_cpu : Store → Option ℕ → ℕ
charged_cpu s cpu = min (elim cpu [ none ↦ 0 | some c ↦ c ]) (s.counters.len - 1)

-- `alloc_large` from the run on: its head is recorded, and the table tagged.
unfoldable pub record_run : Store → Option ℕ → ℕ → ℕ → Option (Option ℕ × Store)
record_run s cpu ptr span_count = do
  runs ← write s.large.run_spans (span_index s.large ptr) (as_u32 span_count)
  spans ← assign_range s.spans ptr (mul_usize span_count span_bytes) large_class 0
  counters ← add_remote s.counters (charged_cpu s cpu) (mul_usize span_count span_bytes) 1
  some (
    some ptr,
    record s { large = record s.large { run_spans = runs }; spans = spans; counters = counters },
  )

abbrev pub spans_for : ℕ → ℕ
spans_for size = max (div_ceil size span_bytes) 1

unfoldable pub alloc_large : Store → Option ℕ → ℕ → Option (Option ℕ × Store)
alloc_large s cpu size = do
  (r, pool) ← SpanPool.alloc s.large.pool (as_u32 (spans_for size))
  let s : Store = record s { large = record s.large { pool = pool } }
  elim r [
    | some head_idx ↦ record_run s cpu (span_ptr s.large head_idx) (spans_for size)
    | none ↦ elim (carve_run s.arena (mul_usize (spans_for size) span_bytes)).0 [
      | none ↦ some (none, s)
      | some run ↦
          record_run
            (record s { arena = (carve_run s.arena (mul_usize (spans_for size) span_bytes)).1 }) cpu
            run (spans_for size)
    ]
  ]

unfoldable pub dealloc_large : Store → Option ℕ → ℕ → Option Store
dealloc_large s cpu ptr = do
  let idx = span_index s.large ptr
  span_count ← read s.large.run_spans idx
  runs ← write s.large.run_spans idx 0
  debug_assert (ltb 0 span_count)
  pool ← SpanPool.free s.large.pool (as_u32 idx) span_count
  counters ←
      add_remote s.counters (charged_cpu s cpu) (negated (mul_usize span_count span_bytes))
        (negated 1)
  some (record s { large = record s.large { pool = pool; run_spans = runs }; counters = counters })

-- What `build_standalone` makes of the arena behind the slabs.
abbrev pub built : ℕ → ℕ → ℕ → Store
built arena_base budget_bytes num_cpus = record {
  large = new arena_base budget_bytes;
  arena = record { cursor = arena_base; end = arena_base + budget_bytes; base = arena_base };
  spans = Table.new arena_base budget_bytes;
  counters = new_counters num_cpus;
}
