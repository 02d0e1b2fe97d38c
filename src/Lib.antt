-- ===== src/Lib.antt =====
-- toccata is an allocator whose memory is reserved up front: a request is rounded to a size class,
-- objects of a class are tiled into spans of 64 KiB, and spans come from a bump arena or from a pool of
-- runs that have been given back. This library models the parts that decide who owns which bytes.
--
--   SizeClass.antt models toccata-core/src/sizeclass.rs: `class_for`, the table `LOOKUP` that a const fn
--     builds (`build_from`), `class_of`, `size_of_class` and `aligned_class`.
--   SpanPool.antt models toccata-core/src/spanpool.rs: the record SpanPool has the fields of the struct,
--     and `new`, `bit_set`, `bit_clear`, `find_first_set_ge`, `link`, `unlink`, `alloc` and `free` are
--     its methods. SpanPool/Valid has the invariant, SpanPool/Client the callers that give back only
--     runs that they own, and SpanPool/History what holds after any calls of theirs.
--   Meta.antt models the packed entry of toccata-core/src/meta.rs, Meta/Table.antt its SpanTable and
--     Meta/Bitmaps.antt its SpanBitmaps. Meta/Bitmaps/Refine has the abstract view, a set of free slots;
--     Meta/Bitmaps/Chain and Active have the lists of spans that the links make; Meta/Bitmaps/Protocol
--     has the interleavings of deposits with the owner of a word.
--   Arena.antt models BumpArena of toccata-core/src/subheap.rs: `carve_spans`, `carve_run` and
--     `carved_bytes`; Arena/Race has the threads that race for the cursor.
--   SubHeap.antt models the rest of toccata-core/src/subheap.rs that deals in objects and runs.
--     SubHeap/Central has CentralList with `central_deposit`, `central_take` and `scan_span`,
--     SubHeap/Carving `central_carve`, `carve_or_reuse_spans` and `try_pool_alloc`, SubHeap/Pools the
--     way back: `dealloc_class`, `dealloc_class_batch`, `dealloc_by_ptr`, `drain` and
--     `rebalance_capacity`, over the stacks of Slab/Sequence. SubHeap/Large has LargeAllocator,
--     `alloc_large`, `dealloc_large` and the counters. SubHeap/Serve has `alloc`, `alloc_class`,
--     `refill` and `refill_batch`, and SubHeap/Reclaim `reclaim_cell`. The free objects are a set of spans and slots
--     (SubHeap/Hands); SubHeap/Runs has the invariant of the large runs in use.
--   GlobalAlloc.antt models `alloc` and `dealloc` of toccata/src/lib.rs over the interface Runtime, which
--     stands for the thread's cache, the sub-heap and the allocator of the system.
--   Magazine.antt models one Magazine of toccata-core/src/magazine.rs, with the methods of ThreadCache on
--     it: `try_pop`, `try_push`, `alloc`, `refill`, `free` and `drain_then_push`. The sub-heap behind it is
--     the interface Backing, which Magazine/Backed fills with `refill_batch` and `dealloc_class_batch` of
--     SubHeap/Serve and SubHeap/Pools. SubHeap/Room has that a refill writes no more objects than it is
--     asked for.
--   Slab.antt models toccata-core/src/rseq/slab.rs: the memory is a function from addresses, and
--     `pop_locked` and `push_locked` are the path that takes the lock of a stack. Slab/Geometry has the
--     layout of a block and that no two of its fields meet, Slab/Stack the stacks as lists,
--     Slab/Locked what the locked path does. Slab/Sequence models the critical sections of
--     toccata-core/src/rseq/asm.rs as passes that an environment interrupts, with `pop`, `push`,
--     `pop_on` and `push_on` of slab.rs; Slab/Rely has what other threads may do between two passes.
--     Slab/Stopped has the stop flag. Slab/Local gives the locked path to the frame pool as its LocalStack (Base/LocalStack).
--   Frame.antt models FramePool of toccata-core/src/frame.rs over any LocalStack: `alloc`, `free` (named
--     dealloc), `alloc_n`, `free_n`, `pop_l2`, `push_l2`, `refill` and `drain`. Frame/Central is its
--     `Central`, Frame/Meta its policies, Frame/Build its construction, Frame/Slab the block that it
--     lays out for each processor, Frame/Cache its FrameCache, and Frame/Buffer the windows of FrameBuf.
--     Where a frame is, is said by weights: for every weight of the frames, the lists of free frames
--     weigh what they should, so that no frame is lost or doubled.
--   Registry.antt models toccata-core/src/registry.rs: `configure` with every error, and the lookups.
--   Base.antt has what they share: tests on numbers, the option monad, slices with checked access, and
--     the words of 16, 32 and 64 digits with what their operations do to single digits.
--
-- The parts meet where the code does: a carve of the arena tags its run in the span table, and the pool
-- and the bitmaps name a span by the index that the table gives it.
--
-- A panic is `none`: a slice access out of bounds or a failed `debug_assert!`. Unsigned arithmetic
-- wraps at its width, and `usize` has 64 digits. Loops are structural: over the words of a bitmap, the
-- entries of a range or the classes, whose number is known before the loop, without fuel. A
-- compare-and-swap loop is a step relation, in which an exchange may fail at any time. Atomic
-- accesses are interleaved one at a time: the memory orders are not modelled. A restartable section
-- takes effect at its last store or not at all, and what other threads do meanwhile is a parameter. The
-- four passes of such a section are the code's own bound. The stop flags of the processors are part of
-- the layout that an operation is given: that a supervisor sets one between two passes of the same
-- operation is not modelled.
--
-- The walk of an active list has fuel, and the list's length is enough; so has the loop over the spans
-- of a carve, and the number of spans asked for is enough.
--
-- Not modelled: of toccata-core/src/subheap.rs the sweep over all cells, the totals of the counters
-- and the geometry that the builder computes; the array of magazines with its `flush_all` and prefetch
-- hints, the typed handles and macros of frame.rs and registry.rs, supervisor.rs, metrics.rs, the rest
-- of rseq/ and of sys/ (inline assembly for x86-64 and system calls for the most part), the
-- configuration and the thread-local storage in toccata/src/lib.rs, and the benchmarks in
-- toccata-bench.
pub mod Base
pub mod Arena
pub mod Frame
pub mod GlobalAlloc
pub mod Magazine
pub mod Meta
pub mod Registry
pub mod SizeClass
pub mod Slab
pub mod SpanPool
pub mod SubHeap
