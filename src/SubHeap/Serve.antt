-- ===== src/SubHeap/Serve.antt =====
-- How toccata-core/src/subheap.rs serves small requests: from the stack of the processor, or by a refill
-- from the central list of the thread's shard. `fuel` bounds the walk of the active list, and `got` says
-- whether `try_lock` gets the lock of the large allocator. A panic, and a lock that is still spun on, is
-- `none`.
use toccata.Base.{
  ℕ, zero, suc, ◌+◌, ◌-◌, min, Bool, true, false, Option, none, some, List, [], ◌∷◌, ◌++◌, length,
  ltb, ◌==◌, if◌then◌else◌, ◌>>=◌, read, write, mul_usize,
}
use toccata.SizeClass.{size_of_class, class_for}
use toccata.Slab.{Thread, ok, needs_slow, current, current_fast, resolved_cpu}
use toccata.Slab.Sequence.{push, pop_on}
use toccata.SubHeap.{batch_for}
use toccata.SubHeap.Central.{acquire, release, central_take}
use toccata.SubHeap.Large.{alloc_large}
use toccata.SubHeap.Pools.{Pools, Envs, shard_of, central, deposit, charge}
use toccata.SubHeap.Carving.{central_carve}

abbrev pub lock_list : Pools → ℕ → Option Pools
lock_list s i = do
  c ← read s.central i
  c ← acquire c
  lists ← write s.central i c
  some (record s { central = lists })

abbrev pub unlock_list : Pools → ℕ → Option Pools
unlock_list s i = do
  c ← read s.central i
  lists ← write s.central i (release c)
  some (record s { central = lists })

abbrev pub take_from_list : ℕ → Pools → ℕ → ℕ → ℕ → ℕ → Option (List ℕ × Pools)
take_from_list fuel s i room osz class = do
  c ← read s.central i
  (objs, p) ← central_take fuel c s.bitmaps s.store.spans room osz class
  some (objs, record s { bitmaps = p })

-- The objects of a refill that are not handed out: onto the stack, or back where it is full.
abbrev stash_each : Pools → Thread → Envs → ℕ → ℕ → ℕ → List ℕ → ℕ → Option Pools
stash_each s t env cpu class osz [] k = some s
stash_each s t env cpu class osz (p ∷ objs) k = do
  (r, m) ← push s.slab t (env k) s.memory cpu class p
  s ← elim r [
    | ok u ↦ some (record s { memory = m })
    | needs_slow ↦ deposit (record s { memory = m }) p osz
  ]
  stash_each s t env cpu class osz objs (k + 1)

-- A carve, and a take of what it has made: no more spans have been linked than objects carved.
abbrev pub carve_and_take : ℕ → Pools → Bool → ℕ → ℕ → ℕ → ℕ → ℕ → ℕ → Option (List ℕ × Pools)
carve_and_take fuel s got i class my_shard batch room osz = do
  (carved, s) ← central_carve s got i class my_shard batch
  elim (carved == 0) [
    | true ↦ some ([], s)
    | false ↦ take_from_list (fuel + carved) s i room osz class
  ]

abbrev refill : ℕ → Pools → Thread → Envs → Bool → ℕ → ℕ → ℕ → Option (Option ℕ × Pools)
refill fuel s t env got cpu class my_shard = do
  batch ← batch_for class
  osz ← size_of_class class
  i ← central s my_shard class
  s ← lock_list s i
  (objs, s) ← take_from_list fuel s i (min batch 64) osz class
  (objs, s) ← elim objs [
    | [] ↦ carve_and_take fuel s got i class my_shard batch (min batch 64) osz
    | p ∷ rest ↦ some (p ∷ rest, s)
  ]
  s ← unlock_list s i
  elim objs [
    | [] ↦ some (none, s)
    | p ∷ rest ↦ do s ← stash_each s t env cpu class osz rest 0; some (some p, s)
  ]

abbrev alloc_class : ℕ → Pools → Thread → Envs → Bool → ℕ → ℕ → Option (Option ℕ × Pools)
alloc_class fuel s t env got thread class = do
  obj_size ← size_of_class class
  (r, cpu, m) ← pop_on s.slab t (env 0) s.memory current_fast class
  let s : Pools = record s { memory = m }
  elim r [
    | ok p ↦ do s ← charge s cpu obj_size 1; some (some p, s)
    | needs_slow ↦ do
      (r, s) ← refill fuel s t (λ k. env (k + 1)) got current_fast class thread
      elim r [
        | none ↦ some (none, s)
        | some p ↦ do s ← charge s (resolved_cpu t s.slab current_fast) obj_size 1; some (some p, s)
      ]
  ]

abbrev alloc : ℕ → Pools → Thread → Envs → Bool → ℕ → ℕ → Option (Option ℕ × Pools)
alloc fuel s t env got thread size = elim (class_for size) [
  | some class ↦ alloc_class fuel s t env got thread class
  | none ↦ do (r, q) ← alloc_large s.store t.current_cpu size; some (r, record s { store = q })
]

-- The loop of `refill_batch` for the room that is left, `n` rounds at most. A round that finds nothing is
-- the last one, so as many rounds as there is room are enough.
abbrev pub top_up : ℕ → ℕ → Pools → Bool → ℕ → ℕ → ℕ → ℕ → ℕ → ℕ → Option (List ℕ × Pools)
top_up zero fuel s got i class my_shard batch room osz = if room == 0 then some ([], s) else none
top_up (suc n) fuel s got i class my_shard batch room osz = elim (room == 0) [
  | true ↦ some ([], s)
  | false ↦ do
    (objs, s) ← carve_and_take fuel s got i class my_shard batch room osz
    elim objs [
      | [] ↦ some ([], s)
      | p ∷ rest ↦ do
        (more, s) ←
            top_up n (fuel + s.bitmaps.next_active.len) s got i class my_shard batch
              (room - length (p ∷ rest)) osz
        some ((p ∷ rest) ++ more, s)
    ]
]

abbrev pub refill_batch : ℕ → Pools → Thread → Bool → ℕ → ℕ → ℕ → Option (List ℕ × Pools)
refill_batch fuel s t got thread class room = do
  my_shard ← shard_of s thread
  osz ← size_of_class class
  i ← central s my_shard class
  s ← lock_list s i
  (objs, s) ← take_from_list fuel s i room osz class
  batch ← batch_for class
  (more, s) ← top_up room fuel s got i class my_shard batch (room - length objs) osz
  s ← unlock_list s i
  let n = length objs + length more
  s ← if ltb 0 n then charge s (current t s.slab) (mul_usize osz n) n else some s
  some (objs ++ more, s)
