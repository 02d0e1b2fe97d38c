-- ===== src/Frame/Tests.antt =====
-- Concrete pools for the theorems about toccata-core/src/frame.rs.
use toccata.Base.{
  ℕ, ◌+◌, ◌≡◌, ◌<◌, refl, arith, Option, none, some, true, ◌==◌, if◌then◌else◌, List, [], ◌∷◌,
  sys_boxed_slice,
}
use toccata.Base.Stacks.{stack}
use toccata.Base.Totals.{total, once, total-cons, total-nil}
use toccata.Base.LocalStack.{LocalStack, Takes, took, refused, given}
use toccata.Slab.Local.{State, all_objects, locked_stack}
use toccata.Frame.{FramePool, cap_per_cpu, alloc, dealloc}
use toccata.Frame.Meta.{ref_count}
use toccata.Frame.Conserve.{frames}
use toccata.Frame.Local.{free_frames, IsSound}
use toccata.Frame.Allocate.{
  IsValid, IsDistinct, is_frame, AllocatesOne, FreesOne, alloc-AllocatesOne, dealloc-FreesOne,
}
use toccata.Frame.Slab.{slab, headers, slab-IsValid, slab-empty}
use toccata.Frame.Build.{FramePoolError, Result, borrowed, build}
use toccata.Frame.Built.{Builds, build-Builds}
use toccata.Frame.Buffer
use toccata.Frame.Windows.{Allowed, may_split, StepsTo, step-IsValid}
use toccata.Frame.Cache.{FrameCache, take, recycle, frame_mag_cap}
use toccata.Frame.Cached.{weight, recycle-keeps, drop-keeps}
use toccata.Frame.Taken.{TakesOut, take-keeps}
use toccata.Frame.Cached
use toccata.Frame.Taken

-- The stack of the first of two processors.
first : 0 < (slab 4096 2).num_cpus
unfolding slab
first = omega arith

only : 0 < (slab 4096 2).classes.len
unfolding slab
only = omega arith

cpu_stack : LocalStack (State (slab 4096 2) (λ _. cap_per_cpu) 0 0 first only)
cpu_stack = locked_stack (slab 4096 2) (λ _. cap_per_cpu) 0 0 first only

abbrev empty_slab : State (slab 4096 2) (λ _. cap_per_cpu) 0 0 first only
empty_slab = (headers 4096 2, slab-IsValid 4096 2)

empty_slab-total : (w : ℕ → ℕ) → total w (cpu_stack.contents empty_slab) ≡ 0
unfolding cpu_stack locked_stack all_objects slab
empty_slab-total w = rw (slab-empty 4096 2 2) (total-nil w)

build-Builds_example :
    (r : Result
      (FramePoolError ℕ)
      (FramePool (State (slab 4096 2) (λ _. cap_per_cpu) 0 0 first only) ℕ))
    × (build empty_slab 0 (borrowed 1048576 7000) 2048 ≡ some r)
    × Builds cpu_stack ref_count empty_slab 0 (borrowed 1048576 7000) 2048 r
build-Builds_example =
    build-Builds cpu_stack ref_count empty_slab 0 empty_slab-total (borrowed 1048576 7000) 2048

-- A list as a stack with room for every object.
list_stack : LocalStack (List ℕ)
list_stack = record {
  pop = λ xs. elim xs [ [] ↦ (none, []) | x ∷ rest ↦ (some x, rest) ];
  push = λ xs p. (true, p ∷ xs);
  contents = λ xs. xs;
  pop-Takes = λ xs.
      elim xs
        as (λ ys.
          Takes (λ zs. zs) ys
            (elim ys as (λ _. Option ℕ × List ℕ) [ [] ↦ (none, []) | x ∷ rest ↦ (some x, rest) ]).0
            (elim ys as (λ _. Option ℕ × List ℕ) [
              | [] ↦ (none, [])
              | x ∷ rest ↦ (some x, rest)
            ]).1) [ [] ↦ refused (λ w. refl) | x ∷ rest ↦ took (λ w. total-cons w x rest) ];
  push-Gives = λ xs p. given (λ w. total-cons w p xs);
}

-- Three frames from 4096 on: one on the processor's stack, one in the central stack, one in use.
abbrev pool : FramePool (List ℕ) ℕ
pool = record {
  frames_base = 4096;
  frame_shift = 11;
  frame_size = 2048;
  n_frames = 3;
  slab = 4096 ∷ [];
  central = record { slots = sys_boxed_slice 3 (λ _. 6144); top = 1 };
  meta = sys_boxed_slice 3 (λ i. if i == 2 then 1 else 0);
}

pool-IsSound : IsSound list_stack pool
unfolding free_frames frames list_stack total stack
pool-IsSound = record { fits = record { room = refl; few = omega arith }; few = omega arith }

pool-IsValid : IsValid list_stack ref_count pool
unfolding free_frames frames list_stack total stack is_frame
pool-IsValid = record { sound = pool-IsSound; metas = refl; inside = refl }

one_in_use : total once (free_frames list_stack pool) < pool.n_frames
unfolding free_frames frames list_stack total stack
one_in_use = omega arith

third : is_frame pool 8192 ≡ true
unfolding is_frame
third = refl

pool-IsDistinct : IsDistinct list_stack ref_count pool
unfolding IsDistinct free_frames frames list_stack total stack
pool-IsDistinct p = ground arith

alloc-AllocatesOne_example :
    AllocatesOne list_stack ref_count pool (alloc list_stack ref_count pool)
alloc-AllocatesOne_example =
    alloc-AllocatesOne list_stack ref_count pool pool-IsValid pool-IsDistinct

dealloc-FreesOne_example :
    FreesOne list_stack ref_count pool 8192 (dealloc list_stack ref_count pool 8192)
dealloc-FreesOne_example =
    dealloc-FreesOne list_stack ref_count pool 8192 pool-IsValid third one_in_use

-- A frame of 2048 bytes of which 1500 are filled.
abbrev published : Buffer.Buffers
published = record { windows = record { offset = 0; len = 1500 } ∷ []; count = 1; recycled = 0 }

published-IsValid : Buffer.IsValid 2048 published
unfolding Buffer.covers Buffer.IsInside
published-IsValid = record {
  apart = λ x. ground arith;
  inside = (omega arith, tt);
  counted = refl;
  few = omega arith;
  returned = refl;
}

small : 2048 < 65536
small = omega arith

may_split_off : Allowed published (Buffer.split 0 14)
may_split_off = may_split refl (omega arith) (omega arith)

step-IsValid_example : StepsTo 2048 small (Buffer.split 0 14) published
step-IsValid_example =
    step-IsValid 2048 small published (Buffer.split 0 14) published-IsValid may_split_off

-- A cache with one frame in front of the pool.
abbrev cache : FrameCache (List ℕ) ℕ
cache = record {
  pool = record pool { slab = [] };
  len = 1;
  ptrs = sys_boxed_slice frame_mag_cap (λ _. 4096);
}

cache-IsSound : IsSound list_stack cache.pool
unfolding free_frames frames list_stack total stack
cache-IsSound = record { fits = record { room = refl; few = omega arith }; few = omega arith }

cache-weight : weight list_stack once cache ≡ 2
unfolding free_frames frames list_stack total stack weight
cache-weight = refl

cache-IsValid : Cached.IsValid list_stack cache
cache-IsValid = record {
  room = refl;
  few = omega arith;
  sound = cache-IsSound;
  most = omega (arith, cache-weight);
}

cache-IsDistinct : Taken.IsDistinct list_stack cache
unfolding Taken.IsDistinct free_frames frames list_stack total stack weight
cache-IsDistinct p = ground arith

take-keeps_example :
    (r : Option ℕ) × (q : FrameCache (List ℕ) ℕ) × (take list_stack cache ≡ some (r, q))
    × Cached.IsValid list_stack q
    × Taken.IsDistinct list_stack q
    × TakesOut list_stack cache r q
take-keeps_example = take-keeps list_stack cache cache-IsValid cache-IsDistinct

recycle-keeps_example :
    (q : FrameCache (List ℕ) ℕ) × (recycle list_stack cache 8192 ≡ some q)
    × Cached.IsValid list_stack q
    × ((w : ℕ → ℕ) → weight list_stack w q ≡ w 8192 + weight list_stack w cache)
recycle-keeps_example =
    recycle-keeps list_stack cache 8192 cache-IsValid (omega (arith, cache-weight))
