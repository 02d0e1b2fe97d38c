-- ===== src/GlobalAlloc.antt =====
-- toccata/src/lib.rs: how the process-wide allocator routes a request by its layout, on Linux. The
-- thread's cache, the sub-heap behind it and the system's allocator are the interface Runtime. An abort
-- and a panic are `none`.
pub mod Route
mod Tests
use toccata.Base.{
  ℕ, ◌≤◌, ◌<◌, ◌≡◌, ◌≢◌, max, Bool, true, false, not, ◌&&◌, Option, none, some, leb, ltb, ◌==◌,
  if◌then◌else◌, ◌>>=◌,
}
use toccata.SizeClass.{max_small, min_align, class_of, aligned_class, size_of_class}
use toccata.Meta.{span_bytes}

pub record Layout : Type 0 where
  pub size : ℕ
  pub align : ℕ

pub record Pool : Type 0 where
  pub base : ℕ
  pub end : ℕ

abbrev pub in_pool : Pool → ℕ → Bool
in_pool p ptr = leb p.base ptr && ltb ptr p.end

-- What `alloc` and `dealloc` call. `heap` says whether a sub-heap has been configured, `try_pop` and
-- `alloc_prefetch` are the pops of the thread's cache, and the rest is named as in the source.
pub record Runtime (S : Type 0) : Type 0 where
  pub heap : S → Bool × S
  pub try_pop : S → ℕ → Option ℕ × S
  pub alloc_prefetch : S → ℕ → ℕ → Option ℕ × S
  pub refill : S → ℕ → Option ℕ × S
  pub alloc_class : S → ℕ → Option ℕ × S
  pub alloc_large : S → ℕ → Option ℕ × S
  pub system_alloc : S → Layout → ℕ × S
  pub pool : Pool
  pub free : S → ℕ → ℕ → S
  pub dealloc_by_ptr : S → ℕ → S
  pub main : S → Bool
  pub system_dealloc : S → ℕ → Layout → S

abbrev pub need_of : Layout → ℕ
need_of l = max l.size l.align

-- The requests that the magazines serve.
pub is_small : Layout → Bool
is_small l = leb (need_of l) max_small && leb l.align min_align

module _ {S : Type 0} (run : Runtime S) where
  -- `match ptr`, which aborts where nothing is left.
  pub or_abort : Option ℕ × S → Option (ℕ × S)
  or_abort (none, s) = none
  or_abort (some p, s) = some (p, s)

  -- What follows a pop that has missed.
  pub on_miss : S → Layout → ℕ → Option (ℕ × S)
  on_miss s l class = elim (run.heap s).0 [
    | true ↦ or_abort (run.refill (run.heap s).1 class)
    | false ↦ some (run.system_alloc (run.heap s).1 l)
  ]

  pub after_pop : Option ℕ × S → Layout → ℕ → Option (ℕ × S)
  after_pop (some p, s) l class = some (p, s)
  after_pop (none, s) l class = on_miss s l class

  pub alloc_large_smallclass : S → Layout → ℕ → Option (ℕ × S)
  alloc_large_smallclass s l class = do
    osz ← size_of_class class
    after_pop (run.alloc_prefetch s class osz) l class

  -- The path over the magazines.
  pub alloc_small : S → Layout → Option (ℕ × S)
  alloc_small s l = do
    found ← class_of (need_of l)
    class ← found
    if leb 1024 (need_of l)
        then alloc_large_smallclass s l class
        else after_pop (run.try_pop s class) l class

  -- The path past the magazines, where a sub-heap is there.
  pub alloc_cold : S → Layout → Option (ℕ × S)
  alloc_cold s l =
      if ltb max_small (need_of l)
      then (if ltb span_bytes l.align then none else or_abort (run.alloc_large s (need_of l)))
      else (do
        found ← aligned_class (need_of l) l.align
        or_abort
            (elim found [ some c ↦ run.alloc_class s c | none ↦ run.alloc_large s (need_of l) ]))

  pub alloc : S → Layout → Option (ℕ × S)
  alloc s l =
      if l.size == 0
      then some (l.align, s)
      else if is_small l
      then alloc_small s l
      else elim (run.heap s).0 [
        | false ↦ some (run.system_alloc (run.heap s).1 l)
        | true ↦ alloc_cold (run.heap s).1 l
      ]

  abbrev pub dealloc : S → ℕ → Layout → Option S
  dealloc s ptr l =
      if l.size == 0
      then some s
      else if not (in_pool run.pool ptr)
      then some (run.system_dealloc s ptr l)
      else if is_small l
      then (do
        found ← class_of (need_of l)
        class ← found
        elim (run.heap s).0 [
          | true ↦ some (run.free (run.heap s).1 ptr class)
          | false ↦ some (
              if run.main (run.heap s).1
              then run.dealloc_by_ptr (run.heap s).1 ptr
              else (run.heap s).1)
        ])
      else if (run.heap s).0
      then some (run.dealloc_by_ptr (run.heap s).1 ptr)
      else some (
          if run.main (run.heap s).1 then run.dealloc_by_ptr (run.heap s).1 ptr else (run.heap s).1)
