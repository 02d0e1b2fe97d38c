-- ===== src/GlobalAlloc/Tests.antt =====
-- The routing of toccata/src/lib.rs at a concrete input: a runtime that hands out one address after the
-- other, and counts them.
use toccata.Base.{ℕ, ◌+◌, ◌*◌, ◌^◌, refl, true, none, some}
use toccata.GlobalAlloc.{Layout, Runtime, alloc}
use toccata.GlobalAlloc.Route.{Serves, alloc-Serves}

abbrev counting : Runtime ℕ
counting = record {
  heap = λ s. (true, s);
  try_pop = λ s c. (none, s);
  alloc_prefetch = λ s c osz. (some (2 ^ 32 + s * 65536), s + 1);
  refill = λ s c. (some (2 ^ 32 + s * 65536), s + 1);
  alloc_class = λ s c. (some (2 ^ 32 + s * 65536), s + 1);
  alloc_large = λ s n. (none, s);
  system_alloc = λ s l. (0, s);
  pool = record { base = 2 ^ 32; end = 2 ^ 40 };
  free = λ s p c. s;
  dealloc_by_ptr = λ s p. s;
  main = λ s. true;
  system_dealloc = λ s p l. s;
}

abbrev page : Layout
page = record { size = 2000; align = 4096 }

alloc-Serves_example : Serves counting page 3 (alloc counting 3 page)
alloc-Serves_example = alloc-Serves counting page 12 refl 3
