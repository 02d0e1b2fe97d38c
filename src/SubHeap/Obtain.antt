-- ===== src/SubHeap/Obtain.antt =====
-- What `alloc_large` of toccata-core/src/subheap.rs returns, and that it keeps the runs apart.
use toccata.Base.{
  ℕ, ◌+◌, ◌-◌, ◌*◌, ◌%◌, ◌^◌, ◌≤◌, ◌<◌, ◌≡◌, ◌≢◌, inl, inr, refl, sym, ap, subst, ◌∙◌, arith, ◌⊎◌,
  Option, none, some, [], ◌∷◌, as_u32, mul_usize,
}
use toccata.SpanPool.{SpanPool}
use toccata.SpanPool.Client.{Live, owners, InGrid}
use toccata.SpanPool.Alloc.{Carved, Allocates, exhausted, carved, alloc-Allocates}
use toccata.SpanPool.History.{carved_taken, carved_only, carved_free}
use toccata.Meta.{span_bytes}
use toccata.Arena.{BumpArena, carve_run}
use toccata.Arena.Carve.{Runs, full, fresh, carve_run-Runs}
use toccata.SubHeap.Large.{Store, span_ptr, spans_for, record_run, alloc_large}
use toccata.SubHeap.Runs.{cut, run_at, IsSound, record_run-IsSound}

-- What a request of `c` spans may answer: nothing where every free run is too short and the arena has
-- no room behind the cursor, or else a run of `c` spans inside the arena of which nobody holds a span.
pub data Obtains (s : Store) (live : Live) (c : ℕ) : Option (Option ℕ × Store) → Type 0 where
  drained :
      {q : Store}
      → ((k : ℕ) → s.large.pool.head_count.at k ≢ 0 → s.large.pool.head_count.at k < c)
      → s.arena.end < s.arena.cursor + c * 2 ^ 16
      → IsSound q live
      → Obtains s live c (some (none, q))
  obtained :
      {q : Store} (h : ℕ)
      → run_at s (h + c) ≤ s.arena.end
      → ((x : ℕ) → h ≤ x → x < h + c → owners x live ≡ 0)
      → q.arena.base ≡ s.arena.base
      → IsSound q ((h, c) ∷ live)
      → Obtains s live c (some (some (run_at s h), q))

abbrev pub with_pool : Store → SpanPool → Store
with_pool s p = record s { large = record s.large { pool = p } }

abbrev pub with_arena : Store → BumpArena → Store
with_arena s a = record s { arena = a }

-- What the pool hands out is no longer free.
pub with_pool-IsSound :
    {s : Store} {live : Live} {c h : ℕ} {p : SpanPool}
    → IsSound s live
    → c ≢ 0
    → Carved s.large.pool c h p
    → IsSound (with_pool s p) live
with_pool-IsSound v pos k = record {
  pool = k.valid;
  arena = v.arena;
  covers = v.covers;
  same_base = v.same_base;
  runs_len = v.runs_len ∙ sym k.same_spans;
  reach = omega (arith, v.reach, k.same_spans);
  narrow = omega (arith, v.narrow, k.same_spans);
  cells = v.cells;
  below = λ x f. v.below x (carved_only v.pool pos k x f);
  in_grid = v.in_grid;
  single = v.single;
  apart = λ x f. v.apart x (carved_only v.pool pos k x f);
  recorded = v.recorded;
  tagged = v.tagged;
}

InGrid-grow : (m n : ℕ) (live : Live) → m ≤ n → InGrid m live → InGrid n live
InGrid-grow m n [] h g = tt
InGrid-grow m n ((k, c) ∷ rs) h (pos, fits, g) =
    (pos, omega (arith, h, fits), InGrid-grow m n rs h g)

module _ (s : Store) (live : Live) (v : IsSound s live) (c start : ℕ) (low : s.arena.cursor ≤ start)
    (near : start < s.arena.cursor + span_bytes) (grid : (start - s.arena.base) % span_bytes ≡ 0)
    (fits : start + c * 2 ^ 16 ≤ s.arena.end) where
  abbrev pub moved : Store
  moved = with_arena s (record s.arena { cursor = start + c * 2 ^ 16 })

  -- On the grid the run starts at the cursor.
  at_cursor : start ≡ s.arena.cursor
  at_cursor = omega (arith, low, near, grid, v.arena.low, v.arena.aligned)

  pub cut-moved : cut moved ≡ cut s + c
  cut-moved = omega (arith, at_cursor, v.arena.low, v.arena.aligned)

  pub moved-IsSound : IsSound moved live
  moved-IsSound = record {
    pool = v.pool;
    arena = record {
      low = omega (arith, v.arena.low, low);
      high = fits;
      aligned = omega (arith, at_cursor, v.arena.low, v.arena.aligned);
      fits = v.arena.fits;
    };
    covers = record {
      valid = v.covers.valid;
      same_base = v.covers.same_base;
      same_end = v.covers.same_end;
    };
    same_base = v.same_base;
    runs_len = v.runs_len;
    reach = v.reach;
    narrow = v.narrow;
    cells = v.cells;
    below = λ x f. omega (arith, v.below x f, cut-moved);
    in_grid = InGrid-grow (cut s) (cut moved) live (omega (arith, cut-moved)) v.in_grid;
    single = v.single;
    apart = v.apart;
    recorded = v.recorded;
    tagged = v.tagged;
  }

Runs-cases :
    {a : BumpArena} {n : ℕ} {r : Option ℕ × BumpArena}
    → Runs a n r
    → ((r ≡ (none, a))
        × ((start : ℕ) × (a.cursor ≤ start)
            × (start < a.cursor + span_bytes)
            × ((start - a.base) % span_bytes ≡ 0)
            × (a.end < start + n)))
      ⊎ ((start : ℕ) × (r ≡ (some start, record a { cursor = start + n }))
          × (a.cursor ≤ start)
          × (start < a.cursor + span_bytes)
          × ((start - a.base) % span_bytes ≡ 0)
          × (start + n ≤ a.end))
Runs-cases (full start low near grid over) = inl (refl, (start, low, near, grid, over))
Runs-cases (fresh start low near grid fits) = inr (start, refl, low, near, grid, fits)

pub Allocates-cases :
    {p : SpanPool} {n : ℕ} {r : Option (Option ℕ × SpanPool)}
    → Allocates p n r
    → ((r ≡ some (none, p)) × ((k : ℕ) → p.head_count.at k ≢ 0 → p.head_count.at k < n))
      ⊎ ((h : ℕ) × (q : SpanPool) × (r ≡ some (some h, q)) × Carved p n h q)
Allocates-cases (exhausted e) = inl (refl, e)
Allocates-cases (carved h q k) = inr (h, q, refl, k)

pub owners_beyond : (m x : ℕ) (live : Live) → m ≤ x → InGrid m live → owners x live ≡ 0
unfolding owners
owners_beyond m x [] l g = refl
owners_beyond m x ((h, c) ∷ rs) l (pos, fits, g) = ground (arith, l, fits, owners_beyond m x rs l g)

module _ (s : Store) (live : Live) (v : IsSound s live) (cpu : Option ℕ) (c : ℕ) (pos : c ≢ 0)
    (small : c < 2 ^ 32) where
  bytes-eq : mul_usize c span_bytes ≡ c * 2 ^ 16
  bytes-eq = omega (arith, small)

  -- A run of the pool.
  from_pool :
      (h : ℕ) (p : SpanPool)
      → Carved s.large.pool c h p
      → Obtains s live c (record_run (with_pool s p) cpu (span_ptr s.large h) c)
  unfolding span_ptr
  from_pool h p k =
      let v1 = with_pool-IsSound v pos k in
      let was_free = λ (x : ℕ) (l : h ≤ x) (u : x < h + c). carved_free v.pool pos k x l u in
      let last =
        v.below (h + c - 1) (was_free (h + c - 1) (omega (arith, pos)) (omega (arith, pos))) in
      let fits : h + c ≤ cut s = omega (arith, last) in
      let inside : run_at s (h + c) ≤ s.arena.end =
        omega (arith, fits, v.arena.low, v.arena.high) in
      let ptr : span_ptr s.large h ≡ run_at s h =
        omega (arith, v.same_base, inside, v.arena.fits) in
      let (q, runs, sound, same) =
        record_run-IsSound (with_pool s p) live v1 h c pos fits
          (λ x l u. v.apart x (was_free x l u)) (λ x l u. carved_taken v.pool pos k x l u) cpu in
      rw (ptr, runs)
        (obtained h inside (λ x l u. v.apart x (was_free x l u))
          (ap (λ (a : BumpArena). a.base) same) sound)

  -- A fresh run.
  from_arena :
      (start : ℕ)
      → s.arena.cursor ≤ start
      → start < s.arena.cursor + span_bytes
      → (start - s.arena.base) % span_bytes ≡ 0
      → start + c * 2 ^ 16 ≤ s.arena.end
      → Obtains s live c
          (record_run (with_arena s (record s.arena { cursor = start + c * 2 ^ 16 })) cpu start c)
  from_arena start low near grid fits =
      let v1 = moved-IsSound s live v c start low near grid fits in
      let grown = cut-moved s live v c start low near grid fits in
      let at : start ≡ run_at s (cut s) =
        omega
          (arith, at_cursor s live v c start low near grid fits, v.arena.low, v.arena.aligned) in
      let held =
        λ (x : ℕ) (l : cut s ≤ x) (u : x < cut s + c). owners_beyond (cut s) x live l v.in_grid in
      let (q, runs, sound, same) =
        record_run-IsSound (moved s live v c start low near grid fits) live v1 (cut s) c pos
          (omega (arith, grown)) held (λ x l u f. omega (arith, v.below x f, l)) cpu in
      let here =
        ap (λ (x : ℕ). record_run (moved s live v c start low near grid fits) cpu x c) at in
      subst (Obtains s live c) (sym (here ∙ runs)) (
        obtained (cut s) (omega (arith, at, fits)) held (ap (λ (a : BumpArena). a.base) same) sound)

  -- What follows where the pool has no run.
  abbrev Rest : Option ℕ × BumpArena → Type 0
  Rest r =
      Obtains s live c
        (elim r.0 [ none ↦ some (none, s) | some run ↦ record_run (with_arena s r.1) cpu run c ])

  Rest-of_arena :
      ((k : ℕ) → s.large.pool.head_count.at k ≢ 0 → s.large.pool.head_count.at k < c)
      → Rest (carve_run s.arena (c * 2 ^ 16))
  Rest-of_arena short =
      elim (Runs-cases
        (carve_run-Runs s.arena (c * 2 ^ 16) v.arena.low v.arena.high v.arena.fits)) [
          | inl (e, (start, low, near, grid, over)) ↦
              subst Rest (sym e) (
                drained short (omega (arith, low, near, grid, over, v.arena.low, v.arena.aligned))
                  v)
          | inr (start, e, low, near, grid, fits) ↦
              subst Rest (sym e) (from_arena start low near grid fits)
        ]

  no_run :
      ((k : ℕ) → s.large.pool.head_count.at k ≢ 0 → s.large.pool.head_count.at k < c)
      → Rest (carve_run s.arena (mul_usize c span_bytes))
  no_run short = subst (λ (n : ℕ). Rest (carve_run s.arena n)) (sym bytes-eq) (Rest-of_arena short)

-- `alloc_large` of fewer than 2 ^ 47 bytes returns, whatever runs are in use. It returns nothing only
-- where every free run is too short and the arena has no room behind its cursor. Otherwise the run
-- holds the size, lies inside the arena on the grid of spans, and has no span of a run in use. The
-- runs in use stay recorded, tagged and apart from each other and from the free runs.
pub alloc_large-Obtains :
    {s : Store} {live : Live} (cpu : Option ℕ) (size : ℕ)
    → IsSound s live
    → size < 2 ^ 47
    → (size ≤ spans_for size * 2 ^ 16) × Obtains s live (spans_for size) (alloc_large s cpu size)
unfolding alloc_large span_ptr
alloc_large-Obtains {s} {live} cpu size v small =
    let c = spans_for size in
    let same : as_u32 c ≡ c = omega (arith, small) in
    let few : c < 2 ^ 32 = omega (arith, small) in
    (
      omega arith,
      elim (Allocates-cases (alloc-Allocates c v.pool (omega arith))) [
        | inl (e, short) ↦ rw (alloc_large, same, e) (no_run s live v cpu c (omega arith) few short)
        | inr (h, p, e, k) ↦
            rw (alloc_large, same, e) (from_pool s live v cpu c (omega arith) few h p k)
      ],
    )
