-- ===== src/SubHeap/Stock.antt =====
-- What `central_carve` of toccata-core/src/subheap.rs adds to a central list, for a class whose objects
-- fit into a span.
use native.Mathlib.Nat.{div-le_of_le-mul, suc-mul}
use toccata.Base.{
  ℕ, zero, suc, ◌+◌, ◌-◌, ◌*◌, ◌/◌, ◌^◌, ◌≤◌, ◌<◌, ◌≡◌, ◌≢◌, ◌⊎◌, inl, inr, refl, arith, max, Bool,
  true, false, Option, some, List, leb, ◌==◌, as_u16, div_ceil,
}
use toccata.SpanPool.{no_span}
use toccata.SpanPool.Spans.{IsFreeSpan}
use toccata.SpanPool.Client.{Live, owners}
use toccata.Meta.{span_bytes}
use toccata.Meta.Table.{lookup}
use toccata.Meta.Bitmaps.{SpanBitmaps}
use toccata.Meta.Bitmaps.Active.{IsActive}
use toccata.Meta.Bitmaps.Effects.{IsValid}
use toccata.SubHeap.Large.{Store}
use toccata.SubHeap.Runs.{cut, run_at, IsSound}
use toccata.SubHeap.Hands.{free}
use toccata.SubHeap.Carving.{carve_or_reuse_spans, carve_tiles, tile_each}
use toccata.SubHeap.Claim.{Claims, nothing, claimed, carve_or_reuse_spans-Claims}
use toccata.SubHeap.Tiling.{added, tiled, tile_each-Tiled}

-- The bitmaps of the `n` spans of the arena. A span that is free or behind the cursor is on no list.
pub record Backs (s : Store) (n : ℕ) (p : SpanBitmaps) : Type 0 where
  pub valid : IsValid n p
  pub same_base : p.base ≡ s.arena.base
  pub grid : p.base + n * 2 ^ 16 ≤ 2 ^ 64
  pub small : n < no_span
  pub reach : s.arena.end < p.base + (n + 1) * 2 ^ 16
  pub off_list :
      (x : ℕ) → IsFreeSpan s.large.pool.head_count.at x ⊎ (cut s ≤ x) → p.on_list.at x ≡ false

-- What a carve for objects of which a span holds `per_span` may answer: nothing, or else some spans that
-- nobody held, all of whose objects are free now, and which stand in front of the list.
pub data Stocks (s : Store) (live : Live) (n : ℕ) (p : SpanBitmaps) (head : ℕ) (xs : List ℕ)
    (per_span want class home : ℕ) : Option (ℕ × ℕ × SpanBitmaps × Store) → Type 0 where
  dry :
      {q : Store}
      → s.arena.end < s.arena.cursor + span_bytes
      → IsSound q live
      → Stocks s live n p head xs per_span want class home (some (0, head, p, q))
  stocked :
      {q : Store} {b : SpanBitmaps} {first : ℕ} (h k : ℕ)
      → k ≢ 0
      → k ≤ want
      → ((x : ℕ) → h ≤ x → x < h + k → owners x live ≡ 0)
      → ((a : ℕ)
          → run_at s h ≤ a
          → a < run_at s (h + k)
          → lookup q.spans a ≡ some (some (class, home)))
      → IsSound q live
      → IsValid n b
      → IsActive n b first (added h k xs)
      → free b ≡ tiled (free p) h k per_span
      → Stocks s live n p head xs per_span want class home (some (k * per_span, first, b, q))

Claims-cases :
    {s : Store} {live : Live} {n class home : ℕ} {r : Option ((ℕ × ℕ) × Store)}
    → Claims s live n class home r
    → ((q : Store) × (at : ℕ) × (r ≡ some ((at, at), q))
        × (s.arena.end < s.arena.cursor + span_bytes)
        × IsSound q live)
      ⊎ ((q : Store) × (h : ℕ) × (k : ℕ) × (r ≡ some ((run_at s h, run_at s (h + k)), q))
          × (k ≢ 0)
          × (k ≤ n)
          × (run_at s (h + k) ≤ s.arena.end)
          × ((x : ℕ) → h ≤ x → x < h + k → IsFreeSpan s.large.pool.head_count.at x ⊎ (cut s ≤ x))
          × ((x : ℕ) → h ≤ x → x < h + k → owners x live ≡ 0)
          × ((a : ℕ)
              → run_at s h ≤ a
              → a < run_at s (h + k)
              → lookup q.spans a ≡ some (some (class, home)))
          × IsSound q live)
Claims-cases (nothing {q} at none_left v) = inl (q, at, refl, none_left, v)
Claims-cases (claimed {q} h k pos le inside was held gone tags v) =
    inr (q, h, k, refl, pos, le, inside, was, held, tags, v)

ceil-le : (b m : ℕ) → m ≢ 0 → (b + (m - 1)) / m ≤ b + 1
ceil-le b zero pos = absurd (pos refl)
ceil-le b (suc m) pos = div-le_of_le-mul (suc m) (omega (arith, suc-mul m (b + 1)))

tiles-pos : (osz : ℕ) → 8 ≤ osz → osz ≤ 2 ^ 16 → span_bytes / osz ≢ 0
tiles-pos osz big fits = grind (arith, big, fits)

module _ (s : Store) (live : Live) (n : ℕ) (p : SpanBitmaps) (head : ℕ) (xs : List ℕ)
    (osz class home batch : ℕ) (v : IsSound s live) (backs : Backs s n p)
    (act : IsActive n p head xs) (big : 8 ≤ osz) (fits : osz ≤ 2 ^ 16) (ne : class ≢ 0)
    (cl : class < 2 ^ 16) (hm : home < 2 ^ 16) (few : batch < 2 ^ 31) where
  abbrev per_span : ℕ
  per_span = span_bytes / osz

  abbrev want : ℕ
  want = max (div_ceil batch per_span) 1

  want-lt : want < 2 ^ 32
  want-lt = omega (arith, few, ceil-le batch per_span (tiles-pos osz big fits))

  per_span-le : per_span ≤ 8192
  per_span-le = div-le_of_le-mul osz (omega (arith, big))

  carve_tiles-eq :
      (got : Bool) (start run_end carved first : ℕ) (q : Store) (b : SpanBitmaps)
      → carve_or_reuse_spans s got want class home ≡ some ((start, run_end), q)
      → leb run_end start ≡ false
      → tile_each want p head per_span start run_end 0 ≡ some (first, b, carved)
      → carve_tiles s p got head osz class home batch ≡ some (carved, first, b, q)
  unfolding carve_tiles
  carve_tiles-eq got start run_end carved first q b claims some_run tiles =
      let nz : (osz == 0) ≡ false = ground (arith, big) in
      let same_class : as_u16 class ≡ class = omega (arith, cl) in
      let same_home : as_u16 home ≡ home = omega (arith, hm) in
      rw (carve_tiles, nz, same_class, same_home, claims, some_run, tiles) refl

  carve_tiles-dry :
      (got : Bool) (at : ℕ) (q : Store)
      → carve_or_reuse_spans s got want class home ≡ some ((at, at), q)
      → carve_tiles s p got head osz class home batch ≡ some (0, head, p, q)
  unfolding carve_tiles
  carve_tiles-dry got at q claims =
      let nz : (osz == 0) ≡ false = ground (arith, big) in
      let same_class : as_u16 class ≡ class = omega (arith, cl) in
      let same_home : as_u16 home ≡ home = omega (arith, hm) in
      let empty : leb at at ≡ true = ground arith in
      rw (carve_tiles, nz, same_class, same_home, claims, empty) refl

  -- A carve for a class whose objects fit into a span never panics. It gives nothing only where the arena
  -- has no whole span left. Otherwise all objects of some spans are free from then on, and no other slot
  -- changes; the spans stand in front of the list, their tag is the class and the home, and no large run
  -- in use has one of them.
  pub carve_tiles-Stocks :
      (got : Bool)
      → Stocks s live n p head xs per_span want class home
          (carve_tiles s p got head osz class home batch)
  carve_tiles-Stocks got =
      elim (Claims-cases
        (carve_or_reuse_spans-Claims s live v want class home (omega arith) want-lt ne cl hm got)) [
          | inl (q, at, e, none_left, sound) ↦ rw (carve_tiles-dry got at q e) (dry none_left sound)
          | inr (q, h, k, e, pos, le, inside, was, held, tags, sound) ↦
              let t =
                tile_each-Tiled s.arena.base per_span backs.small per_span-le want k h head xs p 0
                  le (omega (arith, inside, backs.reach, backs.same_base)) backs.same_base
                  (omega (arith, backs.grid, backs.same_base)) backs.valid
                  (λ x l m. backs.off_list x (was x l m)) act in
              let none_before : 0 + k * per_span ≡ k * per_span = omega arith in
              let some_run : leb (run_at s (h + k)) (run_at s h) ≡ false = ground (arith, pos) in
              rw
                (carve_tiles-eq got (run_at s h) (run_at s (h + k)) (0 + k * per_span) t.head q
                  t.left e some_run t.runs)
                (rw none_before (stocked h k pos le held tags sound t.valid t.active t.slots))
        ]
