-- ===== src/SubHeap/Runs.antt =====
-- Who holds which spans of the arena, as far as the large runs of toccata-core/src/subheap.rs go.
use toccata.Base.{
  ℕ, ◌+◌, ◌-◌, ◌*◌, ◌/◌, ◌^◌, ◌≤◌, ◌<◌, ◌≡◌, ◌≢◌, ◌⊎◌, inl, inr, refl, sym, ◌∙◌, arith, true, false,
  Option, some, List, [], ◌∷◌, All, ltb, leb, Bool-cases, if◌then◌else◌, put, write, write-ok,
  as_u32, add_usize, mul_usize, Slice,
}
use toccata.SpanPool.Valid as Valid
use toccata.SpanPool.Spans.{IsFreeSpan}
use toccata.SpanPool.Client.{Live, holds, owners, InGrid}
use toccata.Meta.{span_bytes}
use toccata.Meta.Table.{SpanTable, lookup, assign_range}
use toccata.Meta.Table.Assign as Table
use toccata.Arena.Race as Race
use toccata.Arena.Tag.{Covers}
use toccata.SubHeap.{large_class}
use toccata.SubHeap.Large.{Store, span_index, record_run, add_remote, cell, charged_cpu, CpuCounter}

-- The spans below the cursor.
abbrev pub cut : Store → ℕ
cut s = (s.arena.cursor - s.arena.base) / span_bytes

abbrev pub run_at : Store → ℕ → ℕ
run_at s h = s.arena.base + h * 2 ^ 16

-- The large runs `live` are in use: each is recorded and its head tagged, no two share a span, and none
-- has a span of a free run. All of them, and the free runs, lie below the cursor.
pub record IsSound (s : Store) (live : Live) : Type 0 where
  pub pool : Valid.IsValid s.large.pool
  pub arena : Race.IsValid s.arena
  pub covers : Covers s.arena s.spans
  pub same_base : s.large.arena_base ≡ s.arena.base
  pub runs_len : s.large.run_spans.len ≡ s.large.pool.num_spans
  pub reach : s.arena.end ≤ s.arena.base + s.large.pool.num_spans * 2 ^ 16
  pub narrow : s.large.pool.num_spans < 2 ^ 32
  pub cells : s.counters.len ≢ 0
  pub below : (x : ℕ) → IsFreeSpan s.large.pool.head_count.at x → x < cut s
  pub in_grid : InGrid (cut s) live
  pub single : (x : ℕ) → owners x live ≤ 1
  pub apart : (x : ℕ) → IsFreeSpan s.large.pool.head_count.at x → owners x live ≡ 0
  pub recorded : All (λ r. s.large.run_spans.at r.0 ≡ r.1) live
  pub tagged : All (λ r. lookup s.spans (run_at s r.0) ≡ some (some (large_class, 0))) live

pub All-both {ℓ κ μ ν} :
    {A : Type ℓ} (P : A → Type κ) (Q : A → Type μ) (R : A → Type ν) (xs : List A)
    → ((x : A) → P x → Q x → R x)
    → All P xs
    → All Q xs
    → All R xs
All-both P Q R [] f a b = tt
All-both P Q R (x ∷ xs) f (p, a) (q, b) = (f x p q, All-both P Q R xs f a b)

-- No run of the list begins in a run none of whose spans they hold.
pub heads_apart :
    (h c m : ℕ) (live : Live)
    → ((x : ℕ) → h ≤ x → x < h + c → owners x live ≡ 0)
    → InGrid m live
    → All (λ r. (r.0 < h) ⊎ (h + c ≤ r.0)) live
unfolding owners
heads_apart h c m [] free g = tt
heads_apart h c m ((k, d) ∷ rs) free (pos, fits, g) = (
  elim (Bool-cases (ltb k h)) [
    | inl e ↦ inl (ground (arith, e))
    | inr e ↦ elim (Bool-cases (leb (h + c) k)) [
      | inl f ↦ inr (ground (arith, f))
      | inr f ↦ absurd (ground (arith, e, f, pos, free k))
    ]
  ],
  heads_apart h c m rs (λ x l u. ground (arith, free x l u)) g,
)

pub add_remote-ok :
    (cells : Slice CpuCounter) (cpu bytes objs : ℕ)
    → cells.len ≢ 0
    → (r : Slice CpuCounter) × (add_remote cells cpu bytes objs ≡ some r) × (r.len ≡ cells.len)
unfolding add_remote
add_remote-ok cells cpu bytes objs ne =
    let c = cells.at (cell cells cpu) in
    (
      put cells (cell cells cpu) (record c {
        remote_bytes = add_usize c.remote_bytes bytes;
        remote_objs = add_usize c.remote_objs objs;
      }),
      ground (arith, ne),
      refl,
    )

module _ (s : Store) (live : Live) (v : IsSound s live) (h c : ℕ) (pos : c ≢ 0)
    (fits : h + c ≤ cut s) (held : (x : ℕ) → h ≤ x → x < h + c → owners x live ≡ 0)
    (not_free : (x : ℕ) → h ≤ x → x < h + c → ¬ IsFreeSpan s.large.pool.head_count.at x) where
  pub run_fits : run_at s (h + c) ≤ s.arena.end
  run_fits = omega (arith, v.arena.low, v.arena.high, fits)

  pub index-run : span_index s.large (run_at s h) ≡ h
  unfolding span_index
  index-run = omega (arith, run_fits, v.arena.fits, v.same_base)

  pub grid_bound : h + c ≤ s.large.pool.num_spans
  grid_bound = omega (arith, run_fits, v.reach)

  write_run :
      write s.large.run_spans (span_index s.large (run_at s h)) (as_u32 c)
      ≡ some (put s.large.run_spans h c)
  write_run =
      let inside : h < s.large.run_spans.len = omega (arith, grid_bound, pos, v.runs_len) in
      rw (index-run, same_count) (write-ok s.large.run_spans h c inside)
    where
      same_count : as_u32 c ≡ c
      same_count = omega (arith, grid_bound, v.narrow)

  abbrev bytes : ℕ
  bytes = mul_usize c span_bytes

  bytes-eq : bytes ≡ c * 2 ^ 16
  bytes-eq = omega (arith, run_fits, v.arena.fits)

  Tagged : SpanTable → Type 0
  Tagged u =
      Table.IsValid u
      × (u.base ≡ s.spans.base)
      × (u.len ≡ s.spans.len)
      × ((q : ℕ)
          → lookup u q ≡ (
              if Table.overlaps s.spans (run_at s h) bytes q
              then some (some (large_class, 0))
              else lookup s.spans q))

  tag_run :
      (u : SpanTable) × (assign_range s.spans (run_at s h) bytes large_class 0 ≡ some u) × Tagged u
  unfolding Tagged
  tag_run =
      let (u, runs, valid, same_base, same_len, look) =
        Table.assign_range-lookup (run_at s h) bytes large_class 0 v.covers.valid
          (omega (arith, v.covers.same_base)) (omega (arith, bytes-eq, pos))
          (omega (arith, bytes-eq, run_fits, v.covers.same_end)) (omega arith) (omega arith)
          (omega arith) in
      (u, runs, (valid, same_base, same_len, look))

  overlaps_self : Table.overlaps s.spans (run_at s h) bytes (run_at s h) ≡ true
  overlaps_self = ground (arith, bytes-eq, run_fits, pos, v.covers.same_base, v.covers.same_end)

  overlaps-other :
      (k : ℕ)
      → (k < h) ⊎ (h + c ≤ k)
      → Table.overlaps s.spans (run_at s h) bytes (run_at s k) ≡ false
  overlaps-other k other = ground (arith, other, bytes-eq, run_fits, pos, v.covers.same_base)

  module _ (u : SpanTable) (t : Tagged u) (counters : Slice CpuCounter)
      (cells : counters.len ≢ 0) where
    abbrev after : Store
    after = record s {
      large = record s.large { run_spans = put s.large.run_spans h c };
      spans = u;
      counters = counters;
    }

    others : All (λ r. (r.0 < h) ⊎ (h + c ≤ r.0)) live
    others = heads_apart h c (cut s) live held v.in_grid

    after-IsSound : IsSound after ((h, c) ∷ live)
    unfolding owners Tagged
    after-IsSound = record {
      pool = v.pool;
      arena = v.arena;
      covers = record {
        valid = t.0;
        same_base = t.1 ∙ v.covers.same_base;
        same_end = omega (arith, t.1, t.2, v.covers.same_end);
      };
      same_base = v.same_base;
      runs_len = v.runs_len;
      reach = v.reach;
      narrow = v.narrow;
      cells = cells;
      below = v.below;
      in_grid = (pos, fits, v.in_grid);
      single = λ x. ground (arith, held x, v.single x);
      apart = λ x f. elim (Bool-cases (holds (h, c) x)) [
        | inl e ↦ absurd (not_free x (ground (arith, e)) (ground (arith, e)) f)
        | inr e ↦ rw e (v.apart x f)
      ];
      recorded = (
        ground arith,
        All-both _ _ _ live (λ r at other. ground (arith, at, other)) v.recorded others,
      );
      tagged = (
        t.3 (run_at s h) ∙ rw overlaps_self refl,
        All-both _ _ _ live (λ r at other. t.3 (run_at s r.0) ∙ rw (overlaps-other r.0 other) at)
            v.tagged others,
      );
    }

  -- Recording a run that nobody holds.
  pub record_run-IsSound :
      (cpu : Option ℕ)
      → (q : Store) × (record_run s cpu (run_at s h) c ≡ some (some (run_at s h), q))
        × IsSound q ((h, c) ∷ live)
        × (q.arena ≡ s.arena)
  unfolding record_run
  record_run-IsSound cpu =
      let (u, runs, t) = tag_run in
      let (counters, counted, len) = add_remote-ok s.counters (charged_cpu s cpu) bytes 1 v.cells in
      (
        after u t counters (λ z. v.cells (sym len ∙ z)),
        rw (record_run, write_run, runs, counted) refl,
        after-IsSound u t counters (λ z. v.cells (sym len ∙ z)),
        refl,
      )
