-- ===== src/SubHeap/Claim.antt =====
-- What `carve_or_reuse_spans` of toccata-core/src/subheap.rs claims for a class, beside the large runs.
use toccata.Base.{
  ℕ, ◌+◌, ◌-◌, ◌*◌, ◌^◌, ◌≤◌, ◌<◌, ◌≡◌, ◌≢◌, ◌⊎◌, inl, inr, refl, sym, ap, subst, ◌∙◌, arith, Bool,
  true, false, ◌&&◌, Option, some, [], ◌∷◌, All, All-imp, ltb, leb, if◌then◌else◌, ◌>>=◌, as_u32,
  add_usize, sub_usize, mul_usize,
}
use toccata.SpanPool.{SpanPool}
use toccata.SpanPool.Spans.{IsFreeSpan}
use toccata.SpanPool.Client.{Live, owners, InGrid}
use toccata.SpanPool.Alloc.{Carved, alloc-Allocates}
use toccata.SpanPool.History.{carved_taken, carved_free}
use toccata.Meta.{span_bytes}
use toccata.Meta.Table.{SpanTable, lookup, assign_range}
use toccata.Meta.Table.Assign as Table
use toccata.Arena.{BumpArena, carve_spans}
use toccata.Arena.Race as Race
use toccata.Arena.Tag.{Covers, Carves, drained, carved, carve_spans-Carves}
use toccata.SubHeap.Large.{Store, span_ptr}
use toccata.SubHeap.Runs.{cut, run_at, IsSound, All-both, heads_apart}
use toccata.SubHeap.Obtain.{
  with_pool, with_arena, with_pool-IsSound, moved-IsSound, Allocates-cases, owners_beyond,
}
use toccata.SubHeap.Carving.{tag_run, try_pool_alloc, carve_or_reuse_spans}

-- What a claim of `n` spans may answer: an empty run where the arena has no whole span left, or else at
-- most `n` spans, which were free or behind the cursor, of which nobody holds one and none is free any
-- more, all of the class and the home.
pub data Claims (s : Store) (live : Live) (n class home : ℕ)
    : Option ((ℕ × ℕ) × Store) → Type 0 where
  nothing :
      {q : Store} (at : ℕ)
      → s.arena.end < s.arena.cursor + span_bytes
      → IsSound q live
      → Claims s live n class home (some ((at, at), q))
  claimed :
      {q : Store} (h k : ℕ)
      → k ≢ 0
      → k ≤ n
      → run_at s (h + k) ≤ s.arena.end
      → ((x : ℕ) → h ≤ x → x < h + k → IsFreeSpan s.large.pool.head_count.at x ⊎ (cut s ≤ x))
      → ((x : ℕ) → h ≤ x → x < h + k → owners x live ≡ 0)
      → ((x : ℕ) → h ≤ x → x < h + k → ¬ IsFreeSpan q.large.pool.head_count.at x)
      → ((a : ℕ)
          → run_at s h ≤ a
          → a < run_at s (h + k)
          → lookup q.spans a ≡ some (some (class, home)))
      → IsSound q live
      → Claims s live n class home (some ((run_at s h, run_at s (h + k)), q))

abbrev with_spans : Store → SpanTable → Store
with_spans s u = record s { spans = u }

-- Tags that keep off the runs in use.
with_spans-IsSound :
    {s : Store} {live : Live} (u : SpanTable)
    → IsSound s live
    → Covers s.arena u
    → All (λ r. lookup u (run_at s r.0) ≡ lookup s.spans (run_at s r.0)) live
    → IsSound (with_spans s u) live
with_spans-IsSound {s} {live} u v covers same = record {
  pool = v.pool;
  arena = v.arena;
  covers = covers;
  same_base = v.same_base;
  runs_len = v.runs_len;
  reach = v.reach;
  narrow = v.narrow;
  cells = v.cells;
  below = v.below;
  in_grid = v.in_grid;
  single = v.single;
  apart = v.apart;
  recorded = v.recorded;
  tagged = All-both _ _ _ live (λ r at here. here ∙ at) v.tagged same;
}

tag_run-eq :
    (s : Store) (h n class home start end : ℕ) (u : SpanTable)
    → span_ptr s.large h ≡ start
    → add_usize start (mul_usize n span_bytes) ≡ end
    → assign_range s.spans start (sub_usize end start) class home ≡ some u
    → tag_run s h n class home ≡ some ((start, end), with_spans s u)
unfolding tag_run
tag_run-eq s h n class home start end u e f g = cc (e, f, g)

InGrid-heads : (m : ℕ) (live : Live) → InGrid m live → All (λ r. r.0 < m) live
InGrid-heads m [] g = tt
InGrid-heads m ((h, c) ∷ rs) (pos, fits, g) = (omega (arith, pos, fits), InGrid-heads m rs g)

Carves-cases :
    {a : BumpArena} {t : SpanTable} {n class home : ℕ}
    {r : Option ((ℕ × ℕ) × BumpArena × SpanTable)}
    → Carves a t n class home r
    → ((r ≡ some ((a.cursor, a.cursor), a, t)) × (a.end < a.cursor + span_bytes))
      ⊎ ((k : ℕ) × (run_end : ℕ) × (u : SpanTable) × (r
            ≡ some ((a.cursor, run_end), record a { cursor = run_end }, u))
          × (k ≢ 0)
          × (k ≤ n)
          × (run_end ≡ a.cursor + k * span_bytes)
          × Race.IsValid (record a { cursor = run_end })
          × Covers (record a { cursor = run_end }) u
          × ((q : ℕ)
              → lookup u q ≡ (
                  if leb a.cursor q && ltb q run_end
                  then some (some (class, home))
                  else lookup t q)))
Carves-cases (drained none_left) = inl (refl, none_left)
Carves-cases (carved k run_end u pos few at valid covers look) =
    inr (k, run_end, u, refl, pos, omega (arith, few), at, valid, covers, look)

module _ (s : Store) (live : Live) (v : IsSound s live) (n class home : ℕ) (pos : n ≢ 0)
    (few : n < 2 ^ 32) (ne : class ≢ 0) (cl : class < 2 ^ 16) (hm : home < 2 ^ 16) where
  -- A run of the pool.
  from_pool :
      (h : ℕ) (p : SpanPool)
      → Carved s.large.pool n h p
      → (q : Store) × (tag_run (with_pool s p) h n class home
          ≡ some ((run_at s h, run_at s (h + n)), q))
        × Claims s live n class home (some ((run_at s h, run_at s (h + n)), q))
  unfolding span_ptr
  from_pool h p k =
      let v1 = with_pool-IsSound v pos k in
      let was_free = λ (x : ℕ) (l : h ≤ x) (u : x < h + n). carved_free v.pool pos k x l u in
      let held = λ (x : ℕ) (l : h ≤ x) (u : x < h + n). v.apart x (was_free x l u) in
      let last =
        v.below (h + n - 1) (was_free (h + n - 1) (omega (arith, pos)) (omega (arith, pos))) in
      let inside : run_at s (h + n) ≤ s.arena.end =
        omega (arith, last, v.arena.low, v.arena.high) in
      let start : span_ptr s.large h ≡ run_at s h =
        omega (arith, v.same_base, inside, v.arena.fits) in
      let end : add_usize (run_at s h) (mul_usize n span_bytes) ≡ run_at s (h + n) =
        omega (arith, few, inside, v.arena.fits) in
      let bytes : sub_usize (run_at s (h + n)) (run_at s h) ≡ n * 2 ^ 16 =
        omega (arith, inside, v.arena.fits) in
      let (u, runs, valid, same_base, same_len, look) =
        Table.assign_range-lookup (run_at s h) (n * 2 ^ 16) class home v.covers.valid
          (omega (arith, v.covers.same_base)) (omega (arith, pos))
          (omega (arith, inside, v.covers.same_end)) ne cl hm in
      let others = heads_apart h n (cut s) live held v.in_grid in
      let sound =
        with_spans-IsSound {s = with_pool s p} u v1
          (record {
            valid = valid;
            same_base = same_base ∙ v.covers.same_base;
            same_end = omega (arith, same_base, same_len, v.covers.same_end);
          })
          (All-both (λ r. (r.0 < h) ⊎ (h + n ≤ r.0)) (λ r. (r.0 < h) ⊎ (h + n ≤ r.0)) _ live
            (λ r other same. look (run_at s r.0) ∙ rw (off r.0 h other inside) refl) others
            others) in
      (
        record (with_pool s p) { spans = u },
        tag_run-eq (with_pool s p) h n class home (run_at s h) (run_at s (h + n)) u start end
            (ap (λ x. assign_range s.spans (run_at s h) x class home) bytes ∙ runs),
        claimed h n pos (omega arith) inside (λ x l m. inl (was_free x l m)) held
            (λ x l u. carved_taken v.pool pos k x l u)
            (λ a l m. look a ∙ rw (on a h l m inside) refl) sound,
      )
    where
      off :
          (k h : ℕ)
          → (k < h) ⊎ (h + n ≤ k)
          → run_at s (h + n) ≤ s.arena.end
          → Table.overlaps s.spans (run_at s h) (n * 2 ^ 16) (run_at s k) ≡ false
      off k h other inside = ground (arith, other, inside, pos, v.covers.same_base)

      on :
          (a h : ℕ)
          → run_at s h ≤ a
          → a < run_at s (h + n)
          → run_at s (h + n) ≤ s.arena.end
          → Table.overlaps s.spans (run_at s h) (n * 2 ^ 16) a ≡ true
      on a h l m inside = ground (arith, l, m, inside, pos, v.covers.same_base, v.covers.same_end)

  from_arena :
      (k run_end : ℕ) (u : SpanTable)
      → k ≢ 0
      → k ≤ n
      → run_end ≡ s.arena.cursor + k * span_bytes
      → Race.IsValid (record s.arena { cursor = run_end })
      → Covers (record s.arena { cursor = run_end }) u
      → ((q : ℕ)
          → lookup u q ≡ (
              if leb s.arena.cursor q && ltb q run_end
              then some (some (class, home))
              else lookup s.spans q))
      → Claims s live n class home (
          some (
            (s.arena.cursor, run_end),
            with_spans (with_arena s (record s.arena { cursor = run_end })) u,
          ))
  from_arena k run_end u some_span le at valid covers look =
      let c = s.arena.cursor in
      let high : c + k * 2 ^ 16 ≤ s.arena.end = omega (arith, at, valid.high) in
      let start : run_at s (cut s) ≡ c = omega (arith, v.arena.low, v.arena.aligned) in
      let end : run_at s (cut s + k) ≡ run_end = omega (arith, start, at) in
      let sound =
        subst (λ x. IsSound (with_arena s (record s.arena { cursor = x })) live) (sym at)
          (moved-IsSound s live v k c (omega arith) (omega arith) v.arena.aligned high) in
      let below : All (λ r. lookup u (run_at s r.0) ≡ lookup s.spans (run_at s r.0)) live =
        All-imp (λ r. r.0 < cut s) _ live
          (λ r in_use.
            let first : leb c (run_at s r.0) ≡ false =
              ground (arith, in_use, v.arena.low, v.arena.aligned) in
            look (run_at s r.0) ∙ rw first refl)
          (InGrid-heads (cut s) live v.in_grid) in
      let q = with_spans (with_arena s (record s.arena { cursor = run_end })) u in
      subst (λ a. Claims s live n class home (some ((a, run_end), q))) start
        (subst (λ b. Claims s live n class home (some ((run_at s (cut s), b), q))) end
          (claimed (cut s) k some_span le (omega (arith, end, valid.high)) (λ x l m. inr l)
            (λ x l m. owners_beyond (cut s) x live l v.in_grid)
            (λ x l m f. omega (arith, v.below x f, l))
            (λ a l m.
              let first : leb c a ≡ true = ground (arith, l, start) in
              let last : ltb a run_end ≡ true = ground (arith, m, end) in
              look a ∙ rw (first, last) refl)
            (with_spans-IsSound u sound covers below)))

  no_run : Claims s live n class home (do
    (run, arena, spans) ← carve_spans s.arena s.spans n class home
    some (run, record s { arena = arena; spans = spans }))
  no_run = elim (Carves-cases (carve_spans-Carves n class home v.arena v.covers pos ne cl hm)) [
    | inl (e, none_left) ↦ rw e (nothing s.arena.cursor none_left v)
    | inr (k, run_end, u, e, some_span, le, at, valid, covers, look) ↦
        rw e (from_arena k run_end u some_span le at valid covers look)
  ]

  -- A claim never panics, whether or not the lock of the pool is free. It answers with an empty run only
  -- where the arena has no whole span left, and otherwise with spans that nobody holds, none of them
  -- free any more, and all tagged with the class and the home. The large runs in use stay recorded,
  -- tagged and apart.
  pub carve_or_reuse_spans-Claims :
      (got : Bool) → Claims s live n class home (carve_or_reuse_spans s got n class home)
  unfolding carve_or_reuse_spans try_pool_alloc
  carve_or_reuse_spans-Claims false = no_run
  carve_or_reuse_spans-Claims true =
      let same : as_u32 n ≡ n = omega (arith, few) in
      elim (Allocates-cases (alloc-Allocates n v.pool pos)) [
        | inl (e, short) ↦ rw (carve_or_reuse_spans, try_pool_alloc, same, e) no_run
        | inr (h, p, e, k) ↦
            let (q, tags, claims) = from_pool h p k in
            rw (carve_or_reuse_spans, try_pool_alloc, same, e, tags) claims
      ]
