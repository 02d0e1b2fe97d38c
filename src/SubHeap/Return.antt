-- ===== src/SubHeap/Return.antt =====
-- What `dealloc_large` of toccata-core/src/subheap.rs does with a run in use.
use toccata.Base.{
  ℕ, ◌+◌, ◌≤◌, ◌<◌, ◌≡◌, ◌≢◌, ◌⊎◌, inl, inr, refl, sym, ap, ◌∙◌, arith, true, ◌||◌, max, Option,
  some, List, [], ◌∷◌, ◌++◌, All, ltb, leb, Bool-cases, put, read, write, read-ok, write-ok, as_u32,
  mul_usize, Slice,
}
use toccata.SpanPool
use toccata.SpanPool.{SpanPool}
use toccata.SpanPool.Spans.{IsFreeSpan, IsTaken}
use toccata.SpanPool.Free.{Freed, free-Freed}
use toccata.SpanPool.Client.{Live, owners, InGrid}
use toccata.SpanPool.History.{owners-append, InGrid-append}
use toccata.Meta.{span_bytes}
use toccata.SubHeap.Large.{Store, CpuCounter, span_index, charged_cpu, negated, dealloc_large}
use toccata.SubHeap.Runs.{cut, run_at, IsSound, All-both, heads_apart, add_remote-ok}

-- What holds of a list holds of one element and of the others.
All-mid {ℓ κ} :
    {A : Type ℓ} (P : A → Type κ) (xs : List A) (x : A) (ys : List A)
    → All P (xs ++ x ∷ ys)
    → P x × All P (xs ++ ys)
All-mid P [] x ys h = h
All-mid P (y ∷ xs) x ys (h, hs) = let (own, rest) = All-mid P xs x ys hs in (own, (h, rest))

-- A run of which no span is free overlaps no free run.
IsTaken-of_not_free :
    (hc : ℕ → ℕ) (h c : ℕ)
    → c ≢ 0
    → ((x : ℕ) → h ≤ x → x < h + c → ¬ IsFreeSpan hc x)
    → IsTaken hc h c
IsTaken-of_not_free hc h c pos none_free k q =
    elim (Bool-cases (leb (k + hc k) h || leb (h + c) k)) [
      | inl e ↦ ground arith
      | inr e ↦ absurd (
          none_free (max h k) (omega arith) (ground (arith, pos)) (k, q, omega arith, ground arith))
    ]

module _ (s : Store) (rs : Live) (h c : ℕ) (ss : Live) (v : IsSound s (rs ++ (h, c) ∷ ss)) where
  grid : (c ≢ 0) × (h + c ≤ cut s) × InGrid (cut s) (rs ++ ss)
  grid = InGrid-append (cut s) rs h c ss v.in_grid

  run_inside : run_at s (h + c) ≤ s.arena.end
  run_inside = omega (arith, v.arena.low, v.arena.high, grid.1)

  index : span_index s.large (run_at s h) ≡ h
  unfolding span_index
  index = omega (arith, run_inside, v.arena.fits, v.same_base)

  spans_inside : h + c ≤ s.large.pool.num_spans
  spans_inside = omega (arith, run_inside, v.reach)

  -- The spans of the run have no other owner, and are not free.
  sole : (x : ℕ) → h ≤ x → x < h + c → owners x (rs ++ ss) ≡ 0
  sole x l u = ground (arith, owners-append x rs (h, c) ss, v.single x)

  none_free : (x : ℕ) → h ≤ x → x < h + c → ¬ IsFreeSpan s.large.pool.head_count.at x
  none_free x l u f = ground (arith, owners-append x rs (h, c) ss, v.apart x f)

  inside : h < s.large.run_spans.len
  inside = omega (arith, spans_inside, grid.0, v.runs_len)

  read_run : read s.large.run_spans h ≡ some c
  read_run = read-ok s.large.run_spans h inside ∙ ap some (All-mid _ rs (h, c) ss v.recorded).0

  write_run : write s.large.run_spans h 0 ≡ some (put s.large.run_spans h 0)
  write_run = write-ok s.large.run_spans h 0 inside

  counted_up : ltb 0 c ≡ true
  counted_up = ground (arith, grid.0)

  same_index : as_u32 h ≡ h
  same_index = omega (arith, spans_inside, v.narrow, grid.0)

  freed : (p : SpanPool) × (SpanPool.free s.large.pool h c ≡ some p) × Freed s.large.pool h c p
  freed =
      free-Freed h c v.pool grid.0 spans_inside
        (IsTaken-of_not_free s.large.pool.head_count.at h c grid.0 none_free)

  module _ (p : SpanPool) (f : Freed s.large.pool h c p) (counters : Slice CpuCounter)
      (cells : counters.len ≢ 0) where
    abbrev after : Store
    after = record s {
      large = record s.large { pool = p; run_spans = put s.large.run_spans h 0 };
      counters = counters;
    }

    others : All (λ r. (r.0 < h) ⊎ (h + c ≤ r.0)) (rs ++ ss)
    others = heads_apart h c (cut s) (rs ++ ss) sole grid.2

    after-IsSound : IsSound after (rs ++ ss)
    after-IsSound = record {
      pool = f.valid;
      arena = v.arena;
      covers = v.covers;
      same_base = v.same_base;
      runs_len = v.runs_len ∙ sym f.same_spans;
      reach = omega (arith, v.reach, f.same_spans);
      narrow = omega (arith, v.narrow, f.same_spans);
      cells = cells;
      below = λ x k. elim (f.only x k) [
        | inl was ↦ v.below x was
        | inr (l, u) ↦ omega (arith, u, grid.1)
      ];
      in_grid = grid.2;
      single = λ x. ground (arith, owners-append x rs (h, c) ss, v.single x);
      apart = λ x k. elim (f.only x k) [
        | inl was ↦ ground (arith, owners-append x rs (h, c) ss, v.apart x was)
        | inr (l, u) ↦ sole x l u
      ];
      recorded =
          All-both _ _ _ (rs ++ ss) (λ r at other. ground (arith, at, other, grid.0))
            (All-mid _ rs (h, c) ss v.recorded).1 others;
      tagged = (All-mid _ rs (h, c) ss v.tagged).1;
    }

  -- `dealloc_large` of a run in use never panics: the spans of the run are free from then on, and the
  -- other runs stay as they are, recorded, tagged and apart.
  pub dealloc_large-Returns :
      (cpu : Option ℕ)
      → (q : Store) × (dealloc_large s cpu (run_at s h) ≡ some q)
        × IsSound q (rs ++ ss)
        × Freed s.large.pool h c q.large.pool
  unfolding dealloc_large
  dealloc_large-Returns cpu =
      let (p, frees, f) = freed in
      let bytes = negated (mul_usize c span_bytes) in
      let (counters, counted, len) =
        add_remote-ok s.counters (charged_cpu s cpu) bytes (negated 1) v.cells in
      let cells : counters.len ≢ 0 = λ z. v.cells (sym len ∙ z) in
      (
        after p f counters cells,
        rw (dealloc_large, index, read_run, write_run, counted_up, same_index, frees, counted) refl,
        after-IsSound p f counters cells,
        f,
      )
