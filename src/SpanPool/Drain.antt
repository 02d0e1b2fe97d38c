-- ===== src/SpanPool/Drain.antt =====
-- When the client of the pool in toccata-core/src/spanpool.rs has returned everything, the grid is one
-- free run again.
use toccata.Base.{ℕ, ◌<◌, ◌≡◌, ◌≢◌, arith, ltb, inl, inr, Bool-cases, Option, some, []}
use toccata.SpanPool.{SpanPool, no_span, alloc}
use toccata.SpanPool.Alloc.{Allocates, exhausted, carved, alloc-Allocates}
use toccata.SpanPool.Client.{owners, Reach, IsSound}
use toccata.SpanPool.History.{Reach-IsSound}
use toccata.SpanPool.Spans.{IsFreeSpan}

module _ {m : ℕ} {p : SpanPool} (pos : m ≢ 0) (s : IsSound m (record { pool = p; live = [] })) where
  all_free : (x : ℕ) → x < m → IsFreeSpan p.head_count.at x
  unfolding owners
  all_free x l = elim (s.owned x l) [ inl (f, o) ↦ f | inr (f, o) ↦ absurd (omega arith) ]

  first_head : p.head_count.at 0 ≢ 0
  first_head = let (k, q, l, u) = all_free 0 (omega arith) in ground arith

  -- A free run behind the first one would touch it.
  whole : p.head_count.at 0 ≡ m
  whole = elim (Bool-cases (ltb (p.head_count.at 0) m)) [
    | inl e ↦
        let (k, q, l, u) = all_free (p.head_count.at 0) (ground arith) in
        absurd (ground (arith, s.valid.tagged.apart 0 k, first_head))
    | inr e ↦ ground (arith, s.valid.tagged.in_grid 0, s.spans, first_head)
  ]

whole_grid :
    {m : ℕ} {p : SpanPool} {r : Option (Option ℕ × SpanPool)}
    → m ≢ 0
    → IsSound m (record { pool = p; live = [] })
    → Allocates p m r
    → (q : SpanPool) × (r ≡ some (some 0, q))
whole_grid pos s (exhausted e) = absurd (omega (arith, e 0 (first_head pos s), whole pos s))
whole_grid pos s (carved h q k) =
    let first : h ≡ 0 = ground (arith, k.fits, s.valid.tagged.in_grid h, s.spans) in (q, rw first)

-- After any history in which every run has been returned, whatever the order, the frees have merged
-- to one run: `alloc` of the whole grid succeeds, at span 0.
pub drained-alloc :
    {m : ℕ} {p : SpanPool}
    → m ≢ 0
    → m < no_span
    → Reach m (record { pool = p; live = [] })
    → (q : SpanPool) × (alloc p m ≡ some (some 0, q))
drained-alloc {m} pos small r =
    let s = Reach-IsSound pos small r in whole_grid pos s (alloc-Allocates m s.valid pos)
