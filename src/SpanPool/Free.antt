-- ===== src/SpanPool/Free.antt =====
-- `free` of toccata-core/src/spanpool.rs: a returned run is merged with the free runs that it
-- touches.
use toccata.Base.{
  ℕ, ◌+◌, ◌-◌, ◌≤◌, ◌<◌, ◌≡◌, ◌≢◌, refl, arith, ◌&&◌, ◌==◌, leb, if◌then◌else◌, ◌⊎◌, true, some,
  add_u32,
}
use toccata.SpanPool.{SpanPool, free}
use toccata.SpanPool.Valid.{IsValid}
use toccata.SpanPool.Link.{IsIsolated, linked, link-linked, linked-IsValid}
use toccata.SpanPool.Spans.{IsFreeSpan, IsTaken, gained_spans, kept_spans, only_spans}
use toccata.SpanPool.Merge.{
  right, right_fits, absorb_right-eq, right-IsValid, right_counts, right_spans, right_clear, lc,
  left, left_run, absorb_left-eq, left-IsValid, left_counts, left-IsIsolated,
}

-- What `free` of the `c` spans from `h` on does to a pool.
pub record Freed (p : SpanPool) (h c : ℕ) (q : SpanPool) : Type 0 where
  pub valid : IsValid q
  pub same_spans : q.num_spans ≡ p.num_spans
  pub kept : (x : ℕ) → IsFreeSpan p.head_count.at x → IsFreeSpan q.head_count.at x
  pub gained : (x : ℕ) → h ≤ x → x < h + c → IsFreeSpan q.head_count.at x
  pub only :
      (x : ℕ)
      → IsFreeSpan q.head_count.at x
      → IsFreeSpan p.head_count.at x ⊎ ((h ≤ x) × (x < h + c))

module _ {p : SpanPool} (v : IsValid p) (h c : ℕ) (pos : c ≢ 0) (fits : h + c ≤ p.num_spans)
    (taken : IsTaken p.head_count.at h c) where
  abbrev merged_right : SpanPool
  merged_right = right v h c pos fits taken

  merged_right-IsValid : IsValid merged_right
  merged_right-IsValid = right-IsValid v h c pos fits taken

  abbrev count : ℕ
  count = c + p.head_count.at (h + c)

  count_fits : h + count ≤ merged_right.num_spans
  count_fits = omega (arith, right_fits v h c pos fits taken, right_spans v h c pos fits taken)

  count_pos : count ≢ 0
  count_pos = omega arith

  abbrev tag : ℕ
  tag = lc merged_right-IsValid h count count_pos count_fits (right_clear v h c pos fits taken)

  abbrev merged : SpanPool
  merged = left merged_right-IsValid h count count_pos count_fits (right_clear v h c pos fits taken)

  merged-IsValid : IsValid merged
  merged-IsValid =
      left-IsValid merged_right-IsValid h count count_pos count_fits
        (right_clear v h c pos fits taken)

  merged-IsIsolated : IsIsolated merged.head_count.at (h - tag) (count + tag)
  merged-IsIsolated =
      left-IsIsolated merged_right-IsValid h count count_pos count_fits
        (right_clear v h c pos fits taken)

  tag_run : tag ≢ 0 → (tag ≤ h) × (merged_right.head_count.at (h - tag) ≡ tag)
  tag_run =
      left_run merged_right-IsValid h count count_pos count_fits (right_clear v h c pos fits taken)

  merged_spans : merged.num_spans ≡ p.num_spans
  merged_spans = ground (arith, right_spans v h c pos fits taken)

  merged_fits : h - tag + (count + tag) ≤ merged.num_spans
  merged_fits = ground (arith, tag_run, merged_spans, right_fits v h c pos fits taken)

  -- The pool that `free` leaves.
  abbrev freed : SpanPool
  freed = linked merged (h - tag) (count + tag)

  free-eq : free p h c ≡ some freed
  unfolding free
  free-eq =
      let guard : (leb 1 c && leb (add_u32 h c) p.num_spans) ≡ true =
        ground (arith, v.sized.spans_fit) in
      rw (
        guard,
        absorb_right-eq v h c pos fits taken,
        absorb_left-eq merged_right-IsValid h count count_pos count_fits
            (right_clear v h c pos fits taken),
        link-linked merged-IsValid (h - tag) (count + tag) (omega arith) merged_fits
            merged-IsIsolated,
      )

  freed_counts :
      (k : ℕ)
      → freed.head_count.at k
        ≡ (if k == h - tag then c + p.head_count.at (h + c) + tag else merged.head_count.at k)
  freed_counts k = refl

  freed-Freed : Freed p h c freed
  freed-Freed = record {
    valid =
        linked-IsValid merged-IsValid (h - tag) (count + tag) (omega arith) merged_fits
          merged-IsIsolated;
    same_spans = merged_spans;
    kept =
        kept_spans _ _ _ _ h c tag pos taken (right_counts v h c pos fits taken) mc freed_counts
          tag_run;
    gained =
        gained_spans _ _ _ _ h c tag pos taken (right_counts v h c pos fits taken) mc freed_counts
          tag_run;
    only =
        only_spans _ _ _ _ h c tag pos taken (right_counts v h c pos fits taken) mc freed_counts
          tag_run;
  }
    where
      mc :
          (k : ℕ)
          → merged.head_count.at k ≡ (
              if tag == 0
              then merged_right.head_count.at k
              else if k == h - tag
              then 0
              else merged_right.head_count.at k)
      mc =
          left_counts merged_right-IsValid h count count_pos count_fits
            (right_clear v h c pos fits taken)

-- Returning a run of which no span is free never panics. It leaves a valid pool, so that the run has
-- been merged with every free run that it touches, in which exactly the spans of the run and the
-- spans that were free before are free.
pub free-Freed :
    {p : SpanPool} (h c : ℕ)
    → IsValid p
    → c ≢ 0
    → h + c ≤ p.num_spans
    → IsTaken p.head_count.at h c
    → (q : SpanPool) × (free p h c ≡ some q) × Freed p h c q
free-Freed h c v pos fits taken =
    (freed v h c pos fits taken, free-eq v h c pos fits taken, freed-Freed v h c pos fits taken)
