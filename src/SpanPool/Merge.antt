-- ===== src/SpanPool/Merge.antt =====
-- The two merges of `free` in toccata-core/src/spanpool.rs: the returned run grows by the free run
-- on its right, then by the one on its left.
use toccata.Base.{
  ℕ, ◌+◌, ◌-◌, ◌≤◌, ◌<◌, ◌≡◌, ◌≢◌, refl, arith, ◌==◌, ltb, if◌then◌else◌, inl, inr, ◌⊎◌, Bool-cases,
  true, some, read-ok, add_u32, sub_u32,
}
use toccata.SpanPool.{SpanPool, absorb_right, absorb_left, unlink}
use toccata.SpanPool.Valid.{IsValid}
use toccata.SpanPool.Link.{IsIsolated}
use toccata.SpanPool.Spans.{IsTaken}
use toccata.SpanPool.Unlink.{unlinked, unlink-unlinked, unlinked-IsValid}

module _ {p : SpanPool} (v : IsValid p) (h c : ℕ) (pos : c ≢ 0) (fits : h + c ≤ p.num_spans)
    (taken : IsTaken p.head_count.at h c) where
  abbrev pub rc : ℕ
  rc = p.head_count.at (h + c)

  -- The pool and the count after the right neighbour.
  abbrev pub right : SpanPool
  right = if rc == 0 then p else unlinked p (h + c) rc

  pub right_fits : h + c + rc ≤ p.num_spans
  right_fits = ground (arith, v.tagged.in_grid (h + c))

  pub absorb_right-eq : absorb_right p h c ≡ some (c + rc, right)
  unfolding absorb_right
  absorb_right-eq =
      let e : add_u32 h c ≡ h + c = omega (arith, fits, v.sized.spans_fit) in
      let e' : add_u32 c rc ≡ c + rc = omega (arith, right_fits, v.sized.spans_fit) in
      rw e (
        ground (
          arith,
          e',
          v.tagged.in_grid (h + c),
          v.sized.head_count_len,
          unlink-unlinked v (h + c) rc refl,
        ))

  pub right-IsValid : IsValid right
  right-IsValid = elim (Bool-cases (rc == 0)) [
    | inl e ↦ rw e v
    | inr e ↦ rw e (unlinked-IsValid v (h + c) rc refl (ground arith))
  ]

  pub right_counts : (k : ℕ) → right.head_count.at k ≡ (if k == h + c then 0 else p.head_count.at k)
  right_counts k = ground arith

  pub right_spans : right.num_spans ≡ p.num_spans
  right_spans = ground arith

  pub right_clear :
      (k : ℕ) → right.head_count.at k ≢ 0 → (k + right.head_count.at k ≤ h) ⊎ (h + (c + rc) < k)
  right_clear k q = elim (Bool-cases (rc == 0)) [
    | inl e ↦ ground (arith, right_counts k, taken k)
    | inr e ↦ ground (arith, right_counts k, taken k, v.tagged.apart (h + c) k)
  ]

module _ {p : SpanPool} (v : IsValid p) (h c : ℕ) (pos : c ≢ 0) (fits : h + c ≤ p.num_spans)
    (taken : (k : ℕ) → p.head_count.at k ≢ 0 → (k + p.head_count.at k ≤ h) ⊎ (h + c < k)) where
  abbrev pub lc : ℕ
  lc = if ltb 0 h then p.tail_count.at (h - 1) else 0

  -- The pool after the left neighbour.
  abbrev pub left : SpanPool
  left = if lc == 0 then p else unlinked p (h - lc) lc

  pub left_run : lc ≢ 0 → (lc ≤ h) × (p.head_count.at (h - lc) ≡ lc)
  left_run q = ground (arith, v.tagged.head_of_tail (h - 1))

  left_tag : 0 < h → lc ≡ p.tail_count.at (h - 1)
  left_tag l = ground arith

  left_start : sub_u32 h lc ≡ h - lc
  left_start = ground (arith, left_run, fits, v.sized.spans_fit)

  left_count : add_u32 c lc ≡ c + lc
  left_count = ground (arith, left_run, fits, v.sized.spans_fit)

  left_unlink : lc ≢ 0 → unlink p (h - lc) lc ≡ some (unlinked p (h - lc) lc)
  left_unlink q = unlink-unlinked v (h - lc) lc (left_run q).1 q

  absorb_left-some : 0 < h → absorb_left p h c ≡ some (h - lc, c + lc, left)
  unfolding absorb_left
  absorb_left-some l =
      let inside : h - 1 < p.tail_count.len = omega (arith, v.sized.tail_count_len, fits) in
      let before : sub_u32 h 1 ≡ h - 1 = omega (arith, fits, v.sized.spans_fit) in
      let go : ltb 0 h ≡ true = ground arith in
      rw (go, before, read-ok p.tail_count (h - 1) inside, ← left_tag l)
        (elim (Bool-cases (lc == 0)) [
          | inl e ↦
              let start : h - lc ≡ h = ground arith in
              let count : c + lc ≡ c = ground arith in rw (e, start, count)
          | inr e ↦ rw (e, left_start, left_count, left_unlink (ground arith))
        ])

  pub absorb_left-eq : absorb_left p h c ≡ some (h - lc, c + lc, left)
  unfolding absorb_left
  absorb_left-eq = elim (Bool-cases (ltb 0 h)) [
    | inl l ↦ absorb_left-some (ground arith)
    | inr l ↦ ground arith
  ]

  pub left-IsValid : IsValid left
  left-IsValid = elim (Bool-cases (lc == 0)) [
    | inl e ↦ rw e v
    | inr e ↦ rw e (unlinked-IsValid v (h - lc) lc (left_run (ground arith)).1 (ground arith))
  ]

  pub left_counts :
      (k : ℕ)
      → left.head_count.at k
        ≡ (if lc == 0 then p.head_count.at k else if k == h - lc then 0 else p.head_count.at k)
  left_counts k = ground arith

  pub left-IsIsolated : IsIsolated left.head_count.at (h - lc) (c + lc)
  left-IsIsolated k q = elim (Bool-cases (lc == 0)) [
    | inl e ↦ ground (arith, left_counts k, taken k, v.tagged.tail_of_head k)
    | inr e ↦ ground (
      arith,
      left_counts k,
      taken k,
      left_run,
      v.tagged.apart k (h - lc),
      v.tagged.apart (h - lc) k,
    )
  ]
