-- ===== src/SpanPool/Unlink.antt =====
-- `unlink` of toccata-core/src/spanpool.rs: the pool that it leaves, and that a free run may be
-- taken out of the middle of its bucket.
use toccata.Base.{
  ℕ, ◌+◌, ◌-◌, ◌≤◌, ◌<◌, ◌≡◌, ◌≢◌, arith, ◌&&◌, ◌==◌, if◌then◌else◌, inl, inr, Bool-cases, some,
  update, put,
}
use toccata.SpanPool.{SpanPool, no_span, unlink}
use toccata.SpanPool.Valid.{IsTagged, IsLinked, IsValid}
use toccata.SpanPool.Bitmap.{without_bucket, IsMapped-ext, shrunk-IsMapped}
use toccata.SpanPool.Link.{last_span-eq, ne-no_span}

module _ {hc bh nx pv age : ℕ → ℕ} {clock : ℕ} (v : IsLinked hc bh nx pv age clock)
    (ne : (x : ℕ) → hc x ≢ 0 → x ≢ no_span) (h c : ℕ) (run : hc h ≡ c) (pos : c ≢ 0)
    (bh' nx' pv' : ℕ → ℕ)
    (bh'_lem : (d : ℕ) → bh' d ≡ (if pv h == no_span then update bh c (nx h) d else bh d))
    (nx'_lem : (x : ℕ)
      → nx' x
        ≡ (if x == h then no_span else if pv h == no_span then nx x else update nx (pv h) (nx h) x))
    (pv'_lem : (x : ℕ)
      → pv' x ≡ (
          if x == h
          then no_span
          else if nx h == no_span
          then pv x
          else update pv (nx h) (pv h) x)) where
  abbrev hc' : ℕ → ℕ
  hc' = update hc h 0

  after' :
      (x : ℕ)
      → hc' x ≢ 0
      → nx' x ≢ no_span
      → (hc' (nx' x) ≡ hc' x) × (pv' (nx' x) ≡ x) × (age (nx' x) < age x)
  after' x p q = elim (Bool-cases (x == pv h)) [
    | inl e ↦
        ground (arith, nx'_lem x, v.before h, v.after x, v.after h, ne h, ne x, pv'_lem (nx h))
    | inr e ↦ ground (arith, nx'_lem x, v.after x, v.after h, ne h, ne x, pv'_lem (nx x))
  ]

  before' : (x : ℕ) → hc' x ≢ 0 → pv' x ≢ no_span → (hc' (pv' x) ≡ hc' x) × (nx' (pv' x) ≡ x)
  before' x p q = elim (Bool-cases (x == nx h)) [
    | inl e ↦
        ground (arith, pv'_lem x, v.before h, v.after (pv h), v.after h, ne h, ne x, nx'_lem (pv h))
    | inr e ↦ ground (arith, pv'_lem x, v.before x, v.before h, ne h, ne x, nx'_lem (pv x))
  ]

  first' : (x : ℕ) → hc' x ≢ 0 → pv' x ≡ no_span → bh' (hc' x) ≡ x
  first' x p q =
      ground (arith, pv'_lem x, bh'_lem (hc x), v.first x, v.first h, v.after h, ne h, ne x)

  bucket' : (d : ℕ) → bh' d ≢ no_span → (hc' (bh' d) ≡ d) × (pv' (bh' d) ≡ no_span) × (d ≢ 0)
  bucket' d q =
      ground (arith, bh'_lem d, v.bucket d, v.after h, ne h, pv'_lem (nx h), pv'_lem (bh d))

  unlinked-IsLinked : IsLinked hc' bh' nx' pv' age clock
  unlinked-IsLinked = record {
    after = after';
    before = before';
    first = first';
    bucket = bucket';
    young = λ x p. ground (arith, v.young x);
  }

unlinked-IsTagged :
    {n : ℕ} {hc tc : ℕ → ℕ} (h c : ℕ)
    → IsTagged n hc tc
    → hc h ≡ c
    → c ≢ 0
    → IsTagged n (update hc h 0) (update tc (h + c - 1) 0)
unlinked-IsTagged h c t run pos = record {
  in_grid = λ x p. ground (arith, t.in_grid x);
  tail_of_head = λ x p. ground (arith, t.tail_of_head x, t.apart x h, t.apart h x);
  head_of_tail = λ x p. ground (arith, t.head_of_tail x);
  apart = λ x y p q l. ground (arith, t.apart x y);
}

-- The pool that `unlink` leaves.
abbrev pub unlinked : SpanPool → ℕ → ℕ → SpanPool
unlinked p h c = record p {
  bucket_head = if before == no_span then put p.bucket_head c after else p.bucket_head;
  next = put (if before == no_span then p.next else put p.next before after) h no_span;
  prev = put (if after == no_span then p.prev else put p.prev after before) h no_span;
  head_count = put p.head_count h 0;
  tail_count = put p.tail_count (h + c - 1) 0;
  l0 = if (before == no_span) && (after == no_span) then (without_bucket p c).l0 else p.l0;
  l1 = if (before == no_span) && (after == no_span) then (without_bucket p c).l1 else p.l1;
}
  where
    before : ℕ
    before = p.prev.at h

    after : ℕ
    after = p.next.at h

module _ {p : SpanPool} (v : IsValid p) (h c : ℕ) (run : p.head_count.at h ≡ c) (pos : c ≢ 0) where
  fits : h + c ≤ p.num_spans
  fits = ground (arith, v.tagged.in_grid h)

  -- `unlink` does not panic on a free run.
  pub unlink-unlinked : unlink p h c ≡ some (unlinked p h c)
  unfolding unlink
  unlink-unlinked = rw (last_span-eq h c p.num_spans pos fits v.sized.spans_fit) (
      ground (
        arith,
        v.linked.before h,
        v.linked.after h,
        v.sized,
        fits,
        ne-no_span v h,
        v.tagged.in_grid (p.prev.at h),
        v.tagged.in_grid (p.next.at h),
      ))

  -- Taking a free run out keeps the pool valid.
  pub unlinked-IsValid : IsValid (unlinked p h c)
  unlinked-IsValid = record {
    age = v.age;
    clock = v.clock;
    sized = ground (arith, v.sized);
    tagged = unlinked-IsTagged h c v.tagged run pos;
    linked =
        unlinked-IsLinked v.linked (ne-no_span v) h c run pos _ _ _ (λ d. ground arith)
          (λ x. ground arith) (λ x. ground arith);
    mapped = elim (Bool-cases ((p.prev.at h == no_span) && (p.next.at h == no_span))) [
      | inl e ↦
          IsMapped-ext (shrunk-IsMapped v.mapped c) (λ d. ground arith) (λ i. ground arith)
            (λ i. ground arith)
      | inr e ↦
          IsMapped-ext v.mapped (λ d. ground (arith, v.linked.first h, ne-no_span v h))
            (λ i. ground arith) (λ i. ground arith)
    ];
  }
