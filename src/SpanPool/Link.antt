-- ===== src/SpanPool/Link.antt =====
-- `link` of toccata-core/src/spanpool.rs: the pool that it leaves, and that a run which touches no
-- free run may be filed.
use toccata.Base.{
  ℕ, ◌+◌, ◌-◌, ◌≤◌, ◌<◌, ◌≡◌, ◌≢◌, arith, ◌==◌, if◌then◌else◌, inl, inr, ◌⊎◌, Bool-cases, some,
  update, put,
}
use toccata.SpanPool.{SpanPool, no_span, last_span, link}
use toccata.SpanPool.Valid.{IsSized, IsTagged, IsLinked, IsValid}
use toccata.SpanPool.Bitmap.{with_bucket, grown-IsMapped}

module _ {hc bh nx pv age : ℕ → ℕ} {clock : ℕ} (v : IsLinked hc bh nx pv age clock)
    (ne : (x : ℕ) → hc x ≢ 0 → x ≢ no_span) (h c : ℕ) (free : hc h ≡ 0) (real : h ≢ no_span)
    (pos : c ≢ 0) (pv' : ℕ → ℕ)
    (pv'_lem : (x : ℕ)
      → pv' x ≡ (
          if bh c == no_span
          then update pv h no_span x
          else update (update pv h no_span) (bh c) h x)) where
  abbrev hc' : ℕ → ℕ
  hc' = update hc h c

  abbrev bh' : ℕ → ℕ
  bh' = update bh c h

  abbrev nx' : ℕ → ℕ
  nx' = update nx h (bh c)

  abbrev age' : ℕ → ℕ
  age' = update age h clock

  after' :
      (x : ℕ)
      → hc' x ≢ 0
      → nx' x ≢ no_span
      → (hc' (nx' x) ≡ hc' x) × (pv' (nx' x) ≡ x) × (age' (nx' x) < age' x)
  after' x p q = elim (Bool-cases (x == h)) [
    | inl e ↦ ground (arith, v.bucket c, v.young (bh c), pv'_lem (bh c))
    | inr e ↦ ground (arith, v.after x, v.bucket c, ne x, pv'_lem (nx x))
  ]

  before' : (x : ℕ) → hc' x ≢ 0 → pv' x ≢ no_span → (hc' (pv' x) ≡ hc' x) × (nx' (pv' x) ≡ x)
  before' x p q = elim (Bool-cases (x == bh c)) [
    | inl e ↦ ground (arith, v.bucket c, ne x, pv'_lem x)
    | inr e ↦ ground (arith, v.before x, ne x, pv'_lem x)
  ]

  first' : (x : ℕ) → hc' x ≢ 0 → pv' x ≡ no_span → bh' (hc' x) ≡ x
  first' x p q = ground (arith, v.first x, v.bucket c, ne x, pv'_lem x)

  bucket' : (d : ℕ) → bh' d ≢ no_span → (hc' (bh' d) ≡ d) × (pv' (bh' d) ≡ no_span) × (d ≢ 0)
  bucket' d q = ground (arith, v.bucket c, v.bucket d, pv'_lem h, pv'_lem (bh d))

  linked-IsLinked : IsLinked hc' bh' nx' pv' age' (clock + 1)
  linked-IsLinked = record {
    after = after';
    before = before';
    first = first';
    bucket = bucket';
    young = λ x p. ground (arith, v.young x);
  }

-- The run of `c` spans from `h` on neither meets nor touches a free run.
abbrev pub IsIsolated : (ℕ → ℕ) → ℕ → ℕ → Type 0
IsIsolated hc h c = (k : ℕ) → hc k ≢ 0 → (k + hc k < h) ⊎ (h + c < k)

linked-IsTagged :
    {n : ℕ} {hc tc : ℕ → ℕ} (h c : ℕ)
    → IsTagged n hc tc
    → c ≢ 0
    → h + c ≤ n
    → IsIsolated hc h c
    → IsTagged n (update hc h c) (update tc (h + c - 1) c)
linked-IsTagged h c t pos fits clear = record {
  in_grid = λ x p. ground (arith, t.in_grid x);
  tail_of_head = λ x p. ground (arith, t.tail_of_head x, clear x);
  head_of_tail = λ x p. ground (arith, t.head_of_tail x, clear h);
  apart = λ x y p q l. ground (arith, t.apart x y, clear x, clear y);
}

-- The pool that `link` leaves.
abbrev pub linked : SpanPool → ℕ → ℕ → SpanPool
linked p h c = with_bucket filed c
  where
    old : ℕ
    old = p.bucket_head.at c

    filed : SpanPool
    filed = record p {
      bucket_head = put p.bucket_head c h;
      next = put p.next h old;
      prev = if old == no_span then put p.prev h no_span else put (put p.prev h no_span) old h;
      head_count = put p.head_count h c;
      tail_count = put p.tail_count (h + c - 1) c;
    }

pub last_span-eq : (h c n : ℕ) → c ≢ 0 → h + c ≤ n → n < no_span → last_span h c ≡ h + c - 1
last_span-eq h c n pos fits small = omega arith

link-eq :
    (p : SpanPool) (h c : ℕ)
    → IsSized p
    → c ≢ 0
    → h + c ≤ p.num_spans
    → (p.bucket_head.at c ≢ no_span → p.bucket_head.at c < p.num_spans)
    → link p h c ≡ some (linked p h c)
unfolding link
link-eq p h c s pos fits old = rw (last_span-eq h c p.num_spans pos fits s.spans_fit) (ground arith)

module _ {p : SpanPool} (v : IsValid p) where
  pub ne-no_span : (x : ℕ) → p.head_count.at x ≢ 0 → x ≢ no_span
  ne-no_span x h = omega (arith, v.tagged.in_grid x h, v.sized.spans_fit)

  -- A bucket that is not empty names a free run, which lies in the grid.
  pub bucket_run :
      (c : ℕ)
      → p.bucket_head.at c ≢ no_span
      → (p.head_count.at (p.bucket_head.at c) ≡ c)
        × (c ≢ 0)
        × (p.bucket_head.at c + c ≤ p.num_spans)
  bucket_run c q = ground (arith, v.linked.bucket c q, v.tagged.in_grid (p.bucket_head.at c))

  module _ (h c : ℕ) (pos : c ≢ 0) (fits : h + c ≤ p.num_spans)
      (clear : IsIsolated p.head_count.at h c) where
    unused : p.head_count.at h ≡ 0
    unused = ground (arith, clear h)

    -- `link` does not panic on an isolated run.
    pub link-linked : link p h c ≡ some (linked p h c)
    link-linked = link-eq p h c v.sized pos fits λ q. omega (arith, bucket_run c q)

    -- Filing an isolated run keeps the pool valid.
    pub linked-IsValid : IsValid (linked p h c)
    linked-IsValid = record {
      age = update v.age h v.clock;
      clock = v.clock + 1;
      sized = ground (arith, v.sized);
      tagged = linked-IsTagged h c v.tagged pos fits clear;
      linked =
          linked-IsLinked v.linked ne-no_span h c unused (omega (arith, v.sized.spans_fit)) pos _
            λ x. ground arith;
      mapped = grown-IsMapped v.mapped c h (omega (arith, v.sized.spans_fit));
    }
