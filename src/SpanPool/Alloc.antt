-- ===== src/SpanPool/Alloc.antt =====
-- `alloc` of toccata-core/src/spanpool.rs: best fit, splitting off the tail of a larger run.
use toccata.Base.{
  ℕ, zero, suc, ◌+◌, ◌-◌, ◌≤◌, ◌<◌, ◌≡◌, ◌≢◌, refl, arith, ◌&&◌, ◌==◌, ltb, if◌then◌else◌, inl, inr,
  Bool-cases, ◌||◌, Option, none, some, false, read-ok, add_u32, sub_u32,
}
use toccata.SpanPool.{SpanPool, no_span, alloc, take_from, link, find_first_set_ge}
use toccata.SpanPool.Valid.{IsLinked, IsValid}
use toccata.SpanPool.Find.{IsLowestFrom, find_first_set_ge-Finds}
use toccata.SpanPool.Link.{IsIsolated, ne-no_span, bucket_run, linked, link-linked, linked-IsValid}
use toccata.SpanPool.Unlink.{unlinked, unlink-unlinked, unlinked-IsValid}

false_of_ne : {a b : ℕ} → a ≢ b → (a == b) ≡ false
false_of_ne h = ground arith

-- The bucket of a free run is not empty: along `prev` the ages grow, so that the walk ends.
bucket_of_run :
    {hc bh nx pv age : ℕ → ℕ} {clock : ℕ} (v : IsLinked hc bh nx pv age clock)
    → ((x : ℕ) → hc x ≢ 0 → x ≢ no_span)
    → (fuel h : ℕ) → clock ≤ age h + fuel
    → hc h ≢ 0
    → bh (hc h) ≢ no_span
bucket_of_run v ne zero h l q = absurd (omega (arith, v.young h q))
bucket_of_run {pv} v ne (suc fuel) h l q = elim (Bool-cases (pv h == no_span)) [
  | inl e ↦ ground (arith, v.first h, ne h)
  | inr e ↦ ground (arith, v.before h, v.after (pv h), ne h, bucket_of_run v ne fuel (pv h))
]

pub bucket-ne-no_span :
    {p : SpanPool} (v : IsValid p) (h : ℕ)
    → p.head_count.at h ≢ 0
    → p.bucket_head.at (p.head_count.at h) ≢ no_span
bucket-ne-no_span v h q = bucket_of_run v.linked (ne-no_span v) v.clock h (omega arith) q

top_bucket : {p : SpanPool} (v : IsValid p) (c : ℕ) → p.bucket_head.at c ≢ no_span → c ≤ p.num_spans
top_bucket v c q = omega (arith, bucket_run v c q)

-- On a valid pool the two-level bitmap search never panics, and it returns the lowest bucket from `c`
-- on that holds a run, or that no bucket from `c` on does.
pub find_first_set_ge-IsLowestFrom :
    {p : SpanPool} (c : ℕ)
    → IsValid p
    → (r : Option ℕ) × (find_first_set_ge p c ≡ some r) × IsLowestFrom p.bucket_head.at c r
find_first_set_ge-IsLowestFrom {p} c v = find_first_set_ge-Finds p v.sized v.mapped (top_bucket v) c

-- What a successful `alloc` of `n` spans at `h` did to the pool: it took the lower part of a free
-- run, of the least count that is large enough.
pub record Carved (p : SpanPool) (n h : ℕ) (q : SpanPool) : Type 0 where
  pub valid : IsValid q
  pub same_spans : q.num_spans ≡ p.num_spans
  pub fits : n ≤ p.head_count.at h
  pub least :
      (k : ℕ)
      → p.head_count.at k ≢ 0
      → n ≤ p.head_count.at k
      → p.head_count.at h ≤ p.head_count.at k
  pub counts :
      (k : ℕ)
      → q.head_count.at k ≡ (
          if (k == h + n) && ltb n (p.head_count.at h)
          then p.head_count.at h - n
          else if k == h
          then 0
          else p.head_count.at k)

module _ {p : SpanPool} (v : IsValid p) (n m : ℕ) (pos : n ≢ 0) (le : n ≤ m)
    (full : p.bucket_head.at m ≢ no_span)
    (least : (d : ℕ) → n ≤ d → d < m → p.bucket_head.at d ≡ no_span) where
  abbrev head : ℕ
  head = p.bucket_head.at m

  run : p.head_count.at head ≡ m
  run = (bucket_run v m full).0

  fits : head + m ≤ p.num_spans
  fits = (bucket_run v m full).2

  rest-IsIsolated : n < m → IsIsolated (unlinked p head m).head_count.at (head + n) (m - n)
  rest-IsIsolated l k q = ground (arith, v.tagged.apart k head, v.tagged.apart head k, run)

  least_run : (k : ℕ) → p.head_count.at k ≢ 0 → n ≤ p.head_count.at k → m ≤ p.head_count.at k
  least_run k q l = ground (arith, least (p.head_count.at k), bucket-ne-no_span v k)

  -- The pool behind a hit in bucket `m`.
  abbrev taken : SpanPool
  taken = if ltb n m then linked (unlinked p head m) (head + n) (m - n) else unlinked p head m

  rest_start : n < m → add_u32 head n ≡ head + n
  rest_start l = omega (arith, fits, v.sized.spans_fit)

  rest_count : n < m → sub_u32 m n ≡ m - n
  rest_count l = omega (arith, fits, v.sized.spans_fit)

  link-rest :
      n < m
      → link (unlinked p head m) (head + n) (m - n)
        ≡ some (linked (unlinked p head m) (head + n) (m - n))
  link-rest l =
      link-linked (unlinked-IsValid v head m run (omega arith)) (head + n) (m - n) (omega arith)
        (omega (arith, fits)) (rest-IsIsolated l)

  take_from-taken : take_from p n m ≡ some (some head, taken)
  unfolding take_from
  take_from-taken =
      rw
        (
          read-ok p.bucket_head m (omega (arith, fits, v.sized.bucket_head_len)),
          unlink-unlinked v head m run (omega arith),
        )
        (rw (false_of_ne full) (elim (Bool-cases (ltb n m)) [
          | inl l ↦
              rw (l, rest_start (ground arith), rest_count (ground arith), link-rest (ground arith))
          | inr l ↦ rw l
        ]))

  taken-Carved : Carved p n head taken
  taken-Carved = elim (Bool-cases (ltb n m)) [
    | inl l ↦ rw l (record {
      valid =
          linked-IsValid (unlinked-IsValid v head m run (omega arith)) (head + n) (m - n)
            (ground arith) (omega (arith, fits)) (rest-IsIsolated (ground arith));
      same_spans = refl;
      fits = omega (arith, run);
      least = λ k q b. omega (arith, run, least_run k q b);
      counts = λ k. ground (arith, run);
    })
    | inr l ↦ rw l (record {
      valid = unlinked-IsValid v head m run (omega arith);
      same_spans = refl;
      fits = omega (arith, run);
      least = λ k q b. omega (arith, run, least_run k q b);
      counts = λ k. ground (arith, run);
    })
  ]

-- What `alloc` returns, and why.
pub data Allocates (p : SpanPool) (n : ℕ) : Option (Option ℕ × SpanPool) → Type 0 where
  exhausted :
      ((k : ℕ) → p.head_count.at k ≢ 0 → p.head_count.at k < n) → Allocates p n (some (none, p))
  carved : (h : ℕ) (q : SpanPool) → Carved p n h q → Allocates p n (some (some h, q))

-- On a valid pool `alloc` of `n` spans, `n` not 0, never panics. It fails only where every free run
-- is too short, and then it changes nothing; otherwise it takes the lower `n` spans of a shortest
-- free run that is long enough, and leaves a valid pool.
pub alloc-Allocates : {p : SpanPool} (n : ℕ) → IsValid p → n ≢ 0 → Allocates p n (alloc p n)
unfolding alloc
alloc-Allocates {p} n v pos = elim (Bool-cases ((n == 0) || ltb p.num_spans n)) [
  | inl e ↦ rw e (exhausted λ k q. ground (arith, v.tagged.in_grid k q))
  | inr e ↦ rw e (let (r, eq, low) = find_first_set_ge-IsLowestFrom n v in rw eq (by_case r low))
]
  where
    by_case :
        (r : Option ℕ)
        → IsLowestFrom p.bucket_head.at n r
        → Allocates p n (elim r [ none ↦ some (none, p) | some m ↦ take_from p n m ])
    by_case none low =
        exhausted λ k q. ground (arith, low (p.head_count.at k), bucket-ne-no_span v k)
    by_case (some m) (le, full, least) =
        rw (take_from-taken v n m pos le full least)
          (carved _ _ (taken-Carved v n m pos le full least))
