-- ===== src/SpanPool/Find.antt =====
-- `find_first_set_ge` of toccata-core/src/spanpool.rs against the buckets: the two-level search is
-- a linear search for the lowest bucket that holds a run.
use Prim.Native.Nat.{bit_and}
use toccata.Base.{
  ℕ, zero, suc, ◌+◌, ◌*◌, ◌/◌, ◌%◌, ◌^◌, ◌≤◌, ◌<◌, ◌≡◌, ◌≢◌, refl, arith, ◌&&◌, ◌||◌, ◌==◌, ltb,
  leb, inl, inr, Bool-cases, Option, none, some, true, false, shl_u64, u64_max, trailing_zeros,
  read-ok,
}
use toccata.Base.Bits.{bit, bit-and_mask, bit_and-lt, bit-zero, trailing_zeros-IsLowest}
use toccata.SpanPool.{
  SpanPool, no_span, find_first_set_ge, next_word, scan_l1, first_in_word, bucket_at,
}
use toccata.SpanPool.Valid.{IsSized, IsMapped}

-- No bucket from `c` on holds a run, or `m` is the lowest that does.
abbrev pub IsLowestFrom : (ℕ → ℕ) → ℕ → Option ℕ → Type 0
IsLowestFrom bh c none = (d : ℕ) → c ≤ d → bh d ≡ no_span
IsLowestFrom bh c (some m) = (c ≤ m) × (bh m ≢ no_span) × ((d : ℕ) → c ≤ d → d < m → bh d ≡ no_span)

module _ (p : SpanPool) (s : IsSized p) (m : IsMapped p.bucket_head.at p.l0.at p.l1.at)
    (top : (c : ℕ) → p.bucket_head.at c ≢ no_span → c ≤ p.num_spans) (c : ℕ) where
  abbrev Finds : Option (Option ℕ) → Type 0
  Finds o = (r : Option ℕ) × (o ≡ some r) × IsLowestFrom p.bucket_head.at c r

  -- The buckets from `c` on that lie in words below `i` are empty.
  abbrev Clear : ℕ → Type 0
  Clear i = (d : ℕ) → c ≤ d → d / 64 < i → p.bucket_head.at d ≡ no_span

  empty_of_bit : (d : ℕ) → bit (p.l0.at (d / 64)) (d % 64) ≡ false → p.bucket_head.at d ≡ no_span
  empty_of_bit d e = ground (arith, m.l0_bit d)

  empty_of_word : (d : ℕ) → p.l0.at (d / 64) ≡ 0 → p.bucket_head.at d ≡ no_span
  empty_of_word d e = empty_of_bit d (rw e (bit-zero (d % 64)))

  zero_of_bit : (i : ℕ) → bit (p.l1.at (i / 64)) (i % 64) ≡ false → p.l0.at i ≡ 0
  zero_of_bit i e = ground (arith, m.l1_bit i)

  zero_of_word : (i : ℕ) → p.l1.at (i / 64) ≡ 0 → p.l0.at i ≡ 0
  zero_of_word i e = zero_of_bit i (rw e (bit-zero (i % 64)))

  set_of_bit : (d : ℕ) → bit (p.l0.at (d / 64)) (d % 64) ≡ true → p.bucket_head.at d ≢ no_span
  set_of_bit d e = ground (arith, m.l0_bit d)

  at_word : (i k : ℕ) → k < 64 → ((i * 64 + k) / 64 ≡ i) × ((i * 64 + k) % 64 ≡ k)
  at_word i k h = (omega arith, omega arith)

  word_inside : (i : ℕ) → p.l0.at i ≢ 0 → i < p.l0.len
  word_inside i ne =
      let low = trailing_zeros-IsLowest (p.l0.at i) (m.l0_word i) ne in
      let at = at_word i (trailing_zeros (p.l0.at i)) low.inside in
      let d = i * 64 + trailing_zeros (p.l0.at i) in
      omega (arith, s.l0_len, top d (set_of_bit d (rw (at.0, at.1) low.one)), low.inside)

  summary_inside : (i : ℕ) → p.l1.at i ≢ 0 → i < p.l1.len
  summary_inside i ne =
      let low = trailing_zeros-IsLowest (p.l1.at i) (m.l1_word i) ne in
      let at = at_word i (trailing_zeros (p.l1.at i)) low.inside in
      let w = i * 64 + trailing_zeros (p.l1.at i) in
      let one : bit (p.l1.at (w / 64)) (w % 64) ≡ true = rw (at.0, at.1) low.one in
      omega (arith, s.l0_len, s.l1_len, word_inside w (ground (arith, m.l1_bit w)))

  -- The lowest one of the word `i`, above the bit `b` of the mask, is the bucket.
  hit :
      (i x : ℕ) (r : ℕ)
      → x ≢ 0
      → x < 2 ^ 64
      → ((k : ℕ) → k < 64 → bit x k ≡ true → (bit (p.l0.at i) k ≡ true) × (c ≤ i * 64 + k))
      → ((k : ℕ) → k < 64 → bit x k ≡ false → c ≤ i * 64 + k → bit (p.l0.at i) k ≡ false)
      → Clear i
      → r ≡ i * 64 + trailing_zeros x
      → IsLowestFrom p.bucket_head.at c (some r)
  hit i x r ne lt of to clear e =
      let low = trailing_zeros-IsLowest x lt ne in
      let at = at_word i (trailing_zeros x) low.inside in
      let one = of (trailing_zeros x) low.inside low.one in
      rw e (
        one.1,
        set_of_bit _ (rw (at.0, at.1) one.0),
        λ d h l. elim (Bool-cases (ltb (d / 64) i)) [
          | inl b ↦ clear d h (ground arith)
          | inr b ↦
              let e' : d / 64 ≡ i = ground arith in
              empty_of_bit d
                (rw e' (to (d % 64) (omega arith) (low.least (d % 64) (omega arith)) (omega arith)))
        ],
      )

  first_in_word-Finds : (i : ℕ) → p.l0.at i ≢ 0 → c ≤ i * 64 → Clear i → Finds (first_in_word p i)
  unfolding first_in_word
  first_in_word-Finds i ne h clear =
      let x = p.l0.at i in
      let low = trailing_zeros-IsLowest x (m.l0_word i) ne in
      (
        some (bucket_at i (trailing_zeros x)),
        rw (read-ok p.l0 i (word_inside i ne)),
        hit i x (bucket_at i (trailing_zeros x)) ne (m.l0_word i) (λ k l b. (b, omega arith))
            (λ k l b h. b) clear
            (omega (arith, word_inside i ne, s.l0_len, s.spans_fit, low.inside)),
      )

  -- The same for a bit of the summary: `x` holds the bits of the summary word `i` that the search
  -- looks at, all above the word of `c`.
  hit_summary :
      (i x : ℕ)
      → x ≢ 0
      → x < 2 ^ 64
      → ((k : ℕ) → k < 64 → bit x k ≡ true → (bit (p.l1.at i) k ≡ true) × (c / 64 < i * 64 + k))
      → ((k : ℕ) → k < 64 → bit x k ≡ false → c / 64 < i * 64 + k → bit (p.l1.at i) k ≡ false)
      → Clear (c / 64 + 1)
      → Clear (i * 64)
      → Finds (first_in_word p (i * 64 + trailing_zeros x))
  hit_summary i x ne lt of to clear below =
      let low = trailing_zeros-IsLowest x lt ne in
      let at = at_word i (trailing_zeros x) low.inside in
      let w = i * 64 + trailing_zeros x in
      let one = of (trailing_zeros x) low.inside low.one in
      let full : bit (p.l1.at (w / 64)) (w % 64) ≡ true = rw (at.0, at.1) one.0 in
      first_in_word-Finds w (ground (arith, m.l1_bit w)) (omega (arith, one.1)) λ d h l.
        elim (Bool-cases (ltb (d / 64) (c / 64 + 1) || ltb (d / 64) (i * 64))) [
          | inl b ↦ ground (arith, clear d h, below d h)
          | inr b ↦
              let v = d / 64 in
              let e : v / 64 ≡ i = ground arith in
              empty_of_word d (
                zero_of_bit v (
                  rw e
                    (to (v % 64) (omega arith) (low.least (v % 64) (omega arith)) (ground arith))))
        ]

  zero_beyond : (i : ℕ) → p.l1.len ≤ i / 64 → p.l0.at i ≡ 0
  zero_beyond i h = elim (Bool-cases (p.l1.at (i / 64) == 0)) [
    | inl z ↦ zero_of_word i (ground arith)
    | inr z ↦ absurd (omega (arith, summary_inside (i / 64) (ground arith)))
  ]

  scan_l1-Finds :
      (n li : ℕ) → li + n ≡ p.l1.len → c / 64 < li * 64 → Clear (li * 64) → Finds (scan_l1 p n li)
  unfolding scan_l1
  scan_l1-Finds zero li e h clear = (
    none,
    refl,
    λ d l. elim (Bool-cases (ltb (d / 64) (li * 64))) [
      | inl b ↦ clear d l (ground arith)
      | inr b ↦ empty_of_word d (zero_beyond (d / 64) (ground arith))
    ],
  )
  scan_l1-Finds (suc n) li e h clear =
      rw (read-ok p.l1 li (omega arith)) (elim (Bool-cases (p.l1.at li == 0)) [
        | inl z ↦ rw z (
            scan_l1-Finds n (li + 1) (omega arith) (omega arith) λ d l b.
              elim (Bool-cases (ltb (d / 64) (li * 64))) [
                | inl b' ↦ clear d l (ground arith)
                | inr b' ↦
                    let e' : d / 64 / 64 ≡ li = ground arith in
                    empty_of_word d (zero_of_word (d / 64) (rw e' (ground arith)))
              ])
        | inr z ↦ rw z (
            hit_summary li (p.l1.at li) (ground arith) (m.l1_word li) (λ k l b. (b, omega arith))
              (λ k l b h. b) (λ d l b. clear d l (omega arith)) clear)
      ])

  -- The part of the summary word of `c` that `next_word` looks at.
  abbrev masked : ℕ
  masked = bit_and (p.l1.at (c / 64 / 64)) (shl_u64 u64_max (c / 64 % 64 + 1))

  masked-bit :
      (k : ℕ) → k < 64 → bit masked k ≡ (bit (p.l1.at (c / 64 / 64)) k && leb (c / 64 % 64 + 1) k)
  masked-bit k h = bit-and_mask (c / 64 % 64 + 1) k (p.l1.at (c / 64 / 64)) h

  masked-Clear : masked ≡ 0 → Clear (c / 64 + 1) → Clear ((c / 64 / 64 + 1) * 64)
  masked-Clear z clear d l b = elim (Bool-cases (ltb (d / 64) (c / 64 + 1))) [
    | inl b' ↦ clear d l (ground arith)
    | inr b' ↦
        let v = d / 64 in
        let e : v / 64 ≡ c / 64 / 64 = ground arith in
        let none_set : bit masked (v % 64) ≡ false = rw z (bit-zero (v % 64)) in
        empty_of_word d
          (zero_of_bit v (rw e (ground (arith, masked-bit (v % 64) (omega arith), none_set))))
  ]

  next_word-Finds : c / 64 < p.l0.len → Clear (c / 64 + 1) → Finds (next_word p (c / 64))
  unfolding next_word
  next_word-Finds inside clear = elim (Bool-cases (ltb (c / 64 % 64) 63)) [
    | inl b ↦
        rw (b, read-ok p.l1 (c / 64 / 64) (omega (arith, s.l0_len, s.l1_len)))
          (elim (Bool-cases (masked == 0)) [
            | inl z ↦ rw z (
                scan_l1-Finds _ _ (omega (arith, s.l0_len, s.l1_len)) (omega arith)
                  (masked-Clear (ground arith) clear))
            | inr z ↦ rw z (
                hit_summary (c / 64 / 64) masked (ground arith)
                  (bit_and-lt 64 (p.l1.at (c / 64 / 64)) _ (m.l1_word (c / 64 / 64)))
                  (λ k l o. ground (arith, masked-bit k l))
                  (λ k l o h. ground (arith, masked-bit k l)) clear
                  (λ d l b'. clear d l (omega arith)))
          ])
    | inr b ↦ rw b (
        scan_l1-Finds _ _ (omega (arith, s.l0_len, s.l1_len)) (omega arith)
          (λ d l b'. clear d l (ground arith)))
  ]

  -- The part of the first word that the search looks at.
  abbrev first_masked : ℕ
  first_masked = bit_and (p.l0.at (c / 64)) (shl_u64 u64_max (c % 64))

  first_bit : (k : ℕ) → k < 64 → bit first_masked k ≡ (bit (p.l0.at (c / 64)) k && leb (c % 64) k)
  first_bit k h = bit-and_mask (c % 64) k (p.l0.at (c / 64)) h

  first-Clear : first_masked ≡ 0 → Clear (c / 64 + 1)
  first-Clear z d l b =
      let e : d / 64 ≡ c / 64 = omega arith in
      let none_set : bit first_masked (d % 64) ≡ false = rw z (bit-zero (d % 64)) in
      empty_of_bit d (rw e (ground (arith, first_bit (d % 64) (omega arith), none_set)))

  first_at :
      c < p.l0.len * 64
      → first_masked ≢ 0
      → bucket_at (c / 64) (trailing_zeros first_masked) ≡ c / 64 * 64 + trailing_zeros first_masked
  first_at h ne =
      let word = bit_and-lt 64 (p.l0.at (c / 64)) (shl_u64 u64_max (c % 64)) (m.l0_word (c / 64)) in
      let low = trailing_zeros-IsLowest first_masked word ne in
      omega (arith, s.l0_len, s.spans_fit, low.inside)

  -- The search never panics, and it finds the lowest bucket from `c` on that holds a run, or says
  -- that there is none.
  pub find_first_set_ge-Finds : Finds (find_first_set_ge p c)
  unfolding find_first_set_ge
  find_first_set_ge-Finds = elim (Bool-cases (leb (p.l0.len * 64) c)) [
    | inl b ↦ rw b (none, refl, λ d l. ground (arith, top d, s.l0_len))
    | inr b ↦
        rw (b, read-ok p.l0 (c / 64) (ground arith))
          (elim (Bool-cases (first_masked == 0)) [
            | inl z ↦ rw z (next_word-Finds (ground arith) (first-Clear (ground arith)))
            | inr z ↦ rw z (
              some _,
              refl,
              hit (c / 64) first_masked (bucket_at (c / 64) (trailing_zeros first_masked))
                  (ground arith) (bit_and-lt 64 (p.l0.at (c / 64)) _ (m.l0_word (c / 64)))
                  (λ k l o. ground (arith, first_bit k l))
                  (λ k l o h. ground (arith, first_bit k l)) (λ d l b'. absurd (omega arith))
                  (first_at (ground arith) (ground arith)),
            )
          ])
  ]
