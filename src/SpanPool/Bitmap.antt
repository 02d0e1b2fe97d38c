-- ===== src/SpanPool/Bitmap.antt =====
-- `bit_set` and `bit_clear` of toccata-core/src/spanpool.rs keep the two-level bitmap in step with
-- the buckets.
use Prim.Native.Nat.{bit_and, bit_or}
use toccata.Base.{
  ℕ, ◌/◌, ◌%◌, ◌<◌, ◌≡◌, ◌≢◌, arith, not, ◌==◌, if◌then◌else◌, inl, inr, Bool-cases, some, update,
  put, shl_u64, not_u64,
}
use toccata.Base.Bits.{
  bit, bit-or_shl, bit-and_not_shl, or_shl-lt, bit_and-lt, ne-zero_of_bit, zero-bit_and,
}
use toccata.SpanPool.{SpanPool, no_span, bit_set, bit_clear}
use toccata.SpanPool.Valid.{IsMapped}

-- The words that the two operations write.
abbrev pub with_bit : ℕ → ℕ → ℕ
with_bit x b = bit_or x (shl_u64 1 b)

abbrev pub without_bit : ℕ → ℕ → ℕ
without_bit x b = bit_and x (not_u64 (shl_u64 1 b))

-- The bitmap sees of a bucket only whether it is empty.
pub IsMapped-ext :
    {bh l0 l1 bh' l0' l1' : ℕ → ℕ}
    → IsMapped bh l0 l1
    → ((d : ℕ) → (bh' d == no_span) ≡ (bh d == no_span))
    → ((i : ℕ) → l0' i ≡ l0 i)
    → ((i : ℕ) → l1' i ≡ l1 i)
    → IsMapped bh' l0' l1'
IsMapped-ext m eb e0 e1 = record {
  l0_word = λ i. rw (e0 i) (m.l0_word i);
  l1_word = λ i. rw (e1 i) (m.l1_word i);
  l0_bit = λ c. rw (e0 (c / 64), eb c) (m.l0_bit c);
  l1_bit = λ i. rw (e1 (i / 64), e0 i) (m.l1_bit i);
}

module _ {bh l0 l1 : ℕ → ℕ} (m : IsMapped bh l0 l1) (c : ℕ) where
  abbrev grown : ℕ → ℕ
  grown = update l0 (c / 64) (with_bit (l0 (c / 64)) (c % 64))

  abbrev shrunk : ℕ → ℕ
  shrunk = update l0 (c / 64) (without_bit (l0 (c / 64)) (c % 64))

  bit-grown :
      (v : ℕ)
      → v ≢ no_span
      → (d : ℕ) → bit (grown (d / 64)) (d % 64) ≡ not (update bh c v d == no_span)
  bit-grown v ne d =
      ground
        (arith, bit-or_shl (c % 64) (d % 64) (l0 (c / 64)) (omega arith) (omega arith), m.l0_bit d)

  bit-shrunk : (d : ℕ) → bit (shrunk (d / 64)) (d % 64) ≡ not (update bh c no_span d == no_span)
  bit-shrunk d = ground (
    arith,
    bit-and_not_shl (c % 64) (d % 64) (l0 (c / 64)) (omega arith) (omega arith),
    m.l0_bit d,
  )

  grown_summary :
      (i : ℕ)
      → bit (update l1 (c / 64 / 64) (with_bit (l1 (c / 64 / 64)) (c / 64 % 64)) (i / 64)) (i % 64)
        ≡ not (grown i == 0)
  grown_summary i = ground (
    arith,
    bit-or_shl (c / 64 % 64) (i % 64) (l1 (c / 64 / 64)) (omega arith) (omega arith),
    m.l1_bit i,
    bit-or_shl (c % 64) (c % 64) (l0 (c / 64)) (omega arith) (omega arith),
    ne-zero_of_bit (with_bit (l0 (c / 64)) (c % 64)) (c % 64),
  )

  -- The summary after `bit_clear`: its bit goes only with the last bit of the word.
  abbrev shrunk_l1 : ℕ → ℕ
  shrunk_l1 =
      if shrunk (c / 64) == 0
      then update l1 (c / 64 / 64) (without_bit (l1 (c / 64 / 64)) (c / 64 % 64))
      else l1

  shrunk_summary : (i : ℕ) → bit (shrunk_l1 (i / 64)) (i % 64) ≡ not (shrunk i == 0)
  shrunk_summary i = elim (Bool-cases (shrunk (c / 64) == 0)) [
    | inl e ↦ rw e (
        ground (
          arith,
          bit-and_not_shl (c / 64 % 64) (i % 64) (l1 (c / 64 / 64)) (omega arith) (omega arith),
          m.l1_bit i,
        ))
    | inr e ↦ rw e (ground (arith, m.l1_bit i, zero-bit_and (not_u64 (shl_u64 1 (c % 64)))))
  ]

  pub grown-IsMapped :
      (v : ℕ)
      → v ≢ no_span
      → IsMapped
          (update bh c v)
          grown
          (update l1 (c / 64 / 64) (with_bit (l1 (c / 64 / 64)) (c / 64 % 64)))
  grown-IsMapped v ne = record {
    l0_word =
        λ i. ground (arith, m.l0_word i, or_shl-lt (c % 64) (l0 (c / 64)) (m.l0_word (c / 64)));
    l1_word = λ i.
        ground (
          arith,
          m.l1_word i,
          or_shl-lt (c / 64 % 64) (l1 (c / 64 / 64)) (m.l1_word (c / 64 / 64)),
        );
    l0_bit = bit-grown v ne;
    l1_bit = grown_summary;
  }

  pub shrunk-IsMapped : IsMapped (update bh c no_span) shrunk shrunk_l1
  shrunk-IsMapped = record {
    l0_word = λ i. ground (
      arith,
      m.l0_word i,
      bit_and-lt 64 (l0 (c / 64)) (not_u64 (shl_u64 1 (c % 64))) (m.l0_word (c / 64)),
    );
    l1_word = λ i. ground (
      arith,
      m.l1_word i,
      bit_and-lt 64 (l1 (c / 64 / 64)) (not_u64 (shl_u64 1 (c / 64 % 64)))
          (m.l1_word (c / 64 / 64)),
    );
    l0_bit = bit-shrunk;
    l1_bit = shrunk_summary;
  }

-- The pool after `bit_set` and after `bit_clear`.
abbrev pub with_bucket : SpanPool → ℕ → SpanPool
with_bucket p c = record p {
  l0 = put p.l0 (c / 64) (with_bit (p.l0.at (c / 64)) (c % 64));
  l1 = put p.l1 (c / 64 / 64) (with_bit (p.l1.at (c / 64 / 64)) (c / 64 % 64));
}

abbrev pub without_bucket : SpanPool → ℕ → SpanPool
without_bucket p c = record p {
  l0 = put p.l0 (c / 64) (without_bit (p.l0.at (c / 64)) (c % 64));
  l1 =
      if without_bit (p.l0.at (c / 64)) (c % 64) == 0
      then put p.l1 (c / 64 / 64) (without_bit (p.l1.at (c / 64 / 64)) (c / 64 % 64))
      else p.l1;
}

module _ (p : SpanPool) (c : ℕ) (in0 : c / 64 < p.l0.len) (in1 : c / 64 / 64 < p.l1.len) where
  pub bit_set-eq : bit_set p c ≡ some (with_bucket p c)
  unfolding bit_set
  bit_set-eq = ground arith

  pub bit_clear-eq : bit_clear p c ≡ some (without_bucket p c)
  unfolding bit_clear
  bit_clear-eq = ground arith
