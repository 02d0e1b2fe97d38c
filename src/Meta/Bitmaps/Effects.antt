-- ===== src/Meta/Bitmaps/Effects.antt =====
-- What each operation on the bitmaps of toccata-core/src/meta.rs does to the set of free slots.
use Prim.Native.Nat.{bit_and, bit_or}
use toccata.Base.{
  ℕ, ◌*◌, ◌/◌, ◌%◌, ◌^◌, ◌<◌, ◌≡◌, ◌≢◌, refl, arith, not, ◌&&◌, ◌||◌, some, ◌==◌, Bool, put,
  shl_u64, not_u64, inl, inr, Bool-cases,
}
use toccata.Base.Bits.{bit, bit-bit_or, bit-bit_and, bit-not_u64, bit-zero, bit_or-lt}
use toccata.Meta.Bitmaps.{
  SpanBitmaps, set, set_mask, fold_free_word, alloc_set_mask, alloc_clear, word_at,
}

-- The bitmaps of `n` spans, all of whose words have 64 digits.
pub record IsValid (n : ℕ) (p : SpanBitmaps) : Type 0 where
  pub alloc_len : p.alloc_words.len ≡ n * 128
  pub free_len : p.free_words.len ≡ n * 128
  pub next_len : p.next_active.len ≡ n
  pub on_list_len : p.on_list.len ≡ n
  pub alloc_wide : (i : ℕ) → p.alloc_words.at i < 2 ^ 64
  pub free_wide : (i : ℕ) → p.free_words.at i < 2 ^ 64

-- The slot is free: its owner may hand it out, or another thread has deposited it.
unfoldable pub free_bit : SpanBitmaps → ℕ → ℕ → Bool
free_bit p idx slot =
    bit (p.alloc_words.at (word_at idx (slot / 64))) (slot % 64)
    || bit (p.free_words.at (word_at idx (slot / 64))) (slot % 64)

same_word :
    (j t i w : ℕ)
    → t < 8192
    → w < 128
    → (word_at j (t / 64) == word_at i w) ≡ ((j == i) && (t / 64 == w))
same_word j t i w l u = ground arith

-- The bitmaps with one word replaced.
abbrev pub with_alloc : SpanBitmaps → ℕ → ℕ → SpanBitmaps
with_alloc p i v = record p { alloc_words = put p.alloc_words i v }

abbrev pub with_free : SpanBitmaps → ℕ → ℕ → SpanBitmaps
with_free p i v = record p { free_words = put p.free_words i v }

pub with_alloc-IsValid :
    {n : ℕ} {p : SpanBitmaps} (i v : ℕ) → v < 2 ^ 64 → IsValid n p → IsValid n (with_alloc p i v)
with_alloc-IsValid i v h w = record {
  alloc_len = w.alloc_len;
  free_len = w.free_len;
  next_len = w.next_len;
  on_list_len = w.on_list_len;
  alloc_wide = λ k. ground (arith, w.alloc_wide k);
  free_wide = w.free_wide;
}

pub with_free-IsValid :
    {n : ℕ} {p : SpanBitmaps} (i v : ℕ) → v < 2 ^ 64 → IsValid n p → IsValid n (with_free p i v)
with_free-IsValid i v h w = record {
  alloc_len = w.alloc_len;
  free_len = w.free_len;
  next_len = w.next_len;
  on_list_len = w.on_list_len;
  alloc_wide = w.alloc_wide;
  free_wide = λ k. ground (arith, w.free_wide k);
}

-- `q` is what folding word `w` of the span leaves: the same slots are free, and all that are free in
-- that word are its owner's.
pub record Folded (n : ℕ) (p : SpanBitmaps) (idx w word : ℕ) (q : SpanBitmaps) : Type 0 where
  pub valid : IsValid n q
  pub same_slots : (j t : ℕ) → t < 8192 → free_bit q j t ≡ free_bit p j t
  pub drained : q.free_words.at (word_at idx w) ≡ 0
  pub kept : q.alloc_words.at (word_at idx w) ≡ word
  pub others : (i : ℕ) → i ≢ word_at idx w → q.free_words.at i ≡ p.free_words.at i
  pub same_base : q.base ≡ p.base
  pub same_links : q.next_active ≡ p.next_active
  pub same_marks : q.on_list ≡ p.on_list

module _ {n : ℕ} {p : SpanBitmaps} (v : IsValid n p) (idx w : ℕ) (l : idx < n) (u : w < 128) where
  pub alloc-inside : word_at idx w < p.alloc_words.len
  alloc-inside = omega (arith, v.alloc_len)

  pub free-inside : word_at idx w < p.free_words.len
  free-inside = omega (arith, v.free_len)

  pub set_mask-eq :
      (mask : ℕ)
      → set_mask p idx w mask
        ≡ some (with_free p (word_at idx w) (bit_or (p.free_words.at (word_at idx w)) mask))
  unfolding set_mask
  set_mask-eq mask = ground (arith, free-inside)

  pub set_mask-free_bit :
      (mask j t : ℕ)
      → t < 8192
      → free_bit (with_free p (word_at idx w) (bit_or (p.free_words.at (word_at idx w)) mask)) j t
        ≡ (free_bit p j t || ((j == idx) && (t / 64 == w) && bit mask (t % 64)))
  unfolding free_bit
  set_mask-free_bit mask j t h =
      ground (arith, bit-bit_or (t % 64) (p.free_words.at (word_at idx w)) mask)

  pub set-eq :
      (slot : ℕ)
      → slot / 64 ≡ w
      → set p idx slot
        ≡ some (
            with_free p
              (word_at idx w)
              (bit_or (p.free_words.at (word_at idx w)) (shl_u64 1 (slot % 64))))
  unfolding set
  set-eq slot e = rw e (ground (arith, free-inside))

  merged : SpanBitmaps
  merged =
      with_alloc (with_free p (word_at idx w) 0) (word_at idx w)
        (bit_or (p.alloc_words.at (word_at idx w)) (p.free_words.at (word_at idx w)))

  merged-IsValid : IsValid n merged
  unfolding merged
  merged-IsValid =
      with_alloc-IsValid (word_at idx w) _ (bit_or-lt 64 _ _ (v.alloc_wide _) (v.free_wide _))
        (with_free-IsValid (word_at idx w) 0 (omega arith) v)

  pub fold_free_word-Folded :
      (word : ℕ) × (q : SpanBitmaps) × (fold_free_word p idx w ≡ some (word, q))
      × Folded n p idx w word q
  unfolding fold_free_word merged free_bit
  fold_free_word-Folded = elim (Bool-cases (p.free_words.at (word_at idx w) == 0)) [
    | inl e ↦ (
      p.alloc_words.at (word_at idx w),
      p,
      ground (arith, alloc-inside, free-inside, e),
      record {
        valid = v;
        same_slots = λ j t h. refl;
        drained = ground (arith, e);
        kept = refl;
        others = λ i ne. refl;
        same_base = refl;
        same_links = refl;
        same_marks = refl;
      },
    )
    | inr e ↦ (
      bit_or (p.alloc_words.at (word_at idx w)) (p.free_words.at (word_at idx w)),
      merged,
      ground (arith, alloc-inside, free-inside, e),
      record {
        valid = merged-IsValid;
        same_slots = λ j t h. ground (
          arith,
          bit-bit_or (t % 64) (p.alloc_words.at (word_at idx w)) (p.free_words.at (word_at idx w)),
          bit-zero (t % 64),
        );
        drained = ground arith;
        kept = ground arith;
        others = λ i ne. ground arith;
        same_base = refl;
        same_links = refl;
        same_marks = refl;
      },
    )
  ]

  pub alloc_set_mask-eq :
      (mask : ℕ)
      → alloc_set_mask p idx w mask
        ≡ some (with_alloc p (word_at idx w) (bit_or (p.alloc_words.at (word_at idx w)) mask))
  unfolding alloc_set_mask
  alloc_set_mask-eq mask = ground (arith, alloc-inside)

  pub alloc_set_mask-free_bit :
      (mask j t : ℕ)
      → t < 8192
      → free_bit (with_alloc p (word_at idx w) (bit_or (p.alloc_words.at (word_at idx w)) mask)) j t
        ≡ (free_bit p j t || ((j == idx) && (t / 64 == w) && bit mask (t % 64)))
  unfolding free_bit
  alloc_set_mask-free_bit mask j t h =
      ground (arith, bit-bit_or (t % 64) (p.alloc_words.at (word_at idx w)) mask)

  pub alloc_clear-eq :
      (taken : ℕ)
      → alloc_clear p idx w taken
        ≡ some (
            with_alloc p
              (word_at idx w)
              (bit_and (p.alloc_words.at (word_at idx w)) (not_u64 taken)))
  unfolding alloc_clear
  alloc_clear-eq taken = ground (arith, alloc-inside)

  pub alloc_clear-free_bit :
      (taken j t : ℕ)
      → p.free_words.at (word_at idx w) ≡ 0
      → taken < 2 ^ 64
      → t < 8192
      → free_bit
          (with_alloc p
            (word_at idx w)
            (bit_and (p.alloc_words.at (word_at idx w)) (not_u64 taken)))
          j
          t
        ≡ (free_bit p j t && not ((j == idx) && (t / 64 == w) && bit taken (t % 64)))
  unfolding free_bit
  alloc_clear-free_bit taken j t z l h = ground (
    arith,
    z,
    bit-zero (t % 64),
    bit-bit_and (t % 64) (p.alloc_words.at (word_at idx w)) (not_u64 taken),
    bit-not_u64 (t % 64) taken l (omega arith),
  )
