-- ===== src/Meta/Bitmaps/Refine.antt =====
-- The bitmaps of toccata-core/src/meta.rs as an implementation of a set of free slots.
use Prim.Native.Nat.{bit_and}
use toccata.Base.{
  ℕ, zero, suc, ◌+◌, ◌-◌, ◌/◌, ◌%◌, ◌^◌, ◌≤◌, ◌<◌, ◌≡◌, refl, ap, ◌∙◌, arith, not, ◌&&◌, ◌||◌,
  Option, some, ltb, leb, ◌==◌, ◌>>=◌, Bool, List, [], ◌∷◌, All, shl_u64, not_u64,
}
use toccata.Base.Bits.{bit, bit-shl_u64, bit-pow, bit-zero, bit_or-lt, bit_and-lt, shl_u64-lt}
use toccata.Meta.Bitmaps.{
  SpanBitmaps, set, set_mask, fold_free_word, alloc_set_mask, alloc_clear, reset_bitmaps,
  reset_from, word_at,
}
use toccata.Meta.Bitmaps.Effects.{
  IsValid, free_bit, with_alloc, with_free, with_alloc-IsValid, with_free-IsValid, set-eq,
  set_mask-eq, set_mask-free_bit, fold_free_word-Folded, alloc_set_mask-eq, alloc_set_mask-free_bit,
  alloc_clear-eq, alloc_clear-free_bit, alloc-inside, free-inside,
}

-- A call: a deposit of a slot or of a mask, a fold, a carver's mask, a refill that folds a word and
-- hands out some of its slots, and a reset.
pub data Op : Type 0 where
  deposits : ℕ → ℕ → Op
  deposits_mask : ℕ → ℕ → ℕ → Op
  folds : ℕ → ℕ → Op
  carves : ℕ → ℕ → ℕ → Op
  takes : ℕ → ℕ → ℕ → Op
  resets : ℕ → ℕ → Op

abbrev pub apply : SpanBitmaps → Op → Option SpanBitmaps
apply p (deposits idx slot) = set p idx slot
apply p (deposits_mask idx w mask) = set_mask p idx w mask
apply p (folds idx w) = do (word, q) ← fold_free_word p idx w; some q
apply p (carves idx w mask) = alloc_set_mask p idx w mask
apply p (takes idx w taken) = do (word, q) ← fold_free_word p idx w; alloc_clear q idx w taken
apply p (resets idx n) = reset_bitmaps p idx n

-- The call is within the bitmaps of `n` spans.
abbrev pub InBounds : ℕ → Op → Type 0
InBounds n (deposits idx slot) = (idx < n) × (slot < 8192)
InBounds n (deposits_mask idx w mask) = (idx < n) × (w < 128) × (mask < 2 ^ 64)
InBounds n (folds idx w) = (idx < n) × (w < 128)
InBounds n (carves idx w mask) = (idx < n) × (w < 128) × (mask < 2 ^ 64)
InBounds n (takes idx w taken) = (idx < n) × (w < 128) × (taken < 2 ^ 64)
InBounds n (resets idx m) = (idx < n) × (m ≤ 128)

-- The slot `t` of span `j` is one of the mask's at word `w` of span `idx`.
abbrev pub in_mask : ℕ → ℕ → ℕ → ℕ → ℕ → Bool
in_mask idx w mask j t = (j == idx) && (t / 64 == w) && bit mask (t % 64)

-- What the call does to the set, at slot `t` of span `j`.
abbrev pub effect : Op → ℕ → ℕ → Bool → Bool
effect (deposits idx slot) j t b = b || ((j == idx) && (t == slot))
effect (deposits_mask idx w mask) j t b = b || in_mask idx w mask j t
effect (folds idx w) j t b = b
effect (carves idx w mask) j t b = b || in_mask idx w mask j t
effect (takes idx w taken) j t b = b && not (in_mask idx w taken j t)
effect (resets idx m) j t b = b && not ((j == idx) && ltb (t / 64) m)

pub record Applied (n : ℕ) (p : SpanBitmaps) (op : Op) (q : SpanBitmaps) : Type 0 where
  pub valid : IsValid n q
  pub slots : (j t : ℕ) → t < 8192 → free_bit q j t ≡ effect op j t (free_bit p j t)

reset_from-lem :
    (m w idx : ℕ) {n : ℕ} {p : SpanBitmaps}
    → IsValid n p
    → idx < n
    → w + m ≤ 128
    → (q : SpanBitmaps) × (reset_from p idx m w ≡ some q)
      × IsValid n q
      × ((j t : ℕ)
          → t < 8192
          → free_bit q j t
            ≡ (free_bit p j t && not ((j == idx) && leb w (t / 64) && ltb (t / 64) (w + m))))
unfolding reset_from free_bit
reset_from-lem zero w idx {n} {p} v l u = (p, refl, v, λ j t h. ground arith)
reset_from-lem (suc m) w idx {n} {p} v l u =
    let i = word_at idx w in
    let after : IsValid n (with_free (with_alloc p i 0) i 0) =
      with_free-IsValid i 0 (omega arith) (with_alloc-IsValid i 0 (omega arith) v) in
    let (q, e, valid, slots) = reset_from-lem m (w + 1) idx after l (omega arith) in
    (
      q,
      ground (arith, alloc-inside v idx w l (omega arith), free-inside v idx w l (omega arith), e),
      valid,
      λ j t h. ground (arith, slots j t h, bit-zero (t % 64)),
    )

module _ {n : ℕ} {p : SpanBitmaps} (v : IsValid n p) where
  apply-Applied :
      (op : Op) → InBounds n op → (q : SpanBitmaps) × (apply p op ≡ some q) × Applied n p op q
  unfolding reset_bitmaps
  apply-Applied (deposits idx slot) (l, u) =
      let w = slot / 64 in
      let inside : w < 128 = omega arith in
      (
        _,
        set-eq v idx w l inside slot refl,
        record {
          valid =
              with_free-IsValid (word_at idx w) _
                (bit_or-lt 64 _ _ (v.free_wide _) (shl_u64-lt 1 (slot % 64))) v;
          slots = λ j t h. rw (set_mask-free_bit v idx w l inside (shl_u64 1 (slot % 64)) j t h) (
              ground (
                arith,
                bit-shl_u64 (slot % 64) (t % 64) 1 (omega arith),
                bit-pow 0 (t % 64 - slot % 64),
              ));
        },
      )
  apply-Applied (deposits_mask idx w mask) (l, u, m) = (
    _,
    set_mask-eq v idx w l u mask,
    record {
      valid = with_free-IsValid (word_at idx w) _ (bit_or-lt 64 _ mask (v.free_wide _) m) v;
      slots = λ j t h. set_mask-free_bit v idx w l u mask j t h;
    },
  )
  apply-Applied (folds idx w) (l, u) =
      let (word, q, e, f) = fold_free_word-Folded v idx w l u in
      (q, rw e refl, record { valid = f.valid; slots = f.same_slots })
  apply-Applied (carves idx w mask) (l, u, m) = (
    _,
    alloc_set_mask-eq v idx w l u mask,
    record {
      valid = with_alloc-IsValid (word_at idx w) _ (bit_or-lt 64 _ mask (v.alloc_wide _) m) v;
      slots = λ j t h. alloc_set_mask-free_bit v idx w l u mask j t h;
    },
  )
  apply-Applied (takes idx w taken) (l, u, m) =
      let (word, q, e, f) = fold_free_word-Folded v idx w l u in
      (
        with_alloc q (word_at idx w) (bit_and (q.alloc_words.at (word_at idx w)) (not_u64 taken)),
        rw e (alloc_clear-eq f.valid idx w l u taken),
        record {
          valid =
              with_alloc-IsValid (word_at idx w) _ (bit_and-lt 64 _ _ (f.valid.alloc_wide _))
                f.valid;
          slots = λ j t h.
              rw
                (alloc_clear-free_bit f.valid idx w l u taken j t f.drained m h, f.same_slots j t h)
                refl;
        },
      )
  apply-Applied (resets idx m) (l, u) =
      let (q, e, valid, slots) = reset_from-lem m 0 idx v l (omega arith) in
      (q, e, record { valid = valid; slots = λ j t h. ground (arith, slots j t h) })

-- A run of calls, and its effect.
abbrev pub run : SpanBitmaps → List Op → Option SpanBitmaps
run p [] = some p
run p (op ∷ ops) = do q ← apply p op; run q ops

abbrev pub run_effect : List Op → ℕ → ℕ → Bool → Bool
run_effect [] j t b = b
run_effect (op ∷ ops) j t b = run_effect ops j t (effect op j t b)

-- A run of calls within bounds never panics, and leaves valid bitmaps whose free slots are the ones
-- that the calls leave in a set: a deposit or a carve adds its slots, a fold changes nothing, a
-- refill takes out what it hands out and a reset empties the first words of its span.
pub run-refines :
    (ops : List Op) {n : ℕ} {p : SpanBitmaps}
    → IsValid n p
    → All (InBounds n) ops
    → (q : SpanBitmaps) × (run p ops ≡ some q)
      × IsValid n q
      × ((j t : ℕ) → t < 8192 → free_bit q j t ≡ run_effect ops j t (free_bit p j t))
run-refines [] {n} {p} v h = (p, refl, v, λ j t l. refl)
run-refines (op ∷ ops) v (h, hs) =
    let (q, e, a) = apply-Applied v op h in
    let (r, f, valid, slots) = run-refines ops a.valid hs in
    (r, rw e f, valid, λ j t l. slots j t l ∙ ap (run_effect ops j t) (a.slots j t l))
