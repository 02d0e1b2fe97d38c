-- ===== src/Meta/Bitmaps/FullyFree.antt =====
-- `is_fully_free` of toccata-core/src/meta.rs, the gate of the cross-class reclaim.
use toccata.Base.{
  ℕ, zero, suc, ◌+◌, ◌-◌, ◌*◌, ◌/◌, ◌%◌, ◌^◌, ◌≤◌, ◌<◌, ◌≡◌, ◌↔◌, refl, sym, ◌∙◌, arith, some, ◌==◌,
  Bool, true, false, add_u32, div_ceil, inl, inr, Bool-cases,
}
use toccata.Base.Bits.{bit, bit-zero}
use toccata.Base.Count.{
  count_ones, count_below, count_below-congr, count_below-append, count_below-full, count_below-all,
  count_below-none, count_below-le, count_ones-count_below,
}
use toccata.Meta.Bitmaps.{
  SpanBitmaps, fold_free_word, count_free, none_deposited, is_fully_free, word_at,
}
use toccata.Meta.Bitmaps.Effects.{IsValid, free_bit, Folded, fold_free_word-Folded, free-inside}

-- The free slots from word `w` on.
abbrev slots_from : SpanBitmaps → ℕ → ℕ → ℕ → Bool
slots_from p idx w i = free_bit p idx (w * 64 + i)

Folded-slot :
    {n : ℕ} {p q : SpanBitmaps} {idx w word : ℕ} (i : ℕ)
    → w < 128
    → Folded n p idx w word q
    → i < 64
    → slots_from p idx w i ≡ bit word i
unfolding free_bit
Folded-slot {n} {p} {q} {idx} {w} {word} i u f l =
    let high : (w * 64 + i) / 64 ≡ w = omega arith in
    let low : (w * 64 + i) % 64 ≡ i = omega arith in
    let own : free_bit q idx (w * 64 + i) ≡ bit word i =
      rw (high, low, f.kept, f.drained, bit-zero i) (ground arith) in
    sym (f.same_slots idx (w * 64 + i) (omega arith)) ∙ own

word-slots :
    {n : ℕ} {p q : SpanBitmaps} {idx w word : ℕ}
    → w < 128
    → Folded n p idx w word q
    → count_ones 64 word ≡ count_below (slots_from p idx w) 64
word-slots {n} {p} {q} {idx} {w} {word} u f =
    count_ones-count_below 64 word
    ∙ count_below-congr (bit word) (slots_from p idx w) 64 (λ i l. sym (Folded-slot i u f l))

-- `q` is what folding the words from `w` to `w + m` leaves.
record Drained (n : ℕ) (p : SpanBitmaps) (idx w m : ℕ) (q : SpanBitmaps) : Type 0 where
  valid : IsValid n q
  same_slots : (j t : ℕ) → t < 8192 → free_bit q j t ≡ free_bit p j t
  drained : (k : ℕ) → w ≤ k → k < w + m → q.free_words.at (word_at idx k) ≡ 0
  still : (i : ℕ) → p.free_words.at i ≡ 0 → q.free_words.at i ≡ 0

-- Folding word `w` and then the `m` words behind it.
module _ {n : ℕ} {p q r : SpanBitmaps} {idx w m word : ℕ} (u : w + suc m ≤ 128)
    (f : Folded n p idx w word q) (d : Drained n q idx (w + 1) m r) where
  later_slot : (i : ℕ) → i < m * 64 → slots_from q idx (w + 1) i ≡ slots_from p idx w (64 + i)
  later_slot i h =
      let same : (w + 1) * 64 + i ≡ w * 64 + (64 + i) = omega arith in
      rw same (f.same_slots idx (w * 64 + (64 + i)) (omega arith))

  step_count :
      count_ones 64 word + count_below (slots_from q idx (w + 1)) (m * 64)
      ≡ count_below (slots_from p idx w) (suc m * 64)
  step_count =
      let size : suc m * 64 ≡ 64 + m * 64 = omega arith in
      rw size (
        omega (
          arith,
          count_below-append (slots_from p idx w) 64 (m * 64),
          word-slots (omega arith) f,
          count_below-congr (slots_from q idx (w + 1)) (λ i. slots_from p idx w (64 + i)) (m * 64)
              later_slot,
        ))

  step_drained : (k : ℕ) → w ≤ k → k < w + suc m → r.free_words.at (word_at idx k) ≡ 0
  step_drained k l h = elim (Bool-cases (k == w)) [
    | inl e ↦ let same : k ≡ w = ground (arith, e) in rw same (d.still (word_at idx w) f.drained)
    | inr ne ↦ d.drained k (ground (arith, ne)) (omega arith)
  ]

  step_still : (i : ℕ) → p.free_words.at i ≡ 0 → r.free_words.at i ≡ 0
  step_still i z = d.still i (elim (Bool-cases (i == word_at idx w)) [
    | inl e ↦ let same : i ≡ word_at idx w = ground (arith, e) in rw same f.drained
    | inr ne ↦ f.others i (ground (arith, ne)) ∙ z
  ])

  step-Drained : Drained n p idx w (suc m) r
  step-Drained = record {
    valid = d.valid;
    same_slots = λ j t h. d.same_slots j t h ∙ f.same_slots j t h;
    drained = step_drained;
    still = step_still;
  }

  step-count_free :
      (free_count : ℕ)
      → free_count + suc m * 64 < 2 ^ 32
      → fold_free_word p idx w ≡ some (word, q)
      → count_free q idx m (w + 1) (free_count + count_ones 64 word)
        ≡ some
            (free_count + count_ones 64 word + count_below (slots_from q idx (w + 1)) (m * 64), r)
      → count_free p idx (suc m) w free_count
        ≡ some (free_count + count_below (slots_from p idx w) (suc m * 64), r)
  unfolding count_free
  step-count_free free_count b e h =
      let few : count_ones 64 word ≤ 64 =
        omega (arith, word-slots (omega arith) f, count_below-le (slots_from p idx w) 64) in
      let sum : add_u32 free_count (count_ones 64 word) ≡ free_count + count_ones 64 word =
        omega arith in
      rw (e, sum, h) (ground (arith, step_count))

count_free-Drained :
    (m w free_count idx : ℕ) {n : ℕ} {p : SpanBitmaps}
    → IsValid n p
    → idx < n
    → w + m ≤ 128
    → free_count + m * 64 < 2 ^ 32
    → (q : SpanBitmaps) × (count_free p idx m w free_count
        ≡ some (free_count + count_below (slots_from p idx w) (m * 64), q))
      × Drained n p idx w m q
unfolding count_free
count_free-Drained zero w free_count idx {n} {p} v l u b = (
  p,
  ground (arith, count_below-none (slots_from p idx w) 0 (λ i h. elim h [ ])),
  record {
    valid = v;
    same_slots = λ j t h. refl;
    drained = λ k h g. absurd (omega arith);
    still = λ i h. h;
  },
)
count_free-Drained (suc m) w free_count idx {n} {p} v l u b =
    let (word, q, e, f) = fold_free_word-Folded v idx w l (omega arith) in
    let few : count_ones 64 word ≤ 64 =
      omega (arith, word-slots (omega arith) f, count_below-le (slots_from p idx w) 64) in
    let (r, e2, d) =
      count_free-Drained m (w + 1) (free_count + count_ones 64 word) idx f.valid l (omega arith)
        (omega arith) in
    (r, step-count_free u f d free_count b e e2, step-Drained u f d)

none_deposited-lem :
    (m w idx : ℕ) {n : ℕ} {p : SpanBitmaps}
    → IsValid n p
    → idx < n
    → w + m ≤ 128
    → ((k : ℕ) → w ≤ k → k < w + m → p.free_words.at (word_at idx k) ≡ 0)
    → none_deposited p idx m w ≡ some true
unfolding none_deposited
none_deposited-lem zero w idx v l u z = refl
none_deposited-lem (suc m) w idx {n} {p} v l u z =
    let first = z w (omega arith) (omega arith) in
    let rest =
      none_deposited-lem m (w + 1) idx v l (omega arith)
        (λ k h g. z k (omega arith) (omega arith)) in
    ground (arith, free-inside v idx w l (omega arith), first, rest)

module _ {n : ℕ} {p : SpanBitmaps} (idx slots : ℕ) (v : IsValid n p) (l : idx < n)
    (u : slots ≤ 8192) (tail : (t : ℕ) → slots ≤ t → t < 8192 → free_bit p idx t ≡ false) where
  slot_lem : (i : ℕ) → slots_from p idx 0 i ≡ free_bit p idx i
  slot_lem i = let same : 0 * 64 + i ≡ i = omega arith in rw same refl

  total : ℕ
  total = count_below (slots_from p idx 0) (div_ceil slots 64 * 64)

  total-eq : total ≡ count_below (slots_from p idx 0) slots
  unfolding total
  total-eq =
      let pad = div_ceil slots 64 * 64 - slots in
      let whole : div_ceil slots 64 * 64 ≡ slots + pad = omega arith in
      rw whole (
        omega (
          arith,
          count_below-append (slots_from p idx 0) slots pad,
          count_below-none (λ i. slots_from p idx 0 (slots + i)) pad
              (λ i h. slot_lem (slots + i) ∙ tail (slots + i) (omega arith) (omega arith)),
        ))

  total_iff : ((total == slots) ≡ true) ↔ ((t : ℕ) → t < slots → free_bit p idx t ≡ true)
  total_iff = (
    (λ e t h.
        sym (slot_lem t)
        ∙ count_below-full (slots_from p idx 0) slots (ground (arith, e, total-eq)) t h),
    λ all.
        let full = count_below-all (slots_from p idx 0) slots (λ i h. slot_lem i ∙ all i h) in
        ground (arith, full, total-eq),
  )

  gate-eq :
      (q : SpanBitmaps)
      → count_free p idx (div_ceil slots 64) 0 0
        ≡ some (0 + count_below (slots_from p idx 0) (div_ceil slots 64 * 64), q)
      → none_deposited q idx (div_ceil slots 64) 0 ≡ some true
      → is_fully_free p idx slots ≡ some (total == slots, q)
  unfolding is_fully_free total
  gate-eq q e clear =
      let none_before : 0 + count_below (slots_from p idx 0) (div_ceil slots 64 * 64) ≡ total =
        omega arith in
      rw (e, none_before)
        (elim (Bool-cases (total == slots)) [
          | inl full ↦ rw (full, clear) refl
          | inr short ↦ rw short refl
        ])

-- The gate never panics and changes no slot. It says yes just where all slots that the class tiles in
-- the span are free, if none of the digits behind them is set.
pub is_fully_free_iff :
    {n : ℕ} {p : SpanBitmaps} (idx slots_per_span : ℕ)
    → IsValid n p
    → idx < n
    → slots_per_span ≤ 8192
    → ((t : ℕ) → slots_per_span ≤ t → t < 8192 → free_bit p idx t ≡ false)
    → (b : Bool) × (q : SpanBitmaps) × (is_fully_free p idx slots_per_span ≡ some (b, q))
      × IsValid n q
      × ((j t : ℕ) → t < 8192 → free_bit q j t ≡ free_bit p j t)
      × ((b ≡ true) ↔ ((t : ℕ) → t < slots_per_span → free_bit p idx t ≡ true))
is_fully_free_iff {n} {p} idx slots v l u tail =
    let (q, e, d) =
      count_free-Drained (div_ceil slots 64) 0 0 idx v l (omega arith) (omega arith) in
    let clear = none_deposited-lem (div_ceil slots 64) 0 idx d.valid l (omega arith) d.drained in
    (
      total idx slots v l u tail == slots,
      q,
      gate-eq idx slots v l u tail q e clear,
      d.valid,
      d.same_slots,
      total_iff idx slots v l u tail,
    )
