-- ===== src/SubHeap/Tiles.antt =====
-- How `central_carve` of toccata-core/src/subheap.rs tiles spans with free objects.
use native.Mathlib.Nat.{pow-suc, pow-le-pow_right}
use toccata.Base.{
  ℕ, zero, suc, ◌+◌, ◌-◌, ◌/◌, ◌%◌, ◌^◌, ◌≤◌, ◌<◌, ◌≡◌, inl, inr, refl, ap, ◌∙◌, arith, ◌&&◌, ◌||◌,
  some, ltb, leb, ◌==◌, Bool-cases,
}
use Prim.Native.Nat.{bit_or}
use toccata.Base.Bits.{bit, bit_or-lt, pow-pos}
use toccata.Base.Masks.{ones-half}
use toccata.Meta.Bitmaps.{SpanBitmaps, word_at, alloc_set_mask}
use toccata.Meta.Bitmaps.Effects.{
  IsValid, with_alloc, with_alloc-IsValid, alloc_set_mask-eq, alloc_set_mask-free_bit,
}
use toccata.SubHeap.Hands.{Slots, Slots-ext, free}
use toccata.SubHeap.Flush.{Kept, Kept-refl, Kept-trans}
use toccata.SubHeap.Carving.{fill_words, tile_span}

pub bit-ones : (n k : ℕ) → bit (2 ^ n - 1) k ≡ ltb k n
unfolding bit
bit-ones zero zero = refl
bit-ones zero (suc k) = bit-ones zero k ∙ ground arith
bit-ones (suc n) zero =
    let odd : (2 ^ suc n - 1) % 2 ≡ 1 = omega (arith, pow-suc 2 n, pow-pos n) in
    rw odd (ground arith)
bit-ones (suc n) (suc k) = ap (λ x. bit x k) (ones-half n) ∙ bit-ones n k ∙ ground arith

-- A word of free slots in front of what is free.
set_word :
    {n : ℕ} {p : SpanBitmaps} (span w m : ℕ)
    → IsValid n p
    → span < n
    → w < 128
    → m ≤ 64
    → (q : SpanBitmaps) × (alloc_set_mask p span w (2 ^ m - 1) ≡ some q)
      × Kept n p q
      × (free q
          ≡ (λ j t. free p j t || (ltb t 8192 && (j == span) && (t / 64 == w) && ltb (t % 64) m)))
unfolding free
set_word {n} {p} span w m v l u le =
    let i = word_at span w in
    let mask = 2 ^ m - 1 in
    let bound : 2 ^ m ≤ 2 ^ 64 = pow-le-pow_right (omega arith) le in
    let small : mask < 2 ^ 64 = omega (arith, bound) in
    (
      with_alloc p i (bit_or (p.alloc_words.at i) mask),
      alloc_set_mask-eq v span w l u mask,
      record {
        valid = with_alloc-IsValid i _ (bit_or-lt 64 _ _ (v.alloc_wide i) small) v;
        same_base = refl;
        same_links = refl;
        same_marks = refl;
      },
      Slots-ext (λ j t. elim (Bool-cases (ltb t 8192)) [
        | inr f ↦ rw f refl
        | inl f ↦
            rw
              (
                f,
                alloc_set_mask-free_bit v span w l u mask j t (ground (arith, f)),
                bit-ones m (t % 64),
              )
              refl
      ]),
    )

fill_words-ok :
    {n : ℕ} (m w span : ℕ) (p : SpanBitmaps)
    → IsValid n p
    → span < n
    → w + m ≤ 128
    → (q : SpanBitmaps) × (fill_words p span m w ≡ some q)
      × Kept n p q
      × (free q ≡ (λ j t.
          free p j t || (ltb t 8192 && (j == span) && leb w (t / 64) && ltb (t / 64) (w + m))))
unfolding fill_words
fill_words-ok zero w span p v l u = (p, refl, Kept-refl v, Slots-ext (λ j t. ground arith))
fill_words-ok (suc m) w span p v l u =
    let (q, runs, kept, slots) = set_word span w 64 v l (omega (arith, u)) (omega arith) in
    let (r, rest, also, more) = fill_words-ok m (w + 1) span q kept.valid l (omega (arith, u)) in
    (
      r,
      cc (runs, rest),
      Kept-trans kept also,
      more ∙ Slots-ext (λ j t. ground (arith, ap (λ (f : Slots). f j t) slots)),
    )

pub tile_span-ok :
    {n : ℕ} {p : SpanBitmaps} (span per_span : ℕ)
    → IsValid n p
    → span < n
    → per_span ≤ 8192
    → (q : SpanBitmaps) × (tile_span p span per_span ≡ some q)
      × Kept n p q
      × (free q ≡ (λ j t. free p j t || ((j == span) && ltb t per_span)))
unfolding tile_span
tile_span-ok {n} {p} span per_span v l le =
    let (q, runs, kept, slots) = fill_words-ok (per_span / 64) 0 span p v l (omega (arith, le)) in
    elim (Bool-cases (per_span % 64 == 0)) [
      | inl e ↦ (q, cc (runs, e), kept, slots ∙ Slots-ext (λ j t. ground (arith, e, le)))
      | inr e ↦
          let (r, last, also, more) =
            set_word span (per_span / 64) (per_span % 64) kept.valid l (ground (arith, e, le))
              (omega arith) in
          (
            r,
            cc (runs, e, last),
            Kept-trans kept also,
            more ∙ Slots-ext (λ j t. ground (arith, e, le, ap (λ (f : Slots). f j t) slots)),
          )
    ]
