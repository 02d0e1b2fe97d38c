-- ===== src/SubHeap/Flush.antt =====
-- How the loop of `dealloc_class_batch` in toccata-core/src/subheap.rs gathers deposits.
use Prim.Native.Nat.{bit_or}
use toccata.Base.{
  ℕ, ◌+◌, ◌-◌, ◌*◌, ◌/◌, ◌%◌, ◌^◌, ◌≤◌, ◌<◌, ◌≡◌, ◌⊎◌, inl, inr, refl, ap, ◌∙◌, arith, ◌&&◌, ◌||◌,
  some, ltb, ◌==◌, Bool-cases, shl_u64,
}
use toccata.Base.Bits.{bit, bit-shl_u64, bit-pow, bit-zero, bit-bit_or, bit_or-lt, shl_u64-lt}
use toccata.Meta.Bitmaps.{SpanBitmaps, span_base, locate, word_at}
use toccata.Meta.Bitmaps.Locate.{locate-object}
use toccata.Meta.Bitmaps.Effects.{
  IsValid, with_free, with_free-IsValid, set_mask-eq, set_mask-free_bit,
}
use toccata.SubHeap.Hands.{Slots, free, with_slot, Slots-ext, place}
use toccata.SubHeap.Pools.{Pending, flush_pending, coalesce}

-- From `p` to `q` only the free slots change.
pub record Kept (n : ℕ) (p q : SpanBitmaps) : Type 0 where
  pub valid : IsValid n q
  pub same_base : q.base ≡ p.base
  pub same_links : q.next_active ≡ p.next_active
  pub same_marks : q.on_list ≡ p.on_list

pub Kept-refl : {n : ℕ} {p : SpanBitmaps} → IsValid n p → Kept n p p
Kept-refl v = record { valid = v; same_base = refl; same_links = refl; same_marks = refl }

pub Kept-trans : {n : ℕ} {p q r : SpanBitmaps} → Kept n p q → Kept n q r → Kept n p r
Kept-trans a b = record {
  valid = b.valid;
  same_base = b.same_base ∙ a.same_base;
  same_links = b.same_links ∙ a.same_links;
  same_marks = b.same_marks ∙ a.same_marks;
}

-- The slots that are free once the pending word is deposited.
unfoldable pub pending : SpanBitmaps → Pending → Slots
pending p c j t =
    free p j t || (ltb t 8192 && (j == c.span) && (t / 64 == c.word) && bit c.mask (t % 64))

pub record IsPending (n : ℕ) (c : Pending) : Type 0 where
  pub wide : c.mask < 2 ^ 64
  pub inside : (c.mask ≡ 0) ⊎ ((c.span < n) × (c.word < 128))

pub bit-one : (b k : ℕ) → b < 64 → k < 64 → bit (shl_u64 1 b) k ≡ (k == b)
bit-one b k h l = ground (arith, bit-shl_u64 b k 1 l, bit-pow 0 (k - b))

pub flush_pending-ok :
    {n : ℕ} {p : SpanBitmaps} (c : Pending)
    → IsValid n p
    → IsPending n c
    → (q : SpanBitmaps) × (flush_pending p c ≡ some q) × Kept n p q × (free q ≡ pending p c)
unfolding flush_pending pending free
flush_pending-ok {n} {p} c v ok = elim (Bool-cases (c.mask == 0)) [
  | inl e ↦ (
    p,
    rw e refl,
    Kept-refl v,
    Slots-ext
        (λ j t. let z : c.mask ≡ 0 = ground (arith, e) in ground (arith, z, bit-zero (t % 64))),
  )
  | inr e ↦ elim ok.inside [
    | inl z ↦ absurd (ground (arith, e, z))
    | inr (l, u) ↦
        let i = word_at c.span c.word in
        let mask = bit_or (p.free_words.at i) c.mask in
        (
          with_free p i mask,
          rw e (set_mask-eq v c.span c.word l u c.mask),
          record {
            valid = with_free-IsValid i mask (bit_or-lt 64 _ _ (v.free_wide i) ok.wide) v;
            same_base = refl;
            same_links = refl;
            same_marks = refl;
          },
          Slots-ext (λ j t. elim (Bool-cases (ltb t 8192)) [
            | inr f ↦ rw f refl
            | inl f ↦
                rw (f, set_mask-free_bit v c.span c.word l u c.mask j t (ground (arith, f))) refl
          ]),
        )
  ]
]

pub coalesce-ok :
    {n : ℕ} {p : SpanBitmaps} (c : Pending) (j0 t0 : ℕ)
    → IsValid n p
    → IsPending n c
    → j0 < n
    → t0 < 8192
    → (q : SpanBitmaps) × (d : Pending) × (coalesce p c (j0, t0 / 64, t0 % 64) ≡ some (q, d))
      × Kept n p q
      × IsPending n d
      × (pending q d ≡ with_slot (pending p c) (j0, t0))
      × (d.span ≡ j0)
unfolding coalesce pending
coalesce-ok {n} {p} c j0 t0 v ok l u =
    let one = shl_u64 1 (t0 % 64) in
    elim (Bool-cases ((j0 == c.span) && (t0 / 64 == c.word))) [
      | inl e ↦ (
        p,
        record c { mask = bit_or c.mask one },
        rw e refl,
        Kept-refl v,
        record {
          wide = bit_or-lt 64 _ _ ok.wide (shl_u64-lt 1 (t0 % 64));
          inside = inr (ground (arith, e, l), ground (arith, e, u));
        },
        Slots-ext (λ j t. ground (
          arith,
          e,
          u,
          bit-bit_or (t % 64) c.mask one,
          bit-one (t0 % 64) (t % 64) (omega arith) (omega arith),
        )),
        ground (arith, e),
      )
      | inr e ↦
          let (q, runs, kept, same) = flush_pending-ok c v ok in
          (
            q,
            record { span = j0; word = t0 / 64; mask = one },
            rw (e, runs) refl,
            kept,
            record { wide = shl_u64-lt 1 (t0 % 64); inside = inr (l, omega (arith, u)) },
            Slots-ext (λ j t. ground (
              arith,
              u,
              ap (λ (f : Slots). f j t) same,
              bit-one (t0 % 64) (t % 64) (omega arith) (omega arith),
            )),
            refl,
          )
    ]

-- A slot whose object lies inside its span.
pub record InSpan (n osz : ℕ) (h : ℕ × ℕ) : Type 0 where
  pub span : h.0 < n
  pub slot : h.1 * osz + osz ≤ 2 ^ 16

module _ {n osz : ℕ} (p : SpanBitmaps) (h : ℕ × ℕ) (big : 8 ≤ osz)
    (grid : p.base + n * 2 ^ 16 ≤ 2 ^ 64) (narrow : n < 2 ^ 32) (i : InSpan n osz h) where
  pub slot-lt : h.1 < 8192
  slot-lt = grind (arith, i.slot, big)

  pub place-eq : place p.base osz h ≡ span_base p h.0 + h.1 * osz + 0
  unfolding span_base
  place-eq = ground (arith, i.span, i.slot, grid)

  pub locate-place : locate p (place p.base osz h) osz ≡ (h.0, h.1 / 64, h.1 % 64)
  locate-place = rw place-eq (
      locate-object p h.0 osz h.1 0 (omega (arith, i.slot, big)) (omega (arith, big))
        (omega (arith, i.span, grid)) (omega (arith, i.span, narrow)))
