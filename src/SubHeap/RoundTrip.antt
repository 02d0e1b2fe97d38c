-- ===== src/SubHeap/RoundTrip.antt =====
-- What a refill takes from a central list of toccata-core/src/subheap.rs, given back.
use toccata.Base.{
  ℕ, ◌+◌, ◌*◌, ◌/◌, ◌%◌, ◌^◌, ◌≤◌, ◌<◌, ◌≡◌, ◌≢◌, inl, inr, refl, sym, ap, subst, ◌∙◌, arith, true,
  false, ◌&&◌, Option, some, List, [], ◌∷◌, ltb, ◌==◌, Bool-cases, ◌>>=◌, All, All-imp, shl_u64,
  as_u32,
}
use toccata.Base.Bits.{bit_or-lt, shl_u64-lt}
use toccata.SizeClass.{num_classes, size_of_class}
use toccata.SpanPool.{no_span}
use toccata.Meta.Bitmaps.{SpanBitmaps, set, word_at}
use toccata.Meta.Bitmaps.Effects.{IsValid, with_free-IsValid, set-eq, set_mask-free_bit}
use toccata.Meta.Bitmaps.Locate.{span_of-object, slot-object, offset-object}
use toccata.Slab.{Thread}
use toccata.SubHeap.Central.{central_deposit}
use toccata.SubHeap.Hands.{
  Slots, Slots-ext, free, without, without_all, AreFree, with_slot, with_slots, place, places,
  Handed,
}
use toccata.SubHeap.Pools.{Pools, Envs, dealloc_class_batch}
use toccata.SubHeap.Flush.{Kept, InSpan, bit-one, slot-lt, place-eq}
use toccata.SubHeap.GiveBack.{IsRemote, IsReady, dealloc_class_batch-Frees}

with_slots-with_slot :
    (f : Slots) (h : ℕ × ℕ) (hs : List (ℕ × ℕ))
    → with_slots (with_slot f h) hs ≡ with_slot (with_slots f hs) h
unfolding with_slots
with_slots-with_slot f h [] = refl
with_slots-with_slot f h (k ∷ hs) =
    ap (λ g. with_slots g hs) (Slots-ext (λ j t. ground arith))
    ∙ with_slots-with_slot (with_slot f k) h hs

-- Slots that were free and have been handed out are as they were once they are given back.
restored : (f : Slots) (hs : List (ℕ × ℕ)) → AreFree f hs → with_slots (without_all f hs) hs ≡ f
unfolding with_slots without_all AreFree
restored f [] a = refl
restored f (h ∷ hs) (e, a) =
    with_slots-with_slot (without_all (without f h) hs) h hs
    ∙ ap (λ g. with_slot g h) (restored (without f h) hs a)
    ∙ Slots-ext (λ j t. elim (Bool-cases ((j == h.0) && (t == h.1))) [
      | inl x ↦
          let here : f j t ≡ true =
            subst (λ k. f j k ≡ true) (ground (arith, x))
              (subst (λ k. f k h.1 ≡ true) (ground (arith, x)) e) in
          ground (arith, x, here)
      | inr x ↦ ground (arith, x)
    ])

-- All objects that a take from the central list has handed out are given back in one batch by a thread
-- of another shard: exactly the slots that were free before the take are free again.
pub take-give_back :
    {s : Pools} {n : ℕ} {p : SpanBitmaps} (class osz thread room : ℕ) (t : Thread) (env : ℕ → Envs)
    (objs : List ℕ) (hs : List (ℕ × ℕ))
    → IsReady s n
    → class < num_classes
    → size_of_class class ≡ some osz
    → 8 ≤ osz
    → Handed n p osz room objs hs s.bitmaps
    → All (IsRemote s n osz (thread % s.num_shards)) hs
    → (q : Pools) × (dealloc_class_batch s t env thread objs class ≡ some q)
      × (free q.bitmaps ≡ free p)
take-give_back {s} {n} {p} class osz thread room t env objs hs v lt size big handed remote =
    let (q, runs, slots, kept, mem, heads) =
      dealloc_class_batch-Frees class osz thread t env hs v lt size big remote in
    let same : places s.bitmaps.base osz hs ≡ objs =
      ap (λ b. places b osz hs) handed.same_base ∙ sym handed.objects in
    (
      q,
      subst (λ xs. dealloc_class_batch s t env thread xs class ≡ some q) same runs,
      slots ∙ ap (λ f. with_slots f hs) handed.gone ∙ restored (free p) hs handed.are_free,
    )

-- The deposits of `objs` one by one.
pub deposit_each : SpanBitmaps → ℕ → List ℕ → Option SpanBitmaps
deposit_each p osz [] = some p
deposit_each p osz (x ∷ objs) = do p ← central_deposit p x osz; deposit_each p osz objs

module _ {n osz : ℕ} (big : 8 ≤ osz) (narrow : n < no_span) where
  deposit-set :
      (p : SpanBitmaps) (h : ℕ × ℕ)
      → p.base + n * 2 ^ 16 ≤ 2 ^ 64
      → InSpan n osz h
      → central_deposit p (place p.base osz h) osz ≡ set p h.0 h.1
  unfolding central_deposit
  deposit-set p h grid i =
      let small : n < 2 ^ 32 = omega (arith, narrow) in
      let size : osz ≢ 0 = omega (arith, big) in
      let nz : (osz == 0) ≡ false = ground (arith, size) in
      let inside : h.1 * osz + 0 < 2 ^ 16 = omega (arith, i.slot, big) in
      let last : 0 < osz = omega (arith, big) in
      let room : p.base + (h.0 + 1) * 2 ^ 16 ≤ 2 ^ 64 = omega (arith, i.span, grid) in
      let index : h.0 < 2 ^ 32 = omega (arith, i.span, narrow) in
      let same : as_u32 h.1 ≡ h.1 = omega (arith, slot-lt p h big grid small i) in
      rw
        (
          place-eq p h big grid small i,
          central_deposit,
          nz,
          span_of-object p h.0 osz h.1 0 size inside last room index,
          offset-object p h.0 osz h.1 0 size inside last room index,
          slot-object p h.0 osz h.1 0 size inside last room index,
          same,
        )
        refl

  central_deposit-ok :
      (p : SpanBitmaps) (h : ℕ × ℕ)
      → p.base + n * 2 ^ 16 ≤ 2 ^ 64
      → IsValid n p
      → InSpan n osz h
      → (q : SpanBitmaps) × (central_deposit p (place p.base osz h) osz ≡ some q)
        × Kept n p q
        × (free q ≡ with_slot (free p) h)
  unfolding free
  central_deposit-ok p h grid v i =
      let w = h.1 / 64 in
      let lt = slot-lt p h big grid (omega (arith, narrow)) i in
      let inside : w < 128 = omega (arith, lt) in
      let one = shl_u64 1 (h.1 % 64) in
      (
        _,
        deposit-set p h grid i ∙ set-eq v h.0 w i.span inside h.1 refl,
        record {
          valid =
              with_free-IsValid (word_at h.0 w) _
                (bit_or-lt 64 _ _ (v.free_wide _) (shl_u64-lt 1 (h.1 % 64))) v;
          same_base = refl;
          same_links = refl;
          same_marks = refl;
        },
        Slots-ext (λ j t. elim (Bool-cases (ltb t 8192)) [
          | inr f ↦ ground (arith, f, lt)
          | inl f ↦
              rw (f, set_mask-free_bit v h.0 w i.span inside one j t (ground (arith, f)))
                (ground (arith, lt, bit-one (h.1 % 64) (t % 64) (omega arith) (omega arith)))
        ]),
      )

  deposit_each-ok :
      (hs : List (ℕ × ℕ)) (base : ℕ) (p : SpanBitmaps)
      → p.base ≡ base
      → base + n * 2 ^ 16 ≤ 2 ^ 64
      → IsValid n p
      → All (InSpan n osz) hs
      → (q : SpanBitmaps) × (deposit_each p osz (places base osz hs) ≡ some q)
        × (free q ≡ with_slots (free p) hs)
  unfolding deposit_each places with_slots
  deposit_each-ok [] base p e grid v i = (p, refl, refl)
  deposit_each-ok (h ∷ hs) base p e grid v (i, is) =
      let (q, runs, kept, slots) = central_deposit-ok p h (omega (arith, grid, e)) v i in
      let (r, rest, all) = deposit_each-ok hs base q (kept.same_base ∙ e) grid kept.valid is in
      let here = subst (λ b. central_deposit p (place b osz h) osz ≡ some q) e runs in
      (r, cc (here, rest), all ∙ ap (λ f. with_slots f hs) slots)

-- A batch of objects of another shard, whose deposits are gathered by word, frees exactly the slots that
-- `central_deposit` frees for one object after the other.
pub dealloc_class_batch-eq-deposit_each :
    {s : Pools} {n : ℕ} (class osz thread : ℕ) (t : Thread) (env : ℕ → Envs) (hs : List (ℕ × ℕ))
    → IsReady s n
    → class < num_classes
    → size_of_class class ≡ some osz
    → 8 ≤ osz
    → All (IsRemote s n osz (thread % s.num_shards)) hs
    → (q : Pools) × (p : SpanBitmaps) × (dealloc_class_batch s t env thread
          (places s.bitmaps.base osz hs)
          class
        ≡ some q)
      × (deposit_each s.bitmaps osz (places s.bitmaps.base osz hs) ≡ some p)
      × (free q.bitmaps ≡ free p)
dealloc_class_batch-eq-deposit_each {s} {n} class osz thread t env hs v lt size big remote =
    let (q, runs, slots, kept, mem, heads) =
      dealloc_class_batch-Frees class osz thread t env hs v lt size big remote in
    let inside =
      All-imp (IsRemote s n osz (thread % s.num_shards)) (InSpan n osz) hs (λ h r. r.inside)
        remote in
    let (p, each, same) =
      deposit_each-ok big v.narrow hs s.bitmaps.base s.bitmaps refl v.grid v.bitmaps inside in
    (q, p, runs, each, slots ∙ sym same)
