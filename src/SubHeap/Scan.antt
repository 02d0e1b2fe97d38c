-- ===== src/SubHeap/Scan.antt =====
-- `scan_span` of toccata-core/src/subheap.rs: which slots it hands out of one span.
use Prim.Native.Nat.{bit_and, bit_or}
use toccata.Base.{
  ℕ, zero, suc, ◌+◌, ◌*◌, ◌/◌, ◌^◌, ◌≤◌, ◌<◌, ◌≡◌, ◌⊎◌, inl, inr, refl, ap, ◌∙◌, arith, Bool, true,
  false, not, ◌&&◌, ◌||◌, List, [], ◌∷◌, length, All, ◌==◌, Bool-cases, shl_u64, not_u64,
  trailing_zeros, add_usize,
}
use toccata.Base.Bits.{
  bit, bit-zero, bit_and-lt, bit_or-lt, shl_u64-lt, bit-or_shl, bit-and_not_shl,
  trailing_zeros-IsLowest,
}
use toccata.SubHeap.Central.{take_bits}
use toccata.SubHeap.Hands.{Slots, without, without_all, AreFree, without_all_only, place, places}

module _ (b osz span w : ℕ) where
  abbrev base : ℕ
  base = add_usize b (span * 2 ^ 16)

  -- The slots `hs` of word `w` are the ones taken where the word has the free slots of `f`.
  pub record Picks (f : Slots) (word taken room : ℕ) (hs : List (ℕ × ℕ)) (r : List ℕ × ℕ)
      : Type 0 where
    pub objects : r.0 ≡ places b osz hs
    pub here : All (λ h. (h.0 ≡ span) × (h.1 / 64 ≡ w)) hs
    pub are_free : AreFree f hs
    pub narrow : r.1 < 2 ^ 64
    pub bits :
        (k : ℕ)
        → k < 64
        → bit r.1 k ≡ (bit taken k || (bit word k && not (without_all f hs span (w * 64 + k))))
    pub others : (j t : ℕ) → ((j == span) && (t / 64 == w)) ≡ false → without_all f hs j t ≡ f j t
    pub few : length hs ≤ room
    pub all : (length hs ≡ room) ⊎ ((k : ℕ) → k < 64 → without_all f hs span (w * 64 + k) ≡ false)

  unfoldable pub Shows : Slots → ℕ → Type 0
  Shows f word = (k : ℕ) → k < 64 → f span (w * 64 + k) ≡ bit word k

  -- The digits after one round, where `d` is the lowest one of the word.
  step_bits :
      (word taken d k r : ℕ)
      → d < 64
      → k < 64
      → bit word d ≡ true
      → (left : Bool) → (k ≡ d → left ≡ false)
      → bit r k ≡ (
          bit (bit_or taken (shl_u64 1 d)) k
          || (bit (bit_and word (not_u64 (shl_u64 1 d))) k && not left))
      → bit r k ≡ (bit taken k || (bit word k && not left))
  step_bits word taken d k r ld lk one left gone e = elim (Bool-cases (k == d)) [
    | inl t ↦
        let same : k ≡ d = ground (arith, t) in
        let here : bit word k ≡ true = ap (bit word) same ∙ one in
        ground (arith, e, here, gone same, bit-or_shl d k taken ld lk)
    | inr n ↦ ground (arith, e, bit-or_shl d k taken ld lk, bit-and_not_shl d k word ld lk)
  ]

  pub take_bits-Picks :
      (room word taken : ℕ) (f : Slots)
      → word < 2 ^ 64
      → taken < 2 ^ 64
      → Shows f word
      → (hs : List (ℕ × ℕ)) × Picks f word taken room hs (take_bits base osz w room word taken)
  unfolding take_bits without_all AreFree places Shows
  take_bits-Picks zero word taken f lt small shows = (
    [],
    record {
      objects = refl;
      here = tt;
      are_free = tt;
      narrow = small;
      bits = λ k l. ground (arith, shows k l);
      others = λ j t e. refl;
      few = omega arith;
      all = inl refl;
    },
  )
  take_bits-Picks (suc room) word taken f lt small shows = elim (Bool-cases (word == 0)) [
    | inl e ↦
        let nil : word ≡ 0 = ground (arith, e) in
        (
          [],
          rw e (record {
            objects = refl;
            here = tt;
            are_free = tt;
            narrow = small;
            bits = λ k l. ground (arith, shows k l);
            others = λ j t e. refl;
            few = omega arith;
            all = inr (λ k l. shows k l ∙ ap (λ x. bit x k) nil ∙ bit-zero k);
          }),
        )
    | inr e ↦
        let low = trailing_zeros-IsLowest word lt (ground (arith, e)) in
        let d = trailing_zeros word in
        let h : ℕ × ℕ = (span, w * 64 + d) in
        let rest_word = bit_and word (not_u64 (shl_u64 1 d)) in
        let rest_taken = bit_or taken (shl_u64 1 d) in
        let rest_shows : (k : ℕ) → k < 64 → without f h span (w * 64 + k) ≡ bit rest_word k =
          λ k l. ground (arith, shows k l, bit-and_not_shl d k word low.inside l) in
        let (hs, p) =
          take_bits-Picks room rest_word rest_taken (without f h) (bit_and-lt 64 _ _ lt)
            (bit_or-lt 64 _ _ small (shl_u64-lt 1 d)) rest_shows in
        (
          h ∷ hs,
          rw e (record {
            objects = ap (λ xs. place b osz h ∷ xs) p.objects;
            here = ((refl, omega (arith, low.inside)), p.here);
            are_free = (shows d low.inside ∙ low.one, p.are_free);
            narrow = p.narrow;
            bits = λ k l.
                step_bits word taken d k (take_bits base osz w room rest_word rest_taken).1
                  low.inside l low.one (without_all (without f h) hs span (w * 64 + k))
                  (λ same.
                    without_all_only (without f h) hs span (w * 64 + k) (ground (arith, same)))
                  (p.bits k l);
            others = λ j t e. ground (arith, p.others j t e, e);
            few = omega (arith, p.few);
            all = elim p.all [
              | inl full ↦ inl (omega (arith, full))
              | inr none_left ↦ inr none_left
            ];
          }),
        )
  ]
