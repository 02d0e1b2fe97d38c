-- ===== src/SubHeap/Words.antt =====
-- `scan_span` of toccata-core/src/subheap.rs word by word, through the folds and the clearing of the bits
-- that it takes.
use Prim.Native.Nat.{bit_and}
use toccata.Base.{
  ℕ, zero, suc, ◌+◌, ◌-◌, ◌*◌, ◌/◌, ◌%◌, ◌^◌, ◌≤◌, ◌<◌, ◌≡◌, ◌⊎◌, inl, inr, refl, sym, ap, subst,
  ◌∙◌, arith, true, false, ◌&&◌, Option, some, List, [], ◌∷◌, ◌++◌, length, length-append, All,
  All-append, All-imp, ltb, ◌==◌, Bool-cases, not_u64,
}
use toccata.Base.Bits.{bit, bit-zero, bit_and-lt}
use toccata.Meta.Bitmaps.{SpanBitmaps, fold_free_word, word_at, span_base}
use toccata.Meta.Bitmaps.Effects.{
  IsValid, free_bit, with_alloc, with_alloc-IsValid, Folded, fold_free_word-Folded, alloc_clear-eq,
  alloc_clear-free_bit,
}
use toccata.SubHeap.Central.{take_bits, take_word, scan_words}
use toccata.SubHeap.Hands.{
  Slots, free, without_all, without_all_only, AreFree, Slots-ext, free-ext, Handed, Handed-none,
  Handed-trans, Handed-only, Handed-length, places,
}
use toccata.SubHeap.Scan.{Picks, Shows, take_bits-Picks}

-- The slots of words `w` to `w + n` of the span.
abbrev pub InWords : ℕ → ℕ → ℕ → ℕ × ℕ → Type 0
InWords span w n h = (h.0 ≡ span) × (w ≤ h.1 / 64) × (h.1 / 64 < w + n)

-- Handed out are slots of those words, and all that were free there unless there was no room.
pub record Scans (n : ℕ) (p : SpanBitmaps) (osz room span w k : ℕ)
    (r : Option (List ℕ × SpanBitmaps)) : Type 0 where
  pub objs : List ℕ
  pub slots : List (ℕ × ℕ)
  pub left : SpanBitmaps
  pub runs : r ≡ some (objs, left)
  pub handed : Handed n p osz room objs slots left
  pub within : All (InWords span w k) slots
  pub all :
      (length slots ≡ room) ⊎ ((t : ℕ) → w ≤ t / 64 → t / 64 < w + k → free left span t ≡ false)

module _ {n : ℕ} (osz span w : ℕ) (l : span < n) (u : w < 128) where
  -- A folded word shows which slots are free.
  Folded-Shows :
      (p : SpanBitmaps) (word : ℕ) (q : SpanBitmaps)
      → Folded n p span w word q
      → Shows q.base osz span w (free q) word
  unfolding Shows free free_bit
  Folded-Shows p word q f k h = ground (arith, f.drained, f.kept, bit-zero k)

  cleared : SpanBitmaps → ℕ → SpanBitmaps
  cleared q taken =
      with_alloc q (word_at span w) (bit_and (q.alloc_words.at (word_at span w)) (not_u64 taken))

  in_word :
      (p : SpanBitmaps) (word : ℕ) (q : SpanBitmaps) (f : Folded n p span w word q) (room : ℕ)
      (hs : List (ℕ × ℕ)) (objs : List ℕ) (taken : ℕ)
      → Picks q.base osz span w (free q) word 0 room hs (objs, taken)
      → (d : ℕ) → d < 64
      → free (cleared q taken) span (w * 64 + d) ≡ without_all (free q) hs span (w * 64 + d)
  unfolding free cleared Shows
  in_word p word q f room hs objs taken k d ld =
      let t = w * 64 + d in
      let lt : t < 8192 = omega arith in
      let shown = Folded-Shows p word q f d ld in
      ground (
        arith,
        shown,
        k.bits d ld,
        bit-zero d,
        without_all_only (free q) hs span t,
        alloc_clear-free_bit f.valid span w l u taken span t f.drained k.narrow lt,
      )

  out_of_word :
      (p : SpanBitmaps) (word : ℕ) (q : SpanBitmaps) (f : Folded n p span w word q) (room : ℕ)
      (hs : List (ℕ × ℕ)) (objs : List ℕ) (taken : ℕ)
      → Picks q.base osz span w (free q) word 0 room hs (objs, taken)
      → (j t : ℕ) → ((j == span) && (t / 64 == w)) ≡ false
      → free (cleared q taken) j t ≡ without_all (free q) hs j t
  unfolding free cleared
  out_of_word p word q f room hs objs taken k j t e = elim (Bool-cases (ltb t 8192)) [
    | inl s ↦ ground (
      arith,
      e,
      k.others j t e,
      alloc_clear-free_bit f.valid span w l u taken j t f.drained k.narrow (ground (arith, s)),
    )
    | inr s ↦ ground (arith, s, without_all_only (free q) hs j t)
  ]

  cleared-free :
      (p : SpanBitmaps) (word : ℕ) (q : SpanBitmaps) (f : Folded n p span w word q) (room : ℕ)
      (hs : List (ℕ × ℕ)) (objs : List ℕ) (taken : ℕ)
      → Picks q.base osz span w (free q) word 0 room hs (objs, taken)
      → free (cleared q taken) ≡ without_all (free q) hs
  cleared-free p word q f room hs objs taken k = Slots-ext (λ j t.
      elim (Bool-cases ((j == span) && (t / 64 == w))) [
        | inl e ↦
            let ej : j ≡ span = ground (arith, e) in
            let et : t ≡ w * 64 + t % 64 = ground (arith, e) in
            subst (λ i. free (cleared q taken) i t ≡ without_all (free q) hs i t) (sym ej)
              (subst (λ s. free (cleared q taken) span s ≡ without_all (free q) hs span s) (sym et)
                (in_word p word q f room hs objs taken k (t % 64) (omega arith)))
        | inr e ↦ out_of_word p word q f room hs objs taken k j t e
      ])

  -- What a fold leaves is what it was before, as far as the free slots go.
  Folded-Handed :
      (p : SpanBitmaps) (word : ℕ) (q : SpanBitmaps) (room : ℕ)
      → Folded n p span w word q
      → Handed n p osz room [] [] q
  unfolding without_all AreFree places
  Folded-Handed p word q room f = record {
    valid = f.valid;
    objects = refl;
    gone = free-ext p q f.same_slots;
    are_free = tt;
    few = omega arith;
    same_base = f.same_base;
    same_links = f.same_links;
    same_marks = f.same_marks;
  }

  cleared-Handed :
      (p : SpanBitmaps) (word : ℕ) (q : SpanBitmaps) (f : Folded n p span w word q) (room : ℕ)
      (hs : List (ℕ × ℕ)) (objs : List ℕ) (taken : ℕ)
      → Picks q.base osz span w (free q) word 0 room hs (objs, taken)
      → Handed n q osz room objs hs (cleared q taken)
  unfolding cleared
  cleared-Handed p word q f room hs objs taken k = record {
    valid =
        with_alloc-IsValid (word_at span w) _ (bit_and-lt 64 _ _ (f.valid.alloc_wide _)) f.valid;
    objects = k.objects;
    gone = cleared-free p word q f room hs objs taken k;
    are_free = k.are_free;
    few = k.few;
    same_base = refl;
    same_links = refl;
    same_marks = refl;
  }

  here-InWords :
      (hs : List (ℕ × ℕ)) → All (λ h. (h.0 ≡ span) × (h.1 / 64 ≡ w)) hs → All (InWords span w 1) hs
  here-InWords [] a = tt
  here-InWords (h ∷ hs) ((j, t), a) = ((j, omega (arith, t), omega (arith, t)), here-InWords hs a)

  -- No free slot of the word is left where all its bits are taken.
  word_left :
      (g : Slots)
      → ((d : ℕ) → d < 64 → g span (w * 64 + d) ≡ false)
      → (t : ℕ) → w ≤ t / 64
      → t / 64 < w + 1
      → g span t ≡ false
  word_left g none_left t a b =
      let at : t ≡ w * 64 + t % 64 = omega arith in
      subst (λ s. g span s ≡ false) (sym at) (none_left (t % 64) (omega arith))

  module _ (p : SpanBitmaps) (word : ℕ) (q : SpanBitmaps)
      (runs : fold_free_word p span w ≡ some (word, q)) (f : Folded n p span w word q) (room : ℕ)
      (some_room : (room == 0) ≡ false) where
    word_wide : word < 2 ^ 64
    word_wide = omega (arith, f.kept, f.valid.alloc_wide (word_at span w))

    empty_word-Scans :
        (word == 0) ≡ true → Scans n p osz room span w 1 (take_word p span osz w room)
    unfolding take_word Shows
    empty_word-Scans z =
        let nil : word ≡ 0 = ground (arith, z) in
        record {
          objs = [];
          slots = [];
          left = q;
          runs = rw (some_room, runs, z) refl;
          handed = Folded-Handed p word q room f;
          within = tt;
          all = inr (
              word_left (free q)
                (λ d ld. Folded-Shows p word q f d ld ∙ ap (λ x. bit x d) nil ∙ bit-zero d));
        }

    some_word-Scans :
        (word == 0) ≡ false → Scans n p osz room span w 1 (take_word p span osz w room)
    unfolding take_word cleared span_base
    some_word-Scans nz =
        let r = take_bits (span_base q span) osz w room word 0 in
        let (hs, k) =
          take_bits-Picks q.base osz span w room word 0 (free q) word_wide (omega arith)
            (Folded-Shows p word q f) in
        let done = cleared-Handed p word q f room hs r.0 r.1 k in
        record {
          objs = r.0;
          slots = hs;
          left = cleared q r.1;
          runs = rw (some_room, runs, nz) (rw (alloc_clear-eq f.valid span w l u r.1) refl);
          handed = Handed-trans (Folded-Handed p word q room f) done (omega arith);
          within = here-InWords hs k.here;
          all = elim k.all [
            | inl full ↦ inl full
            | inr none_left ↦ inr (
                word_left (free (cleared q r.1))
                  (λ d ld. ap (λ g. g span (w * 64 + d)) done.gone ∙ none_left d ld))
          ];
        }

  take_word-Scans :
      (p : SpanBitmaps) (room : ℕ)
      → IsValid n p
      → Scans n p osz room span w 1 (take_word p span osz w room)
  unfolding take_word
  take_word-Scans p room v = elim (Bool-cases (room == 0)) [
    | inl e ↦ record {
      objs = [];
      slots = [];
      left = p;
      runs = rw e refl;
      handed = Handed-none osz room v;
      within = tt;
      all = inl (ground (arith, e));
    }
    | inr e ↦
        let (word, q, runs, f) = fold_free_word-Folded v span w l u in
        elim (Bool-cases (word == 0)) [
          | inl z ↦ empty_word-Scans p word q runs f room e z
          | inr nz ↦ some_word-Scans p word q runs f room e nz
        ]
  ]

-- Scanning `k` words of a span.
pub scan_words-Scans :
    {n : ℕ} (osz span : ℕ)
    → span < n
    → (k w : ℕ) (p : SpanBitmaps) (room : ℕ) → IsValid n p
    → w + k ≤ 128
    → Scans n p osz room span w k (scan_words p span osz k w room)
unfolding scan_words
scan_words-Scans osz span l zero w p room v fits = record {
  objs = [];
  slots = [];
  left = p;
  runs = refl;
  handed = Handed-none osz room v;
  within = tt;
  all = inr (λ t a b. absurd (omega arith));
}
scan_words-Scans osz span l (suc k) w p room v fits =
    let a = take_word-Scans osz span w l (omega arith) p room v in
    let len = Handed-length a.handed in
    let b =
      scan_words-Scans osz span l k (w + 1) a.left (room - length a.objs) a.handed.valid
        (omega arith) in
    record {
      objs = a.objs ++ b.objs;
      slots = a.slots ++ b.slots;
      left = b.left;
      runs = rw (a.runs, b.runs) refl;
      handed = Handed-trans a.handed b.handed (omega (arith, len, a.handed.few));
      within =
          All-append (InWords span w (suc k)) a.slots b.slots
            (All-imp (InWords span w 1) (InWords span w (suc k)) a.slots
              (λ h i. (i.0, i.1, omega (arith, i.2))) a.within)
            (All-imp (InWords span (w + 1) k) (InWords span w (suc k)) b.slots
              (λ h i. (i.0, omega (arith, i.1), omega (arith, i.2))) b.within);
      all = elim b.all [
        | inl full ↦ inl (omega (arith, len, full, a.handed.few, length-append a.slots b.slots))
        | inr none_b ↦ elim a.all [
          | inl full ↦ inl (omega (arith, len, full, b.handed.few, length-append a.slots b.slots))
          | inr none_a ↦ inr (λ t low high. elim (Bool-cases (t / 64 == w)) [
            | inl e ↦ Handed-only b.handed span t (none_a t low (ground (arith, e)))
            | inr e ↦ none_b t (ground (arith, e)) (omega arith)
          ])
        ]
      ];
    }
