-- ===== src/Meta/Bitmaps/Tests.antt =====
-- The bitmaps of toccata-core/src/meta.rs at concrete inputs: an arena of four spans.
use toccata.Base.{
  ℕ, zero, suc, ◌-◌, ◌*◌, ◌%◌, ◌^◌, ◌≤◌, ◌<◌, ◌≡◌, ◌≢◌, ◌↔◌, refl, arith, Option, none, some, ◌>>=◌,
  Bool, true, false, ◌==◌, if◌then◌else◌, List, [], ◌∷◌, All, update, shl_u64, leb,
}
use Prim.Native.Nat.{bit_or}
use toccata.Base.Bits.{bit, bit-zero}
use toccata.Meta.Bitmaps.{
  SpanBitmaps, new, link_front, unlink_active, is_fully_free, fold_free_word, word_at,
}
use toccata.Meta.Bitmaps.Active.{IsActive, unlink_active-IsActive}
use toccata.Meta.Bitmaps.Chain.{before_of}
use toccata.Meta.Bitmaps.Effects.{IsValid, free_bit, with_alloc, with_alloc-IsValid}
use toccata.Meta.Bitmaps.FullyFree.{is_fully_free_iff}
use toccata.Meta.Bitmaps.Protocol.{
  Word, idle, Owner, Steps, done, next, deposit, IsExclusive, word_state, Steps-IsExclusive,
  Steps-recovers, fold_free_word-Steps,
}
use toccata.Meta.Bitmaps.Refine.{
  Op, deposits, deposits_mask, folds, carves, takes, run, run_effect, run-refines,
}

four : SpanBitmaps
unfolding new
four = new (2 ^ 32) (4 * 2 ^ 16)

four-IsValid : IsValid 4 four
unfolding four
four-IsValid = record {
  alloc_len = refl;
  free_len = refl;
  next_len = refl;
  on_list_len = refl;
  alloc_wide = λ i. omega arith;
  free_wide = λ i. omega arith;
}

-- A carve of ten slots, a refill of two of them, and their deposits.
abbrev calls : List Op
calls = carves 1 0 1023 ∷ takes 1 0 3 ∷ deposits 1 0 ∷ deposits_mask 1 0 2 ∷ folds 1 0 ∷ []

run-refines_example :
    (q : SpanBitmaps) × (run four calls ≡ some q)
    × IsValid 4 q
    × ((j t : ℕ) → t < 8192 → free_bit q j t ≡ run_effect calls j t (free_bit four j t))
run-refines_example = run-refines calls four-IsValid (
  (omega arith, omega arith, omega arith),
  (
    (omega arith, omega arith, omega arith),
    (
      (omega arith, omega arith),
      ((omega arith, omega arith, omega arith), ((omega arith, omega arith), tt)),
    ),
  ),
)

-- Span 0 with two slots, both free.
two_free : SpanBitmaps
two_free = with_alloc four (word_at 0 0) 3

bit-three : (k : ℕ) → 2 ≤ k → bit 3 k ≡ false
unfolding bit
bit-three zero h = absurd (omega arith)
bit-three (suc zero) h = absurd (omega arith)
bit-three (suc (suc k)) h = bit-zero k

two_free-tail : (t : ℕ) → 2 ≤ t → t < 8192 → free_bit two_free 0 t ≡ false
unfolding two_free four free_bit
two_free-tail t l h = ground (arith, bit-three (t % 64), bit-zero (t % 64))

is_fully_free_iff_example :
    (b : Bool) × (q : SpanBitmaps) × (is_fully_free two_free 0 2 ≡ some (b, q))
    × IsValid 4 q
    × ((j t : ℕ) → t < 8192 → free_bit q j t ≡ free_bit two_free j t)
    × ((b ≡ true) ↔ ((t : ℕ) → t < 2 → free_bit two_free 0 t ≡ true))
unfolding two_free
is_fully_free_iff_example =
    is_fully_free_iff 0 2 (with_alloc-IsValid (word_at 0 0) 3 (omega arith) four-IsValid)
      (omega arith) (omega arith) two_free-tail

-- The list of span 2 alone, and what linking span 1 in front of it leaves.
listed : Option (ℕ × SpanBitmaps)
listed = do (h, p) ← link_front four 2 (2 ^ 32 - 1); link_front p 1 h

-- Spans 1 and 2 linked, by hand.
chained : SpanBitmaps
unfolding four link_front listed
chained = elim listed [ none ↦ four | some (h, p) ↦ p ]

chained-IsValid : IsValid 4 chained
unfolding chained
chained-IsValid = record {
  alloc_len = refl;
  free_len = refl;
  next_len = refl;
  on_list_len = refl;
  alloc_wide = λ i. omega arith;
  free_wide = λ i. omega arith;
}

unlink_active-IsActive_example :
    (new_head : ℕ) × (q : SpanBitmaps) × (unlink_active chained 2 (before_of (1 ∷ [])) 1
      ≡ some (new_head, q))
    × IsActive 4 q new_head (1 ∷ [])
    × (q.on_list.at 2 ≡ false)
    × ((other : ℕ) (zs : List ℕ)
        → All (λ z. z ≢ 2) zs
        → All (λ z. z ≢ before_of (1 ∷ [])) zs
        → IsActive 4 chained other zs
        → IsActive 4 q other zs)
unfolding chained
unlink_active-IsActive_example =
    unlink_active-IsActive (1 ∷ []) 2 [] 1 chained-IsValid (omega arith) (record {
      chain = (refl, omega arith, (refl, omega arith, refl));
      distinct = ((omega arith, tt), (tt, tt));
      inside = (omega arith, (omega arith, tt));
      marked = (refl, (refl, tt));
    })

-- A word whose slots are all held, and the deposit of slot 5.
abbrev all_held : Word
all_held = record { alloc = 0; free = 0; phase = idle; held = λ k. true }

all_held-IsExclusive : IsExclusive all_held
all_held-IsExclusive = record {
  once = λ k l. ground (arith, bit-zero k);
  alloc_wide = omega arith;
  free_wide = omega arith;
  phase_wide = tt;
}

abbrev one_free : Word
one_free = record {
  alloc = 0;
  free = bit_or 0 (shl_u64 1 5);
  phase = idle;
  held = update (λ k. true) 5 false;
}

deposit_five : Steps all_held one_free
deposit_five = next (deposit 5 (omega arith) refl) done

Steps-IsExclusive_example : IsExclusive one_free
Steps-IsExclusive_example = Steps-IsExclusive deposit_five all_held-IsExclusive

Steps-recovers_example :
    (n : ℕ) × (u : Word) × (n ≤ 1)
    × Owner n one_free u
    × (u.phase ≡ idle)
    × (u.free ≡ 0)
    × ((k : ℕ) → u.held k ≡ one_free.held k)
    × ((k : ℕ) → k < 64 → one_free.held k ≡ false → bit u.alloc k ≡ true)
Steps-recovers_example = Steps-recovers deposit_five all_held-IsExclusive

fold_free_word-Steps_example :
    (q : SpanBitmaps) × (fold_free_word two_free 0 0 ≡ some (q.alloc_words.at (word_at 0 0), q))
    × Owner
        (if two_free.free_words.at (word_at 0 0) == 0 then 0 else 1)
        (word_state two_free (word_at 0 0) (λ k. leb 2 k))
        (word_state q (word_at 0 0) (λ k. leb 2 k))
    × (q.free_words.at (word_at 0 0) ≡ 0)
    × ((j : ℕ) → j ≢ word_at 0 0 → q.alloc_words.at j ≡ two_free.alloc_words.at j)
    × ((j : ℕ) → j ≢ word_at 0 0 → q.free_words.at j ≡ two_free.free_words.at j)
unfolding two_free
fold_free_word-Steps_example =
    fold_free_word-Steps 0 0 (λ k. leb 2 k)
      (with_alloc-IsValid (word_at 0 0) 3 (omega arith) four-IsValid) (omega arith) (omega arith)
