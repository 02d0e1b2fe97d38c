-- ===== src/Meta/Bitmaps/Protocol.antt =====
-- The two halves of one bitmap word of toccata-core/src/meta.rs under concurrent use: threads that
-- free objects deposit with one `fetch_or`, in between any two accesses of the owner, which folds in
-- three (the load, the `swap(0)` and the store) and hands out slots of its own word.
use Prim.Native.Nat.{bit_and, bit_or}
use toccata.Meta.Bitmaps.{SpanBitmaps, fold_free_word, word_at}
use toccata.Meta.Bitmaps.Effects.{IsValid, with_alloc, with_free, alloc-inside, free-inside}
use toccata.Base.{
  some, ℕ, ◌+◌, ◌^◌, ◌<◌, ◌≡◌, ◌≢◌, refl, ap, arith, ◌&&◌, ◌||◌, ltb, ◌==◌, Bool, true, false,
  Bool-cases, if◌then◌else◌, ◌≤◌, update, shl_u64, not_u64, inl, inr,
}
use toccata.Base.Bits.{
  bit, bit-or_shl, bit-bit_or, bit-bit_and, bit-not_u64, bit-zero, bit_or-lt, bit_and-lt, or_shl-lt,
}

-- How far the owner is in `fold_free_word`.
pub data Phase : Type 0 where
  idle : Phase
  peeked : Phase
  swapped : ℕ → Phase

-- `held` are the slots whose objects are with some thread: live, or in a magazine.
pub record Word : Type 0 where
  pub alloc : ℕ
  pub free : ℕ
  pub phase : Phase
  pub held : ℕ → Bool

pub data Step : Word → Word → Type 0 where
  deposit :
      {w : Word} (slot : ℕ)
      → slot < 64
      → w.held slot ≡ true
      → Step w (record w { free = bit_or w.free (shl_u64 1 slot); held = update w.held slot false })
  peek : {w : Word} → w.phase ≡ idle → w.free ≢ 0 → Step w (record w { phase = peeked })
  swap : {w : Word} → w.phase ≡ peeked → Step w (record w { free = 0; phase = swapped w.free })
  store :
      {w : Word} (incoming : ℕ)
      → w.phase ≡ swapped incoming
      → Step w (record w { alloc = bit_or w.alloc incoming; phase = idle })
  hand_out :
      {w : Word} (taken : ℕ)
      → w.phase ≡ idle
      → taken < 2 ^ 64
      → ((k : ℕ) → k < 64 → bit taken k ≡ true → bit w.alloc k ≡ true)
      → Step w (record w {
        alloc = bit_and w.alloc (not_u64 taken);
        held = λ k. w.held k || (ltb k 64 && bit taken k);
      })

pub data Steps : Word → Word → Type 0 where
  done : {w : Word} → Steps w w
  next : {u v w : Word} → Step u v → Steps v w → Steps u w

-- The slot is in the word that the owner has swapped out and not yet stored.
abbrev pub in_flight : Phase → ℕ → Bool
in_flight idle k = false
in_flight peeked k = false
in_flight (swapped incoming) k = bit incoming k

abbrev pub one : Bool → ℕ
one false = 0
one true = 1

abbrev IsWide : Phase → Type 0
IsWide idle = Unit
IsWide peeked = Unit
IsWide (swapped incoming) = incoming < 2 ^ 64

-- Every slot is in exactly one place.
pub record IsExclusive (w : Word) : Type 0 where
  pub once :
      (k : ℕ)
      → k < 64
      → one (w.held k) + one (bit w.alloc k) + one (bit w.free k) + one (in_flight w.phase k) ≡ 1
  pub alloc_wide : w.alloc < 2 ^ 64
  pub free_wide : w.free < 2 ^ 64
  pub phase_wide : IsWide w.phase

Step-IsExclusive : {v w : Word} → Step v w → IsExclusive v → IsExclusive w
Step-IsExclusive {v} (deposit slot l h) i = record {
  once = λ k u. ground (arith, i.once k u, bit-or_shl slot k v.free l u, h);
  alloc_wide = i.alloc_wide;
  free_wide = or_shl-lt slot v.free i.free_wide;
  phase_wide = i.phase_wide;
}
Step-IsExclusive {v} (peek e ne) i = record {
  once = λ k u. rw e at i.once k u;
  alloc_wide = i.alloc_wide;
  free_wide = i.free_wide;
  phase_wide = tt;
}
Step-IsExclusive {v} (swap e) i = record {
  once = λ k u. let before = rw e at i.once k u in omega (arith, before, ap one (bit-zero k));
  alloc_wide = i.alloc_wide;
  free_wide = omega arith;
  phase_wide = i.free_wide;
}
Step-IsExclusive {v} (store incoming e) i = record {
  once = λ k u.
      let before = rw e at i.once k u in ground (arith, before, bit-bit_or k v.alloc incoming);
  alloc_wide = bit_or-lt 64 v.alloc incoming i.alloc_wide (rw e at i.phase_wide);
  free_wide = i.free_wide;
  phase_wide = tt;
}
Step-IsExclusive {v} (hand_out taken e l owned) i = record {
  once = λ k u. ground (
    arith,
    i.once k u,
    owned k u,
    bit-bit_and k v.alloc (not_u64 taken),
    bit-not_u64 k taken l u,
  );
  alloc_wide = bit_and-lt 64 v.alloc (not_u64 taken) i.alloc_wide;
  free_wide = i.free_wide;
  phase_wide = i.phase_wide;
}

-- Whatever the interleaving, a slot is held by a thread, or free in one of the two words, or in
-- flight between them, and never two of these: no slot is handed out twice, and none is lost.
pub Steps-IsExclusive : {v w : Word} → Steps v w → IsExclusive v → IsExclusive w
Steps-IsExclusive done i = i
Steps-IsExclusive (next s ss) i = Steps-IsExclusive ss (Step-IsExclusive s i)

-- What the owner does alone, between two calls or to the end of one: `Owner n w u` is a run of its own
-- loads, swaps and stores, with no deposit and nothing handed out, in which it begins `n` folds.
pub data Owner : ℕ → Word → Word → Type 0 where
  still : {w : Word} → Owner 0 w w
  peeks :
      {n : ℕ} {w u : Word}
      → w.phase ≡ idle
      → w.free ≢ 0
      → Owner n (record w { phase = peeked }) u
      → Owner (n + 1) w u
  swaps :
      {n : ℕ} {w u : Word}
      → w.phase ≡ peeked
      → Owner n (record w { free = 0; phase = swapped w.free }) u
      → Owner n w u
  stores :
      {n : ℕ} {w u : Word} (incoming : ℕ)
      → w.phase ≡ swapped incoming
      → Owner n (record w { alloc = bit_or w.alloc incoming; phase = idle }) u
      → Owner n w u

Owner-Steps : {n : ℕ} {w u : Word} → Owner n w u → Steps w u
Owner-Steps still = done
Owner-Steps (peeks e ne o) = next (peek e ne) (Owner-Steps o)
Owner-Steps (swaps e o) = next (swap e) (Owner-Steps o)
Owner-Steps (stores incoming e o) = next (store incoming e) (Owner-Steps o)

Owner-held : {n : ℕ} {w u : Word} → Owner n w u → (k : ℕ) → u.held k ≡ w.held k
Owner-held still k = refl
Owner-held (peeks e ne o) k = Owner-held o k
Owner-held (swaps e o) k = Owner-held o k
Owner-held (stores incoming e o) k = Owner-held o k

-- `w` once the owner has gone on to the end of a fold, with one more fold begun at most.
record IsFolded (w u : Word) : Type 0 where
  folds : ℕ
  few : folds ≤ 1
  owner : Owner folds w u
  idle_again : u.phase ≡ idle
  drained : u.free ≡ 0

fold-idle : (w : Word) → w.phase ≡ idle → (u : Word) × IsFolded w u
fold-idle w e = elim (Bool-cases (w.free == 0)) [
  | inl z ↦ (
    w,
    record {
      folds = 0;
      few = omega arith;
      owner = still;
      idle_again = e;
      drained = ground (arith, z);
    },
  )
  | inr ne ↦ (
    _,
    record {
      folds = 1;
      few = omega arith;
      owner = peeks e (ground (arith, ne)) (swaps refl (stores w.free refl still));
      idle_again = refl;
      drained = refl;
    },
  )
]

fold-peeked : (w : Word) → w.phase ≡ peeked → (u : Word) × IsFolded w u
fold-peeked w e = (
  _,
  record {
    folds = 0;
    few = omega arith;
    owner = swaps e (stores w.free refl still);
    idle_again = refl;
    drained = refl;
  },
)

fold-swapped : (w : Word) (incoming : ℕ) → w.phase ≡ swapped incoming → (u : Word) × IsFolded w u
fold-swapped w incoming e =
    let (u, f) = fold-idle (record w { alloc = bit_or w.alloc incoming; phase = idle }) refl in
    (
      u,
      record {
        folds = f.folds;
        few = f.few;
        owner = stores incoming e f.owner;
        idle_again = f.idle_again;
        drained = f.drained;
      },
    )

fold-any : (w : Word) (phase : Phase) → w.phase ≡ phase → (u : Word) × IsFolded w u
fold-any w idle e = fold-idle w e
fold-any w peeked e = fold-peeked w e
fold-any w (swapped incoming) e = fold-swapped w incoming e

-- From every reachable state the owner alone can go on, without a deposit and without handing out, and
-- beginning one fold at most, until it is idle, its word of deposits is empty, and every slot that no
-- thread holds is one that it may hand out. What the threads hold does not change on the way.
pub Steps-recovers :
    {v w : Word}
    → Steps v w
    → IsExclusive v
    → (n : ℕ) × (u : Word) × (n ≤ 1)
      × Owner n w u
      × (u.phase ≡ idle)
      × (u.free ≡ 0)
      × ((k : ℕ) → u.held k ≡ w.held k)
      × ((k : ℕ) → k < 64 → w.held k ≡ false → bit u.alloc k ≡ true)
Steps-recovers {v} {w} ss i =
    let (u, f) = fold-any w w.phase refl in
    let held = Owner-held f.owner in
    let final = Steps-IsExclusive (Owner-Steps f.owner) (Steps-IsExclusive ss i) in
    (
      f.folds,
      u,
      f.few,
      f.owner,
      f.idle_again,
      f.drained,
      held,
      λ k l h.
          let only = rw (f.idle_again, f.drained, bit-zero k, held k, h) at (final.once k l) in
          ground (arith, only),
    )

-- Word `i` of the bitmaps, with the owner between two calls.
abbrev pub word_state : SpanBitmaps → ℕ → (ℕ → Bool) → Word
word_state p i held = record {
  alloc = p.alloc_words.at i;
  free = p.free_words.at i;
  phase = idle;
  held = held;
}

==-refl : (i : ℕ) → (i == i) ≡ true
==-refl i = ground arith

-- A call of `fold_free_word` returns what the owner's word holds afterwards. In between are the owner's
-- steps alone on that word, from idle to idle: one whole fold where there are deposits, and none where
-- there are not. The word of deposits is empty afterwards, and every other word is as it was.
pub fold_free_word-Steps :
    {n : ℕ} {p : SpanBitmaps} (idx w : ℕ) (held : ℕ → Bool)
    → IsValid n p
    → idx < n
    → w < 128
    → (q : SpanBitmaps) × (fold_free_word p idx w ≡ some (q.alloc_words.at (word_at idx w), q))
      × Owner
          (if p.free_words.at (word_at idx w) == 0 then 0 else 1)
          (word_state p (word_at idx w) held)
          (word_state q (word_at idx w) held)
      × (q.free_words.at (word_at idx w) ≡ 0)
      × ((j : ℕ) → j ≢ word_at idx w → q.alloc_words.at j ≡ p.alloc_words.at j)
      × ((j : ℕ) → j ≢ word_at idx w → q.free_words.at j ≡ p.free_words.at j)
unfolding fold_free_word
fold_free_word-Steps {n} {p} idx w held v l u =
    let i = word_at idx w in
    elim (Bool-cases (p.free_words.at i == 0)) [
      | inl e ↦ (
        p,
        ground (arith, alloc-inside v idx w l u, free-inside v idx w l u, e),
        rw e still,
        ground (arith, e),
        λ j ne. refl,
        λ j ne. refl,
      )
      | inr e ↦ (
        with_alloc (with_free p i 0) i (bit_or (p.alloc_words.at i) (p.free_words.at i)),
        ground (arith, alloc-inside v idx w l u, free-inside v idx w l u, e),
        rw (==-refl i, e)
            (peeks refl (ground (arith, e)) (swaps refl (stores (p.free_words.at i) refl still))),
        ground arith,
        λ j ne. ground (arith, ne),
        λ j ne. ground (arith, ne),
      )
    ]
