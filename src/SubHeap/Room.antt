-- ===== src/SubHeap/Room.antt =====
-- `refill_batch` of toccata-core/src/subheap.rs never writes past the slice it is to fill.
use Prim.Native.Nat.{bit_and, bit_or}
use toccata.Base.{
  ℕ, zero, suc, ◌+◌, ◌-◌, ◌≤◌, inl, inr, arith, Bool, true, false, Bool-cases, Option, none, some,
  ◌>>=◌, List, [], ◌∷◌, ◌++◌, length, length-append, ◌==◌, if◌then◌else◌, not_u64, shl_u64,
  trailing_zeros, ◌||◌, div_ceil, read, ltb, mul_usize,
}
use toccata.SpanPool.{no_span}
use toccata.Meta.Bitmaps.{SpanBitmaps, fold_free_word, alloc_clear, next}
use toccata.Meta.Table.{SpanTable}
use toccata.SizeClass.{size_of_class}
use toccata.Slab.{Thread, current}
use toccata.SubHeap.{batch_for}
use toccata.SubHeap.Central.{
  CentralList, take_bits, take_word, scan_words, scan_span, scan_unless, walk, hinted,
  slots_per_span, central_take,
}
use toccata.SubHeap.Carving.{central_carve}
use toccata.SubHeap.Pools.{Pools, shard_of, central, charge}
use toccata.SubHeap.Serve.{
  take_from_list, carve_and_take, top_up, refill_batch, lock_list, unlock_list,
}

-- The objects of a result are no more than there is room for.
abbrev pub AtMost : {X : Type 0} → ℕ → Option (List ℕ × X) → Type 0
AtMost room none = Unit
AtMost room (some (objs, x)) = length objs ≤ room

bind-AtMost :
    {X Y : Type 0} (room : ℕ) (m : Option Y) (f : Y → Option (List ℕ × X))
    → ((y : Y) → AtMost room (f y))
    → AtMost room (m >>= f)
bind-AtMost room none f h = tt
bind-AtMost room (some y) f h = h y

-- The objects of the first part leave the rest of the room to the others.
then-AtMost :
    {X Y : Type 0} (room less : ℕ) (m : Option (List ℕ × Y)) (f : List ℕ × Y → Option (List ℕ × X))
    → AtMost less m
    → ((objs : List ℕ) (y : Y) → length objs ≤ less → AtMost room (f (objs, y)))
    → AtMost room (m >>= f)
then-AtMost room less none f a h = tt
then-AtMost room less (some (objs, y)) f a h = h objs y a

if-AtMost :
    {X : Type 0} (room : ℕ) (b : Bool) (t e : Option (List ℕ × X))
    → AtMost room t
    → AtMost room e
    → AtMost room (if b then t else e)
if-AtMost room true t e h k = h
if-AtMost room false t e h k = k

append_within :
    (room : ℕ) (xs ys : List ℕ)
    → length xs ≤ room
    → length ys ≤ room - length xs
    → length (xs ++ ys) ≤ room
append_within room xs ys l h = omega (arith, l, h, length-append xs ys)

take_bits_within :
    (base osz w room word taken : ℕ) → length (take_bits base osz w room word taken).0 ≤ room
unfolding take_bits
take_bits_within base osz w zero word taken = omega arith
take_bits_within base osz w (suc room) word taken =
    let m = shl_u64 1 (trailing_zeros word) in
    let rest = take_bits_within base osz w room (bit_and word (not_u64 m)) (bit_or taken m) in
    elim (Bool-cases (word == 0)) [
      | inl e ↦ rw (take_bits, e) (omega arith)
      | inr e ↦ rw (take_bits, e) (omega (arith, rest))
    ]

take_word-AtMost :
    (p : SpanBitmaps) (span osz w room : ℕ) → AtMost room (take_word p span osz w room)
unfolding take_word
take_word-AtMost p span osz w room = if-AtMost room (room == 0) _ _ (omega arith) (
    bind-AtMost room (fold_free_word p span w) _ (λ r.
      if-AtMost room (r.0 == 0) _ _ (omega arith)
        (bind-AtMost room (alloc_clear r.1 span w _) _ (λ q. take_bits_within _ osz w room r.0 0))))

scan_words-AtMost :
    (p : SpanBitmaps) (span osz n w room : ℕ) → AtMost room (scan_words p span osz n w room)
unfolding scan_words
scan_words-AtMost p span osz zero w room = omega arith
scan_words-AtMost p span osz (suc n) w room =
    then-AtMost room room (take_word p span osz w room) _ (take_word-AtMost p span osz w room)
      (λ objs q l.
        then-AtMost room (room - length objs) (scan_words q span osz n (w + 1) (room - length objs))
          _ (scan_words-AtMost q span osz n (w + 1) (room - length objs))
          (λ rest q h. append_within room objs rest l h))

scan_unless-AtMost :
    (p : SpanBitmaps) (hint span room nwords osz : ℕ)
    → AtMost room (scan_unless p hint span room nwords osz)
unfolding scan_unless
scan_unless-AtMost p hint span room nwords osz =
    if-AtMost room (span == hint) _ _ (omega arith) (scan_words-AtMost p span osz nwords 0 room)

walk-AtMost :
    (fuel : ℕ) (p : SpanBitmaps) (hint span room nwords osz : ℕ)
    → AtMost room (walk fuel p hint span room nwords osz)
unfolding walk
walk-AtMost zero p hint span room nwords osz =
    if-AtMost room (room == 0 || (span == no_span)) _ _ (omega arith) tt
walk-AtMost (suc fuel) p hint span room nwords osz =
    elim (Bool-cases (room == 0 || (span == no_span))) [
      | inl e ↦ rw (walk, e) (omega arith)
      | inr e ↦
          rw (walk, e)
            (then-AtMost room room (scan_unless p hint span room nwords osz) _
              (scan_unless-AtMost p hint span room nwords osz)
              (λ objs q l. bind-AtMost room (next q span) _ (λ succ.
                then-AtMost room (room - length objs)
                  (walk fuel q hint succ (room - length objs) nwords osz) _
                  (walk-AtMost fuel q hint succ (room - length objs) nwords osz)
                  (λ rest q h. append_within room objs rest l h))))
    ]

central_take-AtMost :
    (fuel : ℕ) (c : CentralList) (p : SpanBitmaps) (spans : SpanTable) (room osz class : ℕ)
    → AtMost room (central_take fuel c p spans room osz class)
unfolding central_take
central_take-AtMost fuel c p spans room osz class =
    let nwords = div_ceil (slots_per_span osz) 64 in
    if-AtMost room (osz == 0) _ _ tt (
      bind-AtMost room (hinted c p spans osz class) _ (λ hint.
        then-AtMost room room
          (if hint == no_span then some ([], p) else scan_span p hint room nwords osz) _
          (if-AtMost room (hint == no_span) _ _ (omega arith)
            (scan_words-AtMost p hint osz nwords 0 room))
          (λ objs q l.
            then-AtMost room (room - length objs)
              (walk fuel q hint c.head (room - length objs) nwords osz) _
              (walk-AtMost fuel q hint c.head (room - length objs) nwords osz)
              (λ rest q h. append_within room objs rest l h))))

take_from_list-AtMost :
    (fuel : ℕ) (s : Pools) (i room osz class : ℕ)
    → AtMost room (take_from_list fuel s i room osz class)
take_from_list-AtMost fuel s i room osz class = bind-AtMost room (read s.central i) _ (λ c.
    then-AtMost room room (central_take fuel c s.bitmaps s.store.spans room osz class) _
      (central_take-AtMost fuel c s.bitmaps s.store.spans room osz class) (λ objs p l. l))

-- A carve and the take of what it made, for the length of the carve.
carve_and_take-AtMost :
    (fuel : ℕ) (s : Pools) (got : Bool) (i class my_shard batch room osz : ℕ)
    → AtMost room (carve_and_take fuel s got i class my_shard batch room osz)
carve_and_take-AtMost fuel s got i class my_shard batch room osz =
    bind-AtMost room (central_carve s got i class my_shard batch) _ (λ r. taken r.0 r.1)
  where
    taken :
        (carved : ℕ) (s : Pools)
        → AtMost room (elim (carved == 0) [
          | true ↦ some ([], s)
          | false ↦ take_from_list (fuel + carved) s i room osz class
        ])
    taken carved s = elim (Bool-cases (carved == 0)) [
      | inl e ↦ rw e (omega arith)
      | inr e ↦ rw e (take_from_list-AtMost (fuel + carved) s i room osz class)
    ]

top_up-AtMost :
    (n fuel : ℕ) (s : Pools) (got : Bool) (i class my_shard batch room osz : ℕ)
    → AtMost room (top_up n fuel s got i class my_shard batch room osz)
top_up-AtMost zero fuel s got i class my_shard batch room osz =
    if-AtMost room (room == 0) _ _ (omega arith) tt
top_up-AtMost (suc n) fuel s got i class my_shard batch room osz = elim (Bool-cases (room == 0)) [
  | inl e ↦ rw (top_up, e) (omega arith)
  | inr e ↦
      rw (top_up, e)
        (then-AtMost room room (carve_and_take fuel s got i class my_shard batch room osz) _
          (carve_and_take-AtMost fuel s got i class my_shard batch room osz)
          (more (λ f s left. top_up-AtMost n f s got i class my_shard batch left osz)))
]
  where
    more :
        ((f : ℕ) (s : Pools) (left : ℕ)
          → AtMost left (top_up n f s got i class my_shard batch left osz))
        → (objs : List ℕ) (s : Pools) → length objs ≤ room
        → AtMost room (elim objs [
          | [] ↦ some ([], s)
          | p ∷ rest ↦ do
            (more, s) ←
                top_up n
                  (fuel + s.bitmaps.next_active.len)
                  s
                  got
                  i
                  class
                  my_shard
                  batch
                  (room - length (p ∷ rest))
                  osz
            some ((p ∷ rest) ++ more, s)
        ])
    more rec [] s l = omega arith
    more rec (p ∷ rest) s l =
        then-AtMost room (room - length (p ∷ rest))
          (top_up n (fuel + s.bitmaps.next_active.len) s got i class my_shard batch
            (room - length (p ∷ rest)) osz)
          _ (rec (fuel + s.bitmaps.next_active.len) s (room - length (p ∷ rest)))
          (λ found s h. append_within room (p ∷ rest) found l h)

-- A refill returns no more objects than there is room for.
pub refill_batch-AtMost :
    (fuel : ℕ) (s : Pools) (t : Thread) (got : Bool) (thread class room : ℕ)
    → AtMost room (refill_batch fuel s t got thread class room)
refill_batch-AtMost fuel s t got thread class room =
    bind-AtMost room (shard_of s thread) _ (λ my_shard.
      bind-AtMost room (size_of_class class) _ (λ osz.
        bind-AtMost room (central s my_shard class) _ (λ i. bind-AtMost room (lock_list s i) _ (λ s.
          then-AtMost room room (take_from_list fuel s i room osz class) _
            (take_from_list-AtMost fuel s i room osz class)
            (λ objs s l. bind-AtMost room (batch_for class) _ (λ batch.
              then-AtMost room (room - length objs)
                (top_up room fuel s got i class my_shard batch (room - length objs) osz) _
                (top_up-AtMost room fuel s got i class my_shard batch (room - length objs) osz)
                (λ more s h. bind-AtMost room (unlock_list s i) _ (λ s.
                  let n = length objs + length more in
                  bind-AtMost {X = Pools} room
                    (if ltb 0 n then charge s (current t s.slab) (mul_usize osz n) n else some s) _
                    (λ s. append_within room objs more l h)))))))))
