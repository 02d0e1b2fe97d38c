-- ===== src/SubHeap/Central.antt =====
-- The central pools of toccata-core/src/subheap.rs: the objects of a class that are free, a bit for each
-- in the bitmaps of its span. Where the source fills a slice, the functions return the list of the
-- objects that they write, for the room that is left in the slice.
use Prim.Native.Nat.{bit_and, bit_or}
use toccata.Base.{
  ℕ, zero, suc, ◌+◌, ◌-◌, ◌*◌, ◌/◌, max, true, false, ◌&&◌, ◌||◌, not, Option, none, some, List, [],
  ◌∷◌, ◌++◌, length, leb, ◌==◌, if◌then◌else◌, ◌>>=◌, div_ceil, shl_u64, not_u64, trailing_zeros,
  as_u32, sub_usize, add_usize,
}
use toccata.SpanPool.{no_span}
use toccata.Meta.{span_bytes}
use toccata.Meta.Table.{SpanTable, lookup}
use toccata.Meta.Bitmaps.{SpanBitmaps, span_of, span_base, set, next, fold_free_word, alloc_clear}

pub record CentralList : Type 0 where
  pub head : ℕ
  pub lock : ℕ
  pub reuse_hint : ℕ

abbrev pub new : CentralList
new = record { head = no_span; lock = 0; reuse_hint = no_span }

-- `lock` is the exchange that ends its loop, `none` a lock that is still spun on.
abbrev pub acquire : CentralList → Option CentralList
acquire c = if c.lock == 0 then some (record c { lock = 1 }) else none

abbrev pub release : CentralList → CentralList
release c = record c { lock = 0 }

unfoldable pub central_deposit : SpanBitmaps → ℕ → ℕ → Option SpanBitmaps
central_deposit p obj osz =
    let span = span_of p obj in
    if osz == 0 then none else set p span (as_u32 (sub_usize obj (span_base p span) / osz))

-- The address of a slot.
abbrev pub object_at : ℕ → ℕ → ℕ → ℕ
object_at base osz slot = add_usize base (slot * osz)

-- The inner loop of `scan_span`, on what is left of the word, with the bits taken so far.
unfoldable pub take_bits : ℕ → ℕ → ℕ → ℕ → ℕ → ℕ → List ℕ × ℕ
take_bits base osz w zero word taken = ([], taken)
take_bits base osz w (suc room) word taken =
    let m = shl_u64 1 (trailing_zeros word) in
    let rest = take_bits base osz w room (bit_and word (not_u64 m)) (bit_or taken m) in
    if word == 0
    then ([], taken)
    else (object_at base osz (w * 64 + trailing_zeros word) ∷ rest.0, rest.1)

-- One round of the outer loop, which goes on where no room is left or the word is 0.
unfoldable pub take_word : SpanBitmaps → ℕ → ℕ → ℕ → ℕ → Option (List ℕ × SpanBitmaps)
take_word p span osz w room = if room == 0 then some ([], p) else (do
  (word, p) ← fold_free_word p span w
  if word == 0 then some ([], p) else (do
    let (objs, taken) = take_bits (span_base p span) osz w room word 0
    p ← alloc_clear p span w taken
    some (objs, p)))

-- `n` rounds, from word `w` on.
unfoldable pub scan_words : SpanBitmaps → ℕ → ℕ → ℕ → ℕ → ℕ → Option (List ℕ × SpanBitmaps)
scan_words p span osz zero w room = some ([], p)
scan_words p span osz (suc n) w room = do
  (objs, p) ← take_word p span osz w room
  (rest, p) ← scan_words p span osz n (w + 1) (room - length objs)
  some (objs ++ rest, p)

abbrev pub scan_span : SpanBitmaps → ℕ → ℕ → ℕ → ℕ → Option (List ℕ × SpanBitmaps)
scan_span p span room nwords osz = scan_words p span osz nwords 0 room

abbrev pub slots_per_span : ℕ → ℕ
slots_per_span osz = max (span_bytes / osz) 1

-- The span that `central_take` scans first, or `NO_SPAN`.
unfoldable pub hinted : CentralList → SpanBitmaps → SpanTable → ℕ → ℕ → Option ℕ
hinted c p spans osz class =
    if leb (slots_per_span osz) 64 && not (c.reuse_hint == no_span)
    then (do
      owner ← lookup spans (span_base p c.reuse_hint)
      elim owner [
        | none ↦ some no_span
        | some (hc, home) ↦ some (if hc == class then c.reuse_hint else no_span)
      ])
    else some no_span

-- The scan of one span of the walk, which leaves out the one scanned before.
unfoldable pub scan_unless : SpanBitmaps → ℕ → ℕ → ℕ → ℕ → ℕ → Option (List ℕ × SpanBitmaps)
scan_unless p hint span room nwords osz =
    if span == hint then some ([], p) else scan_span p span room nwords osz

-- The walk of the active list from `span` on, over `fuel` spans at most: `none` where it is longer.
unfoldable pub walk : ℕ → SpanBitmaps → ℕ → ℕ → ℕ → ℕ → ℕ → Option (List ℕ × SpanBitmaps)
walk zero p hint span room nwords osz =
    if room == 0 || (span == no_span) then some ([], p) else none
walk (suc fuel) p hint span room nwords osz = elim (room == 0 || (span == no_span)) [
  | true ↦ some ([], p)
  | false ↦ do
    (objs, p) ← scan_unless p hint span room nwords osz
    succ ← next p span
    (rest, p) ← walk fuel p hint succ (room - length objs) nwords osz
    some (objs ++ rest, p)
]

-- `central_take` for the room that is left in `out`, while the lock of `c` is held.
unfoldable pub central_take :
    ℕ → CentralList → SpanBitmaps → SpanTable → ℕ → ℕ → ℕ → Option (List ℕ × SpanBitmaps)
central_take fuel c p spans room osz class = if osz == 0 then none else (do
  let nwords = div_ceil (slots_per_span osz) 64
  hint ← hinted c p spans osz class
  (objs, p) ← if hint == no_span then some ([], p) else scan_span p hint room nwords osz
  (rest, p) ← walk fuel p hint c.head (room - length objs) nwords osz
  some (objs ++ rest, p))
