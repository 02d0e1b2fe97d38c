-- ===== src/SpanPool.antt =====
-- toccata-core/src/spanpool.rs: the free-run index over the span grid. A panic (a slice access out
-- of bounds, or a failed `debug_assert!`) is `none`. An array is a `Slice`, and every `u32`
-- operation wraps.
pub mod Valid
mod Bitmap
mod Find
mod Link
mod Unlink
pub mod Alloc
pub mod Spans
mod Merge
pub mod Free
pub mod New
pub mod Client
pub mod History
mod Drain
mod Tests
use Prim.Native.Nat.{bit_and, bit_or}
use toccata.Base.{
  ℕ, zero, suc, ◌+◌, ◌-◌, ◌*◌, ◌/◌, ◌%◌, ◌^◌, max, not, ◌&&◌, ◌||◌, Option, none, some, ltb, leb,
  ◌==◌, if◌then◌else◌, ◌>>=◌, ◌>>◌, Slice, sys_boxed_slice, read, write, debug_assert, as_u32,
  add_u32, sub_u32, mul_u32, div_ceil, u64_max, shl_u64, not_u64, trailing_zeros,
}

-- `NO_SPAN` of toccata-core/src/meta.rs, the end of every list of spans.
abbrev pub no_span : ℕ
no_span = 2 ^ 32 - 1

pub record SpanPool : Type 0 where
  pub num_spans : ℕ
  pub bucket_head : Slice ℕ
  pub next : Slice ℕ
  pub prev : Slice ℕ
  pub head_count : Slice ℕ
  pub tail_count : Slice ℕ
  pub l0 : Slice ℕ
  pub l1 : Slice ℕ

-- The words of the two levels of the bitmap over `n` spans.
abbrev pub l0_words : ℕ → ℕ
l0_words n = max (div_ceil (n + 1) 64) 1

abbrev pub l1_words : ℕ → ℕ
l1_words n = max (div_ceil (l0_words n) 64) 1

pub new : ℕ → SpanPool
new num_spans =
    let n = max num_spans 1 in
    record {
      num_spans = as_u32 n;
      bucket_head = sys_boxed_slice (n + 1) (λ _. no_span);
      next = sys_boxed_slice n (λ _. no_span);
      prev = sys_boxed_slice n (λ _. no_span);
      head_count = sys_boxed_slice n (λ _. 0);
      tail_count = sys_boxed_slice n (λ _. 0);
      l0 = sys_boxed_slice (l0_words n) (λ _. 0);
      l1 = sys_boxed_slice (l1_words n) (λ _. 0);
    }

-- The assignments `self.field[i] = v`.
abbrev set_bucket_head : SpanPool → ℕ → ℕ → Option SpanPool
set_bucket_head p i v = do s ← write p.bucket_head i v; some (record p { bucket_head = s })

abbrev set_next : SpanPool → ℕ → ℕ → Option SpanPool
set_next p i v = do s ← write p.next i v; some (record p { next = s })

abbrev set_prev : SpanPool → ℕ → ℕ → Option SpanPool
set_prev p i v = do s ← write p.prev i v; some (record p { prev = s })

abbrev set_head_count : SpanPool → ℕ → ℕ → Option SpanPool
set_head_count p i v = do s ← write p.head_count i v; some (record p { head_count = s })

abbrev set_tail_count : SpanPool → ℕ → ℕ → Option SpanPool
set_tail_count p i v = do s ← write p.tail_count i v; some (record p { tail_count = s })

abbrev set_l0 : SpanPool → ℕ → ℕ → Option SpanPool
set_l0 p i v = do s ← write p.l0 i v; some (record p { l0 = s })

abbrev set_l1 : SpanPool → ℕ → ℕ → Option SpanPool
set_l1 p i v = do s ← write p.l1 i v; some (record p { l1 = s })

pub bit_set : SpanPool → ℕ → Option SpanPool
bit_set p c = do
  let w = c / 64
  x ← read p.l0 w
  p ← set_l0 p w (bit_or x (shl_u64 1 (c % 64)))
  y ← read p.l1 (w / 64)
  set_l1 p (w / 64) (bit_or y (shl_u64 1 (w % 64)))

pub bit_clear : SpanPool → ℕ → Option SpanPool
bit_clear p c = do
  let w = c / 64
  x ← read p.l0 w
  p ← set_l0 p w (bit_and x (not_u64 (shl_u64 1 (c % 64))))
  x ← read p.l0 w
  if x == 0
      then (do y ← read p.l1 (w / 64); set_l1 p (w / 64) (bit_and y (not_u64 (shl_u64 1 (w % 64)))))
      else some p

-- `(w as u32) * 64 + b`
abbrev bucket_at : ℕ → ℕ → ℕ
bucket_at w b = add_u32 (mul_u32 (as_u32 w) 64) b

-- The lowest bucket of the word `nw`, which the summary says is not empty.
first_in_word : SpanPool → ℕ → Option (Option ℕ)
first_in_word p nw = do x ← read p.l0 nw; some (some (bucket_at nw (trailing_zeros x)))

-- `for li in li..li + n`
scan_l1 : SpanPool → ℕ → ℕ → Option (Option ℕ)
unfolding first_in_word
scan_l1 p zero li = some none
scan_l1 p (suc n) li = do
  y ← read p.l1 li
  let rest = scan_l1 p n (li + 1)
  if y == 0 then rest else first_in_word p (li * 64 + trailing_zeros y)

-- The next word above `w` that is not empty, by the summary.
next_word : SpanPool → ℕ → Option (Option ℕ)
unfolding first_in_word scan_l1
next_word p w =
    if ltb (w % 64) 63
    then (do
      y ← read p.l1 (w / 64)
      let m = bit_and y (shl_u64 u64_max (w % 64 + 1))
      if m == 0 then later else first_in_word p (w / 64 * 64 + trailing_zeros m))
    else later
  where
    later : Option (Option ℕ)
    later = scan_l1 p (p.l1.len - (w / 64 + 1)) (w / 64 + 1)

pub find_first_set_ge : SpanPool → ℕ → Option (Option ℕ)
unfolding next_word
find_first_set_ge p c = if leb (p.l0.len * 64) c then some none else do
  let w = c / 64
  x ← read p.l0 w
  let masked = bit_and x (shl_u64 u64_max (c % 64))
  if masked == 0 then next_word p w else some (some (bucket_at w (trailing_zeros masked)))

-- `head + count - 1`
abbrev last_span : ℕ → ℕ → ℕ
last_span head count = sub_u32 (add_u32 head count) 1

pub link : SpanPool → ℕ → ℕ → Option SpanPool
unfolding bit_set
link p head count = do
  debug_assert (leb 1 count && leb (add_u32 head count) p.num_spans)
  old ← read p.bucket_head count
  p ← set_next p head old
  p ← set_prev p head no_span
  p ← if old == no_span then some p else set_prev p old head
  p ← set_bucket_head p count head
  p ← set_head_count p head count
  p ← set_tail_count p (last_span head count) count
  bit_set p count

-- The branch of `unlink` for the first run of its bucket.
unlink_first : SpanPool → ℕ → ℕ → Option SpanPool
unfolding bit_clear
unlink_first p count n = do
  p ← set_bucket_head p count n
  if n == no_span then bit_clear p count else some p

pub unlink : SpanPool → ℕ → ℕ → Option SpanPool
unfolding unlink_first
unlink p head count = do
  before ← read p.prev head
  after ← read p.next head
  p ← if before == no_span then unlink_first p count after else set_next p before after
  p ← if after == no_span then some p else set_prev p after before
  p ← set_head_count p head 0
  p ← set_tail_count p (last_span head count) 0
  p ← set_next p head no_span
  set_prev p head no_span

-- The part of `alloc` behind a hit in bucket `m`.
pub take_from : SpanPool → ℕ → ℕ → Option (Option ℕ × SpanPool)
take_from p n m = do
  head ← read p.bucket_head m
  debug_assert (not (head == no_span))
  p ← unlink p head m
  p ← if ltb n m then link p (add_u32 head n) (sub_u32 m n) else some p
  some (some head, p)

pub alloc : SpanPool → ℕ → Option (Option ℕ × SpanPool)
alloc p n = if (n == 0) || ltb p.num_spans n then some (none, p) else do
  found ← find_first_set_ge p n
  elim found [ none ↦ some (none, p) | some m ↦ take_from p n m ]

-- The two halves of `free`: the run grows by its right and by its left neighbour.
pub absorb_right : SpanPool → ℕ → ℕ → Option (ℕ × SpanPool)
absorb_right p h c =
    let right = add_u32 h c in
    if ltb right p.num_spans
    then (do
      rc ← read p.head_count right
      if rc == 0 then some (c, p) else (do p ← unlink p right rc; some (add_u32 c rc, p)))
    else some (c, p)

pub absorb_left : SpanPool → ℕ → ℕ → Option (ℕ × ℕ × SpanPool)
absorb_left p h c =
    if ltb 0 h
    then (do
      lc ← read p.tail_count (sub_u32 h 1)
      if lc == 0
          then some (h, c, p)
          else (do p ← unlink p (sub_u32 h lc) lc; some (sub_u32 h lc, add_u32 c lc, p)))
    else some (h, c, p)

pub free : SpanPool → ℕ → ℕ → Option SpanPool
free p head count = do
  debug_assert (leb 1 count && leb (add_u32 head count) p.num_spans)
  (c, p) ← absorb_right p head count
  (h, c, p) ← absorb_left p head c
  link p h c
