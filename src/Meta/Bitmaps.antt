-- ===== src/Meta/Bitmaps.antt =====
-- `SpanBitmaps` of toccata-core/src/meta.rs: the free slots of each span, out of band, and the links
-- of the active lists. A panic is `none`; each function is one thread's call with nothing in between.
pub mod Chain
pub mod Active
pub mod Effects
pub mod FullyFree
pub mod Locate
mod Protocol
pub mod Refine
mod Tests
use Prim.Native.Nat.{bit_and, bit_or}
use toccata.Base.{
  ℕ, zero, suc, ◌+◌, ◌-◌, ◌*◌, ◌/◌, ◌%◌, ◌^◌, Option, none, some, ◌==◌, if◌then◌else◌, not, ◌>>=◌,
  ◌>>◌, Bool, true, false, Slice, sys_boxed_slice, read, write, debug_assert, as_u32, add_u32,
  add_usize, sub_usize, div_ceil, shl_u64, not_u64,
}
use toccata.Base.Count.{count_ones}
use toccata.Meta.{span_bytes, span_bitmap_words}
use toccata.SpanPool.{no_span}

pub record SpanBitmaps : Type 0 where
  pub base : ℕ
  pub alloc_words : Slice ℕ
  pub free_words : Slice ℕ
  pub next_active : Slice ℕ
  pub on_list : Slice Bool

pub new : ℕ → ℕ → SpanBitmaps
new base len =
    let num_spans = div_ceil len span_bytes in
    record {
      base = base;
      alloc_words = sys_boxed_slice (num_spans * span_bitmap_words) (λ _. 0);
      free_words = sys_boxed_slice (num_spans * span_bitmap_words) (λ _. 0);
      next_active = sys_boxed_slice num_spans (λ _. no_span);
      on_list = sys_boxed_slice num_spans (λ _. false);
    }

unfoldable pub span_of : SpanBitmaps → ℕ → ℕ
span_of p addr = as_u32 (sub_usize addr p.base / 2 ^ 16)

unfoldable pub span_base : SpanBitmaps → ℕ → ℕ
span_base p idx = add_usize p.base (idx * 2 ^ 16)

pub locate : SpanBitmaps → ℕ → ℕ → ℕ × ℕ × ℕ
locate p addr osz =
    let span = span_of p addr in
    let slot = sub_usize addr (span_base p span) / osz in (span, slot / 64, as_u32 (slot % 64))

unfoldable pub is_on_list : SpanBitmaps → ℕ → Option Bool
is_on_list p idx = read p.on_list idx

unfoldable pub next : SpanBitmaps → ℕ → Option ℕ
next p idx = read p.next_active idx

-- The assignments `self.field[i] = v`.
abbrev set_alloc_word : SpanBitmaps → ℕ → ℕ → Option SpanBitmaps
set_alloc_word p i v = do s ← write p.alloc_words i v; some (record p { alloc_words = s })

abbrev set_free_word : SpanBitmaps → ℕ → ℕ → Option SpanBitmaps
set_free_word p i v = do s ← write p.free_words i v; some (record p { free_words = s })

abbrev set_next : SpanBitmaps → ℕ → ℕ → Option SpanBitmaps
set_next p i v = do s ← write p.next_active i v; some (record p { next_active = s })

abbrev set_on_list : SpanBitmaps → ℕ → Bool → Option SpanBitmaps
set_on_list p i v = do s ← write p.on_list i v; some (record p { on_list = s })

pub link_front : SpanBitmaps → ℕ → ℕ → Option (ℕ × SpanBitmaps)
link_front p idx head = do p ← set_next p idx head; p ← set_on_list p idx true; some (idx, p)

-- `idx * SPAN_BITMAP_WORDS + w`
abbrev pub word_at : ℕ → ℕ → ℕ
word_at idx w = idx * span_bitmap_words + w

pub set_mask : SpanBitmaps → ℕ → ℕ → ℕ → Option SpanBitmaps
set_mask p idx w mask = do
  x ← read p.free_words (word_at idx w)
  set_free_word p (word_at idx w) (bit_or x mask)

pub set : SpanBitmaps → ℕ → ℕ → Option SpanBitmaps
set p idx slot = do
  x ← read p.free_words (word_at idx (slot / 64))
  set_free_word p (word_at idx (slot / 64)) (bit_or x (shl_u64 1 (slot % 64)))

pub fold_free_word : SpanBitmaps → ℕ → ℕ → Option (ℕ × SpanBitmaps)
fold_free_word p idx w = do
  let i = word_at idx w
  cell ← read p.alloc_words i
  peek ← read p.free_words i
  if peek == 0 then some (cell, p) else (do
    incoming ← read p.free_words i
    p ← set_free_word p i 0
    p ← set_alloc_word p i (bit_or cell incoming)
    some (bit_or cell incoming, p))

pub alloc_set_mask : SpanBitmaps → ℕ → ℕ → ℕ → Option SpanBitmaps
alloc_set_mask p idx w mask = do
  x ← read p.alloc_words (word_at idx w)
  set_alloc_word p (word_at idx w) (bit_or x mask)

pub alloc_clear : SpanBitmaps → ℕ → ℕ → ℕ → Option SpanBitmaps
alloc_clear p idx w taken = do
  x ← read p.alloc_words (word_at idx w)
  set_alloc_word p (word_at idx w) (bit_and x (not_u64 taken))

-- The two loops of `is_fully_free`, over the words from `w` on.
pub count_free : SpanBitmaps → ℕ → ℕ → ℕ → ℕ → Option (ℕ × SpanBitmaps)
count_free p idx zero w free_count = some (free_count, p)
count_free p idx (suc n) w free_count = do
  (word, p) ← fold_free_word p idx w
  count_free p idx n (w + 1) (add_u32 free_count (count_ones 64 word))

pub none_deposited : SpanBitmaps → ℕ → ℕ → ℕ → Option Bool
none_deposited p idx zero w = some true
none_deposited p idx (suc n) w = do
  x ← read p.free_words (word_at idx w)
  if x == 0 then none_deposited p idx n (w + 1) else some false

pub is_fully_free : SpanBitmaps → ℕ → ℕ → Option (Bool × SpanBitmaps)
unfolding count_free none_deposited
is_fully_free p idx slots_per_span = do
  let nwords = div_ceil slots_per_span 64
  (free_count, p) ← count_free p idx nwords 0 0
  if not (free_count == slots_per_span)
      then some (false, p)
      else (do b ← none_deposited p idx nwords 0; some (b, p))

pub unlink_active : SpanBitmaps → ℕ → ℕ → ℕ → Option (ℕ × SpanBitmaps)
unlink_active p idx prev head = do
  succ ← read p.next_active idx
  (new_head, p) ←
      if prev == no_span
      then (do debug_assert (head == idx); some (succ, p))
      else (do p ← set_next p prev succ; some (head, p))
  p ← set_next p idx no_span
  p ← set_on_list p idx false
  some (new_head, p)

pub reset_from : SpanBitmaps → ℕ → ℕ → ℕ → Option SpanBitmaps
reset_from p idx zero w = some p
reset_from p idx (suc n) w = do
  p ← set_alloc_word p (word_at idx w) 0
  p ← set_free_word p (word_at idx w) 0
  reset_from p idx n (w + 1)

pub reset_bitmaps : SpanBitmaps → ℕ → ℕ → Option SpanBitmaps
unfolding reset_from
reset_bitmaps p idx clear_words = reset_from p idx clear_words 0
