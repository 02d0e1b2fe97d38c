-- ===== src/Frame/Buffer.antt =====
-- `FrameMut` and `FrameBuf` of toccata-core/src/frame.rs: the windows of one frame that its handles may
-- write, and the references that they hold. Offsets and lengths are `u16`; a failed assertion and a
-- sum that overflows panic, which is `none`.
use toccata.Base.{
  ℕ, zero, suc, ◌+◌, ◌-◌, ◌^◌, ◌≤◌, ◌<◌, min, ◌≡◌, ◌&&◌, Option, some, List, [], ◌∷◌, length,
  get_elem?, All, ltb, leb, ◌==◌, if◌then◌else◌, ◌>>=◌, ◌>>◌, debug_assert, as_u16,
}
use toccata.Frame.Meta.{free, keep, retain, release}

pub record FrameBuf : Type 0 where
  pub offset : ℕ
  pub len : ℕ

-- `FrameMut::new`: the capacity of a frame of so many bytes.
unfoldable pub capacity : ℕ → ℕ
capacity frame_capacity = as_u16 (min frame_capacity (2 ^ 16 - 1))

unfoldable pub freeze : ℕ → ℕ → FrameBuf
freeze cap len = record { offset = 0; len = min len cap }

-- The first buffer is the one that is returned, the second is what is left of `self`.
unfoldable pub split_to : FrameBuf → ℕ → Option (FrameBuf × FrameBuf)
split_to b n = do
  debug_assert (leb n b.len)
  debug_assert (ltb (b.offset + n) (2 ^ 16))
  some (record { offset = b.offset; len = n }, record { offset = b.offset + n; len = b.len - n })

unfoldable pub truncate : FrameBuf → ℕ → FrameBuf
truncate b len = record { offset = b.offset; len = min len b.len }

unfoldable pub advance : FrameBuf → ℕ → Option FrameBuf
advance b n = do
  debug_assert (leb n b.len)
  debug_assert (ltb (b.offset + n) (2 ^ 16))
  some (record { offset = b.offset + n; len = b.len - n })

-- All the buffers of one frame, its reference count, and how often it has gone back to the pool.
pub record Buffers : Type 0 where
  pub windows : List FrameBuf
  pub count : ℕ
  pub recycled : ℕ

-- `FrameMut::new` and `freeze`.
unfoldable pub published : ℕ → ℕ → Buffers
published frame_capacity len = record {
  windows = freeze (capacity frame_capacity) len ∷ [];
  count = 1;
  recycled = 0;
}

unfoldable pub set_at : List FrameBuf → ℕ → FrameBuf → List FrameBuf
set_at [] i w = []
set_at (x ∷ xs) zero w = w ∷ xs
set_at (x ∷ xs) (suc i) w = x ∷ set_at xs i w

unfoldable pub remove_at : List FrameBuf → ℕ → List FrameBuf
remove_at [] i = []
remove_at (x ∷ xs) zero = xs
remove_at (x ∷ xs) (suc i) = x ∷ remove_at xs i

-- What the holder of the buffer number `i` may do.
pub data Op : Type 0 where
  split : ℕ → ℕ → Op
  cut : ℕ → ℕ → Op
  skip : ℕ → ℕ → Op
  drop : ℕ → Op

-- `Drop` of a buffer.
unfoldable pub drop_buffer : Buffers → ℕ → Buffers
drop_buffer b i = elim (release b.count).0 [
  | free ↦ record {
    windows = remove_at b.windows i;
    count = (release b.count).1;
    recycled = b.recycled + 1;
  }
  | keep ↦ record {
    windows = remove_at b.windows i;
    count = (release b.count).1;
    recycled = b.recycled;
  }
]

unfoldable pub step : Op → Buffers → Option Buffers
step (split i n) b = do
  w ← get_elem? b.windows i
  (head, rest) ← split_to w n
  some (record b { windows = head ∷ set_at b.windows i rest; count = retain b.count })
step (cut i n) b = do
  w ← get_elem? b.windows i
  some (record b { windows = set_at b.windows i (truncate w n) })
step (skip i n) b = do
  w ← get_elem? b.windows i
  rest ← advance w n
  some (record b { windows = set_at b.windows i rest })
step (drop i) b = do _ ← get_elem? b.windows i; some (drop_buffer b i)

-- 1 where the byte number `x` is in the window.
abbrev pub holds : ℕ → FrameBuf → ℕ
holds x w = if leb w.offset x && ltb x (w.offset + w.len) then 1 else 0

unfoldable pub covers : ℕ → List FrameBuf → ℕ
covers x [] = 0
covers x (w ∷ ws) = holds x w + covers x ws

unfoldable pub IsInside : ℕ → FrameBuf → Type 0
IsInside cap w = w.offset + w.len ≤ cap

-- No byte is in two windows, and every window lies in the frame. There are as many references as
-- windows, and the frame has gone back once if there are none.
pub record IsValid (cap : ℕ) (b : Buffers) : Type 0 where
  pub apart : (x : ℕ) → covers x b.windows ≤ holds x (record { offset = 0; len = cap })
  pub inside : All (IsInside cap) b.windows
  pub counted : b.count ≡ length b.windows
  pub few : length b.windows < 2 ^ 64
  pub returned : b.recycled ≡ (if b.count == 0 then 1 else 0)
