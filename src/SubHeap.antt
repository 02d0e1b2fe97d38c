-- ===== src/SubHeap.antt =====
-- toccata-core/src/subheap.rs beside its bump arena (Arena.antt): the central pools of free objects, and
-- the allocator of large runs. A panic is `none`.
pub mod Central
pub mod Hands
mod Scan
mod Words
pub mod Take
pub mod Hinted
pub mod Large
pub mod Runs
pub mod Obtain
pub mod Return
pub mod Pools
pub mod Flush
pub mod GiveBack
pub mod RoundTrip
pub mod Carving
pub mod Claim
pub mod Tiles
pub mod Tiling
pub mod Stock
pub mod Serve
pub mod Room
mod Reclaim
pub mod Requests
mod LargeTests
pub mod Tests
use toccata.Base.{ℕ, ◌+◌, ◌-◌, ◌*◌, ◌/◌, ◌^◌, min, max, Option, some, leb, if◌then◌else◌, ◌>>=◌}
use toccata.SizeClass.{size_of_class}

-- `LARGE_CLASS`
abbrev pub large_class : ℕ
large_class = 2 ^ 16 - 1 - 1

abbrev pub batch_of_size : ℕ → ℕ
batch_of_size sz =
    if leb sz 128
    then 64
    else if leb sz 512
    then 32
    else if leb sz 2048
    then 16
    else if leb sz 8192
    then 8
    else 4

abbrev pub batch_for : ℕ → Option ℕ
batch_for class = do sz ← size_of_class class; some (batch_of_size sz)

abbrev pub cap_of_size : ℕ → ℕ → ℕ
cap_of_size sz base =
    let tier =
      if leb sz 512
      then base
      else if leb sz 4096
      then base / 2
      else if leb sz 32768
      then base / 4
      else 24 in
    max (min tier base) 8

abbrev pub cap_for_class : ℕ → ℕ → Option ℕ
cap_for_class class base = do sz ← size_of_class class; some (cap_of_size sz base)

-- `(osz0 + (MIN_ALIGN - 1)) & !(MIN_ALIGN - 1)`
abbrev pub round_size : ℕ → ℕ
round_size osz = (osz + 7) / 8 * 8
