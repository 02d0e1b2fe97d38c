-- ===== src/Meta.antt =====
-- The span grid of toccata-core/src/meta.rs, and the packed word that a span's entry holds. A panic
-- is `none`, and an operation on `usize` wraps.
pub mod Table
pub mod Bitmaps
use Prim.Native.Nat.{bit_and, bit_or}
use toccata.Base.{ℕ, ◌+◌, ◌*◌, ◌/◌, ◌^◌, Option, none, some, ◌==◌, if◌then◌else◌, as_u16}

abbrev pub span_bits : ℕ
span_bits = 16

abbrev pub span_bytes : ℕ
span_bytes = 2 ^ 16

abbrev pub span_slots : ℕ
span_slots = span_bytes / 8

abbrev pub span_bitmap_words : ℕ
span_bitmap_words = span_slots / 64

-- The entry of a span: `class << 16 | home_cpu`, or 0 where no class has been assigned. Its word is
-- written and read in one atomic step.
pub record SpanMeta : Type 0 where
  pub packed : ℕ

abbrev pub unassigned : SpanMeta
unassigned = record { packed = 0 }

unfoldable pub pack : ℕ → ℕ → ℕ
pack class home_cpu = bit_or (class * 2 ^ 16) home_cpu

unfoldable pub unpack : ℕ → Option (ℕ × ℕ)
unpack v = if v == 0 then none else some (as_u16 (v / 2 ^ 16), as_u16 (bit_and v 65535))

abbrev pub assign : ℕ → ℕ → SpanMeta
assign class home_cpu = record { packed = pack class home_cpu }

abbrev pub load : SpanMeta → Option (ℕ × ℕ)
load m = unpack m.packed
