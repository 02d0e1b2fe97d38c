-- ===== src/Meta/Bitmaps/Locate.antt =====
-- `span_of`, `span_base` and `locate` of toccata-core/src/meta.rs on the objects tiled in a span.
use toccata.Base.{ℕ, ◌+◌, ◌*◌, ◌/◌, ◌%◌, ◌^◌, ◌≤◌, ◌<◌, ◌≡◌, ◌≢◌, arith, sub_usize}
use toccata.Meta.Bitmaps.{SpanBitmaps, span_of, span_base, locate}

module _ (p : SpanBitmaps) (idx osz slot inner : ℕ) (size : osz ≢ 0)
    (inside : slot * osz + inner < 2 ^ 16) (last : inner < osz)
    (grid : p.base + (idx + 1) * 2 ^ 16 ≤ 2 ^ 64) (narrow : idx < 2 ^ 32) where
  pub span_base-eq : span_base p idx ≡ p.base + idx * 2 ^ 16
  unfolding span_base
  span_base-eq = ground arith

  pub span_of-object : span_of p (span_base p idx + slot * osz + inner) ≡ idx
  unfolding span_of span_base
  span_of-object = ground arith

  pub slot-object : (slot * osz + inner) / osz ≡ slot
  slot-object = grind arith

  pub offset-object :
      sub_usize (span_base p idx + slot * osz + inner) (span_base p idx) ≡ slot * osz + inner
  unfolding span_base
  offset-object = ground arith

  slot-narrow : slot < 2 ^ 16
  slot-narrow = grind arith

-- Any address inside object `slot` of a span that lies in the address space is located at that span
-- and at the word and the bit of that slot.
pub locate-object :
    (p : SpanBitmaps) (idx osz slot inner : ℕ)
    → slot * osz + inner < 2 ^ 16
    → inner < osz
    → p.base + (idx + 1) * 2 ^ 16 ≤ 2 ^ 64
    → idx < 2 ^ 32
    → locate p (span_base p idx + slot * osz + inner) osz ≡ (idx, slot / 64, slot % 64)
unfolding locate
locate-object p idx osz slot inner inside last grid narrow =
    let size : osz ≢ 0 = omega arith in
    rw
      (
        span_of-object p idx osz slot inner size inside last grid narrow,
        offset-object p idx osz slot inner size inside last grid narrow,
        slot-object p idx osz slot inner size inside last grid narrow,
      )
      (ground (arith, slot-narrow p idx osz slot inner size inside last grid narrow))
