-- ===== src/Frame/Address.antt =====
-- Frames as the offsets that a ring speaks, `into_addr` and `from_addr` of toccata-core/src/frame.rs.
use toccata.Base.{ℕ, ◌-◌, ◌*◌, ◌/◌, ◌%◌, ◌^◌, ◌≤◌, ◌<◌, ◌≡◌, arith, some, true}
use toccata.Base.Bits.{pow-pos}
use toccata.Frame.{FramePool, into_addr, from_addr}
use toccata.Frame.Allocate.{is_frame}

below_product : (x s n : ℕ) → 0 < s → x / s < n → x < n * s
below_product x s n pos h = grind arith

module _ {S M : Type 0} (pool : FramePool S M) (p : ℕ) (f : is_frame pool p ≡ true)
    (size : pool.frame_size ≡ 2 ^ pool.frame_shift) where
  abbrev addr : ℕ
  addr = p - pool.frames_base

  aligned : addr % 2 ^ pool.frame_shift ≡ 0
  unfolding is_frame
  aligned = ground (arith, f)

  numbered : addr / 2 ^ pool.frame_shift < pool.n_frames
  unfolding is_frame
  numbered = ground (arith, f)

  above : pool.frames_base ≤ p
  unfolding is_frame
  above = ground (arith, f)

  in_range : addr < pool.n_frames * 2 ^ pool.frame_shift
  in_range =
      below_product addr (2 ^ pool.frame_shift) pool.n_frames (pow-pos pool.frame_shift) numbered

  -- A frame of a pool whose frame size is the power of two of its shift has an offset, which leads back
  -- to the frame: neither way panics.
  pub from_addr-into_addr : (a : ℕ) × (into_addr pool p ≡ some a) × (from_addr pool a ≡ some p)
  unfolding into_addr from_addr
  from_addr-into_addr =
      (addr, ground (arith, above), rw size (ground (arith, aligned, in_range, above)))
