-- ===== src/Frame/Build.antt =====
-- `over`, `with_reservation` and `build` of `FramePool` in toccata-core/src/frame.rs. The reservation is a
-- parameter: the address of so many bytes, or an error `E`.
use toccata.Base.{
  ℕ, zero, suc, ◌+◌, ◌*◌, ◌/◌, ◌^◌, Option, none, some, Bool, false, not, ◌||◌, List, [], ◌∷◌,
  if◌then◌else◌, ◌>>=◌, leb, ◌==◌, sys_boxed_slice, trailing_zeros,
}
use toccata.Frame.{FramePool}
use toccata.Frame.Central

pub data FramePoolError (E : Type 0) : Type 0 where
  frame_size_not_pow2 : ℕ → FramePoolError E
  region_too_small : ℕ → ℕ → FramePoolError E
  reserve : E → FramePoolError E

pub data Result (E A : Type 0) : Type 0 where
  ok : A → Result E A
  err : E → Result E A

pub data Region : Type 0 where
  owned : ℕ → ℕ → Region
  borrowed : ℕ → ℕ → Region

abbrev pub region_base : Region → ℕ
region_base (owned base len) = base
region_base (borrowed base len) = base

abbrev pub region_len : Region → ℕ
region_len (owned base len) = len
region_len (borrowed base len) = len

-- `x.is_power_of_two()`: one of the first `n` powers.
unfoldable pub is_power_of : ℕ → ℕ → Bool
is_power_of zero x = false
is_power_of (suc n) x = x == 2 ^ n || is_power_of n x

abbrev pub is_power_of_two : ℕ → Bool
is_power_of_two x = is_power_of 64 x

-- The loop that seeds the central stack, for `n` frames from number `i` on.
unfoldable pub seed : ℕ → ℕ → ℕ → ℕ → Central.Central → Option Central.Central
seed base frame_size zero i c = some c
seed base frame_size (suc n) i c = do
  c ← Central.push c (base + i * frame_size)
  seed base frame_size n (i + 1) c

module _ {S M E : Type 0} (slab : S) (init : M) where
  unfoldable pub build : Region → ℕ → Option (Result (FramePoolError E) (FramePool S M))
  build region frame_size =
      let base = region_base region in
      let n_frames = region_len region / frame_size in
      if not (is_power_of_two frame_size)
      then some (err (frame_size_not_pow2 frame_size))
      else if n_frames == 0
      then some (err (region_too_small (region_len region) frame_size))
      else (do
        central ← seed base frame_size n_frames 0 (Central.new n_frames)
        some (
            ok (record {
              frames_base = base;
              frame_shift = trailing_zeros frame_size;
              frame_size = frame_size;
              n_frames = n_frames;
              slab = slab;
              central = central;
              meta = sys_boxed_slice n_frames (λ _. init);
            })))

  pub over : ℕ → ℕ → ℕ → Option (Result (FramePoolError E) (FramePool S M))
  over base len frame_size = build (borrowed base len) frame_size

  -- The product overflows in a panic.
  unfoldable pub with_reservation :
      (ℕ → Result E ℕ) → ℕ → ℕ → Option (Result (FramePoolError E) (FramePool S M))
  with_reservation reserve_with n_frames frame_size =
      if not (is_power_of_two frame_size)
      then some (err (frame_size_not_pow2 frame_size))
      else if leb (2 ^ 64) (n_frames * frame_size)
      then none
      else elim (reserve_with (n_frames * frame_size)) [
        | err e ↦ some (err (reserve e))
        | ok base ↦ build (owned base (n_frames * frame_size)) frame_size
      ]

-- The addresses of `n` frames from number `i` on.
unfoldable pub frame_addresses : ℕ → ℕ → ℕ → ℕ → List ℕ
frame_addresses base frame_size zero i = []
frame_addresses base frame_size (suc n) i =
    (base + i * frame_size) ∷ frame_addresses base frame_size n (i + 1)
