-- ===== src/Frame/Built.antt =====
-- What `build` of `FramePool` in toccata-core/src/frame.rs returns, on every branch.
use toccata.Base.{
  ℕ, zero, suc, ◌+◌, ◌-◌, ◌*◌, ◌/◌, ◌%◌, ◌^◌, ◌≤◌, ◌<◌, ◌≡◌, inl, inr, refl, sym, ap, ◌∙◌, arith,
  some, true, false, List, Bool-cases, ◌==◌, sys_boxed_slice, trailing_zeros, trailing_zeros_of,
}
use native.Mathlib.Nat.{mul-div_cancel, mul-mod_left}
use toccata.Base.Bits.{pow-pos}
use toccata.Base.Totals.{total, once, total-cons, total-nil}
use toccata.Base.LocalStack.{LocalStack}
use toccata.Frame.{FramePool}
use toccata.Frame.Meta.{FrameMeta}
use toccata.Frame.Central
use toccata.Frame.CentralStack.{Fits, length-contents, push-ok}
use toccata.Frame.Conserve.{total-frames}
use toccata.Base.Stacks.{stack}
use toccata.Frame.Local.{free_frames}
use toccata.Frame.Allocate.{IsValid, is_frame, stray}
use toccata.Frame.Build.{
  FramePoolError, frame_size_not_pow2, region_too_small, Result, ok, err, Region, region_base,
  region_len, is_power_of, is_power_of_two, seed, build, frame_addresses,
}

seed-ok :
    (base size total_frames n i : ℕ) (c : Central.Central)
    → Fits total_frames c
    → c.top ≡ i
    → n + i ≡ total_frames
    → (q : Central.Central) × (seed base size n i c ≡ some q)
      × Fits total_frames q
      × ((w : ℕ → ℕ)
          → total w (Central.contents q)
            ≡ total w (frame_addresses base size n i) + total w (Central.contents c))
unfolding seed frame_addresses
seed-ok base size all zero i c v t e = (c, refl, v, λ w. omega (arith, total-nil w))
seed-ok base size all (suc n) i c v t e =
    let (d, runs, fits, sums) = push-ok all c (base + i * size) v (omega (arith, t, e)) in
    let (q, goes, done, more) =
      seed-ok base size all n (i + 1) d fits
        (omega (arith, sums once, length-contents d, length-contents c, t)) (omega (arith, e)) in
    (
      q,
      rw runs goes,
      done,
      λ w. omega (
        arith,
        more w,
        sums w,
        total-cons w (base + i * size) (frame_addresses base size n (i + 1)),
      ),
    )

power-cases : (n x : ℕ) → is_power_of n x ≡ true → (k : ℕ) × k < n × (x ≡ 2 ^ k)
unfolding is_power_of
power-cases zero x e = absurd (ground (arith, e))
power-cases (suc n) x e = elim (Bool-cases (x == 2 ^ n)) [
  | inl t ↦ (n, omega arith, ground (arith, t))
  | inr f ↦ let (k, l, p) = power-cases n x (rw f at e) in (k, omega (arith, l), p)
]

trailing_zeros-pow : (n k : ℕ) → k < n → trailing_zeros_of n (2 ^ k) ≡ k
unfolding trailing_zeros_of
trailing_zeros-pow zero k h = omega (arith, h)
trailing_zeros-pow (suc n) zero h = refl
trailing_zeros-pow (suc n) (suc k) h =
    let double : 2 ^ suc k ≡ 2 ^ k * 2 = omega arith in
    let half : 2 ^ suc k / 2 ≡ 2 ^ k = omega (arith, double) in
    let even : 2 ^ suc k % 2 ≡ 0 = omega (arith, double) in
    rw (even, half, trailing_zeros-pow n k (omega (arith, h))) refl

is_frame-at :
    {S M : Type 0} (pool : FramePool S M) (i : ℕ)
    → i < pool.n_frames
    → is_frame pool (pool.frames_base + i * 2 ^ pool.frame_shift) ≡ true
unfolding is_frame
is_frame-at pool i h =
    let offset : pool.frames_base + i * 2 ^ pool.frame_shift - pool.frames_base
        ≡ i * 2 ^ pool.frame_shift =
      omega arith in
    let number : i * 2 ^ pool.frame_shift / 2 ^ pool.frame_shift ≡ i =
      mul-div_cancel i (pow-pos pool.frame_shift) in
    let aligned : i * 2 ^ pool.frame_shift % 2 ^ pool.frame_shift ≡ 0 =
      mul-mod_left i (2 ^ pool.frame_shift) in
    let above : pool.frames_base ≤ pool.frames_base + i * 2 ^ pool.frame_shift = omega arith in
    rw (offset, number, aligned) (ground (arith, above, h))

stray-addresses :
    {S M : Type 0} (pool : FramePool S M) (n i : ℕ)
    → n + i ≤ pool.n_frames
    → total (stray pool) (frame_addresses pool.frames_base (2 ^ pool.frame_shift) n i) ≡ 0
unfolding frame_addresses
stray-addresses pool zero i h = total-nil (stray pool)
stray-addresses pool (suc n) i h =
    let here : stray pool (pool.frames_base + i * 2 ^ pool.frame_shift) ≡ 0 =
      ground (arith, is_frame-at pool i (omega (arith, h))) in
    omega (
      arith,
      here,
      stray-addresses pool n (i + 1) (omega (arith, h)),
      total-cons (stray pool) (pool.frames_base + i * 2 ^ pool.frame_shift)
          (frame_addresses pool.frames_base (2 ^ pool.frame_shift) n (i + 1)),
    )

count-addresses : (base size n i : ℕ) → total once (frame_addresses base size n i) ≡ n
unfolding frame_addresses
count-addresses base size zero i = total-nil once
count-addresses base size (suc n) i = omega (
  arith,
  count-addresses base size n (i + 1),
  total-cons once (base + i * size) (frame_addresses base size n (i + 1)),
)

power-shift : (x : ℕ) → is_power_of_two x ≡ true → x ≡ 2 ^ trailing_zeros x
unfolding trailing_zeros
power-shift x t =
    let (k, l, e) = power-cases 64 x t in
    let shift : trailing_zeros_of 64 x ≡ k =
      ap (trailing_zeros_of 64) e ∙ trailing_zeros-pow 64 k l in
    e ∙ sym (ap (λ j. 2 ^ j) shift)

module _ {S M : Type 0} (slab : S) (init : M) where
  abbrev built_pool : Region → ℕ → Central.Central → FramePool S M
  built_pool region frame_size c = record {
    frames_base = region_base region;
    frame_shift = trailing_zeros frame_size;
    frame_size = frame_size;
    n_frames = region_len region / frame_size;
    slab = slab;
    central = c;
    meta = sys_boxed_slice (region_len region / frame_size) (λ _. init);
  }

abbrev seeds : Region → ℕ → List ℕ
seeds region frame_size =
    frame_addresses (region_base region) frame_size (region_len region / frame_size) 0

module _ {S M : Type 0} (l2 : LocalStack S) (slab : S) (init : M)
    (empty : (w : ℕ → ℕ) → total w (l2.contents slab) ≡ 0) (region : Region) (frame_size : ℕ)
    (c : Central.Central) where
  seeded :
      ((w : ℕ → ℕ)
        → total w (Central.contents c)
          ≡ total w (seeds region frame_size)
            + total w (Central.contents (Central.new (region_len region / frame_size))))
      → (w : ℕ → ℕ)
      → total w (free_frames l2 (built_pool slab init region frame_size c))
        ≡ total w (seeds region frame_size)
  unfolding free_frames stack
  seeded sums w = omega (arith, total-frames l2 w slab c, empty w, sums w, total-nil w)

  built-IsValid :
      (policy : FrameMeta M)
      → Fits (region_len region / frame_size) c
      → ((w : ℕ → ℕ)
          → total w (Central.contents c)
            ≡ total w (seeds region frame_size)
              + total w (Central.contents (Central.new (region_len region / frame_size))))
      → frame_size ≡ 2 ^ trailing_zeros frame_size
      → IsValid l2 policy (built_pool slab init region frame_size c)
  built-IsValid policy fits sums shift =
      let pool = built_pool slab init region frame_size c in
      let all = seeded sums in
      let strays = stray-addresses pool (region_len region / frame_size) 0 (omega arith) in
      record {
        sound = record {
          fits = fits;
          few = omega (
            arith,
            all once,
            count-addresses (region_base region) frame_size (region_len region / frame_size) 0,
          );
        };
        metas = refl;
        inside =
            all (stray pool)
            ∙ ap
                (λ z.
                  total (stray pool)
                    (frame_addresses (region_base region) z (region_len region / frame_size) 0))
                shift
            ∙ strays;
      }

module _ {S M E : Type 0} (l2 : LocalStack S) (policy : FrameMeta M) (slab : S) (init : M) where
  -- How a pool is built, on every branch.
  pub data Builds (region : Region) (frame_size : ℕ)
      : Result (FramePoolError E) (FramePool S M) → Type 0 where
    not_pow2 :
        is_power_of_two frame_size ≡ false
        → Builds region frame_size (err (frame_size_not_pow2 frame_size))
    too_small :
        is_power_of_two frame_size ≡ true
        → region_len region / frame_size ≡ 0
        → Builds region frame_size (err (region_too_small (region_len region) frame_size))
    built :
        {pool : FramePool S M}
        → IsValid l2 policy pool
        → pool.frames_base ≡ region_base region
        → pool.n_frames ≡ region_len region / frame_size
        → pool.frame_size ≡ frame_size
        → frame_size ≡ 2 ^ pool.frame_shift
        → ((w : ℕ → ℕ)
            → total w (free_frames l2 pool)
              ≡ total w (
                  frame_addresses
                    (region_base region)
                    frame_size
                    (region_len region / frame_size)
                    0))
        → Builds region frame_size (ok pool)

  -- `build` over an empty slab returns: an error where the frame size is no power of two or no frame
  -- fits, and else a valid pool in which every frame of the region is free once.
  pub build-Builds :
      ((w : ℕ → ℕ) → total w (l2.contents slab) ≡ 0)
      → (region : Region) (frame_size : ℕ)
      → (r : Result (FramePoolError E) (FramePool S M)) × (build slab init region frame_size
          ≡ some r)
        × Builds region frame_size r
  unfolding build free_frames
  build-Builds empty region frame_size = elim (Bool-cases (is_power_of_two frame_size)) [
    | inr f ↦ (err (frame_size_not_pow2 frame_size), rw f refl, not_pow2 f)
    | inl t ↦ elim (Bool-cases (region_len region / frame_size == 0)) [
      | inl z ↦ (
        err (region_too_small (region_len region) frame_size),
        rw (t, z) refl,
        too_small t (ground (arith, z)),
      )
      | inr f ↦
          let n = region_len region / frame_size in
          let start : Fits n (Central.new n) = record { room = refl; few = omega arith } in
          let (c, runs, fits, sums) =
            seed-ok (region_base region) frame_size n n 0 (Central.new n) start refl
              (omega arith) in
          let shift : frame_size ≡ 2 ^ trailing_zeros frame_size = power-shift frame_size t in
          let all = seeded l2 slab init empty region frame_size c sums in
          (
            ok (built_pool slab init region frame_size c),
            rw (t, f, runs) refl,
            built (built-IsValid l2 slab init empty region frame_size c policy fits sums shift) refl
                refl refl shift all,
          )
    ]
  ]
