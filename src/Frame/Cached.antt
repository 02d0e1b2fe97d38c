-- ===== src/Frame/Cached.antt =====
-- No frame is lost or doubled by `FrameCache` of toccata-core/src/frame.rs.
use toccata.Base.{
  ℕ, zero, suc, ◌+◌, ◌-◌, ◌/◌, ◌≤◌, ◌<◌, ◌≡◌, ◌≢◌, inl, inr, refl, ap, ◌∙◌, arith, some, true,
  Bool-cases, ltb, put,
}
use toccata.Base.Stacks.{stack, stack-top, stack-push, length-stack}
use toccata.Base.Totals.{total, once, total-once, total-cons, total-nil}
use toccata.Base.LocalStack.{LocalStack, Gives, given}
use toccata.Frame.{FramePool}
use toccata.Frame.Local.{free_frames, IsSound, GivesOne, with_stacks, push_l2-gives}
use toccata.Frame.Cache.{
  frame_mag_cap, FrameCache, take_slot, put_slot, flush_loop, drain_then_push, recycle, drop,
}

module _ {S M : Type 0} (l2 : LocalStack S) where
  -- What the frames weigh that are free or in the cache.
  unfoldable pub weight : (ℕ → ℕ) → FrameCache S M → ℕ
  weight w c = total w (stack c.len c.ptrs.at) + total w (free_frames l2 c.pool)

  -- The cache fits into its array, and there are no more frames than the pool has.
  pub record IsValid (c : FrameCache S M) : Type 0 where
    pub room : c.ptrs.len ≡ frame_mag_cap
    pub few : c.len ≤ frame_mag_cap
    pub sound : IsSound l2 c.pool
    pub most : weight once c ≤ c.pool.n_frames

  slots-once : (c : FrameCache S M) → total once (stack c.len c.ptrs.at) ≡ c.len
  slots-once c = total-once (stack c.len c.ptrs.at) ∙ length-stack c.len c.ptrs.at

  pub put_slot-ok :
      (c : FrameCache S M) (p : ℕ)
      → c.ptrs.len ≡ frame_mag_cap
      → c.len < frame_mag_cap
      → put_slot c p ≡ some (record c { len = c.len + 1; ptrs = put c.ptrs c.len p })
  unfolding put_slot
  put_slot-ok c p r h = ground (arith, r, h)

  pub put_slot-weight :
      (c : FrameCache S M) (p : ℕ) (w : ℕ → ℕ)
      → weight w (record c { len = c.len + 1; ptrs = put c.ptrs c.len p }) ≡ w p + weight w c
  unfolding weight
  put_slot-weight c p w =
      omega
        (arith, ap (total w) (stack-push c.len c.ptrs.at p), total-cons w p (stack c.len c.ptrs.at))

  pub take_slot-ok :
      (c : FrameCache S M)
      → c.ptrs.len ≡ frame_mag_cap
      → c.len ≤ frame_mag_cap
      → c.len ≢ 0
      → take_slot c ≡ some (c.ptrs.at (c.len - 1), record c { len = c.len - 1 })
  unfolding take_slot
  take_slot-ok c r h ne = ground (arith, r, h, ne)

  pub take_slot-weight :
      (c : FrameCache S M) (w : ℕ → ℕ)
      → c.len ≢ 0
      → weight w c ≡ w (c.ptrs.at (c.len - 1)) + weight w (record c { len = c.len - 1 })
  unfolding weight
  take_slot-weight c w ne = omega (
    arith,
    ap (total w) (stack-top c.len c.ptrs.at ne),
    total-cons w (c.ptrs.at (c.len - 1)) (stack (c.len - 1) c.ptrs.at),
  )

  -- What a step of a loop leaves: a valid cache of the same pool, with the same frames.
  pub record Keeps (c q : FrameCache S M) : Type 0 where
    pub valid : IsValid q
    pub frames : q.pool.n_frames ≡ c.pool.n_frames
    pub same : (w : ℕ → ℕ) → weight w q ≡ weight w c

  given_sum :
      {pool q : FramePool S M} {p : ℕ}
      → Gives (free_frames l2) pool p true q
      → (w : ℕ → ℕ) → total w (free_frames l2 q) ≡ w p + total w (free_frames l2 pool)
  given_sum (given g) w = g w

  flush-none : (c : FrameCache S M) → flush_loop l2 zero c ≡ some c
  unfolding flush_loop
  flush-none c = refl

  flush_one :
      (c : FrameCache S M) (n : ℕ)
      → IsValid c
      → c.len ≢ 0
      → (q : FrameCache S M) × (flush_loop l2 (suc n) c ≡ flush_loop l2 n q)
        × (q.len + 1 ≡ c.len)
        × Keeps c q
  unfolding flush_loop GivesOne weight
  flush_one c n v ne =
      let p = c.ptrs.at (c.len - 1) in
      let few : total once (free_frames l2 c.pool) < c.pool.n_frames =
        omega (arith, v.most, slots-once c, ne) in
      let (s, d, runs, t) = push_l2-gives l2 c.pool p v.sound few in
      let next : FrameCache S M = record {
        pool = with_stacks l2 c.pool s d;
        len = c.len - 1;
        ptrs = c.ptrs;
      } in
      let sums : (w : ℕ → ℕ) → weight w next ≡ weight w c =
        λ w. omega (arith, given_sum t.gives w, take_slot-weight c w ne) in
      (
        next,
        rw (take_slot-ok c v.room v.few ne, runs) refl,
        omega (arith, ne),
        record {
          valid = record {
            room = v.room;
            few = omega (arith, v.few);
            sound = t.sound;
            most = omega (arith, v.most, sums once);
          };
          frames = refl;
          same = sums;
        },
      )

  pub Keeps-trans : (c d e : FrameCache S M) → Keeps c d → Keeps d e → Keeps c e
  Keeps-trans c d e h k = record {
    valid = k.valid;
    frames = k.frames ∙ h.frames;
    same = λ w. k.same w ∙ h.same w;
  }

  flush_loop-Keeps :
      (n : ℕ) (c : FrameCache S M)
      → IsValid c
      → n ≤ c.len
      → (q : FrameCache S M) × (flush_loop l2 n c ≡ some q) × (q.len + n ≡ c.len) × Keeps c q
  flush_loop-Keeps zero c v h =
      (c, flush-none c, omega arith, record { valid = v; frames = refl; same = λ w. refl })
  flush_loop-Keeps (suc n) c v h =
      let (d, step, less, k) = flush_one c n v (omega (arith, h)) in
      let (q, runs, rest, m) = flush_loop-Keeps n d k.valid (omega (arith, h, less)) in
      (q, step ∙ runs, omega (arith, less, rest), Keeps-trans c d q k m)

  put_slot-IsValid :
      (c : FrameCache S M) (p : ℕ)
      → IsValid c
      → c.len < frame_mag_cap
      → weight once c < c.pool.n_frames
      → IsValid (record c { len = c.len + 1; ptrs = put c.ptrs c.len p })
  put_slot-IsValid c p v h few = record {
    room = v.room;
    few = omega (arith, h);
    sound = v.sound;
    most = omega (arith, put_slot-weight c p once, few);
  }

  -- `recycle` into a valid cache, where fewer frames are free or cached than the pool has, returns and
  -- leaves a valid cache with the frame among them: no other frame comes or goes, whether the cache has
  -- room or half of it goes to the pool.
  pub recycle-keeps :
      (c : FrameCache S M) (f : ℕ)
      → IsValid c
      → weight once c < c.pool.n_frames
      → (q : FrameCache S M) × (recycle l2 c f ≡ some q)
        × IsValid q
        × ((w : ℕ → ℕ) → weight w q ≡ w f + weight w c)
  unfolding recycle drain_then_push
  recycle-keeps c f v few = elim (Bool-cases (ltb c.len frame_mag_cap)) [
    | inl t ↦
        let h : c.len < frame_mag_cap = ground (arith, t) in
        (
          record c { len = c.len + 1; ptrs = put c.ptrs c.len f },
          rw (t, put_slot-ok c f v.room h) refl,
          put_slot-IsValid c f v h few,
          put_slot-weight c f,
        )
    | inr n ↦
        let h : frame_mag_cap ≤ c.len = ground (arith, n) in
        let (d, runs, less, k) = flush_loop-Keeps (frame_mag_cap / 2) c v (omega (arith, h)) in
        let room : d.len < frame_mag_cap = omega (arith, less, v.few) in
        let fewer : weight once d < d.pool.n_frames = omega (arith, k.same once, k.frames, few) in
        (
          record d { len = d.len + 1; ptrs = put d.ptrs d.len f },
          rw (n, runs) (put_slot-ok d f k.valid.room room),
          put_slot-IsValid d f k.valid room fewer,
          λ w. put_slot-weight d f w ∙ ap (λ x. w f + x) (k.same w),
        )
  ]

  -- Dropping a valid cache returns, and leaves it empty: all its frames are free in the pool, and what
  -- was free there still is.
  pub drop-keeps :
      (c : FrameCache S M)
      → IsValid c
      → (q : FrameCache S M) × (drop l2 c ≡ some q)
        × (q.len ≡ 0)
        × IsSound l2 q.pool
        × ((w : ℕ → ℕ) → total w (free_frames l2 q.pool) ≡ weight w c)
  unfolding drop weight stack
  drop-keeps c v =
      let (q, runs, less, k) = flush_loop-Keeps c.len c v (omega arith) in
      let empty : q.len ≡ 0 = omega (arith, less) in
      (
        q,
        runs,
        empty,
        k.valid.sound,
        λ w. omega (arith, k.same w, ap (λ n. total w (stack n q.ptrs.at)) empty, total-nil w),
      )
