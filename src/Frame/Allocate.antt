-- ===== src/Frame/Allocate.antt =====
-- `alloc` and `free` of `FramePool` in toccata-core/src/frame.rs, with the metadata of the frames.
use toccata.Base.{
  ℕ, ◌+◌, ◌-◌, ◌/◌, ◌%◌, ◌^◌, ◌≤◌, ◌<◌, ◌≡◌, ◌≢◌, inl, inr, refl, arith, Option, none, some, Bool,
  true, false, ◌&&◌, Bool-cases, if◌then◌else◌, ◌>>=◌, ltb, leb, ◌==◌, put,
}
use toccata.Base.Totals.{total, once, occurs, occurs_self}
use toccata.Base.LocalStack.{LocalStack, Takes, took, refused, Gives, given}
use toccata.Frame.{FramePool, index_of, meta_on_alloc, meta_on_free, alloc, dealloc, push_l2}
use toccata.Frame.Meta.{Reclaim-cases, free, keep, FrameMeta}
use toccata.Frame.Central
use toccata.Frame.Local.{
  free_frames, IsSound, TakesOne, GivesOne, with_stacks, pop_l2-takes, pop_l2-dry, push_l2-gives,
}

module _ {S M : Type 0} where
  abbrev pub frame_number : FramePool S M → ℕ → ℕ
  frame_number pool p = (p - pool.frames_base) / 2 ^ pool.frame_shift

  -- The address is that of a frame of the pool.
  unfoldable pub is_frame : FramePool S M → ℕ → Bool
  is_frame pool p =
      leb pool.frames_base p
      && ((p - pool.frames_base) % 2 ^ pool.frame_shift == 0)
      && ltb (frame_number pool p) pool.n_frames

  abbrev pub stray : FramePool S M → ℕ → ℕ
  stray pool p = if is_frame pool p then 0 else 1

  abbrev pub with_meta : FramePool S M → ℕ → M → FramePool S M
  with_meta pool p m = record pool { meta = put pool.meta (frame_number pool p) m }

  abbrev pub meta_of : FramePool S M → ℕ → M
  meta_of pool p = pool.meta.at (frame_number pool p)

  module _ (policy : FrameMeta M) (pool : FramePool S M) (p : ℕ) (f : is_frame pool p ≡ true)
      (len : pool.meta.len ≡ pool.n_frames) where
    meta_on_alloc-ok :
        meta_on_alloc policy pool p ≡ some (with_meta pool p (policy.on_alloc (meta_of pool p)))
    unfolding meta_on_alloc index_of is_frame
    meta_on_alloc-ok = ground (arith, f, len)

    meta_on_free-ok :
        meta_on_free policy pool p
        ≡ some (
          (policy.on_free (meta_of pool p)).0,
          with_meta pool p (policy.on_free (meta_of pool p)).1,
        )
    unfolding meta_on_free index_of is_frame
    meta_on_free-ok = ground (arith, f, len)

module _ {S M : Type 0} (l2 : LocalStack S) (policy : FrameMeta M) where
  -- The pool is sound, every frame has its metadata, and only frames of the pool are free.
  pub record IsValid (pool : FramePool S M) : Type 0 where
    pub sound : IsSound l2 pool
    pub metas : pool.meta.len ≡ pool.n_frames
    pub inside : total (stray pool) (free_frames l2 pool) ≡ 0

  -- No frame is free twice.
  unfoldable pub IsDistinct : FramePool S M → Type 0
  IsDistinct pool = (p : ℕ) → total (occurs p) (free_frames l2 pool) ≤ 1

  -- What `alloc` returns and leaves.
  pub data Allocates (pool : FramePool S M) : Option ℕ → FramePool S M → Type 0 where
    exhausted :
        {q : FramePool S M}
        → (l2.pop pool.slab).0 ≡ none
        → pool.central.top ≡ 0
        → q.central.top ≡ 0
        → ((w : ℕ → ℕ) → total w (free_frames l2 q) ≡ total w (free_frames l2 pool))
        → q.meta ≡ pool.meta
        → Allocates pool none q
    handed_out :
        {p : ℕ} {q : FramePool S M}
        → is_frame pool p ≡ true
        → ((w : ℕ → ℕ) → total w (free_frames l2 pool) ≡ w p + total w (free_frames l2 q))
        → total (occurs p) (free_frames l2 q) ≡ 0
        → q.meta ≡ put pool.meta (frame_number pool p) (policy.on_alloc (meta_of pool p))
        → Allocates pool (some p) q

  -- Free frames are frames.
  free_inside : (pool : FramePool S M) (p : ℕ) → is_frame pool p ≡ false → stray pool p ≢ 0
  free_inside pool p n z = ground (arith, n, z)

  frame_inside : (pool : FramePool S M) (p : ℕ) → is_frame pool p ≡ true → stray pool p ≡ 0
  frame_inside pool p e = ground (arith, e)

  pub AllocatesOne : FramePool S M → Option (Option ℕ × FramePool S M) → Type 0
  AllocatesOne pool e =
      (r : Option ℕ) × (q : FramePool S M) × (e ≡ some (r, q))
      × IsValid q
      × IsDistinct q
      × Allocates pool r q

  alloc_rest :
      (pool : FramePool S M) (s : S) (c : Central.Central) {r : Option ℕ}
      → IsValid pool
      → IsDistinct pool
      → IsSound l2 (with_stacks l2 pool s c)
      → Takes (free_frames l2) pool r (with_stacks l2 pool s c)
      → (r ≡ none → (pool.central.top ≡ 0) × (c.top ≡ 0))
      → (r ≡ none → (l2.pop pool.slab).0 ≡ none)
      → AllocatesOne pool (elim r [
        | none ↦ some (none, with_stacks l2 pool s c)
        | some ptr ↦ do
          pool ← meta_on_alloc policy (with_stacks l2 pool s c) ptr
          some (some ptr, pool)
      ])
  unfolding AllocatesOne IsDistinct free_frames is_frame
  alloc_rest pool s c v once_each sound (refused g) h dry = (
    none,
    with_stacks l2 pool s c,
    refl,
    record { sound = sound; metas = v.metas; inside = omega (arith, g (stray pool), v.inside) },
    λ p. omega (arith, g (occurs p), once_each p),
    exhausted (dry refl) (h refl).0 (h refl).1 g refl,
  )
  alloc_rest pool s c v once_each sound (took {p = p} g) h dry =
      let f : is_frame pool p ≡ true = elim (Bool-cases (is_frame pool p)) [
        | inl t ↦ t
        | inr n ↦ absurd (free_inside pool p n (omega (arith, g (stray pool), v.inside)))
      ] in
      let runs = meta_on_alloc-ok policy (with_stacks l2 pool s c) p f v.metas in
      (
        some p,
        with_meta (with_stacks l2 pool s c) p (policy.on_alloc (meta_of pool p)),
        rw runs refl,
        record {
          sound = record { fits = sound.fits; few = sound.few };
          metas = v.metas;
          inside = omega (arith, g (stray pool), v.inside);
        },
        λ x. omega (arith, g (occurs x), once_each x),
        handed_out f g (omega (arith, g (occurs p), once_each p, occurs_self p)) refl,
      )

  -- `alloc` on a valid pool in which no frame is free twice returns. Either the stack of the processor has
  -- given none, the central stack is empty and nothing has changed hands, or the result is a frame of
  -- the pool that was free and is no longer, and its metadata alone is that of a fresh allocation. The
  -- pool stays valid, and no frame is free twice in it.
  pub alloc-AllocatesOne :
      (pool : FramePool S M)
      → IsValid pool
      → IsDistinct pool
      → AllocatesOne pool (alloc l2 policy pool)
  unfolding alloc TakesOne AllocatesOne
  alloc-AllocatesOne pool v once_each =
      let (r, s, c, runs, t) = pop_l2-takes l2 pool v.sound in
      rw runs (alloc_rest pool s c v once_each t.sound t.takes t.drained (pop_l2-dry l2 pool runs))

  -- What `free` leaves: the frame goes back where the policy says so, and its metadata is what the
  -- policy leaves.
  pub data Frees (pool : FramePool S M) (f : ℕ) : FramePool S M → Type 0 where
    kept :
        (policy.on_free (meta_of pool f)).0 ≡ keep
        → Frees pool f (with_meta pool f (policy.on_free (meta_of pool f)).1)
    reclaimed :
        {q : FramePool S M}
        → (policy.on_free (meta_of pool f)).0 ≡ free
        → ((w : ℕ → ℕ) → total w (free_frames l2 q) ≡ w f + total w (free_frames l2 pool))
        → q.meta ≡ put pool.meta (frame_number pool f) (policy.on_free (meta_of pool f)).1
        → Frees pool f q

  pub FreesOne : FramePool S M → ℕ → Option (FramePool S M) → Type 0
  FreesOne pool f e = (q : FramePool S M) × (e ≡ some q) × IsValid q × Frees pool f q

  given_sum :
      {pool q : FramePool S M} {p : ℕ}
      → Gives (free_frames l2) pool p true q
      → (w : ℕ → ℕ) → total w (free_frames l2 q) ≡ w p + total w (free_frames l2 pool)
  given_sum (given g) w = g w

  reclaim-Frees :
      (pool : FramePool S M) (f : ℕ)
      → IsValid pool
      → is_frame pool f ≡ true
      → total once (free_frames l2 pool) < pool.n_frames
      → (policy.on_free (meta_of pool f)).0 ≡ free
      → FreesOne pool f (push_l2 l2 (with_meta pool f (policy.on_free (meta_of pool f)).1) f)
  unfolding FreesOne GivesOne free_frames is_frame
  reclaim-Frees pool f v h few what =
      let next = with_meta pool f (policy.on_free (meta_of pool f)).1 in
      let (s, c, runs, t) =
        push_l2-gives l2 next f (record { fits = v.sound.fits; few = v.sound.few }) few in
      (
        with_stacks l2 next s c,
        runs,
        record {
          sound = t.sound;
          metas = v.metas;
          inside = omega (arith, given_sum t.gives (stray pool), v.inside, frame_inside pool f h);
        },
        reclaimed what (given_sum t.gives) refl,
      )

  meta-IsValid :
      (pool : FramePool S M) (f : ℕ) (m : M) → IsValid pool → IsValid (with_meta pool f m)
  unfolding free_frames is_frame
  meta-IsValid pool f m v = record {
    sound = record { fits = v.sound.fits; few = v.sound.few };
    metas = v.metas;
    inside = v.inside;
  }

  -- `free` of a frame of a valid pool returns, where fewer frames are free than there are. The frame is free again where the
  -- policy says so and stays with the other owners where not. The pool stays valid.
  pub dealloc-FreesOne :
      (pool : FramePool S M) (f : ℕ)
      → IsValid pool
      → is_frame pool f ≡ true
      → total once (free_frames l2 pool) < pool.n_frames
      → FreesOne pool f (dealloc l2 policy pool f)
  unfolding dealloc FreesOne
  dealloc-FreesOne pool f v h few =
      rw (meta_on_free-ok policy pool f h v.metas)
        (elim (Reclaim-cases (policy.on_free (meta_of pool f)).0) [
          | inl what ↦ rw what (reclaim-Frees pool f v h few what)
          | inr what ↦ rw what (
            with_meta pool f (policy.on_free (meta_of pool f)).1,
            refl,
            meta-IsValid pool f _ v,
            kept what,
          )
        ])
