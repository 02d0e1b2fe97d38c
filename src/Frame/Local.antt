-- ===== src/Frame/Local.antt =====
-- `pop_l2`, `push_l2`, `refill` and `drain` of toccata-core/src/frame.rs: what they take from all the free
-- frames and give to them.
use toccata.Base.{
  ℕ, ◌+◌, ◌-◌, ◌/◌, ◌≤◌, ◌<◌, ◌≡◌, refl, arith, Option, none, some, Bool, true, List, max,
  if◌then◌else◌, ◌>>=◌,
}
use toccata.Base.Totals.{total, once}
use toccata.Base.LocalStack.{LocalStack, Takes, took, refused, Gives, given, full}
use toccata.Frame.{FramePool, batch, refill_each, refill, drain, pop_l2, push_l2}
use toccata.Frame.Central
use toccata.Frame.CentralStack.{Fits, pop-Takes}
use toccata.Frame.Conserve.{
  frames, total-frames, Moves, MovesIn, push_both, refill_each-Moves, drain_each-Moves,
}

module _ {S M : Type 0} (l2 : LocalStack S) where
  unfoldable pub free_frames : FramePool S M → List ℕ
  free_frames pool = frames l2 pool.slab pool.central

  -- There are no more free frames than frames.
  pub record IsSound (pool : FramePool S M) : Type 0 where
    pub fits : Fits pool.n_frames pool.central
    pub few : total once (free_frames pool) ≤ pool.n_frames

  -- The pool with other stacks.
  abbrev pub with_stacks : FramePool S M → S → Central.Central → FramePool S M
  with_stacks pool s c = record pool { slab = s; central = c }

  -- A frame has been taken, or there was none in the central stack before and is none now.
  pub record TakesFrame (pool : FramePool S M) (r : Option ℕ) (q : FramePool S M) : Type 0 where
    pub sound : IsSound q
    pub takes : Takes free_frames pool r q
    pub drained : r ≡ none → (pool.central.top ≡ 0) × (q.central.top ≡ 0)

  pub record GivesFrame (pool : FramePool S M) (p : ℕ) (q : FramePool S M) : Type 0 where
    pub sound : IsSound q
    pub gives : Gives free_frames pool p true q

  -- A call that returns with a frame or without one, and a call that returns.
  unfoldable pub TakesOne : FramePool S M → Option (Option ℕ × FramePool S M) → Type 0
  TakesOne pool e =
      (r : Option ℕ) × (s : S) × (c : Central.Central) × (e ≡ some (r, with_stacks pool s c))
      × TakesFrame pool r (with_stacks pool s c)

  unfoldable pub GivesOne : FramePool S M → ℕ → Option (FramePool S M) → Type 0
  GivesOne pool p e =
      (s : S) × (c : Central.Central) × (e ≡ some (with_stacks pool s c))
      × GivesFrame pool p (with_stacks pool s c)

  refill_takes :
      (pool : FramePool S M) {r : Option ℕ} {c : Central.Central}
      → IsSound pool
      → Fits pool.n_frames c
      → Takes Central.contents pool.central r c
      → (r ≡ none → (pool.central.top ≡ 0) × (c.top ≡ 0))
      → TakesOne pool (elim r [
        | none ↦ some (none, record pool { central = c })
        | some handed ↦ do
          (s, c) ← refill_each l2 (batch - 1) pool.slab c
          some (some handed, record pool { slab = s; central = c })
      ])
  unfolding free_frames Moves TakesOne
  refill_takes pool {c = c} v fits (refused g) h =
      let sums : (w : ℕ → ℕ) → total w (frames l2 pool.slab c) ≡ total w (free_frames pool) = λ w.
        omega
          (arith, g w, total-frames l2 w pool.slab pool.central, total-frames l2 w pool.slab c) in
      (
        none,
        pool.slab,
        c,
        refl,
        record {
          sound = record { fits = fits; few = omega (arith, v.few, sums once) };
          takes = refused (λ w. omega (arith, sums w));
          drained = λ e. h refl;
        },
      )
  refill_takes pool {c = c} v fits (took {p = p} g) h =
      let before : (w : ℕ → ℕ)
          → total w (free_frames pool) ≡ w p + total w (frames l2 pool.slab c) =
        λ w.
          omega
            (arith, g w, total-frames l2 w pool.slab pool.central, total-frames l2 w pool.slab c) in
      let (s, d, runs, fit, sums) =
        refill_each-Moves l2 pool.n_frames (batch - 1) pool.slab c fits
          (omega (arith, v.few, before once)) in
      (
        some p,
        s,
        d,
        rw runs refl,
        record {
          sound = record { fits = fit; few = omega (arith, v.few, before once, sums once) };
          takes = took (λ w. omega (arith, before w, sums w));
          drained = λ e. absurd (cc e);
        },
      )

  refill-takes : (pool : FramePool S M) → IsSound pool → TakesOne pool (refill l2 pool)
  unfolding refill TakesOne
  refill-takes pool v =
      let (r, c, runs, fits, takes, h) = pop-Takes pool.n_frames pool.central v.fits in
      rw runs (refill_takes pool v fits takes h)

  takes_from :
      {pool before : FramePool S M} {r : Option ℕ} {q : FramePool S M}
      → ((w : ℕ → ℕ) → total w (free_frames pool) ≡ total w (free_frames before))
      → Takes free_frames pool r q
      → Takes free_frames before r q
  takes_from e (took g) = took (λ w. omega (arith, e w, g w))
  takes_from e (refused g) = refused (λ w. omega (arith, e w, g w))

  gives_from :
      {pool before : FramePool S M} {p : ℕ} {b : Bool} {q : FramePool S M}
      → ((w : ℕ → ℕ) → total w (free_frames pool) ≡ total w (free_frames before))
      → Gives free_frames pool p b q
      → Gives free_frames before p b q
  gives_from e (given g) = given (λ w. omega (arith, e w, g w))
  gives_from e (full g) = full (λ w. omega (arith, e w, g w))

  pop_takes :
      (pool : FramePool S M) {r : Option ℕ} {s : S}
      → IsSound pool
      → Takes l2.contents pool.slab r s
      → TakesOne pool (elim r [
        | some p ↦ some (some p, record pool { slab = s })
        | none ↦ refill l2 (record pool { slab = s })
      ])
  unfolding free_frames TakesOne
  pop_takes pool {s = s} v (took {p = p} g) =
      let sums : (w : ℕ → ℕ)
          → total w (free_frames pool) ≡ w p + total w (frames l2 s pool.central) =
        λ w. omega (
          arith,
          g w,
          total-frames l2 w pool.slab pool.central,
          total-frames l2 w s pool.central,
        ) in
      (
        some p,
        s,
        pool.central,
        refl,
        record {
          sound = record { fits = v.fits; few = omega (arith, v.few, sums once) };
          takes = took (λ w. omega (arith, sums w));
          drained = λ e. absurd (cc e);
        },
      )
  pop_takes pool {s = s} v (refused g) =
      let sums : (w : ℕ → ℕ) → total w (frames l2 s pool.central) ≡ total w (free_frames pool) =
        λ w. omega (
          arith,
          g w,
          total-frames l2 w pool.slab pool.central,
          total-frames l2 w s pool.central,
        ) in
      let (r, t, c, runs, takes) =
        refill-takes (record pool { slab = s })
          (record { fits = v.fits; few = omega (arith, v.few, sums once) }) in
      (
        r,
        t,
        c,
        runs,
        record {
          sound = takes.sound;
          takes = takes_from sums takes.takes;
          drained = takes.drained;
        },
      )

  -- `pop_l2` on a sound pool returns a free frame, or none where the central stack is empty.
  pub pop_l2-takes : (pool : FramePool S M) → IsSound pool → TakesOne pool (pop_l2 l2 pool)
  unfolding pop_l2 TakesOne
  pop_l2-takes pool v = pop_takes pool v (l2.pop-Takes pool.slab)

  dry_of :
      (pool : FramePool S M) (r t : Option ℕ) (s : S) {q : FramePool S M}
      → elim r [
        | some p ↦ some (some p, record pool { slab = s })
        | none ↦ refill l2 (record pool { slab = s })
      ]
        ≡ some (t, q)
      → t ≡ none
      → r ≡ none
  dry_of pool none t s e h = refl
  dry_of pool (some p) t s e h = absurd (cc (e, h))

  -- `pop_l2` returns none only after the stack of the processor has given none.
  pub pop_l2-dry :
      (pool : FramePool S M) {t : Option ℕ} {q : FramePool S M}
      → pop_l2 l2 pool ≡ some (t, q)
      → t ≡ none
      → (l2.pop pool.slab).0 ≡ none
  unfolding pop_l2
  pop_l2-dry pool {t} e h = dry_of pool _ t _ e h

  drain-gives :
      (pool : FramePool S M) (p : ℕ)
      → IsSound pool
      → total once (free_frames pool) < pool.n_frames
      → GivesOne pool p (drain l2 pool p)
  unfolding drain free_frames Moves MovesIn GivesOne
  drain-gives pool p v h =
      let (s, c, runs, fit, sums) =
        drain_each-Moves l2 pool.n_frames (max (batch / 2) 1) pool.slab pool.central v.fits v.few in
      let (t, d, ends, fits, more) =
        push_both l2 pool.n_frames p c fit (omega (arith, h, sums once)) (l2.push-Gives s p) in
      (
        t,
        d,
        rw (runs, ends) refl,
        record {
          sound = record { fits = fits; few = omega (arith, h, sums once, more once) };
          gives = given (λ w. omega (arith, sums w, more w));
        },
      )

  push_gives :
      (pool : FramePool S M) (p : ℕ) {b : Bool} {s : S}
      → IsSound pool
      → total once (free_frames pool) < pool.n_frames
      → Gives l2.contents pool.slab p b s
      → GivesOne pool p
          (if b then some (record pool { slab = s }) else drain l2 (record pool { slab = s }) p)
  unfolding free_frames GivesOne
  push_gives pool p {s = s} v h (given g) =
      let sums : (w : ℕ → ℕ)
          → total w (frames l2 s pool.central) ≡ w p + total w (free_frames pool) =
        λ w. omega (
          arith,
          g w,
          total-frames l2 w pool.slab pool.central,
          total-frames l2 w s pool.central,
        ) in
      (
        s,
        pool.central,
        refl,
        record {
          sound = record { fits = v.fits; few = omega (arith, h, sums once) };
          gives = given sums;
        },
      )
  push_gives pool p {s = s} v h (full g) =
      let sums : (w : ℕ → ℕ) → total w (frames l2 s pool.central) ≡ total w (free_frames pool) =
        λ w. omega (
          arith,
          g w,
          total-frames l2 w pool.slab pool.central,
          total-frames l2 w s pool.central,
        ) in
      let (t, c, runs, gives) =
        drain-gives (record pool { slab = s }) p
          (record { fits = v.fits; few = omega (arith, v.few, sums once) })
          (omega (arith, h, sums once)) in
      (t, c, runs, record { sound = gives.sound; gives = gives_from sums gives.gives })

  -- `push_l2` of a frame that is not free returns, and the frame is free.
  pub push_l2-gives :
      (pool : FramePool S M) (p : ℕ)
      → IsSound pool
      → total once (free_frames pool) < pool.n_frames
      → GivesOne pool p (push_l2 l2 pool p)
  unfolding push_l2 GivesOne
  push_l2-gives pool p v h = push_gives pool p v h (l2.push-Gives pool.slab p)
