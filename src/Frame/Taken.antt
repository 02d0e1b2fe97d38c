-- ===== src/Frame/Taken.antt =====
-- What a thread takes from its `FrameCache` of toccata-core/src/frame.rs, refilled from the pool.
use toccata.Base.{
  ℕ, zero, suc, ◌+◌, ◌-◌, ◌/◌, ◌≤◌, ◌<◌, ◌≡◌, ◌≢◌, inl, inr, refl, arith, Option, none, some,
  Bool-cases, ◌>>=◌, ltb, ◌==◌, put,
}
use toccata.Base.Totals.{once, occurs, occurs_self}
use toccata.Base.LocalStack.{LocalStack, Takes, took, refused}
use toccata.Frame.Central
use toccata.Frame.Local.{free_frames, TakesFrame, TakesOne, with_stacks, pop_l2-takes, pop_l2-dry}
use toccata.Frame.Cache.{frame_mag_cap, FrameCache, take_slot, put_slot, refill_loop, refill, take}
use toccata.Frame.Cached.{
  weight, IsValid, Keeps, Keeps-trans, put_slot-ok, put_slot-weight, take_slot-ok, take_slot-weight,
}

module _ {S M : Type 0} (l2 : LocalStack S) where
  -- What `alloc` of the cache takes out before it touches the metadata.
  pub data TakesOut (c : FrameCache S M) : Option ℕ → FrameCache S M → Type 0 where
    nothing :
        {q : FrameCache S M}
        → c.len ≡ 0
        → (l2.pop c.pool.slab).0 ≡ none
        → c.pool.central.top ≡ 0
        → q.len ≡ 0
        → ((w : ℕ → ℕ) → weight l2 w q ≡ weight l2 w c)
        → TakesOut c none q
    one :
        {p : ℕ} {q : FrameCache S M}
        → ((w : ℕ → ℕ) → weight l2 w c ≡ w p + weight l2 w q)
        → weight l2 (occurs p) q ≡ 0
        → TakesOut c (some p) q

  -- No frame is free or in the cache twice.
  unfoldable pub IsDistinct : FrameCache S M → Type 0
  IsDistinct c = (p : ℕ) → weight l2 (occurs p) c ≤ 1

  -- A refill of `n` rounds: the cache has no fewer frames, and has none only where the pool gave none.
  record Refills (n : ℕ) (c q : FrameCache S M) : Type 0 where
    keeps : Keeps l2 c q
    more : c.len ≤ q.len
    dry : q.len ≡ 0 → n ≢ 0 → ((l2.pop c.pool.slab).0 ≡ none) × (c.pool.central.top ≡ 0)

  refill_next :
      (c : FrameCache S M) (n : ℕ) {r : Option ℕ} {s : S} {d : Central.Central}
      → IsValid l2 c
      → c.len < frame_mag_cap
      → ((e : FrameCache S M)
          → IsValid l2 e
          → e.len + n ≤ frame_mag_cap
          → (q : FrameCache S M) × (refill_loop l2 n e ≡ some q) × Refills n e q)
      → c.len + suc n ≤ frame_mag_cap
      → TakesFrame l2 c.pool r (with_stacks l2 c.pool s d)
      → Takes (free_frames l2) c.pool r (with_stacks l2 c.pool s d)
      → (r ≡ none → (l2.pop c.pool.slab).0 ≡ none)
      → (q : FrameCache S M) × ((elim r [
        | none ↦ some (record c { pool = with_stacks l2 c.pool s d })
        | some p ↦ do
          c ← put_slot (record c { pool = with_stacks l2 c.pool s d }) p
          refill_loop l2 n c
      ])
          ≡ some q)
        × Refills (suc n) c q
  unfolding weight
  refill_next c n {s = s} {d = d} v h rest few t (refused g) dry =
      let sums : (w : ℕ → ℕ)
          → weight l2 w (record c { pool = with_stacks l2 c.pool s d }) ≡ weight l2 w c =
        λ w. omega (arith, g w) in
      (
        record c { pool = with_stacks l2 c.pool s d },
        refl,
        record {
          keeps = record {
            valid = record {
              room = v.room;
              few = v.few;
              sound = t.sound;
              most = omega (arith, v.most, sums once);
            };
            frames = refl;
            same = sums;
          };
          more = omega arith;
          dry = λ z ne. (dry refl, (t.drained refl).0);
        },
      )
  refill_next c n {s = s} {d = d} v h rest few t (took {p = p} g) dry =
      let next : FrameCache S M = record c { pool = with_stacks l2 c.pool s d } in
      let put_in : FrameCache S M = record next { len = c.len + 1; ptrs = put c.ptrs c.len p } in
      let sums : (w : ℕ → ℕ) → weight l2 w put_in ≡ weight l2 w c =
        λ w. omega (arith, g w, put_slot-weight l2 next p w) in
      let valid : IsValid l2 put_in = record {
        room = v.room;
        few = omega (arith, h);
        sound = t.sound;
        most = omega (arith, v.most, sums once);
      } in
      let (q, runs, k) = rest put_in valid (omega (arith, few)) in
      (
        q,
        rw (put_slot-ok l2 next p v.room h) runs,
        record {
          keeps =
              Keeps-trans l2 c put_in q (record { valid = valid; frames = refl; same = sums })
                k.keeps;
          more = omega (arith, k.more);
          dry = λ z ne. absurd (omega (arith, k.more, z));
        },
      )

  refill_loop-Refills :
      (n : ℕ) (c : FrameCache S M)
      → IsValid l2 c
      → c.len + n ≤ frame_mag_cap
      → (q : FrameCache S M) × (refill_loop l2 n c ≡ some q) × Refills n c q
  unfolding refill_loop TakesOne
  refill_loop-Refills zero c v h = (
    c,
    refl,
    record {
      keeps = record { valid = v; frames = refl; same = λ w. refl };
      more = omega arith;
      dry = λ z ne. absurd (ne refl);
    },
  )
  refill_loop-Refills (suc n) c v h =
      let (r, s, d, runs, t) = pop_l2-takes l2 c.pool v.sound in
      rw runs (
        refill_next c n v (omega (arith, h)) (refill_loop-Refills n) h t t.takes
          (pop_l2-dry l2 c.pool runs))

  take_one :
      (c : FrameCache S M)
      → IsValid l2 c
      → c.len ≢ 0
      → (p : ℕ) × (q : FrameCache S M) × (take_slot c ≡ some (p, q))
        × IsValid l2 q
        × ((w : ℕ → ℕ) → weight l2 w c ≡ w p + weight l2 w q)
  take_one c v ne = (
    c.ptrs.at (c.len - 1),
    record c { len = c.len - 1 },
    take_slot-ok l2 c v.room v.few ne,
    record {
      room = v.room;
      few = omega (arith, v.few);
      sound = v.sound;
      most = omega (arith, v.most, take_slot-weight l2 c once ne);
    },
    λ w. take_slot-weight l2 c w ne,
  )

  -- Taking a frame from a valid cache, in which no frame is twice, returns: a frame that was free or in
  -- the cache and is neither now; or nothing, where the cache was empty, the stack of the processor gave
  -- none and the central stack was empty, and then nothing has changed hands. The cache stays valid, and
  -- no frame is in it twice.
  pub take-keeps :
      (c : FrameCache S M)
      → IsValid l2 c
      → IsDistinct c
      → (r : Option ℕ) × (q : FrameCache S M) × (take l2 c ≡ some (r, q))
        × IsValid l2 q
        × IsDistinct q
        × TakesOut c r q
  unfolding take refill IsDistinct
  take-keeps c v once_each = elim (Bool-cases (ltb 0 c.len)) [
    | inl t ↦
        let (p, q, runs, valid, sums) = take_one c v (ground (arith, t)) in
        (
          some p,
          q,
          rw (t, runs) refl,
          valid,
          λ x. omega (arith, sums (occurs x), once_each x),
          one sums (omega (arith, sums (occurs p), once_each p, occurs_self p)),
        )
    | inr f ↦
        let none_here : c.len ≡ 0 = ground (arith, f) in
        let rounds : frame_mag_cap / 2 - c.len ≢ 0 = omega (arith, none_here) in
        let (d, fills, k) =
          refill_loop-Refills (frame_mag_cap / 2 - c.len) c v (omega (arith, none_here)) in
        let same = k.keeps.same in
        elim (Bool-cases (d.len == 0)) [
          | inl z ↦
              let left : d.len ≡ 0 = ground (arith, z) in
              let (dry, empty) = k.dry left rounds in
              (
                none,
                d,
                rw (f, fills, z) refl,
                k.keeps.valid,
                λ x. omega (arith, same (occurs x), once_each x),
                nothing none_here dry empty left same,
              )
          | inr g ↦
              let (p, q, runs, valid, sums) = take_one d k.keeps.valid (ground (arith, g)) in
              (
                some p,
                q,
                rw (f, fills, g, runs) refl,
                valid,
                λ x. omega (arith, sums (occurs x), same (occurs x), once_each x),
                one (λ w. omega (arith, sums w, same w))
                    (omega (arith, sums (occurs p), same (occurs p), once_each p, occurs_self p)),
              )
        ]
  ]
