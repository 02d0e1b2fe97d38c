-- ===== src/Frame/Conserve.antt =====
-- No frame of toccata-core/src/frame.rs is lost or doubled on its way between the processors' stacks, the
-- central stack and the caller.
use toccata.Base.{
  ℕ, zero, suc, ◌+◌, ◌≤◌, ◌<◌, ◌≡◌, refl, arith, Option, none, some, Bool, List, ◌++◌,
  if◌then◌else◌, ◌>>=◌,
}
use toccata.Base.Totals.{total, total-append, once}
use toccata.Base.LocalStack.{LocalStack, Takes, took, refused, Gives, given, full}
use toccata.Frame.{refill_each, drain_each}
use toccata.Frame.Central
use toccata.Frame.CentralStack.{Fits, length-contents, push-ok, pop-Takes}

module _ {S : Type 0} (l2 : LocalStack S) where
  -- All free frames.
  unfoldable pub frames : S → Central.Central → List ℕ
  frames s c = l2.contents s ++ Central.contents c

  pub total-frames :
      (w : ℕ → ℕ) (s : S) (c : Central.Central)
      → total w (frames s c) ≡ total w (l2.contents s) + total w (Central.contents c)
  unfolding frames
  total-frames w s c = total-append w (l2.contents s) (Central.contents c)

  -- Frames have moved from one stack to the other.
  unfoldable pub Moves : ℕ → S → Central.Central → Option (S × Central.Central) → Type 0
  Moves n s c r =
      (t : S) × (d : Central.Central) × (r ≡ some (t, d))
      × Fits n d
      × ((w : ℕ → ℕ) → total w (frames t d) ≡ total w (frames s c))

  -- The same where the frame `p` has come in from outside.
  unfoldable pub MovesIn : ℕ → ℕ → S → Central.Central → Option (S × Central.Central) → Type 0
  MovesIn n p s c r =
      (t : S) × (d : Central.Central) × (r ≡ some (t, d))
      × Fits n d
      × ((w : ℕ → ℕ) → total w (frames t d) ≡ w p + total w (frames s c))

  -- A frame that a processor's stack refuses goes to the central stack.
  pub push_both :
      (n p : ℕ) {s : S} {b : Bool} {t : S} (c : Central.Central)
      → Fits n c
      → total once (frames s c) < n
      → Gives l2.contents s p b t
      → MovesIn n p s c (if b then some (t, c) else (do d ← Central.push c p; some (t, d)))
  unfolding MovesIn
  push_both n p {s} {t = t} c v h (given g) =
      (t, c, refl, v, λ w. omega (arith, g w, total-frames w s c, total-frames w t c))
  push_both n p {s} {t = t} c v h (full g) =
      let few : c.top < n = omega (arith, h, total-frames once s c, length-contents c) in
      let (d, e, fits, sums) = push-ok n c p v few in
      (
        t,
        d,
        rw e refl,
        fits,
        λ w. omega (arith, g w, sums w, total-frames w s c, total-frames w t d),
      )

  module _ (n : ℕ) (rest : S → Central.Central → Option (S × Central.Central))
      (moves : (s : S) (c : Central.Central)
        → Fits n c
        → total once (frames s c) ≤ n
        → Moves n s c (rest s c)) where
    refill_push :
        (s : S) (c d : Central.Central) (p : ℕ) {b : Bool} {t : S}
        → ((w : ℕ → ℕ) → total w (frames s c) ≡ w p + total w (frames s d))
        → total once (frames s c) ≤ n
        → Fits n d
        → Gives l2.contents s p b t
        → Moves n s c (if b then rest t d else (do e ← Central.push d p; some (t, e)))
    unfolding Moves
    refill_push s c d p {t = t} sum h fits (given g) =
        let (u, e, runs, fits, sums) =
          moves t d fits
            (omega (arith, h, sum once, g once, total-frames once s d, total-frames once t d)) in
        (
          u,
          e,
          runs,
          fits,
          λ w. omega (arith, sum w, g w, sums w, total-frames w s d, total-frames w t d),
        )
    refill_push s c d p {t = t} sum h fits (full g) =
        let few : d.top < n =
          omega (arith, h, sum once, total-frames once s d, length-contents d) in
        let (e, runs, fits, sums) = push-ok n d p fits few in
        (
          t,
          e,
          rw runs refl,
          fits,
          λ w. omega (arith, sum w, g w, sums w, total-frames w s d, total-frames w t e),
        )

    refill_one :
        (s : S) (c : Central.Central)
        → total once (frames s c) ≤ n
        → {r : Option ℕ} {d : Central.Central} → Fits n d
        → Takes Central.contents c r d
        → Moves n s c (elim r [
          | none ↦ some (s, d)
          | some p ↦
              if (l2.push s p).0
              then rest (l2.push s p).1 d
              else (do d ← Central.push d p; some ((l2.push s p).1, d))
        ])
    unfolding Moves
    refill_one s c h {d = d} fits (refused g) =
        (s, d, refl, fits, λ w. omega (arith, g w, total-frames w s c, total-frames w s d))
    refill_one s c h {d = d} fits (took {p = p} g) =
        refill_push s c d p (λ w. omega (arith, g w, total-frames w s c, total-frames w s d)) h fits
          (l2.push-Gives s p)

    drain_one :
        (s : S) (c : Central.Central)
        → total once (frames s c) ≤ n
        → Fits n c
        → {r : Option ℕ} {t : S} → Takes l2.contents s r t
        → Moves n s c (elim r [ none ↦ some (t, c) | some p ↦ do d ← Central.push c p; rest t d ])
    unfolding Moves
    drain_one s c h v {t = t} (refused g) =
        (t, c, refl, v, λ w. omega (arith, g w, total-frames w s c, total-frames w t c))
    drain_one s c h v {t = t} (took {p = p} g) =
        let few : c.top < n = omega (arith, h, g once, total-frames once s c, length-contents c) in
        let (d, pushes, fits, sums) = push-ok n c p v few in
        let (u, e, runs, fits, moved) =
          moves t d fits
            (omega (arith, h, g once, sums once, total-frames once s c, total-frames once t d)) in
        (
          u,
          e,
          rw pushes runs,
          fits,
          λ w. omega (arith, moved w, g w, sums w, total-frames w s c, total-frames w t d),
        )

  pub refill_each-Moves :
      (n k : ℕ) (s : S) (c : Central.Central)
      → Fits n c
      → total once (frames s c) ≤ n
      → Moves n s c (refill_each l2 k s c)
  unfolding refill_each Moves
  refill_each-Moves n zero s c v h = (s, c, refl, v, λ w. refl)
  refill_each-Moves n (suc k) s c v h =
      let (r, d, e, fits, takes, _) = pop-Takes n c v in
      rw e (refill_one n (refill_each l2 k) (refill_each-Moves n k) s c h fits takes)

  pub drain_each-Moves :
      (n k : ℕ) (s : S) (c : Central.Central)
      → Fits n c
      → total once (frames s c) ≤ n
      → Moves n s c (drain_each l2 k s c)
  unfolding drain_each Moves
  drain_each-Moves n zero s c v h = (s, c, refl, v, λ w. refl)
  drain_each-Moves n (suc k) s c v h =
      drain_one n (drain_each l2 k) (drain_each-Moves n k) s c h v (l2.pop-Takes s)
