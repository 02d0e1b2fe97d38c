-- ===== src/Frame/Windows.antt =====
-- The windows of a frame in toccata-core/src/frame.rs stay apart, and the frame goes back when the last
-- of them is dropped.
use toccata.Base.{
  ℕ, zero, suc, ◌+◌, ◌-◌, ◌^◌, ◌≤◌, ◌<◌, min, ◌≡◌, ◌≢◌, inl, inr, refl, ap, subst, arith, some,
  List, [], ◌∷◌, length, get_elem?, ◌==◌, All, Bool-cases, sub_usize,
}
use toccata.Frame.Meta.{free, keep, retain, release}
use toccata.Frame.Buffer.{
  FrameBuf, split_to, truncate, advance, Buffers, set_at, remove_at, Op, split, cut, skip, drop,
  drop_buffer, step, holds, covers, IsInside, IsValid,
}

length-set : (ws : List FrameBuf) (i : ℕ) (v : FrameBuf) → length (set_at ws i v) ≡ length ws
unfolding set_at
length-set [] i v = refl
length-set (y ∷ ys) zero v = refl
length-set (y ∷ ys) (suc i) v = omega (arith, length-set ys i v)

module _ {w : FrameBuf} where
  covers-set :
      (x : ℕ) (ws : List FrameBuf) (i : ℕ) (v : FrameBuf)
      → get_elem? ws i ≡ some w
      → covers x (set_at ws i v) + holds x w ≡ covers x ws + holds x v
  unfolding covers set_at
  covers-set x [] i v e = cc e
  covers-set x (y ∷ ys) zero v e = let same : y ≡ w = cc e in omega (arith, ap (holds x) same)
  covers-set x (y ∷ ys) (suc i) v e = omega (arith, covers-set x ys i v e)

  covers-remove :
      (x : ℕ) (ws : List FrameBuf) (i : ℕ)
      → get_elem? ws i ≡ some w
      → covers x (remove_at ws i) + holds x w ≡ covers x ws
  unfolding covers remove_at
  covers-remove x [] i e = cc e
  covers-remove x (y ∷ ys) zero e = let same : y ≡ w = cc e in omega (arith, ap (holds x) same)
  covers-remove x (y ∷ ys) (suc i) e = omega (arith, covers-remove x ys i e)

  length-remove :
      (ws : List FrameBuf) (i : ℕ)
      → get_elem? ws i ≡ some w
      → length (remove_at ws i) + 1 ≡ length ws
  unfolding remove_at
  length-remove [] i e = cc e
  length-remove (y ∷ ys) zero e = omega arith
  length-remove (y ∷ ys) (suc i) e = omega (arith, length-remove ys i e)

  All-get :
      (P : FrameBuf → Type 0) (ws : List FrameBuf) (i : ℕ)
      → get_elem? ws i ≡ some w
      → All P ws
      → P w
  All-get P [] i e a = cc e
  All-get P (y ∷ ys) zero e a = let same : y ≡ w = cc e in subst P same a.0
  All-get P (y ∷ ys) (suc i) e a = All-get P ys i e a.1

All-set :
    (P : FrameBuf → Type 0) (ws : List FrameBuf) (i : ℕ) (v : FrameBuf)
    → All P ws
    → P v
    → All P (set_at ws i v)
unfolding set_at
All-set P [] i v a p = tt
All-set P (y ∷ ys) zero v a p = (p, a.1)
All-set P (y ∷ ys) (suc i) v a p = (a.0, All-set P ys i v a.1 p)

All-remove :
    (P : FrameBuf → Type 0) (ws : List FrameBuf) (i : ℕ) → All P ws → All P (remove_at ws i)
unfolding remove_at
All-remove P [] i a = tt
All-remove P (y ∷ ys) zero a = a.1
All-remove P (y ∷ ys) (suc i) a = (a.0, All-remove P ys i a.1)

-- A split window is its two halves.
holds-split :
    (x n : ℕ) (w : FrameBuf)
    → n ≤ w.len
    → holds x (record { offset = w.offset; len = n })
        + holds x (record { offset = w.offset + n; len = w.len - n })
      ≡ holds x w
holds-split x n w h = ground (arith, h)

holds-truncate :
    (x n : ℕ) (w : FrameBuf) → holds x (record { offset = w.offset; len = min n w.len }) ≤ holds x w
holds-truncate x n w = ground arith

holds-advance :
    (x n : ℕ) (w : FrameBuf)
    → n ≤ w.len
    → holds x (record { offset = w.offset + n; len = w.len - n }) ≤ holds x w
holds-advance x n w h = ground (arith, h)

release-last : (n : ℕ) → n ≡ 1 → release n ≡ (free, 0)
unfolding release
release-last n e = ground (arith, e)

release-more : (n : ℕ) → n ≢ 1 → n ≢ 0 → n < 2 ^ 64 → release n ≡ (keep, n - 1)
unfolding release
release-more n e z h =
    let less : sub_usize n 1 ≡ n - 1 = omega (arith, z, h) in ground (arith, e, less)

-- What the holder of a buffer has to respect: the buffer is there, and no more is split or skipped
-- than it is long.
pub data Allowed (b : Buffers) : Op → Type 0 where
  may_split :
      {i n : ℕ} {w : FrameBuf}
      → get_elem? b.windows i ≡ some w
      → n ≤ w.len
      → length b.windows + 1 < 2 ^ 64
      → Allowed b (split i n)
  may_cut : {i n : ℕ} {w : FrameBuf} → get_elem? b.windows i ≡ some w → Allowed b (cut i n)
  may_skip :
      {i n : ℕ} {w : FrameBuf} → get_elem? b.windows i ≡ some w → n ≤ w.len → Allowed b (skip i n)
  may_drop : {i : ℕ} {w : FrameBuf} → get_elem? b.windows i ≡ some w → Allowed b (drop i)

module _ (cap : ℕ) (small : cap < 2 ^ 16) where
  pub StepsTo : Op → Buffers → Type 0
  StepsTo op b = (q : Buffers) × (step op b ≡ some q) × IsValid cap q

  some-length :
      (ws : List FrameBuf) (i : ℕ) {w : FrameBuf} → get_elem? ws i ≡ some w → length ws ≢ 0
  some-length [] i e z = cc e
  some-length (x ∷ xs) i e z = omega (arith, z)

  drop-IsValid :
      (b : Buffers) (i : ℕ) {w : FrameBuf}
      → IsValid cap b
      → get_elem? b.windows i ≡ some w
      → IsValid cap (drop_buffer b i)
  unfolding drop_buffer
  drop-IsValid b i v e =
      let less = λ (x : ℕ). covers-remove x b.windows i e in
      elim (Bool-cases (b.count == 1)) [
        | inl t ↦
            let last : b.count ≡ 1 = ground (arith, t) in
            let after : (release b.count).1 ≡ 0 = ap (λ r. r.1) (release-last b.count last) in
            rw (drop_buffer, release-last b.count last)
              (record {
                apart = λ x. omega (arith, covers-remove x b.windows i e, v.apart x);
                inside = All-remove (IsInside cap) b.windows i v.inside;
                counted = omega (arith, length-remove b.windows i e, v.counted, last, after);
                few = omega (arith, length-remove b.windows i e, v.few);
                returned = ground (arith, v.returned, last, after);
              })
        | inr f ↦
            let more : b.count ≢ 1 = ground (arith, f) in
            let some_left : b.count ≢ 0 =
              λ z. some-length b.windows i e (omega (arith, z, v.counted)) in
            let after : (release b.count).1 ≡ b.count - 1 =
              ap (λ r. r.1)
                (release-more b.count more some_left (omega (arith, v.few, v.counted))) in
            rw (drop_buffer, release-more b.count more some_left (omega (arith, v.few, v.counted)))
              (record {
                apart = λ x. omega (arith, covers-remove x b.windows i e, v.apart x);
                inside = All-remove (IsInside cap) b.windows i v.inside;
                counted = omega (arith, length-remove b.windows i e, v.counted, after);
                few = omega (arith, length-remove b.windows i e, v.few);
                returned = ground (arith, v.returned, more, some_left, after);
              })
      ]

  -- Whatever a holder that respects the lengths does with a buffer returns, and afterwards no byte of the frame is in
  -- two buffers, no buffer reaches out of the frame, there are as many references as buffers, and the
  -- frame has gone back to the pool once if there is none left and not at all if there is one.
  pub step-IsValid : (b : Buffers) (op : Op) → IsValid cap b → Allowed b op → StepsTo op b
  unfolding step StepsTo split_to truncate advance IsInside covers
  step-IsValid b (split i n) v (may_split {w = w} e h few) =
      let inside = All-get (IsInside cap) b.windows i e v.inside in
      let left : w.offset + n < 2 ^ 16 = omega (arith, small, inside, h) in
      let rest : FrameBuf = record { offset = w.offset + n; len = w.len - n } in
      let counts : b.count ≢ 0 = λ z. some-length b.windows i e (omega (arith, z, v.counted)) in
      let head : FrameBuf = record { offset = w.offset; len = n } in
      (
        record b { windows = head ∷ set_at b.windows i rest; count = retain b.count },
        rw e (ground (arith, h, left)),
        record {
          apart =
              λ x. omega (arith, covers-set x b.windows i rest e, holds-split x n w h, v.apart x);
          inside = (
            omega (arith, inside, h),
            All-set (IsInside cap) b.windows i rest v.inside (omega (arith, inside, h)),
          );
          counted = omega (arith, length-set b.windows i rest, v.counted, few);
          few = omega (arith, length-set b.windows i rest, few);
          returned = ground (arith, v.returned, counts);
        },
      )
  step-IsValid b (cut i n) v (may_cut {w = w} e) =
      let cut_short : FrameBuf = record { offset = w.offset; len = min n w.len } in
      let inside = All-get (IsInside cap) b.windows i e v.inside in
      (
        record b { windows = set_at b.windows i (cut_short) },
        rw e refl,
        record {
          apart = λ x.
              omega
                (arith, covers-set x b.windows i (cut_short) e, holds-truncate x n w, v.apart x);
          inside = All-set (IsInside cap) b.windows i (cut_short) v.inside (omega (arith, inside));
          counted = omega (arith, length-set b.windows i (cut_short), v.counted);
          few = omega (arith, length-set b.windows i (cut_short), v.few);
          returned = v.returned;
        },
      )
  step-IsValid b (skip i n) v (may_skip {w = w} e h) =
      let inside = All-get (IsInside cap) b.windows i e v.inside in
      let left : w.offset + n < 2 ^ 16 = omega (arith, small, inside, h) in
      let rest : FrameBuf = record { offset = w.offset + n; len = w.len - n } in
      (
        record b { windows = set_at b.windows i rest },
        rw e (ground (arith, h, left)),
        record {
          apart =
              λ x. omega (arith, covers-set x b.windows i rest e, holds-advance x n w h, v.apart x);
          inside = All-set (IsInside cap) b.windows i rest v.inside (omega (arith, inside, h));
          counted = omega (arith, length-set b.windows i rest, v.counted);
          few = omega (arith, length-set b.windows i rest, v.few);
          returned = v.returned;
        },
      )
  step-IsValid b (drop i) v (may_drop e) = (drop_buffer b i, rw e refl, drop-IsValid b i v e)
