-- ===== src/SubHeap/Take.antt =====
-- `central_take` of toccata-core/src/subheap.rs: what a refill gets from a central list.
use toccata.Base.{
  ℕ, zero, suc, ◌-◌, ◌/◌, ◌≤◌, ◌<◌, ◌≡◌, ◌≢◌, ◌⊎◌, inl, inr, refl, sym, ap, subst, ◌∙◌, arith, true,
  false, ◌||◌, Option, some, List, [], ◌∷◌, ◌++◌, length, length-append, All, All-append, All-imp,
  ◌==◌, Bool-cases, Slice, read-ok,
}
use toccata.SpanPool.{no_span}
use toccata.Meta.Bitmaps.{SpanBitmaps, next}
use toccata.Meta.Bitmaps.Effects.{IsValid}
use toccata.Meta.Bitmaps.Chain.{IsChain}
use toccata.SubHeap.Central.{scan_unless, walk}
use toccata.SubHeap.Hands.{free, Handed, Handed-none, Handed-trans, Handed-only, Handed-length}
use toccata.SubHeap.Words.{Scans, InWords, scan_words-Scans}

abbrev pub OneOf : List ℕ → ℕ → Type 0
OneOf [] j = ⊥
OneOf (x ∷ xs) j = (j ≡ x) ⊎ OneOf xs j

-- No slot of the first `k` words of the span is free.
abbrev pub IsDry : SpanBitmaps → ℕ → ℕ → Type 0
IsDry p k x = (t : ℕ) → t / 64 < k → free p x t ≡ false

-- Handed out are slots of the spans `xs` and of the hinted one. All slots of `xs` that were free are
-- among them, unless there was no room for more.
pub record Takes (n : ℕ) (p : SpanBitmaps) (osz room k hint : ℕ) (xs : List ℕ)
    (r : Option (List ℕ × SpanBitmaps)) : Type 0 where
  pub objs : List ℕ
  pub slots : List (ℕ × ℕ)
  pub left : SpanBitmaps
  pub runs : r ≡ some (objs, left)
  pub handed : Handed n p osz room objs slots left
  pub within : All (λ h. ((h.0 ≡ hint) ⊎ OneOf xs h.0) × (h.1 / 64 < k)) slots
  pub all : (length slots ≡ room) ⊎ All (IsDry left k) xs

Takes-none :
    {n : ℕ} {p : SpanBitmaps} (osz room k hint : ℕ) (xs : List ℕ)
    {r : Option (List ℕ × SpanBitmaps)}
    → IsValid n p
    → r ≡ some ([], p)
    → (room ≡ 0) ⊎ All (IsDry p k) xs
    → Takes n p osz room k hint xs r
Takes-none {p = p} osz room k hint xs v e dry = record {
  objs = [];
  slots = [];
  left = p;
  runs = e;
  handed = Handed-none osz room v;
  within = tt;
  all = elim dry [ inl z ↦ inl (sym z) | inr d ↦ inr d ];
}

-- A span that was scanned before is dry, or there is no room.
abbrev pub Scanned : ℕ → ℕ → SpanBitmaps → ℕ → Type 0
Scanned k hint p room = (room ≡ 0) ⊎ ((x : ℕ) → x ≡ hint → x ≢ no_span → IsDry p k x)

module _ {n : ℕ} (osz k hint : ℕ) (bound : k ≤ 128) where
  scan_unless-Scans :
      (p : SpanBitmaps) (x room : ℕ)
      → IsValid n p
      → x < n
      → x ≢ no_span
      → Scanned k hint p room
      → Scans n p osz room x 0 k (scan_unless p hint x room k osz)
  unfolding scan_unless
  scan_unless-Scans p x room v l real seen = elim (Bool-cases (x == hint)) [
    | inl e ↦ record {
      objs = [];
      slots = [];
      left = p;
      runs = rw e refl;
      handed = Handed-none osz room v;
      within = tt;
      all = elim seen [
        | inl z ↦ inl (sym z)
        | inr dry ↦ inr (λ t low high. dry x (ground (arith, e)) real t (omega arith))
      ];
    }
    | inr e ↦ rw e (scan_words-Scans osz x l k 0 p room v (omega arith))
  ]

  Scanned-later :
      {p q : SpanBitmaps} {room : ℕ} {objs : List ℕ} {hs : List (ℕ × ℕ)}
      → Handed n p osz room objs hs q
      → Scanned k hint p room
      → Scanned k hint q (room - length objs)
  Scanned-later a (inl z) = inl (omega (arith, z))
  Scanned-later a (inr dry) = inr (λ x e real t h. Handed-only a x t (dry x e real t h))

  module _ (fuel x : ℕ) (xs : List ℕ) (p : SpanBitmaps) (room : ℕ) (real : x ≢ no_span)
      (some_room : (room == 0) ≡ false) where
    walk-step :
        (a : Scans n p osz room x 0 k (scan_unless p hint x room k osz))
        → next a.left x ≡ some (p.next_active.at x)
        → Takes n a.left osz
            (room - length a.objs)
            k
            hint
            xs
            (walk fuel a.left hint (p.next_active.at x) (room - length a.objs) k osz)
        → Takes n p osz room k hint (x ∷ xs) (walk (suc fuel) p hint x room k osz)
    unfolding walk
    walk-step a link b = record {
      objs = a.objs ++ b.objs;
      slots = a.slots ++ b.slots;
      left = b.left;
      runs = rw (walk, goes_on, a.runs, link, b.runs) refl;
      handed = Handed-trans a.handed b.handed (omega (arith, Handed-length a.handed, a.handed.few));
      within =
          All-append _ a.slots b.slots
            (All-imp (InWords x 0 k) _ a.slots (λ h i. (inr (inl i.0), omega (arith, i.2)))
              a.within)
            (All-imp _ _ b.slots (λ h i. (later i.0, i.1)) b.within);
      all = elim b.all [
        | inl full ↦ inl (
            omega
              (arith, Handed-length a.handed, full, a.handed.few, length-append a.slots b.slots))
        | inr dry ↦ elim a.all [
          | inl full ↦ inl (
              omega
                (arith, Handed-length a.handed, full, b.handed.few, length-append a.slots b.slots))
          | inr here ↦
              inr ((λ t h. Handed-only b.handed x t (here t (omega arith) (omega arith))), dry)
        ]
      ];
    }
      where
        goes_on : (room == 0 || (x == no_span)) ≡ false
        goes_on = ground (arith, real, some_room)

        later : {j : ℕ} → (j ≡ hint) ⊎ OneOf xs j → (j ≡ hint) ⊎ OneOf (x ∷ xs) j
        later (inl e) = inl e
        later (inr o) = inr (inr o)

  next-ok :
      (p q : SpanBitmaps) (x : ℕ)
      → IsValid n q
      → x < n
      → q.next_active ≡ p.next_active
      → next q x ≡ some (p.next_active.at x)
  unfolding next
  next-ok p q x v l same =
      let len : x < q.next_active.len = omega (arith, v.next_len) in
      read-ok q.next_active x len ∙ ap (λ s. some (s.at x)) same

  pub walk-Takes :
      (xs : List ℕ) (fuel x : ℕ) (p : SpanBitmaps) (room : ℕ)
      → IsValid n p
      → IsChain p.next_active.at x xs
      → All (λ y. y < n) xs
      → length xs ≤ fuel
      → Scanned k hint p room
      → Takes n p osz room k hint xs (walk fuel p hint x room k osz)
  unfolding walk
  walk-Takes [] fuel x p room v end inside short seen =
      Takes-none osz room k hint [] v (at_end fuel) (inr tt)
    where
      at_end : (fuel : ℕ) → walk fuel p hint x room k osz ≡ some ([], p)
      at_end zero = ground (arith, end)
      at_end (suc fuel) = ground (arith, end)
  walk-Takes (y ∷ xs) zero x p room v chain inside short seen = absurd (omega arith)
  walk-Takes (y ∷ xs) (suc fuel) x p room v (here, real, chain) (l, inside) short seen =
      elim (Bool-cases (room == 0)) [
        | inl e ↦
            let stops : (room == 0 || (x == no_span)) ≡ true = ground (arith, e) in
            Takes-none osz room k hint (y ∷ xs) v (rw (walk, stops)) (inl (ground (arith, e)))
        | inr e ↦
            let a = scan_unless-Scans p y room v l real seen in
            let same = ap (λ (s : Slice ℕ). s.at) a.handed.same_links in
            let b =
              walk-Takes xs fuel (p.next_active.at y) a.left (room - length a.objs) a.handed.valid
                (subst (λ f. IsChain f (p.next_active.at y) xs) (sym same) chain) inside
                (omega arith) (Scanned-later a.handed seen) in
            rw here (
              walk-step fuel y xs p room real e a
                (next-ok p a.left y a.handed.valid l a.handed.same_links) b)
      ]
