-- ===== src/SubHeap/Hinted.antt =====
-- The reuse hint of `central_take` in toccata-core/src/subheap.rs, and the whole of `central_take`.
use toccata.Base.{
  ℕ, ◌-◌, ◌/◌, ◌^◌, ◌≤◌, ◌<◌, ◌≡◌, ◌⊎◌, inl, inr, refl, sym, ap, subst, ◌∙◌, arith, true, false,
  not, ◌&&◌, some, List, [], ◌++◌, length, length-append, All, All-append, All-imp, leb, ◌==◌,
  Bool-cases, Option-cases, if◌then◌else◌, div_ceil, Slice,
}
use toccata.SpanPool.{no_span}
use toccata.Meta.{load, span_bytes}
use toccata.Meta.Table.{SpanTable, lookup}
use toccata.Meta.Table.Assign as Table
use toccata.Meta.Bitmaps.{SpanBitmaps, span_base}
use toccata.Meta.Bitmaps.Effects.{IsValid}
use toccata.Meta.Bitmaps.Active.{IsActive}
use toccata.Meta.Bitmaps.Chain.{IsChain}
use toccata.SubHeap.Central.{CentralList, scan_span, slots_per_span, hinted, walk, central_take}
use toccata.SubHeap.Hands.{free, Handed, Handed-none, Handed-trans, Handed-length}
use toccata.SubHeap.Words.{InWords, scan_words-Scans}
use toccata.SubHeap.Take.{Takes, Scanned, walk-Takes}

-- No span, or a span that the table gives to the class.
abbrev pub IsHint : SpanBitmaps → SpanTable → ℕ → ℕ → ℕ → Type 0
IsHint p t n class h =
    (h ≡ no_span)
    ⊎ ((h < n) × ((home : ℕ) × (lookup t (span_base p h) ≡ some (some (class, home)))))

-- The table and the bitmaps are about the same `n` spans.
pub record SameSpans (n : ℕ) (p : SpanBitmaps) (t : SpanTable) : Type 0 where
  pub valid : Table.IsValid t
  pub same_base : t.base ≡ p.base
  pub spans : t.entries.len ≡ n

module _ {n : ℕ} {p : SpanBitmaps} {t : SpanTable} (same : SameSpans n p t) (c : CentralList)
    (osz class : ℕ) (narrow : c.reuse_hint < 2 ^ 32) where
  hint_inside : Table.in_arena t (span_base p c.reuse_hint) ≡ true → c.reuse_hint < n
  unfolding Table.in_arena span_base
  hint_inside e = ground (arith, e, same.same_base, same.spans, same.valid.cover, same.valid.fits)

  hinted-IsHint : (h : ℕ) × (hinted c p t osz class ≡ some h) × IsHint p t n class h
  unfolding hinted
  hinted-IsHint = elim (Bool-cases (leb (slots_per_span osz) 64 && not (c.reuse_hint == no_span))) [
    | inr e ↦ (no_span, rw e refl, inl refl)
    | inl e ↦
        let q = span_base p c.reuse_hint in
        elim (Bool-cases (Table.in_arena t q)) [
          | inr out ↦ (no_span, rw (e, Table.lookup-outside same.valid q out) refl, inl refl)
          | inl ins ↦
              let look = Table.lookup-inside same.valid q ins in
              elim (Option-cases (load (t.entries.at (Table.span_at t q)))) [
                | inl nil ↦ (no_span, rw (e, look, nil) refl, inl refl)
                | inr ((hc, home), owner) ↦ elim (Bool-cases (hc == class)) [
                  | inl mine ↦
                      let own : hc ≡ class = ground (arith, mine) in
                      (
                        c.reuse_hint,
                        rw (e, look, owner, mine) refl,
                        inr (
                          hint_inside ins,
                          (home, look ∙ ap some (owner ∙ ap (λ x. some (x, home)) own)),
                        ),
                      )
                  | inr other ↦ (no_span, rw (e, look, owner, other) refl, inl refl)
                ]
              ]
        ]
  ]

-- The words of a span that a class of `osz` bytes tiles.
abbrev pub words : ℕ → ℕ
words osz = div_ceil (slots_per_span osz) 64

tiles-le : (osz : ℕ) → 8 ≤ osz → span_bytes / osz ≤ 8192
tiles-le osz h = grind arith

words-le : (osz : ℕ) → 8 ≤ osz → words osz ≤ 128
words-le osz h = omega (arith, tiles-le osz h)

module _ {n : ℕ} (p : SpanBitmaps) (t : SpanTable) (c : CentralList) (xs : List ℕ)
    (fuel room osz class h : ℕ) (hint : hinted c p t osz class ≡ some h) (big : 8 ≤ osz) where
  -- The scan of the hinted span, if there is one, and then the walk.
  central_take-step :
      (objs : List ℕ) (slots : List (ℕ × ℕ)) (q : SpanBitmaps)
      → (if h == no_span then some ([], p) else scan_span p h room (words osz) osz) ≡ some (objs, q)
      → Handed n p osz room objs slots q
      → All (λ s. (s.0 ≡ h) × (s.1 / 64 < words osz)) slots
      → Takes n q osz
          (room - length objs)
          (words osz)
          h
          xs
          (walk fuel q h c.head (room - length objs) (words osz) osz)
      → Takes n p osz room (words osz) h xs (central_take fuel c p t room osz class)
  unfolding central_take
  central_take-step objs slots q first a inside b = record {
    objs = objs ++ b.objs;
    slots = slots ++ b.slots;
    left = b.left;
    runs = rw (central_take, some_size, hint, first, b.runs) refl;
    handed = Handed-trans a b.handed (omega (arith, Handed-length a, a.few));
    within = All-append _ slots b.slots (All-imp _ _ slots (λ s i. (inl i.0, i.1)) inside) b.within;
    all = elim b.all [
      | inl full ↦ inl (omega (arith, Handed-length a, full, a.few, length-append slots b.slots))
      | inr dry ↦ inr dry
    ];
  }
    where
      some_size : (osz == 0) ≡ false
      some_size = ground (arith, big)

-- `central_take`, while the lock of the list is held, returns, whatever the hint says: it hands out
-- objects of slots that were free in the active spans of the list, or in the hinted span, which the
-- table gives to the same class. None is handed out twice, and no other slot changes. Unless the
-- slice is filled, no slot of the active spans is left free. The steps of the walk that are needed
-- are as many as the list has spans.
pub central_take-Takes :
    {n : ℕ} {p : SpanBitmaps} {t : SpanTable} (c : CentralList) (xs : List ℕ)
    (fuel room osz class : ℕ)
    → IsValid n p
    → SameSpans n p t
    → IsActive n p c.head xs
    → length xs ≤ fuel
    → c.reuse_hint < 2 ^ 32
    → 8 ≤ osz
    → (h : ℕ) × IsHint p t n class h
      × Takes n p osz room (words osz) h xs (central_take fuel c p t room osz class)
central_take-Takes {n} {p} {t} c xs fuel room osz class v same act short narrow big =
    let (h, hint, is) = hinted-IsHint same c osz class narrow in
    (
      h,
      is,
      elim (Bool-cases (h == no_span)) [
        | inl e ↦
            let b =
              walk-Takes osz (words osz) h (words-le osz big) xs fuel c.head p (room - 0) v
                act.chain act.inside short
                (inr (λ x at real. absurd (real (ground (arith, at, e))))) in
            central_take-step p t c xs fuel room osz class h hint big [] [] p (rw e refl)
              (Handed-none osz room v) tt b
        | inr e ↦
            let inside : h < n = hint_real h is e in
            let a =
              scan_words-Scans osz h inside (words osz) 0 p room v
                (omega (arith, words-le osz big)) in
            let links = ap (λ (s : Slice ℕ). s.at) a.handed.same_links in
            let seen : Scanned (words osz) h a.left (room - length a.objs) = elim a.all [
              | inl full ↦ inl (omega (arith, full, Handed-length a.handed))
              | inr dry ↦ inr (λ x at real s lt.
                  subst (λ y. free a.left y s ≡ false) (sym at) (dry s (omega arith) (omega arith)))
            ] in
            let b =
              walk-Takes osz (words osz) h (words-le osz big) xs fuel c.head a.left
                (room - length a.objs) a.handed.valid
                (subst (λ f. IsChain f c.head xs) (sym links) act.chain) act.inside short seen in
            central_take-step p t c xs fuel room osz class h hint big a.objs a.slots a.left
              (rw e a.runs) a.handed
              (All-imp (InWords h 0 (words osz)) _ a.slots (λ s i. (i.0, omega (arith, i.2)))
                a.within)
              b
      ],
    )
  where
    hint_real : (h : ℕ) → IsHint p t n class h → (h == no_span) ≡ false → h < n
    hint_real h (inl z) e = ground (arith, z, e)
    hint_real h (inr k) e = k.0
