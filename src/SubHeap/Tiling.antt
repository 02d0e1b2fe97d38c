-- ===== src/SubHeap/Tiling.antt =====
-- The loop of `central_carve` in toccata-core/src/subheap.rs over the spans of a run.
use toccata.Base.{
  ℕ, zero, suc, ◌+◌, ◌*◌, ◌^◌, ◌≤◌, ◌<◌, ◌≡◌, ◌≢◌, refl, sym, ap, subst, ◌∙◌, arith, Bool, true,
  false, ◌&&◌, ◌||◌, Option, some, List, ◌∷◌, ltb, leb, ◌==◌, read-ok, All, Slice,
}
use toccata.Meta.Bitmaps.{SpanBitmaps, is_on_list}
use toccata.Meta.Bitmaps.Effects.{IsValid, free_bit}
use mathlib.Core.Option.{some-injective}
use toccata.SpanPool.{no_span}
use toccata.Meta.{span_bytes}
use toccata.Meta.Bitmaps.{span_of}
use toccata.Meta.Bitmaps.Chain.{IsChain}
use toccata.Meta.Bitmaps.Active.{IsActive, linked, link_front-linked, link_front-IsActive}
use toccata.SubHeap.Hands.{Slots, Slots-ext, free}
use toccata.SubHeap.Flush.{Kept}
use toccata.SubHeap.Carving.{link_new, tile_span, tile_each}
use toccata.SubHeap.Tiles.{tile_span-ok}

IsActive-Kept :
    {n : ℕ} {p q : SpanBitmaps} {head : ℕ} (xs : List ℕ)
    → Kept n p q
    → IsActive n p head xs
    → IsActive n q head xs
IsActive-Kept {head = head} xs k a = record {
  chain = subst (λ (s : Slice ℕ). IsChain s.at head xs) (sym k.same_links) a.chain;
  distinct = a.distinct;
  inside = a.inside;
  marked = subst (λ (s : Slice Bool). All (λ x. s.at x ≡ true) xs) (sym k.same_marks) a.marked;
}

-- A span that is on no list becomes the first of the list.
link_new-ok :
    {n : ℕ} {p : SpanBitmaps} (idx head : ℕ) (xs : List ℕ)
    → IsValid n p
    → idx < n
    → n < no_span
    → p.on_list.at idx ≡ false
    → IsActive n p head xs
    → (q : SpanBitmaps) × (link_new p idx head ≡ some (idx, q))
      × (IsValid n q
          × IsActive n q idx (idx ∷ xs)
          × (q.base ≡ p.base)
          × (free q ≡ free p)
          × ((j : ℕ) → j ≢ idx → q.on_list.at j ≡ p.on_list.at j))
unfolding link_new is_on_list free free_bit
link_new-ok {n} {p} idx head xs v l small off act =
    let (q, runs, active, others) =
      link_front-IsActive idx head xs v l (omega (arith, small)) off act in
    let here = link_front-linked idx head v l in
    let same : q ≡ linked p idx head =
      ap (λ (r : ℕ × SpanBitmaps). r.1) (some-injective _ _ (sym runs ∙ here)) in
    let on = read-ok p.on_list idx (omega (arith, l, v.on_list_len)) in
    (
      linked p idx head,
      cc (on, off, here),
      (
        record {
          alloc_len = v.alloc_len;
          free_len = v.free_len;
          next_len = v.next_len;
          on_list_len = v.on_list_len;
          alloc_wide = v.alloc_wide;
          free_wide = v.free_wide;
        },
        subst (λ b. IsActive n b idx (idx ∷ xs)) same active,
        refl,
        refl,
        λ j ne. ground (arith, ne),
      ),
    )

-- The list of a class after the spans from `h` on have been linked one by one.
pub added : ℕ → ℕ → List ℕ → List ℕ
added h zero xs = xs
added h (suc k) xs = added (h + 1) k (h ∷ xs)

-- The first `per_span` slots of the `k` spans from `h` on are free, beside those of `f`.
abbrev pub tiled : Slots → ℕ → ℕ → ℕ → Slots
tiled f h k per_span j t = f j t || (leb h j && ltb j (h + k) && ltb t per_span)

-- What the loop of a carve returns for the `k` spans from `h` on.
pub record Tiled (n : ℕ) (p : SpanBitmaps) (xs : List ℕ) (per_span h k carved : ℕ)
    (r : Option (ℕ × SpanBitmaps × ℕ)) : Type 0 where
  pub head : ℕ
  pub left : SpanBitmaps
  pub runs : r ≡ some (head, left, carved + k * per_span)
  pub valid : IsValid n left
  pub active : IsActive n left head (added h k xs)
  pub slots : free left ≡ tiled (free p) h k per_span
  pub same_base : left.base ≡ p.base

tile_each-stop :
    (fuel : ℕ) (p : SpanBitmaps) (head per_span start run_end carved : ℕ)
    → ltb start run_end ≡ false
    → tile_each fuel p head per_span start run_end carved ≡ some (head, p, carved)
unfolding tile_each
tile_each-stop zero p head per_span start run_end carved e = rw (tile_each, e) refl
tile_each-stop (suc fuel) p head per_span start run_end carved e = rw (tile_each, e) refl

tile_each-step :
    (fuel h new_head : ℕ) (p q r : SpanBitmaps) (head per_span start run_end carved : ℕ)
    → ltb start run_end ≡ true
    → span_of p start ≡ h
    → tile_span p h per_span ≡ some q
    → link_new q h head ≡ some (new_head, r)
    → tile_each (suc fuel) p head per_span start run_end carved
      ≡ tile_each fuel r new_head per_span (start + span_bytes) run_end (carved + per_span)
unfolding tile_each
tile_each-step fuel h new_head p q r head per_span start run_end carved e at tiles links =
    rw (tile_each, e, at, tiles, links) refl

span_of-base :
    (p : SpanBitmaps) (h : ℕ)
    → p.base + (h + 1) * 2 ^ 16 ≤ 2 ^ 64
    → h < no_span
    → span_of p (p.base + h * 2 ^ 16) ≡ h
unfolding span_of
span_of-base p h grid l = omega (arith, grid, l)

-- One round of the loop before the others.
Tiled-step :
    {n : ℕ} {p q r : SpanBitmaps} {xs : List ℕ} (fuel k h head base per_span carved : ℕ)
    → span_of p (base + h * 2 ^ 16) ≡ h
    → tile_span p h per_span ≡ some q
    → free q ≡ (λ j t. free p j t || ((j == h) && ltb t per_span))
    → link_new q h head ≡ some (h, r)
    → free r ≡ free q
    → r.base ≡ p.base
    → Tiled n r (h ∷ xs) per_span (h + 1) k (carved + per_span) (
        tile_each fuel r h per_span
          (base + (h + 1) * 2 ^ 16)
          (base + (h + 1 + k) * 2 ^ 16)
          (carved + per_span))
    → Tiled n p xs per_span h (suc k) carved (
        tile_each
          (suc fuel)
          p
          head
          per_span
          (base + h * 2 ^ 16)
          (base + (h + suc k) * 2 ^ 16)
          carved)
unfolding added
Tiled-step {p = p} {q} {r} fuel k h head base per_span carved this tiles some_free links slots based
      rest =
    let next_start : base + h * 2 ^ 16 + span_bytes ≡ base + (h + 1) * 2 ^ 16 = omega arith in
    let same_end : base + (h + suc k) * 2 ^ 16 ≡ base + (h + 1 + k) * 2 ^ 16 = omega arith in
    let sum : carved + per_span + k * per_span ≡ carved + suc k * per_span = grind arith in
    record {
      head = rest.head;
      left = rest.left;
      runs =
          tile_each-step fuel h h p q r head per_span (base + h * 2 ^ 16)
            (base + (h + suc k) * 2 ^ 16) carved (ground arith) this tiles links
          ∙ ap
              (λ a. tile_each fuel r h per_span a (base + (h + suc k) * 2 ^ 16) (carved + per_span))
              next_start
          ∙ ap (λ b. tile_each fuel r h per_span (base + (h + 1) * 2 ^ 16) b (carved + per_span))
              same_end
          ∙ rest.runs
          ∙ ap (λ c. some (rest.head, rest.left, c)) sum;
      valid = rest.valid;
      active = rest.active;
      slots =
          rest.slots
          ∙ Slots-ext (λ j t.
            ground (arith, ap (λ (f : Slots). f j t) slots, ap (λ (f : Slots). f j t) some_free));
      same_base = rest.same_base ∙ based;
    }

module _ {n : ℕ} (base per_span : ℕ) (small : n < no_span) (few : per_span ≤ 8192) where
  pub tile_each-Tiled :
      (fuel k h head : ℕ) (xs : List ℕ) (p : SpanBitmaps) (carved : ℕ)
      → k ≤ fuel
      → h + k ≤ n
      → p.base ≡ base
      → base + n * 2 ^ 16 ≤ 2 ^ 64
      → IsValid n p
      → ((x : ℕ) → h ≤ x → x < h + k → p.on_list.at x ≡ false)
      → IsActive n p head xs
      → Tiled n p xs per_span h k carved
          (tile_each fuel p head per_span (base + h * 2 ^ 16) (base + (h + k) * 2 ^ 16) carved)
  unfolding added
  tile_each-Tiled fuel zero h head xs p carved le fits at grid v off act = record {
    head = head;
    left = p;
    runs =
        tile_each-stop fuel p head per_span (base + h * 2 ^ 16) (base + (h + 0) * 2 ^ 16) carved
          (ground arith)
        ∙ ap (λ c. some (head, p, c)) (omega arith);
    valid = v;
    active = act;
    slots = Slots-ext (λ j t. ground arith);
    same_base = refl;
  }
  tile_each-Tiled zero (suc k) h head xs p carved le fits at grid v off act =
      absurd (omega (arith, le))
  tile_each-Tiled (suc fuel) (suc k) h head xs p carved le fits at grid v off act =
      let inside : h < n = omega (arith, fits) in
      let (q, tiles, kept, some_free) = tile_span-ok h per_span v inside few in
      let marks : q.on_list.at h ≡ false =
        ap (λ (s : Slice Bool). s.at h) kept.same_marks ∙ off h (omega arith) (omega arith) in
      let (r, links, (valid, active, based, slots, marked)) =
        link_new-ok h head xs kept.valid inside small marks (IsActive-Kept xs kept act) in
      let rest =
        tile_each-Tiled fuel k (h + 1) h (h ∷ xs) r (carved + per_span) (omega (arith, le))
          (omega (arith, fits)) (based ∙ kept.same_base ∙ at) grid valid
          (λ x l m.
            marked x (omega (arith, l))
            ∙ ap (λ (s : Slice Bool). s.at x) kept.same_marks
            ∙ off x (omega (arith, l)) (omega (arith, m)))
          active in
      Tiled-step fuel k h head base per_span carved
        (ap (λ b. span_of p (b + h * 2 ^ 16)) (sym at)
          ∙ span_of-base p h (omega (arith, at, grid, fits)) (omega (arith, inside, small)))
        tiles some_free links slots (based ∙ kept.same_base) rest
