-- ===== src/SubHeap/Hands.antt =====
-- What it means to hand out free slots: each was free, none is handed out twice, and no other slot
-- changes.
use mathlib.Core.Path.{fun_ext}
use toccata.Base.{
  ℕ, ◌<◌, ◌≡◌, refl, ap, ◌∙◌, arith, Bool, true, false, not, ◌&&◌, ◌||◌, List, [], ◌∷◌, ◌++◌, ltb,
  ◌==◌, ◌*◌, ◌^◌, ◌≤◌, ◌+◌, length, length-append, add_usize, sym, subst, Bool-cases, inl, inr,
}
use toccata.Meta.Bitmaps.{SpanBitmaps}
use toccata.Meta.Bitmaps.Effects.{IsValid, free_bit}
use toccata.SubHeap.Central.{object_at}

-- The free slots, as a set of spans and slots.
abbrev pub Slots : Type 0
Slots = ℕ → ℕ → Bool

unfoldable pub free : SpanBitmaps → Slots
free p j t = ltb t 8192 && free_bit p j t

abbrev pub without : Slots → ℕ × ℕ → Slots
without f h j t = f j t && not ((j == h.0) && (t == h.1))

unfoldable pub without_all : Slots → List (ℕ × ℕ) → Slots
without_all f [] = f
without_all f (h ∷ hs) = without_all (without f h) hs

-- The slots of the list are free, and each is named once.
unfoldable pub AreFree : Slots → List (ℕ × ℕ) → Type 0
AreFree f [] = Unit
AreFree f (h ∷ hs) = (f h.0 h.1 ≡ true) × AreFree (without f h) hs

pub without_all-append :
    (f : Slots) (hs ks : List (ℕ × ℕ))
    → without_all f (hs ++ ks) ≡ without_all (without_all f hs) ks
unfolding without_all
without_all-append f [] ks = refl
without_all-append f (h ∷ hs) ks = without_all-append (without f h) hs ks

pub AreFree-append :
    (f : Slots) (hs ks : List (ℕ × ℕ))
    → AreFree f hs
    → AreFree (without_all f hs) ks
    → AreFree f (hs ++ ks)
unfolding without_all AreFree
AreFree-append f [] ks a b = b
AreFree-append f (h ∷ hs) ks (e, a) b = (e, AreFree-append (without f h) hs ks a b)

abbrev pub with_slot : Slots → ℕ × ℕ → Slots
with_slot f h j t = f j t || ((j == h.0) && (t == h.1))

unfoldable pub with_slots : Slots → List (ℕ × ℕ) → Slots
with_slots f [] = f
with_slots f (h ∷ hs) = with_slots (with_slot f h) hs

-- Nothing becomes free.
pub without_all_only :
    (f : Slots) (hs : List (ℕ × ℕ)) (j t : ℕ) → f j t ≡ false → without_all f hs j t ≡ false
unfolding without_all
without_all_only f [] j t e = e
without_all_only f (h ∷ hs) j t e = without_all_only (without f h) hs j t (ground (arith, e))

pub Slots-ext : {f g : Slots} → ((j t : ℕ) → f j t ≡ g j t) → f ≡ g
Slots-ext h = fun_ext (λ j. fun_ext (λ t. h j t))

-- The address of a slot in the spans from `b` on.
abbrev pub place : ℕ → ℕ → ℕ × ℕ → ℕ
place b osz h = object_at (add_usize b (h.0 * 2 ^ 16)) osz h.1

unfoldable pub places : ℕ → ℕ → List (ℕ × ℕ) → List ℕ
places b osz [] = []
places b osz (h ∷ hs) = place b osz h ∷ places b osz hs

pub places-append :
    (b osz : ℕ) (hs ks : List (ℕ × ℕ))
    → places b osz (hs ++ ks) ≡ places b osz hs ++ places b osz ks
unfolding places
places-append b osz [] ks = refl
places-append b osz (h ∷ hs) ks = ap (λ xs. place b osz h ∷ xs) (places-append b osz hs ks)

pub length-places : (b osz : ℕ) (hs : List (ℕ × ℕ)) → length (places b osz hs) ≡ length hs
unfolding places
length-places b osz [] = refl
length-places b osz (h ∷ hs) = omega (arith, length-places b osz hs)

pub free-ext :
    (p q : SpanBitmaps) → ((j t : ℕ) → t < 8192 → free_bit q j t ≡ free_bit p j t) → free q ≡ free p
unfolding free
free-ext p q same = Slots-ext (λ j t. elim (Bool-cases (ltb t 8192)) [
  | inl e ↦ rw e (same j t (ground (arith, e)))
  | inr e ↦ rw e refl
])

-- From `p` to `q` the slots `hs` have been handed out, as the objects `objs` of `osz` bytes, for whom
-- there was room.
pub record Handed (n : ℕ) (p : SpanBitmaps) (osz room : ℕ) (objs : List ℕ) (hs : List (ℕ × ℕ))
    (q : SpanBitmaps) : Type 0 where
  pub valid : IsValid n q
  pub objects : objs ≡ places p.base osz hs
  pub gone : free q ≡ without_all (free p) hs
  pub are_free : AreFree (free p) hs
  pub few : length hs ≤ room
  pub same_base : q.base ≡ p.base
  pub same_links : q.next_active ≡ p.next_active
  pub same_marks : q.on_list ≡ p.on_list

pub Handed-none :
    {n : ℕ} {p : SpanBitmaps} (osz room : ℕ) → IsValid n p → Handed n p osz room [] [] p
unfolding without_all AreFree places
Handed-none osz room v = record {
  valid = v;
  objects = refl;
  gone = refl;
  are_free = tt;
  few = omega arith;
  same_base = refl;
  same_links = refl;
  same_marks = refl;
}

pub Handed-length :
    {n osz room : ℕ} {p q : SpanBitmaps} {objs : List ℕ} {hs : List (ℕ × ℕ)}
    → Handed n p osz room objs hs q
    → length objs ≡ length hs
Handed-length {osz = osz} {p = p} {hs = hs} a = ap length a.objects ∙ length-places p.base osz hs

pub Handed-trans :
    {n osz room rest : ℕ} {p q r : SpanBitmaps} {xs ys : List ℕ} {hs ks : List (ℕ × ℕ)}
    → Handed n p osz room xs hs q
    → Handed n q osz rest ys ks r
    → rest + length hs ≤ room
    → Handed n p osz room (xs ++ ys) (hs ++ ks) r
Handed-trans {osz = osz} {p = p} {q = q} {hs = hs} {ks = ks} a b fits = record {
  valid = b.valid;
  objects = rw (a.objects, b.objects, a.same_base, places-append p.base osz hs ks);
  gone = b.gone ∙ ap (λ f. without_all f ks) a.gone ∙ sym (without_all-append (free p) hs ks);
  are_free = AreFree-append (free p) hs ks a.are_free (subst (λ f. AreFree f ks) a.gone b.are_free);
  few = omega (arith, length-append hs ks, a.few, b.few, fits);
  same_base = b.same_base ∙ a.same_base;
  same_links = b.same_links ∙ a.same_links;
  same_marks = b.same_marks ∙ a.same_marks;
}

pub Handed-only :
    {n osz room : ℕ} {p q : SpanBitmaps} {objs : List ℕ} {hs : List (ℕ × ℕ)}
    → Handed n p osz room objs hs q
    → (j t : ℕ) → free p j t ≡ false
    → free q j t ≡ false
Handed-only {p = p} {hs = hs} a j t e = ap (λ f. f j t) a.gone ∙ without_all_only (free p) hs j t e
