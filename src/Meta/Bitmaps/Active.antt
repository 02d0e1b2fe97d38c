-- ===== src/Meta/Bitmaps/Active.antt =====
-- The active lists of toccata-core/src/meta.rs: `link_front` and `unlink_active` on the chain of spans
-- that a central list's head starts.
use toccata.Base.{
  ℕ, ◌≤◌, ◌<◌, ◌≡◌, ◌≢◌, refl, arith, ◌&&◌, some, ◌==◌, if◌then◌else◌, Bool, true, false, List, [],
  ◌∷◌, ◌++◌, All, put, not,
}
use toccata.SpanPool.{no_span}
use toccata.Meta.Bitmaps.{SpanBitmaps, link_front, unlink_active}
use toccata.Meta.Bitmaps.Effects.{IsValid}
use toccata.Meta.Bitmaps.Chain.{
  IsChain, AllDistinct, last, before_of, head_without, All-map, All-last, All-behind, All-cut,
  AllDistinct-cut, IsChain-frame, cut-IsChain, unmoved,
}

-- `head` is the head of an active list of the spans `xs`, in this order.
pub record IsActive (n : ℕ) (p : SpanBitmaps) (head : ℕ) (xs : List ℕ) : Type 0 where
  pub chain : IsChain p.next_active.at head xs
  pub distinct : AllDistinct xs
  pub inside : All (λ x. x < n) xs
  pub marked : All (λ x. p.on_list.at x ≡ true) xs

-- What linking a span in front, and taking one out, leave.
abbrev pub linked : SpanBitmaps → ℕ → ℕ → SpanBitmaps
linked p idx head = record p {
  next_active = put p.next_active idx head;
  on_list = put p.on_list idx true;
}

off_list :
    (f : ℕ → Bool) (idx : ℕ) (ys : List ℕ)
    → f idx ≡ false
    → All (λ y. f y ≡ true) ys
    → All (λ y. y ≢ idx) ys
off_list f idx ys off =
    All-map (λ y. f y ≡ true) (λ y. y ≢ idx) ys (λ y on same. cc (rw same at on, off))

-- An active list whose spans keep their links and marks.
module _ {n : ℕ} {p q : SpanBitmaps} {head : ℕ} (ys : List ℕ)
    (links : All (λ y. q.next_active.at y ≡ p.next_active.at y) ys)
    (marks : All (λ y. q.on_list.at y ≡ true) ys) where
  IsActive-frame : IsActive n p head ys → IsActive n q head ys
  IsActive-frame a = record {
    chain = IsChain-frame p.next_active.at q.next_active.at head ys links a.chain;
    distinct = a.distinct;
    inside = a.inside;
    marked = marks;
  }

linked-frame :
    {n : ℕ} {p : SpanBitmaps} (idx head other : ℕ) (ys : List ℕ)
    → p.on_list.at idx ≡ false
    → IsActive n p other ys
    → IsActive n (linked p idx head) other ys
linked-frame {n} {p} idx head other ys off a =
    let apart = off_list p.on_list.at idx ys off a.marked in
    IsActive-frame ys (All-map (λ y. y ≢ idx) _ ys (λ y ne. ground arith) apart)
      (All-map (λ y. p.on_list.at y ≡ true) _ ys (λ y on. ground arith) a.marked) a

pub link_front-linked :
    {n : ℕ} {p : SpanBitmaps} (idx head : ℕ)
    → IsValid n p
    → idx < n
    → link_front p idx head ≡ some (idx, linked p idx head)
unfolding link_front
link_front-linked idx head v l = ground (arith, v.next_len, v.on_list_len)

-- Linking a span that is on no list in front of an active list of any cell makes the list longer by
-- it, and leaves every other active list as it is.
pub link_front-IsActive :
    {n : ℕ} {p : SpanBitmaps} (idx head : ℕ) (xs : List ℕ)
    → IsValid n p
    → idx < n
    → n ≤ no_span
    → p.on_list.at idx ≡ false
    → IsActive n p head xs
    → (q : SpanBitmaps) × (link_front p idx head ≡ some (idx, q))
      × IsActive n q idx (idx ∷ xs)
      × ((other : ℕ) (ys : List ℕ) → IsActive n p other ys → IsActive n q other ys)
unfolding link_front
link_front-IsActive {n} {p} idx head xs v l small off act =
    let kept = linked-frame idx head head xs off act in
    (
      linked p idx head,
      ground (arith, v.next_len, v.on_list_len),
      record {
        chain =
            let hit : (linked p idx head).next_active.at idx ≡ head = ground arith in
            (refl, omega arith, rw hit kept.chain);
        distinct = (off_list p.on_list.at idx xs off act.marked, act.distinct);
        inside = (l, act.inside);
        marked = (ground arith, kept.marked);
      },
      λ other ys a. linked-frame idx head other ys off a,
    )

unlinked : SpanBitmaps → ℕ → ℕ → SpanBitmaps
unlinked p idx before = record p {
  next_active =
      put
        (if before == no_span
          then p.next_active
          else put p.next_active before (p.next_active.at idx))
        idx no_span;
  on_list = put p.on_list idx false;
}

unlink_active-run :
    {n : ℕ} {p : SpanBitmaps} (xs : List ℕ) (idx : ℕ) (ys : List ℕ) (head : ℕ)
    → IsValid n p
    → n ≤ no_span
    → IsActive n p head (xs ++ idx ∷ ys)
    → unlink_active p idx (before_of xs) head
      ≡ some (head_without xs (p.next_active.at idx) head, unlinked p idx (before_of xs))
unfolding unlink_active unlinked
unlink_active-run [] idx ys head v small act =
    ground (arith, v.next_len, v.on_list_len, act.chain.0, act.inside.0)
unlink_active-run {n} (x ∷ xs) idx ys head v small act =
    let (l, (first, others), _) = All-cut (λ k. k < n) (x ∷ xs) idx ys act.inside in
    let within : last x xs < n = All-last (λ k. k < n) x xs first others in
    ground (arith, v.next_len, v.on_list_len, l, within)

-- Taking span `idx` out of the list behind the spans `xs`.
module _ {n : ℕ} {p : SpanBitmaps} (xs : List ℕ) (idx : ℕ) (ys : List ℕ) (head : ℕ)
    (v : IsValid n p) (small : n ≤ no_span) (act : IsActive n p head (xs ++ idx ∷ ys)) where
  after : SpanBitmaps
  after = unlinked p idx (before_of xs)

  links_lem :
      (k : ℕ)
      → after.next_active.at k ≡ (
          if k == idx
          then no_span
          else if (k == before_of xs) && not (before_of xs == no_span)
          then p.next_active.at idx
          else p.next_active.at k)
  unfolding after unlinked
  links_lem k = ground arith

  mark_lem : (k : ℕ) → after.on_list.at k ≡ (if k == idx then false else p.on_list.at k)
  unfolding after unlinked
  mark_lem k = ground arith

  marks_kept :
      (zs : List ℕ)
      → All (λ z. z ≢ idx) zs
      → All (λ z. p.on_list.at z ≡ true) zs
      → All (λ z. after.on_list.at z ≡ true) zs
  marks_kept [] apart on = tt
  marks_kept (z ∷ zs) (ne, apart) (m, on) = (ground (arith, mark_lem z), marks_kept zs apart on)

  rest-IsActive : IsActive n after (head_without xs (p.next_active.at idx) head) (xs ++ ys)
  rest-IsActive =
      let (d, apart) = AllDistinct-cut xs idx ys act.distinct in
      let (l, first, inside) = All-cut (λ k. k < n) xs idx ys act.inside in
      let (m, before, marked) = All-cut (λ k. p.on_list.at k ≡ true) xs idx ys act.marked in
      record {
        chain =
            cut-IsChain p.next_active.at after.next_active.at idx head xs ys links_lem act.distinct
              (All-behind (λ k. k ≢ no_span) xs ys
                (All-map (λ k. k < n) (λ k. k ≢ no_span) (xs ++ ys) (λ k h. omega arith) inside))
              act.chain;
        distinct = d;
        inside = inside;
        marked = marks_kept (xs ++ ys) apart marked;
      }

  others-IsActive :
      (other : ℕ) (zs : List ℕ)
      → All (λ z. z ≢ idx) zs
      → All (λ z. z ≢ before_of xs) zs
      → IsActive n p other zs
      → IsActive n after other zs
  others-IsActive other zs apart behind a =
      IsActive-frame zs
        (unmoved p.next_active.at after.next_active.at idx (before_of xs) links_lem zs apart behind)
        (marks_kept zs apart a.marked) a

-- Taking a span out of its active list, given its predecessor there, never panics. It returns the
-- head of the list without that span, which is on no list from then on. Every active list that has
-- neither the span nor its predecessor is left as it is.
pub unlink_active-IsActive :
    {n : ℕ} {p : SpanBitmaps} (xs : List ℕ) (idx : ℕ) (ys : List ℕ) (head : ℕ)
    → IsValid n p
    → n ≤ no_span
    → IsActive n p head (xs ++ idx ∷ ys)
    → (new_head : ℕ) × (q : SpanBitmaps) × (unlink_active p idx (before_of xs) head
        ≡ some (new_head, q))
      × IsActive n q new_head (xs ++ ys)
      × (q.on_list.at idx ≡ false)
      × ((other : ℕ) (zs : List ℕ)
          → All (λ z. z ≢ idx) zs
          → All (λ z. z ≢ before_of xs) zs
          → IsActive n p other zs
          → IsActive n q other zs)
unfolding after
unlink_active-IsActive {n} {p} xs idx ys head v small act = (
  head_without xs (p.next_active.at idx) head,
  after xs idx ys head v small act,
  unlink_active-run xs idx ys head v small act,
  rest-IsActive xs idx ys head v small act,
  ground (arith, mark_lem xs idx ys head v small act idx),
  others-IsActive xs idx ys head v small act,
)
