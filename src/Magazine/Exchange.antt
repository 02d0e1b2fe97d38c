-- ===== src/Magazine/Exchange.antt =====
-- `alloc`, `refill`, `free` and `drain_then_push` of toccata-core/src/magazine.rs on the list of objects
-- in the order in which they are popped.
use toccata.Base.{
  ℕ, zero, suc, ◌+◌, ◌-◌, ◌≤◌, ◌<◌, ◌≡◌, ◌≢◌, refl, ap, arith, Option, none, some, ltb, leb, ◌==◌,
  true, List, [], ◌∷◌, ◌++◌, length, Slice, put, update, Bool-cases, inl, inr,
}
use toccata.Base.Stacks.{stack, stack-congr, stack-top, stack-push}
use toccata.Magazine.{
  Magazine, mag_cap, try_pop, try_push, slots, fill, reverse_slice, copy_within, Backing, refill,
  alloc, drain_then_push, free,
}
use toccata.SubHeap.Room.{AtMost}
use toccata.Magazine.Stack.{pops, IsValid, stack-reverse_slice}

-- The first of a list, if there is one, and the others.
pub data Takes : List ℕ → Option ℕ → List ℕ → Type 0 where
  empty : Takes [] none []
  first : {x : ℕ} {xs : List ℕ} → Takes (x ∷ xs) (some x) xs

try_pop-Takes :
    (n : ℕ) (s : Slice ℕ)
    → n ≤ mag_cap
    → s.len ≡ mag_cap
    → (r : Option ℕ) × (q : Magazine) × (try_pop (record { len = n; ptrs = s }) ≡ some (r, q))
      × IsValid q
      × Takes (stack n s.at) r (pops q)
unfolding try_pop stack
try_pop-Takes zero s l e =
    (none, record { len = 0; ptrs = s }, refl, record { room = e; few = l }, empty)
try_pop-Takes (suc n) s l e = (
  some (s.at n),
  record { len = n; ptrs = s },
  ground (arith, e),
  record { room = e; few = omega arith },
  first,
)

try_pop-none : (m : Magazine) → m.len ≡ 0 → try_pop m ≡ some (none, m)
unfolding try_pop
try_pop-none m e = ground (arith, e)

try_pop-some :
    (m : Magazine)
    → IsValid m
    → m.len ≢ 0
    → try_pop m ≡ some (some (m.ptrs.at (m.len - 1)), record m { len = m.len - 1 })
unfolding try_pop
try_pop-some m v ne = ground (arith, v.room, v.few)

pub backwards : List ℕ → List ℕ
backwards [] = []
backwards (x ∷ xs) = backwards xs ++ x ∷ []

stack-front : (n : ℕ) (f : ℕ → ℕ) → stack (suc n) f ≡ stack n (λ i. f (suc i)) ++ f 0 ∷ []
unfolding stack
stack-front zero f = refl
stack-front (suc n) f = cc (stack-front n f)

stack-backwards : (n k : ℕ) (f : ℕ → ℕ) → stack n (λ i. f (k + i)) ≡ backwards (slots f k n)
unfolding stack backwards slots
stack-backwards zero k f = refl
stack-backwards (suc n) k f =
    let shifted =
      stack-congr n (λ i. f (k + suc i)) (λ i. f (k + 1 + i)) (λ i l. ap f (omega arith)) in
    let last : f (k + 0) ≡ f k = ap f (omega arith) in
    cc (stack-front n (λ i. f (k + i)), shifted, last, stack-backwards n (k + 1) f)

stack-append : (m n : ℕ) (f : ℕ → ℕ) → stack (m + n) f ≡ stack n (λ i. f (m + i)) ++ stack m f
unfolding stack
stack-append m zero f = let same : m + 0 ≡ m = omega arith in rw same refl
stack-append m (suc n) f =
    let same : m + suc n ≡ suc (m + n) = omega arith in rw same (cc (stack-append m n f))

-- What an allocation returns, and what is in the magazine afterwards: the first object that it pops, or,
-- where it is empty, the first of a batch of the sub-heap, the others being popped in their order.
pub data HandsOut {S : Type 0} (sub : Backing S) (s : S) (m : Magazine)
    : Option (Option ℕ × Magazine × S) → Type 0 where
  popped :
      {x : ℕ} {q : Magazine}
      → pops m ≡ x ∷ pops q
      → IsValid q
      → HandsOut sub s m (some (some x, q, s))
  refilled :
      {r : Option ℕ} {q : Magazine} {t : S} (batch : List ℕ)
      → pops m ≡ []
      → sub.refill_batch s mag_cap ≡ some (batch, t)
      → Takes batch r (pops q)
      → IsValid q
      → HandsOut sub s m (some (r, q, t))
  stopped : pops m ≡ [] → sub.refill_batch s mag_cap ≡ none → HandsOut sub s m none

module _ {S : Type 0} (sub : Backing S) (s : S) (m : Magazine) (v : IsValid m) where
  stored : List ℕ → Slice ℕ
  stored batch = record {
    len = m.ptrs.len;
    at = reverse_slice (fill m.ptrs.at 0 batch) 0 (length batch);
  }

  refill-run :
      (batch : List ℕ) (t : S) (r : Option ℕ) (q : Magazine)
      → m.len ≡ 0
      → sub.refill_batch s mag_cap ≡ some (batch, t)
      → try_pop (record { len = length batch; ptrs = stored batch }) ≡ some (r, q)
      → refill sub s m ≡ some (r, q, t)
  unfolding refill stored
  refill-run batch t r q none_left got run =
      let plus : 0 + length batch ≡ length batch = omega arith in
      let fits : leb (0 + mag_cap) m.ptrs.len ≡ true = ground (arith, v.room) in
      rw (none_left, got, plus, fits, run) refl

  refill-stopped : m.len ≡ 0 → sub.refill_batch s mag_cap ≡ none → refill sub s m ≡ none
  unfolding refill
  refill-stopped none_left got =
      let fits : leb (0 + mag_cap) m.ptrs.len ≡ true = ground (arith, v.room) in
      rw (none_left, got, fits) refl

  nothing-pops : m.len ≡ 0 → pops m ≡ []
  unfolding stack
  nothing-pops e = rw e refl

  refill-HandsOut :
      m.len ≡ 0
      → (answer : Option (List ℕ × S)) → sub.refill_batch s mag_cap ≡ answer
      → AtMost mag_cap answer
      → HandsOut sub s m (refill sub s m)
  unfolding stored
  refill-HandsOut none_left none got few =
      rw (refill-stopped none_left got) (stopped (nothing-pops none_left) got)
  refill-HandsOut none_left (some (batch, t)) got few =
      let (r, q, run, valid, takes) = try_pop-Takes (length batch) (stored batch) few v.room in
      rw (refill-run batch t r q none_left got run) (
        refilled batch (nothing-pops none_left) got
          (rw (stack-reverse_slice m.ptrs.at batch) at takes) valid)

  pub alloc-outcome : AtMost mag_cap (sub.refill_batch s mag_cap) → HandsOut sub s m (alloc sub s m)
  unfolding alloc
  alloc-outcome few = elim (Bool-cases (m.len == 0)) [
    | inl e ↦
        let none_left : m.len ≡ 0 = ground (arith, e) in
        rw (try_pop-none m none_left) (refill-HandsOut none_left _ refl few)
    | inr e ↦
        let pos : m.len ≢ 0 = ground (arith, e) in
        rw (try_pop-some m v pos) (
          popped (stack-top m.len m.ptrs.at pos)
            (record { room = v.room; few = omega (arith, v.few) }))
  ]

-- Where a free leaves its object: on top of a magazine with room, or on top of the eight objects that a
-- full magazine keeps, after the sub-heap has got the 24 below them in one batch.
pub data Frees {S : Type 0} (sub : Backing S) (s : S) (m : Magazine) (ptr : ℕ)
    : Option (Magazine × S) → Type 0 where
  pushed :
      {q : Magazine}
      → m.len < mag_cap
      → pops q ≡ ptr ∷ pops m
      → IsValid q
      → Frees sub s m ptr (some (q, s))
  drained :
      {q : Magazine} {t : S} (kept batch : List ℕ)
      → m.len ≡ mag_cap
      → pops m ≡ kept ++ backwards batch
      → length batch ≡ 24
      → sub.dealloc_class_batch s batch ≡ some t
      → pops q ≡ ptr ∷ kept
      → IsValid q
      → Frees sub s m ptr (some (q, t))
  stuck :
      (kept batch : List ℕ)
      → m.len ≡ mag_cap
      → pops m ≡ kept ++ backwards batch
      → length batch ≡ 24
      → sub.dealloc_class_batch s batch ≡ none
      → Frees sub s m ptr none

module _ {S : Type 0} (sub : Backing S) (s : S) (m : Magazine) (ptr : ℕ) (v : IsValid m) where
  free-pushed :
      m.len < mag_cap
      → free sub s m ptr ≡ some (record { len = m.len + 1; ptrs = put m.ptrs m.len ptr }, s)
  unfolding free try_push
  free-pushed l = ground (arith, v.room, l)

  pops-pushed :
      m.len < mag_cap → stack (m.len + 1) (update m.ptrs.at m.len ptr) ≡ ptr ∷ stack m.len m.ptrs.at
  pops-pushed l = stack-push m.len m.ptrs.at ptr

  left : Slice ℕ
  left = put (record { len = m.ptrs.len; at = copy_within m.ptrs.at 24 m.len }) 8 ptr

  free-full :
      (answer : Option S)
      → m.len ≡ mag_cap
      → sub.dealloc_class_batch s (slots m.ptrs.at 0 24) ≡ answer
      → free sub s m ptr
        ≡ elim answer [ none ↦ none | some t ↦ some (record { len = 9; ptrs = left }, t) ]
  unfolding free try_push drain_then_push left
  free-full none full e = ground (arith, full, v.room, e)
  free-full (some t) full e = ground (arith, full, v.room, e)

  left-IsValid : IsValid (record { len = 9; ptrs = left })
  unfolding left
  left-IsValid = record { room = v.room; few = omega arith }

  slots-length : (k n : ℕ) (f : ℕ → ℕ) → length (slots f k n) ≡ n
  unfolding slots
  slots-length k zero f = refl
  slots-length k (suc n) f = cc (slots-length (k + 1) n f)

  pops-drained : m.len ≡ mag_cap → stack 9 left.at ≡ ptr ∷ stack 8 (λ i. m.ptrs.at (24 + i))
  unfolding left
  pops-drained full = cc (
    stack-push 8 (copy_within m.ptrs.at 24 m.len) ptr,
    stack-congr 8 (copy_within m.ptrs.at 24 m.len) (λ i. m.ptrs.at (24 + i))
        (λ i l. ground (arith, full)),
  )

  pops-full :
      m.len ≡ mag_cap
      → stack m.len m.ptrs.at
        ≡ stack 8 (λ i. m.ptrs.at (24 + i)) ++ backwards (slots m.ptrs.at 0 24)
  pops-full full =
      let below =
        stack-congr 24 m.ptrs.at (λ i. m.ptrs.at (0 + i)) (λ i l. ap m.ptrs.at (omega arith)) in
      rw full (cc (stack-append 24 8 m.ptrs.at, below, stack-backwards 24 0 m.ptrs.at))

  full-Frees :
      (answer : Option S)
      → m.len ≡ mag_cap
      → sub.dealloc_class_batch s (slots m.ptrs.at 0 24) ≡ answer
      → Frees sub s m ptr
          (elim answer [ none ↦ none | some t ↦ some (record { len = 9; ptrs = left }, t) ])
  full-Frees none full e =
      stuck (stack 8 (λ i. m.ptrs.at (24 + i))) (slots m.ptrs.at 0 24) full (pops-full full)
        (slots-length 0 24 m.ptrs.at) e
  full-Frees (some t) full e =
      drained (stack 8 (λ i. m.ptrs.at (24 + i))) (slots m.ptrs.at 0 24) full (pops-full full)
        (slots-length 0 24 m.ptrs.at) e (pops-drained full) left-IsValid

  pub free-outcome : Frees sub s m ptr (free sub s m ptr)
  free-outcome = elim (Bool-cases (ltb m.len mag_cap)) [
    | inl e ↦
        let l : m.len < mag_cap = ground (arith, e) in
        rw (free-pushed l)
          (pushed l (pops-pushed l) (record { room = v.room; few = omega (arith, l) }))
    | inr e ↦
        let full : m.len ≡ mag_cap = ground (arith, e, v.few) in
        rw (free-full _ full refl) (full-Frees _ full refl)
  ]
