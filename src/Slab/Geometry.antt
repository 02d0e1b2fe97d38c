-- ===== src/Slab/Geometry.antt =====
-- Where the headers, the locks and the slots of toccata-core/src/rseq/slab.rs stand in a slab that is laid
-- out as `SubHeapBuilder::build_standalone` and `FramePool::build` do it.
use toccata.Base.{
  ℕ, suc, ◌+◌, ◌*◌, ◌^◌, ◌≤◌, ◌<◌, max, ◌≡◌, ◌≢◌, inl, inr, refl, arith, some, ltb, Bool-cases,
  ltb→lt, ltb→le_of_false, sym, ap,
}
use native.Mathlib.Nat.{mul-le-mul_right}
use toccata.Slab.{SlabLayout, ClassLoc, block, header, slots, lock}

-- In every block: the headers of eight bytes, the locks of four, and the slots of the classes one
-- after the other, `cap` pointers each.
pub record IsLaidOut (l : SlabLayout) (cap : ℕ → ℕ) : Type 0 where
  pub flags : l.stopped.len ≡ max l.num_cpus 1
  pub header_at : (c : ℕ) → c < l.classes.len → (l.classes.at c).header_off ≡ c * 8
  pub lock_at : (c : ℕ) → c < l.classes.len → (l.classes.at c).lock_off ≡ l.classes.len * 8 + c * 4
  pub slots_first : (c : ℕ) → c < l.classes.len → l.classes.len * 12 ≤ (l.classes.at c).slots_off
  pub slots_apart :
      (c d : ℕ)
      → c < d
      → d < l.classes.len
      → (l.classes.at c).slots_off + cap c * 8 ≤ (l.classes.at d).slots_off
  pub slots_inside :
      (c : ℕ) → c < l.classes.len → (l.classes.at c).slots_off + cap c * 8 ≤ 2 ^ l.shift

-- What stands in a block for a class, and where.
pub data Field : Type 0 where
  head : Field
  capacity : Field
  word : Field
  slot : ℕ → Field

unfoldable pub offset : ClassLoc → Field → ℕ
offset loc head = loc.header_off
offset loc capacity = loc.header_off + 4
offset loc word = loc.lock_off
offset loc (slot i) = loc.slots_off + i * 8

unfoldable pub IsField : ℕ → Field → Type 0
IsField cap head = Unit
IsField cap capacity = Unit
IsField cap word = Unit
IsField cap (slot i) = i < cap

unfoldable pub place : SlabLayout → ℕ → ℕ → Field → ℕ
place l cpu c f = l.base + cpu * 2 ^ l.shift + offset (l.classes.at c) f

module _ (l : SlabLayout) (cpu c : ℕ) (lc : cpu < l.num_cpus) (cc : c < l.classes.len) where
  pub header-ok : header l cpu c ≡ some (place l cpu c head)
  unfolding header block place offset
  header-ok = ground (arith, lc, cc)

  pub slots-ok : slots l cpu c ≡ some (place l cpu c (slot 0))
  unfolding slots block place offset
  slots-ok = ground (arith, lc, cc)

  pub lock-ok : lock l cpu c ≡ some (place l cpu c word)
  unfolding lock block place offset
  lock-ok = ground (arith, lc, cc)

-- Numbers in the same block are the same block's.
apart : (i j n o p : ℕ) → i < j → o < n → i * n + o ≢ j * n + p
apart i j n o p h l e =
    let above : suc i * n ≤ j * n = mul-le-mul_right n h in
    let same : suc i * n ≡ i * n + n = omega arith in absurd (omega (arith, above, same, e, l))

same_block : (i j n o p : ℕ) → o < n → p < n → i * n + o ≡ j * n + p → (i ≡ j) × (o ≡ p)
same_block i j n o p ho hp e = elim (Bool-cases (ltb i j)) [
  | inl t ↦ absurd (apart i j n o p (ltb→lt i j t) ho e)
  | inr f ↦ elim (Bool-cases (ltb j i)) [
    | inl t ↦ absurd (apart j i n p o (ltb→lt j i t) hp (sym e))
    | inr g ↦
        let here : i ≡ j = omega (arith, ltb→le_of_false i j f, ltb→le_of_false j i g) in
        (here, omega (arith, e, ap (λ k. k * n) here))
  ]
]

module _ (l : SlabLayout) (cap : ℕ → ℕ) (v : IsLaidOut l cap) where
  placed :
      (c : ℕ)
      → c < l.classes.len
      → ((l.classes.at c).header_off ≡ c * 8)
        × ((l.classes.at c).lock_off ≡ l.classes.len * 8 + c * 4)
        × l.classes.len * 12 ≤ (l.classes.at c).slots_off
  placed c h = (v.header_at c h, v.lock_at c h, v.slots_first c h)

  offset-inside :
      (c : ℕ) (f : Field)
      → c < l.classes.len
      → IsField (cap c) f
      → offset (l.classes.at c) f < 2 ^ l.shift
  unfolding offset IsField
  offset-inside c head h i = omega (arith, placed c h, v.slots_inside c h, i)
  offset-inside c capacity h i = omega (arith, placed c h, v.slots_inside c h, i)
  offset-inside c word h i = omega (arith, placed c h, v.slots_inside c h, i)
  offset-inside c (slot k) h i = omega (arith, placed c h, v.slots_inside c h, i)

  offset-injective :
      (c d : ℕ) (f g : Field)
      → c < l.classes.len
      → d < l.classes.len
      → IsField (cap c) f
      → IsField (cap d) g
      → offset (l.classes.at c) f ≡ offset (l.classes.at d) g
      → (c ≡ d) × (f ≡ g)
  unfolding offset IsField
  offset-injective c d head head h k i j e = (omega (arith, placed c h, placed d k, e, h, k), refl)
  offset-injective c d head capacity h k i j e =
      absurd (omega (arith, placed c h, placed d k, e, h, k))
  offset-injective c d head word h k i j e = absurd (omega (arith, placed c h, placed d k, e, h, k))
  offset-injective c d head (slot q) h k i j e =
      absurd (omega (arith, placed c h, placed d k, e, h, k))
  offset-injective c d capacity head h k i j e =
      absurd (omega (arith, placed c h, placed d k, e, h, k))
  offset-injective c d capacity capacity h k i j e =
      (omega (arith, placed c h, placed d k, e, h, k), refl)
  offset-injective c d capacity word h k i j e =
      absurd (omega (arith, placed c h, placed d k, e, h, k))
  offset-injective c d capacity (slot q) h k i j e =
      absurd (omega (arith, placed c h, placed d k, e, h, k))
  offset-injective c d word head h k i j e = absurd (omega (arith, placed c h, placed d k, e, h, k))
  offset-injective c d word capacity h k i j e =
      absurd (omega (arith, placed c h, placed d k, e, h, k))
  offset-injective c d word word h k i j e = (omega (arith, placed c h, placed d k, e, h, k), refl)
  offset-injective c d word (slot q) h k i j e =
      absurd (omega (arith, placed c h, placed d k, e, h, k))
  offset-injective c d (slot p) head h k i j e =
      absurd (omega (arith, placed c h, placed d k, e, h, k))
  offset-injective c d (slot p) capacity h k i j e =
      absurd (omega (arith, placed c h, placed d k, e, h, k))
  offset-injective c d (slot p) word h k i j e =
      absurd (omega (arith, placed c h, placed d k, e, h, k))
  offset-injective c d (slot p) (slot q) h k i j e = elim (Bool-cases (ltb c d)) [
    | inl t ↦ absurd (omega (arith, v.slots_apart c d (ltb→lt c d t) k, e, i))
    | inr n ↦ elim (Bool-cases (ltb d c)) [
      | inl t ↦ absurd (omega (arith, v.slots_apart d c (ltb→lt d c t) h, e, j))
      | inr m ↦
          let same : c ≡ d = omega (arith, ltb→le_of_false c d n, ltb→le_of_false d c m) in
          let offsets = ap (λ x. (l.classes.at x).slots_off) same in
          (same, ap slot (omega (arith, e, offsets)))
    ]
  ]

  pub place-injective :
      (i j c d : ℕ) (f g : Field)
      → c < l.classes.len
      → d < l.classes.len
      → IsField (cap c) f
      → IsField (cap d) g
      → place l i c f ≡ place l j d g
      → (i ≡ j) × (c ≡ d) × (f ≡ g)
  unfolding place
  place-injective i j c d f g h k p q e =
      let (here, offsets) =
        same_block i j (2 ^ l.shift) (offset (l.classes.at c) f) (offset (l.classes.at d) g)
          (offset-inside c f h p) (offset-inside d g k q) (omega (arith, e)) in
      let (classes, fields) = offset-injective c d f g h k p q offsets in (here, classes, fields)

-- The fields by their distance from the header and from the first slot.
pub capacity_at : (l : SlabLayout) (cpu c : ℕ) → place l cpu c head + 4 ≡ place l cpu c capacity
unfolding place offset
capacity_at l cpu c = omega arith

pub slot_at :
    (l : SlabLayout) (cpu c i : ℕ) → place l cpu c (slot 0) + i * 8 ≡ place l cpu c (slot i)
unfolding place offset
slot_at l cpu c i = omega arith
