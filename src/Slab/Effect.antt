-- ===== src/Slab/Effect.antt =====
-- What a write to one stack of toccata-core/src/rseq/slab.rs changes: the fields of every other stack
-- keep their values, because no two fields share an address.
use toccata.Base.{ℕ, ◌<◌, ◌≡◌, ◌≢◌, inl, inr, refl, sym, ap, arith, update, ◌==◌, Bool-cases}
use toccata.Slab.{SlabLayout, Memory}
use toccata.Slab.Geometry.{
  IsLaidOut, Field, head, capacity, word, slot, IsField, place, place-injective,
}

-- The number of a slot.
abbrev number : Field → ℕ
number (slot i) = i
number f = 0

module _ {l : SlabLayout} {cap : ℕ → ℕ} (v : IsLaidOut l cap) (cpu c : ℕ)
    (cc : c < l.classes.len) where
  -- `m` becomes `n`, where only one stack has changed: to `top` objects in the slots `s`, with the
  -- lock word `w`.
  pub record Sets (m : Memory) (top : ℕ) (s : ℕ → ℕ) (w : ℕ) (n : Memory) : Type 0 where
    pub others :
        (j d : ℕ) (f : Field)
        → d < l.classes.len
        → IsField (cap d) f
        → (cpu ≡ j → c ≢ d)
        → n (place l j d f) ≡ m (place l j d f)
    pub top_is : n (place l cpu c head) ≡ top
    pub word_is : n (place l cpu c word) ≡ w
    pub room : n (place l cpu c capacity) ≡ m (place l cpu c capacity)
    pub slots_are : (i : ℕ) → i < cap c → n (place l cpu c (slot i)) ≡ s i

  other_field :
      (f g : Field)
      → IsField (cap c) f
      → IsField (cap c) g
      → f ≢ g
      → place l cpu c f ≢ place l cpu c g
  other_field f g p q ne e = ne (place-injective l cap v cpu cpu c c f g cc cc p q e).2

  other_stack :
      (j d : ℕ) (f g : Field)
      → d < l.classes.len
      → IsField (cap c) f
      → IsField (cap d) g
      → (cpu ≡ j → c ≢ d)
      → place l j d g ≢ place l cpu c f
  other_stack j d f g h p q ne e =
      let (i, k, _) = place-injective l cap v cpu j c d f g cc h p q (sym e) in ne i k

  pub Sets-refl :
      (m : Memory)
      → Sets m (m (place l cpu c head)) (λ i. m (place l cpu c (slot i))) (m (place l cpu c word)) m
  Sets-refl m = record {
    others = λ j d f h q ne. refl;
    top_is = refl;
    word_is = refl;
    room = refl;
    slots_are = λ i h. refl;
  }

  module _ {m : Memory} {top : ℕ} {s : ℕ → ℕ} {w : ℕ} {n : Memory} (e : Sets m top s w n) where
    pub Sets-word : (x : ℕ) → Sets m top s x (update n (place l cpu c word) x)
    unfolding IsField
    Sets-word x = record {
      others =
          λ j d f h q ne. ground (arith, other_stack j d word f h tt q ne, e.others j d f h q ne);
      top_is = ground (arith, other_field head word tt tt _, e.top_is);
      word_is = ground arith;
      room = ground (arith, other_field capacity word tt tt _, e.room);
      slots_are = λ i h. ground (arith, other_field (slot i) word h tt _, e.slots_are i h);
    }

    pub Sets-head : (x : ℕ) → Sets m x s w (update n (place l cpu c head) x)
    unfolding IsField
    Sets-head x = record {
      others =
          λ j d f h q ne. ground (arith, other_stack j d head f h tt q ne, e.others j d f h q ne);
      top_is = ground arith;
      word_is = ground (arith, other_field word head tt tt _, e.word_is);
      room = ground (arith, other_field capacity head tt tt _, e.room);
      slots_are = λ i h. ground (arith, other_field (slot i) head h tt _, e.slots_are i h);
    }

    slot_is :
        (k x : ℕ)
        → k < cap c
        → (i : ℕ) → i < cap c
        → update n (place l cpu c (slot k)) x (place l cpu c (slot i)) ≡ update s k x i
    unfolding IsField
    slot_is k x b i h = elim (Bool-cases (i == k)) [
      | inl t ↦ let same : i ≡ k = ground (arith, t) in rw same (ground arith)
      | inr f ↦
          let apart : slot i ≢ slot k = λ q. ground (arith, f, ap number q) in
          ground (arith, f, other_field (slot i) (slot k) h b apart, e.slots_are i h)
    ]

    pub Sets-slot :
        (k x : ℕ) → k < cap c → Sets m top (update s k x) w (update n (place l cpu c (slot k)) x)
    unfolding IsField
    Sets-slot k x b = record {
      others = λ j d f h q ne.
          ground (arith, other_stack j d (slot k) f h b q ne, e.others j d f h q ne);
      top_is = ground (arith, other_field head (slot k) tt b _, e.top_is);
      word_is = ground (arith, other_field word (slot k) tt b _, e.word_is);
      room = ground (arith, other_field capacity (slot k) tt b _, e.room);
      slots_are = λ i h. slot_is k x b i h;
    }
