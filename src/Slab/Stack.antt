-- ===== src/Slab/Stack.antt =====
-- The stacks of toccata-core/src/rseq/slab.rs as lists of objects, the next one to be popped first, and
-- what `push_locked` and `pop_locked` do to them.
use toccata.Base.{
  ℕ, ◌≤◌, ◌<◌, ◌≡◌, ◌≢◌, ◌⊎◌, inl, inr, sym, subst, ◌∙◌, arith, true, false, some, List, [], ◌∷◌,
  length, ◌==◌, Bool-cases,
}
use toccata.Base.Stacks.{stack, stack-congr}
use toccata.Slab.{SlabLayout, Memory, Fast, ok, needs_slow, is_stopped}
use toccata.Slab.Geometry.{IsLaidOut, head, capacity, word, slot, IsField, place}
use toccata.Slab.Effect.{Sets}

unfoldable pub objects : SlabLayout → Memory → ℕ → ℕ → List ℕ
objects l m cpu c = stack (m (place l cpu c head)) (λ i. m (place l cpu c (slot i)))

-- A stack that is in order and whose lock is not held.
pub record IsStack (l : SlabLayout) (cap : ℕ) (m : Memory) (cpu c : ℕ) : Type 0 where
  pub unlocked : m (place l cpu c word) ≡ 0
  pub room : m (place l cpu c capacity) ≡ cap
  pub few : m (place l cpu c head) ≤ cap
  pub live : (i : ℕ) → i < m (place l cpu c head) → m (place l cpu c (slot i)) ≢ 0

pub record IsValid (l : SlabLayout) (cap : ℕ → ℕ) (m : Memory) : Type 0 where
  pub laid : IsLaidOut l cap
  pub stacks : (cpu c : ℕ) → cpu < l.num_cpus → c < l.classes.len → IsStack l (cap c) m cpu c

same_or_other : (i j c d : ℕ) → ((i ≡ j) × (c ≡ d)) ⊎ ((i ≡ j → c ≢ d))
same_or_other i j c d = elim (Bool-cases (i == j)) [
  | inl t ↦ elim (Bool-cases (c == d)) [
    | inl u ↦ inl (ground (arith, t), ground (arith, u))
    | inr f ↦ inr (λ _ q. ground (arith, f, q))
  ]
  | inr f ↦ inr (λ q. ground (arith, f, q))
]

-- What becomes of the other stacks: nothing.
unfoldable pub Others : SlabLayout → Memory → ℕ → ℕ → Memory → Type 0
Others l m cpu c n =
    (j d : ℕ)
    → j < l.num_cpus
    → d < l.classes.len
    → (cpu ≡ j → c ≢ d)
    → objects l n j d ≡ objects l m j d

pub Others-all :
    (l : SlabLayout) (m n : Memory) (cpu c : ℕ)
    → Others l m cpu c n
    → objects l n cpu c ≡ objects l m cpu c
    → (j d : ℕ) → j < l.num_cpus
    → d < l.classes.len
    → objects l n j d ≡ objects l m j d
unfolding Others
Others-all l m n cpu c others same j d lj ld = elim (same_or_other cpu j c d) [
  | inl (i, k) ↦
      subst (λ x. objects l n j x ≡ objects l m j x) k
        (subst (λ x. objects l n x c ≡ objects l m x c) i same)
  | inr ne ↦ others j d lj ld ne
]

module _ (l : SlabLayout) (cap : ℕ → ℕ) (m : Memory) (cpu c : ℕ) where
  -- What `push_locked` returns and leaves: it passes a stopped processor by, leaves a full stack as
  -- it is, and otherwise puts the object on top.
  pub data Pushes (p : ℕ) : Fast (Unit {0}) → Memory → Type 0 where
    routed : is_stopped l cpu ≡ some true → Pushes p needs_slow m
    full :
        {n : Memory}
        → is_stopped l cpu ≡ some false
        → length (objects l m cpu c) ≡ cap c
        → objects l n cpu c ≡ objects l m cpu c
        → Pushes p needs_slow n
    pushed :
        {n : Memory}
        → is_stopped l cpu ≡ some false
        → length (objects l m cpu c) < cap c
        → objects l n cpu c ≡ p ∷ objects l m cpu c
        → Pushes p (ok tt) n

  -- The same of `pop_locked`, which takes the object on top.
  pub data Pops : Fast ℕ → Memory → Type 0 where
    routed : is_stopped l cpu ≡ some true → Pops needs_slow m
    empty :
        {n : Memory}
        → is_stopped l cpu ≡ some false
        → objects l m cpu c ≡ []
        → objects l n cpu c ≡ []
        → Pops needs_slow n
    popped :
        {n : Memory} {p : ℕ}
        → is_stopped l cpu ≡ some false
        → objects l m cpu c ≡ p ∷ objects l n cpu c
        → Pops (ok p) n

module _ {l : SlabLayout} {cap : ℕ → ℕ} {m : Memory} (v : IsValid l cap m) {cpu c : ℕ}
    (lc : cpu < l.num_cpus) (cc : c < l.classes.len) where
  module _ {top : ℕ} {s : ℕ → ℕ} {n : Memory} (e : Sets v.laid cpu c cc m top s 0 n)
      (few : top ≤ cap c) where
    Sets-objects : objects l n cpu c ≡ stack top s
    unfolding objects
    Sets-objects = rw e.top_is (stack-congr top _ s (λ i h. e.slots_are i (omega (arith, h, few))))

    Sets-Others : Others l m cpu c n
    unfolding Others objects IsField
    Sets-Others j d lj ld ne =
        let same = e.others j d head ld tt ne in
        rw same (
          stack-congr (m (place l j d head)) _ _
            (λ i h. e.others j d (slot i) ld (omega (arith, h, (v.stacks j d lj ld).few)) ne))

    Sets-IsStack : ((i : ℕ) → i < top → s i ≢ 0) → IsStack l (cap c) n cpu c
    Sets-IsStack live = record {
      unlocked = e.word_is;
      room = e.room ∙ (v.stacks cpu c lc cc).room;
      few = omega (arith, e.top_is, few);
      live = λ i h z.
          live i (omega (arith, e.top_is, h))
            (sym (e.slots_are i (omega (arith, e.top_is, h, few))) ∙ z);
    }

    other-IsStack :
        (j d : ℕ) → j < l.num_cpus → d < l.classes.len → (cpu ≡ j → c ≢ d) → IsStack l (cap d) n j d
    unfolding IsField
    other-IsStack j d lj ld ne =
        let old = v.stacks j d lj ld in
        let tops = e.others j d head ld tt ne in
        record {
          unlocked = e.others j d word ld tt ne ∙ old.unlocked;
          room = e.others j d capacity ld tt ne ∙ old.room;
          few = omega (arith, tops, old.few);
          live = λ i h z.
              let low : i < m (place l j d head) = omega (arith, tops, h) in
              old.live i low (sym (e.others j d (slot i) ld (omega (arith, low, old.few)) ne) ∙ z);
        }

    Sets-IsValid : ((i : ℕ) → i < top → s i ≢ 0) → IsValid l cap n
    Sets-IsValid live = record {
      laid = v.laid;
      stacks = λ j d lj ld. elim (same_or_other cpu j c d) [
        | inl (i, k) ↦
            subst (λ x. IsStack l (cap x) n j x) k
              (subst (λ x. IsStack l (cap c) n x c) i (Sets-IsStack live))
        | inr ne ↦ other-IsStack j d lj ld ne
      ];
    }

    pub Sets-leaves :
        ((i : ℕ) → i < top → s i ≢ 0)
        → IsValid l cap n × Others l m cpu c n × (objects l n cpu c ≡ stack top s)
    Sets-leaves live = (Sets-IsValid live, Sets-Others, Sets-objects)
