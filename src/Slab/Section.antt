-- ===== src/Slab/Section.antt =====
-- One pass through the critical sections of toccata-core/src/rseq/asm.rs.
use toccata.Base.{
  ℕ, ◌+◌, ◌-◌, ◌<◌, ◌≡◌, ◌≢◌, inl, inr, refl, sym, ap, ◌∙◌, subst, arith, Bool, true, false, ◌||◌,
  [], ◌∷◌, length, update, ◌==◌, Bool-cases,
}
use toccata.Base.Stacks.{stack, stack-congr, stack-top, stack-push, length-stack}
use toccata.Slab.{Memory, ClassLoc, SlabLayout}
use toccata.Slab.Geometry.{place, offset, capacity_at, head, slot}
use toccata.Slab.Effect.{Sets, Sets-refl, Sets-head, Sets-slot}
use toccata.Slab.Stack.{Others-all, objects, IsValid, Others, Sets-leaves}
use toccata.Slab.Sequence.{
  RseqResult, committed, slow, fallback, Interrupt, never, early, late, seized, header_at, slot_at,
  is_full, scratch, cut_off, pop_section, push_section,
}

-- How `pop` ends: it has taken the top of the stack of a processor that is not seized, has found it
-- empty, or has changed nothing.
pub data PopEnds (l : SlabLayout) (cap : ℕ → ℕ) (c : ℕ) (m : Memory)
    : RseqResult ℕ → Memory → Type 0 where
  took :
      {cpu p : ℕ} {n : Memory}
      → cpu < l.num_cpus
      → seized l cpu ≡ false
      → p ≢ 0
      → IsValid l cap n
      → Others l m cpu c n
      → objects l m cpu c ≡ p ∷ objects l n cpu c
      → PopEnds l cap c m (committed p cpu) n
  none_left : {cpu : ℕ} → cpu < l.num_cpus → objects l m cpu c ≡ [] → PopEnds l cap c m slow m
  bailed : PopEnds l cap c m fallback m

-- How `push` of `p` ends.
pub data PushEnds (l : SlabLayout) (cap : ℕ → ℕ) (c p : ℕ) (m : Memory)
    : RseqResult (Unit {0}) → Memory → Type 0 where
  put_on :
      {cpu : ℕ} {n : Memory}
      → cpu < l.num_cpus
      → seized l cpu ≡ false
      → IsValid l cap n
      → Others l m cpu c n
      → objects l n cpu c ≡ p ∷ objects l m cpu c
      → PushEnds l cap c p m (committed tt cpu) n
  no_room :
      {cpu : ℕ}
      → cpu < l.num_cpus
      → length (objects l m cpu c) ≡ cap c
      → PushEnds l cap c p m slow m
  bailed : PushEnds l cap c p m fallback m

module _ {l : SlabLayout} {cap : ℕ → ℕ} {m : Memory} (v : IsValid l cap m) {cpu c : ℕ}
    (lc : cpu < l.num_cpus) (cc : c < l.classes.len) where
  abbrev loc : ClassLoc
  loc = l.classes.at c

  abbrev count : ℕ
  count = m (place l cpu c head)

  abbrev slot_values : ℕ → ℕ
  slot_values i = m (place l cpu c (slot i))

  header_at-place : header_at l loc cpu ≡ place l cpu c head
  unfolding header_at place offset
  header_at-place = refl

  slot_at-place : (i : ℕ) → slot_at l loc cpu i ≡ place l cpu c (slot i)
  unfolding slot_at place offset
  slot_at-place i = omega arith

  now : Sets v.laid cpu c cc m count slot_values 0 m
  now =
      subst (λ w. Sets v.laid cpu c cc m count slot_values w m) (v.stacks cpu c lc cc).unlocked
        (Sets-refl v.laid cpu c cc m)

  objects-none : count ≡ 0 → objects l m cpu c ≡ []
  unfolding objects stack
  objects-none e = ap (λ k. stack k slot_values) e

  objects-length : length (objects l m cpu c) ≡ count
  unfolding objects
  objects-length = length-stack count slot_values

  after_pop :
      count ≢ 0
      → IsValid l cap (update m (place l cpu c head) (count - 1))
        × Others l m cpu c (update m (place l cpu c head) (count - 1))
        × (objects l m cpu c
            ≡ slot_values (count - 1) ∷ objects l (update m (place l cpu c head) (count - 1)) cpu c)
        × slot_values (count - 1) ≢ 0
  unfolding objects
  after_pop ne =
      let few = (v.stacks cpu c lc cc).few in
      let (valid, others, same) =
        Sets-leaves v lc cc (Sets-head v.laid cpu c cc now (count - 1)) (omega (arith, few))
          (λ i k. (v.stacks cpu c lc cc).live i (omega (arith, k))) in
      (
        valid,
        others,
        stack-top count slot_values ne ∙ ap (λ x. slot_values (count - 1) ∷ x) (sym same),
        (v.stacks cpu c lc cc).live (count - 1) (omega (arith, ne)),
      )

  pop_section-some :
      seized l cpu ≡ false
      → count ≢ 0
      → pop_section l loc cpu m
        ≡ (committed (slot_values (count - 1)) cpu, update m (place l cpu c head) (count - 1))
  unfolding pop_section
  pop_section-some s ne = rw (s, header_at-place, slot_at-place (count - 1)) (ground (arith, ne))

  pop_section-none : seized l cpu ≡ false → count ≡ 0 → pop_section l loc cpu m ≡ (slow, m)
  unfolding pop_section
  pop_section-none s e = rw (s, header_at-place) (ground (arith, e))

  pop_section-seized : seized l cpu ≡ true → pop_section l loc cpu m ≡ (fallback, m)
  unfolding pop_section
  pop_section-seized s = rw s refl

  push_section-some :
      (p : ℕ)
      → seized l cpu ≡ false
      → count < cap c
      → push_section l loc cpu p m ≡ (
        committed tt cpu,
        update (update m (place l cpu c (slot count)) p) (place l cpu c head) (count + 1),
      )
  unfolding push_section is_full scratch
  push_section-some p s h =
      rw (s, header_at-place, slot_at-place count, capacity_at l cpu c, (v.stacks cpu c lc cc).room)
        (ground (arith, h))

  push_section-full :
      (p : ℕ) → seized l cpu ≡ false → count ≡ cap c → push_section l loc cpu p m ≡ (slow, m)
  unfolding push_section is_full
  push_section-full p s h =
      rw (s, header_at-place, capacity_at l cpu c, (v.stacks cpu c lc cc).room) (ground (arith, h))

  push_section-seized : (p : ℕ) → seized l cpu ≡ true → push_section l loc cpu p m ≡ (fallback, m)
  unfolding push_section
  push_section-seized p s = rw s refl

  live_pushed : (p : ℕ) → p ≢ 0 → (i : ℕ) → i < count + 1 → update slot_values count p i ≢ 0
  live_pushed p ne i k = elim (Bool-cases (i == count)) [
    | inl t ↦ ground (arith, t, ne)
    | inr g ↦
        let low : i < count = ground (arith, g, k) in
        ground (arith, g, (v.stacks cpu c lc cc).live i low)
  ]

  after_push :
      (p : ℕ)
      → p ≢ 0
      → count < cap c
      → IsValid l cap
          (update (update m (place l cpu c (slot count)) p) (place l cpu c head) (count + 1))
        × Others l m cpu c
            (update (update m (place l cpu c (slot count)) p) (place l cpu c head) (count + 1))
        × (objects l
              (update (update m (place l cpu c (slot count)) p) (place l cpu c head) (count + 1))
              cpu
              c
            ≡ p ∷ objects l m cpu c)
  unfolding objects
  after_push p ne h =
      let written = Sets-slot v.laid cpu c cc now count p h in
      let (valid, others, same) =
        Sets-leaves v lc cc (Sets-head v.laid cpu c cc written (count + 1)) (omega (arith, h))
          (live_pushed p ne) in
      (valid, others, same ∙ stack-push count slot_values p)

  -- The object above the top is in no stack.
  after_scratch :
      (p : ℕ)
      → count < cap c
      → IsValid l cap (scratch l loc cpu p m)
        × Others l m cpu c (scratch l loc cpu p m)
        × (objects l (scratch l loc cpu p m) cpu c ≡ objects l m cpu c)
  unfolding scratch objects
  after_scratch p h =
      rw (header_at-place, slot_at-place count)
        (let (valid, others, same) =
            Sets-leaves v lc cc (Sets-slot v.laid cpu c cc now count p h) (omega (arith, h))
              (λ i k. ground (arith, (v.stacks cpu c lc cc).live i k)) in
          (valid, others, same ∙ stack-congr count _ _ (λ i k. ground (arith, k))))

  pub pop_section-PopEnds :
      PopEnds l cap c m (pop_section l loc cpu m).0 (pop_section l loc cpu m).1
  pop_section-PopEnds = elim (Bool-cases (seized l cpu)) [
    | inl s ↦ rw (pop_section-seized s) bailed
    | inr s ↦ elim (Bool-cases (count == 0)) [
      | inl t ↦
          let e : count ≡ 0 = ground (arith, t) in
          rw (pop_section-none s e) (none_left lc (objects-none e))
      | inr f ↦
          let ne : count ≢ 0 = ground (arith, f) in
          let (valid, others, same, live) = after_pop ne in
          rw (pop_section-some s ne) (took lc s live valid others same)
    ]
  ]

  pub push_section-PushEnds :
      (p : ℕ)
      → p ≢ 0
      → PushEnds l cap c p m (push_section l loc cpu p m).0 (push_section l loc cpu p m).1
  push_section-PushEnds p ne = elim (Bool-cases (seized l cpu)) [
    | inl s ↦ rw (push_section-seized p s) bailed
    | inr s ↦ elim (Bool-cases (count == cap c)) [
      | inl t ↦
          let e : count ≡ cap c = ground (arith, t) in
          rw (push_section-full p s e) (no_room lc (objects-length ∙ e))
      | inr f ↦
          let other : count ≢ cap c = ground (arith, f) in
          let h : count < cap c = omega (arith, (v.stacks cpu c lc cc).few, other) in
          let (valid, others, same) = after_push p ne h in
          rw (push_section-some p s h) (put_on lc s valid others same)
    ]
  ]

  is_full-false : (b : Bool) → (b || is_full l loc cpu m) ≡ false → count < cap c
  unfolding is_full
  is_full-false true e = ground (arith, e)
  is_full-false false e =
      let room = (v.stacks cpu c lc cc).room in
      ground (arith, rw (header_at-place, capacity_at l cpu c, room) at e)

  -- A pass that is cut off leaves every stack as it was.
  pub cut_off-unseen :
      (p : ℕ) (i : Interrupt)
      → IsValid l cap (cut_off l loc cpu p i m)
        × ((j d : ℕ)
            → j < l.num_cpus
            → d < l.classes.len
            → objects l (cut_off l loc cpu p i m) j d ≡ objects l m j d)
  unfolding cut_off
  cut_off-unseen p never = (v, λ j d lj ld. refl)
  cut_off-unseen p early = (v, λ j d lj ld. refl)
  cut_off-unseen p late = elim (Bool-cases (seized l cpu || is_full l loc cpu m)) [
    | inl t ↦ rw t (v, λ j d lj ld. refl)
    | inr f ↦
        let (valid, others, same) = after_scratch p (is_full-false (seized l cpu) f) in
        rw f (valid, Others-all l m _ cpu c others same)
  ]
