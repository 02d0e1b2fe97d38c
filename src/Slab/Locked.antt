-- ===== src/Slab/Locked.antt =====
-- What `push_locked` and `pop_locked` of toccata-core/src/rseq/slab.rs return and do to the stacks.
use toccata.Base.{
  ℕ, ◌+◌, ◌-◌, ◌<◌, ◌≡◌, ◌≢◌, inl, inr, refl, sym, ap, ◌∙◌, arith, false, not, some, [], ◌∷◌,
  length, update, ◌==◌, Bool-cases, min,
}
use toccata.Base.Stacks.{stack, stack-top, stack-push, length-stack}
use toccata.Slab.{
  SlabLayout, Memory, Fast, ok, needs_slow, is_stopped, acquire, release, pop_held, push_held,
  pop_guarded, push_guarded, pop_locked, push_locked,
}
use toccata.Slab.Geometry.{
  IsLaidOut, head, word, slot, place, header-ok, capacity_at, slot_at, slots-ok, lock-ok,
}
use toccata.Slab.Effect.{Sets, Sets-refl, Sets-word, Sets-head, Sets-slot}
use toccata.Slab.Stack.{
  objects, IsValid, Others, Sets-leaves, Pushes, Pops, routed, full, pushed, empty, popped,
}

pub is_stopped-some :
    (l : SlabLayout) (cap : ℕ → ℕ) (cpu : ℕ)
    → IsLaidOut l cap
    → cpu < l.num_cpus
    → is_stopped l cpu ≡ some (not (l.stopped.at cpu == 0))
unfolding is_stopped
is_stopped-some l cap cpu v h =
    let here : min cpu (l.stopped.len - 1) ≡ cpu = omega (arith, v.flags, h) in
    let inside : cpu < l.stopped.len = omega (arith, v.flags, h) in rw here (ground (arith, inside))

module _ {l : SlabLayout} {cap : ℕ → ℕ} {m : Memory} (v : IsValid l cap m) {cpu c : ℕ}
    (lc : cpu < l.num_cpus) (cc : c < l.classes.len) where
  abbrev at_word : ℕ
  at_word = place l cpu c word

  abbrev held : Memory
  held = update m at_word 1

  abbrev slot_values : ℕ → ℕ
  slot_values i = m (place l cpu c (slot i))

  acquire-ok : acquire m at_word ≡ some held
  unfolding acquire
  acquire-ok = ground (arith, (v.stacks cpu c lc cc).unlocked)

  held-Sets : Sets v.laid cpu c cc m (m (place l cpu c head)) slot_values 1 held
  held-Sets = Sets-word v.laid cpu c cc (Sets-refl v.laid cpu c cc m) 1

  push_guarded-eq :
      (p : ℕ)
      → push_guarded l m cpu c p ≡ (
          let r = push_held held (place l cpu c head) (place l cpu c (slot 0)) p in
          some (r.0, release r.1 at_word))
  unfolding push_guarded
  push_guarded-eq p =
      rw (lock-ok l cpu c lc cc, acquire-ok, header-ok l cpu c lc cc, slots-ok l cpu c lc cc) refl

  pop_guarded-eq : pop_guarded l m cpu c ≡ (
      let r = pop_held held (place l cpu c head) (place l cpu c (slot 0)) in
      some (r.0, release r.1 at_word))
  unfolding pop_guarded
  pop_guarded-eq =
      rw (lock-ok l cpu c lc cc, acquire-ok, header-ok l cpu c lc cc, slots-ok l cpu c lc cc) refl

  abbrev count : ℕ
  count = m (place l cpu c head)

  held_count : held (place l cpu c head) ≡ count
  held_count = held-Sets.top_is

  held_room : held (place l cpu c head + 4) ≡ cap c
  held_room = rw (capacity_at l cpu c) (held-Sets.room ∙ (v.stacks cpu c lc cc).room)

  objects-length : length (objects l m cpu c) ≡ count
  unfolding objects
  objects-length = length-stack count slot_values

  objects-none : count ≡ 0 → objects l m cpu c ≡ []
  unfolding objects stack
  objects-none e = ap (λ k. stack k slot_values) e

  push_held-full :
      (p : ℕ)
      → count ≡ cap c
      → push_held held (place l cpu c head) (place l cpu c (slot 0)) p ≡ (needs_slow, held)
  unfolding push_held
  push_held-full p e = ground (arith, held_count, held_room, e)

  push_held-ok :
      (p : ℕ)
      → count < cap c
      → push_held held (place l cpu c head) (place l cpu c (slot 0)) p ≡ (
        ok tt,
        update (update held (place l cpu c (slot count)) p) (place l cpu c head) (count + 1),
      )
  unfolding push_held
  push_held-ok p h = rw (held_count, held_room, slot_at l cpu c count) (ground (arith, h))

  unchanged :
      IsValid l cap (release held at_word)
      × Others l m cpu c (release held at_word)
      × (objects l (release held at_word) cpu c ≡ objects l m cpu c)
  unfolding release objects
  unchanged =
      Sets-leaves v lc cc (Sets-word v.laid cpu c cc held-Sets 0) (v.stacks cpu c lc cc).few
        (v.stacks cpu c lc cc).live

  abbrev with_pushed : ℕ → Memory
  with_pushed p =
      update (update held (place l cpu c (slot count)) p) (place l cpu c head) (count + 1)

  abbrev with_popped : Memory
  with_popped = update held (place l cpu c head) (count - 1)

  live_pushed : (p : ℕ) → p ≢ 0 → (i : ℕ) → i < count + 1 → update slot_values count p i ≢ 0
  live_pushed p ne i k = elim (Bool-cases (i == count)) [
    | inl t ↦ ground (arith, t, ne)
    | inr g ↦
        let low : i < count = ground (arith, g, k) in
        ground (arith, g, (v.stacks cpu c lc cc).live i low)
  ]

  after_push :
      (p : ℕ)
      → p ≢ 0
      → count < cap c
      → IsValid l cap (release (with_pushed p) at_word)
        × Others l m cpu c (release (with_pushed p) at_word)
        × (objects l (release (with_pushed p) at_word) cpu c ≡ p ∷ objects l m cpu c)
  unfolding release objects
  after_push p ne h =
      let written = Sets-slot v.laid cpu c cc held-Sets count p h in
      let (valid, others, same) =
        Sets-leaves v lc cc
          (Sets-word v.laid cpu c cc (Sets-head v.laid cpu c cc written (count + 1)) 0)
          (omega (arith, h)) (live_pushed p ne) in
      (valid, others, same ∙ stack-push count slot_values p)

  after_pop :
      IsValid l cap (release with_popped at_word)
      × Others l m cpu c (release with_popped at_word)
      × (objects l (release with_popped at_word) cpu c ≡ stack (count - 1) slot_values)
  unfolding release
  after_pop =
      Sets-leaves v lc cc
        (Sets-word v.laid cpu c cc (Sets-head v.laid cpu c cc held-Sets (count - 1)) 0)
        (omega (arith, (v.stacks cpu c lc cc).few))
        (λ i k. (v.stacks cpu c lc cc).live i (omega (arith, k)))

  push_guarded-Pushes :
      (p : ℕ)
      → p ≢ 0
      → is_stopped l cpu ≡ some false
      → (r : Fast (Unit {0})) × (n : Memory) × (push_guarded l m cpu c p ≡ some (r, n))
        × IsValid l cap n
        × Others l m cpu c n
        × Pushes l cap m cpu c p r n
  push_guarded-Pushes p ne run = elim (Bool-cases (count == cap c)) [
    | inl t ↦
        let e : count ≡ cap c = ground (arith, t) in
        let (valid, others, same) = unchanged in
        let runs = push_guarded-eq p ∙ rw (push_held-full p e) refl in
        (needs_slow, release held at_word, runs, valid, others, full run (objects-length ∙ e) same)
    | inr f ↦
        let ne_cap : count ≢ cap c = ground (arith, f) in
        let h : count < cap c = omega (arith, (v.stacks cpu c lc cc).few, ne_cap) in
        let (valid, others, same) = after_push p ne h in
        let runs = push_guarded-eq p ∙ rw (push_held-ok p h) refl in
        (
          ok tt,
          release (with_pushed p) at_word,
          runs,
          valid,
          others,
          pushed run (omega (arith, objects-length, h)) same,
        )
  ]

  pop_held-empty :
      count ≡ 0 → pop_held held (place l cpu c head) (place l cpu c (slot 0)) ≡ (needs_slow, held)
  unfolding pop_held
  pop_held-empty e = ground (arith, held_count, e)

  held-slot : (i : ℕ) → i < cap c → held (place l cpu c (slot i)) ≡ slot_values i
  held-slot i h = held-Sets.slots_are i h

  pop_held-ok :
      count ≢ 0
      → pop_held held (place l cpu c head) (place l cpu c (slot 0))
        ≡ (ok (slot_values (count - 1)), with_popped)
  unfolding pop_held
  pop_held-ok ne =
      let few = (v.stacks cpu c lc cc).few in
      let top = held-slot (count - 1) (omega (arith, ne, few)) in
      let live = (v.stacks cpu c lc cc).live (count - 1) (omega (arith, ne)) in
      rw (held_count, slot_at l cpu c (count - 1), top) (ground (arith, ne, live))

  pop_guarded-Pops :
      is_stopped l cpu ≡ some false
      → (r : Fast ℕ) × (n : Memory) × (pop_guarded l m cpu c ≡ some (r, n))
        × IsValid l cap n
        × Others l m cpu c n
        × Pops l cap m cpu c r n
  unfolding objects
  pop_guarded-Pops run = elim (Bool-cases (count == 0)) [
    | inl t ↦
        let e : count ≡ 0 = ground (arith, t) in
        let (valid, others, same) = unchanged in
        let runs = pop_guarded-eq ∙ rw (pop_held-empty e) refl in
        let none_left = objects-none e in
        (
          needs_slow,
          release held at_word,
          runs,
          valid,
          others,
          empty run none_left (same ∙ none_left),
        )
    | inr f ↦
        let ne : count ≢ 0 = ground (arith, f) in
        let (valid, others, same) = after_pop in
        let runs = pop_guarded-eq ∙ rw (pop_held-ok ne) refl in
        let tops : objects l m cpu c
            ≡ slot_values (count - 1) ∷ objects l (release with_popped at_word) cpu c =
          stack-top count slot_values ne ∙ ap (λ x. slot_values (count - 1) ∷ x) (sym same) in
        (
          ok (slot_values (count - 1)),
          release with_popped at_word,
          runs,
          valid,
          others,
          popped run tops,
        )
  ]

  -- `push_locked` with a slab in order returns, leaves a slab in order and no other stack changed, and
  -- routes a stopped processor by, refuses a full stack, and otherwise puts the object on top.
  pub push_locked-Pushes :
      (p : ℕ)
      → p ≢ 0
      → (r : Fast (Unit {0})) × (n : Memory) × (push_locked l m cpu c p ≡ some (r, n))
        × IsValid l cap n
        × Others l m cpu c n
        × Pushes l cap m cpu c p r n
  unfolding push_locked Others
  push_locked-Pushes p ne = elim (Bool-cases (not (l.stopped.at cpu == 0))) [
    | inl t ↦
        let stop = is_stopped-some l cap cpu v.laid lc ∙ ap some t in
        (needs_slow, m, rw stop refl, v, (λ j d lj ld other. refl), routed stop)
    | inr f ↦
        let run = is_stopped-some l cap cpu v.laid lc ∙ ap some f in
        let (r, n, e, valid, others, is) = push_guarded-Pushes p ne run in
        (r, n, rw run e, valid, others, is)
  ]

  -- `pop_locked` with a slab in order returns, leaves a slab in order and no other stack changed, and
  -- routes a stopped processor by, takes nothing from an empty stack, and otherwise the object on top.
  pub pop_locked-Pops :
      (r : Fast ℕ) × (n : Memory) × (pop_locked l m cpu c ≡ some (r, n))
      × IsValid l cap n
      × Others l m cpu c n
      × Pops l cap m cpu c r n
  unfolding pop_locked Others
  pop_locked-Pops = elim (Bool-cases (not (l.stopped.at cpu == 0))) [
    | inl t ↦
        let stop = is_stopped-some l cap cpu v.laid lc ∙ ap some t in
        (needs_slow, m, rw stop refl, v, (λ j d lj ld other. refl), routed stop)
    | inr f ↦
        let run = is_stopped-some l cap cpu v.laid lc ∙ ap some f in
        let (r, n, e, valid, others, is) = pop_guarded-Pops run in
        (r, n, rw run e, valid, others, is)
  ]
