-- ===== src/Slab/Local.antt =====
-- The stacks of toccata-core/src/rseq/slab.rs as the pools use them: a thread that takes the locked path on
-- one processor, for one class.
use toccata.Base.{
  ℕ, zero, suc, ◌+◌, ◌≤◌, ◌<◌, ◌≡◌, ◌≢◌, ◌⊎◌, inl, inr, refl, sym, ap, arith, Bool, true, false,
  Option, none, some, List, [], ◌++◌, Bool-cases, ◌==◌,
}
use toccata.Base.Totals.{total, total-append, total-cons}
use toccata.Base.LocalStack.{LocalStack, Takes, took, refused, Gives, given, full}
use toccata.Slab.{SlabLayout, Memory, Fast, ok, needs_slow}
use toccata.Slab.Stack.{objects, IsValid, Others, Pushes, Pops, routed, full, pushed, empty, popped}
use toccata.Slab.Locked.{push_locked-Pushes, pop_locked-Pops}

-- The objects of a class in the stacks of the first `n` processors.
unfoldable pub gather : SlabLayout → Memory → ℕ → ℕ → List ℕ
gather l m c zero = []
gather l m c (suc n) = objects l m n c ++ gather l m c n

module _ (l : SlabLayout) (m n : Memory) {c : ℕ} (cc : c < l.classes.len) {cpu : ℕ}
    (others : Others l m cpu c n) (w : ℕ → ℕ) where
  gather-below :
      (k : ℕ) → k ≤ cpu → k ≤ l.num_cpus → total w (gather l n c k) ≡ total w (gather l m c k)
  unfolding gather Others
  gather-below zero h b = refl
  gather-below (suc k) h b =
      let same = others k c (omega (arith, b)) cc (λ e _. omega (arith, e, h)) in
      omega (
        arith,
        total-append w (objects l n k c) (gather l n c k),
        total-append w (objects l m k c) (gather l m c k),
        ap (total w) same,
        gather-below k (omega (arith, h)) (omega (arith, b)),
      )

  -- What all the stacks weigh changes by what one stack does.
  gather-changes :
      (k : ℕ)
      → cpu < k
      → k ≤ l.num_cpus
      → total w (gather l n c k) + total w (objects l m cpu c)
        ≡ total w (gather l m c k) + total w (objects l n cpu c)
  unfolding gather Others
  gather-changes zero h b = omega (arith, h)
  gather-changes (suc k) h b =
      let here = total-append w (objects l n k c) (gather l n c k) in
      let there = total-append w (objects l m k c) (gather l m c k) in
      elim (Bool-cases (k == cpu)) [
        | inl t ↦
            let same : k ≡ cpu = ground (arith, t) in
            let rest = gather-below k (omega (arith, same)) (omega (arith, b)) in
            omega (
              arith,
              here,
              there,
              rest,
              ap (λ x. total w (objects l n x c)) same,
              ap (λ x. total w (objects l m x c)) same,
            )
        | inr f ↦
            let other : k ≢ cpu = ground (arith, f) in
            let same = others k c (omega (arith, b)) cc (λ e _. other (sym e)) in
            let rest = gather-changes k (omega (arith, h, other)) (omega (arith, b)) in
            omega (arith, here, there, rest, ap (total w) same)
      ]

module _ (l : SlabLayout) (cap : ℕ → ℕ) (cpu c : ℕ) (lc : cpu < l.num_cpus)
    (cc : c < l.classes.len) where
  abbrev pub State : Type 0
  State = (m : Memory) × IsValid l cap m

  unfoldable pub all_objects : State → List ℕ
  all_objects s = gather l s.0 c l.num_cpus

  fast : Fast ℕ → Option ℕ
  fast (ok p) = some p
  fast needs_slow = none

  done : Fast (Unit {0}) → Bool
  done (ok tt) = true
  done needs_slow = false

  pop_takes :
      (m n : Memory) (v : IsValid l cap m) (u : IsValid l cap n)
      → Others l m cpu c n
      → {r : Fast ℕ} → Pops l cap m cpu c r n
      → Takes all_objects (m, v) (fast r) (n, u)
  unfolding all_objects fast
  pop_takes m n v u others (routed e) = refused (λ w. refl)
  pop_takes m n v u others (empty e before after) = refused (λ w. omega (
    arith,
    gather-changes l m n cc others w l.num_cpus lc (omega arith),
    ap (total w) before,
    ap (total w) after,
  ))
  pop_takes m n v u others (popped {p = p} e top) = took (λ w. omega (
    arith,
    gather-changes l m n cc others w l.num_cpus lc (omega arith),
    ap (total w) top,
    total-cons w p (objects l n cpu c),
  ))

  push_gives :
      (p : ℕ) (m n : Memory) (v : IsValid l cap m) (u : IsValid l cap n)
      → Others l m cpu c n
      → {r : Fast (Unit {0})} → Pushes l cap m cpu c p r n
      → Gives all_objects (m, v) p (done r) (n, u)
  unfolding all_objects done
  push_gives p m n v u others (routed e) = full (λ w. refl)
  push_gives p m n v u others (full e most same) = full (λ w.
      omega
        (arith, gather-changes l m n cc others w l.num_cpus lc (omega arith), ap (total w) same))
  push_gives p m n v u others (pushed e room top) = given (λ w. omega (
    arith,
    gather-changes l m n cc others w l.num_cpus lc (omega arith),
    ap (total w) top,
    total-cons w p (objects l m cpu c),
  ))

  pub pop_one : State → Option ℕ × State
  pop_one (m, v) = let (r, n, e, u, others, pops) = pop_locked-Pops v lc cc in (fast r, (n, u))

  -- An object is not null.
  push_case : State → (p : ℕ) → ((p == 0) ≡ true) ⊎ ((p == 0) ≡ false) → Bool × State
  push_case (m, v) p (inl t) = (false, (m, v))
  push_case (m, v) p (inr f) =
      let (r, n, e, u, others, pushes) = push_locked-Pushes v lc cc p (ground (arith, f)) in
      (done r, (n, u))

  pub push_one : State → ℕ → Bool × State
  push_one s p = push_case s p (Bool-cases (p == 0))

  pub pop_one-Takes : (s : State) → Takes all_objects s (pop_one s).0 (pop_one s).1
  unfolding pop_one
  pop_one-Takes (m, v) =
      let (r, n, e, u, others, pops) = pop_locked-Pops v lc cc in pop_takes m n v u others pops

  push_case-Gives :
      (s : State) (p : ℕ) (e : ((p == 0) ≡ true) ⊎ ((p == 0) ≡ false))
      → Gives all_objects s p (push_case s p e).0 (push_case s p e).1
  unfolding push_case
  push_case-Gives (m, v) p (inl t) = full (λ w. refl)
  push_case-Gives (m, v) p (inr f) =
      let (r, n, e, u, others, pushes) = push_locked-Pushes v lc cc p (ground (arith, f)) in
      push_gives p m n v u others pushes

  pub push_one-Gives : (s : State) (p : ℕ) → Gives all_objects s p (push_one s p).0 (push_one s p).1
  unfolding push_one
  push_one-Gives s p = push_case-Gives s p (Bool-cases (p == 0))

  -- The locked stack of the processor `cpu`.
  unfoldable pub locked_stack : LocalStack State
  locked_stack = record {
    pop = pop_one;
    push = push_one;
    contents = all_objects;
    pop-Takes = pop_one-Takes;
    push-Gives = push_one-Gives;
  }
