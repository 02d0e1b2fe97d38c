-- ===== src/Slab/Rely.antt =====
-- What `pop` and `push` of toccata-core/src/rseq/asm.rs return and leave behind while other threads
-- change the memory between the passes.
use toccata.Base.{
  ℕ, zero, suc, ◌+◌, ◌<◌, ◌≡◌, ◌≢◌, inl, inr, refl, arith, not, leb, ◌==◌, Bool-cases,
}
use toccata.Slab.{Memory, SlabLayout}
use toccata.Slab.Stack.{objects, IsValid}
use toccata.Slab.Sequence.{
  RseqResult, fallback, Attempt, completes, cut_off, pop_passes, push_passes,
}
use toccata.Slab.Section.{
  PopEnds, PushEnds, bailed, pop_section-PopEnds, push_section-PushEnds, cut_off-unseen,
}

-- What other threads may do: keep the slab in order. A change that no stack shows is one of them.
pub record Rely (l : SlabLayout) (cap : ℕ → ℕ) (R : Memory → Memory → Type 0) : Type 0 where
  pub keeps : (m n : Memory) → R m n → IsValid l cap m → IsValid l cap n
  pub trans : (m n o : Memory) → R m n → R n o → R m o
  pub unseen :
      (m n : Memory)
      → IsValid l cap m
      → IsValid l cap n
      → ((j d : ℕ) → j < l.num_cpus → d < l.classes.len → objects l n j d ≡ objects l m j d)
      → R m n

module _ {l : SlabLayout} {cap : ℕ → ℕ} {R : Memory → Memory → Type 0} (rely : Rely l cap R)
    (env : ℕ → Attempt) (fair : (k : ℕ) (m : Memory) → IsValid l cap m → R m ((env k).others m))
    {c : ℕ} (cc : c < l.classes.len) where
  stays : (m : Memory) → IsValid l cap m → R m m
  stays m v = rely.unseen m m v v (λ j d lj ld. refl)

  -- A memory that the others have reached from `m`, of which `Ends` holds.
  pub Since : Memory → (Memory → Type 0) → Type 0
  Since m Ends = (at_once : Memory) × R m at_once × IsValid l cap at_once × Ends at_once

  sooner : (m n : Memory) (Ends : Memory → Type 0) → R m n → Since n Ends → Since m Ends
  unfolding Since
  sooner m n Ends r (o, s, v, e) = (o, rely.trans m n o r s, v, e)

  at_first : (m : Memory) (Ends : Memory → Type 0) → IsValid l cap m → Ends m → Since m Ends
  unfolding Since
  at_first m Ends v e = (m, stays m v, v, e)

  abbrev pub pop_run : ℕ → ℕ → Memory → RseqResult ℕ × Memory
  pop_run n k m = pop_passes l (l.classes.at c) env n k m

  abbrev pub push_run : ℕ → ℕ → ℕ → Memory → RseqResult (Unit {0}) × Memory
  push_run p n k m = push_passes l (l.classes.at c) p env n k m

  abbrev pub PopsSince : ℕ → ℕ → Memory → Memory → Type 0
  PopsSince n k m o = PopEnds l cap c o (pop_run n k m).0 (pop_run n k m).1

  abbrev pub PushesSince : ℕ → ℕ → ℕ → Memory → Memory → Type 0
  PushesSince p n k m o = PushEnds l cap c p o (push_run p n k m).0 (push_run p n k m).1

  -- However often its passes are cut off, and whatever orderly changes other threads make between
  -- them, `pop` of asm.rs on a slab in order ends as if it had run at once, in a memory that the others
  -- have reached from the first: it has taken the object on top of a stack that is not stopped, or
  -- found a stack empty, or given up with no change.
  pub pop_passes-PopEnds : (n k : ℕ) (m : Memory) → IsValid l cap m → Since m (PopsSince n k m)
  unfolding pop_passes Since
  pop_passes-PopEnds zero k m v = at_first m (PopsSince zero k m) v bailed
  pop_passes-PopEnds (suc n) k m v =
      let next = (env k).others m in
      let later = pop_passes-PopEnds n (k + 1) next (rely.keeps m next (fair k m v) v) in
      let again = sooner m next (PopsSince n (k + 1) next) (fair k m v) later in
      elim (Bool-cases (leb l.num_cpus (env k).cpu_id_start)) [
        | inl t ↦ rw t (at_first m (λ o. PopEnds l cap c o fallback m) v bailed)
        | inr f ↦ elim (Bool-cases (not ((env k).cpu_id_start == (env k).cpu_id))) [
          | inl t ↦ rw (f, t) again
          | inr g ↦ elim (Bool-cases (completes (env k).interrupt)) [
            | inl t ↦
                let lc : (env k).cpu_id < l.num_cpus = ground (arith, f, g) in
                rw (f, g, t)
                  (at_first m (λ o. PopEnds l cap c o _ _) v (pop_section-PopEnds v lc cc))
            | inr h ↦ rw (f, g, h) again
          ]
        ]
      ]

  -- `push` of asm.rs of an object that is not null ends in the same way: it has put the object on top
  -- of a stack that is not stopped, or found a stack full, or given up. A store above the top whose
  -- pass is cut off before the commit counts as no change: no stack shows it.
  pub push_passes-PushEnds :
      (p : ℕ) → p ≢ 0 → (n k : ℕ) (m : Memory) → IsValid l cap m → Since m (PushesSince p n k m)
  unfolding push_passes Since
  push_passes-PushEnds p ne zero k m v = at_first m (PushesSince p zero k m) v bailed
  push_passes-PushEnds p ne (suc n) k m v =
      let next = (env k).others m in
      let later = push_passes-PushEnds p ne n (k + 1) next (rely.keeps m next (fair k m v) v) in
      let again = sooner m next (PushesSince p n (k + 1) next) (fair k m v) later in
      let cut = cut_off l (l.classes.at c) (env k).cpu_id p (env k).interrupt m in
      elim (Bool-cases (leb l.num_cpus (env k).cpu_id_start)) [
        | inl t ↦ rw t (at_first m (λ o. PushEnds l cap c p o fallback m) v bailed)
        | inr f ↦ elim (Bool-cases (not ((env k).cpu_id_start == (env k).cpu_id))) [
          | inl t ↦ rw (f, t) again
          | inr g ↦
              let lc : (env k).cpu_id < l.num_cpus = ground (arith, f, g) in
              elim (Bool-cases (completes (env k).interrupt)) [
                | inl t ↦
                    rw (f, g, t)
                      (at_first m (λ o. PushEnds l cap c p o _ _) v
                        (push_section-PushEnds v lc cc p ne))
                | inr h ↦
                    let (w, same) = cut_off-unseen v lc cc p (env k).interrupt in
                    let goes =
                      rely.trans m cut ((env k).others cut) (rely.unseen m cut v w same)
                        (fair k cut w) in
                    let rest =
                      push_passes-PushEnds p ne n (k + 1) ((env k).others cut)
                        (rely.keeps m _ goes v) in
                    rw (f, g, h)
                      (sooner m _ (PushesSince p n (k + 1) ((env k).others cut)) goes rest)
              ]
        ]
      ]
