-- ===== src/Slab/Sequence.antt =====
-- The restartable sequences of toccata-core/src/rseq/asm.rs and the operations of
-- toccata-core/src/rseq/slab.rs that try them first. `Attempt` is what a thread meets in one pass through
-- the critical section; a pass that is interrupted starts over, after `others` have run.
use toccata.Base.{
  ℕ, zero, suc, ◌+◌, ◌-◌, ◌*◌, ◌^◌, Bool, true, false, not, ◌||◌, Option, some, leb, ◌==◌,
  if◌then◌else◌, ◌>>=◌, read, update,
}
use toccata.Slab.{
  Memory, ClassLoc, SlabLayout, Thread, Fast, ok, needs_slow, resolved_cpu, pop_locked, push_locked,
}

pub data RseqResult {ℓ} (A : Type ℓ) : Type ℓ where
  committed : A → ℕ → RseqResult A
  slow : RseqResult A
  fallback : RseqResult A

-- Where the kernel interrupts a pass: nowhere, before it stores, or between its store and the commit.
pub data Interrupt : Type 0 where
  never : Interrupt
  early : Interrupt
  late : Interrupt

pub record Attempt : Type 0 where
  pub cpu_id_start : ℕ
  pub cpu_id : ℕ
  pub interrupt : Interrupt
  pub others : Memory → Memory

-- The flag of a processor, read without a bound.
unfoldable pub seized : SlabLayout → ℕ → Bool
seized l cpu = not (l.stopped.at cpu == 0)

unfoldable pub header_at : SlabLayout → ClassLoc → ℕ → ℕ
header_at l loc cpu = l.base + cpu * 2 ^ l.shift + loc.header_off

unfoldable pub slot_at : SlabLayout → ClassLoc → ℕ → ℕ → ℕ
slot_at l loc cpu i = l.base + cpu * 2 ^ l.shift + loc.slots_off + i * 8

-- A pass from the check of the stop flag to its end, not interrupted.
unfoldable pub pop_section : SlabLayout → ClassLoc → ℕ → Memory → RseqResult ℕ × Memory
pop_section l loc cpu m =
    let hdr = header_at l loc cpu in
    if seized l cpu
    then (fallback, m)
    else if m hdr == 0
    then (slow, m)
    else (committed (m (slot_at l loc cpu (m hdr - 1))) cpu, update m hdr (m hdr - 1))

unfoldable pub is_full : SlabLayout → ClassLoc → ℕ → Memory → Bool
is_full l loc cpu m = let hdr = header_at l loc cpu in leb (m (hdr + 4)) (m hdr)

-- The store of the object above the top, which the commit makes part of the stack.
unfoldable pub scratch : SlabLayout → ClassLoc → ℕ → ℕ → Memory → Memory
scratch l loc cpu obj m = update m (slot_at l loc cpu (m (header_at l loc cpu))) obj

unfoldable pub push_section :
    SlabLayout → ClassLoc → ℕ → ℕ → Memory → RseqResult (Unit {0}) × Memory
push_section l loc cpu obj m =
    let hdr = header_at l loc cpu in
    if seized l cpu
    then (fallback, m)
    else if is_full l loc cpu m
    then (slow, m)
    else (committed tt cpu, update (scratch l loc cpu obj m) hdr (m hdr + 1))

-- The memory that a pass leaves which is interrupted.
unfoldable pub cut_off : SlabLayout → ClassLoc → ℕ → ℕ → Interrupt → Memory → Memory
cut_off l loc cpu obj never m = m
cut_off l loc cpu obj early m = m
cut_off l loc cpu obj late m =
    if seized l cpu || is_full l loc cpu m then m else scratch l loc cpu obj m

abbrev pub completes : Interrupt → Bool
completes never = true
completes early = false
completes late = false

-- The passes of `pop` and `push`, `n` of them at most, the attempts numbered from `k`.
unfoldable pub pop_passes :
    SlabLayout → ClassLoc → (ℕ → Attempt) → ℕ → ℕ → Memory → RseqResult ℕ × Memory
pop_passes l loc env zero k m = (fallback, m)
pop_passes l loc env (suc n) k m =
    let a = env k in
    let again = pop_passes l loc env n (k + 1) (a.others m) in
    if leb l.num_cpus a.cpu_id_start
    then (fallback, m)
    else if not (a.cpu_id_start == a.cpu_id)
    then again
    else if completes a.interrupt
    then pop_section l loc a.cpu_id m
    else again

unfoldable pub push_passes :
    SlabLayout → ClassLoc → ℕ → (ℕ → Attempt) → ℕ → ℕ → Memory → RseqResult (Unit {0}) × Memory
push_passes l loc obj env zero k m = (fallback, m)
push_passes l loc obj env (suc n) k m =
    let a = env k in
    let again = push_passes l loc obj env n (k + 1) (a.others m) in
    let cut =
      push_passes l loc obj env n (k + 1) (a.others (cut_off l loc a.cpu_id obj a.interrupt m)) in
    if leb l.num_cpus a.cpu_id_start
    then (fallback, m)
    else if not (a.cpu_id_start == a.cpu_id)
    then again
    else if completes a.interrupt
    then push_section l loc a.cpu_id obj m
    else cut

-- `loops` starts at 5 and a pass begins while it is not 0 after it is counted down.
abbrev pub passes : ℕ
passes = 4

-- A null pointer in a live slot is taken for an empty stack.
abbrev pub non_null : ℕ → Fast ℕ
non_null p = if p == 0 then needs_slow else ok p

-- `pop_on` and `push_on`, with the processor that the caller charges, the memory last.
unfoldable pub pop_on :
    SlabLayout → Thread → (ℕ → Attempt) → Memory → ℕ → ℕ → Option (Fast ℕ × ℕ × Memory)
pop_on l t env m cpu class = do
  loc ← read l.classes class
  let (r, n) = pop_passes l loc env passes 0 m
  elim r [
    | committed p on ↦ some (non_null p, on, n)
    | slow ↦ some (needs_slow, resolved_cpu t l cpu, n)
    | fallback ↦ do
      (q, n) ← pop_locked l n (resolved_cpu t l cpu) class
      some (q, resolved_cpu t l cpu, n)
  ]

unfoldable pub push_on :
    SlabLayout → Thread → (ℕ → Attempt) → Memory → ℕ → ℕ → ℕ → Option (Fast (Unit {0}) × ℕ × Memory)
push_on l t env m cpu class obj = do
  loc ← read l.classes class
  let (r, n) = push_passes l loc obj env passes 0 m
  elim r [
    | committed p on ↦ some (ok tt, on, n)
    | slow ↦ some (needs_slow, resolved_cpu t l cpu, n)
    | fallback ↦ do
      (q, n) ← push_locked l n (resolved_cpu t l cpu) class obj
      some (q, resolved_cpu t l cpu, n)
  ]

-- `pop` and `push`: the same without the processor.
unfoldable pub pop : SlabLayout → Thread → (ℕ → Attempt) → Memory → ℕ → ℕ → Option (Fast ℕ × Memory)
pop l t env m cpu class = do
  loc ← read l.classes class
  let (r, n) = pop_passes l loc env passes 0 m
  elim r [
    | committed p on ↦ some (non_null p, n)
    | slow ↦ some (needs_slow, n)
    | fallback ↦ pop_locked l n (resolved_cpu t l cpu) class
  ]

unfoldable pub push :
    SlabLayout → Thread → (ℕ → Attempt) → Memory → ℕ → ℕ → ℕ → Option (Fast (Unit {0}) × Memory)
push l t env m cpu class obj = do
  loc ← read l.classes class
  let (r, n) = push_passes l loc obj env passes 0 m
  elim r [
    | committed p on ↦ some (ok tt, n)
    | slow ↦ some (needs_slow, n)
    | fallback ↦ push_locked l n (resolved_cpu t l cpu) class obj
  ]
