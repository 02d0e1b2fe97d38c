-- ===== src/Slab.antt =====
-- toccata-core/src/rseq/slab.rs: one stack of free objects for each processor and size class, in a
-- block of memory. `Memory` gives the value that stands at an address, a `u32` or a pointer. `none`
-- is a panic, or a lock that is still spun on.
pub mod Geometry
mod Effect
pub mod Stack
pub mod Locked
pub mod Local
pub mod Sequence
mod Section
pub mod Rely
pub mod Stopped
mod Tests
use toccata.Base.{
  ℕ, zero, suc, ◌+◌, ◌-◌, ◌*◌, ◌/◌, ◌%◌, ◌^◌, min, max, Bool, true, false, not, Option, none, some,
  ltb, leb, ◌==◌, if◌then◌else◌, ◌>>=◌, ◌>>◌, Slice, read, write, update, sys_boxed_slice,
  debug_assert, as_u32,
}

abbrev pub Memory : Type 0
Memory = ℕ → ℕ

pub record ClassLoc : Type 0 where
  pub header_off : ℕ
  pub slots_off : ℕ
  pub lock_off : ℕ

pub record SlabLayout : Type 0 where
  pub base : ℕ
  pub num_cpus : ℕ
  pub shift : ℕ
  pub classes : Slice ClassLoc
  pub stopped : Slice ℕ

abbrev pub new : ℕ → ℕ → ℕ → Slice ClassLoc → SlabLayout
new base num_cpus shift classes = record {
  base = base;
  num_cpus = num_cpus;
  shift = shift;
  classes = classes;
  stopped = sys_boxed_slice (max num_cpus 1) (λ _. 0);
}

pub set_stopped : SlabLayout → ℕ → Bool → Option SlabLayout
set_stopped l cpu stopped = do
  flags ← write l.stopped (min cpu (l.stopped.len - 1)) (if stopped then 1 else 0)
  some (record l { stopped = flags })

pub is_stopped : SlabLayout → ℕ → Option Bool
is_stopped l cpu = do flag ← read l.stopped (min cpu (l.stopped.len - 1)); some (not (flag == 0))

pub block : SlabLayout → ℕ → Option ℕ
block l cpu = do debug_assert (ltb cpu l.num_cpus); some (l.base + cpu * 2 ^ l.shift)

pub header : SlabLayout → ℕ → ℕ → Option ℕ
header l cpu class = do b ← block l cpu; loc ← read l.classes class; some (b + loc.header_off)

pub slots : SlabLayout → ℕ → ℕ → Option ℕ
slots l cpu class = do b ← block l cpu; loc ← read l.classes class; some (b + loc.slots_off)

pub lock : SlabLayout → ℕ → ℕ → Option ℕ
lock l cpu class = do b ← block l cpu; loc ← read l.classes class; some (b + loc.lock_off)

pub header_mut : SlabLayout → ℕ → ℕ → Option ℕ
header_mut l cpu class = header l cpu class

pub slot_ptr : SlabLayout → ℕ → ℕ → ℕ → Option ℕ
slot_ptr l cpu class i = do s ← slots l cpu class; some (s + i * 8)

pub data Fast {ℓ} (A : Type ℓ) : Type ℓ where
  ok : A → Fast A
  needs_slow : Fast A

-- The lock word: `acquire` is the exchange that ends the loop, and the guard's drop stores 0.
pub acquire : Memory → ℕ → Option Memory
acquire m a = if m a == 0 then some (update m a 1) else none

pub release : Memory → ℕ → Memory
release m a = update m a 0

-- What a thread reads of its processor: the number of the restartable sequence, where the thread
-- is registered, and the address of its thread-local anchor.
pub record Thread : Type 0 where
  pub current_cpu : Option ℕ
  pub anchor : ℕ

pub fallback_shard : Thread → ℕ → ℕ
fallback_shard t num_cpus = as_u32 (t.anchor / 2 ^ 6) % max num_cpus 1

pub current : Thread → SlabLayout → ℕ
current t l = elim t.current_cpu [
  | none ↦ fallback_shard t l.num_cpus
  | some c ↦ if ltb c l.num_cpus then c else fallback_shard t l.num_cpus
]

abbrev pub u32_max : ℕ
u32_max = 2 ^ 32 - 1

-- A stack is bound to a processor, or to the sentinel of `current_fast`.
abbrev pub current_fast : ℕ
current_fast = u32_max

pub resolved_cpu : Thread → SlabLayout → ℕ → ℕ
resolved_cpu t l cpu = if cpu == u32_max then current t l else cpu

-- The body of `pop_locked` and `push_locked` between the lock and its release.
pub pop_held : Memory → ℕ → ℕ → Fast ℕ × Memory
pop_held m hdr slots =
    if m hdr == 0
    then (needs_slow, m)
    else let obj = m (slots + (m hdr - 1) * 8) in
      (if obj == 0 then needs_slow else ok obj, update m hdr (m hdr - 1))

pub push_held : Memory → ℕ → ℕ → ℕ → Fast (Unit {0}) × Memory
push_held m hdr slots obj =
    if leb (m (hdr + 4)) (m hdr)
    then (needs_slow, m)
    else (ok tt, update (update m (slots + m hdr * 8) obj) hdr (m hdr + 1))

-- The part of `pop_locked` in which the lock is held.
pub pop_guarded : SlabLayout → Memory → ℕ → ℕ → Option (Fast ℕ × Memory)
pop_guarded l m cpu class = do
  a ← lock l cpu class
  held ← acquire m a
  hdr ← header l cpu class
  s ← slots l cpu class
  let r = pop_held held hdr s
  some (r.0, release r.1 a)

pub pop_locked : SlabLayout → Memory → ℕ → ℕ → Option (Fast ℕ × Memory)
pop_locked l m cpu class = do
  stop ← is_stopped l cpu
  if stop then some (needs_slow, m) else pop_guarded l m cpu class

-- The part of `push_locked` in which the lock is held.
pub push_guarded : SlabLayout → Memory → ℕ → ℕ → ℕ → Option (Fast (Unit {0}) × Memory)
push_guarded l m cpu class obj = do
  a ← lock l cpu class
  held ← acquire m a
  hdr ← header l cpu class
  s ← slots l cpu class
  let r = push_held held hdr s obj
  some (r.0, release r.1 a)

pub push_locked : SlabLayout → Memory → ℕ → ℕ → ℕ → Option (Fast (Unit {0}) × Memory)
push_locked l m cpu class obj = do
  stop ← is_stopped l cpu
  if stop then some (needs_slow, m) else push_guarded l m cpu class obj
