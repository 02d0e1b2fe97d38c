-- ===== src/Frame/Slab.antt =====
-- The processors' stacks of a pool, as `FramePool::build` of toccata-core/src/frame.rs lays them out: one
-- class, in each block the header, the lock and the slots.
use toccata.Base.{
  ℕ, zero, suc, ◌+◌, ◌-◌, ◌*◌, ◌/◌, ◌^◌, ◌<◌, ◌≡◌, ◌≢◌, refl, arith, max, sys_boxed_slice, update,
  leading_zeros, leading_zeros_of, [], ◌==◌, Bool-cases, inl, inr, subst,
}
use toccata.Base.Stacks.{stack}
use toccata.Slab.{SlabLayout, Memory, new}
use toccata.Slab.Geometry.{IsLaidOut, head, place, offset}
use toccata.Slab.Stack.{objects, IsStack, IsValid}
use toccata.Slab.Local.{gather}
use toccata.Frame.{cap_per_cpu}

-- `(x + 7) & !7`
abbrev pub align_8 : ℕ → ℕ
align_8 x = (x + 7) / 8 * 8

abbrev pub header_off : ℕ
header_off = 0

abbrev pub lock_off : ℕ
lock_off = 8

abbrev pub slots_off : ℕ
slots_off = align_8 (lock_off + 4)

abbrev pub block_bytes : ℕ
block_bytes = slots_off + cap_per_cpu * 8

pub shift : ℕ
shift = 64 - leading_zeros (max block_bytes 1 - 1)

pub slab_bytes : ℕ → ℕ
slab_bytes num_cpus = 2 ^ shift * num_cpus

unfoldable pub slab : ℕ → ℕ → SlabLayout
slab base num_cpus = new base num_cpus shift (
    sys_boxed_slice 1
      (λ _. record { header_off = header_off; slots_off = slots_off; lock_off = lock_off }))

-- The headers of the first `n` blocks, in memory that is zero.
pub headers : ℕ → ℕ → Memory
headers base zero = λ _. 0
headers base (suc n) =
    update (update (headers base n) (base + n * 2 ^ shift) 0) (base + n * 2 ^ shift + 4) cap_per_cpu

shift-eq : shift ≡ 12
unfolding shift leading_zeros leading_zeros_of
shift-eq = refl

pub slab-IsLaidOut : (base n : ℕ) → IsLaidOut (slab base n) (λ _. cap_per_cpu)
unfolding slab
slab-IsLaidOut base n = record {
  flags = refl;
  header_at = λ c h. omega (arith, h);
  lock_at = λ c h. omega (arith, h);
  slots_first = λ c h. omega arith;
  slots_apart = λ c d h k. omega (arith, h, k);
  slots_inside = λ c h. rw shift-eq (omega arith);
}

-- Everything is zero but the capacities.
headers-zero : (base n a : ℕ) → ((j : ℕ) → j < n → a ≢ base + j * 2 ^ 12 + 4) → headers base n a ≡ 0
unfolding headers
headers-zero base zero a h = refl
headers-zero base (suc n) a h =
    let rest = headers-zero base n a (λ j k. h j (omega (arith, k))) in
    rw shift-eq (ground (arith, h n (omega arith), rest))

headers-capacity : (base n j : ℕ) → j < n → headers base n (base + j * 2 ^ 12 + 4) ≡ cap_per_cpu
unfolding headers
headers-capacity base zero j h = omega (arith, h)
headers-capacity base (suc n) j h = elim (Bool-cases (j == n)) [
  | inl t ↦ let same : j ≡ n = ground (arith, t) in rw (shift-eq, same) (ground arith)
  | inr f ↦
      let other : j ≢ n = ground (arith, f) in
      let rest = headers-capacity base n j (omega (arith, h, other)) in
      let apart : base + j * 4096 + 4 ≢ base + n * 4096 = λ e. omega (arith, e) in
      rw shift-eq (ground (arith, apart, other, rest))
]

-- In every block: no object, room for `CAP_PER_CPU`, and the lock free.
head-zero : (base n cpu : ℕ) → headers base n (place (slab base n) cpu 0 head) ≡ 0
unfolding slab place offset
head-zero base n cpu = rw shift-eq (headers-zero base n _ (λ j k e. omega (arith, e)))

slab-IsStack : (base n cpu : ℕ) → cpu < n → IsStack (slab base n) cap_per_cpu (headers base n) cpu 0
unfolding slab place offset
slab-IsStack base n cpu h = record {
  unlocked = rw shift-eq (headers-zero base n _ (λ j k e. omega (arith, e)));
  room = rw shift-eq (headers-capacity base n cpu h);
  few = omega (arith, head-zero base n cpu);
  live = λ i k. absurd (omega (arith, head-zero base n cpu, k));
}

-- The slab that `build` lays out is in order and holds no object.
pub slab-IsValid : (base n : ℕ) → IsValid (slab base n) (λ _. cap_per_cpu) (headers base n)
unfolding slab
slab-IsValid base n = record {
  laid = slab-IsLaidOut base n;
  stacks = λ cpu c h k.
      subst (IsStack (slab base n) cap_per_cpu (headers base n) cpu) (omega (arith, k))
        (slab-IsStack base n cpu h);
}

pub slab-empty : (base n k : ℕ) → gather (slab base n) (headers base n) 0 k ≡ []
unfolding gather objects stack
slab-empty base n zero = refl
slab-empty base n (suc k) = rw (head-zero base n k, slab-empty base n k) refl
