-- ===== src/Slab/Tests.antt =====
-- Concrete slabs for the theorems about toccata-core/src/rseq/slab.rs and asm.rs beside it: the slab that
-- a frame pool lays out for two processors.
use toccata.Base.{ℕ, ◌≡◌, ◌≢◌, ◌<◌, refl, arith, true, some, max, ◌==◌, if◌then◌else◌}
use toccata.Slab.{
  SlabLayout, Memory, ClassLoc, Fast, needs_slow, set_stopped, is_stopped, push_locked, pop_locked,
}
use toccata.Slab.Stopped.{set_stopped-Stops}
use toccata.Slab.Stack.{IsValid, Others, Pushes, Pops}
use toccata.Slab.Locked.{push_locked-Pushes, pop_locked-Pops}
use toccata.Slab.Sequence.{fallback, Attempt, never, early, late, pop_section, push_section, passes}
use toccata.Slab.Rely.{
  Rely, Since, PopsSince, PushesSince, pop_passes-PopEnds, push_passes-PushEnds,
}
use toccata.Frame.{cap_per_cpu}
use toccata.Frame.Slab.{slab, headers, slab-IsValid}

abbrev two_cpus : SlabLayout
two_cpus = slab 4096 2

abbrev zeroed : Memory
zeroed = headers 4096 2

abbrev caps : ℕ → ℕ
caps _ = cap_per_cpu

second : 1 < two_cpus.num_cpus
unfolding slab
second = omega arith

only : 0 < two_cpus.classes.len
unfolding slab
only = omega arith

abbrev object : ℕ
object = 77

not_null : object ≢ 0
not_null = λ e. omega (arith, e)

push_locked-Pushes_example :
    (r : Fast (Unit {0})) × (n : Memory) × (push_locked two_cpus zeroed 1 0 object ≡ some (r, n))
    × IsValid two_cpus caps n
    × Others two_cpus zeroed 1 0 n
    × Pushes two_cpus caps zeroed 1 0 object r n
push_locked-Pushes_example = push_locked-Pushes (slab-IsValid 4096 2) second only object not_null

-- The slab with one object on the stack of the second processor.
pushed :
    (r : Fast (Unit {0})) × (n : Memory) × (push_locked two_cpus zeroed 1 0 object ≡ some (r, n))
    × IsValid two_cpus caps n
    × Others two_cpus zeroed 1 0 n
    × Pushes two_cpus caps zeroed 1 0 object r n
pushed = push_locked-Pushes (slab-IsValid 4096 2) second only object not_null

pop_locked-Pops_example :
    (r : Fast ℕ) × (n : Memory) × (pop_locked two_cpus pushed.1 1 0 ≡ some (r, n))
    × IsValid two_cpus caps n
    × Others two_cpus pushed.1 1 0 n
    × Pops two_cpus caps pushed.1 1 0 r n
pop_locked-Pops_example = pop_locked-Pops pushed.3 second only

-- Other threads keep the slab in order.
Orderly : Memory → Memory → Type 0
Orderly m n = IsValid two_cpus caps m → IsValid two_cpus caps n

orderly : Rely two_cpus caps Orderly
unfolding Orderly
orderly = record {
  keeps = λ m n r v. r v;
  trans = λ m n o r s v. s (r v);
  unseen = λ m n v u same w. u;
}

-- The first pass is interrupted, and nobody else comes between.
abbrev interrupted_once : ℕ → Attempt
interrupted_once k = record {
  cpu_id_start = 1;
  cpu_id = 1;
  interrupt = if k == 0 then early else never;
  others = λ m. m;
}

alone : (k : ℕ) (m : Memory) → IsValid two_cpus caps m → Orderly m ((interrupted_once k).others m)
unfolding Orderly
alone k m v = λ u. u

pop_passes-PopEnds_example :
    Since orderly interrupted_once alone only pushed.1
      (PopsSince orderly interrupted_once alone only passes 0 pushed.1)
pop_passes-PopEnds_example =
    pop_passes-PopEnds orderly interrupted_once alone only passes 0 pushed.1 pushed.3

-- The first pass is interrupted between its store and the commit.
abbrev interrupted_late : ℕ → Attempt
interrupted_late k = record {
  cpu_id_start = 1;
  cpu_id = 1;
  interrupt = if k == 0 then late else never;
  others = λ m. m;
}

alone_late :
    (k : ℕ) (m : Memory) → IsValid two_cpus caps m → Orderly m ((interrupted_late k).others m)
unfolding Orderly
alone_late k m v = λ u. u

push_passes-PushEnds_example :
    Since orderly interrupted_late alone_late only zeroed
      (PushesSince orderly interrupted_late alone_late only object passes 0 zeroed)
push_passes-PushEnds_example =
    push_passes-PushEnds orderly interrupted_late alone_late only object not_null passes 0 zeroed
      (slab-IsValid 4096 2)

first : 0 < two_cpus.num_cpus
unfolding slab
first = omega arith

flags : two_cpus.stopped.len ≡ max two_cpus.num_cpus 1
unfolding slab
flags = refl

abbrev own_class : ClassLoc
own_class = two_cpus.classes.at 0

set_stopped-Stops_example :
    (k : SlabLayout) × (set_stopped two_cpus 1 true ≡ some k)
    × (pop_locked k pushed.1 1 0 ≡ some (needs_slow, pushed.1))
    × (push_locked k pushed.1 1 0 object ≡ some (needs_slow, pushed.1))
    × (pop_section k own_class 1 pushed.1 ≡ (fallback, pushed.1))
    × (push_section k own_class 1 object pushed.1 ≡ (fallback, pushed.1))
    × (is_stopped k 0 ≡ is_stopped two_cpus 0)
set_stopped-Stops_example =
    set_stopped-Stops two_cpus 1 0 flags second first (λ e. omega (arith, e)) pushed.1 own_class 0
      object
