-- ===== src/Frame/Central.antt =====
-- `Central` of toccata-core/src/frame.rs: the bounded stack behind its lock, of all free frames that no
-- processor's stack holds.
use toccata.Base.{
  ℕ, ◌+◌, ◌-◌, Option, none, some, List, ltb, ◌==◌, if◌then◌else◌, ◌>>=◌, ◌>>◌, Slice,
  sys_boxed_slice, read, write, debug_assert,
}
use toccata.Base.Stacks.{stack}

pub record Central : Type 0 where
  pub slots : Slice ℕ
  pub top : ℕ

abbrev pub new : ℕ → Central
new n_frames = record { slots = sys_boxed_slice n_frames (λ _. 0); top = 0 }

unfoldable pub push : Central → ℕ → Option Central
push c p = do
  debug_assert (ltb c.top c.slots.len)
  s ← write c.slots c.top p
  some (record { slots = s; top = c.top + 1 })

unfoldable pub pop : Central → Option (Option ℕ × Central)
pop c =
    if c.top == 0
    then some (none, c)
    else (do p ← read c.slots (c.top - 1); some (some p, record c { top = c.top - 1 }))

abbrev pub contents : Central → List ℕ
contents c = stack c.top c.slots.at
