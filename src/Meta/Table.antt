-- ===== src/Meta/Table.antt =====
-- `SpanTable` of toccata-core/src/meta.rs: which class and which home own each span of an arena. The
-- outer `Option` is a panic, and the inner one is the source's own.
pub mod Assign
pub mod Home
mod Tests
use Prim.Native.Nat.{bit_and}
use toccata.Base.{
  ℕ, zero, suc, ◌+◌, ◌-◌, ◌*◌, ◌/◌, ◌^◌, min, ◌&&◌, ◌||◌, Option, none, some, ltb, leb,
  if◌then◌else◌, ◌>>=◌, Bool, Slice, sys_boxed_slice, read, write, div_ceil, add_usize, sub_usize,
  as_u16,
}
use toccata.Meta.{SpanMeta, unassigned, span_bytes, assign, load}

pub record SpanTable : Type 0 where
  pub base : ℕ
  pub len : ℕ
  pub entries : Slice SpanMeta

unfoldable pub new : ℕ → ℕ → SpanTable
new base len = record {
  base = base;
  len = len;
  entries = sys_boxed_slice (div_ceil len span_bytes) (λ _. unassigned);
}

abbrev pub contains : SpanTable → ℕ → Bool
contains t addr = leb t.base addr && ltb addr (add_usize t.base t.len)

pub index_of : SpanTable → ℕ → Option ℕ
index_of t addr =
    if ltb addr t.base || leb (add_usize t.base t.len) addr
    then none
    else some (sub_usize addr t.base / 2 ^ 16)

-- `for e in &self.entries[i..i + n] { e.assign(..) }`
assign_each : Slice SpanMeta → ℕ → ℕ → SpanMeta → Option (Slice SpanMeta)
assign_each s zero i m = some s
assign_each s (suc n) i m = do s ← write s i m; assign_each s n (i + 1) m

-- The range `start..=end` panics where it starts more than one past its end.
pub assign_range : SpanTable → ℕ → ℕ → ℕ → ℕ → Option SpanTable
unfolding assign_each
assign_range t addr bytes class home_cpu = elim (index_of t addr) [
  | none ↦ some t
  | some start ↦
      let end_addr = sub_usize (add_usize addr bytes) 1 in
      let last = min (sub_usize end_addr t.base / 2 ^ 16) (sub_usize t.entries.len 1) in
      if leb start (last + 1) && ltb last t.entries.len
      then (do
        s ← assign_each t.entries (last + 1 - start) start (assign class home_cpu)
        some (record t { entries = s }))
      else none
]

pub lookup : SpanTable → ℕ → Option (Option (ℕ × ℕ))
lookup t addr = elim (index_of t addr) [
  | none ↦ some none
  | some i ↦ do m ← read t.entries i; some (load m)
]

unfoldable pub home_relaxed : SpanTable → ℕ → Option ℕ
home_relaxed t addr =
    if ltb addr t.base || leb (add_usize t.base t.len) addr then some (2 ^ 16 - 1) else (do
      m ← read t.entries (sub_usize addr t.base / 2 ^ 16)
      some (as_u16 (bit_and m.packed 65535)))
