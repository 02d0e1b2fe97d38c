-- ===== src/Arena.antt =====
-- `BumpArena` of toccata-core/src/subheap.rs: the cursor over the object arena. Addresses are `usize`;
-- the one sum that the source checks for overflow is checked here. `attempt_spans` and `attempt_run`
-- are the bodies of the two compare-and-swap loops, from the load to the exchange.
pub mod Carve
pub mod Race
pub mod Tag
mod Tests
use toccata.Base.{
  ℕ, ◌+◌, ◌-◌, ◌*◌, ◌/◌, ◌^◌, min, Option, none, some, ltb, leb, ◌==◌, if◌then◌else◌, ◌>>=◌,
  div_ceil,
}
use toccata.Meta.{span_bytes}
use toccata.Meta.Table.{SpanTable, assign_range}

pub record BumpArena : Type 0 where
  pub cursor : ℕ
  pub end : ℕ
  pub base : ℕ

-- `self.end.saturating_sub(start) / span_bytes`
abbrev pub avail_spans : BumpArena → ℕ → ℕ
avail_spans a start = (a.end - start) / span_bytes

-- The end of the run that starts at the cursor value `start`, where a whole span is left.
pub attempt_spans : BumpArena → ℕ → ℕ → Option ℕ
attempt_spans a num_spans start =
    if avail_spans a start == 0
    then none
    else some (start + min num_spans (avail_spans a start) * span_bytes)

-- The run of `run_bytes` from the first span boundary at or behind the cursor value `cur`.
pub attempt_run : BumpArena → ℕ → ℕ → Option (ℕ × ℕ)
attempt_run a run_bytes cur =
    let start = a.base + div_ceil (cur - a.base) span_bytes * span_bytes in
    if leb (2 ^ 64) (start + run_bytes)
    then none
    else if ltb a.end (start + run_bytes)
    then none
    else some (start, start + run_bytes)

-- `carve_spans` and `carve_run` where the first exchange succeeds. `carve_run` is for sizes of whole spans,
-- which the source asserts in debug builds.
pub carve_spans : BumpArena → SpanTable → ℕ → ℕ → ℕ → Option ((ℕ × ℕ) × BumpArena × SpanTable)
carve_spans a spans num_spans class home_cpu = elim (attempt_spans a num_spans a.cursor) [
  | none ↦ some ((a.cursor, a.cursor), a, spans)
  | some run_end ↦ do
    spans ← assign_range spans a.cursor (run_end - a.cursor) class home_cpu
    some ((a.cursor, run_end), record a { cursor = run_end }, spans)
]

pub carve_run : BumpArena → ℕ → Option ℕ × BumpArena
carve_run a run_bytes = elim (attempt_run a run_bytes a.cursor) [
  | none ↦ (none, a)
  | some (start, run_end) ↦ (some start, record a { cursor = run_end })
]

-- `self.cursor.saturating_sub(self.end - budget)`
pub carved_bytes : BumpArena → ℕ → ℕ
carved_bytes a budget = a.cursor - (a.end - budget)
