-- ===== src/Arena/Carve.antt =====
-- What one iteration of the two loops of toccata-core/src/subheap.rs computes, and a carve of spans.
use toccata.Base.{
  ℕ, ◌+◌, ◌-◌, ◌*◌, ◌/◌, ◌%◌, ◌^◌, ◌≤◌, ◌<◌, ◌≡◌, ◌≢◌, arith, min, Option, none, some, ltb,
  div_ceil, inl, inr, Bool-cases,
}
use toccata.Meta.{span_bytes}
use toccata.Arena.{BumpArena, attempt_spans, attempt_run, carve_run}

pub attempt_spans-run :
    (a : BumpArena) (num_spans start run_end : ℕ)
    → num_spans ≢ 0
    → attempt_spans a num_spans start ≡ some run_end
    → (min num_spans ((a.end - start) / span_bytes) ≢ 0)
      × (run_end ≡ start + min num_spans ((a.end - start) / span_bytes) * span_bytes)
      × (run_end ≤ a.end)
unfolding attempt_spans
attempt_spans-run a n start run_end ne e = (ground (arith, e), ground (arith, e), ground (arith, e))

pub attempt_spans-none :
    (a : BumpArena) (num_spans start : ℕ)
    → attempt_spans a num_spans start ≡ none
    → a.end < start + span_bytes
unfolding attempt_spans
attempt_spans-none a n start e = ground (arith, e)

pub attempt_run-some :
    (a : BumpArena) (run_bytes cur start run_end : ℕ)
    → a.base ≤ cur
    → attempt_run a run_bytes cur ≡ some (start, run_end)
    → (cur ≤ start)
      × (start < cur + span_bytes)
      × ((start - a.base) % span_bytes ≡ 0)
      × (run_end ≡ start + run_bytes)
      × (run_end ≤ a.end)
unfolding attempt_run
attempt_run-some a n cur start run_end l e =
    (ground (arith, e), ground (arith, e), ground (arith, e), ground (arith, e), ground (arith, e))

pub attempt_run-none :
    (a : BumpArena) (run_bytes cur : ℕ)
    → a.base ≤ cur
    → a.end < 2 ^ 64
    → attempt_run a run_bytes cur ≡ none
    → a.end < cur + span_bytes + run_bytes
unfolding attempt_run
attempt_run-none a n cur l fits e = ground (arith, e)

-- What a large carve may answer: nothing where no run fits behind the next span boundary, or else the
-- run from that boundary on, to whose end the cursor moves.
pub data Runs (a : BumpArena) (n : ℕ) : Option ℕ × BumpArena → Type 0 where
  full :
      (start : ℕ)
      → a.cursor ≤ start
      → start < a.cursor + span_bytes
      → (start - a.base) % span_bytes ≡ 0
      → a.end < start + n
      → Runs a n (none, a)
  fresh :
      (start : ℕ)
      → a.cursor ≤ start
      → start < a.cursor + span_bytes
      → (start - a.base) % span_bytes ≡ 0
      → start + n ≤ a.end
      → Runs a n (some start, record a { cursor = start + n })

-- The first span boundary at or behind the cursor.
abbrev boundary : BumpArena → ℕ
boundary a = a.base + div_ceil (a.cursor - a.base) span_bytes * span_bytes

attempt_run-full :
    (a : BumpArena) (n : ℕ) → a.end < boundary a + n → attempt_run a n a.cursor ≡ none
unfolding attempt_run
attempt_run-full a n h = ground arith

attempt_run-fresh :
    (a : BumpArena) (n : ℕ)
    → a.end < 2 ^ 64
    → boundary a + n ≤ a.end
    → attempt_run a n a.cursor ≡ some (boundary a, boundary a + n)
unfolding attempt_run
attempt_run-fresh a n fits h = ground arith

-- A large carve takes the run at the first span boundary at or behind the cursor, and answers with
-- nothing just where that run would not end inside the arena.
pub carve_run-Runs :
    (a : BumpArena) (n : ℕ)
    → a.base ≤ a.cursor
    → a.cursor ≤ a.end
    → a.end < 2 ^ 64
    → Runs a n (carve_run a n)
unfolding carve_run
carve_run-Runs a n low high fits = elim (Bool-cases (ltb a.end (boundary a + n))) [
  | inl e ↦
      let over : a.end < boundary a + n = ground (arith, e) in
      rw (carve_run, attempt_run-full a n over)
        (full (boundary a) (omega arith) (omega arith) (omega arith) over)
  | inr e ↦
      let inside : boundary a + n ≤ a.end = ground (arith, e) in
      rw (carve_run, attempt_run-fresh a n fits inside)
        (fresh (boundary a) (omega arith) (omega arith) (omega arith) inside)
]
