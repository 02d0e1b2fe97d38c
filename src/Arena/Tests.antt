-- ===== src/Arena/Tests.antt =====
-- The arena of toccata-core/src/subheap.rs at concrete inputs: four spans.
use toccata.Base.{ℕ, ◌+◌, ◌*◌, ◌^◌, refl, arith, []}
use toccata.Meta.{span_bytes}
use toccata.Meta.Table.{SpanTable, new}
use toccata.Meta.Table.Home.{new-lookup}
use toccata.Arena.{BumpArena, attempt_spans, attempt_run, carve_spans}
use toccata.Arena.Race.{
  Race, outside, in_spans, in_run, move, win, Raced, fresh, next, enter_spans, enter_run,
  lose_spans, win_spans, win_run, IsSound, IsValid, Raced-IsSound,
}
use toccata.Arena.Tag.{Covers, Carves, carve_spans-Carves}

abbrev base : ℕ
base = 2 ^ 32

abbrev arena : BumpArena
arena = record { cursor = base; end = base + 4 * span_bytes; base = base }

arena-IsValid : IsValid arena
arena-IsValid = record { low = omega arith; high = omega arith; aligned = refl; fits = omega arith }

table : SpanTable
table = new base (4 * span_bytes)

table-Covers : Covers arena table
unfolding table new
table-Covers = record {
  valid = (new-lookup base (4 * span_bytes) (omega arith)).0;
  same_base = refl;
  same_end = refl;
}

carve_spans-Carves_example : Carves arena table 2 7 3 (carve_spans arena table 2 7 3)
carve_spans-Carves_example =
    carve_spans-Carves 2 7 3 arena-IsValid table-Covers (omega arith) (omega arith) (omega arith)
      (omega arith)

-- Two threads see the cursor at the base; the second one carves a large run first, so that the
-- first one's exchange fails, and it carves its two spans behind that run.
abbrev start : Race
start = record { arena = arena; threads = λ t. outside; runs = [] }

abbrev both_in : Race
both_in = move (move start 1 (in_spans 2 base)) 2 (in_run span_bytes base)

abbrev large_won : Race
large_won = win both_in 2 base (base + span_bytes)

abbrev lost : Race
lost = move large_won 1 (in_spans 2 (base + span_bytes))

abbrev both_out : Race
both_out = win lost 1 (base + span_bytes) (base + 3 * span_bytes)

race : Raced arena both_out
unfolding attempt_spans attempt_run
race =
    next
      (next
        (next
          (next (next fresh (enter_spans 1 2 (omega arith) refl))
            (enter_run 2 span_bytes (omega arith) refl refl))
          (win_run 2 span_bytes base base (base + span_bytes) refl refl refl))
        (lose_spans 1 2 base refl))
      (win_spans 1 2 (base + span_bytes) (base + 3 * span_bytes) refl refl refl)

Raced-IsSound_example : IsSound arena both_out
Raced-IsSound_example = Raced-IsSound arena-IsValid refl race
