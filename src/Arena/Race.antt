-- ===== src/Arena/Race.antt =====
-- Threads that race for the cursor of the arena of toccata-core/src/subheap.rs. Each is in one of the
-- two compare-and-swap loops; an exchange succeeds only where the cursor still has the value that the
-- thread computed its run from, and a weak exchange may fail at any time.
use toccata.Base.{
  ℕ, ◌-◌, ◌%◌, ◌^◌, ◌≤◌, ◌<◌, ◌≡◌, ◌≢◌, ◌⊎◌, refl, sym, arith, none, some, ◌==◌, List, [], ◌∷◌, All,
  update, inl, inr, Bool-cases,
}
use toccata.Meta.{span_bytes}
use toccata.Arena.{BumpArena, attempt_spans, attempt_run}
use toccata.Arena.Carve.{attempt_spans-run, attempt_run-some}

-- Where a thread is: outside, or in a loop with the value that it has seen last.
pub data Thread : Type 0 where
  outside : Thread
  in_spans : ℕ → ℕ → Thread
  in_run : ℕ → ℕ → Thread

-- The arena, its threads, and the runs that have been handed out, the last one first.
pub record Race : Type 0 where
  pub arena : BumpArena
  pub threads : ℕ → Thread
  pub runs : List (ℕ × ℕ)

abbrev pub move : Race → ℕ → Thread → Race
move r t th = record r { threads = update r.threads t th }

-- Thread `t` hands out `[start, end)` and leaves the cursor at its end.
abbrev pub win : Race → ℕ → ℕ → ℕ → Race
win r t start run_end = record {
  arena = record r.arena { cursor = run_end };
  threads = update r.threads t outside;
  runs = (start, run_end) ∷ r.runs;
}

pub data Step : Race → Race → Type 0 where
  enter_spans :
      {r : Race} (t num_spans : ℕ)
      → num_spans ≢ 0
      → r.threads t ≡ outside
      → Step r (move r t (in_spans num_spans r.arena.cursor))
  enter_run :
      {r : Race} (t run_bytes : ℕ)
      → run_bytes ≢ 0
      → run_bytes % span_bytes ≡ 0
      → r.threads t ≡ outside
      → Step r (move r t (in_run run_bytes r.arena.cursor))
  drained_spans :
      {r : Race} (t num_spans start : ℕ)
      → r.threads t ≡ in_spans num_spans start
      → attempt_spans r.arena num_spans start ≡ none
      → Step r (move r t outside)
  drained_run :
      {r : Race} (t run_bytes cur : ℕ)
      → r.threads t ≡ in_run run_bytes cur
      → attempt_run r.arena run_bytes cur ≡ none
      → Step r (move r t outside)
  lose_spans :
      {r : Race} (t num_spans start : ℕ)
      → r.threads t ≡ in_spans num_spans start
      → Step r (move r t (in_spans num_spans r.arena.cursor))
  lose_run :
      {r : Race} (t run_bytes cur : ℕ)
      → r.threads t ≡ in_run run_bytes cur
      → Step r (move r t (in_run run_bytes r.arena.cursor))
  win_spans :
      {r : Race} (t num_spans start run_end : ℕ)
      → r.threads t ≡ in_spans num_spans start
      → attempt_spans r.arena num_spans start ≡ some run_end
      → r.arena.cursor ≡ start
      → Step r (win r t start run_end)
  win_run :
      {r : Race} (t run_bytes cur start run_end : ℕ)
      → r.threads t ≡ in_run run_bytes cur
      → attempt_run r.arena run_bytes cur ≡ some (start, run_end)
      → r.arena.cursor ≡ cur
      → Step r (win r t start run_end)

pub data Raced (a : BumpArena) : Race → Type 0 where
  fresh : Raced a (record { arena = a; threads = λ t. outside; runs = [] })
  next : {r s : Race} → Raced a r → Step r s → Raced a s

-- The run is not empty, lies in the arena up to `top`, and starts and ends on the span grid.
abbrev pub OnGrid : BumpArena → ℕ → ℕ × ℕ → Type 0
OnGrid a top (start, run_end) =
    (start < run_end)
    × (a.base ≤ start)
    × (run_end ≤ top)
    × ((start - a.base) % span_bytes ≡ 0)
    × ((run_end - a.base) % span_bytes ≡ 0)

-- No two of the runs overlap.
abbrev pub AllDisjoint : List (ℕ × ℕ) → Type 0
AllDisjoint [] = Unit
AllDisjoint (x ∷ xs) = All (λ y. (x.1 ≤ y.0) ⊎ (y.1 ≤ x.0)) xs × AllDisjoint xs

abbrev pub IsAsked : Thread → Type 0
IsAsked outside = Unit
IsAsked (in_spans n seen) = n ≢ 0
IsAsked (in_run n seen) = (n ≢ 0) × (n % span_bytes ≡ 0)

pub record IsSound (a : BumpArena) (r : Race) : Type 0 where
  pub same_base : r.arena.base ≡ a.base
  pub same_end : r.arena.end ≡ a.end
  pub low : a.base ≤ r.arena.cursor
  pub high : r.arena.cursor ≤ a.end
  pub aligned : (r.arena.cursor - a.base) % span_bytes ≡ 0
  pub grid : All (OnGrid a r.arena.cursor) r.runs
  pub apart : AllDisjoint r.runs
  pub asked : (t : ℕ) → IsAsked (r.threads t)

IsAsked-update :
    (threads : ℕ → Thread) (t : ℕ) (th : Thread)
    → IsAsked th
    → ((k : ℕ) → IsAsked (threads k))
    → (k : ℕ) → IsAsked (update threads t th k)
IsAsked-update threads t th own all k = elim (Bool-cases (k == t)) [
  | inl e ↦ rw e own
  | inr e ↦ rw e (all k)
]

-- The arena is empty or carved up to a span boundary.
pub record IsValid (a : BumpArena) : Type 0 where
  pub low : a.base ≤ a.cursor
  pub high : a.cursor ≤ a.end
  pub aligned : (a.cursor - a.base) % span_bytes ≡ 0
  pub fits : a.end < 2 ^ 64

-- A run that starts at or behind the cursor is apart from all that lie before it.
grid_grown :
    (a : BumpArena) (top start run_end : ℕ) (xs : List (ℕ × ℕ))
    → top ≤ start
    → start < run_end
    → All (OnGrid a top) xs
    → All (OnGrid a run_end) xs × All (λ y. (run_end ≤ y.0) ⊎ (y.1 ≤ start)) xs
grid_grown a top start run_end [] l u h = (tt, tt)
grid_grown a top start run_end (x ∷ xs) l u ((pos, low, high, s, e), h) =
    let (g, apart) = grid_grown a top start run_end xs l u h in
    (((pos, low, omega arith, s, e), g), (inr (omega arith), apart))

module _ {a : BumpArena} {r : Race} (i : IsSound a r) (t : ℕ) where
  moved : (th : Thread) → IsAsked th → IsSound a (move r t th)
  moved th own = record {
    same_base = i.same_base;
    same_end = i.same_end;
    low = i.low;
    high = i.high;
    aligned = i.aligned;
    grid = i.grid;
    apart = i.apart;
    asked = IsAsked-update r.threads t th own i.asked;
  }

  won :
      (start run_end : ℕ)
      → r.arena.cursor ≤ start
      → start < run_end
      → run_end ≤ a.end
      → (start - a.base) % span_bytes ≡ 0
      → (run_end - a.base) % span_bytes ≡ 0
      → IsSound a (win r t start run_end)
  won start run_end l pos u s e =
      let (g, apart) = grid_grown a r.arena.cursor start run_end r.runs l pos i.grid in
      let low = i.low in
      record {
        same_base = i.same_base;
        same_end = i.same_end;
        low = omega (arith, low);
        high = u;
        aligned = e;
        grid = ((pos, omega (arith, low), omega arith, s, e), g);
        apart = (apart, i.apart);
        asked = IsAsked-update r.threads t outside tt i.asked;
      }

  won_spans :
      (num_spans run_end : ℕ)
      → num_spans ≢ 0
      → attempt_spans r.arena num_spans r.arena.cursor ≡ some run_end
      → IsSound a (win r t r.arena.cursor run_end)
  won_spans n run_end ne e =
      let (pos, at_end, inside) = attempt_spans-run r.arena n r.arena.cursor run_end ne e in
      won r.arena.cursor run_end (omega arith) (omega arith) (omega (arith, i.same_end)) i.aligned
        (omega (arith, i.low, i.aligned))

  won_run :
      (run_bytes start run_end : ℕ)
      → run_bytes ≢ 0
      → run_bytes % span_bytes ≡ 0
      → attempt_run r.arena run_bytes r.arena.cursor ≡ some (start, run_end)
      → IsSound a (win r t start run_end)
  won_run n start run_end ne whole e =
      let (l, near, s, at_end, inside) =
        attempt_run-some r.arena n r.arena.cursor start run_end (omega (arith, i.low, i.same_base))
          e in
      won start run_end l (omega arith) (omega (arith, i.same_end)) (omega (arith, i.same_base))
        (omega (arith, i.same_base, i.low))

Step-IsSound : {a : BumpArena} {r s : Race} → Step r s → IsSound a r → IsSound a s
Step-IsSound {a} {r} (enter_spans t n ne e) i = moved i t (in_spans n r.arena.cursor) ne
Step-IsSound {a} {r} (enter_run t n ne w e) i = moved i t (in_run n r.arena.cursor) (ne, w)
Step-IsSound (drained_spans t n start e d) i = moved i t outside tt
Step-IsSound (drained_run t n cur e d) i = moved i t outside tt
Step-IsSound {a} {r} (lose_spans t n start e) i =
    moved i t (in_spans n r.arena.cursor) (rw e at (i.asked t))
Step-IsSound {a} {r} (lose_run t n cur e) i =
    moved i t (in_run n r.arena.cursor) (rw e at (i.asked t))
Step-IsSound {a} {r} (win_spans t n start run_end e d c) i =
    rw (sym c) (won_spans i t n run_end (rw e at (i.asked t)) (rw (sym c) at d))
Step-IsSound {a} {r} (win_run t n cur start run_end e d c) i =
    let (ne, whole) = rw e at (i.asked t) in won_run i t n start run_end ne whole (rw (sym c) at d)

-- However the threads interleave, all runs that have been handed out are disjoint, lie inside the
-- arena below the cursor, and start and end on the span grid.
pub Raced-IsSound :
    {a : BumpArena} {r : Race} → IsValid a → a.cursor ≡ a.base → Raced a r → IsSound a r
Raced-IsSound {a} v e fresh = record {
  same_base = refl;
  same_end = refl;
  low = v.low;
  high = v.high;
  aligned = v.aligned;
  grid = tt;
  apart = tt;
  asked = λ t. tt;
}
Raced-IsSound v e (next h s) = Step-IsSound s (Raced-IsSound v e h)
