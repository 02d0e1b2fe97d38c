-- ===== src/SubHeap/Requests.antt =====
-- Any sequence of large requests and returns, on a sub-heap that `build_standalone` of
-- toccata-core/src/subheap.rs has built.
use toccata.Base.{
  ℕ, ◌+◌, ◌*◌, ◌^◌, ◌<◌, ◌≡◌, refl, sym, ap, inl, inr, ◌⊎◌, subst, ◌∙◌, arith, max, Option, none,
  some, [], ◌∷◌, ◌++◌, div_ceil,
}
use mathlib.Core.Option.{some-injective, some-ne-none}
use toccata.SpanPool.New.{new-IsValid}
use toccata.SpanPool.Client.{Live, owners}
use toccata.Meta.{span_bytes}
use toccata.Meta.Table as Table
use toccata.SubHeap.Large.{Store, built, spans_for, alloc_large, dealloc_large}
use toccata.SubHeap.Runs.{run_at, IsSound}
use toccata.SubHeap.Obtain.{Obtains, drained, obtained, alloc_large-Obtains}
use toccata.SubHeap.Return.{dealloc_large-Returns}

-- A sub-heap as it is built has no run in use, and none free.
pub built-IsSound :
    (arena_base budget_bytes num_cpus : ℕ)
    → arena_base + budget_bytes < 2 ^ 64
    → budget_bytes < 2 ^ 47
    → IsSound (built arena_base budget_bytes num_cpus) []
unfolding Table.new owners
built-IsSound base bytes cpus fits small =
    let n = max (div_ceil bytes span_bytes) 1 in
    let (valid, spans, none_free) = new-IsValid n (omega (arith, small)) in
    record {
      pool = valid;
      arena = record { low = omega arith; high = omega arith; aligned = omega arith; fits = fits };
      covers = record {
        valid = record { cover = refl; fits = fits };
        same_base = refl;
        same_end = refl;
      };
      same_base = refl;
      runs_len = omega (arith, spans);
      reach = omega (arith, spans);
      narrow = omega (arith, spans, small);
      cells = omega arith;
      below = λ x f. absurd (none_free x f);
      in_grid = tt;
      single = λ x. omega arith;
      apart = λ x f. refl;
      recorded = tt;
      tagged = tt;
    }

-- A request that is answered with a run or with nothing, and the return of a run in use.
pub data Step : Store × Live → Store × Live → Type 0 where
  obtain :
      (cpu : Option ℕ) (size h : ℕ) {s q : Store} {live : Live}
      → size < 2 ^ 47
      → alloc_large s cpu size ≡ some (some (run_at s h), q)
      → Step (s, live) (q, (h, spans_for size) ∷ live)
  refuse :
      (cpu : Option ℕ) (size : ℕ) {s q : Store} {live : Live}
      → size < 2 ^ 47
      → alloc_large s cpu size ≡ some (none, q)
      → Step (s, live) (q, live)
  return :
      (cpu : Option ℕ) (h c : ℕ) (rs ss : Live) {s q : Store}
      → dealloc_large s cpu (run_at s h) ≡ some q
      → Step (s, rs ++ (h, c) ∷ ss) (q, rs ++ ss)

-- The sub-heaps that requests and returns reach, with the runs then in use.
pub data Requested (base bytes cpus : ℕ) : Store × Live → Type 0 where
  start : Requested base bytes cpus (built base bytes cpus, [])
  next : (x y : Store × Live) → Requested base bytes cpus x → Step x y → Requested base bytes cpus y

pub Obtains-cases :
    {s : Store} {live : Live} {c : ℕ} {r : Option (Option ℕ × Store)}
    → Obtains s live c r
    → ((q : Store) × (r ≡ some (none, q))
        × (s.arena.end < s.arena.cursor + c * 2 ^ 16)
        × IsSound q live)
      ⊎ ((q : Store) × (h : ℕ) × (r ≡ some (some (run_at s h), q)) × IsSound q ((h, c) ∷ live))
Obtains-cases (drained {q} short over v) = inl (q, refl, over, v)
Obtains-cases (obtained {q} h inside held same v) = inr (q, h, refl, v)

Step-IsSound : {x y : Store × Live} → IsSound x.0 x.1 → Step x y → IsSound y.0 y.1
Step-IsSound v (obtain cpu size h {s} {q} {live} small e) =
    elim (Obtains-cases (alloc_large-Obtains cpu size v small).1) [
      | inl (q1, none_left, over, sound) ↦ absurd (
          some-ne-none (run_at s h)
            (ap (λ (r : Option ℕ × Store). r.0) (some-injective _ _ (sym e ∙ none_left))))
      | inr (q1, h1, given, sound) ↦
          let both = some-injective _ _ (sym given ∙ e) in
          let heads = some-injective _ _ (ap (λ (r : Option ℕ × Store). r.0) both) in
          let same : h1 ≡ h = omega (arith, heads) in
          subst (λ (t : ℕ). IsSound q ((t, spans_for size) ∷ live)) same
            (subst (λ (t : Store). IsSound t ((h1, spans_for size) ∷ live))
              (ap (λ (r : Option ℕ × Store). r.1) both) sound)
    ]
Step-IsSound v (refuse cpu size {s} {q} {live} small e) =
    elim (Obtains-cases (alloc_large-Obtains cpu size v small).1) [
      | inl (q1, none_left, over, sound) ↦
          subst (λ (t : Store). IsSound t live)
            (ap (λ (r : Option ℕ × Store). r.1) (some-injective _ _ (sym none_left ∙ e))) sound
      | inr (q1, h1, given, sound) ↦ absurd (
          some-ne-none (run_at s h1)
            (ap (λ (r : Option ℕ × Store). r.0) (some-injective _ _ (sym given ∙ e))))
    ]
Step-IsSound v (return cpu h c rs ss {s} {q} e) =
    let (p, runs, sound, freed) = dealloc_large-Returns s rs h c ss v cpu in
    subst (λ (t : Store). IsSound t (rs ++ ss)) (some-injective _ _ (sym runs ∙ e)) sound

-- Whatever large requests and returns a sub-heap has answered since it was built, in any order and on
-- any processor, where the requests are below 2 ^ 47 bytes: the runs in use are whole spans below the
-- cursor of the arena, no span has two owners and none in use is free, and each run is recorded under
-- its head, which the table has as large.
pub Requested-IsSound :
    {base bytes cpus : ℕ} {x : Store × Live}
    → Requested base bytes cpus x
    → base + bytes < 2 ^ 64
    → bytes < 2 ^ 47
    → IsSound x.0 x.1
Requested-IsSound {base} {bytes} {cpus} start fits small = built-IsSound base bytes cpus fits small
Requested-IsSound (next x y r step) fits small = Step-IsSound (Requested-IsSound r fits small) step
