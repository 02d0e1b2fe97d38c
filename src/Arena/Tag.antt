-- ===== src/Arena/Tag.antt =====
-- `carve_spans` of toccata-core/src/subheap.rs with the span table that it tags.
use toccata.Base.{
  ℕ, ◌+◌, ◌-◌, ◌*◌, ◌/◌, ◌^◌, ◌<◌, ◌≡◌, ◌≢◌, refl, ◌∙◌, arith, min, ◌&&◌, Option, some, ltb, leb,
  if◌then◌else◌, inl, inr, Option-cases,
}
use toccata.Meta.{span_bytes}
use toccata.Meta.Table.{SpanTable, lookup, assign_range}
use toccata.Meta.Table.Assign as Table
use toccata.Arena.{BumpArena, attempt_spans, carve_spans}
use toccata.Arena.Carve.{attempt_spans-none, attempt_spans-run}
use toccata.Arena.Race.{IsValid}

-- The table covers the arena.
pub record Covers (a : BumpArena) (t : SpanTable) : Type 0 where
  pub valid : Table.IsValid t
  pub same_base : t.base ≡ a.base
  pub same_end : t.base + t.len ≡ a.end

-- What a carve of `n` spans may answer: nothing where no whole span is left, or else the spans behind
-- the cursor, as many as are asked for and left, with the class and the home in the table.
pub data Carves (a : BumpArena) (t : SpanTable) (n class home : ℕ)
    : Option ((ℕ × ℕ) × BumpArena × SpanTable) → Type 0 where
  drained :
      a.end < a.cursor + span_bytes → Carves a t n class home (some ((a.cursor, a.cursor), a, t))
  carved :
      (k run_end : ℕ) (u : SpanTable)
      → k ≢ 0
      → k ≡ min n ((a.end - a.cursor) / span_bytes)
      → run_end ≡ a.cursor + k * span_bytes
      → IsValid (record a { cursor = run_end })
      → Covers (record a { cursor = run_end }) u
      → ((q : ℕ)
          → lookup u q
            ≡ (if leb a.cursor q && ltb q run_end then some (some (class, home)) else lookup t q))
      → Carves a t n class home (some ((a.cursor, run_end), record a { cursor = run_end }, u))

module _ {a : BumpArena} {t : SpanTable} (n class home : ℕ) (v : IsValid a) (c : Covers a t)
    (some_span : n ≢ 0) (ne : class ≢ 0) (cl : class < 2 ^ 16) (hm : home < 2 ^ 16) where
  module _ (run_end : ℕ) (e : attempt_spans a n a.cursor ≡ some run_end) where
    tagged :
        (u : SpanTable) × (assign_range t a.cursor (run_end - a.cursor) class home ≡ some u)
        × Table.IsValid u
        × (u.base ≡ t.base)
        × (u.len ≡ t.len)
        × ((q : ℕ)
            → lookup u q ≡ (
                if Table.overlaps t a.cursor (run_end - a.cursor) q
                then some (some (class, home))
                else lookup t q))
    tagged =
        let (pos, at_end, inside) = attempt_spans-run a n a.cursor run_end some_span e in
        Table.assign_range-lookup a.cursor (run_end - a.cursor) class home c.valid
          (omega (arith, c.same_base, v.low)) (omega (arith, at_end, pos))
          (omega (arith, c.same_end, at_end, inside)) ne cl hm

    -- On the grid, the spans that the run overlaps are the run.
    overlaps_run :
        (q : ℕ)
        → Table.overlaps t a.cursor (run_end - a.cursor) q ≡ (leb a.cursor q && ltb q run_end)
    overlaps_run q =
        let (pos, at_end, inside) = attempt_spans-run a n a.cursor run_end some_span e in
        ground (arith, pos, at_end, inside, c.same_base, c.same_end, v.low, v.aligned)

    carve_spans-eq :
        (u : SpanTable)
        → assign_range t a.cursor (run_end - a.cursor) class home ≡ some u
        → carve_spans a t n class home
          ≡ some ((a.cursor, run_end), record a { cursor = run_end }, u)
    unfolding carve_spans
    carve_spans-eq u run = rw (carve_spans, e, run) refl

    carved-Carves : Carves a t n class home (carve_spans a t n class home)
    carved-Carves =
        let (pos, at_end, inside) = attempt_spans-run a n a.cursor run_end some_span e in
        let (u, run, valid, same_base, same_len, look) = tagged in
        rw (carve_spans-eq u run) (
          carved (min n ((a.end - a.cursor) / span_bytes)) run_end u pos refl at_end
            (record {
              low = omega (arith, v.low, at_end);
              high = inside;
              aligned = omega (arith, v.low, v.aligned, at_end);
              fits = v.fits;
            })
            (record {
              valid = valid;
              same_base = same_base ∙ c.same_base;
              same_end = omega (arith, same_base, same_len, c.same_end);
            })
            (λ q. rw (look q, overlaps_run q) refl))

-- A carve never panics. Where no whole span is left it changes nothing and answers with an empty run.
-- Otherwise the run is the spans behind the cursor, as many as are asked for and left, which have the
-- class and the home from then on while every other address keeps what the table had.
pub carve_spans-Carves :
    {a : BumpArena} {t : SpanTable} (n class home : ℕ)
    → IsValid a
    → Covers a t
    → n ≢ 0
    → class ≢ 0
    → class < 2 ^ 16
    → home < 2 ^ 16
    → Carves a t n class home (carve_spans a t n class home)
unfolding carve_spans
carve_spans-Carves {a} {t} n class home v c some_span ne cl hm =
    elim (Option-cases (attempt_spans a n a.cursor)) [
      | inl e ↦ rw (carve_spans, e) (drained (attempt_spans-none a n a.cursor e))
      | inr (run_end, e) ↦ carved-Carves n class home v c some_span ne cl hm run_end e
    ]
