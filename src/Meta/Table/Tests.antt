-- ===== src/Meta/Table/Tests.antt =====
-- The tests of toccata-core/src/meta.rs for the span table, and each theorem at a concrete input.
use toccata.Base.{
  ℕ, ◌+◌, ◌-◌, ◌*◌, ◌^◌, ◌≡◌, refl, arith, Option, none, some, ◌>>=◌, if◌then◌else◌, List, [], ◌∷◌,
}
use toccata.Meta.{span_bytes, pack, unpack}
use toccata.Meta.Table.{SpanTable, new, assign_each, assign_range, lookup, index_of}
use toccata.Meta.Table.Assign.{IsValid, overlaps, assign_range-lookup}
use toccata.Meta.Table.Home.{new-lookup}

abbrev base : ℕ
base = 2 ^ 32

-- The tables of the two tests: one span tagged, and a large object of 2.5 spans.
one_span : Option SpanTable
one_span = assign_range (new base (2 ^ 20)) base span_bytes 7 3

large_run : Option SpanTable
large_run = assign_range (new base (4 * span_bytes)) base (span_bytes * 2 + 100) 40 1

look : Option SpanTable → List ℕ → Option (List (Option (ℕ × ℕ)))
look none qs = none
look (some t) [] = some []
look (some t) (q ∷ qs) = do r ← lookup t q; rs ← look (some t) qs; some (r ∷ rs)

assign_and_lookup_roundtrip :
    look one_span (base ∷ (base + span_bytes - 1) ∷ (base + span_bytes) ∷ (base - 1) ∷ [])
    ≡ some (some (7, 3) ∷ some (7, 3) ∷ none ∷ none ∷ [])
unfolding look one_span new assign_range assign_each lookup index_of pack unpack
assign_and_lookup_roundtrip = refl

multi_span_range :
    look large_run (base ∷ (base + span_bytes * 2) ∷ (base + span_bytes * 3) ∷ [])
    ≡ some (some (40, 1) ∷ some (40, 1) ∷ none ∷ [])
unfolding look large_run new assign_range assign_each lookup index_of pack unpack
multi_span_range = refl

table : SpanTable
table = new base (2 ^ 20)

table-IsValid : IsValid table
unfolding table
table-IsValid = (new-lookup base (2 ^ 20) (omega arith)).0

new-lookup_example :
    IsValid (new base (2 ^ 20)) × ((q : ℕ) → lookup (new base (2 ^ 20)) q ≡ some none)
new-lookup_example = new-lookup base (2 ^ 20) (omega arith)

assign_range-lookup_example :
    (u : SpanTable) × (assign_range table base span_bytes 7 3 ≡ some u)
    × IsValid u
    × (u.base ≡ table.base)
    × (u.len ≡ table.len)
    × ((q : ℕ)
        → lookup u q
          ≡ (if overlaps table base span_bytes q then some (some (7, 3)) else lookup table q))
unfolding table new
assign_range-lookup_example =
    assign_range-lookup base span_bytes 7 3 table-IsValid (omega arith) (omega arith) (omega arith)
      (omega arith) (omega arith) (omega arith)
