-- ===== src/Meta/Table/Home.antt =====
-- `home_relaxed` of toccata-core/src/meta.rs against `lookup`, and the table as `new` leaves it.
use Prim.Native.Nat.{bit_and}
use toccata.Base.{
  ℕ, ◌+◌, ◌^◌, ◌<◌, ◌≡◌, refl, arith, Option, none, some, ◌==◌, Bool, true, false, Bool-cases,
  as_u16, inl, inr,
}
use toccata.Base.Masks.{bit_and_ones}
use toccata.Meta.{unpack, load}
use toccata.Meta.Table.{SpanTable, new, lookup, home_relaxed, index_of}
use toccata.Meta.Table.Assign.{IsValid, in_arena, span_at, lookup-inside, lookup-outside}

-- The home that a caller reads off an address, from whether the arena has it and from its entry.
abbrev pub home_of : Bool → Option (ℕ × ℕ) → ℕ
home_of false r = 65535
home_of true none = 0
home_of true (some (class, home)) = home

home_of-unpack : (v : ℕ) → as_u16 (bit_and v 65535) ≡ home_of true (unpack v)
unfolding unpack
home_of-unpack v = elim (Bool-cases (v == 0)) [
  | inl e ↦ let unset : v ≡ 0 = ground (arith, e) in rw unset (rw (bit_and_ones 16 0) refl)
  | inr e ↦ rw e refl
]

-- Neither look-up panics, and they agree at every address: outside the arena the home is the
-- sentinel 65535 and `lookup` finds nothing, a span without a class has home 0, and for every other
-- span the home is the one that `lookup` returns.
pub home_relaxed-lookup :
    {t : SpanTable}
    → IsValid t
    → (q : ℕ)
    → (r : Option (ℕ × ℕ)) × (lookup t q ≡ some r)
      × (home_relaxed t q ≡ some (home_of (in_arena t q) r))
unfolding home_relaxed in_arena
home_relaxed-lookup {t} v q = elim (Bool-cases (in_arena t q)) [
  | inr out ↦ (none, lookup-outside v q out, ground (arith, out, v.fits))
  | inl ins ↦ (
    load (t.entries.at (span_at t q)),
    lookup-inside v q ins,
    ground (arith, ins, v.fits, v.cover, home_of-unpack (t.entries.at (span_at t q)).packed),
  )
]

-- A new table is valid and no address has a class in it.
pub new-lookup :
    (base len : ℕ)
    → base + len < 2 ^ 64
    → IsValid (new base len) × ((q : ℕ) → lookup (new base len) q ≡ some none)
unfolding new lookup index_of unpack
new-lookup base len h = (record { cover = refl; fits = h }, λ q. ground (arith, h))
