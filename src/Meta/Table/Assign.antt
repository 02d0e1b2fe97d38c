-- ===== src/Meta/Table/Assign.antt =====
-- `assign_range`, `lookup` and `home_relaxed` of toccata-core/src/meta.rs, one against the other.
use toccata.Base.{
  true, false, ℕ, zero, suc, ◌+◌, ◌-◌, ◌*◌, ◌/◌, ◌^◌, ◌≤◌, ◌<◌, ◌≡◌, ◌≢◌, refl, ◌∙◌, arith, min,
  ◌&&◌, none, some, ltb, leb, if◌then◌else◌, Bool, Bool-cases, Slice, write-ok, read-ok, put,
  add_usize, sub_usize, inl, inr,
}
use toccata.Base.Masks.{bit_or_field, bit_and_ones}
use toccata.Meta.{SpanMeta, span_bytes, pack, unpack, assign, load}
use toccata.Meta.Table.{SpanTable, assign_each, assign_range, lookup, index_of}

unpack-pack :
    (class home : ℕ)
    → class ≢ 0
    → class < 2 ^ 16
    → home < 2 ^ 16
    → unpack (pack class home) ≡ some (class, home)
unfolding pack unpack
unpack-pack class home ne c h =
    rw (bit_or_field 16 class home h) (rw (bit_and_ones 16 (class * 2 ^ 16 + home)) (ground arith))

-- The entries cover the arena, which does not reach the end of the address space.
pub record IsValid (t : SpanTable) : Type 0 where
  pub cover : t.entries.len ≡ (t.len + (span_bytes - 1)) / span_bytes
  pub fits : t.base + t.len < 2 ^ 64

-- The span of an address, counted from the base.
abbrev pub span_at : SpanTable → ℕ → ℕ
span_at t addr = (addr - t.base) / span_bytes

-- The address lies in a span that `[addr, addr + bytes)` overlaps.
abbrev pub overlaps : SpanTable → ℕ → ℕ → ℕ → Bool
overlaps t addr bytes q =
    leb t.base q
    && ltb q (t.base + t.len)
    && leb (span_at t addr) (span_at t q)
    && leb (span_at t q) (span_at t (addr + bytes - 1))

pub record Filled (s : Slice SpanMeta) (n i : ℕ) (m : SpanMeta) (r : Slice SpanMeta) : Type 0 where
  pub same_len : r.len ≡ s.len
  pub values : (k : ℕ) → r.at k ≡ (if leb i k && ltb k (i + n) then m else s.at k)

assign_each-Filled :
    (n i : ℕ) (m : SpanMeta) (s : Slice SpanMeta)
    → i + n ≤ s.len
    → (r : Slice SpanMeta) × (assign_each s n i m ≡ some r) × Filled s n i m r
unfolding assign_each
assign_each-Filled zero i m s h = (s, refl, record { same_len = refl; values = λ k. ground arith })
assign_each-Filled (suc n) i m s h =
    let (r, e, f) = assign_each-Filled n (i + 1) m (put s i m) (omega arith) in
    (
      r,
      rw (write-ok s i m (omega arith)) e,
      record { same_len = f.same_len; values = λ k. ground (arith, f.values k) },
    )

index_of-some :
    {t : SpanTable}
    → IsValid t
    → (q : ℕ) → t.base ≤ q
    → q < t.base + t.len
    → index_of t q ≡ some (span_at t q)
unfolding index_of
index_of-some v q l u = ground (arith, v.fits)

index_of-none :
    {t : SpanTable}
    → IsValid t
    → (q : ℕ) → (leb t.base q && ltb q (t.base + t.len)) ≡ false
    → index_of t q ≡ none
unfolding index_of
index_of-none v q e = ground (arith, v.fits)

unfoldable pub in_arena : SpanTable → ℕ → Bool
in_arena t q = leb t.base q && ltb q (t.base + t.len)

pub lookup-inside :
    {t : SpanTable}
    → IsValid t
    → (q : ℕ) → in_arena t q ≡ true
    → lookup t q ≡ some (load (t.entries.at (span_at t q)))
unfolding lookup in_arena
lookup-inside {t} v q e =
    rw (lookup, index_of-some v q (ground (arith, e)) (ground (arith, e)))
      (rw (read-ok t.entries (span_at t q) (ground (arith, e, v.cover))) refl)

pub lookup-outside :
    {t : SpanTable} → IsValid t → (q : ℕ) → in_arena t q ≡ false → lookup t q ≡ some none
unfolding in_arena lookup
lookup-outside v q e = rw (lookup, index_of-none v q e) refl

-- One run of `assign_range` inside the arena.
module _ {t : SpanTable} (addr bytes class home : ℕ) (v : IsValid t) (low : t.base ≤ addr)
    (pos : bytes ≢ 0) (high : addr + bytes ≤ t.base + t.len) where
  first : ℕ
  first = span_at t addr

  last : ℕ
  last = span_at t (addr + bytes - 1)

  last_lem :
      min
        (sub_usize (sub_usize (add_usize addr bytes) 1) t.base / 2 ^ 16)
        (sub_usize t.entries.len 1)
      ≡ last
  unfolding last
  last_lem = ground (arith, v.fits, v.cover)

  last-inside : last < t.entries.len
  unfolding last
  last-inside = ground (arith, v.cover)

  first-last : first ≤ last
  unfolding first last
  first-last = ground arith

  assign_range-eq :
      (r : Slice SpanMeta)
      → assign_each t.entries (last + 1 - first) first (assign class home) ≡ some r
      → assign_range t addr bytes class home ≡ some (record t { entries = r })
  unfolding first assign_range
  assign_range-eq r e =
      rw (assign_range, index_of-some v addr low (omega arith), last_lem)
        (ground (arith, last-inside, first-last, e))

  module _ (r : Slice SpanMeta)
      (f : Filled t.entries (last + 1 - first) first (assign class home) r) (ne : class ≢ 0)
      (c : class < 2 ^ 16) (h : home < 2 ^ 16) where
    tagged : SpanTable
    tagged = record t { entries = r }

    tagged-IsValid : IsValid tagged
    unfolding tagged
    tagged-IsValid = record { cover = f.same_len ∙ v.cover; fits = v.fits }

    tagged-lookup :
        (q : ℕ)
        → lookup tagged q
          ≡ (if overlaps t addr bytes q then some (some (class, home)) else lookup t q)
    unfolding tagged first last in_arena
    tagged-lookup q = elim (Bool-cases (in_arena t q)) [
      | inr out ↦
          rw (lookup-outside tagged-IsValid q out, lookup-outside v q out) (ground (arith, out))
      | inl ins ↦
          rw (lookup-inside tagged-IsValid q ins, lookup-inside v q ins)
            (rw (f.values (span_at t q)) (elim (Bool-cases (overlaps t addr bytes q)) [
              | inl e ↦ ground (arith, ins, e, first-last, unpack-pack class home ne c h)
              | inr e ↦ ground (arith, ins, e, first-last)
            ]))
    ]

-- A range inside the arena is tagged without a panic, in a table of the same arena. From then on an address has the new class and
-- home where its span overlaps the range, and what it had before everywhere else.
pub assign_range-lookup :
    {t : SpanTable} (addr bytes class home : ℕ)
    → IsValid t
    → t.base ≤ addr
    → bytes ≢ 0
    → addr + bytes ≤ t.base + t.len
    → class ≢ 0
    → class < 2 ^ 16
    → home < 2 ^ 16
    → (u : SpanTable) × (assign_range t addr bytes class home ≡ some u)
      × IsValid u
      × (u.base ≡ t.base)
      × (u.len ≡ t.len)
      × ((q : ℕ)
          → lookup u q
            ≡ (if overlaps t addr bytes q then some (some (class, home)) else lookup t q))
unfolding tagged
assign_range-lookup {t} addr bytes class home v low pos high ne c h =
    let (r, e, f) = assign_each-Filled _ _ (assign class home) t.entries (
      omega (
        arith,
        last-inside addr bytes class home v low pos high,
        first-last addr bytes class home v low pos high,
      )) in
    (
      tagged addr bytes class home v low pos high r f ne c h,
      assign_range-eq addr bytes class home v low pos high r e,
      tagged-IsValid addr bytes class home v low pos high r f ne c h,
      refl,
      refl,
      tagged-lookup addr bytes class home v low pos high r f ne c h,
    )
