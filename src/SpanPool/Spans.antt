-- ===== src/SpanPool/Spans.antt =====
-- Which spans of the grid are free, and how `free` of toccata-core/src/spanpool.rs changes that.
use toccata.Base.{
  ℕ, ◌+◌, ◌-◌, ◌≤◌, ◌<◌, ◌≡◌, ◌≢◌, arith, ◌&&◌, ◌||◌, ◌==◌, ltb, if◌then◌else◌, inl, inr, ◌⊎◌,
  Bool-cases,
}

-- The span `x` lies in a free run.
abbrev pub IsFreeSpan : (ℕ → ℕ) → ℕ → Type 0
IsFreeSpan hc x = (k : ℕ) × (hc k ≢ 0) × (k ≤ x) × (x < k + hc k)

-- No free run holds a span of the `c` spans from `h` on.
abbrev pub IsTaken : (ℕ → ℕ) → ℕ → ℕ → Type 0
IsTaken hc h c = (k : ℕ) → hc k ≢ 0 → (k + hc k ≤ h) ⊎ (h + c ≤ k)

-- The spans that are free after the two merges and the final `link`, over the counts alone: `hr`
-- and `hl` are the counts after the right and the left merge, `hq` those in the end.
module _ (hc hr hl hq : ℕ → ℕ) (h c lc : ℕ) (pos : c ≢ 0) (taken : IsTaken hc h c)
    (hr_lem : (k : ℕ) → hr k ≡ (if k == h + c then 0 else hc k))
    (hl_lem : (k : ℕ) → hl k ≡ (if lc == 0 then hr k else if k == h - lc then 0 else hr k))
    (hq_lem : (k : ℕ) → hq k ≡ (if k == h - lc then c + hc (h + c) + lc else hl k))
    (merged : lc ≢ 0 → (lc ≤ h) × (hr (h - lc) ≡ lc)) where
  whole : hq (h - lc) ≡ c + hc (h + c) + lc
  whole = ground (arith, hq_lem (h - lc))

  pub gained_spans : (x : ℕ) → h ≤ x → x < h + c → IsFreeSpan hq x
  gained_spans x l u = (h - lc, ground (arith, whole), omega arith, ground (arith, whole, merged))

  pub kept_spans : (x : ℕ) → IsFreeSpan hc x → IsFreeSpan hq x
  kept_spans x (k, q, l, u) = elim (Bool-cases ((k == h + c) || ((k == h - lc) && ltb 0 lc))) [
    | inl e ↦ (
      h - lc,
      ground (arith, whole),
      ground (arith, merged),
      ground (arith, whole, merged, hr_lem k),
    )
    | inr e ↦
        let same : hq k ≡ hc k = ground (arith, hq_lem k, hl_lem k, hr_lem k, taken k) in
        (k, rw same q, l, rw same u)
  ]

  pub only_spans : (x : ℕ) → IsFreeSpan hq x → IsFreeSpan hc x ⊎ ((h ≤ x) × (x < h + c))
  only_spans x (k, q, l, u) = elim (Bool-cases (k == h - lc)) [
    | inl e ↦ elim (Bool-cases (ltb x h)) [
      | inl b ↦ inl (k, ground (arith, merged, hr_lem k), l, ground (arith, merged, hr_lem k))
      | inr b ↦ elim (Bool-cases (ltb x (h + c))) [
        | inl b' ↦ inr (ground arith, ground arith)
        | inr b' ↦
            inl (h + c, ground (arith, whole, merged), ground arith, ground (arith, whole, merged))
      ]
    ]
    | inr e ↦
        let there : (hq k ≡ hc k) × (hc k ≢ 0) = ground (arith, hq_lem k, hl_lem k, hr_lem k) in
        inl (k, there.1, l, rw (← there.0) u)
  ]
