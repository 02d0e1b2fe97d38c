-- ===== src/Registry/Outcome.antt =====
-- What `configure` of toccata-core/src/registry.rs returns and leaves, on every branch.
use mathlib.Core.List.{append_assoc, append-nil}
use toccata.Base.{
  ◌⊎◌, ℕ, ◌+◌, ◌-◌, ◌^◌, ◌≤◌, ◌<◌, min, ◌≡◌, refl, ap, subst, ltb→le_of_false, ◌∙◌, sym, arith,
  Bool, Option, none, some, List, [], ◌∷◌, ◌++◌, All, ltb, Option-cases, Bool-cases, inl, inr,
}
use toccata.Registry.{
  SubHeapRegistration, Budgets, ConfigureError, already_configured, unconfigured, over_budget,
  reserve, Result, ok, err, saturating_add, lookup, validate, build_each, configure,
}

module _ {Name : Type 0} where
  -- The registration stands in the list.
  pub data Among (r : SubHeapRegistration Name) : List (SubHeapRegistration Name) → Type 0 where
    here : {rs : List (SubHeapRegistration Name)} → Among r (r ∷ rs)
    there :
        {q : SubHeapRegistration Name} {rs : List (SubHeapRegistration Name)}
        → Among r rs
        → Among r (q ∷ rs)

Result-cases : {X Y : Type 0} (x : Result X Y) → ((e : X) × (x ≡ err e)) ⊎ ((y : Y) × (x ≡ ok y))
Result-cases (ok y) = inr (y, refl)
Result-cases (err e) = inl (e, refl)

abbrev or_zero : Option ℕ → ℕ
or_zero none = 0
or_zero (some n) = n

module _ {Name : Type 0} (same : Name → Name → Bool) (b : Budgets Name) where
  -- The sum of the budgets of the registrations.
  pub wanted : List (SubHeapRegistration Name) → ℕ
  wanted [] = 0
  wanted (r ∷ rs) = or_zero (lookup same b r.name) + wanted rs

  abbrev pub Budgeted : SubHeapRegistration Name → Type 0
  Budgeted r = (bytes : ℕ) × (lookup same b r.name ≡ some bytes)

module _ {Name : Type 0} (same : Name → Name → Bool) {E : Type 0} (b : Budgets Name) where
  -- `validate` stops at a registration with no budget, or has added up all budgets.
  data Validates (rs : List (SubHeapRegistration Name)) (sum : ℕ)
      : Result (ConfigureError Name E) ℕ → Type 0 where
    missing :
        {r : SubHeapRegistration Name}
        → Among r rs
        → lookup same b r.name ≡ none
        → Validates rs sum (err (unconfigured r.name))
    summed :
        {s : ℕ}
        → All (Budgeted same b) rs
        → s ≡ min (sum + wanted same b rs) (2 ^ 64 - 1)
        → Validates rs sum (ok s)

  after :
      (r : SubHeapRegistration Name) (rs : List (SubHeapRegistration Name)) (sum bytes : ℕ)
      {x : Result (ConfigureError Name E) ℕ}
      → lookup same b r.name ≡ some bytes
      → Validates rs (saturating_add sum bytes) x
      → Validates (r ∷ rs) sum x
  unfolding wanted
  after r rs sum bytes e (missing a n) = missing (there a) n
  after r rs sum bytes e (summed a s) = summed ((bytes, e), a) (omega (arith, s, ap or_zero e))

  validate-Validates :
      (rs : List (SubHeapRegistration Name)) (sum : ℕ)
      → sum < 2 ^ 64
      → Validates rs sum (validate same b rs sum)
  unfolding validate wanted
  validate-Validates [] sum h = summed tt (omega (arith, h))
  validate-Validates (r ∷ rs) sum h = elim (Option-cases (lookup same b r.name)) [
    | inl n ↦ rw (validate, n) (missing here n)
    | inr (bytes, e) ↦
        rw (validate, e)
          (after r rs sum bytes e (validate-Validates rs (saturating_add sum bytes) (omega arith)))
  ]

  module _ {H : Type 0} (build_standalone : SubHeapRegistration Name → ℕ → Result E H) where
    -- Every registration has been built, in order, with its budget.
    pub data Built : List (SubHeapRegistration Name) → List (Name × H) → Type 0 where
      no_more : Built [] []
      one_more :
          {r : SubHeapRegistration Name} {rs : List (SubHeapRegistration Name)} {bytes : ℕ} {sh : H}
          {map : List (Name × H)}
          → lookup same b r.name ≡ some bytes
          → build_standalone r bytes ≡ ok sh
          → Built rs map
          → Built (r ∷ rs) ((r.name, sh) ∷ map)

    data BuildsEach (rs : List (SubHeapRegistration Name)) (map : List (Name × H))
        : Result (ConfigureError Name E) (List (Name × H)) → Type 0 where
      failed :
          {r : SubHeapRegistration Name} {bytes : ℕ} {e : E}
          → Among r rs
          → lookup same b r.name ≡ some bytes
          → build_standalone r bytes ≡ err e
          → BuildsEach rs map (err (reserve r.name e))
      built :
          {added out : List (Name × H)}
          → Built rs added
          → out ≡ map ++ added
          → BuildsEach rs map (ok out)

    after_build :
        (r : SubHeapRegistration Name) (rs : List (SubHeapRegistration Name))
        (map : List (Name × H)) (bytes : ℕ) (sh : H)
        {x : Result (ConfigureError Name E) (List (Name × H))}
        → lookup same b r.name ≡ some bytes
        → build_standalone r bytes ≡ ok sh
        → BuildsEach rs (map ++ (r.name, sh) ∷ []) x
        → BuildsEach (r ∷ rs) map x
    after_build r rs map bytes sh e i (failed a l f) = failed (there a) l f
    after_build r rs map bytes sh e i (built bs o) =
        built (one_more e i bs) (o ∙ append_assoc map ((r.name, sh) ∷ []) _)

    build_each-BuildsEach :
        (rs : List (SubHeapRegistration Name)) (map : List (Name × H))
        → All (Budgeted same b) rs
        → (x : Result (ConfigureError Name E) (List (Name × H))) × (build_each same build_standalone
              b rs map
            ≡ some x)
          × BuildsEach rs map x
    unfolding build_each
    build_each-BuildsEach [] map a = (ok map, refl, built no_more (sym (append-nil map)))
    build_each-BuildsEach (r ∷ rs) map ((bytes, e), a) =
        elim (Result-cases (build_standalone r bytes)) [
          | inl (x, f) ↦ (err (reserve r.name x), rw (e, f) refl, failed here e f)
          | inr (sh, i) ↦
              let (x, runs, each) = build_each-BuildsEach rs (map ++ (r.name, sh) ∷ []) a in
              (x, rw (e, i) runs, after_build r rs map bytes sh e i each)
        ]

    -- What `configure` returns and leaves.
    pub data Outcome (regs : List (SubHeapRegistration Name))
        : Option (List (Name × H))
          → Result (ConfigureError Name E) (Unit {0})
          → Option (List (Name × H))
          → Type 0 where
      was_configured :
          {map : List (Name × H)} → Outcome regs (some map) (err already_configured) (some map)
      no_budget :
          {r : SubHeapRegistration Name}
          → Among r regs
          → lookup same b r.name ≡ none
          → Outcome regs none (err (unconfigured r.name)) none
      too_much :
          {sum : ℕ}
          → All (Budgeted same b) regs
          → sum ≡ min (wanted same b regs) (2 ^ 64 - 1)
          → b.total < sum
          → Outcome regs none (err (over_budget sum b.total)) none
      not_reserved :
          {r : SubHeapRegistration Name} {bytes : ℕ} {e : E}
          → Among r regs
          → lookup same b r.name ≡ some bytes
          → build_standalone r bytes ≡ err e
          → Outcome regs none (err (reserve r.name e)) none
      configured :
          {map : List (Name × H)}
          → min (wanted same b regs) (2 ^ 64 - 1) ≤ b.total
          → Built regs map
          → Outcome regs none (ok tt) (some map)

    abbrev pub Configures : List (SubHeapRegistration Name) → Option (List (Name × H)) → Type 0
    Configures regs state =
        (r : Result (ConfigureError Name E) (Unit {0})) × (after : Option (List (Name × H)))
        × (configure same build_standalone regs state b ≡ some (r, after))
        × Outcome regs state r after

    finish :
        (regs : List (SubHeapRegistration Name))
        {x : Result (ConfigureError Name E) (List (Name × H))}
        → min (wanted same b regs) (2 ^ 64 - 1) ≤ b.total
        → BuildsEach regs [] x
        → (r : Result (ConfigureError Name E) (Unit {0})) × (after : Option (List (Name × H)))
          × (◌≡◌ {A = Option (Result (ConfigureError Name E) (Unit {0}) × Option (List (Name × H)))}
              (elim x [ err e ↦ some (err e, none) | ok map ↦ some (ok tt, some map) ])
              (some (r, after)))
          × Outcome regs none r after
    finish regs h (failed {r = r} {e = e} a l f) =
        (err (reserve r.name e), none, refl, not_reserved a l f)
    finish regs h (built {added = added} {out = out} bs o) =
        (ok tt, some out, refl, configured h (subst (Built regs) (sym o) bs))

    total_cases :
        (regs : List (SubHeapRegistration Name)) {x : Result (ConfigureError Name E) ℕ}
        → Validates regs 0 x
        → validate same b regs 0 ≡ x
        → Configures regs none
    unfolding configure
    total_cases regs (missing {r = r} a n) e =
        (err (unconfigured r.name), none, rw (configure, e) refl, no_budget a n)
    total_cases regs (summed {s = s} a t) e = elim (Bool-cases (ltb b.total s)) [
      | inl u ↦ (
        err (over_budget s b.total),
        none,
        rw (configure, e, u) refl,
        too_much a (omega (arith, t)) (ground (arith, u)),
      )
      | inr f ↦
          let (x, runs, each) = build_each-BuildsEach regs [] a in
          let (r, next, e2, out) =
            finish regs (omega (arith, t, ltb→le_of_false b.total s f)) each in
          (r, next, rw (configure, e, f, runs) e2, out)
    ]

    -- `configure` returns, never in a panic: an error where it has run before, where a registration has
    -- no budget, where the sum of the budgets, held at the largest number, exceeds the total, or where a
    -- sub-heap cannot be built, and then nothing is configured; and otherwise the sub-heaps of all the
    -- registrations, each built with its budget, are configured.
    pub configure-Outcome :
        (regs : List (SubHeapRegistration Name)) (state : Option (List (Name × H)))
        → Configures regs state
    unfolding configure
    configure-Outcome regs (some map) = (err already_configured, some map, refl, was_configured)
    configure-Outcome regs none = total_cases regs (validate-Validates regs 0 (omega arith)) refl
