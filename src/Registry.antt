-- ===== src/Registry.antt =====
-- toccata-core/src/registry.rs: the sub-heaps that a program has declared, built once from the budgets that
-- it names. Names and sub-heaps are parameters: `same` compares two names, and `build_standalone`
-- builds a sub-heap from a registration and its budget, or fails with an error `E`. A panic is `none`.
pub mod Outcome
mod Tests
use toccata.Base.{
  ℕ, ◌+◌, ◌-◌, ◌^◌, min, Bool, true, false, Option, none, some, List, [], ◌∷◌, ◌++◌, ltb,
  if◌then◌else◌, ◌>>=◌,
}

pub data OnExhaust : Type 0 where
  return_none : OnExhaust
  abort : OnExhaust

pub record SubHeapRegistration (Name : Type 0) : Type 0 where
  pub name : Name
  pub on_exhaust : OnExhaust
  pub cap_per_class : ℕ

pub record Budgets (Name : Type 0) : Type 0 where
  pub total : ℕ
  pub subs : List (Name × ℕ)

abbrev pub new : {Name : Type 0} → ℕ → Budgets Name
new total_bytes = record { total = total_bytes; subs = [] }

abbrev pub sub : {Name : Type 0} → Budgets Name → Name → ℕ → Budgets Name
sub b name bytes = record { total = b.total; subs = b.subs ++ (name, bytes) ∷ [] }

pub data ConfigureError (Name E : Type 0) : Type 0 where
  already_configured : ConfigureError Name E
  unconfigured : Name → ConfigureError Name E
  over_budget : ℕ → ℕ → ConfigureError Name E
  reserve : Name → E → ConfigureError Name E

pub data Result (E A : Type 0) : Type 0 where
  ok : A → Result E A
  err : E → Result E A

-- `a.saturating_add(b)` on `usize`
abbrev pub saturating_add : ℕ → ℕ → ℕ
saturating_add a b = min (a + b) (2 ^ 64 - 1)

module _ {Name : Type 0} (same : Name → Name → Bool) where
  -- The first entry with the name.
  pub find : {A : Type 0} → List (Name × A) → Name → Option A
  find [] name = none
  find (e ∷ es) name = let rest = find es name in if same e.0 name then some e.1 else rest

  abbrev pub lookup : Budgets Name → Name → Option ℕ
  lookup b name = find b.subs name

  module _ {E : Type 0} where
    -- The loop that adds up the budgets.
    pub validate :
        Budgets Name → List (SubHeapRegistration Name) → ℕ → Result (ConfigureError Name E) ℕ
    validate b [] sum = ok sum
    validate b (reg ∷ regs) sum = elim (lookup b reg.name) [
      | none ↦ err (unconfigured reg.name)
      | some bytes ↦ validate b regs (saturating_add sum bytes)
    ]

    module _ {H : Type 0} (build_standalone : SubHeapRegistration Name → ℕ → Result E H) where
      -- The loop that builds the sub-heaps.
      pub build_each :
          Budgets Name
          → List (SubHeapRegistration Name)
          → List (Name × H)
          → Option (Result (ConfigureError Name E) (List (Name × H)))
      build_each b [] map = some (ok map)
      build_each b (reg ∷ regs) map = do
        bytes ← lookup b reg.name
        elim (build_standalone reg bytes) [
          | err e ↦ some (err (reserve reg.name e))
          | ok sh ↦ build_each b regs (map ++ (reg.name, sh) ∷ [])
        ]

      -- `CONFIGURED` is `none` until it is set.
      pub configure :
          List (SubHeapRegistration Name)
          → Option (List (Name × H))
          → Budgets Name
          → Option (Result (ConfigureError Name E) (Unit {0}) × Option (List (Name × H)))
      configure regs (some map) b = some (err already_configured, some map)
      configure regs none b = elim (validate b regs 0) [
        | err e ↦ some (err e, none)
        | ok sum ↦ if ltb b.total sum then some (err (over_budget sum b.total), none) else (do
          built ← build_each b regs []
          elim built [ err e ↦ some (err e, none) | ok map ↦ some (ok tt, some map) ])
      ]

  abbrev pub subheap : {H : Type 0} → Option (List (Name × H)) → Name → Option H
  subheap none name = none
  subheap (some map) name = find map name

abbrev pub all : {Name H : Type 0} → Option (List (Name × H)) → List (Name × H)
all none = []
all (some map) = map

abbrev pub is_configured : {Name H : Type 0} → Option (List (Name × H)) → Bool
is_configured none = false
is_configured (some map) = true
