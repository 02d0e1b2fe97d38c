-- ===== src/Registry/Tests.antt =====
-- A concrete configuration for the theorem about toccata-core/src/registry.rs: names are numbers, and
-- building fails above a megabyte.
use toccata.Base.{ℕ, ◌+◌, none, List, [], ◌∷◌, ltb, ◌==◌, if◌then◌else◌}
use toccata.Registry.{return_none, SubHeapRegistration, Budgets, new, sub, Result, ok, err}
use toccata.Registry.Outcome.{Configures, configure-Outcome}

abbrev budgets : Budgets ℕ
budgets = sub (sub (new 1000000) 1 4096) 2 65536

abbrev build_standalone : SubHeapRegistration ℕ → ℕ → Result ℕ ℕ
build_standalone reg bytes = if ltb 1048576 bytes then err bytes else ok (reg.name + bytes)

abbrev registrations : List (SubHeapRegistration ℕ)
registrations =
    record { name = 2; on_exhaust = return_none; cap_per_class = 256 }
    ∷ record { name = 1; on_exhaust = return_none; cap_per_class = 64 }
    ∷ []

configure-Outcome_example : Configures (λ a c. a == c) budgets build_standalone registrations none
configure-Outcome_example =
    configure-Outcome (λ a c. a == c) budgets build_standalone registrations none
