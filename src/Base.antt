-- ===== src/Base.antt =====
-- The names that the other modules share: the libraries', passed on, the tests on numbers, the
-- option monad (`none` is a panic or a null result, as each definition says), slices of memory
-- that are read and written in bounds, and the arithmetic of machine words.
mod Tests
mod Memory
mod Lists
mod Words
pub mod Bits
pub mod Masks
pub mod Stacks
pub mod Totals
pub mod LocalStack
pub mod Count
pub use Tests.*
pub use Memory.*
pub use Lists.*
unfoldable pub use Words.*
pub use Prim.Native.Nat.{ℕ, zero, suc, ◌+◌, ◌-◌, ◌*◌, ◌/◌, ◌%◌, ◌^◌, ◌≤◌, ◌<◌, min, max}
pub use mathlib.Core.Path.{◌≡◌, refl, sym, ap, ◌∙◌, subst}
pub use mathlib.Core.Logic.{◌≢◌, ◌↔◌, ◌⊎◌, inl, inr}
pub use mathlib.Core.Bool.{Bool, true, false, not, ◌&&◌, ◌||◌}
pub use mathlib.Core.Option.{Option, none, some}
pub use mathlib.Core.List.{List, [], ◌∷◌, ◌++◌}
pub use native.Mathlib.Omega.{arith}
