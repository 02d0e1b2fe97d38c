-- ===== src/Base/Memory.antt =====
-- `SysBoxSlice<T>` of toccata-core/src/lib.rs: a block of a fixed length whose every access is
-- checked. An access out of bounds panics, which is `none` here.
use Prim.Native.Nat.{ℕ, ◌<◌}
use mathlib.Core.Path.{◌≡◌}
use mathlib.Core.Bool.{Bool, true, false}
use mathlib.Core.Option.{Option, none, some}
use native.Mathlib.Omega.{arith}
use toccata.Base.Tests.{ltb, ◌==◌, if◌then◌else◌}

infixl 5 ◌>>=◌
abbrev pub ◌>>=◌ {ℓ κ} : {A : Type ℓ} {B : Type κ} → Option A → (A → Option B) → Option B
none >>= f = none
some a >>= f = f a

infixl 5 ◌>>◌
abbrev pub ◌>>◌ {ℓ} : {B : Type ℓ} → Option (Unit {0}) → Option B → Option B
m >> k = m >>= λ _. k

module _ {ℓ} {A : Type ℓ} where
  -- `f` with the value at `i` replaced.
  abbrev pub update : (ℕ → A) → ℕ → A → ℕ → A
  update f i v j = if j == i then v else f j

pub record Slice {ℓ} (A : Type ℓ) : Type ℓ where
  pub len : ℕ
  pub at : ℕ → A

module _ {ℓ} {A : Type ℓ} where
  -- `sys_boxed_slice(len, f)`
  abbrev pub sys_boxed_slice : ℕ → (ℕ → A) → Slice A
  sys_boxed_slice n f = record { len = n; at = f }

  abbrev pub put : Slice A → ℕ → A → Slice A
  put s i v = record { len = s.len; at = update s.at i v }

  -- `s[i]`
  abbrev pub read : Slice A → ℕ → Option A
  read s i = if ltb i s.len then some (s.at i) else none

  -- `s[i] = v`
  abbrev pub write : Slice A → ℕ → A → Option (Slice A)
  write s i v = if ltb i s.len then some (put s i v) else none

  pub read-ok : (s : Slice A) (i : ℕ) → i < s.len → read s i ≡ some (s.at i)
  read-ok s i h = ground arith

  pub write-ok : (s : Slice A) (i : ℕ) (v : A) → i < s.len → write s i v ≡ some (put s i v)
  write-ok s i v h = ground arith

-- `debug_assert!(b)` of a debug build: a failure panics.
abbrev pub debug_assert : Bool → Option (Unit {0})
debug_assert true = some tt
debug_assert false = none
