-- ===== src/Base/LocalStack.antt =====
-- What the pools ask of the processors' stacks: to take and to give an object, where either may refuse
-- and nothing is lost. `contents` lists the objects in all the stacks, in any order.
use Prim.Native.Nat.{ℕ, ◌+◌}
use mathlib.Core.Path.{◌≡◌}
use mathlib.Core.List.{List}
use mathlib.Core.Bool.{Bool, true, false}
use mathlib.Core.Option.{Option, none, some}
use toccata.Base.Totals.{total}

-- How taking and giving change what the stacks weigh, whatever the weights.
pub data Takes {S : Type 0} (contents : S → List ℕ) (s : S) : Option ℕ → S → Type 0 where
  took :
      {p : ℕ} {t : S}
      → ((w : ℕ → ℕ) → total w (contents s) ≡ w p + total w (contents t))
      → Takes contents s (some p) t
  refused :
      {t : S}
      → ((w : ℕ → ℕ) → total w (contents t) ≡ total w (contents s))
      → Takes contents s none t

pub data Gives {S : Type 0} (contents : S → List ℕ) (s : S) (p : ℕ) : Bool → S → Type 0 where
  given :
      {t : S}
      → ((w : ℕ → ℕ) → total w (contents t) ≡ w p + total w (contents s))
      → Gives contents s p true t
  full :
      {t : S}
      → ((w : ℕ → ℕ) → total w (contents t) ≡ total w (contents s))
      → Gives contents s p false t

-- `pop` is `none` and `push` is `false` where the source says `NeedsSlow`.
pub record LocalStack (S : Type 0) : Type 0 where
  pub pop : S → Option ℕ × S
  pub push : S → ℕ → Bool × S
  pub contents : S → List ℕ
  pub pop-Takes : (s : S) → Takes contents s (pop s).0 (pop s).1
  pub push-Gives : (s : S) (p : ℕ) → Gives contents s p (push s p).0 (push s p).1
