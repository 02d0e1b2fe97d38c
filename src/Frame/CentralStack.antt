-- ===== src/Frame/CentralStack.antt =====
-- What `push` and `pop` of the central stack of toccata-core/src/frame.rs do to its contents.
use toccata.Base.{
  ℕ, ◌+◌, ◌-◌, ◌≤◌, ◌<◌, ◌≡◌, ◌≢◌, inl, inr, refl, ap, ◌∙◌, arith, Option, none, some, Bool-cases,
  ◌==◌, put,
}
use toccata.Base.Stacks.{stack-top, stack-push, length-stack}
use toccata.Base.Totals.{total, total-cons, total-once, once}
use toccata.Base.LocalStack.{Takes, took, refused}
use toccata.Frame.Central.{Central, push, pop, contents}

-- The frames of the stack fit into it, and `n` are all it could hold.
pub record Fits (n : ℕ) (c : Central) : Type 0 where
  pub room : c.slots.len ≡ n
  pub few : c.top ≤ n

pub length-contents : (c : Central) → total once (contents c) ≡ c.top
length-contents c = total-once (contents c) ∙ length-stack c.top c.slots.at

pub push-ok :
    (n : ℕ) (c : Central) (p : ℕ)
    → Fits n c
    → c.top < n
    → (q : Central) × (push c p ≡ some q)
      × Fits n q
      × ((w : ℕ → ℕ) → total w (contents q) ≡ w p + total w (contents c))
unfolding push
push-ok n c p v h = (
  record { slots = put c.slots c.top p; top = c.top + 1 },
  ground (arith, v.room, h),
  record { room = v.room; few = omega (arith, h) },
  λ w. ap (total w) (stack-push c.top c.slots.at p) ∙ total-cons w p (contents c),
)

pub pop-Takes :
    (n : ℕ) (c : Central)
    → Fits n c
    → (r : Option ℕ) × (q : Central) × (pop c ≡ some (r, q))
      × Fits n q
      × Takes contents c r q
      × (r ≡ none → (c.top ≡ 0) × (q.top ≡ 0))
unfolding pop
pop-Takes n c v = elim (Bool-cases (c.top == 0)) [
  | inl t ↦
      (none, c, rw t refl, v, refused (λ w. refl), λ _. (ground (arith, t), ground (arith, t)))
  | inr f ↦
      let ne : c.top ≢ 0 = ground (arith, f) in
      (
        some (c.slots.at (c.top - 1)),
        record c { top = c.top - 1 },
        ground (arith, ne, v.room, v.few),
        record { room = v.room; few = omega (arith, v.few) },
        took (λ w. ap (total w) (stack-top c.top c.slots.at ne) ∙ total-cons w _ _),
        λ e. absurd (cc e),
      )
]
