-- ===== src/SpanPool/Client.antt =====
-- A client of the pool in toccata-core/src/spanpool.rs: it starts with the whole grid free, keeps the
-- runs that `alloc` hands out, and returns them by `free` in any order.
use toccata.Base.{
  ℕ, ◌+◌, ◌≤◌, ◌<◌, ◌≡◌, ◌≢◌, ◌&&◌, ltb, leb, if◌then◌else◌, ◌⊎◌, Bool, some, List, [], ◌∷◌, ◌++◌,
}
use toccata.SpanPool.{SpanPool, new, alloc, free}
use toccata.SpanPool.Valid.{IsValid}
use toccata.SpanPool.Spans.{IsFreeSpan}

-- The runs that the client holds, as head and count.
abbrev pub Live : Type 0
Live = List (ℕ × ℕ)

abbrev pub holds : ℕ × ℕ → ℕ → Bool
holds (h, c) x = leb h x && ltb x (h + c)

-- How many of the held runs contain the span `x`.
unfoldable pub owners : ℕ → Live → ℕ
owners x [] = 0
owners x (r ∷ rs) = if holds r x then owners x rs + 1 else owners x rs

pub record Client : Type 0 where
  pub pool : SpanPool
  pub live : Live

-- A request of `n` spans, or the return of a held run.
pub data Step : Client → Client → Type 0 where
  obtain :
      (n h : ℕ) (p q : SpanPool) (rs : Live)
      → n ≢ 0
      → alloc p n ≡ some (some h, q)
      → Step (record { pool = p; live = rs }) (record { pool = q; live = (h, n) ∷ rs })
  return :
      (h c : ℕ) (p q : SpanPool) (rs ss : Live)
      → free p h c ≡ some q
      → Step (record { pool = p; live = rs ++ (h, c) ∷ ss }) (record { pool = q; live = rs ++ ss })

-- A history over a grid of `n` spans, which begins with the grid as one free run.
pub data Reach (n : ℕ) : Client → Type 0 where
  seed : (p : SpanPool) → free (new n) 0 n ≡ some p → Reach n (record { pool = p; live = [] })
  next : {a b : Client} → Reach n a → Step a b → Reach n b

-- Every span is free or in exactly one held run, never both.
abbrev pub IsOwned : Client → ℕ → Type 0
IsOwned s x =
    (IsFreeSpan s.pool.head_count.at x × (owners x s.live ≡ 0))
    ⊎ ((¬ IsFreeSpan s.pool.head_count.at x) × (owners x s.live ≡ 1))

abbrev pub InGrid : ℕ → Live → Type 0
InGrid n [] = Unit
InGrid n ((h, c) ∷ rs) = (c ≢ 0) × (h + c ≤ n) × InGrid n rs

pub record IsSound (n : ℕ) (s : Client) : Type 0 where
  pub valid : IsValid s.pool
  pub spans : s.pool.num_spans ≡ n
  pub in_grid : InGrid n s.live
  pub owned : (x : ℕ) → x < n → IsOwned s x
