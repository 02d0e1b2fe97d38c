-- ===== src/Frame/Meta.antt =====
-- The policies of toccata-core/src/frame.rs that say when a freed frame goes back to the pool.
use toccata.Base.{◌≡◌, ◌⊎◌, inl, inr, refl, ℕ, add_usize, sub_usize, ◌==◌, if◌then◌else◌}

pub data Reclaim : Type 0 where
  free : Reclaim
  keep : Reclaim

pub Reclaim-cases : (r : Reclaim) → (r ≡ free) ⊎ (r ≡ keep)
Reclaim-cases free = inl refl
Reclaim-cases keep = inr refl

pub record FrameMeta (M : Type 0) : Type 0 where
  pub on_alloc : M → M
  pub on_free : M → Reclaim × M

-- Every frame has one owner.
abbrev pub sole : FrameMeta (Unit {0})
sole = record { on_alloc = λ m. m; on_free = λ m. (free, m) }

-- `RefCount`: `fetch_add` and `fetch_sub` wrap at the width.
abbrev pub retain : ℕ → ℕ
retain n = add_usize n 1

unfoldable pub release : ℕ → Reclaim × ℕ
release n = if n == 1 then (free, 0) else (keep, sub_usize n 1)

abbrev pub ref_count : FrameMeta ℕ
ref_count = record { on_alloc = λ n. 1; on_free = release }
