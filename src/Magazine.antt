-- ===== src/Magazine.antt =====
-- The magazine of one size class in toccata-core/src/magazine.rs, a stack of free objects that one
-- thread owns, over the sub-heap behind it. A panic is `none`.
mod Stack
pub mod Exchange
mod Backed
mod Tests
use toccata.Base.{
  ℕ, zero, suc, ◌+◌, ◌-◌, ◌*◌, ◌/◌, ◌≤◌, ◌&&◌, Option, none, some, ltb, leb, if◌then◌else◌, ◌>>=◌,
  ◌>>◌, Bool, true, false, List, [], ◌∷◌, length, Slice, sys_boxed_slice, read, write, update,
}

abbrev pub mag_cap : ℕ
mag_cap = 32

pub record Magazine : Type 0 where
  pub len : ℕ
  pub ptrs : Slice ℕ

abbrev pub new : Magazine
new = record { len = 0; ptrs = sys_boxed_slice mag_cap (λ _. 0) }

pub try_pop : Magazine → Option (Option ℕ × Magazine)
try_pop m =
    if ltb 0 m.len
    then (do p ← read m.ptrs (m.len - 1); some (some p, record m { len = m.len - 1 }))
    else some (none, m)

pub try_push : Magazine → ℕ → Option (Bool × Magazine)
try_push m ptr =
    if ltb m.len mag_cap
    then (do s ← write m.ptrs m.len ptr; some (true, record { len = m.len + 1; ptrs = s }))
    else some (false, m)

-- `slice[i..i + n]`, as a list.
pub slots : (ℕ → ℕ) → ℕ → ℕ → List ℕ
slots f i zero = []
slots f i (suc n) = f i ∷ slots f (i + 1) n

-- The writes of a batch into a slice from `i` on, and `slice[i..i + n].reverse()`.
abbrev pub fill : (ℕ → ℕ) → ℕ → List ℕ → ℕ → ℕ
fill f i [] = f
fill f i (x ∷ xs) = fill (update f i x) (i + 1) xs

abbrev pub reverse_slice : (ℕ → ℕ) → ℕ → ℕ → ℕ → ℕ
reverse_slice f i n k = if leb i k && ltb k (i + n) then f (i + (i + n - 1 - k)) else f k

-- `slice.copy_within(from..to, 0)`
abbrev pub copy_within : (ℕ → ℕ) → ℕ → ℕ → ℕ → ℕ
copy_within f from to k = if ltb k (to - from) then f (from + k) else f k

-- What the magazine calls of the sub-heap for its class: a batch of up to so many objects, in ascending
-- addresses, and the return of a batch. A call that panics is `none`.
pub record Backing (S : Type 0) : Type 0 where
  pub refill_batch : S → ℕ → Option (List ℕ × S)
  pub dealloc_class_batch : S → List ℕ → Option S

module _ {S : Type 0} (sub : Backing S) where
  pub refill : S → Magazine → Option (Option ℕ × Magazine × S)
  refill s m =
      if leb (m.len + mag_cap) m.ptrs.len
      then (do
        (batch, s) ← sub.refill_batch s mag_cap
        let got = length batch
        let filled = reverse_slice (fill m.ptrs.at m.len batch) m.len got
        (r, m) ←
            try_pop (record { len = m.len + got; ptrs = record { len = m.ptrs.len; at = filled } })
        some (r, m, s))
      else none

  pub alloc : S → Magazine → Option (Option ℕ × Magazine × S)
  alloc s m = do (r, q) ← try_pop m; elim r [ none ↦ refill s q | some p ↦ some (some p, q, s) ]

  -- `m.len as usize - drop_n` panics below zero.
  pub drain_then_push : S → Magazine → ℕ → Option (Magazine × S)
  drain_then_push s m ptr =
      let drop_n = mag_cap * 3 / 4 in
      if leb drop_n m.len
      then (do
        s ← sub.dealloc_class_batch s (slots m.ptrs.at 0 drop_n)
        let kept = copy_within m.ptrs.at drop_n m.len
        let new_len = m.len - drop_n
        t ← write (record { len = m.ptrs.len; at = kept }) new_len ptr
        some (record { len = new_len + 1; ptrs = t }, s))
      else none

  pub free : S → Magazine → ℕ → Option (Magazine × S)
  free s m ptr = do
    (pushed, q) ← try_push m ptr
    if pushed then some (q, s) else drain_then_push s q ptr
