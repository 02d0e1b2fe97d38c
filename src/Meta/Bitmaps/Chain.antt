-- ===== src/Meta/Bitmaps/Chain.antt =====
-- Chains of spans through the links of toccata-core/src/meta.rs, and how they change.
use toccata.Base.{
  ℕ, ◌≡◌, ◌≢◌, refl, sym, arith, ◌&&◌, ◌==◌, if◌then◌else◌, List, [], ◌∷◌, ◌++◌, All, not,
}
use toccata.SpanPool.{no_span}

-- From `head` on, the links run through the spans of the list and end in `NO_SPAN`.
abbrev pub IsChain : (ℕ → ℕ) → ℕ → List ℕ → Type 0
IsChain nx head [] = head ≡ no_span
IsChain nx head (x ∷ xs) = (head ≡ x) × (x ≢ no_span) × IsChain nx (nx x) xs

abbrev pub AllDistinct : List ℕ → Type 0
AllDistinct [] = Unit
AllDistinct (x ∷ xs) = All (λ y. y ≢ x) xs × AllDistinct xs

-- The last span of `x ∷ xs`.
abbrev pub last : ℕ → List ℕ → ℕ
last x [] = x
last x (y ∷ xs) = last y xs

pub All-map : (P Q : ℕ → Type 0) (xs : List ℕ) → ((x : ℕ) → P x → Q x) → All P xs → All Q xs
All-map P Q [] f h = tt
All-map P Q (x ∷ xs) f (h, hs) = (f x h, All-map P Q xs f hs)

pub All-last : (P : ℕ → Type 0) (x : ℕ) (xs : List ℕ) → P x → All P xs → P (last x xs)
All-last P x [] h hs = h
All-last P x (y ∷ xs) h (k, hs) = All-last P y xs k hs

-- What holds of a list holds of the list without one element, and of that element.
pub All-cut :
    (P : ℕ → Type 0) (xs : List ℕ) (i : ℕ) (ys : List ℕ)
    → All P (xs ++ i ∷ ys)
    → P i × All P xs × All P (xs ++ ys)
All-cut P [] i ys (h, hs) = (h, tt, hs)
All-cut P (x ∷ xs) i ys (h, hs) =
    let (own, before, rest) = All-cut P xs i ys hs in (own, (h, before), (h, rest))

pub All-behind : (P : ℕ → Type 0) (xs ys : List ℕ) → All P (xs ++ ys) → All P ys
All-behind P [] ys h = h
All-behind P (x ∷ xs) ys (h, hs) = All-behind P xs ys hs

pub AllDistinct-cut :
    (xs : List ℕ) (i : ℕ) (ys : List ℕ)
    → AllDistinct (xs ++ i ∷ ys)
    → AllDistinct (xs ++ ys) × All (λ y. y ≢ i) (xs ++ ys)
AllDistinct-cut [] i ys (h, d) = (d, h)
AllDistinct-cut (x ∷ xs) i ys (h, d) =
    let (own, before, rest) = All-cut (λ y. y ≢ x) xs i ys h in
    let (e, f) = AllDistinct-cut xs i ys d in ((rest, e), (λ q. own (sym q), f))

pub IsChain-frame :
    (nx nx' : ℕ → ℕ) (head : ℕ) (xs : List ℕ)
    → All (λ x. nx' x ≡ nx x) xs
    → IsChain nx head xs
    → IsChain nx' head xs
IsChain-frame nx nx' head [] h c = c
IsChain-frame nx nx' head (x ∷ xs) (e, es) (here, real, c) =
    (here, real, rw e (IsChain-frame nx nx' (nx x) xs es c))

-- The links after span `i` behind `before` has been taken out.
module _ (nx nx' : ℕ → ℕ) (i before : ℕ)
    (links : (k : ℕ)
      → nx' k ≡ (
          if k == i
          then no_span
          else if (k == before) && not (before == no_span)
          then nx i
          else nx k)) where
  pub unmoved :
      (ys : List ℕ) → All (λ y. y ≢ i) ys → All (λ y. y ≢ before) ys → All (λ y. nx' y ≡ nx y) ys
  unmoved [] h g = tt
  unmoved (y ∷ ys) (h, hs) (g, gs) = (ground (arith, links y), unmoved ys hs gs)

  splice :
      (x : ℕ) (xs ys : List ℕ) (head : ℕ)
      → before ≡ last x xs
      → AllDistinct (x ∷ xs ++ i ∷ ys)
      → IsChain nx head (x ∷ xs ++ i ∷ ys)
      → IsChain nx' head (x ∷ xs ++ ys)
  splice x [] ys head e ((i_other, rest), (own, d)) (here, real, (to_i, i_real, c)) =
      let jump : nx' x ≡ nx i = ground (arith, links x, e) in
      let apart : All (λ k. k ≢ before) ys = rw e rest in
      (here, real, rw jump (IsChain-frame nx nx' (nx i) ys (unmoved ys own apart) c))
  splice x (y ∷ xs) ys head e (h, d) (here, real, c) =
      let (i_other, (y_other, others), _) = All-cut (λ k. k ≢ x) (y ∷ xs) i ys h in
      let last_other : last y xs ≢ x = All-last (λ k. k ≢ x) y xs y_other others in
      let same : nx' x ≡ nx x = ground (arith, links x, e) in
      (here, real, rw same (splice y xs ys (nx x) e d c))

-- The predecessor that a walk of the list hands over for the span behind `xs`.
abbrev pub before_of : List ℕ → ℕ
before_of [] = no_span
before_of (x ∷ xs) = last x xs

abbrev pub head_without : List ℕ → ℕ → ℕ → ℕ
head_without [] succ head = succ
head_without (x ∷ xs) succ head = head

pub cut-IsChain :
    (nx nx' : ℕ → ℕ) (i head : ℕ) (xs ys : List ℕ)
    → ((k : ℕ)
        → nx' k ≡ (
            if k == i
            then no_span
            else if (k == before_of xs) && not (before_of xs == no_span)
            then nx i
            else nx k))
    → AllDistinct (xs ++ i ∷ ys)
    → All (λ y. y ≢ no_span) ys
    → IsChain nx head (xs ++ i ∷ ys)
    → IsChain nx' (head_without xs (nx i) head) (xs ++ ys)
cut-IsChain nx nx' i head [] ys links (own, d) real (here, i_real, c) =
    IsChain-frame nx nx' (nx i) ys (unmoved nx nx' i no_span links ys own real) c
cut-IsChain nx nx' i head (x ∷ xs) ys links d real c =
    splice nx nx' i (last x xs) links x xs ys head refl d c
