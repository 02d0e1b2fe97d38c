-- ===== src/SpanPool/History.antt =====
-- What every history of calls of the pool in toccata-core/src/spanpool.rs keeps: each span has one
-- owner.
use toccata.Base.{
  ℕ, ◌+◌, ◌≤◌, ◌<◌, ◌≡◌, ◌≢◌, refl, ◌∙◌, subst, Option, arith, ◌&&◌, ◌||◌, ◌==◌, ltb, leb, max,
  if◌then◌else◌, inl, inr, Bool-cases, false, none, some, [], ◌∷◌, ◌++◌,
}
use toccata.SpanPool.{SpanPool, no_span, new, free}
use toccata.SpanPool.Valid.{IsValid}
use toccata.SpanPool.Client.{
  Live, holds, owners, Client, Step, obtain, return, Reach, seed, next, IsOwned, InGrid, IsSound,
}
use toccata.SpanPool.Alloc.{Carved, Allocates, exhausted, carved, alloc-Allocates}
use toccata.SpanPool.Spans.{IsFreeSpan, IsTaken}
use toccata.SpanPool.Free.{Freed, free-Freed}
use toccata.SpanPool.New.{new-IsValid}

pub owners-append :
    (x : ℕ) (rs : Live) (r : ℕ × ℕ) (ss : Live)
    → owners x (rs ++ r ∷ ss) ≡ (if holds r x then owners x (rs ++ ss) + 1 else owners x (rs ++ ss))
unfolding owners
owners-append x [] r ss = refl
owners-append x (q ∷ rs) r ss = ground (arith, owners-append x rs r ss)

pub InGrid-append :
    (n : ℕ) (rs : Live) (h c : ℕ) (ss : Live)
    → InGrid n (rs ++ (h, c) ∷ ss)
    → (c ≢ 0) × (h + c ≤ n) × InGrid n (rs ++ ss)
InGrid-append n [] h c ss g = g
InGrid-append n ((k, d) ∷ rs) h c ss g =
    let rest = InGrid-append n rs h c ss g.2 in (rest.0, rest.1, (g.0, g.1, rest.2))

-- What `alloc` does to the free spans.
module _ {p q : SpanPool} {n h : ℕ} (v : IsValid p) (pos : n ≢ 0) (k : Carved p n h q) where
  pub carved_taken : (x : ℕ) → h ≤ x → x < h + n → ¬ IsFreeSpan q.head_count.at x
  carved_taken x l u (j, ne, l', u') =
      ground (arith, k.counts j, k.fits, v.tagged.apart j h, v.tagged.apart h j)

  pub carved_only : (x : ℕ) → IsFreeSpan q.head_count.at x → IsFreeSpan p.head_count.at x
  carved_only x (j, ne, l, u) = elim (Bool-cases ((j == h + n) && ltb n (p.head_count.at h))) [
    | inl e ↦ (h, ground (arith, k.fits), ground arith, ground (arith, k.counts j))
    | inr e ↦ (j, ground (arith, k.counts j), l, ground (arith, k.counts j))
  ]

  carved_kept :
      (x : ℕ)
      → (leb h x && ltb x (h + n)) ≡ false
      → IsFreeSpan p.head_count.at x
      → IsFreeSpan q.head_count.at x
  carved_kept x out (j, ne, l, u) = elim (Bool-cases (j == h)) [
    | inl e ↦ (
      h + n,
      ground (arith, k.counts (h + n), k.fits),
      ground arith,
      ground (arith, k.counts (h + n), k.fits),
    )
    | inr e ↦
        let same : q.head_count.at j ≡ p.head_count.at j =
          ground (arith, k.counts j, v.tagged.apart h j) in
        (j, rw same ne, l, rw same u)
  ]

  pub carved_free : (x : ℕ) → h ≤ x → x < h + n → IsFreeSpan p.head_count.at x
  carved_free x l u = (h, omega (arith, k.fits), l, omega (arith, k.fits))

owners_of_free :
    (s : Client) (x : ℕ) → IsOwned s x → IsFreeSpan s.pool.head_count.at x → owners x s.live ≡ 0
owners_of_free s x (inl (f, o)) f' = o
owners_of_free s x (inr (f, o)) f' = absurd (f f')

obtain-IsSound :
    {m n h : ℕ} {p q : SpanPool} {rs : Live}
    → n ≢ 0
    → Carved p n h q
    → IsSound m (record { pool = p; live = rs })
    → IsSound m (record { pool = q; live = (h, n) ∷ rs })
unfolding owners
obtain-IsSound {m} {n} {h} {p} {q} {rs} pos k s = record {
  valid = k.valid;
  spans = k.same_spans ∙ s.spans;
  in_grid = (pos, ground (arith, k.fits, s.spans, s.valid.tagged.in_grid h), s.in_grid);
  owned = λ x l. elim (Bool-cases (leb h x && ltb x (h + n))) [
    | inl e ↦ inr (
      carved_taken s.valid pos k x (ground arith) (ground arith),
      rw e (
          omega (
            arith,
            owners_of_free _ x (s.owned x l)
                (carved_free s.valid pos k x (ground arith) (ground arith)),
          )),
    )
    | inr e ↦ elim (s.owned x l) [
      | inl (f, o) ↦ inl (carved_kept s.valid pos k x e f, rw e o)
      | inr (f, o) ↦ inr ((λ f'. f (carved_only s.valid pos k x f')), rw e o)
    ]
  ];
}

module _ {m : ℕ} {p : SpanPool} (rs : Live) (h c : ℕ) (ss : Live)
    (s : IsSound m (record { pool = p; live = rs ++ (h, c) ∷ ss })) where
  held-InGrid : (c ≢ 0) × (h + c ≤ m) × InGrid m (rs ++ ss)
  held-InGrid = InGrid-append m rs h c ss s.in_grid

  held_not_free : (x : ℕ) → h ≤ x → x < h + c → ¬ IsFreeSpan p.head_count.at x
  held_not_free x l u f = ground (
    arith,
    owners_of_free _ x (s.owned x (omega (arith, held-InGrid.1))) f,
    owners-append x rs (h, c) ss,
  )

  held-IsTaken : IsTaken p.head_count.at h c
  held-IsTaken k q = elim (Bool-cases (leb (k + p.head_count.at k) h || leb (h + c) k)) [
    | inl e ↦ ground arith
    | inr e ↦ absurd (
        held_not_free (max h k) (omega arith) (ground (arith, held-InGrid.0))
          (k, q, omega arith, ground arith))
  ]

  -- A held run can always be returned.
  free_held : (q : SpanPool) × (free p h c ≡ some q) × Freed p h c q
  free_held =
      free-Freed h c s.valid held-InGrid.0 (omega (arith, held-InGrid.1, s.spans)) held-IsTaken

  return-IsOwned :
      {q : SpanPool}
      → Freed p h c q
      → (x : ℕ) → x < m
      → IsOwned (record { pool = q; live = rs ++ ss }) x
  return-IsOwned f x l = elim (Bool-cases (leb h x && ltb x (h + c))) [
    | inl e ↦ inl (
      f.gained x (ground arith) (ground arith),
      elim (s.owned x l) [
        | inl (g, o) ↦ absurd (held_not_free x (ground arith) (ground arith) g)
        | inr (g, o) ↦ ground (arith, owners-append x rs (h, c) ss)
      ],
    )
    | inr e ↦ elim (s.owned x l) [
      | inl (g, o) ↦ inl (f.kept x g, ground (arith, owners-append x rs (h, c) ss))
      | inr (g, o) ↦ inr (
        (λ g'. elim (f.only x g') [ inl g'' ↦ g g'' | inr (a, b) ↦ ground arith ]),
        ground (arith, owners-append x rs (h, c) ss),
      )
    ]
  ]

  return-IsSound : {q : SpanPool} → Freed p h c q → IsSound m (record { pool = q; live = rs ++ ss })
  return-IsSound f = record {
    valid = f.valid;
    spans = f.same_spans ∙ s.spans;
    in_grid = held-InGrid.2;
    owned = return-IsOwned f;
  }

-- The second half of `Allocates`, at the value that is returned.
abbrev Took : SpanPool → ℕ → Option (Option ℕ × SpanPool) → Type 0
Took p n none = Unit
Took p n (some (none, q)) = Unit
Took p n (some (some h, q)) = Carved p n h q

Took-of_alloc :
    {p : SpanPool} {n : ℕ} {r : Option (Option ℕ × SpanPool)} → Allocates p n r → Took p n r
Took-of_alloc (exhausted e) = tt
Took-of_alloc (carved h q k) = k

Step-IsSound : {m : ℕ} {a b : Client} → Step a b → IsSound m a → IsSound m b
Step-IsSound (obtain n h p q rs pos e) s =
    obtain-IsSound pos (subst (Took p n) e (Took-of_alloc (alloc-Allocates n s.valid pos))) s
Step-IsSound (return h c p q rs ss e) s =
    let (q', e', f) = free_held rs h c ss s in
    let same : q' ≡ q = ground arith in return-IsSound rs h c ss s (subst (Freed p h c) same f)

seed-IsSound :
    {m : ℕ} {p : SpanPool}
    → m ≢ 0
    → m < no_span
    → free (new m) 0 m ≡ some p
    → IsSound m (record { pool = p; live = [] })
unfolding owners
seed-IsSound {m} {p} pos small e =
    let (v, n, f) = new-IsValid m small in
    let empty =
      λ (k : ℕ) (q : (new m).head_count.at k ≢ 0). absurd (f k (k, q, omega arith, omega arith)) in
    let (q', e', d) = free-Freed {p = new m} 0 m v pos (omega arith) empty in
    let same : q' ≡ p = ground arith in
    subst (λ r. IsSound m (record { pool = r; live = [] })) same
      (record {
        valid = d.valid;
        spans = omega (arith, d.same_spans);
        in_grid = tt;
        owned = λ x l. inl (d.gained x (omega arith) (omega arith), refl);
      })

-- After any history each span of the grid is free or held exactly once, so that no span is handed
-- out twice and none is lost, and the pool is valid.
pub Reach-IsSound : {m : ℕ} {s : Client} → m ≢ 0 → m < no_span → Reach m s → IsSound m s
Reach-IsSound pos small (seed p e) = seed-IsSound pos small e
Reach-IsSound pos small (next r st) = Step-IsSound st (Reach-IsSound pos small r)

-- In every history a held run can be returned: `free` does not panic on it.
pub Reach-return :
    {m : ℕ} {p : SpanPool} (rs : Live) (h c : ℕ) (ss : Live)
    → m ≢ 0
    → m < no_span
    → Reach m (record { pool = p; live = rs ++ (h, c) ∷ ss })
    → (q : SpanPool) × (free p h c ≡ some q)
Reach-return rs h c ss pos small r =
    let (q, e, f) = free_held rs h c ss (Reach-IsSound pos small r) in (q, e)
