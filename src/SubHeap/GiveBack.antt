-- ===== src/SubHeap/GiveBack.antt =====
-- What `central_deposit` and `dealloc_class_batch` of toccata-core/src/subheap.rs do to the free slots.
use toccata.Base.{
  ℕ, ◌+◌, ◌*◌, ◌/◌, ◌%◌, ◌^◌, ◌≤◌, ◌<◌, ◌≡◌, ◌≢◌, ◌⊎◌, inl, inr, refl, sym, ap, subst, ◌∙◌, arith,
  false, some, List, [], ◌∷◌, length, ltb, ◌==◌, Bool-cases, All, put, read-ok, write-ok, update,
  mul_usize, add_usize, Slice,
}
use toccata.SizeClass.{num_classes, size_of_class}
use toccata.SpanPool.{no_span}
use toccata.Meta.Table.{home_relaxed}
use toccata.Meta.Table.Assign as Table
use toccata.Meta.Table.Home.{home_relaxed-lookup}
use toccata.Meta.Bitmaps.{SpanBitmaps, span_base, locate}
use toccata.Meta.Bitmaps.Effects.{IsValid}
use toccata.Slab.{Thread, current}
use toccata.SubHeap.Central.{CentralList}
use toccata.Base.Bits.{bit-zero}
use toccata.SubHeap.Hands.{Slots-ext, free, with_slots, place, places}
use toccata.SubHeap.Large.{Store, CpuCounter, cell, negated, add_local}
use toccata.SubHeap.Pools.{
  Pools, Envs, Pending, is_local, coalesce, batch_each, publish_hint, dealloc_class_batch,
}
use toccata.SubHeap.Flush.{
  Kept, Kept-refl, Kept-trans, pending, IsPending, InSpan, flush_pending-ok, coalesce-ok, slot-lt,
  locate-place,
}

-- An object in a slot whose home is another shard.
pub record IsRemote (s : Pools) (n osz my_shard : ℕ) (h : ℕ × ℕ) : Type 0 where
  pub inside : InSpan n osz h
  pub home : ℕ
  pub found : home_relaxed s.store.spans (place s.bitmaps.base osz h) ≡ some home
  pub remote : is_local s.num_shards my_shard home ≡ false

abbrev with_bitmaps : Pools → SpanBitmaps → Pools
with_bitmaps s b = record s { bitmaps = b }

remote_step :
    (s : Pools) (t : Thread) (env : ℕ → Envs) (cpu class osz my_shard p : ℕ) (ptrs : List ℕ)
    (c d : Pending) (l r home : ℕ) (at : ℕ × ℕ × ℕ) (b : SpanBitmaps)
    → home_relaxed s.store.spans p ≡ some home
    → is_local s.num_shards my_shard home ≡ false
    → locate s.bitmaps p osz ≡ at
    → coalesce s.bitmaps c at ≡ some (b, d)
    → batch_each s t env cpu class osz my_shard (p ∷ ptrs) c l r
      ≡ batch_each (with_bitmaps s b) t env cpu class osz my_shard ptrs d l (r + 1)
unfolding batch_each
remote_step s t env cpu class osz my_shard p ptrs c d l r home at b found remote located gathered =
    cc (found, remote, located, gathered)

module _ (s : Pools) (n osz my_shard : ℕ) (big : 8 ≤ osz)
    (grid : s.bitmaps.base + n * 2 ^ 16 ≤ 2 ^ 64) (narrow : n < 2 ^ 32) (t : Thread)
    (env : ℕ → Envs) (cpu class : ℕ) where
  locate-Kept :
      (b : SpanBitmaps) (h : ℕ × ℕ)
      → Kept n s.bitmaps b
      → InSpan n osz h
      → locate b (place s.bitmaps.base osz h) osz ≡ (h.0, h.1 / 64, h.1 % 64)
  locate-Kept b h k i =
      subst (λ x. locate b (place x osz h) osz ≡ (h.0, h.1 / 64, h.1 % 64)) k.same_base
        (locate-place b h big (omega (arith, grid, k.same_base)) narrow i)

  -- The state of the loop after it has met the slots `hs`.
  pub record Gathers (b : SpanBitmaps) (c : Pending) (hs : List (ℕ × ℕ)) (l r : ℕ) : Type 0 where
    pub left : SpanBitmaps
    pub held : Pending
    pub runs :
        batch_each
          (with_bitmaps s b)
          t
          env
          cpu
          class
          osz
          my_shard
          (places s.bitmaps.base osz hs)
          c
          l
          r
        ≡ some (with_bitmaps s left, held, l, r + length hs)
    pub kept : Kept n s.bitmaps left
    pub ok : IsPending n held
    pub slots : pending left held ≡ with_slots (pending b c) hs
    pub last : (held.span ≡ c.span) ⊎ (held.span < n)

  batch_each-Gathers :
      (hs : List (ℕ × ℕ)) (b : SpanBitmaps) (c : Pending) (l r : ℕ)
      → Kept n s.bitmaps b
      → IsPending n c
      → All (IsRemote s n osz my_shard) hs
      → Gathers b c hs l r
  unfolding batch_each with_slots places
  batch_each-Gathers [] b c l r k ok remote = record {
    left = b;
    held = c;
    runs = ap (λ x. some (with_bitmaps s b, c, l, x)) (omega arith);
    kept = k;
    ok = ok;
    slots = refl;
    last = inl refl;
  }
  batch_each-Gathers (h ∷ hs) b c l r k ok (a, remote) =
      let (q, d, runs, kept, fine, same, here) =
        coalesce-ok c h.0 h.1 k.valid ok a.inside.span
          (slot-lt s.bitmaps h big grid narrow a.inside) in
      let rest = batch_each-Gathers hs q d l (r + 1) (Kept-trans k kept) fine remote in
      record {
        left = rest.left;
        held = rest.held;
        runs =
            remote_step (with_bitmaps s b) t env cpu class osz my_shard (place s.bitmaps.base osz h)
              (places s.bitmaps.base osz hs) c d l r a.home (h.0, h.1 / 64, h.1 % 64) q a.found
              a.remote (locate-Kept b h k a.inside) runs
            ∙ rest.runs
            ∙ ap (λ x. some (with_bitmaps s rest.left, rest.held, l, x)) (omega arith);
        kept = rest.kept;
        ok = rest.ok;
        slots = rest.slots ∙ ap (λ f. with_slots f hs) same;
        last = elim rest.last [
          | inl e ↦ inr (omega (arith, e, here, a.inside.span))
          | inr e ↦ inr e
        ];
      }

-- What a sub-heap with `n` spans must have for a class of objects to be given back.
pub record IsReady (s : Pools) (n : ℕ) : Type 0 where
  pub bitmaps : IsValid n s.bitmaps
  pub table : Table.IsValid s.store.spans
  pub shards : s.num_shards ≢ 0
  pub lists : s.central.len ≡ s.num_shards * num_classes
  pub cells : s.store.counters.len ≢ 0
  pub grid : s.bitmaps.base + n * 2 ^ 16 ≤ 2 ^ 64
  pub narrow : n < no_span

-- The active lists start where they did.
abbrev pub SameHeads : Pools → Pools → Type 0
SameHeads s q = (i : ℕ) → (q.central.at i).head ≡ (s.central.at i).head

list_inside :
    (home shards class : ℕ)
    → shards ≢ 0
    → class < num_classes
    → home % shards * num_classes + class < shards * num_classes
list_inside home shards class some_shard lt = grind arith

head-update :
    (f : ℕ → CentralList) (i k : ℕ) (c : CentralList)
    → c.head ≡ (f i).head
    → (update f i c k).head ≡ (f k).head
head-update f i k c e = elim (Bool-cases (k == i)) [
  | inl t ↦ let same : k ≡ i = ground (arith, t) in rw t (e ∙ ap (λ x. (f x).head) (sym same))
  | inr t ↦ rw t refl
]

publish_into :
    {s : Pools} {n : ℕ} (class span : ℕ)
    → IsReady s n
    → class < num_classes
    → (span == no_span) ≡ false
    → (home : ℕ) → home_relaxed s.store.spans (span_base s.bitmaps span) ≡ some home
    → (q : Pools) × (publish_hint s class span ≡ some q)
      × ((q.bitmaps ≡ s.bitmaps) × (q.memory ≡ s.memory) × (q.store ≡ s.store) × SameHeads s q)
unfolding publish_hint
publish_into {s} {n} class span v lt e home found =
    let i = home % s.num_shards * num_classes + class in
    let c = record (s.central.at i) { reuse_hint = span } in
    let inside : i < s.central.len =
      omega (arith, v.lists, list_inside home s.num_shards class v.shards lt) in
    let nz : (s.num_shards == 0) ≡ false = ground (arith, v.shards) in
    (
      record s { central = put s.central i c },
      cc (e, found, nz, read-ok s.central i inside, write-ok s.central i c inside),
      (refl, refl, refl, λ k. head-update s.central.at i k c refl),
    )

publish_hint-ok :
    {s : Pools} {n : ℕ} (class span : ℕ)
    → IsReady s n
    → class < num_classes
    → (q : Pools) × (publish_hint s class span ≡ some q)
      × ((q.bitmaps ≡ s.bitmaps) × (q.memory ≡ s.memory) × (q.store ≡ s.store) × SameHeads s q)
unfolding publish_hint
publish_hint-ok {s} {n} class span v lt = elim (Bool-cases (span == no_span)) [
  | inl e ↦ (s, rw e refl, (refl, refl, refl, λ i. refl))
  | inr e ↦
      let (r, looked, found) = home_relaxed-lookup v.table (span_base s.bitmaps span) in
      publish_into class span v lt e _ found
]

pub add_local-ok :
    (cells : Slice CpuCounter) (cpu bytes objs : ℕ)
    → cells.len ≢ 0
    → (r : Slice CpuCounter) × (add_local cells cpu bytes objs ≡ some r) × (r.len ≡ cells.len)
unfolding add_local
add_local-ok cells cpu bytes objs ne =
    let c = cells.at (cell cells cpu) in
    (
      put cells (cell cells cpu) (record c {
        local_bytes = add_usize c.local_bytes bytes;
        local_objs = add_usize c.local_objs objs;
      }),
      ground (arith, ne),
      refl,
    )

module _ {s : Pools} {n : ℕ} (class osz thread : ℕ) (t : Thread) (env : ℕ → Envs)
    (hs : List (ℕ × ℕ)) (v : IsReady s n) (lt : class < num_classes)
    (size : size_of_class class ≡ some osz) (big : 8 ≤ osz)
    (remote : All (IsRemote s n osz (thread % s.num_shards)) hs) where
  gathered :
      Gathers s n osz
        (thread % s.num_shards)
        big
        v.grid
        (omega (arith, v.narrow))
        t
        env
        (current t s.slab)
        class
        s.bitmaps
        (record { span = no_span; word = 0; mask = 0 })
        hs
        0
        0
  gathered =
      batch_each-Gathers s n osz (thread % s.num_shards) big v.grid (omega (arith, v.narrow)) t env
        (current t s.slab) class hs s.bitmaps (record { span = no_span; word = 0; mask = 0 }) 0 0
        (Kept-refl v.bitmaps) (record { wide = omega arith; inside = inl refl }) remote

  none_pending : pending s.bitmaps (record { span = no_span; word = 0; mask = 0 }) ≡ free s.bitmaps
  unfolding pending
  none_pending = Slots-ext (λ j k. ground (arith, bit-zero (k % 64)))

  IsReady-after : (b : SpanBitmaps) → Kept n s.bitmaps b → IsReady (with_bitmaps s b) n
  IsReady-after b k = record {
    bitmaps = k.valid;
    table = v.table;
    shards = v.shards;
    lists = v.lists;
    cells = v.cells;
    grid = omega (arith, v.grid, k.same_base);
    narrow = v.narrow;
  }

  -- A batch of objects of another shard is given back without a panic and without the stacks: their
  -- slots become free and no others do. Of the rest of the bitmaps and of the active lists nothing changes.
  pub dealloc_class_batch-Frees :
      (q : Pools) × (dealloc_class_batch s t env thread (places s.bitmaps.base osz hs) class
        ≡ some q)
      × (free q.bitmaps ≡ with_slots (free s.bitmaps) hs)
      × Kept n s.bitmaps q.bitmaps
      × (q.memory ≡ s.memory)
      × SameHeads s q
  unfolding dealloc_class_batch
  dealloc_class_batch-Frees =
      let g = gathered in
      let (b, flushed, kept, slots) = flush_pending-ok g.held g.kept.valid g.ok in
      let all = Kept-trans g.kept kept in
      let (q, published, (bits, mem, store, heads)) =
        publish_hint-ok class g.held.span (IsReady-after b all) lt in
      let now : free q.bitmaps ≡ with_slots (free s.bitmaps) hs =
        ap free bits ∙ slots ∙ g.slots ∙ ap (λ f. with_slots f hs) none_pending in
      let nz : (s.num_shards == 0) ≡ false = ground (arith, v.shards) in
      let (counters, counted, len) =
        add_local-ok q.store.counters (current t s.slab)
          (mul_usize (negated osz) (0 + (0 + length hs))) (negated (0 + (0 + length hs)))
          (λ z. v.cells (ap (λ (x : Store). x.counters.len) (sym store) ∙ z)) in
      let still = subst (λ x. Kept n s.bitmaps x) (sym bits) all in
      elim (Bool-cases (ltb 0 (0 + (0 + length hs)))) [
        | inl e ↦ (
          record q { store = record q.store { counters = counters } },
          cc (size, nz, g.runs, flushed, published, e, counted),
          now,
          still,
          mem,
          heads,
        )
        | inr e ↦ (q, cc (size, nz, g.runs, flushed, published, e), now, still, mem, heads)
      ]
