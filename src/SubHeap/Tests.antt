-- ===== src/SubHeap/Tests.antt =====
-- The theorems about the sub-heap of toccata-core/src/subheap.rs, each at a concrete input.
use toccata.Base.{
  ℕ, ◌*◌, ◌^◌, ◌≤◌, ◌≡◌, refl, arith, some, All, ltb, ◌&&◌, ◌-◌, ◌/◌, ◌%◌, true, false, ◌==◌,
  sys_boxed_slice, List, [], ◌∷◌,
}
use toccata.SpanPool.{no_span}
use toccata.Meta.Table as Table
use toccata.Meta.Bitmaps.{SpanBitmaps, word_at}
use toccata.Meta.Bitmaps.Active.{IsActive}
use toccata.Meta.Bitmaps.Effects.{IsValid, free_bit, with_alloc, with_alloc-IsValid}
use toccata.Meta.Table.{SpanTable, assign_range}
use toccata.SubHeap.Central.{CentralList, central_take}
use toccata.Base.Bits.{bit-zero}
use toccata.SizeClass.{num_classes, size_of_class}
use toccata.Meta.Table.{home_relaxed}
use toccata.Slab.{Thread}
use toccata.Slab.Sequence.{never}
use toccata.SubHeap.Hands.{free, Handed, Slots-ext, places, without_all, AreFree}
use toccata.SubHeap.Pools.{Pools, Envs, is_local, dealloc_class_batch}
use toccata.SubHeap.GiveBack.{IsRemote, IsReady}
use toccata.SubHeap.RoundTrip.{take-give_back, deposit_each, dealloc_class_batch-eq-deposit_each}
use toccata.SubHeap.Carving.{carve_or_reuse_spans, carve_tiles}
use toccata.SubHeap.Claim.{Claims, carve_or_reuse_spans-Claims}
use toccata.SubHeap.Tiles.{bit-ones}
use toccata.SubHeap.Stock.{Backs, Stocks, carve_tiles-Stocks}
use toccata.SubHeap.Take.{Takes}
use toccata.SubHeap.Hinted.{IsHint, SameSpans, words, central_take-Takes}
use toccata.SubHeap.LargeTests.{four_spans, four_spans-IsSound}

-- Four spans without objects, and the same with the first `m` slots of span 1 free.
abbrev no_objects : SpanBitmaps
no_objects = record {
  base = 2 ^ 20;
  alloc_words = sys_boxed_slice (4 * 128) (λ _. 0);
  free_words = sys_boxed_slice (4 * 128) (λ _. 0);
  next_active = sys_boxed_slice 4 (λ _. no_span);
  on_list = sys_boxed_slice 4 (λ i. i == 1);
}

abbrev with_slots_free : ℕ → SpanBitmaps
with_slots_free m = with_alloc no_objects (word_at 1 0) (2 ^ m - 1)

no_objects-IsValid : IsValid 4 no_objects
no_objects-IsValid = record {
  alloc_len = refl;
  free_len = refl;
  next_len = refl;
  on_list_len = refl;
  alloc_wide = λ i. omega arith;
  free_wide = λ i. omega arith;
}

free-with_slots_free :
    (m j t : ℕ) → m ≤ 64 → free (with_slots_free m) j t ≡ (ltb t 8192 && (j == 1) && ltb t m)
unfolding free free_bit
free-with_slots_free m j t le = ground (arith, bit-ones m (t % 64), bit-zero (t % 64), le)

abbrev one_active : SpanBitmaps
one_active = with_slots_free 10

one_active-IsValid : IsValid 4 one_active
one_active-IsValid = with_alloc-IsValid (word_at 1 0) 1023 (omega arith) no_objects-IsValid

table : SpanTable
table = Table.new (2 ^ 20) (4 * 65536)

one_active-SameSpans : SameSpans 4 one_active table
unfolding table Table.new
one_active-SameSpans = record {
  valid = record { cover = refl; fits = omega arith };
  same_base = refl;
  spans = refl;
}

abbrev one_span : CentralList
one_span = record { head = 1; lock = 1; reuse_hint = no_span }

one_span-IsActive : IsActive 4 one_active 1 (1 ∷ [])
one_span-IsActive = record {
  chain = (refl, omega arith, refl);
  distinct = (tt, tt);
  inside = (omega arith, tt);
  marked = (refl, tt);
}

central_take-Takes_example :
    (h : ℕ) × IsHint one_active table 4 20 h
    × Takes 4 one_active 1536 3
        (words 1536)
        h
        (1 ∷ [])
        (central_take 1 one_span one_active table 3 1536 20)
central_take-Takes_example =
    central_take-Takes one_span (1 ∷ []) 1 3 1536 20 one_active-IsValid one_active-SameSpans
      one_span-IsActive (omega arith) (omega arith) (omega arith)

-- The sub-heap of two shards, and a thread of shard 1.
abbrev pub two_shards : Pools
two_shards = record {
  slab = record {
    base = 0;
    num_cpus = 2;
    shift = 12;
    classes = sys_boxed_slice 0 (λ _. record { header_off = 0; slots_off = 0; lock_off = 0 });
    stopped = sys_boxed_slice 2 (λ _. 0);
  };
  memory = λ _. 0;
  central = sys_boxed_slice (2 * num_classes) (λ _. one_span);
  bitmaps = one_active;
  num_shards = 2;
  store = four_spans;
}

abbrev pub thread : Thread
thread = record { current_cpu = some 1; anchor = 0 }

abbrev pub calm : ℕ → Envs
calm i k pass = record { cpu_id_start = 1; cpu_id = 1; interrupt = never; others = λ m. m }

two_shards-IsReady : IsReady two_shards 4
unfolding Table.new
two_shards-IsReady = record {
  bitmaps = one_active-IsValid;
  table = record { cover = refl; fits = omega arith };
  shards = omega arith;
  lists = refl;
  cells = omega arith;
  grid = omega arith;
  narrow = omega arith;
}

abbrev given_back : List (ℕ × ℕ)
given_back = (1, 10) ∷ []

given_back-IsRemote : All (IsRemote two_shards 4 1536 1) given_back
unfolding home_relaxed is_local Table.new
given_back-IsRemote = (
  record {
    inside = record { span = omega arith; slot = omega arith };
    home = 0;
    found = refl;
    remote = refl;
  },
  tt,
)

class_24 : size_of_class 24 ≡ some 1536
unfolding size_of_class
class_24 = refl

dealloc_class_batch-eq-deposit_each_example :
    (q : Pools) × (p : SpanBitmaps) × (dealloc_class_batch two_shards thread calm 1
        (places (2 ^ 20) 1536 given_back)
        24
      ≡ some q)
    × (deposit_each one_active 1536 (places (2 ^ 20) 1536 given_back) ≡ some p)
    × (free q.bitmaps ≡ free p)
dealloc_class_batch-eq-deposit_each_example =
    dealloc_class_batch-eq-deposit_each 24 1536 1 thread calm given_back two_shards-IsReady
      (omega arith) class_24 (omega arith) given_back-IsRemote

-- Of eleven free slots the last one has been handed out.
Handed-out :
    Handed 4 (with_slots_free 11) 1536 1 (places (2 ^ 20) 1536 given_back) given_back one_active
unfolding without_all AreFree
Handed-out = record {
  valid = one_active-IsValid;
  objects = refl;
  gone = Slots-ext (λ j t. ground (
    arith,
    free-with_slots_free 10 j t (omega arith),
    free-with_slots_free 11 j t (omega arith),
  ));
  are_free = (free-with_slots_free 11 1 10 (omega arith), tt);
  few = omega arith;
  same_base = refl;
  same_links = refl;
  same_marks = refl;
}

take-give_back_example :
    (q : Pools) × (dealloc_class_batch two_shards thread calm 1 (places (2 ^ 20) 1536 given_back) 24
      ≡ some q)
    × (free q.bitmaps ≡ free (with_slots_free 11))
take-give_back_example =
    take-give_back 24 1536 1 1 thread calm (places (2 ^ 20) 1536 given_back) given_back
      two_shards-IsReady (omega arith) class_24 (omega arith) Handed-out given_back-IsRemote

-- The arena as it was built, with no span on a list.
four_spans-Backs :
    Backs four_spans 4 (record no_objects { on_list = sys_boxed_slice 4 (λ _. false) })
four_spans-Backs = record {
  valid = record {
    alloc_len = refl;
    free_len = refl;
    next_len = refl;
    on_list_len = refl;
    alloc_wide = λ i. omega arith;
    free_wide = λ i. omega arith;
  };
  same_base = refl;
  grid = omega arith;
  small = omega arith;
  reach = omega arith;
  off_list = λ x h. refl;
}

carve_or_reuse_spans-Claims_example :
    Claims four_spans [] 2 24 1 (carve_or_reuse_spans four_spans true 2 24 1)
carve_or_reuse_spans-Claims_example =
    carve_or_reuse_spans-Claims four_spans [] four_spans-IsSound 2 24 1 (omega arith) (omega arith)
      (omega arith) (omega arith) (omega arith) true

carve_tiles-Stocks_example :
    Stocks four_spans [] 4
      (record no_objects { on_list = sys_boxed_slice 4 (λ _. false) })
      no_span
      []
      (65536 / 1536)
      2
      24
      1
      (carve_tiles four_spans
        (record no_objects { on_list = sys_boxed_slice 4 (λ _. false) })
        false
        no_span
        1536
        24
        1
        64)
carve_tiles-Stocks_example =
    carve_tiles-Stocks four_spans [] 4
      (record no_objects { on_list = sys_boxed_slice 4 (λ _. false) }) no_span [] 1536 24 1 64
      four_spans-IsSound four_spans-Backs
      (record { chain = refl; distinct = tt; inside = tt; marked = tt }) (omega arith) (omega arith)
      (omega arith) (omega arith) (omega arith) (omega arith) false
