-- ===== src/SizeClass.antt =====
-- toccata-core/src/sizeclass.rs: the table of object sizes and the maps from a size to its class. A
-- panic (an index out of range, a remainder by 0) is `none`; the result of the Rust function is
-- inside.
pub mod Fit
mod Waste
pub mod Lookup
pub mod Aligned
mod Tests
use toccata.Base.{
  ℕ, zero, suc, ◌+◌, ◌-◌, ◌*◌, ◌/◌, ◌%◌, ◌^◌, ◌&&◌, ◌||◌, Option, none, some, List, [], ◌∷◌, length,
  get_elem?, drop, ltb, leb, ◌==◌, if◌then◌else◌, ◌>>=◌,
}

abbrev pub max_small : ℕ
max_small = 256 * 1024

abbrev pub min_align : ℕ
min_align = 8

-- The sizes of the classes from class 1 on.
abbrev pub real_sizes : List ℕ
real_sizes =
    8 ∷ 16 ∷ 24 ∷ 32 ∷ 48 ∷ 64 ∷ 80 ∷ 96 ∷ 112 ∷ 128 ∷ 160 ∷ 192 ∷ 224 ∷ 256 ∷ 320 ∷ 384 ∷ 448 ∷ 512
    ∷ 640 ∷ 768 ∷ 896 ∷ 1024 ∷ 1280 ∷ 1536 ∷ 1792 ∷ 2048 ∷ 2560 ∷ 3072 ∷ 3584 ∷ 4096 ∷ 5120 ∷ 6144
    ∷ 7168 ∷ 8192 ∷ 10240 ∷ 12288 ∷ 14336 ∷ 16384 ∷ 20480 ∷ 24576 ∷ 28672 ∷ 32768 ∷ 49152 ∷ 65536
    ∷ 98304 ∷ 131072 ∷ 196608 ∷ 262144 ∷ []

abbrev pub class_sizes : List ℕ
class_sizes = 0 ∷ real_sizes

abbrev pub num_classes : ℕ
num_classes = length class_sizes

-- The scan of `class_for`: the list holds the sizes of the classes from `idx` on.
pub first_fit : List ℕ → ℕ → ℕ → Option ℕ
first_fit [] idx want = none
first_fit (s ∷ ss) idx want = if leb want s then some idx else first_fit ss (idx + 1) want

pub class_for : ℕ → Option ℕ
class_for size =
    if ltb max_small size
    then none
    else first_fit (drop 1 class_sizes) 1 (if size == 0 then 1 else size)

abbrev pub lookup_len : ℕ
lookup_len = max_small / 8 + 1

-- The class cursor of `build_lookup_const`, with the sizes of the classes from it on.
pub record Cursor : Type 0 where
  pub class : ℕ
  pub sizes : List ℕ

-- `while class < len && CLASS_SIZES[class] < size { class += 1 }`
pub advance : ℕ → ℕ → List ℕ → Cursor
advance size class [] = record { class = class; sizes = [] }
advance size class (s ∷ ss) =
    let rest = advance size (class + 1) ss in
    if ltb s size then rest else record { class = class; sizes = s ∷ ss }

-- The size that entry `i` stands for.
abbrev pub entry_size : ℕ → ℕ
entry_size i = if i == 0 then 1 else i * 8

-- `n` rounds of the outer loop from entry `i` on. A class is below 2^16.
pub build_from : ℕ → ℕ → Cursor → List ℕ
build_from zero i cur = []
build_from (suc n) i cur =
    let cur' = advance (entry_size i) cur.class cur.sizes in
    (if ltb cur'.class num_classes then cur'.class % 2 ^ 16 else 0) ∷ build_from n (i + 1) cur'

pub lookup : List ℕ
unfolding build_from advance
lookup = build_from lookup_len 0 (record { class = 1; sizes = real_sizes })

pub class_of : ℕ → Option (Option ℕ)
class_of size = if (size == 0) || ltb max_small size then some none else do
  c ← get_elem? lookup ((size + (min_align - 1)) / 8)
  some (if c == 0 then none else some c)

unfoldable pub size_of_class : ℕ → Option ℕ
size_of_class class = get_elem? class_sizes class

-- The `while` loop of `aligned_class`; the list holds the sizes of the classes from `class` on.
pub align_from : ℕ → ℕ → List ℕ → Option (Option ℕ)
align_from align class [] = none
align_from align class (s ∷ ss) =
    let rest = align_from align (class + 1) ss in
    if align == 0
    then none
    else if s % align == 0
    then some (some class)
    else if leb num_classes (class + 1)
    then some none
    else rest

pub aligned_class : ℕ → ℕ → Option (Option ℕ)
aligned_class need align = do
  found ← class_of need
  elim found [ none ↦ some none | some class ↦ align_from align class (drop class class_sizes) ]
