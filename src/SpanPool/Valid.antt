-- ===== src/SpanPool/Valid.antt =====
-- The representation invariant of `SpanPool`. Each part speaks of a few of the arrays only, so
-- that a write to one array is checked against the parts that read it.
use toccata.Base.{ℕ, ◌+◌, ◌-◌, ◌/◌, ◌%◌, ◌^◌, ◌≤◌, ◌<◌, ◌≡◌, ◌≢◌, not, ◌==◌}
use toccata.Base.Bits.{bit}
use toccata.SpanPool.{SpanPool, no_span, l0_words, l1_words}

-- The length of every array, in terms of the number of spans.
pub record IsSized (p : SpanPool) : Type 0 where
  pub some_spans : 0 < p.num_spans
  pub spans_fit : p.num_spans < no_span
  pub bucket_head_len : p.bucket_head.len ≡ p.num_spans + 1
  pub next_len : p.next.len ≡ p.num_spans
  pub prev_len : p.prev.len ≡ p.num_spans
  pub head_count_len : p.head_count.len ≡ p.num_spans
  pub tail_count_len : p.tail_count.len ≡ p.num_spans
  pub l0_len : p.l0.len ≡ l0_words p.num_spans
  pub l1_len : p.l1.len ≡ l1_words p.num_spans

-- The boundary tags. `hc h` is the count of the free run with head `h`, 0 where there is none.
pub record IsTagged (n : ℕ) (hc tc : ℕ → ℕ) : Type 0 where
  pub in_grid : (h : ℕ) → hc h ≢ 0 → h + hc h ≤ n
  pub tail_of_head : (h : ℕ) → hc h ≢ 0 → tc (h + hc h - 1) ≡ hc h
  pub head_of_tail : (t : ℕ) → tc t ≢ 0 → (tc t ≤ t + 1) × (hc (t + 1 - tc t) ≡ tc t)
  -- Two free runs share no span, and do not even touch.
  pub apart : (h k : ℕ) → hc h ≢ 0 → hc k ≢ 0 → h < k → h + hc h < k

-- The doubly linked stack of each bucket. `age h` is when the run `h` was filed: along `next` it
-- falls, so that no list is a cycle.
pub record IsLinked (hc bh nx pv : ℕ → ℕ) (age : ℕ → ℕ) (clock : ℕ) : Type 0 where
  pub after :
      (h : ℕ)
      → hc h ≢ 0
      → nx h ≢ no_span
      → (hc (nx h) ≡ hc h) × (pv (nx h) ≡ h) × (age (nx h) < age h)
  pub before : (h : ℕ) → hc h ≢ 0 → pv h ≢ no_span → (hc (pv h) ≡ hc h) × (nx (pv h) ≡ h)
  pub first : (h : ℕ) → hc h ≢ 0 → pv h ≡ no_span → bh (hc h) ≡ h
  pub bucket : (c : ℕ) → bh c ≢ no_span → (hc (bh c) ≡ c) × (pv (bh c) ≡ no_span) × (c ≢ 0)
  pub young : (h : ℕ) → hc h ≢ 0 → age h < clock

-- The two-level bitmap: which buckets hold a run, and which words of that level hold a bit.
pub record IsMapped (bh l0 l1 : ℕ → ℕ) : Type 0 where
  pub l0_word : (i : ℕ) → l0 i < 2 ^ 64
  pub l1_word : (i : ℕ) → l1 i < 2 ^ 64
  pub l0_bit : (c : ℕ) → bit (l0 (c / 64)) (c % 64) ≡ not (bh c == no_span)
  pub l1_bit : (i : ℕ) → bit (l1 (i / 64)) (i % 64) ≡ not (l0 i == 0)

pub record IsValid (p : SpanPool) : Type 0 where
  pub age : ℕ → ℕ
  pub clock : ℕ
  pub sized : IsSized p
  pub tagged : IsTagged p.num_spans p.head_count.at p.tail_count.at
  pub linked : IsLinked p.head_count.at p.bucket_head.at p.next.at p.prev.at age clock
  pub mapped : IsMapped p.bucket_head.at p.l0.at p.l1.at
