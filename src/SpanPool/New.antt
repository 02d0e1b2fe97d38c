-- ===== src/SpanPool/New.antt =====
-- `SpanPool::new` of toccata-core/src/spanpool.rs: an empty pool.
use toccata.Base.{ℕ, ◌<◌, ◌≡◌, refl, arith, max}
use toccata.Base.Bits.{bit-zero}
use toccata.SpanPool.{no_span, new}
use toccata.SpanPool.Valid.{IsValid}
use toccata.SpanPool.Spans.{IsFreeSpan}

-- A new pool over fewer than 2^32 - 1 spans is valid, covers them (one span at least), and none of
-- its spans is free.
pub new-IsValid :
    (n : ℕ)
    → n < no_span
    → IsValid (new n)
      × ((new n).num_spans ≡ max n 1)
      × ((x : ℕ) → ¬ IsFreeSpan (new n).head_count.at x)
unfolding new
new-IsValid n h = (
  record {
    age = λ x. 0;
    clock = 0;
    sized = omega arith;
    tagged = record {
      in_grid = λ x q. absurd (q refl);
      tail_of_head = λ x q. absurd (q refl);
      head_of_tail = λ x q. absurd (q refl);
      apart = λ x y q. absurd (q refl);
    };
    linked = record {
      after = λ x q. absurd (q refl);
      before = λ x q. absurd (q refl);
      first = λ x q. absurd (q refl);
      bucket = λ c q. absurd (q refl);
      young = λ x q. absurd (q refl);
    };
    mapped = record {
      l0_word = λ i. omega arith;
      l1_word = λ i. omega arith;
      l0_bit = λ c. bit-zero _;
      l1_bit = λ i. bit-zero _;
    };
  },
  omega arith,
  λ x f. f.1 refl,
)
