-- ===== src/Span/Resize.antt =====
-- `extend` and `truncate` of talc/src/span.rs.
use talc.Base.{ℕ, ◌+◌, ◌-◌, ◌^◌, ◌≤◌, ◌<◌, ◌≡◌, ◌↔◌, ◌⊎◌, true, none, some, arith}
use talc.PtrUtils.{usize_max}
use talc.Span.{Span, is_sized, size, contains_span, extend, truncate, from_base_size, is_empty}
use talc.Span.Fit.{InWord}

-- extend panics exactly on a sized span whose lower end is below the first amount or whose upper
-- end leaves the words when the second is added.
pub extend_panics_iff :
    (s : Span) (low high : ℕ)
    → (extend s low high ≡ none)
      ↔ ((is_sized s ≡ true) × ((s.base < low) ⊎ (usize_max < s.acme + high)))
unfolding extend is_sized
extend_panics_iff s low high = ground arith

-- Where extend of a sized span of words does not panic, its result contains the span, has grown by
-- the two amounts, and truncating it by them gives the span back.
pub truncate-extend :
    (s t : Span) (low high : ℕ)
    → InWord s
    → is_sized s ≡ true
    → extend s low high ≡ some t
    → (contains_span t s ≡ true) × (size t ≡ size s + low + high) × (truncate t low high ≡ s)
unfolding extend truncate is_sized size contains_span
truncate-extend s t low high h sized e = ground arith

-- For a span of words, truncate lies in the span, and its size is that of the span less the two
-- amounts, or zero.
pub truncate_lem :
    (s : Span) (low high : ℕ)
    → InWord s
    → (contains_span s (truncate s low high) ≡ true)
      × (size (truncate s low high) ≡ size s - (low + high))
unfolding truncate size contains_span
truncate_lem s low high h = ground arith

-- `from_base_size` has the size asked for, or is empty if the end would leave the address space.
pub from_base_size_lem :
    (base n : ℕ)
    → base < 2 ^ 64
    → n < 2 ^ 64
    → ((base + n < 2 ^ 64) × (size (from_base_size base n) ≡ n))
      ⊎ ((2 ^ 64 ≤ base + n) × (is_empty (from_base_size base n) ≡ true))
unfolding from_base_size size
from_base_size_lem base n h k = ground arith
