-- ===== src/Counters.antt =====
-- talc/src/talc/counters.rs. Both `usize` and `u64` are words of 64 bits, and arithmetic wraps.
pub mod Laws
use talc.Base.{ℕ, ◌+◌, ◌-◌, ◌%◌, ◌^◌, Bool, not, ◌&&◌, ◌==◌, if◌then◌else◌}
use talc.PtrUtils.{wrapping_add, wrapping_sub}

pub record Counters : Type 0 where
  pub allocation_count : ℕ
  pub total_allocation_count : ℕ
  pub allocated_bytes : ℕ
  pub total_allocated_bytes : ℕ
  pub available_bytes : ℕ
  pub fragment_count : ℕ
  pub heap_count : ℕ
  pub total_heap_count : ℕ
  pub claimed_bytes : ℕ
  pub total_claimed_bytes : ℕ

-- `Counters::new`.
unfoldable pub zeroed : Counters
zeroed = record {
  allocation_count = 0;
  total_allocation_count = 0;
  allocated_bytes = 0;
  total_allocated_bytes = 0;
  available_bytes = 0;
  fragment_count = 0;
  heap_count = 0;
  total_heap_count = 0;
  claimed_bytes = 0;
  total_claimed_bytes = 0;
}

unfoldable pub overhead_bytes : Counters → ℕ
overhead_bytes c = wrapping_sub (wrapping_sub c.claimed_bytes c.available_bytes) c.allocated_bytes

unfoldable pub total_freed_bytes : Counters → ℕ
total_freed_bytes c = wrapping_sub c.total_allocated_bytes c.allocated_bytes

unfoldable pub total_released_bytes : Counters → ℕ
total_released_bytes c = wrapping_sub c.total_claimed_bytes c.claimed_bytes

unfoldable pub account_register_gap : ℕ → Counters → Counters
account_register_gap size c = record c {
  available_bytes = wrapping_add c.available_bytes size;
  fragment_count = wrapping_add c.fragment_count 1;
}

unfoldable pub account_deregister_gap : ℕ → Counters → Counters
account_deregister_gap size c = record c {
  available_bytes = wrapping_sub c.available_bytes size;
  fragment_count = wrapping_sub c.fragment_count 1;
}

unfoldable pub account_alloc : ℕ → Counters → Counters
account_alloc alloc_size c = record c {
  allocation_count = wrapping_add c.allocation_count 1;
  allocated_bytes = wrapping_add c.allocated_bytes alloc_size;
  total_allocation_count = wrapping_add c.total_allocation_count 1;
  total_allocated_bytes = wrapping_add c.total_allocated_bytes alloc_size;
}

unfoldable pub account_dealloc : ℕ → Counters → Counters
account_dealloc alloc_size c = record c {
  allocation_count = wrapping_sub c.allocation_count 1;
  allocated_bytes = wrapping_sub c.allocated_bytes alloc_size;
}

unfoldable pub account_grow_in_place : ℕ → ℕ → Counters → Counters
account_grow_in_place old_alloc_size new_alloc_size c =
    let grown = wrapping_sub new_alloc_size old_alloc_size in
    record c {
      allocated_bytes = wrapping_add c.allocated_bytes grown;
      total_allocated_bytes = wrapping_add c.total_allocated_bytes grown;
    }

unfoldable pub account_shrink_in_place : ℕ → ℕ → Counters → Counters
account_shrink_in_place old_alloc_size new_alloc_size c =
    let shrunk = wrapping_sub old_alloc_size new_alloc_size in
    record c {
      allocated_bytes = wrapping_sub c.allocated_bytes shrunk;
      total_allocated_bytes = wrapping_sub c.total_allocated_bytes shrunk;
    }

unfoldable pub account_claim : ℕ → Counters → Counters
account_claim claimed_size c = record c {
  heap_count = wrapping_add c.heap_count 1;
  claimed_bytes = wrapping_add c.claimed_bytes claimed_size;
  total_heap_count = wrapping_add c.total_heap_count 1;
  total_claimed_bytes = wrapping_add c.total_claimed_bytes claimed_size;
}

unfoldable pub account_extend : ℕ → ℕ → Counters → Counters
account_extend old_claimed_size new_claimed_size c =
    let extended = wrapping_sub new_claimed_size old_claimed_size in
    record c {
      claimed_bytes = wrapping_add c.claimed_bytes extended;
      total_claimed_bytes = wrapping_add c.total_claimed_bytes extended;
    }

unfoldable pub account_truncate : ℕ → ℕ → Counters → Counters
account_truncate old_claimed_size new_claimed_size c = record c {
  heap_count =
      if not (old_claimed_size == 0) && new_claimed_size == 0
      then wrapping_sub c.heap_count 1
      else c.heap_count;
  claimed_bytes = wrapping_sub c.claimed_bytes (wrapping_sub old_claimed_size new_claimed_size);
}
