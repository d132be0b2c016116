-- ===== src/Counters/Laws.antt =====
-- How the operations of talc/src/talc/counters.rs undo and follow one another.
use talc.Base.{ℕ, ◌^◌, refl, ◌≤◌, ◌<◌, ◌≡◌, arith}
use talc.PtrUtils.{wrapping_add, wrapping_sub}
use talc.Counters.{
  Counters, total_freed_bytes, account_register_gap, account_deregister_gap, account_alloc,
  account_dealloc, account_shrink_in_place,
}

sub_of_add : (x n : ℕ) → x < 2 ^ 64 → n < 2 ^ 64 → wrapping_sub (wrapping_add x n) n ≡ x
sub_of_add x n h k = omega arith

sub_sub :
    (x y n : ℕ)
    → x < 2 ^ 64
    → y < 2 ^ 64
    → n < 2 ^ 64
    → wrapping_sub x (wrapping_sub y n) ≡ wrapping_add (wrapping_sub x y) n
sub_sub x y n h k l = omega arith

-- For counters and sizes that are words, taking a gap out of the account undoes putting one of its
-- size in, also where the sums wrap.
pub deregister-register_gap :
    (c : Counters) (n : ℕ)
    → c.available_bytes < 2 ^ 64
    → c.fragment_count < 2 ^ 64
    → n < 2 ^ 64
    → account_deregister_gap n (account_register_gap n c) ≡ c
unfolding account_deregister_gap account_register_gap
deregister-register_gap c n h k l =
    rw (sub_of_add c.available_bytes n h l, sub_of_add c.fragment_count 1 k (omega arith))

-- For counters and sizes that are words, an allocation and its release leave the live counts as
-- they were, count one allocation more in total, and add the size to the freed bytes.
pub dealloc-alloc :
    (c : Counters) (n : ℕ)
    → c.allocation_count < 2 ^ 64
    → c.allocated_bytes < 2 ^ 64
    → c.total_allocated_bytes < 2 ^ 64
    → n < 2 ^ 64
    → let d = account_dealloc n (account_alloc n c) in
      (d.allocation_count ≡ c.allocation_count)
      × (d.allocated_bytes ≡ c.allocated_bytes)
      × (d.total_allocation_count ≡ wrapping_add c.total_allocation_count 1)
      × (total_freed_bytes d ≡ wrapping_add (total_freed_bytes c) n)
unfolding account_dealloc account_alloc total_freed_bytes
dealloc-alloc c n h k t l = (
  sub_of_add c.allocation_count 1 h (omega arith),
  sub_of_add c.allocated_bytes n k l,
  refl,
  omega arith,
)

-- For counters and sizes that are words, an allocation that is shrunk in place is counted, in the
-- live bytes and in the total of all bytes allocated, as if it had had the smaller size from the
-- start.
pub shrink-alloc :
    (c : Counters) (old new : ℕ)
    → c.allocated_bytes < 2 ^ 64
    → c.total_allocated_bytes < 2 ^ 64
    → new ≤ old
    → old < 2 ^ 64
    → account_shrink_in_place old new (account_alloc old c) ≡ account_alloc new c
unfolding account_shrink_in_place account_alloc
shrink-alloc c old new h k le l = rw (shrunk c.allocated_bytes h, shrunk c.total_allocated_bytes k)
  where
    shrunk :
        (x : ℕ)
        → x < 2 ^ 64
        → wrapping_sub (wrapping_add x old) (wrapping_sub old new) ≡ wrapping_add x new
    shrunk x h = omega arith
