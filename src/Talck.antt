-- ===== src/Talck.antt =====
-- talc/src/talck.rs: the allocator behind a lock. The state is that of the `Talc` that the lock
-- guards. `others` is what other threads do with it while the lock is released within a call.
pub mod Threads
pub mod Realloc
use talc.Base.{ℕ, ◌+◌, ◌-◌, ◌*◌, ◌/◌, ◌%◌, ◌^◌, Bool, ◌&&◌, ltb, leb, ◌==◌, if◌then◌else◌}
use talc.Mem.{Mem}
use talc.OomHandler.{Allocator, OomHandler}
use talc.OomHandler.Wasm
use talc.OomHandler.Wasm.{WasmHandler}
use talc.Talc.Layout.{Layout}
use talc.Talc.Avails.{trailing_zeros}
use talc.Talc.Outcome.{Outcome, ok, err, panic, out_of_fuel}
use talc.Talc.Free.{free, shrink}
use talc.Talc.Loop.{malloc, grow_in_place, copy_from_nonoverlapping}

abbrev pub release_lock_on_realloc_limit : ℕ
release_lock_on_realloc_limit = 0x10000

unfoldable pub is_aligned_to : (ptr align : ℕ) → Bool
is_aligned_to ptr align = leb (trailing_zeros align) (trailing_zeros ptr)

-- `NonNull::<u8>::dangling()`.
abbrev dangling : ℕ
dangling = 1

-- An `Err` as the null pointer.
abbrev pub or_null : {O : Type 0} → Outcome (Allocator O) ℕ → Outcome (Allocator O) ℕ
or_null (ok p s) = ok p s
or_null (err s) = ok 0 s
or_null panic = panic
or_null out_of_fuel = out_of_fuel

abbrev freed : {O : Type 0} → ℕ → Layout → Allocator O → Allocator O
freed ptr layout s = record s { talc = free ptr layout s.talc }

-- `write_bytes` of `n` zeros at any address, on a little-endian target: whole words, the high bytes
-- of the word that `dst` is in, and the low bytes of the last.
unfoldable pub write_zeros : (dst n : ℕ) → Mem → Mem
write_zeros dst n m c =
    if ltb c (dst + n) && ltb dst (c + 8)
    then (let low = if ltb c dst then m c % 2 ^ (8 * (dst - c)) else 0 in
        let left = dst + n - c in
        let high = if ltb left 8 then m c / 2 ^ (8 * left) * 2 ^ (8 * left) else 0 in low + high)
    else m c

module _ {O : Type 0} (handler : OomHandler O) (others : Allocator O → Allocator O)
    (rounds nodes : ℕ) where
  -- The copy to a new allocation, which `realloc`, `grow` and `shrink` make where they cannot stay
  -- in place: `n` bytes are copied, with the lock released where there are many.
  -- What others do meanwhile is after the copy.
  unfoldable pub reallocate :
      (ptr : ℕ) → (old_layout new_layout : Layout) → (n : ℕ) → Allocator O → Outcome (Allocator O) ℕ
  reallocate ptr old_layout new_layout n s = elim (malloc handler rounds nodes new_layout s) [
    | ok allocation s' ↦
        let copied = record s' {
          talc = record (s'.talc) { mem = copy_from_nonoverlapping allocation ptr n s'.talc.mem };
        } in
        let locked = if ltb release_lock_on_realloc_limit n then others copied else copied in
        ok allocation (freed ptr old_layout locked)
    | err s' ↦ err s'
    | panic ↦ panic
    | out_of_fuel ↦ out_of_fuel
  ]

  unfoldable pub alloc : Layout → Allocator O → Outcome (Allocator O) ℕ
  alloc layout s = or_null (malloc handler rounds nodes layout s)

  unfoldable pub dealloc : (ptr : ℕ) → Layout → Allocator O → Allocator O
  dealloc ptr layout s = freed ptr layout s

  unfoldable pub realloc :
      (ptr : ℕ) → Layout → (new_size : ℕ) → Allocator O → Outcome (Allocator O) ℕ
  unfolding reallocate
  realloc ptr old_layout new_size s =
      if ltb old_layout.size new_size
      then elim (grow_in_place ptr old_layout new_size s.talc) [
        | ok p t ↦ ok p (record s { talc = t })
        | err t ↦ or_null (
            reallocate ptr old_layout (record { size = new_size; align = old_layout.align })
              old_layout.size (others (record s { talc = t })))
        | panic ↦ panic
        | out_of_fuel ↦ out_of_fuel
      ]
      else if ltb new_size old_layout.size
      then ok ptr (record s { talc = shrink ptr old_layout new_size s.talc })
      else ok ptr s

  -- The slices that the calls of `Allocator` return are as long as the layout asks for; here
  -- they are their addresses.
  unfoldable pub allocate : Layout → Allocator O → Outcome (Allocator O) ℕ
  allocate layout s =
      if layout.size == 0 then ok dangling s else malloc handler rounds nodes layout s

  unfoldable pub deallocate : (ptr : ℕ) → Layout → Allocator O → Allocator O
  deallocate ptr layout s = if layout.size == 0 then s else freed ptr layout s

  unfoldable pub grow :
      (ptr : ℕ) → (old_layout new_layout : Layout) → Allocator O → Outcome (Allocator O) ℕ
  unfolding reallocate allocate
  grow ptr old_layout new_layout s =
      if old_layout.size == 0
      then allocate new_layout s
      else if is_aligned_to ptr new_layout.align
      then elim (grow_in_place ptr old_layout new_layout.size s.talc) [
        | ok p t ↦ ok p (record s { talc = t })
        | err t ↦
            reallocate ptr old_layout new_layout old_layout.size (others (record s { talc = t }))
        | panic ↦ panic
        | out_of_fuel ↦ out_of_fuel
      ]
      else reallocate ptr old_layout new_layout old_layout.size s

  unfoldable pub shrink_allocation :
      (ptr : ℕ) → (old_layout new_layout : Layout) → Allocator O → Outcome (Allocator O) ℕ
  unfolding reallocate
  shrink_allocation ptr old_layout new_layout s =
      if new_layout.size == 0
      then ok dangling (if ltb 0 old_layout.size then freed ptr old_layout s else s)
      else if is_aligned_to ptr new_layout.align
      then ok ptr (record s { talc = shrink ptr old_layout new_layout.size s.talc })
      else reallocate ptr old_layout new_layout new_layout.size s

  -- `grow`, and then zeros behind the old size.
  unfoldable pub grow_zeroed :
      (ptr : ℕ) → (old_layout new_layout : Layout) → Allocator O → Outcome (Allocator O) ℕ
  unfolding grow
  grow_zeroed ptr old_layout new_layout s = elim (grow ptr old_layout new_layout s) [
    | ok allocation s' ↦ ok allocation (record s' {
      talc = record (s'.talc) {
        mem =
            write_zeros (allocation + old_layout.size) (new_layout.size - old_layout.size)
              s'.talc.mem;
      };
    })
    | err s' ↦ err s'
    | panic ↦ panic
    | out_of_fuel ↦ out_of_fuel
  ]

-- `TalckWasm::new_global`, over the memories that the allocator and `memory_grow` see.
unfoldable pub new_global : {W : Type 0} → Mem → W → Allocator (WasmHandler W)
unfolding talc.Talc.Heaps.new
new_global m w = record { talc = talc.Talc.Heaps.new m; oom_handler = Wasm.new w }
