-- ===== src/PtrUtils.antt =====
-- talc/src/ptr_utils.rs on a 64-bit target: pointers are addresses below 2 ^ 64, and wrapping_add
-- and wrapping_sub wrap at 2 ^ 64.
pub mod Align
use talc.Base.{ℕ, ◌+◌, ◌-◌, ◌%◌, ◌^◌, Bool, bit_and, ltb}

abbrev pub word_size : ℕ
word_size = 8

abbrev pub word_bits : ℕ
word_bits = 64

abbrev pub align : ℕ
align = 8

abbrev pub usize_max : ℕ
usize_max = 2 ^ 64 - 1

abbrev pub wrapping_add : ℕ → ℕ → ℕ
wrapping_add a b = (a + b) % 2 ^ 64

abbrev pub wrapping_sub : ℕ → ℕ → ℕ
wrapping_sub a b = (a + 2 ^ 64 - b) % 2 ^ 64

-- The complement of a word.
abbrev pub bit_not : ℕ → ℕ
bit_not a = usize_max - a

unfoldable pub align_up_by : ℕ → ℕ → ℕ
align_up_by ptr align_mask =
    let aligned = bit_and (wrapping_add ptr align_mask) (bit_not align_mask) in
    wrapping_add ptr (wrapping_sub aligned ptr)

unfoldable pub align_down : ℕ → ℕ
align_down ptr = wrapping_sub ptr (ptr % align)

unfoldable pub align_up_overflows : ℕ → Bool
align_up_overflows ptr = ltb (usize_max - ptr) (align - 1)

unfoldable pub align_up : ℕ → ℕ
align_up ptr =
    let offset_ptr = wrapping_add ptr (align - 1) in wrapping_sub offset_ptr (offset_ptr % align)
