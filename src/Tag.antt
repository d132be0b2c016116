-- ===== src/Tag.antt =====
-- talc/src/talc/tag.rs. A `Tag` is a word: the address of the chunk's base with two flags in its
-- lowest bits. The functions that go through a pointer take and return the memory.
pub mod Laws
use talc.Base.{ℕ, ◌+◌, ◌-◌, ◌%◌, ◌^◌, Bool, not, bit_and, ◌==◌, if◌then◌else◌}
use talc.PtrUtils.{align, wrapping_add, wrapping_sub}
use talc.Mem.{Mem, write as write_word}

abbrev pub allocated_flag : ℕ
allocated_flag = 1

abbrev pub is_above_free_flag : ℕ
is_above_free_flag = 2

-- The word that `Tag::write` stores.
unfoldable pub tag_of : ℕ → Bool → ℕ
tag_of chunk_base is_above_free =
    if is_above_free
    then wrapping_add chunk_base (is_above_free_flag + allocated_flag)
    else wrapping_add chunk_base allocated_flag

unfoldable pub write : Mem → ℕ → ℕ → Bool → Mem
unfolding tag_of
write m chunk_tag chunk_base is_above_free =
    write_word m chunk_tag (tag_of chunk_base is_above_free)

unfoldable pub chunk_base : ℕ → ℕ
chunk_base tag = wrapping_sub tag (tag % align)

unfoldable pub is_above_free : ℕ → Bool
is_above_free tag = not (bit_and tag is_above_free_flag == 0)

unfoldable pub is_allocated : ℕ → Bool
is_allocated tag = not (bit_and tag allocated_flag == 0)

unfoldable pub set_above_free : Mem → ℕ → Mem
set_above_free m ptr = write_word m ptr (wrapping_add (m ptr) is_above_free_flag)

unfoldable pub clear_above_free : Mem → ℕ → Mem
clear_above_free m ptr = write_word m ptr (wrapping_sub (m ptr) is_above_free_flag)
