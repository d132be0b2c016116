-- ===== src/Talc/Layout.antt =====
-- The constants of talc/src/talc.rs on a 64-bit target, and `core::alloc::Layout`.
use talc.Base.{ℕ, ◌+◌, ◌*◌}

abbrev pub node_size : ℕ
node_size = 16

abbrev pub tag_size : ℕ
tag_size = 8

abbrev pub min_tag_offset : ℕ
min_tag_offset = node_size

abbrev pub min_chunk_size : ℕ
min_chunk_size = min_tag_offset + tag_size

abbrev pub min_heap_size : ℕ
min_heap_size = min_chunk_size + tag_size

abbrev pub bin_count : ℕ
bin_count = 64 * 2

abbrev pub gap_node_offset : ℕ
gap_node_offset = 0

abbrev pub gap_low_size_offset : ℕ
gap_low_size_offset = node_size

abbrev pub gap_high_size_offset : ℕ
gap_high_size_offset = 8

-- `Layout::size()` and `Layout::align()`.
pub record Layout : Type 0 where
  pub size : ℕ
  pub align : ℕ
