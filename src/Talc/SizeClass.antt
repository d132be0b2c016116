-- ===== src/Talc/SizeClass.antt =====
-- The size classes of talc/src/talc.rs: `bin_of_size` and `Talc::required_chunk_size`.
pub mod Log
pub mod Bounds
use talc.Base.{ℕ, zero, suc, ◌+◌, ◌-◌, ◌*◌, ◌/◌, ◌^◌, min, bit_and, ltb, leb, if◌then◌else◌}
use talc.PtrUtils.{align, word_size, wrapping_add, wrapping_sub, bit_not}
use talc.Talc.Layout.{min_chunk_size, tag_size, bin_count}

-- The rounds of `usize::ilog2`, the position of the highest set bit.
unfoldable pub ilog2_rounds : ℕ → ℕ → ℕ
ilog2_rounds zero n = 0
ilog2_rounds (suc rounds) n = if ltb n 2 then 0 else suc (ilog2_rounds rounds (n / 2))

unfoldable pub ilog2 : ℕ → ℕ
ilog2 n = ilog2_rounds 64 n

abbrev pub word_bin_limit : ℕ
word_bin_limit = 256

abbrev pub double_bin_limit : ℕ
double_bin_limit = 512

abbrev pub divs_per_pow2 : ℕ
divs_per_pow2 = 4

-- `DIVS_PER_POW2.ilog2()`
abbrev pub div_bits : ℕ
div_bits = 2

abbrev pub dbl_bucket : ℕ
dbl_bucket = (word_bin_limit - min_chunk_size) / word_size

abbrev pub exp_bucket : ℕ
exp_bucket = dbl_bucket + (double_bin_limit - word_bin_limit) / word_size / 2

-- `DOUBLE_BIN_LIMIT.ilog2()`
abbrev pub min_exp_bits_less_one : ℕ
min_exp_bits_less_one = 9

unfoldable pub bin_of_size : ℕ → ℕ
bin_of_size size =
    if ltb size word_bin_limit
    then wrapping_sub size min_chunk_size / word_size
    else if ltb size double_bin_limit
    then size / (2 * word_size) - word_bin_limit / (2 * word_size) + dbl_bucket
    else let bits_less_one = ilog2 size in
      let magnitude = bits_less_one - min_exp_bits_less_one in
      let division = size / 2 ^ (bits_less_one - div_bits) - divs_per_pow2 in
      let bucket_offset = magnitude * divs_per_pow2 + division in
      min (bucket_offset + exp_bucket) (bin_count - 1)

unfoldable pub required_chunk_size : ℕ → ℕ
required_chunk_size size =
    if leb size (min_chunk_size - tag_size)
    then min_chunk_size
    else bit_and (wrapping_add (wrapping_add size tag_size) (align - 1)) (bit_not (align - 1))
