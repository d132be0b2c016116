-- ===== src/Talc/Avails.antt =====
-- The availability flags of talc/src/talc.rs: two words with a flag for each bin.
pub mod Flags
pub mod Search
use talc.Base.{
  ℕ, zero, suc, ◌+◌, ◌-◌, ◌/◌, ◌%◌, ◌^◌, bit_xor, not, Option, none, some, ltb, ◌==◌, if◌then◌else◌,
}
use talc.PtrUtils.{word_bits}
use talc.Talc.Layout.{bin_count}
use talc.Talc.State.{Talc}

-- The rounds of `usize::trailing_zeros`; a word of zeros has as many as it has bits.
unfoldable pub trailing_zeros_rounds : ℕ → ℕ → ℕ
trailing_zeros_rounds zero n = 0
trailing_zeros_rounds (suc rounds) n =
    if n % 2 == 1 then 0 else suc (trailing_zeros_rounds rounds (n / 2))

unfoldable pub trailing_zeros : ℕ → ℕ
trailing_zeros n = trailing_zeros_rounds 64 n

unfoldable pub set_avails : ℕ → Talc → Talc
set_avails b t =
    if ltb b word_bits
    then record t { availability_low = bit_xor t.availability_low (2 ^ b) }
    else record t { availability_high = bit_xor t.availability_high (2 ^ (b - word_bits)) }

unfoldable pub clear_avails : ℕ → Talc → Talc
clear_avails b t =
    if ltb b word_bits
    then record t { availability_low = bit_xor t.availability_low (2 ^ b) }
    else record t { availability_high = bit_xor t.availability_high (2 ^ (b - word_bits)) }

unfoldable pub next_available_bin : ℕ → Talc → Option ℕ
next_available_bin next_bin t =
    if ltb next_bin word_bits
    then (let shifted_avails = t.availability_low / 2 ^ next_bin in
        if not (shifted_avails == 0)
        then some (next_bin + trailing_zeros shifted_avails)
        else if not (t.availability_high == 0)
        then some (trailing_zeros t.availability_high + word_bits)
        else none)
    else if ltb next_bin bin_count
    then (let shifted_avails = t.availability_high / 2 ^ (next_bin - word_bits) in
        if not (shifted_avails == 0) then some (next_bin + trailing_zeros shifted_avails) else none)
    else none
