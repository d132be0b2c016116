-- ===== src/Talc/Avails/Flags.antt =====
-- The availability flag of a bin, and what `set_avails` and `clear_avails` do to the flags.
use talc.Base.{ℕ, ◌-◌, ◌^◌, ◌<◌, ◌≡◌, ltb, ◌==◌, if◌then◌else◌, arith}
use talc.Base.Bits.{bit, bit-bit_xor, bit_xor-lt}
use talc.Talc.State.{Talc}
use talc.Talc.Avails.{set_avails, clear_avails}

-- The flag of bin `b`: a digit of the low or of the high word.
unfoldable pub flag : Talc → ℕ → ℕ
flag t b = if ltb b 64 then bit t.availability_low b else bit t.availability_high (b - 64)

-- Both words of flags are words.
pub record InWords (t : Talc) : Type 0 where
  pub low : t.availability_low < 2 ^ 64
  pub high : t.availability_high < 2 ^ 64

-- On a bin whose flag is clear, set_avails sets that flag and keeps all others.
pub flag-set_avails :
    (t : Talc) (b c : ℕ)
    → b < 128
    → flag t b ≡ 0
    → flag (set_avails b t) c ≡ (if c == b then 1 else flag t c)
unfolding flag set_avails
flag-set_avails t b c h clear =
    ground
      (arith, bit-bit_xor t.availability_low b c, bit-bit_xor t.availability_high (b - 64) (c - 64))

-- On a bin whose flag is set, clear_avails clears that flag and keeps all others.
pub flag-clear_avails :
    (t : Talc) (b c : ℕ)
    → b < 128
    → flag t b ≡ 1
    → flag (clear_avails b t) c ≡ (if c == b then 0 else flag t c)
unfolding flag clear_avails
flag-clear_avails t b c h full =
    ground
      (arith, bit-bit_xor t.availability_low b c, bit-bit_xor t.availability_high (b - 64) (c - 64))

pub set_avails-InWords : {t : Talc} (b : ℕ) → b < 128 → InWords t → InWords (set_avails b t)
unfolding set_avails
set_avails-InWords {t} b h w = ground (
  arith,
  bit_xor-lt 64 t.availability_low b w.low,
  bit_xor-lt 64 t.availability_high (b - 64) w.high,
)

pub clear_avails-InWords : {t : Talc} (b : ℕ) → b < 128 → InWords t → InWords (clear_avails b t)
unfolding clear_avails
clear_avails-InWords {t} b h w = ground (
  arith,
  bit_xor-lt 64 t.availability_low b w.low,
  bit_xor-lt 64 t.availability_high (b - 64) w.high,
)
