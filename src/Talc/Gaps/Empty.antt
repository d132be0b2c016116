-- ===== src/Talc/Gaps/Empty.antt =====
-- The bins of talc/src/talc.rs before the first gap.
use talc.Base.{ℕ, ◌+◌, ◌*◌, ◌-◌, ◌<◌, ◌≡◌, [], arith}
use talc.Base.Bits.{bit-of_zero}
use talc.Talc.State.{Talc}
use talc.Talc.Avails.Flags.{flag}
use talc.Talc.Gaps.View.{View, Holds}

-- No bin has a gap.
abbrev pub no_gaps : View
no_gaps b = []

module _ (t : Talc) (low : t.availability_low ≡ 0) (high : t.availability_high ≡ 0) where
  flag-zero : (b : ℕ) → flag t b ≡ 0
  unfolding flag
  flag-zero b = ground (arith, low, high, bit-of_zero b, bit-of_zero (b - 64))

  -- Where all flags are clear and all bins are null, the state holds no gaps.
  pub no_gaps-Holds : ((b : ℕ) → b < 128 → t.mem (t.bins + b * 8) ≡ 0) → Holds t no_gaps
  no_gaps-Holds null = record {
    words = record { low = omega (arith, low); high = omega (arith, high) };
    links = null;
    gaps = λ b lt. tt;
    separate = λ b lt. tt;
    across = λ b c lt lt' ne. tt;
    flags = λ b lt. flag-zero b;
  }
