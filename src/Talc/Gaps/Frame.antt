-- ===== src/Talc/Gaps/Frame.antt =====
-- Writes and counts of talc/src/talc.rs that leave the bins as they are.
use talc.Base.{ℕ, ◌+◌, ◌-◌, ◌*◌, ◌≤◌, ◌<◌, ◌≡◌, ◌⊎◌, arith}
use talc.Base.Lists.{All, All-mono, All-map2}
use talc.Mem.{Mem, write, write_ne}
use talc.Counters.{Counters}
use talc.Talc.State.{Talc}
use talc.Talc.Avails.Flags.{flag}
use talc.Talc.Gaps.{store, count}
use talc.Talc.Gaps.View.{OutsideGap, View, Holds, Links-frame, IsGap-frame}

-- A word outside the array of bins and outside all gaps.
pub record IsElsewhere (t : Talc) (view : View) (a : ℕ) : Type 0 where
  pub off_bins : (a < t.bins) ⊎ (t.bins + 1024 ≤ a)
  pub off_gaps : (c : ℕ) → c < 128 → All (OutsideGap a) (view c)

-- A memory that agrees with the state's on the array of bins and on all gaps.
pub record IsKept (t : Talc) (view : View) (m : Mem) : Type 0 where
  pub bins : (x : ℕ) → t.bins ≤ x → x < t.bins + 1024 → m x ≡ t.mem x
  pub gaps :
      (c : ℕ)
      → c < 128
      → All (λ g. (x : ℕ) → g.base ≤ x → x < g.base + g.size → m x ≡ t.mem x) (view c)

-- Such a memory keeps the view.
pub frame-Holds :
    (t : Talc) (view : View) (m : Mem)
    → IsKept t view m
    → Holds t view
    → Holds (record t { mem = m }) view
unfolding flag
frame-Holds t view m k h = record {
  words = record { low = h.words.low; high = h.words.high };
  links = λ c lt.
      Links-frame t.mem m (t.bins + c * 8) (view c)
        (k.bins (t.bins + c * 8) (omega arith) (omega arith))
        (All-map2 (view c)
          (λ g i same. (
            same g.base (omega arith) (omega (arith, i.large)),
            same (g.base + 8) (omega arith) (omega (arith, i.large)),
          ))
          (h.gaps c lt) (k.gaps c lt))
        (h.links c lt);
  gaps = λ c lt.
      All-map2 (view c)
        (λ g i same.
          IsGap-frame t.mem m t.bins c g
            (
              same (g.base + 16) (omega arith) (omega (arith, i.large)),
              same (g.base + g.size - 8) (omega (arith, i.large)) (omega (arith, i.large)),
            )
            i)
        (h.gaps c lt) (k.gaps c lt);
  separate = h.separate;
  across = h.across;
  flags = h.flags;
}

-- Writing a word outside the bins and the gaps leaves the view.
pub store-Holds :
    (t : Talc) (view : View) (a v : ℕ)
    → IsElsewhere t view a
    → Holds t view
    → Holds (store a v t) view
store-Holds t view a v off h =
    frame-Holds t view (write t.mem a v)
      (record {
        bins = λ x le lt. write_ne t.mem a v x (omega (arith, off.off_bins));
        gaps = λ c lt.
            All-mono (view c) (λ g o x from to. write_ne t.mem a v x (omega (arith, o)))
              (off.off_gaps c lt);
      })
      h

-- The counters are no part of the view.
pub count-Holds :
    (t : Talc) (view : View) (f : Counters → Counters) → Holds t view → Holds (count f t) view
unfolding flag
count-Holds t view f h = record {
  words = record { low = h.words.low; high = h.words.high };
  links = h.links;
  gaps = h.gaps;
  separate = h.separate;
  across = h.across;
  flags = h.flags;
}
