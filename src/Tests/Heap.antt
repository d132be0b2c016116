-- ===== src/Tests/Heap.antt =====
-- Runs of the models of the gaps and of the search of talc/src/talc.rs.
use talc.Base.{◌-◌, inl}
use talc.OomHandler.{Allocator}
use talc.Talc.Gaps.Frame.{IsElsewhere}
use talc.Talc.Gaps.View.{OutsideGap}
use talc.Talc.Gaps.Register.Effects.{result_bins}
use talc.Base.{ℕ, ◌+◌, ◌^◌, ◌≤◌, ◌<◌, ◌≡◌, refl, inr, [], ◌∷◌, ◌++◌, arith}
use talc.Base.Lists.{All, length}
use talc.Counters.{zeroed}
use talc.Talc.Layout.{Layout}
use talc.Talc.State.{Talc}
use talc.Talc.SizeClass.{bin_of_size}
use talc.Talc.SizeClass.Bounds.{bin_of_size-lt}
use talc.Talc.Gaps.{register_gap, deregister_gap}
use talc.Talc.Gaps.Empty.{no_gaps, no_gaps-Holds}
use talc.Talc.Gaps.Update.{put, by_bin}
use talc.Talc.Gaps.View.{Gap, gap, IsRegion, View, Holds}
use talc.Talc.Gaps.Register.{register_gap-Holds}
use talc.Talc.Gaps.Deregister.{deregister_gap-Holds}
use talc.Talc.Malloc.{get_sufficient_chunk}
use talc.Talc.Malloc.Fit.{IsLayout}
use talc.Talc.Malloc.Sufficient.{Sufficient, get_sufficient_chunk-Sufficient}

-- The bins at 4096, all of them null.
abbrev start : Talc
start = record {
  availability_low = 0;
  availability_high = 0;
  bins = 4096;
  counters = zeroed;
  mem = λ a. 0;
}

start-Holds : Holds start no_gaps
start-Holds = no_gaps-Holds start refl refl (λ b lt. refl)

abbrev region : Gap
region = gap 16384 256

region-IsRegion : IsRegion 4096 region
region-IsRegion = record {
  large = omega arith;
  whole = refl;
  aligned = refl;
  ne_null = omega arith;
  in_word = omega arith;
  off_bins = inr (omega arith);
}

abbrev one_gap : Talc
one_gap = register_gap 16384 (16384 + 256) start

abbrev one_view : View
one_view = put (bin_of_size 256) (region ∷ no_gaps (bin_of_size 256)) no_gaps

one_gap-Holds : Holds one_gap one_view
one_gap-Holds = register_gap-Holds start region region-IsRegion no_gaps start-Holds (λ c lt. tt)

register_gap-Holds_example : Holds one_gap one_view
register_gap-Holds_example =
    register_gap-Holds start region region-IsRegion no_gaps start-Holds (λ c lt. tt)

one_view-region : one_view (bin_of_size 256) ≡ [] ++ region ∷ []
unfolding bin_of_size
one_view-region = refl

deregister_gap-Holds_example :
    Holds (deregister_gap 16384 (bin_of_size 256) one_gap) (put (bin_of_size 256) [] one_view)
deregister_gap-Holds_example =
    deregister_gap-Holds one_gap one_view one_gap-Holds (bin_of_size 256)
      (bin_of_size-lt 256 (omega arith)) [] region [] one_view-region

-- 40 bytes at a multiple of 64.
abbrev aligned_layout : Layout
aligned_layout = record { size = 40; align = 64 }

aligned_layout-IsLayout : IsLayout aligned_layout 6
aligned_layout-IsLayout = record { power = refl; small = omega arith; fits = omega arith }

one_view-room : (b : ℕ) → b < 128 → All (λ g. g.base + g.size + 64 ≤ 2 ^ 64) (one_view b)
one_view-room =
    by_bin (bin_of_size 256) (region ∷ []) no_gaps
      (λ b gs. All (λ g. g.base + g.size + 64 ≤ 2 ^ 64) gs) (omega arith, tt) (λ c lt ne. tt)

one_view-length : (b : ℕ) → b < 128 → length (one_view b) < 2
one_view-length =
    by_bin (bin_of_size 256) (region ∷ []) no_gaps (λ b gs. length gs < 2) (omega arith)
      (λ c lt ne. omega arith)

get_sufficient_chunk-Sufficient_example :
    Sufficient one_gap.bins one_view aligned_layout (get_sufficient_chunk 2 aligned_layout one_gap)
get_sufficient_chunk-Sufficient_example =
    get_sufficient_chunk-Sufficient one_gap one_view one_gap-Holds aligned_layout 6
      aligned_layout-IsLayout one_view-room 2 one_view-length

abbrev idle : Allocator (Unit {0})
idle = record { talc = one_gap; oom_handler = tt }

-- The tag below the gap.
tag-IsElsewhere : IsElsewhere one_gap one_view 16376
tag-IsElsewhere = record {
  off_bins = inr (omega (arith, result_bins start region region-IsRegion));
  off_gaps =
      by_bin (bin_of_size 256) (region ∷ []) no_gaps (λ b gs. All (OutsideGap 16376) gs)
        (inl (omega arith), tt) (λ c lt ne. tt);
}

one_view-tags :
    (b : ℕ) → b < 128 → All (λ g. IsElsewhere one_gap one_view (g.base - 8)) (one_view b)
one_view-tags =
    by_bin (bin_of_size 256) (region ∷ []) no_gaps
      (λ b gs. All (λ g. IsElsewhere one_gap one_view (g.base - 8)) gs) (tag-IsElsewhere, tt)
      (λ c lt ne. tt)
