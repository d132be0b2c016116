-- ===== src/Talc/Chunks/Scan.antt =====
-- The debug check of talc/src/talc.rs on a state that holds chunks.
use talc.Base.{ℕ, ◌-◌, ◌^◌, ◌≤◌, ◌≡◌, ◌≢◌, arith, ap, sym, ◌∙◌}
use talc.Base.Lists.{All-map2}
use talc.Tag.{is_above_free, is_allocated}
use talc.Tag.Laws.{is_above_free-tag_of, is_allocated-tag_of}
use talc.Talc.State.{Talc}
use talc.Talc.Outcome.{ok}
use talc.Talc.Gaps.View.{Gap}
use talc.Talc.FreeMap.Count.{length-Holds}
use talc.Talc.Chunks.{Chunks, is_gap, gap_size-ne_zero}
use talc.Talc.Chunks.State.{gaps_of, HoldsChunks}
use talc.Talc.Chunks.Retag.{base_of, base_of-IsBase, tag_word}
use talc.Talc.Chunks.Below.{tag_below}
use talc.Talc.Scan.{scan_for_errors}
use talc.Talc.Scan.Passes.{TagBelow, scan_for_errors-ok}

module _ (t : Talc) (cs : Chunks) (h : HoldsChunks t cs) where
  gap-TagBelow : (g : Gap) → gaps_of cs g.base ≢ 0 → TagBelow t.mem g
  gap-TagBelow g ne =
      let here = gap_size-ne_zero g.base (cs g.base) (h.tiling.shape g.base) ne in
      let (c, tagged, end) = h.tiling.below_gap g.base here in
      let base = base_of-IsBase c (cs c) (h.tiling.shape c) in
      let word =
        ap (λ x. t.mem (x - 8)) (sym end)
        ∙ tag_word t.mem (is_gap (cs g.base)) c (cs c) tagged (tag_below t cs h c g.base end) in
      (
        ap is_allocated word ∙ is_allocated-tag_of (base_of c (cs c)) (is_gap (cs g.base)) base,
        ap is_above_free word
            ∙ is_above_free-tag_of (base_of c (cs c)) (is_gap (cs g.base)) base
            ∙ here,
      )

  -- In a state that holds chunks, with the bins in place and fuel for 2^60 gaps in a bin, none of
  -- the assertions of the debug check fails.
  pub scan_passes : (nodes : ℕ) → t.bins ≢ 0 → 2 ^ 60 ≤ nodes → scan_for_errors nodes t ≡ ok tt t
  scan_passes nodes placed enough =
      scan_for_errors-ok t h.free.view h.free.holds nodes
        (λ c lt. omega (arith, enough, length-Holds t h.free.view h.free.holds c lt))
        (λ c lt.
          All-map2 (h.free.view c) (λ g i e. gap-TagBelow g (omega (arith, i.large, e)))
            (h.free.holds.gaps c lt) (h.free.lists.listed c lt))
        placed
