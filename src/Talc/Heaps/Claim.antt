-- ===== src/Talc/Heaps/Claim.antt =====
-- What `Talc::claim` of talc/src/talc.rs does where the bins are in place.
use talc.Base.{
  ℕ, ◌+◌, ◌-◌, ◌≤◌, ◌<◌, ◌≡◌, refl, ◌≢◌, true, false, ◌∷◌, arith, le→leb, lt→leb, ne→==, subst,
}
use talc.Base.Lists.{All}
use talc.PtrUtils.{wrapping_add}
use talc.Tag
use talc.Tag.{tag_of}
use talc.Span
use talc.Span.{Span, size, get_base_acme, word_align_inward, contains}
use talc.Counters.{account_claim}
use talc.Talc.State.{Talc}
use talc.Talc.SizeClass.{bin_of_size}
use talc.Talc.Gaps.{register_gap, store, count}
use talc.Talc.Gaps.View.{Gap, gap, ApartGaps, IsRegion, View, Holds}
use talc.Talc.Gaps.Update.{put}
use talc.Talc.Gaps.Frame.{IsElsewhere, store-Holds, count-Holds}
use talc.Talc.Gaps.Register.{register_gap-Holds}
use talc.Talc.Outcome.{ok}
use talc.Talc.Heaps.{claim, claim_gap}

-- The gap that a new heap becomes, above its base tag.
abbrev pub heap_gap : ℕ → ℕ → Gap
heap_gap base acme = gap (base + 8) (acme - (base + 8))

module _ (t : Talc) (view : View) (h : Holds t view) (base acme : ℕ)
    (region : IsRegion t.bins (heap_gap base acme)) (room : base + 32 ≤ acme)
    (tag : IsElsewhere t view base)
    (fresh : (c : ℕ) → c < 128 → All (ApartGaps (heap_gap base acme)) (view c)) where
  claim_gap-Holds : Holds (claim_gap base acme t) (
      put
        (bin_of_size (acme - (base + 8)))
        (heap_gap base acme ∷ view (bin_of_size (acme - (base + 8))))
        view)
  unfolding claim_gap Tag.write
  claim_gap-Holds =
      let base_eq : wrapping_add base 8 ≡ base + 8 = omega (arith, region.in_word) in
      let acme_eq : base + 8 + (acme - (base + 8)) ≡ acme = omega arith in
      rw base_eq (
        subst
          (λ (a : ℕ). Holds (register_gap (base + 8) a (store base (tag_of 0 true) t)) (
            put (bin_of_size (acme - (base + 8)))
              (heap_gap base acme ∷ view (bin_of_size (acme - (base + 8)))) view))
          acme_eq
          (register_gap-Holds (store base (tag_of 0 true) t) (heap_gap base acme) region view
            (store-Holds t view base (tag_of 0 true) tag h) fresh))

  claimed :
      (memory : Span)
      → word_align_inward memory ≡ Span.new base acme
      → contains memory 0 ≡ false
      → t.bins ≢ 0
      → claim memory t
        ≡ ok (Span.new base acme) (count (account_claim (acme - base)) (claim_gap base acme t))
  unfolding claim get_base_acme size
  claimed memory inward off placed =
      rw (inward, off, lt→leb acme base (omega arith))
        (rw (ne→== t.bins 0 placed)
          (rw (le→leb 32 (acme - base) (omega arith), inward, lt→leb acme base (omega arith)) refl))

  -- Where the bins are placed and the state holds a view, claiming a span off the null address,
  -- whose aligned part is at least a minimal heap, apart from the bins and all gaps, returns that
  -- part and leads to a state that holds the view with the part above its base tag as a gap more.
  pub claim-Holds :
      (memory : Span)
      → word_align_inward memory ≡ Span.new base acme
      → contains memory 0 ≡ false
      → t.bins ≢ 0
      → (s : Talc) × (claim memory t ≡ ok (Span.new base acme) s)
        × Holds s (
            put
              (bin_of_size (acme - (base + 8)))
              (heap_gap base acme ∷ view (bin_of_size (acme - (base + 8))))
              view)
  claim-Holds memory inward off placed = (
    count (account_claim (acme - base)) (claim_gap base acme t),
    claimed memory inward off placed,
    count-Holds (claim_gap base acme t) _ (account_claim (acme - base)) claim_gap-Holds,
  )
