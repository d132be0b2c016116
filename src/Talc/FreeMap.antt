-- ===== src/Talc/FreeMap.antt =====
-- The gaps of the allocator of talc/src/talc.rs as a map, and what the operations on bins do to it.
pub mod Member
pub mod Merge
pub mod Count
use talc.Base.{
  ℕ, ◌+◌, ◌-◌, ◌*◌, ◌≤◌, ◌<◌, ◌≡◌, refl, ◌≢◌, ◌⊎◌, inl, inr, List, [], ◌∷◌, ◌++◌, arith, ap, sym,
  subst, ◌∙◌, eq-or-ne,
}
use talc.Base.Lists.{All, All-mono, All-map2, All-append}
use talc.Mem.{Mem}
use talc.Counters.{Counters}
use talc.Talc.State.{Talc}
use talc.Talc.SizeClass.{bin_of_size}
use talc.Talc.SizeClass.Bounds.{bin_of_size-lt}
use talc.Talc.Gaps.{register_gap, deregister_gap, store, count}
use talc.Talc.Gaps.View.{
  Gap, gap, OutsideGap, ApartGaps, SeparateGaps, IsRegion, IsGap, View, Holds, first_gap,
}
use talc.Talc.Gaps.Update.{put}
use talc.Talc.Gaps.Frame.{IsElsewhere, frame-Holds, store-Holds, count-Holds}
use talc.Talc.Gaps.Register.{register_gap-Holds}
use talc.Talc.Gaps.Register.Effects.{elsewhere, result_bins}
use talc.Talc.Gaps.Deregister.{deregister_gap-Holds, kept}
use talc.Talc.Gaps.Deregister.Effects
use talc.Talc.FreeMap.Member.{
  IsIn, All-IsIn, Split, IsIn-Split, without-IsIn, others-ApartGaps, entry, Lists, Lists-entry,
  Lists-cleared,
}

-- The state's gaps are those of the map.
pub record IsFreeMap (t : Talc) (f : ℕ → ℕ) : Type 0 where
  pub view : View
  pub holds : Holds t view
  pub lists : Lists view f

-- A word off the bins and in no gap.
pub record IsOff (bins : ℕ) (f : ℕ → ℕ) (w : ℕ) : Type 0 where
  pub off_bins : (w < bins) ⊎ (bins + 1024 ≤ w)
  pub off_gaps : (a : ℕ) → f a ≢ 0 → (w < a) ⊎ (a + f a ≤ w)

module _ (t : Talc) (f : ℕ → ℕ) (m : IsFreeMap t f) where
  -- An entry is a gap in memory.
  pub entry-IsGap : (a : ℕ) → f a ≢ 0 → IsGap t.mem t.bins (bin_of_size (f a)) (gap a (f a))
  entry-IsGap a ne =
      All-IsIn (IsGap t.mem t.bins (bin_of_size (f a))) (gap a (f a)) (m.view (bin_of_size (f a)))
        (m.holds.gaps (bin_of_size (f a)) (bin_of_size-lt (f a) (m.lists.large a ne)))
        (m.lists.complete a ne)

  pub entries-ApartGaps :
      (a b : ℕ) → a ≢ b → f a ≢ 0 → f b ≢ 0 → ApartGaps (gap a (f a)) (gap b (f b))
  entries-ApartGaps a b ne at_a at_b =
      let i = m.lists.complete a at_a in
      let j = m.lists.complete b at_b in
      elim (eq-or-ne (bin_of_size (f a)) (bin_of_size (f b))) [
        | inl e ↦
            let k = subst (λ c. IsIn (gap a (f a)) (m.view c)) e i in
            let s = IsIn-Split (gap a (f a)) (m.view (bin_of_size (f b))) k in
            All-IsIn (ApartGaps (gap a (f a))) (gap b (f b)) (s.before ++ s.after)
              (others-ApartGaps s.before (gap a (f a)) s.after (
                subst SeparateGaps s.split (
                  m.holds.separate (bin_of_size (f b))
                    (bin_of_size-lt (f b) (m.lists.large b at_b)))))
              (without-IsIn (gap b (f b)) s.before (gap a (f a)) s.after (λ e'. ne (sym e'))
                (subst (IsIn (gap b (f b))) s.split j))
        | inr other ↦
            All-IsIn (ApartGaps (gap a (f a))) (gap b (f b)) (m.view (bin_of_size (f b)))
              (All-IsIn (λ x. All (ApartGaps x) (m.view (bin_of_size (f b)))) (gap a (f a))
                (m.view (bin_of_size (f a)))
                (m.holds.across (bin_of_size (f a)) (bin_of_size (f b))
                  (bin_of_size-lt (f a) (m.lists.large a at_a))
                  (bin_of_size-lt (f b) (m.lists.large b at_b)) other)
                i)
              j
      ]

  off-IsElsewhere : (w : ℕ) → IsOff t.bins f w → IsElsewhere t m.view w
  off-IsElsewhere w off = record {
    off_bins = off.off_bins;
    off_gaps = λ c lt.
        All-map2 (m.view c)
          (λ g k e. omega (arith, e, k.large, off.off_gaps g.base (omega (arith, e, k.large))))
          (m.holds.gaps c lt) (m.lists.listed c lt);
  }

  pub store-IsFreeMap : (w v : ℕ) → IsOff t.bins f w → IsFreeMap (store w v t) f
  store-IsFreeMap w v off = record {
    view = m.view;
    holds = store-Holds t m.view w v (off-IsElsewhere w off) m.holds;
    lists = m.lists;
  }

  -- Another memory that agrees on the bins and on the gaps.
  pub frame-IsFreeMap :
      (mem : Mem)
      → ((x : ℕ) → t.bins ≤ x → x < t.bins + 1024 → mem x ≡ t.mem x)
      → ((a x : ℕ) → f a ≢ 0 → a ≤ x → x < a + f a → mem x ≡ t.mem x)
      → IsFreeMap (record t { mem = mem }) f
  frame-IsFreeMap mem bins gaps = record {
    view = m.view;
    holds =
        frame-Holds t m.view mem
          (record {
            bins = bins;
            gaps = λ c lt.
                All-map2 (m.view c)
                  (λ g i e x from to.
                    gaps g.base x (omega (arith, e, i.large)) from (omega (arith, e)))
                  (m.holds.gaps c lt) (m.lists.listed c lt);
          })
          m.holds;
    lists = m.lists;
  }

  pub count-IsFreeMap : (g : Counters → Counters) → IsFreeMap (count g t) f
  count-IsFreeMap g = record {
    view = m.view;
    holds = count-Holds t m.view g m.holds;
    lists = m.lists;
  }

  -- The bin of a gap that is taken out.
  module _ (a : ℕ) (ne : f a ≢ 0) where
    abbrev bin : ℕ
    bin = bin_of_size (f a)

    its-Split : Split (gap a (f a)) (m.view bin)
    its-Split = IsIn-Split (gap a (f a)) (m.view bin) (m.lists.complete a ne)

    pub deregister-IsFreeMap : IsFreeMap (deregister_gap a bin t) (entry a 0 f)
    deregister-IsFreeMap =
        let s = its-Split in
        record {
          view = put bin (s.before ++ s.after) m.view;
          holds =
              deregister_gap-Holds t m.view m.holds bin (bin_of_size-lt (f a) (m.lists.large a ne))
                s.before (gap a (f a)) s.after s.split;
          lists =
              Lists-cleared t m.view m.holds f m.lists bin
                (bin_of_size-lt (f a) (m.lists.large a ne)) s.before (gap a (f a)) s.after s.split;
        }

    pub deregister_bins : (deregister_gap a bin t).bins ≡ t.bins
    deregister_bins = Effects.result_bins t a bin

    -- A word off the bins and the gaps is kept.
    pub deregister_kept : (w : ℕ) → IsOff t.bins f w → (deregister_gap a bin t).mem w ≡ t.mem w
    deregister_kept w off =
        let s = its-Split in
        let e = off-IsElsewhere w off in
        kept t m.view m.holds bin (bin_of_size-lt (f a) (m.lists.large a ne)) s.before (gap a (f a))
          s.after s.split w (omega (arith, off.off_bins, bin_of_size-lt (f a) (m.lists.large a ne)))
          (subst (All (λ x. (w ≢ x.base) × (w ≢ x.base + 8))) s.split (
            All-map2 (m.view bin) (λ x k o. (omega (arith, o, k.large), omega (arith, o, k.large)))
              (m.holds.gaps bin (bin_of_size-lt (f a) (m.lists.large a ne)))
              (e.off_gaps bin (bin_of_size-lt (f a) (m.lists.large a ne)))))

  -- A region that becomes a gap.
  module _ (a n : ℕ) (region : IsRegion t.bins (gap a n))
      (fresh : (x : ℕ) → f x ≢ 0 → (a + n ≤ x) ⊎ (x + f x ≤ a)) where
    fresh_gaps : (c : ℕ) → c < 128 → All (ApartGaps (gap a n)) (m.view c)
    fresh_gaps c lt =
        All-map2 (m.view c) (λ g k e. omega (arith, e, fresh g.base (omega (arith, e, k.large))))
          (m.holds.gaps c lt) (m.lists.listed c lt)

    pub register-IsFreeMap : IsFreeMap (register_gap a (a + n) t) (entry a n f)
    register-IsFreeMap = record {
      view = put (bin_of_size n) (gap a n ∷ m.view (bin_of_size n)) m.view;
      holds = register_gap-Holds t (gap a n) region m.view m.holds fresh_gaps;
      lists = Lists-entry m.view f a n m.lists region.large clear (λ b lt.
          All-map2 (m.view b) (λ g k o. omega (arith, o, k.large, region.large)) (m.holds.gaps b lt)
            (fresh_gaps b lt));
    }
      where
        clear : f a ≡ 0
        clear = elim (eq-or-ne (f a) 0) [
          | inl z ↦ z
          | inr ne ↦ absurd (omega (arith, fresh a ne, region.large, ne))
        ]

    pub register_bins : (register_gap a (a + n) t).bins ≡ t.bins
    register_bins = result_bins t (gap a n) region

    -- A word off the bins, the gaps and the region is kept.
    pub register_kept :
        (w : ℕ)
        → IsOff t.bins f w
        → (w < a) ⊎ (a + n ≤ w)
        → (register_gap a (a + n) t).mem w ≡ t.mem w
    register_kept w off out =
        let lt = bin_of_size-lt n region.large in
        elsewhere t (gap a n) region w (omega (arith, off.off_bins, lt)) out (
          first_gap (λ y. w ≢ y + 8) t.mem (t.bins + bin_of_size n * 8) (m.view (bin_of_size n))
            (m.holds.links (bin_of_size n) lt)
            (All-map2 (m.view (bin_of_size n)) (λ x k o. omega (arith, o, k.large))
              (m.holds.gaps (bin_of_size n) lt)
              ((off-IsElsewhere w off).off_gaps (bin_of_size n) lt)))
