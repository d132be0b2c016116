-- ===== src/Talc/Gaps/Register.antt =====
-- `Talc::register_gap` of talc/src/talc.rs puts a gap in front of the bin of its size.
pub mod Effects
use native.Mathlib.Nat.{add-zero}
use talc.Base.{
  ℕ, zero, suc, ◌+◌, ◌-◌, ◌*◌, ◌%◌, ◌^◌, ◌≤◌, ◌<◌, ◌≡◌, refl, ◌≢◌, ◌⊎◌, inl, inr, Bool, true, false,
  List, [], ◌∷◌, arith, ◌==◌, if◌then◌else◌, ◌∙◌, ap, sym, subst, ==→ne, eq-or-ne, Bool-cases,
  ==→eq, ne→==, eq→==,
}
use talc.Base.Lists.{All, All-mono, All-map2}
use talc.Mem.{Mem, write, write_ne, write_self}
use talc.PtrUtils.{wrapping_sub}
use talc.Llist.{insert}
use talc.Llist.Links.{Links, Outside, OutsideNode, ApartNodes, Separate, Links-write}
use talc.Llist.Insert.{insert-Links, insert-elsewhere}
use talc.Talc.State.{Talc}
use talc.Talc.SizeClass.{bin_of_size}
use talc.Talc.SizeClass.Bounds.{bin_of_size-lt}
use talc.Talc.Avails.{set_avails}
use talc.Talc.Avails.Flags.{flag, InWords, flag-set_avails, set_avails-InWords}
use talc.Talc.Gaps.{register_gap}
use talc.Talc.Gaps.Update.{put, by_bin, put-Across}
use talc.Talc.Gaps.View.{
  Gap, gap, bases, is_nil, OutsideGap, ApartGaps, SeparateGaps, IsRegion, IsGap, View, Holds,
  IsLarge, bases-apart, bases-Separate, bases-Outside, SameNode, SameSizes, Links-frame,
  IsGap-frame, null_iff_nil, first_gap,
}
use talc.Talc.Gaps.Register.Effects.{result_mem, result_bins, result-flag, result_words, elsewhere}

module _ (t : Talc) (g : Gap) (region : IsRegion t.bins g) where
  abbrev bin : ℕ
  bin = bin_of_size g.size

  abbrev link : ℕ
  link = t.bins + bin * 8

  abbrev result : Talc
  result = register_gap g.base (g.base + g.size) t

  module _ (view : View) (h : Holds t view)
      (fresh : (c : ℕ) → c < 128 → All (ApartGaps g) (view c)) where
    in_range : bin < 128
    in_range = bin_of_size-lt g.size region.large

    IsLarge-of : (c : ℕ) → c < 128 → All IsLarge (view c)
    IsLarge-of c lt = All-mono (view c) (λ x k. k.large) (h.gaps c lt)

    off_link : (c : ℕ) (lt : c < 128) → All (OutsideGap link) (view c)
    off_link c lt =
        All-mono (view c) (λ x k. omega (arith, k.off_bins, k.large, in_range)) (h.gaps c lt)

    -- A word of the new gap is in no node of a bin.
    new-Outside :
        (c a : ℕ) → c < 128 → g.base ≤ a → a < g.base + g.size → Outside a (bases (view c))
    new-Outside c a lt lo hi =
        bases-Outside a (view c) (IsLarge-of c lt)
          (All-mono (view c) (λ x k. omega arith) (fresh c lt))

    -- The bin of the new gap.
    Links-here : Links result.mem link (g.base ∷ bases (view bin))
    Links-here =
        let off : OutsideGap link g = omega (arith, region.off_bins, region.large, in_range) in
        subst (λ m'. Links m' link (g.base ∷ bases (view bin))) (sym (result_mem t g region))
          (Links-write _ link (g.base ∷ bases (view bin)) (g.base + g.size - 8) g.size
            (omega (arith, off, region.large))
            (
              omega (arith, region.large),
              new-Outside bin _ in_range (omega (arith, region.large))
                  (omega (arith, region.large)),
            )
            (Links-write _ link (g.base ∷ bases (view bin)) (g.base + 16) g.size
              (omega (arith, off, region.large))
              (omega arith, new-Outside bin _ in_range (omega arith) (omega (arith, region.large)))
              (insert-Links t.mem g.base link (bases (view bin)) region.ne_null
                (omega (arith, off, region.large))
                (bases-apart g (view bin) region.large (IsLarge-of bin in_range)
                  (fresh bin in_range))
                (bases-Outside link (view bin) (IsLarge-of bin in_range) (off_link bin in_range))
                (bases-Separate (view bin) (IsLarge-of bin in_range) (h.separate bin in_range))
                (h.links bin in_range))))

    module _ (c : ℕ) (lt : c < 128) (ne : c ≢ bin) where
      -- A word of a gap of another bin is kept.
      kept :
          (x : Gap)
          → IsGap t.mem t.bins c x
          → ApartGaps g x
          → All (ApartGaps x) (view bin)
          → (a : ℕ) → x.base ≤ a
          → a < x.base + x.size
          → result.mem a ≡ t.mem a
      kept x k apart others a lo hi =
          elsewhere t g region a (omega (arith, k.off_bins, in_range)) (omega (arith, apart)) (
            first_gap (λ y. a ≢ y + 8) t.mem link (view bin) (h.links bin in_range)
              (All-map2 (view bin) (λ y l o. omega arith) (IsLarge-of bin in_range) others))

      facts :
          All (λ x. IsGap t.mem t.bins c x × ApartGaps g x × All (ApartGaps x) (view bin)) (view c)
      facts =
          All-map2 (view c) (λ x p o. (p.0, p.1, o))
            (All-map2 {R = λ x. IsGap t.mem t.bins c x × ApartGaps g x} (view c) (λ x k a. (k, a))
              (h.gaps c lt) (fresh c lt))
            (h.across c bin lt in_range ne)

      Links-other : Links result.mem (t.bins + c * 8) (bases (view c))
      Links-other =
          Links-frame t.mem result.mem (t.bins + c * 8) (view c)
            (elsewhere t g region (t.bins + c * 8) (omega arith) (omega (arith, region.off_bins)) (
              first_gap (λ y. t.bins + c * 8 ≢ y + 8) t.mem link (view bin) (h.links bin in_range)
                (All-mono (view bin) (λ y k. omega (arith, k.off_bins, k.large))
                  (h.gaps bin in_range))))
            (All-mono (view c)
              (λ x (k, a, o). (
                kept x k a o x.base (omega arith) (omega (arith, k.large)),
                kept x k a o (x.base + 8) (omega arith) (omega (arith, k.large)),
              ))
              facts)
            (h.links c lt)

      gaps_other : All (IsGap result.mem t.bins c) (view c)
      gaps_other =
          All-mono (view c)
            (λ x (k, a, o).
              IsGap-frame t.mem result.mem t.bins c x
                (
                  kept x k a o (x.base + 16) (omega arith) (omega (arith, k.large)),
                  kept x k a o (x.base + x.size - 8) (omega (arith, k.large))
                      (omega (arith, k.large)),
                )
                k)
            facts

    -- The sizes of the gaps that were in the bin already.
    gaps_here :
        (gs : List Gap)
        → Links t.mem link (bases gs)
        → SeparateGaps gs
        → All (IsGap t.mem t.bins bin) gs
        → All (ApartGaps g) gs
        → All (IsGap result.mem t.bins bin) gs
    gaps_here [] l sep all apart = tt
    gaps_here (y ∷ gs) l sep all apart = (
      of_gap y all.0 apart.0 (inr refl),
      All-map2 gs (λ x p s. of_gap x p.0 p.1 (inl s))
          (All-map2 {R = λ x. IsGap t.mem t.bins bin x × ApartGaps g x} gs (λ x k a. (k, a)) all.1
            apart.1)
          sep.0,
    )
      where
        word :
            (x : Gap)
            → IsGap t.mem t.bins bin x
            → ApartGaps g x
            → (ApartGaps y x) ⊎ (y.base ≡ x.base)
            → (a : ℕ) → x.base + 16 ≤ a
            → a < x.base + x.size
            → result.mem a ≡ t.mem a
        word x k a s w lo hi =
            elsewhere t g region w (omega (arith, k.off_bins, in_range)) (omega (arith, a))
              (λ some. omega (arith, l.0, s, all.0.large))

        of_gap :
            (x : Gap)
            → IsGap t.mem t.bins bin x
            → ApartGaps g x
            → (ApartGaps y x) ⊎ (y.base ≡ x.base)
            → IsGap result.mem t.bins bin x
        of_gap x k a s =
            IsGap-frame t.mem result.mem t.bins bin x
              (
                word x k a s (x.base + 16) (omega arith) (omega (arith, k.large)),
                word x k a s (x.base + x.size - 8) (omega (arith, k.large))
                    (omega (arith, k.large)),
              )
              k

    IsGap-new : IsGap result.mem t.bins bin g
    IsGap-new = record {
      region = region;
      low_size = rw (result_mem t g region) (unfold write in ground arith);
      high_size = rw (result_mem t g region) (write_self _ (g.base + g.size - 8) g.size);
      class = refl;
    }

    flag_here : flag result bin ≡ 1
    flag_here = result-flag t g region bin ∙ elim (Bool-cases (t.mem link == 0)) [
      | inl e ↦ rw e (
          flag-set_avails t bin bin in_range (
            h.flags bin in_range
            ∙ ap (λ b. if b then 0 else 1)
                (sym (null_iff_nil t.mem link (view bin) (h.links bin in_range)) ∙ e))
          ∙ ap (λ b. if b then 1 else flag t bin) (eq→== bin bin refl))
      | inr e ↦ rw e (
          h.flags bin in_range
          ∙ ap (λ b. if b then 0 else 1)
              (sym (null_iff_nil t.mem link (view bin) (h.links bin in_range)) ∙ e))
    ]

    flag_other : (c : ℕ) → c < 128 → c ≢ bin → flag result c ≡ flag t c
    flag_other c lt ne = result-flag t g region c ∙ elim (Bool-cases (t.mem link == 0)) [
      | inl e ↦ rw e (
          flag-set_avails t bin c in_range (
            h.flags bin in_range
            ∙ ap (λ b. if b then 0 else 1)
                (sym (null_iff_nil t.mem link (view bin) (h.links bin in_range)) ∙ e))
          ∙ ap (λ b. if b then 1 else flag t c) (ne→== c bin ne))
      | inr e ↦ rw e refl
    ]

    -- From a state that holds a view, registering a region that is aligned, of whole words, large
    -- enough, off the array of bins and apart from all gaps leads to a state that holds the view
    -- with the gap in front of the bin of its size: the links, the sizes at both ends and the
    -- flags of all bins.
    pub register_gap-Holds : Holds result (put bin (g ∷ view bin) view)
    register_gap-Holds =
        let each = by_bin bin (g ∷ view bin) view in
        record {
          words = result_words t g region h.words;
          links =
              rw (result_bins t g region) (
                each (λ c gs. Links result.mem (t.bins + c * 8) (bases gs)) Links-here Links-other);
          gaps = rw (result_bins t g region) (
              each (λ c gs. All (IsGap result.mem t.bins c) gs)
                (
                  IsGap-new,
                  gaps_here (view bin) (h.links bin in_range) (h.separate bin in_range)
                      (h.gaps bin in_range) (fresh bin in_range),
                )
                gaps_other);
          separate =
              each (λ c gs. SeparateGaps gs) (fresh bin in_range, h.separate bin in_range)
                (λ c lt ne. h.separate c lt);
          across = λ c d lt lt' ne.
              put-Across bin (g ∷ view bin) view h.across
                (λ e le ne'. (fresh e le, h.across bin e in_range le (λ q. ne' (sym q)))) c lt d lt'
                ne;
          flags =
              each (λ c gs. flag result c ≡ (if is_nil gs then 0 else 1)) flag_here
                (λ c lt ne. flag_other c lt ne ∙ h.flags c lt);
        }
