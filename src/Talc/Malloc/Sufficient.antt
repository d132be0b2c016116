-- ===== src/Talc/Malloc/Sufficient.antt =====
-- `Talc::get_sufficient_chunk` of talc/src/talc.rs finds a gap that fits whenever there is one.
use talc.Base.{
  ◌%◌, ℕ, ◌+◌, ◌^◌, ◌≤◌, ◌<◌, ◌≡◌, inl, inr, Option, none, some, List, ◌∷◌, ◌++◌, arith,
  if◌then◌else◌, subst, le-or-lt, leb, le→leb, lt→leb,
}
use talc.Base.Lists.{All, All-mono, All-map2, All-append, length}
use talc.Talc.Layout.{Layout}
use talc.Talc.State.{Talc}
use talc.Talc.Avails.{next_available_bin}
use talc.Talc.Avails.Search.{IsFirst, next_available_bin-IsFirst}
use talc.Talc.SizeClass.{bin_of_size, required_chunk_size}
use talc.Talc.SizeClass.Bounds.{bin_of_size-lt, lt_of_bin_of_size-lt, required_chunk_size-least}
use talc.Talc.Gaps.Update.{put}
use talc.Talc.Gaps.Deregister.Effects.{result_bins}
use talc.Talc.Gaps.Deregister.{deregister_gap-Holds}
use talc.Talc.Gaps.View.{Gap, IsGap, View, Holds}
use talc.Talc.Malloc.{
  Search, found, exhausted, out_of_fuel, Chunk, fit_word, fit_aligned, scan_bins,
  get_sufficient_chunk,
}
use talc.Talc.Malloc.Find.{NoneFits, Found, Found-earlier, no_gap, scan_bins-Found}
use talc.Talc.Malloc.Fit.{IsLayout, IsPlace, fit_of, fit-IsPlace, fit-whole, no-IsPlace, fit-small}
use talc.PtrUtils.{align as word_align}

-- What `get_sufficient_chunk` promises. What it finds was a gap of a bin, with a place for the
-- allocation, and the state holds the view without that gap; and it gives up only if no gap
-- of any bin has a place.
pub record IsSufficient (bins : ℕ) (view : View) (layout : Layout) (c : Chunk) (t' : Talc)
    : Type 0 where
  pub bin : ℕ
  pub in_range : bin < 128
  pub before : List Gap
  pub gap : Gap
  pub after : List Gap
  pub split : view bin ≡ before ++ gap ∷ after
  pub base : c.base ≡ gap.base
  pub acme : c.acme ≡ gap.base + gap.size
  pub place : IsPlace layout gap (c.alloc_base)
  pub whole : c.alloc_base % 8 ≡ 0
  pub bins_eq : t'.bins ≡ bins
  pub holds : Holds t' (put bin (before ++ after) view)

abbrev pub Sufficient : ℕ → View → Layout → Search (Chunk × Talc) → Type 0
Sufficient bins view layout (found (c, t')) = IsSufficient bins view layout c t'
Sufficient bins view layout exhausted =
    (b : ℕ) → b < 128 → All (λ g. (p : ℕ) → ¬ (IsPlace layout g p)) (view b)
Sufficient bins view layout out_of_fuel = ⊥

module _ (t : Talc) (view : View) (h : Holds t view) (layout : Layout) (k : ℕ)
    (l : IsLayout layout k)
    (room : (b : ℕ) → b < 128 → All (λ g. g.base + g.size + layout.align ≤ 2 ^ 64) (view b)) where
  -- The gaps of the bins before the first are too small.
  small_bins :
      (c : ℕ)
      → c < bin_of_size (required_chunk_size layout.size)
      → NoneFits (fit_of layout) (view c)
  small_bins c lt =
      let in_range : c < 128 = omega (
        arith,
        bin_of_size-lt (required_chunk_size layout.size)
            (required_chunk_size-least layout.size 0 l.fits).1,
      ) in
      All-mono (view c)
        (λ g i. fit-small layout g (
          lt_of_bin_of_size-lt g.size (required_chunk_size layout.size)
            (required_chunk_size-least layout.size 0 l.fits).1 (omega (arith, i.in_word))
            (omega (arith, i.class))))
        (h.gaps c in_range)

  pub to_Sufficient :
      (r : Search (Chunk × Talc))
      → Found (fit_of layout) t view 0 r
      → Sufficient t.bins view layout r
  to_Sufficient (found (c, t')) f =
      let i = f.is_in in
      let facts =
        All-append (λ g. IsGap t.mem t.bins f.bin g × (g.base + g.size + layout.align ≤ 2 ^ 64))
          i.before (i.gap ∷ i.after)
          (subst (All (λ g. IsGap t.mem t.bins f.bin g × (g.base + g.size + layout.align ≤ 2 ^ 64)))
            i.split
            (All-map2 (view f.bin) (λ g a b. (a, b)) (h.gaps f.bin f.in_range)
              (room f.bin f.in_range))) in
      record {
        bin = f.bin;
        in_range = f.in_range;
        before = i.before;
        gap = i.gap;
        after = i.after;
        split = i.split;
        base = i.base;
        acme = i.acme;
        place =
            fit-IsPlace t.bins layout k l i.gap facts.1.0.0.region facts.1.0.1 c.alloc_base i.fits;
        whole =
            fit-whole t.bins layout k l i.gap facts.1.0.0.region facts.1.0.1 c.alloc_base i.fits;
        bins_eq = rw f.taken (result_bins t c.base f.bin);
        holds =
            rw (f.taken, i.base)
              (deregister_gap-Holds t view h f.bin f.in_range i.before i.gap i.after i.split);
      }
  to_Sufficient exhausted f = λ b lt.
      All-mono (view b)
        (λ g
            (x : (fit_of layout g.base g.size ≡ none)
              × (IsGap t.mem t.bins b g × (g.base + g.size + layout.align ≤ 2 ^ 64))).
          no-IsPlace t.bins layout k l g x.1.0.region x.1.1 x.0)
        (All-map2 (view b) (λ g a c. (a, c)) (f b (omega arith) lt)
          (All-map2 (view b) (λ g a c. (a, c)) (h.gaps b lt) (room b lt)))
  to_Sufficient out_of_fuel f = f

  module _ (nodes : ℕ) (enough : (c : ℕ) → c < 128 → length (view c) < nodes) where
    same_loop :
        (bin : ℕ)
        → (if leb layout.align word_align
            then scan_bins (fit_word (required_chunk_size layout.size)) nodes 128 t bin
            else scan_bins (fit_aligned layout (required_chunk_size layout.size)) nodes 128 t bin)
          ≡ scan_bins (fit_of layout) nodes 128 t bin
    same_loop bin = elim (le-or-lt layout.align 8) [
      | inl word ↦ rw (le→leb _ _ word)
      | inr large ↦ rw (lt→leb _ _ large)
    ]

    from_first :
        (o : Option ℕ)
        → IsFirst t (bin_of_size (required_chunk_size layout.size)) o
        → Found (fit_of layout) t view 0 (elim o [
          | none ↦ exhausted
          | some bin ↦
              if leb layout.align word_align
              then scan_bins (fit_word (required_chunk_size layout.size)) nodes 128 t bin
              else scan_bins (fit_aligned layout (required_chunk_size layout.size)) nodes 128 t bin
        ])
    from_first none first = λ c lo hi.
        elim (le-or-lt (bin_of_size (required_chunk_size layout.size)) c) [
          | inl later ↦ no_gap (fit_of layout) t view h nodes enough c hi (first c later hi)
          | inr earlier ↦ small_bins c earlier
        ]
    from_first (some bin) (le, hi', one, zeros) = rw (same_loop bin) (
        Found-earlier (fit_of layout) t view 0 bin (scan_bins (fit_of layout) nodes 128 t bin)
          (omega arith)
          (λ c lo hi. elim (le-or-lt (bin_of_size (required_chunk_size layout.size)) c) [
            | inl later ↦
                no_gap (fit_of layout) t view h nodes enough c (omega arith) (zeros c later hi)
            | inr earlier ↦ small_bins c earlier
          ])
          (scan_bins-Found (fit_of layout) t view h nodes enough 128 bin hi' (omega arith)))

  pub get_sufficient_chunk-Found :
      (nodes : ℕ)
      → ((c : ℕ) → c < 128 → length (view c) < nodes)
      → Found (fit_of layout) t view 0 (get_sufficient_chunk nodes layout t)
  unfolding get_sufficient_chunk
  get_sufficient_chunk-Found nodes enough =
      from_first nodes enough (next_available_bin (bin_of_size (required_chunk_size layout.size)) t)
        (next_available_bin-IsFirst t h.words (bin_of_size (required_chunk_size layout.size)))

  -- In a state that holds a view of the bins, for a layout of a power-of-two alignment and a size
  -- that leaves room for rounding, where no gap lies so high that adding the alignment to its end
  -- leaves the address space, and with more fuel than any bin has gaps, get_sufficient_chunk ends.
  -- What it finds was a gap of a bin with a place for the allocation (aligned, in the gap, with
  -- room for the bytes and a tag) and the state it leaves holds the view without that gap; and it
  -- finds nothing only if no gap of any bin has a place.
  pub get_sufficient_chunk-Sufficient :
      (nodes : ℕ)
      → ((c : ℕ) → c < 128 → length (view c) < nodes)
      → Sufficient t.bins view layout (get_sufficient_chunk nodes layout t)
  get_sufficient_chunk-Sufficient nodes enough =
      to_Sufficient (get_sufficient_chunk nodes layout t) (get_sufficient_chunk-Found nodes enough)
