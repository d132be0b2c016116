-- ===== src/Talc/Chunks/Merged.antt =====
-- The gap that a chunk that is released becomes with the gaps beside it.
use talc.Base.{
  ℕ, ◌+◌, ◌-◌, ◌%◌, ◌^◌, ◌≤◌, ◌<◌, ◌≡◌, refl, ◌≢◌, ◌⊎◌, true, false, [], ◌∷◌, arith, ap, sym, subst,
  ◌∙◌, inl, inr, Bool-cases, eq-or-ne, le-or-lt,
}
use talc.Talc.State.{Talc}
use talc.Talc.Gaps.View.{gap, IsRegion}
use talc.Talc.FreeMap.{entry-IsGap}
use talc.Talc.FreeMap.Member.{entry}
use talc.Talc.FreeMap.Merge.{entry-here, entry-there}
use talc.Talc.Chunks.{
  Piece, absent, free_chunk, used_chunk, Chunks, size_of, gap_size, is_chunk, is_gap, Shape,
  gap_size-eq, is_chunk_of_gap, Shape-whole, gap_size-ne_zero,
}
use talc.Talc.Chunks.Tile.{tile-first, tile-later}
use talc.Talc.Chunks.Splice.{splice, IsSplice, splice_inside, splice_outside, inside-or-outside}
use talc.Talc.Chunks.State.{OffBins, gaps_of, HoldsChunks}
use talc.Talc.Chunks.Retag.{inside_absent, no_gap_above}
use talc.Talc.Chunks.Below.{IsBelow, gap_size-none}

true-false : true ≡ false → ⊥
true-false e = cc

module _ (t : Talc) (cs : Chunks) (h : HoldsChunks t cs) (a n ptr len : ℕ)
    (e : cs a ≡ used_chunk n ptr len) (lo : ℕ) (t1 : Talc) (b : IsBelow t cs a lo t1) where
  abbrev pub acme : ℕ
  acme = a + n

  abbrev pub hi : ℕ
  hi = acme + gaps_of cs acme

  abbrev pub merged : Piece
  merged = free_chunk (hi - lo)

  pub shape : Shape a (used_chunk n ptr len)
  shape = subst (Shape a) e (h.tiling.shape a)

  pub size_eq : size_of (cs a) ≡ n
  size_eq = ap size_of e

  above_gap : gaps_of cs acme ≢ 0 → is_gap (cs acme) ≡ true
  above_gap ne = gap_size-ne_zero acme (cs acme) (h.tiling.shape acme) ne

  pub lo_le : lo ≤ a
  lo_le = omega (arith, b.from)

  -- Between the ends there are the chunk and the gaps beside it.
  between : (x : ℕ) → lo < x → x < hi → x ≢ a → x ≢ acme → cs x ≡ absent
  between x above below ne_a ne_acme = elim (le-or-lt a x) [
    | inl from_a ↦ elim (le-or-lt acme x) [
      | inl from_acme ↦
          let gap = above_gap (omega (arith, below, from_acme, ne_acme)) in
          inside_absent cs h.tiling acme x (omega arith) (omega (arith, gap_size-eq (cs acme) gap))
      | inr lt ↦ inside_absent cs h.tiling a x (omega arith) (omega (arith, size_eq))
    ]
    | inr lt ↦
        let gap = gap_size-ne_zero lo (cs lo) (h.tiling.shape lo) (omega (arith, b.from)) in
        inside_absent cs h.tiling lo x above (omega (arith, b.from, gap_size-eq (cs lo) gap))
  ]

  low_whole : (lo % 8 ≡ 0) × (lo ≢ 0)
  low_whole = let s = Shape-whole lo (cs lo) b.begins (h.tiling.shape lo) in (s.0, s.2)

  high_whole : (hi % 8 ≡ 0) × (hi < 2 ^ 64)
  high_whole = elim (eq-or-ne (gaps_of cs acme) 0) [
    | inl z ↦ omega (arith, z, shape)
    | inr ne ↦
        let gap = above_gap ne in
        omega (
          arith,
          gap_size-eq (cs acme) gap,
          Shape-whole acme (cs acme) (is_chunk_of_gap (cs acme) gap) (h.tiling.shape acme),
        )
  ]

  pub merged_bounds : (lo + 24 ≤ hi) × (lo + (hi - lo) ≡ hi)
  merged_bounds = omega (arith, lo_le, shape)

  merged-Shape : Shape lo merged
  merged-Shape = omega (arith, low_whole, high_whole, merged_bounds)

  no_gap_at_end : is_gap (cs hi) ≡ false
  no_gap_at_end = elim (Bool-cases (is_gap (cs acme))) [
    | inl gap ↦
        subst (λ k. is_gap (cs (acme + k)) ≡ false) (sym (gap_size-eq (cs acme) gap))
          (no_gap_above cs h.tiling acme gap)
    | inr none ↦
        subst (λ k. is_gap (cs k) ≡ false) (omega (arith, gap_size-none (cs acme) none)) none
  ]

  cut_end : (x : ℕ) → lo ≤ x → x < hi → x + size_of (cs x) ≤ hi
  cut_end x from below = elim (eq-or-ne x a) [
    | inl at_a ↦ omega (arith, at_a, ap (λ y. size_of (cs y)) at_a, size_eq)
    | inr ne_a ↦ elim (eq-or-ne x acme) [
      | inl at ↦
          let gap = above_gap (omega arith) in
          omega (arith, at, ap (λ y. size_of (cs y)) at, gap_size-eq (cs acme) gap)
      | inr ne ↦ elim (eq-or-ne x lo) [
        | inl at_lo ↦ omega (
          arith,
          at_lo,
          h.tiling.apart x a (omega (arith, at_lo, lo_le, ne_a)) (ap is_chunk e),
          shape,
        )
        | inr ne_lo ↦ omega (arith, ap size_of (between x (omega arith) below ne_a ne))
      ]
    ]
  ]

  pub merged-IsSplice : IsSplice cs lo hi true merged []
  merged-IsSplice = record {
    cut_low = λ x lt. h.tiling.apart x lo lt b.begins;
    cut_high = cut_end;
    pieces = (refl, merged-Shape, tt);
    fits = omega (arith, merged_bounds);
    alternates = (λ k. refl, tt);
    tagged_below = λ k. b.tagged;
    chunk_below = λ k. absurd (ground arith);
    seam_gap = λ k. absurd (true-false (sym k ∙ no_gap_at_end));
    seam_used = λ k. omega (arith, merged_bounds);
  }

  abbrev pub cleared : ℕ → ℕ
  cleared = entry acme 0 (entry lo 0 (gaps_of cs))

  cleared_there : (x : ℕ) → x ≢ acme → x ≢ lo → cleared x ≡ gaps_of cs x
  cleared_there x ne_acme ne_lo =
      entry-there acme 0 (entry lo 0 (gaps_of cs)) x ne_acme ∙ entry-there lo 0 (gaps_of cs) x ne_lo

  cleared_acme : (x : ℕ) → x ≡ acme → cleared x ≡ 0
  cleared_acme x at = ap cleared at ∙ entry-here acme 0 (entry lo 0 (gaps_of cs))

  cleared_lo : (x : ℕ) → x ≡ lo → cleared x ≡ 0
  cleared_lo x at =
      entry-there acme 0 (entry lo 0 (gaps_of cs)) x (omega (arith, at, lo_le, shape))
      ∙ ap (entry lo 0 (gaps_of cs)) at
      ∙ entry-here lo 0 (gaps_of cs)

  -- No gap is left between the ends.
  cleared_inside : (x : ℕ) → lo ≤ x → x < hi → cleared x ≡ 0
  cleared_inside x from below = elim (eq-or-ne x acme) [
    | inl at ↦ cleared_acme x at
    | inr ne_acme ↦ elim (eq-or-ne x lo) [
      | inl at ↦ cleared_lo x at
      | inr ne_lo ↦ cleared_there x ne_acme ne_lo ∙ elim (eq-or-ne x a) [
        | inl at ↦ ap (gaps_of cs) at ∙ ap gap_size e
        | inr ne_a ↦ ap gap_size (between x (omega arith) below ne_a ne_acme)
      ]
    ]
  ]

  cleared_outside : (x : ℕ) → x ≢ lo → (x < lo) ⊎ (hi ≤ x) → cleared x ≡ gaps_of cs x
  cleared_outside x ne_lo out = elim (eq-or-ne x acme) [
    | inl at ↦ cleared_acme x at ∙ sym (ap (gaps_of cs) at ∙ omega (arith, at, out, lo_le, shape))
    | inr ne_acme ↦ cleared_there x ne_acme ne_lo
  ]

  -- The map of the gaps, as the operations on the bins leave it.
  pub gaps_same : (x : ℕ) → entry lo (hi - lo) cleared x ≡ gaps_of (splice lo hi (merged ∷ []) cs) x
  gaps_same x = elim (eq-or-ne x lo) [
    | inl at ↦
        ap (entry lo (hi - lo) cleared) at
        ∙ entry-here lo (hi - lo) cleared
        ∙ sym (
            ap gap_size (
              splice_inside lo hi (merged ∷ []) cs x (omega arith)
                (omega (arith, at, merged_bounds))
              ∙ tile-first lo merged [] x at))
    | inr ne_lo ↦ entry-there lo (hi - lo) cleared x ne_lo ∙ elim (inside-or-outside lo hi x) [
      | inl (from, below) ↦
          cleared_inside x from below
          ∙ sym (
              ap gap_size (
                splice_inside lo hi (merged ∷ []) cs x from below
                ∙ tile-later lo merged [] x ne_lo))
      | inr out ↦
          cleared_outside x ne_lo out
          ∙ sym (ap gap_size (splice_outside lo hi (merged ∷ []) cs x out))
    ]
  ]

  -- The gaps that are left are apart from the new one.
  pub merged_fresh : (x : ℕ) → cleared x ≢ 0 → (lo + (hi - lo) ≤ x) ⊎ (x + cleared x ≤ lo)
  merged_fresh x ne = elim (inside-or-outside lo hi x) [
    | inl (from, below) ↦ absurd (ne (cleared_inside x from below))
    | inr out ↦ elim (le-or-lt hi x) [
      | inl above ↦ inl (omega (arith, merged_bounds))
      | inr lt ↦
          let same = cleared_outside x (omega arith) out in
          let gap = gap_size-ne_zero x (cs x) (h.tiling.shape x) (λ z. ne (same ∙ z)) in
          inr (
            omega (arith, same, gap_size-eq (cs x) gap, h.tiling.apart x lo (omega arith) b.begins))
    ]
  ]

  gap_off : (x : ℕ) → (gaps_of cs x ≡ 0) ⊎ ((x + gaps_of cs x ≤ t.bins) ⊎ (t.bins + 1024 ≤ x))
  gap_off x = elim (eq-or-ne (gaps_of cs x) 0) [
    | inl z ↦ inl z
    | inr ne ↦ inr ((entry-IsGap t (gaps_of cs) h.free x ne).off_bins)
  ]

  off_bins : (lo + (hi - lo) ≤ t.bins) ⊎ (t.bins + 1024 ≤ lo)
  off_bins =
      let here : (a + n ≤ t.bins) ⊎ (t.bins + 1024 ≤ a) = subst (OffBins t.bins a) e (h.off a) in
      omega (arith, here, gap_off lo, gap_off acme, b.from, merged_bounds, shape)

  pub merged-IsRegion : IsRegion t.bins (gap lo (hi - lo))
  merged-IsRegion = record {
    large = omega (arith, merged_bounds);
    whole = omega (arith, low_whole, high_whole, merged_bounds);
    aligned = low_whole.0;
    ne_null = low_whole.1;
    in_word = omega (arith, high_whole, merged_bounds);
    off_bins = off_bins;
  }
