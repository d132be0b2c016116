-- ===== src/Talc/Chunks/Lower.antt =====
-- The lower half of what `Talc::malloc` of talc/src/talc.rs does with the chunk that it found: the
-- part below the allocation goes back to the bins, or the tag below is told that no gap follows.
use talc.Base.{
  ℕ, ◌+◌, ◌-◌, ◌%◌, ◌≤◌, ◌<◌, ◌≡◌, refl, ◌≢◌, ◌⊎◌, inl, inr, Bool, true, false, arith, ap, sym,
  subst, ◌∙◌, eq-or-ne, le-or-lt,
}
use talc.Mem.{write, write_ne}
use talc.Tag
use talc.Tag.{tag_of}
use talc.Tag.Laws.{clear_above_free_lem}
use talc.Talc.State.{Talc}
use talc.Talc.Gaps.{register_gap, store}
use talc.Talc.Gaps.View.{gap, IsRegion}
use talc.Talc.FreeMap.{
  IsFreeMap, IsOff, entry-IsGap, store-IsFreeMap, register-IsFreeMap, register_bins, register_kept,
}
use talc.Talc.FreeMap.Member.{entry}
use talc.Talc.FreeMap.Merge.{IsMerged, same-IsFreeMap, entry-here, entry-there, cleared-IsOff}
use talc.Talc.Chunks.{
  free_chunk, Chunks, size_of, gap_size, is_chunk, is_gap, Shape, gap_size-eq, is_chunk_of_tagged,
  is_chunk_of_gap, gap_size-ne_zero,
}
use talc.Talc.Chunks.State.{Tagged, gaps_of, HoldsChunks, Tagged-frame}
use talc.Talc.Chunks.Retag.{base_of, base_of-IsBase, tag_word, retag-Tagged, ends_unique}
use talc.Talc.Chunks.Below.{tag_below, tag-IsOff, ends_chunk, ends_before}
use talc.Talc.Chunks.Place.{IsOpen}

-- The allocation's chunk begins at `base`, in the gap that began at `g`.
pub record IsLowered (t : Talc) (cs : Chunks) (g acme base : ℕ) (t' : Talc) : Type 0 where
  pub below : Bool
  pub below_eq : ((below ≡ true) × (g + 24 ≤ base)) ⊎ ((below ≡ false) × (base ≡ g))
  pub free : IsFreeMap t' (entry g (base - g) (gaps_of cs))
  pub bins_eq : t'.bins ≡ t.bins
  pub kept :
      (x : ℕ) → (x < g) ⊎ (base ≤ x) → x ≢ g - 8 → IsOff t.bins (gaps_of cs) x → t'.mem x ≡ t.mem x
  pub retag : (c : ℕ) → c < g → c + size_of (cs c) ≡ g → Tagged t'.mem below c (cs c)
  pub opened : IsOpen t'.bins (entry g (base - g) (gaps_of cs)) base acme

module _ (t : Talc) (cs : Chunks) (h : HoldsChunks t cs) (g s : ℕ) (e : cs g ≡ free_chunk s)
    (t1 : Talc) (m : IsMerged t (gaps_of cs) g t1) where
  abbrev f : ℕ → ℕ
  f = gaps_of cs

  size_eq : f g ≡ s
  size_eq = ap gap_size e

  gap-Shape : Shape g (free_chunk s)
  gap-Shape = subst (Shape g) e (h.tiling.shape g)

  gap_here : is_gap (cs g) ≡ true
  gap_here = ap is_gap e

  g_off : (g + s ≤ t.bins) ⊎ (t.bins + 1024 ≤ g)
  g_off =
      omega
        (arith, size_eq, (entry-IsGap t f h.free g (omega (arith, size_eq, gap-Shape))).off_bins)

  -- Other gaps are apart from this one.
  others : (x : ℕ) → x ≢ g → f x ≢ 0 → (g + s ≤ x) ⊎ (x + f x ≤ g)
  others x ne at =
      let gap = gap_size-ne_zero x (cs x) (h.tiling.shape x) at in
      let chunk = is_chunk_of_gap (cs x) gap in
      let here : is_chunk (cs g) ≡ true = ap is_chunk e in
      let size : size_of (cs g) ≡ s = ap size_of e in
      elim (le-or-lt g x) [
        | inl le ↦ inl (omega (arith, size, h.tiling.apart g x (omega arith) chunk))
        | inr lt ↦ inr (omega (arith, gap_size-eq (cs x) gap, h.tiling.apart x g lt here))
      ]

  lowered-IsOpen :
      (t' : Talc) (base : ℕ)
      → t'.bins ≡ t.bins
      → (base ≡ g) ⊎ (g + 24 ≤ base)
      → base ≤ g + s
      → base % 8 ≡ 0
      → IsOpen t'.bins (entry g (base - g) f) base (g + s)
  lowered-IsOpen t' base bins from le word = record {
    aligned = word;
    whole = omega (arith, gap-Shape);
    ne_null = omega (arith, gap-Shape);
    in_word = omega (arith, gap-Shape);
    off_bins = omega (arith, g_off, bins);
    apart = λ x ne. elim (eq-or-ne x g) [
      | inl at ↦
          inr (omega (arith, at, ap (entry g (base - g) f) at, entry-here g (base - g) f, from))
      | inr other ↦
          let same = entry-there g (base - g) f x other in
          omega (arith, same, others x other (λ z. ne (same ∙ z)), from)
    ];
  }

  tagged_at_g : (c : ℕ) → c < g → c + size_of (cs c) ≡ g → Tagged t1.mem true c (cs c)
  tagged_at_g c lt at =
      Tagged-frame t.bins cs h.tiling t.mem t1.mem c true (h.off c) (λ x from to off. m.kept x off)
        (subst (λ k. Tagged t.mem k c (cs c)) gap_here (tag_below t cs h c g at))

  -- With a part below that becomes a gap.
  module _ (base : ℕ) (big : g + 24 ≤ base) (le : base ≤ g + s) (word : base % 8 ≡ 0) where
    region : IsRegion t1.bins (gap g (base - g))
    region = record {
      large = omega arith;
      whole = omega (arith, gap-Shape);
      aligned = omega (arith, gap-Shape);
      ne_null = omega (arith, gap-Shape);
      in_word = omega (arith, gap-Shape);
      off_bins = omega (arith, g_off, m.bins_eq);
    }

    ends : g + (base - g) ≡ base
    ends = omega arith

    fresh : (x : ℕ) → entry g 0 f x ≢ 0 → (g + (base - g) ≤ x) ⊎ (x + entry g 0 f x ≤ g)
    fresh x ne = elim (eq-or-ne x g) [
      | inl at ↦ absurd (ne (ap (entry g 0 f) at ∙ entry-here g 0 f))
      | inr other ↦
          let same = entry-there g 0 f x other in
          omega (arith, same, others x other (λ z. ne (same ∙ z)))
    ]

    twice : (x : ℕ) → entry g (base - g) (entry g 0 f) x ≡ entry g (base - g) f x
    twice x = elim (eq-or-ne x g) [
      | inl at ↦
          ap (entry g (base - g) (entry g 0 f)) at
          ∙ entry-here g (base - g) (entry g 0 f)
          ∙ sym (ap (entry g (base - g) f) at ∙ entry-here g (base - g) f)
      | inr other ↦
          entry-there g (base - g) (entry g 0 f) x other
          ∙ entry-there g 0 f x other
          ∙ sym (entry-there g (base - g) f x other)
    ]

    below_bins : (register_gap g base t1).bins ≡ t.bins
    below_bins =
        subst (λ x. (register_gap g x t1).bins ≡ t1.bins) ends
          (register_bins t1 (entry g 0 f) m.free g (base - g) region fresh)
        ∙ m.bins_eq

    below_kept :
        (x : ℕ) → (x < g) ⊎ (base ≤ x) → IsOff t.bins f x → (register_gap g base t1).mem x ≡ t.mem x
    below_kept x out off =
        let off' =
          subst (λ k. IsOff k (entry g 0 f) x) (sym m.bins_eq) (cleared-IsOff t.bins g f x off) in
        subst (λ y. (register_gap g y t1).mem x ≡ t1.mem x) ends
          (register_kept t1 (entry g 0 f) m.free g (base - g) region fresh x off'
            (omega (arith, out, ends)))
        ∙ m.kept x off

    pub below-IsLowered : IsLowered t cs g (g + s) base (register_gap g base t1)
    below-IsLowered = record {
      below = true;
      below_eq = inl (refl, big);
      free =
          same-IsFreeMap (register_gap g base t1) (entry g (base - g) (entry g 0 f))
            (entry g (base - g) f) twice
            (subst (λ x. IsFreeMap (register_gap g x t1) (entry g (base - g) (entry g 0 f))) ends
              (register-IsFreeMap t1 (entry g 0 f) m.free g (base - g) region fresh));
      bins_eq = below_bins;
      kept = λ x out ne off. below_kept x out off;
      retag = λ c lt at.
          Tagged-frame t.bins cs h.tiling t.mem (register_gap g base t1).mem c true (h.off c)
            (λ x from to off. below_kept x (inl (omega arith)) off)
            (subst (λ k. Tagged t.mem k c (cs c)) gap_here (tag_below t cs h c g at));
      opened = lowered-IsOpen (register_gap g base t1) base below_bins (inr big) le word;
    }

  -- Without one, the flag of the tag below is cleared.
  pub cleared-IsLowered :
      IsLowered t cs g (g + s) g (record t1 { mem = Tag.clear_above_free t1.mem (g - 8) })
  unfolding Tag.write
  cleared-IsLowered =
      let (b, tagged, end) = h.tiling.below_gap g gap_here in
      let chunk = is_chunk_of_tagged (cs b) tagged in
      let tags = tagged_at_g b (ends_before t cs h b g chunk end) end in
      let word =
        subst (λ x. t1.mem (x - 8) ≡ tag_of (base_of b (cs b)) true) end
          (tag_word t1.mem true b (cs b) tagged tags) in
      let cleared = store (g - 8) (tag_of (base_of b (cs b)) false) t1 in
      let off = tag-IsOff t cs h b g tagged end in
      let off1 =
        subst (λ k. IsOff k (entry g 0 f) (g - 8)) (sym m.bins_eq)
          (cleared-IsOff t.bins g f (g - 8) off) in
      let zero : g - g ≡ 0 = omega arith in
      rw
        (clear_above_free_lem t1.mem (g - 8) (base_of b (cs b))
          (base_of-IsBase b (cs b) (h.tiling.shape b)) word)
        (record {
          below = false;
          below_eq = inr (refl, refl);
          free =
              subst (λ k. IsFreeMap cleared (entry g k f)) (sym zero)
                (store-IsFreeMap t1 (entry g 0 f) m.free (g - 8) (tag_of (base_of b (cs b)) false)
                  off1);
          bins_eq = m.bins_eq;
          kept = λ x out ne off.
              write_ne t1.mem (g - 8) (tag_of (base_of b (cs b)) false) x ne ∙ m.kept x off;
          retag = λ c lt at.
              subst (λ y. Tagged cleared.mem false y (cs y))
                (ends_unique cs h.tiling b c chunk (ends_chunk (cs c) (omega arith)) (end ∙ sym at))
                (subst
                  (λ y.
                    Tagged (write t1.mem (y - 8) (tag_of (base_of b (cs b)) false)) false b (cs b))
                  end (retag-Tagged t1.mem true false b (cs b) tagged tags));
          opened =
              lowered-IsOpen cleared g m.bins_eq (inl refl) (omega arith)
                (omega (arith, gap-Shape));
        })
