-- ===== src/Talc/Chunks/Relink.antt =====
-- An allocated chunk of talc/src/talc.rs that stays as it is while its allocation gets another size
-- that the chunk has room for.
use talc.Base.{
  ℕ, ◌+◌, ◌-◌, ◌%◌, ◌≤◌, ◌<◌, ◌≡◌, refl, ◌⊎◌, inl, inr, true, false, [], ◌∷◌, arith, ap, sym, subst,
  ◌∙◌, eq-or-ne, ◌==◌, if◌then◌else◌, eq→==, ne→==,
}
use talc.PtrUtils.{align_up}
use talc.Mem.{write_self, write_ne}
use talc.Counters.{Counters}
use talc.Talc.State.{Talc}
use talc.Talc.Gaps.{count, store}
use talc.Talc.FreeMap.{IsFreeMap, IsOff, store-IsFreeMap, count-IsFreeMap}
use talc.Talc.FreeMap.Merge.{same-IsFreeMap}
use talc.Talc.Chunks.{used_chunk, Chunks, size_of, gap_size, is_chunk, is_gap, is_used, Shape}
use talc.Talc.Chunks.Splice.{splice, IsSplice, splice_outside, inside-or-outside}
use talc.Talc.Chunks.State.{
  TagLink, Tagged, OffBins, gaps_of, HoldsChunks, Tagged-frame, word_off_gaps, post_bounds,
}
use talc.Talc.Chunks.Rebuild.{rebuild}
use talc.Talc.Chunks.Retag.{inside_absent}
use talc.Talc.Chunks.Below.{tag_below, ends_before}

module _ (t : Talc) (cs : Chunks) (h : HoldsChunks t cs) (a n ptr len : ℕ)
    (e : cs a ≡ used_chunk n ptr len) (new_size : ℕ) (room : ptr + new_size + 8 ≤ a + n) where
  abbrev f : ℕ → ℕ
  f = gaps_of cs

  its-Shape : Shape a (used_chunk n ptr len)
  its-Shape = subst (Shape a) e (h.tiling.shape a)

  size_eq : size_of (cs a) ≡ n
  size_eq = ap size_of e

  none_here : f a ≡ 0
  none_here = ap gap_size e

  its_off : (a + n ≤ t.bins) ⊎ (t.bins + 1024 ≤ a)
  its_off = subst (OffBins t.bins a) e (h.off a)

  -- Where the rest is too small, the chunk stays, with a new link to its tag.
  abbrev relinked : Talc
  relinked =
      if a + n - 8 == align_up (ptr + new_size)
      then t
      else store (align_up (ptr + new_size)) (a + n - 8) t

  new-Shape : Shape a (used_chunk n ptr new_size)
  new-Shape = omega (arith, its-Shape)

  pub post_in :
      (a ≤ align_up (ptr + new_size))
      × (align_up (ptr + new_size) + 8 ≤ a + n)
      × (ptr + new_size ≤ align_up (ptr + new_size))
      × (align_up (ptr + new_size) % 8 ≡ 0)
  post_in = post_bounds a n ptr new_size new-Shape

  post-IsOff : IsOff t.bins f (align_up (ptr + new_size))
  post-IsOff = record {
    off_bins = omega (arith, its_off, post_in);
    off_gaps =
        word_off_gaps cs h.tiling a (align_up (ptr + new_size)) (ap is_gap e) (ap is_chunk e)
          (omega (arith, post_in)) (omega (arith, post_in, size_eq));
  }

  -- What is kept where only the link to the tag is another.
  pub record IsKept (t' : Talc) : Type 0 where
    pub free : IsFreeMap t' f
    pub bins_eq : t'.bins ≡ t.bins
    pub kept : (x : ℕ) → (x < ptr + new_size) ⊎ (a + n ≤ x) → t'.mem x ≡ t.mem x
    pub tag : t'.mem (a + n - 8) ≡ t.mem (a + n - 8)
    pub link : TagLink t'.mem (a + n - 8) (align_up (ptr + new_size))

  pub relinked-IsKept : IsKept relinked
  relinked-IsKept = elim (eq-or-ne (a + n - 8) (align_up (ptr + new_size))) [
    | inl at ↦ rw (eq→== (a + n - 8) (align_up (ptr + new_size)) at) (record {
      free = h.free;
      bins_eq = refl;
      kept = λ x out. refl;
      tag = refl;
      link = inl (sym at);
    })
    | inr ne ↦ rw (ne→== (a + n - 8) (align_up (ptr + new_size)) ne) (record {
      free = store-IsFreeMap t f h.free (align_up (ptr + new_size)) (a + n - 8) post-IsOff;
      bins_eq = refl;
      kept = λ x out.
          write_ne t.mem (align_up (ptr + new_size)) (a + n - 8) x (omega (arith, out, post_in));
      tag = write_ne t.mem (align_up (ptr + new_size)) (a + n - 8) (a + n - 8) ne;
      link =
          inr
            (omega (arith, post_in, ne), write_self t.mem (align_up (ptr + new_size)) (a + n - 8));
    })
  ]

  tags : Tagged t.mem (is_gap (cs (a + n))) a (used_chunk n ptr len)
  tags = subst (λ p. Tagged t.mem (is_gap (cs (a + size_of p))) a p) e (h.tags a)

  -- With the same place behind the allocation the link is right as it is.
  pub same-IsKept : align_up (ptr + len) ≡ align_up (ptr + new_size) → IsKept t
  same-IsKept same = record {
    free = h.free;
    bins_eq = refl;
    kept = λ x out. refl;
    tag = refl;
    link = subst (TagLink t.mem (a + n - 8)) same tags.1;
  }

  kept-IsSplice : IsSplice cs a (a + n) false (used_chunk n ptr new_size) []
  kept-IsSplice = record {
    cut_low = λ x lt. h.tiling.apart x a lt (ap is_chunk e);
    cut_high = λ x from below. elim (eq-or-ne x a) [
      | inl at ↦ omega (arith, at, ap (λ y. size_of (cs y)) at, size_eq)
      | inr ne ↦
          omega (
            arith,
            ap size_of (inside_absent cs h.tiling a x (omega arith) (omega (arith, size_eq))),
          )
    ];
    pieces = (refl, new-Shape, tt);
    fits = omega arith;
    alternates = (λ k. absurd (false-true k), tt);
    tagged_below = λ k. absurd (false-true k);
    chunk_below = λ k.
        (let (c, chunk, end) = h.tiling.below_used a (ap is_used e) in
          (c, ends_before t cs h c a chunk end, chunk, end));
    seam_gap = λ k. (refl, refl);
    seam_used = λ k. refl;
  }
    where
      false-true : false ≡ true → ⊥
      false-true z = cc

  kept_same : (x : ℕ) → f x ≡ gaps_of (splice a (a + n) (used_chunk n ptr new_size ∷ []) cs) x
  kept_same x = elim (inside-or-outside a (a + n) x) [
    | inl (from, lt) ↦ (elim (eq-or-ne x a) [
      | inl at ↦ ground (arith, at, ap f at ∙ none_here)
      | inr ne ↦
          let zero =
            ap gap_size (inside_absent cs h.tiling a x (omega arith) (omega (arith, size_eq))) in
          ground (arith, ne, zero)
    ])
    | inr out ↦
        sym (ap gap_size (splice_outside a (a + n) (used_chunk n ptr new_size ∷ []) cs x out))
  ]

  pub kept-HoldsChunks :
      (t' : Talc) (account : Counters → Counters)
      → IsKept t'
      → HoldsChunks (count account t') (splice a (a + n) (used_chunk n ptr new_size ∷ []) cs)
  kept-HoldsChunks t' account k =
      let parts = used_chunk n ptr new_size ∷ [] in
      rebuild t cs h a (a + n) false (used_chunk n ptr new_size) [] kept-IsSplice (count account t')
        (count-IsFreeMap t' (gaps_of (splice a (a + n) parts cs))
          (same-IsFreeMap t' f (gaps_of (splice a (a + n) parts cs)) kept_same k.free) account)
        k.bins_eq (λ x out ne off. k.kept x (omega (arith, out, its-Shape)))
        (λ c lt at.
          Tagged-frame t.bins cs h.tiling t.mem t'.mem c false (h.off c)
            (λ x from to off. k.kept x (inl (omega (arith, its-Shape))))
            (subst (λ k. Tagged t.mem k c (cs c)) (ap is_gap e) (tag_below t cs h c a at)))
        (is_gap (cs (a + n)))
        (ap is_gap (splice_outside a (a + n) parts cs (a + n) (inr (omega arith))))
        ((k.tag ∙ tags.0, k.link), tt) (its_off, tt)
