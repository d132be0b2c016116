-- ===== src/Talc/Chunks/Release.antt =====
-- What `Talc::free` of talc/src/talc.rs does to the chunks that the state holds.
use talc.Base.{
  ℕ, ◌+◌, ◌-◌, ◌^◌, ◌≤◌, ◌<◌, ◌≡◌, refl, ◌≢◌, ◌⊎◌, Bool, true, false, [], ◌∷◌, arith, ap, sym,
  subst, ◌∙◌, inl, inr, le→ltb, lt→ltb,
}
use talc.PtrUtils.{align_up}
use talc.Counters.{Counters, account_dealloc}
use talc.Tag.{tag_of, chunk_base}
use talc.Tag.Laws.{IsBase, chunk_base-tag_of, is_above_free-tag_of}
use talc.Talc.Layout.{Layout}
use talc.Talc.State.{Talc}
use talc.Talc.Gaps.{register_gap, count, tag_from_alloc_ptr}
use talc.Talc.Gaps.View.{gap, IsRegion}
use talc.Talc.Free.{free, merge_below, merge_above}
use talc.Talc.FreeMap.{
  IsFreeMap, IsOff, count-IsFreeMap, register-IsFreeMap, register_bins, register_kept,
}
use talc.Talc.FreeMap.Member.{entry}
use talc.Talc.FreeMap.Merge.{IsMerged, merge_above_lem, same-IsFreeMap, entry-there, cleared-IsOff}
use talc.Talc.Chunks.{
  free_chunk, used_chunk, Chunks, size_of, is_chunk, is_gap, is_used, Shape, size_pos, gap_size-eq,
  is_chunk_of_gap,
}
use talc.Talc.Chunks.Splice.{splice}
use talc.Talc.Chunks.State.{Tagged, gaps_of, HoldsChunks, Tagged-frame}
use talc.Talc.Chunks.Rebuild.{rebuild}
use talc.Talc.Chunks.Merged.{
  hi, merged-IsSplice, gaps_same, merged_bounds, merged_fresh, merged-IsRegion, lo_le,
}
use talc.Talc.Chunks.Below.{IsBelow, merge_below-IsBelow, gap_size-none}

pub count-HoldsChunks :
    (t : Talc) (cs : Chunks) (g : Counters → Counters)
    → HoldsChunks t cs
    → HoldsChunks (count g t) cs
count-HoldsChunks t cs g h = record {
  tiling = h.tiling;
  free = count-IsFreeMap t (gaps_of cs) h.free g;
  tags = h.tags;
  off = h.off;
}

tag_of_bounds : (a : ℕ) (above : Bool) → a + 8 < 2 ^ 64 → tag_of a above < a + 8
unfolding tag_of
tag_of_bounds a true lt = omega arith
tag_of_bounds a false lt = omega arith

-- Where an allocated chunk stands, its tag is found.
pub tag_from_alloc_ptr-Tagged :
    (t : Talc) (above : Bool) (a n ptr len : ℕ)
    → Shape a (used_chunk n ptr len)
    → Tagged t.mem above a (used_chunk n ptr len)
    → tag_from_alloc_ptr t ptr len ≡ (a + n - 8, tag_of a above)
unfolding tag_from_alloc_ptr
tag_from_alloc_ptr-Tagged t above a n ptr len s (tag, link) = elim link [
  | inl same ↦
      rw
        (
          same,
          tag,
          le→ltb (a + n - 8) (tag_of a above)
              (omega (arith, s, tag_of_bounds a above (omega (arith, s)))),
        )
        refl
  | inr (below, at) ↦ rw (at, lt→ltb (align_up (ptr + len)) (a + n - 8) below, tag) refl
]

-- What the release of the chunk at `a` comes to: with the gaps beside it, it is one gap.
pub record IsReleased (t : Talc) (cs : Chunks) (a n : ℕ) (t' : Talc) : Type 0 where
  pub lo : ℕ
  pub hi : ℕ
  pub begins : is_chunk (cs lo) ≡ true
  pub from : lo + gaps_of cs lo ≡ a
  pub to : a + n + gaps_of cs (a + n) ≡ hi
  pub holds : HoldsChunks t' (splice lo hi (free_chunk (hi - lo) ∷ []) cs)
  pub bins_eq : t'.bins ≡ t.bins
  pub kept :
      (x : ℕ) → (x < lo) ⊎ (hi ≤ x) → x ≢ lo - 8 → IsOff t.bins (gaps_of cs) x → t'.mem x ≡ t.mem x

module _ (t : Talc) (cs : Chunks) (h : HoldsChunks t cs) (a n ptr len : ℕ)
    (e : cs a ≡ used_chunk n ptr len) where
  abbrev above : Bool
  above = is_gap (cs (a + n))

  used : is_used (cs a) ≡ true
  used = ap is_used e

  its-Shape : Shape a (used_chunk n ptr len)
  its-Shape = subst (Shape a) e (h.tiling.shape a)

  -- The end of the release, from what the merge below leaves on.
  module _ (lo : ℕ) (t1 : Talc) (b : IsBelow t cs a lo t1) where
    abbrev at_end : ℕ
    at_end = hi t cs h a n ptr len e lo t1 b

    abbrev low_map : ℕ → ℕ
    low_map = entry lo 0 (gaps_of cs)

    abbrev merge : ℕ × Talc
    merge = merge_above (tag_of a above) (a + n) t1

    same_above : low_map (a + n) ≡ gaps_of cs (a + n)
    same_above =
        entry-there lo 0 (gaps_of cs) (a + n)
          (omega (arith, lo_le t cs h a n ptr len e lo t1 b, its-Shape))

    above_gap : above ≡ true → gaps_of cs (a + n) ≢ 0
    above_gap gap = omega (
      arith,
      gap_size-eq (cs (a + n)) gap,
      size_pos (a + n) (cs (a + n)) (is_chunk_of_gap (cs (a + n)) gap) (h.tiling.shape (a + n)),
    )

    aligned-IsBase : IsBase a
    aligned-IsBase = omega (arith, its-Shape)

    merged : (merge.0 ≡ a + n + low_map (a + n)) × IsMerged t1 low_map (a + n) merge.1
    merged =
        merge_above_lem t1 low_map b.free (tag_of a above) (a + n)
          (λ gap zero.
            above_gap (sym (is_above_free-tag_of a above aligned-IsBase) ∙ gap)
              (sym same_above ∙ zero))
          (λ none.
            same_above
            ∙ gap_size-none (cs (a + n)) (sym (is_above_free-tag_of a above aligned-IsBase) ∙ none))

    region : IsRegion merge.1.bins (gap lo (at_end - lo))
    region =
        subst (λ k. IsRegion k (gap lo (at_end - lo))) (sym (merged.1.bins_eq ∙ b.bins_eq))
          (merged-IsRegion t cs h a n ptr len e lo t1 b)

    ends : lo + (at_end - lo) ≡ merge.0
    ends = omega (arith, merged.0, same_above, merged_bounds t cs h a n ptr len e lo t1 b)

    abbrev result : Talc
    result = register_gap lo merge.0 merge.1

    fresh :
        (x : ℕ)
        → entry (a + n) 0 low_map x ≢ 0
        → (lo + (at_end - lo) ≤ x) ⊎ (x + entry (a + n) 0 low_map x ≤ lo)
    fresh = merged_fresh t cs h a n ptr len e lo t1 b

    result_free : IsFreeMap result (gaps_of (splice lo at_end (free_chunk (at_end - lo) ∷ []) cs))
    result_free = same-IsFreeMap result _ _ (gaps_same t cs h a n ptr len e lo t1 b) (
        subst
          (λ x.
            IsFreeMap (register_gap lo x merge.1)
              (entry lo (at_end - lo) (entry (a + n) 0 low_map)))
          ends
          (register-IsFreeMap merge.1 (entry (a + n) 0 low_map) merged.1.free lo (at_end - lo)
            region fresh))

    result_bins : result.bins ≡ t.bins
    result_bins =
        subst (λ x. (register_gap lo x merge.1).bins ≡ merge.1.bins) ends
          (register_bins merge.1 (entry (a + n) 0 low_map) merged.1.free lo (at_end - lo) region
            fresh)
        ∙ merged.1.bins_eq
        ∙ b.bins_eq

    -- From the merge below on, the words off the gaps and the new one are kept.
    later_kept :
        (x : ℕ) → (x < lo) ⊎ (at_end ≤ x) → IsOff t.bins (gaps_of cs) x → result.mem x ≡ t1.mem x
    later_kept x out off =
        let low_off =
          subst (λ k. IsOff k low_map x) (sym b.bins_eq)
            (cleared-IsOff t.bins lo (gaps_of cs) x off) in
        let high_off =
          subst (λ k. IsOff k (entry (a + n) 0 low_map) x) (sym merged.1.bins_eq)
            (cleared-IsOff t1.bins (a + n) low_map x low_off) in
        subst (λ y. (register_gap lo y merge.1).mem x ≡ merge.1.mem x) ends
          (register_kept merge.1 (entry (a + n) 0 low_map) merged.1.free lo (at_end - lo) region
            fresh x high_off (omega (arith, out, merged_bounds t cs h a n ptr len e lo t1 b)))
        ∙ merged.1.kept x low_off

    result_holds : HoldsChunks result (splice lo at_end (free_chunk (at_end - lo) ∷ []) cs)
    result_holds =
        rebuild t cs h lo at_end true (free_chunk (at_end - lo)) []
          (merged-IsSplice t cs h a n ptr len e lo t1 b) result result_free result_bins
          (λ x out ne off. later_kept x out off ∙ b.kept x ne off)
          (λ c lt at.
            Tagged-frame t.bins cs h.tiling t1.mem result.mem c true (h.off c)
              (λ x from to off. later_kept x (inl (omega arith)) off) (b.retag c lt at))
          _ refl (tt, tt) (tt, tt)

    finish : IsReleased t cs a n result
    finish = record {
      lo = lo;
      hi = at_end;
      begins = b.begins;
      from = b.from;
      to = refl;
      holds = result_holds;
      bins_eq = result_bins;
      kept = λ x out ne off. later_kept x out off ∙ b.kept x ne off;
    }

-- `free`, from the tag that it finds on.
release : Talc → ℕ × ℕ → Talc
release t found =
    let low = merge_below (chunk_base found.1) t in
    let high = merge_above found.1 (found.0 + 8) low.1 in register_gap low.0 high.0 high.1

free-release :
    (ptr : ℕ) (layout : Layout) (t : Talc)
    → free ptr layout t
      ≡ release
          (count (account_dealloc layout.size) t)
          (tag_from_alloc_ptr (count (account_dealloc layout.size) t) ptr layout.size)
unfolding free release
free-release ptr layout t = refl

release-tag :
    (t : Talc) (tag_ptr tag a acme : ℕ)
    → chunk_base tag ≡ a
    → tag_ptr + 8 ≡ acme
    → release t (tag_ptr, tag)
      ≡ register_gap
          (merge_below a t).0
          (merge_above tag acme (merge_below a t).1).0
          (merge_above tag acme (merge_below a t).1).1
unfolding release
release-tag t tag_ptr tag a acme base at = rw (base, at) refl

-- In a state that holds chunks, releasing an allocation of them makes one gap of its chunk, the
-- gap that ends where it begins, and the gap that begins where it ends, each if there is one, and
-- leads to a state that holds the chunks with that gap in their place. Words off the bins and the
-- gaps, outside the new gap and other than the tag below it, are kept.
pub free-IsReleased :
    (t : Talc) (cs : Chunks) (h : HoldsChunks t cs) (a n ptr : ℕ) (layout : Layout)
    → cs a ≡ used_chunk n ptr layout.size
    → IsReleased t cs a n (free ptr layout t)
free-IsReleased t cs h a n ptr layout e =
    let counted = count (account_dealloc layout.size) t in
    let h' = count-HoldsChunks t cs (account_dealloc layout.size) h in
    let s = subst (Shape a) e (h.tiling.shape a) in
    let tags = subst (λ p. Tagged t.mem (is_gap (cs (a + size_of p))) a p) e (h.tags a) in
    let tag = tag_of a (is_gap (cs (a + n))) in
    let below = merge_below-IsBelow counted cs h' a (ap is_used e) in
    let done =
      finish counted cs h' a n ptr layout.size e (merge_below a counted).0 (merge_below a counted).1
        below in
    let same =
      free-release ptr layout t
      ∙ ap (release counted)
          (tag_from_alloc_ptr-Tagged counted (is_gap (cs (a + n))) a n ptr layout.size s tags)
      ∙ release-tag counted (a + n - 8) tag a (a + n)
          (chunk_base-tag_of a (is_gap (cs (a + n))) (omega (arith, s))) (omega (arith, s)) in
    subst (IsReleased t cs a n) (sym same) (record {
      lo = done.lo;
      hi = done.hi;
      begins = done.begins;
      from = done.from;
      to = done.to;
      holds = done.holds;
      bins_eq = done.bins_eq;
      kept = done.kept;
    })
