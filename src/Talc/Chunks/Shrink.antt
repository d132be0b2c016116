-- ===== src/Talc/Chunks/Shrink.antt =====
-- What `Talc::shrink` of talc/src/talc.rs does to the chunks that the state holds.
use talc.Base.{
  ℕ, ◌+◌, ◌-◌, ◌≤◌, ◌<◌, ◌≡◌, refl, ◌⊎◌, inl, inr, Bool, true, [], ◌∷◌, arith, ap, sym, subst, ◌∙◌,
  Bool-cases, max, ◌==◌, if◌then◌else◌,
}
use talc.PtrUtils.{align_up}
use talc.Tag.{tag_of, chunk_base, is_above_free}
use talc.Tag
use talc.Tag.Laws.{IsBase, chunk_base-tag_of, is_above_free-tag_of}
use talc.Counters.{account_shrink_in_place}
use talc.Talc.Layout.{Layout}
use talc.Talc.State.{Talc}
use talc.Talc.Gaps.{register_gap, count, store, is_chunk_size, tag_from_alloc_ptr}
use talc.Talc.Free.{shrink, merge_above}
use talc.Talc.FreeMap.{IsOff}
use talc.Talc.FreeMap.Member.{entry}
use talc.Talc.FreeMap.Merge.{IsMerged, merge_above_lem}
use talc.Talc.Chunks.{
  free_chunk, used_chunk, Chunks, is_gap, Shape, size_pos, gap_size-eq, is_chunk_of_gap,
}
use talc.Talc.Chunks.Splice.{splice}
use talc.Talc.Chunks.State.{gaps_of, HoldsChunks}
use talc.Talc.Chunks.Below.{gap_size-none}
use talc.Talc.Chunks.Place.{linked, part-IsPlaced}
use talc.Talc.Chunks.Allocate.{top_parts}
use talc.Talc.Chunks.Above.{opened, clear_end, resized-HoldsChunks, kept_all, found}
use talc.Talc.Chunks.Relink.{relinked-IsKept, kept-HoldsChunks, post_in}

-- A shrunk allocation: its chunk ends earlier, and what is left is a gap with the one above; or its
-- chunk is as it was.
abbrev pub Shrunk : Talc → Chunks → (a n ptr new_size : ℕ) → Talc → Type 0
Shrunk t cs a n ptr new_size t' =
    (t'.bins ≡ t.bins)
    × ((x : ℕ)
        → (x < ptr + new_size) ⊎ (a + n + gaps_of cs (a + n) ≤ x)
        → IsOff t.bins (gaps_of cs) x
        → t'.mem x ≡ t.mem x)
    × (((size : ℕ) × (size + 24 ≤ n)
          × (size ≡ max 24 (align_up (ptr + new_size) + 8 - a))
          × HoldsChunks t' (
              splice a (a + n + gaps_of cs (a + n))
                (used_chunk size ptr new_size
                  ∷ free_chunk (a + n + gaps_of cs (a + n) - (a + size))
                  ∷ [])
                cs))
        ⊎ ((n < max 24 (align_up (ptr + new_size) + 8 - a) + 24)
            × HoldsChunks t' (splice a (a + n) (used_chunk n ptr new_size ∷ []) cs)))

-- `shrink`, from the tag that it finds on.
shrink_from : (ptr old_size new_size : ℕ) → Talc → ℕ × ℕ → Talc
unfolding merge_above
shrink_from ptr old_size new_size t found =
    let base = chunk_base found.1 in
    let post = align_up (ptr + new_size) in
    let low = max (base + 16) post in
    let enough = is_chunk_size low found.0 in
    let merge = merge_above found.1 (found.0 + 8) t in
    count (account_shrink_in_place old_size new_size) (
      if enough
      then linked low (tag_of base true) post (register_gap (low + 8) merge.0 merge.1)
      else if found.0 == post
      then t
      else store post found.0 t)

shrink-shrink_from :
    (ptr : ℕ) (layout : Layout) (new_size : ℕ) (t : Talc)
    → shrink ptr layout new_size t
      ≡ shrink_from ptr layout.size new_size t (tag_from_alloc_ptr t ptr layout.size)
unfolding shrink shrink_from Tag.write
shrink-shrink_from ptr layout new_size t =
    elim (Bool-cases (
      is_chunk_size
        (max (chunk_base (tag_from_alloc_ptr t ptr layout.size).1 + 16) (align_up (ptr + new_size)))
        (tag_from_alloc_ptr t ptr layout.size).0)) [
          | inl big ↦ rw big refl
          | inr small ↦ rw small refl
        ]

module _ (t : Talc) (cs : Chunks) (h : HoldsChunks t cs) (a n ptr : ℕ) (layout : Layout)
    (e : cs a ≡ used_chunk n ptr layout.size) (new_size : ℕ)
    (smaller : new_size ≤ layout.size) where
  abbrev above : Bool
  above = is_gap (cs (a + n))

  abbrev tag : ℕ
  tag = tag_of a above

  chunk-Shape : Shape a (used_chunk n ptr layout.size)
  chunk-Shape = subst (Shape a) e (h.tiling.shape a)

  room_left : ptr + new_size + 8 ≤ a + n
  room_left = omega (arith, smaller, chunk-Shape)

  chunk-IsBase : IsBase a
  chunk-IsBase = omega (arith, chunk-Shape)

  abbrev merge : ℕ × Talc
  merge = merge_above tag (a + n) t

  merged : (merge.0 ≡ a + n + gaps_of cs (a + n)) × IsMerged t (gaps_of cs) (a + n) merge.1
  merged =
      merge_above_lem t (gaps_of cs) h.free tag (a + n)
        (λ gap zero.
          let here = sym (is_above_free-tag_of a above chunk-IsBase) ∙ gap in
          omega (
            arith,
            zero,
            gap_size-eq (cs (a + n)) here,
            size_pos (a + n) (cs (a + n)) (is_chunk_of_gap (cs (a + n)) here)
                (h.tiling.shape (a + n)),
          ))
        (λ none.
          gap_size-none (cs (a + n)) (sym (is_above_free-tag_of a above chunk-IsBase) ∙ none))

  abbrev post : ℕ
  post = align_up (ptr + new_size)

  abbrev low : ℕ
  low = max (a + 16) post

  big-Shrunk :
      low + 24 ≤ a + n - 8
      → Shrunk t cs a n ptr new_size (
          count (account_shrink_in_place layout.size new_size) (
            linked low
              (tag_of a true)
              post
              (register_gap (low + 8) (a + n + gaps_of cs (a + n)) merge.1)))
  big-Shrunk room =
      let made = count (account_shrink_in_place layout.size new_size) (
        linked low (tag_of a true) post
          (register_gap (low + 8) (a + n + gaps_of cs (a + n)) merge.1)) in
      let o =
        opened t cs h a n ptr layout.size e merge.1 merged.1
          (account_shrink_in_place layout.size new_size) in
      let clear =
        clear_end t cs h a n ptr layout.size e merge.1 merged.1
          (account_shrink_in_place layout.size new_size) in
      let (p, size, top) =
        part-IsPlaced merge.1 (entry (a + n) 0 (gaps_of cs)) merged.1.free a
          (a + n + gaps_of cs (a + n)) o ptr new_size (omega (arith, chunk-Shape))
          (omega (arith, chunk-Shape)) (omega (arith, chunk-Shape)) clear
          (account_shrink_in_place layout.size new_size) (omega (arith, room)) in
      let bound : p.size + 24 ≤ n = omega (arith, size, room, chunk-Shape) in
      (
        p.bins_eq ∙ merged.1.bins_eq,
        kept_all t cs h a n ptr layout.size e merge.1 merged.1
            (account_shrink_in_place layout.size new_size) new_size made p,
        inl (
          p.size,
          bound,
          omega (arith, size, post_in t cs h a n ptr layout.size e new_size room_left),
          subst
              (λ k. HoldsChunks made (
                splice a (a + n + gaps_of cs (a + n))
                  (used_chunk p.size ptr new_size
                    ∷ top_parts k (a + p.size) (a + n + gaps_of cs (a + n)))
                  cs))
              top
              (resized-HoldsChunks t cs h a n ptr layout.size e merge.1 merged.1
                (account_shrink_in_place layout.size new_size) new_size made p),
        ),
      )

  small-Shrunk :
      a + n - 8 < low + 24
      → Shrunk t cs a n ptr new_size (
          count
            (account_shrink_in_place layout.size new_size)
            (if a + n - 8 == post then t else store post (a + n - 8) t))
  small-Shrunk room =
      let stays = relinked-IsKept t cs h a n ptr layout.size e new_size room_left in
      (
        stays.bins_eq,
        λ x out off. stays.kept x (omega (arith, out)),
        inr (
          omega (arith, room, chunk-Shape),
          kept-HoldsChunks t cs h a n ptr layout.size e new_size room_left _
              (account_shrink_in_place layout.size new_size) stays,
        ),
      )

  taken-Shrunk :
      (base acme : ℕ)
      → base ≡ a
      → acme ≡ a + n
      → Shrunk t cs a n ptr new_size (
          count (account_shrink_in_place layout.size new_size) (
            if is_chunk_size (max (base + 16) post) (a + n - 8)
            then linked (max (base + 16) post) (tag_of base true) post (
                register_gap
                  (max (base + 16) post + 8)
                  (merge_above tag acme t).0
                  (merge_above tag acme t).1)
            else if a + n - 8 == post
            then t
            else store post (a + n - 8) t))
  unfolding is_chunk_size
  taken-Shrunk base acme at end =
      elim (Bool-cases (is_chunk_size (max (base + 16) post) (a + n - 8))) [
        | inl big ↦
            let bounds = post_in t cs h a n ptr layout.size e new_size room_left in
            rw big
              (rw (at, end, merged.0) (big-Shrunk (ground (arith, big, at, bounds, chunk-Shape))))
        | inr small ↦
            let bounds = post_in t cs h a n ptr layout.size e new_size room_left in
            rw small (small-Shrunk (ground (arith, small, at, bounds, chunk-Shape)))
      ]

  -- In a state that holds chunks, shrinking an allocation of them to a size that is not larger
  -- leaves it and the bins in place, and the state holds the chunks again. If the least chunk for
  -- the new size leaves room for a gap below the old tag, the chunk is that least one, and what is
  -- left is one gap with the gap above if there is one; else the chunk is as it was, with the
  -- smaller allocation in it.
  pub shrink-Shrunk : Shrunk t cs a n ptr new_size (shrink ptr layout new_size t)
  unfolding shrink_from
  shrink-Shrunk =
      subst (Shrunk t cs a n ptr new_size)
        (sym (
          shrink-shrink_from ptr layout new_size t
          ∙ ap (shrink_from ptr layout.size new_size t) (found t cs h a n ptr layout.size e)))
        (taken-Shrunk (chunk_base tag) (a + n - 8 + 8) (chunk_base-tag_of a above chunk-IsBase)
          (omega (arith, chunk-Shape)))
