-- ===== src/Talc/Chunks/Grow.antt =====
-- What `Talc::grow_in_place` of talc/src/talc.rs does to the chunks that the state holds.
pub mod InPlace
use talc.Base.{
  ℕ, ◌+◌, ◌-◌, ◌/◌, ◌*◌, ◌%◌, ◌^◌, ◌≤◌, ◌<◌, ◌≡◌, refl, ◌≢◌, ◌⊎◌, inl, inr, Bool, true, false, [],
  ◌∷◌, arith, ap, sym, subst, ◌∙◌, Bool-cases, eq-or-ne, max, ltb, leb, ◌==◌, if◌then◌else◌, eq→==,
  ne→==, lt→ltb, le→ltb,
}
use talc.PtrUtils.{align_up}
use talc.PtrUtils.Align.{align_up-eq}
use talc.Tag.{tag_of, chunk_base, is_above_free}
use talc.Tag
use talc.Tag.Laws.{IsBase, chunk_base-tag_of, is_above_free-tag_of}
use talc.Counters.{Counters, account_grow_in_place}
use talc.Talc.Layout.{Layout}
use talc.Talc.State.{Talc}
use talc.Talc.Outcome.{Outcome, ok, err, panic, out_of_fuel}
use talc.Talc.SizeClass.{bin_of_size}
use talc.Talc.Gaps.{register_gap, deregister_gap, count, store, is_chunk_size, tag_from_alloc_ptr}
use talc.Talc.Loop.{grow_in_place}
use talc.Talc.FreeMap.{IsOff, entry-IsGap}
use talc.Talc.FreeMap.Member.{entry}
use talc.Talc.FreeMap.Merge.{IsMerged, taken-IsMerged}
use talc.Talc.Chunks.{used_chunk, Chunks, is_gap, Shape, size_pos, gap_size-eq, is_chunk_of_gap}
use talc.Talc.Chunks.Splice.{splice}
use talc.Talc.Chunks.State.{gaps_of, HoldsChunks}
use talc.Talc.Chunks.Below.{gap_size-none}
use talc.Talc.Chunks.Place.{IsPlaced, linked, part-IsPlaced, whole-IsPlaced}
use talc.Talc.Chunks.Allocate.{top_parts}
use talc.Talc.Chunks.Above.{opened, clear_end, resized-HoldsChunks, kept_all, found, high_whole}
use talc.Talc.Chunks.Relink.{IsKept, relinked-IsKept, same-IsKept, kept-HoldsChunks}

-- The allocation grows where it is: its chunk has room for it and stays; or it does not, and the
-- chunk takes the gap above it, whole or up to a gap that is left; or the two together have no room,
-- and nothing changes.
abbrev pub Grown : Talc → Chunks → (a n ptr new_size : ℕ) → Outcome Talc ℕ → Type 0
Grown t cs a n ptr new_size (ok p t') =
    (p ≡ ptr)
    × (t'.bins ≡ t.bins)
    × ((x : ℕ)
        → (x < ptr + new_size) ⊎ (a + n + gaps_of cs (a + n) ≤ x)
        → IsOff t.bins (gaps_of cs) x
        → t'.mem x ≡ t.mem x)
    × (((ptr + new_size + 8 ≤ a + n)
          × HoldsChunks t' (splice a (a + n) (used_chunk n ptr new_size ∷ []) cs))
        ⊎ ((size : ℕ) × (above : Bool) × (a + n < ptr + new_size + 8)
            × (a + size ≤ a + n + gaps_of cs (a + n))
            × HoldsChunks t' (
                splice a (a + n + gaps_of cs (a + n))
                  (used_chunk size ptr new_size
                    ∷ top_parts above (a + size) (a + n + gaps_of cs (a + n)))
                  cs)))
Grown t cs a n ptr new_size (err t') = (t' ≡ t) × (a + n + gaps_of cs (a + n) < ptr + new_size + 8)
Grown t cs a n ptr new_size panic = ⊥
Grown t cs a n ptr new_size out_of_fuel = ⊥

module _ (t : Talc) (cs : Chunks) (h : HoldsChunks t cs) (a n ptr : ℕ) (layout : Layout)
    (e : cs a ≡ used_chunk n ptr layout.size) (new_size : ℕ)
    (small : ptr + new_size + 7 < 2 ^ 64) where
  abbrev hi : ℕ
  hi = a + n + gaps_of cs (a + n)

  abbrev post : ℕ
  post = align_up (ptr + new_size)

  abbrev account : Counters → Counters
  account = account_grow_in_place layout.size new_size

  abbrev grown : Talc → Outcome Talc ℕ
  grown s = ok ptr (count account s)

  chunk-Shape : Shape a (used_chunk n ptr layout.size)
  chunk-Shape = subst (Shape a) e (h.tiling.shape a)

  post_eq : post ≡ (ptr + new_size + 7) / 8 * 8
  post_eq = align_up-eq (ptr + new_size) small

  -- Where the chunk has room.
  module _ (room : ptr + new_size + 8 ≤ a + n) where
    pub kept-Grown :
        (t' : Talc)
        → IsKept t cs h a n ptr layout.size e new_size room t'
        → Grown t cs a n ptr new_size (grown t')
    kept-Grown t' stays = (
      refl,
      stays.bins_eq,
      λ x out off. stays.kept x (omega (arith, out)),
      inl (room, kept-HoldsChunks t cs h a n ptr layout.size e new_size room t' account stays),
    )

    link_test :
        post ≤ a + n - 8
        → (if a + n - 8 == post then t else store post (a + n - 8) t)
          ≡ (if ltb post (a + n - 8) then store post (a + n - 8) t else t)
    link_test le = elim (eq-or-ne (a + n - 8) post) [
      | inl at ↦ rw (eq→== (a + n - 8) post at, le→ltb post (a + n - 8) (omega arith)) refl
      | inr ne ↦ rw (ne→== (a + n - 8) post ne, lt→ltb post (a + n - 8) (omega arith)) refl
    ]

    pub within-Grown :
        Grown t cs a n ptr new_size
          (grown (if ltb post (a + n - 8) then store post (a + n - 8) t else t))
    within-Grown =
        subst (λ s. Grown t cs a n ptr new_size (grown s))
          (link_test (omega (arith, post_eq, room, chunk-Shape)))
          (kept-Grown _ (relinked-IsKept t cs h a n ptr layout.size e new_size room))

  -- Where the gap above is taken.
  module _ (some_gap : gaps_of cs (a + n) ≢ 0) (less : a + n < ptr + new_size + 8)
      (fits : post + 8 ≤ hi) where
    abbrev taken : Talc
    taken = deregister_gap (a + n) (bin_of_size (gaps_of cs (a + n))) t

    merged : IsMerged t (gaps_of cs) (a + n) taken
    merged = taken-IsMerged t (gaps_of cs) h.free (a + n) some_gap

    abbrev map_left : ℕ → ℕ
    map_left = entry (a + n) 0 (gaps_of cs)

    abbrev Placed : Talc → Type 0
    Placed = IsPlaced taken map_left a hi ptr new_size

    abbrev IsTaken : Talc → Type 0
    IsTaken s = Grown t cs a n ptr new_size (ok ptr s)

    done-Grown : (t' : Talc) (p : Placed t') → IsTaken t'
    done-Grown t' p = (
      refl,
      p.bins_eq ∙ merged.bins_eq,
      kept_all t cs h a n ptr layout.size e taken merged account new_size t' p,
      inr (
        p.size,
        p.above,
        less,
        omega (arith, p.above_eq),
        resized-HoldsChunks t cs h a n ptr layout.size e taken merged account new_size t' p,
      ),
    )

    bounds :
        (hi % 8 ≡ 0) × (hi < 2 ^ 64) × (post % 8 ≡ 0) × (a + 16 ≤ post) × (ptr + new_size ≤ post)
    bounds = omega (arith, high_whole t cs h a n ptr layout.size e, post_eq, less, chunk-Shape)

    linked_here : (tag : ℕ) (s : Talc) → linked post tag post s ≡ store post tag s
    linked_here tag s = rw (eq→== post post refl) refl

    linked_apart :
        (tag : ℕ) (s : Talc)
        → linked (hi - 8) tag post s ≡ (
            if post == hi - 8
            then store (hi - 8) tag s
            else store post (hi - 8) (store (hi - 8) tag s))
    linked_apart tag s = elim (eq-or-ne post (hi - 8)) [
      | inl at ↦ rw (eq→== post (hi - 8) at, eq→== (hi - 8) post (sym at)) refl
      | inr ne ↦ rw (ne→== post (hi - 8) ne, ne→== (hi - 8) post (λ z. ne (sym z))) refl
    ]

    pub part-Grown :
        post + 32 ≤ hi
        → IsTaken (count account (store post (tag_of a true) (register_gap (post + 8) hi taken)))
    part-Grown more =
        let low_eq : max (a + 16) post ≡ post = omega (arith, bounds) in
        let p =
          (part-IsPlaced taken map_left merged.free a hi
            (opened t cs h a n ptr layout.size e taken merged account) ptr new_size
            (omega (arith, chunk-Shape)) (omega (arith, bounds, fits)) (omega (arith, bounds, more))
            (clear_end t cs h a n ptr layout.size e taken merged account) account
            (omega (arith, low_eq, more))).0 in
        subst IsTaken
          (ap (count account) (
            ap (λ low. linked low (tag_of a true) post (register_gap (low + 8) hi taken)) low_eq
            ∙ linked_here (tag_of a true) (register_gap (post + 8) hi taken)))
          (done-Grown _ p)

    pub whole-Grown : IsTaken (
        count account (
          if post == hi - 8
          then store (hi - 8) (tag_of a false) taken
          else store post (hi - 8) (store (hi - 8) (tag_of a false) taken)))
    whole-Grown =
        let p =
          whole-IsPlaced taken map_left merged.free a hi
            (opened t cs h a n ptr layout.size e taken merged account) ptr new_size
            (omega (arith, chunk-Shape)) (omega (arith, bounds, fits)) (omega (arith, bounds, fits))
            (clear_end t cs h a n ptr layout.size e taken merged account) account in
        subst IsTaken (ap (count account) (linked_apart (tag_of a false) taken)) (done-Grown _ p)
