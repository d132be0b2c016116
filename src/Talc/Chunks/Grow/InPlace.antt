-- ===== src/Talc/Chunks/Grow/InPlace.antt =====
-- The branches of `Talc::grow_in_place` of talc/src/talc.rs, put together.
use talc.Base.{
  ℕ, ◌+◌, ◌-◌, ◌/◌, ◌*◌, ◌^◌, ◌≤◌, ◌<◌, ◌≡◌, refl, ◌≢◌, ◌⊎◌, inl, inr, true, false, arith, ap, sym,
  subst, ◌∙◌, Bool-cases, eq-or-ne, ltb, leb, ◌==◌, if◌then◌else◌, eq→==, ne→==,
}
use talc.PtrUtils.{align_up}
use talc.PtrUtils.Align.{align_up-eq}
use talc.Tag.{tag_of, chunk_base, is_above_free}
use talc.Tag
use talc.Tag.Laws.{IsBase, chunk_base-tag_of, is_above_free-tag_of}
use talc.Counters.{Counters, account_grow_in_place}
use talc.Talc.Layout.{Layout}
use talc.Talc.State.{Talc}
use talc.Talc.Outcome.{Outcome, ok, err}
use talc.Talc.SizeClass.{bin_of_size}
use talc.Talc.Gaps.{register_gap, deregister_gap, count, store, is_chunk_size, tag_from_alloc_ptr}
use talc.Talc.Loop.{grow_in_place}
use talc.Talc.FreeMap.{entry-IsGap}
use talc.Talc.Chunks.{used_chunk, Chunks, is_gap, Shape, size_pos, gap_size-eq, is_chunk_of_gap}
use talc.Talc.Chunks.State.{gaps_of, HoldsChunks}
use talc.Talc.Chunks.Below.{gap_size-none}
use talc.Talc.Chunks.Above.{found, high_whole}
use talc.Talc.Chunks.Relink.{same-IsKept}
use talc.Talc.Chunks.Grow.{Grown, kept-Grown, within-Grown, part-Grown, whole-Grown}

-- `grow_in_place`, from the tag that it finds on.
grow_from : (ptr old_size new_size : ℕ) → Talc → ℕ × ℕ → Outcome Talc ℕ
grow_from ptr old_size new_size t tag_found =
    let tag_ptr = tag_found.0 in
    let post = align_up (ptr + new_size) in
    let grown = λ (s : Talc). ok ptr (count (account_grow_in_place old_size new_size) s) in
    if leb post tag_ptr
    then grown (if ltb post tag_ptr then store post tag_ptr t else t)
    else if is_above_free tag_found.1
    then (let base = chunk_base tag_found.1 in
        let acme = tag_ptr + 8 in
        let above_size = t.mem (acme + 16) in
        let above_tag_ptr = tag_ptr + above_size in
        let taken = deregister_gap acme (bin_of_size above_size) t in
        if leb post above_tag_ptr
        then (if is_chunk_size post above_tag_ptr
            then grown
                (store post (tag_of base true) (register_gap (post + 8) (above_tag_ptr + 8) taken))
            else grown (
                if post == above_tag_ptr
                then store above_tag_ptr (tag_of base false) taken
                else store post above_tag_ptr (store above_tag_ptr (tag_of base false) taken)))
        else err t)
    else err t

grow_in_place-grow_from :
    (ptr : ℕ) (layout : Layout) (new_size : ℕ) (t : Talc)
    → grow_in_place ptr layout new_size t ≡ (
        if align_up (ptr + layout.size) == align_up (ptr + new_size)
        then ok ptr (count (account_grow_in_place layout.size new_size) t)
        else grow_from ptr layout.size new_size t (tag_from_alloc_ptr t ptr layout.size))
unfolding grow_in_place grow_from Tag.write
grow_in_place-grow_from ptr layout new_size t = refl

module _ (t : Talc) (cs : Chunks) (h : HoldsChunks t cs) (a n ptr : ℕ) (layout : Layout)
    (e : cs a ≡ used_chunk n ptr layout.size) (new_size : ℕ)
    (small : ptr + new_size + 7 < 2 ^ 64) where
  abbrev hi : ℕ
  hi = a + n + gaps_of cs (a + n)

  abbrev post : ℕ
  post = align_up (ptr + new_size)

  abbrev account : Counters → Counters
  account = account_grow_in_place layout.size new_size

  abbrev grown : Talc → Outcome Talc ℕ
  grown s = ok ptr (count account s)

  chunk-Shape : Shape a (used_chunk n ptr layout.size)
  chunk-Shape = subst (Shape a) e (h.tiling.shape a)

  post_eq : post ≡ (ptr + new_size + 7) / 8 * 8
  post_eq = align_up-eq (ptr + new_size) small

  tag-IsBase : IsBase a
  tag-IsBase = omega (arith, chunk-Shape)

  -- What the flag of the tag says.
  gap_or_none :
      ((is_above_free (tag_of a (is_gap (cs (a + n)))) ≡ true) × (gaps_of cs (a + n) ≢ 0))
      ⊎ ((is_above_free (tag_of a (is_gap (cs (a + n)))) ≡ false) × (gaps_of cs (a + n) ≡ 0))
  gap_or_none = elim (Bool-cases (is_gap (cs (a + n)))) [
    | inl gap ↦ inl (
      is_above_free-tag_of a (is_gap (cs (a + n))) tag-IsBase ∙ gap,
      omega (
        arith,
        gap_size-eq (cs (a + n)) gap,
        size_pos (a + n) (cs (a + n)) (is_chunk_of_gap (cs (a + n)) gap) (h.tiling.shape (a + n)),
      ),
    )
    | inr none ↦ inr (
      is_above_free-tag_of a (is_gap (cs (a + n))) tag-IsBase ∙ none,
      gap_size-none (cs (a + n)) none,
    )
  ]

  taken-Grown :
      (base acme size above_tag top : ℕ)
      → base ≡ a
      → acme ≡ a + n
      → size ≡ gaps_of cs (a + n)
      → above_tag ≡ hi - 8
      → top ≡ hi
      → gaps_of cs (a + n) ≢ 0
      → a + n < ptr + new_size + 8
      → Grown t cs a n ptr new_size (
          if leb post above_tag
          then (if is_chunk_size post above_tag
              then grown (
                  store post
                    (tag_of base true)
                    (register_gap (post + 8) top (deregister_gap acme (bin_of_size size) t)))
              else grown (
                  if post == above_tag
                  then store above_tag
                      (tag_of base false)
                      (deregister_gap acme (bin_of_size size) t)
                  else store post above_tag (
                      store above_tag
                        (tag_of base false)
                        (deregister_gap acme (bin_of_size size) t))))
          else err t)
  unfolding is_chunk_size
  taken-Grown base acme size above_tag top base_eq acme_eq size_eq tag_eq top_eq some_gap less =
      let high = high_whole t cs h a n ptr layout.size e in
      rw (base_eq, acme_eq, size_eq, tag_eq, top_eq)
        (elim (Bool-cases (leb post (hi - 8))) [
          | inr beyond ↦ rw beyond (refl, ground (arith, beyond, post_eq, high))
          | inl fits ↦
              let in_hi : post + 8 ≤ hi = ground (arith, fits, some_gap, chunk-Shape) in
              elim (Bool-cases (is_chunk_size post (hi - 8))) [
                | inl big ↦
                    rw (fits, big)
                      (part-Grown t cs h a n ptr layout e new_size small some_gap less in_hi
                        (ground (arith, big, in_hi, high)))
                | inr tight ↦
                    rw (fits, tight)
                      (whole-Grown t cs h a n ptr layout e new_size small some_gap less in_hi)
              ]
        ])

  from-Grown :
      Grown t cs a n ptr new_size
        (grow_from ptr layout.size new_size t (a + n - 8, tag_of a (is_gap (cs (a + n)))))
  unfolding grow_from is_chunk_size
  from-Grown = elim (Bool-cases (leb post (a + n - 8))) [
    | inl within ↦ rw within (
        within-Grown t cs h a n ptr layout e new_size small
          (ground (arith, within, post_eq, chunk-Shape)))
    | inr beyond ↦ elim gap_or_none [
      | inr (none, zero) ↦
          rw (beyond, none) (refl, ground (arith, beyond, zero, post_eq, chunk-Shape))
      | inl (gap, ne) ↦
          let acme_eq : a + n - 8 + 8 ≡ a + n = omega (arith, chunk-Shape) in
          let size : t.mem (a + n - 8 + 8 + 16) ≡ gaps_of cs (a + n) =
            ap (λ x. t.mem (x + 16)) acme_eq
            ∙ (entry-IsGap t (gaps_of cs) h.free (a + n) ne).low_size in
          rw (beyond, gap)
            (taken-Grown (chunk_base (tag_of a (is_gap (cs (a + n))))) (a + n - 8 + 8)
              (t.mem (a + n - 8 + 8 + 16)) (a + n - 8 + t.mem (a + n - 8 + 8 + 16))
              (a + n - 8 + t.mem (a + n - 8 + 8 + 16) + 8)
              (chunk_base-tag_of a (is_gap (cs (a + n))) tag-IsBase) acme_eq size
              (omega (arith, size, chunk-Shape)) (omega (arith, size, chunk-Shape)) ne
              (ground (arith, beyond, post_eq, chunk-Shape)))
    ]
  ]

  -- In a state that holds chunks, growing an allocation of them in place to a size that does not
  -- leave the address space returns its address or an error. If the chunk has room for the new
  -- size, it stays, with the new allocation in it; else, if the chunk and the gap above it have
  -- room together, the chunk takes that gap, whole or up to a gap that is left of it; else there
  -- is an error, and nothing changes. Without an error the bins stay in place, and words off the
  -- bins and the gaps are kept that are below the end of the new allocation or above the two.
  pub grow_in_place-Grown : Grown t cs a n ptr new_size (grow_in_place ptr layout new_size t)
  grow_in_place-Grown =
      subst (Grown t cs a n ptr new_size) (sym (grow_in_place-grow_from ptr layout new_size t))
        (elim (eq-or-ne (align_up (ptr + layout.size)) post) [
          | inl same ↦ rw (eq→== (align_up (ptr + layout.size)) post same) (
              let room : ptr + new_size + 8 ≤ a + n = omega (
                arith,
                same,
                post_eq,
                chunk-Shape,
                align_up-eq (ptr + layout.size) (omega (arith, chunk-Shape)),
              ) in
              kept-Grown t cs h a n ptr layout e new_size small room t
                (same-IsKept t cs h a n ptr layout.size e new_size room same))
          | inr ne ↦
              rw (ne→== (align_up (ptr + layout.size)) post ne, found t cs h a n ptr layout.size e)
                from-Grown
        ])
