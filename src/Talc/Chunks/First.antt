-- ===== src/Talc/Chunks/First.antt =====
-- What the first `Talc::claim` of talc/src/talc.rs makes of a state that holds no chunks: the tag at
-- the heap's base, the array of bins with its tag, and a gap where there is room for one.
use talc.Base.{
  ℕ, ◌+◌, ◌-◌, ◌%◌, ◌^◌, ◌≤◌, ◌<◌, ◌≡◌, refl, ◌≢◌, ◌⊎◌, inl, inr, Bool, true, false, List, [], ◌∷◌,
  arith, ap, sym, subst, ◌∙◌, ◌==◌, if◌then◌else◌, eq-or-ne, Bool-cases,
}
use talc.Mem.{write, write_self, write_ne}
use talc.Tag
use talc.Tag.{tag_of}
use talc.Talc.State.{Talc}
use talc.Talc.Gaps.{register_gap, store, is_chunk_size}
use talc.Talc.Gaps.View.{gap, IsRegion}
use talc.Talc.Gaps.Empty.{no_gaps}
use talc.Talc.Heaps.{claim_metadata}
use talc.Talc.Heaps.First.{placed, placed-Holds, init_bins-below}
use talc.Talc.FreeMap.{
  IsFreeMap, IsOff, store-IsFreeMap, register-IsFreeMap, register_bins, register_kept,
}
use talc.Talc.FreeMap.Member.{entry}
use talc.Talc.FreeMap.Merge.{same-IsFreeMap, entry-there}
use talc.Talc.Chunks.{Piece, absent, free_chunk, fence, Chunks, is_gap, IsTiling}
use talc.Talc.Chunks.Tile.{Pieces, Alternates, end_of}
use talc.Talc.Chunks.Splice.{splice, IsSplice, splice_outside}
use talc.Talc.Chunks.State.{gaps_of, HoldsChunks}
use talc.Talc.Chunks.Rebuild.{rebuild, Tags, Offs, head_gap}

abbrev pub no_chunks : Chunks
no_chunks x = absent

no_chunks-IsTiling : IsTiling no_chunks
no_chunks-IsTiling = record {
  shape = λ a. tt;
  apart = λ a b lt e. absurd (false-true e);
  below_gap = λ a e. absurd (false-true e);
  below_used = λ a e. absurd (false-true e);
}
  where
    false-true : false ≡ true → ⊥
    false-true z = cc

-- The pieces of the first heap, by whether there is room for a gap.
abbrev pub first_pieces : Bool → (base acme : ℕ) → List Piece
first_pieces true base acme = fence 1032 base ∷ free_chunk (acme - (base + 1040)) ∷ []
first_pieces false base acme = fence (acme - (base + 8)) base ∷ []

module _ (t : Talc) (low : t.availability_low ≡ 0) (high : t.availability_high ≡ 0) (base acme : ℕ)
    (aligned : base % 8 ≡ 0) (whole : acme % 8 ≡ 0) (ne_null : base ≢ 0) (in_word : acme < 2 ^ 64)
    (room : base + 1040 ≤ acme) where
  abbrev start : Talc
  start = placed t low high base acme aligned whole in_word room

  chunk_room : is_chunk_size (base + 1040) acme ≡ true → base + 1064 ≤ acme
  unfolding is_chunk_size
  chunk_room e = ground arith

  start-HoldsChunks : HoldsChunks start no_chunks
  start-HoldsChunks = record {
    tiling = no_chunks-IsTiling;
    free = record {
      view = no_gaps;
      holds = placed-Holds t low high base acme aligned whole in_word room;
      lists = record {
        large = λ a ne. absurd (ne refl);
        listed = λ b lt. tt;
        complete = λ a ne. absurd (ne refl);
      };
    };
    tags = λ a. tt;
    off = λ a. tt;
  }

  no_gap-IsOff :
      (x : ℕ) → (x < base + 8) ⊎ (base + 1032 ≤ x) → IsOff start.bins (gaps_of no_chunks) x
  no_gap-IsOff x out = record { off_bins = omega (arith, out); off_gaps = λ g ne. absurd (ne refl) }

  base_tag : start.mem base ≡ tag_of 0 false
  base_tag =
      init_bins-below 128 (base + 8) 0 (write t.mem base (tag_of 0 false)) base (omega arith)
      ∙ write_self t.mem base (tag_of 0 false)

  module _ (t' : Talc) (top : Bool) (top_eq : ((top ≡ true) × (base + 1064 ≤ acme)) ⊎ (top ≡ false))
      (free' : IsFreeMap t'
        (gaps_of (splice base acme (fence 8 0 ∷ first_pieces top base acme) no_chunks)))
      (bins' : t'.bins ≡ base + 8)
      (kept : (x : ℕ) → (x ≤ base) ⊎ (acme ≤ x) → t'.mem x ≡ start.mem x)
      (tags : Tags t'.mem false (base + 8) (first_pieces top base acme)) where
    later-Pieces :
        (b : Bool)
        → ((b ≡ true) × (base + 1064 ≤ acme)) ⊎ (b ≡ false)
        → Pieces (base + 8) (first_pieces b base acme)
          × (end_of (base + 8) (first_pieces b base acme) ≡ acme)
          × Alternates true (first_pieces b base acme)
          × Offs (base + 8) (base + 8) (first_pieces b base acme)
    later-Pieces true (inl (e, le)) = (
      (refl, omega arith, (refl, omega arith, tt)),
      omega arith,
      ((λ k. refl), ((λ k. refl), tt)),
      (omega arith, (tt, tt)),
    )
    later-Pieces true (inr e) = absurd (true-false e)
      where
        true-false : true ≡ false → ⊥
        true-false z = cc
    later-Pieces false e =
        ((refl, omega arith, tt), omega arith, ((λ k. refl), tt), (omega arith, tt))

    pub first-HoldsChunks :
        HoldsChunks t' (splice base acme (fence 8 0 ∷ first_pieces top base acme) no_chunks)
    first-HoldsChunks =
        let p = later-Pieces top top_eq in
        let s : IsSplice no_chunks base acme false (fence 8 0) (first_pieces top base acme) =
          record {
            cut_low = λ x lt. omega arith;
            cut_high = λ x from lt. omega arith;
            pieces = (refl, omega arith, p.0);
            fits = omega (arith, p.1);
            alternates = (λ k. absurd (false-true k), p.2);
            tagged_below = λ k. absurd (false-true k);
            chunk_below = λ k. absurd (false-true k);
            seam_gap = λ k. absurd (false-true k);
            seam_used = λ k. p.1;
          } in
        rebuild start no_chunks start-HoldsChunks base acme false (fence 8 0)
          (first_pieces top base acme) s t' free' bins'
          (λ x out ne off. kept x (omega (arith, out))) (λ c lt at. tt) false
          (ap (λ x. is_gap (splice base acme (fence 8 0 ∷ first_pieces top base acme) no_chunks x))
              p.1
            ∙ ap is_gap (
                splice_outside base acme (fence 8 0 ∷ first_pieces top base acme) no_chunks acme
                  (inr (omega arith))))
          (
            subst (λ k. t'.mem (base + 8 - 8) ≡ tag_of 0 k) (sym (head_first top))
                (subst (λ x. t'.mem x ≡ tag_of 0 false) (omega arith)
                  (kept base (omega arith) ∙ base_tag)),
            tags,
          )
          (omega arith, p.3)
      where
        false-true : false ≡ true → ⊥
        false-true z = cc

        head_first : (b : Bool) → head_gap false (first_pieces b base acme) ≡ false
        head_first true = refl
        head_first false = refl

  -- With room for a gap above the bins.
  module _ (large : base + 1064 ≤ acme) where
    abbrev n : ℕ
    n = acme - (base + 1040)

    region : IsRegion start.bins (gap (base + 1040) n)
    region = record {
      large = omega arith;
      whole = omega arith;
      aligned = omega arith;
      ne_null = omega arith;
      in_word = omega arith;
      off_bins = inr (omega arith);
    }

    ends : base + 1040 + n ≡ acme
    ends = omega arith

    fresh :
        (x : ℕ)
        → gaps_of no_chunks x ≢ 0
        → (base + 1040 + n ≤ x) ⊎ (x + gaps_of no_chunks x ≤ base + 1040)
    fresh x ne = absurd (ne refl)

    abbrev registered : Talc
    registered = register_gap (base + 1040) acme start

    abbrev map_left : ℕ → ℕ
    map_left = entry (base + 1040) n (gaps_of no_chunks)

    registered_free : IsFreeMap registered map_left
    registered_free =
        subst (λ x. IsFreeMap (register_gap (base + 1040) x start) map_left) ends
          (register-IsFreeMap start (gaps_of no_chunks) start-HoldsChunks.free (base + 1040) n
            region fresh)

    registered_bins : registered.bins ≡ base + 8
    registered_bins =
        subst (λ x. (register_gap (base + 1040) x start).bins ≡ base + 8) ends
          (register_bins start (gaps_of no_chunks) start-HoldsChunks.free (base + 1040) n region
            fresh)

    registered_kept : (x : ℕ) → (x ≤ base) ⊎ (acme ≤ x) → registered.mem x ≡ start.mem x
    registered_kept x out =
        subst (λ y. (register_gap (base + 1040) y start).mem x ≡ start.mem x) ends
          (register_kept start (gaps_of no_chunks) start-HoldsChunks.free (base + 1040) n region
            fresh x (no_gap-IsOff x (omega (arith, out))) (omega (arith, out, ends)))

    tag-IsOff : IsOff registered.bins map_left (base + 8 + 1024)
    tag-IsOff = record {
      off_bins = omega (arith, registered_bins);
      off_gaps = λ g ne. elim (eq-or-ne g (base + 1040)) [
        | inl e ↦ inl (omega arith)
        | inr other ↦ absurd (ne (entry-there (base + 1040) n (gaps_of no_chunks) g other))
      ];
    }

    map_same :
        (x : ℕ)
        → map_left x
          ≡ gaps_of (splice base acme (fence 8 0 ∷ first_pieces true base acme) no_chunks) x
    map_same x = ground arith

    big-HoldsChunks :
        HoldsChunks
          (store (base + 8 + 1024) (tag_of base true) registered)
          (splice base acme (fence 8 0 ∷ first_pieces true base acme) no_chunks)
    big-HoldsChunks =
        let t' = store (base + 8 + 1024) (tag_of base true) registered in
        first-HoldsChunks t' true (inl (refl, large))
          (same-IsFreeMap t' map_left
            (gaps_of (splice base acme (fence 8 0 ∷ first_pieces true base acme) no_chunks))
            map_same
            (store-IsFreeMap registered map_left registered_free (base + 8 + 1024)
              (tag_of base true) tag-IsOff))
          registered_bins
          (λ x out.
            write_ne registered.mem (base + 8 + 1024) (tag_of base true) x (omega (arith, out))
            ∙ registered_kept x out)
          (
            subst (λ x. t'.mem x ≡ tag_of base true) (omega arith)
                (write_self registered.mem (base + 8 + 1024) (tag_of base true)),
            (tt, tt),
          )

  abbrev link : Bool → Talc
  link linked = if linked then start else store (base + 8 + 1024) (acme - 8) start

  link_free : (linked : Bool) → IsFreeMap (link linked) (gaps_of no_chunks)
  link_free true = start-HoldsChunks.free
  link_free false =
      store-IsFreeMap start (gaps_of no_chunks) start-HoldsChunks.free (base + 8 + 1024) (acme - 8)
        (no_gap-IsOff (base + 8 + 1024) (omega arith))

  link_bins : (linked : Bool) → (link linked).bins ≡ base + 8
  link_bins true = refl
  link_bins false = refl

  link_kept : (linked : Bool) (x : ℕ) → (x ≤ base) ⊎ (acme ≤ x) → (link linked).mem x ≡ start.mem x
  link_kept true x out = refl
  link_kept false x out = write_ne start.mem (base + 8 + 1024) (acme - 8) x (omega (arith, out))

  none_same :
      (x : ℕ)
      → gaps_of no_chunks x
        ≡ gaps_of (splice base acme (fence 8 0 ∷ first_pieces false base acme) no_chunks) x
  none_same x = ground arith

  small-HoldsChunks :
      (linked : Bool)
      → HoldsChunks
          (store (acme - 8) (tag_of base false) (link linked))
          (splice base acme (fence 8 0 ∷ first_pieces false base acme) no_chunks)
  small-HoldsChunks linked =
      let t' = store (acme - 8) (tag_of base false) (link linked) in
      first-HoldsChunks t' false (inr refl)
        (same-IsFreeMap t' (gaps_of no_chunks)
          (gaps_of (splice base acme (fence 8 0 ∷ first_pieces false base acme) no_chunks))
          none_same
          (store-IsFreeMap (link linked) (gaps_of no_chunks) (link_free linked) (acme - 8)
            (tag_of base false)
            (subst (λ k. IsOff k (gaps_of no_chunks) (acme - 8)) (sym (link_bins linked))
              (no_gap-IsOff (acme - 8) (omega arith)))))
        (link_bins linked)
        (λ x out.
          write_ne (link linked).mem (acme - 8) (tag_of base false) x (omega (arith, out))
          ∙ link_kept linked x out)
        (
          subst (λ x. t'.mem x ≡ tag_of base false) (omega arith)
              (write_self (link linked).mem (acme - 8) (tag_of base false)),
          tt,
        )

  -- From a state whose flags are clear, for aligned ends within the address space, off the null
  -- address, with room for the bins and two tags, claim_metadata leads to a state that holds the
  -- chunks of the heap: the tag at its base, the bins with the tag above them, and a gap above
  -- where there is room for one; else the bins take the whole heap.
  pub claim_metadata-HoldsChunks : HoldsChunks (claim_metadata base acme t) (
      splice base acme
        (fence 8 0 ∷ first_pieces (is_chunk_size (base + 1040) acme) base acme)
        no_chunks)
  unfolding claim_metadata Tag.write
  claim_metadata-HoldsChunks =
      let e : base + 8 + 1024 + 8 ≡ base + 1040 = omega arith in
      elim (Bool-cases (is_chunk_size (base + 1040) acme)) [
        | inl big ↦ rw (e, big) (big-HoldsChunks (chunk_room big))
        | inr small ↦ rw (e, small) (small-HoldsChunks (acme - 8 == base + 8 + 1024))
      ]

  pub claim_metadata_bins : (claim_metadata base acme t).bins ≡ base + 8
  unfolding claim_metadata Tag.write
  claim_metadata_bins =
      let e : base + 8 + 1024 + 8 ≡ base + 1040 = omega arith in
      elim (Bool-cases (is_chunk_size (base + 1040) acme)) [
        | inl big ↦ rw (e, big) (registered_bins (chunk_room big))
        | inr small ↦ rw (e, small) (link_bins (acme - 8 == base + 8 + 1024))
      ]
