-- ===== src/Talc/Chunks/Claim.antt =====
-- What `Talc::claim` of talc/src/talc.rs does to the chunks that the state holds.
use talc.Base.{
  ℕ, ◌+◌, ◌-◌, ◌%◌, ◌^◌, ◌≤◌, ◌<◌, ◌≡◌, refl, ◌≢◌, ◌⊎◌, inl, inr, true, false, List, [], ◌∷◌, arith,
  ap, sym, subst, ◌∙◌, le→leb, lt→leb, ne→==, Bool-cases, le-or-lt,
}
use talc.PtrUtils.{wrapping_add}
use talc.Mem.{write_self, write_ne}
use talc.Tag
use talc.Tag.{tag_of}
use talc.Span
use talc.Span.{Span, size, get_base_acme, word_align_inward, contains}
use talc.Counters.{account_claim}
use talc.Talc.State.{Talc}
use talc.Talc.Gaps.{register_gap, store, count}
use talc.Talc.Gaps.View.{gap, IsRegion}
use talc.Talc.Outcome.{ok}
use talc.Talc.Heaps.{claim, claim_gap}
use talc.Talc.FreeMap.{
  IsFreeMap, IsOff, store-IsFreeMap, register-IsFreeMap, register_bins, register_kept,
}
use talc.Talc.FreeMap.Member.{entry}
use talc.Talc.FreeMap.Merge.{same-IsFreeMap}
use talc.Talc.Chunks.{
  Piece, absent, free_chunk, fence, Chunks, size_of, gap_size, is_gap, size_pos, is_chunk_of_tagged,
  gap_size-eq, gap_size-ne_zero,
}
use talc.Talc.Chunks.Tile.{tile}
use talc.Talc.Chunks.Splice.{splice, IsSplice, splice_inside, splice_outside, inside-or-outside}
use talc.Talc.Chunks.State.{Tagged, gaps_of, HoldsChunks, Tagged-frame}
use talc.Talc.Chunks.Rebuild.{rebuild}

-- Memory that no chunk reaches into, off the array of bins: whole words, off the null address.
pub record IsUnclaimed (bins : ℕ) (cs : Chunks) (base acme : ℕ) : Type 0 where
  pub aligned : base % 8 ≡ 0
  pub whole : acme % 8 ≡ 0
  pub ne_null : base ≢ 0
  pub in_word : acme < 2 ^ 64
  pub below : (x : ℕ) → x < base → x + size_of (cs x) ≤ base
  pub clear : (x : ℕ) → base ≤ x → x < acme → cs x ≡ absent
  pub off_bins : (acme ≤ bins) ⊎ (bins + 1024 ≤ base)

-- The pieces of a heap that is claimed after the first: the tag at its base, and a gap.
abbrev pub heap_pieces : ℕ → ℕ → List Piece
heap_pieces base acme = fence 8 0 ∷ free_chunk (acme - (base + 8)) ∷ []

pub claimed_further :
    (t : Talc) (base acme : ℕ) (memory : Span)
    → base + 32 ≤ acme
    → word_align_inward memory ≡ Span.new base acme
    → contains memory 0 ≡ false
    → t.bins ≢ 0
    → claim memory t
      ≡ ok (Span.new base acme) (count (account_claim (acme - base)) (claim_gap base acme t))
unfolding claim get_base_acme size
claimed_further t base acme memory room inward off placed =
    rw (inward, off, lt→leb acme base (omega arith))
      (rw (ne→== t.bins 0 placed)
        (rw (le→leb 32 (acme - base) (omega arith), inward, lt→leb acme base (omega arith)) refl))

module _ (t : Talc) (cs : Chunks) (h : HoldsChunks t cs) (base acme : ℕ)
    (u : IsUnclaimed t.bins cs base acme) (room : base + 32 ≤ acme) where
  abbrev n : ℕ
  n = acme - (base + 8)

  abbrev f : ℕ → ℕ
  f = gaps_of cs

  abbrev tag : ℕ
  tag = tag_of 0 true

  outside_gaps : (x : ℕ) → f x ≢ 0 → (acme ≤ x) ⊎ (x + f x ≤ base)
  outside_gaps x ne =
      let gap = gap_size-ne_zero x (cs x) (h.tiling.shape x) ne in
      elim (inside-or-outside base acme x) [
        | inl (from, lt) ↦ absurd (ne (ap gap_size (u.clear x from lt)))
        | inr out ↦ elim (le-or-lt acme x) [
          | inl above ↦ inl above
          | inr lt ↦ inr (omega (arith, gap_size-eq (cs x) gap, u.below x (omega arith)))
        ]
      ]

  base-IsOff : IsOff t.bins f base
  base-IsOff = record {
    off_bins = omega (arith, u.off_bins);
    off_gaps = λ x ne. omega (arith, outside_gaps x ne);
  }

  abbrev tagged : Talc
  tagged = store base tag t

  tagged_free : IsFreeMap tagged f
  tagged_free = store-IsFreeMap t f h.free base tag base-IsOff

  region : IsRegion t.bins (gap (base + 8) n)
  region = record {
    large = omega arith;
    whole = omega (arith, u.aligned, u.whole);
    aligned = omega (arith, u.aligned);
    ne_null = omega arith;
    in_word = omega (arith, u.in_word);
    off_bins = omega (arith, u.off_bins);
  }

  fresh : (x : ℕ) → f x ≢ 0 → (base + 8 + n ≤ x) ⊎ (x + f x ≤ base + 8)
  fresh x ne = omega (arith, outside_gaps x ne)

  ends : base + 8 + n ≡ acme
  ends = omega arith

  abbrev result : Talc
  result = register_gap (base + 8) acme tagged

  result_free : IsFreeMap result (entry (base + 8) n f)
  result_free =
      subst (λ x. IsFreeMap (register_gap (base + 8) x tagged) (entry (base + 8) n f)) ends
        (register-IsFreeMap tagged f tagged_free (base + 8) n region fresh)

  result_bins : result.bins ≡ t.bins
  result_bins =
      subst (λ x. (register_gap (base + 8) x tagged).bins ≡ t.bins) ends
        (register_bins tagged f tagged_free (base + 8) n region fresh)

  later_kept :
      (x : ℕ) → IsOff t.bins f x → (x < base + 8) ⊎ (acme ≤ x) → result.mem x ≡ tagged.mem x
  later_kept x off out =
      subst (λ y. (register_gap (base + 8) y tagged).mem x ≡ tagged.mem x) ends
        (register_kept tagged f tagged_free (base + 8) n region fresh x off
          (omega (arith, out, ends)))

  result_kept : (x : ℕ) → (x < base) ⊎ (acme ≤ x) → IsOff t.bins f x → result.mem x ≡ t.mem x
  result_kept x out off =
      later_kept x off (omega (arith, out)) ∙ write_ne t.mem base tag x (omega (arith, out))

  no_gap_end : is_gap (cs acme) ≡ false
  no_gap_end = elim (Bool-cases (is_gap (cs acme))) [
    | inr e ↦ e
    | inl e ↦
        let (c, is, end) = h.tiling.below_gap acme e in
        let pos = size_pos c (cs c) (is_chunk_of_tagged (cs c) is) (h.tiling.shape c) in
        absurd (elim (le-or-lt base c) [
          | inl le ↦ omega (arith, pos, ap size_of (u.clear c le (omega arith)))
          | inr lt ↦ omega (arith, u.below c lt)
        ])
  ]

  heap-IsSplice : IsSplice cs base acme false (fence 8 0) (free_chunk n ∷ [])
  heap-IsSplice = record {
    cut_low = u.below;
    cut_high = λ x from lt. omega (arith, ap size_of (u.clear x from lt));
    pieces = (
      refl,
      omega (arith, u.aligned, u.ne_null, u.in_word),
      (refl, omega (arith, u.aligned, u.whole, u.in_word), tt),
    );
    fits = omega arith;
    alternates = (λ k. absurd (false-true k), (λ k. refl, tt));
    tagged_below = λ k. absurd (false-true k);
    chunk_below = λ k. absurd (false-true k);
    seam_gap = λ k. absurd (false-true (sym no_gap_end ∙ k));
    seam_used = λ k. ends;
  }
    where
      false-true : false ≡ true → ⊥
      false-true z = cc

  map_same :
      (x : ℕ) → entry (base + 8) n f x ≡ gaps_of (splice base acme (heap_pieces base acme) cs) x
  map_same x = elim (inside-or-outside base acme x) [
    | inl (from, lt) ↦
        let zero = ap gap_size (u.clear x from lt) in
        inside x zero
        ∙ sym (ap gap_size (splice_inside base acme (heap_pieces base acme) cs x from lt))
    | inr out ↦
        outside x out
        ∙ sym (ap gap_size (splice_outside base acme (heap_pieces base acme) cs x out))
  ]
    where
      inside :
          (x : ℕ)
          → f x ≡ 0
          → entry (base + 8) n f x ≡ gap_size (tile base (heap_pieces base acme) x)
      inside x z = ground arith

      outside : (x : ℕ) → (x < base) ⊎ (acme ≤ x) → entry (base + 8) n f x ≡ f x
      outside x out = ground arith

  -- From a state that holds chunks, for memory of at least a minimal heap with aligned ends, off
  -- the null address, that no chunk reaches into and that is off the bins, claim_gap leads to a
  -- state that holds the chunks with, in that memory, the tag at the heap's base and one gap above
  -- it.
  pub claim_gap-HoldsChunks :
      HoldsChunks (claim_gap base acme t) (splice base acme (heap_pieces base acme) cs)
  unfolding claim_gap Tag.write
  claim_gap-HoldsChunks =
      let base_eq : wrapping_add base 8 ≡ base + 8 = omega (arith, u.in_word) in
      rw base_eq (
        rebuild t cs h base acme false (fence 8 0) (free_chunk n ∷ []) heap-IsSplice result
          (same-IsFreeMap result (entry (base + 8) n f)
            (gaps_of (splice base acme (heap_pieces base acme) cs)) map_same result_free)
          result_bins (λ x out ne off. result_kept x out off)
          (λ c lt at.
            Tagged-frame t.bins cs h.tiling t.mem result.mem c false (h.off c)
              (λ x from to off. result_kept x (inl (omega arith)) off)
              (subst (λ k. Tagged t.mem k c (cs c))
                (ap is_gap (ap cs at ∙ u.clear base (omega arith) (omega arith))) (h.tags c)))
          _ refl
          (
            subst (λ x. result.mem x ≡ tag) (omega arith)
                (later_kept base base-IsOff (inl (omega arith)) ∙ write_self t.mem base tag),
            (tt, tt),
          )
          (omega (arith, u.off_bins), (tt, tt)))

  pub claim_gap_bins : (claim_gap base acme t).bins ≡ t.bins
  unfolding claim_gap Tag.write
  claim_gap_bins =
      let base_eq : wrapping_add base 8 ≡ base + 8 = omega (arith, u.in_word) in
      rw base_eq result_bins
