-- ===== src/Talc/Chunks/Below.antt =====
-- What `Talc::free` of talc/src/talc.rs finds below a chunk, among the chunks that the state holds.
use talc.Base.{
  ℕ, ◌+◌, ◌-◌, ◌≤◌, ◌<◌, ◌≡◌, refl, ◌≢◌, ◌⊎◌, true, false, arith, sym, subst, ◌∙◌, inl, inr,
  Bool-cases,
}
use talc.Mem.{write, write_ne}
use talc.Tag.{tag_of}
use talc.Talc.State.{Talc}
use talc.Talc.Gaps.{store}
use talc.Talc.Free.{merge_below}
use talc.Talc.FreeMap.{IsFreeMap, IsOff, store-IsFreeMap}
use talc.Talc.FreeMap.Member.{entry}
use talc.Talc.FreeMap.Merge.{merge_below-gap, merge_below-tag, same-IsFreeMap, entry-same}
use talc.Talc.Chunks.{
  Piece, absent, free_chunk, used_chunk, fence, Chunks, size_of, gap_size, is_chunk, is_gap,
  is_tagged, is_used, size_pos, gap_size-eq, is_chunk_of_gap, is_chunk_of_tagged, is_chunk_of_used,
}
use talc.Talc.Chunks.State.{Tagged, OffBins, gaps_of, HoldsChunks, Tagged-frame, word_off_gaps}
use talc.Talc.Chunks.Retag.{base_of, base_of-IsBase, tag_word, retag-Tagged, ends_unique}

-- After the merge below the chunk at `a`, what is to be released begins at `lo`: no gap ends there
-- any more, and the tag that does says that a gap follows.
pub record IsBelow (t : Talc) (cs : Chunks) (a lo : ℕ) (t' : Talc) : Type 0 where
  pub from : lo + gaps_of cs lo ≡ a
  pub begins : is_chunk (cs lo) ≡ true
  pub free : IsFreeMap t' (entry lo 0 (gaps_of cs))
  pub bins_eq : t'.bins ≡ t.bins
  pub kept : (x : ℕ) → x ≢ lo - 8 → IsOff t.bins (gaps_of cs) x → t'.mem x ≡ t.mem x
  pub tagged : (c : ℕ) × (c < lo) × (is_tagged (cs c) ≡ true) × (c + size_of (cs c) ≡ lo)
  pub retag : (c : ℕ) → c < lo → c + size_of (cs c) ≡ lo → Tagged t'.mem true c (cs c)

pub gap_size-none : (p : Piece) → is_gap p ≡ false → gap_size p ≡ 0
gap_size-none absent e = refl
gap_size-none (free_chunk n) e = absurd (ground arith)
gap_size-none (used_chunk n ptr len) e = refl
gap_size-none (fence n base) e = refl

pub used-no_gap : (p : Piece) → is_used p ≡ true → is_gap p ≡ false
used-no_gap absent e = refl
used-no_gap (free_chunk n) e = absurd (ground arith)
used-no_gap (used_chunk n ptr len) e = refl
used-no_gap (fence n base) e = refl

pub no_gap-tagged : (p : Piece) → is_chunk p ≡ true → is_gap p ≡ false → is_tagged p ≡ true
no_gap-tagged absent c e = c
no_gap-tagged (free_chunk n) c e = absurd (ground arith)
no_gap-tagged (used_chunk n ptr len) c e = refl
no_gap-tagged (fence n base) c e = refl

pub ends_chunk : (p : Piece) → size_of p ≢ 0 → is_chunk p ≡ true
ends_chunk absent ne = absurd (ne refl)
ends_chunk (free_chunk n) ne = refl
ends_chunk (used_chunk n ptr len) ne = refl
ends_chunk (fence n base) ne = refl

module _ (t : Talc) (cs : Chunks) (h : HoldsChunks t cs) where
  -- What is tagged right below an address says whether a gap is there.
  pub tag_below : (c x : ℕ) → c + size_of (cs c) ≡ x → Tagged t.mem (is_gap (cs x)) c (cs c)
  tag_below c x e = subst (λ y. Tagged t.mem (is_gap (cs y)) c (cs c)) e (h.tags c)

  pub ends_before : (c x : ℕ) → is_chunk (cs c) ≡ true → c + size_of (cs c) ≡ x → c < x
  ends_before c x chunk e = omega (arith, size_pos c (cs c) chunk (h.tiling.shape c))

  pub tag-IsOff :
      (c x : ℕ)
      → is_tagged (cs c) ≡ true
      → c + size_of (cs c) ≡ x
      → IsOff t.bins (gaps_of cs) (x - 8)
  tag-IsOff c x tagged e =
      let chunk = is_chunk_of_tagged (cs c) tagged in
      let pos = size_pos c (cs c) chunk (h.tiling.shape c) in
      record {
        off_bins = by_piece (cs c) tagged (h.off c) e pos;
        off_gaps =
            word_off_gaps cs h.tiling c (x - 8) (tagged-no_gap (cs c) tagged) chunk
              (omega (arith, pos)) (omega (arith, pos));
      }
    where
      tagged-no_gap : (p : Piece) → is_tagged p ≡ true → is_gap p ≡ false
      tagged-no_gap absent k = refl
      tagged-no_gap (free_chunk n) k = absurd (ground arith)
      tagged-no_gap (used_chunk n ptr len) k = refl
      tagged-no_gap (fence n base) k = refl

      by_piece :
          (p : Piece)
          → is_tagged p ≡ true
          → OffBins t.bins c p
          → c + size_of p ≡ x
          → 8 ≤ size_of p
          → (x - 8 < t.bins) ⊎ (t.bins + 1024 ≤ x - 8)
      by_piece absent k o eq pos = absurd (ground arith)
      by_piece (free_chunk n) k o eq pos = absurd (ground arith)
      by_piece (used_chunk n ptr len) k o eq pos = omega arith
      by_piece (fence n base) k o eq pos = omega arith

  module _ (a : ℕ) (used : is_used (cs a) ≡ true) where
    gap-IsBelow :
        (c : ℕ)
        → is_gap (cs c) ≡ true
        → c + size_of (cs c) ≡ a
        → IsBelow t cs a (merge_below a t).0 (merge_below a t).1
    gap-IsBelow c gap e =
        let size = gap_size-eq (cs c) gap in
        let chunk = is_chunk_of_gap (cs c) gap in
        let merged =
          merge_below-gap t (gaps_of cs) h.free c a
            (omega (arith, size, size_pos c (cs c) chunk (h.tiling.shape c)))
            (omega (arith, size, e)) in
        let (b, tagged, end) = h.tiling.below_gap c gap in
        rw merged.0 (record {
          from = omega (arith, size, e);
          begins = chunk;
          free = merged.1.free;
          bins_eq = merged.1.bins_eq;
          kept = λ x ne off. merged.1.kept x off;
          tagged = (b, ends_before b c (is_chunk_of_tagged (cs b) tagged) end, tagged, end);
          retag = λ d lt at.
              Tagged-frame t.bins cs h.tiling t.mem (merge_below a t).1.mem d true (h.off d)
                (λ x from to off. merged.1.kept x off)
                (subst (λ k. Tagged t.mem k d (cs d)) gap (tag_below d c at));
        })

    abbrev flagged : ℕ → Talc
    flagged c = store (a - 8) (tag_of (base_of c (cs c)) true) t

    flagged_kept : (c x : ℕ) → x ≢ a - 8 → (flagged c).mem x ≡ t.mem x
    flagged_kept c x ne = write_ne t.mem (a - 8) (tag_of (base_of c (cs c)) true) x ne

    tag-IsBelow :
        (c : ℕ)
        → is_tagged (cs c) ≡ true
        → c + size_of (cs c) ≡ a
        → IsBelow t cs a (merge_below a t).0 (merge_below a t).1
    tag-IsBelow c tagged e =
        let not_gap = used-no_gap (cs a) used in
        let chunk = is_chunk_of_tagged (cs c) tagged in
        let tags = subst (λ k. Tagged t.mem k c (cs c)) not_gap (tag_below c a e) in
        let word =
          subst (λ x. t.mem (x - 8) ≡ tag_of (base_of c (cs c)) false) e
            (tag_word t.mem false c (cs c) tagged tags) in
        let result =
          merge_below-tag t (gaps_of cs) h.free (base_of c (cs c)) a
            (base_of-IsBase c (cs c) (h.tiling.shape c)) word in
        rw result (record {
          from = omega (arith, gap_size-none (cs a) not_gap);
          begins = is_chunk_of_used (cs a) used;
          free =
              same-IsFreeMap (flagged c) (gaps_of cs) (entry a 0 (gaps_of cs))
                (λ x. entry-same a 0 (gaps_of cs) x (gap_size-none (cs a) not_gap))
                (store-IsFreeMap t (gaps_of cs) h.free (a - 8) (tag_of (base_of c (cs c)) true)
                  (tag-IsOff c a tagged e));
          bins_eq = refl;
          kept = λ x ne off. flagged_kept c x ne;
          tagged = (c, ends_before c a chunk e, tagged, e);
          retag = λ d lt at.
              subst (λ y. Tagged (flagged c).mem true y (cs y))
                (ends_unique cs h.tiling c d chunk (ends_chunk (cs d) (omega arith)) (e ∙ sym at))
                (subst
                  (λ y. Tagged (write t.mem (y - 8) (tag_of (base_of c (cs c)) true)) true c (cs c))
                  e (retag-Tagged t.mem false true c (cs c) tagged tags));
        })

    -- What stands below an allocated chunk is a gap, or ends in a tag.
    pub merge_below-IsBelow : IsBelow t cs a (merge_below a t).0 (merge_below a t).1
    merge_below-IsBelow =
        let (c, chunk, e) = h.tiling.below_used a used in
        elim (Bool-cases (is_gap (cs c))) [
          | inl gap ↦ gap-IsBelow c gap e
          | inr none ↦ tag-IsBelow c (no_gap-tagged (cs c) chunk none) e
        ]
