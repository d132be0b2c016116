-- ===== src/Talc/Use/Claims.antt =====
-- The calls of `Talc::claim` of talc/src/talc.rs keep the client's invariant.
use talc.Base.{
  ℕ, ◌+◌, ◌-◌, ◌≤◌, ◌<◌, ◌≡◌, refl, inl, inr, Bool, true, false, List, [], ◌∷◌, arith, ap, sym,
  subst, ◌∙◌, le-or-lt, Bool-cases,
}
use talc.Base.Lists.{All-mono}
use talc.Mem.{Mem}
use talc.Span.{Span}
use talc.Counters.{account_claim}
use talc.Talc.State.{Talc}
use talc.Talc.Gaps.{count, is_chunk_size}
use talc.Talc.Outcome.{Outcome, ok, err, panic, out_of_fuel}
use talc.Talc.Heaps.{new, claim, claim_gap, claim_metadata}
use talc.Talc.Heaps.First.{first_claimed}
use talc.Talc.Chunks.{fence, Chunks, size_of, is_chunk, is_used, size_pos, absent_of}
use talc.Talc.Chunks.Tile.{tile}
use talc.Talc.Chunks.Splice.{splice, splice_inside, splice_outside, inside-or-outside}
use talc.Talc.Chunks.Release.{count-HoldsChunks}
use talc.Talc.Chunks.Claim.{
  IsUnclaimed, heap_pieces, claimed_further, claim_gap-HoldsChunks, claim_gap_bins,
}
use talc.Talc.Chunks.First.{
  no_chunks, first_pieces, claim_metadata-HoldsChunks, claim_metadata_bins,
}
use talc.Talc.Use.{Allocation, InHeaps, IsHeap}
use talc.Talc.Use.Invariant.{Inv, kept-IsLive}

-- The state that a call leaves.
left : Talc → Outcome Talc Span → Talc
left d (ok a t) = t
left d (err t) = d
left d panic = d
left d out_of_fuel = d

same_left :
    (heap : Span) (s t : Talc) (r : Outcome Talc Span) → r ≡ ok heap s → r ≡ ok heap t → s ≡ t
unfolding left
same_left heap s t r e e' = ap (left s) (sym e ∙ e')

module _ (s : Talc) (heaps : List Span) (live : List Allocation) (i : Inv s heaps live)
    (memory heap : Span) (h : IsHeap 32 memory heap)
    (apart : (x : ℕ) → heap.base ≤ x → x < heap.acme → ¬ (InHeaps heaps x)) where
  abbrev base : ℕ
  base = heap.base

  abbrev acme : ℕ
  acme = heap.acme

  pub unclaimed : IsUnclaimed s.bins i.chunks base acme
  unclaimed = record {
    aligned = h.aligned;
    whole = h.whole;
    ne_null = h.ne_null;
    in_word = h.in_word;
    below = λ x lt. elim (le-or-lt (x + size_of (i.chunks x)) base) [
      | inl le ↦ le
      | inr over ↦
          absurd
            (apart base (omega arith) (omega (arith, h.room)) (i.covered x base (omega arith) over))
    ];
    clear = λ x from lt. elim (Bool-cases (is_chunk (i.chunks x))) [
      | inr none ↦ absent_of (i.chunks x) none
      | inl chunk ↦ absurd (
          apart x from lt (
            i.covered x x (omega arith)
              (omega (arith, size_pos x (i.chunks x) chunk (i.holds.tiling.shape x)))))
    ];
    off_bins = elim (le-or-lt acme s.bins) [
      | inl le ↦ inl le
      | inr lt ↦ elim (le-or-lt (s.bins + 1024) base) [
        | inl le ↦ inr le
        | inr over ↦ elim (le-or-lt s.bins base) [
          | inl at ↦
              absurd (apart base (omega arith) (omega (arith, h.room)) (i.bins_in base at over))
          | inr above ↦
              absurd (apart s.bins (omega arith) lt (i.bins_in s.bins (omega arith) (omega arith)))
        ]
      ]
    ];
  }

  abbrev new_chunks : Chunks
  new_chunks = splice base acme (heap_pieces base acme) i.chunks

  pieces_within :
      (b x : ℕ) → b < acme → x < b + size_of (tile base (heap_pieces base acme) b) → x < acme
  pieces_within b x lt in_it = ground (arith, h.room)

  pub further-Inv : (t : Talc) → claim memory s ≡ ok heap t → Inv t (heap ∷ heaps) live
  further-Inv t e =
      let claimed = claimed_further s base acme memory h.room h.inward h.off_null i.placed in
      let state =
        same_left heap (count (account_claim (acme - base)) (claim_gap base acme s)) t
          (claim memory s) claimed e in
      let bins = claim_gap_bins s i.chunks i.holds base acme unclaimed h.room in
      subst (λ t'. Inv t' (heap ∷ heaps) live) state
        (record {
          chunks = new_chunks;
          holds =
              count-HoldsChunks (claim_gap base acme s) new_chunks (account_claim (acme - base))
                (claim_gap-HoldsChunks s i.chunks i.holds base acme unclaimed h.room);
          placed = λ z. i.placed (sym bins ∙ z);
          bins_in = λ x le lt. inr (i.bins_in x (omega (arith, bins)) (omega (arith, bins)));
          covered = λ b x le lt. elim (inside-or-outside base acme b) [
            | inr out ↦ inr (
                i.covered b x le (
                  omega (
                    arith,
                    lt,
                    ap size_of (splice_outside base acme (heap_pieces base acme) i.chunks b out),
                  )))
            | inl (from, below) ↦ inl (
              omega arith,
              pieces_within b x below (
                  omega (
                    arith,
                    lt,
                    ap size_of
                        (splice_inside base acme (heap_pieces base acme) i.chunks b from below),
                  )),
            )
          ];
          lives =
              kept-IsLive i.chunks new_chunks live
                (All-mono live
                  (λ a l k.
                    splice_outside base acme (heap_pieces base acme) i.chunks k.base
                      (elim (inside-or-outside base acme k.base) [
                        | inr out ↦ out
                        | inl (from, lt) ↦ absurd (
                            used_or_absent (
                              sym (ap is_used k.chunk)
                              ∙ ap is_used (unclaimed.clear k.base from lt)))
                      ]))
                  i.lives)
                i.lives;
          distinct = i.distinct;
        })
    where
      used_or_absent : true ≡ false → ⊥
      used_or_absent z = cc

module _ (m : Mem) (memory heap : Span) (h : IsHeap 1040 memory heap) where
  abbrev top : Bool
  top = is_chunk_size (heap.base + 1040) heap.acme

  first_within :
      (b : Bool)
      → (b ≡ true → heap.base + 1064 ≤ heap.acme)
      → (a x : ℕ) → a < heap.acme
      → x < a + size_of (tile heap.base (fence 8 0 ∷ first_pieces b heap.base heap.acme) a)
      → x < heap.acme
  first_within true big a x lt in_it = ground (arith, h.room, big refl)
  first_within false big a x lt in_it = ground (arith, h.room)

  top_room : top ≡ true → heap.base + 1064 ≤ heap.acme
  unfolding is_chunk_size
  top_room e = ground (arith, h.room, h.in_word)

  pub first-Inv : (t : Talc) → claim memory (new m) ≡ ok heap t → Inv t (heap ∷ []) []
  unfolding new
  first-Inv t e =
      let base = heap.base in
      let acme = heap.acme in
      let claimed =
        first_claimed (new m) refl refl base acme h.aligned h.whole h.in_word h.room memory h.inward
          h.off_null refl in
      let state =
        same_left heap (count (account_claim (acme - base)) (claim_metadata base acme (new m))) t
          (claim memory (new m)) claimed e in
      let bins =
        claim_metadata_bins (new m) refl refl base acme h.aligned h.whole h.ne_null h.in_word
          h.room in
      let pieces = fence 8 0 ∷ first_pieces top base acme in
      subst (λ t'. Inv t' (heap ∷ []) []) state
        (record {
          chunks = splice base acme pieces no_chunks;
          holds =
              count-HoldsChunks (claim_metadata base acme (new m))
                (splice base acme pieces no_chunks) (account_claim (acme - base))
                (claim_metadata-HoldsChunks (new m) refl refl base acme h.aligned h.whole h.ne_null
                  h.in_word h.room);
          placed = omega (arith, bins);
          bins_in = λ x le lt. inl (omega (arith, bins, h.room));
          covered = λ b x le lt. elim (inside-or-outside base acme b) [
            | inr out ↦
                absurd
                  (omega (arith, lt, ap size_of (splice_outside base acme pieces no_chunks b out)))
            | inl (from, below) ↦ inl (
              omega arith,
              first_within top top_room b x below (
                  omega (
                    arith,
                    lt,
                    ap size_of (splice_inside base acme pieces no_chunks b from below),
                  )),
            )
          ];
          lives = tt;
          distinct = tt;
        })
