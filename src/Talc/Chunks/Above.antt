-- ===== src/Talc/Chunks/Above.antt =====
-- An allocated chunk of talc/src/talc.rs with the gap above it, if there is one: what becomes of the
-- two where the allocation gets another size and the gap has been taken out of its bin.
use talc.Base.{
  ℕ, ◌+◌, ◌-◌, ◌%◌, ◌^◌, ◌≤◌, ◌<◌, ◌≡◌, refl, ◌≢◌, ◌⊎◌, inl, inr, Bool, true, false, List, ◌∷◌,
  arith, ap, sym, subst, ◌∙◌, eq-or-ne, le-or-lt, Bool-cases,
}
use talc.Tag.{tag_of}
use talc.Counters.{Counters}
use talc.Talc.State.{Talc}
use talc.Talc.Gaps.{tag_from_alloc_ptr}
use talc.Talc.FreeMap.{IsOff, entry-IsGap}
use talc.Talc.FreeMap.Member.{entry}
use talc.Talc.FreeMap.Merge.{IsMerged, same-IsFreeMap, entry-here, entry-there, cleared-IsOff}
use talc.Talc.Chunks.{
  Piece, absent, used_chunk, Chunks, size_of, gap_size, is_chunk, is_gap, is_used, Shape,
  gap_size-eq, gap_size-ne_zero, is_chunk_of_gap, Shape-whole,
}
use talc.Talc.Chunks.Tile.{tile, end_of, Pieces, Alternates}
use talc.Talc.Chunks.Splice.{splice, IsSplice, splice_inside, splice_outside, inside-or-outside}
use talc.Talc.Chunks.State.{Tagged, OffBins, gaps_of, HoldsChunks, Tagged-frame}
use talc.Talc.Chunks.Rebuild.{rebuild, Tags, Offs}
use talc.Talc.Chunks.Retag.{inside_absent, no_gap_above}
use talc.Talc.Chunks.Below.{tag_below, ends_before, gap_size-none}
use talc.Talc.Chunks.Release.{tag_from_alloc_ptr-Tagged}
use talc.Talc.Chunks.Place.{IsOpen, IsPlaced}
use talc.Talc.Chunks.Allocate.{top_parts, when_true, when_false, false-true}

module _ (t : Talc) (cs : Chunks) (h : HoldsChunks t cs) (a n ptr len : ℕ)
    (e : cs a ≡ used_chunk n ptr len) where
  abbrev f : ℕ → ℕ
  f = gaps_of cs

  abbrev hi : ℕ
  hi = a + n + f (a + n)

  its-Shape : Shape a (used_chunk n ptr len)
  its-Shape = subst (Shape a) e (h.tiling.shape a)

  -- Where the tag is, and what it says.
  pub found : tag_from_alloc_ptr t ptr len ≡ (a + n - 8, tag_of a (is_gap (cs (a + n))))
  found =
      tag_from_alloc_ptr-Tagged t (is_gap (cs (a + n))) a n ptr len its-Shape
        (subst (λ p. Tagged t.mem (is_gap (cs (a + size_of p))) a p) e (h.tags a))

  size_eq : size_of (cs a) ≡ n
  size_eq = ap size_of e

  none_here : f a ≡ 0
  none_here = ap gap_size e

  gap_above : f (a + n) ≢ 0 → (is_gap (cs (a + n)) ≡ true) × (f (a + n) ≡ size_of (cs (a + n)))
  gap_above ne =
      let gap = gap_size-ne_zero (a + n) (cs (a + n)) (h.tiling.shape (a + n)) ne in
      (gap, gap_size-eq (cs (a + n)) gap)

  between : (x : ℕ) → a < x → x < hi → x ≢ a + n → cs x ≡ absent
  between x above below ne = elim (le-or-lt (a + n) x) [
    | inr lt ↦ inside_absent cs h.tiling a x above (omega (arith, size_eq))
    | inl le ↦
        let (gap, size) = gap_above (omega arith) in
        inside_absent cs h.tiling (a + n) x (omega arith) (omega (arith, size))
  ]

  pub high_whole : (hi % 8 ≡ 0) × (hi < 2 ^ 64)
  high_whole = elim (eq-or-ne (f (a + n)) 0) [
    | inl z ↦ omega (arith, z, its-Shape)
    | inr ne ↦
        let (gap, size) = gap_above ne in
        omega (
          arith,
          size,
          Shape-whole (a + n) (cs (a + n)) (is_chunk_of_gap (cs (a + n)) gap)
              (h.tiling.shape (a + n)),
        )
  ]

  no_gap_end : is_gap (cs hi) ≡ false
  no_gap_end = elim (Bool-cases (is_gap (cs (a + n)))) [
    | inl gap ↦
        subst (λ k. is_gap (cs (a + n + k)) ≡ false) (sym (gap_size-eq (cs (a + n)) gap))
          (no_gap_above cs h.tiling (a + n) gap)
    | inr none ↦
        subst (λ k. is_gap (cs k) ≡ false) (omega (arith, gap_size-none (cs (a + n)) none)) none
  ]

  its_off : (a + n ≤ t.bins) ⊎ (t.bins + 1024 ≤ a)
  its_off = subst (OffBins t.bins a) e (h.off a)

  all_off : (hi ≤ t.bins) ⊎ (t.bins + 1024 ≤ a)
  all_off = elim (eq-or-ne (f (a + n)) 0) [
    | inl z ↦ omega (arith, z, its_off)
    | inr ne ↦ omega (arith, its_off, (entry-IsGap t f h.free (a + n) ne).off_bins, its-Shape)
  ]

  others : (x : ℕ) → x ≢ a + n → f x ≢ 0 → (hi ≤ x) ⊎ (x + f x ≤ a)
  others x ne at =
      let gap = gap_size-ne_zero x (cs x) (h.tiling.shape x) at in
      let chunk = is_chunk_of_gap (cs x) gap in
      elim (le-or-lt a x) [
        | inr lt ↦
            inr (omega (arith, gap_size-eq (cs x) gap, h.tiling.apart x a lt (ap is_chunk e)))
        | inl le ↦ elim (eq-or-ne x a) [
          | inl here ↦ absurd (at (ap f here ∙ none_here))
          | inr other ↦
              let far = h.tiling.apart a x (omega arith) chunk in
              elim (eq-or-ne (f (a + n)) 0) [
                | inl z ↦ inl (omega (arith, z, far, size_eq))
                | inr some_gap ↦ inl (
                    omega (
                      arith,
                      gap_above some_gap,
                      h.tiling.apart (a + n) x (omega (arith, far, size_eq, ne)) chunk,
                    ))
              ]
        ]
      ]

  -- What `Talc::malloc`, `shrink` and `grow_in_place` make of the two, once the gap is taken out.
  module _ (t1 : Talc) (m : IsMerged t f (a + n) t1) (account : Counters → Counters) where
    pub opened : IsOpen t1.bins (entry (a + n) 0 f) a hi
    opened = record {
      aligned = omega (arith, its-Shape);
      whole = high_whole.0;
      ne_null = omega (arith, its-Shape);
      in_word = high_whole.1;
      off_bins = omega (arith, all_off, m.bins_eq);
      apart = λ x ne. elim (eq-or-ne x (a + n)) [
        | inl at ↦ absurd (ne (ap (entry (a + n) 0 f) at ∙ entry-here (a + n) 0 f))
        | inr other ↦
            let same = entry-there (a + n) 0 f x other in
            omega (arith, same, others x other (λ z. ne (same ∙ z)))
      ];
    }

    pub clear_end : entry (a + n) 0 f hi ≡ 0
    clear_end = elim (eq-or-ne hi (a + n)) [
      | inl at ↦ ap (entry (a + n) 0 f) at ∙ entry-here (a + n) 0 f
      | inr other ↦ entry-there (a + n) 0 f hi other ∙ gap_size-none (cs hi) no_gap_end
    ]

    module _ (new_size : ℕ) (t' : Talc)
        (p : IsPlaced t1 (entry (a + n) 0 f) a hi ptr new_size t') where
      abbrev top : List Piece
      top = top_parts p.above (a + p.size) hi

      abbrev parts : List Piece
      parts = used_chunk p.size ptr new_size ∷ top

      used-Shape : Shape a (used_chunk p.size ptr new_size)
      used-Shape = omega (arith, its-Shape, p.room, p.above_eq, high_whole)

      top_facts :
          (above : Bool)
          → ((above ≡ true) × (a + p.size + 24 ≤ hi)) ⊎ ((above ≡ false) × (a + p.size ≡ hi))
          → Pieces (a + p.size) (top_parts above (a + p.size) hi)
            × (end_of (a + p.size) (top_parts above (a + p.size) hi) ≡ hi)
            × Alternates true (top_parts above (a + p.size) hi)
      top_facts true eq = (
        (refl, omega (arith, when_true eq, its-Shape, p.room, high_whole), tt),
        omega (arith, when_true eq),
        ((λ k. refl), tt),
      )
      top_facts false eq = (tt, when_false eq, tt)

      resized-IsSplice : IsSplice cs a hi false (used_chunk p.size ptr new_size) top
      resized-IsSplice =
          let facts = top_facts p.above p.above_eq in
          record {
            cut_low = λ x lt. h.tiling.apart x a lt (ap is_chunk e);
            cut_high = λ x from below. elim (eq-or-ne x a) [
              | inl at ↦ omega (arith, at, ap (λ y. size_of (cs y)) at, size_eq)
              | inr ne ↦ elim (eq-or-ne x (a + n)) [
                | inl at ↦
                    let some_gap = gap_above (omega arith) in
                    omega (arith, at, ap (λ y. size_of (cs y)) at, some_gap)
                | inr other ↦ omega (arith, ap size_of (between x (omega arith) below other))
              ]
            ];
            pieces = (refl, used-Shape, facts.0);
            fits = omega (arith, facts.1);
            alternates = (λ k. absurd (false-true k), facts.2);
            tagged_below = λ k. absurd (false-true k);
            chunk_below = λ k.
                (let (c, chunk, end) = h.tiling.below_used a (ap is_used e) in
                  (c, ends_before t cs h c a chunk end, chunk, end));
            seam_gap = λ k. absurd (false-true (sym no_gap_end ∙ k));
            seam_used = λ k. facts.1;
          }

      merged-IsOff : (x : ℕ) → IsOff t.bins f x → IsOff t1.bins (entry (a + n) 0 f) x
      merged-IsOff x off =
          subst (λ k. IsOff k (entry (a + n) 0 f) x) (sym m.bins_eq)
            (cleared-IsOff t.bins (a + n) f x off)

      pub kept_all :
          (x : ℕ) → (x < ptr + new_size) ⊎ (hi ≤ x) → IsOff t.bins f x → t'.mem x ≡ t.mem x
      kept_all x out off = p.kept x out (merged-IsOff x off) ∙ m.kept x off

      abbrev map_left : ℕ → ℕ
      map_left = entry (a + p.size) (hi - (a + p.size)) (entry (a + n) 0 f)

      inner :
          (above : Bool)
          → ((above ≡ true) × (a + p.size + 24 ≤ hi)) ⊎ ((above ≡ false) × (a + p.size ≡ hi))
          → (x : ℕ) → a ≤ x
          → x < hi
          → (x ≢ a → x ≢ a + n → f x ≡ 0)
          → map_left x
            ≡ gap_size (tile a (used_chunk p.size ptr new_size ∷ top_parts above (a + p.size) hi) x)
      inner true eq x from lt z = elim (eq-or-ne x a) [
        | inl at ↦
            let here = ap f at ∙ none_here in
            ground (arith, at, here, when_true eq, p.room, its-Shape)
        | inr ne ↦ ground (arith, ne, z ne, when_true eq, p.room)
      ]
      inner false eq x from lt z = elim (eq-or-ne x a) [
        | inl at ↦
            let here = ap f at ∙ none_here in
            ground (arith, at, here, when_false eq, p.room, its-Shape)
        | inr ne ↦ ground (arith, ne, z ne, when_false eq, p.room)
      ]

      outer : (x : ℕ) → (x < a) ⊎ (hi ≤ x) → map_left x ≡ f x
      outer x out =
          let last : x ≡ hi → f x ≡ 0 = λ k. ap f k ∙ gap_size-none (cs hi) no_gap_end in
          ground (arith, out, last, p.above_eq, p.room, its-Shape)

      map_same : (x : ℕ) → map_left x ≡ gaps_of (splice a hi parts cs) x
      map_same x = elim (inside-or-outside a hi x) [
        | inl (from, lt) ↦
            inner p.above p.above_eq x from lt
              (λ ne other. ap gap_size (between x (omega arith) lt other))
            ∙ sym (ap gap_size (splice_inside a hi parts cs x from lt))
        | inr out ↦ outer x out ∙ sym (ap gap_size (splice_outside a hi parts cs x out))
      ]

      next_eq : is_gap (splice a hi parts cs (end_of a parts)) ≡ false
      next_eq =
          ap (λ x. is_gap (splice a hi parts cs x)) (top_facts p.above p.above_eq).1
          ∙ ap is_gap (splice_outside a hi parts cs hi (inr (omega arith)))
          ∙ no_gap_end

      top_Tags :
          (above : Bool)
          → Tagged t'.mem above a (used_chunk p.size ptr new_size)
          → Tags t'.mem false a (used_chunk p.size ptr new_size ∷ top_parts above (a + p.size) hi)
      top_Tags true tag = (tag, (tt, tt))
      top_Tags false tag = (tag, tt)

      top_Offs : (above : Bool) → Offs t.bins (a + p.size) (top_parts above (a + p.size) hi)
      top_Offs true = (tt, tt)
      top_Offs false = tt

      pub resized-HoldsChunks : HoldsChunks t' (splice a hi parts cs)
      resized-HoldsChunks =
          rebuild t cs h a hi false (used_chunk p.size ptr new_size) top resized-IsSplice t'
            (same-IsFreeMap t' map_left (gaps_of (splice a hi parts cs)) map_same p.free)
            (p.bins_eq ∙ m.bins_eq) (λ x out ne off. kept_all x (omega (arith, out, its-Shape)) off)
            (λ c lt at.
              Tagged-frame t.bins cs h.tiling t.mem t'.mem c false (h.off c)
                (λ x from to off. kept_all x (inl (omega (arith, its-Shape))) off)
                (subst (λ k. Tagged t.mem k c (cs c)) (ap is_gap e) (tag_below t cs h c a at)))
            false next_eq (top_Tags p.above p.tagged)
            (omega (arith, all_off, p.above_eq), top_Offs p.above)
