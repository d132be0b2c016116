-- ===== src/Talc/Use/Resize.antt =====
-- The calls of `Talc::shrink` and `Talc::grow_in_place` of talc/src/talc.rs, and what the client
-- writes to its allocations, keep its invariant.
use talc.Base.{
  ℕ, ◌+◌, ◌-◌, ◌^◌, ◌≤◌, ◌<◌, ◌≡◌, refl, ◌≢◌, ◌⊎◌, inl, inr, true, false, List, [], ◌∷◌, ◌++◌,
  arith, ap, sym, ◌∙◌, le-or-lt, eq-or-ne, subst,
}
use talc.Base.Lists.{All, All-mono, All-append, append-All}
use talc.Span.{Span}
use talc.Talc.State.{Talc}
use talc.Mem.{Mem}
use talc.Talc.Outcome.{Outcome, ok}
use talc.Talc.Free.{shrink}
use talc.Talc.Loop.{grow_in_place}
use talc.Talc.Chunks.{
  Piece, free_chunk, used_chunk, Chunks, size_of, is_gap, is_used, IsTiling, gap_size-ne_zero,
  gap_size-eq, is_chunk_of_used,
}
use talc.Talc.Chunks.Tile.{tile, tile-first}
use talc.Talc.Chunks.Splice.{splice, splice_inside, splice_outside, inside-or-outside}
use talc.Talc.Chunks.State.{gaps_of, HoldsChunks}
use talc.Talc.Chunks.Shrink.{Shrunk, shrink-Shrunk}
use talc.Talc.Chunks.Grow.{Grown}
use talc.Talc.Chunks.Grow.InPlace.{grow_in_place-Grown}
use talc.Talc.Chunks.Fill.{filled-HoldsChunks}
use talc.Talc.Use.{Allocation, InHeaps, resized}
use talc.Talc.Use.Invariant.{
  IsLive, Distinct, Inv, live_bounds, live_apart, kept-IsLive, others-Distinct,
}
use talc.Talc.Use.Release.{used_or_gap}

-- The chunks from `a` to `hi`, which are one allocated chunk and perhaps a gap above it, replaced.
module _ (cs : Chunks) (w : IsTiling cs) (a n ptr len : ℕ) (e : cs a ≡ used_chunk n ptr len)
    (hi : ℕ) (hi_eq : (hi ≡ a + n) ⊎ (hi ≡ a + n + gaps_of cs (a + n))) where
  size_eq : size_of (cs a) ≡ n
  size_eq = ap size_of e

  gap_or_none :
      (gaps_of cs (a + n) ≡ 0)
      ⊎ ((is_gap (cs (a + n)) ≡ true) × (gaps_of cs (a + n) ≡ size_of (cs (a + n))))
  gap_or_none = elim (eq-or-ne (gaps_of cs (a + n)) 0) [
    | inl z ↦ inl z
    | inr ne ↦
        let gap = gap_size-ne_zero (a + n) (cs (a + n)) (w.shape (a + n)) ne in
        inr (gap, gap_size-eq (cs (a + n)) gap)
  ]

  pub outside_chunk : (b : ℕ) → is_used (cs b) ≡ true → b ≢ a → (b < a) ⊎ (hi ≤ b)
  outside_chunk b used ne =
      let chunk = is_chunk_of_used (cs b) used in
      elim (le-or-lt a b) [
        | inr lt ↦ inl lt
        | inl le ↦
            let above = w.apart a b (omega arith) chunk in
            elim gap_or_none [
              | inl z ↦ inr (omega (arith, z, hi_eq, above, size_eq))
              | inr (gap, size) ↦ elim (eq-or-ne b (a + n)) [
                | inl at ↦
                    absurd
                      (used_or_gap (cs b) used (subst (λ x. is_gap (cs x) ≡ true) (sym at) gap))
                | inr other ↦ inr (
                    omega (
                      arith,
                      size,
                      hi_eq,
                      above,
                      size_eq,
                      w.apart (a + n) b (omega (arith, above, size_eq, other)) chunk,
                    ))
              ]
            ]
      ]

  resized_covered :
      (P : ℕ → Type 0) (parts : List Piece)
      → ((b x : ℕ) → b ≤ x → x < b + size_of (cs b) → P x)
      → ((b x : ℕ) → b < hi → x < b + size_of (tile a parts b) → x < hi)
      → (b x : ℕ) → b ≤ x
      → x < b + size_of (splice a hi parts cs b)
      → P x
  resized_covered P parts old within b x le lt = elim (inside-or-outside a hi b) [
    | inr out ↦ old b x le (omega (arith, lt, ap size_of (splice_outside a hi parts cs b out)))
    | inl (from, below) ↦
        let top =
          within b x below
            (omega (arith, lt, ap size_of (splice_inside a hi parts cs b from below))) in
        elim (le-or-lt (a + n) x) [
          | inr lower ↦ old a x (omega arith) (omega (arith, size_eq))
          | inl above ↦ old (a + n) x above (omega (arith, gap_or_none, hi_eq, top))
        ]
  ]

same-Distinct :
    (before : List Allocation) (a b : Allocation) (after : List Allocation)
    → b.ptr ≡ a.ptr
    → Distinct (before ++ a ∷ after)
    → Distinct (before ++ b ∷ after)
same-Distinct [] a b after e d = (All-mono after (λ c ne z. ne (sym e ∙ z)) d.0, d.1)
same-Distinct (c ∷ before) a b after e d =
    let parts = All-append (λ x. c.ptr ≢ x.ptr) before (a ∷ after) d.0 in
    (
      append-All (λ x. c.ptr ≢ x.ptr) before (b ∷ after) parts.0
          ((λ z. parts.1.0 (z ∙ e)), parts.1.1),
      same-Distinct before a b after e d.1,
    )

module _ (s : Talc) (heaps : List Span) (before : List Allocation) (a : Allocation)
    (after : List Allocation) (i : Inv s heaps (before ++ a ∷ after)) (new_size : ℕ) where
  the_live : All (IsLive i.chunks) before × All (IsLive i.chunks) (a ∷ after)
  the_live = All-append (IsLive i.chunks) before (a ∷ after) i.lives

  abbrev l : IsLive i.chunks a
  l = the_live.1.0

  module _ (t' : Talc) (bins_eq : t'.bins ≡ s.bins) (hi : ℕ)
      (hi_eq : (hi ≡ l.base + l.size) ⊎ (hi ≡ l.base + l.size + gaps_of i.chunks (l.base + l.size)))
      (size : ℕ) (rest : List Piece)
      (within : (b x : ℕ)
        → b < hi
        → x < b + size_of (tile l.base (used_chunk size a.ptr new_size ∷ rest) b)
        → x < hi)
      (held : HoldsChunks t'
        (splice l.base hi (used_chunk size a.ptr new_size ∷ rest) i.chunks)) where
    abbrev new : Chunks
    new = splice l.base hi (used_chunk size a.ptr new_size ∷ rest) i.chunks

    its_bounds :
        (l.base ≤ a.ptr)
        × (a.ptr + a.layout.size + 8 ≤ l.base + l.size)
        × (size_of (i.chunks l.base) ≡ l.size)
    its_bounds = live_bounds i.chunks i.holds.tiling a l

    others_stay :
        (rest' : List Allocation)
        → All (λ (b : Allocation). a.ptr ≢ b.ptr) rest'
        → All (IsLive i.chunks) rest'
        → All (IsLive new) rest'
    others_stay rest' apart lives =
        kept-IsLive i.chunks new rest'
          (All-mono rest'
            (λ b ne k.
              splice_outside l.base hi (used_chunk size a.ptr new_size ∷ rest) i.chunks k.base (
                outside_chunk i.chunks i.holds.tiling l.base l.size a.ptr a.layout.size l.chunk hi
                  hi_eq k.base (ap is_used k.chunk)
                  (λ e. omega (
                    arith,
                    e,
                    live_apart i.chunks i.holds.tiling a b l k ne,
                    its_bounds,
                    live_bounds i.chunks i.holds.tiling b k,
                  ))))
            apart)
          lives

    resized-Inv : Inv t' heaps (before ++ resized a new_size ∷ after)
    resized-Inv =
        let apart = (others-Distinct before a after i.distinct).0 in
        let sides = All-append (λ (b : Allocation). a.ptr ≢ b.ptr) before after apart in
        record {
          chunks = new;
          holds = held;
          placed = λ z. i.placed (sym bins_eq ∙ z);
          bins_in = λ x le lt. i.bins_in x (omega (arith, bins_eq)) (omega (arith, bins_eq));
          covered =
              resized_covered i.chunks i.holds.tiling l.base l.size a.ptr a.layout.size l.chunk hi
                hi_eq (InHeaps heaps) (used_chunk size a.ptr new_size ∷ rest) i.covered within;
          lives =
              append-All (IsLive new) before (resized a new_size ∷ after)
                (others_stay before sides.0 the_live.0)
                (
                  record {
                    base = l.base;
                    size = size;
                    chunk =
                        splice_inside l.base hi (used_chunk size a.ptr new_size ∷ rest) i.chunks
                          l.base (omega arith) (omega (arith, hi_eq, its_bounds))
                        ∙ tile-first l.base (used_chunk size a.ptr new_size) rest l.base refl;
                    aligned = l.aligned;
                  },
                  others_stay after sides.1 the_live.1.1,
                );
          distinct = same-Distinct before a (resized a new_size) after refl i.distinct;
        }

  pub shrink-Inv :
      new_size ≤ a.layout.size
      → Inv (shrink a.ptr a.layout new_size s) heaps (before ++ resized a new_size ∷ after)
  shrink-Inv le =
      by_case (shrink-Shrunk s i.chunks i.holds l.base l.size a.ptr a.layout l.chunk new_size le)
    where
      by_case :
          Shrunk s i.chunks l.base l.size a.ptr new_size (shrink a.ptr a.layout new_size s)
          → Inv (shrink a.ptr a.layout new_size s) heaps (before ++ resized a new_size ∷ after)
      by_case (bins, kept, inl (size, bound, least, held)) =
          let hi = l.base + l.size + gaps_of i.chunks (l.base + l.size) in
          resized-Inv (shrink a.ptr a.layout new_size s) bins hi (inr refl) size
            (free_chunk (hi - (l.base + size)) ∷ []) (λ b x lt in_it. ground (arith, bound)) held
      by_case (bins, kept, inr (small, held)) =
          resized-Inv (shrink a.ptr a.layout new_size s) bins (l.base + l.size) (inl refl) l.size []
            (λ b x lt in_it. ground arith) held

  grown-Inv :
      (r : Outcome Talc ℕ) (t : Talc)
      → Grown s i.chunks l.base l.size a.ptr new_size r
      → r ≡ ok a.ptr t
      → Inv t heaps (before ++ resized a new_size ∷ after)
  grown-Inv r t g e = by_case (subst (Grown s i.chunks l.base l.size a.ptr new_size) e g)
    where
      by_case :
          Grown s i.chunks l.base l.size a.ptr new_size (ok a.ptr t)
          → Inv t heaps (before ++ resized a new_size ∷ after)
      by_case (same, bins, kept, inl (room, held)) =
          resized-Inv t bins (l.base + l.size) (inl refl) l.size [] (λ b x lt in_it. ground arith)
            held
      by_case (same, bins, kept, inr (size, true, less, bound, held)) =
          let hi = l.base + l.size + gaps_of i.chunks (l.base + l.size) in
          resized-Inv t bins hi (inr refl) size (free_chunk (hi - (l.base + size)) ∷ [])
            (λ b x lt in_it. ground (arith, bound)) held
      by_case (same, bins, kept, inr (size, false, less, bound, held)) =
          resized-Inv t bins (l.base + l.size + gaps_of i.chunks (l.base + l.size)) (inr refl) size
            [] (λ b x lt in_it. ground (arith, bound)) held

  pub grow_in_place-Inv :
      (t : Talc)
      → a.ptr + new_size + 7 < 2 ^ 64
      → grow_in_place a.ptr a.layout new_size s ≡ ok a.ptr t
      → Inv t heaps (before ++ resized a new_size ∷ after)
  grow_in_place-Inv t small e =
      grown-Inv (grow_in_place a.ptr a.layout new_size s) t
        (grow_in_place-Grown s i.chunks i.holds l.base l.size a.ptr a.layout l.chunk new_size small)
        e

-- What the client writes to its allocation changes none.
pub fill-Inv :
    (s : Talc) (heaps : List Span) (before : List Allocation) (a : Allocation)
    (after : List Allocation) (m : Mem)
    → Inv s heaps (before ++ a ∷ after)
    → ((x : ℕ) → (x < a.ptr) ⊎ (a.ptr + a.layout.size ≤ x) → m x ≡ s.mem x)
    → Inv (record s { mem = m }) heaps (before ++ a ∷ after)
fill-Inv s heaps before a after m i same =
    let l = (All-append (IsLive i.chunks) before (a ∷ after) i.lives).1.0 in
    record {
      chunks = i.chunks;
      holds =
          filled-HoldsChunks s i.chunks i.holds l.base l.size a.ptr a.layout.size l.chunk m same;
      placed = i.placed;
      bins_in = i.bins_in;
      covered = i.covered;
      lives = i.lives;
      distinct = i.distinct;
    }
