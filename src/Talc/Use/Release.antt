-- ===== src/Talc/Use/Release.antt =====
-- The calls of `Talc::free` of talc/src/talc.rs keep the client's invariant.
use talc.Base.{
  ℕ, ◌+◌, ◌-◌, ◌≤◌, ◌<◌, ◌≡◌, ◌≢◌, ◌⊎◌, inl, inr, true, List, [], ◌∷◌, ◌++◌, arith, ap, sym, subst,
  ◌∙◌, le-or-lt, eq-or-ne,
}
use talc.Base.Lists.{All-mono, All-append, append-All}
use talc.Span.{Span}
use talc.Talc.State.{Talc}
use talc.Talc.Free.{free}
use talc.Talc.Chunks.{
  Piece, absent, free_chunk, used_chunk, fence, Chunks, size_of, is_gap, is_used, IsTiling,
  gap_size-eq, gap_size-ne_zero, is_chunk_of_used,
}
use talc.Talc.Chunks.Tile.{tile-first, tile-later}
use talc.Talc.Chunks.Splice.{splice, splice_inside, splice_outside, inside-or-outside}
use talc.Talc.Chunks.State.{gaps_of}
use talc.Talc.Chunks.Release.{IsReleased, free-IsReleased}
use talc.Talc.Use.{Allocation, InHeaps}
use talc.Talc.Use.Invariant.{IsLive, Inv, live_bounds, live_apart, kept-IsLive, others-Distinct}

pub used_or_gap : (p : Piece) → is_used p ≡ true → is_gap p ≡ true → ⊥
used_or_gap absent e g = absurd (ground arith)
used_or_gap (free_chunk n) e g = absurd (ground arith)
used_or_gap (used_chunk n ptr len) e g = absurd (ground arith)
used_or_gap (fence n base) e g = absurd (ground arith)

-- An allocated chunk other than the one that is released is outside what becomes a gap.
module _ (t : Talc) (cs : Chunks) (w : IsTiling cs) (a n ptr len : ℕ)
    (e : cs a ≡ used_chunk n ptr len) (t' : Talc) (r : IsReleased t cs a n t') where
  size_eq : size_of (cs a) ≡ n
  size_eq = ap size_of e

  gap_or_none :
      (x : ℕ) → (gaps_of cs x ≡ 0) ⊎ ((is_gap (cs x) ≡ true) × (gaps_of cs x ≡ size_of (cs x)))
  gap_or_none x = elim (eq-or-ne (gaps_of cs x) 0) [
    | inl z ↦ inl z
    | inr ne ↦
        let gap = gap_size-ne_zero x (cs x) (w.shape x) ne in inr (gap, gap_size-eq (cs x) gap)
  ]

  pub outside_released : (b : ℕ) → is_used (cs b) ≡ true → b ≢ a → (b < r.lo) ⊎ (r.hi ≤ b)
  outside_released b used ne =
      let chunk = is_chunk_of_used (cs b) used in
      elim (le-or-lt a b) [
        | inl le ↦
            let above = w.apart a b (omega arith) chunk in
            elim (gap_or_none (a + n)) [
              | inl z ↦ inr (omega (arith, z, r.to, above, size_eq))
              | inr (gap, size) ↦ elim (eq-or-ne b (a + n)) [
                | inl at ↦
                    absurd
                      (used_or_gap (cs b) used (subst (λ x. is_gap (cs x) ≡ true) (sym at) gap))
                | inr other ↦ inr (
                    omega (
                      arith,
                      size,
                      r.to,
                      w.apart (a + n) b (omega (arith, above, size_eq, other)) chunk,
                    ))
              ]
            ]
        | inr lt ↦ elim (gap_or_none r.lo) [
          | inl z ↦ inl (omega (arith, z, r.from))
          | inr (gap, size) ↦ elim (eq-or-ne b r.lo) [
            | inl at ↦
                absurd (used_or_gap (cs b) used (subst (λ x. is_gap (cs x) ≡ true) (sym at) gap))
            | inr other ↦ elim (le-or-lt b r.lo) [
              | inl le ↦ inl (omega arith)
              | inr later ↦ absurd (omega (arith, size, r.from, w.apart r.lo b later chunk))
            ]
          ]
        ]
      ]

  -- What is released was in chunks before.
  pub released_covered :
      (P : ℕ → Type 0)
      → ((b x : ℕ) → b ≤ x → x < b + size_of (cs b) → P x)
      → (b x : ℕ) → b ≤ x
      → x < b + size_of (splice r.lo r.hi (free_chunk (r.hi - r.lo) ∷ []) cs b)
      → P x
  released_covered P old b x le lt = elim (inside-or-outside r.lo r.hi b) [
    | inr out ↦ old b x le (
        omega (
          arith,
          lt,
          ap size_of (splice_outside r.lo r.hi (free_chunk (r.hi - r.lo) ∷ []) cs b out),
        ))
    | inl (from, below) ↦
        let same = splice_inside r.lo r.hi (free_chunk (r.hi - r.lo) ∷ []) cs b from below in
        elim (eq-or-ne b r.lo) [
          | inr ne ↦ absurd (
              omega
                (arith, lt, ap size_of (same ∙ tile-later r.lo (free_chunk (r.hi - r.lo)) [] b ne)))
          | inl at ↦
              let size = ap size_of (same ∙ tile-first r.lo (free_chunk (r.hi - r.lo)) [] b at) in
              byte x (omega arith) (omega (arith, lt, size, at, below))
        ]
  ]
    where
      byte : (x : ℕ) → r.lo ≤ x → x < r.hi → P x
      byte x from below = elim (le-or-lt a x) [
        | inr lt ↦ old r.lo x from (omega (arith, gap_or_none r.lo, r.from))
        | inl le ↦ elim (le-or-lt (a + n) x) [
          | inr lt ↦ old a x le (omega (arith, size_eq))
          | inl above ↦ old (a + n) x above (omega (arith, gap_or_none (a + n), r.to))
        ]
      ]

pub release-Inv :
    (s : Talc) (heaps : List Span) (before : List Allocation) (a : Allocation)
    (after : List Allocation)
    → Inv s heaps (before ++ a ∷ after)
    → Inv (free a.ptr a.layout s) heaps (before ++ after)
release-Inv s heaps before a after i =
    let parts = All-append (IsLive i.chunks) before (a ∷ after) i.lives in
    let l = parts.1.0 in
    let t' = free a.ptr a.layout s in
    let w = i.holds.tiling in
    let r = free-IsReleased s i.chunks i.holds l.base l.size a.ptr a.layout l.chunk in
    let rest = append-All (IsLive i.chunks) before after parts.0 parts.1.1 in
    let distinct = others-Distinct before a after i.distinct in
    record {
      chunks = splice r.lo r.hi (free_chunk (r.hi - r.lo) ∷ []) i.chunks;
      holds = r.holds;
      placed = λ e. i.placed (sym r.bins_eq ∙ e);
      bins_in = λ x le lt. i.bins_in x (omega (arith, r.bins_eq)) (omega (arith, r.bins_eq));
      covered =
          released_covered s i.chunks w l.base l.size a.ptr a.layout.size l.chunk t' r
            (InHeaps heaps) i.covered;
      lives =
          kept-IsLive i.chunks (splice r.lo r.hi (free_chunk (r.hi - r.lo) ∷ []) i.chunks)
            (before ++ after)
            (All-mono (before ++ after)
              (λ b ne k. splice_outside r.lo r.hi (free_chunk (r.hi - r.lo) ∷ []) i.chunks k.base (
                outside_released s i.chunks w l.base l.size a.ptr a.layout.size l.chunk t' r k.base
                  (ap is_used k.chunk)
                  (λ e. omega (
                    arith,
                    e,
                    live_apart i.chunks w a b l k ne,
                    live_bounds i.chunks w a l,
                    live_bounds i.chunks w b k,
                  ))))
              distinct.0)
            rest;
      distinct = distinct.1;
    }
