-- ===== src/Talc/Use/Allocate.antt =====
-- The calls of `Talc::malloc` of talc/src/talc.rs keep the client's invariant.
use native.Mathlib.Nat.{pow-suc}
use talc.Base.{
  ℕ, zero, suc, ◌%◌, ◌+◌, ◌-◌, ◌^◌, ◌≤◌, ◌<◌, ◌≡◌, ◌≢◌, ◌⊎◌, inl, inr, Bool, true, false, List, ◌∷◌,
  arith, ap, sym, subst, ◌∙◌, le-or-lt, eq-or-ne,
}
use talc.Base.Lists.{All, All-mono}
use talc.Span.{Span}
use talc.OomHandler.{err_on_oom}
use talc.Talc.Layout.{Layout}
use talc.Talc.State.{Talc}
use talc.Talc.Outcome.{ok}
use talc.Talc.Free.{free}
use talc.Talc.Loop.{malloc}
use talc.Talc.Malloc.Fit.{IsLayout}
use talc.Talc.Chunks.{
  Piece, absent, free_chunk, used_chunk, Chunks, size_of, is_chunk, is_gap, is_used, Shape,
  IsTiling,
}
use talc.Talc.Chunks.Tile.{tile-first, tile-later, tile}
use talc.Talc.Chunks.Splice.{splice, splice_inside, splice_outside, inside-or-outside}
use talc.Talc.Chunks.Retag.{inside_absent}
use talc.Talc.Chunks.Allocate.{first_part, later_parts, top_parts}
use talc.Talc.Chunks.Search.{IsMalloced, Malloced, malloc-Malloced}
use talc.Talc.Use.{Allocation, InHeaps, on_err}
use talc.Talc.Use.Release.{used_or_gap}
use talc.Talc.Use.Invariant.{IsLive, Inv, live_bounds, kept-IsLive}

-- The parts of the gap that an allocation is made in.
module _ (g acme base size ptr len : ℕ) where
  abbrev used : Piece
  used = used_chunk size ptr len

  abbrev parts_of : Bool → Bool → List Piece
  parts_of below above =
      first_part below g base used ∷ later_parts below used (top_parts above (base + size) acme)

  pub part_at_base :
      (below above : Bool)
      → ((below ≡ true) × (g + 24 ≤ base)) ⊎ ((below ≡ false) × (base ≡ g))
      → tile g (parts_of below above) base ≡ used
  part_at_base true above (inl (e, le)) =
      tile-later g (free_chunk (base - g)) (used ∷ top_parts above (base + size) acme) base
        (omega arith)
      ∙ tile-first (g + (base - g)) used (top_parts above (base + size) acme) base (omega arith)
  part_at_base true above (inr (e, at)) = absurd (ground arith)
  part_at_base false above (inl (e, le)) = absurd (ground arith)
  part_at_base false above (inr (e, at)) =
      tile-first g used (top_parts above (base + size) acme) base at

  pub parts_within :
      (below above : Bool)
      → ((below ≡ true) × (g + 24 ≤ base)) ⊎ ((below ≡ false) × (base ≡ g))
      → ((above ≡ true) × (base + size + 24 ≤ acme)) ⊎ ((above ≡ false) × (base + size ≡ acme))
      → (b x : ℕ) → b < acme
      → x < b + size_of (tile g (parts_of below above) b)
      → x < acme
  parts_within true true from to b x lt in_it = ground arith
  parts_within true false from to b x lt in_it = ground arith
  parts_within false true from to b x lt in_it = ground arith
  parts_within false false from to b x lt in_it = ground arith

module _ (s t : Talc) (heaps : List Span) (live : List Allocation) (i : Inv s heaps live)
    (layout : Layout) (ptr : ℕ) (m : IsMalloced i.chunks layout s ptr t) where
  abbrev g : ℕ
  g = m.gap_base

  abbrev acme : ℕ
  acme = m.gap_base + m.gap_length

  abbrev parts : List Piece
  parts = parts_of g acme m.parts.base m.parts.size ptr layout.size m.parts.below m.parts.above

  abbrev new : Chunks
  new = splice g acme parts i.chunks

  size_here : size_of (i.chunks g) ≡ m.gap_length
  size_here = ap size_of m.was_free

  -- A chunk that was allocated is outside the gap.
  outside_gap : (b : ℕ) → is_used (i.chunks b) ≡ true → (b < g) ⊎ (acme ≤ b)
  outside_gap b used = elim (inside-or-outside g acme b) [
    | inr out ↦ out
    | inl (from, lt) ↦ absurd (elim (eq-or-ne b g) [
      | inl at ↦ used_or_gap (i.chunks b) used (ap is_gap (ap i.chunks at ∙ m.was_free))
      | inr ne ↦
          used_or_none (i.chunks b) used
            (inside_absent i.chunks i.holds.tiling g b (omega arith) (omega (arith, size_here)))
    ])
  ]
    where
      used_or_none : (p : Piece) → is_used p ≡ true → p ≡ absent → ⊥
      used_or_none p u e = false-true (sym (ap is_used e) ∙ u)
        where
          false-true : false ≡ true → ⊥
          false-true z = cc

  pub apart_gap :
      (b : ℕ) → is_used (i.chunks b) ≡ true → (b + size_of (i.chunks b) ≤ g) ⊎ (acme ≤ b)
  apart_gap b used = elim (le-or-lt g b) [
    | inl le ↦ inr (omega (arith, outside_gap b used))
    | inr lt ↦ inl (i.holds.tiling.apart b g lt (ap is_chunk m.was_free))
  ]

  new_covered : (b x : ℕ) → b ≤ x → x < b + size_of (new b) → InHeaps heaps x
  new_covered b x le lt = elim (inside-or-outside g acme b) [
    | inr out ↦
        i.covered b x le
          (omega (arith, lt, ap size_of (splice_outside g acme parts i.chunks b out)))
    | inl (from, below) ↦
        let size = ap size_of (splice_inside g acme parts i.chunks b from below) in
        let within =
          parts_within g acme m.parts.base m.parts.size ptr layout.size m.parts.below m.parts.above
            m.parts.from m.parts.to b x below (omega (arith, lt, size)) in
        i.covered g x (omega arith) (omega (arith, within, size_here))
  ]

  base_in : (g ≤ m.parts.base) × (m.parts.base < acme)
  base_in = omega (arith, m.parts.from, m.parts.room, m.place)

  new_live : IsLive new (record { ptr = ptr; layout = layout })
  new_live = record {
    base = m.parts.base;
    size = m.parts.size;
    chunk =
        splice_inside g acme parts i.chunks m.parts.base base_in.0 base_in.1
        ∙ part_at_base g acme m.parts.base m.parts.size ptr layout.size m.parts.below m.parts.above
            m.parts.from;
    aligned = m.place.1;
  }

  new_distinct : All (λ (b : Allocation). ptr ≢ b.ptr) live
  new_distinct =
      All-mono live
        (λ b k. omega (
          arith,
          m.place,
          apart_gap k.base (ap is_used k.chunk),
          live_bounds i.chunks i.holds.tiling b k,
        ))
        i.lives

  pub malloced-Inv : Inv t heaps (record { ptr = ptr; layout = layout } ∷ live)
  malloced-Inv = record {
    chunks = new;
    holds = m.parts.holds;
    placed = λ e. i.placed (sym m.parts.bins_eq ∙ e);
    bins_in =
        λ x le lt. i.bins_in x (omega (arith, m.parts.bins_eq)) (omega (arith, m.parts.bins_eq));
    covered = new_covered;
    lives = (
      new_live,
      kept-IsLive i.chunks new live
          (All-mono live
            (λ b h k.
              splice_outside g acme parts i.chunks k.base (outside_gap k.base (ap is_used k.chunk)))
            i.lives)
          i.lives,
    );
    distinct = (new_distinct, i.distinct);
  }

-- A power of two that can be added to a word's last address can be added to its end.
pub room_at_end :
    (k p : ℕ) → p % 8 ≡ 0 → 0 < p → p < 2 ^ 64 → p - 1 + 2 ^ k ≤ 2 ^ 64 → p + 2 ^ k ≤ 2 ^ 64
room_at_end zero p whole pos fits le = omega arith
room_at_end (suc k) p whole pos fits le = omega (arith, pow-suc 2 k)

pub gap_room :
    (cs : Chunks) (w : IsTiling cs) (heaps : List Span)
    (covered : (b x : ℕ) → b ≤ x → x < b + size_of (cs b) → InHeaps heaps x) (layout : Layout)
    (k : ℕ)
    → IsLayout layout k
    → ((x : ℕ) → InHeaps heaps x → x + layout.align ≤ 2 ^ 64)
    → (a n : ℕ) → cs a ≡ free_chunk n
    → a + n + layout.align ≤ 2 ^ 64
gap_room cs w heaps covered layout k l room a n free =
    let s = subst (Shape a) free (w.shape a) in
    let last =
      room (a + n - 1)
        (covered a (a + n - 1) (omega (arith, s)) (omega (arith, s, ap size_of free))) in
    rw l.power (
      room_at_end k (a + n) (omega (arith, s)) (omega (arith, s)) (omega (arith, s))
        (subst (λ (x : ℕ). a + n - 1 + x ≤ 2 ^ 64) l.power last))

-- What an allocation that a client makes comes to.
pub malloced :
    (s t : Talc) (heaps : List Span) (live : List Allocation) (layout : Layout)
    (k rounds nodes ptr : ℕ) (i : Inv s heaps live)
    → IsLayout layout k
    → ((x : ℕ) → InHeaps heaps x → x + layout.align ≤ 2 ^ 64)
    → 2 ^ 60 ≤ nodes
    → malloc err_on_oom (suc rounds) nodes layout (on_err s) ≡ ok ptr (on_err t)
    → IsMalloced i.chunks layout s ptr t
malloced s t heaps live layout k rounds nodes ptr i l room enough e =
    subst (Malloced i.chunks layout (on_err s)) e (
      malloc-Malloced (on_err s) i.chunks i.holds layout k l
        (gap_room i.chunks i.holds.tiling heaps i.covered layout k l room) rounds nodes enough)

pub allocate-Inv :
    (s t : Talc) (heaps : List Span) (live : List Allocation) (layout : Layout)
    (k rounds nodes ptr : ℕ)
    → Inv s heaps live
    → IsLayout layout k
    → ((x : ℕ) → InHeaps heaps x → x + layout.align ≤ 2 ^ 64)
    → 2 ^ 60 ≤ nodes
    → malloc err_on_oom (suc rounds) nodes layout (on_err s) ≡ ok ptr (on_err t)
    → Inv t heaps (record { ptr = ptr; layout = layout } ∷ live)
allocate-Inv s t heaps live layout k rounds nodes ptr i l room enough e =
    malloced-Inv s t heaps live i layout ptr
      (malloced s t heaps live layout k rounds nodes ptr i l room enough e)
