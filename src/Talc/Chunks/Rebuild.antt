-- ===== src/Talc/Chunks/Rebuild.antt =====
-- How a state comes to hold the chunks with those of an interval replaced.
use talc.Base.{
  ℕ, ◌+◌, ◌-◌, ◌≤◌, ◌<◌, ◌≡◌, refl, ◌≢◌, ◌⊎◌, inl, inr, Bool, true, false, List, [], ◌∷◌, arith, ap,
  sym, subst, ◌∙◌, eq-or-ne, Bool-cases,
}
use talc.Mem.{Mem}
use talc.Talc.State.{Talc}
use talc.Talc.FreeMap.{IsFreeMap, IsOff}
use talc.Talc.Chunks.{Piece, Chunks, size_of, is_chunk, is_gap, size_pos, absent_of, Shape-whole}
use talc.Talc.Chunks.Tile.{tile, end_of, Pieces, tile-first, tile-later, le-end_of}
use talc.Talc.Chunks.Splice.{
  splice, splice_inside, splice_outside, inside-or-outside, IsSplice, splice-IsTiling,
}
use talc.Talc.Chunks.State.{Tagged, OffBins, gaps_of, HoldsChunks, Tagged-frame}

abbrev pub head_gap : Bool → List Piece → Bool
head_gap next [] = next
head_gap next (p ∷ ps) = is_gap p

-- The tags of a list of pieces; `next` says whether a gap follows the last.
abbrev pub Tags : Mem → Bool → ℕ → List Piece → Type 0
Tags m next a [] = Unit
Tags m next a (p ∷ ps) = Tagged m (head_gap next ps) a p × Tags m next (a + size_of p) ps

abbrev pub Offs : ℕ → ℕ → List Piece → Type 0
Offs bins a [] = Unit
Offs bins a (p ∷ ps) = OffBins bins a p × Offs bins (a + size_of p) ps

tile-OffBins :
    (bins a : ℕ) (ps : List Piece) (x : ℕ) → Offs bins a ps → OffBins bins x (tile a ps x)
tile-OffBins bins a [] x h = tt
tile-OffBins bins a (p ∷ ps) x h = elim (eq-or-ne x a) [
  | inl e ↦ rw (tile-first a p ps x e) (subst (λ y. OffBins bins y p) (sym e) h.0)
  | inr ne ↦ rw (tile-later a p ps x ne) (tile-OffBins bins (a + size_of p) ps x h.1)
]

module _ (m : Mem) (new : Chunks) (next : Bool) where
  head_eq :
      (a : ℕ) (ps : List Piece)
      → ((y : ℕ) → a ≤ y → y < end_of a ps → new y ≡ tile a ps y)
      → Pieces a ps
      → is_gap (new (end_of a ps)) ≡ next
      → is_gap (new a) ≡ head_gap next ps
  head_eq a [] agree h e = e
  head_eq a (p ∷ ps) agree h e = ap is_gap (
      agree a (omega arith) (omega (arith, size_pos a p h.0 h.1, le-end_of (a + size_of p) ps))
      ∙ tile-first a p ps a refl)

  tile-Tagged :
      (a : ℕ) (ps : List Piece) (x : ℕ)
      → ((y : ℕ) → a ≤ y → y < end_of a ps → new y ≡ tile a ps y)
      → Pieces a ps
      → is_gap (new (end_of a ps)) ≡ next
      → Tags m next a ps
      → Tagged m (is_gap (new (x + size_of (tile a ps x)))) x (tile a ps x)
  tile-Tagged a [] x agree h e tags = tt
  tile-Tagged a (p ∷ ps) x agree h e tags =
      let rest : (y : ℕ)
          → a + size_of p ≤ y
          → y < end_of (a + size_of p) ps
          → new y ≡ tile (a + size_of p) ps y =
        λ y le lt.
          agree y (omega arith) lt ∙ tile-later a p ps y (omega (arith, size_pos a p h.0 h.1)) in
      elim (eq-or-ne x a) [
        | inl eq ↦ rw (tile-first a p ps x eq) (
            subst (λ y. Tagged m (is_gap (new (y + size_of p))) y p) (sym eq)
              (subst (λ b. Tagged m b a p) (sym (head_eq (a + size_of p) ps rest h.2 e)) tags.0))
        | inr ne ↦ rw (tile-later a p ps x ne) (tile-Tagged (a + size_of p) ps x rest h.2 e tags.1)
      ]

module _ (t : Talc) (cs : Chunks) (h : HoldsChunks t cs) (lo hi : ℕ) (before : Bool) (p : Piece)
    (ps : List Piece) (s : IsSplice cs lo hi before p ps) (t' : Talc)
    (free' : IsFreeMap t' (gaps_of (splice lo hi (p ∷ ps) cs))) (bins' : t'.bins ≡ t.bins)
    (kept : (x : ℕ)
      → (x < lo) ⊎ (hi ≤ x)
      → x ≢ lo - 8
      → IsOff t.bins (gaps_of cs) x
      → t'.mem x ≡ t.mem x)
    (retag : (c : ℕ) → c < lo → c + size_of (cs c) ≡ lo → Tagged t'.mem (is_gap p) c (cs c))
    (next : Bool) (next_eq : is_gap (splice lo hi (p ∷ ps) cs (end_of lo (p ∷ ps))) ≡ next)
    (tags' : Tags t'.mem next lo (p ∷ ps)) (offs' : Offs t.bins lo (p ∷ ps)) where
  abbrev new : Chunks
  new = splice lo hi (p ∷ ps) cs

  agree : (y : ℕ) → lo ≤ y → y < end_of lo (p ∷ ps) → new y ≡ tile lo (p ∷ ps) y
  agree y le lt = splice_inside lo hi (p ∷ ps) cs y le (omega (arith, s.fits))

  first_eq : new lo ≡ p
  first_eq =
      agree lo (omega arith)
        (omega (arith, size_pos lo p s.pieces.0 s.pieces.1, le-end_of (lo + size_of p) ps))
      ∙ tile-first lo p ps lo refl

  -- A chunk outside, by where it ends.
  outside_tag :
      (a : ℕ) → (a < lo) ⊎ (hi ≤ a) → Tagged t'.mem (is_gap (new (a + size_of (cs a)))) a (cs a)
  outside_tag a (inl lt) = elim (eq-or-ne (a + size_of (cs a)) lo) [
    | inl e ↦
        subst (λ b. Tagged t'.mem b a (cs a))
          (sym (ap (λ y. is_gap (new y)) e ∙ ap is_gap first_eq)) (retag a lt e)
    | inr ne ↦
        let le = s.cut_low a lt in
        subst (λ q. Tagged t'.mem (is_gap q) a (cs a))
          (sym (splice_outside lo hi (p ∷ ps) cs (a + size_of (cs a)) (inl (omega arith))))
          (Tagged-frame t.bins cs h.tiling t.mem t'.mem a (is_gap (cs (a + size_of (cs a))))
            (h.off a)
            (λ x from to off.
              kept x (inl (omega arith)) (off_seam ne x from to (Bool-cases (is_chunk (cs a)))) off)
            (h.tags a))
  ]
    where
      off_seam :
          a + size_of (cs a) ≢ lo
          → (x : ℕ) → a ≤ x
          → x < a + size_of (cs a)
          → (is_chunk (cs a) ≡ true) ⊎ (is_chunk (cs a) ≡ false)
          → x ≢ lo - 8
      off_seam ne x from to (inl e) = omega (
        arith,
        Shape-whole a (cs a) e (h.tiling.shape a),
        Shape-whole lo p s.pieces.0 s.pieces.1,
        s.cut_low a lt,
      )
      off_seam ne x from to (inr e) = absurd (omega (arith, ap size_of (absent_of (cs a) e)))
  outside_tag a (inr le) =
      subst (λ q. Tagged t'.mem (is_gap q) a (cs a))
        (sym (splice_outside lo hi (p ∷ ps) cs (a + size_of (cs a)) (inr (omega arith))))
        (Tagged-frame t.bins cs h.tiling t.mem t'.mem a (is_gap (cs (a + size_of (cs a)))) (h.off a)
          (λ x from to off.
            kept x (inr (omega arith))
              (omega (arith, s.fits, le-end_of lo (p ∷ ps), Shape-whole lo p s.pieces.0 s.pieces.1))
              off)
          (h.tags a))

  pub rebuild : HoldsChunks t' new
  rebuild = record {
    tiling = splice-IsTiling cs h.tiling lo hi before p ps s;
    free = free';
    tags = λ a. elim (inside-or-outside lo hi a) [
      | inl (le, lt) ↦
          subst (λ q. Tagged t'.mem (is_gap (new (a + size_of q))) a q)
            (sym (splice_inside lo hi (p ∷ ps) cs a le lt))
            (tile-Tagged t'.mem new next lo (p ∷ ps) a agree s.pieces next_eq tags')
      | inr out ↦
          subst (λ q. Tagged t'.mem (is_gap (new (a + size_of q))) a q)
            (sym (splice_outside lo hi (p ∷ ps) cs a out)) (outside_tag a out)
    ];
    off = λ a. rw bins' (elim (inside-or-outside lo hi a) [
      | inl (le, lt) ↦
          subst (OffBins t.bins a) (sym (splice_inside lo hi (p ∷ ps) cs a le lt))
            (tile-OffBins t.bins lo (p ∷ ps) a offs')
      | inr out ↦ subst (OffBins t.bins a) (sym (splice_outside lo hi (p ∷ ps) cs a out)) (h.off a)
    ]);
  }
