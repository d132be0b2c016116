-- ===== src/Talc/Chunks/Splice.antt =====
-- Chunks with those of an interval replaced.
use talc.Base.{
  ℕ, ◌+◌, ◌≤◌, ◌<◌, ◌≡◌, refl, ◌⊎◌, inl, inr, Bool, true, ◌&&◌, List, ◌∷◌, arith, leb, ltb,
  if◌then◌else◌, sym, subst, ◌∙◌, le-or-lt, le→leb, lt→leb, lt→ltb, le→ltb,
}
use talc.Talc.Chunks.{
  Piece, Chunks, size_of, is_chunk, is_gap, is_tagged, is_used, Shape, IsTiling, is_chunk_of_tagged,
  is_chunk_of_used, size_pos,
}
use talc.Talc.Chunks.Tile.{
  tile, end_of, Pieces, Alternates, last_tagged, le-end_of, tile-Shape, tile_apart, tile_below_gap,
  tile_below_any, tile_last, tile_within, tile-first,
}

abbrev pub splice : ℕ → ℕ → List Piece → Chunks → Chunks
splice lo hi ps cs x = if leb lo x && ltb x hi then tile lo ps x else cs x

pub splice_inside :
    (lo hi : ℕ) (ps : List Piece) (cs : Chunks) (x : ℕ)
    → lo ≤ x
    → x < hi
    → splice lo hi ps cs x ≡ tile lo ps x
splice_inside lo hi ps cs x le lt = rw (le→leb lo x le, lt→ltb x hi lt) refl

pub splice_outside :
    (lo hi : ℕ) (ps : List Piece) (cs : Chunks) (x : ℕ)
    → (x < lo) ⊎ (hi ≤ x)
    → splice lo hi ps cs x ≡ cs x
splice_outside lo hi ps cs x (inl lt) = rw (lt→leb lo x lt) refl
splice_outside lo hi ps cs x (inr le) = elim (le-or-lt lo x) [
  | inl above ↦ rw (le→leb lo x above, le→ltb x hi le) refl
  | inr below ↦ rw (lt→leb lo x below) refl
]

pub inside-or-outside : (lo hi x : ℕ) → ((lo ≤ x) × (x < hi)) ⊎ ((x < lo) ⊎ (hi ≤ x))
inside-or-outside lo hi x = elim (le-or-lt lo x) [
  | inr below ↦ inr (inl below)
  | inl above ↦ elim (le-or-lt hi x) [ inl le ↦ inr (inr le) | inr lt ↦ inl (above, lt) ]
]

-- The pieces `p ∷ ps` can take the place of the chunks between `lo` and `hi`: no chunk crosses
-- the two ends, the pieces fit and alternate, also with what stands below and above.
pub record IsSplice (cs : Chunks) (lo hi : ℕ) (before : Bool) (p : Piece) (ps : List Piece)
    : Type 0 where
  pub cut_low : (a : ℕ) → a < lo → a + size_of (cs a) ≤ lo
  pub cut_high : (a : ℕ) → lo ≤ a → a < hi → a + size_of (cs a) ≤ hi
  pub pieces : Pieces lo (p ∷ ps)
  pub fits : end_of lo (p ∷ ps) ≤ hi
  pub alternates : Alternates before (p ∷ ps)
  pub tagged_below :
      before ≡ true → (c : ℕ) × (c < lo) × (is_tagged (cs c) ≡ true) × (c + size_of (cs c) ≡ lo)
  pub chunk_below :
      is_used p ≡ true → (c : ℕ) × (c < lo) × (is_chunk (cs c) ≡ true) × (c + size_of (cs c) ≡ lo)
  pub seam_gap :
      is_gap (cs hi) ≡ true → (end_of lo (p ∷ ps) ≡ hi) × (last_tagged true (p ∷ ps) ≡ true)
  pub seam_used : is_used (cs hi) ≡ true → end_of lo (p ∷ ps) ≡ hi

module _ (cs : Chunks) (w : IsTiling cs) (lo hi : ℕ) (before : Bool) (p : Piece) (ps : List Piece)
    (s : IsSplice cs lo hi before p ps) where
  abbrev new : Chunks
  new = splice lo hi (p ∷ ps) cs

  inside : (x : ℕ) → lo ≤ x → x < hi → new x ≡ tile lo (p ∷ ps) x
  inside x = splice_inside lo hi (p ∷ ps) cs x

  outside : (x : ℕ) → (x < lo) ⊎ (hi ≤ x) → new x ≡ cs x
  outside x = splice_outside lo hi (p ∷ ps) cs x

  new-Shape : (a : ℕ) → Shape a (new a)
  new-Shape a = elim (inside-or-outside lo hi a) [
    | inl (le, lt) ↦ rw (inside a le lt) (tile-Shape lo (p ∷ ps) a s.pieces)
    | inr out ↦ rw (outside a out) (w.shape a)
  ]

  new_apart : (a b : ℕ) → a < b → is_chunk (new b) ≡ true → a + size_of (new a) ≤ b
  new_apart a b lt e = elim (inside-or-outside lo hi b) [
    | inl (le_b, lt_b) ↦
        let e' = subst (λ q. is_chunk q ≡ true) (inside b le_b lt_b) e in
        elim (inside-or-outside lo hi a) [
          | inl (le_a, lt_a) ↦ rw (inside a le_a lt_a) (tile_apart lo (p ∷ ps) a b s.pieces lt e')
          | inr out ↦ rw (outside a out) (omega (arith, s.cut_low a (omega (arith, out))))
        ]
    | inr out_b ↦
        let e' = subst (λ q. is_chunk q ≡ true) (outside b out_b) e in
        elim (inside-or-outside lo hi a) [
          | inl (le_a, lt_a) ↦ rw (inside a le_a lt_a) (omega (arith, out_b, within a le_a lt_a))
          | inr out ↦ rw (outside a out) (w.apart a b lt e')
        ]
  ]
    where
      within : (a : ℕ) → lo ≤ a → a < hi → a + size_of (tile lo (p ∷ ps) a) ≤ hi
      within a le lt = tile_within lo hi (p ∷ ps) a s.pieces s.fits lt

  ordered : lo < hi
  ordered =
      omega (arith, s.fits, le-end_of (lo + size_of p) ps, size_pos lo p s.pieces.0 s.pieces.1)

  -- The last of the new pieces, where they reach the end.
  last_piece :
      end_of lo (p ∷ ps) ≡ hi
      → (c : ℕ) × (is_chunk (new c) ≡ true)
        × (c + size_of (new c) ≡ hi)
        × (is_tagged (new c) ≡ last_tagged true (p ∷ ps))
  last_piece e =
      let (c, le, chunk, eq, tagged) = tile_last lo p ps s.pieces in
      let lt : c < hi =
        omega (arith, size_pos c (tile lo (p ∷ ps) c) chunk (tile-Shape lo (p ∷ ps) c s.pieces)) in
      let i = inside c le lt in (c, rw i chunk, rw i (eq ∙ e), rw i tagged)

  -- A chunk that ends at an address outside was kept, or ended at `hi`.
  kept_or_seam :
      (a c : ℕ)
      → (a < lo) ⊎ (hi ≤ a)
      → is_chunk (cs c) ≡ true
      → c + size_of (cs c) ≡ a
      → (new c ≡ cs c) ⊎ (a ≡ hi)
  kept_or_seam a c out chunk eq =
      let pos = size_pos c (cs c) chunk (w.shape c) in
      elim (inside-or-outside lo hi c) [
        | inl (le, lt) ↦ inr (omega (arith, s.cut_high c le lt, out))
        | inr kept ↦ inl (outside c kept)
      ]

  new_below_gap :
      (a : ℕ)
      → is_gap (new a) ≡ true
      → (c : ℕ) × (is_tagged (new c) ≡ true) × (c + size_of (new c) ≡ a)
  new_below_gap a e = elim (inside-or-outside lo hi a) [
    | inl (le, lt) ↦ from_list le lt (
        tile_below_gap before lo (p ∷ ps) a s.pieces s.alternates
          (subst (λ q. is_gap q ≡ true) (inside a le lt) e))
    | inr out ↦ from_old out (subst (λ q. is_gap q ≡ true) (outside a out) e)
  ]
    where
      from_list :
          lo ≤ a
          → a < hi
          → ((a ≡ lo) × (before ≡ true))
            ⊎ ((c : ℕ) × (lo ≤ c)
                × (is_tagged (tile lo (p ∷ ps) c) ≡ true)
                × (c + size_of (tile lo (p ∷ ps) c) ≡ a))
          → (c : ℕ) × (is_tagged (new c) ≡ true) × (c + size_of (new c) ≡ a)
      from_list le lt (inl (eq, tagged)) =
          let (c, below, is, at) = s.tagged_below tagged in
          let o = outside c (inl below) in (c, rw o is, rw o (at ∙ sym eq))
      from_list le lt (inr (c, le_c, is, at)) =
          let i = inside c le_c (omega arith) in (c, rw i is, rw i at)

      from_old :
          (a < lo) ⊎ (hi ≤ a)
          → is_gap (cs a) ≡ true
          → (c : ℕ) × (is_tagged (new c) ≡ true) × (c + size_of (new c) ≡ a)
      from_old out gap =
          let (c, is, at) = w.below_gap a gap in
          elim (kept_or_seam a c out (is_chunk_of_tagged (cs c) is) at) [
            | inl same ↦ (c, rw same is, rw same at)
            | inr eq ↦
                let seam = s.seam_gap (subst (λ x. is_gap (cs x) ≡ true) eq gap) in
                let (d, chunk, end, tagged) = last_piece seam.0 in
                (d, tagged ∙ seam.1, end ∙ sym eq)
          ]

  new_below_used :
      (a : ℕ)
      → is_used (new a) ≡ true
      → (c : ℕ) × (is_chunk (new c) ≡ true) × (c + size_of (new c) ≡ a)
  new_below_used a e = elim (inside-or-outside lo hi a) [
    | inl (le, lt) ↦
        let e' = subst (λ q. is_used q ≡ true) (inside a le lt) e in
        from_list le lt e'
          (tile_below_any lo (p ∷ ps) a s.pieces (is_chunk_of_used (tile lo (p ∷ ps) a) e'))
    | inr out ↦ from_old out (subst (λ q. is_used q ≡ true) (outside a out) e)
  ]
    where
      from_list :
          lo ≤ a
          → a < hi
          → is_used (tile lo (p ∷ ps) a) ≡ true
          → (a ≡ lo)
            ⊎ ((c : ℕ) × (lo ≤ c)
                × (is_chunk (tile lo (p ∷ ps) c) ≡ true)
                × (c + size_of (tile lo (p ∷ ps) c) ≡ a))
          → (c : ℕ) × (is_chunk (new c) ≡ true) × (c + size_of (new c) ≡ a)
      from_list le lt used (inl eq) =
          let used_p = subst (λ q. is_used q ≡ true) (tile-first lo p ps a eq) used in
          let (c, below, is, at) = s.chunk_below used_p in
          let o = outside c (inl below) in (c, rw o is, rw o (at ∙ sym eq))
      from_list le lt used (inr (c, le_c, is, at)) =
          let i = inside c le_c (omega arith) in (c, rw i is, rw i at)

      from_old :
          (a < lo) ⊎ (hi ≤ a)
          → is_used (cs a) ≡ true
          → (c : ℕ) × (is_chunk (new c) ≡ true) × (c + size_of (new c) ≡ a)
      from_old out used =
          let (c, is, at) = w.below_used a used in
          elim (kept_or_seam a c out is at) [
            | inl same ↦ (c, rw same is, rw same at)
            | inr eq ↦
                let (d, chunk, end, tagged) =
                  last_piece (s.seam_used (subst (λ x. is_used (cs x) ≡ true) eq used)) in
                (d, chunk, end ∙ sym eq)
          ]

  pub splice-IsTiling : IsTiling new
  splice-IsTiling = record {
    shape = new-Shape;
    apart = new_apart;
    below_gap = new_below_gap;
    below_used = new_below_used;
  }
