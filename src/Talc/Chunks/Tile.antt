-- ===== src/Talc/Chunks/Tile.antt =====
-- A list of pieces laid out from an address on.
use talc.Base.{
  ℕ, ◌+◌, ◌≤◌, ◌<◌, ◌≡◌, refl, ◌≢◌, ◌⊎◌, inl, inr, Bool, true, List, [], ◌∷◌, arith, ◌==◌,
  if◌then◌else◌, sym, subst, ◌∙◌, eq-or-ne, ne→==, eq→==, Bool-cases,
}
use talc.Talc.Chunks.{
  Piece, absent, Chunks, size_of, is_chunk, is_gap, is_tagged, Shape, size_pos, absent_of,
}

abbrev pub tile : ℕ → List Piece → Chunks
tile a [] x = absent
tile a (p ∷ ps) x = if x == a then p else tile (a + size_of p) ps x

abbrev pub end_of : ℕ → List Piece → ℕ
end_of a [] = a
end_of a (p ∷ ps) = end_of (a + size_of p) ps

abbrev pub Pieces : ℕ → List Piece → Type 0
Pieces a [] = Unit
Pieces a (p ∷ ps) = (is_chunk p ≡ true) × Shape a p × Pieces (a + size_of p) ps

-- No gap follows a gap; `before` says whether the piece before the first is tagged.
abbrev pub Alternates : Bool → List Piece → Type 0
Alternates before [] = Unit
Alternates before (p ∷ ps) = (is_gap p ≡ true → before ≡ true) × Alternates (is_tagged p) ps

-- Whether the last piece is tagged.
abbrev pub last_tagged : Bool → List Piece → Bool
last_tagged before [] = before
last_tagged before (p ∷ ps) = last_tagged (is_tagged p) ps

pub tile-first : (a : ℕ) (p : Piece) (ps : List Piece) (x : ℕ) → x ≡ a → tile a (p ∷ ps) x ≡ p
tile-first a p ps x e = rw (eq→== x a e) refl

pub tile-later :
    (a : ℕ) (p : Piece) (ps : List Piece) (x : ℕ)
    → x ≢ a
    → tile a (p ∷ ps) x ≡ tile (a + size_of p) ps x
tile-later a p ps x ne = rw (ne→== x a ne) refl

pub le-end_of : (a : ℕ) (ps : List Piece) → a ≤ end_of a ps
le-end_of a [] = omega arith
le-end_of a (p ∷ ps) = omega (arith, le-end_of (a + size_of p) ps)

pub tile-Shape : (a : ℕ) (ps : List Piece) (x : ℕ) → Pieces a ps → Shape x (tile a ps x)
tile-Shape a [] x h = tt
tile-Shape a (p ∷ ps) x h = elim (eq-or-ne x a) [
  | inl e ↦ rw (tile-first a p ps x e) (subst (λ y. Shape y p) (sym e) h.1)
  | inr ne ↦ rw (tile-later a p ps x ne) (tile-Shape (a + size_of p) ps x h.2)
]

pub tile-below : (a : ℕ) (ps : List Piece) (x : ℕ) → x < a → tile a ps x ≡ absent
tile-below a [] x lt = refl
tile-below a (p ∷ ps) x lt =
    tile-later a p ps x (omega arith) ∙ tile-below (a + size_of p) ps x (omega arith)

pub tile_bounds :
    (a : ℕ) (ps : List Piece) (x : ℕ)
    → Pieces a ps
    → is_chunk (tile a ps x) ≡ true
    → (a ≤ x) × (x + size_of (tile a ps x) ≤ end_of a ps)
tile_bounds a [] x h e = absurd (ground arith)
tile_bounds a (p ∷ ps) x h e = elim (eq-or-ne x a) [
  | inl eq ↦ rw (tile-first a p ps x eq) (omega arith, omega (arith, le-end_of (a + size_of p) ps))
  | inr ne ↦ rw (tile-later a p ps x ne) (
      let b =
        tile_bounds (a + size_of p) ps x h.2
          (subst (λ q. is_chunk q ≡ true) (tile-later a p ps x ne) e) in
      (omega (arith, b), b.1))
]

pub tile_apart :
    (a : ℕ) (ps : List Piece) (x y : ℕ)
    → Pieces a ps
    → x < y
    → is_chunk (tile a ps y) ≡ true
    → x + size_of (tile a ps x) ≤ y
tile_apart a [] x y h lt e = absurd (ground arith)
tile_apart a (p ∷ ps) x y h lt e = elim (eq-or-ne y a) [
  | inl eq ↦ rw (tile-below a (p ∷ ps) x (omega arith)) (omega arith)
  | inr ne ↦
      let tail = subst (λ q. is_chunk q ≡ true) (tile-later a p ps y ne) e in
      elim (eq-or-ne x a) [
        | inl eq ↦
            rw (tile-first a p ps x eq) (omega (arith, tile_bounds (a + size_of p) ps y h.2 tail))
        | inr other ↦ rw (tile-later a p ps x other) (tile_apart (a + size_of p) ps x y h.2 lt tail)
      ]
]

-- A gap of the list is its first piece, or ends a tagged one; a piece is the first, or ends one.
pub tile_below_gap :
    (before : Bool) (a : ℕ) (ps : List Piece) (x : ℕ)
    → Pieces a ps
    → Alternates before ps
    → is_gap (tile a ps x) ≡ true
    → ((x ≡ a) × (before ≡ true))
      ⊎ ((c : ℕ) × (a ≤ c) × (is_tagged (tile a ps c) ≡ true) × (c + size_of (tile a ps c) ≡ x))
tile_below_gap before a [] x h alt e = absurd (ground arith)
tile_below_gap before a (p ∷ ps) x h alt e = elim (eq-or-ne x a) [
  | inl eq ↦ inl (eq, alt.0 (subst (λ q. is_gap q ≡ true) (tile-first a p ps x eq) e))
  | inr ne ↦ after (
      tile_below_gap (is_tagged p) (a + size_of p) ps x h.2 alt.1
        (subst (λ q. is_gap q ≡ true) (tile-later a p ps x ne) e))
]
  where
    after :
        ((x ≡ a + size_of p) × (is_tagged p ≡ true))
          ⊎ ((c : ℕ) × (a + size_of p ≤ c)
              × (is_tagged (tile (a + size_of p) ps c) ≡ true)
              × (c + size_of (tile (a + size_of p) ps c) ≡ x))
        → ((x ≡ a) × (before ≡ true))
          ⊎ ((c : ℕ) × (a ≤ c)
              × (is_tagged (tile a (p ∷ ps) c) ≡ true)
              × (c + size_of (tile a (p ∷ ps) c) ≡ x))
    after (inl (eq, tagged)) = inr (
      a,
      omega arith,
      rw (tile-first a p ps a refl) tagged,
      rw (tile-first a p ps a refl) (sym eq),
    )
    after (inr (c, le, tagged, eq)) =
        let later = tile-later a p ps c (omega (arith, size_pos a p h.0 h.1)) in
        inr (c, omega arith, rw later tagged, rw later eq)

pub tile_below_any :
    (a : ℕ) (ps : List Piece) (x : ℕ)
    → Pieces a ps
    → is_chunk (tile a ps x) ≡ true
    → (x ≡ a)
      ⊎ ((c : ℕ) × (a ≤ c) × (is_chunk (tile a ps c) ≡ true) × (c + size_of (tile a ps c) ≡ x))
tile_below_any a [] x h e = absurd (ground arith)
tile_below_any a (p ∷ ps) x h e = elim (eq-or-ne x a) [
  | inl eq ↦ inl eq
  | inr ne ↦ after (
      tile_below_any (a + size_of p) ps x h.2
        (subst (λ q. is_chunk q ≡ true) (tile-later a p ps x ne) e))
]
  where
    after :
        (x ≡ a + size_of p)
          ⊎ ((c : ℕ) × (a + size_of p ≤ c)
              × (is_chunk (tile (a + size_of p) ps c) ≡ true)
              × (c + size_of (tile (a + size_of p) ps c) ≡ x))
        → (x ≡ a)
          ⊎ ((c : ℕ) × (a ≤ c)
              × (is_chunk (tile a (p ∷ ps) c) ≡ true)
              × (c + size_of (tile a (p ∷ ps) c) ≡ x))
    after (inl eq) =
        inr (
          a,
          omega arith,
          rw (tile-first a p ps a refl) h.0,
          rw (tile-first a p ps a refl) (sym eq),
        )
    after (inr (c, le, chunk, eq)) =
        let later = tile-later a p ps c (omega (arith, size_pos a p h.0 h.1)) in
        inr (c, omega arith, rw later chunk, rw later eq)

-- The last piece ends at the end of the list.
pub tile_last :
    (a : ℕ) (p : Piece) (ps : List Piece)
    → Pieces a (p ∷ ps)
    → (c : ℕ) × (a ≤ c)
      × (is_chunk (tile a (p ∷ ps) c) ≡ true)
      × (c + size_of (tile a (p ∷ ps) c) ≡ end_of a (p ∷ ps))
      × (is_tagged (tile a (p ∷ ps) c) ≡ last_tagged true (p ∷ ps))
tile_last a p [] h =
    let first = tile-first a p [] a refl in
    (a, omega arith, rw first h.0, rw first refl, rw first refl)
tile_last a p (q ∷ ps) h =
    let (c, le, chunk, eq, tagged) = tile_last (a + size_of p) q ps h.2 in
    let later = tile-later a p (q ∷ ps) c (omega (arith, size_pos a p h.0 h.1)) in
    (c, omega arith, rw later chunk, rw later eq, rw later tagged)

-- A list that ends before `hi` stays below it.
pub tile_within :
    (a hi : ℕ) (ps : List Piece) (x : ℕ)
    → Pieces a ps
    → end_of a ps ≤ hi
    → x < hi
    → x + size_of (tile a ps x) ≤ hi
tile_within a hi ps x h fits lt = elim (Bool-cases (is_chunk (tile a ps x))) [
  | inl e ↦ omega (arith, tile_bounds a ps x h e)
  | inr e ↦ rw (absent_of (tile a ps x) e) (omega arith)
]
