-- ===== src/Talc/Chunks.antt =====
-- The chunks that the heaps of talc/src/talc.rs are tiled with, as a map from addresses: the
-- abstract state of the allocator.
pub mod Tile
pub mod Splice
pub mod State
pub mod Rebuild
pub mod Above
pub mod Relink
pub mod Shrink
pub mod Grow
pub mod Fill
pub mod First
pub mod Claim
pub mod Search
pub mod Malloc
pub mod Allocate
pub mod Lower
pub mod Place
pub mod Merged
pub mod Release
pub mod Below
pub mod Retag
pub mod Scan
use talc.Base.{ℕ, ◌+◌, ◌%◌, ◌^◌, ◌≤◌, ◌<◌, ◌≡◌, refl, ◌≢◌, Bool, true, false, arith}

-- What begins at an address: nothing; a gap; a chunk with an allocation of `len` bytes at `ptr`;
-- or a chunk that is never released, with the base that its tag holds: the tag at a heap's base,
-- or the array of bins with the base tag below it.
pub data Piece : Type 0 where
  absent : Piece
  free_chunk : (n : ℕ) → Piece
  used_chunk : (n ptr len : ℕ) → Piece
  fence : (n base : ℕ) → Piece

abbrev pub Chunks : Type 0
Chunks = ℕ → Piece

abbrev pub size_of : Piece → ℕ
size_of absent = 0
size_of (free_chunk n) = n
size_of (used_chunk n ptr len) = n
size_of (fence n base) = n

-- The size of a gap, and zero for all else.
abbrev pub gap_size : Piece → ℕ
gap_size absent = 0
gap_size (free_chunk n) = n
gap_size (used_chunk n ptr len) = 0
gap_size (fence n base) = 0

abbrev pub is_chunk : Piece → Bool
is_chunk absent = false
is_chunk (free_chunk n) = true
is_chunk (used_chunk n ptr len) = true
is_chunk (fence n base) = true

abbrev pub is_gap : Piece → Bool
is_gap absent = false
is_gap (free_chunk n) = true
is_gap (used_chunk n ptr len) = false
is_gap (fence n base) = false

-- The pieces that end in a tag.
abbrev pub is_tagged : Piece → Bool
is_tagged absent = false
is_tagged (free_chunk n) = false
is_tagged (used_chunk n ptr len) = true
is_tagged (fence n base) = true

abbrev pub is_used : Piece → Bool
is_used absent = false
is_used (free_chunk n) = false
is_used (used_chunk n ptr len) = true
is_used (fence n base) = false

-- Whole words, of at least `least` bytes, within the address space and off the null address.
abbrev pub WholeWords : ℕ → ℕ → ℕ → Type 0
WholeWords least a n = (least ≤ n) × (n % 8 ≡ 0) × (a % 8 ≡ 0) × (a ≢ 0) × (a + n < 2 ^ 64)

-- What a piece at an address must be like: an allocation lies in its chunk, below the tag.
abbrev pub Shape : ℕ → Piece → Type 0
Shape a absent = Unit
Shape a (free_chunk n) = WholeWords 24 a n
Shape a (used_chunk n ptr len) = WholeWords 24 a n × (a ≤ ptr) × (ptr + len + 8 ≤ a + n)
Shape a (fence n base) = WholeWords 8 a n × (base % 8 ≡ 0) × (base < 2 ^ 64)

-- The pieces do not overlap, a tagged piece ends where a gap begins, and some piece where an
-- allocated chunk does.
pub record IsTiling (cs : Chunks) : Type 0 where
  pub shape : (a : ℕ) → Shape a (cs a)
  pub apart : (a b : ℕ) → a < b → is_chunk (cs b) ≡ true → a + size_of (cs a) ≤ b
  pub below_gap :
      (a : ℕ)
      → is_gap (cs a) ≡ true
      → (c : ℕ) × (is_tagged (cs c) ≡ true) × (c + size_of (cs c) ≡ a)
  pub below_used :
      (a : ℕ)
      → is_used (cs a) ≡ true
      → (c : ℕ) × (is_chunk (cs c) ≡ true) × (c + size_of (cs c) ≡ a)

pub size_pos : (a : ℕ) (p : Piece) → is_chunk p ≡ true → Shape a p → 8 ≤ size_of p
size_pos a absent e s = absurd (ground arith)
size_pos a (free_chunk n) e s = omega arith
size_pos a (used_chunk n ptr len) e s = omega arith
size_pos a (fence n base) e s = omega arith

pub is_chunk_of_gap : (p : Piece) → is_gap p ≡ true → is_chunk p ≡ true
is_chunk_of_gap absent e = e
is_chunk_of_gap (free_chunk n) e = e
is_chunk_of_gap (used_chunk n ptr len) e = refl
is_chunk_of_gap (fence n base) e = refl

pub is_chunk_of_tagged : (p : Piece) → is_tagged p ≡ true → is_chunk p ≡ true
is_chunk_of_tagged absent e = e
is_chunk_of_tagged (free_chunk n) e = refl
is_chunk_of_tagged (used_chunk n ptr len) e = refl
is_chunk_of_tagged (fence n base) e = refl

pub is_chunk_of_used : (p : Piece) → is_used p ≡ true → is_chunk p ≡ true
is_chunk_of_used absent e = e
is_chunk_of_used (free_chunk n) e = refl
is_chunk_of_used (used_chunk n ptr len) e = refl
is_chunk_of_used (fence n base) e = refl

pub absent_of : (p : Piece) → is_chunk p ≡ false → p ≡ absent
absent_of absent e = refl
absent_of (free_chunk n) e = absurd (ground arith)
absent_of (used_chunk n ptr len) e = absurd (ground arith)
absent_of (fence n base) e = absurd (ground arith)

pub gap_size-ne_zero : (a : ℕ) (p : Piece) → Shape a p → gap_size p ≢ 0 → is_gap p ≡ true
gap_size-ne_zero a absent s ne = absurd (ne refl)
gap_size-ne_zero a (free_chunk n) s ne = refl
gap_size-ne_zero a (used_chunk n ptr len) s ne = absurd (ne refl)
gap_size-ne_zero a (fence n base) s ne = absurd (ne refl)

pub gap_size-eq : (p : Piece) → is_gap p ≡ true → gap_size p ≡ size_of p
gap_size-eq absent e = refl
gap_size-eq (free_chunk n) e = refl
gap_size-eq (used_chunk n ptr len) e = absurd (ground arith)
gap_size-eq (fence n base) e = absurd (ground arith)

pub Shape-whole :
    (a : ℕ) (p : Piece)
    → is_chunk p ≡ true
    → Shape a p
    → (a % 8 ≡ 0) × (size_of p % 8 ≡ 0) × (a ≢ 0) × (a + size_of p < 2 ^ 64)
Shape-whole a absent e s = absurd (ground arith)
Shape-whole a (free_chunk n) e s = omega arith
Shape-whole a (used_chunk n ptr len) e s = omega arith
Shape-whole a (fence n base) e s = omega arith
