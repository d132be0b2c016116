-- ===== src/Talc/Chunks/Retag.antt =====
-- The neighbours of a chunk, and a tag whose flag is set or cleared.
use talc.Base.{
  ℕ, ◌+◌, ◌-◌, ◌≤◌, ◌<◌, ◌≡◌, inl, inr, Bool, true, false, arith, subst, ◌∙◌, eq-or-ne, le-or-lt,
  Bool-cases,
}
use talc.PtrUtils.{align_up}
use talc.Mem.{Mem, write, write_self, write_ne}
use talc.Tag.{tag_of}
use talc.Tag.Laws.{IsBase}
use talc.Talc.Chunks.{
  Piece, absent, free_chunk, used_chunk, fence, Chunks, size_of, is_chunk, is_gap, is_tagged, Shape,
  IsTiling, size_pos, absent_of, is_chunk_of_gap, is_chunk_of_tagged,
}
use talc.Talc.Chunks.State.{Tagged}

-- The base that the tag of a piece holds.
abbrev pub base_of : ℕ → Piece → ℕ
base_of a absent = 0
base_of a (free_chunk n) = 0
base_of a (used_chunk n ptr len) = a
base_of a (fence n base) = base

pub base_of-IsBase : (a : ℕ) (p : Piece) → Shape a p → IsBase (base_of a p)
base_of-IsBase a absent s = omega arith
base_of-IsBase a (free_chunk n) s = omega arith
base_of-IsBase a (used_chunk n ptr len) s = omega arith
base_of-IsBase a (fence n base) s = omega arith

pub tag_word :
    (m : Mem) (above : Bool) (a : ℕ) (p : Piece)
    → is_tagged p ≡ true
    → Tagged m above a p
    → m (a + size_of p - 8) ≡ tag_of (base_of a p) above
tag_word m above a absent e t = absurd (ground arith)
tag_word m above a (free_chunk n) e t = absurd (ground arith)
tag_word m above a (used_chunk n ptr len) e t = t.0
tag_word m above a (fence n base) e t = t

-- With the flag of a piece's tag changed, the tag is that of a piece with the other neighbour.
pub retag-Tagged :
    (m : Mem) (above above' : Bool) (a : ℕ) (p : Piece)
    → is_tagged p ≡ true
    → Tagged m above a p
    → Tagged (write m (a + size_of p - 8) (tag_of (base_of a p) above')) above' a p
retag-Tagged m above above' a absent e t = absurd (ground arith)
retag-Tagged m above above' a (free_chunk n) e t = absurd (ground arith)
retag-Tagged m above above' a (used_chunk n ptr len) e t = (
  write_self m (a + n - 8) (tag_of a above'),
  elim (t.1) [
    | inl same ↦ inl same
    | inr (below, link) ↦ inr (
      below,
      write_ne m (a + n - 8) (tag_of a above') (align_up (ptr + len)) (omega arith) ∙ link,
    )
  ],
)
retag-Tagged m above above' a (fence n base) e t = write_self m (a + n - 8) (tag_of base above')

module _ (cs : Chunks) (w : IsTiling cs) where
  -- Within a chunk no other begins.
  pub inside_absent : (a x : ℕ) → a < x → x < a + size_of (cs a) → cs x ≡ absent
  inside_absent a x lt within = elim (Bool-cases (is_chunk (cs x))) [
    | inl e ↦ absurd (omega (arith, w.apart a x lt e))
    | inr e ↦ absent_of (cs x) e
  ]

  pub no_chunk_cut : (a b : ℕ) → is_chunk (cs b) ≡ true → a < b → a + size_of (cs a) ≤ b
  no_chunk_cut a b e lt = w.apart a b lt e

  -- Two chunks that end at one address are one.
  pub ends_unique :
      (a b : ℕ)
      → is_chunk (cs a) ≡ true
      → is_chunk (cs b) ≡ true
      → a + size_of (cs a) ≡ b + size_of (cs b)
      → a ≡ b
  ends_unique a b chunk_a chunk_b e =
      let pos_a = size_pos a (cs a) chunk_a (w.shape a) in
      let pos_b = size_pos b (cs b) chunk_b (w.shape b) in
      elim (le-or-lt a b) [
        | inr above ↦ absurd (omega (arith, w.apart b a above chunk_a))
        | inl le ↦ elim (eq-or-ne a b) [
          | inl same ↦ same
          | inr ne ↦ absurd (omega (arith, w.apart a b (omega arith) chunk_b))
        ]
      ]

  -- What a gap ends at is no gap.
  pub no_gap_above : (a : ℕ) → is_gap (cs a) ≡ true → is_gap (cs (a + size_of (cs a))) ≡ false
  no_gap_above a gap = elim (Bool-cases (is_gap (cs (a + size_of (cs a))))) [
    | inr e ↦ e
    | inl e ↦
        let (c, tagged, end) = w.below_gap (a + size_of (cs a)) e in
        let same =
          ends_unique c a (is_chunk_of_tagged (cs c) tagged) (is_chunk_of_gap (cs a) gap) end in
        absurd (gap_or_tag (cs a) gap (subst (λ x. is_tagged (cs x) ≡ true) same tagged))
  ]
    where
      gap_or_tag : (p : Piece) → is_gap p ≡ true → is_tagged p ≡ true → ⊥
      gap_or_tag absent g t = ground arith
      gap_or_tag (free_chunk n) g t = ground arith
      gap_or_tag (used_chunk n ptr len) g t = ground arith
      gap_or_tag (fence n base) g t = ground arith
