-- ===== src/Talc/Chunks/State.antt =====
-- When the allocator's state holds a map of chunks: the gaps are in the bins, and the tags stand
-- where `Talc::free` of talc/src/talc.rs looks for them.
use talc.Base.{
  ℕ, ◌+◌, ◌-◌, ◌/◌, ◌*◌, ◌%◌, ◌≤◌, ◌<◌, ◌≡◌, refl, ◌≢◌, ◌⊎◌, inl, inr, Bool, true, false, arith, ap,
  sym, subst, ◌∙◌, eq-or-ne, le-or-lt,
}
use talc.PtrUtils.{align_up}
use talc.PtrUtils.Align.{align_up-eq}
use talc.Mem.{Mem}
use talc.Tag.{tag_of}
use talc.Talc.State.{Talc}
use talc.Talc.FreeMap.{IsFreeMap, IsOff}
use talc.Talc.Chunks.{
  Piece, absent, free_chunk, used_chunk, fence, Chunks, size_of, gap_size, is_chunk, is_gap, Shape,
  IsTiling, gap_size-ne_zero, gap_size-eq, is_chunk_of_gap,
}

-- The word behind an allocation is the chunk's tag, or holds the tag's address.
abbrev pub TagLink : Mem → ℕ → ℕ → Type 0
TagLink m tag_ptr post = (post ≡ tag_ptr) ⊎ ((post < tag_ptr) × (m post ≡ tag_ptr))

-- The tag of a piece, by whether a gap follows.
abbrev pub Tagged : Mem → Bool → ℕ → Piece → Type 0
Tagged m above a absent = Unit
Tagged m above a (free_chunk n) = Unit
Tagged m above a (used_chunk n ptr len) =
    (m (a + n - 8) ≡ tag_of a above) × TagLink m (a + n - 8) (align_up (ptr + len))
Tagged m above a (fence n base) = m (a + n - 8) ≡ tag_of base above

-- Allocated chunks and tags are off the array of bins.
abbrev pub OffBins : ℕ → ℕ → Piece → Type 0
OffBins bins a absent = Unit
OffBins bins a (free_chunk n) = Unit
OffBins bins a (used_chunk n ptr len) = (a + n ≤ bins) ⊎ (bins + 1024 ≤ a)
OffBins bins a (fence n base) = (a + n ≤ bins) ⊎ (bins + 1024 ≤ a + n - 8)

-- The map of the gaps among the chunks.
abbrev pub gaps_of : Chunks → ℕ → ℕ
gaps_of cs a = gap_size (cs a)

pub record HoldsChunks (t : Talc) (cs : Chunks) : Type 0 where
  pub tiling : IsTiling cs
  pub free : IsFreeMap t (gaps_of cs)
  pub tags : (a : ℕ) → Tagged t.mem (is_gap (cs (a + size_of (cs a)))) a (cs a)
  pub off : (a : ℕ) → OffBins t.bins a (cs a)

-- A word of a piece that is not a gap is in no gap.
pub word_off_gaps :
    (cs : Chunks) (w : IsTiling cs) (a x : ℕ)
    → is_gap (cs a) ≡ false
    → is_chunk (cs a) ≡ true
    → a ≤ x
    → x < a + size_of (cs a)
    → (g : ℕ) → gaps_of cs g ≢ 0
    → (x < g) ⊎ (g + gaps_of cs g ≤ x)
word_off_gaps cs w a x not_gap chunk le lt g ne =
    let gap = gap_size-ne_zero g (cs g) (w.shape g) ne in
    let size = gap_size-eq (cs g) gap in
    elim (le-or-lt g a) [
      | inr after ↦ inl (omega (arith, w.apart a g after (is_chunk_of_gap (cs g) gap)))
      | inl before ↦ elim (eq-or-ne g a) [
        | inl e ↦ absurd (false-true (sym not_gap ∙ subst (λ y. is_gap (cs y) ≡ true) e gap))
        | inr other ↦ inr (omega (arith, w.apart g a (omega arith) chunk, size))
      ]
    ]
  where
    false-true : false ≡ true → ⊥
    false-true e = cc

-- The address behind an allocation lies between it and the tag.
pub post_bounds :
    (a n ptr len : ℕ)
    → Shape a (used_chunk n ptr len)
    → (a ≤ align_up (ptr + len))
      × (align_up (ptr + len) + 8 ≤ a + n)
      × (ptr + len ≤ align_up (ptr + len))
      × (align_up (ptr + len) % 8 ≡ 0)
post_bounds a n ptr len s =
    let e : align_up (ptr + len) ≡ (ptr + len + 7) / 8 * 8 =
      align_up-eq (ptr + len) (omega (arith, s)) in
    omega (arith, e, s)

-- The words that `Tagged` speaks of are off the bins and the gaps.
pub Tagged-frame :
    (bins : ℕ) (cs : Chunks) (w : IsTiling cs) (m m' : Mem) (a : ℕ) (above : Bool)
    → OffBins bins a (cs a)
    → ((x : ℕ) → a ≤ x → x < a + size_of (cs a) → IsOff bins (gaps_of cs) x → m' x ≡ m x)
    → Tagged m above a (cs a)
    → Tagged m' above a (cs a)
Tagged-frame bins cs w m m' a above off kept h = by_piece (cs a) refl off h
  where
    by_piece : (p : Piece) → cs a ≡ p → OffBins bins a p → Tagged m above a p → Tagged m' above a p
    by_piece absent e o t = tt
    by_piece (free_chunk n) e o t = tt
    by_piece (fence n base) e o t =
        let s = subst (Shape a) e (w.shape a) in
        let size : size_of (cs a) ≡ n = ap size_of e in
        kept (a + n - 8) (omega (arith, s)) (omega (arith, s, size)) (record {
          off_bins = omega (arith, o, s);
          off_gaps =
              word_off_gaps cs w a (a + n - 8) (ap is_gap e) (ap is_chunk e) (omega (arith, s))
                (omega (arith, s, size));
        })
        ∙ t
    by_piece (used_chunk n ptr len) e o t =
        let s = subst (Shape a) e (w.shape a) in
        let size : size_of (cs a) ≡ n = ap size_of e in
        let word = λ (x : ℕ) (le : a ≤ x) (lt : x < a + n).
          kept x le (omega (arith, lt, size)) (record {
            off_bins = omega (arith, o, le, lt);
            off_gaps =
                word_off_gaps cs w a x (ap is_gap e) (ap is_chunk e) le (omega (arith, lt, size));
          }) in
        let post = post_bounds a n ptr len s in
        (
          word (a + n - 8) (omega (arith, s)) (omega (arith, s)) ∙ t.0,
          elim (t.1) [
            | inl same ↦ inl same
            | inr (below, link) ↦
                inr (below, word (align_up (ptr + len)) post.0 (omega (arith, post)) ∙ link)
          ],
        )
