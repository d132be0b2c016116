-- ===== src/Talc/Chunks/Fill.antt =====
-- What a client of talc/src/talc.rs writes to an allocation leaves the chunks as they are.
use talc.Base.{
  ℕ, ◌+◌, ◌-◌, ◌≤◌, ◌<◌, ◌≡◌, ◌≢◌, ◌⊎◌, inl, inr, Bool, arith, ap, subst, sym, ◌∙◌, eq-or-ne,
  le-or-lt, Bool-cases,
}
use talc.PtrUtils.{align_up}
use talc.Mem.{Mem}
use talc.Talc.State.{Talc}
use talc.Talc.FreeMap.{frame-IsFreeMap}
use talc.Talc.Chunks.{used_chunk, Chunks, size_of, is_chunk, is_gap, Shape, absent_of}
use talc.Talc.Chunks.State.{
  Tagged, OffBins, gaps_of, HoldsChunks, Tagged-frame, word_off_gaps, post_bounds,
}

module _ (t : Talc) (cs : Chunks) (h : HoldsChunks t cs) (a n ptr len : ℕ)
    (e : cs a ≡ used_chunk n ptr len) (m : Mem)
    (same : (x : ℕ) → (x < ptr) ⊎ (ptr + len ≤ x) → m x ≡ t.mem x) where
  abbrev filled : Talc
  filled = record t { mem = m }

  its-Shape : Shape a (used_chunk n ptr len)
  its-Shape = subst (Shape a) e (h.tiling.shape a)

  size_eq : size_of (cs a) ≡ n
  size_eq = ap size_of e

  its_off : (a + n ≤ t.bins) ⊎ (t.bins + 1024 ≤ a)
  its_off = subst (OffBins t.bins a) e (h.off a)

  same_outside : (x : ℕ) → (x < a) ⊎ (a + n ≤ x) → m x ≡ t.mem x
  same_outside x out = same x (omega (arith, out, its-Shape))

  same_gaps : (g x : ℕ) → gaps_of cs g ≢ 0 → g ≤ x → x < g + gaps_of cs g → m x ≡ t.mem x
  same_gaps g x ne from to = elim (le-or-lt a x) [
    | inr below ↦ same_outside x (inl below)
    | inl le ↦ elim (le-or-lt (a + n) x) [
      | inl above ↦ same_outside x (inr above)
      | inr lt ↦ absurd (
          omega (
            arith,
            word_off_gaps cs h.tiling a x (ap is_gap e) (ap is_chunk e) le (omega (arith, size_eq))
                g ne,
          ))
    ]
  ]

  -- The other chunks are apart.
  same_chunk : (b x : ℕ) → b ≢ a → b ≤ x → x < b + size_of (cs b) → m x ≡ t.mem x
  same_chunk b x ne from to = elim (le-or-lt a b) [
    | inr lt ↦ same_outside x (inl (omega (arith, h.tiling.apart b a lt (ap is_chunk e))))
    | inl le ↦ elim (Bool-cases (is_chunk (cs b))) [
      | inl chunk ↦
          same_outside x (inr (omega (arith, size_eq, h.tiling.apart a b (omega arith) chunk)))
      | inr none ↦ absurd (omega (arith, ap size_of (absent_of (cs b) none)))
    ]
  ]

  -- The tag of the chunk itself is behind the allocation, and its link too.
  own_tag :
      (above : Bool)
      → Tagged t.mem above a (used_chunk n ptr len)
      → Tagged m above a (used_chunk n ptr len)
  own_tag above tag =
      let post = post_bounds a n ptr len its-Shape in
      (
        same (a + n - 8) (omega (arith, its-Shape)) ∙ tag.0,
        elim (tag.1) [
          | inl at ↦ inl at
          | inr (lt, link) ↦ inr (lt, same (align_up (ptr + len)) (omega (arith, post)) ∙ link)
        ],
      )

  pub filled-HoldsChunks : HoldsChunks filled cs
  filled-HoldsChunks = record {
    tiling = h.tiling;
    free =
        frame-IsFreeMap t (gaps_of cs) h.free m
          (λ x from to. same_outside x (omega (arith, its_off))) same_gaps;
    tags = λ b. elim (eq-or-ne b a) [
      | inl at ↦ subst (λ c. Tagged m (is_gap (cs (c + size_of (cs c)))) c (cs c)) (sym at) own
      | inr ne ↦
          Tagged-frame t.bins cs h.tiling t.mem m b (is_gap (cs (b + size_of (cs b)))) (h.off b)
            (λ x from to off. same_chunk b x ne from to) (h.tags b)
    ];
    off = h.off;
  }
    where
      own : Tagged m (is_gap (cs (a + size_of (cs a)))) a (cs a)
      own =
          subst (λ p. Tagged m (is_gap (cs (a + size_of p))) a p) (sym e)
            (own_tag (is_gap (cs (a + n)))
              (subst (λ p. Tagged t.mem (is_gap (cs (a + size_of p))) a p) e (h.tags a)))
