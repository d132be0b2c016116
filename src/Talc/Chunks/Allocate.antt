-- ===== src/Talc/Chunks/Allocate.antt =====
-- What `Talc::malloc` of talc/src/talc.rs does to the chunks that the state holds, once it has taken
-- a gap out of its bin.
use talc.Base.{
  ℕ, ◌+◌, ◌-◌, ◌≤◌, ◌<◌, ◌≡◌, refl, ◌≢◌, ◌⊎◌, inl, inr, Bool, true, false, List, [], ◌∷◌, arith, ap,
  sym, subst, ◌∙◌, eq-or-ne,
}
use talc.Talc.State.{Talc}
use talc.Talc.FreeMap.{IsOff, entry-IsGap}
use talc.Talc.FreeMap.Member.{entry}
use talc.Talc.FreeMap.Merge.{same-IsFreeMap, entry-here, entry-there}
use talc.Talc.Chunks.{
  Piece, free_chunk, used_chunk, Chunks, size_of, gap_size, is_chunk, is_gap, Shape,
  is_chunk_of_tagged,
}
use talc.Talc.Chunks.Tile.{end_of, Pieces, Alternates, tile}
use talc.Talc.Chunks.Splice.{splice, IsSplice, splice_inside, splice_outside, inside-or-outside}
use talc.Talc.Chunks.State.{Tagged, gaps_of, HoldsChunks, Tagged-frame}
use talc.Talc.Chunks.Rebuild.{rebuild, Tags, Offs}
use talc.Talc.Chunks.Retag.{inside_absent, no_gap_above}
use talc.Talc.Chunks.Below.{ends_before, gap_size-none}
use talc.Talc.Chunks.Place.{IsPlaced}
use talc.Talc.Chunks.Lower.{IsLowered}

-- The pieces that the gap from `g` to `acme` is divided into.
abbrev pub first_part : Bool → (g base : ℕ) → Piece → Piece
first_part true g base used = free_chunk (base - g)
first_part false g base used = used

abbrev pub top_parts : Bool → (end acme : ℕ) → List Piece
top_parts true end acme = free_chunk (acme - end) ∷ []
top_parts false end acme = []

abbrev pub later_parts : Bool → Piece → List Piece → List Piece
later_parts true used top = used ∷ top
later_parts false used top = top

true-false : true ≡ false → ⊥
true-false z = cc

pub false-true : false ≡ true → ⊥
false-true z = cc

pub when_true : {A B : Type 0} → ((true ≡ true) × A) ⊎ ((true ≡ false) × B) → A
when_true (inl (e, a)) = a
when_true (inr (e, b)) = absurd (true-false e)

pub when_false : {A B : Type 0} → ((false ≡ true) × A) ⊎ ((false ≡ false) × B) → B
when_false (inr (e, b)) = b
when_false (inl (e, a)) = absurd (false-true e)

-- What an allocation of `len` bytes at `ptr` in the gap from `g` to `acme` comes to.
pub record IsAllocated (t : Talc) (cs : Chunks) (g acme ptr len : ℕ) (t' : Talc) : Type 0 where
  pub base : ℕ
  pub size : ℕ
  pub below : Bool
  pub above : Bool
  pub from : ((below ≡ true) × (g + 24 ≤ base)) ⊎ ((below ≡ false) × (base ≡ g))
  pub to : ((above ≡ true) × (base + size + 24 ≤ acme)) ⊎ ((above ≡ false) × (base + size ≡ acme))
  pub room : (base ≤ ptr) × (ptr + len + 8 ≤ base + size)
  pub holds : HoldsChunks t' (
      splice g acme
        (first_part below g base (used_chunk size ptr len)
          ∷ later_parts below (used_chunk size ptr len) (top_parts above (base + size) acme))
        cs)
  pub bins_eq : t'.bins ≡ t.bins
  pub kept :
      (x : ℕ) → (x < g) ⊎ (acme ≤ x) → x ≢ g - 8 → IsOff t.bins (gaps_of cs) x → t'.mem x ≡ t.mem x

module _ (t : Talc) (cs : Chunks) (h : HoldsChunks t cs) (g s : ℕ) (e : cs g ≡ free_chunk s)
    (base : ℕ) (t2 : Talc) (low : IsLowered t cs g (g + s) base t2) (ptr len : ℕ) (at : base ≤ ptr)
    (t3 : Talc) (high : IsPlaced t2 (entry g (base - g) (gaps_of cs)) base (g + s) ptr len t3) where
  abbrev acme : ℕ
  acme = g + s

  abbrev used : Piece
  used = used_chunk high.size ptr len

  abbrev top : List Piece
  top = top_parts high.above (base + high.size) acme

  abbrev first : Piece
  first = first_part low.below g base used

  abbrev later : List Piece
  later = later_parts low.below used top

  gap-Shape : Shape g (free_chunk s)
  gap-Shape = subst (Shape g) e (h.tiling.shape g)

  gap_here : is_gap (cs g) ≡ true
  gap_here = ap is_gap e

  size_eq : size_of (cs g) ≡ s
  size_eq = ap size_of e

  no_gap_end : is_gap (cs acme) ≡ false
  no_gap_end =
      subst (λ k. is_gap (cs (g + k)) ≡ false) size_eq (no_gap_above cs h.tiling g gap_here)

  used-Shape : (a : ℕ) → a ≡ base → Shape a used
  used-Shape a same =
      omega (
        arith, same, low.opened.aligned, low.opened.ne_null, gap-Shape, high.room, at,
        high.above_eq,
      )

  top_Pieces :
      (above : Bool)
      → ((above ≡ true) × (base + high.size + 24 ≤ acme))
        ⊎ ((above ≡ false) × (base + high.size ≡ acme))
      → (a : ℕ) → a ≡ base + high.size
      → Pieces a (top_parts above (base + high.size) acme)
        × (end_of a (top_parts above (base + high.size) acme) ≡ acme)
  top_Pieces true eq a same = (
    (refl, omega (arith, when_true eq, same, low.opened.aligned, gap-Shape, high.room), tt),
    omega (arith, when_true eq, same),
  )
  top_Pieces false eq a same = (tt, omega (arith, when_false eq, same))

  top_Alternates : (above : Bool) → Alternates true (top_parts above (base + high.size) acme)
  top_Alternates true = (λ k. refl, tt)
  top_Alternates false = tt

  make :
      (p : Piece) (ps : List Piece)
      → Pieces g (p ∷ ps)
      → end_of g (p ∷ ps) ≡ acme
      → Alternates true (p ∷ ps)
      → IsSplice cs g acme true p ps
  make p ps pieces ends alternates =
      let (c, tagged, end) = h.tiling.below_gap g gap_here in
      let chunk = is_chunk_of_tagged (cs c) tagged in
      let lt = ends_before t cs h c g chunk end in
      record {
        cut_low = λ x lt. h.tiling.apart x g lt (ap is_chunk e);
        cut_high = λ x from below. elim (eq-or-ne x g) [
          | inl here ↦ omega (arith, here, ap (λ y. size_of (cs y)) here, size_eq)
          | inr ne ↦ omega (
            arith,
            ap size_of (inside_absent cs h.tiling g x (omega arith) (omega (arith, size_eq))),
          )
        ];
        pieces = pieces;
        fits = omega (arith, ends);
        alternates = alternates;
        tagged_below = λ k. (c, lt, tagged, end);
        chunk_below = λ k. (c, lt, chunk, end);
        seam_gap = λ k. absurd (true-false (sym k ∙ no_gap_end));
        seam_used = λ k. ends;
      }

  parts-IsSplice :
      (below : Bool)
      → ((below ≡ true) × (g + 24 ≤ base)) ⊎ ((below ≡ false) × (base ≡ g))
      → IsSplice cs g acme true (first_part below g base used) (later_parts below used top)
  parts-IsSplice true eq =
      let start : g + (base - g) ≡ base = omega (arith, when_true eq) in
      let t =
        top_Pieces high.above high.above_eq (g + (base - g) + high.size) (omega (arith, start)) in
      make (free_chunk (base - g)) (used ∷ top)
        (
          refl,
          omega (arith, when_true eq, gap-Shape, low.opened.aligned, high.above_eq, high.room),
          (refl, used-Shape (g + (base - g)) start, t.0),
        )
        t.1 (λ k. refl, (λ k. absurd (false-true k), top_Alternates high.above))
  parts-IsSplice false eq =
      let start : g ≡ base = sym (when_false eq) in
      let t = top_Pieces high.above high.above_eq (g + high.size) (omega (arith, start)) in
      make used top (refl, used-Shape g start, t.0) t.1
        (λ k. absurd (false-true k), top_Alternates high.above)

  abbrev map_left : ℕ → ℕ
  map_left = entry (base + high.size) (acme - (base + high.size)) (entry g (base - g) (gaps_of cs))

  inside_zero : (x : ℕ) → g ≤ x → x < acme → x ≢ g → gaps_of cs x ≡ 0
  inside_zero x from below ne =
      ap gap_size (inside_absent cs h.tiling g x (omega arith) (omega (arith, size_eq)))

  left_inside :
      (below above : Bool)
      → ((below ≡ true) × (g + 24 ≤ base)) ⊎ ((below ≡ false) × (base ≡ g))
      → ((above ≡ true) × (base + high.size + 24 ≤ acme))
        ⊎ ((above ≡ false) × (base + high.size ≡ acme))
      → (x : ℕ) → g ≤ x
      → x < acme
      → (x ≢ g → gaps_of cs x ≡ 0)
      → map_left x
        ≡ gap_size (
            tile g
              (first_part below g base used
                ∷ later_parts below used (top_parts above (base + high.size) acme))
              x)
  left_inside true true eq eq' x from lt z =
      ground (arith, when_true eq, when_true eq', z, high.room)
  left_inside true false eq eq' x from lt z =
      ground (arith, when_true eq, when_false eq', z, high.room)
  left_inside false true eq eq' x from lt z =
      ground (arith, when_false eq, when_true eq', z, high.room)
  left_inside false false eq eq' x from lt z =
      ground (arith, when_false eq, when_false eq', z, high.room)

  left_outside : (x : ℕ) → (x < g) ⊎ (acme ≤ x) → map_left x ≡ gaps_of cs x
  left_outside x out =
      let last : x ≡ acme → gaps_of cs x ≡ 0 =
        λ k. ap (gaps_of cs) k ∙ gap_size-none (cs acme) no_gap_end in
      ground (arith, out, last, high.above_eq, low.below_eq, high.room)

  parts_end :
      (below : Bool)
      → ((below ≡ true) × (g + 24 ≤ base)) ⊎ ((below ≡ false) × (base ≡ g))
      → end_of g (first_part below g base used ∷ later_parts below used top) ≡ acme
  parts_end true eq =
      (top_Pieces high.above high.above_eq (g + (base - g) + high.size)
        (omega (arith, when_true eq))).1
  parts_end false eq =
      (top_Pieces high.above high.above_eq (g + high.size) (omega (arith, when_false eq))).1

  next_eq : is_gap (splice g acme (first ∷ later) cs (end_of g (first ∷ later))) ≡ false
  next_eq =
      ap (λ x. is_gap (splice g acme (first ∷ later) cs x)) (parts_end low.below low.below_eq)
      ∙ ap is_gap (splice_outside g acme (first ∷ later) cs acme (inr (omega arith)))
      ∙ no_gap_end

  left_same : (x : ℕ) → map_left x ≡ gaps_of (splice g acme (first ∷ later) cs) x
  left_same x = elim (inside-or-outside g acme x) [
    | inl (from, lt) ↦
        left_inside low.below high.above low.below_eq high.above_eq x from lt
          (inside_zero x from lt)
        ∙ sym (ap gap_size (splice_inside g acme (first ∷ later) cs x from lt))
    | inr out ↦
        left_outside x out ∙ sym (ap gap_size (splice_outside g acme (first ∷ later) cs x out))
  ]

  left-IsOff :
      (x : ℕ)
      → (x < g) ⊎ (acme ≤ x)
      → IsOff t.bins (gaps_of cs) x
      → IsOff t2.bins (entry g (base - g) (gaps_of cs)) x
  left-IsOff x out off = record {
    off_bins = omega (arith, off.off_bins, low.bins_eq);
    off_gaps = λ y ne. elim (eq-or-ne y g) [
      | inl here ↦
          let value =
            ap (entry g (base - g) (gaps_of cs)) here ∙ entry-here g (base - g) (gaps_of cs) in
          omega (arith, here, value, out, low.below_eq, high.room, high.above_eq)
      | inr other ↦
          rw (entry-there g (base - g) (gaps_of cs) y other)
            (off.off_gaps y (λ z. ne (entry-there g (base - g) (gaps_of cs) y other ∙ z)))
    ];
  }

  all_kept :
      (x : ℕ) → (x < g) ⊎ (acme ≤ x) → x ≢ g - 8 → IsOff t.bins (gaps_of cs) x → t3.mem x ≡ t.mem x
  all_kept x out ne off =
      high.kept x (omega (arith, out, low.below_eq, at, high.room, high.above_eq))
        (left-IsOff x out off)
      ∙ low.kept x (omega (arith, out, low.below_eq, high.room, high.above_eq)) ne off

  gap_off : (g + s ≤ t.bins) ⊎ (t.bins + 1024 ≤ g)
  gap_off =
      let size = ap gap_size e in
      omega (
        arith,
        size,
        (entry-IsGap t (gaps_of cs) h.free g (omega (arith, size, gap-Shape))).off_bins,
      )

  parts_Tags :
      (below above : Bool)
      → ((below ≡ true) × (g + 24 ≤ base)) ⊎ ((below ≡ false) × (base ≡ g))
      → Tagged t3.mem above base used
      → Tags t3.mem false g (
          first_part below g base used
          ∷ later_parts below used (top_parts above (base + high.size) acme))
  parts_Tags true true eq tag =
      (tt, (subst (λ a. Tagged t3.mem true a used) (omega (arith, when_true eq)) tag, (tt, tt)))
  parts_Tags true false eq tag =
      (tt, (subst (λ a. Tagged t3.mem false a used) (omega (arith, when_true eq)) tag, tt))
  parts_Tags false true eq tag =
      (subst (λ a. Tagged t3.mem true a used) (when_false eq) tag, (tt, tt))
  parts_Tags false false eq tag = (subst (λ a. Tagged t3.mem false a used) (when_false eq) tag, tt)

  top_Offs : (above : Bool) (a : ℕ) → Offs t.bins a (top_parts above (base + high.size) acme)
  top_Offs true a = (tt, tt)
  top_Offs false a = tt

  parts_Offs :
      (below above : Bool)
      → ((below ≡ true) × (g + 24 ≤ base)) ⊎ ((below ≡ false) × (base ≡ g))
      → Offs t.bins g (
          first_part below g base used
          ∷ later_parts below used (top_parts above (base + high.size) acme))
  parts_Offs true above eq = (
    tt,
    (
      omega (arith, gap_off, when_true eq, high.room, high.above_eq),
      top_Offs above (g + (base - g) + high.size),
    ),
  )
  parts_Offs false above eq = (
    omega (arith, gap_off, when_false eq, high.room, high.above_eq),
    top_Offs above (g + high.size),
  )

  first_gap : (below : Bool) → is_gap (first_part below g base used) ≡ below
  first_gap true = refl
  first_gap false = refl

  pub allocated-IsAllocated : IsAllocated t cs g acme ptr len t3
  allocated-IsAllocated = record {
    base = base;
    size = high.size;
    below = low.below;
    above = high.above;
    from = low.below_eq;
    to = high.above_eq;
    room = (at, high.room.2);
    holds =
        rebuild t cs h g acme true first later (parts-IsSplice low.below low.below_eq) t3
          (same-IsFreeMap t3 map_left (gaps_of (splice g acme (first ∷ later) cs)) left_same
            high.free)
          (high.bins_eq ∙ low.bins_eq) all_kept
          (λ c lt at_c.
            subst (λ k. Tagged t3.mem k c (cs c)) (sym (first_gap low.below))
              (Tagged-frame t.bins cs h.tiling t2.mem t3.mem c low.below (h.off c)
                (λ x from to off.
                  high.kept x (omega (arith, at_c, low.below_eq, at))
                    (left-IsOff x (inl (omega arith)) off))
                (low.retag c lt at_c)))
          false next_eq (parts_Tags low.below high.above low.below_eq high.tagged)
          (parts_Offs low.below high.above low.below_eq);
    bins_eq = high.bins_eq ∙ low.bins_eq;
    kept = all_kept;
  }
