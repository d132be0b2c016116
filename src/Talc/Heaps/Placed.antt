-- ===== src/Talc/Heaps/Placed.antt =====
-- The bins stay placed, and the heap that `Talc::claim` and `Talc::extend` of talc/src/talc.rs
-- return, whatever the memory holds.
use talc.Base.{
  ℕ, ◌+◌, ◌-◌, ◌%◌, ◌^◌, ◌≤◌, ◌<◌, ◌≡◌, refl, ◌≢◌, inl, inr, some, Bool, true, false, arith, ◌∙◌,
  leb, ltb, if◌then◌else◌, eq-or-ne, Bool-cases, le→leb, lt→leb, ne→==,
}
use talc.PtrUtils.{align_down}
use talc.PtrUtils.Align.{align_up_of_aligned, align_down-eq}
use talc.Span
use talc.Span.{Span}
use talc.Counters.{account_claim, account_extend}
use talc.Talc.State.{Talc}
use talc.Talc.Outcome.{ok, err, panic}
use talc.Talc.Heaps.Outcomes.{claim_errs_iff}
use talc.Talc.Gaps.{
  register_gap, deregister_gap, count, is_chunk_size, is_gap_below, is_gap_above_heap_base,
}
use talc.Talc.Gaps.Register.Effects.{set_avails_bins}
use talc.Talc.Gaps.Deregister.Effects.{clear_avails_bins}
use talc.Talc.Heaps.{claim, claim_gap, claim_metadata, extend, extend_top, extend_bottom}

-- The bins of either state.
branch_bins :
    (c : Bool) (s t : Talc) (b : ℕ) → s.bins ≡ b → t.bins ≡ b → (if c then s else t).bins ≡ b
branch_bins true s t b i j = i
branch_bins false s t b i j = j

pub register_gap_bins : (base acme : ℕ) (t : Talc) → (register_gap base acme t).bins ≡ t.bins
unfolding register_gap
register_gap_bins base acme t = branch_bins _ _ t t.bins (set_avails_bins _ t) refl

pub deregister_gap_bins : (base bin : ℕ) (t : Talc) → (deregister_gap base bin t).bins ≡ t.bins
unfolding deregister_gap
deregister_gap_bins base bin t = branch_bins _ _ _ t.bins (clear_avails_bins bin _) refl

-- A span of whole words that does not reach the end of the address space.
pub record IsWhole (base acme : ℕ) : Type 0 where
  pub ne_null : base ≢ 0
  pub aligned : base % 8 ≡ 0
  pub whole : acme % 8 ≡ 0
  pub ordered : base < acme
  pub in_word : acme < 2 ^ 64

pub whole-inward :
    (base acme : ℕ)
    → IsWhole base acme
    → Span.word_align_inward (Span.new base acme) ≡ Span.new base acme
unfolding Span.word_align_inward
whole-inward base acme w =
    let up =
      align_up_of_aligned base (omega (arith, w.aligned, w.whole, w.ordered, w.in_word))
        w.aligned in
    let down : align_down acme ≡ acme = omega (arith, align_down-eq acme w.in_word, w.whole) in
    let fits : ltb (2 ^ 64 - 1 - base) 8 ≡ false = ground (arith, w) in rw (fits, up, down) refl

pub whole-off_null :
    (base acme : ℕ) → IsWhole base acme → Span.contains (Span.new base acme) 0 ≡ false
unfolding Span.contains
whole-off_null base acme w = ground (arith, w.ne_null)

pub whole-base_acme :
    (base acme : ℕ)
    → IsWhole base acme
    → Span.get_base_acme (Span.new base acme) ≡ some (base, acme)
unfolding Span.get_base_acme
whole-base_acme base acme w = rw (lt→leb acme base w.ordered) refl

whole-size : (base acme : ℕ) → IsWhole base acme → Span.size (Span.new base acme) ≡ acme - base
unfolding Span.size
whole-size base acme w = rw (lt→leb acme base w.ordered) refl

claim_metadata_bins : (base acme : ℕ) (t : Talc) → (claim_metadata base acme t).bins ≡ base + 8
unfolding claim_metadata
claim_metadata_bins base acme t = elim (Bool-cases (is_chunk_size (base + 8 + 1024 + 8) acme)) [
  | inl part ↦ rw part (register_gap_bins _ _ _)
  | inr all ↦ rw all (ground arith)
]

claim_gap_bins : (base acme : ℕ) (t : Talc) → (claim_gap base acme t).bins ≡ t.bins
unfolding claim_gap
claim_gap_bins base acme t = register_gap_bins _ _ _

-- Claiming whole words with room for the bins and two tags returns them, and places the bins.
pub record IsClaimed (base acme : ℕ) (t : Talc) : Type 0 where
  pub after : Talc
  pub result : claim (Span.new base acme) t ≡ ok (Span.new base acme) after
  pub placed : after.bins ≢ 0

pub claim-IsClaimed :
    (base acme : ℕ) (t : Talc) → IsWhole base acme → base + 1040 ≤ acme → IsClaimed base acme t
unfolding claim
claim-IsClaimed base acme t w room = elim (eq-or-ne t.bins 0) [
  | inl unplaced ↦ record {
    after = count (account_claim (acme - base)) (claim_metadata base acme t);
    result =
        rw (whole-inward base acme w, whole-off_null base acme w)
          (rw (whole-base_acme base acme w, whole-inward base acme w, unplaced)
            (rw (le→leb 1040 (acme - base) (omega (arith, room, w.ordered)), whole-size base acme w)
              refl));
    placed = omega (arith, claim_metadata_bins base acme t);
  }
  | inr already ↦ record {
    after = count (account_claim (acme - base)) (claim_gap base acme t);
    result =
        rw (whole-inward base acme w, whole-off_null base acme w)
          (rw (whole-base_acme base acme w, whole-inward base acme w, ne→== t.bins 0 already)
            (rw (le→leb 32 (acme - base) (omega (arith, room, w.ordered)), whole-size base acme w)
              refl));
    placed = omega (arith, already, claim_gap_bins base acme t);
  }
]

-- Extending a heap upwards, by a chunk or more, moves its upper end.
module _ (base acme new_acme : ℕ) (w : IsWhole base acme) (room : base + 32 ≤ acme)
    (more : acme + 24 ≤ new_acme) (whole : new_acme % 8 ≡ 0) (in_word : new_acme < 2 ^ 64) where
  top_moves :
      (t : Talc)
      → ((extend_top acme new_acme t).0 ≡ new_acme) × ((extend_top acme new_acme t).1.bins ≡ t.bins)
  unfolding extend_top is_chunk_size
  top_moves t = elim (Bool-cases (is_gap_below t acme)) [
    | inl gap ↦ rw gap (refl, register_gap_bins _ _ _ ∙ deregister_gap_bins _ _ _)
    | inr no_gap ↦ rw no_gap (rw large (refl, register_gap_bins acme new_acme t))
  ]
    where
      large : leb 24 ((new_acme + 2 ^ 64 - acme) % 2 ^ 64) ≡ true
      large = ground (arith, more, in_word, w.in_word)

  bottom_stays :
      (t : Talc)
      → ((extend_bottom base base t).0 ≡ base) × ((extend_bottom base base t).1.bins ≡ t.bins)
  unfolding extend_bottom is_chunk_size
  bottom_stays t = elim (Bool-cases (is_gap_above_heap_base t base)) [
    | inl gap ↦ rw gap (refl, register_gap_bins _ _ _ ∙ deregister_gap_bins _ _ _)
    | inr no_gap ↦ rw no_gap (rw small (refl, refl))
  ]
    where
      small : leb 24 ((base + 2 ^ 64 - base) % 2 ^ 64) ≡ false
      small = ground (arith, w.in_word, w.ordered)

  new-IsWhole : IsWhole base new_acme
  new-IsWhole = record {
    ne_null = w.ne_null;
    aligned = w.aligned;
    whole = whole;
    ordered = omega (arith, room, more);
    in_word = in_word;
  }

  within : Span.contains_span (Span.new base new_acme) (Span.new base acme) ≡ true
  unfolding Span.contains_span
  within = ground (arith, room, more)

  pub extend_up :
      (t : Talc)
      → t.bins ≢ 0
      → (s : Talc) × (extend (Span.new base acme) (Span.new base new_acme) t
          ≡ ok (Span.new base new_acme) s)
        × (s.bins ≢ 0)
  unfolding extend
  extend_up t placed =
      let top = top_moves t in
      let raised = (extend_top acme new_acme t).1 in
      let bottom = bottom_stays raised in
      (
        count (account_extend (Span.size (Span.new base acme)) (Span.size (Span.new base new_acme)))
            (extend_bottom base base raised).1,
        rw
            (
              ne→== t.bins 0 placed,
              whole-size base acme w,
              le→leb 32 (acme - base) (omega (arith, room)),
              within,
              whole-off_null base new_acme new-IsWhole,
              whole-inward base acme w,
              whole-inward base new_acme new-IsWhole,
            )
            (rw (whole-base_acme base acme w, whole-base_acme base new_acme new-IsWhole)
              (rw (top.0, bottom.0) refl)),
        omega (arith, placed, top.1, bottom.1),
      )

-- Up to the null address, where the end of a heap at the top of the address space wraps, nothing
-- can be claimed.
pub claim_to_null :
    (low : ℕ) (t : Talc)
    → low % 8 ≡ 0
    → low ≢ 0
    → low + 8 < 2 ^ 64
    → claim (Span.new low 0) t ≡ err t
unfolding Span.contains Span.word_align_inward Span.size Span.is_empty
claim_to_null low t whole ne fits =
    let off_null : Span.contains (Span.new low 0) 0 ≡ false = ground arith in
    let none_left : Span.size (Span.word_align_inward (Span.new low 0)) ≡ 0 =
      ground (arith, align_up_of_aligned low (omega arith) whole, align_down-eq 0 (omega arith)) in
    (claim_errs_iff (Span.new low 0) t t).1 (refl, off_null, ground (arith, none_left))

-- A heap cannot be extended to there.
pub extend_to_null :
    (base acme : ℕ) (t : Talc)
    → IsWhole base acme
    → base + 32 ≤ acme
    → t.bins ≢ 0
    → extend (Span.new base acme) (Span.new base 0) t ≡ panic
unfolding extend Span.contains_span
extend_to_null base acme t w room placed =
    let outside : Span.contains_span (Span.new base 0) (Span.new base acme) ≡ false =
      ground (arith, room) in
    rw
      (
        ne→== t.bins 0 placed,
        whole-size base acme w,
        le→leb 32 (acme - base) (omega (arith, room)),
        outside,
      )
      refl
