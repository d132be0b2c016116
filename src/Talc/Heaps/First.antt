-- ===== src/Talc/Heaps/First.antt =====
-- What the first `Talc::claim` of talc/src/talc.rs does: it places the bins in the heap.
use talc.Base.{
  ℕ, zero, suc, ◌+◌, ◌-◌, ◌*◌, ◌%◌, ◌^◌, ◌≤◌, ◌<◌, ◌≡◌, refl, inl, inr, Bool, true, false, [], ◌∷◌,
  arith, ◌==◌, le→leb, lt→leb, eq-or-ne, if◌then◌else◌, subst, ◌∙◌, Bool-cases,
}
use talc.Base.Lists.{All}
use talc.Mem.{Mem, write, write_self, write_ne}
use talc.Tag
use talc.Tag.{tag_of}
use talc.Talc.State.{Talc}
use talc.Talc.SizeClass.{bin_of_size}
use talc.Talc.Gaps.{register_gap, store, count, is_chunk_size}
use talc.Talc.Gaps.Empty.{no_gaps, no_gaps-Holds}
use talc.Talc.Gaps.View.{Gap, gap, OutsideGap, IsRegion, View, Holds}
use talc.Talc.Gaps.Update.{put, by_bin}
use talc.Talc.Gaps.Frame.{IsElsewhere, store-Holds, count-Holds}
use talc.Talc.Gaps.Register.{register_gap-Holds}
use talc.Talc.Gaps.Register.Effects.{result_bins}
use talc.Talc.Heaps.{init_bins, claim_metadata, claim}
use talc.Talc.Outcome.{ok}
use talc.Span
use talc.Span.{Span, size, get_base_acme, word_align_inward, contains}
use talc.Counters.{account_claim}

pub init_bins-below :
    (left p i : ℕ) (m : Mem) (a : ℕ) → a < p + 8 * i → init_bins left p i m a ≡ m a
unfolding init_bins
init_bins-below zero p i m a lt = refl
init_bins-below (suc left) p i m a lt =
    init_bins-below left p (i + 1) (write m (p + 8 * i) 0) a (omega arith)
    ∙ write_ne m (p + 8 * i) 0 a (omega arith)

-- The loop makes every bin null.
init_bins-zero :
    (left p i : ℕ) (m : Mem) (j : ℕ) → i ≤ j → j < i + left → init_bins left p i m (p + 8 * j) ≡ 0
unfolding init_bins
init_bins-zero zero p i m j le lt = absurd (omega arith)
init_bins-zero (suc left) p i m j le lt = elim (eq-or-ne i j) [
  | inl e ↦
      subst (λ (n : ℕ). init_bins left p (i + 1) (write m (p + 8 * i) 0) (p + 8 * n) ≡ 0) e
        (init_bins-below left p (i + 1) (write m (p + 8 * i) 0) (p + 8 * i) (omega arith)
          ∙ write_self m (p + 8 * i) 0)
  | inr ne ↦ init_bins-zero left p (i + 1) (write m (p + 8 * i) 0) j (omega arith) (omega arith)
]

-- The gap above the bins, their tags included.
abbrev pub top_gap : ℕ → ℕ → Gap
top_gap base acme = gap (base + 1040) (acme - (base + 1040))

-- The view after the first claim: what is above the bins, if it is large enough for a gap.
abbrev pub first_view : ℕ → ℕ → View
first_view base acme =
    if is_chunk_size (base + 1040) acme
    then put (bin_of_size (acme - (base + 1040))) (top_gap base acme ∷ []) no_gaps
    else no_gaps

module _ (t : Talc) (low : t.availability_low ≡ 0) (high : t.availability_high ≡ 0) (base acme : ℕ)
    (aligned : base % 8 ≡ 0) (whole : acme % 8 ≡ 0) (in_word : acme < 2 ^ 64)
    (room : base + 1040 ≤ acme) where
  abbrev pub placed : Talc
  placed = record t {
    mem = init_bins 128 (base + 8) 0 (write t.mem base (tag_of 0 false));
    bins = base + 8;
  }

  pub placed-Holds : Holds placed no_gaps
  placed-Holds = no_gaps-Holds placed low high (λ b lt.
      subst (λ (a : ℕ). placed.mem a ≡ 0) (omega arith)
        (init_bins-zero 128 (base + 8) 0 (write t.mem base (tag_of 0 false)) b (omega arith)
          (omega arith)))

  large : is_chunk_size (base + 1040) acme ≡ true → base + 1040 + 24 ≤ acme
  unfolding is_chunk_size
  large e = ground arith

  top-IsRegion : base + 1040 + 24 ≤ acme → IsRegion (base + 8) (top_gap base acme)
  top-IsRegion le = record {
    large = omega arith;
    whole = omega arith;
    aligned = omega arith;
    ne_null = omega arith;
    in_word = omega arith;
    off_bins = inr (omega arith);
  }

  registered-Holds :
      base + 1040 + 24 ≤ acme
      → Holds
          (register_gap (base + 1040) acme placed)
          (put (bin_of_size (acme - (base + 1040))) (top_gap base acme ∷ []) no_gaps)
  registered-Holds le =
      let e : base + 1040 + (acme - (base + 1040)) ≡ acme = omega arith in
      subst
        (λ (a : ℕ).
          Holds (register_gap (base + 1040) a placed)
            (put (bin_of_size (acme - (base + 1040))) (top_gap base acme ∷ []) no_gaps))
        e
        (register_gap-Holds placed (top_gap base acme) (top-IsRegion le) no_gaps placed-Holds
          (λ c lt. tt))

  registered_bins :
      base + 1040 + 24 ≤ acme → (register_gap (base + 1040) acme placed).bins ≡ base + 8
  registered_bins le =
      let e : base + 1040 + (acme - (base + 1040)) ≡ acme = omega arith in
      subst (λ (a : ℕ). (register_gap (base + 1040) a placed).bins ≡ base + 8) e
        (result_bins placed (top_gap base acme) (top-IsRegion le))

  tag-IsElsewhere :
      (le : base + 1040 + 24 ≤ acme)
      → IsElsewhere
          (register_gap (base + 1040) acme placed)
          (put (bin_of_size (acme - (base + 1040))) (top_gap base acme ∷ []) no_gaps)
          (base + 8 + 1024)
  tag-IsElsewhere le = record {
    off_bins = inr (omega (arith, registered_bins le));
    off_gaps =
        by_bin (bin_of_size (acme - (base + 1040))) (top_gap base acme ∷ []) no_gaps
          (λ c gs. All (OutsideGap (base + 8 + 1024)) gs) (inl (omega arith), tt) (λ c lt ne. tt);
  }

  above-IsElsewhere :
      (m : Mem) (a : ℕ) → base + 1032 ≤ a → IsElsewhere (record placed { mem = m }) no_gaps a
  above-IsElsewhere m a le = record { off_bins = inr (omega arith); off_gaps = λ c lt. tt }

  tagged-Holds :
      (linked : Bool)
      → Holds
          (store
            (acme - 8)
            (tag_of base false)
            (if linked then placed else store (base + 8 + 1024) (acme - 8) placed))
          no_gaps
  tagged-Holds true =
      store-Holds placed no_gaps (acme - 8) (tag_of base false)
        (above-IsElsewhere placed.mem (acme - 8) (omega arith)) placed-Holds
  tagged-Holds false =
      store-Holds (store (base + 8 + 1024) (acme - 8) placed) no_gaps (acme - 8) (tag_of base false)
        (above-IsElsewhere (write placed.mem (base + 8 + 1024) (acme - 8)) (acme - 8) (omega arith))
        (store-Holds placed no_gaps (base + 8 + 1024) (acme - 8)
          (above-IsElsewhere placed.mem (base + 8 + 1024) (omega arith)) placed-Holds)

  pub claim_metadata-Holds : Holds (claim_metadata base acme t) (first_view base acme)
  unfolding claim_metadata Tag.write
  claim_metadata-Holds =
      let e : base + 8 + 1024 + 8 ≡ base + 1040 = omega arith in
      elim (Bool-cases (is_chunk_size (base + 1040) acme)) [
        | inl big ↦
            rw (e, big)
              (store-Holds (register_gap (base + 1040) acme placed)
                (put (bin_of_size (acme - (base + 1040))) (top_gap base acme ∷ []) no_gaps)
                (base + 8 + 1024) (tag_of base true) (tag-IsElsewhere (large big))
                (registered-Holds (large big)))
        | inr small ↦ rw (e, small) (tagged-Holds (acme - 8 == base + 8 + 1024))
      ]

  pub first_claimed :
      (memory : Span)
      → word_align_inward memory ≡ Span.new base acme
      → contains memory 0 ≡ false
      → t.bins ≡ 0
      → claim memory t
        ≡ ok (Span.new base acme) (count (account_claim (acme - base)) (claim_metadata base acme t))
  unfolding claim get_base_acme size
  first_claimed memory inward off unplaced =
      rw (inward, off, lt→leb acme base (omega arith))
        (rw unplaced (
          rw (le→leb 1040 (acme - base) (omega arith), inward, lt→leb acme base (omega arith))
            refl))

  -- While the bins are not placed and no flag is set, claiming a span off the null address, whose
  -- aligned part has room for the bins and two tags, returns that part and leads to a state that
  -- holds the view of one gap, all of the part above the bins and their tags, or the empty view if
  -- that is too small for a gap.
  pub claim-first :
      (memory : Span)
      → word_align_inward memory ≡ Span.new base acme
      → contains memory 0 ≡ false
      → t.bins ≡ 0
      → (s : Talc) × (claim memory t ≡ ok (Span.new base acme) s) × Holds s (first_view base acme)
  claim-first memory inward off unplaced = (
    count (account_claim (acme - base)) (claim_metadata base acme t),
    first_claimed memory inward off unplaced,
    count-Holds (claim_metadata base acme t) (first_view base acme) (account_claim (acme - base))
        claim_metadata-Holds,
  )
