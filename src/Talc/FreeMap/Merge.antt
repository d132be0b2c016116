-- ===== src/Talc/FreeMap/Merge.antt =====
-- What `Talc::free`, `Talc::shrink` and `Talc::grow_in_place` of talc/src/talc.rs do to the map of
-- the gaps where they take the gaps beside a chunk out of the bins.
use talc.Base.{
  ℕ, ◌+◌, ◌-◌, ◌≡◌, refl, ◌≢◌, inl, inr, Bool, true, false, not, arith, ap, sym, subst, ◌∙◌,
  eq-or-ne, fun_ext, ◌==◌, ne→==, eq→==, Bool-cases, bit_and,
}
use talc.Base.Bits.{bit_and-one}
use talc.Tag.{tag_of, is_above_free, is_allocated, allocated_flag}
use talc.Tag
use talc.Tag.Laws.{IsBase, is_allocated-tag_of, set_above_free_lem}
use talc.Talc.State.{Talc}
use talc.Talc.SizeClass.{bin_of_size}
use talc.Talc.Gaps.{deregister_gap, is_gap_below, gap_acme_to_base_size, store}
use talc.Talc.Free.{merge_below, merge_above}
use talc.Talc.FreeMap.{
  IsFreeMap, IsOff, entry-IsGap, deregister-IsFreeMap, deregister_bins, deregister_kept,
}
use talc.Talc.FreeMap.Member.{entry}

pub same-IsFreeMap :
    (t : Talc) (f g : ℕ → ℕ) → ((x : ℕ) → f x ≡ g x) → IsFreeMap t f → IsFreeMap t g
same-IsFreeMap t f g same m = subst (IsFreeMap t) (fun_ext same) m

pub entry-same : (a n : ℕ) (f : ℕ → ℕ) (x : ℕ) → f a ≡ n → f x ≡ entry a n f x
entry-same a n f x e = elim (eq-or-ne x a) [
  | inl at ↦ rw (eq→== x a at) (ap f at ∙ e)
  | inr ne ↦ rw (ne→== x a ne) refl
]

pub entry-here : (a n : ℕ) (f : ℕ → ℕ) → entry a n f a ≡ n
entry-here a n f = rw (eq→== a a refl) refl

pub entry-there : (a n : ℕ) (f : ℕ → ℕ) (x : ℕ) → x ≢ a → entry a n f x ≡ f x
entry-there a n f x ne = rw (ne→== x a ne) refl

-- With a gap less, a word that was off the gaps still is.
pub cleared-IsOff : (bins a : ℕ) (f : ℕ → ℕ) (w : ℕ) → IsOff bins f w → IsOff bins (entry a 0 f) w
cleared-IsOff bins a f w off = record {
  off_bins = off.off_bins;
  off_gaps = λ g ne. elim (eq-or-ne g a) [
    | inl e ↦ absurd (ne (ap (entry a 0 f) e ∙ entry-here a 0 f))
    | inr other ↦
        rw (entry-there a 0 f g other) (off.off_gaps g (λ z. ne (entry-there a 0 f g other ∙ z)))
  ];
}

-- What taking out the gap at `at`, where there is one, leaves: `r` is the merge's new end and state.
pub record IsMerged (t : Talc) (f : ℕ → ℕ) (at : ℕ) (t' : Talc) : Type 0 where
  pub free : IsFreeMap t' (entry at 0 f)
  pub bins_eq : t'.bins ≡ t.bins
  pub kept : (w : ℕ) → IsOff t.bins f w → t'.mem w ≡ t.mem w

not-true : (b : Bool) → not b ≡ true → b ≡ false
not-true true e = sym e
not-true false e = refl

allocated-flag : (w : ℕ) → is_allocated w ≡ true → (bit_and w 1 == 0) ≡ false
unfolding is_allocated
allocated-flag w e = not-true (bit_and w 1 == 0) e

module _ (t : Talc) (f : ℕ → ℕ) (m : IsFreeMap t f) where
  pub taken-IsMerged : (a : ℕ) → f a ≢ 0 → IsMerged t f a (deregister_gap a (bin_of_size (f a)) t)
  taken-IsMerged a ne = record {
    free = deregister-IsFreeMap t f m a ne;
    bins_eq = deregister_bins t f m a ne;
    kept = deregister_kept t f m a ne;
  }

  same-IsMerged : (a : ℕ) → f a ≡ 0 → IsMerged t f a t
  same-IsMerged a e = record {
    free = same-IsFreeMap t f (entry a 0 f) (λ x. entry-same a 0 f x e) m;
    bins_eq = refl;
    kept = λ w off. refl;
  }

  pub merge_above_lem :
      (tag acme : ℕ)
      → (is_above_free tag ≡ true → f acme ≢ 0)
      → (is_above_free tag ≡ false → f acme ≡ 0)
      → ((merge_above tag acme t).0 ≡ acme + f acme) × IsMerged t f acme (merge_above tag acme t).1
  unfolding merge_above
  merge_above_lem tag acme gap none = elim (Bool-cases (is_above_free tag)) [
    | inl e ↦
        let size = (entry-IsGap t f m acme (gap e)).low_size in
        rw (e, size) (refl, taken-IsMerged acme (gap e))
    | inr e ↦ rw e (omega (arith, none e), same-IsMerged acme (none e))
  ]

  pub merge_below-gap :
      (a acme : ℕ)
      → f a ≢ 0
      → a + f a ≡ acme
      → ((merge_below acme t).0 ≡ a) × IsMerged t f a (merge_below acme t).1
  unfolding merge_below is_gap_below gap_acme_to_base_size
  merge_below-gap a acme ne e =
      let g = entry-IsGap t f m a ne in
      let size : t.mem (acme - 8) ≡ f a = subst (λ x. t.mem (x - 8) ≡ f a) e g.high_size in
      let clear : (bit_and (f a) 1 == 0) ≡ true = ground (arith, bit_and-one (f a), g.whole) in
      let base : acme - f a ≡ a = omega arith in rw (size, clear, base) (refl, taken-IsMerged a ne)

  -- Below a chunk whose tag is at `acme - 8`, its flag is set.
  pub merge_below-tag :
      (base acme : ℕ)
      → IsBase base
      → t.mem (acme - 8) ≡ tag_of base false
      → merge_below acme t ≡ (acme, store (acme - 8) (tag_of base true) t)
  unfolding merge_below is_gap_below Tag.write
  merge_below-tag base acme whole tag =
      let clear : (bit_and (tag_of base false) 1 == 0) ≡ false =
        allocated-flag (tag_of base false) (is_allocated-tag_of base false whole) in
      rw (tag, clear, set_above_free_lem t.mem (acme - 8) base whole tag) refl
