-- ===== src/Span/Sets.antt =====
-- A span of talc/src/span.rs as the set of the addresses that it contains.
use talc.Base.{ℕ, ◌-◌, ◌≤◌, ◌<◌, ◌≡◌, ◌↔◌, ◌⊎◌, true, false, leb, arith, Bool-cases, inl, inr}
use talc.Span.{Span, is_sized, eq, contains, contains_span, overlaps, except}

-- Address `p` lies in the span.
infix 50 ◌∈◌
abbrev pub ◌∈◌ : ℕ → Span → Type 0
p ∈ s = contains s p ≡ true

pub contains_iff : (s : Span) (p : ℕ) → (p ∈ s) ↔ ((s.base ≤ p) × (p < s.acme))
unfolding contains
contains_iff s p = ground arith

-- Exactly the sized spans contain an address, and then their base is one.
pub is_sized_iff : (s : Span) → (is_sized s ≡ true) ↔ ((p : ℕ) × (p ∈ s))
unfolding is_sized contains
is_sized_iff s = (λ h. (s.base, ground arith), λ w. is_sized_of w.0 w.1)
  where
    is_sized_of : (p : ℕ) → p ∈ s → is_sized s ≡ true
    is_sized_of p h = ground arith

-- contains_span is inclusion of the sets of addresses.
pub contains_span_iff :
    (s other : Span) → (contains_span s other ≡ true) ↔ ((p : ℕ) → p ∈ other → p ∈ s)
unfolding contains_span contains
contains_span_iff s other = (λ h p i. ground arith, back)
  where
    back : ((p : ℕ) → p ∈ other → p ∈ s) → contains_span s other ≡ true
    back h = ground (arith, h other.base, h (other.acme - 1))

-- overlaps holds exactly if some address lies in both spans.
pub overlaps_iff : (s other : Span) → (overlaps s other ≡ true) ↔ ((p : ℕ) × (p ∈ s) × (p ∈ other))
unfolding overlaps contains
overlaps_iff s other = (there, λ w. back w.0 w.1 w.2)
  where
    there : overlaps s other ≡ true → (p : ℕ) × (p ∈ s) × (p ∈ other)
    there h = elim (Bool-cases (leb s.base other.base)) [
      | inl e ↦ (other.base, ground arith, ground arith)
      | inr e ↦ (s.base, ground arith, ground arith)
    ]

    back : (p : ℕ) → p ∈ s → p ∈ other → overlaps s other ≡ true
    back p i j = ground arith

-- Two spans are equal by the code's test exactly if they contain the same addresses.
pub eq_iff : (s other : Span) → (eq s other ≡ true) ↔ ((p : ℕ) → (p ∈ s) ↔ (p ∈ other))
unfolding eq contains
eq_iff s other = (there, back)
  where
    there : eq s other ≡ true → (p : ℕ) → (p ∈ s) ↔ (p ∈ other)
    there h p = ground arith

    back : ((p : ℕ) → (p ∈ s) ↔ (p ∈ other)) → eq s other ≡ true
    back h =
        ground (arith, (h s.base).0, (h (s.acme - 1)).0, (h other.base).1, (h (other.acme - 1)).1)

-- The two spans that except gives contain exactly the addresses of the span that are not in the
-- excluded one.
pub except_iff :
    (s exclude : Span) (p : ℕ)
    → ((p ∈ (except s exclude).0) ⊎ (p ∈ (except s exclude).1))
      ↔ ((p ∈ s) × (contains exclude p ≡ false))
unfolding except contains
except_iff s exclude p = ground arith
