-- ===== src/Span/Fit.antt =====
-- The span operations of talc/src/span.rs that align a span or fit it to another.
use talc.Base.{
  Option, none, refl, ℕ, ◌+◌, ◌*◌, ◌/◌, ◌%◌, ◌^◌, ◌≤◌, ◌<◌, ◌≡◌, ◌↔◌, ◌⊎◌, true, false, some, arith,
  inl, inr,
}
use talc.PtrUtils.{usize_max, align}
use talc.PtrUtils.Align.{align_up-eq, align_down-eq}
use talc.Span.{
  Span, new, empty, is_sized, contains, contains_span, fit_within, fit_over, word_align_inward,
  word_align_outward,
}
use talc.Span.Sets.{◌∈◌}

-- fit_within contains exactly the addresses that lie in both spans.
pub fit_within_iff : (s other : Span) (p : ℕ) → (p ∈ fit_within s other) ↔ ((p ∈ s) × (p ∈ other))
unfolding fit_within contains
fit_within_iff s other p = ground arith

-- For a sized span, fit_over contains both spans and lies in every span that contains both.
pub fit_over-least :
    (s other t : Span)
    → is_sized s ≡ true
    → (contains_span (fit_over s other) s ≡ true)
      × (contains_span (fit_over s other) other ≡ true)
      × (contains_span t s ≡ true
          → contains_span t other ≡ true
          → contains_span t (fit_over s other) ≡ true)
unfolding fit_over contains_span is_sized
fit_over-least s other t sized = (ground arith, ground arith, λ h k. ground arith)

-- fit_over of the empty span that Span::empty makes and a sized span away from the null address
-- contains the null address, which neither of the two contains.
pub fit_over-empty :
    (other : Span)
    → is_sized other ≡ true
    → 0 < other.base
    → (0 ∈ fit_over empty other) × (contains empty 0 ≡ false) × (contains other 0 ≡ false)
unfolding fit_over contains is_sized
fit_over-empty other sized pos = ground arith

-- Both ends are addresses.
abbrev pub InWord : Span → Type 0
InWord s = (s.base < 2 ^ 64) × (s.acme < 2 ^ 64)

abbrev pub IsAligned : Span → Type 0
IsAligned s = (s.base % 8 ≡ 0) × (s.acme % 8 ≡ 0)

word_align_inward-cases :
    (s : Span)
    → InWord s
    → ((usize_max < s.base + align) × (word_align_inward s ≡ empty))
      ⊎ ((s.base + align ≤ usize_max)
          × (word_align_inward s ≡ new ((s.base + 7) / 8 * 8) (s.acme / 8 * 8)))
unfolding word_align_inward
word_align_inward-cases s h = ground (arith, align_up-eq s.base, align_down-eq s.acme)

-- For a span of words, word_align_inward is aligned, lies in the span, and contains every aligned
-- span that does.
pub word_align_inward-greatest :
    (s t : Span)
    → InWord s
    → IsAligned (word_align_inward s)
      × (contains_span s (word_align_inward s) ≡ true)
      × (IsAligned t → contains_span s t ≡ true → contains_span (word_align_inward s) t ≡ true)
unfolding contains_span
word_align_inward-greatest s t h = elim (word_align_inward-cases s h) [
  | inl (far, e) ↦ rw e (omega arith, ground arith, λ a k. ground arith)
  | inr (near, e) ↦ rw e (omega arith, ground arith, λ a k. ground arith)
]

word_align_outward-some :
    (s r : Span)
    → InWord s
    → word_align_outward s ≡ some r
    → r ≡ new (s.base / 8 * 8) ((s.acme + 7) / 8 * 8)
unfolding word_align_outward
word_align_outward-some s r h e = ground (arith, align_up-eq s.acme, align_down-eq s.base)

-- Where it does not panic, the result is the least aligned span around the span.
word_align_outward-least :
    (s r t : Span)
    → InWord s
    → is_sized s ≡ true
    → word_align_outward s ≡ some r
    → IsAligned r
      × (contains_span r s ≡ true)
      × (IsAligned t → contains_span t s ≡ true → contains_span t r ≡ true)
unfolding contains_span is_sized
word_align_outward-least s r t h sized e =
    rw (word_align_outward-some s r h e) (omega arith, ground arith, λ a k. ground arith)

-- The result is aligned, contains the span, and lies in every aligned span that does.
abbrev pub Outward : Span → Option Span → Type 0
Outward s none = usize_max < s.acme + align
Outward s (some r) =
    (s.acme + align ≤ usize_max)
    × IsAligned r
    × (contains_span r s ≡ true)
    × ((t : Span) → IsAligned t → contains_span t s ≡ true → contains_span t r ≡ true)

-- For a sized span of words, word_align_outward panics, and then the word size added to the span's
-- upper end leaves the words; or it does not, and then the result is aligned, contains the span,
-- and lies in every aligned span that does.
pub word_align_outward-Outward :
    (s : Span) → InWord s → is_sized s ≡ true → Outward s (word_align_outward s)
unfolding word_align_outward
word_align_outward-Outward s h sized = by_result (word_align_outward s) refl
  where
    fails : word_align_outward s ≡ none → usize_max < s.acme + align
    fails e = ground arith

    goes_on : (r : Span) → word_align_outward s ≡ some r → s.acme + align ≤ usize_max
    goes_on r e = ground arith

    by_result : (o : Option Span) → word_align_outward s ≡ o → Outward s o
    by_result none e = fails e
    by_result (some r) e =
        let l = word_align_outward-least s r r h sized e in
        (goes_on r e, l.0, l.1, λ t. (word_align_outward-least s r t h sized e).2)
