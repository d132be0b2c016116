-- ===== src/Tests/Words.antt =====
-- Runs of the models of talc/src/ptr_utils.rs, talc/src/span.rs, talc/src/talc/tag.rs and
-- talc/src/talc/counters.rs.
use talc.Base.{◌↔◌}
use talc.Base.{ℕ, ◌+◌, ◌-◌, ◌%◌, ◌^◌, ◌≤◌, ◌<◌, ◌≡◌, refl, ◌⊎◌, true, false, arith}
use talc.PtrUtils.{align_up, align_up_by, align_up_overflows}
use talc.PtrUtils.Align.{align_up-least, align_up_by-least}
use talc.Mem.{Mem}
use talc.Span
use talc.Span.{
  Span, contains, contains_span, overlaps, eq, except, is_sized, is_empty, size, fit_within,
  fit_over, word_align_inward, word_align_outward, extend, truncate, from_base_size, empty,
}
use talc.Span.Sets.{◌∈◌, is_sized_iff, contains_span_iff, overlaps_iff}
use talc.Span.Fit.{
  Outward, word_align_outward-Outward, fit_over-empty, IsAligned, word_align_inward-greatest,
}
use talc.Span.Resize.{truncate-extend, from_base_size_lem}
use talc.Tag
use talc.Tag.{chunk_base, is_above_free, is_allocated, set_above_free, clear_above_free}
use talc.Tag.Laws.{read-write}
use talc.Counters.{zeroed, account_alloc, account_shrink_in_place}
use talc.Counters.Laws.{shrink-alloc}

align_up-least_example :
    (align_up 13 % 8 ≡ 0) × (13 ≤ align_up 13) × (13 ≤ 24 → 24 % 8 ≡ 0 → align_up 13 ≤ 24)
unfolding align_up_overflows
align_up-least_example = align_up-least 13 24 (omega arith) refl

align_up_by-least_example :
    (align_up_by 33 (2 ^ 5 - 1) % 2 ^ 5 ≡ 0)
    × (33 ≤ align_up_by 33 (2 ^ 5 - 1))
    × (33 ≤ 96 → 96 % 2 ^ 5 ≡ 0 → align_up_by 33 (2 ^ 5 - 1) ≤ 96)
align_up_by-least_example = align_up_by-least 5 33 96 (omega arith) (omega arith)

abbrev low : Span
low = Span.new 9 30

abbrev high : Span
high = Span.new 16 41

is_sized_iff_example : (is_sized low ≡ true) ↔ ((p : ℕ) × (p ∈ low))
is_sized_iff_example = is_sized_iff low

contains_span_iff_example : (contains_span low high ≡ true) ↔ ((p : ℕ) → p ∈ high → p ∈ low)
contains_span_iff_example = contains_span_iff low high

overlaps_iff_example : (overlaps low high ≡ true) ↔ ((p : ℕ) × (p ∈ low) × (p ∈ high))
overlaps_iff_example = overlaps_iff low high

fit_over-empty_example :
    (0 ∈ fit_over empty low) × (contains empty 0 ≡ false) × (contains low 0 ≡ false)
unfolding is_sized
fit_over-empty_example = fit_over-empty low refl (omega arith)

word_align_inward-greatest_example :
    IsAligned (word_align_inward low)
    × (contains_span low (word_align_inward low) ≡ true)
    × (IsAligned (Span.new 16 24)
        → contains_span low (Span.new 16 24) ≡ true
        → contains_span (word_align_inward low) (Span.new 16 24) ≡ true)
word_align_inward-greatest_example =
    word_align_inward-greatest low (Span.new 16 24) (omega arith, omega arith)

word_align_outward-Outward_example : Outward low (word_align_outward low)
unfolding is_sized
word_align_outward-Outward_example = word_align_outward-Outward low (omega arith, omega arith) refl

truncate-extend_example :
    (contains_span (Span.new 4 36) low ≡ true)
    × (size (Span.new 4 36) ≡ size low + 5 + 6)
    × (truncate (Span.new 4 36) 5 6 ≡ low)
unfolding is_sized extend
truncate-extend_example =
    truncate-extend low (Span.new 4 36) 5 6 (omega arith, omega arith) refl refl

from_base_size_lem_example :
    ((9 + 21 < 2 ^ 64) × (size (from_base_size 9 21) ≡ 21))
    ⊎ ((2 ^ 64 ≤ 9 + 21) × (is_empty (from_base_size 9 21) ≡ true))
from_base_size_lem_example = from_base_size_lem 9 21 (omega arith) (omega arith)

abbrev blank : Mem
blank a = 0

read-write_example :
    (chunk_base (Tag.write blank 96 64 true 96) ≡ 64)
    × (is_above_free (Tag.write blank 96 64 true 96) ≡ true)
    × (is_allocated (Tag.write blank 96 64 true 96) ≡ true)
read-write_example = read-write blank 96 64 true (refl, omega arith)

shrink-alloc_example :
    account_shrink_in_place 40 16 (account_alloc 40 zeroed) ≡ account_alloc 16 zeroed
unfolding zeroed
shrink-alloc_example =
    shrink-alloc zeroed 40 16 (omega arith) (omega arith) (omega arith) (omega arith)
