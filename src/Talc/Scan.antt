-- ===== src/Talc/Scan.antt =====
-- The debug check `Talc::scan_for_errors` of talc/src/talc.rs, as the tests and the fuzzer build
-- it: the walk over all bins that compares flags, gap sizes and tags, and that no gap overlaps
-- another. A failed `assert!` is a panic. The loop over the nodes of a bin runs on fuel.
pub mod Passes
use talc.Base.{
  ℕ, zero, suc, ◌+◌, ◌-◌, ◌^◌, Bool, true, false, not, bit_and, ltb, ◌==◌, ◌&&◌, if◌then◌else◌,
  List, [], ◌∷◌, ◌++◌, none, some,
}
use talc.PtrUtils.{word_bits}
use talc.Llist
use talc.Tag
use talc.Span
use talc.Span.{Span}
use talc.Talc.Layout.{tag_size, bin_count}
use talc.Talc.State.{Talc}
use talc.Talc.Outcome.{Outcome, ok, err, panic, out_of_fuel}
use talc.Talc.Heaps.{assert}
use talc.Talc.Gaps.{gap_node_to_base, gap_base_to_acme_size, gap_acme_to_size, get_bin_ptr}

-- The test of the availability flag of a bin.
unfoldable pub is_available : Talc → ℕ → Bool
is_available t b =
    if ltb b word_bits
    then not (bit_and t.availability_low (2 ^ b) == 0)
    else not (bit_and t.availability_high (2 ^ (b - word_bits)) == 0)

-- The loop over the spans seen before.
abbrev pub none_overlap : Span → List Span → Bool
none_overlap span [] = true
none_overlap span (other ∷ vec) = not (Span.overlaps span other) && none_overlap span vec

-- One round of the loop over the nodes of bin `b`; returns the spans seen.
unfoldable pub scan_node : Talc → (b : ℕ) → List Span → (node : ℕ) → Outcome Talc (List Span)
unfolding is_available gap_base_to_acme_size
scan_node t b vec node =
    let base = gap_node_to_base node in
    let (acme, size) = gap_base_to_acme_size t base in
    let low_size = t.mem (gap_acme_to_size acme) in
    let lower_tag = t.mem (base - tag_size) in
    let span = Span.new base acme in
    assert (is_available t b) (
      assert (low_size == size) (
        assert (Tag.is_allocated lower_tag) (
          assert (Tag.is_above_free lower_tag)
            (assert (none_overlap span vec) (ok (vec ++ span ∷ []) t)))))

-- The loop over the nodes of bin `b`; returns whether there was any, and the spans seen.
unfoldable pub scan_bin :
    ℕ → Talc → (b : ℕ) (any : Bool) → List Span → (current : ℕ) → Outcome Talc (Bool × List Span)
unfolding Llist.step scan_node
scan_bin zero t b any vec current = out_of_fuel
scan_bin (suc fuel) t b any vec current = elim (Llist.step t.mem current) [
  | none ↦ ok (any, vec) t
  | some (node, rest) ↦ elim (scan_node t b vec node) [
    | ok seen _ ↦ scan_bin fuel t b true seen rest
    | err _ ↦ err t
    | panic ↦ panic
    | out_of_fuel ↦ out_of_fuel
  ]
]

-- The loop over the bins from `b` on, with `left` of them to go.
unfoldable pub scan_all :
    (left : ℕ) → (nodes : ℕ) → Talc → (b : ℕ) → List Span → Outcome Talc (Unit {0})
unfolding scan_bin is_available
scan_all zero nodes t b vec = ok tt t
scan_all (suc left) nodes t b vec = elim (scan_bin nodes t b false vec (t.mem (get_bin_ptr t b))) [
  | ok (any, seen) _ ↦
      let rest = scan_all left nodes t (b + 1) seen in
      if any then rest else assert (not (is_available t b)) rest
  | err _ ↦ err t
  | panic ↦ panic
  | out_of_fuel ↦ out_of_fuel
]

unfoldable pub scan_for_errors : (nodes : ℕ) → Talc → Outcome Talc (Unit {0})
unfolding scan_all
scan_for_errors nodes t =
    if not (t.bins == 0)
    then scan_all bin_count nodes t 0 []
    else assert (t.availability_low == 0) (assert (t.availability_high == 0) (ok tt t))
