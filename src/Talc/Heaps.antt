-- ===== src/Talc/Heaps.antt =====
-- The heap operations of talc/src/talc.rs: `new`, `claim`, `extend`, `truncate` and
-- `get_allocated_span`. A failed `assert!` and an `unwrap` of nothing are `panic`.
pub mod Claim
pub mod First
pub mod Outcomes
pub mod Placed
use talc.Base.{
  ℕ, zero, suc, ◌+◌, ◌-◌, ◌*◌, Option, none, some, Bool, true, false, not, leb, ltb, ◌==◌,
  if◌then◌else◌,
}
use talc.PtrUtils.{wrapping_add}
use talc.Mem.{Mem, write}
use talc.Tag
use talc.Span
use talc.Span.{Span}
use talc.Counters
use talc.Talc.Layout.{tag_size, min_heap_size, bin_count}
use talc.Talc.State.{Talc}
use talc.Talc.SizeClass.{bin_of_size}
use talc.Talc.Gaps.{
  register_gap, deregister_gap, is_chunk_size, is_gap_below, is_gap_above_heap_base,
  gap_acme_to_base, gap_base_to_acme, gap_acme_to_base_size, gap_base_to_acme_size,
  gap_base_to_size, store, count,
}
use talc.Talc.Outcome.{Outcome, ok, err, panic, ◌>>=◌}

-- `Talc::new`, over a memory; the handler is kept beside the state.
unfoldable pub new : Mem → Talc
new m = record {
  availability_low = 0;
  availability_high = 0;
  bins = 0;
  counters = Counters.zeroed;
  mem = m;
}

-- `assert!`, and `unwrap` of an option.
abbrev pub assert : {A : Type 0} → Bool → Outcome Talc A → Outcome Talc A
assert true k = k
assert false k = panic

abbrev pub unwrap : {A B : Type 0} → Option A → (A → Outcome Talc B) → Outcome Talc B
unwrap none k = panic
unwrap (some a) k = k a

abbrev pub write_tag : ℕ → ℕ → Bool → Talc → Talc
write_tag chunk_tag chunk_base is_above_free t = record t {
  mem = Tag.write t.mem chunk_tag chunk_base is_above_free;
}

abbrev pub set_above_free : ℕ → Talc → Talc
set_above_free ptr t = record t { mem = Tag.set_above_free t.mem ptr }

abbrev pub clear_above_free : ℕ → Talc → Talc
clear_above_free ptr t = record t { mem = Tag.clear_above_free t.mem ptr }

unfoldable pub get_allocated_span : Span → Talc → Outcome Talc Span
unfolding gap_acme_to_base gap_base_to_acme
get_allocated_span heap t = assert (leb min_heap_size (Span.size heap)) (
    unwrap (Span.get_base_acme heap) λ (base, acme).
      let top = if is_gap_below t acme then gap_acme_to_base t acme else acme in
      let bottom =
        if is_gap_above_heap_base t base
        then gap_base_to_acme t (base + tag_size) - tag_size
        else base in
      ok (Span.new bottom top) t)

abbrev pub bin_array_size : ℕ
bin_array_size = 8 * bin_count

-- The loop that writes `None` into the bins, with `left` of them to go.
unfoldable pub init_bins : (left : ℕ) → (metadata_ptr i : ℕ) → Mem → Mem
init_bins zero metadata_ptr i m = m
init_bins (suc left) metadata_ptr i m =
    init_bins left metadata_ptr (i + 1) (write m (metadata_ptr + 8 * i) 0)

-- `claim` where the bins are in place: one gap over the new heap.
unfoldable pub claim_gap : (base acme : ℕ) → Talc → Talc
claim_gap base acme t = register_gap (wrapping_add base tag_size) acme (write_tag base 0 true t)

-- `claim` where they are not: the bins go to the bottom of the new heap, as an allocated chunk.
unfoldable pub claim_metadata : (base acme : ℕ) → Talc → Talc
unfolding init_bins
claim_metadata base acme t =
    let tagged = write_tag base 0 false t in
    let metadata_ptr = base + tag_size in
    let post_metadata_ptr = metadata_ptr + bin_array_size in
    let placed = record tagged {
      mem = init_bins bin_count metadata_ptr 0 tagged.mem;
      bins = metadata_ptr;
    } in
    let metadata_chunk_acme = post_metadata_ptr + tag_size in
    if is_chunk_size metadata_chunk_acme acme
    then write_tag post_metadata_ptr base true (register_gap metadata_chunk_acme acme placed)
    else (let tag_ptr = acme - tag_size in
        let linked =
          if tag_ptr == post_metadata_ptr then placed else store post_metadata_ptr tag_ptr placed in
        write_tag tag_ptr base false linked)

unfoldable pub claim : Span → Talc → Outcome Talc Span
unfolding claim_gap claim_metadata
claim memory t =
    let aligned_heap = Span.word_align_inward memory in
    let claimed =
      λ (s : Talc). ok aligned_heap (count (Counters.account_claim (Span.size aligned_heap)) s) in
    assert (not (Span.contains memory 0)) (elim (Span.get_base_acme aligned_heap) [
      | none ↦ err t
      | some (base, acme) ↦
          if not (t.bins == 0)
          then if leb min_heap_size (acme - base) then claimed (claim_gap base acme t) else err t
          else if leb (tag_size + bin_array_size + tag_size) (acme - base)
          then claimed (claim_metadata base acme t)
          else err t
    ])

-- The top of `extend`: the heap's new upper end, and the state.
unfoldable pub extend_top : (old_acme new_acme : ℕ) → Talc → ℕ × Talc
unfolding gap_acme_to_base_size
extend_top old_acme new_acme t =
    if is_gap_below t old_acme
    then (let top = gap_acme_to_base_size t old_acme in
        (new_acme, register_gap top.0 new_acme (deregister_gap top.0 (bin_of_size top.1) t)))
    else if is_chunk_size old_acme new_acme
    then (new_acme, set_above_free (old_acme - tag_size) (register_gap old_acme new_acme t))
    else (old_acme, t)

-- The bottom of `extend`: the heap's new lower end, and the state.
unfoldable pub extend_bottom : (old_base new_base : ℕ) → Talc → ℕ × Talc
extend_bottom old_base new_base t =
    if is_gap_above_heap_base t old_base
    then (let bottom_base = old_base + tag_size in
        let bottom_size = t.mem (gap_base_to_size bottom_base) in
        let freed = deregister_gap bottom_base (bin_of_size bottom_size) t in
        let merged = register_gap (new_base + tag_size) (bottom_base + bottom_size) freed in
        (new_base, write_tag new_base 0 true merged))
    else if is_chunk_size new_base old_base
    then (
      new_base,
      write_tag new_base 0 true (register_gap (new_base + tag_size) (old_base + tag_size) t),
    )
    else (old_base, t)

unfoldable pub extend : (old_heap req_heap : Span) → Talc → Outcome Talc Span
unfolding extend_top extend_bottom
extend old_heap req_heap t = assert (not (t.bins == 0)) (
    assert (leb min_heap_size (Span.size old_heap)) (
      assert (Span.contains_span req_heap old_heap) (
        assert (not (Span.contains req_heap 0)) (
          unwrap (Span.get_base_acme (Span.word_align_inward old_heap)) λ (old_base, old_acme).
            unwrap (Span.get_base_acme (Span.word_align_inward req_heap)) λ (new_base, new_acme).
              let (ret_acme, topped) = extend_top old_acme new_acme t in
              let (ret_base, bottomed) = extend_bottom old_base new_base topped in
              let ret_heap = Span.new ret_base ret_acme in
              ok ret_heap (
                count (Counters.account_extend (Span.size old_heap) (Span.size ret_heap))
                  bottomed)))))

-- The top of `truncate`.
unfoldable pub truncate_top : (old_acme new_acme : ℕ) → Talc → ℕ × Talc
unfolding gap_acme_to_base_size
truncate_top old_acme new_acme t =
    if ltb new_acme old_acme
    then (let top = gap_acme_to_base_size t old_acme in
        let freed = deregister_gap top.0 (bin_of_size top.1) t in
        if is_chunk_size top.0 new_acme
        then (new_acme, register_gap top.0 new_acme freed)
        else (top.0, clear_above_free (top.0 - tag_size) freed))
    else (new_acme, t)

-- The bottom of `truncate`.
unfoldable pub truncate_bottom : (old_base new_base : ℕ) → Talc → ℕ × Talc
unfolding gap_base_to_acme_size
truncate_bottom old_base new_base t =
    if ltb old_base new_base
    then (let old_chunk_base = old_base + tag_size in
        let new_chunk_base = new_base + tag_size in
        let bottom = gap_base_to_acme_size t old_chunk_base in
        let freed = deregister_gap old_chunk_base (bin_of_size bottom.1) t in
        if is_chunk_size new_chunk_base bottom.0
        then (new_base, write_tag new_base 0 true (register_gap new_chunk_base bottom.0 freed))
        else (let ret_base = bottom.0 - tag_size in (ret_base, write_tag ret_base 0 false freed)))
    else (new_base, t)

unfoldable pub truncate : (old_heap req_heap : Span) → Talc → Outcome Talc Span
unfolding truncate_top truncate_bottom get_allocated_span
truncate old_heap req_heap t =
    let new_heap = Span.word_align_inward req_heap in
    assert (not (t.bins == 0)) (
      assert (Span.contains_span old_heap new_heap) (
        get_allocated_span old_heap t >>= λ allocated _.
        assert (Span.contains_span new_heap allocated) (
          unwrap (Span.get_base_acme old_heap) λ (old_base, old_acme).
            let old_chunk_base = old_base + tag_size in
            if ltb (Span.size new_heap) min_heap_size
            then ok Span.empty (
                count (Counters.account_truncate (Span.size old_heap) 0)
                  (deregister_gap old_chunk_base (bin_of_size (old_acme - old_chunk_base)) t))
            else unwrap (Span.get_base_acme new_heap) λ (new_base, new_acme).
              let (ret_acme, topped) = truncate_top old_acme new_acme t in
              let (ret_base, bottomed) = truncate_bottom old_base new_base topped in
              let ret_heap = Span.new ret_base ret_acme in
              ok ret_heap (
                count (Counters.account_truncate (Span.size old_heap) (Span.size ret_heap))
                  bottomed))))
