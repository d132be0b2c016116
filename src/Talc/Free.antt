-- ===== src/Talc/Free.antt =====
-- `Talc::free` and `Talc::shrink` of talc/src/talc.rs.
use talc.Base.{ℕ, ◌+◌, ◌-◌, max, true, ◌==◌, if◌then◌else◌}
use talc.PtrUtils.{align_up}
use talc.Tag
use talc.Counters.{account_dealloc, account_shrink_in_place}
use talc.Talc.Layout.{Layout, tag_size, min_tag_offset}
use talc.Talc.State.{Talc}
use talc.Talc.SizeClass.{bin_of_size}
use talc.Talc.Gaps.{
  register_gap, deregister_gap, is_chunk_size, is_gap_below, gap_acme_to_base_size,
  gap_base_to_size, tag_from_alloc_ptr, store, count,
}

-- Recombination with a gap below: the base of what is to be freed, and the state.
unfoldable pub merge_below : ℕ → Talc → ℕ × Talc
unfolding gap_acme_to_base_size
merge_below chunk_base t =
    if is_gap_below t chunk_base
    then (let below = gap_acme_to_base_size t chunk_base in
        (below.0, deregister_gap below.0 (bin_of_size below.1) t))
    else (chunk_base, record t { mem = Tag.set_above_free t.mem (chunk_base - tag_size) })

-- Recombination with a gap above, where the tag says that there is one.
unfoldable pub merge_above : ℕ → ℕ → Talc → ℕ × Talc
merge_above tag chunk_acme t =
    if Tag.is_above_free tag
    then (let above_size = t.mem (gap_base_to_size chunk_acme) in
        (chunk_acme + above_size, deregister_gap chunk_acme (bin_of_size above_size) t))
    else (chunk_acme, t)

unfoldable pub free : (ptr : ℕ) → Layout → Talc → Talc
unfolding merge_below merge_above tag_from_alloc_ptr
free ptr layout t =
    let counted = count (account_dealloc layout.size) t in
    let (tag_ptr, tag) = tag_from_alloc_ptr counted ptr layout.size in
    let (chunk_base, lowered) = merge_below (Tag.chunk_base tag) counted in
    let (chunk_acme, raised) = merge_above tag (tag_ptr + tag_size) lowered in
    register_gap chunk_base chunk_acme raised

unfoldable pub shrink : (ptr : ℕ) → Layout → (new_size : ℕ) → Talc → Talc
unfolding merge_above tag_from_alloc_ptr
shrink ptr layout new_size t =
    let (tag_ptr, tag) = tag_from_alloc_ptr t ptr layout.size in
    let chunk_base = Tag.chunk_base tag in
    let new_post_alloc_ptr = align_up (ptr + new_size) in
    let low_tag_ptr = max (chunk_base + min_tag_offset) new_post_alloc_ptr in
    let enough = is_chunk_size low_tag_ptr tag_ptr in
    let new_tag_ptr = if enough then low_tag_ptr else tag_ptr in
    let shrunk =
      if enough
      then (let (acme, raised) = merge_above tag (tag_ptr + tag_size) t in
          let registered = register_gap (new_tag_ptr + tag_size) acme raised in
          record registered { mem = Tag.write registered.mem new_tag_ptr chunk_base true })
      else t in
    let linked =
      if new_tag_ptr == new_post_alloc_ptr
      then shrunk
      else store new_post_alloc_ptr new_tag_ptr shrunk in
    count (account_shrink_in_place layout.size new_size) linked
