-- ===== src/Talc/Malloc.antt =====
-- `Talc::malloc` and `Talc::get_sufficient_chunk` of talc/src/talc.rs. The loop over the nodes of
-- a bin and the loop over the bins run on fuel.
pub mod Fit
pub mod Find
pub mod Sufficient
use talc.Base.{
  ℕ, zero, suc, ◌+◌, ◌-◌, min, max, Option, none, some, Bool, true, false, not, leb, ltb, ◌==◌,
  if◌then◌else◌,
}
use talc.PtrUtils.{align as word_align, align_up, align_up_by, wrapping_add}
use talc.Llist
use talc.Tag
use talc.Counters.{account_alloc}
use talc.Talc.Layout.{Layout, tag_size, min_chunk_size, min_tag_offset}
use talc.Talc.State.{Talc}
use talc.Talc.SizeClass.{bin_of_size, required_chunk_size}
use talc.Talc.Avails.{next_available_bin}
use talc.Talc.Gaps.{
  register_gap, deregister_gap, is_chunk_size, gap_node_to_base, gap_node_to_size, get_bin_ptr,
  store, count,
}

-- `(chunk_base, chunk_acme, alloc_base)` of `get_sufficient_chunk`.
pub record Chunk : Type 0 where
  pub base : ℕ
  pub acme : ℕ
  pub alloc_base : ℕ

pub data Search (A : Type 0) : Type 0 where
  found : A → Search A
  exhausted out_of_fuel : Search A

-- The test that the loop for word alignment makes of a gap: the place of the allocation, or none.
unfoldable pub fit_word : ℕ → ℕ → ℕ → Option ℕ
fit_word required base size = if leb required size then some base else none

-- The test that the loop for larger alignments makes.
unfoldable pub fit_aligned : Layout → ℕ → ℕ → ℕ → Option ℕ
fit_aligned layout required base size =
    let align_mask = layout.align - 1 in
    let required_size = layout.size + tag_size in
    let aligned_ptr = align_up_by base align_mask in
    if leb required size
    then if leb (wrapping_add aligned_ptr required_size) (base + size)
      then some aligned_ptr
      else none
    else none

module _ (fit : ℕ → ℕ → Option ℕ) where
  -- The loop over the nodes of a bin, up to the first that fits.
  unfoldable pub scan_nodes : ℕ → Talc → ℕ → Search Chunk
  unfolding Llist.step
  scan_nodes zero t current = out_of_fuel
  scan_nodes (suc fuel) t current = elim (Llist.step t.mem current) [
    | none ↦ exhausted
    | some (node, rest) ↦
        let size = t.mem (gap_node_to_size node) in
        let base = gap_node_to_base node in
        elim (fit base size) [
          | some alloc_base ↦
              found (record { base = base; acme = base + size; alloc_base = alloc_base })
          | none ↦ scan_nodes fuel t rest
        ]
  ]

  -- The loop over the bins from `bin` on. What fits is taken out of its bin.
  unfoldable pub scan_bins : ℕ → ℕ → Talc → ℕ → Search (Chunk × Talc)
  unfolding scan_nodes
  scan_bins nodes zero t bin = out_of_fuel
  scan_bins nodes (suc bins) t bin = elim (scan_nodes nodes t (t.mem (get_bin_ptr t bin))) [
    | found c ↦ found (c, deregister_gap c.base bin t)
    | exhausted ↦ elim (next_available_bin (bin + 1) t) [
      | none ↦ exhausted
      | some next ↦ scan_bins nodes bins t next
    ]
    | out_of_fuel ↦ out_of_fuel
  ]

-- `nodes` bounds the length of a bin's list; there are 128 bins to go through.
unfoldable pub get_sufficient_chunk : ℕ → Layout → Talc → Search (Chunk × Talc)
unfolding scan_bins fit_word fit_aligned
get_sufficient_chunk nodes layout t =
    let required = required_chunk_size layout.size in
    elim (next_available_bin (bin_of_size required) t) [
      | none ↦ exhausted
      | some bin ↦
          if leb layout.align word_align
          then scan_bins (fit_word required) nodes 128 t bin
          else scan_bins (fit_aligned layout required) nodes 128 t bin
    ]

-- What `malloc` does with the chunk that it found: the parts below and above the allocation go
-- back to the bins where they are large enough, and the tag is written. Returns the allocation.
unfoldable pub carve : Layout → Chunk → Talc → ℕ × Talc
carve layout c t =
    let chunk_base_ceil = min c.alloc_base (c.acme - min_chunk_size) in
    let below = is_chunk_size c.base chunk_base_ceil in
    let free_base = if below then chunk_base_ceil else c.base in
    let lowered =
      if below
      then register_gap c.base chunk_base_ceil t
      else record t { mem = Tag.clear_above_free t.mem (c.base - tag_size) } in
    let post_alloc_ptr = align_up (c.alloc_base + layout.size) in
    let low_tag_ptr = max (free_base + min_tag_offset) post_alloc_ptr in
    let min_alloc_chunk_acme = low_tag_ptr + tag_size in
    let above = is_chunk_size min_alloc_chunk_acme c.acme in
    let tag_ptr = if above then low_tag_ptr else c.acme - tag_size in
    let raised = if above then register_gap min_alloc_chunk_acme c.acme lowered else lowered in
    let tagged = record raised { mem = Tag.write raised.mem tag_ptr free_base above } in
    let linked =
      if tag_ptr == post_alloc_ptr then tagged else store post_alloc_ptr tag_ptr tagged in
    (c.alloc_base, count (account_alloc layout.size) linked)
