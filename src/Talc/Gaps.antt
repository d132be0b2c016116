-- ===== src/Talc/Gaps.antt =====
-- The free chunks ("gaps") of talc/src/talc.rs: the address arithmetic on their ends, and the two
-- operations that put a gap into the bins and take it out. `base.add` and `acme.sub` are given
-- addresses that do not leave the address space, so they are the plain operations.
pub mod Empty
pub mod Frame
pub mod View
pub mod Update
pub mod Register
pub mod Deregister
use talc.Base.{ℕ, ◌+◌, ◌-◌, ◌*◌, Bool, bit_and, leb, ltb, ◌==◌, if◌then◌else◌}
use talc.PtrUtils.{align_up, wrapping_sub}
use talc.Mem.{write}
use talc.Llist
use talc.Tag
use talc.Counters.{Counters, account_register_gap, account_deregister_gap}
use talc.Talc.Layout.{
  tag_size, min_chunk_size, gap_node_offset, gap_low_size_offset, gap_high_size_offset,
}
use talc.Talc.State.{Talc}
use talc.Talc.SizeClass.{bin_of_size}
use talc.Talc.Avails.{set_avails, clear_avails}

abbrev pub gap_base_to_node : ℕ → ℕ
gap_base_to_node base = base + gap_node_offset

abbrev pub gap_base_to_size : ℕ → ℕ
gap_base_to_size base = base + gap_low_size_offset

abbrev pub gap_acme_to_size : ℕ → ℕ
gap_acme_to_size acme = acme - gap_high_size_offset

abbrev pub gap_node_to_base : ℕ → ℕ
gap_node_to_base node = node - gap_node_offset

abbrev pub gap_node_to_size : ℕ → ℕ
gap_node_to_size node = node - gap_node_offset + gap_low_size_offset

unfoldable pub gap_base_to_acme_size : Talc → ℕ → ℕ × ℕ
gap_base_to_acme_size t base = let size = t.mem (gap_base_to_size base) in (base + size, size)

unfoldable pub gap_base_to_acme : Talc → ℕ → ℕ
unfolding gap_base_to_acme_size
gap_base_to_acme t base = (gap_base_to_acme_size t base).0

unfoldable pub gap_acme_to_base_size : Talc → ℕ → ℕ × ℕ
gap_acme_to_base_size t acme = let size = t.mem (gap_acme_to_size acme) in (acme - size, size)

unfoldable pub gap_acme_to_base : Talc → ℕ → ℕ
unfolding gap_acme_to_base_size
gap_acme_to_base t acme = (gap_acme_to_base_size t acme).0

unfoldable pub is_gap_below : Talc → ℕ → Bool
is_gap_below t acme = bit_and (t.mem (gap_acme_to_size acme)) Tag.allocated_flag == 0

unfoldable pub is_gap_above_heap_base : Talc → ℕ → Bool
is_gap_above_heap_base t heap_base = Tag.is_above_free (t.mem heap_base)

-- The address of the tag, and the tag.
unfoldable pub tag_from_alloc_ptr : Talc → ℕ → ℕ → ℕ × ℕ
tag_from_alloc_ptr t ptr size =
    let post_alloc_ptr = align_up (ptr + size) in
    let tag_or_tag_ptr = t.mem post_alloc_ptr in
    if ltb post_alloc_ptr tag_or_tag_ptr
    then (tag_or_tag_ptr, t.mem tag_or_tag_ptr)
    else (post_alloc_ptr, tag_or_tag_ptr)

unfoldable pub is_chunk_size : ℕ → ℕ → Bool
is_chunk_size base acme = leb min_chunk_size (wrapping_sub acme base)

-- A write of a word, and a call of a counter.
abbrev pub store : ℕ → ℕ → Talc → Talc
store a v t = record t { mem = write t.mem a v }

abbrev pub count : (Counters → Counters) → Talc → Talc
count account t = record t { counters = account t.counters }

abbrev pub get_bin_ptr : Talc → ℕ → ℕ
get_bin_ptr t bin = t.bins + bin * 8

unfoldable pub register_gap : (base acme : ℕ) → Talc → Talc
register_gap base acme t =
    let size = wrapping_sub acme base in
    let bin = bin_of_size size in
    let bin_ptr = get_bin_ptr t bin in
    let flagged = if t.mem bin_ptr == 0 then set_avails bin t else t in
    let linked = record flagged {
      mem = Llist.insert (gap_base_to_node base) bin_ptr (flagged.mem bin_ptr) flagged.mem;
    } in
    count (account_register_gap size)
      (store (gap_acme_to_size acme) size (store (gap_base_to_size base) size linked))

unfoldable pub deregister_gap : (base bin : ℕ) → Talc → Talc
deregister_gap base bin t =
    let counted = count (account_deregister_gap (t.mem (gap_base_to_size base))) t in
    let unlinked = record counted { mem = Llist.remove (gap_base_to_node base) counted.mem } in
    if unlinked.mem (get_bin_ptr unlinked bin) == 0 then clear_avails bin unlinked else unlinked
