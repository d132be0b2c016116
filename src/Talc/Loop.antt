-- ===== src/Talc/Loop.antt =====
-- The loop of `Talc::malloc` of talc/src/talc.rs, over any out-of-memory handler, and
-- `Talc::grow`, which calls it.
use talc.Base.{
  ℕ, zero, suc, ◌+◌, ◌-◌, ◌*◌, ◌/◌, ◌%◌, ◌^◌, true, false, leb, ltb, ◌==◌, ◌&&◌, if◌then◌else◌,
}
use talc.PtrUtils.{align_up}
use talc.Mem.{Mem}
use talc.Tag
use talc.Counters.{account_grow_in_place}
use talc.OomHandler.{Allocator, OomHandler}
use talc.Talc.Layout.{Layout, tag_size}
use talc.Talc.State.{Talc}
use talc.Talc.SizeClass.{bin_of_size}
use talc.Talc.Gaps.{
  register_gap, deregister_gap, is_chunk_size, gap_base_to_size, tag_from_alloc_ptr, store, count,
}
use talc.Talc.Outcome.{Outcome, ok, err, panic, out_of_fuel}
use talc.Talc.Malloc.{Search, found, exhausted, get_sufficient_chunk, carve}
use talc.Talc.Free.{free}

unfoldable pub grow_in_place : (ptr : ℕ) → Layout → (new_size : ℕ) → Talc → Outcome Talc ℕ
unfolding tag_from_alloc_ptr
grow_in_place ptr old_layout new_size t =
    let old_post_alloc_ptr = align_up (ptr + old_layout.size) in
    let new_post_alloc_ptr = align_up (ptr + new_size) in
    let grown = λ (s : Talc). ok ptr (count (account_grow_in_place old_layout.size new_size) s) in
    if old_post_alloc_ptr == new_post_alloc_ptr
    then grown t
    else (let (tag_ptr, tag) = tag_from_alloc_ptr t ptr old_layout.size in
        if leb new_post_alloc_ptr tag_ptr
        then grown
            (if ltb new_post_alloc_ptr tag_ptr then store new_post_alloc_ptr tag_ptr t else t)
        else if Tag.is_above_free tag
        then (let base = Tag.chunk_base tag in
            let acme = tag_ptr + tag_size in
            let above_size = t.mem (gap_base_to_size acme) in
            let above_tag_ptr = tag_ptr + above_size in
            let taken = deregister_gap acme (bin_of_size above_size) t in
            if leb new_post_alloc_ptr above_tag_ptr
            then (if is_chunk_size new_post_alloc_ptr above_tag_ptr
                then (let rest =
                      register_gap (new_post_alloc_ptr + tag_size) (above_tag_ptr + tag_size)
                        taken in
                    grown (record rest { mem = Tag.write rest.mem new_post_alloc_ptr base true }))
                else (let tagged = record taken {
                  mem = Tag.write taken.mem above_tag_ptr base false;
                } in
                    grown (
                      if new_post_alloc_ptr == above_tag_ptr
                      then tagged
                      else store new_post_alloc_ptr above_tag_ptr tagged)))
            else err t)
        else err t)

-- `copy_from_nonoverlapping` of `n` bytes between word-aligned places, on a little-endian target:
-- whole words, and the low bytes of the last.
unfoldable pub copy_from_nonoverlapping : (dst src n : ℕ) → Mem → Mem
copy_from_nonoverlapping dst src n m c =
    if leb dst c && ltb c (dst + n)
    then (let left = dst + n - c in
        let word = m (src + (c - dst)) in
        if leb 8 left then word else m c / 2 ^ (8 * left) * 2 ^ (8 * left) + word % 2 ^ (8 * left))
    else m c

module _ {O : Type 0} (handler : OomHandler O) where
  -- `rounds` bounds the calls of the handler, `nodes` the length of a bin's list.
  unfoldable pub malloc : (rounds nodes : ℕ) → Layout → Allocator O → Outcome (Allocator O) ℕ
  malloc zero nodes layout s = out_of_fuel
  malloc (suc rounds) nodes layout s = elim (get_sufficient_chunk nodes layout s.talc) [
    | found (c, t) ↦ let (ptr, t') = carve layout c t in ok ptr (record s { talc = t' })
    | exhausted ↦ elim (handler.handle_oom layout s) [
      | ok _ s' ↦ malloc rounds nodes layout s'
      | err s' ↦ err s'
      | panic ↦ panic
      | out_of_fuel ↦ out_of_fuel
    ]
    | Search.out_of_fuel ↦ out_of_fuel
  ]

  unfoldable pub grow :
      (rounds nodes : ℕ)
      → (ptr : ℕ) → Layout
      → (new_size : ℕ) → Allocator O
      → Outcome (Allocator O) ℕ
  unfolding malloc
  grow rounds nodes ptr old_layout new_size s =
      elim (grow_in_place ptr old_layout new_size s.talc) [
        | ok p t ↦ ok p (record s { talc = t })
        | err t ↦
            let new_layout : Layout = record { size = new_size; align = old_layout.align } in
            elim (malloc rounds nodes new_layout (record s { talc = t })) [
              | ok allocation s' ↦
                  let copied = record (s'.talc) {
                    mem = copy_from_nonoverlapping allocation ptr old_layout.size s'.talc.mem;
                  } in
                  ok allocation (record s' { talc = free ptr old_layout copied })
              | err s' ↦ err s'
              | panic ↦ panic
              | out_of_fuel ↦ out_of_fuel
            ]
        | panic ↦ panic
        | out_of_fuel ↦ out_of_fuel
      ]
