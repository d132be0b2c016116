-- ===== src/Talc/Chunks/Malloc.antt =====
-- `Talc::malloc` of talc/src/talc.rs on the chunks that the state holds.
use talc.Base.{min, ℕ, ◌+◌, ◌-◌, ◌%◌, ◌≤◌, ◌≡◌, inl, inr, false, arith, ap, subst, Bool-cases}
use talc.Tag
use talc.Counters.{account_alloc}
use talc.Talc.Layout.{Layout}
use talc.Talc.State.{Talc}
use talc.Talc.Gaps.{register_gap, is_chunk_size}
use talc.Talc.Malloc.{Chunk, carve}
use talc.Talc.FreeMap.Member.{entry}
use talc.Talc.FreeMap.Merge.{IsMerged}
use talc.Talc.Chunks.{free_chunk, Chunks, is_gap, Shape, size_of}
use talc.Talc.Chunks.State.{gaps_of, HoldsChunks}
use talc.Talc.Chunks.Retag.{no_gap_above}
use talc.Talc.Chunks.Below.{gap_size-none}
use talc.Talc.Chunks.Place.{linked-IsPlaced}
use talc.Talc.Chunks.Lower.{below-IsLowered, cleared-IsLowered}
use talc.Talc.Chunks.Allocate.{IsAllocated, allocated-IsAllocated}

-- The end of the part below the allocation.
abbrev ceil_of : Chunk → ℕ
ceil_of c = min c.alloc_base (c.acme - 24)

module _ (t : Talc) (cs : Chunks) (h : HoldsChunks t cs) (g s : ℕ) (e : cs g ≡ free_chunk s)
    (t1 : Talc) (m : IsMerged t (gaps_of cs) g t1) (layout : Layout) (p : ℕ) (from : g ≤ p)
    (word : p % 8 ≡ 0) (fits : p + layout.size + 8 ≤ g + s) where
  abbrev chunk : Chunk
  chunk = record { base = g; acme = g + s; alloc_base = p }

  gap-Shape : Shape g (free_chunk s)
  gap-Shape = subst (Shape g) e (h.tiling.shape g)

  end_clear : gaps_of cs (g + s) ≡ 0
  end_clear = gap_size-none (cs (g + s)) (
      subst (λ q. is_gap (cs (g + size_of q)) ≡ false) e (no_gap_above cs h.tiling g (ap is_gap e)))

  pub carve-IsAllocated : IsAllocated t cs g (g + s) p layout.size (carve layout chunk t1).1
  unfolding carve Tag.write is_chunk_size
  carve-IsAllocated = elim (Bool-cases (is_chunk_size g (ceil_of chunk))) [
    | inl big ↦
        let room : g + 24 ≤ ceil_of chunk = ground (arith, gap-Shape) in
        let low =
          below-IsLowered t cs h g s e t1 m (ceil_of chunk) room (omega arith)
            (omega (arith, gap-Shape)) in
        rw big (
          allocated-IsAllocated t cs h g s e (ceil_of chunk) (register_gap g (ceil_of chunk) t1) low
            p layout.size (omega arith) _
            (linked-IsPlaced (register_gap g (ceil_of chunk) t1)
              (entry g (ceil_of chunk - g) (gaps_of cs)) low.free (ceil_of chunk) (g + s) low.opened
              p layout.size (omega arith) fits (omega (arith, gap-Shape))
              (ground (arith, end_clear, gap-Shape)) (account_alloc layout.size)))
    | inr small ↦
        let low = cleared-IsLowered t cs h g s e t1 m in
        rw small (
          allocated-IsAllocated t cs h g s e g _ low p layout.size from _ (
            linked-IsPlaced _ (entry g (g - g) (gaps_of cs)) low.free g (g + s) low.opened p
              layout.size from fits (omega (arith, gap-Shape))
              (ground (arith, end_clear, gap-Shape)) (account_alloc layout.size)))
  ]
