-- ===== src/Talc/Use/Reuse.antt =====
-- What is released to talc/src/talc.rs can be allocated again.
use talc.Base.{ℕ, suc, ◌+◌, ◌-◌, ◌^◌, ◌≤◌, ◌≡◌, refl, List, [], ◌∷◌, ◌++◌, arith, ◌∙◌}
use talc.Base.Lists.{All-append}
use talc.Span.{Span}
use talc.OomHandler.{Allocator, err_on_oom}
use talc.Talc.Layout.{Layout}
use talc.Talc.State.{Talc}
use talc.Talc.Outcome.{Outcome, ok, err, panic, out_of_fuel}
use talc.Talc.Free.{free}
use talc.Talc.Loop.{malloc}
use talc.Talc.Gaps.View.{gap}
use talc.Talc.Malloc.Fit.{IsLayout, IsPlace}
use talc.Talc.Chunks.{Chunks, free_chunk}
use talc.Talc.Chunks.Tile.{tile-first}
use talc.Talc.Chunks.Splice.{splice, splice_inside}
use talc.Talc.Chunks.Release.{free-IsReleased}
use talc.Talc.Chunks.Search.{Malloced, malloc-Malloced}
use talc.Talc.Use.{Allocation, InHeaps, Use, on_err}
use talc.Talc.Use.Invariant.{IsLive, live_bounds}
use talc.Talc.Use.Allocate.{gap_room}
use talc.Talc.Use.Release.{released_covered}
use talc.Talc.Use.Safety.{Use-Inv}

-- Where a gap has a place, an allocation does not fail.
must_succeed :
    (cs : Chunks) (layout : Layout) (s : Talc) (g n p : ℕ)
    → cs g ≡ free_chunk n
    → IsPlace layout (gap g n) p
    → (r : Outcome (Allocator (Unit {0})) ℕ) → Malloced cs layout (on_err s) r
    → (q : ℕ) × (t : Talc) × (r ≡ ok q (on_err t))
must_succeed cs layout s g n p e place (ok q t) m = (q, t.talc, refl)
must_succeed cs layout s g n p e place (err t) m = absurd (m.1 g n p e place)
must_succeed cs layout s g n p e place panic m = elim m [ ]
must_succeed cs layout s g n p e place out_of_fuel m = elim m [ ]

-- In every state that a client brings about by claim, malloc with the handler ErrOnOom, free,
-- shrink, grow_in_place and writes to its allocations, as in Use, once an allocation is released,
-- malloc with the same layout, the handler ErrOnOom, at least one round and fuel for 2^60 gaps
-- succeeds, if the heaps leave room for the layout.
pub malloc_after_free :
    (s : Talc) (heaps : List Span) (before : List Allocation) (a : Allocation)
    (after : List Allocation) (k rounds nodes : ℕ)
    → Use s heaps (before ++ a ∷ after)
    → IsLayout a.layout k
    → ((x : ℕ) → InHeaps heaps x → x + a.layout.align ≤ 2 ^ 64)
    → 2 ^ 60 ≤ nodes
    → (p : ℕ) × (t : Talc) × (malloc err_on_oom
          (suc rounds)
          nodes
          a.layout
          (on_err (free a.ptr a.layout s))
        ≡ ok p (on_err t))
malloc_after_free s heaps before a after k rounds nodes u layout room enough =
    let i = Use-Inv s heaps (before ++ a ∷ after) u in
    let l = (All-append (IsLive i.chunks) before (a ∷ after) i.lives).1.0 in
    let r = free-IsReleased s i.chunks i.holds l.base l.size a.ptr a.layout l.chunk in
    let t = free a.ptr a.layout s in
    let bounds = live_bounds i.chunks i.holds.tiling a l in
    let new = splice r.lo r.hi (free_chunk (r.hi - r.lo) ∷ []) i.chunks in
    let now_free : new r.lo ≡ free_chunk (r.hi - r.lo) =
      splice_inside r.lo r.hi (free_chunk (r.hi - r.lo) ∷ []) i.chunks r.lo (omega arith)
        (omega (arith, r.from, r.to, bounds))
      ∙ tile-first r.lo (free_chunk (r.hi - r.lo)) [] r.lo refl in
    must_succeed new a.layout t r.lo (r.hi - r.lo) a.ptr now_free
      (omega (arith, r.from, bounds), l.aligned, omega (arith, r.from, r.to, bounds))
      (malloc err_on_oom (suc rounds) nodes a.layout (on_err t))
      (malloc-Malloced (on_err t) new r.holds a.layout k layout
        (gap_room new r.holds.tiling heaps
          (released_covered s i.chunks i.holds.tiling l.base l.size a.ptr a.layout.size l.chunk t r
            (InHeaps heaps) i.covered)
          a.layout k layout room)
        rounds nodes enough)
