-- ===== src/Talc/Use/Safety.antt =====
-- What a client of talc/src/talc.rs may rely on, after any sequence of calls.
use talc.Base.{
  ℕ, suc, ◌+◌, ◌%◌, ◌^◌, ◌≤◌, ◌<◌, ◌≡◌, refl, ◌⊎◌, inl, inr, List, [], ◌∷◌, ◌++◌, arith, ap, subst,
}
use talc.Base.Lists.{All, All-mono, All-map2, All-append, append-All}
use talc.Span.{Span}
use talc.OomHandler.{Allocator, err_on_oom}
use talc.Talc.Layout.{Layout}
use talc.Talc.State.{Talc}
use talc.Talc.Outcome.{Outcome, ok, err, panic, out_of_fuel}
use talc.Talc.Free.{free}
use talc.Talc.Loop.{malloc}
use talc.Talc.Malloc.Fit.{IsLayout}
use talc.Talc.FreeMap.{IsOff}
use talc.Talc.Chunks.{Chunks, is_chunk, is_gap, is_used, IsTiling}
use talc.Talc.Chunks.State.{gaps_of, HoldsChunks, OffBins, word_off_gaps}
use talc.Talc.Chunks.Release.{free-IsReleased}
use talc.Talc.Chunks.Search.{Malloced, malloc-Malloced}
use talc.Talc.Use.{Allocation, InHeaps, Use, first, further, allocate, release, on_err}
use talc.Talc.Use.Invariant.{IsLive, Distinct, Inv, live_bounds, live_apart, others-Distinct}
use talc.Talc.Use.Resize.{shrink-Inv, grow_in_place-Inv, fill-Inv}
use talc.Talc.Use.{reduce, enlarge, fill}
use talc.Talc.Use.Release.{release-Inv, outside_released}
use talc.Talc.Use.Allocate.{allocate-Inv, apart_gap, malloced, gap_room}
use talc.Talc.Use.Claims.{first-Inv, further-Inv}

-- Every state that a client brings about by claim, malloc with the handler ErrOnOom, free, shrink,
-- grow_in_place and writes to its allocations, as in Use, holds chunks that do not overlap and are
-- all in the heaps, the gaps among them in the bins of their sizes and never two in a row, with
-- each tag where free looks for it and its flag set exactly if a gap follows, and with a chunk for
-- each allocation that has not been released.
pub Use-Inv :
    (t : Talc) (heaps : List Span) (live : List Allocation) → Use t heaps live → Inv t heaps live
Use-Inv _ _ _ (first m memory heap t h e) = first-Inv m memory heap h t e
Use-Inv _ _ _ (further s t old live memory heap u h apart e) =
    further-Inv s old live (Use-Inv s old live u) memory heap h apart t e
Use-Inv _ _ _ (allocate s t heaps old layout k rounds nodes ptr u l room enough e) =
    allocate-Inv s t heaps old layout k rounds nodes ptr (Use-Inv s heaps old u) l room enough e
Use-Inv _ _ _ (release s heaps before a after u) =
    release-Inv s heaps before a after (Use-Inv s heaps (before ++ a ∷ after) u)
Use-Inv _ _ _ (reduce s heaps before a after new_size u le) =
    shrink-Inv s heaps before a after (Use-Inv s heaps (before ++ a ∷ after) u) new_size le
Use-Inv _ _ _ (enlarge s t heaps before a after new_size u le small e) =
    grow_in_place-Inv s heaps before a after (Use-Inv s heaps (before ++ a ∷ after) u) new_size t
      small e
Use-Inv _ _ _ (fill s heaps before a after m u same) =
    fill-Inv s heaps before a after m (Use-Inv s heaps (before ++ a ∷ after) u) same

abbrev pub ApartBytes : Allocation → Allocation → Type 0
ApartBytes a b = (a.ptr + a.layout.size ≤ b.ptr) ⊎ (b.ptr + b.layout.size ≤ a.ptr)

abbrev pub Apart : List Allocation → Type 0
Apart [] = Unit
Apart (a ∷ live) = All (ApartBytes a) live × Apart live

-- An allocation is aligned, in the heaps, and off the array of bins.
abbrev pub IsGood : Talc → List Span → Allocation → Type 0
IsGood t heaps a =
    (a.ptr % a.layout.align ≡ 0)
    × ((x : ℕ) → a.ptr ≤ x → x < a.ptr + a.layout.size → InHeaps heaps x)
    × ((a.ptr + a.layout.size ≤ t.bins) ⊎ (t.bins + 1024 ≤ a.ptr))

live-Apart :
    (cs : Chunks) (w : IsTiling cs) (live : List Allocation)
    → All (IsLive cs) live
    → Distinct live
    → Apart live
live-Apart cs w [] h d = tt
live-Apart cs w (a ∷ live) h d = (
  All-map2 live
      (λ b l ne.
        omega (arith, live_apart cs w a b h.0 l ne, live_bounds cs w a h.0, live_bounds cs w b l))
      h.1 d.0,
  live-Apart cs w live h.1 d.1,
)

chunk_off :
    (t : Talc) (cs : Chunks) (h : HoldsChunks t cs) (a : Allocation) (l : IsLive cs a)
    → (l.base + l.size ≤ t.bins) ⊎ (t.bins + 1024 ≤ l.base)
chunk_off t cs h a l = subst (OffBins t.bins l.base) l.chunk (h.off l.base)

-- In every state that a client brings about by claim, malloc with the handler ErrOnOom, free,
-- shrink, grow_in_place and writes to its allocations, as in Use (with layouts that the heaps
-- leave room for, and fuel for 2^60 gaps), all allocations that have not been released are aligned
-- as asked, lie in the heaps that were claimed and off the array of bins, and no two of them
-- overlap.
pub allocations-Apart :
    (t : Talc) (heaps : List Span) (live : List Allocation)
    → Use t heaps live
    → All (IsGood t heaps) live × Apart live
allocations-Apart t heaps live u =
    let i = Use-Inv t heaps live u in
    let w = i.holds.tiling in
    (
      All-mono live
          (λ a l.
            let b = live_bounds i.chunks w a l in
            (
              l.aligned,
              λ x le lt. i.covered l.base x (omega (arith, b)) (omega (arith, b)),
              omega (arith, b, chunk_off t i.chunks i.holds a l),
            ))
          i.lives,
      live-Apart i.chunks w live i.lives i.distinct,
    )

-- The words of a live allocation are off the bins and the gaps.
pub live_word :
    (t : Talc) (cs : Chunks) (h : HoldsChunks t cs) (a : Allocation) (l : IsLive cs a) (x : ℕ)
    → a.ptr ≤ x
    → x < a.ptr + a.layout.size
    → IsOff t.bins (gaps_of cs) x
live_word t cs h a l x le lt =
    let b = live_bounds cs h.tiling a l in
    record {
      off_bins = omega (arith, b, chunk_off t cs h a l);
      off_gaps =
          word_off_gaps cs h.tiling l.base x (ap is_gap l.chunk) (ap is_chunk l.chunk)
            (omega (arith, b)) (omega (arith, b));
    }

-- In every state that a client brings about by claim, malloc with the handler ErrOnOom, free,
-- shrink, grow_in_place and writes to its allocations, as in Use, releasing an allocation leaves
-- the words of all others as they were.
pub free_keeps_others :
    (s : Talc) (heaps : List Span) (before : List Allocation) (a : Allocation)
    (after : List Allocation)
    → Use s heaps (before ++ a ∷ after)
    → All
        (λ b.
          (x : ℕ) → b.ptr ≤ x → x < b.ptr + b.layout.size → (free a.ptr a.layout s).mem x ≡ s.mem x)
        (before ++ after)
free_keeps_others s heaps before a after u =
    let i = Use-Inv s heaps (before ++ a ∷ after) u in
    let w = i.holds.tiling in
    let parts = All-append (IsLive i.chunks) before (a ∷ after) i.lives in
    let l = parts.1.0 in
    let r = free-IsReleased s i.chunks i.holds l.base l.size a.ptr a.layout l.chunk in
    All-map2 (before ++ after)
      (λ b k ne x le lt.
        let bounds = live_bounds i.chunks w b k in
        let out =
          outside_released s i.chunks w l.base l.size a.ptr a.layout.size l.chunk
            (free a.ptr a.layout s) r k.base (ap is_used k.chunk)
            (λ e.
              omega
                (arith, e, live_apart i.chunks w a b l k ne, live_bounds i.chunks w a l, bounds)) in
        let cut : (k.base + k.size ≤ r.lo) ⊎ (r.hi ≤ k.base) = elim out [
          | inl lower ↦ inl (omega (arith, bounds, w.apart k.base r.lo lower r.begins))
          | inr upper ↦ inr upper
        ] in
        r.kept x (omega (arith, bounds, cut))
          (omega (arith, bounds, cut, r.from, r.to, live_bounds i.chunks w a l))
          (live_word s i.chunks i.holds b k x le (omega arith)))
      (append-All (IsLive i.chunks) before after parts.0 parts.1.1)
      (others-Distinct before a after i.distinct).0

-- In every state that a client brings about by claim, malloc with the handler ErrOnOom, free,
-- shrink, grow_in_place and writes to its allocations, as in Use, a further allocation with the
-- handler ErrOnOom, for a layout that the heaps leave room for and with fuel for 2^60 gaps, leaves
-- the words of all others as they were.
pub malloc_keeps_others :
    (s t : Talc) (heaps : List Span) (live : List Allocation) (layout : Layout)
    (k rounds nodes ptr : ℕ)
    → Use s heaps live
    → IsLayout layout k
    → ((x : ℕ) → InHeaps heaps x → x + layout.align ≤ 2 ^ 64)
    → 2 ^ 60 ≤ nodes
    → malloc err_on_oom (suc rounds) nodes layout (on_err s) ≡ ok ptr (on_err t)
    → All (λ b. (x : ℕ) → b.ptr ≤ x → x < b.ptr + b.layout.size → t.mem x ≡ s.mem x) live
malloc_keeps_others s t heaps live layout k rounds nodes ptr u l room enough e =
    let i = Use-Inv s heaps live u in
    let m = malloced s t heaps live layout k rounds nodes ptr i l room enough e in
    All-mono live
      (λ b c x le lt.
        let bounds = live_bounds i.chunks i.holds.tiling b c in
        let cut = apart_gap s t heaps live i layout ptr m c.base (ap is_used c.chunk) in
        m.parts.kept x (omega (arith, bounds, cut)) (omega (arith, bounds, cut, m.place))
          (live_word s i.chunks i.holds b c x le (omega arith)))
      i.lives

-- In every state that a client brings about by claim, malloc with the handler ErrOnOom, free,
-- shrink, grow_in_place and writes to its allocations, as in Use, for a layout that the heaps
-- leave room for, with the handler ErrOnOom, at least one round and fuel for 2^60 gaps, malloc
-- ends: it gives an address, or it gives an error and leaves the allocator as it was.
pub malloc_ends :
    (s : Talc) (heaps : List Span) (live : List Allocation) (layout : Layout) (k rounds nodes : ℕ)
    → Use s heaps live
    → IsLayout layout k
    → ((x : ℕ) → InHeaps heaps x → x + layout.align ≤ 2 ^ 64)
    → 2 ^ 60 ≤ nodes
    → ((p : ℕ) × (t : Talc) × (malloc err_on_oom (suc rounds) nodes layout (on_err s)
          ≡ ok p (on_err t)))
      ⊎ (malloc err_on_oom (suc rounds) nodes layout (on_err s) ≡ err (on_err s))
malloc_ends s heaps live layout k rounds nodes u l room enough =
    let i = Use-Inv s heaps live u in
    ended i.chunks (malloc err_on_oom (suc rounds) nodes layout (on_err s)) (
      malloc-Malloced (on_err s) i.chunks i.holds layout k l
        (gap_room i.chunks i.holds.tiling heaps i.covered layout k l room) rounds nodes enough)
  where
    ended :
        (cs : Chunks) (r : Outcome (Allocator (Unit {0})) ℕ)
        → Malloced cs layout (on_err s) r
        → ((p : ℕ) × (t : Talc) × (r ≡ ok p (on_err t))) ⊎ (r ≡ err (on_err s))
    ended cs (ok p t) m = inl (p, t.talc, refl)
    ended cs (err t) m = inr (ap (λ (x : Allocator (Unit {0})). err x) m.0)
    ended cs panic m = elim m [ ]
    ended cs out_of_fuel m = elim m [ ]
