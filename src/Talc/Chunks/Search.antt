-- ===== src/Talc/Chunks/Search.antt =====
-- `Talc::malloc` of talc/src/talc.rs, with the handler that only fails, on the chunks that the
-- state holds: its search ends, and finds a gap with a place if there is one.
use talc.Base.{ℕ, suc, ◌+◌, ◌^◌, ◌≤◌, ◌<◌, ◌≡◌, refl, ◌≢◌, ◌∷◌, arith, ap, sym, subst, ◌∙◌}
use talc.Base.Lists.{All, All-map2, All-append}
use talc.OomHandler.{Allocator, err_on_oom}
use talc.Talc.Layout.{Layout}
use talc.Talc.State.{Talc}
use talc.Talc.SizeClass.{bin_of_size}
use talc.Talc.SizeClass.Bounds.{bin_of_size-lt}
use talc.Talc.Outcome.{Outcome, ok, err, panic, out_of_fuel}
use talc.Talc.Gaps.{deregister_gap}
use talc.Talc.Gaps.View.{gap, IsGap}
use talc.Talc.Malloc.{Chunk, Search, found, exhausted, carve, get_sufficient_chunk}
use talc.Talc.Malloc.Find.{Found, IsTaken}
use talc.Talc.Malloc.Fit.{IsLayout, IsPlace, fit_of}
use talc.Talc.Malloc.Sufficient.{get_sufficient_chunk-Found, to_Sufficient}
use talc.Talc.Loop.{malloc}
use talc.Talc.FreeMap.Count.{length-Holds}
use talc.Talc.FreeMap.Member.{All-IsIn}
use talc.Talc.FreeMap.Merge.{IsMerged, taken-IsMerged}
use talc.Talc.Chunks.{Piece, absent, free_chunk, used_chunk, fence, Chunks, gap_size}
use talc.Talc.Chunks.State.{gaps_of, HoldsChunks}
use talc.Talc.Chunks.Allocate.{IsAllocated}
use talc.Talc.Chunks.Malloc.{carve-IsAllocated}

gap_size-free : (p : Piece) → gap_size p ≢ 0 → p ≡ free_chunk (gap_size p)
gap_size-free absent ne = absurd (ne refl)
gap_size-free (free_chunk n) ne = refl
gap_size-free (used_chunk n ptr len) ne = absurd (ne refl)
gap_size-free (fence n base) ne = absurd (ne refl)

-- An allocation at `p`, in a gap of the chunks.
pub record IsMalloced (cs : Chunks) (layout : Layout) (t : Talc) (p : ℕ) (t' : Talc) : Type 0 where
  pub gap_base : ℕ
  pub gap_length : ℕ
  pub was_free : cs gap_base ≡ free_chunk gap_length
  pub place : IsPlace layout (gap gap_base gap_length) p
  pub parts : IsAllocated t cs gap_base (gap_base + gap_length) p layout.size t'

-- An allocation; or an error that leaves the allocator as it was, which no gap has room for.
abbrev pub Malloced :
    Chunks → Layout → Allocator (Unit {0}) → Outcome (Allocator (Unit {0})) ℕ → Type 0
Malloced cs layout s (ok p s') = IsMalloced cs layout (s.talc) p (s'.talc)
Malloced cs layout s (err s') =
    (s' ≡ s) × ((a n p : ℕ) → cs a ≡ free_chunk n → ¬ (IsPlace layout (gap a n) p))
Malloced cs layout s panic = ⊥
Malloced cs layout s out_of_fuel = ⊥

module _ (t : Talc) (cs : Chunks) (h : HoldsChunks t cs) (layout : Layout) (k : ℕ)
    (l : IsLayout layout k)
    (room : (a n : ℕ) → cs a ≡ free_chunk n → a + n + layout.align ≤ 2 ^ 64) where
  rooms : (b : ℕ) → b < 128 → All (λ g. g.base + g.size + layout.align ≤ 2 ^ 64) (h.free.view b)
  rooms b lt =
      All-map2 (h.free.view b)
        (λ g i e. omega (
          arith,
          e,
          room g.base (gaps_of cs g.base) (gap_size-free (cs g.base) (omega (arith, e, i.large))),
        ))
        (h.free.holds.gaps b lt) (h.free.lists.listed b lt)

  module _ (c : Chunk) (t1 : Talc) (f : IsTaken (fit_of layout) t h.free.view 0 c t1) where
    its_gap :
        IsGap t.mem t.bins f.bin f.is_in.gap × (gaps_of cs f.is_in.gap.base ≡ f.is_in.gap.size)
    its_gap =
        (All-append (λ g. IsGap t.mem t.bins f.bin g × (gaps_of cs g.base ≡ g.size)) f.is_in.before
          (f.is_in.gap ∷ f.is_in.after)
          (subst (All (λ g. IsGap t.mem t.bins f.bin g × (gaps_of cs g.base ≡ g.size)))
            f.is_in.split
            (All-map2 (h.free.view f.bin) (λ g a b. (a, b)) (h.free.holds.gaps f.bin f.in_range)
              (h.free.lists.listed f.bin f.in_range)))).1.0

    size_here : gaps_of cs c.base ≡ f.is_in.gap.size
    size_here = ap (gaps_of cs) f.is_in.base ∙ its_gap.1

    not_zero : gaps_of cs c.base ≢ 0
    not_zero = omega (arith, size_here, its_gap.0.large)

    taken : IsMerged t (gaps_of cs) c.base t1
    taken =
        subst (IsMerged t (gaps_of cs) c.base)
          (sym (
            f.taken
            ∙ ap (λ b. deregister_gap c.base b t)
                (sym (ap bin_of_size size_here ∙ its_gap.0.class))))
          (taken-IsMerged t (gaps_of cs) h.free c.base not_zero)

    carved-IsMalloced : IsMalloced cs layout t c.alloc_base (carve layout c t1).1
    carved-IsMalloced =
        let i = to_Sufficient t h.free.view h.free.holds layout k l rooms (found (c, t1)) f in
        let n = gaps_of cs c.base in
        let free = gap_size-free (cs c.base) not_zero in
        let ends : c.acme ≡ c.base + n = omega (arith, i.acme, i.base, size_here) in
        let done =
          carve-IsAllocated t cs h c.base n free t1 taken layout c.alloc_base
            (omega (arith, i.place, i.base)) i.whole (omega (arith, i.place, i.base, size_here)) in
        record {
          gap_base = c.base;
          gap_length = n;
          was_free = free;
          place = (
            omega (arith, i.place, i.base),
            i.place.1,
            omega (arith, i.place, i.base, size_here),
          );
          parts =
              subst
                (λ (y : ℕ).
                  IsAllocated t cs c.base (c.base + n) c.alloc_base layout.size
                    (carve layout (record { base = c.base; acme = y; alloc_base = c.alloc_base })
                      t1).1)
                (sym ends) done;
        }

module _ (s : Allocator (Unit {0})) (cs : Chunks) (h : HoldsChunks (s.talc) cs) (layout : Layout)
    (k : ℕ) (l : IsLayout layout k)
    (room : (a n : ℕ) → cs a ≡ free_chunk n → a + n + layout.align ≤ 2 ^ 64)
    (rounds nodes : ℕ) where
  malloced :
      (r : Search (Chunk × Talc))
      → Found (fit_of layout) (s.talc) h.free.view 0 r
      → Malloced cs layout s (elim r [
        | found (c, t) ↦ let (ptr, t') = carve layout c t in ok ptr (record s { talc = t' })
        | exhausted ↦ elim (err_on_oom.handle_oom layout s) [
          | ok _ s' ↦ malloc err_on_oom rounds nodes layout s'
          | err s' ↦ err s'
          | panic ↦ panic
          | out_of_fuel ↦ out_of_fuel
        ]
        | Search.out_of_fuel ↦ out_of_fuel
      ])
  unfolding carve
  malloced (found (c, t)) f = carved-IsMalloced s.talc cs h layout k l room c t f
  malloced exhausted f = (
    refl,
    λ a n p e place.
        let size : gaps_of cs a ≡ n = ap gap_size e in
        let none =
          to_Sufficient s.talc h.free.view h.free.holds layout k l
            (rooms s.talc cs h layout k l room) exhausted f in
        All-IsIn (λ g. (p : ℕ) → ¬ (IsPlace layout g p)) (gap a (gaps_of cs a))
          (h.free.view (bin_of_size (gaps_of cs a)))
          (none (bin_of_size (gaps_of cs a))
            (bin_of_size-lt (gaps_of cs a) (h.free.lists.large a (omega (arith, size, place)))))
          (h.free.lists.complete a (omega (arith, size, place))) p (omega (arith, place, size)),
  )
  malloced Search.out_of_fuel f = f

  -- With the handler ErrOnOom, in a state that holds chunks, for a layout of a power-of-two
  -- alignment and a size that leaves room for rounding, where no gap lies so high that adding the
  -- alignment to its end leaves the address space, with at least one round and fuel for 2^60 gaps,
  -- malloc returns. It returns a place for the allocation in a gap, and the state holds the chunks
  -- with that gap divided into an allocated chunk and what is left of it below and above; or it
  -- returns an error with the allocator unchanged, and then no gap has a place.
  pub malloc-Malloced :
      2 ^ 60 ≤ nodes → Malloced cs layout s (malloc err_on_oom (suc rounds) nodes layout s)
  unfolding malloc
  malloc-Malloced enough = malloced (get_sufficient_chunk nodes layout s.talc) (
      get_sufficient_chunk-Found s.talc h.free.view h.free.holds layout k l
        (rooms s.talc cs h layout k l room) nodes
        (λ c lt. omega (arith, enough, length-Holds s.talc h.free.view h.free.holds c lt)))
