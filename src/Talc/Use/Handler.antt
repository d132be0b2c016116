-- ===== src/Talc/Use/Handler.antt =====
-- `Talc::malloc` of talc/src/talc.rs with the handler `ClaimOnOom` of talc/src/oom_handler.rs, in the
-- states that a client brings about.
pub mod Rounds
use talc.Base.{
  ℕ, suc, ◌+◌, ◌-◌, ◌^◌, ◌≤◌, ◌<◌, ◌≡◌, refl, ◌≢◌, ◌⊎◌, inl, inr, true, false, List, ◌∷◌, arith, ap,
  sym, subst, ◌∙◌, le→leb, lt→leb, ne→==,
}
use talc.Span.{Span, is_empty, word_align_inward, contains, get_base_acme, size}
use talc.Span
use talc.Counters.{account_claim}
use talc.OomHandler.{Allocator, OomHandler, err_on_oom, claim_on_oom, claim_handle_oom}
use talc.Talc.Layout.{Layout}
use talc.Talc.State.{Talc}
use talc.Talc.Outcome.{Outcome, ok, err, panic, out_of_fuel}
use talc.Talc.Gaps.{count}
use talc.Talc.Heaps.{claim, claim_gap}
use talc.Talc.Malloc.{Search, found, exhausted, Chunk, get_sufficient_chunk, carve}
use talc.Talc.Malloc.Fit.{IsLayout, IsPlace}
use talc.Talc.Gaps.View.{gap}
use talc.Talc.Chunks.{Chunks, free_chunk}
use talc.Talc.Chunks.State.{HoldsChunks}
use talc.Talc.Chunks.Search.{Malloced, malloc-Malloced}
use talc.Talc.Use.Allocate.{gap_room}
use talc.Talc.Loop.{malloc}
use talc.Talc.Use.{Allocation, InHeaps, IsHeap, Use, further, allocate, on_err}
use talc.Talc.Use.Safety.{Use-Inv, malloc_ends}
use talc.Talc.Use.Handler.Rounds.{again, Round, malloc-Round}

-- Where the bins are in place, a heap's memory is claimed.
claim_heap :
    (memory heap : Span) (t : Talc)
    → IsHeap 32 memory heap
    → t.bins ≢ 0
    → (t' : Talc) × (claim memory t ≡ ok heap t')
unfolding claim get_base_acme size
claim_heap memory heap t h placed =
    let empty = lt→leb heap.acme heap.base (omega (arith, h.room)) in
    (
      count (account_claim (heap.acme - heap.base)) (claim_gap heap.base heap.acme t),
      rw (h.inward, h.off_null, empty)
          (rw (ne→== t.bins 0 placed)
            (rw (le→leb 32 (heap.acme - heap.base) (omega (arith, h.room)), h.inward, empty) refl)),
    )

-- The memory that the handler holds is none, or a heap apart from those of the client.
abbrev pub IsSpare : List Span → ℕ → Span → (heap : Span) → Type 0
IsSpare heaps align span heap =
    (is_empty span ≡ true)
    ⊎ ((is_empty span ≡ false)
        × IsHeap 32 span heap
        × ((x : ℕ) → heap.base ≤ x → x < heap.acme → ¬ (InHeaps heaps x))
        × (heap.acme + align ≤ 2 ^ 64))

-- An allocation, before or after the handler's memory has been claimed; or an error, and then that
-- memory has been claimed, if there was any, and no gap has a place for the allocation.
-- A state of a client in which no gap has a place for the layout.
pub record Full (t : Talc) (heaps : List Span) (live : List Allocation) (layout : Layout)
    : Type 0 where
  pub use_of : Use t heaps live
  pub chunks : Chunks
  pub holds : HoldsChunks t chunks
  pub none_fits : (a n p : ℕ) → chunks a ≡ free_chunk n → ¬ (IsPlace layout (gap a n) p)

abbrev pub Served :
    List Span
    → List Allocation
    → Layout
    → Span
    → (heap : Span) → Outcome (Allocator Span) ℕ
    → Type 0
Served heaps live layout span heap (ok p s') =
    let b : Allocation = record { ptr = p; layout = layout } in
    (Use s'.talc heaps (b ∷ live) × (s'.oom_handler ≡ span))
    ⊎ (Use s'.talc (heap ∷ heaps) (b ∷ live) × (is_empty s'.oom_handler ≡ true))
Served heaps live layout span heap (err s') =
    (is_empty s'.oom_handler ≡ true)
    × (((is_empty span ≡ true) × Full s'.talc heaps live layout)
        ⊎ ((is_empty span ≡ false) × Full s'.talc (heap ∷ heaps) live layout))
Served heaps live layout span heap panic = ⊥
Served heaps live layout span heap out_of_fuel = ⊥

module _ (heaps : List Span) (live : List Allocation) (layout : Layout) (k nodes : ℕ) (heap : Span)
    (is_layout : IsLayout layout k) (room : (x : ℕ) → InHeaps heaps x → x + layout.align ≤ 2 ^ 64)
    (enough : 2 ^ 60 ≤ nodes) where
  -- With no memory left to claim the handler fails.
  no_spare :
      (s : Allocator Span)
      → is_empty s.oom_handler ≡ true
      → claim_on_oom.handle_oom layout s ≡ err s
  unfolding claim_handle_oom
  no_spare s e = rw (claim_handle_oom, e) refl

  abbrev call : Allocator Span → ℕ → Outcome (Allocator Span) ℕ
  call s rounds = malloc claim_on_oom (suc rounds) nodes layout s

  -- Where the search fails.
  full :
      (t : Talc) (all : List Span)
      → Use t all live
      → ((x : ℕ) → InHeaps all x → x + layout.align ≤ 2 ^ 64)
      → malloc err_on_oom 1 nodes layout (on_err t) ≡ err (on_err t)
      → Full t all live layout
  full t all u room_all e =
      let i = Use-Inv t all live u in
      record {
        use_of = u;
        chunks = i.chunks;
        holds = i.holds;
        none_fits =
            (subst (Malloced i.chunks layout (on_err t)) e (
              malloc-Malloced (on_err t) i.chunks i.holds layout k is_layout
                (gap_room i.chunks i.holds.tiling all i.covered layout k is_layout room_all) 0 nodes
                enough)).1;
      }

  -- A round after which no memory is left.
  last_round :
      (all : List Span) (s : Allocator Span) (rounds : ℕ)
      → Use s.talc all live
      → ((x : ℕ) → InHeaps all x → x + layout.align ≤ 2 ^ 64)
      → is_empty s.oom_handler ≡ true
      → ((p : ℕ) × (t : Talc) × Use t all (record { ptr = p; layout = layout } ∷ live)
          × (call s rounds ≡ ok p (record s { talc = t })))
        ⊎ (Full s.talc all live layout × (call s rounds ≡ err s))
  last_round all s rounds u room_all empty =
      elim (malloc_ends s.talc all live layout k 0 nodes u is_layout room_all enough) [
        | inl (p, t, e) ↦ inl (
          p,
          t,
          allocate s.talc t all live layout k 0 nodes p u is_layout room_all enough e,
          subst (Round claim_on_oom nodes layout s rounds) e
              (malloc-Round claim_on_oom nodes layout s rounds),
        )
        | inr e ↦ inr (
          full s.talc all u room_all e,
          subst (Round claim_on_oom nodes layout s rounds) e
                (malloc-Round claim_on_oom nodes layout s rounds)
              ∙ ap (again claim_on_oom nodes layout rounds) (no_spare s empty),
        )
      ]

  room_with :
      heap.acme + layout.align ≤ 2 ^ 64
      → (x : ℕ) → InHeaps (heap ∷ heaps) x
      → x + layout.align ≤ 2 ^ 64
  room_with low x (inl (le, lt)) = omega arith
  room_with low x (inr old) = room x old

  claims :
      (s : Allocator Span) (t : Talc)
      → is_empty s.oom_handler ≡ false
      → claim s.oom_handler s.talc ≡ ok heap t
      → claim_on_oom.handle_oom layout s ≡ ok tt (record { talc = t; oom_handler = Span.empty })
  unfolding claim_handle_oom
  claims s t sized e = rw (claim_handle_oom, sized) (rw e refl)

  -- In every state that a client brings about, as in Use, for a layout that the heaps leave room
  -- for, with the handler ClaimOnOom whose span is empty or is aligned to a heap of the least size
  -- or more, apart from the heaps and with room for the alignment above it, at least two rounds
  -- and fuel for 2^60 gaps, malloc ends. It gives an address, and the state is one of Use with the
  -- new allocation, before the handler's memory is claimed, with the handler as it was, or after,
  -- with the handler empty; or it gives an error, and then the handler is empty, its heap, if it
  -- had one, is among those of the state, which is one of Use with the allocations as before, and
  -- no gap of that state has a place for the allocation.
  pub malloc-claim_on_oom-Served :
      (s : Allocator Span) (rounds : ℕ)
      → Use s.talc heaps live
      → IsSpare heaps layout.align s.oom_handler heap
      → Served heaps live layout s.oom_handler heap
          (malloc claim_on_oom (suc (suc rounds)) nodes layout s)
  unfolding is_empty
  malloc-claim_on_oom-Served s rounds u (inl empty) =
      elim (last_round heaps s (suc rounds) u room empty) [
        | inl (p, t, after, e) ↦ rw e (inl (after, refl))
        | inr (f, e) ↦ rw e (empty, inl (empty, f))
      ]
  malloc-claim_on_oom-Served s rounds u (inr (sized, is_heap, apart, low)) =
      elim (malloc_ends s.talc heaps live layout k 0 nodes u is_layout room enough) [
        | inl (p, t, e) ↦
            rw
              (subst (Round claim_on_oom nodes layout s (suc rounds)) e
                (malloc-Round claim_on_oom nodes layout s (suc rounds)))
              (inl
                (allocate s.talc t heaps live layout k 0 nodes p u is_layout room enough e, refl))
        | inr e ↦
            let i = Use-Inv s.talc heaps live u in
            let (t, claimed) = claim_heap s.oom_handler heap s.talc is_heap i.placed in
            let s1 : Allocator Span = record { talc = t; oom_handler = Span.empty } in
            let u1 = further s.talc t heaps live s.oom_handler heap u is_heap apart claimed in
            let now =
              subst (Round claim_on_oom nodes layout s (suc rounds)) e
                (malloc-Round claim_on_oom nodes layout s (suc rounds))
              ∙ ap (again claim_on_oom nodes layout (suc rounds)) (claims s t sized claimed) in
            elim (last_round (heap ∷ heaps) s1 rounds u1 (room_with low) refl) [
              | inl (p, t', after, e') ↦ rw (now, e') (inr (after, refl))
              | inr (f, e') ↦ rw (now, e') (refl, inr (sized, f))
            ]
      ]
