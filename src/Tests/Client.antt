-- ===== src/Tests/Client.antt =====
-- Runs of the model of talc/src/talc.rs as a client makes them.
use talc.Base.{ℕ, ◌+◌, ◌-◌, ◌^◌, ◌≤◌, ◌<◌, ◌≡◌, refl, ◌⊎◌, inl, inr, [], ◌∷◌, arith, List}
use talc.Base.Lists.{All}
use talc.Mem.{Mem}
use talc.Span.{Span}
use talc.Span
use talc.Counters.{account_claim}
use talc.OomHandler.{Allocator, err_on_oom}
use talc.Talc.Layout.{Layout}
use talc.Talc.State.{Talc}
use talc.Talc.Outcome.{Outcome, ok, err, panic, out_of_fuel}
use talc.Talc.Gaps.{count}
use talc.Talc.Heaps.{new, claim, claim_metadata}
use talc.Talc.Heaps.First.{first_claimed}
use talc.Talc.Malloc.Fit.{IsLayout}
use talc.Talc.Loop.{malloc}
use talc.Talc.Free.{free, shrink}
use talc.Talc.Chunks.Shrink.{Shrunk, shrink-Shrunk}
use talc.Talc.Gaps.{is_chunk_size}
use talc.Talc.Heaps.{claim_gap}
use talc.Talc.Chunks.{Piece, fence}
use talc.Talc.Chunks.Splice.{splice}
use talc.Talc.Chunks.State.{HoldsChunks}
use talc.Talc.Chunks.First.{no_chunks, first_pieces, claim_metadata-HoldsChunks}
use talc.Talc.Chunks.Claim.{heap_pieces, claim_gap-HoldsChunks}
use talc.Talc.Chunks.Release.{IsReleased, free-IsReleased}
use talc.Talc.Chunks.Search.{Malloced, malloc-Malloced}
use talc.Talc.Use.{Use, Allocation, InHeaps, IsHeap, on_err, first, allocate}
use talc.Talc.Use.Invariant.{Inv, IsLive}
use talc.Talc.Use.Allocate.{gap_room}
use talc.Talc.Use.Claims.{unclaimed}
use talc.Talc.Use.Reuse.{malloc_after_free}
use talc.Talc.Use.Safety.{
  Use-Inv, IsGood, Apart, allocations-Apart, free_keeps_others, malloc_keeps_others, malloc_ends,
}

abbrev zeros : Mem
zeros a = 0

abbrev pub memory : Span
memory = Span.new 8192 16384

abbrev after_claim : Talc
after_claim = count (account_claim (16384 - 8192)) (claim_metadata 8192 16384 (new zeros))

memory-IsHeap : IsHeap 1040 memory memory
unfolding Span.word_align_inward talc.PtrUtils.align_up talc.PtrUtils.align_down Span.contains
memory-IsHeap = record {
  inward = refl;
  off_null = refl;
  ne_null = omega arith;
  aligned = refl;
  whole = refl;
  in_word = omega arith;
  room = omega arith;
}

claimed : claim memory (new zeros) ≡ ok memory after_claim
unfolding new Span.word_align_inward talc.PtrUtils.align_up talc.PtrUtils.align_down Span.contains
claimed =
    first_claimed (new zeros) refl refl 8192 16384 refl refl (omega arith) (omega arith) memory refl
      refl refl

after_claim-Use : Use after_claim (memory ∷ []) []
after_claim-Use = first zeros memory memory after_claim memory-IsHeap claimed

abbrev pub layout : Layout
layout = record { size = 100; align = 64 }

pub layout-IsLayout : IsLayout layout 6
layout-IsLayout = record { power = refl; small = omega arith; fits = omega arith }

pub heaps_room : (x : ℕ) → InHeaps (memory ∷ []) x → x + 64 ≤ 2 ^ 64
heaps_room x (inl (le, lt)) = omega arith
heaps_room x (inr none) = elim none [ ]

abbrev call : Talc → Outcome (Allocator (Unit {0})) ℕ
call t = malloc err_on_oom 1 (2 ^ 60) layout (on_err t)

abbrev state_of : Outcome (Allocator (Unit {0})) ℕ → Talc
state_of (ok p s) = s.talc
state_of (err s) = s.talc
state_of panic = after_claim
state_of out_of_fuel = after_claim

abbrev address_of : Outcome (Allocator (Unit {0})) ℕ → ℕ
address_of (ok p s) = p
address_of (err s) = 0
address_of panic = 0
address_of out_of_fuel = 0

abbrev pub after_malloc : Talc
after_malloc = state_of (call after_claim)

abbrev pub one : Allocation
one = record { ptr = address_of (call after_claim); layout = layout }

allocated : call after_claim ≡ ok one.ptr (on_err after_malloc)
unfolding malloc talc.Talc.Malloc.get_sufficient_chunk talc.Talc.Avails.next_available_bin
    talc.Talc.SizeClass.bin_of_size talc.Talc.SizeClass.required_chunk_size claim_metadata
    talc.Talc.Gaps.is_chunk_size talc.Talc.Gaps.register_gap talc.Mem.write
    talc.Talc.SizeClass.ilog2 talc.Talc.SizeClass.ilog2_rounds talc.Talc.Avails.set_avails new
    talc.Tag.write talc.Talc.Avails.trailing_zeros talc.Talc.Avails.trailing_zeros_rounds
    talc.Llist.insert talc.Counters.account_alloc talc.Counters.account_deregister_gap
    talc.Counters.account_register_gap talc.Counters.zeroed talc.Llist.remove talc.Llist.step
    talc.PtrUtils.align_up talc.PtrUtils.align_up_by talc.Tag.clear_above_free talc.Tag.tag_of
    talc.Talc.Avails.clear_avails talc.Talc.Gaps.deregister_gap talc.Talc.Heaps.init_bins
    talc.Talc.Malloc.carve talc.Talc.Malloc.fit_aligned talc.Talc.Malloc.scan_bins
    talc.Talc.Malloc.scan_nodes talc.Talc.Malloc.fit_word
allocated = refl

pub after_malloc-Use : Use after_malloc (memory ∷ []) (one ∷ [])
after_malloc-Use =
    allocate after_claim after_malloc (memory ∷ []) [] layout 6 0 (2 ^ 60) one.ptr after_claim-Use
      layout-IsLayout heaps_room (omega arith) allocated

abbrev pub after_second : Talc
after_second = state_of (call after_malloc)

abbrev pub two : Allocation
two = record { ptr = address_of (call after_malloc); layout = layout }

allocated_second : call after_malloc ≡ ok two.ptr (on_err after_second)
unfolding malloc talc.Talc.Malloc.get_sufficient_chunk talc.Talc.Avails.next_available_bin
    talc.Talc.SizeClass.bin_of_size talc.Talc.SizeClass.required_chunk_size claim_metadata
    talc.Talc.Gaps.is_chunk_size talc.Talc.Gaps.register_gap talc.Mem.write
    talc.Talc.SizeClass.ilog2 talc.Talc.SizeClass.ilog2_rounds talc.Talc.Avails.set_avails new
    talc.Tag.write talc.Talc.Avails.trailing_zeros talc.Talc.Avails.trailing_zeros_rounds
    talc.Llist.insert talc.Counters.account_alloc talc.Counters.account_deregister_gap
    talc.Counters.account_register_gap talc.Counters.zeroed talc.Llist.remove talc.Llist.step
    talc.PtrUtils.align_up talc.PtrUtils.align_up_by talc.Tag.clear_above_free talc.Tag.tag_of
    talc.Talc.Avails.clear_avails talc.Talc.Gaps.deregister_gap talc.Talc.Heaps.init_bins
    talc.Talc.Malloc.carve talc.Talc.Malloc.fit_aligned talc.Talc.Malloc.scan_bins
    talc.Talc.Malloc.scan_nodes talc.Talc.Malloc.fit_word
allocated_second = refl

pub after_second-Use : Use after_second (memory ∷ []) (two ∷ one ∷ [])
after_second-Use =
    allocate after_malloc after_second (memory ∷ []) (one ∷ []) layout 6 0 (2 ^ 60) two.ptr
      after_malloc-Use layout-IsLayout heaps_room (omega arith) allocated_second

Use-Inv_example : Inv after_second (memory ∷ []) (two ∷ one ∷ [])
Use-Inv_example = Use-Inv after_second (memory ∷ []) (two ∷ one ∷ []) after_second-Use

allocations-Apart_example :
    All (IsGood after_second (memory ∷ [])) (two ∷ one ∷ []) × Apart (two ∷ one ∷ [])
allocations-Apart_example =
    allocations-Apart after_second (memory ∷ []) (two ∷ one ∷ []) after_second-Use

free_keeps_others_example :
    All
      (λ b.
        (x : ℕ)
        → b.ptr ≤ x
        → x < b.ptr + b.layout.size
        → (free two.ptr layout after_second).mem x ≡ after_second.mem x)
      (one ∷ [])
free_keeps_others_example =
    free_keeps_others after_second (memory ∷ []) [] two (one ∷ []) after_second-Use

malloc_keeps_others_example :
    All
      (λ b.
        (x : ℕ) → b.ptr ≤ x → x < b.ptr + b.layout.size → after_second.mem x ≡ after_malloc.mem x)
      (one ∷ [])
malloc_keeps_others_example =
    malloc_keeps_others after_malloc after_second (memory ∷ []) (one ∷ []) layout 6 0 (2 ^ 60)
      two.ptr after_malloc-Use layout-IsLayout heaps_room (omega arith) allocated_second

malloc_ends_example :
    ((p : ℕ) × (t : Talc) × (call after_second ≡ ok p (on_err t)))
    ⊎ (call after_second ≡ err (on_err after_second))
malloc_ends_example =
    malloc_ends after_second (memory ∷ []) (two ∷ one ∷ []) layout 6 0 (2 ^ 60) after_second-Use
      layout-IsLayout heaps_room (omega arith)

abbrev top_pieces : List Piece
top_pieces = fence 8 0 ∷ first_pieces (is_chunk_size (8192 + 1040) 16384) 8192 16384

claim_metadata-HoldsChunks_example :
    HoldsChunks (claim_metadata 8192 16384 (new zeros)) (splice 8192 16384 top_pieces no_chunks)
unfolding new
claim_metadata-HoldsChunks_example =
    claim_metadata-HoldsChunks (new zeros) refl refl 8192 16384 refl refl (omega arith)
      (omega arith) (omega arith)

after_claim-Inv : Inv after_claim (memory ∷ []) []
after_claim-Inv = Use-Inv after_claim (memory ∷ []) [] after_claim-Use

malloc-Malloced_example :
    Malloced after_claim-Inv.chunks layout (on_err after_claim) (call after_claim)
malloc-Malloced_example =
    malloc-Malloced (on_err after_claim) after_claim-Inv.chunks after_claim-Inv.holds layout 6
      layout-IsLayout
      (gap_room after_claim-Inv.chunks after_claim-Inv.holds.tiling (memory ∷ [])
        after_claim-Inv.covered layout 6 layout-IsLayout heaps_room)
      0 (2 ^ 60) (omega arith)

abbrev pub next_heap : Span
next_heap = Span.new 32768 65536

pub next_heap-IsHeap : IsHeap 32 next_heap next_heap
unfolding Span.word_align_inward talc.PtrUtils.align_up talc.PtrUtils.align_down Span.contains
next_heap-IsHeap = record {
  inward = refl;
  off_null = refl;
  ne_null = omega arith;
  aligned = refl;
  whole = refl;
  in_word = omega arith;
  room = omega arith;
}

pub next_heap-apart : (x : ℕ) → 32768 ≤ x → x < 65536 → ¬ (InHeaps (memory ∷ []) x)
next_heap-apart x le lt (inl inside) = omega arith
next_heap-apart x le lt (inr none) = none

claim_gap-HoldsChunks_example :
    HoldsChunks
      (claim_gap 32768 65536 after_claim)
      (splice 32768 65536 (heap_pieces 32768 65536) after_claim-Inv.chunks)
claim_gap-HoldsChunks_example =
    claim_gap-HoldsChunks after_claim after_claim-Inv.chunks after_claim-Inv.holds 32768 65536
      (unclaimed after_claim (memory ∷ []) [] after_claim-Inv next_heap next_heap next_heap-IsHeap
        next_heap-apart)
      (omega arith)

pub after_malloc-Inv : Inv after_malloc (memory ∷ []) (one ∷ [])
after_malloc-Inv = Use-Inv after_malloc (memory ∷ []) (one ∷ []) after_malloc-Use

pub one-IsLive : IsLive after_malloc-Inv.chunks one
one-IsLive = after_malloc-Inv.lives.0

free-IsReleased_example :
    IsReleased after_malloc after_malloc-Inv.chunks one-IsLive.base one-IsLive.size
      (free one.ptr layout after_malloc)
free-IsReleased_example =
    free-IsReleased after_malloc after_malloc-Inv.chunks after_malloc-Inv.holds one-IsLive.base
      one-IsLive.size one.ptr layout one-IsLive.chunk

malloc_after_free_example :
    (p : ℕ) × (t : Talc) × (malloc err_on_oom 1
        (2 ^ 60)
        layout
        (on_err (free two.ptr layout after_second))
      ≡ ok p (on_err t))
malloc_after_free_example =
    malloc_after_free after_second (memory ∷ []) [] two (one ∷ []) 6 0 (2 ^ 60) after_second-Use
      layout-IsLayout heaps_room (omega arith)

shrink-Shrunk_example :
    Shrunk after_malloc after_malloc-Inv.chunks one-IsLive.base one-IsLive.size one.ptr 40
      (shrink one.ptr layout 40 after_malloc)
shrink-Shrunk_example =
    shrink-Shrunk after_malloc after_malloc-Inv.chunks after_malloc-Inv.holds one-IsLive.base
      one-IsLive.size one.ptr layout one-IsLive.chunk 40 (omega arith)
