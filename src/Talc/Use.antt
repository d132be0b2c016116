-- ===== src/Talc/Use.antt =====
-- The client of talc/src/talc.rs: what it may call, with the heaps that it has claimed and the
-- allocations that it has not released. The handler is `ErrOnOom`.
pub mod Invariant
pub mod Release
pub mod Allocate
pub mod Claims
pub mod Resize
pub mod Safety
pub mod Reuse
pub mod Words
pub mod Scan
pub mod Handler
pub mod Realloc
use talc.Base.{ℕ, ◌+◌, ◌-◌, ◌%◌, ◌^◌, ◌≤◌, ◌<◌, ◌≡◌, ◌≢◌, ◌⊎◌, false, suc, List, [], ◌∷◌, ◌++◌}
use talc.Mem.{Mem}
use talc.Span.{Span, word_align_inward, contains}
use talc.Span
use talc.OomHandler.{Allocator, err_on_oom}
use talc.Talc.Layout.{Layout}
use talc.Talc.State.{Talc}
use talc.Talc.Outcome.{Outcome, ok}
use talc.Talc.Heaps.{new, claim}
use talc.Talc.Malloc.Fit.{IsLayout}
use talc.Talc.Free.{free, shrink}
use talc.Talc.Loop.{malloc, grow_in_place}

pub record Allocation : Type 0 where
  pub ptr : ℕ
  pub layout : Layout

-- The allocation with another size.
abbrev pub resized : Allocation → ℕ → Allocation
resized a new_size = record {
  ptr = a.ptr;
  layout = record { size = new_size; align = a.layout.align };
}

-- The address is in one of the heaps.
abbrev pub InHeaps : List Span → ℕ → Type 0
InHeaps [] x = ⊥
InHeaps (s ∷ heaps) x = ((s.base ≤ x) × (x < s.acme)) ⊎ InHeaps heaps x

-- The heap is the aligned part of the memory that is claimed, off the null address, and has room
-- for `least` bytes.
pub record IsHeap (least : ℕ) (memory heap : Span) : Type 0 where
  pub inward : word_align_inward memory ≡ Span.new heap.base heap.acme
  pub off_null : contains memory 0 ≡ false
  pub ne_null : heap.base ≢ 0
  pub aligned : heap.base % 8 ≡ 0
  pub whole : heap.acme % 8 ≡ 0
  pub in_word : heap.acme < 2 ^ 64
  pub room : heap.base + least ≤ heap.acme

abbrev pub on_err : Talc → Allocator (Unit {0})
on_err t = record { talc = t; oom_handler = tt }

-- The states that a client can bring about: it claims a first heap, claims others apart from those
-- before, allocates with layouts that the heaps leave room for, writes to what it allocated, resizes
-- it in place, and releases it.
pub data Use : Talc → List Span → List Allocation → Type 0 where
  first :
      (m : Mem) (memory heap : Span) (t : Talc)
      → IsHeap 1040 memory heap
      → claim memory (new m) ≡ ok heap t
      → Use t (heap ∷ []) []
  further :
      (s t : Talc) (heaps : List Span) (live : List Allocation) (memory heap : Span)
      → Use s heaps live
      → IsHeap 32 memory heap
      → ((x : ℕ) → heap.base ≤ x → x < heap.acme → ¬ (InHeaps heaps x))
      → claim memory s ≡ ok heap t
      → Use t (heap ∷ heaps) live
  allocate :
      (s t : Talc) (heaps : List Span) (live : List Allocation) (layout : Layout)
      (k rounds nodes ptr : ℕ)
      → Use s heaps live
      → IsLayout layout k
      → ((x : ℕ) → InHeaps heaps x → x + layout.align ≤ 2 ^ 64)
      → 2 ^ 60 ≤ nodes
      → malloc err_on_oom (suc rounds) nodes layout (on_err s) ≡ ok ptr (on_err t)
      → Use t heaps (record { ptr = ptr; layout = layout } ∷ live)
  release :
      (s : Talc) (heaps : List Span) (before : List Allocation) (a : Allocation)
      (after : List Allocation)
      → Use s heaps (before ++ a ∷ after)
      → Use (free a.ptr a.layout s) heaps (before ++ after)
  reduce :
      (s : Talc) (heaps : List Span) (before : List Allocation) (a : Allocation)
      (after : List Allocation) (new_size : ℕ)
      → Use s heaps (before ++ a ∷ after)
      → new_size ≤ a.layout.size
      → Use (shrink a.ptr a.layout new_size s) heaps (before ++ resized a new_size ∷ after)
  enlarge :
      (s t : Talc) (heaps : List Span) (before : List Allocation) (a : Allocation)
      (after : List Allocation) (new_size : ℕ)
      → Use s heaps (before ++ a ∷ after)
      → a.layout.size ≤ new_size
      → a.ptr + new_size + 7 < 2 ^ 64
      → grow_in_place a.ptr a.layout new_size s ≡ ok a.ptr t
      → Use t heaps (before ++ resized a new_size ∷ after)
  fill :
      (s : Talc) (heaps : List Span) (before : List Allocation) (a : Allocation)
      (after : List Allocation) (m : Mem)
      → Use s heaps (before ++ a ∷ after)
      → ((x : ℕ) → (x < a.ptr) ⊎ (a.ptr + a.layout.size ≤ x) → m x ≡ s.mem x)
      → Use (record s { mem = m }) heaps (before ++ a ∷ after)
