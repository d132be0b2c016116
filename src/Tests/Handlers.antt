-- ===== src/Tests/Handlers.antt =====
-- Runs of the model of talc/src/talc.rs with the handler `ClaimOnOom`.
use talc.Base.{◌^◌, refl, inr, [], ◌∷◌, arith}
use talc.Span
use talc.Span.{Span}
use talc.OomHandler.{Allocator, claim_on_oom}
use talc.Talc.Loop.{malloc}
use talc.Talc.Use.Handler.{IsSpare, Served, malloc-claim_on_oom-Served}
use talc.Tests.Client.{
  memory, layout, layout-IsLayout, heaps_room, after_second, after_second-Use, one, two, next_heap,
  next_heap-IsHeap, next_heap-apart,
}

abbrev start : Allocator Span
start = record { talc = after_second; oom_handler = next_heap }

next_heap-IsSpare : IsSpare (memory ∷ []) 64 next_heap next_heap
unfolding Span.is_empty
next_heap-IsSpare = inr (refl, next_heap-IsHeap, next_heap-apart, omega arith)

malloc-claim_on_oom-Served_example :
    Served
      (memory ∷ [])
      (two ∷ one ∷ [])
      layout
      next_heap
      next_heap
      (malloc claim_on_oom 2 (2 ^ 60) layout start)
malloc-claim_on_oom-Served_example =
    malloc-claim_on_oom-Served (memory ∷ []) (two ∷ one ∷ []) layout 6 (2 ^ 60) next_heap
      layout-IsLayout heaps_room (omega arith) start 0 after_second-Use next_heap-IsSpare
