-- ===== src/Tests/Resizing.antt =====
-- Runs of the model of talc/src/talc.rs that resize allocations, and its debug check.
use talc.Base.{true, ltb, ℕ, ◌+◌, ◌^◌, ◌<◌, ◌≡◌, refl, inl, inr, [], ◌∷◌, arith}
use talc.Talc.Outcome.{ok}
use talc.OomHandler.{Allocator, err_on_oom}
use talc.Talck.{realloc, release_lock_on_realloc_limit}
use talc.Talck.Threads.{Leaves}
use talc.Talck.Realloc.{Reallocated, realloc-Reallocated}
use talc.Talc.Free.{free, shrink}
use talc.Talc.Loop.{grow_in_place, grow}
use talc.Talc.Malloc.Fit.{IsLayout}
use talc.Talc.Scan.{scan_for_errors}
use talc.Talc.Chunks.Grow.{Grown}
use talc.Talc.Chunks.Grow.InPlace.{grow_in_place-Grown}
use talc.Talc.Use.{InHeaps, on_err, release}
use talc.Talc.Use.Invariant.{Inv, live_bounds}
use talc.Talc.Use.Safety.{Use-Inv, free_keeps_others}
use talc.Talc.Use.Scan.{scan_for_errors_passes}
use talc.Talc.Use.Words.{KeepsWords, SameWords, shrink_keeps}
use talc.Talc.Use.Realloc.{Regrown, grow-Regrown}
use talc.Tests.Client.{
  memory, layout, heaps_room, after_malloc, after_malloc-Inv, one, one-IsLive, after_second,
  after_second-Use, two,
}

larger-IsLayout : IsLayout (record { size = 200; align = 64 }) 6
larger-IsLayout = record { power = refl; small = omega arith; fits = omega arith }

in_memory : (x : ℕ) → InHeaps (memory ∷ []) x → x < 16384
in_memory x (inl (le, lt)) = lt
in_memory x (inr none) = elim none [ ]

one_small : one.ptr + 200 + 7 < 2 ^ 64
one_small =
    let b = live_bounds after_malloc-Inv.chunks after_malloc-Inv.holds.tiling one one-IsLive in
    let inside =
      in_memory one.ptr
        (after_malloc-Inv.covered one-IsLive.base one.ptr b.0 (omega (arith, b.1, b.2))) in
    omega (arith, inside)

after_second-Inv : Inv after_second (memory ∷ []) (two ∷ one ∷ [])
after_second-Inv = Use-Inv after_second (memory ∷ []) (two ∷ one ∷ []) after_second-Use

two_small : two.ptr + 200 + 7 < 2 ^ 64
two_small =
    let l = after_second-Inv.lives.0 in
    let b = live_bounds after_second-Inv.chunks after_second-Inv.holds.tiling two l in
    let inside =
      in_memory two.ptr (after_second-Inv.covered l.base two.ptr b.0 (omega (arith, b.1, b.2))) in
    omega (arith, inside)

grow_in_place-Grown_example :
    Grown after_malloc after_malloc-Inv.chunks one-IsLive.base one-IsLive.size one.ptr 200
      (grow_in_place one.ptr layout 200 after_malloc)
grow_in_place-Grown_example =
    grow_in_place-Grown after_malloc after_malloc-Inv.chunks after_malloc-Inv.holds one-IsLive.base
      one-IsLive.size one.ptr layout one-IsLive.chunk 200 one_small

grow-Regrown_example :
    Regrown after_second
      (memory ∷ [])
      []
      two
      (one ∷ [])
      200
      (grow err_on_oom 1 (2 ^ 60) two.ptr layout 200 (on_err after_second))
grow-Regrown_example =
    grow-Regrown after_second (memory ∷ []) [] two (one ∷ []) 200 6 0 (2 ^ 60) after_second-Use
      (omega arith) two_small larger-IsLayout heaps_room (omega arith)

shrink_keeps_example :
    KeepsWords after_second (shrink two.ptr layout 40 after_second) (one ∷ [])
    × SameWords after_second (shrink two.ptr layout 40 after_second) two.ptr 40
shrink_keeps_example =
    shrink_keeps after_second (memory ∷ []) [] two (one ∷ []) after_second-Use 40 (omega arith)

scan_for_errors_passes_example : scan_for_errors (2 ^ 60) after_second ≡ ok tt after_second
scan_for_errors_passes_example =
    scan_for_errors_passes after_second (memory ∷ []) (two ∷ one ∷ []) (2 ^ 60) after_second-Use
      (omega arith)

-- Another thread, which releases its allocation.
abbrev others : Allocator (Unit {0}) → Allocator (Unit {0})
others s = on_err (free two.ptr layout s.talc)

others-Leaves : Leaves others after_second (memory ∷ []) (one ∷ [])
others-Leaves = record {
  live = one ∷ [];
  use_after = release after_second (memory ∷ []) [] two (one ∷ []) after_second-Use;
  keeps = (
    (inl refl, (free_keeps_others after_second (memory ∷ []) [] two (one ∷ []) after_second-Use).0),
    tt,
  );
}

not_large : ltb release_lock_on_realloc_limit 100 ≡ true → ⊥
not_large e = ground arith

realloc-Reallocated_example :
    Reallocated others
      (memory ∷ [])
      one
      200
      6
      0
      (2 ^ 60)
      larger-IsLayout
      heaps_room
      (omega arith)
      after_second
      (realloc err_on_oom others 1 (2 ^ 60) one.ptr layout 200 (on_err after_second))
realloc-Reallocated_example =
    realloc-Reallocated others (memory ∷ []) one 200 6 0 (2 ^ 60) larger-IsLayout heaps_room
      (omega arith) after_second (two ∷ one ∷ []) after_second-Use (inr (inl refl)) one_small
      others-Leaves (λ p t e large. absurd (not_large large))
