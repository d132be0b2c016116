-- ===== src/Talck/Threads.antt =====
-- What a thread may assume while other threads use the allocator of talc/src/talck.rs: whenever the
-- lock is released, they may make any calls, but not with the allocations of this thread.
use talc.Base.{ℕ, ◌≤◌, ◌≢◌, List, ◌++◌, arith, ap, subst}
use talc.Base.Lists.{All, IsElement, IsElement-Around, other-IsElement, All-IsElement}
use talc.Span.{Span}
use talc.OomHandler.{Allocator}
use talc.Talc.State.{Talc}
use talc.Talc.Free.{free}
use talc.Talc.Use.{Allocation, Use, release, on_err}
use talc.Talc.Use.Safety.{free_keeps_others}
use talc.Talc.Use.Words.{SameWords, SameBytes, kept-SameBytes, later-SameBytes, earlier-SameBytes}

-- What the others do to a state while the lock is released: they bring about a state of a client
-- with the same heaps, in which the allocations of this thread are still there, with their words.
-- Allocations that are not of this thread they may write to, resize and release.
pub record Leaves (others : Allocator (Unit {0}) → Allocator (Unit {0})) (s : Talc)
    (heaps : List Span) (mine : List Allocation) : Type 0 where
  pub live : List Allocation
  pub use_after : Use (others (on_err s)).talc heaps live
  pub keeps :
      All (λ a. IsElement a live × SameWords s (others (on_err s)).talc a.ptr a.layout.size) mine

-- The allocation is among those of the state, and its first `n` bytes are those that stood at
-- `ptr`.
pub record IsHeld (s : Talc) (heaps : List Span) (ptr n : ℕ) (b : Allocation) (t : Talc)
    : Type 0 where
  pub live : List Allocation
  pub use_after : Use t heaps live
  pub held : IsElement b live
  pub bytes : SameBytes s t ptr b.ptr n

pub same-IsHeld :
    (s : Talc) (heaps : List Span) (a : Allocation) (t : Talc) (live : List Allocation)
    → Use t heaps live
    → IsElement a live
    → SameWords s t a.ptr a.layout.size
    → IsHeld s heaps a.ptr a.layout.size a t
same-IsHeld s heaps a t live u i same = record {
  live = live;
  use_after = u;
  held = i;
  bytes = kept-SameBytes s t a.ptr a.layout.size a.layout.size (omega arith) same;
}

-- With the words as they were from an earlier state on.
pub earlier-IsHeld :
    {s s1 : Talc} {heaps : List Span} {ptr n m : ℕ} {b : Allocation} {t : Talc}
    → SameWords s s1 ptr m
    → n ≤ m
    → IsHeld s1 heaps ptr n b t
    → IsHeld s heaps ptr n b t
earlier-IsHeld {s} {s1} {ptr = ptr} {n = n} {m = m} {b = b} {t = t} same le h = record {
  live = h.live;
  use_after = h.use_after;
  held = h.held;
  bytes = earlier-SameBytes s s1 t ptr b.ptr n m le same h.bytes;
}

-- The release of the old allocation, once the new one is filled.
module _ (heaps : List Span) (a b : Allocation) (s t : Talc) (live : List Allocation) (n : ℕ)
    (u : Use t heaps live) (in_b : IsElement b live) (in_a : IsElement a live) (ne : b.ptr ≢ a.ptr)
    (le : n ≤ b.layout.size) (bytes : SameBytes s t a.ptr b.ptr n) where
  pub released-IsHeld : IsHeld s heaps a.ptr n b (free a.ptr a.layout t)
  released-IsHeld =
      let at = IsElement-Around a live in_a in
      let split = subst (Use t heaps) at.split u in
      let in_rest =
        other-IsElement b at.before a at.after (λ e. ne (ap (λ (c : Allocation). c.ptr) e))
          (subst (IsElement b) at.split in_b) in
      let kept =
        All-IsElement (λ c. SameWords t (free a.ptr a.layout t) c.ptr c.layout.size) b
          (at.before ++ at.after) (free_keeps_others t heaps at.before a at.after split) in_rest in
      record {
        live = at.before ++ at.after;
        use_after = release t heaps at.before a at.after split;
        held = in_rest;
        bytes =
            later-SameBytes s t (free a.ptr a.layout t) a.ptr b.ptr n b.layout.size le bytes kept;
      }
