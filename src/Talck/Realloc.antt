-- ===== src/Talck/Realloc.antt =====
-- `realloc` of talc/src/talck.rs while other threads use the allocator.
use talc.Base.{
  ℕ, suc, ◌+◌, ◌^◌, ◌≤◌, ◌<◌, ◌≡◌, refl, ◌≢◌, ◌⊎◌, inl, inr, Bool, true, false, min, List, [], ◌∷◌,
  ◌++◌, arith, ap, sym, subst, ◌∙◌, ltb, if◌then◌else◌, Bool-cases, ltb→lt, ltb→le,
}
use talc.Base.Lists.{
  All-append, IsElement, Around, IsElement-Around, middle-IsElement, All-IsElement,
}
use talc.Span.{Span}
use talc.OomHandler.{Allocator, err_on_oom}
use talc.Talc.Layout.{Layout}
use talc.Talc.State.{Talc}
use talc.Talc.Outcome.{Outcome, ok, err, panic, out_of_fuel}
use talc.Talc.Free.{free, shrink}
use talc.Talc.Loop.{malloc, grow_in_place, copy_from_nonoverlapping}
use talc.Talc.Malloc.Fit.{IsLayout}
use talc.Talc.Chunks.{Chunks}
use talc.Talc.Chunks.Grow.{Grown}
use talc.Talc.Chunks.Grow.InPlace.{grow_in_place-Grown}
use talc.Talc.Use.{Allocation, InHeaps, Use, allocate, reduce, enlarge, fill, resized, on_err}
use talc.Talc.Use.Invariant.{IsLive}
use talc.Talc.Use.Safety.{Use-Inv, malloc_keeps_others, malloc_ends}
use talc.Talc.Use.Words.{
  SameBytes, kept-SameBytes, later-SameBytes, earlier-SameBytes, SameWords, shrink_keeps,
  grow_in_place_keeps,
}
use talc.Talc.Use.Realloc.{copied-SameBytes, copy_outside}
use talc.Talck.{or_null, realloc, reallocate, release_lock_on_realloc_limit}
use talc.Talck.Threads.{Leaves, IsHeld, same-IsHeld, earlier-IsHeld, released-IsHeld}

module _ (others : Allocator (Unit {0}) → Allocator (Unit {0})) (heaps : List Span) (a : Allocation)
    (new_size k rounds nodes : ℕ)
    (is_layout : IsLayout (record { size = new_size; align = a.layout.align }) k)
    (room : (x : ℕ) → InHeaps heaps x → x + a.layout.align ≤ 2 ^ 64) (enough : 2 ^ 60 ≤ nodes) where
  abbrev new_layout : Layout
  new_layout = record { size = new_size; align = a.layout.align }

  abbrev b_at : ℕ → Allocation
  b_at p = record { ptr = p; layout = new_layout }

  -- What `realloc` returns: null, with the old allocation as it was; or the new one, with the words
  -- of the old one up to the smaller of the two sizes.
  abbrev pub Reallocated : Talc → Outcome (Allocator (Unit {0})) ℕ → Type 0
  Reallocated s (ok p s') =
      ((p ≡ 0) × IsHeld s heaps a.ptr a.layout.size a s'.talc)
      ⊎ IsHeld s heaps a.ptr (min a.layout.size new_size) (b_at p) s'.talc
  Reallocated s (err s') = ⊥
  Reallocated s panic = ⊥
  Reallocated s out_of_fuel = ⊥

  -- What `realloc` makes of the answer of `malloc`.
  abbrev moved : Outcome (Allocator (Unit {0})) ℕ → Outcome (Allocator (Unit {0})) ℕ
  moved (ok p s') =
      let copied = record s' {
        talc = record (s'.talc) {
          mem = copy_from_nonoverlapping p a.ptr a.layout.size s'.talc.mem;
        };
      } in
      ok p (
        on_err (
          free a.ptr a.layout
            (if ltb release_lock_on_realloc_limit a.layout.size
              then others copied
              else copied).talc))
  moved (err s') = ok 0 s'
  moved panic = panic
  moved out_of_fuel = out_of_fuel

  -- From the lock on: `s1` is what the others left.
  module _ (s1 : Talc) (live1 : List Allocation) (u1 : Use s1 heaps live1) (in1 : IsElement a live1)
      (more : a.layout.size < new_size)
      (second : (p : ℕ) (t : Talc)
        → malloc err_on_oom (suc rounds) nodes new_layout (on_err s1) ≡ ok p (on_err t)
        → ltb release_lock_on_realloc_limit a.layout.size ≡ true
        → Leaves others
            (record t { mem = copy_from_nonoverlapping p a.ptr a.layout.size t.mem })
            heaps
            (b_at p ∷ a ∷ [])) where
    module _ (p : ℕ) (t : Talc)
        (e : malloc err_on_oom (suc rounds) nodes new_layout (on_err s1) ≡ ok p (on_err t)) where
      with_new : Use t heaps (b_at p ∷ live1)
      with_new = allocate s1 t heaps live1 new_layout k rounds nodes p u1 is_layout room enough e

      abbrev copied : Talc
      copied = record t { mem = copy_from_nonoverlapping p a.ptr a.layout.size t.mem }

      with_copy : Use copied heaps (b_at p ∷ live1)
      with_copy =
          fill t heaps [] (b_at p) live1 (copy_from_nonoverlapping p a.ptr a.layout.size t.mem)
            with_new
            (λ x out. copy_outside p a.ptr a.layout.size t.mem x (omega (arith, out, more)))

      ne : p ≢ a.ptr
      ne =
          All-IsElement (λ (c : Allocation). p ≢ c.ptr) a live1
            (Use-Inv t heaps (b_at p ∷ live1) with_new).distinct.0 in1

      copied_bytes : SameBytes s1 copied a.ptr p a.layout.size
      copied_bytes =
          earlier-SameBytes s1 t copied a.ptr p a.layout.size a.layout.size (omega arith)
            (All-IsElement (λ c. SameWords s1 t c.ptr c.layout.size) a live1
              (malloc_keeps_others s1 t heaps live1 new_layout k rounds nodes p u1 is_layout room
                enough e)
              in1)
            (copied-SameBytes p a.ptr a.layout.size t)

      moved-IsHeld :
          (large : Bool)
          → ltb release_lock_on_realloc_limit a.layout.size ≡ large
          → IsHeld s1 heaps a.ptr a.layout.size
              (b_at p)
              (free a.ptr a.layout (if large then others (on_err copied) else on_err copied).talc)
      moved-IsHeld true limit =
          let left = second p t e limit in
          let bytes =
            later-SameBytes s1 copied (others (on_err copied)).talc a.ptr p a.layout.size new_size
              (omega (arith, more)) copied_bytes left.keeps.0.1 in
          released-IsHeld heaps a (b_at p) s1 (others (on_err copied)).talc left.live a.layout.size
            left.use_after left.keeps.0.0 left.keeps.1.0.0 ne (omega (arith, more)) bytes
      moved-IsHeld false limit =
          released-IsHeld heaps a (b_at p) s1 copied (b_at p ∷ live1) a.layout.size with_copy
            (inl refl) (inr in1) ne (omega (arith, more)) copied_bytes

    least_size : a.layout.size < new_size → a.layout.size ≡ min a.layout.size new_size
    least_size up = omega arith

    moved-Reallocated :
        Reallocated s1 (moved (malloc err_on_oom (suc rounds) nodes new_layout (on_err s1)))
    moved-Reallocated =
        elim (malloc_ends s1 heaps live1 new_layout k rounds nodes u1 is_layout room enough) [
          | inl (p, t, e) ↦ rw e (
              inr (
                subst
                  (λ n. IsHeld s1 heaps a.ptr n (b_at p) (
                    free a.ptr a.layout
                      (if ltb release_lock_on_realloc_limit a.layout.size
                        then others (on_err (copied p t e))
                        else on_err (copied p t e)).talc))
                  (least_size more)
                  (moved-IsHeld p t e (ltb release_lock_on_realloc_limit a.layout.size) refl)))
          | inr e ↦ rw e (inl (refl, same-IsHeld s1 heaps a s1 live1 u1 in1 (λ x from to. refl)))
        ]

  module _ (s : Talc) (live : List Allocation) (u : Use s heaps live) (in_a : IsElement a live)
      (small : a.ptr + new_size + 7 < 2 ^ 64) (first : Leaves others s heaps (a ∷ []))
      (second : (p : ℕ) (t : Talc)
        → malloc err_on_oom (suc rounds) nodes new_layout (others (on_err s)) ≡ ok p (on_err t)
        → ltb release_lock_on_realloc_limit a.layout.size ≡ true
        → Leaves others
            (record t { mem = copy_from_nonoverlapping p a.ptr a.layout.size t.mem })
            heaps
            (b_at p ∷ a ∷ [])) where
    abbrev at : Around a live
    at = IsElement-Around a live in_a

    here : Use s heaps (at.before ++ a ∷ at.after)
    here = subst (Use s heaps) at.split u

    abbrev after_others : Talc
    after_others = (others (on_err s)).talc

    earlier :
        (r : Outcome (Allocator (Unit {0})) ℕ)
        → SameWords s after_others a.ptr a.layout.size
        → Reallocated after_others r
        → Reallocated s r
    earlier (ok p s') same (inl (null, h)) = inl (null, earlier-IsHeld same (omega arith) h)
    earlier (ok p s') same (inr h) = inr (earlier-IsHeld same (omega arith) h)
    earlier (err s') same h = h
    earlier panic same h = h
    earlier out_of_fuel same h = h

    -- Where the allocation does not grow in place, others may come first.
    failed-Reallocated :
        a.layout.size < new_size
        → Reallocated s
            (moved (malloc err_on_oom (suc rounds) nodes new_layout (on_err after_others)))
    failed-Reallocated more =
        earlier (moved (malloc err_on_oom (suc rounds) nodes new_layout (on_err after_others)))
          first.keeps.0.1
          (moved-Reallocated after_others first.live first.use_after first.keeps.0.0 more second)

    abbrev answer : Outcome Talc ℕ → Outcome (Allocator (Unit {0})) ℕ
    answer (ok p t) = ok p (on_err t)
    answer (err t) =
        moved (malloc err_on_oom (suc rounds) nodes new_layout (on_err (others (on_err t)).talc))
    answer panic = panic
    answer out_of_fuel = out_of_fuel

    grown-Reallocated :
        a.layout.size < new_size → Reallocated s (answer (grow_in_place a.ptr a.layout new_size s))
    grown-Reallocated more =
        let i = Use-Inv s heaps (at.before ++ a ∷ at.after) here in
        let l = (All-append (IsLive i.chunks) at.before (a ∷ at.after) i.lives).1.0 in
        by_place i.chunks l.base l.size (grow_in_place a.ptr a.layout new_size s) refl (
          grow_in_place-Grown s i.chunks i.holds l.base l.size a.ptr a.layout l.chunk new_size
            small)
      where
        in_place :
            (t : Talc)
            → grow_in_place a.ptr a.layout new_size s ≡ ok a.ptr t
            → Reallocated s (ok a.ptr (on_err t))
        in_place t e =
            let kept =
              grow_in_place_keeps s heaps at.before a at.after here new_size t (omega (arith, more))
                small e in
            inr (record {
              live = at.before ++ resized a new_size ∷ at.after;
              use_after =
                  enlarge s t heaps at.before a at.after new_size here (omega (arith, more)) small
                    e;
              held = middle-IsElement at.before (resized a new_size) at.after;
              bytes =
                  kept-SameBytes s t a.ptr (min a.layout.size new_size) a.layout.size (omega arith)
                    kept.1;
            })

        by_place :
            (cs : Chunks) (base size : ℕ) (r : Outcome Talc ℕ)
            → grow_in_place a.ptr a.layout new_size s ≡ r
            → Grown s cs base size a.ptr new_size r
            → Reallocated s (answer r)
        by_place cs base size (ok p t) e g =
            subst (λ q. Reallocated s (ok q (on_err t))) (sym g.0)
              (in_place t (e ∙ ap (λ q. ok q t) g.0))
        by_place cs base size (err t) e g =
            subst (λ x. Reallocated s (answer (err x))) (sym g.0) (failed-Reallocated more)
        by_place cs base size panic e g = elim g [ ]
        by_place cs base size out_of_fuel e g = elim g [ ]

    shrunk-Reallocated :
        new_size < a.layout.size
        → Reallocated s (ok a.ptr (on_err (shrink a.ptr a.layout new_size s)))
    shrunk-Reallocated less =
        let kept = shrink_keeps s heaps at.before a at.after here new_size (omega (arith, less)) in
        inr (record {
          live = at.before ++ resized a new_size ∷ at.after;
          use_after = reduce s heaps at.before a at.after new_size here (omega (arith, less));
          held = middle-IsElement at.before (resized a new_size) at.after;
          bytes =
              kept-SameBytes s (shrink a.ptr a.layout new_size s) a.ptr (min a.layout.size new_size)
                new_size (omega arith) kept.1;
        })

    same-Reallocated : new_size ≡ a.layout.size → Reallocated s (ok a.ptr (on_err s))
    same-Reallocated e = inr (record {
      live = live;
      use_after = u;
      held = subst (λ n. IsElement (resized a n) live) (sym e) in_a;
      bytes =
          kept-SameBytes s s a.ptr (min a.layout.size new_size) a.layout.size (omega arith)
            (λ x from to. refl);
    })

    abbrev call : Outcome (Allocator (Unit {0})) ℕ
    call = realloc err_on_oom others (suc rounds) nodes a.ptr a.layout new_size (on_err s)

    reallocate-moved :
        (s1 : Allocator (Unit {0})) (m : Outcome (Allocator (Unit {0})) ℕ)
        → malloc err_on_oom (suc rounds) nodes new_layout s1 ≡ m
        → or_null (
            reallocate err_on_oom others
              (suc rounds)
              nodes
              a.ptr
              a.layout
              new_layout
              a.layout.size
              s1)
          ≡ moved m
    unfolding reallocate
    reallocate-moved s1 (ok p s') e = rw (reallocate, e) refl
    reallocate-moved s1 (err s') e = rw (reallocate, e) refl
    reallocate-moved s1 panic e = rw (reallocate, e) refl
    reallocate-moved s1 out_of_fuel e = rw (reallocate, e) refl

    grow-answer :
        (r : Outcome Talc ℕ)
        → ltb a.layout.size new_size ≡ true
        → grow_in_place a.ptr a.layout new_size s ≡ r
        → call ≡ answer r
    unfolding realloc
    grow-answer (ok p t) up e = rw (realloc, up) (rw e refl)
    grow-answer (err t) up e = rw (realloc, up) (rw e (reallocate-moved (others (on_err t)) _ refl))
    grow-answer panic up e = rw (realloc, up) (rw e refl)
    grow-answer out_of_fuel up e = rw (realloc, up) (rw e refl)

    shrink-answer :
        ltb a.layout.size new_size ≡ false
        → call ≡ (
            if ltb new_size a.layout.size
            then ok a.ptr (on_err (shrink a.ptr a.layout new_size s))
            else ok a.ptr (on_err s))
    unfolding realloc
    shrink-answer up = rw (realloc, up) refl

    -- In every state that a client brings about, as in Use, for one of its allocations, a layout
    -- of the new size that the heaps leave room for and that, from the allocation's address on and
    -- rounded up to a word, stays in the address space, with the handler ErrOnOom, at least one
    -- round and fuel for 2^60 gaps, realloc ends, whatever other threads do in the two states in
    -- which it releases the lock, if each time they lead to a state of Use with the same heaps, in
    -- which the allocations of this thread (the old one, and the new one once it is made) are
    -- still there with their words. It returns null, and the allocation is still there with its
    -- bytes; or an address, and the state is one of Use in which the allocation of the new size is
    -- there, with the bytes of the old one up to the smaller of the two sizes.
    pub realloc-Reallocated : Reallocated s call
    realloc-Reallocated = elim (Bool-cases (ltb a.layout.size new_size)) [
      | inl up ↦
          subst (Reallocated s)
            (sym (grow-answer (grow_in_place a.ptr a.layout new_size s) up refl))
            (grown-Reallocated (ltb→lt a.layout.size new_size up))
      | inr up ↦
          subst (Reallocated s) (sym (shrink-answer up))
            (elim (Bool-cases (ltb new_size a.layout.size)) [
              | inl down ↦ rw down (shrunk-Reallocated (ltb→lt new_size a.layout.size down))
              | inr down ↦
                  let le = ltb→le a.layout.size new_size up in
                  let ge = ltb→le new_size a.layout.size down in
                  rw down (same-Reallocated (omega (arith, le, ge)))
            ])
    ]
