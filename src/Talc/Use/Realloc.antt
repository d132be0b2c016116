-- ===== src/Talc/Use/Realloc.antt =====
-- `Talc::grow` of talc/src/talc.rs as a client calls it: in place, or by a new allocation, a copy
-- and a release.
use native.Mathlib.Nat.{mul-add-mod_self_right, mod-mod}
use talc.Base.{
  ◌*◌, ◌/◌, ◌%◌, ◌<◌, false, ℕ, suc, ◌+◌, ◌-◌, ◌^◌, ◌≤◌, ◌<◌, ◌≡◌, refl, ◌⊎◌, inl, inr, true, false,
  List, [], ◌∷◌, ◌++◌, arith, ap, sym, subst, ◌∙◌, leb, ltb, ◌&&◌,
}
use talc.Base.Lists.{All-map2, All-append, append-All}
use talc.Mem.{Mem}
use talc.Span.{Span}
use talc.OomHandler.{Allocator, err_on_oom}
use talc.Talc.Layout.{Layout}
use talc.Talc.State.{Talc}
use talc.Talc.Outcome.{Outcome, ok, err, panic, out_of_fuel}
use talc.Talc.Free.{free}
use talc.Talc.Loop.{malloc, grow, grow_in_place, copy_from_nonoverlapping}
use talc.Talc.Malloc.Fit.{IsLayout}
use talc.Talc.Chunks.{Chunks}
use talc.Talc.Use.Invariant.{IsLive}
use talc.Talc.Chunks.Grow.{Grown}
use talc.Talc.Chunks.Grow.InPlace.{grow_in_place-Grown}
use talc.Talc.Use.{Allocation, InHeaps, Use, allocate, release, enlarge, fill, on_err}
use talc.Talc.Use.Safety.{
  Use-Inv, ApartBytes, allocations-Apart, malloc_keeps_others, free_keeps_others, malloc_ends,
}
use talc.Talc.Use.Words.{
  SameBytes, kept-SameBytes, later-SameBytes, earlier-SameBytes, SameWords, KeepsWords,
  grow_in_place_keeps,
}

copy_inside :
    (dst src n : ℕ) (m : Mem) (k : ℕ)
    → k + 8 ≤ n
    → copy_from_nonoverlapping dst src n m (dst + k) ≡ m (src + k)
unfolding copy_from_nonoverlapping
copy_inside dst src n m k le =
    let inside : (leb dst (dst + k) && ltb (dst + k) (dst + n)) ≡ true = ground (arith, le) in
    let whole : leb 8 (dst + n - (dst + k)) ≡ true = ground (arith, le) in
    let offset : dst + k - dst ≡ k = omega arith in rw (inside, whole, offset) refl

-- The low bytes of the last word.
copy_last :
    (dst src n : ℕ) (m : Mem) (k : ℕ)
    → k < n
    → n < k + 8
    → copy_from_nonoverlapping dst src n m (dst + k) % 2 ^ (8 * (n - k))
      ≡ m (src + k) % 2 ^ (8 * (n - k))
unfolding copy_from_nonoverlapping
copy_last dst src n m k lt last =
    let inside : (leb dst (dst + k) && ltb (dst + k) (dst + n)) ≡ true = ground (arith, lt) in
    let part : leb 8 (dst + n - (dst + k)) ≡ false = ground (arith, last) in
    let offset : dst + k - dst ≡ k = omega arith in
    let left : dst + n - (dst + k) ≡ n - k = omega arith in
    rw (inside, part, offset, left)
      (mul-add-mod_self_right (m (dst + k) / 2 ^ (8 * (n - k))) (2 ^ (8 * (n - k)))
          (m (src + k) % 2 ^ (8 * (n - k)))
        ∙ mod-mod (m (src + k)) (2 ^ (8 * (n - k))))

pub copied-SameBytes :
    (dst src n : ℕ) (t : Talc)
    → SameBytes t (record t { mem = copy_from_nonoverlapping dst src n t.mem }) src dst n
copied-SameBytes dst src n t = (copy_inside dst src n t.mem, copy_last dst src n t.mem)

pub copy_outside :
    (dst src n : ℕ) (m : Mem) (x : ℕ)
    → (x < dst) ⊎ (dst + n ≤ x)
    → copy_from_nonoverlapping dst src n m x ≡ m x
unfolding copy_from_nonoverlapping
copy_outside dst src n m x out =
    let outside : (leb dst x && ltb x (dst + n)) ≡ false = ground (arith, out) in rw outside refl

-- The allocation at `p` holds what stood at `a`, the words of the others are as they were, and the
-- client may go on with the allocation in the place of the old one.
abbrev pub Moved :
    Talc → List Span → List Allocation → Allocation → List Allocation → ℕ → (p : ℕ) → Talc → Type 0
Moved s heaps before a after new_size p t =
    let b : Allocation = record {
      ptr = p;
      layout = record { size = new_size; align = a.layout.align };
    } in
    (Use t heaps (before ++ b ∷ after) ⊎ Use t heaps (b ∷ before ++ after))
    × SameBytes s t a.ptr p a.layout.size
    × KeepsWords s t (before ++ after)

abbrev pub Regrown :
    Talc
    → List Span
    → List Allocation
    → Allocation
    → List Allocation
    → ℕ
    → Outcome (Allocator (Unit {0})) ℕ
    → Type 0
Regrown s heaps before a after new_size (ok p s') =
    Moved s heaps before a after new_size p (s'.talc)
Regrown s heaps before a after new_size (err s') = s' ≡ on_err s
Regrown s heaps before a after new_size panic = ⊥
Regrown s heaps before a after new_size out_of_fuel = ⊥

module _ (s : Talc) (heaps : List Span) (before : List Allocation) (a : Allocation)
    (after : List Allocation) (new_size k rounds nodes : ℕ) (u : Use s heaps (before ++ a ∷ after))
    (more : a.layout.size ≤ new_size) (small : a.ptr + new_size + 7 < 2 ^ 64)
    (is_layout : IsLayout (record { size = new_size; align = a.layout.align }) k)
    (room : (x : ℕ) → InHeaps heaps x → x + a.layout.align ≤ 2 ^ 64) (enough : 2 ^ 60 ≤ nodes) where
  abbrev new_layout : Layout
  new_layout = record { size = new_size; align = a.layout.align }

  -- The new allocation has been made.
  module _ (p : ℕ) (t : Talc)
      (e : malloc err_on_oom (suc rounds) nodes new_layout (on_err s) ≡ ok p (on_err t)) where
    abbrev b : Allocation
    b = record { ptr = p; layout = new_layout }

    with_new : Use t heaps (b ∷ before ++ a ∷ after)
    with_new =
        allocate s t heaps (before ++ a ∷ after) new_layout k rounds nodes p u is_layout room enough
          e

    abbrev copied : Talc
    copied = record t { mem = copy_from_nonoverlapping p a.ptr a.layout.size t.mem }

    with_copy : Use copied heaps (b ∷ before ++ a ∷ after)
    with_copy =
        fill t heaps [] b (before ++ a ∷ after)
          (copy_from_nonoverlapping p a.ptr a.layout.size t.mem) with_new
          (λ x out. copy_outside p a.ptr a.layout.size t.mem x (omega (arith, out, more)))

    abbrev freed : Talc
    freed = free a.ptr a.layout copied

    copied-Moved : Moved s heaps before a after new_size p freed
    copied-Moved =
        let others = free_keeps_others copied heaps (b ∷ before) a after with_copy in
        let kept =
          malloc_keeps_others s t heaps (before ++ a ∷ after) new_layout k rounds nodes p u
            is_layout room enough e in
        let parts = All-append (λ c. SameWords s t c.ptr c.layout.size) before (a ∷ after) kept in
        let apart =
          All-append (ApartBytes b) before (a ∷ after)
            (allocations-Apart t heaps (b ∷ before ++ a ∷ after) with_new).1.0 in
        (
          inr (release copied heaps (b ∷ before) a after with_copy),
          later-SameBytes s copied freed a.ptr p a.layout.size new_size more
              (earlier-SameBytes s t copied a.ptr p a.layout.size a.layout.size (omega arith)
                parts.1.0 (copied-SameBytes p a.ptr a.layout.size t))
              others.0,
          All-map2 (before ++ after)
              (λ c free_kept facts x from to.
                free_kept x from to
                ∙ copy_outside p a.ptr a.layout.size t.mem x
                    (omega (arith, facts.1, from, to, more))
                ∙ facts.0 x from to)
              others.1
              (append-All (λ c. SameWords s t c.ptr c.layout.size × ApartBytes b c) before after
                (All-map2 before (λ c x y. (x, y)) parts.0 apart.0)
                (All-map2 after (λ c x y. (x, y)) parts.1.1 apart.1.1)),
        )

  in_place-Moved :
      (t : Talc)
      → grow_in_place a.ptr a.layout new_size s ≡ ok a.ptr t
      → Moved s heaps before a after new_size a.ptr t
  in_place-Moved t e =
      let kept = grow_in_place_keeps s heaps before a after u new_size t more small e in
      (
        inl (enlarge s t heaps before a after new_size u more small e),
        kept-SameBytes s t a.ptr a.layout.size a.layout.size (omega arith) kept.1,
        kept.0,
      )

  -- What `grow` makes of the answer of `malloc`.
  abbrev moved : Outcome (Allocator (Unit {0})) ℕ → Outcome (Allocator (Unit {0})) ℕ
  moved (ok allocation s') = ok allocation (record s' {
    talc = free a.ptr a.layout (record (s'.talc) {
      mem = copy_from_nonoverlapping allocation a.ptr a.layout.size s'.talc.mem;
    });
  })
  moved (err s') = err s'
  moved panic = panic
  moved out_of_fuel = out_of_fuel

  moved-Regrown :
      Regrown s heaps before a after new_size
        (moved (malloc err_on_oom (suc rounds) nodes new_layout (on_err s)))
  moved-Regrown =
      elim (malloc_ends s heaps (before ++ a ∷ after) new_layout k rounds nodes u is_layout room
        enough) [ inl (p, t, e) ↦ rw e (copied-Moved p t e) | inr e ↦ rw e refl ]

  abbrev placed : Outcome Talc ℕ → Outcome (Allocator (Unit {0})) ℕ
  placed (ok p t) = ok p (on_err t)
  placed (err t) = moved (malloc err_on_oom (suc rounds) nodes new_layout (on_err t))
  placed panic = panic
  placed out_of_fuel = out_of_fuel

  grow-placed :
      (r : Outcome Talc ℕ)
      → grow_in_place a.ptr a.layout new_size s ≡ r
      → grow err_on_oom (suc rounds) nodes a.ptr a.layout new_size (on_err s) ≡ placed r
  unfolding grow
  grow-placed (ok p t) e = rw (grow, e) refl
  grow-placed (err t) e =
      rw (grow, e) (by_malloc (malloc err_on_oom (suc rounds) nodes new_layout (on_err t)))
    where
      by_malloc :
          (m : Outcome (Allocator (Unit {0})) ℕ)
          → elim m [
            | ok allocation s' ↦ ok allocation (record s' {
              talc = free a.ptr a.layout (record (s'.talc) {
                mem = copy_from_nonoverlapping allocation a.ptr a.layout.size s'.talc.mem;
              });
            })
            | err s' ↦ err s'
            | panic ↦ panic
            | out_of_fuel ↦ out_of_fuel
          ]
            ≡ moved m
      by_malloc (ok allocation s') = refl
      by_malloc (err s') = refl
      by_malloc panic = refl
      by_malloc out_of_fuel = refl
  grow-placed panic e = rw (grow, e) refl
  grow-placed out_of_fuel e = rw (grow, e) refl

  -- In every state that a client brings about, as in Use, growing an allocation, with the handler
  -- ErrOnOom, a layout of the new size that the heaps leave room for and that, from the
  -- allocation's address on and rounded up to a word, stays in the address space, at least one
  -- round and fuel for 2^60 gaps, ends. Either it gives an address, the state is again one of Use,
  -- with the grown allocation at that address in place of the old one, which has the bytes of the
  -- old one, also those of a last word in part, and the words of all others are as they were; or
  -- it gives an error and leaves the allocator as it was.
  pub grow-Regrown :
      Regrown s heaps before a after new_size
        (grow err_on_oom (suc rounds) nodes a.ptr a.layout new_size (on_err s))
  grow-Regrown =
      let i = Use-Inv s heaps (before ++ a ∷ after) u in
      let l = (All-append (IsLive i.chunks) before (a ∷ after) i.lives).1.0 in
      subst (Regrown s heaps before a after new_size)
        (sym (grow-placed (grow_in_place a.ptr a.layout new_size s) refl))
        (by_place i.chunks l.base l.size (grow_in_place a.ptr a.layout new_size s) refl (
          grow_in_place-Grown s i.chunks i.holds l.base l.size a.ptr a.layout l.chunk new_size
            small))
    where
      by_place :
          (cs : Chunks) (base size : ℕ) (r : Outcome Talc ℕ)
          → grow_in_place a.ptr a.layout new_size s ≡ r
          → Grown s cs base size a.ptr new_size r
          → Regrown s heaps before a after new_size (placed r)
      by_place cs base size (ok p t) e g =
          subst (λ q. Moved s heaps before a after new_size q t) (sym g.0)
            (in_place-Moved t (e ∙ ap (λ q. ok q t) g.0))
      by_place cs base size (err t) e g =
          subst
            (λ x.
              Regrown s heaps before a after new_size
                (moved (malloc err_on_oom (suc rounds) nodes new_layout (on_err x))))
            (sym g.0) moved-Regrown
      by_place cs base size panic e g = elim g [ ]
      by_place cs base size out_of_fuel e g = elim g [ ]
