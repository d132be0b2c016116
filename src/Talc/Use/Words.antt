-- ===== src/Talc/Use/Words.antt =====
-- What resizing an allocation of talc/src/talc.rs in place leaves of the words of the client.
use talc.Base.{
  ◌-◌, ◌*◌, ◌%◌, ◌∙◌, ℕ, ◌+◌, ◌^◌, ◌≤◌, ◌<◌, ◌≡◌, refl, ◌⊎◌, inl, inr, List, ◌∷◌, ◌++◌, arith, ap,
  subst,
}
use talc.Base.Lists.{All, All-map2, All-append, append-All}
use talc.Span.{Span}
use talc.Talc.State.{Talc}
use talc.Talc.Outcome.{Outcome, ok}
use talc.Talc.Free.{shrink}
use talc.Talc.Loop.{grow_in_place}
use talc.Talc.FreeMap.{IsOff}
use talc.Talc.Chunks.{is_used}
use talc.Talc.Chunks.State.{gaps_of}
use talc.Talc.Chunks.Shrink.{Shrunk, shrink-Shrunk}
use talc.Talc.Chunks.Grow.{Grown}
use talc.Talc.Chunks.Grow.InPlace.{grow_in_place-Grown}
use talc.Talc.Use.{Allocation, Use}
use talc.Talc.Use.Invariant.{IsLive, Inv, live_bounds, live_apart, others-Distinct}
use talc.Talc.Use.Resize.{outside_chunk}
use talc.Talc.Use.Safety.{Use-Inv, live_word}

-- The words that begin in the `n` bytes at `ptr` are as they were.
abbrev pub SameWords : Talc → Talc → (ptr n : ℕ) → Type 0
SameWords s t ptr n = (x : ℕ) → ptr ≤ x → x < ptr + n → t.mem x ≡ s.mem x

-- The first `n` bytes at `from` stand at `to`: the whole words, and the low bytes of the last.
abbrev pub SameBytes : Talc → Talc → (from to n : ℕ) → Type 0
SameBytes s t from to n =
    ((k : ℕ) → k + 8 ≤ n → t.mem (to + k) ≡ s.mem (from + k))
    × ((k : ℕ)
        → k < n
        → n < k + 8
        → t.mem (to + k) % 2 ^ (8 * (n - k)) ≡ s.mem (from + k) % 2 ^ (8 * (n - k)))

pub kept-SameBytes :
    (s t : Talc) (ptr n m : ℕ) → n ≤ m → SameWords s t ptr m → SameBytes s t ptr ptr n
kept-SameBytes s t ptr n m le same = (
  λ k in_it. same (ptr + k) (omega arith) (omega arith),
  λ k in_it last.
      ap (λ (w : ℕ). w % 2 ^ (8 * (n - k))) (same (ptr + k) (omega arith) (omega arith)),
)

pub later-SameBytes :
    (s t t' : Talc) (from to n m : ℕ)
    → n ≤ m
    → SameBytes s t from to n
    → SameWords t t' to m
    → SameBytes s t' from to n
later-SameBytes s t t' from to n m le bytes same = (
  λ k in_it. same (to + k) (omega arith) (omega arith) ∙ bytes.0 k in_it,
  λ k in_it last.
      ap (λ (w : ℕ). w % 2 ^ (8 * (n - k))) (same (to + k) (omega arith) (omega arith))
      ∙ bytes.1 k in_it last,
)

pub earlier-SameBytes :
    (s s' t : Talc) (from to n m : ℕ)
    → n ≤ m
    → SameWords s s' from m
    → SameBytes s' t from to n
    → SameBytes s t from to n
earlier-SameBytes s s' t from to n m le same bytes = (
  λ k in_it. bytes.0 k in_it ∙ same (from + k) (omega arith) (omega arith),
  λ k in_it last.
      bytes.1 k in_it last
      ∙ ap (λ (w : ℕ). w % 2 ^ (8 * (n - k))) (same (from + k) (omega arith) (omega arith)),
)

abbrev pub KeepsWords : Talc → Talc → List Allocation → Type 0
KeepsWords s t live = All (λ b. SameWords s t b.ptr b.layout.size) live

module _ (s : Talc) (heaps : List Span) (before : List Allocation) (a : Allocation)
    (after : List Allocation) (u : Use s heaps (before ++ a ∷ after)) where
  abbrev i : Inv s heaps (before ++ a ∷ after)
  i = Use-Inv s heaps (before ++ a ∷ after) u

  lives : All (IsLive i.chunks) before × All (IsLive i.chunks) (a ∷ after)
  lives = All-append (IsLive i.chunks) before (a ∷ after) i.lives

  abbrev l : IsLive i.chunks a
  l = lives.1.0

  abbrev hi : ℕ
  hi = l.base + l.size + gaps_of i.chunks (l.base + l.size)

  -- Where all words off the gaps are kept but those from `new_size` bytes on.
  module _ (t : Talc) (new_size : ℕ)
      (kept : (x : ℕ)
        → (x < a.ptr + new_size) ⊎ (hi ≤ x)
        → IsOff s.bins (gaps_of i.chunks) x
        → t.mem x ≡ s.mem x) where
    own_words : (n : ℕ) → n ≤ new_size → n ≤ a.layout.size → SameWords s t a.ptr n
    own_words n le in_old x from to =
        kept x (inl (omega arith)) (live_word s i.chunks i.holds a l x from (omega arith))

    other_words : KeepsWords s t (before ++ after)
    other_words =
        All-map2 (before ++ after)
          (λ b k ne x from to.
            let bounds = live_bounds i.chunks i.holds.tiling b k in
            let own = live_bounds i.chunks i.holds.tiling a l in
            let apart = live_apart i.chunks i.holds.tiling a b l k ne in
            let out =
              outside_chunk i.chunks i.holds.tiling l.base l.size a.ptr a.layout.size l.chunk hi
                (inr refl) k.base (ap is_used k.chunk)
                (λ e. omega (arith, e, apart, own, bounds)) in
            kept x (omega (arith, out, apart, own, bounds))
              (live_word s i.chunks i.holds b k x from (omega arith)))
          (append-All (IsLive i.chunks) before after lives.0 lives.1.1)
          (others-Distinct before a after i.distinct).0

  -- In every state that a client brings about, as in Use, shrinking an allocation leaves the words
  -- of all others as they were, and its own up to the new size.
  pub shrink_keeps :
      (new_size : ℕ)
      → new_size ≤ a.layout.size
      → KeepsWords s (shrink a.ptr a.layout new_size s) (before ++ after)
        × SameWords s (shrink a.ptr a.layout new_size s) a.ptr new_size
  shrink_keeps new_size le =
      let t = shrink a.ptr a.layout new_size s in
      let r : Shrunk s i.chunks l.base l.size a.ptr new_size t =
        shrink-Shrunk s i.chunks i.holds l.base l.size a.ptr a.layout l.chunk new_size le in
      (other_words t new_size r.1, own_words t new_size r.1 new_size (omega arith) le)

  enlarged_keeps :
      (new_size : ℕ) (r : Outcome Talc ℕ) (t : Talc)
      → a.layout.size ≤ new_size
      → r ≡ ok a.ptr t
      → Grown s i.chunks l.base l.size a.ptr new_size r
      → KeepsWords s t (before ++ after) × SameWords s t a.ptr a.layout.size
  enlarged_keeps new_size r t le e g =
      let h : Grown s i.chunks l.base l.size a.ptr new_size (ok a.ptr t) =
        subst (Grown s i.chunks l.base l.size a.ptr new_size) e g in
      (other_words t new_size h.2, own_words t new_size h.2 a.layout.size le (omega arith))

  pub grow_in_place_keeps :
      (new_size : ℕ) (t : Talc)
      → a.layout.size ≤ new_size
      → a.ptr + new_size + 7 < 2 ^ 64
      → grow_in_place a.ptr a.layout new_size s ≡ ok a.ptr t
      → KeepsWords s t (before ++ after) × SameWords s t a.ptr a.layout.size
  grow_in_place_keeps new_size t le small e =
      enlarged_keeps new_size (grow_in_place a.ptr a.layout new_size s) t le e
        (grow_in_place-Grown s i.chunks i.holds l.base l.size a.ptr a.layout l.chunk new_size small)
