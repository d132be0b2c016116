-- ===== src/Talc/Use/Invariant.antt =====
-- What holds of every state that a client of talc/src/talc.rs brings about: it holds chunks, all of
-- them and the bins in the heaps, and each allocation has a chunk.
use talc.Base.{
  ℕ, ◌+◌, ◌%◌, ◌≤◌, ◌<◌, ◌≡◌, ◌≢◌, ◌⊎◌, inl, inr, List, [], ◌∷◌, ◌++◌, arith, ap, sym, subst, ◌∙◌,
  le-or-lt, eq-or-ne,
}
use talc.Base.Lists.{All, All-append, append-All}
use talc.Span.{Span}
use talc.Talc.State.{Talc}
use talc.Talc.Chunks.{
  Piece, absent, free_chunk, fence, used_chunk, Chunks, size_of, is_chunk, Shape, IsTiling,
}
use talc.Talc.Chunks.State.{HoldsChunks}
use talc.Talc.Use.{Allocation, InHeaps}

-- The allocation has a chunk, and is aligned.
pub record IsLive (cs : Chunks) (a : Allocation) : Type 0 where
  pub base : ℕ
  pub size : ℕ
  pub chunk : cs base ≡ used_chunk size (a.ptr) (a.layout.size)
  pub aligned : a.ptr % a.layout.align ≡ 0

abbrev pub Distinct : List Allocation → Type 0
Distinct [] = Unit
Distinct (a ∷ live) = All (λ b. a.ptr ≢ b.ptr) live × Distinct live

pub record Inv (t : Talc) (heaps : List Span) (live : List Allocation) : Type 0 where
  pub chunks : Chunks
  pub holds : HoldsChunks t chunks
  pub placed : t.bins ≢ 0
  pub bins_in : (x : ℕ) → t.bins ≤ x → x < t.bins + 1024 → InHeaps heaps x
  pub covered : (b x : ℕ) → b ≤ x → x < b + size_of (chunks b) → InHeaps heaps x
  pub lives : All (IsLive chunks) live
  pub distinct : Distinct live

-- The bytes of an allocation are in its chunk.
pub live_bounds :
    (cs : Chunks) (w : IsTiling cs) (a : Allocation) (l : IsLive cs a)
    → (l.base ≤ a.ptr)
      × (a.ptr + a.layout.size + 8 ≤ l.base + l.size)
      × (size_of (cs l.base) ≡ l.size)
live_bounds cs w a l =
    let s = subst (Shape l.base) l.chunk (w.shape l.base) in omega (arith, s, ap size_of l.chunk)

-- Allocations at different addresses are in different chunks, which do not overlap.
pub live_apart :
    (cs : Chunks) (w : IsTiling cs) (a b : Allocation) (l : IsLive cs a) (k : IsLive cs b)
    → a.ptr ≢ b.ptr
    → (l.base + l.size ≤ k.base) ⊎ (k.base + k.size ≤ l.base)
live_apart cs w a b l k ne =
    let ends_l = ap size_of l.chunk in
    let ends_k = ap size_of k.chunk in
    elim (eq-or-ne l.base k.base) [
      | inl e ↦ absurd (ne (ap ptr_of (sym l.chunk ∙ ap cs e ∙ k.chunk)))
      | inr other ↦ elim (le-or-lt l.base k.base) [
        | inl le ↦
            inl (omega (arith, ends_l, w.apart l.base k.base (omega arith) (ap is_chunk k.chunk)))
        | inr lt ↦ inr (omega (arith, ends_k, w.apart k.base l.base lt (ap is_chunk l.chunk)))
      ]
    ]
  where
    ptr_of : Piece → ℕ
    ptr_of absent = 0
    ptr_of (free_chunk n) = 0
    ptr_of (used_chunk n ptr len) = ptr
    ptr_of (fence n base) = 0

-- Allocations stay live where their chunks stay.
pub kept-IsLive :
    (cs cs' : Chunks) (live : List Allocation)
    → All (λ a. (l : IsLive cs a) → cs' l.base ≡ cs l.base) live
    → All (IsLive cs) live
    → All (IsLive cs') live
kept-IsLive cs cs' [] same h = tt
kept-IsLive cs cs' (a ∷ live) same h = (
  record {
    base = h.0.base;
    size = h.0.size;
    chunk = same.0 h.0 ∙ h.0.chunk;
    aligned = h.0.aligned;
  },
  kept-IsLive cs cs' live same.1 h.1,
)

-- An allocation in the middle of the list, and the others.
pub others-Distinct :
    (before : List Allocation) (a : Allocation) (after : List Allocation)
    → Distinct (before ++ a ∷ after)
    → All (λ b. a.ptr ≢ b.ptr) (before ++ after) × Distinct (before ++ after)
others-Distinct [] a after d = (d.0, d.1)
others-Distinct (b ∷ before) a after d =
    let rest = others-Distinct before a after d.1 in
    let parts = All-append (λ c. b.ptr ≢ c.ptr) before (a ∷ after) d.0 in
    (
      (λ e. parts.1.0 (sym e), rest.0),
      (append-All (λ c. b.ptr ≢ c.ptr) before after parts.0 parts.1.1, rest.1),
    )
