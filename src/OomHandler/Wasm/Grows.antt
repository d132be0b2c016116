-- ===== src/OomHandler/Wasm/Grows.antt =====
-- What `WasmHandler` of talc/src/oom_handler.rs brings about, over a `memory_grow` that does what
-- WebAssembly says of it.
use native.Mathlib.Nat.{pow-suc}
use talc.Base.{
  ℕ, zero, suc, ◌+◌, ◌-◌, ◌*◌, ◌/◌, ◌^◌, ◌≤◌, ◌<◌, ◌≡◌, refl, ◌≢◌, ◌⊎◌, inl, inr, true, arith, ◌∙◌,
  eq-or-ne, eq→==, ne→==,
}
use talc.Span
use talc.Span.{Span}
use talc.OomHandler.{Allocator}
use talc.OomHandler.Wasm.{WasmHandler, page_size, Growth, grown, refused, no_fuel, grow_pages}
use talc.Talc.Layout.{Layout}
use talc.Talc.State.{Talc}
use talc.Talc.Outcome.{Outcome, ok, err, panic, out_of_fuel}
use talc.Talc.Heaps.Placed.{IsWhole}

-- What WebAssembly says of `memory.grow`: it fails and leaves the memory as it was, or returns the
-- number of pages before and adds those asked for. The first page is there from the start, and the
-- pages are within the address space, which they may fill.
pub record IsMemory {W : Type 0} (memory_grow : ℕ → W → ℕ × W) (pages : W → ℕ) : Type 0 where
  pub some_page : (w : W) → 1 ≤ pages w
  pub in_word : (w : W) → pages w * page_size ≤ 2 ^ 64
  pub result :
      (n : ℕ) (w : W)
      → (((memory_grow n w).0 ≡ 2 ^ 64 - 1) × (pages (memory_grow n w).1 ≡ pages w))
        ⊎ (((memory_grow n w).0 ≡ pages w) × (pages (memory_grow n w).1 ≡ pages w + n))

module _ {W : Type 0} (memory_grow : ℕ → W → ℕ × W) (pages : W → ℕ)
    (m : IsMemory memory_grow pages) where
  -- Some of the pages asked for, at least one, or none.
  abbrev pub Grown : ℕ → W → Growth W → Type 0
  Grown asked w (grown prev delta_pages w') =
      (1 ≤ delta_pages)
      × (delta_pages ≤ asked)
      × (prev ≡ pages w)
      × (pages w' ≡ pages w + delta_pages)
  Grown asked w (refused w') = pages w' ≡ pages w
  Grown asked w no_fuel = ⊥

  Grown-smaller :
      (asked smaller : ℕ) (w w' : W) (r : Growth W)
      → smaller ≤ asked
      → pages w' ≡ pages w
      → Grown smaller w' r
      → Grown asked w r
  Grown-smaller asked smaller w w' (grown prev delta_pages v) le same g = omega (arith, g, same, le)
  Grown-smaller asked smaller w w' (refused v) le same g = g ∙ same
  Grown-smaller asked smaller w w' no_fuel le same g = g

  -- One round of the loop.
  round :
      (fuel asked : ℕ) (w : W)
      → asked ≢ 0
      → Grown
          (asked / 2)
          (memory_grow asked w).1
          (grow_pages memory_grow fuel (asked / 2) (memory_grow asked w).1)
      → Grown asked w (grow_pages memory_grow (suc fuel) asked w)
  unfolding grow_pages
  round fuel asked w ne later = elim (m.result asked w) [
    | inl (failed, same) ↦
        rw (ne→== asked 0 ne, eq→== (memory_grow asked w).0 (2 ^ 64 - 1) failed)
          (Grown-smaller asked (asked / 2) w (memory_grow asked w).1
            (grow_pages memory_grow fuel (asked / 2) (memory_grow asked w).1) (omega arith) same
            later)
    | inr (before, more) ↦
        rw
          (
            ne→== asked 0 ne,
            ne→== (memory_grow asked w).0 (2 ^ 64 - 1) (omega (arith, before, m.in_word w)),
          )
          (omega (arith, ne), omega arith, before, more)
  ]

  refused_at_zero :
      (fuel asked : ℕ) (w : W)
      → asked ≡ 0
      → Grown asked w (grow_pages memory_grow (suc fuel) asked w)
  unfolding grow_pages
  refused_at_zero fuel asked w e = rw (eq→== asked 0 e) refl

  pub grow_pages-Grown :
      (fuel asked : ℕ) (w : W)
      → asked < 2 ^ fuel
      → Grown asked w (grow_pages memory_grow (suc fuel) asked w)
  grow_pages-Grown zero asked w lt = refused_at_zero zero asked w (omega arith)
  grow_pages-Grown (suc fuel) asked w lt = elim (eq-or-ne asked 0) [
    | inl e ↦ refused_at_zero (suc fuel) asked w e
    | inr ne ↦
        round (suc fuel) asked w ne (
          grow_pages-Grown fuel (asked / 2) (memory_grow asked w).1 (omega (arith, pow-suc 2 fuel)))
  ]

  -- The allocator that the handler serves: the handler has no heap, or the bins are placed and the
  -- heap is of whole words, at least of the least size, and ends within the memory.
  pub record IsServed (s : Allocator (WasmHandler W)) : Type 0 where
    pub served :
        (Span.is_empty s.oom_handler.prev_heap ≡ true)
        ⊎ ((s.talc.bins ≢ 0)
            × IsWhole s.oom_handler.prev_heap.base s.oom_handler.prev_heap.acme
            × (s.oom_handler.prev_heap.base + 32 ≤ s.oom_handler.prev_heap.acme))

  -- The memory has grown, by no more than was asked for, and the handler's heap ends where the
  -- memory ends; or the handler fails, and only the memory's state is another; or it panics, where
  -- the memory has grown to the whole address space.
  abbrev pub Handled :
      ℕ → Allocator (WasmHandler W) → Outcome (Allocator (WasmHandler W)) (Unit {0}) → Type 0
  Handled asked s (ok _ s') =
      (pages s.oom_handler.wasm < pages s'.oom_handler.wasm)
      × (pages s'.oom_handler.wasm ≤ pages s.oom_handler.wasm + asked)
      × (s'.oom_handler.prev_heap.acme ≡ pages s'.oom_handler.wasm * page_size)
      × IsServed s'
  Handled asked s (err s') =
      (s'.talc ≡ s.talc)
      × (s'.oom_handler.prev_heap ≡ s.oom_handler.prev_heap)
      × (pages s'.oom_handler.wasm ≡ pages s.oom_handler.wasm)
  Handled asked s panic =
      (w : W) × (pages w * page_size ≡ 2 ^ 64)
      × (pages s.oom_handler.wasm < pages w)
      × (pages w ≤ pages s.oom_handler.wasm + asked)
  Handled asked s out_of_fuel = ⊥

  module _ (asked : ℕ) (s : Allocator (WasmHandler W)) (served : IsServed s) (w : W)
      (prev delta_pages : ℕ) (g : Grown asked s.oom_handler.wasm (grown prev delta_pages w)) where
    abbrev after : Allocator (WasmHandler W)
    after = record s { oom_handler = record s.oom_handler { wasm = w } }

    abbrev low : ℕ
    low = prev * page_size

    abbrev high : ℕ
    high = (prev + delta_pages) * page_size

    -- Where the memory is not the whole address space.
    module _ (left : pages w * page_size < 2 ^ 64) where
      -- The handler's heap once the call has returned it.
      abbrev returned : ℕ → Talc → Allocator (WasmHandler W)
      returned base t = record {
        talc = t;
        oom_handler = record after.oom_handler { prev_heap = Span.new base high };
      }

      abbrev heap : Span
      heap = s.oom_handler.prev_heap
