-- ===== src/OomHandler/Wasm.antt =====
-- `WasmHandler` of talc/src/oom_handler.rs, over the `memory_grow` of `core::arch::wasm32`, which
-- is a parameter: it takes a number of pages and the memory's state, and returns the number of
-- pages before, or `usize::MAX` where it fails. The words are those of the other modules, of 64
-- bits, in place of the 32 bits of wasm32.
pub mod Grows
use talc.Base.{
  ℕ, zero, suc, ◌+◌, ◌-◌, ◌*◌, ◌/◌, ◌%◌, ◌^◌, max, not, Option, none, some, ◌==◌, if◌then◌else◌,
}
use talc.PtrUtils.{usize_max, wrapping_add}
use talc.Span
use talc.Span.{Span}
use talc.OomHandler.{Allocator, OomHandler}
use talc.Talc.Layout.{Layout}
use talc.Talc.State.{Talc}
use talc.Talc.Outcome.{Outcome, ok, err, panic, out_of_fuel}
use talc.Talc.Heaps.{claim, extend}

-- The handler's field, and the state of the memory that `memory_grow` changes.
pub record WasmHandler (W : Type 0) : Type 0 where
  pub prev_heap : Span
  pub wasm : W

abbrev pub new : {W : Type 0} → W → WasmHandler W
new w = record { prev_heap = Span.empty; wasm = w }

abbrev pub page_size : ℕ
page_size = 1024 * 64

-- How the loop that asks for memory ends: with the pages there were and those that it got, or
-- with nothing.
pub data Growth (W : Type 0) : Type 0 where
  grown : (prev delta_pages : ℕ) → W → Growth W
  refused : W → Growth W
  no_fuel : Growth W

-- The growth that an allocation needs, in pages.
unfoldable pub needed_pages : Layout → ℕ
needed_pages layout =
    let required = max (wrapping_add layout.size 8) (layout.align * 2 % 2 ^ 64) in
    wrapping_add required (page_size - 1) / page_size

module _ {W : Type 0} (memory_grow : ℕ → W → ℕ × W) where
  -- The loop, on fuel.
  unfoldable pub grow_pages : ℕ → (delta_pages : ℕ) → W → Growth W
  grow_pages zero delta_pages w = no_fuel
  grow_pages (suc fuel) delta_pages w =
      let (result, w') = memory_grow delta_pages w in
      let smaller = grow_pages fuel (delta_pages / 2) w' in
      if not (delta_pages == 0)
      then if not (result == usize_max) then grown result delta_pages w' else smaller
      else refused w

  -- The handler's field is set to the heap that the call returns.
  abbrev set_prev_heap :
      Allocator (WasmHandler W) → Outcome Talc Span → Outcome (Allocator (WasmHandler W)) (Unit {0})
  set_prev_heap s (ok heap t) =
      ok tt (record { talc = t; oom_handler = record s.oom_handler { prev_heap = heap } })
  set_prev_heap s (err t) = err (record s { talc = t })
  set_prev_heap s panic = panic
  set_prev_heap s out_of_fuel = out_of_fuel

  -- `unwrap` of a result.
  abbrev unwrap : Outcome Talc Span → Outcome Talc Span
  unwrap (ok heap t) = ok heap t
  unwrap (err t) = panic
  unwrap panic = panic
  unwrap out_of_fuel = out_of_fuel

  -- What the handler does with the memory that it got.
  unfoldable pub take_pages :
      (prev delta_pages : ℕ)
      → Allocator (WasmHandler W)
      → Outcome (Allocator (WasmHandler W)) (Unit {0})
  take_pages prev delta_pages s =
      let prev_heap_acme = prev * page_size % 2 ^ 64 in
      let new_heap_acme = wrapping_add prev_heap_acme (delta_pages * page_size % 2 ^ 64) in
      let claimed =
        set_prev_heap s (unwrap (claim (Span.new prev_heap_acme new_heap_acme) s.talc)) in
      elim (Span.get_base_acme s.oom_handler.prev_heap) [
        | some (prev_base, prev_acme) ↦
            if prev_acme == prev_heap_acme
            then set_prev_heap s
                (extend s.oom_handler.prev_heap (Span.new prev_base new_heap_acme) s.talc)
            else claimed
        | none ↦ claimed
      ]

  abbrev with_wasm : W → Allocator (WasmHandler W) → Allocator (WasmHandler W)
  with_wasm w s = record s { oom_handler = record s.oom_handler { wasm = w } }

  -- Each round of the loop halves the pages asked for, so there are at most 65.
  unfoldable pub wasm_handle_oom :
      Layout → Allocator (WasmHandler W) → Outcome (Allocator (WasmHandler W)) (Unit {0})
  unfolding grow_pages take_pages
  wasm_handle_oom layout s = elim (grow_pages 65 (needed_pages layout) s.oom_handler.wasm) [
    | grown prev delta_pages w ↦ take_pages prev delta_pages (with_wasm w s)
    | refused w ↦ err (with_wasm w s)
    | no_fuel ↦ out_of_fuel
  ]

  abbrev pub wasm_handler : OomHandler (WasmHandler W)
  wasm_handler = record { handle_oom = wasm_handle_oom }
