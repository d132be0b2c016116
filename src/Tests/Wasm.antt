-- ===== src/Tests/Wasm.antt =====
-- A run of `WasmHandler` of talc/src/oom_handler.rs, over a memory of at most a hundred pages.
use talc.Base.{ℕ, ◌+◌, ◌-◌, ◌%◌, ◌^◌, ltb, if◌then◌else◌}
use talc.Mem.{Mem}
use talc.OomHandler.{Allocator}
use talc.OomHandler.Wasm.{WasmHandler, page_size}
use talc.OomHandler.Wasm
use talc.Talc.Layout.{Layout}
use talc.Talc.Heaps.{new}

abbrev pages : ℕ → ℕ
pages w = 1 + w % 100

abbrev memory_grow : ℕ → ℕ → ℕ × ℕ
memory_grow n w = if ltb (w % 100 + n) 100 then (pages w, w % 100 + n) else (2 ^ 64 - 1, w)

abbrev zeros : Mem
zeros a = 0

abbrev start : Allocator (WasmHandler ℕ)
start = record { talc = new zeros; oom_handler = Wasm.new 3 }

abbrev layout : Layout
layout = record { size = 100000; align = 16 }
