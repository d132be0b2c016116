-- ===== src/Tests.antt =====
-- Runs of the model of talc/src at concrete inputs.
mod Words
mod Bins
mod Heap
mod Claims
mod Client
mod Resizing
mod Wasm
mod Handlers
