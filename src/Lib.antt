-- ===== src/Lib.antt =====
-- The verification library of talc, an allocator for `no_std` Rust.
--
-- The program. `Talc` (talc/src/talc.rs) keeps heaps, which its client claims as `Span`s
-- (talc/src/span.rs). A heap is tiled with chunks. A free chunk, a gap, is a node of one of 128
-- doubly linked lists, the bins (talc/src/talc/llist.rs), with its size at both ends; a reserved
-- chunk ends in a tag (talc/src/talc/tag.rs), a word with the chunk's base and two flags. The bin
-- of a gap is a function of its size, and two words of flags say which bins are not empty. `malloc`
-- asks `get_sufficient_chunk` for a gap, gives back what it does not need, and turns to the
-- out-of-memory handler (talc/src/oom_handler.rs) if there is none. Counters
-- (talc/src/talc/counters.rs) follow all of it.
--
-- The files, each with its proofs in the folder of its name:
-- - Base: shared names, Boolean tests, lists, and the binary digits of numbers;
-- - PtrUtils: talc/src/ptr_utils.rs; Mem: the memory; Span: talc/src/span.rs;
-- - Counters, Llist, Tag: the files of the same names under talc/src/talc/;
-- - OomHandler: talc/src/oom_handler.rs, the interface as a record, with the two handlers that every
--   target has, and OomHandler/Wasm `WasmHandler`;
-- - Talc: talc/src/talc.rs in parts. Talc/Layout has the constants, Talc/State the fields of
--   `Talc`, Talc/SizeClass `bin_of_size` and `required_chunk_size`, Talc/Avails the flags, Talc/Gaps
--   the functions on gaps with `register_gap` and `deregister_gap`, Talc/Malloc
--   `get_sufficient_chunk` and what `malloc` does with its result (`carve`), Talc/Free `free` and
--   `shrink`, Talc/Heaps `new`, `claim`, `extend`, `truncate` and `get_allocated_span`, Talc/Loop
--   the loop of `malloc`, `grow_in_place` and `grow`, Talc/Scan `scan_for_errors`, and Talc/Outcome
--   the ways a call ends;
-- - Talck: talc/src/talck.rs, the allocator behind a lock; Talck/Threads says what one thread may
--   assume of the others;
-- - Tests: runs at concrete inputs.
--
-- The model. It is of a 64-bit target, with the feature `counters`, in a release build, so that
-- debug assertions do nothing; `scan_for_errors`, which a debug build calls at the end of each
-- operation, is a definition of its own, as the tests and the fuzzer build it. `WasmHandler` is
-- written over the same words of 64 bits, though wasm32 has words of 32, and over `memory_grow`, a
-- parameter, of which it is assumed that it does what WebAssembly says (`IsMemory`). A pointer is
-- its address, null is 0, and `usize` and wrapping arithmetic are modulo 2 ^ 64; pointer arithmetic
-- that must stay within an allocation (`add`, `sub`) is plain arithmetic where the operation's
-- conditions keep it in the address space, and wraps where the search tests a place. The memory
-- gives the word at each address. The code reads and writes words at aligned addresses only, but
-- for the copies and the zeros of `grow`, `realloc` and `grow_zeroed`, which are written out word
-- by word for a little-endian target. An operation takes the state and returns the next one; `Err`,
-- a panic and a run out of fuel are constructors of `Outcome`.
--
-- Abstraction, in four layers. `View` (Talc/Gaps/View) gives for each bin the list of its gaps, and
-- `Holds` says when links, sizes and flags in the state are those of a view: it is the contract
-- between the operations on bins and their clients. `IsFreeMap` (Talc/FreeMap) forgets the bins:
-- the gaps are a map from addresses to sizes. `Chunks` (Talc/Chunks) is a map from addresses to
-- what begins there, `IsTiling` says when the chunks do not overlap and gaps are never neighbours,
-- and `HoldsChunks` when the gaps are in the bins and the tags in memory; `splice` replaces the
-- chunks of an interval, which is what each operation does. `Use` (Talc/Use) is the relation of the
-- states that a client can bring about by `claim`, `malloc` with `ErrOnOom`, `free`, `shrink`,
-- `grow_in_place` and writes to its allocations, with the heaps that it has claimed and the
-- allocations that it has not released; `Inv` is what holds of all of them. `grow`, `realloc` and
-- `malloc` with `ClaimOnOom` are sequences of such steps. A client of `Use` claims memory apart
-- from its other heaps, asks for layouts whose alignment can be added to any address of the heaps,
-- grows allocations to sizes that stay in the address space, and releases what it allocated, with
-- the same layout. It does not extend or truncate heaps.
--
-- Fuel. `nodes` bounds the walk along a bin's list: more than the longest list is enough, and 2 ^
-- 60 always is, since gaps are apart and of three words at least (Talc/FreeMap/Count). The walk
-- over the bins has fuel 128, since each round goes to a later bin. `rounds` bounds how often
-- `malloc` calls the handler. `WasmHandler` halves the pages that it asks for, so 65 rounds are
-- enough. `ilog2` and `trailing_zeros` take 64 rounds, the width of a word.
--
-- Not modelled: the lock itself and talc/src/locking.rs, `Debug` and `Display`, which format text,
-- and the tests, fuzz targets, benchmarks and examples.
pub mod Base
pub mod PtrUtils
pub mod Mem
pub mod Span
pub mod Counters
pub mod Llist
pub mod OomHandler
pub mod Tag
pub mod Talc
pub mod Talck
pub mod Tests
