-- ===== src/Talc.antt =====
-- talc/src/talc.rs, by parts.
pub mod Layout
pub mod SizeClass
pub mod State
pub mod Avails
pub mod Gaps
pub mod FreeMap
pub mod Chunks
pub mod Outcome
pub mod Malloc
pub mod Free
pub mod Heaps
pub mod Loop
pub mod Scan
pub mod Use
