-- ===== src/Mem.antt =====
-- Memory as the allocator sees it: a word at every word-aligned address. All of its reads and
-- writes are of whole words (tags, sizes, list links); user data is never looked at.
use talc.Base.{ℕ, ◌≡◌, ◌≢◌, ◌==◌, if◌then◌else◌, arith}

abbrev pub Mem : Type 0
Mem = ℕ → ℕ

-- `ptr.write(v)` of a word.
unfoldable pub write : Mem → ℕ → ℕ → Mem
write m a v c = if c == a then v else m c

pub write_self : (m : Mem) (a v : ℕ) → write m a v a ≡ v
unfolding write
write_self m a v = ground arith

pub write_ne : (m : Mem) (a v c : ℕ) → c ≢ a → write m a v c ≡ m c
unfolding write
write_ne m a v c h = ground arith
