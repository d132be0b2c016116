-- ===== src/Talc/State.antt =====
-- The fields of `Talc` of talc/src/talc.rs, with the memory that its pointers reach. The
-- out-of-memory handler's own state is passed beside it.
use talc.Base.{ℕ}
use talc.Mem.{Mem}
use talc.Counters.{Counters}

pub record Talc : Type 0 where
  pub availability_low : ℕ
  pub availability_high : ℕ
  -- The address of the array of bins, or null.
  pub bins : ℕ
  pub counters : Counters
  pub mem : Mem
