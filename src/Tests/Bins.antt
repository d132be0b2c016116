-- ===== src/Tests/Bins.antt =====
-- Runs of the models of the size classes, the flags and the lists of talc/src.
use talc.Base.{◌+◌, ◌%◌, ◌≤◌, ◌<◌, ◌≡◌, refl, inl, inr, [], ◌∷◌, arith, ◌==◌, if◌then◌else◌}
use talc.Base.Bits.{bit}
use talc.Mem.{Mem}
use talc.Llist.{insert, remove}
use talc.Llist.Links.{Links}
use talc.Llist.Insert.{insert-Links}
use talc.Llist.Remove.{remove-Links}
use talc.Counters.{zeroed}
use talc.Talc.State.{Talc}
use talc.Talc.SizeClass.{bin_of_size, required_chunk_size}
use talc.Talc.SizeClass.Bounds.{bin_of_size-lt, bin_of_size_mono, required_chunk_size-least}
use talc.Talc.Avails.{set_avails, next_available_bin}
use talc.Talc.Avails.Flags.{flag, flag-set_avails}
use talc.Talc.Avails.Search.{IsFirst, next_available_bin-IsFirst}

bin_of_size-lt_example : bin_of_size 100000 < 128
bin_of_size-lt_example = bin_of_size-lt 100000 (omega arith)

bin_of_size_mono_example : bin_of_size 200 ≤ bin_of_size 5000
bin_of_size_mono_example = bin_of_size_mono 200 5000 (omega arith) (omega arith) (omega arith)

required_chunk_size-least_example :
    (required_chunk_size 20 % 8 ≡ 0)
    × (24 ≤ required_chunk_size 20)
    × (20 + 8 ≤ required_chunk_size 20)
    × (40 % 8 ≡ 0 → 24 ≤ 40 → 20 + 8 ≤ 40 → required_chunk_size 20 ≤ 40)
required_chunk_size-least_example = required_chunk_size-least 20 40 (omega arith)

-- Bins 3 and 70 have gaps.
abbrev flagged : Talc
flagged = record {
  availability_low = 8;
  availability_high = 64;
  bins = 4096;
  counters = zeroed;
  mem = λ a. 0;
}

flag-set_avails_example : flag (set_avails 5 flagged) 3 ≡ (if 3 == 5 then 1 else flag flagged 3)
unfolding flag bit
flag-set_avails_example = flag-set_avails flagged 5 3 (omega arith) refl

next_available_bin-IsFirst_example : IsFirst flagged 4 (next_available_bin 4 flagged)
next_available_bin-IsFirst_example =
    next_available_bin-IsFirst flagged (record { low = omega arith; high = omega arith }) 4

-- The nodes 64 and 32 behind the link at 8.
abbrev two_nodes : Mem
two_nodes a =
    if a == 8 then 64 else if a == 64 then 32 else if a == 72 then 8 else if a == 40 then 64 else 0

two_nodes-Links : Links two_nodes 8 (64 ∷ 32 ∷ [])
two_nodes-Links = (refl, omega arith, refl, (refl, omega arith, refl, refl))

insert-Links_example : Links (insert 96 8 64 two_nodes) 8 (96 ∷ 64 ∷ 32 ∷ [])
insert-Links_example =
    insert-Links two_nodes 96 8 (64 ∷ 32 ∷ []) (omega arith) (inl (omega arith))
      (inr (omega arith), (inr (omega arith), tt)) (inl (omega arith), (inl (omega arith), tt))
      ((inr (omega arith), tt), (tt, tt)) two_nodes-Links

remove-Links_example : Links (remove 64 two_nodes) 8 (32 ∷ [])
remove-Links_example =
    remove-Links two_nodes 8 [] 64 (32 ∷ []) (inl (omega arith), (inl (omega arith), tt))
      ((inr (omega arith), tt), (tt, tt)) two_nodes-Links
