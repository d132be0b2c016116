-- ===== src/Talc/Gaps/Register/Effects.antt =====
-- What `Talc::register_gap` of talc/src/talc.rs does to the memory, the flags and the bins.
use native.Mathlib.Nat.{add-zero}
use talc.Base.{ℕ, ◌+◌, ◌-◌, ◌*◌, ◌≡◌, ◌≢◌, inl, inr, arith, ◌==◌, if◌then◌else◌, ◌∙◌, Bool-cases}
use talc.Mem.{write, write_ne}
use talc.PtrUtils.{wrapping_sub}
use talc.Llist.{insert}
use talc.Llist.Insert.{insert-elsewhere}
use talc.Talc.State.{Talc}
use talc.Talc.SizeClass.{bin_of_size}
use talc.Talc.SizeClass.Bounds.{bin_of_size-lt}
use talc.Talc.Avails.{set_avails}
use talc.Talc.Avails.Flags.{flag, InWords, set_avails-InWords}
use talc.Talc.Gaps.{register_gap}
use talc.Talc.Gaps.View.{Gap, OutsideGap, IsRegion}

set_avails_mem : (b : ℕ) (t : Talc) → (set_avails b t).mem ≡ t.mem
unfolding set_avails
set_avails_mem b t = ground arith

pub set_avails_bins : (b : ℕ) (t : Talc) → (set_avails b t).bins ≡ t.bins
unfolding set_avails
set_avails_bins b t = ground arith

module _ (t : Talc) (g : Gap) (region : IsRegion t.bins g) where
  abbrev pub bin : ℕ
  bin = bin_of_size g.size

  abbrev pub link : ℕ
  link = t.bins + bin * 8

  abbrev pub result : Talc
  result = register_gap g.base (g.base + g.size) t

  size_eq : wrapping_sub (g.base + g.size) g.base ≡ g.size
  size_eq = omega (arith, region.in_word)

  -- The memory that `register_gap` leaves: the list insertion and the two sizes.
  pub result_mem :
      result.mem
      ≡ write
          (write (insert g.base link (t.mem link) t.mem) (g.base + 16) g.size)
          (g.base + g.size - 8)
          g.size
  unfolding register_gap
  result_mem = rw (size_eq, add-zero g.base) (ground (arith, set_avails_mem bin t))

  pub result_bins : result.bins ≡ t.bins
  unfolding register_gap
  result_bins = rw size_eq (ground (arith, set_avails_bins bin t))

  pub result-flag :
      (c : ℕ) → flag result c ≡ flag (if t.mem link == 0 then set_avails bin t else t) c
  unfolding register_gap flag
  result-flag c = rw size_eq

  flagged_words : InWords t → InWords (if t.mem link == 0 then set_avails bin t else t)
  flagged_words w = elim (Bool-cases (t.mem link == 0)) [
    | inl e ↦ rw e (set_avails-InWords bin (bin_of_size-lt g.size region.large) w)
    | inr e ↦ rw e w
  ]

  pub result_words : InWords t → InWords result
  unfolding register_gap
  result_words w = let w' = flagged_words w in rw size_eq (record { low = w'.low; high = w'.high })

  -- A word of no gap, and not the bin's, keeps its value, unless it is the back link of the
  -- bin's first gap.
  pub elsewhere :
      (a : ℕ)
      → a ≢ link
      → OutsideGap a g
      → (t.mem link ≢ 0 → a ≢ t.mem link + 8)
      → result.mem a ≡ t.mem a
  elsewhere a ne out back = rw result_mem (
      write_ne _ (g.base + g.size - 8) g.size a (omega (arith, region.large, out))
      ∙ write_ne _ (g.base + 16) g.size a (omega (arith, region.large, out))
      ∙ insert-elsewhere t.mem g.base link (t.mem link) a ne (omega (arith, region.large, out))
          back)

  -- The words that the list insertion writes keep what it wrote.
  inserted :
      (a : ℕ)
      → a ≢ g.base + 16
      → a ≢ g.base + g.size - 8
      → result.mem a ≡ insert g.base link (t.mem link) t.mem a
  inserted a ne ne' =
      rw result_mem
        (write_ne _ (g.base + g.size - 8) g.size a ne' ∙ write_ne _ (g.base + 16) g.size a ne)
