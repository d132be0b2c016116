-- ===== src/Tag/Laws.antt =====
-- What the tags of talc/src/talc/tag.rs carry: packing, unpacking and the flag updates.
use talc.Base.{ℕ, ◌+◌, ◌-◌, ◌%◌, ◌^◌, ◌<◌, ◌≡◌, Bool, true, false, arith}
use talc.Base.Bits.{bit_and-one, bit_and-two}
use talc.Mem.{Mem, write_self}
use talc.Tag.{
  tag_of, write, chunk_base, is_above_free, is_allocated, set_above_free, clear_above_free,
}

-- What a chunk's base must be for a tag to hold it: an aligned address that leaves room for the flags.
abbrev pub IsBase : ℕ → Type 0
IsBase base = (base % 8 ≡ 0) × (base < 2 ^ 64)

pub chunk_base-tag_of :
    (base : ℕ) (free : Bool) → IsBase base → chunk_base (tag_of base free) ≡ base
unfolding chunk_base tag_of
chunk_base-tag_of base true h = omega arith
chunk_base-tag_of base false h = omega arith

pub is_above_free-tag_of :
    (base : ℕ) (free : Bool) → IsBase base → is_above_free (tag_of base free) ≡ free
unfolding is_above_free tag_of
is_above_free-tag_of base true h = ground (arith, bit_and-two ((base + 3) % 2 ^ 64))
is_above_free-tag_of base false h = ground (arith, bit_and-two ((base + 1) % 2 ^ 64))

pub is_allocated-tag_of :
    (base : ℕ) (free : Bool) → IsBase base → is_allocated (tag_of base free) ≡ true
unfolding is_allocated tag_of
is_allocated-tag_of base true h = ground (arith, bit_and-one ((base + 3) % 2 ^ 64))
is_allocated-tag_of base false h = ground (arith, bit_and-one ((base + 1) % 2 ^ 64))

-- A tag written for an aligned base that is a word is read back whole: the base, the free flag,
-- and the allocated flag, which is set.
pub read-write :
    (m : Mem) (at base : ℕ) (free : Bool)
    → IsBase base
    → let tag = write m at base free at in
      (chunk_base tag ≡ base) × (is_above_free tag ≡ free) × (is_allocated tag ≡ true)
unfolding write
read-write m at base free h = rw (write_self m at (tag_of base free)) (
  chunk_base-tag_of base free h,
  is_above_free-tag_of base free h,
  is_allocated-tag_of base free h,
)

-- A gap's size is a multiple of eight, so a word above a gap's end is told from a tag by the
-- allocated flag.
pub is_allocated-size : (size : ℕ) → size % 8 ≡ 0 → is_allocated size ≡ false
unfolding is_allocated
is_allocated-size size h = ground (arith, bit_and-one size)

tag_of_set : (base : ℕ) → IsBase base → (tag_of base false + 2) % 2 ^ 64 ≡ tag_of base true
unfolding tag_of
tag_of_set base h = omega arith

tag_of_clear :
    (base : ℕ) → IsBase base → (tag_of base true + 2 ^ 64 - 2) % 2 ^ 64 ≡ tag_of base false
unfolding tag_of
tag_of_clear base h = omega arith

module _ (m : Mem) (at base : ℕ) (whole : IsBase base) where
  -- Where the tag of an aligned base with the free flag clear stands, set_above_free does what
  -- writing the tag with the flag set does.
  pub set_above_free_lem : m at ≡ tag_of base false → set_above_free m at ≡ write m at base true
  unfolding set_above_free write
  set_above_free_lem e = rw (e, tag_of_set base whole)

  -- Where the tag of an aligned base with the free flag set stands, clear_above_free does what
  -- writing the tag with the flag clear does.
  pub clear_above_free_lem : m at ≡ tag_of base true → clear_above_free m at ≡ write m at base false
  unfolding clear_above_free write
  clear_above_free_lem e = rw (e, tag_of_clear base whole)
