-- ===== src/Span.antt =====
-- talc/src/span.rs: half-open intervals of addresses. `none` of `word_align_outward` and `extend`
-- is a panic.
pub mod Sets
pub mod Fit
pub mod Resize
use talc.Base.{
  ℕ, ◌+◌, ◌-◌, ◌*◌, ◌^◌, Bool, true, false, not, ◌&&◌, ◌||◌, Option, none, some, ltb, leb, ◌==◌,
  if◌then◌else◌,
}
use talc.PtrUtils.{align, usize_max, wrapping_add, wrapping_sub, align_up, align_down}

pub record Span : Type 0 where
  pub base : ℕ
  pub acme : ℕ

abbrev pub new : ℕ → ℕ → Span
new b a = record { base = b; acme = a }

abbrev pub empty : Span
empty = new 0 0

unfoldable pub is_empty : Span → Bool
is_empty s = leb s.acme s.base

unfoldable pub is_sized : Span → Bool
unfolding is_empty
is_sized s = not (is_empty s)

unfoldable pub size : Span → ℕ
unfolding is_empty
size s = if is_empty s then 0 else s.acme - s.base

unfoldable pub get_base_acme : Span → Option (ℕ × ℕ)
unfolding is_empty
get_base_acme s = if is_empty s then none else some (s.base, s.acme)

-- `PartialEq::eq`.
unfoldable pub eq : Span → Span → Bool
unfolding is_empty
eq s other = is_empty s && is_empty other || s.base == other.base && s.acme == other.acme

unfoldable pub from_base_size : ℕ → ℕ → Span
from_base_size b n = new b (wrapping_add b n)

-- `n` elements of `item_size` bytes each.
unfoldable pub from_array : ℕ → ℕ → ℕ → Span
from_array array item_size n = new array (array + n * item_size)

unfoldable pub from_const_array : ℕ → ℕ → ℕ → Span
from_const_array array item_size n = new array (array + n * item_size)

-- `from_slice`, of a slice's address and length.
unfoldable pub from_slice : ℕ → ℕ → ℕ → Span
from_slice slice item_size len = new slice (slice + len * item_size)

unfoldable pub from_const_slice : ℕ → ℕ → ℕ → Span
from_const_slice slice item_size len = new slice (slice + len * item_size)

abbrev pub default : Span
default = empty

-- The conversions from a `Range`, from references to slices, by their pointer ranges, and from
-- references and pointers to arrays.
unfoldable pub from_range : ℕ → ℕ → Span
from_range start end = new start end

unfoldable pub from_slice_ref : ℕ → ℕ → ℕ → Span
unfolding from_range
from_slice_ref slice item_size len = from_range slice (slice + len * item_size)

unfoldable pub from_array_ptr : ℕ → ℕ → ℕ → Span
unfolding from_array
from_array_ptr array item_size n = from_array array item_size n

unfoldable pub from_array_ref : ℕ → ℕ → ℕ → Span
unfolding from_array_ptr
from_array_ref array item_size n = from_array_ptr array item_size n

unfoldable pub to_ptr_range : Span → Option (ℕ × ℕ)
unfolding is_empty
to_ptr_range s = if is_empty s then none else some (s.base, s.acme)

-- The address and the length of the slice.
unfoldable pub to_slice : Span → Option (ℕ × ℕ)
unfolding is_empty size
to_slice s = if is_empty s then none else some (s.base, size s)

unfoldable pub contains : Span → ℕ → Bool
contains s ptr = leb s.base ptr && ltb ptr s.acme

unfoldable pub contains_span : Span → Span → Bool
unfolding is_empty
contains_span s other = is_empty other || leb s.base other.base && leb other.acme s.acme

unfoldable pub overlaps : Span → Span → Bool
unfolding is_sized
overlaps s other =
    is_sized s && is_sized other && not (leb s.acme other.base || leb other.acme s.base)

unfoldable pub word_align_inward : Span → Span
word_align_inward s =
    if ltb (usize_max - s.base) align then empty else new (align_up s.base) (align_down s.acme)

unfoldable pub word_align_outward : Span → Option Span
word_align_outward s =
    if ltb (usize_max - s.acme) align
    then none
    else some (new (align_down s.base) (align_up s.acme))

unfoldable pub above : Span → ℕ → Span
above s low = new (if ltb s.base low then low else s.base) s.acme

unfoldable pub below : Span → ℕ → Span
below s high = new s.base (if ltb high s.acme then high else s.acme)

unfoldable pub except : Span → Span → Span × Span
unfolding get_base_acme below above
except s exclude = elim (get_base_acme exclude) [
  | some (b, a) ↦ (below s b, above s a)
  | none ↦ (s, empty)
]

unfoldable pub fit_within : Span → Span → Span
unfolding is_empty
fit_within s other =
    if is_empty other
    then other
    else new (if ltb s.base other.base then other.base else s.base)
        (if ltb other.acme s.acme then other.acme else s.acme)

unfoldable pub fit_over : Span → Span → Span
unfolding is_empty
fit_over s other =
    if is_empty other
    then s
    else new (if ltb other.base s.base then other.base else s.base)
        (if ltb s.acme other.acme then other.acme else s.acme)

-- `checked_sub` and `checked_add` of a word.
abbrev pub checked_sub : ℕ → ℕ → Option ℕ
checked_sub a b = if ltb a b then none else some (a - b)

abbrev pub checked_add : ℕ → ℕ → Option ℕ
checked_add a b = if ltb usize_max (a + b) then none else some (a + b)

abbrev pub is_none : Option ℕ → Bool
is_none none = true
is_none (some _) = false

unfoldable pub extend : Span → ℕ → ℕ → Option Span
unfolding is_empty
extend s low high =
    if is_empty s
    then some s
    else if is_none (checked_sub s.base low) || is_none (checked_add s.acme high)
    then none
    else some (new (wrapping_sub s.base low) (wrapping_add s.acme high))

unfoldable pub truncate : Span → ℕ → ℕ → Span
unfolding is_empty
truncate s low high =
    if is_empty s
    then s
    else if is_none (checked_add s.base low) || is_none (checked_sub s.acme high)
    then empty
    else new (wrapping_add s.base low) (wrapping_sub s.acme high)
