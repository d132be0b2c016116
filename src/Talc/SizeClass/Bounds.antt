-- ===== src/Talc/SizeClass/Bounds.antt =====
-- What the allocator relies on of the size classes of talc/src/talc.rs: `bin_of_size` stays
-- within the bins and is monotone, and `required_chunk_size` is the least chunk that fits.
use talc.Base.{ℕ, ◌+◌, ◌-◌, ◌*◌, ◌/◌, ◌%◌, ◌^◌, ◌≤◌, ◌<◌, ◌≡◌, inl, inr, arith, le-or-lt, refl, min}
use talc.PtrUtils.Align.{bit_and-bit_not}
use talc.Talc.Layout.{bin_count}
use talc.Talc.SizeClass.{bin_of_size, required_chunk_size}
use talc.Talc.SizeClass.Log.{class_offset, class_offset_mono}

bin_of_word : (s : ℕ) → 24 ≤ s → s < 256 → bin_of_size s ≡ (s - 24) / 8
unfolding bin_of_size
bin_of_word s least h = ground arith

bin_of_double : (s : ℕ) → 256 ≤ s → s < 512 → bin_of_size s ≡ s / 16 - 16 + 29
unfolding bin_of_size
bin_of_double s h k = ground arith

bin_of_exp : (s : ℕ) → 512 ≤ s → bin_of_size s ≡ min (class_offset s + 45) 127
unfolding bin_of_size
bin_of_exp s h = ground arith

-- For every size from the minimum chunk size on, bin_of_size is below the number of bins.
pub bin_of_size-lt : (s : ℕ) → 24 ≤ s → bin_of_size s < bin_count
bin_of_size-lt s least = elim (le-or-lt 256 s) [
  | inr word ↦ omega (arith, bin_of_word s (omega arith) word)
  | inl above ↦ elim (le-or-lt 512 s) [
    | inr double ↦ omega (arith, bin_of_double s above double)
    | inl exp ↦ omega (arith, bin_of_exp s exp)
  ]
]

-- Among the sizes of a word that a chunk can have, from the minimum chunk size on, a larger size
-- never has a lower bin.
pub bin_of_size_mono : (s t : ℕ) → 24 ≤ s → s ≤ t → t < 2 ^ 64 → bin_of_size s ≤ bin_of_size t
bin_of_size_mono s t least le fits = elim (le-or-lt 512 s) [
  | inl exp ↦
      omega (arith, bin_of_exp s exp, bin_of_exp t (omega arith), class_offset_mono s t exp le fits)
  | inr low ↦ elim (le-or-lt 512 t) [
    | inl exp ↦ elim (le-or-lt 256 s) [
      | inl double ↦ omega (arith, bin_of_double s double low, bin_of_exp t exp)
      | inr word ↦ omega (arith, bin_of_word s (omega arith) word, bin_of_exp t exp)
    ]
    | inr low' ↦ elim (le-or-lt 256 s) [
      | inl double ↦ omega (arith, bin_of_double s double low, bin_of_double t (omega arith) low')
      | inr word ↦ elim (le-or-lt 256 t) [
        | inl double' ↦
            omega (arith, bin_of_word s (omega arith) word, bin_of_double t double' low')
        | inr word' ↦
            omega (arith, bin_of_word s (omega arith) word, bin_of_word t (omega arith) word')
      ]
    ]
  ]
]

-- A chunk of a higher bin is larger, so only the bin of the required size can hold chunks that
-- are too small.
pub lt_of_bin_of_size-lt : (s t : ℕ) → 24 ≤ t → s < 2 ^ 64 → bin_of_size s < bin_of_size t → s < t
lt_of_bin_of_size-lt s t least fits lt = elim (le-or-lt t s) [
  | inl le ↦ absurd (omega (arith, bin_of_size_mono t s least le fits))
  | inr done ↦ done
]

-- Below the limit of the word-spaced bins, chunks of one bin have one size.
pub bin_of_size_injective :
    (s t : ℕ)
    → 24 ≤ s
    → 24 ≤ t
    → s < 256
    → t < 256
    → s % 8 ≡ 0
    → t % 8 ≡ 0
    → bin_of_size s ≡ bin_of_size t
    → s ≡ t
bin_of_size_injective s t ls lt us ut whole whole' e =
    omega (arith, bin_of_word s ls us, bin_of_word t lt ut)

required-eq : (n : ℕ) → n + 15 < 2 ^ 64 → 16 < n → required_chunk_size n ≡ (n + 15) / 8 * 8
unfolding required_chunk_size
required-eq n fits large = ground (arith, bit_and-bit_not 3 (omega arith) (n + 15) (omega arith))

required_of_small : (n : ℕ) → n ≤ 16 → required_chunk_size n ≡ 24
unfolding required_chunk_size
required_of_small n small = ground arith

-- For a size that leaves room for rounding, required_chunk_size is the least number of whole words
-- that is at least the minimum chunk size and has room for the size and a tag.
pub required_chunk_size-least :
    (n q : ℕ)
    → n + 15 < 2 ^ 64
    → (required_chunk_size n % 8 ≡ 0)
      × (24 ≤ required_chunk_size n)
      × (n + 8 ≤ required_chunk_size n)
      × (q % 8 ≡ 0 → 24 ≤ q → n + 8 ≤ q → required_chunk_size n ≤ q)
required_chunk_size-least n q fits = elim (le-or-lt n 16) [
  | inl small ↦ rw (required_of_small n small) (refl, omega arith, omega arith, λ a b c. b)
  | inr large ↦
      rw (required-eq n fits large) (omega arith, omega arith, omega arith, λ a b c. omega arith)
]
