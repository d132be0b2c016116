-- ===== src/Talc/Avails/Search.antt =====
-- `next_available_bin` finds the lowest bin at or above its argument whose flag is set.
use native.Mathlib.Nat.{div-le_self}
use talc.Base.{
  ℕ, zero, suc, ◌+◌, ◌-◌, ◌/◌, ◌%◌, ◌^◌, ◌≤◌, ◌<◌, ◌≡◌, refl, ◌≢◌, inl, inr, Option, none, some,
  ◌==◌, arith, le-or-lt, eq-or-ne, Bool-cases, ==→eq, ==→ne, ap, sym, ◌∙◌, lt→ltb, le→ltb, ne→==,
  eq→==,
}
use native.Mathlib.Nat.{pow-suc}
use talc.Base.Bits.{bit, bit-shift, bit-beyond, bit-of_zero}
use talc.Talc.State.{Talc}
use talc.Talc.Avails.{trailing_zeros, trailing_zeros_rounds, next_available_bin}
use talc.Talc.Avails.Flags.{flag, InWords}

-- Digit `z` of `n` is its lowest that is set.
abbrev IsLowest : ℕ → ℕ → Type 0
IsLowest n z = (bit n z ≡ 1) × ((j : ℕ) → j < z → bit n j ≡ 0)

trailing_zeros_rounds-IsLowest :
    (r n : ℕ) → n ≢ 0 → n < 2 ^ r → IsLowest n (trailing_zeros_rounds r n)
unfolding trailing_zeros_rounds bit
trailing_zeros_rounds-IsLowest zero n pos h = absurd (pos (omega arith))
trailing_zeros_rounds-IsLowest (suc r) n pos h = elim (Bool-cases (n % 2 == 1)) [
  | inl odd ↦ rw odd (==→eq _ _ odd, λ j k. absurd (omega arith))
  | inr even ↦
      let zero_digit : n % 2 ≡ 0 = omega (arith, ==→ne _ _ even) in
      let ih =
        trailing_zeros_rounds-IsLowest r (n / 2) (omega arith) (omega (arith, pow-suc 2 r)) in
      rw even (ih.0, below zero_digit ih.1)
]
  where
    below :
        {z : ℕ}
        → n % 2 ≡ 0
        → ((j : ℕ) → j < z → bit (n / 2) j ≡ 0)
        → (j : ℕ) → j < suc z
        → bit n j ≡ 0
    below e ih zero h = e
    below e ih (suc j) h = ih j (omega arith)

trailing_zeros-IsLowest : (n : ℕ) → n ≢ 0 → n < 2 ^ 64 → IsLowest n (trailing_zeros n)
unfolding trailing_zeros
trailing_zeros-IsLowest n pos h = trailing_zeros_rounds-IsLowest 64 n pos h

-- The search of one word from digit `k` on.
shifted-IsLowest :
    (n k : ℕ)
    → n < 2 ^ 64
    → n / 2 ^ k ≢ 0
    → (k + trailing_zeros (n / 2 ^ k) < 64)
      × (bit n (k + trailing_zeros (n / 2 ^ k)) ≡ 1)
      × ((j : ℕ) → k ≤ j → j < k + trailing_zeros (n / 2 ^ k) → bit n j ≡ 0)
shifted-IsLowest n k h some_left = (in_word, found, below)
  where
    lowest : IsLowest (n / 2 ^ k) (trailing_zeros (n / 2 ^ k))
    lowest = trailing_zeros-IsLowest (n / 2 ^ k) some_left (omega (arith, div-le_self n (2 ^ k)))

    found : bit n (k + trailing_zeros (n / 2 ^ k)) ≡ 1
    found = sym (bit-shift n k (trailing_zeros (n / 2 ^ k))) ∙ lowest.0

    in_word : k + trailing_zeros (n / 2 ^ k) < 64
    in_word = elim (le-or-lt 64 (k + trailing_zeros (n / 2 ^ k))) [
      | inl beyond ↦ absurd (omega (arith, bit-beyond 64 n _ h beyond, found))
      | inr done ↦ done
    ]

    below : (j : ℕ) → k ≤ j → j < k + trailing_zeros (n / 2 ^ k) → bit n j ≡ 0
    below j le lt =
        let e : k + (j - k) ≡ j = omega arith in
        ap (bit n) (sym e) ∙ sym (bit-shift n k (j - k)) ∙ lowest.1 (j - k) (omega arith)

shifted-zero : (n k : ℕ) → n / 2 ^ k ≡ 0 → (j : ℕ) → k ≤ j → bit n j ≡ 0
shifted-zero n k z j le =
    let e : k + (j - k) ≡ j = omega arith in
    ap (bit n) (sym e)
    ∙ sym (bit-shift n k (j - k))
    ∙ ap (λ (t : ℕ). bit t (j - k)) z
    ∙ bit-of_zero (j - k)

-- The result of a search for a bin from `n` on: the lowest bin with its flag set, or none.
abbrev pub IsFirst : Talc → ℕ → Option ℕ → Type 0
IsFirst t n none = (c : ℕ) → n ≤ c → c < 128 → flag t c ≡ 0
IsFirst t n (some b) =
    (n ≤ b) × (b < 128) × (flag t b ≡ 1) × ((c : ℕ) → n ≤ c → c < b → flag t c ≡ 0)

flag_low : (t : Talc) (c : ℕ) → c < 64 → flag t c ≡ bit t.availability_low c
unfolding flag
flag_low t c h = ground arith

flag_high : (t : Talc) (c j : ℕ) → c ≡ j + 64 → flag t c ≡ bit t.availability_high j
unfolding flag
flag_high t c j e = let d : c - 64 ≡ j = omega arith in rw (le→ltb c 64 (omega arith), d)

trailing_zeros-lt : (n : ℕ) → n ≢ 0 → n < 2 ^ 64 → trailing_zeros n < 64
trailing_zeros-lt n pos h = elim (le-or-lt 64 (trailing_zeros n)) [
  | inl beyond ↦
      absurd (omega (arith, bit-beyond 64 n _ h beyond, (trailing_zeros-IsLowest n pos h).0))
  | inr done ↦ done
]

module _ (t : Talc) (w : InWords t) (n : ℕ) where
  -- The digits of the high word from `n - 64` on are all zero.
  none_high : 64 ≤ n → t.availability_high / 2 ^ (n - 64) ≡ 0 → IsFirst t n none
  none_high le z c le' lt =
      flag_high t c (c - 64) (omega arith)
      ∙ shifted-zero t.availability_high (n - 64) z (c - 64) (omega arith)

  some_high :
      64 ≤ n
      → t.availability_high / 2 ^ (n - 64) ≢ 0
      → IsFirst t n (some (n + trailing_zeros (t.availability_high / 2 ^ (n - 64))))
  some_high le nz =
      let z = trailing_zeros (t.availability_high / 2 ^ (n - 64)) in
      let s = shifted-IsLowest t.availability_high (n - 64) w.high nz in
      (
        omega arith,
        omega (arith, s.0),
        flag_high t (n + z) (n - 64 + z) (omega arith) ∙ s.1,
        λ c le' lt. flag_high t c (c - 64) (omega arith) ∙ s.2 (c - 64) (omega arith) (omega arith),
      )

  some_low :
      n < 64
      → t.availability_low / 2 ^ n ≢ 0
      → IsFirst t n (some (n + trailing_zeros (t.availability_low / 2 ^ n)))
  some_low lt nz =
      let z = trailing_zeros (t.availability_low / 2 ^ n) in
      let s = shifted-IsLowest t.availability_low n w.low nz in
      (
        omega arith,
        omega (arith, s.0),
        flag_low t (n + z) s.0 ∙ s.1,
        λ c le lt'. flag_low t c (omega (arith, s.0)) ∙ s.2 c le lt',
      )

  -- The low word has nothing left from `n` on, and the high word is searched from its start.
  low_zero : t.availability_low / 2 ^ n ≡ 0 → (c : ℕ) → n ≤ c → c < 64 → flag t c ≡ 0
  low_zero z c le lt = flag_low t c lt ∙ shifted-zero t.availability_low n z c le

  over_low :
      n < 64
      → t.availability_low / 2 ^ n ≡ 0
      → t.availability_high ≢ 0
      → IsFirst t n (some (trailing_zeros t.availability_high + 64))
  over_low lt z nz =
      let fits = trailing_zeros-lt t.availability_high nz w.high in
      let lowest = trailing_zeros-IsLowest t.availability_high nz w.high in
      (
        omega arith,
        omega (arith, fits),
        flag_high t _ (trailing_zeros t.availability_high) refl ∙ lowest.0,
        λ c le lt'. elim (le-or-lt 64 c) [
          | inl high ↦ flag_high t c (c - 64) (omega arith) ∙ lowest.1 (c - 64) (omega arith)
          | inr low ↦ low_zero z c le low
        ],
      )

  none_over_low :
      n < 64 → t.availability_low / 2 ^ n ≡ 0 → t.availability_high ≡ 0 → IsFirst t n none
  none_over_low lt z z' c le lt' = elim (le-or-lt 64 c) [
    | inl high ↦
        flag_high t c (c - 64) (omega arith)
        ∙ ap (λ (a : ℕ). bit a (c - 64)) z'
        ∙ bit-of_zero (c - 64)
    | inr low ↦ low_zero z c le low
  ]

  -- Where both words of flags are words, next_available_bin gives the least bin from the given one
  -- on, below the number of bins, whose flag is set, and none only if no such flag is set.
  pub next_available_bin-IsFirst : IsFirst t n (next_available_bin n t)
  unfolding next_available_bin
  next_available_bin-IsFirst = elim (le-or-lt 64 n) [
    | inr low ↦ rw (lt→ltb _ _ low) (elim (eq-or-ne (t.availability_low / 2 ^ n) 0) [
      | inr nz ↦ rw (ne→== _ _ nz) (some_low low nz)
      | inl z ↦ rw (eq→== _ _ z) (elim (eq-or-ne t.availability_high 0) [
        | inr nz ↦ rw (ne→== _ _ nz) (over_low low z nz)
        | inl z' ↦ rw (eq→== _ _ z') (none_over_low low z z')
      ])
    ])
    | inl high ↦ rw (le→ltb _ _ high) (elim (le-or-lt 128 n) [
      | inl far ↦ rw (le→ltb _ _ far) (λ c le lt. absurd (omega arith))
      | inr near ↦ rw (lt→ltb _ _ near) (elim (eq-or-ne (t.availability_high / 2 ^ (n - 64)) 0) [
        | inr nz ↦ rw (ne→== _ _ nz) (some_high high nz)
        | inl z ↦ rw (eq→== _ _ z) (none_high high z)
      ])
    ])
  ]
