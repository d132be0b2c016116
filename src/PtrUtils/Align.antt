-- ===== src/PtrUtils/Align.antt =====
-- The alignment functions of talc/src/ptr_utils.rs as arithmetic.
use native.Mathlib.Nat.{
  pow-suc, one-le-pow, div-add-mod', div-lt_iff_lt-mul, mul-mod_left, mod-lt, mod-eq_of_lt,
}
use talc.Base.{
  ℕ, zero, suc, ◌+◌, ◌-◌, ◌*◌, ◌/◌, ◌%◌, ◌^◌, ◌≤◌, ◌<◌, ◌≡◌, refl, sym, ap, ◌∙◌, false, bit_and,
  arith, ltb→le,
}
use talc.Base.Bits.{bit_and-shifted, bit_and-low_mask}
use talc.PtrUtils.{align_up_by, align_down, align_up, align_up_overflows, bit_not}

-- Where the source's overflow check passes, `align_up` is the rounding to a multiple of eight.
pub align_up-eq : (p : ℕ) → p + 7 < 2 ^ 64 → align_up p ≡ (p + 7) / 8 * 8
unfolding align_up
align_up-eq p h = omega arith

pub align_up_of_aligned : (p : ℕ) → p + 7 < 2 ^ 64 → p % 8 ≡ 0 → align_up p ≡ p
align_up_of_aligned p h a = omega (arith, align_up-eq p h)

-- For a word for which align_up_overflows says no, align_up gives the least multiple of the word
-- size that is not below it.
pub align_up-least :
    (p q : ℕ)
    → p < 2 ^ 64
    → align_up_overflows p ≡ false
    → (align_up p % 8 ≡ 0) × (p ≤ align_up p) × (p ≤ q → q % 8 ≡ 0 → align_up p ≤ q)
unfolding align_up_overflows
align_up-least p q h o =
    let fits : p + 7 < 2 ^ 64 = omega (arith, ltb→le _ _ o) in
    (
      omega (arith, align_up-eq p fits),
      omega (arith, align_up-eq p fits),
      λ le m. omega (arith, align_up-eq p fits),
    )

-- For a word, align_down gives the greatest multiple of the word size that is not above it.
pub align_down-greatest :
    (p q : ℕ)
    → p < 2 ^ 64
    → (align_down p % 8 ≡ 0) × (align_down p ≤ p) × (q ≤ p → q % 8 ≡ 0 → q ≤ align_down p)
unfolding align_down
align_down-greatest p q h = (omega arith, omega arith, λ le m. omega arith)

pub align_down-eq : (p : ℕ) → p < 2 ^ 64 → align_down p ≡ p / 8 * 8
unfolding align_down
align_down-eq p h = omega arith

two_pow_add : (a b : ℕ) → 2 ^ (a + b) ≡ 2 ^ a * 2 ^ b
two_pow_add zero b = let e : 0 + b ≡ b = omega arith in rw e (omega arith)
two_pow_add (suc a) b =
    let e : suc a + b ≡ suc (a + b) = omega arith in
    rw e
      (omega (arith, two_pow_add a b, pow-suc 2 (a + b), ap (λ (t : ℕ). t * 2 ^ b) (pow-suc 2 a)))

mul-pred : (a b : ℕ) → 0 < a → (a - 1) * b + b ≡ a * b
mul-pred zero b h = elim h [ ]
mul-pred (suc a) b h = let e : suc a - 1 ≡ a = omega arith in rw e (omega arith)

module _ (k : ℕ) (below : k < 64) where
  -- The power of two that is left above the lowest `k` digits.
  split_word : 2 ^ (64 - k) * 2 ^ k ≡ 2 ^ 64
  split_word =
      let e : 64 - k + k ≡ 64 = omega arith in
      sym (two_pow_add (64 - k) k) ∙ ap (λ (t : ℕ). 2 ^ t) e

  mask_as_product : bit_not (2 ^ k - 1) ≡ (2 ^ (64 - k) - 1) * 2 ^ k
  mask_as_product = omega (
    arith,
    split_word,
    mul-pred (2 ^ (64 - k)) (2 ^ k) (one-le-pow (64 - k) 2 (omega arith)),
    one-le-pow k 2 (omega arith),
  )

  -- Masking with `!(2 ^ k - 1)` rounds a word down to a multiple of `2 ^ k`.
  pub bit_and-bit_not : (x : ℕ) → x < 2 ^ 64 → bit_and x (bit_not (2 ^ k - 1)) ≡ x / 2 ^ k * 2 ^ k
  bit_and-bit_not x fits =
      let quotient_fits : x / 2 ^ k < 2 ^ (64 - k) =
        (div-lt_iff_lt-mul (one-le-pow k 2 (omega arith))).1 (rw split_word fits) in
      rw
        (
          mask_as_product,
          bit_and-shifted k x (2 ^ (64 - k) - 1),
          bit_and-low_mask (64 - k) (x / 2 ^ k),
          mod-eq_of_lt quotient_fits,
        )
        refl

  -- `align_up_by` as arithmetic, where nothing overflows.
  pub align_up_by-eq :
      (p : ℕ) → p + 2 ^ k ≤ 2 ^ 64 → align_up_by p (2 ^ k - 1) ≡ (p + (2 ^ k - 1)) / 2 ^ k * 2 ^ k
  unfolding align_up_by
  align_up_by-eq p fits =
      let pos : 1 ≤ 2 ^ k = one-le-pow k 2 (omega arith) in
      let small : (p + (2 ^ k - 1)) % 2 ^ 64 ≡ p + (2 ^ k - 1) = mod-eq_of_lt (omega arith) in
      let rounded = bit_and-bit_not (p + (2 ^ k - 1)) (omega arith) in
      rw (small, rounded)
        (omega (arith, div-add-mod' (p + (2 ^ k - 1)) (2 ^ k), mod-lt (p + (2 ^ k - 1)) pos))

-- Rounding up stays below the sum.
pub align_up_by-lt : (k p : ℕ) → k < 64 → p + 2 ^ k ≤ 2 ^ 64 → align_up_by p (2 ^ k - 1) < p + 2 ^ k
align_up_by-lt k p below fits =
    let x = p + (2 ^ k - 1) in
    rw (align_up_by-eq k below p fits)
      (omega (arith, div-add-mod' x (2 ^ k), one-le-pow k 2 (omega arith)))

multiple_le : (m a q : ℕ) → 0 < m → q % m ≡ 0 → a * m < q + m → a * m ≤ q
multiple_le m a q pos whole lt = grind (arith, div-add-mod' q m)

-- For the mask of a power of two below the word's width, and a pointer to which the power can be
-- added, align_up_by gives the least multiple of the power that is not below the pointer.
pub align_up_by-least :
    (k p q : ℕ)
    → k < 64
    → p + 2 ^ k ≤ 2 ^ 64
    → (align_up_by p (2 ^ k - 1) % 2 ^ k ≡ 0)
      × (p ≤ align_up_by p (2 ^ k - 1))
      × (p ≤ q → q % 2 ^ k ≡ 0 → align_up_by p (2 ^ k - 1) ≤ q)
align_up_by-least k p q below fits =
    let pos : 1 ≤ 2 ^ k = one-le-pow k 2 (omega arith) in
    let x = p + (2 ^ k - 1) in
    rw (align_up_by-eq k below p fits) (
      mul-mod_left (x / 2 ^ k) (2 ^ k),
      omega (arith, div-add-mod' x (2 ^ k), mod-lt x pos),
      λ le whole.
          multiple_le (2 ^ k) (x / 2 ^ k) q pos whole
            (omega (arith, div-add-mod' x (2 ^ k), mod-lt x pos)),
    )
