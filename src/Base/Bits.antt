-- ===== src/Base/Bits.antt =====
-- Laws of the bit operations at every width: `bit n b` is the binary digit `b` of `n`.
use Prim.Native.Nat.{
  ℕ, zero, suc, ◌+◌, ◌-◌, ◌*◌, ◌/◌, ◌%◌, ◌^◌, ◌≤◌, ◌<◌, min, bit_and, bit_xor, digits, bitwise,
  bit_and-bitwise, bit_xor-bitwise, differ,
}
use mathlib.Core.Path.{◌≡◌, refl, ap, ◌∙◌, sym, subst}
use native.Mathlib.Nat.{le_refl, pow-suc, one-le-pow, div-add-mod, div-div-eq-div-mul}
use native.Mathlib.Omega.{arith}
use talc.Base.Tests.{◌==◌, if◌then◌else◌}

module _ (rest : ℕ → ℕ) (op : ℕ → ℕ → ℕ) where
  -- A number has no more digits than its value, so one more round changes nothing.
  one_more_round :
      (rounds x y : ℕ) → x ≤ rounds → digits rest op (suc rounds) x y ≡ digits rest op rounds x y
  one_more_round zero zero y le = refl
  one_more_round zero (suc x) y le = absurd (omega arith)
  one_more_round (suc rounds) zero y le = refl
  one_more_round (suc rounds) (suc x) y le =
      ap (λ (high : ℕ). high * 2 + op (suc x % 2) (y % 2))
        (one_more_round rounds (suc x / 2) (y / 2) (omega arith))

  more_rounds :
      (more rounds x y : ℕ)
      → x ≤ rounds
      → digits rest op (more + rounds) x y ≡ digits rest op rounds x y
  more_rounds zero rounds x y le = let e : 0 + rounds ≡ rounds = omega arith in rw e
  more_rounds (suc more) rounds x y le =
      let e : suc more + rounds ≡ suc (more + rounds) = omega arith in
      rw e (one_more_round (more + rounds) x y (omega arith) ∙ more_rounds more rounds x y le)

  last_digit :
      (x y : ℕ)
      → bitwise rest op (suc x) y ≡ bitwise rest op (suc x / 2) (y / 2) * 2 + op (suc x % 2) (y % 2)
  last_digit x y =
      let e : x - suc x / 2 + suc x / 2 ≡ x = omega arith in
      ap (λ (high : ℕ). high * 2 + op (suc x % 2) (y % 2))
        (subst
          (λ (rounds : ℕ).
            digits rest op rounds (suc x / 2) (y / 2)
            ≡ digits rest op (suc x / 2) (suc x / 2) (y / 2))
          e (more_rounds (x - suc x / 2) (suc x / 2) (suc x / 2) (y / 2) (omega arith)))

pub bit_and_step : (x y : ℕ) → bit_and x y ≡ bit_and (x / 2) (y / 2) * 2 + min (x % 2) (y % 2)
bit_and_step zero y = simp bit_and-bitwise (omega arith)
bit_and_step (suc x) y = simp bit_and-bitwise (last_digit (λ _. 0) min x y)

pub bit_xor_step : (x y : ℕ) → bit_xor x y ≡ bit_xor (x / 2) (y / 2) * 2 + differ (x % 2) (y % 2)
bit_xor_step zero y = simp bit_xor-bitwise (omega arith)
bit_xor_step (suc x) y = simp bit_xor-bitwise (last_digit (λ y. y) differ x y)

-- By induction on a bound of the number.
bit_and-zero_below : (bound x : ℕ) → x < bound → bit_and x 0 ≡ 0
bit_and-zero_below zero x lt = absurd (omega arith)
bit_and-zero_below (suc bound) zero lt = refl
bit_and-zero_below (suc bound) (suc x) lt =
    omega (arith, bit_and-zero_below bound (suc x / 2) (omega arith), bit_and_step (suc x) 0)

pub bit_and-zero : (x : ℕ) → bit_and x 0 ≡ 0
bit_and-zero x = bit_and-zero_below (suc x) x (omega arith)

pub bit_and-one : (a : ℕ) → bit_and a 1 ≡ a % 2
bit_and-one a = omega (arith, bit_and_step a 1, bit_and-zero (a / 2))

pub bit_and-two : (a : ℕ) → bit_and a 2 ≡ a / 2 % 2 * 2
bit_and-two a = omega (arith, bit_and_step a 2, bit_and-one (a / 2))

mul-pow-suc : (n k : ℕ) → n * 2 ^ suc k ≡ 2 * (n * 2 ^ k)
mul-pow-suc n k = omega (arith, ap (λ (power : ℕ). n * power) (pow-suc 2 k))

div-pow-suc : (n k : ℕ) → n / 2 ^ suc k ≡ n / 2 / 2 ^ k
div-pow-suc n k =
    ap (λ (t : ℕ). n / t) (omega (arith, pow-suc 2 k)) ∙ sym (div-div-eq-div-mul n 2 (2 ^ k))

-- A mask whose lowest `k` digits are zero acts on what stands above them.
pub bit_and-shifted : (k a m : ℕ) → bit_and a (m * 2 ^ k) ≡ bit_and (a / 2 ^ k) m * 2 ^ k
bit_and-shifted zero a m =
    let e : m * 1 ≡ m = omega arith in let f : a / 1 ≡ a = omega arith in rw (e, f) (omega arith)
bit_and-shifted (suc k) a m =
    rw (div-pow-suc a k, mul-pow-suc m k)
      (omega (
        arith,
        bit_and_step a (2 * (m * 2 ^ k)),
        ap (bit_and (a / 2)) (half_double (m * 2 ^ k)),
        bit_and-shifted k (a / 2) m,
        mul-pow-suc (bit_and (a / 2 / 2 ^ k) m) k,
      ))
  where
    half_double : (x : ℕ) → 2 * x / 2 ≡ x
    half_double x = omega arith

-- A mask of `k` ones is the remainder by `2 ^ k`.
pub bit_and-low_mask : (k a : ℕ) → bit_and a (2 ^ k - 1) ≡ a % 2 ^ k
bit_and-low_mask zero a = omega (arith, bit_and-zero a)
bit_and-low_mask (suc k) a = omega (
  arith,
  bit_and_step a (2 ^ suc k - 1),
  ap (bit_and (a / 2)) half_mask,
  bit_and-low_mask k (a / 2),
  pow-suc 2 k,
  one-le-pow k 2 (omega arith),
  low_digit,
)
  where
    half_mask : (2 ^ suc k - 1) / 2 ≡ 2 ^ k - 1
    half_mask = omega (arith, pow-suc 2 k, one-le-pow k 2 (omega arith))

    low_digit : a % 2 ^ suc k ≡ a / 2 % 2 ^ k * 2 + a % 2
    low_digit = omega (
      arith,
      div-add-mod a (2 ^ suc k),
      div-add-mod (a / 2) (2 ^ k),
      ap (λ (t : ℕ). 2 ^ suc k * t) (div-pow-suc a k),
      mul-pow-suc (a / 2 / 2 ^ k) k,
    )

-- Binary digit `b` of `n`.
unfoldable pub bit : ℕ → ℕ → ℕ
bit n zero = n % 2
bit n (suc b) = bit (n / 2) b

pub bit-lt : (n b : ℕ) → bit n b < 2
unfolding bit
bit-lt n zero = omega arith
bit-lt n (suc b) = bit-lt (n / 2) b

-- A shift to the right drops the lowest digits.
pub bit-shift : (n k j : ℕ) → bit (n / 2 ^ k) j ≡ bit n (k + j)
unfolding bit
bit-shift n zero j = let e : n / 1 ≡ n = omega arith in let f : 0 + j ≡ j = omega arith in rw (e, f)
bit-shift n (suc k) j =
    let e : suc k + j ≡ suc (k + j) = omega arith in rw (div-pow-suc n k, e) (bit-shift (n / 2) k j)

differ-zero : (x : ℕ) → differ x 0 ≡ x
differ-zero zero = refl
differ-zero (suc x) = refl

differ-one : (x : ℕ) → x < 2 → differ x 1 ≡ 1 - x
differ-one zero h = refl
differ-one (suc zero) h = refl
differ-one (suc (suc x)) h = absurd (omega arith)

bit_xor-zero_fuel : (k n : ℕ) → n ≤ k → bit_xor n 0 ≡ n
bit_xor-zero_fuel k zero h = refl
bit_xor-zero_fuel zero (suc n) h = absurd (omega arith)
bit_xor-zero_fuel (suc k) (suc n) h = omega (
  arith,
  bit_xor_step (suc n) 0,
  differ-zero (suc n % 2),
  bit_xor-zero_fuel k (suc n / 2) (omega arith),
)

bit_xor-zero : (n : ℕ) → bit_xor n 0 ≡ n
bit_xor-zero n = bit_xor-zero_fuel n n (le_refl n)

xor_one : (n : ℕ) → bit_xor n 1 ≡ n / 2 * 2 + (1 - n % 2)
xor_one n = omega (arith, bit_xor_step n 1, differ-one (n % 2) (omega arith), bit_xor-zero (n / 2))

xor_pow_suc : (n b : ℕ) → bit_xor n (2 ^ suc b) ≡ bit_xor (n / 2) (2 ^ b) * 2 + n % 2
xor_pow_suc n b =
    let half : 2 ^ suc b / 2 ≡ 2 ^ b = omega (arith, pow-suc 2 b) in
    let even : 2 ^ suc b % 2 ≡ 0 = omega (arith, pow-suc 2 b) in
    omega (
      arith,
      bit_xor_step n (2 ^ suc b),
      ap (bit_xor (n / 2)) half,
      ap (differ (n % 2)) even,
      differ-zero (n % 2),
    )

-- `n ^ (1 << b)` flips the digit `b` and leaves the others.
pub bit-bit_xor :
    (n b c : ℕ) → bit (bit_xor n (2 ^ b)) c ≡ (if c == b then 1 - bit n c else bit n c)
unfolding bit
bit-bit_xor n zero zero = omega (arith, xor_one n)
bit-bit_xor n zero (suc c) =
    let e : bit_xor n 1 / 2 ≡ n / 2 = omega (arith, xor_one n) in rw e (ground arith)
bit-bit_xor n (suc b) zero = ground (arith, xor_pow_suc n b)
bit-bit_xor n (suc b) (suc c) =
    let e : bit_xor n (2 ^ suc b) / 2 ≡ bit_xor (n / 2) (2 ^ b) = omega (arith, xor_pow_suc n b) in
    rw e (ground (arith, bit-bit_xor (n / 2) b c))

pub bit_xor-lt : (w n b : ℕ) → n < 2 ^ w → b < w → bit_xor n (2 ^ b) < 2 ^ w
bit_xor-lt zero n b h k = absurd (omega arith)
bit_xor-lt (suc w) n zero h k = omega (arith, xor_one n, pow-suc 2 w)
bit_xor-lt (suc w) n (suc b) h k = omega (
  arith,
  xor_pow_suc n b,
  pow-suc 2 w,
  bit_xor-lt w (n / 2) b (omega (arith, pow-suc 2 w)) (omega arith),
)

-- A number whose digits are all zero is zero.
pub eq-zero_of_bits : (w n : ℕ) → n < 2 ^ w → ((b : ℕ) → b < w → bit n b ≡ 0) → n ≡ 0
unfolding bit
eq-zero_of_bits zero n h z = omega arith
eq-zero_of_bits (suc w) n h z = omega (
  arith,
  z 0 (omega arith),
  eq-zero_of_bits w (n / 2) (omega (arith, pow-suc 2 w)) (λ b k. z (suc b) (omega arith)),
)

pub bit-of_zero : (b : ℕ) → bit 0 b ≡ 0
unfolding bit
bit-of_zero zero = refl
bit-of_zero (suc b) = bit-of_zero b

-- A word has no digits beyond its width.
pub bit-beyond : (w n b : ℕ) → n < 2 ^ w → w ≤ b → bit n b ≡ 0
unfolding bit
bit-beyond zero n b h le = let e : n ≡ 0 = omega arith in rw e (bit-of_zero b)
bit-beyond (suc w) n zero h le = absurd (omega arith)
bit-beyond (suc w) n (suc b) h le =
    bit-beyond w (n / 2) b (omega (arith, pow-suc 2 w)) (omega arith)
