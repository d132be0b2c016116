-- ===== src/Talc/SizeClass/Log.antt =====
-- The integer logarithm, and the pseudo-exponential classes that `bin_of_size` makes of it.
use native.Mathlib.Nat.{
  pow-suc, pow-le-pow_right, one-le-pow, le-div_iff_mul-le, div-lt_iff_lt-mul, div-add-mod',
}
use talc.Base.{
  ℕ, zero, suc, ◌+◌, ◌-◌, ◌*◌, ◌/◌, ◌^◌, ◌≤◌, ◌<◌, ◌≡◌, inl, inr, arith, ap, ◌∙◌, le-or-lt, ltb,
  Bool-cases, ltb→lt, ltb→le, eq-or-ne,
}
use talc.Talc.SizeClass.{ilog2, ilog2_rounds, div_bits, divs_per_pow2, min_exp_bits_less_one}

ilog2_rounds_bounds :
    (r n : ℕ) → 0 < n → n < 2 ^ r → (2 ^ ilog2_rounds r n ≤ n) × (n < 2 ^ suc (ilog2_rounds r n))
unfolding ilog2_rounds
ilog2_rounds_bounds zero n pos h = absurd (omega arith)
ilog2_rounds_bounds (suc r) n pos h = elim (Bool-cases (ltb n 2)) [
  | inl small ↦ rw small (omega (arith, ltb→lt _ _ small))
  | inr large ↦
      let two : 2 ≤ n = ltb→le _ _ large in
      let ih = ilog2_rounds_bounds r (n / 2) (omega arith) (omega (arith, pow-suc 2 r)) in
      rw large (
        omega
          (arith, ih, pow-suc 2 (ilog2_rounds r (n / 2)), pow-suc 2 (suc (ilog2_rounds r (n / 2)))))
]

-- `ilog2` is the power of two at or below a word.
pub ilog2_bounds : (n : ℕ) → 0 < n → n < 2 ^ 64 → (2 ^ ilog2 n ≤ n) × (n < 2 ^ suc (ilog2 n))
unfolding ilog2
ilog2_bounds n pos h = ilog2_rounds_bounds 64 n pos h

pow_mono : (a b : ℕ) → a ≤ b → 2 ^ a ≤ 2 ^ b
pow_mono a b h = pow-le-pow_right {n = 2} (omega arith) h

-- What lies in `[2 ^ e, 2 ^ (e + 1))` has the logarithm `e`: powers above or below do not fit.
pub ilog2_mono : (m n : ℕ) → 0 < m → m ≤ n → n < 2 ^ 64 → ilog2 m ≤ ilog2 n
ilog2_mono m n pos le h = elim (le-or-lt (ilog2 m) (ilog2 n)) [
  | inl done ↦ done
  | inr gt ↦ absurd (
      omega (
        arith,
        ilog2_bounds m pos (omega arith),
        ilog2_bounds n (omega arith) h,
        pow_mono (suc (ilog2 n)) (ilog2 m) gt,
      ))
]

pub ilog2_ge : (n : ℕ) → 512 ≤ n → n < 2 ^ 64 → 9 ≤ ilog2 n
ilog2_ge n le h = elim (le-or-lt 9 (ilog2 n)) [
  | inl done ↦ done
  | inr lt ↦
      absurd
        (omega (arith, ilog2_bounds n (omega arith) h, pow_mono (suc (ilog2 n)) 9 (omega arith)))
]

-- The offset of a size among the pseudo-exponential classes, before the cap.
abbrev pub class_offset : ℕ → ℕ
class_offset n =
    (ilog2 n - min_exp_bits_less_one) * divs_per_pow2
    + (n / 2 ^ (ilog2 n - div_bits) - divs_per_pow2)

quotient_bounds : (n p : ℕ) → 0 < p → 4 * p ≤ n → n < 8 * p → (4 ≤ n / p) × (n / p < 8)
quotient_bounds n p pos lo hi = ((le-div_iff_mul-le pos).1 lo, (div-lt_iff_lt-mul pos).1 hi)

quotient_mono : (m n p : ℕ) → 0 < p → m ≤ n → m / p ≤ n / p
quotient_mono m n p pos le = (le-div_iff_mul-le pos).1 (omega (arith, div-add-mod' m p))

-- The leading three digits of a size make a number from 4 to 7.
pub division_bounds :
    (n : ℕ) → 512 ≤ n → n < 2 ^ 64 → (4 ≤ n / 2 ^ (ilog2 n - 2)) × (n / 2 ^ (ilog2 n - 2) < 8)
division_bounds n le h =
    let e = ilog2 n - 2 in
    let top : ilog2 n ≡ suc (suc e) = omega (arith, ilog2_ge n le h) in
    let four : 2 ^ ilog2 n ≡ 4 * 2 ^ e =
      ap (λ (t : ℕ). 2 ^ t) top ∙ omega (arith, pow-suc 2 e, pow-suc 2 (suc e)) in
    quotient_bounds n (2 ^ e) (one-le-pow e 2 (omega arith))
      (omega (arith, ilog2_bounds n (omega arith) h))
      (omega (arith, ilog2_bounds n (omega arith) h, pow-suc 2 (ilog2 n)))

pub class_offset_mono : (m n : ℕ) → 512 ≤ m → m ≤ n → n < 2 ^ 64 → class_offset m ≤ class_offset n
class_offset_mono m n low le h = elim (eq-or-ne (ilog2 m) (ilog2 n)) [
  | inl same ↦ rw same (
      omega (
        arith,
        quotient_mono m n (2 ^ (ilog2 n - 2)) (one-le-pow (ilog2 n - 2) 2 (omega arith)) le,
      ))
  | inr differ ↦ omega (
    arith,
    ilog2_mono m n (omega arith) le h,
    ilog2_ge m low (omega arith),
    division_bounds m low (omega arith),
    division_bounds n (omega arith) h,
  )
]
