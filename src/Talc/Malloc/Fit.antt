-- ===== src/Talc/Malloc/Fit.antt =====
-- The two tests of `Talc::get_sufficient_chunk`: what they accept has room for the allocation
-- and its tag, and what they reject has not.
use native.Mathlib.Nat.{div-add-mod, mul_assoc, one-le-pow, pow-suc}
use talc.Base.{
  ℕ, zero, suc, ◌+◌, ◌-◌, ◌*◌, ◌/◌, ◌%◌, ◌^◌, ◌≤◌, ◌<◌, ◌≡◌, inl, inr, Option, none, some, arith,
  subst, ap, le-or-lt, leb, if◌then◌else◌, le→leb, lt→leb,
}
use talc.PtrUtils.{align_up_by}
use talc.PtrUtils.Align.{align_up_by-least, align_up_by-lt}
use talc.Talc.Layout.{Layout}
use talc.Talc.SizeClass.{required_chunk_size}
use talc.Talc.SizeClass.Bounds.{required_chunk_size-least}
use talc.Talc.Gaps.View.{Gap, IsRegion}
use talc.Talc.Malloc.{fit_word, fit_aligned}

-- The test that the source makes for a layout.
abbrev pub fit_of : Layout → ℕ → ℕ → Option ℕ
fit_of layout =
    if leb layout.align 8
    then fit_word (required_chunk_size layout.size)
    else fit_aligned layout (required_chunk_size layout.size)

-- A layout whose alignment is the power of two `2 ^ k`, and whose size leaves room for rounding.
pub record IsLayout (layout : Layout) (k : ℕ) : Type 0 where
  pub power : layout.align ≡ 2 ^ k
  pub small : k < 64
  pub fits : layout.size + 15 < 2 ^ 64

-- A place for an allocation of the layout in a gap: aligned, with room for the bytes and a tag.
abbrev pub IsPlace : Layout → Gap → ℕ → Type 0
IsPlace layout g p = (g.base ≤ p) × (p % layout.align ≡ 0) × (p + layout.size + 8 ≤ g.base + g.size)

whole_of_word : (k n : ℕ) → 2 ^ k ≤ 8 → n % 8 ≡ 0 → n % 2 ^ k ≡ 0
whole_of_word zero n h e = omega arith
whole_of_word (suc zero) n h e = omega arith
whole_of_word (suc (suc zero)) n h e = omega arith
whole_of_word (suc (suc (suc zero))) n h e = e
whole_of_word (suc (suc (suc (suc k)))) n h e = absurd (
    omega (
      arith,
      one-le-pow k 2 (omega arith),
      pow-suc 2 (suc (suc (suc k))),
      pow-suc 2 (suc (suc k)),
      pow-suc 2 (suc k),
      pow-suc 2 k,
    ))

word_of_whole : (k n : ℕ) → 8 < 2 ^ k → n % 2 ^ k ≡ 0 → n % 8 ≡ 0
word_of_whole zero n h e = absurd (omega arith)
word_of_whole (suc zero) n h e = absurd (omega arith)
word_of_whole (suc (suc zero)) n h e = absurd (omega arith)
word_of_whole (suc (suc (suc k))) n h e =
    let q = n / 2 ^ suc (suc (suc k)) in
    let power : 2 ^ suc (suc (suc k)) ≡ 8 * 2 ^ k =
      omega (arith, pow-suc 2 (suc (suc k)), pow-suc 2 (suc k), pow-suc 2 k) in
    omega (
      arith,
      div-add-mod n (2 ^ suc (suc (suc k))),
      e,
      ap (λ (x : ℕ). x * q) power,
      mul_assoc 8 (2 ^ k) q,
    )

module _ (bins : ℕ) (layout : Layout) (k : ℕ) (l : IsLayout layout k) (g : Gap)
    (region : IsRegion bins g) (room : g.base + g.size + layout.align ≤ 2 ^ 64) where
  abbrev required : ℕ
  required = required_chunk_size layout.size

  abbrev aligned_ptr : ℕ
  aligned_ptr = align_up_by g.base (layout.align - 1)

  required_least :
      (24 ≤ required)
      × (layout.size + 8 ≤ required)
      × (layout.size + 8 ≤ g.size → required ≤ g.size)
  required_least =
      let r = required_chunk_size-least layout.size g.size l.fits in
      (r.1, r.2, λ h. r.3 region.whole region.large h)

  aligned_least :
      (q : ℕ)
      → (aligned_ptr % layout.align ≡ 0)
        × (g.base ≤ aligned_ptr)
        × (g.base ≤ q → q % layout.align ≡ 0 → aligned_ptr ≤ q)
  aligned_least q = rw l.power (
      align_up_by-least k g.base q l.small
        (subst (λ (a : ℕ). g.base + a ≤ 2 ^ 64) l.power (omega (arith, room))))

  aligned_low : aligned_ptr < g.base + layout.align
  aligned_low = rw l.power (
      align_up_by-lt k g.base l.small
        (subst (λ (a : ℕ). g.base + a ≤ 2 ^ 64) l.power (omega (arith, room))))

  -- Where the chunk is large enough, the end of the allocation and a tag is in the address space.
  within : required ≤ g.size → aligned_ptr + (layout.size + 8) < 2 ^ 64
  within large = omega (arith, aligned_low, required_least, large, room)

  word_sound :
      layout.align ≤ 8 → (p : ℕ) → fit_word required g.base g.size ≡ some p → IsPlace layout g p
  unfolding fit_word
  word_sound le p e =
      let q : (required ≤ g.size) × (p ≡ g.base) = ground arith in
      rw q.1 (
        omega arith,
        rw l.power (whole_of_word k g.base (subst (λ (a : ℕ). a ≤ 8) l.power le) region.aligned),
        omega (arith, required_least.1, q.0),
      )

  word_complete : (p : ℕ) → fit_word required g.base g.size ≡ none → ¬ (IsPlace layout g p)
  unfolding fit_word
  word_complete p e place =
      let small : g.size < required = ground arith in
      omega (arith, small, required_least.2 (omega (arith, place)))

  aligned_sound : (p : ℕ) → fit_aligned layout required g.base g.size ≡ some p → IsPlace layout g p
  unfolding fit_aligned
  aligned_sound p e =
      let large : required ≤ g.size = ground arith in
      let q : ((aligned_ptr + (layout.size + 8)) % 2 ^ 64 ≤ g.base + g.size) × (p ≡ aligned_ptr) =
        ground arith in
      let sum = within large in
      rw q.1 ((aligned_least 0).1, (aligned_least 0).0, omega (arith, q.0, sum))

  aligned_complete :
      (p : ℕ) → fit_aligned layout required g.base g.size ≡ none → ¬ (IsPlace layout g p)
  unfolding fit_aligned
  aligned_complete p e place =
      let large : required ≤ g.size = required_least.2 (omega (arith, place)) in
      let beyond : g.base + g.size < (aligned_ptr + (layout.size + 8)) % 2 ^ 64 = ground arith in
      omega (arith, beyond, within large, (aligned_least p).2 place.0 place.1, place.2)

  -- For a region and a layout of a power-of-two alignment, a size that leaves room for rounding
  -- and an aligned base within the address space, what the test of the search accepts is an
  -- aligned place in the gap with room for the bytes and a tag.
  pub fit-IsPlace : (p : ℕ) → fit_of layout g.base g.size ≡ some p → IsPlace layout g p
  fit-IsPlace p e = elim (le-or-lt layout.align 8) [
    | inl word ↦ word_sound word p (
        subst
          (λ b.
            (if b then fit_word required else fit_aligned layout required) g.base g.size ≡ some p)
          (le→leb _ _ word) e)
    | inr large ↦ aligned_sound p (
        subst
          (λ b.
            (if b then fit_word required else fit_aligned layout required) g.base g.size ≡ some p)
          (lt→leb _ _ large) e)
  ]

  -- Under the same conditions, a gap that the test rejects has no place for the allocation.
  pub no-IsPlace : fit_of layout g.base g.size ≡ none → (p : ℕ) → ¬ (IsPlace layout g p)
  no-IsPlace e p = elim (le-or-lt layout.align 8) [
    | inl word ↦ word_complete p (
        subst
          (λ b. (if b then fit_word required else fit_aligned layout required) g.base g.size ≡ none)
          (le→leb _ _ word) e)
    | inr large ↦ aligned_complete p (
        subst
          (λ b. (if b then fit_word required else fit_aligned layout required) g.base g.size ≡ none)
          (lt→leb _ _ large) e)
  ]

  -- What the test accepts is a whole word's address.
  pub fit-whole : (p : ℕ) → fit_of layout g.base g.size ≡ some p → p % 8 ≡ 0
  unfolding fit_word
  fit-whole p e = elim (le-or-lt layout.align 8) [
    | inl word ↦
        let accepted : fit_word required g.base g.size ≡ some p =
          subst
            (λ b.
              (if b then fit_word required else fit_aligned layout required) g.base g.size ≡ some p)
            (le→leb _ _ word) e in
        let q : p ≡ g.base = ground arith in rw q region.aligned
    | inr large ↦
        word_of_whole k p (subst (λ (a : ℕ). 8 < a) l.power large)
          (subst (λ (a : ℕ). p % a ≡ 0) l.power (fit-IsPlace p e).1)
  ]

-- A gap below the required size is rejected.
pub fit-small :
    (layout : Layout) (g : Gap)
    → g.size < required_chunk_size layout.size
    → fit_of layout g.base g.size ≡ none
unfolding fit_word fit_aligned
fit-small layout g lt = elim (le-or-lt layout.align 8) [
  | inl word ↦ rw (le→leb _ _ word, lt→leb _ _ lt)
  | inr large ↦ rw (lt→leb _ _ large, lt→leb _ _ lt)
]
