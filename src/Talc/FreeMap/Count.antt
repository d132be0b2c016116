-- ===== src/Talc/FreeMap/Count.antt =====
-- How many gaps there can be: those of a list are apart and fill at least three words each, so the
-- address space bounds their number, and with it the fuel that a walk over a bin needs.
use talc.Base.{
  ℕ, zero, suc, ◌+◌, ◌-◌, ◌*◌, ◌^◌, ◌≤◌, ◌<◌, ◌≡◌, refl, inl, inr, Bool, true, not, List, [], ◌∷◌,
  arith, ltb, if◌then◌else◌, Bool-cases,
}
use talc.Base.Lists.{All, All-mono, All-map2, length}
use talc.Talc.State.{Talc}
use talc.Talc.Gaps.View.{Gap, ApartGaps, SeparateGaps, View, Holds}

abbrev keep : (Gap → Bool) → List Gap → List Gap
keep p [] = []
keep p (g ∷ gs) = if p g then g ∷ keep p gs else keep p gs

All-keep :
    (P : Gap → Type 0) (p : Gap → Bool) (gs : List Gap)
    → All P gs
    → All (λ g. P g × (p g ≡ true)) (keep p gs)
All-keep P p [] h = tt
All-keep P p (g ∷ gs) h = elim (Bool-cases (p g)) [
  | inl e ↦ rw e ((h.0, e), All-keep P p gs h.1)
  | inr e ↦ rw e (All-keep P p gs h.1)
]

keep-SeparateGaps : (p : Gap → Bool) (gs : List Gap) → SeparateGaps gs → SeparateGaps (keep p gs)
keep-SeparateGaps p [] h = tt
keep-SeparateGaps p (g ∷ gs) h = elim (Bool-cases (p g)) [
  | inl e ↦ rw e (
    All-mono (keep p gs) (λ x k. k.0) (All-keep (ApartGaps g) p gs h.0),
    keep-SeparateGaps p gs h.1,
  )
  | inr e ↦ rw e (keep-SeparateGaps p gs h.1)
]

length-keep :
    (p : Gap → Bool) (gs : List Gap)
    → length (keep p gs) + length (keep (λ g. not (p g)) gs) ≡ length gs
length-keep p [] = refl
length-keep p (g ∷ gs) = elim (Bool-cases (p g)) [
  | inl e ↦ rw e (omega (arith, length-keep p gs))
  | inr e ↦ rw e (omega (arith, length-keep p gs))
]

abbrev pub Between : ℕ → ℕ → Gap → Type 0
Between lo hi g = (lo ≤ g.base) × (g.base + g.size ≤ hi) × (24 ≤ g.size)

-- By the gaps below the first and those above it; `n` bounds the length.
count-Between :
    (n lo hi : ℕ) (gs : List Gap)
    → length gs ≤ n
    → lo ≤ hi
    → All (Between lo hi) gs
    → SeparateGaps gs
    → 24 * length gs ≤ hi - lo
count-Between n lo hi [] le ord all sep = omega arith
count-Between zero lo hi (g ∷ gs) le ord all sep = absurd (omega arith)
count-Between (suc n) lo hi (g ∷ gs) le ord all sep =
    let is_below : Gap → Bool = λ h. ltb h.base g.base in
    let both : All (λ h. Between lo hi h × ApartGaps g h) gs =
      All-map2 gs (λ h a b. (a, b)) all.1 sep.0 in
    let sum = length-keep is_below gs in
    let lower : 24 * length (keep is_below gs) ≤ g.base - lo =
      count-Between n lo g.base (keep is_below gs) (omega arith) (all.0.0)
        (All-mono (keep is_below gs) (λ h k. ground (arith, k))
          (All-keep (λ h. Between lo hi h × ApartGaps g h) is_below gs both))
        (keep-SeparateGaps is_below gs sep.1) in
    let upper : 24 * length (keep (λ h. not (is_below h)) gs) ≤ hi - (g.base + g.size) =
      count-Between n (g.base + g.size) hi (keep (λ h. not (is_below h)) gs) (omega arith) (all.0.1)
        (All-mono (keep (λ h. not (is_below h)) gs) (λ h k. ground (arith, k))
          (All-keep (λ h. Between lo hi h × ApartGaps g h) (λ h. not (is_below h)) gs both))
        (keep-SeparateGaps (λ h. not (is_below h)) gs sep.1) in
    omega (arith, sum, lower, upper, all.0)

-- No bin of a state that holds a view has `2 ^ 60` gaps.
pub length-Holds :
    (t : Talc) (view : View) → Holds t view → (c : ℕ) → c < 128 → length (view c) < 2 ^ 60
length-Holds t view h c lt = omega (
  arith,
  count-Between (length (view c)) 0 (2 ^ 64) (view c) (omega arith) (omega arith)
      (All-mono (view c) (λ g i. omega (arith, i.large, i.in_word)) (h.gaps c lt))
      (h.separate c lt),
)
