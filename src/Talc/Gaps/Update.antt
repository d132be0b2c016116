-- ===== src/Talc/Gaps/Update.antt =====
-- Views that differ in one bin, and what is shown of all bins from that bin and the others.
use talc.Base.{
  ℕ, ◌<◌, refl, ◌≢◌, inl, inr, List, [], ◌∷◌, arith, ◌==◌, if◌then◌else◌, sym, subst, eq-or-ne,
  ne→==, eq→==,
}
use talc.Base.Lists.{All, All-map2, All-of}
use talc.Talc.Gaps.View.{Gap, ApartGaps, View}

-- The view with the gaps of bin `b` replaced.
abbrev pub put : ℕ → List Gap → View → View
put b gs view c = if c == b then gs else view c

-- All gaps of one list are apart from all of another.
abbrev pub Across : List Gap → List Gap → Type 0
Across gs hs = All (λ x. All (ApartGaps x) hs) gs

pub Across-symm : (gs hs : List Gap) → Across gs hs → Across hs gs
Across-symm [] hs h = All-of (λ x. Unit) hs (λ x. tt)
Across-symm (g ∷ gs) hs h = All-map2 hs (λ y a r. (omega (arith, a), r)) h.0 (Across-symm gs hs h.1)

module _ (b : ℕ) (gs : List Gap) (view : View) where
  pub by_bin :
      (P : ℕ → List Gap → Type 0)
      → P b gs
      → ((c : ℕ) → c < 128 → c ≢ b → P c (view c))
      → (c : ℕ) → c < 128
      → P c (put b gs view c)
  by_bin P here other c lt = elim (eq-or-ne c b) [
    | inl e ↦ subst (λ d. P d (put b gs view d)) (sym e) (rw (eq→== b b refl) here)
    | inr ne ↦ rw (ne→== c b ne) (other c lt ne)
  ]

  pub put-Across :
      ((c d : ℕ) → c < 128 → d < 128 → c ≢ d → Across (view c) (view d))
      → ((c : ℕ) → c < 128 → c ≢ b → Across gs (view c))
      → (c : ℕ) → c < 128
      → (d : ℕ) → d < 128
      → c ≢ d
      → Across (put b gs view c) (put b gs view d)
  put-Across old new =
      by_bin (λ c xs. (d : ℕ) → d < 128 → c ≢ d → Across xs (put b gs view d))
        (by_bin (λ d ys. b ≢ d → Across gs ys) (λ ne. absurd (ne refl)) (λ d lt ne _. new d lt ne))
        (λ c lt ne.
          by_bin (λ d ys. c ≢ d → Across (view c) ys) (λ _. Across-symm gs (view c) (new c lt ne))
            (λ d lt' ne' ne''. old c d lt lt' ne''))
