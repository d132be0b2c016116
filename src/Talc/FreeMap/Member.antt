-- ===== src/Talc/FreeMap/Member.antt =====
-- The gaps of a view as a map: the size of the gap that begins at an address, or zero.
use talc.Base.{
  ◌≤◌, ℕ, ◌<◌, ◌≡◌, refl, ◌≢◌, ◌⊎◌, inl, inr, List, [], ◌∷◌, ◌++◌, arith, ◌==◌, if◌then◌else◌, ap,
  sym, subst, eq-or-ne, ne→==, eq→==,
}
use talc.Base.Lists.{All, All-mono, All-map2, All-append}
use talc.Talc.State.{Talc}
use talc.Talc.SizeClass.{bin_of_size}
use talc.Talc.SizeClass.Bounds.{bin_of_size-lt}
use talc.Talc.Gaps.View.{Gap, gap, ApartGaps, SeparateGaps, IsGap, View, Holds, without-All}
use talc.Talc.Gaps.Update.{put, by_bin}

-- The gap is one of the list.
abbrev pub IsIn : Gap → List Gap → Type 0
IsIn g [] = ⊥
IsIn g (x ∷ xs) = (g ≡ x) ⊎ IsIn g xs

pub All-IsIn : (P : Gap → Type 0) (g : Gap) (xs : List Gap) → All P xs → IsIn g xs → P g
All-IsIn P g [] h i = elim i [ ]
All-IsIn P g (x ∷ xs) h (inl e) = subst P (sym e) h.0
All-IsIn P g (x ∷ xs) h (inr i) = All-IsIn P g xs h.1 i

-- A gap of a list splits it.
pub record Split (g : Gap) (xs : List Gap) : Type 0 where
  pub before : List Gap
  pub after : List Gap
  pub split : xs ≡ before ++ g ∷ after

pub IsIn-Split : (g : Gap) (xs : List Gap) → IsIn g xs → Split g xs
IsIn-Split g [] i = elim i [ ]
IsIn-Split g (x ∷ xs) (inl e) = record { before = []; after = xs; split = ap (λ y. y ∷ xs) (sym e) }
IsIn-Split g (x ∷ xs) (inr i) =
    let s = IsIn-Split g xs i in
    record { before = x ∷ s.before; after = s.after; split = ap (λ l. x ∷ l) s.split }

pub without-IsIn :
    (x : Gap) (gs : List Gap) (g : Gap) (hs : List Gap)
    → x.base ≢ g.base
    → IsIn x (gs ++ g ∷ hs)
    → IsIn x (gs ++ hs)
without-IsIn x [] g hs ne (inl e) = absurd (ne (ap (λ (y : Gap). y.base) e))
without-IsIn x [] g hs ne (inr i) = i
without-IsIn x (y ∷ gs) g hs ne (inl e) = inl e
without-IsIn x (y ∷ gs) g hs ne (inr i) = inr (without-IsIn x gs g hs ne i)

-- A gap of a list is apart from the others.
pub others-ApartGaps :
    (gs : List Gap) (g : Gap) (hs : List Gap)
    → SeparateGaps (gs ++ g ∷ hs)
    → All (ApartGaps g) (gs ++ hs)
others-ApartGaps [] g hs sep = sep.0
others-ApartGaps (x ∷ gs) g hs sep =
    let x_g = (All-append (ApartGaps x) gs (g ∷ hs) sep.0).1.0 in
    (omega (arith, x_g), others-ApartGaps gs g hs sep.1)

-- The map with the entry at `a` replaced.
abbrev pub entry : ℕ → ℕ → (ℕ → ℕ) → ℕ → ℕ
entry a n f x = if x == a then n else f x

-- The view's gaps are those of the map, each in the bin of its size.
pub record Lists (view : View) (f : ℕ → ℕ) : Type 0 where
  pub large : (a : ℕ) → f a ≢ 0 → 24 ≤ f a
  pub listed : (b : ℕ) → b < 128 → All (λ g. f g.base ≡ g.size) (view b)
  pub complete : (a : ℕ) → f a ≢ 0 → IsIn (gap a (f a)) (view (bin_of_size (f a)))

pub Lists-entry :
    (view : View) (f : ℕ → ℕ) (a n : ℕ)
    → Lists view f
    → 24 ≤ n
    → f a ≡ 0
    → ((b : ℕ) → b < 128 → All (λ g. g.base ≢ a) (view b))
    → Lists (put (bin_of_size n) (gap a n ∷ view (bin_of_size n)) view) (entry a n f)
Lists-entry view f a n l least clear off = record {
  large = λ x ne. ground (arith, least, l.large x);
  listed =
      by_bin (bin_of_size n) (gap a n ∷ view (bin_of_size n)) view
        (λ b gs. All (λ g. entry a n f g.base ≡ g.size) gs)
        (ground arith, kept (bin_of_size n) (bin_of_size-lt n least)) (λ b lt ne. kept b lt);
  complete = λ x ne. elim (eq-or-ne x a) [
    | inl e ↦ found x e
    | inr other ↦
        rw (ne→== x a other)
          (still x (subst (λ (m : ℕ). m ≢ 0) (ap (λ b. if b then n else f x) (ne→== x a other)) ne))
  ];
}
  where
    kept : (b : ℕ) → b < 128 → All (λ g. entry a n f g.base ≡ g.size) (view b)
    kept b lt = All-map2 (view b) (λ g e ne. ground arith) (l.listed b lt) (off b lt)

    found :
        (x : ℕ)
        → x ≡ a
        → IsIn (gap x (entry a n f x)) (
            put (bin_of_size n) (gap a n ∷ view (bin_of_size n)) view (bin_of_size (entry a n f x)))
    found x e =
        rw (eq→== x a e)
          (rw (eq→== (bin_of_size n) (bin_of_size n) refl) (inl (ap (λ y. gap y n) e)))

    still :
        (x : ℕ)
        → f x ≢ 0
        → IsIn
            (gap x (f x))
            (put (bin_of_size n) (gap a n ∷ view (bin_of_size n)) view (bin_of_size (f x)))
    still x ne = elim (eq-or-ne (bin_of_size (f x)) (bin_of_size n)) [
      | inl e ↦
          rw (eq→== (bin_of_size (f x)) (bin_of_size n) e)
            (inr (subst (λ b. IsIn (gap x (f x)) (view b)) e (l.complete x ne)))
      | inr other ↦ rw (ne→== (bin_of_size (f x)) (bin_of_size n) other) (l.complete x ne)
    ]

module _ (t : Talc) (view : View) (h : Holds t view) (f : ℕ → ℕ) (l : Lists view f) (b : ℕ)
    (in_range : b < 128) (gs : List Gap) (g : Gap) (hs : List Gap)
    (here : view b ≡ gs ++ g ∷ hs) where
  -- The other gaps begin elsewhere.
  apart_here : All (λ x. (f x.base ≡ x.size) × (x.base ≢ g.base)) (gs ++ hs)
  apart_here =
      let all =
        subst (All (λ x. IsGap t.mem t.bins b x × (f x.base ≡ x.size))) here
          (All-map2 (view b) (λ x k e. (k, e)) (h.gaps b in_range) (l.listed b in_range)) in
      let its =
        (All-append (λ x. IsGap t.mem t.bins b x × (f x.base ≡ x.size)) gs (g ∷ hs) all).1.0 in
      All-map2 (gs ++ hs) (λ x (k, e) a. (e, omega (arith, a, k.large, its.0.large)))
        (without-All (λ x. IsGap t.mem t.bins b x × (f x.base ≡ x.size)) gs g hs all)
        (others-ApartGaps gs g hs (subst SeparateGaps here (h.separate b in_range)))

  apart_there :
      (c : ℕ) → c < 128 → c ≢ b → All (λ x. (f x.base ≡ x.size) × (x.base ≢ g.base)) (view c)
  apart_there c lt ne =
      let its =
        (All-append (IsGap t.mem t.bins b) gs (g ∷ hs)
          (subst (All (IsGap t.mem t.bins b)) here (h.gaps b in_range))).1.0 in
      let across =
        (All-append (λ x. All (ApartGaps x) (view c)) gs (g ∷ hs)
          (subst (All (λ x. All (ApartGaps x) (view c))) here
            (h.across b c in_range lt (λ e. ne (sym e))))).1.0 in
      All-map2 {P = λ x. IsGap t.mem t.bins c x × (f x.base ≡ x.size)} (view c)
        (λ x (k, e) a. (e, omega (arith, a, k.large, its.large)))
        (All-map2 {R = λ x. IsGap t.mem t.bins c x × (f x.base ≡ x.size)} (view c) (λ x k e. (k, e))
          (h.gaps c lt) (l.listed c lt))
        across

  pub Lists-cleared : Lists (put b (gs ++ hs) view) (entry g.base 0 f)
  Lists-cleared = record {
    large = λ x ne. ground (arith, l.large x);
    listed =
        by_bin b (gs ++ hs) view (λ c xs. All (λ x. entry g.base 0 f x.base ≡ x.size) xs)
          (All-mono (gs ++ hs) (λ x (e, ne). ground arith) apart_here)
          (λ c lt ne. All-mono (view c) (λ x (e, ne). ground arith) (apart_there c lt ne));
    complete = λ x ne. elim (eq-or-ne x g.base) [
      | inl e ↦ absurd (ne (ap (λ b. if b then 0 else f x) (eq→== x g.base e)))
      | inr other ↦ rw (ne→== x g.base other) (
          still x other
            (subst (λ (m : ℕ). m ≢ 0) (ap (λ b. if b then 0 else f x) (ne→== x g.base other)) ne))
    ];
  }
    where
      still :
          (x : ℕ)
          → x ≢ g.base
          → f x ≢ 0
          → IsIn (gap x (f x)) (put b (gs ++ hs) view (bin_of_size (f x)))
      still x other ne = elim (eq-or-ne (bin_of_size (f x)) b) [
        | inl e ↦ rw (eq→== (bin_of_size (f x)) b e) (
            without-IsIn (gap x (f x)) gs g hs other (
              subst (IsIn (gap x (f x))) here
                (subst (λ c. IsIn (gap x (f x)) (view c)) e (l.complete x ne))))
        | inr apart ↦ rw (ne→== (bin_of_size (f x)) b apart) (l.complete x ne)
      ]
