-- ===== src/Base/Lists.antt =====
-- Lists measured by native numbers, and a property of all elements as a tuple.
use Prim.Native.Nat.{ℕ, suc, ◌+◌}
use mathlib.Core.Path.{◌≡◌, refl, sym, ap, subst}
use mathlib.Core.Logic.{◌⊎◌, inl, inr}
use mathlib.Core.List.{List, [], ◌∷◌, ◌++◌}
use native.Mathlib.Omega.{arith}

module _ {ℓ} {A : Type ℓ} where
  abbrev pub length : List A → ℕ
  length [] = 0
  length (x ∷ xs) = suc (length xs)

  pub length-append : (xs ys : List A) → length (xs ++ ys) ≡ length xs + length ys
  length-append [] ys = omega arith
  length-append (x ∷ xs) ys = omega (arith, length-append xs ys)

module _ {ℓ κ} {A : Type ℓ} where
  abbrev pub All : (A → Type κ) → List A → Type κ
  All P [] = Unit
  All P (x ∷ xs) = P x × All P xs

  pub All-mono : {P Q : A → Type κ} (xs : List A) → ((x : A) → P x → Q x) → All P xs → All Q xs
  All-mono [] f h = tt
  All-mono (x ∷ xs) f h = (f x h.0, All-mono xs f h.1)

  pub All-append : (P : A → Type κ) (xs ys : List A) → All P (xs ++ ys) → All P xs × All P ys
  All-append P [] ys h = (tt, h)
  All-append P (x ∷ xs) ys h = ((h.0, (All-append P xs ys h.1).0), (All-append P xs ys h.1).1)

  pub append-All : (P : A → Type κ) (xs ys : List A) → All P xs → All P ys → All P (xs ++ ys)
  append-All P [] ys h k = k
  append-All P (x ∷ xs) ys h k = (h.0, append-All P xs ys h.1 k)

  pub All-map2 :
      {P Q R : A → Type κ} (xs : List A)
      → ((x : A) → P x → Q x → R x)
      → All P xs
      → All Q xs
      → All R xs
  All-map2 [] f h k = tt
  All-map2 (x ∷ xs) f h k = (f x h.0 k.0, All-map2 xs f h.1 k.1)

  pub All-of : (P : A → Type κ) (xs : List A) → ((x : A) → P x) → All P xs
  All-of P [] f = tt
  All-of P (x ∷ xs) f = (f x, All-of P xs f)

module _ {ℓ} {A : Type ℓ} where
  -- `x` is an element of the list, and the list around it.
  abbrev pub IsElement : A → List A → Type ℓ
  IsElement x [] = Unit {ℓ} → ⊥
  IsElement x (y ∷ ys) = (x ≡ y) ⊎ IsElement x ys

  pub record Around (x : A) (xs : List A) : Type ℓ where
    pub before : List A
    pub after : List A
    pub split : xs ≡ before ++ x ∷ after

  pub IsElement-Around : (x : A) (xs : List A) → IsElement x xs → Around x xs
  IsElement-Around x [] i = absurd (i tt)
  IsElement-Around x (y ∷ ys) (inl e) = record {
    before = [];
    after = ys;
    split = ap (λ z. z ∷ ys) (sym e);
  }
  IsElement-Around x (y ∷ ys) (inr i) =
      let s = IsElement-Around x ys i in
      record { before = y ∷ s.before; after = s.after; split = ap (λ l. y ∷ l) s.split }

  pub middle-IsElement : (xs : List A) (x : A) (ys : List A) → IsElement x (xs ++ x ∷ ys)
  middle-IsElement [] x ys = inl refl
  middle-IsElement (y ∷ xs) x ys = inr (middle-IsElement xs x ys)

  -- An element other than the one in the middle.
  pub other-IsElement :
      (y : A) (xs : List A) (x : A) (ys : List A)
      → ¬ (y ≡ x)
      → IsElement y (xs ++ x ∷ ys)
      → IsElement y (xs ++ ys)
  other-IsElement y [] x ys ne (inl e) = absurd (ne e)
  other-IsElement y [] x ys ne (inr i) = i
  other-IsElement y (z ∷ xs) x ys ne (inl e) = inl e
  other-IsElement y (z ∷ xs) x ys ne (inr i) = inr (other-IsElement y xs x ys ne i)

module _ {ℓ κ} {A : Type ℓ} where
  pub All-IsElement : (P : A → Type κ) (x : A) (xs : List A) → All P xs → IsElement x xs → P x
  All-IsElement P x [] h i = absurd (i tt)
  All-IsElement P x (y ∷ ys) h (inl e) = subst P (sym e) h.0
  All-IsElement P x (y ∷ ys) h (inr i) = All-IsElement P x ys h.1 i
