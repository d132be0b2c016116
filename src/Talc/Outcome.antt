-- ===== src/Talc/Outcome.antt =====
-- How a call of a fallible operation ends: with a value or an `Err`, each with the state that the
-- call leaves behind, with a panic, or, in a model that counts its rounds, with no fuel left.
pub data Outcome (S A : Type 0) : Type 0 where
  ok : A → S → Outcome S A
  err : S → Outcome S A
  panic out_of_fuel : Outcome S A

infixl 5 ◌>>=◌
abbrev pub ◌>>=◌ : {S A B : Type 0} → Outcome S A → (A → S → Outcome S B) → Outcome S B
ok a s >>= f = f a s
err s >>= f = err s
panic >>= f = panic
out_of_fuel >>= f = out_of_fuel
