-- ===== src/Base/Outcome.antt =====
-- Results of C code that may touch memory that it does not own, or run for ever.

-- `fault` is an access out of bounds or through an invalid pointer, `stuck` a loop that goes on past
-- its fuel.
pub data Run {ℓ} (A : Type ℓ) : Type ℓ where
  ok : A → Run A
  fault : Run A
  stuck : Run A

infixl 5 ◌>>=◌
abbrev pub ◌>>=◌ {ℓ κ} : {A : Type ℓ} {B : Type κ} → Run A → (A → Run B) → Run B
ok a >>= f = f a
fault >>= f = fault
stuck >>= f = stuck
