-- ===== src/Base/Int.antt =====
-- Signed integers, such as the ids of the database.
use Prim.Native.Nat.{ℕ}
use mathlib.Core.Path.{◌≡◌, refl}
use mathlib.Core.Logic.{◌≢◌}
use mathlib.Core.Bool.{Bool, true, false}
use native.Mathlib.Omega.{arith}
use facebooc.Base.Tests.{◌==◌}

-- `negsuc n` is -(n + 1).
pub data ℤ : Type 0 where
  pos : ℕ → ℤ
  negsuc : ℕ → ℤ

infix 50 ◌==ℤ◌
abbrev pub ◌==ℤ◌ : ℤ → ℤ → Bool
pos m ==ℤ pos n = m == n
pos m ==ℤ negsuc n = false
negsuc m ==ℤ pos n = false
negsuc m ==ℤ negsuc n = m == n

pub ==ℤ_refl : (a : ℤ) → (a ==ℤ a) ≡ true
==ℤ_refl (pos n) = ground arith
==ℤ_refl (negsuc n) = ground arith

pub eq_of_==ℤ : (a b : ℤ) → (a ==ℤ b) ≡ true → a ≡ b
eq_of_==ℤ (pos m) (pos n) h = ground arith
eq_of_==ℤ (pos m) (negsuc n) h = ground arith
eq_of_==ℤ (negsuc m) (pos n) h = ground arith
eq_of_==ℤ (negsuc m) (negsuc n) h = ground arith

pub ==ℤ_ne : (a b : ℤ) → a ≢ b → (a ==ℤ b) ≡ false
==ℤ_ne (pos m) (pos n) h = ground arith
==ℤ_ne (pos m) (negsuc n) h = refl
==ℤ_ne (negsuc m) (pos n) h = refl
==ℤ_ne (negsuc m) (negsuc n) h = ground arith
