-- ===== src/Base/Results.antt =====
-- What is true of the value of a run, if it has one.
use facebooc.Base.Outcome.{Run, ok, fault, stuck, ◌>>=◌}
use mathlib.Core.Path.{◌≡◌, refl, subst}
use facebooc.Base.Tests.{if◌then◌else◌}
use mathlib.Core.Bool.{Bool, true, false}

-- `Q` holds of the value.
abbrev pub Gives : {A : Type 0} → (A → Type 0) → Run A → Type 0
Gives Q (ok a) = Q a
Gives Q fault = Unit
Gives Q stuck = Unit

module _ {A : Type 0} {B : Type 0} where
  pub bind-Gives :
      (Q : A → Type 0) (R : B → Type 0) (r : Run A) (f : A → Run B)
      → Gives Q r
      → ((a : A) → Q a → Gives R (f a))
      → Gives R (r >>= f)
  bind-Gives Q R (ok a) f h g = g a h
  bind-Gives Q R fault f h g = tt
  bind-Gives Q R stuck f h g = tt

  -- The same when nothing is known of the first value.
  pub bind-any :
      (R : B → Type 0) (r : Run A) (f : A → Run B) → ((a : A) → Gives R (f a)) → Gives R (r >>= f)
  bind-any R (ok a) f g = g a
  bind-any R fault f g = tt
  bind-any R stuck f g = tt

module _ {A : Type 0} where
  pub if-Gives :
      (Q : A → Type 0) (b : Bool) (r s : Run A)
      → Gives Q r
      → Gives Q s
      → Gives Q (if b then r else s)
  if-Gives Q true r s h k = h
  if-Gives Q false r s h k = k

  pub Gives-ok : (Q : A → Type 0) (r : Run A) (a : A) → Gives Q r → ◌≡◌ {A = Run A} r (ok a) → Q a
  Gives-ok Q r a h e = subst (Gives Q) e h

  -- What is known of the value, with what it is the value of.
  pub Gives-value :
      (Q : A → Type 0) (r : Run A) → Gives Q r → Gives (λ a. ◌≡◌ {A = Run A} r (ok a) × Q a) r
  Gives-value Q (ok a) h = (refl, h)
  Gives-value Q fault h = tt
  Gives-value Q stuck h = tt

  pub Gives-weaken : (Q R : A → Type 0) (r : Run A) → Gives Q r → ((a : A) → Q a → R a) → Gives R r
  Gives-weaken Q R (ok a) h f = f a h
  Gives-weaken Q R fault h f = tt
  Gives-weaken Q R stuck h f = tt
