-- ===== src/HashMap/Only.antt =====
-- Slots that differ in a part of their pairs: in the pointer, or in the key.
use facebooc.Base.{
  ℕ, suc, ◌<◌, ◌≡◌, ◌≢◌, ap, sym, ◌∙◌, ◌⊎◌, inl, inr, some, none, ◌∷◌, length, set, ◌==◌, arith,
  Bool-cases, get_or-set_self, get_or-set_ne, ==_iff, ==_ne, Option, Option-cases, refl,
}
use facebooc.HashMap.{SPair, Entries, slot, holds}
use facebooc.HashMap.Move.{IsNew}

module _ {ℓ κ} {V : Type ℓ} {B : Type κ} (f : SPair V → B) where
  -- No two slots agree in the part.
  abbrev pub IsOnly : Entries V → Type (ℓ ⊔ κ)
  IsOnly entries =
      (i j : ℕ) (x y : SPair V)
      → slot entries i ≡ some x
      → slot entries j ≡ some y
      → f x ≡ f y
      → i ≡ j

  -- No slot agrees with the pair in the part.
  abbrev pub IsAway : Entries V → SPair V → Type (ℓ ⊔ κ)
  IsAway entries p = (i : ℕ) (x : SPair V) → slot entries i ≡ some x → f x ≢ f p

  -- No slot of the one agrees with a slot of the other.
  abbrev pub AreAway : Entries V → Entries V → Type (ℓ ⊔ κ)
  AreAway old entries = (i : ℕ) (x : SPair V) → slot old i ≡ some x → IsAway entries x

module _ {ℓ} {V : Type ℓ} where
  -- A pair in the array after a write is the one written, or was there before.
  pub slot-set :
      (entries : Entries V) (at i : ℕ) (p x : SPair V)
      → at < length entries
      → slot (set entries at (some p)) i ≡ some x
      → ((i ≡ at) × (x ≡ p)) ⊎ (slot entries i ≡ some x)
  slot-set entries at i p x below e = elim (Bool-cases (at == i)) [
    | inl here ↦
        let h : at ≡ i = (==_iff at i).0 here in
        let w = get_or-set_self entries at (some p) none below in
        inl (sym h, ground (arith, ap (slot (set entries at (some p))) h))
    | inr elsewhere ↦ inr (sym (get_or-set_ne entries at i (some p) none (λ h. ground arith)) ∙ e)
  ]

module _ {ℓ κ} {V : Type ℓ} {B : Type κ} (f : SPair V → B) (entries : Entries V) (at : ℕ)
    (p : SPair V) (below : at < length entries) where
  pub set-IsOnly : IsOnly f entries → IsAway f entries p → IsOnly f (set entries at (some p))
  set-IsOnly only away i j x y hx hy same =
      pick (slot-set entries at i p x below hx) (slot-set entries at j p y below hy)
    where
      pick :
          ((i ≡ at) × (x ≡ p)) ⊎ (slot entries i ≡ some x)
          → ((j ≡ at) × (y ≡ p)) ⊎ (slot entries j ≡ some y)
          → i ≡ j
      pick (inl (hi, _)) (inl (hj, _)) = hi ∙ sym hj
      pick (inl (_, ex)) (inr oy) = absurd (away j y oy (sym same ∙ ap f ex))
      pick (inr ox) (inl (_, ey)) = absurd (away i x ox (same ∙ ap f ey))
      pick (inr ox) (inr oy) = only i j x y ox oy same

  pub set-IsAway :
      (q : SPair V) → IsAway f entries q → f p ≢ f q → IsAway f (set entries at (some p)) q
  set-IsAway q away apart i x hx same = pick (slot-set entries at i p x below hx)
    where
      pick : ((i ≡ at) × (x ≡ p)) ⊎ (slot entries i ≡ some x) → ⊥
      pick (inl (_, ex)) = apart (sym (ap f ex) ∙ same)
      pick (inr ox) = away i x ox same

module _ {ℓ κ} {V : Type ℓ} {B : Type κ} (f : SPair V → B) where
  pub tail-IsOnly :
      (o : Option (SPair V)) (entries : Entries V) → IsOnly f (o ∷ entries) → IsOnly f entries
  tail-IsOnly o entries only i j x y hx hy same = omega (arith, only (suc i) (suc j) x y hx hy same)

  pub head-IsAway :
      (x : SPair V) (entries : Entries V) → IsOnly f (some x ∷ entries) → IsAway f entries x
  head-IsAway x entries only i y hy same = absurd (omega (arith, only (suc i) 0 y x hy refl same))

module _ {ℓ} {V : Type ℓ} where
  -- A pointer that no slot has is in no slot.
  pub IsNew-of_IsAway :
      (entries : Entries V) (p : SPair V) → IsAway (λ x. x.addr) entries p → IsNew entries p
  unfolding holds
  IsNew-of_IsAway entries p away i = elim (Option-cases (slot entries i)) [
    | inl e ↦ rw e
    | inr (x, e) ↦ rw e (==_ne x.addr p.addr (away i x e))
  ]
