-- ===== src/Models/Sql/Distinct.antt =====
-- Lists whose elements differ in a key.
use facebooc.Base.{
  ◌≡◌, refl, sym, ◌∙◌, inl, inr, ◌⊎◌, Bool, true, false, some, List, [], ◌∷◌, ◌++◌, if◌then◌else◌,
  arith, Bool-cases,
}
use facebooc.Models.Sql.{any}
use facebooc.Models.Sql.First.{first, some_injective}

module _ {A : Type 0} where
  -- An element of a list.
  abbrev pub Member : A → List A → Type 0
  Member x [] = ⊥
  Member x (y ∷ ys) = (x ≡ y) ⊎ Member x ys

  pub any-append :
      (test : A → Bool) (xs ys : List A)
      → any test (xs ++ ys) ≡ (if any test xs then true else any test ys)
  unfolding any
  any-append test [] ys = refl
  any-append test (x ∷ xs) ys = ground (arith, any-append test xs ys)

  pub any_of_Member :
      (test : A → Bool) (x : A) (xs : List A) → Member x xs → test x ≡ true → any test xs ≡ true
  unfolding any
  any_of_Member test x [] is h = absurd is
  any_of_Member test x (y ∷ ys) (inl same) h = rw (sym same, h) refl
  any_of_Member test x (y ∷ ys) (inr later) h = ground (arith, any_of_Member test x ys later h)

  pub first-Member : (test : A → Bool) (xs : List A) (a : A) → first test xs ≡ some a → Member a xs
  unfolding first
  first-Member test [] a h = absurd (cc)
  first-Member test (x ∷ xs) a h = elim (Bool-cases (test x)) [
    | inl meets ↦ inl (some_injective a x (ground (arith, meets, h)))
    | inr other ↦ inr (first-Member test xs a (ground (arith, other, h)))
  ]

  pub Member-append : (x : A) (xs ys : List A) → Member x xs → Member x (xs ++ ys)
  Member-append x [] ys is = absurd is
  Member-append x (z ∷ xs) ys (inl same) = inl same
  Member-append x (z ∷ xs) ys (inr later) = inr (Member-append x xs ys later)

module _ {A : Type 0} (eq : A → A → Bool) where
  -- No element has the key of a later one.
  abbrev pub Distinct : List A → Type 0
  Distinct [] = Unit
  Distinct (x ∷ xs) = (any (λ y. eq y x) xs ≡ false) × Distinct xs

  pub Distinct-last :
      (xs : List A) (x : A)
      → ((a b : A) → eq a b ≡ false → eq b a ≡ false)
      → Distinct xs
      → any (λ y. eq y x) xs ≡ false
      → Distinct (xs ++ x ∷ [])
  unfolding any
  Distinct-last [] x swap d h = (refl, tt)
  Distinct-last (a ∷ xs) x swap (here, later) h = elim (Bool-cases (eq a x)) [
    | inl same ↦ absurd (ground (arith, same, h))
    | inr other ↦ (
      any-append (λ y. eq y a) xs (x ∷ []) ∙ rw (here, swap a x other) refl,
      Distinct-last xs x swap later (ground (arith, other, h)),
    )
  ]

  back : (a x : A) → ((a b : A) → eq a b ≡ false → eq b a ≡ false) → eq a x ≡ true → eq x a ≡ true
  back a x swap h = elim (Bool-cases (eq x a)) [
    | inl it ↦ it
    | inr other ↦ absurd (cc (h, swap x a other))
  ]

  -- The first element with the key of a member is the member.
  pub first_of_Member :
      (xs : List A) (x : A)
      → ((a b : A) → eq a b ≡ false → eq b a ≡ false)
      → (eq x x ≡ true)
      → Distinct xs
      → Member x xs
      → first (λ y. eq y x) xs ≡ some x
  unfolding first
  first_of_Member [] x swap same d is = absurd is
  first_of_Member (a ∷ xs) x swap same (here, later) (inl is) = rw (sym is, same) refl
  first_of_Member (a ∷ xs) x swap same (here, later) (inr in_rest) = elim (Bool-cases (eq a x)) [
    | inl both ↦ absurd (cc (here, any_of_Member (λ y. eq y a) x xs in_rest (back a x swap both)))
    | inr other ↦ rw other (first_of_Member xs x swap same later in_rest)
  ]
