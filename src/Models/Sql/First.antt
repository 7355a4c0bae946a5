-- ===== src/Models/Sql/First.antt =====
-- The first row of a SELECT.
use mathlib.Core.Option
use facebooc.Base.{
  ◌≡◌, refl, sym, inl, inr, Bool, true, false, Option, none, some, List, [], ◌∷◌, ◌++◌, map,
  if◌then◌else◌, arith, Bool-cases, Option-cases, All,
}
use facebooc.Database.{Row}
use facebooc.Models.Sql.{select, any}

module _ {ℓ} {A : Type ℓ} where
  -- The first element that meets a condition.
  unfoldable pub first : (A → Bool) → List A → Option A
  first test [] = none
  first test (x ∷ xs) = let rest = first test xs in if test x then some x else rest

  pub select-none :
      (test : A → Bool) (columns : A → Row) (xs : List A)
      → first test xs ≡ none
      → select test columns xs ≡ []
  unfolding select first
  select-none test columns [] h = refl
  select-none test columns (x ∷ xs) h = ground (arith, select-none test columns xs)

  pub select-some :
      (test : A → Bool) (columns : A → Row) (xs : List A) (a : A)
      → first test xs ≡ some a
      → (rest : List Row) × (select test columns xs ≡ columns a ∷ rest)
  unfolding select first
  select-some test columns [] a h = absurd (cc)
  select-some test columns (x ∷ xs) a h = elim (Bool-cases (test x)) [
    | inl here ↦ (select test columns xs, ground (arith, here, h))
    | inr later ↦ rw later (select-some test columns xs a (ground (arith, later, h)))
  ]

  pub first_of_any : (test : A → Bool) (xs : List A) → any test xs ≡ false → first test xs ≡ none
  unfolding first any
  first_of_any test [] h = refl
  first_of_any test (x ∷ xs) h = ground (arith, first_of_any test xs)

  pub any_of_first : (test : A → Bool) (xs : List A) → first test xs ≡ none → any test xs ≡ false
  unfolding first any
  any_of_first test [] h = refl
  any_of_first test (x ∷ xs) h = ground (arith, any_of_first test xs)

  pub any_of_some :
      (test : A → Bool) (xs : List A) (a : A) → first test xs ≡ some a → any test xs ≡ true
  unfolding first any
  any_of_some test [] a h = absurd (cc)
  any_of_some test (x ∷ xs) a h = ground (arith, any_of_some test xs a)

  pub first-last :
      (test : A → Bool) (xs : List A) (a : A)
      → any test xs ≡ false
      → test a ≡ true
      → first test (xs ++ a ∷ []) ≡ some a
  unfolding first any
  first-last test [] a none_before here = rw here refl
  first-last test (x ∷ xs) a none_before here = ground (arith, first-last test xs a)

  -- Two conditions that agree on a list.
  pub first_ext : (p q : A → Bool) (xs : List A) → All (λ x. p x ≡ q x) xs → first p xs ≡ first q xs
  unfolding first
  first_ext p q [] h = refl
  first_ext p q (x ∷ xs) (here, later) = ground (arith, here, first_ext p q xs later)

  pub any_ext : (p q : A → Bool) (xs : List A) → All (λ x. p x ≡ q x) xs → any p xs ≡ any q xs
  unfolding any
  any_ext p q [] h = refl
  any_ext p q (x ∷ xs) (here, later) = ground (arith, here, any_ext p q xs later)

  pub All-map {κ μ} :
      (P : A → Type κ) (Q : A → Type μ) (xs : List A) → ((x : A) → P x → Q x) → All P xs → All Q xs
  All-map P Q [] f h = tt
  All-map P Q (x ∷ xs) f (here, later) = (f x here, All-map P Q xs f later)

pub some_injective {ℓ} : {A : Type ℓ} (x a : A) → some x ≡ some a → x ≡ a
some_injective x a h = cc

module _ {ℓ κ} {A : Type ℓ} {B : Type κ} (f : A → B) where
  pub first-map :
      (test : B → Bool) (xs : List A)
      → first test (map f xs) ≡ Option.map f (first (λ x. test (f x)) xs)
  unfolding first
  first-map test [] = refl
  first-map test (x ∷ xs) = ground (arith, first-map test xs)

  pub any-map : (test : B → Bool) (xs : List A) → any test (map f xs) ≡ any (λ x. test (f x)) xs
  unfolding any
  any-map test [] = refl
  any-map test (x ∷ xs) = ground (arith, any-map test xs)

  pub select-map :
      (test : B → Bool) (columns : B → Row) (xs : List A)
      → select test columns (map f xs) ≡ select (λ x. test (f x)) (λ x. columns (f x)) xs
  unfolding select
  select-map test columns [] = refl
  select-map test columns (x ∷ xs) = ground (arith, select-map test columns xs)

module _ {ℓ μ} {A : Type ℓ} (P : A → Type μ) (test : A → Bool) where
  meets_same : (x a : A) → some x ≡ some a → P x × (test x ≡ true) → P a × (test a ≡ true)
  meets_same x a same h = rw (sym (some_injective x a same)) h

  pub first_meets :
      (xs : List A) (a : A) → All P xs → first test xs ≡ some a → P a × (test a ≡ true)
  unfolding first
  first_meets [] a ps h = absurd (cc)
  first_meets (x ∷ xs) a (here, later) h = elim (Bool-cases (test x)) [
    | inl it ↦ meets_same x a (ground (arith, it, h)) (here, it)
    | inr other ↦ first_meets xs a later (ground (arith, other, h))
  ]

module _ {ℓ κ μ} {A : Type ℓ} {X : Type κ} (P : A → Type μ) (test : A → Bool)
    (columns : A → Row) where
  -- What looks at the first row of a SELECT only.
  pub select-first :
      (rows_to : List Row → X) (found : Option A → X) (xs : List A)
      → All P xs
      → rows_to [] ≡ found none
      → ((a : A) (rest : List Row)
          → P a
          → test a ≡ true
          → rows_to (columns a ∷ rest) ≡ found (some a))
      → rows_to (select test columns xs) ≡ found (first test xs)
  select-first rows_to found xs ps missing here = elim (Option-cases (first test xs)) [
    | inl none_meets ↦ rw (select-none test columns xs none_meets, none_meets) missing
    | inr (a, meets) ↦
        let p = first_meets P test xs a ps meets in
        rw ((select-some test columns xs a meets).1, meets)
          (here a (select-some test columns xs a meets).0 p.0 p.1)
  ]

All-trivial {ℓ} : {A : Type ℓ} (xs : List A) → All {ℓ, 0} (λ x. Unit) xs
All-trivial [] = tt
All-trivial (x ∷ xs) = (tt, All-trivial xs)

-- The same for rows of which nothing is known.
pub select-first_row {ℓ κ} :
    {A : Type ℓ} {X : Type κ} (test : A → Bool) (columns : A → Row) (rows_to : List Row → X)
    (found : Option A → X) (xs : List A)
    → rows_to [] ≡ found none
    → ((a : A) (rest : List Row) → test a ≡ true → rows_to (columns a ∷ rest) ≡ found (some a))
    → rows_to (select test columns xs) ≡ found (first test xs)
select-first_row test columns rows_to found xs missing here =
    select-first (λ x. Unit) test columns rows_to found xs (All-trivial xs) missing
      (λ a rest u. here a rest)

-- What holds of the rows of a SELECT, by the first row that meets its condition.
pub select_cases {ℓ κ} :
    {A : Type ℓ} (P : List Row → Type κ) (test : A → Bool) (columns : A → Row) (xs : List A)
    → P []
    → ((a : A) (rest : List Row) → first test xs ≡ some a → P (columns a ∷ rest))
    → P (select test columns xs)
select_cases P test columns xs missing here = elim (Option-cases (first test xs)) [
  | inl none_meets ↦ rw (select-none test columns xs none_meets) missing
  | inr (a, meets) ↦ let r = select-some test columns xs a meets in rw r.1 (here a r.0 meets)
]
