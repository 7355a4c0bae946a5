-- ===== src/Utility/Search/Separator.antt =====
-- The search for a separator of two bytes, as `header_parser` and `cookies_parser` use it.
use facebooc.Base.{
  ℕ, zero, suc, ◌+◌, ◌≤◌, ◌<◌, ◌≡◌, ◌≢◌, refl, ap, sym, ◌∙◌, inl, inr, Option, none, some, [], ◌∷◌,
  ◌++◌, Bytes, length, get_or, Lacks, ok, arith, ltb, Bool-cases, length-append, get_or-append,
}
use facebooc.Utility.Search.{boyer_moore, find_first_of}
use facebooc.Utility.Search.First.{Matches, IsFirst, IsAscii, boyer_moore-IsFirst}

get_or-front : (xs ys : Bytes) (i : ℕ) → i < length xs → get_or (xs ++ ys) i 0 ≡ get_or xs i 0
get_or-front [] ys i h = absurd (omega arith)
get_or-front (x ∷ xs) ys zero h = refl
get_or-front (x ∷ xs) ys (suc i) h = get_or-front xs ys i (omega arith)

get_or-Lacks : (xs : Bytes) (a i : ℕ) → Lacks a xs → i < length xs → get_or xs i 0 ≢ a
get_or-Lacks [] a i h below = absurd (omega arith)
get_or-Lacks (x ∷ xs) a zero h below = h.0
get_or-Lacks (x ∷ xs) a (suc i) h below = get_or-Lacks xs a i h.1 (omega arith)

module _ (line rest : Bytes) (a b : ℕ) where
  Matches-separator : Matches (line ++ a ∷ b ∷ rest) (a ∷ b ∷ []) (length line)
  Matches-separator = record { fits = omega (arith, length-append line (a ∷ b ∷ rest)); same = at }
    where
      at :
          (i : ℕ)
          → i < 2
          → get_or (a ∷ b ∷ []) i 0 ≡ get_or (line ++ a ∷ b ∷ rest) (length line + i) 0
      at zero h = sym (get_or-append line (a ∷ b ∷ rest) 0 0)
      at (suc zero) h = sym (get_or-append line (a ∷ b ∷ rest) 1 0)
      at (suc (suc i)) h = absurd (omega arith)

  -- No match begins in the line.
  not_before :
      (s : ℕ) → Lacks a line → Matches (line ++ a ∷ b ∷ rest) (a ∷ b ∷ []) s → length line ≤ s
  not_before s lacks m = elim (Bool-cases (ltb s (length line))) [
    | inl before ↦
        let here : s < length line = ground arith in
        let same : s ≡ s + 0 = omega arith in
        absurd (
          get_or-Lacks line a s lacks here (
            sym (get_or-front line (a ∷ b ∷ rest) s here)
            ∙ ap (λ n. get_or (line ++ a ∷ b ∷ rest) n 0) same
            ∙ sym (m.same 0 (omega arith))))
    | inr later ↦ ground arith
  ]

  IsFirst-separator :
      (o : Option ℕ)
      → Lacks a line
      → IsFirst (line ++ a ∷ b ∷ rest) (a ∷ b ∷ []) o
      → o ≡ some (length line)
  IsFirst-separator none lacks first = absurd (first (length line) Matches-separator)
  IsFirst-separator (some r) lacks (m, before) = elim (Bool-cases (ltb (length line) r)) [
    | inl late ↦ absurd (before (length line) (ground arith) Matches-separator)
    | inr soon ↦ let same : r ≡ length line = ground (arith, not_before r lacks m) in ap some same
  ]

  find-boyer_moore :
      (l : Bytes)
      → find_first_of (l ++ a ∷ b ∷ rest) (a ∷ b ∷ [])
        ≡ boyer_moore (l ++ a ∷ b ∷ rest) (a ∷ b ∷ [])
  unfolding find_first_of
  find-boyer_moore [] = refl
  find-boyer_moore (c ∷ l) = refl

  -- The search in a line that lacks the first byte of the separator, with the separator behind it,
  -- gives the line's length.
  pub find_first_of-separator :
      Lacks a line
      → IsAscii (a ∷ b ∷ [])
      → IsAscii (line ++ a ∷ b ∷ rest)
      → find_first_of (line ++ a ∷ b ∷ rest) (a ∷ b ∷ []) ≡ ok (some (length line))
  find_first_of-separator lacks plain ascii =
      let (o, run, first) =
        boyer_moore-IsFirst (line ++ a ∷ b ∷ rest) (a ∷ b ∷ []) ascii plain (omega arith)
          (omega arith) in
      find-boyer_moore line ∙ run ∙ ap ok (IsFirst-separator o lacks first)

IsFirst-missing :
    (line : Bytes) (a b : ℕ) (o : Option ℕ) → Lacks a line → IsFirst line (a ∷ b ∷ []) o → o ≡ none
IsFirst-missing line a b none lacks first = refl
IsFirst-missing line a b (some r) lacks (m, before) =
    let same : r ≡ r + 0 = omega arith in
    absurd (
      get_or-Lacks line a r lacks (omega (arith, m.fits))
        (ap (λ n. get_or line n 0) same ∙ sym (m.same 0 (omega arith))))

-- The search in a text that lacks the first byte of the separator finds nothing.
pub find_first_of-missing :
    (line : Bytes) (a b : ℕ)
    → Lacks a line
    → IsAscii (a ∷ b ∷ [])
    → IsAscii line
    → find_first_of line (a ∷ b ∷ []) ≡ ok none
unfolding find_first_of
find_first_of-missing [] a b lacks plain ascii = refl
find_first_of-missing (c ∷ line) a b lacks plain ascii =
    let (o, run, first) =
      boyer_moore-IsFirst (c ∷ line) (a ∷ b ∷ []) ascii plain (omega arith) (omega arith) in
    run ∙ ap ok (IsFirst-missing (c ∷ line) a b o lacks first)
