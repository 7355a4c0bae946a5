-- ===== src/Http/Cookies/Parse.antt =====
-- Which cookies of a request are found.
use facebooc.Base.{
  ℕ, ◌+◌, ◌-◌, ◌≡◌, ◌≢◌, ◌<◌, refl, ap, sym, ◌∙◌, Option, none, some, List, [], ◌∷◌, ◌++◌, Bytes,
  codes, length, take, Lacks, ok, ◌>>=◌, arith, length-append, take-append, append_assoc, All,
}
use facebooc.Utility.Search.{string_view_ctor, find_first_of}
use facebooc.Utility.Search.First.{IsAscii}
use facebooc.Utility.Search.Separator.{find_first_of-separator, find_first_of-missing}
use facebooc.Http.Cookies.{cut_at, cookie_round, cookies_of}

cookies_of-found :
    (s : Bytes) (n : Option ℕ)
    → s ≢ []
    → find_first_of s (codes "; ") ≡ ok n
    → cookies_of s ≡ cut_at s n >>= cookie_round
unfolding cookies_of string_view_ctor
cookies_of-found [] n some_byte found = absurd (some_byte refl)
cookies_of-found (c ∷ s) n some_byte found = rw found refl

cookies_of-single : (s : Bytes) → s ≢ [] → Lacks b';' s → IsAscii s → cookies_of s ≡ cookie_round s
cookies_of-single s some_byte lacks ascii =
    cookies_of-found s none some_byte
      (find_first_of-missing s b';' 32 lacks (omega arith, (omega arith, tt)) ascii)
    ∙ (unfold cut_at in refl)

cut_at-suc : (s : Bytes) (n : ℕ) → cut_at s (some (n + 1)) ≡ ok (take n s)
unfolding cut_at
cut_at-suc s n = let less : n + 1 - 1 ≡ n = omega arith in rw less ground arith

All-front {ℓ κ} : {A : Type ℓ} (P : A → Type κ) (xs ys : List A) → All P (xs ++ ys) → All P xs
All-front P [] ys h = tt
All-front P (x ∷ xs) ys h = (h.0, All-front P xs ys h.1)

cut_at-last :
    (s rest : Bytes) (c : ℕ) → cut_at ((s ++ c ∷ []) ++ rest) (some (length (s ++ c ∷ []))) ≡ ok s
cut_at-last s rest c =
    let len : length (s ++ c ∷ []) ≡ length s + 1 = omega (arith, length-append s (c ∷ [])) in
    let front : take (length s) ((s ++ c ∷ []) ++ rest) ≡ s =
      ap (take (length s)) (append_assoc s (c ∷ []) rest) ∙ take-append s (c ∷ rest) in
    ap (λ n. cut_at ((s ++ c ∷ []) ++ rest) (some n)) len
    ∙ cut_at-suc ((s ++ c ∷ []) ++ rest) (length s)
    ∙ ap ok front

-- Of a cookie header with a separator, `cookies_parser` sees what stands in front of the separator less
-- its last byte, and nothing of what stands behind: the header is as good as that text alone. The text
-- is not empty and has no semicolon, and the header is ASCII.
pub cookies_of-cut :
    (s rest : Bytes) (c : ℕ)
    → s ≢ []
    → Lacks b';' (s ++ c ∷ [])
    → IsAscii ((s ++ c ∷ []) ++ b';' ∷ 32 ∷ rest)
    → cookies_of ((s ++ c ∷ []) ++ b';' ∷ 32 ∷ rest) ≡ cookies_of s
cookies_of-cut s rest c some_byte lacks ascii =
    let head_lacks = All-front (λ b. b ≢ b';') s (c ∷ []) lacks in
    let line_ascii = All-front (λ b. b < 128) (s ++ c ∷ []) (b';' ∷ 32 ∷ rest) ascii in
    let head_ascii = All-front (λ b. b < 128) s (c ∷ []) line_ascii in
    cookies_of-found ((s ++ c ∷ []) ++ b';' ∷ 32 ∷ rest) (some (length (s ++ c ∷ []))) (nonempty s)
      (find_first_of-separator (s ++ c ∷ []) rest b';' 32 lacks (omega arith, (omega arith, tt))
        ascii)
    ∙ ap (λ r. r >>= cookie_round) (cut_at-last s (b';' ∷ 32 ∷ rest) c)
    ∙ sym (cookies_of-single s some_byte head_lacks head_ascii)
  where
    nonempty : (s : Bytes) → (s ++ c ∷ []) ++ b';' ∷ 32 ∷ rest ≢ []
    nonempty [] e = omega (arith, ap length e)
    nonempty (b ∷ s) e = omega (arith, ap length e)
