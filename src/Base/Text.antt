-- ===== src/Base/Text.antt =====
-- C strings as lists of bytes.
use Prim.Native.Nat.{ℕ, suc, ◌<◌}
use Prim.Native.Char.{code}
use Prim.Native.String.{String}
use mathlib.Core.Path.{◌≡◌, refl}
use mathlib.Core.Logic.{◌≢◌, inl, inr}
use mathlib.Core.Bool.{Bool, true, false, ◌&&◌}
use mathlib.Core.List.{List, [], ◌∷◌, ◌++◌}
use mathlib.Core.Option
use mathlib.Core.Option.{Option, none, some}
use native.Mathlib.Omega.{arith}
use facebooc.Base.Tests.{Bool-cases, ◌==◌, if◌then◌else◌}
use facebooc.Base.Lists.{length, All}

abbrev pub Bytes : Type 0
Bytes = List ℕ

-- The code points of a literal; these are its bytes, since the program's literals are ASCII.
abbrev pub codes : String → Bytes
codes String.[] = []
codes (String.◌∷◌ c s) = code c ∷ codes s

-- What a `char *` shows of a buffer: the bytes before the first NUL.
unfoldable pub c_str : Bytes → Bytes
c_str [] = []
c_str (c ∷ s) = if c == 0 then [] else c ∷ c_str s

-- `strcmp(s, t) == 0`.
unfoldable pub streq : Bytes → Bytes → Bool
streq [] [] = true
streq [] (d ∷ t) = false
streq (c ∷ s) [] = false
streq (c ∷ s) (d ∷ t) = (c == d) && streq s t

-- `strchr(s, d)` as an offset from `s`, for a byte `d` that is not NUL.
unfoldable pub strchr : Bytes → ℕ → Option ℕ
strchr [] d = none
strchr (c ∷ s) d = if c == d then some 0 else Option.map suc (strchr s d)

abbrev pub Lacks : ℕ → Bytes → Type 0
Lacks b = All (λ c. c ≢ b)

-- Every byte of a C string is a byte, and not NUL.
abbrev pub IsCStr : Bytes → Type 0
IsCStr = All (λ c. (0 < c) × (c < 256))

pub streq_refl : (s : Bytes) → streq s s ≡ true
unfolding streq
streq_refl [] = refl
streq_refl (c ∷ s) = ground (arith, streq_refl s)

pub eq_of_streq : (s t : Bytes) → streq s t ≡ true → s ≡ t
unfolding streq
eq_of_streq [] [] h = refl
eq_of_streq [] (d ∷ t) h = ground arith
eq_of_streq (c ∷ s) [] h = ground arith
eq_of_streq (c ∷ s) (d ∷ t) h = ground (arith, eq_of_streq s t)

pub streq_ne : (s t : Bytes) → s ≢ t → streq s t ≡ false
streq_ne s t h = elim (Bool-cases (streq s t)) [
  | inl same ↦ absurd (h (eq_of_streq s t same))
  | inr other ↦ other
]

pub c_str-IsCStr : (s : Bytes) → IsCStr s → c_str s ≡ s
unfolding c_str
c_str-IsCStr [] h = refl
c_str-IsCStr (c ∷ s) h = ground (arith, c_str-IsCStr s h.1)

pub strchr-append : (s t : Bytes) (d : ℕ) → Lacks d s → strchr (s ++ d ∷ t) d ≡ some (length s)
unfolding strchr
strchr-append [] t d h = ground arith
strchr-append (c ∷ s) t d h = ground (arith, strchr-append s t d h.1)

pub strchr-Lacks : (s : Bytes) (d : ℕ) → Lacks d s → strchr s d ≡ none
unfolding strchr
strchr-Lacks [] d h = refl
strchr-Lacks (c ∷ s) d h = ground (arith, strchr-Lacks s d h.1)

pub All-append {ℓ κ} :
    {A : Type ℓ} (P : A → Type κ) (xs ys : List A) → All P xs → All P ys → All P (xs ++ ys)
All-append P [] ys hx hy = hy
All-append P (x ∷ xs) ys hx hy = (hx.0, All-append P xs ys hx.1 hy)
