-- ===== src/Utility/Escape/Output.antt =====
-- The sizes that the two passes agree on, and the bytes that an escaped text can hold.
use facebooc.Base.{
  IsCStr, ◌<◌, ◌^◌, ℕ, ◌+◌, ◌*◌, ◌≡◌, ◌≢◌, refl, ap, subst, sym, inl, inr, false, some, [], ◌∷◌,
  Bytes, codes, length, length-append, ◌==◌, if◌then◌else◌, All, All-append, arith, Bool-cases,
  ==_ne, Lacks,
}
use facebooc.BasicString.{BasicString, whole}
use facebooc.Utility.Escape.{
  escapes, escape_of, is_key, count_keys, write_escapes, html_escape_trans, count_newlines,
  write_breaks, newline_to_br,
}

length-escape_of :
    (c : ℕ) → length (escape_of c escapes) ≡ 1 + 4 * (if is_key c escapes then 1 else 0)
unfolding escape_of is_key
length-escape_of c = ground arith

length-write_escapes : (s : Bytes) → length (write_escapes s) ≡ length s + 4 * count_keys s
unfolding write_escapes count_keys
length-write_escapes [] = refl
length-write_escapes (c ∷ s) = omega (
  arith,
  length-append (escape_of c escapes) (write_escapes s),
  length-escape_of c,
  length-write_escapes s,
)

escape_plain : (c : ℕ) → is_key c escapes ≡ false → escape_of c escapes ≡ c ∷ []
unfolding escape_of is_key
escape_plain c h = ground arith

-- With no key in it the text is written as it is.
write_plain : (s : Bytes) → count_keys s ≡ 0 → write_escapes s ≡ s
unfolding write_escapes count_keys
write_plain [] h = refl
write_plain (c ∷ s) h = elim (Bool-cases (is_key c escapes)) [
  | inl key ↦ ground arith
  | inr plain ↦ rw (escape_plain c plain) (ap (λ t. c ∷ t) (write_plain s (ground arith)))
]

-- A byte that cannot open or close a tag or a quoted attribute.
abbrev pub IsSafe : ℕ → Type 0
IsSafe c = (c ≢ b'"') × (c ≢ b'\'') × (c ≢ b'<') × (c ≢ b'>')

escape_of-IsSafe : (c : ℕ) → All IsSafe (escape_of c escapes)
unfolding escape_of
escape_of-IsSafe c = ground arith

write-IsSafe : (s : Bytes) → All IsSafe (write_escapes s)
unfolding write_escapes
write-IsSafe [] = tt
write-IsSafe (c ∷ s) =
    All-append IsSafe (escape_of c escapes) (write_escapes s) (escape_of-IsSafe c) (write-IsSafe s)

-- The escapes with the counters of the model, which do not wrap.
pub html_escape_trans-write_escapes :
    (s : Bytes)
    → (html_escape_trans (some (whole s)) ≡ some (whole (write_escapes s)))
      × All IsSafe (write_escapes s)
unfolding html_escape_trans
html_escape_trans-write_escapes s = (
  elim (Bool-cases (length s + 4 * count_keys s == length s)) [
    | inl none_of_them ↦
        rw none_of_them (ap (λ t. some (whole t)) (sym (write_plain s (ground arith))))
    | inr some_of_them ↦ rw some_of_them (
        ap (λ n. some (record { bytes = write_escapes s; size = n }))
          (sym (length-write_escapes s)))
  ],
  write-IsSafe s,
)

-- On a string of fewer than 2 ^ 29 bytes whose size is right, the result is the text with every
-- special byte replaced by its escape, its size is the length of that text on both branches, and it
-- holds no quote and no angle bracket.
pub html_escape_trans-IsSafe :
    (s : Bytes)
    → length s < 2 ^ 29
    → (html_escape_trans (some (whole s)) ≡ some (whole (write_escapes s)))
      × All IsSafe (write_escapes s)
html_escape_trans-IsSafe s small = html_escape_trans-write_escapes s

break_of : ℕ → Bytes
break_of c = if c == b'\n' then codes "<br>" else c ∷ []

length-write_breaks : (s : Bytes) → length (write_breaks s) ≡ length s + count_newlines s * 3
unfolding write_breaks count_newlines break_of
length-write_breaks [] = refl
length-write_breaks (c ∷ s) =
    ground (arith, length-append (break_of c) (write_breaks s), length-write_breaks s)

breaks_plain : (s : Bytes) → count_newlines s ≡ 0 → write_breaks s ≡ s
unfolding write_breaks count_newlines
breaks_plain [] h = refl
breaks_plain (c ∷ s) h = ground (arith, breaks_plain s)

breaks-Lacks : (s : Bytes) → Lacks b'\n' (write_breaks s)
unfolding write_breaks break_of
breaks-Lacks [] = tt
breaks-Lacks (c ∷ s) =
    All-append (λ d. d ≢ b'\n') (break_of c) (write_breaks s) (ground arith) (breaks-Lacks s)

-- On a C string whose size is right, the result is the text with `<br>` for every newline, its size is
-- the length of that text on every branch, and no newline is left in it.
pub newline_to_br-Lacks :
    (s : Bytes)
    → Lacks 0 s
    → (newline_to_br (some (whole s)) ≡ some (whole (write_breaks s)))
      × Lacks b'\n' (write_breaks s)
unfolding newline_to_br
newline_to_br-Lacks [] h = (unfold write_breaks in refl, breaks-Lacks [])
newline_to_br-Lacks (c ∷ s) (h, _) = (
  elim (Bool-cases (count_newlines (c ∷ s) == 0)) [
    | inl none_of_them ↦
        rw (==_ne c 0 h, none_of_them)
          (ap (λ t. some (whole t)) (sym (breaks_plain (c ∷ s) (ground arith))))
    | inr some_of_them ↦
        rw (==_ne c 0 h, some_of_them)
          (ap (λ n. some (record { bytes = write_breaks (c ∷ s); size = n }))
            (sym (length-write_breaks (c ∷ s))))
  ],
  breaks-Lacks (c ∷ s),
)

escape_of-IsCStr : (c : ℕ) → 0 < c → c < 256 → IsCStr (escape_of c escapes)
unfolding escape_of
escape_of-IsCStr c some_byte h = ground (arith, some_byte, h)

-- Escapes keep a C string a C string.
pub write_escapes-IsCStr : (s : Bytes) → IsCStr s → IsCStr (write_escapes s)
unfolding write_escapes
write_escapes-IsCStr [] h = tt
write_escapes-IsCStr (c ∷ s) (here, later) =
    All-append (λ d. (0 < d) × (d < 256)) (escape_of c escapes) (write_escapes s)
      (escape_of-IsCStr c here.0 here.1) (write_escapes-IsCStr s later)

-- Whatever its size says, a text that is escaped holds safe bytes.
pub html_escape_trans-bytes :
    (s : BasicString)
    → (t : BasicString) × (html_escape_trans (some s) ≡ some t) × All IsSafe t.bytes
unfolding html_escape_trans
html_escape_trans-bytes s = elim (Bool-cases (s.size + 4 * count_keys s.bytes == s.size)) [
  | inl none_of_them ↦
      rw none_of_them
        (s, refl, subst (All IsSafe) (write_plain s.bytes (ground arith)) (write-IsSafe s.bytes))
  | inr some_of_them ↦ rw some_of_them (
    record { bytes = write_escapes s.bytes; size = s.size + 4 * count_keys s.bytes },
    refl,
    write-IsSafe s.bytes,
  )
]
