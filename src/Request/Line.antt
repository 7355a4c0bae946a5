-- ===== src/Request/Line.antt =====
-- The request line of a well-formed request is read as it was written.
use facebooc.Base.{
  ℕ, suc, ◌+◌, ◌≤◌, ◌<◌, ◌≡◌, ◌≢◌, refl, ap, true, false, some, [], ◌∷◌, ◌++◌, Bytes, length, drop,
  ltb, ◌==◌, lt→ltb, ok, fault, arith, All, Lacks, strchr-append, drop-append, take-length, subst,
}
use facebooc.Http.Header.{is_space}
use facebooc.Request.{
  Method, set_method, to_space, get_uri_len, skip_space, word, scan_word, is_version,
  checked_version, checked_line, parse_request_line,
}

-- A word without white space.
abbrev pub IsWord : Bytes → Type 0
IsWord s = (s ≢ []) × All (λ c. is_space c ≡ false) s

IsWord-Lacks : (s : Bytes) → All (λ c. is_space c ≡ false) s → Lacks 32 s
unfolding is_space
IsWord-Lacks [] h = tt
IsWord-Lacks (c ∷ s) (h, hs) = (ground arith, IsWord-Lacks s hs)

word-append :
    (s t : Bytes) (c : ℕ)
    → All (λ b. is_space b ≡ false) s
    → is_space c ≡ true
    → word (s ++ c ∷ t) ≡ s
unfolding word
word-append [] t c h space = rw space refl
word-append (b ∷ s) t c (h, hs) space = rw h (ap (λ w. b ∷ w) (word-append s t c hs space))

skip_space-word : (s t : Bytes) → IsWord s → skip_space (s ++ t) ≡ s ++ t
unfolding skip_space
skip_space-word [] t (some_byte, h) = absurd (some_byte refl)
skip_space-word (b ∷ s) t (some_byte, (h, hs)) = rw h refl

some_length : (s : Bytes) → s ≢ [] → (length s == 0) ≡ false
some_length [] h = absurd (h refl)
some_length (b ∷ s) h = ground arith

space_is : is_space 32 ≡ true
unfolding is_space
space_is = refl

return_is : is_space 13 ≡ true
unfolding is_space
return_is = refl

-- A word that does not fit the array.
scan_word-long :
    (room : ℕ) (s t : Bytes) (c : ℕ)
    → IsWord s
    → is_space c ≡ true
    → room ≤ length s
    → scan_word room (s ++ c ∷ t) ≡ fault
unfolding scan_word
scan_word-long room s t c w space long =
    let late : ltb (length s) room ≡ false = ground arith in
    rw (skip_space-word s (c ∷ t) w, word-append s t c w.1 space, some_length s w.0, late) refl

-- A word with white space in front of it or not, and white space behind it, that fits the array.
scan_word-fits :
    (room : ℕ) (s t : Bytes) (c : ℕ)
    → IsWord s
    → is_space c ≡ true
    → length s < room
    → scan_word room (s ++ c ∷ t) ≡ ok (some s, c ∷ t)
unfolding scan_word
scan_word-fits room s t c w space fits =
    rw
      (
        skip_space-word s (c ∷ t) w,
        word-append s t c w.1 space,
        some_length s w.0,
        lt→ltb (length s) room fits,
        drop-append s (c ∷ t),
      )
      refl

scan_word-space : (room : ℕ) (s : Bytes) → scan_word room (32 ∷ s) ≡ scan_word room s
unfolding scan_word skip_space is_space
scan_word-space room s = refl

to_space-append : (s t : Bytes) → Lacks 32 s → to_space (s ++ 32 ∷ t) ≡ ok (length s)
unfolding to_space
to_space-append s t h = rw (strchr-append s t 32 h, to_space) refl

drop-past : (s t : Bytes) (d : ℕ) → drop (length s + 1) (s ++ d ∷ t) ≡ t
drop-past [] t d = refl
drop-past (c ∷ s) t d =
    let e : suc (length s + 1) ≡ suc (length s) + 1 = omega arith in
    subst (λ n. drop n (c ∷ s ++ d ∷ t) ≡ t) e (drop-past s t d)

get_uri_len-append :
    (n u t : Bytes)
    → Lacks 32 n
    → Lacks 32 u
    → get_uri_len (n ++ 32 ∷ (u ++ 32 ∷ t)) ≡ ok (length u)
unfolding get_uri_len
get_uri_len-append n u t hn hu =
    rw (to_space-append n (u ++ 32 ∷ t) hn, drop-past n (u ++ 32 ∷ t) 32) (to_space-append u t hu)

checked_line-words :
    (n u v : Bytes) (m : Method)
    → set_method n ≡ some m
    → is_version v ≡ true
    → checked_line (some n) (some u) (some v) (length u)
      ≡ ok (some (record { method = m; uri = u; offset = length n + length u + length v + 4 }))
unfolding checked_line checked_version
checked_line-words n u v m known version = rw (known, checked_line, version, take-length u) refl

-- A request line of a known method of at most seven bytes, a URI and a version "HTTP/1." with a 0
-- or a 1, with one space between them and a carriage return behind, is read as it was written. None
-- of the three is empty or has white space, and the version has at most eight bytes.
pub parse_request_line-words :
    (n u v rest : Bytes) (m : Method)
    → set_method n ≡ some m
    → is_version v ≡ true
    → IsWord n
    → IsWord u
    → IsWord v
    → length n < 8
    → length v < 9
    → parse_request_line (n ++ 32 ∷ (u ++ 32 ∷ (v ++ 13 ∷ rest)))
      ≡ ok (some (record { method = m; uri = u; offset = length n + length u + length v + 4 }))
unfolding parse_request_line
parse_request_line-words n u v rest m known version wn wu wv short_n short_v =
    let after_uri = v ++ 13 ∷ rest in
    let after_method = u ++ 32 ∷ after_uri in
    rw
      (
        get_uri_len-append n u after_uri (IsWord-Lacks n wn.1) (IsWord-Lacks u wu.1),
        scan_word-fits 8 n after_method 32 wn space_is short_n,
        scan_word-space (length u + 1) after_method,
        scan_word-fits (length u + 1) u after_uri 32 wu space_is (omega arith),
        scan_word-space 9 after_uri,
        scan_word-fits 9 v rest 13 wv return_is short_v,
      )
      (checked_line-words n u v m known version)

-- A first word of eight bytes or more, without white space, is written past the array `method`, when a
-- space follows and another one later.
pub parse_request_line-fault :
    (n u rest : Bytes)
    → IsWord n
    → 8 ≤ length n
    → Lacks 32 u
    → parse_request_line (n ++ 32 ∷ (u ++ 32 ∷ rest)) ≡ fault
unfolding parse_request_line
parse_request_line-fault n u rest w long lacks =
    rw
      (
        get_uri_len-append n u rest (IsWord-Lacks n w.1) lacks,
        scan_word-long 8 n (u ++ 32 ∷ rest) 32 w space_is long,
      )
      refl
