-- ===== src/Http/Header/Read.antt =====
-- `header_parser` on the lines of a well-formed request.
use facebooc.Base.{
  ℕ, zero, suc, ◌+◌, ◌-◌, ◌≤◌, ◌<◌, ◌≡◌, ◌≢◌, refl, ap, ap₂, sym, ◌∙◌, false, some, List, [], ◌∷◌,
  ◌++◌, map, Bytes, codes, length, take, drop, ltb, ◌==◌, lt→ltb, ==_ne, strchr, ok, arith, All,
  Lacks, All-append, strchr-append, take-append, length-append, append_assoc, append-nil, subst,
  take-length,
}
use mathlib.Core.Option
use facebooc.Utility.Search.{string_view_ctor, string_view_dup, find_first_of, boyer_moore}
use facebooc.Utility.Search.First.{IsAscii}
use facebooc.Utility.Search.Separator.{find_first_of-separator}
use facebooc.Http.Form.{Entry, make_pair}
use facebooc.Http.Form.Render.{drop-past}
use facebooc.Http.Header.{
  Header, header_new, to_lower_case, is_space, strip_head_spaces, header_entry, header_line,
  is_zero, size_of, header_loop, header_parser,
}

boyer_moore-byte :
    (txt : Bytes) (d : ℕ)
    → 0 < length txt
    → boyer_moore txt (d ∷ []) ≡ ok (Option.map suc (strchr txt d))
unfolding boyer_moore
boyer_moore-byte txt d some_byte =
    let enough : ltb (length txt) 1 ≡ false = ground arith in rw enough refl

find-boyer_moore :
    (s t : Bytes) (d : ℕ) → find_first_of (s ++ d ∷ t) (d ∷ []) ≡ boyer_moore (s ++ d ∷ t) (d ∷ [])
unfolding find_first_of
find-boyer_moore [] t d = refl
find-boyer_moore (c ∷ s) t d = refl

-- The search for one byte in a text that has it.
find_first_of-byte :
    (s t : Bytes) (d : ℕ)
    → Lacks d s
    → find_first_of (s ++ d ∷ t) (d ∷ []) ≡ ok (some (suc (length s)))
find_first_of-byte s t d h =
    find-boyer_moore s t d
    ∙ boyer_moore-byte (s ++ d ∷ t) d (omega (arith, length-append s (d ∷ t)))
    ∙ ap (λ o. ok (Option.map suc o)) (strchr-append s t d h)

length-to_lower_case : (s : Bytes) → length (to_lower_case s) ≡ length s
unfolding to_lower_case
length-to_lower_case [] = refl
length-to_lower_case (c ∷ s) = omega (arith, length-to_lower_case s)

-- A value without white space at its start, as it stands behind the colon and one space.
unfoldable pub IsValue : Bytes → Type 0
IsValue [] = ⊥
IsValue (b ∷ v) = is_space b ≡ false

strip-value :
    (v t : Bytes)
    → IsValue v
    → strip_head_spaces (32 ∷ (v ++ t)) (suc (length v))
      ≡ record { begin = v ++ t; size = some (length v) }
unfolding strip_head_spaces IsValue is_space
strip-value [] t h = absurd h
strip-value (b ∷ v) t h = rw h refl

-- A line of the request: `key: value`.
unfoldable pub line_of : Entry → Bytes
line_of e = e.key ++ b':' ∷ 32 ∷ e.value

header_entry-line :
    (k v t : Bytes)
    → IsValue v
    → header_entry (k ++ b':' ∷ 32 ∷ (v ++ t)) (length k + 2 + length v) (length k)
      ≡ record { key = to_lower_case k; value = v }
unfolding header_entry make_pair string_view_dup
header_entry-line k v t h =
    let n : length k + 2 + length v - (length k + 1) ≡ suc (length v) = omega arith in
    rw
      (take-append k (b':' ∷ 32 ∷ (v ++ t)), drop-past k (32 ∷ (v ++ t)) b':', n, strip-value v t h)
      (ap₂ (λ x y. record { key = x; value = y })
        (ap (λ m. take m (to_lower_case k)) (sym (length-to_lower_case k))
          ∙ take-length (to_lower_case k))
        (take-append v t))

-- The text of a line with what stands behind it.
line_of-append : (e : Entry) (t : Bytes) → line_of e ++ t ≡ e.key ++ b':' ∷ 32 ∷ (e.value ++ t)
unfolding line_of
line_of-append e t = append_assoc e.key (b':' ∷ 32 ∷ e.value) t

length-line_of : (e : Entry) → length (line_of e) ≡ length e.key + 2 + length e.value
unfolding line_of
length-line_of e = omega (arith, length-append e.key (b':' ∷ 32 ∷ e.value))

-- An entry that can be read back.
abbrev pub IsPlain : Entry → Type 0
IsPlain e =
    (e.key ≢ []) × Lacks b':' e.key × Lacks b'\r' e.key × IsValue e.value × Lacks b'\r' e.value

unfoldable pub lower : Entry → Entry
lower e = record { key = to_lower_case e.key; value = e.value }

header_line-at :
    (buf : Bytes) (n at : ℕ)
    → find_first_of buf (codes ":") ≡ ok (some (suc at))
    → at < n
    → header_line buf (some n) ≡ ok (header_entry buf n at)
unfolding header_line
header_line-at buf n at found below =
    let back : suc at - 1 ≡ at = omega arith in rw (found, back, lt→ltb at n below) refl

header_line-line :
    (e : Entry) (t : Bytes)
    → IsPlain e
    → header_line (line_of e ++ t) (some (length (line_of e))) ≡ ok (lower e)
unfolding lower
header_line-line e t (named, no_colon, _, valued, _) =
    ap₂ (λ b n. header_line b (some n)) (line_of-append e t) (length-line_of e)
    ∙ header_line-at (e.key ++ b':' ∷ 32 ∷ (e.value ++ t)) (length e.key + 2 + length e.value)
        (length e.key) (find_first_of-byte e.key (32 ∷ (e.value ++ t)) b':' no_colon) (omega arith)
    ∙ ap ok (header_entry-line e.key e.value t valued)

-- The lines of a request's header, each with its line end, in front of the rest.
unfoldable pub wire : List Entry → Bytes → Bytes
wire [] rest = rest
wire (e ∷ es) rest = line_of e ++ b'\r' ∷ b'\n' ∷ wire es rest

line-Lacks : (e : Entry) → IsPlain e → Lacks b'\r' (line_of e)
unfolding line_of
line-Lacks e (_, _, in_key, _, in_value) =
    All-append (λ c. c ≢ b'\r') e.key (b':' ∷ 32 ∷ e.value) in_key
      (omega arith, (omega arith, in_value))

ctor-found :
    (buf : Bytes) (n : ℕ)
    → find_first_of buf (codes "\r\n") ≡ ok (some n)
    → string_view_ctor buf (codes "\r\n") ≡ ok (record { begin = buf; size = some n })
unfolding string_view_ctor
ctor-found buf n found = rw found refl

round-at :
    (fuel c : ℕ) (buf : Bytes) (h : Header) (passed n : ℕ) (e : Entry)
    → (n == 0) ≡ false
    → string_view_ctor (c ∷ buf) (codes "\r\n") ≡ ok (record { begin = c ∷ buf; size = some n })
    → header_line (c ∷ buf) (some n) ≡ ok e
    → header_loop (suc fuel) (c ∷ buf) h passed
      ≡ header_loop fuel (drop (n + 2) (c ∷ buf)) (h ++ e ∷ []) (passed + n + 2)
unfolding header_loop is_zero size_of
round-at fuel c buf h passed n e filled view line = rw (view, filled, line) refl

-- One round of the loop.
header_loop-step :
    (fuel : ℕ) (buf : Bytes) (h : Header) (passed n : ℕ) (e : Entry)
    → 0 < n
    → 0 < length buf
    → find_first_of buf (codes "\r\n") ≡ ok (some n)
    → header_line buf (some n) ≡ ok e
    → header_loop (suc fuel) buf h passed
      ≡ header_loop fuel (drop (n + 2) buf) (h ++ e ∷ []) (passed + n + 2)
header_loop-step fuel [] h passed n e long some_byte found line = absurd (omega arith)
header_loop-step fuel (c ∷ buf) h passed n e long some_byte found line =
    let filled : (n == 0) ≡ false = ==_ne n 0 (omega arith) in
    round-at fuel c buf h passed n e filled (ctor-found (c ∷ buf) n found) line

drop-line : (s t : Bytes) (a b : ℕ) → drop (length s + 2) (s ++ a ∷ b ∷ t) ≡ t
drop-line [] t a b = refl
drop-line (c ∷ s) t a b =
    let e : suc (length s + 2) ≡ suc (length s) + 2 = omega arith in
    subst (λ n. drop n (c ∷ s ++ a ∷ b ∷ t) ≡ t) e (drop-line s t a b)

All-back {ℓ κ} : {A : Type ℓ} (P : A → Type κ) (xs ys : List A) → All P (xs ++ ys) → All P ys
All-back P [] ys h = h
All-back P (x ∷ xs) ys h = All-back P xs ys h.1

header_loop-end :
    (fuel c : ℕ) (buf : Bytes) (h : Header) (passed : ℕ)
    → string_view_ctor (c ∷ buf) (codes "\r\n") ≡ ok (record { begin = c ∷ buf; size = some 0 })
    → header_loop (suc fuel) (c ∷ buf) h passed ≡ ok (h, passed)
unfolding header_loop is_zero
header_loop-end fuel c buf h passed view = rw view refl

-- The loop reads the lines, and ends at the empty line.
header_loop-wire :
    (fuel : ℕ) (es : List Entry) (h : Header) (passed : ℕ) (body : Bytes)
    → All IsPlain es
    → IsAscii (wire es (b'\r' ∷ b'\n' ∷ body))
    → length es < fuel
    → header_loop fuel (wire es (b'\r' ∷ b'\n' ∷ body)) h passed
      ≡ ok (h ++ map lower es, passed + length (wire es []))
unfolding wire
header_loop-wire zero es h passed body plain ascii enough = absurd (omega arith)
header_loop-wire (suc fuel) [] h passed body plain ascii enough =
    header_loop-end fuel b'\r' (b'\n' ∷ body) h passed (
      ctor-found (b'\r' ∷ b'\n' ∷ body) 0
        (find_first_of-separator [] body b'\r' b'\n' tt (omega arith, (omega arith, tt)) ascii))
    ∙ ap₂ (λ x n. ok (x, n)) (sym (append-nil h)) (omega arith)
header_loop-wire (suc fuel) (e ∷ es) h passed body (pe, plain) ascii enough =
    let t = wire es (b'\r' ∷ b'\n' ∷ body) in
    let n = length (line_of e) in
    let found =
      find_first_of-separator (line_of e) t b'\r' b'\n' (line-Lacks e pe)
        (omega arith, (omega arith, tt)) ascii in
    header_loop-step fuel (line_of e ++ b'\r' ∷ b'\n' ∷ t) h passed n (lower e)
      (omega (arith, length-line_of e))
      (omega (arith, length-append (line_of e) (b'\r' ∷ b'\n' ∷ t))) found
      (header_line-line e (b'\r' ∷ b'\n' ∷ t) pe)
    ∙ ap (λ s. header_loop fuel s (h ++ lower e ∷ []) (passed + n + 2))
        (drop-line (line_of e) t b'\r' b'\n')
    ∙ header_loop-wire fuel es (h ++ lower e ∷ []) (passed + n + 2) body plain
        (All-back (λ c. c < 128) (line_of e) (b'\r' ∷ b'\n' ∷ t) ascii).1.1 (omega arith)
    ∙ ap₂ (λ x m. ok (x, m)) (append_assoc h (lower e ∷ []) (map lower es))
        (omega (arith, length-append (line_of e) (b'\r' ∷ b'\n' ∷ wire es [])))

length-wire : (es : List Entry) (rest : Bytes) → length es + length rest ≤ length (wire es rest)
unfolding wire
length-wire [] rest = omega arith
length-wire (e ∷ es) rest =
    omega (arith, length-append (line_of e) (b'\r' ∷ b'\n' ∷ wire es rest), length-wire es rest)

-- `header_parser` on header lines `key: value`, the empty line that ends them and a body returns the
-- entries in the order of the lines, with their keys in lower case, and the number of bytes in front of
-- the body. All is ASCII. No key is empty or has a colon, no value is empty or begins with white space,
-- and neither has a carriage return.
pub header_parser-wire :
    (es : List Entry) (body : Bytes)
    → All IsPlain es
    → IsAscii (wire es (b'\r' ∷ b'\n' ∷ body))
    → header_parser (wire es (b'\r' ∷ b'\n' ∷ body)) ≡ ok (map lower es, length (wire es []) + 2)
unfolding header_parser header_new
header_parser-wire es body plain ascii =
    let run =
      header_loop-wire (length (wire es (b'\r' ∷ b'\n' ∷ body))) es [] 0 body plain ascii
        (omega (arith, length-wire es (b'\r' ∷ b'\n' ∷ body))) in
    rw run (ap (λ n. ok (map lower es, n)) (omega arith))
