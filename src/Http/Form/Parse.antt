-- ===== src/Http/Form/Parse.antt =====
-- `query_parser` ends on every text.
use facebooc.Base.{
  ℕ, zero, suc, ◌+◌, ◌^◌, ◌≤◌, ◌<◌, ◌≡◌, refl, ◌∙◌, subst, inl, inr, true, false, some, List, [],
  ◌∷◌, ◌++◌, Bytes, length, drop, ◌==◌, strchr, c_str, ok, arith, Bool-cases, Option-cases,
  length-append, lt→ltb,
}
use facebooc.Http.Url.{Decoded}
use facebooc.Http.Url.Room.{escapes_whole, url_decoder-room}
use facebooc.Http.Form.{Entry, pair_lexer, query_loop, parse_decoded, query_parser}

length-drop-le : (n : ℕ) (s : Bytes) → length (drop n s) ≤ length s
length-drop-le zero s = omega arith
length-drop-le (suc n) [] = omega arith
length-drop-le (suc n) (c ∷ s) = omega (arith, length-drop-le n s)

length-drop-lt : (n : ℕ) (c : ℕ) (s : Bytes) → length (drop (n + 1) (c ∷ s)) ≤ length s
length-drop-lt n c s =
    let e : suc n ≡ n + 1 = omega arith in
    subst (λ m. length (drop m (c ∷ s)) ≤ length s) e (length-drop-le n s)

strchr-here : (c : ℕ) (s : Bytes) (d : ℕ) → (c == d) ≡ true → strchr (c ∷ s) d ≡ some 0
unfolding strchr
strchr-here c s d here = rw here refl

strchr-later :
    (c : ℕ) (s : Bytes) (d k : ℕ)
    → (c == d) ≡ false
    → strchr s d ≡ some k
    → strchr (c ∷ s) d ≡ some (suc k)
unfolding strchr
strchr-later c s d k later found = rw (later, found) refl

-- A text with a byte `d` in its tail has one.
strchr-drop :
    (n : ℕ) (s : Bytes) (d j : ℕ) → strchr (drop n s) d ≡ some j → (k : ℕ) × (strchr s d ≡ some k)
strchr-drop zero s d j h = (j, h)
strchr-drop (suc n) [] d j h = (j, h)
strchr-drop (suc n) (c ∷ s) d j h =
    let (k, found) = strchr-drop n s d j h in
    elim (Bool-cases (c == d)) [
      | inl here ↦ (0, strchr-here c s d here)
      | inr later ↦ (suc k, strchr-later c s d k later found)
    ]

lexed-ampersand :
    (s : Bytes) (p : Entry) → pair_lexer s b'=' b'&' ≡ some p → (k : ℕ) × (strchr s b'&' ≡ some k)
unfolding pair_lexer
lexed-ampersand [] p lexed = absurd (cc)
lexed-ampersand (c ∷ s) p lexed = elim (Option-cases (strchr (c ∷ s) b'=')) [
  | inl missing ↦ absurd (ground (arith, missing, lexed))
  | inr (i, found) ↦ elim (Option-cases (strchr (drop (i + 1) (c ∷ s)) b'&')) [
    | inl missing ↦ absurd (ground (arith, missing, found, lexed))
    | inr (j, ended) ↦ strchr-drop (i + 1) (c ∷ s) b'&' j ended
  ]
]

-- One round: a pair is taken off the text up to the next `&`.
pub query_loop-step :
    (fuel : ℕ) (s : Bytes) (q : List Entry) (p : Entry) (k : ℕ)
    → pair_lexer s b'=' b'&' ≡ some p
    → strchr s b'&' ≡ some k
    → query_loop (suc fuel) s q ≡ query_loop fuel (drop (k + 1) s) (p ∷ q)
query_loop-step fuel [] q p k lexed ampersand = unfold strchr in absurd (cc)
query_loop-step fuel (c ∷ s) q p k lexed ampersand =
    unfold query_loop in rw (lexed, ampersand, query_loop) refl

query_loop-total :
    (fuel : ℕ) (s : Bytes) (q : List Entry)
    → length s ≤ fuel
    → (r : List Entry) × (query_loop fuel s q ≡ ok r)
query_loop-total fuel [] q h = (q, unfold query_loop in refl)
query_loop-total zero (c ∷ s) q h = absurd (omega arith)
query_loop-total (suc fuel) (c ∷ s) q h = elim (Option-cases (pair_lexer (c ∷ s) b'=' b'&')) [
  | inl no_pair ↦ (q, unfold query_loop in rw (no_pair, query_loop) refl)
  | inr (p, lexed) ↦
      let (k, ampersand) = lexed-ampersand (c ∷ s) p lexed in
      let (r, run) =
        query_loop-total fuel (drop (k + 1) (c ∷ s)) (p ∷ q)
          (omega (arith, length-drop-lt k c s)) in
      (r, query_loop-step fuel (c ∷ s) q p k lexed ampersand ∙ run)
]

pub length-c_str : (s : Bytes) → length (c_str s) ≤ length s
unfolding c_str
length-c_str [] = omega arith
length-c_str (c ∷ s) = ground (arith, length-c_str s)

parse_decoded-total :
    (d : Decoded)
    → length (Decoded.text d) + 17 ≤ Decoded.room d
    → (q : List Entry) × (parse_decoded d ≡ ok q)
unfolding parse_decoded
parse_decoded-total d room =
    let str = c_str d.text in
    let (q, run) =
      query_loop-total (length str + 1) (str ++ b'&' ∷ []) []
        (omega (arith, length-append str (b'&' ∷ []))) in
    (q, rw (lt→ltb (length str + 1) d.room (omega (arith, length-c_str d.text))) run)

-- `query_parser` returns a list on every text whose percent signs all begin an escape: the loop ends,
-- and the `&` and the NUL that it writes fit the decoder's buffer.
pub query_parser-total :
    (s : Bytes)
    → escapes_whole s ≡ true
    → length s < 2 ^ 62
    → (q : List Entry) × (query_parser s ≡ ok q)
query_parser-total s h small =
    let (d, decoded, text, room) = url_decoder-room s h small in
    let (q, run) = parse_decoded-total d room in (q, unfold query_parser in rw decoded run)
