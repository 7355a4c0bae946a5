-- ===== src/Http/Url/Codec.antt =====
-- Encoding a text and decoding it again.
use facebooc.Base.{
  ℕ, ◌+◌, ◌*◌, ◌/◌, ◌<◌, ◌≤◌, ◌^◌, length, ◌≡◌, refl, ap, ◌∙◌, inl, inr, Bool, true, false, ◌&&◌,
  [], ◌∷◌, Bytes, get_or, ◌==◌, ok, arith, Bool-cases, bit_and, All, lt→ltb,
}
use facebooc.Base.Bits.{every, every_lem}
use facebooc.Http.Url.{
  is_alnum, is_xdigit, hex_value, plain, is_escape, urldecode2, hex, encode_byte, encode_loop,
  url_encoder,
}

-- The two digits that stand for a byte, and the byte that they give.
escapes : ℕ → Bool
escapes c =
    let a = get_or hex (c / 16) 0 in
    let b = get_or hex (bit_and c 15) 0 in
    is_xdigit a && (is_xdigit b && (16 * hex_value a + hex_value b == c))

every-escapes : every 128 escapes ≡ true
unfolding every escapes is_xdigit hex_value
every-escapes = refl

urldecode2-escape :
    (c : ℕ) (s : Bytes)
    → c < 128
    → urldecode2 (b'%' ∷ get_or hex (c / 16) 0 ∷ get_or hex (bit_and c 15) 0 ∷ s) ≡ c ∷ urldecode2 s
unfolding urldecode2 escapes is_escape
urldecode2-escape c s h = ground (arith, every_lem 128 escapes c every-escapes h)

urldecode2-alnum : (c : ℕ) (s : Bytes) → is_alnum c ≡ true → urldecode2 (c ∷ s) ≡ c ∷ urldecode2 s
unfolding urldecode2 is_alnum is_escape plain
urldecode2-alnum c [] h = ground arith
urldecode2-alnum c (a ∷ []) h = ground arith
urldecode2-alnum c (a ∷ b ∷ s) h = ground arith

encode_byte-alnum : (c : ℕ) → is_alnum c ≡ true → encode_byte c ≡ ok (c ∷ [])
unfolding encode_byte
encode_byte-alnum c h = ground arith

encode_byte-escape :
    (c : ℕ)
    → is_alnum c ≡ false
    → c < 128
    → encode_byte c ≡ ok (b'%' ∷ get_or hex (c / 16) 0 ∷ get_or hex (bit_and c 15) 0 ∷ [])
unfolding encode_byte
encode_byte-escape c h below = rw (h, lt→ltb c 128 below) refl

urldecode2-encode_loop :
    (s : Bytes)
    → All (λ c. c < 128) s
    → (e : Bytes) × (encode_loop s ≡ ok e) × (urldecode2 e ≡ s) × (length e ≤ 3 * length s)
unfolding encode_loop
urldecode2-encode_loop [] h = ([], refl, unfold urldecode2 in refl, omega arith)
urldecode2-encode_loop (c ∷ s) (below, h) =
    let (e, run, back, short) = urldecode2-encode_loop s h in
    elim (Bool-cases (is_alnum c)) [
      | inl plain_byte ↦ (
        c ∷ e,
        rw (encode_byte-alnum c plain_byte, run) refl,
        urldecode2-alnum c e plain_byte ∙ ap (λ t. c ∷ t) back,
        omega arith,
      )
      | inr other ↦ (
        b'%' ∷ get_or hex (c / 16) 0 ∷ get_or hex (bit_and c 15) 0 ∷ e,
        rw (encode_byte-escape c other below, run) refl,
        urldecode2-escape c e below ∙ ap (λ t. c ∷ t) back,
        omega arith,
      )
    ]

-- On a text of ASCII bytes, fewer than 2 ^ 31 / 3 of them, `url_encoder` returns, and `urldecode2`
-- gives the text back.
pub urldecode2-url_encoder :
    (s : Bytes)
    → All (λ c. c < 128) s
    → 3 * length s < 2 ^ 31
    → (e : Bytes) × (url_encoder s ≡ ok e) × (urldecode2 e ≡ s)
unfolding url_encoder
urldecode2-url_encoder s h small =
    let (e, run, back, short) = urldecode2-encode_loop s h in
    (e, rw (run, lt→ltb (length e) (2 ^ 31) (omega arith)) refl, back)
