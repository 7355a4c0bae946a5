-- ===== src/Base64/RoundTrip.antt =====
-- Decoding what `base64_encode` wrote, and the size of what it wrote.
use facebooc.Base.{
  ℕ, ◌+◌, ◌-◌, ◌*◌, ◌/◌, ◌%◌, ◌^◌, ◌≤◌, ◌<◌, ◌≡◌, ◌≢◌, refl, sym, ap, ap₂, ◌∙◌, subst, false, List,
  [], ◌∷◌, ◌++◌, append_assoc, arith, Bytes, length, length-append, get_or, take, ltb, ◌==◌,
  if◌then◌else◌, All, ok, get_or-append, take-append_more,
}
use facebooc.Base.Bits.{bit_or-shifted, bit_and_3, bit_and_240}
use facebooc.BasicString.{IsFull, whole}
use facebooc.Base.{true}
use facebooc.Base64.{
  pad, encode_triples, encode_rest, base64_encode, decode_groups, char_back, decode_rest,
  base64_decode2str, padding_in, decoded_to, decode_padded,
}
use facebooc.Base64.Groups.{
  IsByte, value_of-symbol, symbol-ne-pad, Triple, flat, quads, quad, Bytes3,
}
use facebooc.Base64.Blocks.{
  Last, one, two, three, blocks, final, encode_bytes, encode-blocks, decode_groups-quads,
  length-quads, length-flat,
}

-- A read `k` places before the end of the buffer is a read in its last group.
char_back-last :
    (ts : List Triple) (q : Bytes) (n i k : ℕ)
    → n ≡ 4 * length ts + i + k
    → char_back (quads ts ++ q) n k ≡ ok (get_or q i 0)
unfolding char_back
char_back-last ts q n i k e =
    rw (inside, ap (λ m. get_or (quads ts ++ q) m 0) place, get_or-append (quads ts) q i 0)
  where
    inside : ltb n k ≡ false
    inside = ground arith

    place : n - k ≡ length (quads ts) + i
    place = omega (arith, length-quads ts)

take-last :
    (ts : List Triple) (q : Bytes) (n i : ℕ)
    → n ≡ 4 * length ts + i
    → take n (quads ts ++ q) ≡ quads ts ++ take i q
take-last ts q n i e = ap (λ m. take m (quads ts ++ q)) place ∙ take-append_more (quads ts) q i
  where
    place : n ≡ length (quads ts) + i
    place = omega (arith, length-quads ts)

abbrev padding_of : Bytes → ℕ
padding_of r = 3 - length r

padding_lem :
    {r : Bytes}
    → Last r
    → (if get_or (final r) 3 0 == pad then 1 else 0)
        + (if get_or (final r) 2 0 == pad then 1 else 0)
      ≡ padding_of r
unfolding final quad
padding_lem (one a ha) = ground arith
padding_lem (two a b ha hb) = ground (arith, symbol-ne-pad (b % 16 * 4) (omega arith))
padding_lem (three a b c ha hb hc) =
    ground (
      arith,
      symbol-ne-pad (b % 16 * 4 + c / 64) (omega arith),
      symbol-ne-pad (c % 64) (omega arith),
    )

padding_in-final :
    (ts : List Triple) (n : ℕ) {r : Bytes}
    → n ≡ 4 * length ts + 4
    → Last r
    → padding_in (record { bytes = quads ts ++ final r; size = n }) ≡ ok (padding_of r)
unfolding padding_in
padding_in-final ts n {r} e last =
    rw
      (
        char_back-last ts (final r) n 3 1 (omega arith),
        char_back-last ts (final r) n 2 2 (omega arith),
      )
      (ap ok (padding_lem last))

-- What the code behind the loop makes of the last group.
abbrev tail_bytes : Bytes → Bytes
tail_bytes (a ∷ []) = a ∷ []
tail_bytes (a ∷ b ∷ []) = a ∷ b ∷ []
tail_bytes s = []

decode_rest-final :
    (ts : List Triple) (m : ℕ) {r : Bytes}
    → m + padding_of r ≡ 4 * length ts + 4
    → Last r
    → decode_rest (padding_of r) (quads ts ++ final r) m ≡ ok (tail_bytes r)
unfolding decode_rest final
decode_rest-final ts m e (one a ha) =
    rw
      (
        char_back-last ts (final (a ∷ [])) m 0 2 (omega arith),
        char_back-last ts (final (a ∷ [])) m 1 1 (omega arith),
        value_of-symbol (a / 4) (omega arith),
        value_of-symbol (a % 4 * 16) (omega arith),
        bit_and_3 (a % 4 * 16 / 2 ^ 4),
        bit_or-shifted 2 (a / 4) (a % 4 * 16 / 2 ^ 4 % 4) (omega arith),
      )
      (ap (λ c. ok (c ∷ [])) (omega arith))
decode_rest-final ts m e (two a b ha hb) =
    rw
      (
        char_back-last ts (final (a ∷ b ∷ [])) m 0 3 (omega arith),
        char_back-last ts (final (a ∷ b ∷ [])) m 1 2 (omega arith),
        char_back-last ts (final (a ∷ b ∷ [])) m 2 1 (omega arith),
        value_of-symbol (a / 4) (omega arith),
        value_of-symbol (a % 4 * 16 + b / 16) (omega arith),
        value_of-symbol (b % 16 * 4) (omega arith),
        bit_and_3 ((a % 4 * 16 + b / 16) / 2 ^ 4),
        bit_or-shifted 2 (a / 4) ((a % 4 * 16 + b / 16) / 2 ^ 4 % 4) (omega arith),
        bit_and_240 ((a % 4 * 16 + b / 16) * 2 ^ 4),
        bit_or-shifted 4 ((a % 4 * 16 + b / 16) * 2 ^ 4 / 16 % 16) (b % 16 * 4 / 2 ^ 2)
            (omega arith),
      )
      (ap₂ (λ c d. ok (c ∷ d ∷ [])) (omega arith) (omega arith))
decode_rest-final ts m e (three a b c ha hb hc) = refl

-- What the loop makes of the last group, less its padding.
abbrev loop_bytes : Bytes → Bytes
loop_bytes (a ∷ b ∷ c ∷ s) = a ∷ b ∷ c ∷ []
loop_bytes s = []

decode_groups-final :
    {r : Bytes} → Last r → decode_groups (take (4 - padding_of r) (final r)) ≡ ok (loop_bytes r)
unfolding final quads flat
decode_groups-final (one a ha) = unfold decode_groups in refl
decode_groups-final (two a b ha hb) = unfold decode_groups in refl
decode_groups-final (three a b c ha hb hc) =
    decode_groups-quads ((a, b, c) ∷ []) [] [] ((ha, hb, hc), tt) (unfold decode_groups in refl)

Last-bytes : {r : Bytes} → Last r → loop_bytes r ++ tail_bytes r ≡ r
Last-bytes (one a ha) = refl
Last-bytes (two a b ha hb) = refl
Last-bytes (three a b c ha hb hc) = refl

padding-le : {r : Bytes} → Last r → (padding_of r ≤ 2) × (length r + padding_of r ≡ 3)
padding-le (one a ha) = omega arith
padding-le (two a b ha hb) = omega arith
padding-le (three a b c ha hb hc) = omega arith

decode-final :
    (ts : List Triple) (n : ℕ) {r : Bytes}
    → Bytes3 ts
    → n ≡ 4 * length ts + 4
    → Last r
    → base64_decode2str (record { bytes = quads ts ++ final r; size = n })
      ≡ decoded_to ((n / 4 * 3 + 2 ^ 64 - padding_of r) % 2 ^ 64) (flat ts ++ r)
unfolding base64_decode2str decode_padded
decode-final ts n {r} h e last = rw (
  padding_in-final ts n e last,
  take-last ts (final r) (n - padding_of r) (4 - padding_of r) (omega (arith, padding-le last)),
  decode_groups-quads ts (take (4 - padding_of r) (final r)) (loop_bytes r) h
      (decode_groups-final last),
  decode_rest-final ts (n - padding_of r) (omega (arith, padding-le last)) last,
  append_assoc (flat ts) (loop_bytes r) (tail_bytes r),
  Last-bytes last,
)

length-final : {r : Bytes} → Last r → (length (final r) ≡ 4) × (0 < length r) × (length r ≤ 3)
unfolding final quad
length-final (one a ha) = omega arith
length-final (two a b ha hb) = omega arith
length-final (three a b c ha hb hc) = omega arith

length-blocks :
    (ts : List Triple) {r : Bytes}
    → Last r
    → length (quads ts ++ final r) ≡ (length (flat ts ++ r) + 2) / 3 * 4
length-blocks ts {r} last = omega (
  arith,
  length-append (quads ts) (final r),
  length-append (flat ts) r,
  length-quads ts,
  length-flat ts,
  length-final last,
)

length-encode_bytes : (s : Bytes) → All IsByte s → length (encode_bytes s) ≡ (length s + 2) / 3 * 4
length-encode_bytes [] h = unfold encode_bytes encode_triples encode_rest in refl
length-encode_bytes (a ∷ s) h =
    let b = blocks a s h in
    subst (λ x. length (encode_bytes x) ≡ (length x + 2) / 3 * 4) (sym b.split)
      (ap length (encode-blocks b.front b.front_bytes b.last) ∙ length-blocks b.front b.last)

-- The size that `base64_encode` computes and allocates, `(len + 2) / 3 * 4`, is the number of symbols
-- that it writes, for a text of bytes shorter than `2 ^ 62`.
pub encode-IsFull : (s : Bytes) → length s < 2 ^ 62 → All IsByte s → IsFull (base64_encode s)
unfolding base64_encode
encode-IsFull s small h = record {
  exact = unfold encode_bytes in omega (arith, length-encode_bytes s h);
}

encode-front :
    (ts : List Triple) {r : Bytes}
    → Bytes3 ts
    → Last r
    → length (flat ts ++ r) < 2 ^ 62
    → base64_encode (flat ts ++ r)
      ≡ record { bytes = quads ts ++ final r; size = 4 * length ts + 4 }
unfolding base64_encode encode_bytes
encode-front ts {r} h last small =
    ap₂ (λ b n. record { bytes = b; size = n }) (encode-blocks ts h last) size_lem
  where
    size_lem : (length (flat ts ++ r) + 2) % 2 ^ 64 / 3 * 4 % 2 ^ 64 ≡ 4 * length ts + 4
    size_lem = omega (arith, length-append (flat ts) r, length-flat ts, length-final last)

-- The buffer is as long as the text.
decoded_to-fits :
    (n : ℕ) (s : Bytes)
    → n % 2 ^ 64 ≡ length s
    → length s < 2 ^ 62
    → decoded_to (n % 2 ^ 64) s ≡ ok (whole s)
unfolding decoded_to
decoded_to-fits n s e small =
    let room : ltb ((length s + 1) % 2 ^ 64) (2 ^ 63) ≡ true = ground arith in
    let fits : ltb (length s) ((length s + 1) % 2 ^ 64) ≡ true = ground arith in
    rw (e, room, fits) refl

decode-encode_blocks :
    (ts : List Triple) {r : Bytes}
    → Bytes3 ts
    → Last r
    → length (flat ts ++ r) < 2 ^ 62
    → base64_decode2str (base64_encode (flat ts ++ r)) ≡ ok (whole (flat ts ++ r))
decode-encode_blocks ts {r} h last small =
    rw (encode-front ts h last small, decode-final ts (4 * length ts + 4) h refl last)
      (decoded_to-fits ((4 * length ts + 4) / 4 * 3 + 2 ^ 64 - padding_of r) (flat ts ++ r)
        (omega (arith, length-append (flat ts) r, length-flat ts, padding-le last)) small)

-- Decoding an encoded text of at least one byte, shorter than `2 ^ 62`, gives the text back with its
-- size.
pub decode-encode :
    (s : Bytes)
    → s ≢ []
    → length s < 2 ^ 62
    → All IsByte s
    → base64_decode2str (base64_encode s) ≡ ok (whole s)
decode-encode [] some_byte small h = absurd (some_byte refl)
decode-encode (a ∷ s) some_byte small h =
    let b = blocks a s h in
    subst (λ x. base64_decode2str (base64_encode x) ≡ ok (whole x)) (sym b.split)
      (decode-encode_blocks b.front b.front_bytes b.last (omega (arith, ap length b.split)))
