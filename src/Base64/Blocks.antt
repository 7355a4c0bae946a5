-- ===== src/Base64/Blocks.antt =====
-- The loops of src/base64.c over a text in blocks of three bytes and a last block.
use facebooc.Base.{
  ℕ, suc, ◌+◌, ◌-◌, ◌*◌, ◌/◌, ◌%◌, ◌≤◌, ◌≡◌, ◌≢◌, refl, sym, ap, ◌∙◌, List, [], ◌∷◌, ◌++◌,
  append_assoc, append-nil, arith, Bytes, length, get_or, All, ok, ◌>>=◌,
}
use facebooc.Base.Bits.{bit_or-shifted, bit_and_3, bit_and_15, bit_and_240}
use facebooc.Base64.{symbol, pad, encode_triples, byte_back, encode_rest, decode_groups}
use facebooc.Base64.Groups.{
  IsByte, value_of-symbol, Triple, packed, triple_lem, sextets_lem, quad, symbols_of-packed,
  bytes_of-packed, flat, quads, Bytes3,
}

-- A text of at least one byte is whole blocks of three and a last block of one to three.
pub data Last : Bytes → Type 0 where
  one : (a : ℕ) → IsByte a → Last (a ∷ [])
  two : (a b : ℕ) → IsByte a → IsByte b → Last (a ∷ b ∷ [])
  three : (a b c : ℕ) → IsByte a → IsByte b → IsByte c → Last (a ∷ b ∷ c ∷ [])

pub record Blocks (s : Bytes) : Type 0 where
  pub front : List Triple
  pub front_bytes : Bytes3 front
  pub back : Bytes
  pub last : Last back
  pub split : s ≡ flat front ++ back

pub blocks : (a : ℕ) (s : Bytes) → All IsByte (a ∷ s) → Blocks (a ∷ s)
unfolding flat
blocks a [] (ha, _) = record {
  front = [];
  front_bytes = tt;
  back = a ∷ [];
  last = one a ha;
  split = refl;
}
blocks a (b ∷ []) (ha, (hb, _)) = record {
  front = [];
  front_bytes = tt;
  back = a ∷ b ∷ [];
  last = two a b ha hb;
  split = refl;
}
blocks a (b ∷ c ∷ []) (ha, (hb, (hc, _))) = record {
  front = [];
  front_bytes = tt;
  back = a ∷ b ∷ c ∷ [];
  last = three a b c ha hb hc;
  split = refl;
}
blocks a (b ∷ c ∷ d ∷ s) (ha, (hb, (hc, h))) =
    let r = blocks d s h in
    record {
      front = (a, b, c) ∷ r.front;
      front_bytes = ((ha, hb, hc), r.front_bytes);
      back = r.back;
      last = r.last;
      split = ap (λ t. a ∷ b ∷ c ∷ t) r.split;
    }

-- The last group of symbols.
unfoldable pub final : Bytes → Bytes
unfolding quad pad
final (a ∷ []) = symbol (a / 4) ∷ symbol (a % 4 * 16) ∷ pad ∷ pad ∷ []
final (a ∷ b ∷ []) = symbol (a / 4) ∷ symbol (a % 4 * 16 + b / 16) ∷ symbol (b % 16 * 4) ∷ pad ∷ []
final (a ∷ b ∷ c ∷ s) = quad (a, b, c)
final [] = []

-- The reads from the end of the text do not see a block in front.
byte_back-shift :
    (a b c : ℕ) (s : Bytes) (k : ℕ) → k ≤ length s → byte_back (a ∷ b ∷ c ∷ s) k ≡ byte_back s k
unfolding byte_back
byte_back-shift a b c s k h = ap (λ n. get_or (a ∷ b ∷ c ∷ s) n 0) (shift h)
  where
    shift : k ≤ length s → suc (suc (suc (length s))) - k ≡ suc (suc (suc (length s - k)))
    shift h = omega arith

encode_rest-shift : (a b c : ℕ) (s : Bytes) → s ≢ [] → encode_rest (a ∷ b ∷ c ∷ s) ≡ encode_rest s
unfolding encode_rest
encode_rest-shift a b c s h = ground (arith, byte_back-shift a b c s 1, byte_back-shift a b c s 2)

unfoldable pub encode_bytes : Bytes → Bytes
encode_bytes s = encode_triples s ++ encode_rest s

encode-shift :
    (a b c : ℕ) (s : Bytes)
    → IsByte a
    → IsByte b
    → IsByte c
    → s ≢ []
    → encode_bytes (a ∷ b ∷ c ∷ s) ≡ quad (a, b, c) ++ encode_bytes s
unfolding encode_bytes encode_triples
encode-shift a b c s ha hb hc h =
    rw (triple_lem a b c hb hc, symbols_of-packed a b c ha hb hc, encode_rest-shift a b c s h)
      (append_assoc (quad (a, b, c)) (encode_triples s) (encode_rest s))

encode-final : {r : Bytes} → Last r → encode_bytes r ≡ final r
unfolding encode_bytes encode_triples encode_rest final byte_back
encode-final (one a ha) = ground (arith, bit_and_3 a)
encode-final (two a b ha hb) = ground (
  arith,
  bit_and_3 a,
  bit_and_240 b,
  bit_and_15 b,
  bit_or-shifted 4 (a % 4) (b / 16) (omega arith),
)
encode-final (three a b c ha hb hc) =
    rw (triple_lem a b c hb hc, symbols_of-packed a b c ha hb hc) (append-nil (quad (a, b, c)))

Last-ne-nil : (xs : Bytes) {r : Bytes} → Last r → xs ++ r ≢ []
Last-ne-nil [] (one a ha) = cc
Last-ne-nil [] (two a b ha hb) = cc
Last-ne-nil [] (three a b c ha hb hc) = cc
Last-ne-nil (x ∷ xs) last = cc

pub encode-blocks :
    (ts : List Triple) {r : Bytes}
    → Bytes3 ts
    → Last r
    → encode_bytes (flat ts ++ r) ≡ quads ts ++ final r
unfolding flat quads
encode-blocks [] h last = encode-final last
encode-blocks ((a, b, c) ∷ ts) {r} ((ha, hb, hc), h) last =
    encode-shift a b c (flat ts ++ r) ha hb hc (Last-ne-nil (flat ts) last)
    ∙ ap (λ t. quad (a, b, c) ++ t) (encode-blocks ts h last)
    ∙ sym (append_assoc (quad (a, b, c)) (quads ts) (final r))

decode_groups-quad :
    (a b c : ℕ) (s : Bytes)
    → IsByte a
    → IsByte b
    → IsByte c
    → decode_groups (quad (a, b, c) ++ s) ≡ (decode_groups s >>= λ o. ok (a ∷ b ∷ c ∷ o))
unfolding decode_groups quad
decode_groups-quad a b c s ha hb hc = rw (
  value_of-symbol (a / 4) (omega arith),
  value_of-symbol (a % 4 * 16 + b / 16) (omega arith),
  value_of-symbol (b % 16 * 4 + c / 64) (omega arith),
  value_of-symbol (c % 64) (omega arith),
  sextets_lem (a / 4) (a % 4 * 16 + b / 16) (b % 16 * 4 + c / 64) (c % 64) (omega arith)
      (omega arith) (omega arith) (omega arith),
  joined,
  bytes_of-packed a b c ha hb hc,
)
  where
    joined :
        a / 4 * 262144 + (a % 4 * 16 + b / 16) * 4096 + (b % 16 * 4 + c / 64) * 64 + c % 64
        ≡ packed a b c
    joined = omega arith

pub decode_groups-quads :
    (ts : List Triple) (s out : Bytes)
    → Bytes3 ts
    → decode_groups s ≡ ok out
    → decode_groups (quads ts ++ s) ≡ ok (flat ts ++ out)
unfolding flat quads
decode_groups-quads [] s out h e = e
decode_groups-quads ((a, b, c) ∷ ts) s out ((ha, hb, hc), h) e = rw (
  append_assoc (quad (a, b, c)) (quads ts) s,
  decode_groups-quad a b c (quads ts ++ s) ha hb hc,
  decode_groups-quads ts s out h e,
)

pub length-quads : (ts : List Triple) → length (quads ts) ≡ 4 * length ts
unfolding quads quad
length-quads [] = refl
length-quads (t ∷ ts) = omega (arith, length-quads ts)

pub length-flat : (ts : List Triple) → length (flat ts) ≡ 3 * length ts
unfolding flat
length-flat [] = refl
length-flat ((a, b, c) ∷ ts) = omega (arith, length-flat ts)
