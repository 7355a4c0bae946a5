-- ===== src/Base64.antt =====
-- src/base64.c: the encoding of account data in the database, and its inverse.
pub mod Blocks
pub mod Groups
pub mod Injective
pub mod RoundTrip
mod Tests
use facebooc.Base.{
  ℕ, ◌+◌, ◌-◌, ◌*◌, ◌/◌, ◌%◌, ◌^◌, ◌≡◌, refl, [], ◌∷◌, ◌++◌, Bytes, codes, length, get_or, take,
  ltb, ◌&&◌, ◌==◌, if◌then◌else◌, Run, ok, fault, ◌>>=◌, bit_and, bit_or,
}
use facebooc.BasicString.{BasicString, whole}

abbrev pub encoding_table : Bytes
encoding_table = codes "ABCDEFGHIJKLMNOPQRSTUVWXYZabcdefghijklmnopqrstuvwxyz0123456789+/"

-- `-1` as a `uint16_t`
abbrev pub nn : ℕ
nn = 65535

abbrev pub decoding_table : Bytes
decoding_table =
    nn ∷ nn ∷ nn ∷ nn ∷ nn ∷ nn ∷ nn ∷ nn ∷ nn ∷ nn ∷ nn ∷ nn ∷ nn ∷ nn ∷ nn ∷ nn ∷ nn ∷ nn ∷ nn
    ∷ nn ∷ nn ∷ nn ∷ nn ∷ nn ∷ nn ∷ nn ∷ nn ∷ nn ∷ nn ∷ nn ∷ nn ∷ nn ∷ nn ∷ nn ∷ nn ∷ nn ∷ nn ∷ nn
    ∷ nn ∷ nn ∷ nn ∷ nn ∷ nn ∷ 62 ∷ nn ∷ nn ∷ nn ∷ 63 ∷ 52 ∷ 53 ∷ 54 ∷ 55 ∷ 56 ∷ 57 ∷ 58 ∷ 59 ∷ 60
    ∷ 61 ∷ nn ∷ nn ∷ nn ∷ nn ∷ nn ∷ nn ∷ nn ∷ 0 ∷ 1 ∷ 2 ∷ 3 ∷ 4 ∷ 5 ∷ 6 ∷ 7 ∷ 8 ∷ 9 ∷ 10 ∷ 11 ∷ 12
    ∷ 13 ∷ 14 ∷ 15 ∷ 16 ∷ 17 ∷ 18 ∷ 19 ∷ 20 ∷ 21 ∷ 22 ∷ 23 ∷ 24 ∷ 25 ∷ nn ∷ nn ∷ nn ∷ nn ∷ nn ∷ nn
    ∷ 26 ∷ 27 ∷ 28 ∷ 29 ∷ 30 ∷ 31 ∷ 32 ∷ 33 ∷ 34 ∷ 35 ∷ 36 ∷ 37 ∷ 38 ∷ 39 ∷ 40 ∷ 41 ∷ 42 ∷ 43 ∷ 44
    ∷ 45 ∷ 46 ∷ 47 ∷ 48 ∷ 49 ∷ 50 ∷ 51 ∷ nn ∷ nn ∷ nn ∷ nn ∷ nn ∷ []

-- `encoding_table[i]`
unfoldable pub symbol : ℕ → ℕ
symbol i = get_or encoding_table i 0

unfoldable pub pad : ℕ
pad = b'='

-- The four symbols that one round of the encoder writes for a 24-bit `triple`.
unfoldable pub symbols_of : ℕ → Bytes
symbols_of triple =
    symbol (bit_and (triple / 2 ^ 18) 0x3F)
    ∷ symbol (bit_and (triple / 2 ^ 12) 0x3F)
    ∷ symbol (bit_and (triple / 2 ^ 6) 0x3F)
    ∷ symbol (bit_and triple 0x3F)
    ∷ []

-- The loop over whole triples of bytes, `len - i > 2`.
unfoldable pub encode_triples : Bytes → Bytes
encode_triples (a ∷ b ∷ c ∷ s) =
    symbols_of (bit_or (bit_or (a * 2 ^ 16) (b * 2 ^ 8)) c) ++ encode_triples s
encode_triples s = []

-- `data[len - k]`
unfoldable pub byte_back : Bytes → ℕ → ℕ
byte_back s k = get_or s (length s - k) 0

-- What follows the loop: the last one or two bytes, and the padding.
unfoldable pub encode_rest : Bytes → Bytes
encode_rest s =
    if length s % 3 == 1
    then symbol (byte_back s 1 / 2 ^ 2)
      ∷ symbol (bit_and (byte_back s 1) 0b11 * 2 ^ 4)
      ∷ pad
      ∷ pad
      ∷ []
    else if length s % 3 == 2
    then symbol (byte_back s 2 / 2 ^ 2)
      ∷ symbol
          (bit_or (bit_and (byte_back s 2) 0b11 * 2 ^ 4) (bit_and (byte_back s 1) 0xF0 / 2 ^ 4))
      ∷ symbol (bit_and (byte_back s 1) 0x0F * 2 ^ 2)
      ∷ pad
      ∷ []
    else []

unfoldable pub base64_encode : Bytes → BasicString
base64_encode s = record {
  bytes = encode_triples s ++ encode_rest s;
  size = (length s + 2) % 2 ^ 64 / 3 * 4 % 2 ^ 64;
}

-- `decoding_table[(uint8_t) c]`: the table has 128 entries, and a read past them is a fault.
unfoldable pub value_of : ℕ → Run ℕ
value_of c = if ltb c 128 then ok (get_or decoding_table c nn) else fault

-- The three bytes that one round of the decoder writes for a `triple`.
unfoldable pub bytes_of : ℕ → Bytes
bytes_of triple =
    bit_and (triple / 2 ^ 16) 0xFF ∷ bit_and (triple / 2 ^ 8) 0xFF ∷ bit_and triple 0xFF ∷ []

-- The loop over whole groups of four symbols, `stripped_padding_len - i > 3`; the shifted values
-- are kept to the 32 bits of `triple`.
unfoldable pub decode_groups : Bytes → Run Bytes
decode_groups (a ∷ b ∷ c ∷ d ∷ s) = do
  w ← value_of a
  x ← value_of b
  y ← value_of c
  z ← value_of d
  out ← decode_groups s
  ok (bytes_of (bit_or (bit_or (bit_or (w * 2 ^ 18 % 2 ^ 32) (x * 2 ^ 12)) (y * 2 ^ 6)) z) ++ out)
decode_groups s = ok []

-- `data[len - k]`, a fault in front of the buffer.
unfoldable pub char_back : Bytes → ℕ → ℕ → Run ℕ
char_back s len k = if ltb len k then fault else ok (get_or s (len - k) 0)

-- What follows the loop, by the number of padding symbols; each byte is cut to a `char`.
unfoldable pub decode_rest : ℕ → Bytes → ℕ → Run Bytes
decode_rest padding s stripped =
    if padding == 1
    then (do
      w ← value_of (← char_back s stripped 3)
      x ← value_of (← char_back s stripped 2)
      y ← value_of (← char_back s stripped 1)
      ok (
          bit_or (w * 2 ^ 2) (bit_and (x / 2 ^ 4) 0b11) % 2 ^ 8
          ∷ bit_or (bit_and (x * 2 ^ 4) 0xF0) (y / 2 ^ 2) % 2 ^ 8
          ∷ []))
    else if padding == 2
    then (do
      w ← value_of (← char_back s stripped 2)
      x ← value_of (← char_back s stripped 1)
      ok (bit_or (w * 2 ^ 2) (bit_and (x / 2 ^ 4) 0b11) % 2 ^ 8 ∷ []))
    else ok []

-- The two tests for padding read the last and the last but one symbol, before the size is looked at.
unfoldable pub padding_in : BasicString → Run ℕ
padding_in src = do
  last ← char_back src.bytes src.size 1
  before ← char_back src.bytes src.size 2
  ok ((if last == pad then 1 else 0) + (if before == pad then 1 else 0))

-- What is written to `dst`, a buffer of one byte more than `dst_len`, with the NUL behind it. A
-- buffer of 2 ^ 63 bytes or more is refused by `malloc`, which is not checked.
unfoldable pub decoded_to : ℕ → Bytes → Run BasicString
decoded_to dst_len out =
    let room = (dst_len + 1) % 2 ^ 64 in
    if ltb room (2 ^ 63) && ltb (length out) room
    then ok (record { bytes = out; size = dst_len })
    else fault

-- The rest of `base64_decode`, for the number of padding symbols.
unfoldable pub decode_padded : BasicString → ℕ → Run BasicString
decode_padded src padding = do
  groups ← decode_groups (take (src.size - padding) src.bytes)
  rest ← decode_rest padding src.bytes (src.size - padding)
  decoded_to ((src.size / 4 * 3 + 2 ^ 64 - padding) % 2 ^ 64) (groups ++ rest)

-- `base64_decode` with `base64_decode2str` around it.
unfoldable pub base64_decode2str : BasicString → Run BasicString
base64_decode2str src = padding_in src >>= decode_padded src
