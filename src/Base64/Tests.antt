-- ===== src/Base64/Tests.antt =====
-- The codec of src/base64.c at concrete texts.
use facebooc.Base.{◌≡◌, refl, ap, [], codes, length, ok, fault, arith}
use facebooc.BasicString.{whole}
use facebooc.Base64.{
  base64_encode, base64_decode2str, encode_triples, encode_rest, padding_in, char_back, symbol,
  byte_back, pad, symbols_of, decoded_to, decode_padded, value_of, bytes_of, decode_groups,
  decode_rest,
}
use facebooc.Base64.RoundTrip.{decode-encode}

decode-encode_example :
    base64_decode2str (base64_encode (codes "facebooc")) ≡ ok (whole (codes "facebooc"))
decode-encode_example =
    decode-encode (codes "facebooc") (λ e. omega (arith, ap length e)) (omega arith) (ground arith)

-- The code before the size is looked at reads in front of the buffer of an empty text.
decode-empty : base64_decode2str (base64_encode []) ≡ fault
unfolding base64_decode2str padding_in char_back base64_encode encode_triples encode_rest
decode-empty = refl

encode_man : base64_encode (codes "Many") ≡ whole (codes "TWFueQ==")
unfolding base64_encode symbol byte_back pad symbols_of encode_triples encode_rest
encode_man = refl

decode_man : base64_decode2str (whole (codes "TWFueQ==")) ≡ ok (whole (codes "Many"))
unfolding base64_decode2str padding_in decoded_to decode_padded value_of bytes_of char_back
    decode_groups decode_rest pad
decode_man = refl

decode_ma : base64_decode2str (whole (codes "TWE=")) ≡ ok (whole (codes "Ma"))
unfolding base64_decode2str padding_in decoded_to decode_padded value_of bytes_of char_back
    decode_groups decode_rest pad
decode_ma = refl
