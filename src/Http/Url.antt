-- ===== src/Http/Url.antt =====
-- `url_decoder` and `url_encoder` of src/http/helper.c. A `char *` is the bytes before its NUL.
pub mod Codec
pub mod Room
mod Tests
use facebooc.Base.{
  ℕ, ◌+◌, ◌-◌, ◌*◌, ◌/◌, ◌%◌, ◌^◌, ◌≡◌, refl, Bool, true, false, ◌&&◌, ◌||◌, List, [], ◌∷◌, ◌++◌,
  Bytes, codes, length, get_or, ltb, leb, ◌==◌, if◌then◌else◌, Run, ok, fault, stuck, ◌>>=◌,
  bit_and,
}

abbrev pub is_digit : ℕ → Bool
is_digit c = leb b'0' c && leb c b'9'

abbrev pub is_lower : ℕ → Bool
is_lower c = leb b'a' c && leb c b'z'

abbrev pub is_upper : ℕ → Bool
is_upper c = leb b'A' c && leb c b'Z'

-- `isxdigit` in the C locale
unfoldable pub is_xdigit : ℕ → Bool
is_xdigit c = is_digit c || ((leb b'a' c && leb c b'f') || (leb b'A' c && leb c b'F'))

-- The two steps that turn a hexadecimal digit into its value.
unfoldable pub hex_value : ℕ → ℕ
hex_value a = let u = if leb b'a' a then a - 32 else a in if leb b'A' u then u - 55 else u - 48

unfoldable pub plain : ℕ → ℕ
plain c = if c == b'+' then b' ' else c

unfoldable pub is_escape : ℕ → ℕ → ℕ → Bool
is_escape c a b = (c == b'%') && (is_xdigit a && is_xdigit b)

-- `urldecode2`: what is written to `dst`, less the terminator.
unfoldable pub urldecode2 : Bytes → Bytes
urldecode2 [] = []
urldecode2 (c ∷ []) = plain c ∷ []
urldecode2 (c ∷ a ∷ []) = plain c ∷ plain a ∷ []
urldecode2 (c ∷ a ∷ b ∷ s) = elim (is_escape c a b) [
  | true ↦ (16 * hex_value a + hex_value b) ∷ urldecode2 s
  | false ↦ plain c ∷ urldecode2 (a ∷ b ∷ s)
]

unfoldable pub count_percent : Bytes → ℕ
count_percent [] = 0
count_percent (c ∷ s) = (if c == b'%' then 1 else 0) + count_percent s

-- The counting loop steps before it looks, so the first byte is not counted.
unfoldable pub percent_counter : Bytes → ℕ
percent_counter [] = 0
percent_counter (c ∷ s) = count_percent s

-- `percent_counter * 2`, an `int`, as a `size_t`.
unfoldable pub int_size : ℕ → ℕ
int_size n = let bits = n % 2 ^ 32 in if ltb bits (2 ^ 31) then bits else bits + (2 ^ 64 - 2 ^ 32)

-- The size that `url_decoder` allocates, a `size_t`. The `int` product is taken to wrap round.
unfoldable pub room_of : Bytes → ℕ
room_of s = (length s + 2 ^ 64 - int_size (percent_counter s * 2) + 17) % 2 ^ 64

-- The decoded text, and the size of the buffer that it stands in.
pub record Decoded : Type 0 where
  pub text : Bytes
  pub room : ℕ

-- `url_decoder`: a buffer of 2 ^ 63 bytes or more is refused by `malloc`, which is not checked, and
-- writing past the buffer is a fault.
unfoldable pub url_decoder : Bytes → Run Decoded
url_decoder s =
    let out = urldecode2 s in
    let room = room_of s in
    if ltb room (2 ^ 63) && ltb (length out) room
    then ok (record { text = out; room = room })
    else fault

abbrev pub hex : Bytes
hex = codes "0123456789abcdef"

pub is_alnum : ℕ → Bool
is_alnum c = is_lower c || (is_upper c || is_digit c)

-- What one round of `url_encoder` writes. The `char` of a byte of 128 or more is negative, and
-- `hex[str[i] >> 4]` a read in front of the table.
pub encode_byte : ℕ → Run Bytes
encode_byte c =
    if is_alnum c
    then ok (c ∷ [])
    else if ltb c 128
    then ok (b'%' ∷ get_or hex (c / 16) 0 ∷ get_or hex (bit_and c 15) 0 ∷ [])
    else fault

-- The loop of `url_encoder`.
pub encode_loop : Bytes → Run Bytes
encode_loop [] = ok []
encode_loop (c ∷ s) = do e ← encode_byte c; rest ← encode_loop s; ok (e ++ rest)

-- `url_encoder`: `pos` is an `int`, which must not overflow.
unfoldable pub url_encoder : Bytes → Run Bytes
url_encoder s = do e ← encode_loop s; if ltb (length e) (2 ^ 31) then ok e else fault
