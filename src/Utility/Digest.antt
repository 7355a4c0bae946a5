-- ===== src/Utility/Digest.antt =====
-- `sha256_string` of src/utility.c. The digest is OpenSSL's, a parameter: its 32 bytes.
use facebooc.Base.{ℕ, ◌/◌, ◌%◌, [], ◌∷◌, ◌++◌, Bytes, codes, get_or, take}
use facebooc.BasicString.{BasicString}

-- `%02x`
unfoldable pub hex2 : ℕ → Bytes
hex2 b =
    get_or (codes "0123456789abcdef") (b / 16) 0 ∷ get_or (codes "0123456789abcdef") (b % 16) 0 ∷ []

-- The loop over the digest.
unfoldable pub hex_digits : Bytes → Bytes
hex_digits [] = []
hex_digits (b ∷ hash) = hex2 b ++ hex_digits hash

-- `sha256_string`: the 64 characters of `dst`, less the terminator.
unfoldable pub sha256_string : (Bytes → Bytes) → BasicString → Bytes
sha256_string digest str = hex_digits (take 32 (digest (take str.size str.bytes)))
