-- ===== src/Http/Url/Tests.antt =====
-- The URL codec of src/http/helper.c at concrete texts.
use facebooc.Base.{◌+◌, ◌≤◌, ◌≡◌, refl, Bytes, codes, length, ok, fault, arith, ◌∷◌, true}
use facebooc.Http.Url.{Decoded, urldecode2, url_decoder, url_encoder, is_xdigit}
use facebooc.Http.Url.Room.{escapes_whole, url_decoder-room, percents, url_decoder-fault}
use facebooc.Http.Url.Codec.{urldecode2-url_encoder}

whole_text : escapes_whole (codes "a%20b") ≡ true
unfolding is_xdigit escapes_whole
whole_text = refl

url_decoder-room_example :
    (d : Decoded) × (url_decoder (codes "a%20b") ≡ ok d)
    × (Decoded.text d ≡ urldecode2 (codes "a%20b"))
    × (length (Decoded.text d) + 17 ≤ Decoded.room d)
url_decoder-room_example = url_decoder-room (codes "a%20b") whole_text (omega arith)

url_decoder-fault_example : url_decoder (b'a' ∷ percents 20) ≡ fault
url_decoder-fault_example = url_decoder-fault b'a' 20 (omega arith) (omega arith) (omega arith)

urldecode2-url_encoder_example :
    (e : Bytes) × (url_encoder (codes "O'Brien & co") ≡ ok e)
    × (urldecode2 e ≡ codes "O'Brien & co")
urldecode2-url_encoder_example =
    urldecode2-url_encoder (codes "O'Brien & co") (ground arith) (omega arith)
