-- ===== src/Response/Tests.antt =====
-- Responses of src/response.c at concrete values.
use facebooc.Base.{
  ◌<◌, ◌≡◌, ◌++◌, refl, ap, some, none, [], ◌∷◌, codes, length, take, true, Bytes, ok, arith,
}
use facebooc.BasicString.{whole}
use facebooc.Http.Header.{header_entry_to_string}
use facebooc.Http.Header.Print.{lines}
use facebooc.Response.{
  Response, is_status, phrase, status_text, response_set_body_move, response_write,
}
use facebooc.Response.Write.{response_write-move}

abbrev typed : Response
typed = record {
  status = 200;
  header = record { key = codes "Content-Type"; value = codes "text/html" } ∷ [];
  body_len = 0;
  body = none;
}

typed_fits : length (lines typed.header) < 2048
unfolding lines header_entry_to_string
typed_fits = omega arith

typed_known : is_status 200 ≡ true
unfolding is_status
typed_known = refl

response_write-move_example :
    (text : Bytes) × (phrase 200 ≡ some text)
    × (0 < length text)
    × (response_write 2048 (λ i. 30) (some (response_set_body_move typed (whole (codes "hello"))))
        ≡ ok (
          take 30 (status_text 200 text)
              ++ take 30 (lines typed.header)
              ++ take 30 (codes "\r\n")
              ++ take 30 (codes "hello"),
          2048,
        ))
response_write-move_example =
    response_write-move 2048 (λ i. 30) typed (whole (codes "hello")) typed_known
      (record { exact = refl }) (λ e. omega (arith, ap length e)) typed_fits
