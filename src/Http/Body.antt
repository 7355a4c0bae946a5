-- ===== src/Http/Body.antt =====
-- src/http/body.c: the form text of a request's body.
use facebooc.Base.{
  ◌+◌, Bool, false, Option, none, some, List, [], ◌∷◌, ◌++◌, Bytes, codes, length, take, ltb,
  if◌then◌else◌, streq, c_str, Run, ok, fault, ◌>>=◌,
}
use facebooc.Http.Url.{Decoded, url_decoder}
use facebooc.Http.Form.{Entry, find_entry, query_loop}
use facebooc.Http.Header.{Header, header_get}

-- `strncmp` with 34 bytes of a literal of 33 compares the terminator too.
unfoldable pub is_supported_type : Option Bytes → Bool
is_supported_type none = false
is_supported_type (some str) = streq (take 34 str) (codes "application/x-www-form-urlencoded")

unfoldable pub check_header : Option Header → Bool
check_header header = is_supported_type (header_get header (codes "content-type"))

-- The loop of `body_parser`, which is that of `query_parser`, after the `&` and the NUL are written
-- over the end of the decoded text.
unfoldable pub body_decoded : Decoded → Run (List Entry)
body_decoded d =
    let str = c_str d.text in
    if ltb (length str + 1) d.room then query_loop (length str + 1) (str ++ b'&' ∷ []) [] else fault

-- `body_parser`: the body of a request of another type is NULL. A C pointer into the request is not
-- NULL.
unfoldable pub body_parser : Option Header → Bytes → Run (Option (List Entry))
body_parser header buffer =
    let parsed = (do d ← url_decoder buffer; q ← body_decoded d; ok (some q)) in
    if check_header header then parsed else ok none

unfoldable pub body_get : Option (List Entry) → Bytes → Option Bytes
body_get none key = none
body_get (some b) [] = none
body_get (some b) (c ∷ key) = find_entry b (c ∷ key)
