-- ===== src/Request.antt =====
-- src/request.c: from the bytes that were received to a request. The buffer is the bytes before its
-- NUL.
pub mod Line
pub mod Whole
mod Tests
use facebooc.Base.{
  ℕ, zero, suc, ◌+◌, ◌-◌, ◌==◌, Bool, true, false, ◌&&◌, ◌||◌, Option, none, some, List, [], ◌∷◌,
  ◌++◌, Bytes, codes, length, take, drop, get_or, ltb, leb, if◌then◌else◌, streq, strchr, Run, ok,
  fault, stuck, ◌>>=◌,
}
use facebooc.Http.Form.{Entry, query_parser}
use facebooc.Http.Header.{Header, header_parser, is_space}
use facebooc.Http.Cookies.{Cookies, cookies_parser}
use facebooc.Http.Body.{body_parser}

-- `Method`
pub data Method : Type 0 where
  options : Method
  get : Method
  head : Method
  post : Method
  put : Method
  delete : Method
  trace : Method
  connect : Method
  unknown_method : Method

-- `Request`, where NULL is `none`.
pub record Request : Type 0 where
  pub method : Method
  pub path : Bytes
  pub uri : Bytes
  pub query_string : Option (List Entry)
  pub post_body : Option (List Entry)
  pub headers : Option Header
  pub cookies : Option Cookies

-- `methods__`
abbrev pub methods : List (Bytes × Method)
methods =
    (codes "OPTIONS", options)
    ∷ (codes "GET", get)
    ∷ (codes "HEAD", head)
    ∷ (codes "POST", post)
    ∷ (codes "PUT", put)
    ∷ (codes "DELETE", delete)
    ∷ (codes "TRACE", trace)
    ∷ (codes "CONNECT", connect)
    ∷ []

unfoldable pub find_method : List (Bytes × Method) → Bytes → Option Method
find_method [] segment = none
find_method ((name, m) ∷ rest) segment =
    let found = find_method rest segment in if streq segment name then some m else found

-- `set_method`: `none` is the answer false, with the method unknown.
unfoldable pub set_method : Bytes → Option Method
set_method segment = find_method methods segment

-- The number of bytes in front of the first space; a text without one is read past its end.
unfoldable pub to_space : Bytes → Run ℕ
to_space s = elim (strchr s 32) [ none ↦ fault | some n ↦ ok n ]

-- `get_uri_len`
unfoldable pub get_uri_len : Bytes → Run ℕ
get_uri_len buf = do first ← to_space buf; to_space (drop (first + 1) buf)

-- White space in front of a text, as `sscanf` skips it.
unfoldable pub skip_space : Bytes → Bytes
skip_space [] = []
skip_space (c ∷ s) = let rest = skip_space s in if is_space c then rest else c ∷ s

-- A word as `%s` reads it.
unfoldable pub word : Bytes → Bytes
word [] = []
word (c ∷ s) = let rest = word s in if is_space c then [] else c ∷ rest

-- `%s` into an array of `room` bytes: white space is skipped, and a word that does not fit with its
-- terminator is written past the array. Where no word is left the array stays without a value, `none`.
unfoldable pub scan_word : ℕ → Bytes → Run (Option Bytes × Bytes)
scan_word room s =
    let found = word (skip_space s) in
    if length found == 0
    then ok (none, [])
    else if ltb (length found) room
    then ok (some found, drop (length found) (skip_space s))
    else fault

-- The version is compared with the first six bytes of "HTTP/1.", and has a 0 or a 1 at place 7.
unfoldable pub is_version : Bytes → Bool
is_version version =
    streq (take 6 version) (codes "HTTP/1")
    && ((get_or version 7 0 == b'1') || (get_or version 7 0 == b'0'))

-- The request line: the method, the URI and the number of bytes that the line takes.
pub record RequestLine : Type 0 where
  pub method : Method
  pub uri : Bytes
  pub offset : ℕ

-- The checks of `parse_request_line` once the method is known. Place 7 of a version of six bytes is
-- behind the terminator and has no value.
unfoldable pub checked_version : Bytes → Method → Bytes → Bytes → ℕ → Run (Option RequestLine)
checked_version method m uri version uri_len =
    if is_version version
    then ok (
        some (record {
          method = m;
          uri = take uri_len uri;
          offset = length method + uri_len + length version + 4;
        }))
    else if streq version (codes "HTTP/1")
    then fault
    else ok none

-- What is read of an array without a value is a fault.
unfoldable pub checked_line :
    Option Bytes → Option Bytes → Option Bytes → ℕ → Run (Option RequestLine)
checked_line none uri version uri_len = fault
checked_line (some method) uri version uri_len = elim (set_method method) [
  | none ↦ ok none
  | some m ↦ elim uri [
    | none ↦ fault
    | some u ↦ elim version [ none ↦ fault | some v ↦ checked_version method m u v uri_len ]
  ]
]

-- `parse_request_line`: `none` is the answer false.
unfoldable pub parse_request_line : Bytes → Run (Option RequestLine)
parse_request_line buf = do
  uri_len ← get_uri_len buf
  (method, after_method) ← scan_word 8 buf
  (uri, after_uri) ← scan_word (uri_len + 1) after_method
  (version, _) ← scan_word 9 after_uri
  checked_line method uri version uri_len

-- `split_query_string` of a path: the URI, and the query string's list.
unfoldable pub split_query_string : Bytes → Run (Bytes × Option (List Entry))
split_query_string path = elim (strchr path b'?') [
  | none ↦ ok (path, none)
  | some n ↦ do q ← query_parser (drop (n + 1) path); ok (take n path, some q)
]

-- `buff + offset` as a C string: not behind the terminator.
unfoldable pub text_at : Bytes → ℕ → Run Bytes
text_at buff offset = if leb offset (length buff) then ok (drop offset buff) else fault

-- The rest of `requestNew` after the request line.
unfoldable pub request_of : Bytes → RequestLine → Run Request
request_of buff line = do
  (uri, query) ← split_query_string line.uri
  lines ← text_at buff line.offset
  (h, passed) ← header_parser lines
  cs ← cookies_parser (some h)
  left ← text_at buff (line.offset + passed)
  body ← body_parser (some h) left
  ok (record {
    method = line.method;
    path = line.uri;
    uri = uri;
    query_string = query;
    post_body = body;
    headers = some h;
    cookies = cs;
  })

-- `requestNew`: `none` is NULL.
unfoldable pub request_new : Bytes → Run (Option Request)
request_new buff = do
  parsed ← parse_request_line buff
  elim parsed [ none ↦ ok none | some line ↦ do r ← request_of buff line; ok (some r) ]
