-- ===== src/Request/Whole.antt =====
-- requestNew of src/request.c on a whole request: each part of it is given to the parser for that part.
use facebooc.Base.{
  leb, length-append, ◌≤◌, ℕ, zero, suc, ◌+◌, ◌<◌, ◌≡◌, refl, ap, ◌∙◌, sym, true, Option, some,
  List, [], ◌∷◌, ◌++◌, map, append_assoc, Bytes, length, drop, ok, arith, All,
}
use facebooc.Http.Body.{body_parser}
use facebooc.Http.Cookies.{Cookies, cookies_parser}
use facebooc.Http.Form.{Entry}
use facebooc.Http.Header.Read.{IsPlain, wire, line_of, lower, header_parser-wire}
use facebooc.Request.{text_at}
use facebooc.Request.{
  Method, RequestLine, set_method, is_version, parse_request_line, split_query_string, request_of,
  request_new,
}
use facebooc.Request.Line.{IsWord, parse_request_line-words}
use facebooc.Utility.Search.First.{IsAscii}

-- What stands behind the request line.
abbrev behind_line : List Entry → Bytes → Bytes
behind_line es body = wire es (b'\r' ∷ b'\n' ∷ body)

-- A request as it is sent: the words of the request line, the headers, an empty line and the body.
abbrev pub request_text : Bytes → Bytes → Bytes → List Entry → Bytes → Bytes
request_text n u v es body = n ++ 32 ∷ (u ++ 32 ∷ (v ++ b'\r' ∷ b'\n' ∷ behind_line es body))

drop-past : (k m : ℕ) (xs ys : Bytes) → k ≡ length xs + m → drop k (xs ++ ys) ≡ drop m ys
drop-past k m [] ys e = ap (λ j. drop j ys) {x = k} {y = m} (omega (arith, e))
drop-past zero m (x ∷ xs) ys e = absurd (omega (arith, e))
drop-past (suc k) m (x ∷ xs) ys e = drop-past k m xs ys (omega (arith, e))

-- The request line, which ends in a carriage return and a line feed, is passed over.
drop-line :
    (n u v rest : Bytes) (k : ℕ)
    → drop
        (length n + length u + length v + 4 + k)
        (n ++ 32 ∷ (u ++ 32 ∷ (v ++ b'\r' ∷ b'\n' ∷ rest)))
      ≡ drop k rest
drop-line n u v rest k =
    drop-past _ (1 + (length u + (1 + (length v + (2 + k))))) n
      (32 ∷ (u ++ 32 ∷ (v ++ b'\r' ∷ b'\n' ∷ rest))) (omega arith)
    ∙ drop-past _ (length u + (1 + (length v + (2 + k)))) (32 ∷ [])
        (u ++ 32 ∷ (v ++ b'\r' ∷ b'\n' ∷ rest)) (omega arith)
    ∙ drop-past _ (1 + (length v + (2 + k))) u (32 ∷ (v ++ b'\r' ∷ b'\n' ∷ rest)) (omega arith)
    ∙ drop-past _ (length v + (2 + k)) (32 ∷ []) (v ++ b'\r' ∷ b'\n' ∷ rest) (omega arith)
    ∙ drop-past _ (2 + k) v (b'\r' ∷ b'\n' ∷ rest) (omega arith)
    ∙ drop-past _ k (b'\r' ∷ b'\n' ∷ []) rest (omega arith)

wire-append : (es : List Entry) (rest : Bytes) → wire es rest ≡ wire es [] ++ rest
unfolding wire
wire-append [] rest = refl
wire-append (e ∷ es) rest =
    ap (λ s. line_of e ++ b'\r' ∷ b'\n' ∷ s) (wire-append es rest)
    ∙ sym (append_assoc (line_of e) (b'\r' ∷ b'\n' ∷ wire es []) rest)

-- The headers and the empty line are passed over.
drop-wire :
    (es : List Entry) (body : Bytes) → drop (length (wire es []) + 2) (behind_line es body) ≡ body
drop-wire es body =
    ap (drop (length (wire es []) + 2)) (wire-append es (b'\r' ∷ b'\n' ∷ body))
    ∙ drop-past _ 2 (wire es []) (b'\r' ∷ b'\n' ∷ body) refl

length-request_text :
    (n u v : Bytes) (es : List Entry) (body : Bytes)
    → length n + length u + length v + 4 + (length (wire es []) + 2)
      ≤ length (request_text n u v es body)
length-request_text n u v es body = omega (
  arith,
  length-append n (32 ∷ (u ++ 32 ∷ (v ++ b'\r' ∷ b'\n' ∷ behind_line es body))),
  length-append u (32 ∷ (v ++ b'\r' ∷ b'\n' ∷ behind_line es body)),
  length-append v (b'\r' ∷ b'\n' ∷ behind_line es body),
  ap length (wire-append es (b'\r' ∷ b'\n' ∷ body)),
  length-append (wire es []) (b'\r' ∷ b'\n' ∷ body),
)

leb-true : (a b : ℕ) → a ≤ b → leb a b ≡ true
leb-true a b h = ground arith

module _ (n u v : Bytes) (m : Method) (es : List Entry) (body : Bytes)
    (known : set_method n ≡ some m) (version : is_version v ≡ true) (wn : IsWord n) (wu : IsWord u)
    (wv : IsWord v) (short_n : length n < 8) (short_v : length v < 9) (plain : All IsPlain es)
    (ascii : IsAscii (behind_line es body)) where
  line : RequestLine
  line = record { method = m; uri = u; offset = length n + length u + length v + 4 }

  line_read : parse_request_line (request_text n u v es body) ≡ ok (some line)
  unfolding line
  line_read =
      parse_request_line-words n u v (b'\n' ∷ behind_line es body) m known version wn wu wv short_n
        short_v

  headers_left : text_at (request_text n u v es body) line.offset ≡ ok (behind_line es body)
  unfolding line text_at
  headers_left =
      rw
        (leb-true line.offset (length (request_text n u v es body))
          (omega (arith, length-request_text n u v es body)))
        (ap ok (
          ap (λ k. drop k (request_text n u v es body)) {y = length n + length u + length v + 4 + 0}
            (omega arith)
          ∙ drop-line n u v (behind_line es body) 0))

  body_left :
      text_at (request_text n u v es body) (line.offset + (length (wire es []) + 2)) ≡ ok body
  unfolding line text_at
  body_left =
      rw
        (leb-true (line.offset + (length (wire es []) + 2)) (length (request_text n u v es body))
          (omega (arith, length-request_text n u v es body)))
        (ap ok
          (drop-line n u v (behind_line es body) (length (wire es []) + 2) ∙ drop-wire es body))

  -- A request as it is sent, of a known method of at most seven bytes, a URI and a version that the
  -- code accepts, all without white space, plain ASCII headers and a body, is read as its parts: the
  -- method, the path, the headers in lower case, and what `split_query_string`, `cookies_parser` and
  -- `body_parser` give, where they return, for exactly these parts.
  pub request_new-request_text :
      (uri : Bytes) (query : Option (List Entry)) (cookies : Option Cookies)
      (post_body : Option (List Entry))
      → split_query_string u ≡ ok (uri, query)
      → cookies_parser (some (map lower es)) ≡ ok cookies
      → body_parser (some (map lower es)) body ≡ ok post_body
      → request_new (request_text n u v es body)
        ≡ ok (
            some (record {
              method = m;
              path = u;
              uri = uri;
              query_string = query;
              post_body = post_body;
              headers = some (map lower es);
              cookies = cookies;
            }))
  unfolding request_new request_of line
  request_new-request_text uri query cookies post_body split found parsed =
      rw
        (
          line_read,
          split,
          headers_left,
          header_parser-wire es body plain ascii,
          found,
          body_left,
          parsed,
        )
        refl
