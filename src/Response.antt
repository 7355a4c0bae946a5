-- ===== src/Response.antt =====
-- src/response.c: the answer to a request, and how it is written to the socket.
pub mod Status
mod Tests
pub mod Write
use facebooc.Base.{
  ℕ, zero, suc, ◌+◌, ◌/◌, ◌%◌, Bool, ◌&&◌, ◌||◌, c_str, Option, none, some, List, [], ◌∷◌, ◌++◌,
  Bytes, codes, length, take, Run, ok, fault, ◌>>=◌, leb, ◌==◌, if◌then◌else◌,
}
use facebooc.BasicString.{BasicString}
use facebooc.Http.Form.{Entry}
use facebooc.Http.Header.{Header, header_new, header_insert, header_insert_move, header_to_string}
use facebooc.Http.Cookies.{Cookie, cookie_to_string}

-- `STATUSES`, where a place without a literal is NULL.
abbrev pub statuses : List (List Bytes)
statuses =
    (codes "" ∷ [])
    ∷ (codes "Continue" ∷ codes "Switching Protocols" ∷ [])
    ∷ (codes "OK"
        ∷ codes "Created"
        ∷ codes "Accepted"
        ∷ codes "Non-Authoritative Information"
        ∷ codes "No Content"
        ∷ codes "Reset Content"
        ∷ codes "Partial Content"
        ∷ [])
    ∷ (codes "Multiple Choices"
        ∷ codes "Moved Permanently"
        ∷ codes "Found"
        ∷ codes "See Other"
        ∷ codes "Not Modified"
        ∷ codes "Use Proxy"
        ∷ codes "Switch Proxy"
        ∷ codes "Temporary Redirect"
        ∷ codes "Permanent Redirect"
        ∷ [])
    ∷ (codes "Bad Request"
        ∷ codes "Unauthorized"
        ∷ codes "Payment Required"
        ∷ codes "Forbidden"
        ∷ codes "Not Found"
        ∷ codes "Method Not Allowed"
        ∷ codes "Not Acceptable"
        ∷ codes "Proxy Authentication Required"
        ∷ codes "Request Timeout"
        ∷ codes "Conflict"
        ∷ codes "Gone"
        ∷ codes "Length Required"
        ∷ codes "Precondition Failed"
        ∷ codes "Request Entity Too Large"
        ∷ codes "Request-URI Too Long"
        ∷ codes "Unsupported Media Type"
        ∷ codes "Requested Range Not Satisfiable"
        ∷ codes "Expectation Failed"
        ∷ codes "I'm A Teapot"
        ∷ codes "Authentication Timeout"
        ∷ codes "Enhance Your Calm"
        ∷ [])
    ∷ (codes "Internal Server Error"
        ∷ codes "Not Implemented"
        ∷ codes "Bad Gateway"
        ∷ codes "Service Unavailable"
        ∷ codes "Gateway Timeout"
        ∷ codes "HTTP Version Not Supported"
        ∷ [])
    ∷ []

-- The literal at a place of an array, where there is one.
unfoldable pub at {ℓ} : {A : Type ℓ} → List A → ℕ → Option A
at [] n = none
at (x ∷ xs) zero = some x
at (x ∷ xs) (suc n) = at xs n

unfoldable pub phrase : ℕ → Option Bytes
phrase code = elim (at statuses (code / 100)) [ none ↦ none | some row ↦ at row (code % 100) ]

-- `STATUSES[code / 100][code % 100]`, for `%s`: NULL, or a place outside the array, is a fault.
unfoldable pub reason : ℕ → Run Bytes
reason code = elim (phrase code) [ none ↦ fault | some text ↦ ok text ]

-- `Response`, where `status` is the number of a `Status`.
pub record Response : Type 0 where
  pub status : ℕ
  pub header : Header
  pub body_len : ℕ
  pub body : Option Bytes

unfoldable pub response_new : Response
response_new = record { status = 200; header = header_new; body_len = 0; body = none }

unfoldable pub response_set_status : Response → ℕ → Response
response_set_status response status = record response { status = status }

unfoldable pub response_add_header : Response → Entry → Response
response_add_header r p = record r { header = header_insert r.header p }

unfoldable pub response_add_header_move : Response → Entry → Response
response_add_header_move r p = record r { header = header_insert_move r.header p }

unfoldable pub response_new_redirect : Bytes → Response
response_new_redirect location =
    response_add_header (response_set_status response_new 302)
      (record { key = codes "Location"; value = location })

unfoldable pub response_add_cookie : Response → Cookie → Run Response
response_add_cookie r c = do
  text ← cookie_to_string c
  ok (response_add_header_move r (record { key = codes "Set-Cookie"; value = text }))

-- `responseSetBody`: the copy that `strdup` makes ends at the first NUL, and the size is kept.
unfoldable pub response_set_body : Response → BasicString → Response
response_set_body r ctx = record r { body = some (c_str ctx.bytes); body_len = ctx.size }

-- `responseSetBody_move`
unfoldable pub response_set_body_move : Response → BasicString → Response
response_set_body_move r ctx = record r { body = some ctx.bytes; body_len = ctx.size }

unfoldable pub response_get_status : Option Response → ℕ
response_get_status none = 400
response_get_status (some r) = r.status

-- The numbers of the enumeration `Status`.
unfoldable pub is_status : ℕ → Bool
is_status code =
    (leb 100 code && leb code 101)
    || (leb 200 code && leb code 206)
    || (leb 300 code && leb code 308)
    || (leb 400 code && leb code 420)
    || (leb 500 code && leb code 505)

-- The decimal digits of a status with a phrase: 0, or a number of three digits.
unfoldable pub digits : ℕ → Bytes
digits n =
    if n == 0 then b'0' ∷ [] else (b'0' + n / 100) ∷ (b'0' + n / 10 % 10) ∷ (b'0' + n % 10) ∷ []

unfoldable pub status_text : ℕ → Bytes → Bytes
status_text code text = codes "HTTP/1.0 " ++ digits code ++ codes " " ++ text ++ codes "\r\n"

-- `status_line`, a buffer of 128 bytes.
unfoldable pub status_line : ℕ → Run Bytes
status_line code = do text ← reason code; ok (take 127 (status_text code text))

-- What a call of `send` takes: at most as many bytes as the socket, which does not block, accepts
-- at that time. The rest is not sent again.
unfoldable pub send : (ℕ → ℕ) → ℕ → Bytes → Bytes
send accepts i text = take (accepts i) text

unfoldable pub sent_header : Option Bytes → Bytes
sent_header none = []
sent_header (some s) = s

-- What is given to `send` of the body: `body_len` bytes, which the body must have.
unfoldable pub sent_body : ℕ → Option Bytes → Run Bytes
sent_body n none = if n == 0 then ok [] else fault
sent_body n (some s) = if leb n (length s + 1) then ok (take n (s ++ 0 ∷ [])) else fault

-- `responseWrite`: all that is sent, one `send` behind the other; `accepts` is how many bytes the
-- socket accepts at each of them. The size of the header's buffer is a static of src/http/header.c,
-- given and returned.
unfoldable pub response_write : ℕ → (ℕ → ℕ) → Option Response → Run (Bytes × ℕ)
response_write room accepts none = ok ([], room)
response_write room accepts (some r) = do
  line ← status_line r.status
  (header, grown) ← header_to_string room r.header
  body ← sent_body r.body_len r.body
  ok (
    send accepts 0 line
        ++ send accepts 1 (sent_header header)
        ++ send accepts 2 (codes "\r\n")
        ++ send accepts 3 body,
    grown,
  )
