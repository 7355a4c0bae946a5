-- ===== src/Response/Write.antt =====
-- What a response sends.
use facebooc.Base.{
  ℕ, ◌+◌, ◌≡◌, ◌≢◌, ◌<◌, ◌≤◌, refl, sym, true, some, [], ◌∷◌, ◌++◌, codes, length, leb, take, Bytes,
  ok, arith, take-append,
}
use facebooc.BasicString.{BasicString, IsFull}
use facebooc.Http.Header.Print.{lines, header_to_string-fits}
use facebooc.Response.{
  Response, response_set_body_move, response_write, sent_body, sent_header, status_text, phrase,
  is_status, send,
}
use facebooc.Response.Status.{status_line-is_status}

leb-true : (a b : ℕ) → a ≤ b → leb a b ≡ true
leb-true a b h = ground arith

-- A response with one of the statuses of the enumeration, a moved body of the right size, and at
-- least one header, all of which fit the header's buffer, is given to the socket as status line,
-- headers, an empty line and the whole body. Of each of these four, the bytes are sent that the
-- socket accepts.
pub response_write-move :
    (room : ℕ) (accepts : ℕ → ℕ) (r : Response) (ctx : BasicString)
    → is_status r.status ≡ true
    → IsFull ctx
    → Response.header r ≢ []
    → length (lines (Response.header r)) < room
    → (text : Bytes) × (phrase r.status ≡ some text)
      × (0 < length text)
      × (response_write room accepts (some (response_set_body_move r ctx))
          ≡ ok (
            take (accepts 0) (status_text r.status text)
                ++ take (accepts 1) (lines r.header)
                ++ take (accepts 2) (codes "\r\n")
                ++ take (accepts 3) ctx.bytes,
            room,
          ))
unfolding response_write sent_body sent_header send response_set_body_move
response_write-move room accepts r ctx known full some_header fits =
    let (text, found, some_byte, line) = status_line-is_status r.status known in
    (
      text,
      found,
      some_byte,
      rw
          (
            line,
            header_to_string-fits room r.header some_header fits,
            sym full.exact,
            leb-true (length ctx.bytes) (length ctx.bytes + 1) (omega arith),
            take-append ctx.bytes (0 ∷ []),
          )
          refl,
    )
