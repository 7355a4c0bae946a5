-- ===== src/Handler/Markup/Room.antt =====
-- How much an entry of the search page has room for.
use facebooc.Base.{
  ℕ, ◌+◌, ◌-◌, ◌≤◌, ◌≡◌, ap, ap₂, ◌∙◌, ◌++◌, Bytes, codes, c_str-IsCStr, IsCStr, length,
  length-append, take-short, ltb, if◌then◌else◌, ok, fault, arith,
}
use facebooc.BasicString.{whole}
use facebooc.Models.Account.{Account}
use facebooc.Handler.Account.{decimal}
use facebooc.Handler.Markup.{text_of, snprintf, search_entry}

-- The line of an account in the results.
unfoldable pub result_line : Bytes → Bytes → Bytes → Bytes
result_line id name email =
    codes "<li><a href=\"/profile/"
    ++ id
    ++ codes "/\">"
    ++ name
    ++ codes "</a> (<span>"
    ++ email
    ++ codes "</span>)</li>\n"

result_length :
    (id name email : Bytes)
    → length (result_line id name email) ≡ 51 + length id + length name + length email
unfolding result_line
result_length id name email = omega (
  arith,
  length-append (codes "<li><a href=\"/profile/") id,
  length-append (codes "<li><a href=\"/profile/" ++ id) (codes "/\">"),
  length-append (codes "<li><a href=\"/profile/" ++ id ++ codes "/\">") name,
  length-append (codes "<li><a href=\"/profile/" ++ id ++ codes "/\">" ++ name)
      (codes "</a> (<span>"),
  length-append
      (codes "<li><a href=\"/profile/" ++ id ++ codes "/\">" ++ name ++ codes "</a> (<span>") email,
  length-append
      (codes "<li><a href=\"/profile/"
        ++ id
        ++ codes "/\">"
        ++ name
        ++ codes "</a> (<span>"
        ++ email)
      (codes "</span>)</li>\n"),
)

-- A text that is shorter than the limit is written as a whole, if there is room for it and its NUL.
snprintf_whole :
    (room limit : ℕ) (text : Bytes)
    → length text + 1 ≤ limit
    → snprintf room limit text ≡ (if ltb room (length text + 1) then fault else ok text)
unfolding snprintf
snprintf_whole room limit text h = ground (arith, h, take-short text (limit - 1) (omega (arith, h)))

room_left : (d n e len : ℕ) → len ≡ 51 + d + n + e → ltb 128 (len + 1) ≡ ltb 76 (d + n + e)
room_left d n e len h = ground (arith, h)

-- With an id of ten digits at most, an entry of the search page is written as a whole when the
-- digits, the name and the email have 76 bytes at most together; with more, the write goes past the
-- array.
pub search_entry-room :
    (a : Account) (name email : Bytes)
    → a.name ≡ whole name
    → a.email ≡ whole email
    → IsCStr name
    → IsCStr email
    → length (decimal a.id) ≤ 10
    → search_entry a ≡ (
        if ltb 76 (length (decimal a.id) + length name + length email)
        then fault
        else ok (result_line (decimal a.id) name email))
unfolding search_entry result_line
search_entry-room a name email same_name same_email hn he short =
    ap₂
      (λ n e.
        snprintf 128 (62 + n.size + e.size) (result_line (decimal a.id) (text_of n) (text_of e)))
      same_name same_email
    ∙ ap₂ (λ n e. snprintf 128 (62 + length name + length email) (result_line (decimal a.id) n e))
        (c_str-IsCStr name hn) (c_str-IsCStr email he)
    ∙ snprintf_whole 128 (62 + length name + length email) (result_line (decimal a.id) name email)
        (omega (arith, short, result_length (decimal a.id) name email))
    ∙ ap (λ b. if b then fault else ok (result_line (decimal a.id) name email))
        (room_left (length (decimal a.id)) (length name) (length email)
          (length (result_line (decimal a.id) name email))
          (result_length (decimal a.id) name email))
