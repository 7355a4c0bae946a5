-- ===== src/Http/Cookies.antt =====
-- src/http/cookies.c: the cookies of a request, and one cookie as a line of the response. The
-- list of cookies is extended behind its head only.
pub mod Parse
pub mod Line
mod Tests
use facebooc.Base.{
  ℕ, ◌+◌, ◌-◌, ◌==◌, Bool, true, false, ◌||◌, Option, none, some, List, [], ◌∷◌, ◌++◌, Bytes, codes,
  length, take, drop, if◌then◌else◌, strchr, streq, c_str, Run, ok, fault, ◌>>=◌,
}
use facebooc.Utility.Search.{StringView, string_view_ctor, string_view_dup, find_first_of}
use facebooc.Http.Url.{Decoded, url_decoder}
use facebooc.Http.Form.{Entry}
use facebooc.Http.Header.{Header, header_get}

-- `Cookie`, where NULL is `none`.
pub record Cookie : Type 0 where
  pub key : Option Bytes
  pub value : Option Bytes
  pub expires : Option Bytes
  pub max_age : Option Bytes
  pub domain : Option Bytes
  pub path : Option Bytes
  pub secure : Option Bytes
  pub httponly : Option Bytes

-- `single_cookie_init__`
unfoldable pub single_cookie_init : Cookie
single_cookie_init = record {
  key = none;
  value = none;
  expires = none;
  max_age = none;
  domain = none;
  path = none;
  secure = none;
  httponly = none;
}

abbrev pub Cookies : Type 0
Cookies = List Cookie

unfoldable pub cookies_new : Cookies
cookies_new = []

-- `single_cookie_gen__` of a text with its first `=` at `seperator`.
unfoldable pub cookie_at : Bytes → ℕ → Cookie
cookie_at str seperator = record single_cookie_init {
  key = some (string_view_dup (record { begin = str; size = some seperator }));
  value = some (
      string_view_dup
        (record { begin = drop (seperator + 1) str; size = some (length str - seperator - 1) }));
}

-- `single_cookie_gen__`: without a `=` the key's size is a negative number that no buffer has.
unfoldable pub single_cookie_gen : Bytes → Run Cookie
single_cookie_gen str = do
  found ← find_first_of str (codes "=")
  elim found [ none ↦ fault | some at ↦ ok (cookie_at str (at - 1)) ]

-- The write of a NUL into the byte in front of the separator, which is the last one of the first
-- cookie. A separator at the start of the text has none.
unfoldable pub cut_at : Bytes → Option ℕ → Run Bytes
cut_at str none = ok str
cut_at str (some end) = if end == 0 then fault else ok (take (end - 1) str)

-- The text left of a cookie header, which is then all passed: the one round of the loop in
-- `cookies_parser`.
unfoldable pub cookie_round : Bytes → Run Cookies
cookie_round str = elim (strchr str b'=') [
  | none ↦ ok cookies_new
  | some i ↦ do decoded ← url_decoder str; c ← single_cookie_gen (c_str decoded.text); ok (c ∷ [])
]

unfoldable pub cookies_of : Bytes → Run Cookies
cookies_of [] = ok cookies_new
cookies_of (c ∷ str) = do
  sep ← string_view_ctor (c ∷ str) (codes "; ")
  cut ← cut_at (c ∷ str) sep.size
  cookie_round cut

-- `cookies_parser`
unfoldable pub cookies_parser : Option Header → Run (Option Cookies)
cookies_parser header = elim (header_get header (codes "cookie")) [
  | none ↦ ok none
  | some str ↦ do cs ← cookies_of str; ok (some cs)
]

-- `Cookies_insert`, where a missing argument is NULL.
unfoldable pub cookies_insert : Cookies → Option Bytes → Option Bytes → Cookies
cookies_insert cs none value = cs
cookies_insert cs (some []) value = cs
cookies_insert cs (some (c ∷ key)) none = cs
cookies_insert cs (some (c ∷ key)) (some value) =
    record single_cookie_init { key = some (c ∷ key); value = some value } ∷ cs

unfoldable pub cookies_init : Option Bytes → Option Bytes → Cookies
cookies_init key value = cookies_insert cookies_new key value

-- The loop of `Cookies_get`, where every cookie of a list has a key.
unfoldable pub find_cookie : Cookies → Bytes → Option Cookie
find_cookie [] key = none
find_cookie (c ∷ cs) key = elim c.key [
  | none ↦ find_cookie cs key
  | some k ↦ let rest = find_cookie cs key in if streq k key then some c else rest
]

unfoldable pub cookies_get : Option Cookies → Bytes → Option Cookie
cookies_get none key = none
cookies_get (some cs) key = find_cookie cs key

-- `Cookie_init` and `Cookie_init_move`
unfoldable pub cookie_init : Entry → Cookie
cookie_init p = record single_cookie_init { key = some p.key; value = some p.value }

unfoldable pub or_else : Option Bytes → Bytes → Bytes
or_else none d = d
or_else (some s) d = s

unfoldable pub flag : Option Bytes → Bytes → Bytes
flag none s = []
flag (some x) s = s

-- The template of `Cookie_to_string` for a cookie with a key and a value, and then its text. It is
-- written to a buffer of the right size.
unfoldable pub cookie_text : Cookie → Bytes → Bytes → Bytes
unfolding or_else flag
cookie_text c key value =
    key
    ++ codes "="
    ++ value
    ++ or_else c.expires []
    ++ or_else c.max_age []
    ++ or_else c.domain []
    ++ or_else c.path (codes "; Path=/")
    ++ flag c.secure (codes "; Secure")
    ++ flag c.httponly (codes "; HttpOnly")

-- `Cookie_to_string`, where `strlen` of a key or a value that is NULL is a fault.
unfoldable pub cookie_to_string : Cookie → Run Bytes
cookie_to_string c = elim c.key [
  | none ↦ fault
  | some key ↦ elim c.value [ none ↦ fault | some value ↦ ok (cookie_text c key value) ]
]

-- `Cookie_attr`
pub data CookieAttr : Type 0 where
  key_attr : CookieAttr
  value_attr : CookieAttr
  expire : CookieAttr
  max_age_attr : CookieAttr
  domain_attr : CookieAttr
  path_attr : CookieAttr
  secure_attr : CookieAttr
  httponly_attr : CookieAttr

-- `c_av_fmt_str`, the part of each format in front of `%s`; the first two have no `%s`.
unfoldable pub av_text : CookieAttr → Bytes → Bytes
av_text key_attr value = []
av_text value_attr value = []
av_text expire value = codes "; Expires=" ++ value
av_text max_age_attr value = codes "; Max-Age=" ++ value
av_text domain_attr value = codes "; Domain=" ++ value
av_text path_attr value = codes "; Path=" ++ value
av_text secure_attr value = codes "; " ++ value
av_text httponly_attr value = codes "; " ++ value

-- The write of a field by its place in the record.
unfoldable pub put_attr : Cookie → CookieAttr → Bytes → Cookie
put_attr c key_attr text = record c { key = some text }
put_attr c value_attr text = record c { value = some text }
put_attr c expire text = record c { expires = some text }
put_attr c max_age_attr text = record c { max_age = some text }
put_attr c domain_attr text = record c { domain = some text }
put_attr c path_attr text = record c { path = some text }
put_attr c secure_attr text = record c { secure = some text }
put_attr c httponly_attr text = record c { httponly = some text }

-- `Cookie_set_attr`
unfoldable pub cookie_set_attr : Cookie → CookieAttr → Option Bytes → Cookie
cookie_set_attr c attr none = c
cookie_set_attr c attr (some []) = c
cookie_set_attr c attr (some (b ∷ value)) = put_attr c attr (av_text attr (b ∷ value))
