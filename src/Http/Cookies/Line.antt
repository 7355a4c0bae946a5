-- ===== src/Http/Cookies/Line.antt =====
-- Cookies that a handler builds: the list of them, and the `Set-Cookie` line of one.
use facebooc.Base.{
  ◌≡◌, ◌≢◌, refl, ap, ◌∙◌, some, [], ◌∷◌, ◌++◌, Bytes, codes, streq_refl, streq_ne, ok, append-nil,
}
use facebooc.Http.Form.{Entry}
use facebooc.Http.Cookies.{
  Cookies, or_else, flag, cookies_insert, cookies_get, find_cookie, single_cookie_init, cookie_init,
  cookie_to_string, cookie_text, cookie_set_attr, put_attr, av_text, expire,
}

-- A cookie that is inserted under a key that is not empty is the one found under that key, and the
-- others are found as before.
pub cookies_get-insert :
    (cs : Cookies) (key other value : Bytes)
    → key ≢ []
    → (cookies_get (some (cookies_insert cs (some key) (some value))) key
        ≡ some (cookie_init (record { key = key; value = value })))
      × (key ≢ other
          → cookies_get (some (cookies_insert cs (some key) (some value))) other
            ≡ cookies_get (some cs) other)
unfolding cookies_get cookies_insert find_cookie cookie_init
cookies_get-insert cs [] other value named = absurd (named refl)
cookies_get-insert cs (c ∷ key) other value named =
    (rw (streq_refl (c ∷ key)) refl, λ differ. rw (streq_ne (c ∷ key) other differ) refl)

-- The attributes that are missing add nothing.
no_more : (x y : Bytes) → x ++ [] ++ [] ++ y ++ [] ++ [] ≡ x ++ y
no_more x y =
    append-nil (x ++ [] ++ [] ++ y ++ [])
    ∙ append-nil (x ++ [] ++ [] ++ y)
    ∙ ap (λ z. z ++ y) (append-nil (x ++ []) ∙ append-nil x)

-- The line of a cookie with an expiry date, which is not empty: `key=value; Expires=date; Path=/`.
pub cookie_to_string-expire :
    (p : Entry) (date : Bytes)
    → date ≢ []
    → cookie_to_string (cookie_set_attr (cookie_init p) expire (some date))
      ≡ ok (p.key ++ codes "=" ++ p.value ++ (codes "; Expires=" ++ date) ++ codes "; Path=/")
unfolding cookie_to_string cookie_set_attr put_attr cookie_init cookie_text av_text
    single_cookie_init or_else flag
cookie_to_string-expire p [] some_date = absurd (some_date refl)
cookie_to_string-expire p (b ∷ date) some_date =
    ap ok (
      no_more (p.key ++ codes "=" ++ p.value ++ (codes "; Expires=" ++ b ∷ date))
        (codes "; Path=/"))
