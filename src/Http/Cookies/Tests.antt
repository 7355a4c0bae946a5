-- ===== src/Http/Cookies/Tests.antt =====
-- The cookies of src/http/cookies.c at concrete texts.
use facebooc.Base.{◌≡◌, ap, [], ◌∷◌, ◌++◌, codes, length, arith}
use facebooc.Http.Form.{Entry}
use facebooc.Http.Cookies.{cookies_of}
use facebooc.Http.Cookies.Parse.{cookies_of-cut}

cookies_of-cut_example :
    cookies_of ((codes "sid=4" ++ b'2' ∷ []) ++ b';' ∷ 32 ∷ codes "theme=dark")
    ≡ cookies_of (codes "sid=4")
cookies_of-cut_example =
    cookies_of-cut (codes "sid=4") (codes "theme=dark") b'2' (λ e. omega (arith, ap length e))
      (ground arith) (ground arith)

abbrev sid : Entry
sid = record { key = codes "sid"; value = codes "42" }
