-- ===== src/Handler/Account.antt =====
-- src/handler/helper.c: who sends a request, the id in a URI, and what the handlers set in a template.
use facebooc.Base.{
  ℕ, zero, suc, ◌+◌, ◌-◌, ◌*◌, ◌/◌, ◌%◌, Bool, ◌&&◌, Option, none, some, List, [], ◌∷◌, ◌++◌, Bytes,
  codes, take, drop, strchr, ltb, leb, ◌==◌, if◌then◌else◌, Run, ok, fault, ◌>>=◌,
}
use facebooc.Base.Int.{ℤ, pos, negsuc}
use facebooc.BasicString.{whole}
use facebooc.Http.Cookies.{Cookies, cookies_get}
use facebooc.Http.Header.{is_space}
use facebooc.Database.{Sqlite}
use facebooc.Models.Account.{Account, account_get_by_sid}
use facebooc.Template.{Template, template_set}

-- `get_account`: cookies without one called `sid` are read through NULL.
unfoldable pub get_account : (S : Sqlite) → S.Db → Option Cookies → Run (Option Account)
get_account S db none = ok none
get_account S db (some c) = elim (cookies_get (some c) (codes "sid")) [
  | none ↦ fault
  | some cookie ↦ elim cookie.value [
    | none ↦ fault
    | some sid ↦ account_get_by_sid S db (some (whole sid))
  ]
]

-- `atoi`
unfoldable pub is_digit : ℕ → Bool
is_digit c = leb b'0' c && leb c b'9'

unfoldable pub digits_value : ℕ → Bytes → ℕ
digits_value n [] = n
digits_value n (c ∷ s) =
    let more = digits_value (n * 10 + (c - b'0')) s in if is_digit c then more else n

unfoldable pub negative : ℕ → ℤ
negative zero = pos 0
negative (suc n) = negsuc n

unfoldable pub skip_spaces : Bytes → Bytes
skip_spaces [] = []
skip_spaces (c ∷ s) = let rest = skip_spaces s in if is_space c then rest else c ∷ s

unfoldable pub signed_value : Bytes → ℤ
signed_value [] = pos 0
signed_value (c ∷ s) =
    if c == b'-'
    then negative (digits_value 0 s)
    else if c == b'+'
    then pos (digits_value 0 s)
    else pos (digits_value 0 (c ∷ s))

abbrev pub atoi : Bytes → ℤ
atoi s = signed_value (skip_spaces s)

-- The part of a URI up to the next `/`, in an array of 10 bytes that keeps its terminator.
unfoldable pub id_at : Bytes → Run ℤ
id_at begin = elim (strchr begin b'/') [
  | none ↦ fault
  | some len ↦ if ltb len 10 then ok (atoi (take len begin)) else fault
]

-- `get_id`
unfoldable pub get_id : Bytes → Run ℤ
get_id [] = fault
get_id (c ∷ uri) = elim (strchr uri b'/') [
  | none ↦ fault
  | some slash ↦ id_at (drop (slash + 1) uri)
]

-- The decimal digits of a number, for `%d`; the fuel is the number.
unfoldable pub decimal_loop : ℕ → ℕ → Bytes → Bytes
decimal_loop zero n text = text
decimal_loop (suc fuel) n text =
    let more = decimal_loop fuel (n / 10) ((b'0' + n % 10) ∷ text) in
    if ltb n 10 then (b'0' + n) ∷ text else more

unfoldable pub decimal : ℤ → Bytes
decimal (pos n) = decimal_loop (n + 1) n []
decimal (negsuc n) = b'-' ∷ decimal_loop (n + 2) (n + 1) []

-- `snprintf(redir_to, 32, "/profile/%d/", id)`
unfoldable pub profile_path : ℤ → Bytes
profile_path id = take 31 (codes "/profile/" ++ decimal id ++ codes "/")

-- Calls of `templateSet` (and of `invalid`) in a row; each pair has an address of its own.
unfoldable pub set_all : Template → ℕ → List (Bytes × Bytes) → Run Template
set_all template addr [] = ok template
set_all template addr ((key, value) ∷ rest) = do
  t ← template_set template addr key value
  set_all t (addr + 1) rest
