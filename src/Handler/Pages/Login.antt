-- ===== src/Handler/Pages/Login.antt =====
-- A POST to `login` with the right password, and the request that comes with the cookie it sets.
use mathlib.Core.Option
use facebooc.Base.{
  ◌≡◌, refl, ap, ◌∙◌, inl, inr, Bool, true, false, Option, none, some, List, [], ◌∷◌, Bytes, codes,
  streq, streq_refl, eq_of_streq, if◌then◌else◌, ok, ◌>>=◌, Bool-cases,
}
use facebooc.BasicString.{whole}
use facebooc.Base64.Injective.{IsText}
use facebooc.Http.Cookies.{
  Cookies, cookie_init, cookie_set_attr, cookie_to_string, put_attr, cookies_get, find_cookie,
}
use facebooc.Utility.Digest.{sha256_string}
use facebooc.Database.{Sqlite}
use facebooc.Database.Tables.{Tables}
use facebooc.Models.Account.{account_get_by_sid}
use facebooc.Models.Account.Users.{User, account_of, knows}
use facebooc.Models.Account.Reading.{account_auth_lem}
use facebooc.Models.Account.Unique.{Holds}
use facebooc.Models.Session.{Session}
use facebooc.Models.Session.Login.{session_create_lem, made_row}
use facebooc.Models.Session.Reading.{session_from, with_credentials}
use facebooc.Models.Sql.{any, IsReading, IsWriting}
use facebooc.Models.Sql.First.{first}
use facebooc.Response.{
  Response, response_new, response_set_status, response_add_header, response_add_cookie,
}
use facebooc.Template.{Template}
use facebooc.Handler.Account.{get_account, set_all}
use facebooc.Handler.Pages.{Outside, add_sid, session_response, login_fields, logged_in, login_post}

-- The cookies of a request with a session.
abbrev pub sid_cookies : Bytes → Cookies
sid_cookies sid = cookie_init (record { key = codes "sid"; value = sid }) ∷ []

-- What `knows` says of the first user, and of the others.
of_first :
    (hash : Bytes) (u : User) (b : Bool) (rest : Option User)
    → b ≡ true
    → elim (if b then some u else rest) [ none ↦ false | some v ↦ streq hash v.password ] ≡ true
    → streq hash u.password ≡ true
of_first hash u true rest e h = h
of_first hash u false rest e h = absurd (cc)

of_rest :
    (hash : Bytes) (u : User) (b : Bool) (rest : Option User)
    → b ≡ false
    → elim (if b then some u else rest) [ none ↦ false | some v ↦ streq hash v.password ] ≡ true
    → elim rest [ none ↦ false | some v ↦ streq hash v.password ] ≡ true
of_rest hash u true rest e h = absurd (cc)
of_rest hash u false rest e h = h

streq_back : (s t : Bytes) → streq s t ≡ true → streq t s ≡ true
streq_back s t h = ap (λ x. streq t x) (eq_of_streq s t h) ∙ streq_refl t

-- An account that knows its password has the credentials.
knows-with_credentials :
    (username hash : Bytes) (us : List User)
    → knows username hash us ≡ true
    → (u : User) × (with_credentials username hash us ≡ some u)
unfolding knows with_credentials first
knows-with_credentials username hash [] h = absurd (cc)
knows-with_credentials username hash (u ∷ us) h = elim (Bool-cases (streq u.username username)) [
  | inl here ↦ (
    u,
    rw (here, streq_back hash u.password (of_first hash u (streq u.username username) _ here h))
        refl,
  )
  | inr later ↦ rw later (
      knows-with_credentials username hash us
        (of_rest hash u (streq u.username username) _ later h))
]

module _ (S : Sqlite) where
  get_account-sid :
      (db : S.Db) (sid : Bytes)
      → get_account S db (some (sid_cookies sid)) ≡ account_get_by_sid S db (some (whole sid))
  unfolding get_account cookies_get find_cookie cookie_init streq
  get_account-sid db sid = refl

-- The cookie can always be printed.
add_sid_ok :
    (response : Response) (sid expires : Bytes)
    → (r : Response) × (add_sid response sid expires ≡ ok r)
unfolding add_sid response_add_cookie cookie_to_string cookie_init cookie_set_attr put_attr
add_sid_ok response sid [] = (_, refl)
add_sid_ok response sid (c ∷ expires) = (_, refl)

session_response-status :
    (out : Outside) (s : Session)
    → (r : Response) × (session_response out s ≡ ok r) × (r.status ≡ 302)
unfolding session_response response_set_status response_add_header
session_response-status out s =
    let added = add_sid_ok (response_set_status response_new 200) s.session_id out.expires_later in
    (sent added.0, ap (λ x. x >>= λ r. ok (sent r)) added.1, refl)
  where
    sent : Response → Response
    sent r =
        response_add_header (response_set_status r 302)
          (record { key = codes "Location"; value = codes "/dashboard/" })

module _ (S : Sqlite) (view : S.Db → Tables) (reading : IsReading S view)
    (writing : IsWriting S view) (db : S.Db) (us : List User) (out : Outside)
    (username password : Bytes) (template : Template) (filled : Template)
    (held : Holds S view reading writing db us)
    (unused : any (λ r. streq r.session out.sid) (view db).sessions ≡ false)
    (name_text : IsText username)
    (known : knows username (sha256_string out.digest (whole password)) us ≡ true)
    (set : set_all template 3 (login_fields (whole username) (whole password)) ≡ ok filled) where
  abbrev hash : Bytes
  hash = sha256_string out.digest (whole password)

  -- Where sqlite3 answers as `IsReading` and `IsWriting` say, for a username that can be encoded
  -- and decoded and a template that takes the fields, on a database of users without a common email
  -- or id, with a session text that no session has, a POST to `login` with the password of the
  -- first user with the username is answered by a redirect, and `get_account` takes a request with
  -- the new cookie for a request of that user.
  pub login_post-get_account :
      (u : User) × (with_credentials username (sha256_string out.digest (whole password)) us
        ≡ some u)
      × (db' : S.Db) × (response : Response) × (login_post S out db template
            (whole username)
            (whole password)
          ≡ ok (db', response))
      × (response.status ≡ 302)
      × (get_account S db' (some (sid_cookies out.sid)) ≡ ok (some (account_of u)))
  unfolding login_post logged_in
  login_post-get_account =
      let found = knows-with_credentials username hash us known in
      let made =
        session_create_lem S view reading writing db out.now out.sid unused us out.digest username
          password held name_text in
      let answer =
        session_response-status out
          (session_from (made_row S view reading writing db out.now out.sid unused found.0.id)) in
      (
        found.0,
        found.1,
        made.0,
        answer.0,
        rw
            (
              set,
              account_auth_lem S view reading db us out.digest username (whole password) held.stored
                  name_text,
              known,
              made.1,
              found.1,
              answer.1,
            )
            refl,
        answer.2,
        get_account-sid S made.0 out.sid ∙ made.2 ∙ ap (λ o. ok (Option.map account_of o)) found.1,
      )
