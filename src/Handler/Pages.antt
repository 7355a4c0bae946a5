-- ===== src/Handler/Pages.antt =====
-- The handlers that show a page: src/handler/home.c, src/handler/notFound.c, src/handler/login.c,
-- src/handler/logout.c and src/handler/signup.c. The files of the templates, the depth of their
-- nesting, the time, the random text of a session and the texts of `Cookie_gen_expire` are
-- arguments.
pub mod Login
pub mod Signup
mod Tests
use facebooc.Base.{
  ℕ, ◌≡◌, refl, Bool, true, false, Option, none, some, List, [], ◌∷◌, ◌++◌, Bytes, codes, ◌==◌,
  if◌then◌else◌, Run, ok, fault, ◌>>=◌,
}
use facebooc.Base.Int.{ℤ}
use facebooc.BasicString.{BasicString, init}
use facebooc.Http.Body.{body_get}
use facebooc.Http.Form.{Entry}
use facebooc.Http.Cookies.{cookie_init, cookie_set_attr, expire}
use facebooc.Database.{Sqlite}
use facebooc.Models.Account.{
  Account, account_auth, account_create, account_check_email, account_check_username,
}
use facebooc.Models.Session.{Session, session_create}
use facebooc.Request.{Request}
use facebooc.Response.{
  Response, response_new, response_set_status, response_new_redirect, response_add_header,
  response_add_cookie, response_set_body_move,
}
use facebooc.Template.{Template, template_new, template_render}
use facebooc.Handler.Account.{get_account, set_all}
use facebooc.Handler.Actions.{is_post, to_dashboard}
use facebooc.Handler.Signup.{Check, Form, checks, registers}

-- What a handler takes from outside.
pub record Outside : Type 0 where
  pub files : Bytes → Option Bytes
  pub depth : ℕ
  pub digest : Bytes → Bytes
  pub now : ℤ
  pub sid : Bytes
  pub expires_later : Bytes
  pub expires_before : Bytes

-- The page as the body of a response.
unfoldable pub with_body : ℕ → Option BasicString → Run Response
with_body status none = fault
with_body status (some page) =
    ok (response_set_body_move (response_set_status response_new status) page)

unfoldable pub show_page : Outside → ℕ → Template → Run Response
show_page out status template = do
  page ← template_render out.depth out.files template
  with_body status page

-- `expire_string` and the cookie with the session's text.
unfoldable pub add_sid : Response → Bytes → Bytes → Run Response
add_sid response sid expires = response_add_cookie response (
    cookie_set_attr (cookie_init (record { key = codes "sid"; value = sid })) expire (some expires))

-- The answer with a session.
unfoldable pub session_response : Outside → Session → Run Response
session_response out session = do
  response ← add_sid (response_set_status response_new 200) session.session_id out.expires_later
  ok (
      response_add_header (response_set_status response 302)
        (record { key = codes "Location"; value = codes "/dashboard/" }))

-- What `login` sets for the two fields.
unfoldable pub login_fields : BasicString → BasicString → List (Bytes × Bytes)
login_fields username password =
    (if username.size == 0
      then (codes "usernameError", codes "Username is missing!") ∷ []
      else (codes "formUsername", username.bytes) ∷ [])
    ++ (if password.size == 0
        then (codes "passwordError", codes "Password is missing!") ∷ []
        else [])

-- What `signup` sets for its checks.
unfoldable pub check_pairs : List Check → List (Bytes × Bytes)
check_pairs [] = []
check_pairs (c ∷ cs) =
    let rest = check_pairs cs in elim c.key [ [] ↦ rest | d ∷ key ↦ (d ∷ key, c.value) ∷ rest ]

unfoldable pub field : Request → Bytes → BasicString
field req key = init (body_get req.post_body key)

unfoldable pub form_of : Request → Form
form_of req = record {
  name = field req (codes "name");
  email = field req (codes "email");
  username = field req (codes "username");
  password = field req (codes "password");
  confirm_password = field req (codes "confirm-password");
}

module _ (S : Sqlite) (out : Outside) where
  -- `home`
  unfoldable pub home_handler : S.Db → Request → Run (S.Db × Response)
  home_handler db req = do
    my_acc ← get_account S db req.cookies
    elim my_acc [
      | some me ↦ ok (db, to_dashboard)
      | none ↦ do
        template ←
            set_all (template_new (codes "templates/index.html")) 1
              ((codes "active", codes "home") ∷ (codes "subtitle", codes "Home") ∷ [])
        page ← show_page out 200 template
        ok (db, page)
    ]

  -- `notFound`
  unfoldable pub not_found_handler : S.Db → Request → Run (S.Db × Response)
  not_found_handler db req = do
    my_acc ← get_account S db req.cookies
    template ← set_all (template_new (codes "templates/404.html")) 1 (
        (codes "loggedIn", elim my_acc [ none ↦ [] | some me ↦ codes "t" ])
        ∷ (codes "subtitle", codes "404 Not Found")
        ∷ [])
    page ← show_page out 404 template
    ok (db, page)

  -- The answer of `login` to a session; without one the fields are deleted twice.
  unfoldable pub logged_in : S.Db → Option Session → Run (S.Db × Response)
  logged_in db none = fault
  logged_in db (some session) = do response ← session_response out session; ok (db, response)

  -- A POST to `login`.
  unfoldable pub login_post : S.Db → Template → BasicString → BasicString → Run (S.Db × Response)
  login_post db template username password = do
    filled ← set_all template 3 (login_fields username password)
    if account_auth S db out.digest (some username) (some password)
        then (do
          (db', session) ←
              session_create S db out.digest out.now out.sid username.bytes password.bytes
          logged_in db' session)
        else (do
          failed ←
              set_all filled 5 ((codes "usernameError", codes "Invalid username or password.") ∷ [])
          page ← show_page out 200 failed
          ok (db, page))

  -- `login`
  unfoldable pub login_handler : S.Db → Request → Run (S.Db × Response)
  login_handler db req = do
    my_acc ← get_account S db req.cookies
    elim my_acc [
      | some me ↦ ok (db, to_dashboard)
      | none ↦ do
        template ←
            set_all (template_new (codes "templates/login.html")) 1
              ((codes "active", codes "login") ∷ (codes "subtitle", codes "Login") ∷ [])
        if is_post req.method
            then login_post db template (field req (codes "username"))
                (field req (codes "password"))
            else (do page ← show_page out 200 template; ok (db, page))
    ]

  -- `logout`: the session stays in the database, and the cookie is replaced by one that is over.
  unfoldable pub logout_handler : S.Db → Request → Run (S.Db × Response)
  logout_handler db req = do
    my_acc ← get_account S db req.cookies
    elim my_acc [
      | none ↦ ok (db, response_new_redirect (codes "/"))
      | some me ↦ do
        response ← add_sid (response_new_redirect (codes "/")) [] out.expires_before
        ok (db, response)
    ]

  -- A POST to `signup`.
  unfoldable pub signup_post : S.Db → Template → Form → Run (S.Db × Response)
  signup_post db template form = do
    let email_free = account_check_email S db form.email
    let username_free = account_check_username S db form.username
    filled ← set_all template 3 (check_pairs (checks form email_free username_free))
    if registers form email_free username_free
        then (do
          (db', account) ←
              account_create S db out.digest out.now form.name form.email form.username
                form.password
          ok (db', response_new_redirect (codes "/login/")))
        else (do page ← show_page out 200 filled; ok (db, page))

  -- `signup`
  unfoldable pub signup_handler : S.Db → Request → Run (S.Db × Response)
  signup_handler db req = do
    my_acc ← get_account S db req.cookies
    elim my_acc [
      | some me ↦ ok (db, to_dashboard)
      | none ↦ do
        template ←
            set_all (template_new (codes "templates/signup.html")) 1
              ((codes "active", codes "signup") ∷ (codes "subtitle", codes "Sign Up") ∷ [])
        if is_post req.method
            then signup_post db template (form_of req)
            else (do page ← show_page out 200 template; ok (db, page))
    ]
