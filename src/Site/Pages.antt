-- ===== src/Site/Pages.antt =====
-- The handlers of src/handler that show a page, sign up, log in or log out, as steps of the tables.
use facebooc.Base.{
  refl, Bool, Option, none, some, [], ◌∷◌, codes, Run, ok, ◌>>=◌, Gives, bind-Gives, bind-any,
  if-Gives,
}
use facebooc.BasicString.{BasicString}
use facebooc.Database.{Sqlite}
use facebooc.Database.Tables.{Tables}
use facebooc.Models.Account.{
  account_auth, account_check_email, account_check_username, account_create,
}
use facebooc.Models.Session.{Session, session_create}
use facebooc.Models.Sql.{IsReading, IsWriting}
use facebooc.Handler.Account.{get_account, set_all}
use facebooc.Handler.Actions.{is_post}
use facebooc.Handler.Pages.{
  Outside, show_page, add_sid, session_response, login_fields, check_pairs, field, form_of,
  home_handler, not_found_handler, logged_in, login_post, login_handler, logout_handler,
  signup_post, signup_handler,
}
use facebooc.Handler.Signup.{Form, checks, registers}
use facebooc.Request.{Request}
use facebooc.Response.{Response, response_new_redirect}
use facebooc.Template.{Template, template_new}
use facebooc.Site.Actions.{Acts, Allowed, for_account}
use facebooc.Site.Sound.{IsSound}
use facebooc.Site.Step.{Step, unchanged}
use facebooc.Site.Steps.{session_create-Step, account_create-Step}

module _ (S : Sqlite) (view : S.Db → Tables) (reading : IsReading S view)
    (writing : IsWriting S view) where
  module _ (out : Outside) (db : S.Db) (sound : IsSound (view db)) (req : Request) where
    -- Whatever is computed for the answer, the database is the one that was there.
    shows :
        {A : Type 0} (r : Run A) (f : A → Response)
        → Gives (Allowed S view db req) (r >>= λ a. ok (db, f a))
    shows r f = bind-any (Allowed S view db req) r (λ a. ok (db, f a)) (λ a. unchanged refl)

    login_post-Step :
        (template : Template) (username password : BasicString)
        → Gives (Allowed S view db req) (login_post S out db template username password)
    unfolding login_post logged_in
    login_post-Step template username password =
        bind-any (Allowed S view db req) (set_all template 3 (login_fields username password)) _
          (λ filled.
            if-Gives (Allowed S view db req)
              (account_auth S db out.digest (some username) (some password)) _ _
              (bind-Gives (Allowed S view db req) (Allowed S view db req)
                (session_create S db out.digest out.now out.sid username.bytes password.bytes) _
                (session_create-Step (Acts S db req) S view reading writing db out.digest out.now
                  out.sid username.bytes password.bytes)
                (λ (d, session) kept. answers d session kept))
              (bind-any (Allowed S view db req)
                (set_all filled 5
                  ((codes "usernameError", codes "Invalid username or password.") ∷ []))
                _ (λ failed. shows (show_page out 200 failed) (λ page. page))))
      where
        answers :
            (d : S.Db) (session : Option Session)
            → Step (Acts S db req) (view db) (view d)
            → Gives (Allowed S view db req) (logged_in S out d session)
        answers d none kept = tt
        answers d (some session) kept =
            bind-any (Allowed S view db req) (session_response out session)
              (λ response. ok (d, response)) (λ response. kept)

    signup_post-Step :
        (template : Template) (form : Form)
        → Gives (Allowed S view db req) (signup_post S out db template form)
    unfolding signup_post
    signup_post-Step template form =
        bind-any (Allowed S view db req)
          (set_all template 3 (check_pairs (checks form email_free username_free))) _
          (λ filled.
            if-Gives (Allowed S view db req) (registers form email_free username_free) _ _
              (bind-Gives (Allowed S view db req) (Allowed S view db req)
                (account_create S db out.digest out.now form.name form.email form.username
                  form.password)
                _
                (account_create-Step (Acts S db req) S view reading writing db out.digest out.now
                  form.name form.email form.username form.password)
                (λ (d, account) kept. kept))
              (shows (show_page out 200 filled) (λ page. page)))
      where
        email_free : Bool
        email_free = account_check_email S db form.email

        username_free : Bool
        username_free = account_check_username S db form.username

    pub home_handler-Step : Gives (Allowed S view db req) (home_handler S out db req)
    unfolding home_handler
    home_handler-Step =
        for_account S view reading writing db sound out.now req (Allowed S view db req) _
          (bind-any (Allowed S view db req)
            (set_all (template_new (codes "templates/index.html")) 1 _) _
            (λ template. shows (show_page out 200 template) (λ page. page)))
          (λ me acts known. unchanged refl)

    pub not_found_handler-Step : Gives (Allowed S view db req) (not_found_handler S out db req)
    unfolding not_found_handler
    not_found_handler-Step =
        bind-any (Allowed S view db req) (get_account S db req.cookies) _ (λ me.
          bind-any (Allowed S view db req) (set_all (template_new (codes "templates/404.html")) 1 _)
            _ (λ template. shows (show_page out 404 template) (λ page. page)))

    pub login_handler-Step : Gives (Allowed S view db req) (login_handler S out db req)
    unfolding login_handler
    login_handler-Step =
        for_account S view reading writing db sound out.now req (Allowed S view db req) _
          (bind-any (Allowed S view db req)
            (set_all (template_new (codes "templates/login.html")) 1 _) _
            (λ template.
              if-Gives (Allowed S view db req) (is_post req.method) _ _
                (login_post-Step template (field req (codes "username"))
                  (field req (codes "password")))
                (shows (show_page out 200 template) (λ page. page))))
          (λ me acts known. unchanged refl)

    pub logout_handler-Step : Gives (Allowed S view db req) (logout_handler S out db req)
    unfolding logout_handler
    logout_handler-Step =
        for_account S view reading writing db sound out.now req (Allowed S view db req) _
          (unchanged refl)
          (λ me acts known.
            shows (add_sid (response_new_redirect (codes "/")) [] out.expires_before)
              (λ response. response))

    pub signup_handler-Step : Gives (Allowed S view db req) (signup_handler S out db req)
    unfolding signup_handler
    signup_handler-Step =
        for_account S view reading writing db sound out.now req (Allowed S view db req) _
          (bind-any (Allowed S view db req)
            (set_all (template_new (codes "templates/signup.html")) 1 _) _
            (λ template.
              if-Gives (Allowed S view db req) (is_post req.method) _ _
                (signup_post-Step template (form_of req))
                (shows (show_page out 200 template) (λ page. page))))
          (λ me acts known. unchanged refl)
