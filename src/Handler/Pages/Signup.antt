-- ===== src/Handler/Pages/Signup.antt =====
-- A POST to `signup` with a password that is long enough: src/handler/signup.c.
use facebooc.Base.{
  ◌≡◌, refl, ap, subst, ◌∙◌, ◌≤◌, false, some, List, [], ◌∷◌, ◌++◌, map, Bytes, codes, ok,
}
use facebooc.BasicString.{BasicString, whole}
use facebooc.Base64.Injective.{IsText}
use facebooc.Database.{Sqlite}
use facebooc.Database.Tables.{Tables}
use facebooc.Models.Account.{account_check_email, account_check_username}
use facebooc.Models.Account.Users.{User, row_of, has_email, register}
use facebooc.Models.Account.Reading.{IsStored}
use facebooc.Models.Account.Writing.{new_user, account_create_lem}
use facebooc.Models.Sql.{IsReading, IsWriting}
use facebooc.Response.{response_new_redirect}
use facebooc.Template.{Template}
use facebooc.Handler.Account.{set_all}
use facebooc.Handler.Signup.{Form, checks, registers-password}
use facebooc.Handler.Pages.{Outside, check_pairs, signup_post}

-- The fields of the request.
abbrev pub sent_form : Bytes → Bytes → Bytes → BasicString → BasicString → Form
sent_form name email username password confirm = record {
  name = whole name;
  email = whole email;
  username = whole username;
  password = password;
  confirm_password = confirm;
}

module _ (S : Sqlite) (view : S.Db → Tables) (reading : IsReading S view)
    (writing : IsWriting S view) (db : S.Db) (us : List User) (out : Outside)
    (name email username : Bytes) (password confirm : BasicString) (template : Template)
    (filled : Template) (stored : IsStored S view db us) (name_text : IsText name)
    (email_text : IsText email) (username_text : IsText username)
    (free : has_email email us ≡ false) (long : 8 ≤ password.size) where
  abbrev form : Form
  form = sent_form name email username password confirm

  -- The user of the request.
  abbrev joined : User
  joined =
      new_user (writing.fresh_account (view db)) out.digest out.now name email username password

  register_free : register joined us ≡ (us ++ joined ∷ [], some joined)
  unfolding register new_user
  register_free = rw free refl

  -- Where sqlite3 answers as `IsReading` and `IsWriting` say, on a database that stands for a list of
  -- users, for a name, an email and a username that can be encoded and decoded, an email that no user
  -- has, a password of eight bytes or more and a template that takes what the checks set: a POST to
  -- `signup` adds the user to the list, changes nothing else of the database, and is answered by a
  -- redirect to the login, whatever confirmation is sent and whether or not a user has the username.
  pub signup_post-registers :
      set_all template 3 (
          check_pairs (
            checks form
              (account_check_email S db (whole email))
              (account_check_username S db (whole username))))
        ≡ ok filled
      → (db' : S.Db) × (signup_post S out db template form
          ≡ ok (db', response_new_redirect (codes "/login/")))
        × (view db' ≡ record (view db) { accounts = map row_of (us ++ joined ∷ []) })
        × IsStored S view db' (us ++ joined ∷ [])
  unfolding signup_post
  signup_post-registers set =
      let made =
        account_create_lem S view reading writing db us out.digest out.now name email username
          password stored name_text email_text username_text in
      (
        made.0,
        rw
            (
              set,
              registers-password form (account_check_email S db (whole email))
                  (account_check_username S db (whole username)) long,
              made.1,
            )
            refl,
        made.2 ∙ ap (λ r. record (view db) { accounts = map row_of r.0 }) register_free,
        subst (λ r. IsStored S view made.0 r.0) register_free made.3,
      )
